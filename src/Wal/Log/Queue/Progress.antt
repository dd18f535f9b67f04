-- ===== src/Wal/Log/Queue/Progress.antt =====
-- How long a writer of the log waits.
use warpdb.Base.{
  ℕ, suc, ◌+◌, ◌≤◌, ◌<◌, ◌≡◌, refl, ap, ◌⊎◌, inl, inr, Bool, true, List, [], ◌∷◌, ◌++◌, map, length,
  length-append, arith,
}
use warpdb.Wal.Record.{Record}
use warpdb.Wal.Log.{all_written, flush_batch}
use warpdb.Wal.Log.Queue.{
  Queue, waiting, send, receive, answer, FlusherStep, receives, answers_batch, Run, done, sends,
  flushes,
}

-- Between two states: the batch has grown by the steps of the flusher, or it was answered.
Moved : Queue → ℕ → Queue → Type 0
Moved q n q' =
    (n + length q.batch ≤ length q'.batch) × (length q.answers ≤ length q'.answers)
    ⊎ (length q.answers < length q'.answers)

length-map :
    (told : Bool) (rs : List Record)
    → length {A = Record × Bool} (map (λ r. (r, told)) rs) ≡ length rs
length-map told [] = refl
length-map told (r ∷ rs) = ap suc (length-map told rs)

step-Moved : (q q' : Queue) → FlusherStep q q' → Moved q 1 q'
unfolding Moved receive answer
step-Moved _ _ (receives q r rest e) =
    inl (omega (arith, length-append q.batch (r ∷ [])), omega arith)
step-Moved _ _ (answers_batch q r rest writes synced e none_left) = inr (
    omega (
      arith,
      length-append q.answers (map (λ x. (x, (flush_batch writes synced q.batch q.log).1)) q.batch),
      length-map (flush_batch writes synced q.batch q.log).1 q.batch,
      ap length e,
    ))

Moved-trans :
    (q q' q'' : Queue) (m n k : ℕ) → m + n ≡ k → Moved q m q' → Moved q' n q'' → Moved q k q''
unfolding Moved
Moved-trans q q' q'' m n k e (inl (a, b)) (inl (c, d)) = inl (omega arith, omega arith)
Moved-trans q q' q'' m n k e (inl (a, b)) (inr c) = inr (omega arith)
Moved-trans q q' q'' m n k e (inr a) (inl (c, d)) = inr (omega arith)
Moved-trans q q' q'' m n k e (inr a) (inr c) = inr (omega arith)

send-Moved : (r : Record) (q : Queue) → Moved q 0 (send r q)
unfolding Moved send
send-Moved r q = inl (omega arith, omega arith)

Run-Moved : {m : ℕ} (q q' : Queue) (sent : List Record) (n : ℕ) → Run m q sent n q' → Moved q n q'
Run-Moved _ _ _ _ (done q) = unfold Moved in inl (omega arith, omega arith)
Run-Moved _ _ _ _ (sends q q' r sent n c w x) =
    Moved-trans q (send r q) q' 0 n n (omega arith) (send-Moved r q)
      (Run-Moved (send r q) q' sent n x)
Run-Moved _ _ _ _ (flushes q q' q'' sent n s x) =
    Moved-trans q q' q'' 1 n (suc n) (omega arith) (step-Moved q q' s) (Run-Moved q' q'' sent n x)

-- No more entries wait than there are writers.
send-few :
    (m : ℕ) (r : Record) (q : Queue) → length (waiting q) < m → length (waiting (send r q)) ≤ m
unfolding send
send-few m r q h = omega (
  arith,
  length-append q.batch (q.pending ++ r ∷ []),
  length-append q.pending (r ∷ []),
  length-append q.batch q.pending,
)

step-few : (q q' : Queue) → FlusherStep q q' → length (waiting q') ≤ length (waiting q)
unfolding receive answer
step-few _ _ (receives q r rest e) = omega (
  arith,
  ap length e,
  length-append q.batch q.pending,
  length-append (q.batch ++ r ∷ []) rest,
  length-append q.batch (r ∷ []),
)
step-few _ _ (answers_batch q r rest writes synced e none_left) =
    omega (arith, length-append q.batch q.pending)

Run-few :
    {m : ℕ} (q q' : Queue) (sent : List Record) (n : ℕ)
    → Run m q sent n q'
    → length (waiting q) ≤ m
    → length (waiting q') ≤ m
Run-few _ _ _ _ (done q) h = h
Run-few {m} _ _ _ _ (sends q q' r sent n c w x) h =
    Run-few (send r q) q' sent n x (send-few m r q w)
Run-few _ _ _ _ (flushes q q' q'' sent n s x) h =
    Run-few q' q'' sent n x (omega (arith, step-few q q' s))

can_go_on : (q : Queue) → (waiting q ≡ []) ⊎ ((q' : Queue) × FlusherStep q q')
can_go_on q = at q.pending q.batch refl refl
  where
    at :
        (ps bs : List Record)
        → q.pending ≡ ps
        → q.batch ≡ bs
        → (waiting q ≡ []) ⊎ ((q' : Queue) × FlusherStep q q')
    at (r ∷ rest) bs e f = inr (_, receives q r rest e)
    at [] (r ∷ rest) e f = inr (_, answers_batch q r rest all_written true f e)
    at [] [] e f = inl (rw (e, f) refl)

-- The flusher cannot go on for ever without an answer, nor stop while a writer waits.
pub record Progress (writers n : ℕ) (q q' : Queue) : Type 0 where
  pub soon : (n ≤ writers) ⊎ (length q.answers < length q'.answers)
  pub goes_on : (waiting q' ≡ []) ⊎ ((q'' : Queue) × FlusherStep q' q'')

-- With as many writers as there are, each of which waits for its answer before it writes again, a
-- run in which the flusher makes more steps than there are writers has a new answer in it, and
-- while an entry waits the flusher can make a step.
pub Run-Progress :
    (writers : ℕ) (q q' : Queue) (sent : List Record) (n : ℕ)
    → length (waiting q) ≤ writers
    → Run writers q sent n q'
    → Progress writers n q q'
unfolding Moved
Run-Progress writers q q' sent n few x = record {
  soon = soon (Run-Moved q q' sent n x);
  goes_on = can_go_on q';
}
  where
    soon : Moved q n q' → (n ≤ writers) ⊎ (length q.answers < length q'.answers)
    soon (inl (a, b)) =
        inl (omega (arith, Run-few q q' sent n x few, length-append q'.batch q'.pending))
    soon (inr a) = inr a
