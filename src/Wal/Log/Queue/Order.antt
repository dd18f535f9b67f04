-- ===== src/Wal/Log/Queue/Order.antt =====
-- The answers come in the order of the writes, and after the entries are in the log.
use warpdb.Base.{
  ℕ, ◌≡◌, refl, sym, ap, ◌∙◌, Bool, true, false, ◌&&◌, false≢true, if◌then◌else◌, List, [], ◌∷◌,
  ◌++◌, map, All, zero, suc, Bytes, ◌+◌, length,
}
use mathlib.Core.Path.{subst}
use mathlib.Core.List.{append_assoc, append-nil}
use warpdb.Wal.Record.{Record}
use warpdb.Wal.Format.{encode_record}
use warpdb.Wal.Replay.Segments.{IsReadable}
use warpdb.Wal.Log.{
  Log, Writes, append_file, is_full, rotate, all_written, fails_at, encode_batch, flush_batch,
}
use warpdb.Wal.Log.Holding.{Holds, flush-Holds}
use warpdb.Wal.Log.Queue.{
  Queue, waiting, send, receive, answer, FlusherStep, receives, answers_batch, Run, done, sends,
  flushes, idle,
}

-- The entries that have an answer.
unfoldable pub answered : List (Record × Bool) → List Record
answered [] = []
answered ((r, told) ∷ ans) = r ∷ answered ans

-- All of these answers are `nil`.
abbrev pub AllTold : List (Record × Bool) → Type 0
AllTold = All (λ (a : Record × Bool). a.1 ≡ true)

answered-append :
    (ans bs : List (Record × Bool)) → answered (ans ++ bs) ≡ answered ans ++ answered bs
unfolding answered
answered-append [] bs = refl
answered-append ((r, told) ∷ ans) bs = ap (λ xs. r ∷ xs) (answered-append ans bs)

answered-map : (told : Bool) (rs : List Record) → answered (map (λ r. (r, told)) rs) ≡ rs
unfolding answered
answered-map told [] = refl
answered-map told (r ∷ rs) = ap (λ xs. r ∷ xs) (answered-map told rs)

-- All entries that were sent, in order.
abbrev sent_so_far : Queue → List Record
sent_so_far q = answered q.answers ++ waiting q

send-order : (r : Record) (q : Queue) → sent_so_far (send r q) ≡ sent_so_far q ++ r ∷ []
unfolding send
send-order r q = sym (rw (append_assoc, append_assoc) refl)

step-order : (q q' : Queue) → FlusherStep q q' → sent_so_far q' ≡ sent_so_far q
unfolding receive answer
step-order _ _ (receives q r rest e) =
    ap (λ rs. answered q.answers ++ rs)
      (append_assoc q.batch (r ∷ []) rest ∙ ap (λ rs. q.batch ++ rs) (sym e))
step-order _ _ (answers_batch q r rest writes synced e none_left) =
    ap (λ rs. rs ++ q.pending)
      (answered-append q.answers _ ∙ ap (λ rs. answered q.answers ++ rs) (answered-map _ q.batch))
    ∙ append_assoc (answered q.answers) q.batch q.pending

Run-order :
    {m : ℕ} (q q' : Queue) (sent : List Record) (n : ℕ)
    → Run m q sent n q'
    → sent_so_far q' ≡ sent_so_far q ++ sent
Run-order _ _ _ _ (done q) = sym (append-nil (sent_so_far q))
Run-order _ _ _ _ (sends q q' r sent n c w x) =
    Run-order (send r q) q' sent n x
    ∙ ap (λ rs. rs ++ sent) (send-order r q)
    ∙ append_assoc (sent_so_far q) (r ∷ []) sent
Run-order _ _ _ _ (flushes q q' q'' sent n s x) =
    Run-order q' q'' sent n x ∙ ap (λ rs. rs ++ sent) (step-order q q' s)

-- Writes that all come through leave what they leave where none can fail.
all_through :
    (writes : Writes) (batch : List Record)
    → (encode_batch writes batch).1.1 ≡ true
    → encode_batch writes batch ≡ encode_batch all_written batch
unfolding encode_batch
all_through all_written batch h = refl
all_through (fails_at i n) [] h = refl
all_through (fails_at zero n) (r ∷ rs) h = absurd (false≢true h)
all_through (fails_at (suc i) n) (r ∷ rs) h =
    ap
      (λ (x : Bytes × (ℕ × Bool)).
        (encode_record r ++ x.0, (length (encode_record r) + x.1.0, x.1.1)))
      (all_through (fails_at i n) rs h)

-- The log after the writes of a round.
abbrev after_round : Log → Bytes × (ℕ × Bool) → Log
after_round w x =
    let w' : Log = record w {
      files = append_file w.seq x.0 w.files;
      current_sz = w.current_sz + x.1.0;
    } in
    if is_full w' then rotate w' else w'

flush_batch-told :
    (writes : Writes) (synced : Bool) (batch : List Record) (w : Log)
    → (flush_batch writes synced batch w).1 ≡ true
    → (flush_batch writes synced batch w).0 ≡ (flush_batch all_written true batch w).0
unfolding flush_batch
flush_batch-told writes synced batch w h =
    ap (after_round w) (all_through writes batch (both (encode_batch writes batch).1.1 synced h))
  where
    both : (a b : Bool) → (a && b) ≡ true → a ≡ true
    both true b e = refl
    both false b e = e

-- The answers that a step adds.
AllTold-front : (ans bs : List (Record × Bool)) → AllTold (ans ++ bs) → AllTold ans
AllTold-front [] bs h = tt
AllTold-front (a ∷ ans) bs h = (h.0, AllTold-front ans bs h.1)

AllTold-back : (ans bs : List (Record × Bool)) → AllTold (ans ++ bs) → AllTold bs
AllTold-back [] bs h = h
AllTold-back (a ∷ ans) bs h = AllTold-back ans bs h.1

All-front : (xs ys : List Record) → All IsReadable (xs ++ ys) → All IsReadable xs
All-front [] ys h = tt
All-front (x ∷ xs) ys h = (h.0, All-front xs ys h.1)

-- The entries whose writers were told of success are what the log holds.
IsKept : List Record → Queue → Type 0
IsKept written q = AllTold q.answers → Holds q.log (written ++ answered q.answers)

told_by :
    (rs : List Record) (told : Bool) (r : Record) (rest : List Record)
    → rs ≡ r ∷ rest
    → AllTold (map (λ x. (x, told)) rs)
    → told ≡ true
told_by rs told r rest e h = (subst (λ xs. AllTold (map (λ x. (x, told)) xs)) e h).0

step-IsKept :
    (written : List Record) (q q' : Queue)
    → FlusherStep q q'
    → All IsReadable (waiting q)
    → IsKept written q
    → IsKept written q'
unfolding IsKept receive answer
step-IsKept written _ _ (receives q r rest e) readable k h = k h
step-IsKept written _ _ (answers_batch q r rest writes synced e none_left) readable k h =
    let told = told_by q.batch _ r rest e (AllTold-back q.answers _ h) in
    subst
      (λ (x : Log). Holds x (
        written
        ++ answered
            (q.answers ++ map (λ r'. (r', (flush_batch writes synced q.batch q.log).1)) q.batch)))
      (sym (flush_batch-told writes synced q.batch q.log told))
      (subst (Holds (flush_batch all_written true q.batch q.log).0)
        (append_assoc written (answered q.answers) q.batch
          ∙ ap (λ rs. written ++ rs)
              (sym (
                answered-append q.answers _
                ∙ ap (λ rs. answered q.answers ++ rs) (answered-map _ q.batch))))
        (flush-Holds q.log (written ++ answered q.answers) q.batch
          (All-front q.batch q.pending readable) (k (AllTold-front q.answers _ h))))

send-IsReadable :
    (r : Record) (q : Queue) (sent : List Record)
    → All IsReadable (waiting q ++ r ∷ sent)
    → All IsReadable (waiting (send r q) ++ sent)
unfolding send
send-IsReadable r q sent h =
    subst (All IsReadable)
      (sym (append_assoc (waiting q) (r ∷ []) sent)
        ∙ ap (λ rs. rs ++ sent) (append_assoc q.batch q.pending (r ∷ [])))
      h

All-after : (xs ys : List Record) → All IsReadable (xs ++ ys) → All IsReadable ys
All-after [] ys h = h
All-after (x ∷ xs) ys h = All-after xs ys h.1

step-IsReadable :
    (q q' : Queue) (sent : List Record)
    → FlusherStep q q'
    → All IsReadable (waiting q ++ sent)
    → All IsReadable (waiting q' ++ sent)
unfolding receive answer
step-IsReadable _ _ sent (receives q r rest e) h =
    subst (λ rs. All IsReadable (rs ++ sent))
      (ap (λ rs. q.batch ++ rs) e ∙ sym (append_assoc q.batch (r ∷ []) rest)) h
step-IsReadable _ _ sent (answers_batch q r rest writes synced e none_left) h =
    All-after q.batch (q.pending ++ sent) (rw⁻¹ append_assoc h)

Run-IsKept :
    {m : ℕ} (written : List Record) (q q' : Queue) (sent : List Record) (n : ℕ)
    → Run m q sent n q'
    → All IsReadable (waiting q ++ sent)
    → IsKept written q
    → IsKept written q'
Run-IsKept written _ _ _ _ (done q) h k = k
Run-IsKept written _ _ _ _ (sends q q' r sent n c w x) h k =
    Run-IsKept written (send r q) q' sent n x (send-IsReadable r q sent h) (unfold IsKept send in k)
Run-IsKept written _ _ _ _ (flushes q q' q'' sent n s x) h k =
    Run-IsKept written q' q'' sent n x (step-IsReadable q q' sent s h)
      (step-IsKept written q q' s (All-front (waiting q) sent h) k)

-- What a run from an idle log has done.
pub record Answers (written sent : List Record) (q : Queue) : Type 0 where
  pub order : answered q.answers ++ waiting q ≡ sent
  pub kept : Holds q.log (written ++ answered q.answers)

-- In every run of the writers and the flusher from a log that holds some records, with nothing on
-- its way, whose answers so far are all nil, the entries that were answered and then those that
-- wait are the entries that were sent, in their order, and the log holds the old records and then
-- those of the answered entries, if the decoder can read the entries.
pub Run-Answers :
    (writers : ℕ) (w : Log) (written sent : List Record) (n : ℕ) (q : Queue)
    → Holds w written
    → All IsReadable sent
    → Run writers (idle w) sent n q
    → AllTold q.answers
    → Answers written sent q
Run-Answers writers w written sent n q holds readable x told = record {
  order = unfold answered in Run-order (idle w) q sent n x;
  kept =
      unfold IsKept answered in
      Run-IsKept written (idle w) q sent n x readable (λ t. rw (append-nil written) holds) told;
}
