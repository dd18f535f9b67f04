-- ===== src/Commands/Strings/Counters.antt =====
-- INCRBY over the memory engine, which runs Incr as many times as it is told.
use warpdb.Base.{
  ℕ, zero, suc, ◌≡◌, refl, ap, ◌∙◌, sym, false, some, [], ◌∷◌, Bytes, beq, beq_refl, ℤ, pos, negsuc,
  ◌+ℤ◌, wrap64, IsInt64, arith,
}
use mathlib.Core.Path.{subst}
use warpdb.Strconv.{atoi, itoa}
use warpdb.Strconv.RoundTrip.{atoi-itoa}
use warpdb.Store.{Store, Result, ok}
use warpdb.Store.Values.{incr}
use warpdb.Store.Slots.{Slot, slot}
use warpdb.Store.Slots.Spec.{run, spec, incr_op, number, Reply}
use warpdb.Store.Slots.Spec.Refinement.{run-Implements}
use warpdb.Engine.{Answer, answered}
use warpdb.Engine.Memory.{memory_engine}
use warpdb.Protocol.{write_integer}
use warpdb.Commands.{Handler, Env}
use warpdb.Commands.Strings.{repeat_step, repeat_next, incrby_command}

wrap64-IsInt64 : (z : ℤ) → IsInt64 z → wrap64 z ≡ z
unfolding wrap64
wrap64-IsInt64 (pos n) h = ground arith
wrap64-IsInt64 (negsuc n) h = ground arith

zero_add : (n : ℕ) → pos 0 +ℤ pos n ≡ pos n
unfolding ◌+ℤ◌
zero_add n = ground arith

add_suc : (v : ℤ) (n : ℕ) → (v +ℤ pos 1) +ℤ pos n ≡ v +ℤ pos (suc n)
unfolding ◌+ℤ◌
add_suc (pos a) n = ground arith
add_suc (negsuc a) n = ground arith

between : (v : ℤ) (n : ℕ) → IsInt64 v → IsInt64 (v +ℤ pos (suc n)) → IsInt64 (v +ℤ pos 1)
unfolding ◌+ℤ◌
between (pos a) n h k = ground arith
between (negsuc a) n h k = ground arith

-- The key holds the number `v`, and the rest of its slot is that of `sl`.
Counts : Bytes → Slot → ℤ → Store → Type 0
Counts key sl v s = slot key s ≡ record sl { string = some (itoa v) }

-- Incr of a key that holds `v` makes it `v + 1`, if that fits.
incr_op-spec :
    (sl : Slot) (v : ℤ)
    → IsInt64 v
    → IsInt64 (v +ℤ pos 1)
    → spec incr_op (record sl { string = some (itoa v) })
      ≡ (record sl { string = some (itoa (v +ℤ pos 1)) }, number (ok (v +ℤ pos 1)))
unfolding spec
incr_op-spec sl v h k = rw (atoi-itoa v h, wrap64-IsInt64 (v +ℤ pos 1) k) refl

abbrev read_number : Reply → Result ℤ → Result ℤ
read_number (number r) other = r
read_number _ other = other

-- Incr adds one to the number at its key, and to nothing else.
record Counted (key : Bytes) (s : Store) (w : ℤ) (s' : Store) (r : Result ℤ) : Type 0 where
  pub counts : Counts key (slot key s) w s'
  pub others : (j : Bytes) → beq key j ≡ false → slot j s' ≡ slot j s
  pub replies : r ≡ ok w

incr-Counted :
    (key : Bytes) (s : Store) (v : ℤ)
    → (slot key s).string ≡ some (itoa v)
    → IsInt64 v
    → IsInt64 (v +ℤ pos 1)
    → Counted key s (v +ℤ pos 1) (incr key s).0 (incr key s).1
unfolding run
incr-Counted key s v e h k = record {
  counts =
      unfold Counts in
      ((run-Implements incr_op key s).slots key
        ∙ rw beq_refl (ap (λ (x : Slot × Reply). x.0) here));
  others = λ j d. (run-Implements incr_op key s).slots j ∙ rw d refl;
  replies =
      ap (λ x. read_number x (incr key s).1)
        ((run-Implements incr_op key s).reply ∙ ap (λ (x : Slot × Reply). x.1) here);
}
  where
    here :
        spec incr_op (slot key s)
        ≡ (record (slot key s) { string = some (itoa (v +ℤ pos 1)) }, number (ok (v +ℤ pos 1)))
    here =
        ap (λ o. spec incr_op (record (slot key s) { string = o })) e
        ∙ incr_op-spec (slot key s) v h k

add_zero : (v : ℤ) → v +ℤ pos 0 ≡ v
unfolding ◌+ℤ◌
add_zero (pos a) = ground arith
add_zero (negsuc a) = ground arith

-- What the loop of INCRBY leaves.
record Added (key : Bytes) (s : Store) (w : ℤ) (out : Store × Answer ℤ) : Type 0 where
  pub counts : Counts key (slot key s) w out.0
  pub others : (j : Bytes) → beq key j ≡ false → slot j out.0 ≡ slot j s
  pub replies : out.1 ≡ answered (ok w)

-- The loop goes on after an Incr.
Added-next :
    (key : Bytes) (s : Store) (v w : ℤ) (n : ℕ) (result : ℤ)
    → Counted key s v (incr key s).0 (incr key s).1
    → Added key (incr key s).0 w (repeat_step (memory_engine.incr key) n v (incr key s).0)
    → Added key s w (repeat_step (memory_engine.incr key) (suc n) result s)
unfolding repeat_step repeat_next Counts
Added-next key s v w n result first rest = rw first.replies (record {
  counts = rest.counts ∙ ap (λ (sl : Slot). record sl { string = some (itoa w) }) first.counts;
  others = λ j d. rest.others j d ∙ first.others j d;
  replies = rest.replies;
})

repeat_incr :
    (key : Bytes) (n : ℕ) (v : ℤ) (s : Store)
    → (slot key s).string ≡ some (itoa v)
    → IsInt64 v
    → IsInt64 (v +ℤ pos n)
    → Added key s (v +ℤ pos n) (repeat_step (memory_engine.incr key) n v s)
unfolding repeat_step Counts
repeat_incr key zero v s e h k = rw (add_zero v) (record {
  counts = ap (λ o. record (slot key s) { string = o }) e;
  others = λ j d. refl;
  replies = refl;
})
repeat_incr key (suc n) v s e h k =
    let first = incr-Counted key s v e h (between v n h k) in
    subst (λ w. Added key s w (repeat_step (memory_engine.incr key) (suc n) v s)) (add_suc v n)
      (Added-next key s (v +ℤ pos 1) ((v +ℤ pos 1) +ℤ pos n) n v first (
        repeat_incr key n (v +ℤ pos 1) (incr key s).0 (ap (λ (sl : Slot). sl.string) first.counts)
          (between v n h k) (subst IsInt64 (sym (add_suc v n)) k)))

-- The loop with a round at least, whatever `result` holds before it.
repeat_incr_once :
    (key : Bytes) (n : ℕ) (result v : ℤ) (s : Store)
    → (slot key s).string ≡ some (itoa v)
    → IsInt64 v
    → IsInt64 (v +ℤ pos (suc n))
    → Added key s (v +ℤ pos (suc n)) (repeat_step (memory_engine.incr key) (suc n) result s)
unfolding Counts
repeat_incr_once key n result v s e h k =
    let first = incr-Counted key s v e h (between v n h k) in
    subst (λ w. Added key s w (repeat_step (memory_engine.incr key) (suc n) result s)) (add_suc v n)
      (Added-next key s (v +ℤ pos 1) ((v +ℤ pos 1) +ℤ pos n) n result first (
        repeat_incr key n (v +ℤ pos 1) (incr key s).0 (ap (λ (sl : Slot). sl.string) first.counts)
          (between v n h k) (subst IsInt64 (sym (add_suc v n)) k)))

-- Over the memory engine, INCRBY of a number greater than 0 adds it to the int64 that the key
-- holds, if the sum is an int64, answers with the sum, keeps the rest of the slot of the key, and
-- changes no other key.
pub incrby_command-adds :
    (env : Env) (key amount : Bytes) (v : ℤ) (n : ℕ) (h : Handler Store)
    → atoi amount ≡ some (pos (suc n))
    → (slot key h.store).string ≡ some (itoa v)
    → IsInt64 v
    → IsInt64 (v +ℤ pos (suc n))
    → let (h', reply) = incrby_command memory_engine env (key ∷ amount ∷ []) h in
      (slot key h'.store ≡ record (slot key h.store) { string = some (itoa (v +ℤ pos (suc n))) })
      × (((j : Bytes) → beq key j ≡ false → slot j h'.store ≡ slot j h.store)
          × (reply ≡ write_integer (v +ℤ pos (suc n))))
unfolding incrby_command Counts
incrby_command-adds env key amount v n h a e i k =
    let r = repeat_incr_once key n (pos 0) v h.store e i k in
    rw a (r.counts, (r.others, rw r.replies refl))
