-- ===== src/Wal/Log/Holding.antt =====
-- What the log holds, as an invariant of NewWAL, rotate and the flusher.
use warpdb.Base.{
  ℕ, ◌+◌, ◌<◌, ◌≡◌, refl, sym, ap, ◌∙◌, Bool, true, false, List, [], ◌∷◌, ◌++◌, Bytes, ◌==◌,
  if◌then◌else◌, All, arith, Bool-cases, inl, inr, ==_iff,
}
use mathlib.Core.Path.{ap₂, subst}
use mathlib.Core.List.{append_assoc, append-nil}
use warpdb.Wal.Record.{Record}
use warpdb.Wal.Format.{encode_record}
use warpdb.Wal.Replay.Segments.{encode_all, IsReadable}
use warpdb.Wal.Log.{
  Log, append_file, lists, write_manifest, rotate, new_wal, open_wal, all_written, encode_batch,
  flush_batch,
}

encode_all-append : (xs ys : List Record) → encode_all (xs ++ ys) ≡ encode_all xs ++ encode_all ys
unfolding encode_all
encode_all-append [] ys = refl
encode_all-append (r ∷ xs) ys = rw (encode_all-append xs ys, append_assoc) refl

pub encode_batch-all : (batch : List Record) → (encode_batch all_written batch).0 ≡ encode_all batch
unfolding encode_batch encode_all
encode_batch-all [] = refl
encode_batch-all (r ∷ rs) = ap (λ t. encode_record r ++ t) (encode_batch-all rs)

pub encode_batch-fine : (batch : List Record) → (encode_batch all_written batch).1.1 ≡ true
unfolding encode_batch
encode_batch-fine [] = refl
encode_batch-fine (r ∷ rs) = encode_batch-fine rs

-- The records of some segments, one segment after the other.
unfoldable pub records : (ℕ → List Record) → List ℕ → List Record
records rs [] = []
records rs (n ∷ ns) = rs n ++ records rs ns

records-append :
    (rs : ℕ → List Record) (ns ms : List ℕ) → records rs (ns ++ ms) ≡ records rs ns ++ records rs ms
unfolding records
records-append rs [] ms = refl
records-append rs (n ∷ ns) ms = rw (records-append rs ns ms, append_assoc) refl

-- More records in one segment.
add_to : ℕ → List Record → (ℕ → List Record) → ℕ → List Record
add_to n batch rs i = if i == n then rs i ++ batch else rs i

records_below :
    (n : ℕ) (batch : List Record) (rs : ℕ → List Record) (ns : List ℕ)
    → All (λ i. i < n) ns
    → records (add_to n batch rs) ns ≡ records rs ns
unfolding records add_to
records_below n batch rs [] h = refl
records_below n batch rs (i ∷ ns) h =
    ap₂ (λ xs ys. xs ++ ys) (ground (arith, h.0)) (records_below n batch rs ns h.1)

pub All-append {ℓ κ} :
    {A : Type ℓ} (P : A → Type κ) (xs ys : List A) → All P xs → All P ys → All P (xs ++ ys)
All-append P [] ys h k = k
All-append P (x ∷ xs) ys h k = (h.0, All-append P xs ys h.1 k)

-- The log holds the records `written`: the last segment of the manifest is the current one, each
-- segment holds whole records that the decoder can read, and no later segment holds any.
pub record Holds (w : Log) (written : List Record) : Type 0 where
  pub held : ℕ → List Record
  pub front : List ℕ
  pub manifest_is : w.manifest ≡ front ++ w.seq ∷ []
  pub below : All (λ n. n < w.seq) front
  pub files_are : (n : ℕ) → w.files n ≡ encode_all (held n)
  pub readable : (n : ℕ) → All IsReadable (held n)
  pub later : (n : ℕ) → w.seq < n → held n ≡ []
  pub content : records held w.manifest ≡ written

pub lists_below : (n : ℕ) (ns : List ℕ) → All (λ i. i < n) ns → lists n ns ≡ false
unfolding lists
lists_below n [] h = refl
lists_below n (i ∷ ns) h = rw (lists_below n ns h.1) (ground (arith, h.0))

pub All-mono : (n : ℕ) (ns : List ℕ) → All (λ i. i < n) ns → All (λ i. i < n + 1) ns
All-mono n [] h = tt
All-mono n (i ∷ ns) h = (omega (arith, h.0), All-mono n ns h.1)

-- A new segment keeps what the log holds.
rotate_manifest :
    (w : Log) (ns : List ℕ)
    → w.manifest ≡ ns
    → All (λ n. n < w.seq + 1) ns
    → rotate w ≡ record w { manifest = ns ++ (w.seq + 1) ∷ []; seq = w.seq + 1; current_sz = 0 }
unfolding rotate write_manifest
rotate_manifest w ns e h = rw (e, lists_below (w.seq + 1) ns h) refl

rotate-Holds : (w : Log) (written : List Record) → Holds w written → Holds (rotate w) written
rotate-Holds w written h =
    subst (λ (x : Log). Holds x written)
      (sym (rotate_manifest w (h.front ++ w.seq ∷ []) h.manifest_is all_below))
      (record {
        held = h.held;
        front = h.front ++ w.seq ∷ [];
        manifest_is = refl;
        below = all_below;
        files_are = h.files_are;
        readable = h.readable;
        later = λ n k. h.later n (omega arith);
        content = more;
      })
  where
    all_below : All (λ n. n < w.seq + 1) (h.front ++ w.seq ∷ [])
    all_below =
        All-append (λ n. n < w.seq + 1) h.front (w.seq ∷ []) (All-mono w.seq h.front h.below)
          (omega arith, tt)

    none_later : records h.held ((w.seq + 1) ∷ []) ≡ []
    none_later = unfold records in rw (h.later (w.seq + 1) (omega arith)) refl

    more : records h.held ((h.front ++ w.seq ∷ []) ++ (w.seq + 1) ∷ []) ≡ written
    more =
        records-append h.held (h.front ++ w.seq ∷ []) ((w.seq + 1) ∷ [])
        ∙ ap₂ (λ xs ys. xs ++ ys) (ap (records h.held) (sym h.manifest_is) ∙ h.content) none_later
        ∙ append-nil written

-- The bytes of a batch, appended to the current segment, add its records.
appended : List Record → ℕ → Log → Log
appended batch size w = record w {
  files = append_file w.seq (encode_all batch) w.files;
  current_sz = size;
}

add_to-files :
    (n i : ℕ) (batch : List Record) (files : ℕ → Bytes) (held : ℕ → List Record)
    → ((j : ℕ) → files j ≡ encode_all (held j))
    → append_file n (encode_all batch) files i ≡ encode_all (add_to n batch held i)
unfolding append_file add_to
add_to-files n i batch files held h = elim (Bool-cases (i == n)) [
  | inl e ↦ rw (e, h i, encode_all-append (held i) batch) refl
  | inr e ↦ rw e (h i)
]

add_to-IsReadable :
    (n i : ℕ) (batch : List Record) (held : ℕ → List Record)
    → All IsReadable batch
    → All IsReadable (held i)
    → All IsReadable (add_to n batch held i)
unfolding add_to
add_to-IsReadable n i batch held r h = elim (Bool-cases (i == n)) [
  | inl e ↦ rw e (All-append IsReadable (held i) batch h r)
  | inr e ↦ rw e h
]

add_to-later :
    (n i : ℕ) (batch : List Record) (held : ℕ → List Record)
    → n < i
    → add_to n batch held i ≡ held i
unfolding add_to
add_to-later n i batch held h = ground arith

records-last :
    (n : ℕ) (batch : List Record) (held : ℕ → List Record) (front : List ℕ)
    → All (λ i. i < n) front
    → records (add_to n batch held) (front ++ n ∷ []) ≡ records held (front ++ n ∷ []) ++ batch
records-last n batch held front h =
    records-append (add_to n batch held) front (n ∷ [])
    ∙ ap₂ (λ xs ys. xs ++ ys) (records_below n batch held front h) here
    ∙ sym (append_assoc (records held front) (records held (n ∷ [])) batch)
    ∙ ap (λ xs. xs ++ batch) (sym (records-append held front (n ∷ [])))
  where
    here : records (add_to n batch held) (n ∷ []) ≡ records held (n ∷ []) ++ batch
    here =
        unfold records add_to in
        rw ((==_iff n n).1 refl, append-nil (held n)) (append-nil (held n ++ batch))

appended-Holds :
    (w : Log) (written batch : List Record) (size : ℕ)
    → All IsReadable batch
    → Holds w written
    → Holds (appended batch size w) (written ++ batch)
unfolding appended append_file
appended-Holds w written batch size r h = record {
  held = add_to w.seq batch h.held;
  front = h.front;
  manifest_is = h.manifest_is;
  below = h.below;
  files_are = λ n. add_to-files w.seq n batch w.files h.held h.files_are;
  readable = λ n. add_to-IsReadable w.seq n batch h.held r (h.readable n);
  later = λ n k. add_to-later w.seq n batch h.held k ∙ h.later n k;
  content =
      ap (records (add_to w.seq batch h.held)) h.manifest_is
      ∙ records-last w.seq batch h.held h.front h.below
      ∙ ap (λ xs. xs ++ batch) (ap (records h.held) (sym h.manifest_is) ∙ h.content);
}

rotated-Holds :
    (b : Bool) (w : Log) (written : List Record)
    → Holds w written
    → Holds (if b then rotate w else w) written
rotated-Holds true w written h = rotate-Holds w written h
rotated-Holds false w written h = h

pub flush-Holds :
    (w : Log) (written batch : List Record)
    → All IsReadable batch
    → Holds w written
    → Holds (flush_batch all_written true batch w).0 (written ++ batch)
unfolding flush_batch appended
flush-Holds w written batch r h =
    rw (encode_batch-all batch) (rotated-Holds _ _ _ (appended-Holds w written batch _ r h))

pub new_wal-Holds : (max_size : ℕ) → Holds (new_wal max_size) []
unfolding new_wal open_wal rotate write_manifest lists encode_all records
new_wal-Holds max_size = record {
  held = λ n. [];
  front = [];
  manifest_is = refl;
  below = tt;
  files_are = λ n. refl;
  readable = λ n. tt;
  later = λ n k. refl;
  content = refl;
}
