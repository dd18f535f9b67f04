-- ===== src/Wal/Log/Opening.antt =====
-- What the log holds, where it is opened again and where it is closed.
use warpdb.Base.{length, some, ℕ, ◌≡◌, refl, sym, ap, ◌∙◌, true, List, [], ◌∷◌, ◌++◌, Bytes, arith}
use mathlib.Core.Path.{subst}
use warpdb.Wal.Record.{Record}
use warpdb.Wal.Log.{Log, lists, write_manifest, open_wal, close_wal, last_segment}
use warpdb.Wal.Log.Holding.{Holds}

last_segment-snoc : (ns : List ℕ) (n : ℕ) → last_segment (ns ++ n ∷ []) ≡ some n
unfolding last_segment
last_segment-snoc [] n = refl
last_segment-snoc (m ∷ []) n = refl
last_segment-snoc (m ∷ k ∷ ns) n = last_segment-snoc (k ∷ ns) n

-- A log that is opened again goes on where it was.
open_wal-again :
    (max_size : ℕ) (files : ℕ → Bytes) (ns : List ℕ) (n : ℕ)
    → last_segment ns ≡ some n
    → open_wal max_size files ns ≡ record {
      files = files;
      manifest = ns;
      seq = n;
      current_sz = length (files n);
      max_size = max_size;
    }
unfolding open_wal
open_wal-again max_size files ns n e = rw (open_wal, e) refl

pub open_wal-Holds :
    (max_size : ℕ) (w : Log) (written : List Record)
    → Holds w written
    → Holds (open_wal max_size w.files w.manifest) written
open_wal-Holds max_size w written h =
    subst (λ (x : Log). Holds x written)
      (sym (
        open_wal-again max_size w.files w.manifest w.seq
          (ap last_segment h.manifest_is ∙ last_segment-snoc h.front w.seq)))
      (record {
        held = h.held;
        front = h.front;
        manifest_is = h.manifest_is;
        below = h.below;
        files_are = h.files_are;
        readable = h.readable;
        later = h.later;
        content = h.content;
      })

lists_last : (ns : List ℕ) (n : ℕ) → lists n (ns ++ n ∷ []) ≡ true
unfolding lists
lists_last [] n = ground arith
lists_last (m ∷ ns) n = ground (arith, lists_last ns n)

pub close_wal-Holds :
    (w : Log) (written : List Record) → Holds w written → Holds (close_wal w) written
close_wal-Holds w written h = subst (λ (x : Log). Holds x written) (sym same) h
  where
    same : close_wal w ≡ w
    same =
        unfold close_wal write_manifest in
        rw (ap (lists w.seq) h.manifest_is ∙ lists_last h.front w.seq) refl
