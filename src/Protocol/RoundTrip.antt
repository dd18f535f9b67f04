-- ===== src/Protocol/RoundTrip.antt =====
-- Parse on what WriteArray writes: a request is read back, and what follows it is left.
use warpdb.Base.{
  ℕ, suc, ◌+◌, ◌-◌, ◌*◌, ◌≤◌, ◌≡◌, refl, sym, ap, ◌∙◌, false, some, List, [], ◌∷◌, ◌++◌, Bytes, ℤ,
  pos, length, take, drop, max_int, All, arith, length-append, take-length-append,
  drop-length-append,
}
use mathlib.Core.Path.{ap₂}
use mathlib.Core.List.{append_assoc, append-nil}
use warpdb.Strconv.{itoa_nat, read_digits}
use warpdb.Strconv.RoundTrip.{
  IsDigit, StartsWithDigit, read_digits-itoa_nat, itoa_nat-StartsWithDigit,
}
use warpdb.Protocol.{
  crlf, write_bulk_string, write_items, write_array, read_line, is_space, trim_left, trim_right,
  trim_space, scan_digits, scan_unsigned, scan_signed, scan_int, Parsed, request, read_argument,
  read_length, read_header, parse_args, parse_count, array_length, parse,
}

-- A text that is read as a number has digits only.
read_digits-All : (acc n : ℕ) (s : Bytes) → read_digits acc s ≡ some n → All IsDigit s
unfolding read_digits
read_digits-All acc n [] h = tt
read_digits-All acc n (c ∷ s) h = ground (arith, read_digits-All (acc * 10 + (c - 48)) n s)

scan_digits-read : (acc n : ℕ) (s : Bytes) → read_digits acc s ≡ some n → scan_digits acc s ≡ n
unfolding read_digits scan_digits
scan_digits-read acc n [] h = ground arith
scan_digits-read acc n (c ∷ s) h = ground (arith, scan_digits-read (acc * 10 + (c - 48)) n s)

-- A line of a marker and digits is read up to its end.
read_line-digits :
    (s rest : Bytes) → All IsDigit s → read_line (s ++ (crlf ++ rest)) ≡ some (s ++ crlf, rest)
unfolding read_line
read_line-digits [] rest h = refl
read_line-digits (c ∷ s) rest h = rw (read_line-digits s rest h.1) (ground arith)

trim_right-digits : (s : Bytes) → All IsDigit s → trim_right (s ++ crlf) ≡ s
unfolding trim_right
trim_right-digits [] h = refl
trim_right-digits (c ∷ s) h = rw (trim_right-digits s h.1) (ground arith)

itoa_nat-All : (n : ℕ) → All IsDigit (itoa_nat n)
itoa_nat-All n = read_digits-All 0 n (itoa_nat n) (read_digits-itoa_nat n)

-- fmt.Sscanf of a number that was written by fmt.Fprintf.
scan_starting :
    (n : ℕ) (s : Bytes)
    → n ≤ max_int
    → StartsWithDigit s
    → read_digits 0 s ≡ some n
    → scan_int s ≡ some (pos n)
unfolding scan_int trim_left scan_signed scan_unsigned
scan_starting n [] h d e = absurd d
scan_starting n (c ∷ s) h d e =
    let r : scan_digits 0 (c ∷ s) ≡ n = scan_digits-read 0 n (c ∷ s) e in ground arith

scan_int-itoa_nat : (n : ℕ) → n ≤ max_int → scan_int (itoa_nat n) ≡ some (pos n)
scan_int-itoa_nat n h =
    scan_starting n (itoa_nat n) h (itoa_nat-StartsWithDigit n) (read_digits-itoa_nat n)

-- A line that starts with a marker: its text without the spaces around it.
trim_right-marked :
    (m : ℕ) (s : Bytes) → is_space m ≡ false → trim_right s ≡ [] → trim_right (m ∷ s) ≡ m ∷ []
unfolding trim_right
trim_right-marked m s h e = rw (e, h) refl

trim_right-cons :
    (m : ℕ) (s : Bytes) {d : ℕ} {t : Bytes} → trim_right s ≡ d ∷ t → trim_right (m ∷ s) ≡ m ∷ d ∷ t
unfolding trim_right
trim_right-cons m s e = rw e refl

trim_space-marked :
    (m : ℕ) (s : Bytes) → is_space m ≡ false → All IsDigit s → trim_space (m ∷ (s ++ crlf)) ≡ m ∷ s
unfolding trim_space trim_left
trim_space-marked m [] h d = rw h (trim_right-marked m crlf h (trim_right-digits [] d))
trim_space-marked m (c ∷ s) h d =
    rw h (trim_right-cons m ((c ∷ s) ++ crlf) (trim_right-digits (c ∷ s) d))

read_line-marked :
    (m : ℕ) (s rest : Bytes)
    → is_space m ≡ false
    → All IsDigit s
    → read_line (m ∷ (s ++ (crlf ++ rest))) ≡ some (m ∷ (s ++ crlf), rest)
unfolding read_line
read_line-marked m s rest h d = rw (read_line-digits s rest d) (ground arith)

read_header-read :
    (input line rest : Bytes) (n : ℤ) (next : ℤ → Bytes → Parsed)
    → read_line input ≡ some (line, rest)
    → read_length (trim_space line) ≡ some n
    → read_header input next ≡ next n rest
unfolding read_header
read_header-read input line rest n next e l = ground arith

-- The line that announces an argument of `n` bytes.
read_header-written :
    (n : ℕ) (rest : Bytes) (next : ℤ → Bytes → Parsed)
    → n ≤ max_int
    → read_header (b'$' ∷ (itoa_nat n ++ (crlf ++ rest))) next ≡ next (pos n) rest
read_header-written n rest next h =
    read_header-read _ _ rest (pos n) next
      (read_line-marked b'$' (itoa_nat n) rest refl (itoa_nat-All n))
      (ap read_length (trim_space-marked b'$' (itoa_nat n) refl (itoa_nat-All n))
        ∙ (unfold read_length in scan_int-itoa_nat n h))

read_argument-read :
    (limit n : ℕ) (input : Bytes) (next : Bytes → Bytes → Parsed)
    → n + 2 ≤ limit
    → n + 2 ≤ length input
    → read_argument limit (pos n) input next ≡ next (take n input) (drop (n + 2) input)
unfolding read_argument
read_argument-read limit n input next h k = ground arith

read_argument-written :
    (limit : ℕ) (arg rest : Bytes) (next : Bytes → Bytes → Parsed)
    → length arg + 2 ≤ limit
    → read_argument limit (pos (length arg)) (arg ++ (crlf ++ rest)) next ≡ next arg rest
read_argument-written limit arg rest next h =
    read_argument-read limit (length arg) (arg ++ (crlf ++ rest)) next h
      (omega (arith, length-append arg (crlf ++ rest)))
    ∙ ap₂ next (take-length-append (length arg) arg (crlf ++ rest) refl) (
        ap (drop (length arg + 2)) (sym (append_assoc arg crlf rest))
        ∙ drop-length-append (length arg + 2) (arg ++ crlf) rest (length-append arg crlf))

-- The bytes of one argument, with what follows it.
bulk-append :
    (arg rest : Bytes)
    → write_bulk_string arg ++ rest
      ≡ b'$' ∷ (itoa_nat (length arg) ++ (crlf ++ (arg ++ (crlf ++ rest))))
unfolding write_bulk_string
bulk-append arg rest = ap (λ t. b'$' ∷ t) (simp append_assoc)

-- A request that Parse can read: `limit` is the length of the longest slice that Go can make.
abbrev pub IsWritable : ℕ → Bytes → Type 0
IsWritable limit arg = (length arg + 2 ≤ limit) × (length arg ≤ max_int)

-- One round of the loop of Parse.
parse_args-one :
    (limit count : ℕ) (args : List Bytes) (arg rest : Bytes)
    → IsWritable limit arg
    → parse_args limit (suc count) args (write_bulk_string arg ++ rest)
      ≡ parse_args limit count (args ++ arg ∷ []) rest
unfolding parse_args
parse_args-one limit count args arg rest h =
    ap (parse_args limit (suc count) args) (bulk-append arg rest)
    ∙ read_header-written (length arg) _ _ h.1
    ∙ read_argument-written limit arg rest _ h.0

-- The loop of Parse reads the arguments that WriteArray wrote.
parse_args-written :
    (limit : ℕ) (args more : List Bytes) (rest : Bytes)
    → All (IsWritable limit) more
    → parse_args limit (length more) args (write_items more ++ rest) ≡ request (args ++ more) rest
unfolding write_items
parse_args-written limit args [] rest h =
    (unfold parse_args in ap (λ l. request l rest) (sym (append-nil args)))
parse_args-written limit args (arg ∷ more) rest h =
    ap (parse_args limit (length (arg ∷ more)) args)
      (append_assoc (write_bulk_string arg) (write_items more) rest)
    ∙ parse_args-one limit (length more) args arg (write_items more ++ rest) h.0
    ∙ parse_args-written limit (args ++ arg ∷ []) more rest h.1
    ∙ ap (λ l. request l rest) (append_assoc args (arg ∷ []) more)

parse_count-read :
    (limit count : ℕ) (input : Bytes)
    → count ≤ limit
    → parse_count limit (pos count) input ≡ parse_args limit count [] input
unfolding parse_count
parse_count-read limit count input h = ground arith

parse-read :
    (limit : ℕ) (input line rest : Bytes) (count : ℤ)
    → read_line input ≡ some (line, rest)
    → array_length (trim_space line) ≡ some count
    → parse limit input ≡ parse_count limit count rest
unfolding parse
parse-read limit input line rest count e l = ground arith

-- Parse reads the arguments that WriteArray wrote, and leaves what follows them, if Go can make
-- slices for them and their lengths are ints.
pub parse-write_array :
    (limit : ℕ) (args : List Bytes) (rest : Bytes)
    → length args ≤ limit
    → length args ≤ max_int
    → All (IsWritable limit) args
    → parse limit (write_array args ++ rest) ≡ request args rest
parse-write_array limit args rest h k w =
    ap (parse limit) written
    ∙ parse-read limit _ _ (write_items args ++ rest) (pos (length args))
        (read_line-marked b'*' (itoa_nat (length args)) _ refl (itoa_nat-All (length args)))
        (ap array_length
            (trim_space-marked b'*' (itoa_nat (length args)) refl (itoa_nat-All (length args)))
          ∙ (unfold array_length in scan_int-itoa_nat (length args) k))
    ∙ parse_count-read limit (length args) (write_items args ++ rest) h
    ∙ parse_args-written limit [] args rest w
  where
    written :
        write_array args ++ rest
        ≡ b'*' ∷ (itoa_nat (length args) ++ (crlf ++ (write_items args ++ rest)))
    written = unfold write_array in ap (λ t. b'*' ∷ t) (simp append_assoc)
