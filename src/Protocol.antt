-- ===== src/Protocol.antt =====
-- core/protocol/protocol.go: the parser of RESP requests, and the writers of replies, which give the
-- bytes that they write. Texts are cut and read as ASCII.
pub mod RoundTrip
use warpdb.Base.{
  ℕ, zero, suc, ◌+◌, ◌-◌, ◌*◌, Bool, ◌||◌, ◌&&◌, Option, none, some, List, [], ◌∷◌, ◌++◌, Bytes,
  codes, ℤ, pos, negsuc, length, take, drop, ltb, leb, ◌==◌, if◌then◌else◌, max_int, sub_ℕ,
}
use warpdb.Strconv.{itoa, itoa_nat, is_digit}

-- The end of a line in what the server writes.
abbrev pub crlf : Bytes
crlf = 13 ∷ 10 ∷ []

-- WriteSimpleString, WriteError, WriteInteger, WriteBulkString, WriteNull and WriteArray
unfoldable pub write_simple_string : Bytes → Bytes
write_simple_string msg = b'+' ∷ (msg ++ crlf)

unfoldable pub write_error : Bytes → Bytes
write_error msg = b'-' ∷ (msg ++ crlf)

unfoldable pub write_integer : ℤ → Bytes
write_integer n = b':' ∷ (itoa n ++ crlf)

unfoldable pub write_bulk_string : Bytes → Bytes
write_bulk_string msg = b'$' ∷ (itoa_nat (length msg) ++ (crlf ++ (msg ++ crlf)))

unfoldable pub write_null : Bytes
write_null = codes "$-1" ++ crlf

unfoldable pub write_items : List Bytes → Bytes
write_items [] = []
write_items (item ∷ items) = write_bulk_string item ++ write_items items

unfoldable pub write_array : List Bytes → Bytes
write_array items = b'*' ∷ (itoa_nat (length items) ++ (crlf ++ write_items items))

-- reader.ReadString('\n'): the line with its newline, and what follows; `none` is an error.
unfoldable pub read_line : Bytes → Option (Bytes × Bytes)
read_line [] = none
read_line (c ∷ s) =
    let more = read_line s in
    if c == 10
    then some (c ∷ [], s)
    else elim more [ none ↦ none | some (line, rest) ↦ some (c ∷ line, rest) ]

-- An ASCII space: tab, newline, vertical tab, form feed, carriage return or blank.
abbrev pub is_space : ℕ → Bool
is_space c = leb 9 c && leb c 13 || c == 32

unfoldable pub trim_left : Bytes → Bytes
trim_left [] = []
trim_left (c ∷ s) = let trimmed = trim_left s in if is_space c then trimmed else c ∷ s

unfoldable pub trim_right : Bytes → Bytes
trim_right [] = []
trim_right (c ∷ s) = elim (trim_right s) [
  | [] ↦ if is_space c then [] else c ∷ []
  | d ∷ t ↦ c ∷ d ∷ t
]

-- strings.TrimSpace
unfoldable pub trim_space : Bytes → Bytes
trim_space s = trim_right (trim_left s)

-- The digits at the front of a text, as a number: those of `acc` stand before them.
unfoldable pub scan_digits : ℕ → Bytes → ℕ
scan_digits acc [] = acc
scan_digits acc (c ∷ s) =
    let more = scan_digits (acc * 10 + (c - 48)) s in if is_digit c then more else acc

-- One digit at least, and a value that fits; what follows the digits is not read.
unfoldable pub scan_unsigned : ℕ → Bytes → Option ℕ
scan_unsigned limit [] = none
scan_unsigned limit (c ∷ s) =
    if is_digit c
    then (let n = scan_digits 0 (c ∷ s) in if leb n limit then some n else none)
    else none

abbrev signed : Option ℕ → (ℕ → ℤ) → Option ℤ
signed none f = none
signed (some n) f = some (f n)

unfoldable pub scan_signed : Bytes → Option ℤ
scan_signed [] = none
scan_signed (c ∷ s) =
    if c == b'-'
    then signed (scan_unsigned (max_int + 1) s) (λ n. sub_ℕ 0 n)
    else if c == b'+'
    then signed (scan_unsigned max_int s) pos
    else signed (scan_unsigned max_int (c ∷ s)) pos

-- fmt.Sscanf(s, "%d", &n); `none` is its error.
unfoldable pub scan_int : Bytes → Option ℤ
scan_int s = scan_signed (trim_left s)

-- How Parse ends: with arguments and what is left of the input, with an error, or with a panic of
-- `make` or of a slice.
pub data Parsed : Type 0 where
  request : List Bytes → Bytes → Parsed
  malformed : Parsed
  panicked : Parsed

-- `data := make([]byte, strLength+2)`, filled from the input; the argument is `data[:strLength]`.
-- `limit` is the length of the longest slice that Go can make.
unfoldable pub read_argument : ℕ → ℤ → Bytes → (Bytes → Bytes → Parsed) → Parsed
read_argument limit (pos n) input next =
    if ltb limit (n + 2)
    then panicked
    else if ltb (length input) (n + 2)
    then malformed
    else next (take n input) (drop (n + 2) input)
read_argument limit (negsuc zero) [] next = malformed
read_argument limit (negsuc n) input next = panicked

-- The line of one argument: `$` and the length.
unfoldable pub read_length : Bytes → Option ℤ
read_length [] = none
read_length (c ∷ s) = if c == b'$' then scan_int s else none

unfoldable pub read_header : Bytes → (ℤ → Bytes → Parsed) → Parsed
read_header input next = elim (read_line input) [
  | none ↦ malformed
  | some (line, rest) ↦ elim (read_length (trim_space line)) [
    | none ↦ malformed
    | some n ↦ next n rest
  ]
]

-- The loop of Parse: `count` arguments are still to be read, `args` have been.
unfoldable pub parse_args : ℕ → ℕ → List Bytes → Bytes → Parsed
parse_args limit zero args input = request args input
parse_args limit (suc count) args input = read_header input (λ n rest.
    read_argument limit n rest (λ arg rest'. parse_args limit count (args ++ arg ∷ []) rest'))

-- `args := make([]string, 0, count)`
unfoldable pub parse_count : ℕ → ℤ → Bytes → Parsed
parse_count limit (negsuc n) input = panicked
parse_count limit (pos count) input =
    let parsed = parse_args limit count [] input in if ltb limit count then panicked else parsed

unfoldable pub array_length : Bytes → Option ℤ
array_length [] = none
array_length (c ∷ s) = if c == b'*' then scan_int s else none

-- Parse
unfoldable pub parse : ℕ → Bytes → Parsed
parse limit input = elim (read_line input) [
  | none ↦ malformed
  | some (line, rest) ↦ elim (array_length (trim_space line)) [
    | none ↦ malformed
    | some count ↦ parse_count limit count rest
  ]
]
