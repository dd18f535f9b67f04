-- ===== src/Server/Requests.antt =====
-- The loop of handleClient over the input of a client.
use warpdb.Base.{
  ℕ, zero, suc, ◌+◌, ◌≤◌, ◌<◌, ◌≡◌, refl, ap, ◌∙◌, Bool, true, false, some, List, [], ◌∷◌, ◌++◌,
  Bytes, length, take, drop, ℤ, pos, negsuc, max_int, if◌then◌else◌, All, arith, Option-cases, inl,
  inr, length-append, length-drop,
}
use mathlib.Core.Path.{subst}
use warpdb.Engine.{StorageEngine}
use warpdb.Protocol.{
  Parsed, request, malformed, panicked, read_line, trim_space, read_argument, read_length,
  read_header, parse_args, parse_count, array_length, parse, write_array,
}
use warpdb.Protocol.RoundTrip.{IsWritable, parse-write_array}
use warpdb.Commands.{Handler, Env}
use warpdb.Server.{
  Session, Served, closed, crashed, out_of_fuel, open_session, serve_parsed, serve_loop,
  handle_client, serve_all,
}

-- A request that was read leaves `m` bytes at most.
Leaves : ℕ → Parsed → Type 0
Leaves m (request args rest) = length rest ≤ m
Leaves m malformed = Unit {0}
Leaves m panicked = Unit {0}

malformed-Leaves : (m : ℕ) → Leaves m malformed
unfolding Leaves
malformed-Leaves m = tt

panicked-Leaves : (m : ℕ) → Leaves m panicked
unfolding Leaves
panicked-Leaves m = tt

request-Leaves :
    (m : ℕ) (args : List Bytes) (rest : Bytes) → length rest ≤ m → Leaves m (request args rest)
unfolding Leaves
request-Leaves m args rest h = h

read_line-shorter :
    (input line rest : Bytes) → read_line input ≡ some (line, rest) → length rest < length input
unfolding read_line
read_line-shorter [] line rest h = ground arith
read_line-shorter (c ∷ s) line rest h = elim (Option-cases (read_line s)) [
  | inl e ↦ ground arith
  | inr ((l, r), e) ↦ ground (arith, read_line-shorter s l r e)
]

Leaves-if :
    (m : ℕ) (b : Bool) (p q : Parsed) → Leaves m p → Leaves m q → Leaves m (if b then p else q)
Leaves-if m true p q hp hq = hp
Leaves-if m false p q hp hq = hq

read_argument-Leaves :
    (m limit : ℕ) (n : ℤ) (input : Bytes) (next : Bytes → Bytes → Parsed)
    → ((arg rest : Bytes) → length rest ≤ length input → Leaves m (next arg rest))
    → Leaves m (read_argument limit n input next)
unfolding read_argument
read_argument-Leaves m limit (pos n) input next h = Leaves-if m _ _ _ (panicked-Leaves m) (
    Leaves-if m _ _ _ (malformed-Leaves m)
      (h (take n input) (drop (n + 2) input) (omega (arith, length-drop (n + 2) input))))
read_argument-Leaves m limit (negsuc zero) [] next h = malformed-Leaves m
read_argument-Leaves m limit (negsuc zero) (c ∷ s) next h = panicked-Leaves m
read_argument-Leaves m limit (negsuc (suc n)) input next h = panicked-Leaves m

read_header-Leaves :
    (m : ℕ) (input : Bytes) (next : ℤ → Bytes → Parsed)
    → ((n : ℤ) (rest : Bytes) → length rest ≤ length input → Leaves m (next n rest))
    → Leaves m (read_header input next)
unfolding read_header
read_header-Leaves m input next h = elim (Option-cases (read_line input)) [
  | inl e ↦ rw (read_header, e) (malformed-Leaves m)
  | inr ((line, rest), e) ↦ elim (Option-cases (read_length (trim_space line))) [
    | inl e' ↦ rw (read_header, e, e') (malformed-Leaves m)
    | inr (n, e') ↦
        rw (read_header, e, e') (h n rest (omega (arith, read_line-shorter input line rest e)))
  ]
]

parse_args-Leaves :
    (m limit count : ℕ) (args : List Bytes) (input : Bytes)
    → length input ≤ m
    → Leaves m (parse_args limit count args input)
unfolding parse_args
parse_args-Leaves m limit zero args input h = request-Leaves m args input h
parse_args-Leaves m limit (suc count) args input h = read_header-Leaves m input _ (λ n rest k.
    read_argument-Leaves m limit n rest _
      (λ arg rest' k'. parse_args-Leaves m limit count (args ++ arg ∷ []) rest' (omega arith)))

parse_count-Leaves :
    (m limit : ℕ) (count : ℤ) (input : Bytes)
    → length input ≤ m
    → Leaves m (parse_count limit count input)
unfolding parse_count
parse_count-Leaves m limit (negsuc n) input h = panicked-Leaves m
parse_count-Leaves m limit (pos n) input h =
    Leaves-if m _ _ _ (panicked-Leaves m) (parse_args-Leaves m limit n [] input h)

parse-Leaves : (m limit : ℕ) (input : Bytes) → length input ≤ suc m → Leaves m (parse limit input)
unfolding parse
parse-Leaves m limit input h = elim (Option-cases (read_line input)) [
  | inl e ↦ rw (parse, e) (malformed-Leaves m)
  | inr ((line, rest), e) ↦ elim (Option-cases (array_length (trim_space line))) [
    | inl e' ↦ rw (parse, e, e') (malformed-Leaves m)
    | inr (n, e') ↦
        rw (parse, e, e')
          (parse_count-Leaves m limit n rest (omega (arith, read_line-shorter input line rest e)))
  ]
]

Leaves-request :
    (m : ℕ) (args : List Bytes) (rest : Bytes) → Leaves m (request args rest) → length rest ≤ m
unfolding Leaves
Leaves-request m args rest h = h

parse-shorter :
    (limit : ℕ) (input : Bytes) (args : List Bytes) (rest : Bytes)
    → parse limit input ≡ request args rest
    → length rest < length input
parse-shorter limit [] args rest e = unfold parse read_line in cc e
parse-shorter limit (c ∷ input) args rest e = omega (
  arith,
  Leaves-request (length input) args rest (
      subst (Leaves (length input)) e
        (parse-Leaves (length input) limit (c ∷ input) (omega arith))),
)

-- The requests that Parse reads from an input, one after the other, and how it ends: by a request that
-- cannot be read, which the end of the input is too, or by a panic.
pub data Reads (limit : ℕ) : Bytes → List (List Bytes) → Parsed → Type 0 where
  unreadable : {input : Bytes} → parse limit input ≡ malformed → Reads limit input [] malformed
  panics : {input : Bytes} → parse limit input ≡ panicked → Reads limit input [] panicked
  reads :
      {input rest : Bytes} {args : List Bytes} {requests : List (List Bytes)} {end : Parsed}
      → parse limit input ≡ request args rest
      → Reads limit rest requests end
      → Reads limit input (args ∷ requests) end

-- How the session ends then, with what the requests left.
abbrev pub ended_by : {S : Type 0} → Parsed → Session S × Bytes → Served S
ended_by malformed (s, out) = closed s out
ended_by panicked (s, out) = crashed out
ended_by (request args rest) (s, out) = out_of_fuel

-- What a client sends: its requests, each as WriteArray writes it.
unfoldable pub written : List (List Bytes) → Bytes
written [] = []
written (args ∷ requests) = write_array args ++ written requests

-- A request that Parse can read back.
abbrev pub IsReadable : ℕ → List Bytes → Type 0
IsReadable limit args =
    (length args ≤ limit) × ((length args ≤ max_int) × All (IsWritable limit) args)

length-written : (requests : List (List Bytes)) → length requests ≤ length (written requests)
unfolding written write_array
length-written [] = omega arith
length-written (args ∷ requests) =
    omega (arith, length-append (write_array args) (written requests), length-written requests)

module _ {S : Type 0} (engine : StorageEngine S) (envs : ℕ → Env) (limit : ℕ) where
  -- The rest of a session serves the requests that Parse reads, no more than the input has bytes.
  pub record IsServed (n : ℕ) (out input : Bytes) (s : Session S) (served : Served S) : Type 0 where
    pub requests : List (List Bytes)
    pub end : Parsed
    pub read : Reads limit input requests end
    pub bound : length requests ≤ length input
    pub result : served ≡ ended_by end (serve_all engine envs n out requests s)

  serve_parsed-IsServed :
      (n fuel : ℕ) (out input : Bytes) (s : Session S) (p : Parsed)
      → parse limit input ≡ p
      → ((out' rest : Bytes) (s' : Session S)
          → length rest < length input
          → IsServed (n + 1) out' rest s' (serve_loop engine envs limit (n + 1) fuel out' rest s'))
      → IsServed n out input s
          (serve_parsed engine (serve_loop engine envs limit (n + 1) fuel) (envs n) out p s)
  unfolding serve_parsed serve_all
  serve_parsed-IsServed n fuel out input s malformed e next = record {
    requests = [];
    end = malformed;
    read = unreadable e;
    bound = omega arith;
    result = refl;
  }
  serve_parsed-IsServed n fuel out input s panicked e next = record {
    requests = [];
    end = panicked;
    read = panics e;
    bound = omega arith;
    result = refl;
  }
  serve_parsed-IsServed n fuel out input s (request args rest) e next =
      let shorter = parse-shorter limit input args rest e in
      let r = next _ rest _ shorter in
      record {
        requests = args ∷ r.requests;
        end = r.end;
        read = reads e r.read;
        bound = omega (arith, r.bound, shorter);
        result = r.result;
      }

  serve_loop-IsServed :
      (n fuel : ℕ) (out input : Bytes) (s : Session S)
      → length input < fuel
      → IsServed n out input s (serve_loop engine envs limit n fuel out input s)
  unfolding serve_loop
  serve_loop-IsServed n zero out input s h = absurd (omega arith)
  serve_loop-IsServed n (suc fuel) out input s h =
      serve_parsed-IsServed n fuel out input s (parse limit input) refl
        (λ out' rest s' k. serve_loop-IsServed (n + 1) fuel out' rest s' (omega arith))

  -- The loop of handleClient, on whatever input after which the connection ends, serves the
  -- requests that Parse reads from it, one after the other, no more of them than the input has
  -- bytes, and then closes the connection at a request that cannot be read, which the end of the
  -- input is too, or ends by a panic in Parse.
  pub handle_client-IsServed :
      (input : Bytes) (h : Handler S)
      → IsServed 0 [] input (open_session h) (handle_client engine envs limit input h)
  unfolding handle_client
  handle_client-IsServed input h =
      serve_loop-IsServed 0 (suc (length input)) [] input (open_session h) (omega arith)

  serve_loop-written :
      (n fuel : ℕ) (out : Bytes) (requests : List (List Bytes)) (s : Session S)
      → All (IsReadable limit) requests
      → length requests < fuel
      → serve_loop engine envs limit n fuel out (written requests) s
        ≡ (let (s', out') = serve_all engine envs n out requests s in closed s' out')
  unfolding serve_loop serve_all written serve_parsed
  serve_loop-written n zero out requests s h k = absurd (omega arith)
  serve_loop-written n (suc fuel) out [] s h k = (unfold parse read_line in refl)
  serve_loop-written n (suc fuel) out (args ∷ requests) s h k =
      ap (λ p. serve_parsed engine (serve_loop engine envs limit (n + 1) fuel) (envs n) out p s)
        (parse-write_array limit args (written requests) h.0.0 h.0.1.0 h.0.1.1)
      ∙ serve_loop-written (n + 1) fuel _ requests _ h.1 (omega arith)

  -- A client that sends requests as WriteArray writes them gets what serving the requests one after
  -- the other gives, if Go can make slices for the requests and their arguments.
  pub handle_client-written :
      (requests : List (List Bytes)) (h : Handler S)
      → All (IsReadable limit) requests
      → handle_client engine envs limit (written requests) h
        ≡ (let (s, out) = serve_all engine envs 0 [] requests (open_session h) in closed s out)
  unfolding handle_client
  handle_client-written requests h r =
      serve_loop-written 0 (suc (length (written requests))) [] requests (open_session h) r
        (omega (arith, length-written requests))
