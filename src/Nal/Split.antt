-- ===== src/Nal/Split.antt =====
-- The splitter of platform/common/nal_split.h gives back the NAL units of a stream.
use libmezia.Prelude.{
  ℕ, zero, suc, ◌+◌, ◌-◌, ◌≤◌, ◌<◌, ◌≡◌, refl, ap, sym, ◌∙◌, List, [], ◌∷◌, ◌++◌, Bool, true, false,
  ◌&&◌, not, ltb, leb, ◌==◌, drop, take, length, length-drop, All, length-append, take-append,
  arith,
}
use libmezia.Wire.{byte_at}
use libmezia.Nal.{Visit, start_code_len, visit_of, last_visit, split_loop, split_annexb}

-- No start code, nor the three zeros of a longer one, lies in the bytes, and they do not end in 0:
-- what the escaping of H.264 ensures of a NAL unit.
unfoldable pub is_escaped : List ℕ → Bool
is_escaped [] = true
is_escaped (x ∷ []) = not (x == 0)
is_escaped (x ∷ y ∷ []) = not (y == 0)
is_escaped (x ∷ y ∷ z ∷ nal) =
    let rest = is_escaped (y ∷ z ∷ nal) in not (x == 0 && y == 0 && leb z 1) && rest

-- A start code, of four bytes or of three.
abbrev pub start_code : Bool → List ℕ
start_code true = 0 ∷ 0 ∷ 0 ∷ 1 ∷ []
start_code false = 0 ∷ 0 ∷ 1 ∷ []

-- The NAL units in one stream, each behind a start code; the flag says whether it is the long one.
unfoldable pub stream : List (Bool × List ℕ) → List ℕ
stream [] = []
stream ((long, nal) ∷ nals) = start_code long ++ (nal ++ stream nals)

-- One visit for each, the last one at the end of the access unit.
unfoldable pub visits : List ℕ → List (Bool × List ℕ) → List Visit
visits nal [] = record { nal = nal; end_of_access_unit = true } ∷ []
visits nal ((long, next) ∷ nals) =
    record { nal = nal; end_of_access_unit = false } ∷ visits next nals

byte_at-drop : (i k : ℕ) (d : List ℕ) → byte_at d (i + k) ≡ byte_at (drop i d) k
byte_at-drop zero k d = ap (byte_at d) (omega arith)
byte_at-drop (suc i) k [] = refl
byte_at-drop (suc i) k (x ∷ d) = ap (byte_at (x ∷ d)) there ∙ byte_at-drop i k d
  where
    there : suc i + k ≡ suc (i + k)
    there = omega arith

suc_plus : (i k : ℕ) → suc i + k ≡ suc (i + k)
suc_plus i k = omega arith

zero_plus : (i : ℕ) → 0 + i ≡ i
zero_plus i = omega arith

drop-add : (i k : ℕ) (d : List ℕ) → drop (i + k) d ≡ drop k (drop i d)
drop-add zero k d = ap (λ (n : ℕ). drop n d) (zero_plus k)
drop-add (suc i) zero [] = ap (λ (n : ℕ). drop n []) (suc_plus i 0)
drop-add (suc i) (suc k) [] = ap (λ (n : ℕ). drop n []) (suc_plus i (suc k))
drop-add (suc i) k (x ∷ d) = ap (λ (n : ℕ). drop n (x ∷ d)) (suc_plus i k) ∙ drop-add i k d

drop-append : (xs ys : List ℕ) → drop (length xs) (xs ++ ys) ≡ ys
drop-append [] ys = refl
drop-append (x ∷ xs) ys = drop-append xs ys

-- The start code at a place is that at the front of what is left from there on.
start_code-drop :
    (d s : List ℕ) (i : ℕ)
    → i ≤ length d
    → drop i d ≡ s
    → start_code_len d (length d) i ≡ start_code_len s (length s) 0
unfolding start_code_len
start_code-drop d s i low e =
    let at : (k : ℕ) → byte_at d (i + k) ≡ byte_at s k =
      λ k. byte_at-drop i k d ∙ ap (λ (t : List ℕ). byte_at t k) e in
    let zeroth : byte_at d i ≡ byte_at s 0 = ap (byte_at d) (omega arith) ∙ at 0 in
    let size : length s ≡ length d - i = ap length (sym e) ∙ length-drop i d in
    ground (arith, zeroth, at 1, at 2, at 3, size, low)

quiet :
    (x : ℕ) (nal rest : List ℕ)
    → is_escaped (x ∷ nal) ≡ true
    → (start_code_len (x ∷ nal ++ rest) (length (x ∷ nal ++ rest)) 0 ≡ 0) × (is_escaped nal ≡ true)
unfolding start_code_len is_escaped
quiet x [] rest e = (ground arith, refl)
quiet x (y ∷ []) rest e = (ground arith, e)
quiet x (y ∷ z ∷ nal) rest e = (ground arith, ground arith)

-- One round at a place with no start code.
round_quiet :
    (fuel : ℕ) (d : List ℕ) (i start : ℕ) (have : Bool)
    → i < length d
    → start_code_len d (length d) i ≡ 0
    → split_loop (suc fuel) d (length d) i start have
      ≡ split_loop fuel d (length d) (i + 1) start have
unfolding split_loop
round_quiet fuel d i start have low none_there =
    let inside : ltb i (length d) ≡ true = ground arith in rw (inside, none_there) refl

-- One round at a start code.
round_code :
    (long : Bool) (fuel : ℕ) (d : List ℕ) (i start : ℕ)
    → i < length d
    → start_code_len d (length d) i ≡ length (start_code long)
    → let behind = i + length (start_code long) in
      split_loop (suc fuel) d (length d) i start true
      ≡ visit_of d start (i - start) false ∷ split_loop fuel d (length d) behind behind true
unfolding split_loop
round_code true fuel d i start low there =
    let inside : ltb i (length d) ≡ true = ground arith in rw (inside, there) refl
round_code false fuel d i start low there =
    let inside : ltb i (length d) ≡ true = ground arith in rw (inside, there) refl

first_code :
    (long : Bool) (fuel : ℕ) (d : List ℕ)
    → 0 < length d
    → start_code_len d (length d) 0 ≡ length (start_code long)
    → let behind = length (start_code long) in
      split_loop (suc fuel) d (length d) 0 0 false ≡ split_loop fuel d (length d) behind behind true
unfolding split_loop
first_code true fuel d low there =
    let inside : ltb 0 (length d) ≡ true = ground arith in rw (inside, there) refl
first_code false fuel d low there =
    let inside : ltb 0 (length d) ≡ true = ground arith in rw (inside, there) refl

plus_zero : (i : ℕ) → i ≡ i + 0
plus_zero i = omega arith

fuel_out : (n fuel : ℕ) → suc n + fuel ≡ suc (n + fuel)
fuel_out n fuel = omega arith

moved_on : (i n : ℕ) → i + 1 + n ≡ i + suc n
moved_on i n = omega arith

-- The rounds through a NAL unit.
through :
    (nal rest d : List ℕ) (fuel i start : ℕ)
    → is_escaped nal ≡ true
    → i + length nal ≤ length d
    → drop i d ≡ nal ++ rest
    → split_loop (length nal + fuel) d (length d) i start true
      ≡ split_loop fuel d (length d) (i + length nal) start true
through [] rest d fuel i start clean low e =
    λ k. split_loop (zero_plus fuel k) d (length d) (plus_zero i k) start true
through (x ∷ nal) rest d fuel i start clean low e =
    let q = quiet x nal rest clean in
    let next : drop (i + 1) d ≡ nal ++ rest = drop-add i 1 d ∙ ap (λ (t : List ℕ). drop 1 t) e in
    ap (λ (n : ℕ). split_loop n d (length d) i start true) (fuel_out (length nal) fuel)
    ∙ round_quiet (length nal + fuel) d i start true (omega (arith, low))
        (start_code-drop d (x ∷ nal ++ rest) i (omega (arith, low)) e ∙ q.0)
    ∙ through nal rest d fuel (i + 1) start q.1 (omega (arith, low)) next
    ∙ ap (λ (n : ℕ). split_loop fuel d (length d) n start true) (moved_on i (length nal))

-- A NAL unit of the stream.
abbrev pub IsNal : Bool × List ℕ → Type 0
IsNal (long, nal) = (1 ≤ length nal) × (is_escaped nal ≡ true)

-- The splitter sees a start code at its full length.
code_front :
    (long : Bool) (s : List ℕ)
    → start_code_len (start_code long ++ s) (length (start_code long ++ s)) 0
      ≡ length (start_code long)
unfolding start_code_len
code_front true s = ground arith
code_front false s = ground arith

code_size : (long : Bool) → (3 ≤ length (start_code long)) × (length (start_code long) ≤ 4)
code_size true = (omega arith, omega arith)
code_size false = (omega arith, omega arith)

split_loop-end :
    (fuel : ℕ) (d : List ℕ) (i start : ℕ)
    → length d ≤ i
    → split_loop fuel d (length d) i start true ≡ last_visit d (length d) start true
unfolding split_loop
split_loop-end zero d i start h = refl
split_loop-end (suc fuel) d i start h =
    let outside : ltb i (length d) ≡ false = ground arith in rw outside refl

-- The visit of a NAL unit that stands at `start`.
visited :
    (nal rest d : List ℕ) (start n : ℕ) (last : Bool)
    → drop start d ≡ nal ++ rest
    → n ≡ length nal
    → visit_of d start n last ≡ record { nal = nal; end_of_access_unit = last }
visited nal rest d start n last e size =
    ap (λ (t : List ℕ). record { nal = t; end_of_access_unit = last })
      (ap (λ (t : List ℕ). take n t) e ∙ take-append n nal rest size)

split_last :
    (nal d : List ℕ) (fuel start : ℕ)
    → 1 ≤ length nal
    → drop start d ≡ nal ++ []
    → split_loop fuel d (length d) (start + length nal) start true
      ≡ record { nal = nal; end_of_access_unit = true } ∷ []
split_last nal d fuel start some e =
    let size : length nal ≡ length d - start =
      omega (arith, ap length e, length-append nal [], length-drop start d) in
    let inside : ltb start (length d) ≡ true = ground (arith, size, some) in
    split_loop-end fuel d (start + length nal) start (omega (arith, size))
    ∙ rw inside
        (ap (λ (v : Visit). v ∷ []) (visited nal [] d start (length d - start) true e (sym size)))

-- The loop from the end of a NAL unit on, with the others still to come.
split_rest :
    (nals : List (Bool × List ℕ)) (nal d : List ℕ) (fuel start : ℕ)
    → 1 ≤ length nal
    → All IsNal nals
    → drop start d ≡ nal ++ stream nals
    → length (stream nals) ≤ fuel
    → split_loop fuel d (length d) (start + length nal) start true ≡ visits nal nals
unfolding stream visits
split_rest [] nal d fuel start some clean e enough = split_last nal d fuel start some e
split_rest ((long, next) ∷ nals) nal d zero start some clean e enough = absurd (
    omega
      (arith, enough, length-append (start_code long) (next ++ stream nals), (code_size long).0))
split_rest ((long, next) ∷ nals) nal d (suc fuel) start some (first, clean) e enough =
    let i : ℕ = start + length nal in
    let code = length (start_code long) in
    let small = code_size long in
    let front : drop i d ≡ start_code long ++ (next ++ stream nals) =
      drop-add start (length nal) d
      ∙ ap (λ (t : List ℕ). drop (length nal) t) e
      ∙ drop-append nal (stream ((long, next) ∷ nals)) in
    let behind : drop (i + code) d ≡ next ++ stream nals =
      drop-add i code d
      ∙ ap (λ (t : List ℕ). drop code t) front
      ∙ drop-append (start_code long) (next ++ stream nals) in
    let whole = length-append (start_code long) (next ++ stream nals) in
    let parts = length-append next (stream nals) in
    let size : length d - i ≡ code + (length next + length (stream nals)) =
      omega (arith, ap length front, length-drop i d, whole, parts) in
    let left : length next + (fuel - length next) ≡ fuel =
      omega (arith, enough, whole, parts, small.0) in
    let inside : i < length d = omega (arith, size, small.0) in
    round_code long fuel d i start inside (
      start_code-drop d _ i (omega (arith, size, small.0)) front
      ∙ code_front long (next ++ stream nals))
    ∙ ap (λ (v : Visit). v ∷ split_loop fuel d (length d) (i + code) (i + code) true)
        (visited nal (stream ((long, next) ∷ nals)) d start (i - start) false e (omega arith))
    ∙ ap (λ (r : List Visit). record { nal = nal; end_of_access_unit = false } ∷ r)
        (ap (λ (n : ℕ). split_loop n d (length d) (i + code) (i + code) true) (sym left)
          ∙ through next (stream nals) d (fuel - length next) (i + code) (i + code) first.1
              (omega (arith, size, small.0)) behind
          ∙ split_rest nals next d (fuel - length next) (i + code) first.0 clean behind
              (omega (arith, enough, whole, parts, small.0)))

-- A stream of escaped NAL units, each behind a start code of three or of four bytes, in any mixture,
-- is split into exactly these, in their order; only the last one is told to end the access unit. The
-- fuel, one round for each byte, is enough.
pub split_annexb-stream :
    (long : Bool) (nal : List ℕ) (nals : List (Bool × List ℕ))
    → IsNal (long, nal)
    → All IsNal nals
    → let d = stream ((long, nal) ∷ nals) in split_annexb d (length d) ≡ visits nal nals
unfolding split_annexb stream
split_annexb-stream long nal nals first clean =
    let code = length (start_code long) in
    let small = code_size long in
    let d : List ℕ = start_code long ++ (nal ++ stream nals) in
    let whole = length-append (start_code long) (nal ++ stream nals) in
    let parts = length-append nal (stream nals) in
    let fuel : ℕ = length d - 1 in
    let one : length d ≡ suc fuel = omega (arith, whole, small.0) in
    let left : length nal + (fuel - length nal) ≡ fuel = omega (arith, whole, parts, small.0) in
    ap (λ (n : ℕ). split_loop n d (length d) 0 0 false) one
    ∙ first_code long fuel d (omega (arith, whole, small.0)) (code_front long (nal ++ stream nals))
    ∙ ap (λ (n : ℕ). split_loop n d (length d) code code true) (sym left)
    ∙ through nal (stream nals) d (fuel - length nal) code code first.1
        (omega (arith, whole, parts)) (drop-append (start_code long) (nal ++ stream nals))
    ∙ split_rest nals nal d (fuel - length nal) code first.0 clean
        (drop-append (start_code long) (nal ++ stream nals)) (omega (arith, whole, parts, small.0))
