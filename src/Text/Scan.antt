-- ===== src/Text/Scan.antt =====
-- `sscanf`, as far as src/sdp/sdp.c uses it, in glibc's form.
use libmezia.Prelude.{
  ℕ, ◌+◌, ◌-◌, ◌*◌, ◌^◌, ◌%◌, List, [], ◌∷◌, Option, none, some, Bool, true, false, ◌&&◌, ◌||◌, not,
  ◌==◌, leb, if◌then◌else◌, length,
}
use libmezia.Text.{read_while, skip_while}

infixl 10 ◌>>=◌
abbrev pub ◌>>=◌ {ℓ κ} : {A : Type ℓ} {B : Type κ} → Option A → (A → Option B) → Option B
none >>= f = none
some a >>= f = f a

-- `isspace`
abbrev pub is_space : ℕ → Bool
is_space c = c == 32 || leb 9 c && leb c 13

abbrev pub is_digit : ℕ → Bool
is_digit c = leb 48 c && leb c 57

-- The number that digits stand for, behind those that `n` stands for.
abbrev pub digits_value : ℕ → List ℕ → ℕ
digits_value n [] = n
digits_value n (d ∷ ds) = digits_value (n * 10 + (d - 48)) ds

-- A sign, if there is one: whether it is a minus, and what follows.
abbrev pub sign : List ℕ → Bool × List ℕ
sign [] = (false, [])
sign (c ∷ text) =
    if c == 45 then (true, text) else if c == 43 then (false, text) else (false, c ∷ text)

-- `strtoul`, its answer stored in 32 bits.
abbrev pub to_unsigned : Bool → ℕ → ℕ
to_unsigned minus n =
    if leb (2 ^ 64) n then 2 ^ 32 - 1 else if minus then (2 ^ 64 - n) % 2 ^ 32 else n % 2 ^ 32

abbrev pub read_unsigned : Bool → List ℕ × List ℕ → Option (ℕ × List ℕ)
read_unsigned minus ([], rest) = none
read_unsigned minus (d ∷ ds, rest) = some (to_unsigned minus (digits_value 0 (d ∷ ds)), rest)

-- `%u`: the number, and what follows it.
unfoldable pub scan_unsigned : List ℕ → Option (ℕ × List ℕ)
scan_unsigned text =
    let (minus, digits) = sign (skip_while is_space text) in
    read_unsigned minus (read_while is_digit (length digits) digits)

abbrev pub nonempty : List ℕ × List ℕ → Option (List ℕ × List ℕ)
nonempty ([], rest) = none
nonempty (c ∷ word, rest) = some (c ∷ word, rest)

-- `%<room>s`
unfoldable pub scan_word : ℕ → List ℕ → Option (List ℕ × List ℕ)
scan_word room text = nonempty (read_while (λ c. not (is_space c)) room (skip_while is_space text))

-- `%<room>[^<stop>]`
unfoldable pub scan_until : ℕ → ℕ → List ℕ → Option (List ℕ × List ℕ)
scan_until stop room text = nonempty (read_while (λ c. not (c == stop)) room text)

-- A character of the format that stands for itself.
abbrev pub scan_char : ℕ → List ℕ → Option (List ℕ)
scan_char stop [] = none
scan_char stop (c ∷ text) = if c == stop then some text else none
