-- ===== src/Text.antt =====
-- The C library's functions on text that src/sdp/sdp.c and src/session/session.c call. A C string is
-- the list of its characters, without the 0 that ends it.
pub mod Scan
pub mod Print
pub mod Span
pub mod Numbers
use Prim.Native.Char.{code}
use Prim.Native.String.{String}
use libmezia.Prelude.{
  ℕ, zero, suc, List, [], ◌∷◌, Option, none, some, Bool, true, false, ◌&&◌, ◌||◌, not, ◌==◌,
  byte_eq, if◌then◌else◌,
}

-- The characters of a literal.
abbrev pub codes : String → List ℕ
codes String.[] = []
codes (String.◌∷◌ c s) = code c ∷ codes s

abbrev pub space_char : ℕ
space_char = 32

abbrev pub newline : ℕ
newline = 10

abbrev pub carriage_return : ℕ
carriage_return = 13

abbrev pub is_empty : List ℕ → Bool
is_empty [] = true
is_empty (c ∷ text) = false

-- What follows the prefix, if the text starts with it: `strncmp` with the prefix's length.
abbrev pub strip_prefix : List ℕ → List ℕ → Option (List ℕ)
strip_prefix [] text = some text
strip_prefix (p ∷ prefix) [] = none
strip_prefix (p ∷ prefix) (c ∷ text) = if p == c then strip_prefix prefix text else none

-- `strcmp` with 0 as its answer.
abbrev pub same_text : List ℕ → List ℕ → Bool
same_text a b = byte_eq a b

abbrev pub starts_with : List ℕ → List ℕ → Bool
starts_with [] text = true
starts_with (p ∷ prefix) [] = false
starts_with (p ∷ prefix) (c ∷ text) = p == c && starts_with prefix text

-- `strstr`, as whether it finds something.
abbrev pub contains : List ℕ → List ℕ → Bool
contains pattern [] = starts_with pattern []
contains pattern (c ∷ text) =
    let later = contains pattern text in starts_with pattern (c ∷ text) || later

abbrev pub put_front : ℕ → Option (List ℕ × List ℕ) → Option (List ℕ × List ℕ)
put_front c none = none
put_front c (some (word, rest)) = some (c ∷ word, rest)

-- The text in front of the first such character, and behind it: `strchr`.
abbrev pub split_at : ℕ → List ℕ → Option (List ℕ × List ℕ)
split_at stop [] = none
split_at stop (c ∷ text) =
    let later = split_at stop text in if c == stop then some ([], text) else put_front c later

-- The longest start of up to `room` characters that pass the test, and what follows it.
abbrev pub read_while : (ℕ → Bool) → ℕ → List ℕ → List ℕ × List ℕ
read_while test zero text = ([], text)
read_while test (suc room) [] = ([], [])
read_while test (suc room) (c ∷ text) =
    let (word, rest) = read_while test room text in
    if test c then (c ∷ word, rest) else ([], c ∷ text)

-- The text from the first character on that fails the test.
abbrev pub skip_while : (ℕ → Bool) → List ℕ → List ℕ
skip_while test [] = []
skip_while test (c ∷ text) = let rest = skip_while test text in if test c then rest else c ∷ text
