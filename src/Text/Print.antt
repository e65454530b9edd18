-- ===== src/Text/Print.antt =====
-- `snprintf`, as far as src/sdp/sdp.c uses it.
use libmezia.Prelude.{
  ℕ, zero, suc, ◌+◌, ◌-◌, ◌/◌, ◌%◌, List, [], ◌∷◌, ◌++◌, ltb, take, if◌then◌else◌,
}

abbrev pub decimal_loop : ℕ → ℕ → List ℕ
decimal_loop zero n = []
decimal_loop (suc fuel) n =
    let front = decimal_loop fuel (n / 10) in
    if ltb n 10 then (48 + n) ∷ [] else front ++ ((48 + n % 10) ∷ [])

-- `%u` of a number of 32 bits, which has ten digits at most.
unfoldable pub decimal : ℕ → List ℕ
decimal n = decimal_loop 10 n

-- A text in a buffer of `size` characters, cut off behind `size - 1`.
abbrev pub snprintf : ℕ → List ℕ → List ℕ
snprintf size text = take (size - 1) text
