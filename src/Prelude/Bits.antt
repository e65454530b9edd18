-- ===== src/Prelude/Bits.antt =====
-- `&` and `|` at variables: one equation for the lowest digit, and what follows for masks,
-- disjoint fields and single bits.
use Prim.Native.Nat.{ℕ, zero, suc, ◌+◌, ◌*◌, ◌/◌, ◌%◌, ◌^◌, ◌≤◌, ◌<◌, min, max}
use Prim.Native.Nat.{
  bit_and, bit_or, bit_xor, digits, differ, bit_and-bitwise, bit_or-bitwise, bit_xor-bitwise,
}
use mathlib.Core.Path.{◌≡◌, refl, ap}
use mathlib.Core.Bool.{Bool, true, ◌&&◌}
use native.Mathlib.Nat.{pow-suc}
use native.Mathlib.Omega.{arith}
use libmezia.Prelude.Tests.{◌==◌, ==_iff}

-- The digit recursion behind the native operations does not depend on its fuel.
same_digits :
    (u : ℕ → ℕ) (g : ℕ → ℕ → ℕ) (k l x y : ℕ) → x ≤ k → x ≤ l → digits u g k x y ≡ digits u g l x y
same_digits u g zero zero x y p q = refl
same_digits u g zero (suc l) zero y p q = refl
same_digits u g zero (suc l) (suc x) y p q = absurd (omega arith)
same_digits u g (suc k) zero zero y p q = refl
same_digits u g (suc k) zero (suc x) y p q = absurd (omega arith)
same_digits u g (suc k) (suc l) zero y p q = refl
same_digits u g (suc k) (suc l) (suc x) y p q =
    omega (arith, same_digits u g k l (suc x / 2) (y / 2) (omega arith) (omega arith))

pub bit_and-lowest : (x y : ℕ) → bit_and x y ≡ bit_and (x / 2) (y / 2) * 2 + min (x % 2) (y % 2)
bit_and-lowest zero y = omega (arith, bit_and-bitwise 0 y, bit_and-bitwise 0 (y / 2))
bit_and-lowest (suc x) y = omega (
  arith,
  bit_and-bitwise (suc x) y,
  bit_and-bitwise (suc x / 2) (y / 2),
  same_digits (λ b. zero) min x (suc x / 2) (suc x / 2) (y / 2) (omega arith) (omega arith),
)

pub bit_or-lowest : (x y : ℕ) → bit_or x y ≡ bit_or (x / 2) (y / 2) * 2 + max (x % 2) (y % 2)
bit_or-lowest zero y = omega (arith, bit_or-bitwise 0 y, bit_or-bitwise 0 (y / 2))
bit_or-lowest (suc x) y = omega (
  arith,
  bit_or-bitwise (suc x) y,
  bit_or-bitwise (suc x / 2) (y / 2),
  same_digits (λ b. b) max x (suc x / 2) (suc x / 2) (y / 2) (omega arith) (omega arith),
)

bit_or-zero_below : (n x : ℕ) → x ≤ n → bit_or x 0 ≡ x
bit_or-zero_below n zero h = refl
bit_or-zero_below zero (suc x) h = absurd (omega arith)
bit_or-zero_below (suc n) (suc x) h =
    omega (arith, bit_or-lowest (suc x) 0, bit_or-zero_below n (suc x / 2) (omega arith))

pub bit_or-zero : (x : ℕ) → bit_or x 0 ≡ x
bit_or-zero x = bit_or-zero_below x x (omega arith)

twice_pow : (q k : ℕ) → q * 2 ^ suc k ≡ q * 2 ^ k * 2
twice_pow q k = omega (arith, ap (λ (t : ℕ). q * t) (pow-suc 2 k))

-- `|` of two fields that share no bit is their sum.
pub bit_or-fields : (k q r : ℕ) → r < 2 ^ k → bit_or (q * 2 ^ k) r ≡ q * 2 ^ k + r
bit_or-fields zero q r h = ground (arith, bit_or-zero q)
bit_or-fields (suc k) q r h = ground (
  arith,
  bit_or-lowest (q * 2 ^ suc k) r,
  twice_pow q k,
  pow-suc 2 k,
  bit_or-fields k q (r / 2) (omega (arith, pow-suc 2 k)),
)

-- Does the test pass at 0 up to `n - 1`? It is evaluated at each.
unfoldable pub every_below : (ℕ → Bool) → ℕ → Bool
every_below test zero = true
every_below test (suc n) = every_below test n && test n

pub every_below_sound :
    (test : ℕ → Bool) (n i : ℕ) → i < n → every_below test n ≡ true → test i ≡ true
unfolding every_below
every_below_sound test zero i low passed = absurd (omega arith)
every_below_sound test (suc n) i low passed = ground (arith, every_below_sound test n i)

-- An equation of numbers at every byte.
pub byte_table :
    (f g : ℕ → ℕ) (x : ℕ) → every_below (λ y. f y == g y) 256 ≡ true → x < 256 → f x ≡ g x
byte_table f g x t h = (==_iff (f x) (g x)).0 (every_below_sound (λ y. f y == g y) 256 x h t)

bit_and-zero_below : (n x : ℕ) → x ≤ n → bit_and x 0 ≡ 0
bit_and-zero_below n zero h = refl
bit_and-zero_below zero (suc x) h = absurd (omega arith)
bit_and-zero_below (suc n) (suc x) h =
    omega (arith, bit_and-lowest (suc x) 0, bit_and-zero_below n (suc x / 2) (omega arith))

pub bit_and-zero : (x : ℕ) → bit_and x 0 ≡ 0
bit_and-zero x = bit_and-zero_below x x (omega arith)

-- The mask of four low bits, then of eight.
bit_and-nibble : (x : ℕ) → bit_and x 15 ≡ x % 16
bit_and-nibble x = omega (
  arith,
  bit_and-lowest x 15,
  bit_and-lowest (x / 2) 7,
  bit_and-lowest (x / 2 / 2) 3,
  bit_and-lowest (x / 2 / 2 / 2) 1,
  bit_and-zero (x / 2 / 2 / 2 / 2),
)

pub bit_and-byte : (x : ℕ) → bit_and x 255 ≡ x % 256
bit_and-byte x = omega (
  arith,
  bit_and-lowest x 255,
  bit_and-lowest (x / 2) 127,
  bit_and-lowest (x / 2 / 2) 63,
  bit_and-lowest (x / 2 / 2 / 2) 31,
  bit_and-nibble (x / 2 / 2 / 2 / 2),
)

-- `|` stays within a width, and loses nothing of its first operand.
pub bit_or-lt : (k x y : ℕ) → x < 2 ^ k → y < 2 ^ k → bit_or x y < 2 ^ k
bit_or-lt zero zero zero hx hy = omega arith
bit_or-lt zero zero (suc y) hx hy = absurd (omega arith)
bit_or-lt zero (suc x) y hx hy = absurd (omega arith)
bit_or-lt (suc k) x y hx hy = omega (
  arith,
  pow-suc 2 k,
  bit_or-lowest x y,
  bit_or-lt k (x / 2) (y / 2) (omega (arith, pow-suc 2 k)) (omega (arith, pow-suc 2 k)),
)

le-bit_or_below : (n x y : ℕ) → x ≤ n → x ≤ bit_or x y
le-bit_or_below n zero y h = omega arith
le-bit_or_below zero (suc x) y h = absurd (omega arith)
le-bit_or_below (suc n) (suc x) y h =
    omega (arith, bit_or-lowest (suc x) y, le-bit_or_below n (suc x / 2) (y / 2) (omega arith))

pub le-bit_or : (x y : ℕ) → x ≤ bit_or x y
le-bit_or x y = le-bit_or_below x x y (omega arith)

pub bit_and-one : (x : ℕ) → bit_and x 1 ≡ x % 2
bit_and-one x = omega (arith, bit_and-lowest x 1, bit_and-zero (x / 2))

-- Powers of two below 2 ^ 64 grow with the exponent.
pub pow_mono : (a b : ℕ) → a ≤ b → 2 ^ a ≤ 2 ^ b
pow_mono zero zero h = omega arith
pow_mono zero (suc b) h = omega (arith, pow-suc 2 b, pow_mono zero b (omega arith))
pow_mono (suc a) zero h = absurd (omega arith)
pow_mono (suc a) (suc b) h = omega (arith, pow-suc 2 a, pow-suc 2 b, pow_mono a b (omega arith))

differ-digit : (a b : ℕ) → a < 2 → b < 2 → differ a b < 2
differ-digit zero b ha hb = hb
differ-digit (suc a) zero ha hb = ha
differ-digit (suc a) (suc b) ha hb = differ-digit a b (omega arith) (omega arith)

bit_xor-lowest : (x y : ℕ) → bit_xor x y ≡ bit_xor (x / 2) (y / 2) * 2 + differ (x % 2) (y % 2)
bit_xor-lowest zero y = lowest_of_zero y
  where
    lowest_of_zero : (y : ℕ) → bit_xor 0 y ≡ bit_xor 0 (y / 2) * 2 + differ 0 (y % 2)
    lowest_of_zero y = omega (arith, bit_xor-bitwise 0 y, bit_xor-bitwise 0 (y / 2))
bit_xor-lowest (suc x) y = omega (
  arith,
  bit_xor-bitwise (suc x) y,
  bit_xor-bitwise (suc x / 2) (y / 2),
  same_digits (λ b. b) differ x (suc x / 2) (suc x / 2) (y / 2) (omega arith) (omega arith),
)

-- `^` stays within a width.
pub bit_xor-lt : (k x y : ℕ) → x < 2 ^ k → y < 2 ^ k → bit_xor x y < 2 ^ k
bit_xor-lt zero zero zero hx hy = omega (arith, bit_xor-bitwise 0 0)
bit_xor-lt zero zero (suc y) hx hy = absurd (omega arith)
bit_xor-lt zero (suc x) y hx hy = absurd (omega arith)
bit_xor-lt (suc k) x y hx hy = omega (
  arith,
  pow-suc 2 k,
  bit_xor-lowest x y,
  differ-digit (x % 2) (y % 2) (omega arith) (omega arith),
  bit_xor-lt k (x / 2) (y / 2) (omega (arith, pow-suc 2 k)) (omega (arith, pow-suc 2 k)),
)
