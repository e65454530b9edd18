-- ===== src/Prelude/Lists.antt =====
-- C arrays as lists, measured and indexed by native numbers.
use Prim.Native.Nat.{ℕ, zero, suc, ◌+◌, ◌-◌, ◌≤◌, ◌<◌, min}
use mathlib.Core.Path.{◌≡◌, refl, ap}
use mathlib.Core.Logic.{◌≢◌}
use mathlib.Core.List.{List, [], ◌∷◌, ◌++◌, map}
use mathlib.Core.Option.{Option, none, some}
use mathlib.Core.Bool.{Bool, true, false, ◌&&◌}
use native.Mathlib.Omega.{arith}
use libmezia.Prelude.Tests.{◌==◌}

module _ {ℓ} {A : Type ℓ} where
  abbrev pub length : List A → ℕ
  length [] = 0
  length (x ∷ xs) = suc (length xs)

  abbrev pub get_elem? : List A → ℕ → Option A
  get_elem? [] i = none
  get_elem? (x ∷ xs) zero = some x
  get_elem? (x ∷ xs) (suc i) = get_elem? xs i

  abbrev pub get_or : List A → ℕ → A → A
  get_or [] i d = d
  get_or (x ∷ xs) zero d = x
  get_or (x ∷ xs) (suc i) d = get_or xs i d

  -- A write out of bounds changes nothing.
  abbrev pub set : List A → ℕ → A → List A
  set [] i v = []
  set (x ∷ xs) zero v = v ∷ xs
  set (x ∷ xs) (suc i) v = x ∷ set xs i v

  abbrev pub take : ℕ → List A → List A
  take zero xs = []
  take (suc n) [] = []
  take (suc n) (x ∷ xs) = x ∷ take n xs

  abbrev pub drop : ℕ → List A → List A
  drop zero xs = xs
  drop (suc n) [] = []
  drop (suc n) (x ∷ xs) = drop n xs

  abbrev pub replicate : ℕ → A → List A
  replicate zero a = []
  replicate (suc n) a = a ∷ replicate n a

  -- memcpy of `src` into the array, its first byte at index `i`; past the end nothing is written.
  abbrev pub copy_at : List A → ℕ → List A → List A
  copy_at [] i ys = []
  copy_at (x ∷ xs) (suc i) ys = x ∷ copy_at xs i ys
  copy_at (x ∷ xs) zero [] = x ∷ xs
  copy_at (x ∷ xs) zero (y ∷ ys) = y ∷ copy_at xs zero ys

  -- A predicate of every element.
  abbrev pub All {κ} : (A → Type κ) → List A → Type κ
  All P [] = Unit {κ}
  All P (x ∷ xs) = P x × All P xs

module _ {ℓ} {A : Type ℓ} where
  pub length-append : (xs ys : List A) → length (xs ++ ys) ≡ length xs + length ys
  length-append [] ys = omega arith
  length-append (x ∷ xs) ys = omega (arith, length-append xs ys)

  pub length-set : (xs : List A) (i : ℕ) (v : A) → length (set xs i v) ≡ length xs
  length-set [] i v = refl
  length-set (x ∷ xs) zero v = refl
  length-set (x ∷ xs) (suc i) v = ap suc (length-set xs i v)

  pub length-take : (n : ℕ) (xs : List A) → length (take n xs) ≡ min n (length xs)
  length-take zero xs = omega arith
  length-take (suc n) [] = omega arith
  length-take (suc n) (x ∷ xs) = omega (arith, length-take n xs)

  pub length-drop : (n : ℕ) (xs : List A) → length (drop n xs) ≡ length xs - n
  length-drop zero xs = omega arith
  length-drop (suc n) [] = omega arith
  length-drop (suc n) (x ∷ xs) = omega (arith, length-drop n xs)

  pub length-replicate : (n : ℕ) (a : A) → length (replicate n a) ≡ n
  length-replicate zero a = refl
  length-replicate (suc n) a = ap suc (length-replicate n a)

  pub length-copy_at : (xs : List A) (i : ℕ) (ys : List A) → length (copy_at xs i ys) ≡ length xs
  length-copy_at [] i ys = refl
  length-copy_at (x ∷ xs) (suc i) ys = ap suc (length-copy_at xs i ys)
  length-copy_at (x ∷ xs) zero [] = refl
  length-copy_at (x ∷ xs) zero (y ∷ ys) = ap suc (length-copy_at xs zero ys)

  pub copy_at-nil : (xs : List A) (i : ℕ) → copy_at xs i [] ≡ xs
  copy_at-nil [] i = refl
  copy_at-nil (x ∷ xs) (suc i) = ap (λ t. x ∷ t) (copy_at-nil xs i)
  copy_at-nil (x ∷ xs) zero = refl

  pub get_or-set_self :
      (xs : List A) (i : ℕ) (v d : A) → i < length xs → get_or (set xs i v) i d ≡ v
  get_or-set_self [] i v d h = absurd (omega arith)
  get_or-set_self (x ∷ xs) zero v d h = refl
  get_or-set_self (x ∷ xs) (suc i) v d h = get_or-set_self xs i v d (omega arith)

  pub get_or-set_ne :
      (xs : List A) (i j : ℕ) (v d : A) → i ≢ j → get_or (set xs i v) j d ≡ get_or xs j d
  get_or-set_ne [] i j v d ne = refl
  get_or-set_ne (x ∷ xs) zero zero v d ne = absurd (ne refl)
  get_or-set_ne (x ∷ xs) zero (suc j) v d ne = refl
  get_or-set_ne (x ∷ xs) (suc i) zero v d ne = refl
  get_or-set_ne (x ∷ xs) (suc i) (suc j) v d ne = get_or-set_ne xs i j v d (λ e. ne (ap suc e))

  pub take-nil : (n : ℕ) → take {A = A} n [] ≡ []
  take-nil zero = refl
  take-nil (suc n) = refl

  pub take-append-drop : (n : ℕ) (xs : List A) → take n xs ++ drop n xs ≡ xs
  take-append-drop zero xs = refl
  take-append-drop (suc n) [] = refl
  take-append-drop (suc n) (x ∷ xs) = ap (λ t. x ∷ t) (take-append-drop n xs)

  pub take-length : (xs : List A) (n : ℕ) → length xs ≤ n → take n xs ≡ xs
  take-length [] zero h = refl
  take-length [] (suc n) h = refl
  take-length (x ∷ xs) zero h = absurd (omega arith)
  take-length (x ∷ xs) (suc n) h = ap (λ t. x ∷ t) (take-length xs n (omega arith))

  pub take-append : (n : ℕ) (xs ys : List A) → n ≡ length xs → take n (xs ++ ys) ≡ xs
  take-append zero [] ys e = refl
  take-append (suc n) [] ys e = absurd (omega arith)
  take-append zero (x ∷ xs) ys e = absurd (omega arith)
  take-append (suc n) (x ∷ xs) ys e = ap (λ t. x ∷ t) (take-append n xs ys (omega arith))

  pub copy_at-zero :
      (xs ys : List A) → length ys ≤ length xs → copy_at xs 0 ys ≡ ys ++ drop (length ys) xs
  copy_at-zero xs [] h = copy_at-nil xs 0
  copy_at-zero [] (y ∷ ys) h = absurd (omega arith)
  copy_at-zero (x ∷ xs) (y ∷ ys) h = ap (λ t. y ∷ t) (copy_at-zero xs ys (omega arith))

  -- Reading back what was just copied to the front.
  pub take-copy_at :
      (xs ys : List A) → length ys ≤ length xs → take (length ys) (copy_at xs 0 ys) ≡ ys
  take-copy_at xs [] h = refl
  take-copy_at [] (y ∷ ys) h = absurd (omega arith)
  take-copy_at (x ∷ xs) (y ∷ ys) h = ap (λ t. y ∷ t) (take-copy_at xs ys (omega arith))

  pub length-map {κ} : {B : Type κ} (xs : List A) (f : A → B) → length (map f xs) ≡ length xs
  length-map [] f = refl
  length-map (x ∷ xs) f = ap suc (length-map xs f)

  -- Reading what was copied to the index `i`, with what stands before it.
  pub take-copy_at_behind :
      (xs : List A) (i : ℕ) (ys : List A)
      → i + length ys ≤ length xs
      → take (i + length ys) (copy_at xs i ys) ≡ take i xs ++ ys
  take-copy_at_behind xs zero ys h = rw (the_same (length ys)) (take-copy_at xs ys (omega arith))
    where
      the_same : (n : ℕ) → 0 + n ≡ n
      the_same n = omega arith
  take-copy_at_behind [] (suc i) ys h = absurd (omega arith)
  take-copy_at_behind (x ∷ xs) (suc i) ys h =
      rw (shift (length ys)) (ap (λ t. x ∷ t) (take-copy_at_behind xs i ys (omega arith)))
    where
      shift : (n : ℕ) → suc i + n ≡ suc (i + n)
      shift n = omega arith

  pub take-add : (i n : ℕ) (xs : List A) → take (i + n) xs ≡ take i xs ++ take n (drop i xs)
  take-add zero n xs = rw (start n) refl
    where
      start : (n : ℕ) → 0 + n ≡ n
      start n = omega arith
  take-add (suc i) zero [] = rw (start i) refl
    where
      start : (i : ℕ) → suc i + 0 ≡ suc i
      start i = omega arith
  take-add (suc i) (suc n) [] = rw (start i n) refl
    where
      start : (i n : ℕ) → suc i + suc n ≡ suc (i + suc n)
      start i n = omega arith
  take-add (suc i) n (x ∷ xs) = rw (shift n) (ap (λ t. x ∷ t) (take-add i n xs))
    where
      shift : (n : ℕ) → suc i + n ≡ suc (i + n)
      shift n = omega arith

-- `memcmp` of two arrays.
abbrev pub byte_eq : List ℕ → List ℕ → Bool
byte_eq [] [] = true
byte_eq (x ∷ xs) (y ∷ ys) = x == y && byte_eq xs ys
byte_eq _ _ = false
