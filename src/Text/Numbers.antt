-- ===== src/Text/Numbers.antt =====
-- `%u` printed and scanned.
use libmezia.Prelude.{
  ℕ, suc, ◌+◌, ◌-◌, ◌*◌, ◌/◌, ◌%◌, ◌≤◌, ◌<◌, ◌^◌, ◌≡◌, refl, ap, ◌∙◌, List, [], ◌∷◌, ◌++◌, Bool,
  true, false, ◌&&◌, ◌||◌, ◌==◌, ltb, if_cases, if_false, length, arith, some, length-append,
}
use libmezia.Text.{read_while, skip_while, contains, starts_with}
use libmezia.Text.Scan.{
  is_space, is_digit, digits_value, sign, to_unsigned, read_unsigned, scan_unsigned,
}
use libmezia.Text.Print.{decimal, decimal_loop}
use libmezia.Text.Span.{every, every-head, every-tail, every-append, read_while-stop}

-- Up to `most` digits that stand for `n`.
pub record IsDecimal (most n : ℕ) (ds : List ℕ) : Type 0 where
  pub digits : every is_digit ds ≡ true
  pub value : digits_value 0 ds ≡ n
  pub some : 1 ≤ length ds
  pub few : length ds ≤ most

digits_value-append :
    (m : ℕ) (ds : List ℕ) (d : ℕ)
    → digits_value m (ds ++ (d ∷ [])) ≡ digits_value m ds * 10 + (d - 48)
digits_value-append m [] d = refl
digits_value-append m (e ∷ ds) d = digits_value-append (m * 10 + (e - 48)) ds d

one_digit : (n : ℕ) → n < 10 → IsDecimal 1 n ((48 + n) ∷ [])
unfolding every
one_digit n h = record {
  digits = ground arith;
  value = omega arith;
  some = omega arith;
  few = omega arith;
}

decimal_loop-small : (fuel n : ℕ) → n < 10 → IsDecimal 1 n (decimal_loop (suc fuel) n)
decimal_loop-small fuel n h =
    if_cases (λ (t : List ℕ). IsDecimal 1 n t) (ltb n 10) (λ _. one_digit n h)
      (λ e. absurd (ground arith))

another :
    (most n : ℕ) (ds : List ℕ)
    → IsDecimal most (n / 10) ds
    → IsDecimal (suc most) n (ds ++ ((48 + n % 10) ∷ []))
unfolding every
another most n ds v =
    let last : every is_digit ((48 + n % 10) ∷ []) ≡ true = ground arith in
    record {
      digits = every-append is_digit ds _ v.digits last;
      value =
          digits_value-append 0 ds (48 + n % 10)
          ∙ ap (λ (t : ℕ). t * 10 + ((48 + n % 10) - 48)) v.value
          ∙ omega arith;
      some = omega (arith, length-append ds ((48 + n % 10) ∷ []));
      few = omega (arith, length-append ds ((48 + n % 10) ∷ []), v.few);
    }

decimal_loop-step :
    (most fuel n : ℕ)
    → 1 ≤ most
    → IsDecimal most (n / 10) (decimal_loop fuel (n / 10))
    → IsDecimal (suc most) n (decimal_loop (suc fuel) n)
decimal_loop-step most fuel n h v =
    if_cases (λ (t : List ℕ). IsDecimal (suc most) n t) (ltb n 10)
      (λ e.
        let one = one_digit n (ground arith) in
        record { digits = one.digits; value = one.value; some = one.some; few = omega arith })
      (λ _. another most n (decimal_loop fuel (n / 10)) v)

-- A number of up to three digits.
pub decimal-IsDecimal : (n : ℕ) → n < 1000 → IsDecimal 3 n (decimal n)
unfolding decimal
decimal-IsDecimal n h = decimal_loop-step 2 9 n (omega arith) (
    decimal_loop-step 1 8 (n / 10) (omega arith) (decimal_loop-small 7 (n / 10 / 10) (omega arith)))

read_unsigned-digits :
    (ds rest : List ℕ) (n : ℕ)
    → 1 ≤ length ds
    → digits_value 0 ds ≡ n
    → n < 2 ^ 32
    → read_unsigned false (ds, rest) ≡ some (n, rest)
read_unsigned-digits [] rest n h e low = absurd (omega arith)
read_unsigned-digits (d ∷ ds) rest n h e low =
    ap (λ (t : ℕ). some (to_unsigned false t, rest)) e ∙ ap (λ (t : ℕ). some (t, rest)) same
  where
    same : to_unsigned false n ≡ n
    same = ground arith

digits_first :
    (d : ℕ) (text : List ℕ)
    → is_digit d ≡ true
    → sign (skip_while is_space (d ∷ text)) ≡ (false, d ∷ text)
digits_first d text e =
    ap sign (if_false (is_space d) _ (ground arith))
    ∙ if_false (d == 45) _ (ground arith)
    ∙ if_false (d == 43) _ (ground arith)

-- `%u` reads a number of up to 32 bits back, if something else than a digit follows.
pub scan_unsigned-digits :
    (most n : ℕ) (ds : List ℕ) (stop : ℕ) (rest : List ℕ)
    → IsDecimal most n ds
    → n < 2 ^ 32
    → is_digit stop ≡ false
    → scan_unsigned (ds ++ (stop ∷ rest)) ≡ some (n, stop ∷ rest)
unfolding scan_unsigned
scan_unsigned-digits most n [] stop rest v low e = absurd (omega (arith, v.some))
scan_unsigned-digits most n (d ∷ ds) stop rest v low e =
    let text = d ∷ ds ++ (stop ∷ rest) in
    let size : length (ds ++ (stop ∷ rest)) ≡ length ds + length (stop ∷ rest) =
      length-append ds (stop ∷ rest) in
    ap (λ (t : Bool × List ℕ). read_unsigned t.0 (read_while is_digit (length t.1) t.1))
      (digits_first d (ds ++ (stop ∷ rest)) (every-head is_digit d ds v.digits))
    ∙ ap (read_unsigned false)
        (read_while-stop is_digit (length text) (d ∷ ds) stop rest v.digits e (omega arith))
    ∙ read_unsigned-digits (d ∷ ds) (stop ∷ rest) n v.some v.value low

-- A pattern that starts with no digit is not found in digits.
pub contains-digits :
    (p : ℕ) (pattern ds rest : List ℕ)
    → is_digit p ≡ false
    → every is_digit ds ≡ true
    → contains (p ∷ pattern) (ds ++ rest) ≡ contains (p ∷ pattern) rest
contains-digits p pattern [] rest e f = refl
contains-digits p pattern (d ∷ ds) rest e f =
    let digit = every-head is_digit d ds f in
    let different : (p == d) ≡ false = ground arith in
    ap (λ (b : Bool). b && starts_with pattern (ds ++ rest) || contains (p ∷ pattern) (ds ++ rest))
      different
    ∙ contains-digits p pattern ds rest e (every-tail is_digit d ds f)
