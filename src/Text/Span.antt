-- ===== src/Text/Span.antt =====
-- Words in a text: what the scanning functions of the C library make of a word and what follows it.
use libmezia.Prelude.{
  ℕ, zero, suc, ◌≤◌, ◌≡◌, refl, ap, ◌∙◌, List, [], ◌∷◌, ◌++◌, Bool, true, false, not, ◌==◌,
  if◌then◌else◌, if_cases, if_true, if_false, length, arith, some,
}
use libmezia.Text.{read_while, split_at, put_front}

-- A test of every character.
unfoldable pub every : (ℕ → Bool) → List ℕ → Bool
every test [] = true
every test (c ∷ text) = let rest = every test text in if test c then rest else false

pub every-head :
    (test : ℕ → Bool) (c : ℕ) (text : List ℕ) → every test (c ∷ text) ≡ true → test c ≡ true
unfolding every
every-head test c text e = ground arith

pub every-tail :
    (test : ℕ → Bool) (c : ℕ) (text : List ℕ)
    → every test (c ∷ text) ≡ true
    → every test text ≡ true
unfolding every
every-tail test c text e = ground arith

pub every-append :
    (test : ℕ → Bool) (xs ys : List ℕ)
    → every test xs ≡ true
    → every test ys ≡ true
    → every test (xs ++ ys) ≡ true
unfolding every
every-append test [] ys e f = f
every-append test (x ∷ xs) ys e f =
    if_true (test x) false (every-head test x xs e)
    ∙ every-append test xs ys (every-tail test x xs e) f

-- A weaker test.
pub every-weaken :
    (test other : ℕ → Bool)
    → ((c : ℕ) → test c ≡ true → other c ≡ true)
    → (text : List ℕ) → every test text ≡ true
    → every other text ≡ true
unfolding every
every-weaken test other f [] e = refl
every-weaken test other f (c ∷ text) e =
    if_true (other c) false (f c (every-head test c text e))
    ∙ every-weaken test other f text (every-tail test c text e)

pub length-read_while :
    (test : ℕ → Bool) (room : ℕ) (text : List ℕ)
    → length (read_while test room text).1 ≤ length text
length-read_while test zero text = omega arith
length-read_while test (suc room) [] = omega arith
length-read_while test (suc room) (c ∷ text) =
    if_cases (λ (t : List ℕ × List ℕ). length t.1 ≤ suc (length text)) (test c)
      (λ _. omega (arith, length-read_while test room text)) (λ _. omega arith)

pub length-read_while_word :
    (test : ℕ → Bool) (room : ℕ) (text : List ℕ) → length (read_while test room text).0 ≤ room
length-read_while_word test zero text = omega arith
length-read_while_word test (suc room) [] = omega arith
length-read_while_word test (suc room) (c ∷ text) =
    if_cases (λ (t : List ℕ × List ℕ). length t.0 ≤ suc room) (test c)
      (λ _. omega (arith, length-read_while_word test room text)) (λ _. omega arith)

-- A word up to the character that ends it.
pub read_while-stop :
    (test : ℕ → Bool) (room : ℕ) (word : List ℕ) (stop : ℕ) (rest : List ℕ)
    → every test word ≡ true
    → test stop ≡ false
    → length word ≤ room
    → read_while test room (word ++ (stop ∷ rest)) ≡ (word, stop ∷ rest)
read_while-stop test zero [] stop rest e f h = refl
read_while-stop test (suc room) [] stop rest e f h = if_false (test stop) _ f
read_while-stop test zero (c ∷ word) stop rest e f h = absurd (omega arith)
read_while-stop test (suc room) (c ∷ word) stop rest e f h =
    if_true (test c) _ (every-head test c word e)
    ∙ ap (λ (t : List ℕ × List ℕ). (c ∷ t.0, t.1))
        (read_while-stop test room word stop rest (every-tail test c word e) f (omega arith))

-- A word up to the end of the text.
pub read_while-end :
    (test : ℕ → Bool) (room : ℕ) (word : List ℕ)
    → every test word ≡ true
    → length word ≤ room
    → read_while test room word ≡ (word, [])
read_while-end test zero [] e h = refl
read_while-end test (suc room) [] e h = refl
read_while-end test zero (c ∷ word) e h = absurd (omega arith)
read_while-end test (suc room) (c ∷ word) e h =
    if_true (test c) _ (every-head test c word e)
    ∙ ap (λ (t : List ℕ × List ℕ). (c ∷ t.0, t.1))
        (read_while-end test room word (every-tail test c word e) (omega arith))

pub split_at-word :
    (stop : ℕ) (word rest : List ℕ)
    → every (λ c. not (c == stop)) word ≡ true
    → split_at stop (word ++ (stop ∷ rest)) ≡ some (word, rest)
split_at-word stop [] rest e = ground arith
split_at-word stop (c ∷ word) rest e =
    let apart = every-head (λ d. not (d == stop)) c word e in
    let different : (c == stop) ≡ false = ground arith in
    if_false (c == stop) _ different
    ∙ ap (put_front c) (split_at-word stop word rest (every-tail (λ d. not (d == stop)) c word e))
