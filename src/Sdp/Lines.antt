-- ===== src/Sdp/Lines.antt =====
-- How `mezia_sdp_parse` of src/sdp/sdp.c takes a text apart into lines.
use libmezia.Prelude.{
  ℕ, zero, suc, ◌≤◌, ◌≡◌, refl, ap, sym, ◌∙◌, List, [], ◌∷◌, ◌++◌, Bool, true, false, ◌&&◌, not,
  ◌==◌, if◌then◌else◌, if_cases, length, arith, append_assoc, length-append,
}
use libmezia.Text.{read_while, is_empty, newline, carriage_return}
use libmezia.Text.Span.{every, every-append, read_while-stop, length-read_while}
use libmezia.Sdp.Parser.{
  Parser, trim_cr, is_trimmed, skip_newline, read_line, parse_line, parse_lines, line_room,
}
use libmezia.Sdp.Writer.{join_lines}

length-skip_newline : (text : List ℕ) → length (skip_newline text) ≤ length text
length-skip_newline [] = omega arith
length-skip_newline (c ∷ text) =
    if_cases (λ (t : List ℕ). length t ≤ suc (length text)) (c == newline) (λ _. omega arith)
      (λ _. omega arith)

abbrev pub not_newline : ℕ → Bool
not_newline c = not (c == newline)

-- A round takes at least one character.
read_line-shorter : (c : ℕ) (text : List ℕ) → length (read_line (c ∷ text)).1 ≤ length text
unfolding read_line
read_line-shorter c text =
    if_cases (λ (t : List ℕ × List ℕ). length (skip_newline t.1) ≤ length text) (not (c == newline))
      (λ _. omega (
        arith,
        length-skip_newline (read_while (λ d. not (d == newline)) 510 text).1,
        length-read_while (λ d. not (d == newline)) 510 text,
      ))
      (λ e.
        if_cases (λ (t : List ℕ). length t ≤ length text) (c == newline) (λ _. omega arith)
          (λ f. absurd (ground arith)))

-- The loop ends: as many rounds as the text has characters are enough, and more make no difference.
pub parse_lines-fuel :
    (fuel more : ℕ) (text : List ℕ) (p : Parser)
    → length text ≤ fuel
    → length text ≤ more
    → parse_lines fuel text p ≡ parse_lines more text p
unfolding parse_lines
parse_lines-fuel zero zero text p h k = refl
parse_lines-fuel zero (suc more) [] p h k = refl
parse_lines-fuel (suc fuel) zero [] p h k = refl
parse_lines-fuel (suc fuel) (suc more) [] p h k = refl
parse_lines-fuel zero more (c ∷ text) p h k = absurd (omega arith)
parse_lines-fuel fuel zero (c ∷ text) p h k = absurd (omega arith)
parse_lines-fuel (suc fuel) (suc more) (c ∷ text) p h k =
    let (line, rest) = read_line (c ∷ text) in
    let next = parse_line line p in
    let low : length rest ≤ length text = read_line-shorter c text in
    ap (λ (all : Bool × Parser). if next.0 then all else (false, next.1))
      (parse_lines-fuel fuel more rest next.1 (omega arith) (omega arith))

-- Does the text end in a character that `trim_cr` keeps? For an empty text the answer is given.
unfoldable pub ends_solid : Bool → List ℕ → Bool
ends_solid was [] = was
ends_solid was (c ∷ text) = ends_solid (not (is_trimmed c)) text

-- A line that comes back from the text as it is.
pub record IsLine (line : List ℕ) : Type 0 where
  pub calm : every not_newline line ≡ true
  pub short : length line ≤ 509
  pub solid : ends_solid false line ≡ true

read_while-line :
    (line rest : List ℕ)
    → every not_newline line ≡ true
    → length line ≤ 509
    → read_while not_newline line_room (line ++ (carriage_return ∷ newline ∷ rest))
      ≡ (line ++ (carriage_return ∷ []), newline ∷ rest)
unfolding every
read_while-line line rest e h =
    ap (read_while not_newline line_room)
      (sym (append_assoc line (carriage_return ∷ []) (newline ∷ rest)))
    ∙ read_while-stop not_newline line_room (line ++ (carriage_return ∷ [])) newline rest
        (every-append not_newline line (carriage_return ∷ []) e refl) refl
        (omega (arith, length-append line (carriage_return ∷ [])))

trim_cr-line :
    (was : Bool) (line : List ℕ)
    → ends_solid was line ≡ true
    → trim_cr (line ++ (carriage_return ∷ [])) ≡ line
unfolding ends_solid
trim_cr-line was [] e = refl
trim_cr-line was (c ∷ []) e = ground arith
trim_cr-line was (c ∷ d ∷ line) e =
    ap (λ (t : List ℕ). if is_trimmed c && is_empty t then [] else c ∷ t)
      (trim_cr-line (not (is_trimmed c)) (d ∷ line) e)
    ∙ solid (is_trimmed c)
  where
    solid : (b : Bool) → (if b && false then [] else c ∷ d ∷ line) ≡ c ∷ d ∷ line
    solid true = refl
    solid false = refl

read_line-line :
    (line rest : List ℕ)
    → IsLine line
    → read_line (line ++ (carriage_return ∷ newline ∷ rest)) ≡ (line, rest)
unfolding read_line
read_line-line line rest v =
    ap (λ (t : List ℕ × List ℕ). (trim_cr t.0, skip_newline t.1))
      (read_while-line line rest v.calm v.short)
    ∙ ap (λ (t : List ℕ). (t, rest)) (trim_cr-line false line v.solid)

-- The loop over lines that are already apart.
unfoldable pub run_lines : List (List ℕ) → Parser → Bool × Parser
run_lines [] p = (true, p)
run_lines (line ∷ lines) p =
    let (fine, next) = parse_line line p in
    let all = run_lines lines next in if fine then all else (false, next)

parse_lines-step :
    (text : List ℕ) (p : Parser)
    → 1 ≤ length text
    → parse_lines (length text) text p ≡ (
        let (line, rest) = read_line text in
        let (fine, next) = parse_line line p in
        let all = parse_lines (length rest) rest next in if fine then all else (false, next))
unfolding parse_lines
parse_lines-step [] p h = absurd (omega arith)
parse_lines-step (c ∷ text) p h =
    let rest = (read_line (c ∷ text)).1 in
    let next = parse_line (read_line (c ∷ text)).0 p in
    ap (λ (all : Bool × Parser). if next.0 then all else (false, next.1))
      (parse_lines-fuel (length text) (length rest) rest next.1 (read_line-shorter c text)
        (omega arith))

length-line : (line rest : List ℕ) → 1 ≤ length (line ++ (carriage_return ∷ rest))
length-line [] rest = omega arith
length-line (c ∷ line) rest = omega arith

abbrev pub AllLines : List (List ℕ) → Type 0
AllLines [] = Unit
AllLines (line ∷ lines) = IsLine line × AllLines lines

-- A text of such lines is taken apart into them.
pub parse_lines-join_lines :
    (lines : List (List ℕ)) (p : Parser)
    → AllLines lines
    → parse_lines (length (join_lines lines)) (join_lines lines) p ≡ run_lines lines p
unfolding run_lines parse_lines
parse_lines-join_lines [] p v = refl
parse_lines-join_lines (line ∷ lines) p (v, vs) =
    let rest = join_lines lines in
    let text = line ++ (carriage_return ∷ newline ∷ rest) in
    let next = parse_line line p in
    parse_lines-step text p (length-line line (newline ∷ rest))
    ∙ ap
        (λ (t : List ℕ × List ℕ).
          let r = parse_line t.0 p in
          if r.0 then parse_lines (length t.1) t.1 r.1 else (false, r.1))
        (read_line-line line rest v)
    ∙ ap (λ (all : Bool × Parser). if next.0 then all else (false, next.1))
        (parse_lines-join_lines lines next.1 vs)

-- Lines that are all well formed, and take the first state to the last.
pub data Run : List (List ℕ) → Parser → Parser → Type 0 where
  done : {p : Parser} → Run [] p p
  next :
      {line : List ℕ} {lines : List (List ℕ)} {p q r : Parser}
      → parse_line line p ≡ (true, q)
      → Run lines q r
      → Run (line ∷ lines) p r

pub Run-append :
    {xs ys : List (List ℕ)} {p q r : Parser} → Run xs p q → Run ys q r → Run (xs ++ ys) p r
Run-append Run.done s = s
Run-append (Run.next e r) s = Run.next e (Run-append r s)

pub run_lines-Run :
    {lines : List (List ℕ)} {p q : Parser} → Run lines p q → run_lines lines p ≡ (true, q)
unfolding run_lines
run_lines-Run Run.done = refl
run_lines-Run (Run.next {lines = lines} e r) =
    ap (λ (t : Bool × Parser). if t.0 then run_lines lines t.1 else (false, t.1)) e
    ∙ run_lines-Run r
