-- ===== src/Sdp/Offer/Pieces.antt =====
-- How `mezia_sdp_write_offer` of src/sdp/sdp.c puts its text together.
use libmezia.Prelude.{
  ℕ, ◌+◌, ◌-◌, ◌≤◌, ◌≡◌, refl, ap, sym, subst, ◌∙◌, List, [], ◌∷◌, ◌++◌, Bool, true, false, ltb,
  leb, leb→le, length, append-nil, append_assoc, arith, if◌then◌else◌, if_false, take-length,
}
use libmezia.Text.{carriage_return, newline}
use libmezia.Text.Print.{snprintf}
use libmezia.Sdp.Lines.{AllLines}
use libmezia.Sdp.Writer.{Sink, append, append_all, join_lines}
use libmezia.Sdp.Offer.Shape.{Fine, Fine-AllLines, length-join_lines}

join_lines-append : (xs ys : List (List ℕ)) → join_lines (xs ++ ys) ≡ join_lines xs ++ join_lines ys
join_lines-append [] ys = refl
join_lines-append (x ∷ xs) ys =
    ap (λ t. x ++ (carriage_return ∷ newline ∷ t)) (join_lines-append xs ys)
    ∙ sym (append_assoc x (carriage_return ∷ newline ∷ join_lines xs) (join_lines ys))

-- The texts that are appended, up to a size in all, and the lines that they are made of.
pub data Pieces : ℕ → List (List ℕ) → List (List ℕ) → Type 0 where
  nil : Pieces 0 [] []
  cons :
      {n m : ℕ} {lines rest texts : List (List ℕ)}
      → leb n 1023 ≡ true
      → Fine n lines
      → Pieces m texts rest
      → Pieces (n + m) (snprintf 1024 (join_lines lines) ∷ texts) (lines ++ rest)

all-append : (xs ys : List (List ℕ)) → AllLines xs → AllLines ys → AllLines (xs ++ ys)
all-append [] ys v w = w
all-append (x ∷ xs) ys (v, vs) w = (v, all-append xs ys vs w)

pub Pieces-AllLines : {m : ℕ} {texts lines : List (List ℕ)} → Pieces m texts lines → AllLines lines
Pieces-AllLines Pieces.nil = tt
Pieces-AllLines (Pieces.cons {lines = lines} {rest = rest} low f p) =
    all-append lines rest (Fine-AllLines f) (Pieces-AllLines p)

uncut :
    {n : ℕ} {lines : List (List ℕ)}
    → leb n 1023 ≡ true
    → Fine n lines
    → snprintf 1024 (join_lines lines) ≡ join_lines lines
uncut {n} {lines} low f =
    take-length (join_lines lines) 1023 (omega (arith, length-join_lines f, leb→le n 1023 low))

append-fits :
    (text : List ℕ) (s : Sink)
    → length text + 1 ≤ s.remaining
    → append text s
      ≡ (true, record { text = s.text ++ text; remaining = s.remaining - length text })
unfolding append
append-fits text s h = if_false (ltb s.remaining (length text + 1)) _ (ground arith)

append_all-cons :
    (text : List ℕ) (texts : List (List ℕ)) (s next : Sink)
    → append text s ≡ (true, next)
    → append_all (text ∷ texts) s ≡ append_all texts next
unfolding append_all
append_all-cons text texts s next e =
    ap (λ (t : Bool × Sink). if t.0 then append_all texts t.1 else (false, t.1)) e

-- Everything is appended while the array has room for it and a 0.
unfoldable pub AllWritten : Bool × Sink → List ℕ → Type 0
AllWritten r text = (r.0 ≡ true) × (r.1.text ≡ text)

pub append_all-Pieces :
    {m : ℕ} {texts lines : List (List ℕ)} (s : Sink)
    → Pieces m texts lines
    → m + 1 ≤ s.remaining
    → AllWritten (append_all texts s) (s.text ++ join_lines lines)
unfolding AllWritten append_all
append_all-Pieces s Pieces.nil h = (refl, sym (append-nil s.text))
append_all-Pieces s (Pieces.cons {n} {m} {lines} {rest} {texts} low f p) h =
    let text = snprintf 1024 (join_lines lines) in
    let whole : text ≡ join_lines lines = uncut low f in
    let short : length text ≤ n = subst (λ t. length t ≤ n) (sym whole) (length-join_lines f) in
    let next : Sink = record { text = s.text ++ text; remaining = s.remaining - length text } in
    let (fine, rightly) = append_all-Pieces next p (omega arith) in
    let e = append_all-cons text texts s next (append-fits text s (omega arith)) in
    (
      ap (λ r. r.0) e ∙ fine,
      ap (λ r. r.1.text) e
          ∙ rightly
          ∙ append_assoc s.text text (join_lines rest)
          ∙ ap (λ t. s.text ++ (t ++ join_lines rest)) whole
          ∙ ap (λ t. s.text ++ t) (sym (join_lines-append lines rest)),
    )
