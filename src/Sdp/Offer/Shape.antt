-- ===== src/Sdp/Offer/Shape.antt =====
-- The lines of an offer of src/sdp/sdp.c: none is cut by the parser, and how long they are.
use libmezia.Prelude.{
  ℕ, ◌+◌, ◌-◌, ◌≤◌, ◌≡◌, refl, ap, ◌∙◌, List, [], ◌∷◌, ◌++◌, Bool, true, false, not, leb, leb→le,
  length, length-append, arith, if◌then◌else◌,
}
use libmezia.Text.{codes, space_char, carriage_return, newline}
use libmezia.Text.Span.{every, every-append, every-weaken, every-head, every-tail}
use libmezia.Text.Numbers.{decimal-IsDecimal}
use libmezia.Text.Scan.{is_digit}
use libmezia.Text.Print.{decimal}
use libmezia.Sdp.Parser.{is_trimmed}
use libmezia.Sdp.Lines.{not_newline, ends_solid, AllLines}
use libmezia.Sdp.Writer.{join_lines, head_lines, bundle_line, transport_lines}
use libmezia.Sdp.Offer.{IsToken, not_blank}

-- A text without a newline, of up to `most` characters.
pub record IsPiece (most : ℕ) (text : List ℕ) : Type 0 where
  pub calm : every not_newline text ≡ true
  pub short : length text ≤ most

pub literal :
    (most : ℕ) (text : List ℕ)
    → every not_newline text ≡ true
    → leb (length text) most ≡ true
    → IsPiece most text
literal most text e h = record { calm = e; short = leb→le _ _ h }

infixr 20 ◌then◌
pub ◌then◌ : {m n : ℕ} {xs ys : List ℕ} → IsPiece m xs → IsPiece n ys → IsPiece (m + n) (xs ++ ys)
◌then◌ {xs = xs} {ys = ys} v w = record {
  calm = every-append not_newline xs ys v.calm w.calm;
  short = omega (arith, length-append xs ys, v.short, w.short);
}

blank_newline : (c : ℕ) → not_blank c ≡ true → not_newline c ≡ true
blank_newline c e = ground arith

digit_blank : (c : ℕ) → is_digit c ≡ true → not_blank c ≡ true
digit_blank c e = ground arith

pub token : (size : ℕ) (text : List ℕ) → IsToken size text → IsPiece (size - 1) text
token size text v = record {
  calm = every-weaken not_blank not_newline blank_newline text v.solid;
  short = omega (arith, v.fits);
}

pub solid_decimal : (pt : ℕ) → pt ≤ 127 → every not_blank (decimal pt) ≡ true
solid_decimal pt h =
    every-weaken is_digit not_blank digit_blank (decimal pt)
      (decimal-IsDecimal pt (omega arith)).digits

pub number : (pt : ℕ) → pt ≤ 127 → IsPiece 3 (decimal pt)
number pt h = record {
  calm = every-weaken not_blank not_newline blank_newline (decimal pt) (solid_decimal pt h);
  short = (decimal-IsDecimal pt (omega arith)).few;
}

pub ends_solid-word : (text : List ℕ) → every not_blank text ≡ true → ends_solid true text ≡ true
unfolding ends_solid
ends_solid-word [] e = refl
ends_solid-word (c ∷ text) e =
    ap (λ b. ends_solid b text) (every-head not_blank c text e)
    ∙ ends_solid-word text (every-tail not_blank c text e)

pub ends_solid-some :
    (was : Bool) (text : List ℕ)
    → 1 ≤ length text
    → every not_blank text ≡ true
    → ends_solid was text ≡ true
unfolding ends_solid
ends_solid-some was [] h e = absurd (omega arith)
ends_solid-some was (c ∷ text) h e =
    ap (λ b. ends_solid b text) (every-head not_blank c text e)
    ∙ ends_solid-word text (every-tail not_blank c text e)

pub ends_solid-append :
    (was : Bool) (text : List ℕ) (c : ℕ) (rest : List ℕ)
    → ends_solid was (text ++ (c ∷ rest)) ≡ ends_solid (not (is_trimmed c)) rest
unfolding ends_solid
ends_solid-append was [] c rest = refl
ends_solid-append was (d ∷ text) c rest = ends_solid-append (not (is_trimmed d)) text c rest

-- Lines that the parser takes as they are, of up to `most` characters with their ends.
pub data Fine : ℕ → List (List ℕ) → Type 0 where
  none : Fine 0 []
  more :
      {n m : ℕ} {line : List ℕ} {lines : List (List ℕ)}
      → leb n 509 ≡ true
      → IsPiece n line
      → ends_solid false line ≡ true
      → Fine m lines
      → Fine (n + 2 + m) (line ∷ lines)

pub Fine-AllLines : {most : ℕ} {lines : List (List ℕ)} → Fine most lines → AllLines lines
Fine-AllLines Fine.none = tt
Fine-AllLines (Fine.more {n = n} low v e f) = (
  record { calm = v.calm; short = omega (arith, v.short, leb→le n 509 low); solid = e },
  Fine-AllLines f,
)

pub length-join_lines :
    {most : ℕ} {lines : List (List ℕ)} → Fine most lines → length (join_lines lines) ≤ most
length-join_lines Fine.none = omega arith
length-join_lines (Fine.more {line = line} {lines = lines} low v e f) = omega (
  arith,
  v.short,
  length-append line (carriage_return ∷ newline ∷ join_lines lines),
  length-join_lines f,
)

-- A line that is a literal.
pub fixed :
    (most : ℕ) (text : List ℕ) {m : ℕ} {lines : List (List ℕ)}
    → every not_newline text ≡ true
    → leb (length text) most ≡ true
    → leb most 509 ≡ true
    → ends_solid false text ≡ true
    → Fine m lines
    → Fine (most + 2 + m) (text ∷ lines)
fixed most text e h low solid f = Fine.more low (literal most text e h) solid f

pub head-Fine : Fine 41 head_lines
unfolding head_lines every ends_solid
head-Fine = fixed 3 (codes "v=0") refl refl refl refl (
    fixed 22 (codes "o=- 0 0 IN IP4 0.0.0.0") refl refl refl refl (
      fixed 3 (codes "s=-") refl refl refl refl
        (fixed 5 (codes "t=0 0") refl refl refl refl Fine.none)))

group_line :
    (mid : List ℕ)
    → IsToken 16 mid
    → 1 ≤ length mid
    → Fine 48 ((codes "a=group:BUNDLE " ++ mid) ∷ [])
unfolding every ends_solid
group_line mid v h =
    Fine.more {n = 46} refl (literal 31 (codes "a=group:BUNDLE ") refl refl then token 16 mid v)
      (ends_solid-some false mid h v.solid) Fine.none

pub bundle-Fine :
    (audio video : Bool) (audio_mid video_mid : List ℕ)
    → IsToken 16 audio_mid
    → 1 ≤ length audio_mid
    → IsToken 16 video_mid
    → 1 ≤ length video_mid
    → Fine 48 (bundle_line audio video audio_mid video_mid ∷ [])
unfolding bundle_line every ends_solid
bundle-Fine true true a b v h w k =
    Fine.more {n = 46} refl
      (literal 15 (codes "a=group:BUNDLE ") refl refl
        then (token 16 a v then (literal 1 (space_char ∷ []) refl refl then token 16 b w)))
      (ends_solid-append false a space_char b ∙ ends_solid-some false b k w.solid) Fine.none
bundle-Fine true false a b v h w k = group_line a v h
bundle-Fine false _ a b v h w k = group_line b w k

pub transport-Fine :
    (ufrag pwd algo fp : List ℕ)
    → IsToken 256 ufrag
    → IsToken 256 pwd
    → IsToken 16 algo
    → IsToken 256 fp
    → 1 ≤ length fp
    → Fine 866 (transport_lines ufrag pwd algo fp)
unfolding transport_lines every ends_solid
transport-Fine ufrag pwd algo fp v w x y h =
    Fine.more {n = 267} refl (literal 12 (codes "a=ice-ufrag:") refl refl then token 256 ufrag v)
      (ends_solid-word ufrag v.solid)
      (Fine.more {n = 265} refl (literal 10 (codes "a=ice-pwd:") refl refl then token 256 pwd w)
        (ends_solid-word pwd w.solid)
        (Fine.more {n = 285} refl
          (literal 14 (codes "a=fingerprint:") refl refl
            then (token 16 algo x then (literal 1 (space_char ∷ []) refl refl then token 256 fp y)))
          (ends_solid-append true algo space_char fp ∙ ends_solid-some false fp h y.solid)
          (fixed 23 (codes "a=ice-options:trickle") refl refl refl refl
            (fixed 16 (codes "a=setup:actpass") refl refl refl refl Fine.none))))
