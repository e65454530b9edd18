-- ===== src/Sdp/Offer/Bundle.antt =====
-- The group line of an offer of src/sdp/sdp.c, as the parser reads it.
use libmezia.Prelude.{
  ℕ, suc, ◌≤◌, ◌<◌, ◌≡◌, refl, ap, ◌∙◌, List, [], ◌∷◌, ◌++◌, Bool, true, false, ◌==◌, if◌then◌else◌,
  if_false, length, arith, Option, replicate,
}
use libmezia.Text.{codes, read_while, skip_while, is_empty, space_char}
use libmezia.Text.Span.{every-head, read_while-stop, read_while-end}
use libmezia.Sdp.{Sdp, copy_token, max_mid, init}
use libmezia.Sdp.Parser.{Parser, parse_line, put_sdp, begin}
use libmezia.Sdp.Parser.Attributes.{
  Section, attribute, keep_token, parse_bundle, bundle_loop, put_mid, not_space,
}
use libmezia.Sdp.Offer.{IsToken, offered_mids, mid_count}
use libmezia.Sdp.Offer.Words.{token_words, copy_token-fits}
use libmezia.Sdp.Writer.{bundle_line}

-- A round that finds a mid.
round :
    (room : ℕ) (text mid behind : List ℕ) (sdp : Sdp)
    → is_empty (skip_while (λ c. c == space_char) text) ≡ false
    → read_while not_space 15 (skip_while (λ c. c == space_char) text) ≡ (mid, behind)
    → length mid < 16
    → bundle_loop (suc room) text sdp
      ≡ bundle_loop room (skip_while not_space behind) (put_mid sdp mid)
unfolding bundle_loop
round room text mid behind sdp full e h =
    let at_mid = skip_while (λ c. c == space_char) text in
    if_false (is_empty at_mid) (true, sdp) full
    ∙ ap
        (λ (t : List ℕ × List ℕ).
          let (fine, next) = keep_token sdp (copy_token max_mid t.0) (put_mid sdp) in
          if fine then bundle_loop room (skip_while not_space t.1) next else (false, sdp))
        e
    ∙ ap
        (λ (t : Option (List ℕ)).
          let (fine, next) = keep_token sdp t (put_mid sdp) in
          if fine then bundle_loop room (skip_while not_space behind) next else (false, sdp))
        (copy_token-fits 16 mid h)

-- A blank in front of a mid is skipped.
skip_blank :
    (c : ℕ) (text : List ℕ)
    → not_space c ≡ true
    → skip_while (λ d. d == space_char) (space_char ∷ c ∷ text) ≡ c ∷ text
skip_blank c text e = if_false (c == space_char) _ (ground arith)

last_mid :
    (room : ℕ) (mid : List ℕ) (sdp : Sdp)
    → IsToken 16 mid
    → 1 ≤ length mid
    → bundle_loop (suc room) (space_char ∷ mid) sdp ≡ bundle_loop room [] (put_mid sdp mid)
last_mid room [] sdp v h = absurd (omega arith)
last_mid room (c ∷ mid) sdp v h =
    let words = token_words 16 (c ∷ mid) v in
    let skipped = skip_blank c mid (every-head not_space c mid words) in
    round room (space_char ∷ c ∷ mid) (c ∷ mid) [] sdp (ap is_empty skipped)
      (ap (read_while not_space 15) skipped
        ∙ read_while-end not_space 15 (c ∷ mid) words (omega (arith, v.fits)))
      v.fits

first_mid :
    (room : ℕ) (mid rest : List ℕ) (sdp : Sdp)
    → IsToken 16 mid
    → 1 ≤ length mid
    → bundle_loop (suc room) (space_char ∷ mid ++ (space_char ∷ rest)) sdp
      ≡ bundle_loop room (space_char ∷ rest) (put_mid sdp mid)
first_mid room [] rest sdp v h = absurd (omega arith)
first_mid room (c ∷ mid) rest sdp v h =
    let words = token_words 16 (c ∷ mid) v in
    let text = c ∷ mid ++ (space_char ∷ rest) in
    let skipped = skip_blank c (mid ++ (space_char ∷ rest)) (every-head not_space c mid words) in
    round room (space_char ∷ text) (c ∷ mid) (space_char ∷ rest) sdp (ap is_empty skipped)
      (ap (read_while not_space 15) skipped
        ∙ read_while-stop not_space 15 (c ∷ mid) space_char rest words refl (omega (arith, v.fits)))
      v.fits

-- The description that has read no more than the group line.
abbrev pub with_mids : List (List ℕ) → ℕ → Parser
with_mids mids count = record {
  section = Section.nowhere;
  sdp = record init { bundle = true; bundle_mids = mids; bundle_mid_count = count };
}

one_mid :
    (mid : List ℕ)
    → IsToken 16 mid
    → 1 ≤ length mid
    → parse_line (codes "a=group:BUNDLE " ++ mid) begin ≡ (true, with_mids (mid ∷ replicate 3 []) 1)
unfolding parse_line attribute parse_bundle bundle_loop
one_mid mid v h =
    ap (put_sdp Section.nowhere)
      (last_mid 3 mid (record init { bundle = true; bundle_mid_count = 0 }) v h)

two_mids :
    (first second : List ℕ)
    → IsToken 16 first
    → 1 ≤ length first
    → IsToken 16 second
    → 1 ≤ length second
    → parse_line (codes "a=group:BUNDLE " ++ first ++ (space_char ∷ second)) begin
      ≡ (true, with_mids (first ∷ second ∷ replicate 2 []) 2)
unfolding parse_line attribute parse_bundle bundle_loop
two_mids first second v h w k =
    let start = record init { bundle = true; bundle_mid_count = 0 } in
    ap (put_sdp Section.nowhere)
      (first_mid 3 first second start v h ∙ last_mid 2 second (put_mid start first) w k)

-- The group line puts the mids that are offered into the description.
pub bundle_line_lem :
    (audio video : Bool) (audio_mid video_mid : List ℕ)
    → IsToken 16 audio_mid
    → 1 ≤ length audio_mid
    → IsToken 16 video_mid
    → 1 ≤ length video_mid
    → parse_line (bundle_line audio video audio_mid video_mid) begin
      ≡ (true, with_mids (offered_mids audio video audio_mid video_mid) (mid_count audio video))
unfolding bundle_line offered_mids
bundle_line_lem true true audio_mid video_mid v h w k = two_mids audio_mid video_mid v h w k
bundle_line_lem true false audio_mid video_mid v h w k = one_mid audio_mid v h
bundle_line_lem false true audio_mid video_mid v h w k = one_mid video_mid w k
bundle_line_lem false false audio_mid video_mid v h w k = one_mid video_mid w k
