-- ===== src/Sdp/Safe.antt =====
-- No text makes `mezia_sdp_parse` of src/sdp/sdp.c leave the arrays of a description.
pub mod Mids
pub mod Changes
use libmezia.Prelude.{
  ℕ, zero, suc, ◌+◌, ◌≤◌, ◌<◌, ◌≡◌, refl, ap, ◌∙◌, List, [], ◌∷◌, Bool, true, false, ◌&&◌, not,
  ◌==◌, leb, ltb, if◌then◌else◌, if_cases, length, length-set, arith, Option, some, none, All, sym,
  subst, some-injective, replicate,
}
use libmezia.Text.{
  codes, strip_prefix, read_while, skip_while, split_at, space_char, is_empty, contains,
}
use libmezia.Types.{Status}
use libmezia.Sdp.{Sdp, SdpMedia, Extmap, no_extmap, init, no_media, copy_token, max_mid, max_mids}
use libmezia.Sdp.Parser
use libmezia.Sdp.Parser.{
  Parser, parse_line, parse_lines, read_line, verdict, begin, media_line, put_sdp, opened,
}
use libmezia.Sdp.Parser.Attributes.{
  Section, on, keep_token, attribute, in_section, parse_bundle, bundle_loop, put_mid, not_space,
  parse_fingerprint, put_audio_media, put_video_media, media_attribute,
}
use libmezia.Sdp.Bounds.{
  Fits, MediaIsInside, TokensFit, MidsFit, IsInside, All-set, on_cases, keep_token_cases,
  media_attribute-IsInside,
}
use libmezia.Sdp.Safe.Mids.{parse_bundle-IsInside}
use libmezia.Sdp.Safe.Changes.{
  changed, same_tokens, with_audio, with_video, in_section-IsInside, parse_fingerprint-IsInside,
}

attribute-IsInside :
    (section : Section) (value : List ℕ) (sdp : Sdp)
    → IsInside sdp
    → IsInside (attribute section value sdp).1
unfolding attribute
attribute-IsInside section value sdp v =
    let P = λ (t : Bool × Sdp). IsInside t.1 in
    let old = v.tokens in
    on_cases P (strip_prefix (codes "group:BUNDLE") value)
      (λ mids. parse_bundle-IsInside mids sdp v)
      (on_cases P (strip_prefix (codes "ice-ufrag:") value)
        (λ t. keep_token_cases IsInside 256 t _ v (λ fits.
          changed sdp (record sdp { ice_ufrag = t })
            (record {
              ice_ufrag = fits;
              ice_pwd = v.tokens.ice_pwd;
              fingerprint_algo = v.tokens.fingerprint_algo;
              fingerprint = v.tokens.fingerprint;
              setup = v.tokens.setup;
            })
            (refl, refl) (refl, refl) v))
        (on_cases P (strip_prefix (codes "ice-pwd:") value)
          (λ t. keep_token_cases IsInside 256 t _ v (λ fits.
            changed sdp (record sdp { ice_pwd = t })
              (record {
                ice_ufrag = v.tokens.ice_ufrag;
                ice_pwd = fits;
                fingerprint_algo = v.tokens.fingerprint_algo;
                fingerprint = v.tokens.fingerprint;
                setup = v.tokens.setup;
              })
              (refl, refl) (refl, refl) v))
          (on_cases P (strip_prefix (codes "fingerprint:") value)
            (λ t. parse_fingerprint-IsInside (split_at space_char t) sdp v)
            (on_cases P (strip_prefix (codes "ice-options:") value)
              (λ t.
                let trickle = if contains (codes "trickle") t then true else sdp.trickle in
                changed sdp (record sdp { trickle = trickle })
                  (same_tokens sdp (record sdp { trickle = trickle }) (refl, refl) (refl, refl) refl
                    old)
                  (refl, refl) (refl, refl) v)
              (on_cases P (strip_prefix (codes "setup:") value)
                (λ t. keep_token_cases IsInside 16 t _ v (λ fits.
                  changed sdp (record sdp { setup = t })
                    (record {
                      ice_ufrag = v.tokens.ice_ufrag;
                      ice_pwd = v.tokens.ice_pwd;
                      fingerprint_algo = v.tokens.fingerprint_algo;
                      fingerprint = v.tokens.fingerprint;
                      setup = fits;
                    })
                    (refl, refl) (refl, refl) v))
                (in_section-IsInside section value sdp v))))))

opened-IsInside : (m : SdpMedia) → MediaIsInside m → MediaIsInside (opened m)
opened-IsInside m v = record {
  mid = v.mid;
  codec = v.codec;
  payload_type = v.payload_type;
  uris = v.uris;
  array = v.array;
  count = v.count;
}

media_line-IsInside :
    (value : List ℕ) (p : Parser) → IsInside p.sdp → IsInside (media_line value p).sdp
media_line-IsInside value p v =
    let P = λ (t : Parser). IsInside t.sdp in
    on_cases P (strip_prefix (codes "audio ") value)
      (λ _. with_audio p.sdp _ (opened-IsInside p.sdp.audio v.audio) v)
      (on_cases P (strip_prefix (codes "video ") value)
        (λ _. with_video p.sdp _ (opened-IsInside p.sdp.video v.video) v) v)

parse_line-IsInside :
    (line : List ℕ) (p : Parser) → IsInside p.sdp → IsInside (parse_line line p).1.sdp
unfolding parse_line
parse_line-IsInside [] p v = v
parse_line-IsInside (kind ∷ []) p v = v
parse_line-IsInside (kind ∷ second ∷ value) p v =
    let P = λ (t : Bool × Parser). IsInside t.1.sdp in
    if_cases P (not (second == b'=')) (λ _. v)
      (λ _.
        if_cases P (kind == b'm') (λ _. media_line-IsInside value p v)
          (λ _.
            if_cases P (not (kind == b'a')) (λ _. v)
              (λ _. attribute-IsInside p.section value p.sdp v)))

parse_lines-IsInside :
    (fuel : ℕ) (text : List ℕ) (p : Parser)
    → IsInside p.sdp
    → IsInside (parse_lines fuel text p).1.sdp
unfolding parse_lines
parse_lines-IsInside zero text p v = v
parse_lines-IsInside (suc fuel) [] p v = v
parse_lines-IsInside (suc fuel) (c ∷ text) p v =
    let (line, rest) = read_line (c ∷ text) in
    let (fine, next) = parse_line line p in
    let inside : IsInside next.sdp = parse_line-IsInside line p v in
    if_cases (λ (t : Bool × Parser). IsInside t.1.sdp) fine
      (λ _. parse_lines-IsInside fuel rest next inside) (λ _. inside)

All-replicate {ℓ κ} : {A : Type ℓ} (P : A → Type κ) (n : ℕ) (a : A) → P a → All P (replicate n a)
All-replicate P zero a p = tt
All-replicate P (suc n) a p = (p, All-replicate P n a p)

no_media-IsInside : MediaIsInside no_media
no_media-IsInside = record {
  mid = omega arith;
  codec = omega arith;
  payload_type = omega arith;
  uris = All-replicate (λ (e : Extmap). Fits 96 e.uri) 8 no_extmap (omega arith);
  array = refl;
  count = omega arith;
}

pub init-IsInside : IsInside init
init-IsInside = record {
  tokens = record {
    ice_ufrag = omega arith;
    ice_pwd = omega arith;
    fingerprint_algo = omega arith;
    fingerprint = omega arith;
    setup = omega arith;
  };
  mids = record {
    mids = All-replicate (Fits 16) 4 [] (omega arith);
    array = refl;
    count = omega arith;
  };
  audio = no_media-IsInside;
  video = no_media-IsInside;
}

verdict-sdp : (r : Bool × Parser) → (verdict r).1 ≡ r.1.sdp
verdict-sdp (true, p) =
    if_cases (λ (t : Status × Sdp). t.1 ≡ p.sdp)
      (not p.sdp.audio.present && not p.sdp.video.present) (λ _. refl) (λ _. refl)
verdict-sdp (false, p) = refl

-- Whatever the text, well formed or not: each text that `mezia_sdp_parse` has left in the description
-- fits its array with the 0 at its end, at most four mids and, for each medium, at most eight header
-- extensions are counted, the arrays of both keep their sizes, and a payload type is below 128.
pub parse-IsInside_sdp :
    (text : List ℕ) (was sdp : Sdp)
    → (Parser.parse (some text) (some was)).1 ≡ some sdp
    → IsInside sdp
unfolding Parser.parse
parse-IsInside_sdp text was sdp e =
    let r = parse_lines (length text) text begin in
    subst IsInside (sym (verdict-sdp r) ∙ some-injective _ _ e)
      (parse_lines-IsInside (length text) text begin init-IsInside)
