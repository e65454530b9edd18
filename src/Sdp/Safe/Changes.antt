-- ===== src/Sdp/Safe/Changes.antt =====
-- Changes of a description of src/sdp/sdp.c that stay inside its arrays.
use libmezia.Prelude.{
  ℕ, ◌≡◌, refl, ap, ◌∙◌, List, Bool, leb, if_cases, length, arith, Option, some, none, All, sym,
  subst,
}
use libmezia.Sdp.{Sdp, SdpMedia}
use libmezia.Sdp.Parser.Attributes.{Section, in_section, parse_fingerprint}
use libmezia.Sdp.Bounds.{
  Fits, MediaIsInside, TokensFit, IsInside, keep_token_cases, media_attribute-IsInside,
}

-- A description in which only tokens, and what has no array, have changed.
pub changed :
    (s t : Sdp)
    → TokensFit t
    → (t.bundle_mids ≡ s.bundle_mids) × (t.bundle_mid_count ≡ s.bundle_mid_count)
    → (t.audio ≡ s.audio) × (t.video ≡ s.video)
    → IsInside s
    → IsInside t
changed s t tokens (e, f) (g, h) v = record {
  tokens = tokens;
  mids = record {
    mids = subst (All (Fits 16)) (sym e) v.mids.mids;
    array = ap length e ∙ v.mids.array;
    count = omega (arith, f, v.mids.count);
  };
  audio = subst MediaIsInside (sym g) v.audio;
  video = subst MediaIsInside (sym h) v.video;
}

pub same_tokens :
    (s t : Sdp)
    → (t.ice_ufrag ≡ s.ice_ufrag) × (t.ice_pwd ≡ s.ice_pwd)
    → (t.fingerprint_algo ≡ s.fingerprint_algo) × (t.fingerprint ≡ s.fingerprint)
    → t.setup ≡ s.setup
    → TokensFit s
    → TokensFit t
same_tokens s t (a, b) (c, d) e v = record {
  ice_ufrag = subst (Fits 256) (sym a) v.ice_ufrag;
  ice_pwd = subst (Fits 256) (sym b) v.ice_pwd;
  fingerprint_algo = subst (Fits 16) (sym c) v.fingerprint_algo;
  fingerprint = subst (Fits 256) (sym d) v.fingerprint;
  setup = subst (Fits 16) (sym e) v.setup;
}

pub with_audio :
    (s : Sdp) (m : SdpMedia) → MediaIsInside m → IsInside s → IsInside (record s { audio = m })
with_audio s m w v = record {
  tokens = same_tokens s (record s { audio = m }) (refl, refl) (refl, refl) refl v.tokens;
  mids = record { mids = v.mids.mids; array = v.mids.array; count = v.mids.count };
  audio = w;
  video = v.video;
}

pub with_video :
    (s : Sdp) (m : SdpMedia) → MediaIsInside m → IsInside s → IsInside (record s { video = m })
with_video s m w v = record {
  tokens = same_tokens s (record s { video = m }) (refl, refl) (refl, refl) refl v.tokens;
  mids = record { mids = v.mids.mids; array = v.mids.array; count = v.mids.count };
  audio = v.audio;
  video = w;
}

pub in_section-IsInside :
    (section : Section) (value : List ℕ) (sdp : Sdp)
    → IsInside sdp
    → IsInside (in_section section value sdp).1
in_section-IsInside Section.nowhere value sdp v = v
in_section-IsInside Section.audio value sdp v =
    with_audio sdp _ (media_attribute-IsInside value sdp.audio v.audio) v
in_section-IsInside Section.video value sdp v =
    with_video sdp _ (media_attribute-IsInside value sdp.video v.video) v

pub parse_fingerprint-IsInside :
    (o : Option (List ℕ × List ℕ)) (sdp : Sdp) → IsInside sdp → IsInside (parse_fingerprint o sdp).1
parse_fingerprint-IsInside none sdp v = v
parse_fingerprint-IsInside (some (algo, fingerprint)) sdp v =
    if_cases (λ (t : Bool × Sdp). IsInside t.1) (leb 16 (length algo)) (λ _. v)
      (λ e.
        let short : Fits 16 algo = ground arith in
        keep_token_cases IsInside 256 fingerprint _
          (changed sdp (record sdp { fingerprint_algo = algo })
            (record {
              ice_ufrag = v.tokens.ice_ufrag;
              ice_pwd = v.tokens.ice_pwd;
              fingerprint_algo = short;
              fingerprint = v.tokens.fingerprint;
              setup = v.tokens.setup;
            })
            (refl, refl) (refl, refl) v)
          (λ fits.
            changed sdp (record sdp { fingerprint_algo = algo; fingerprint = fingerprint })
              (record {
                ice_ufrag = v.tokens.ice_ufrag;
                ice_pwd = v.tokens.ice_pwd;
                fingerprint_algo = short;
                fingerprint = fits;
                setup = v.tokens.setup;
              })
              (refl, refl) (refl, refl) v))
