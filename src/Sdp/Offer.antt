-- ===== src/Sdp/Offer.antt =====
-- The description that the text of an offer stands for, and the parameters for which the text can say it.
pub mod Words
pub mod Bundle
pub mod Sections
pub mod Shape
pub mod MediaShape
pub mod Pieces
pub mod RoundTrip
use libmezia.Prelude.{
  ℕ, ◌≤◌, ◌<◌, ◌≡◌, List, [], ◌∷◌, Bool, true, false, ◌||◌, not, length, replicate, if◌then◌else◌,
}
use libmezia.Text.{codes}
use libmezia.Text.Span.{every}
use libmezia.Sdp.{Sdp, SdpMedia, Extmap, OfferParams, Direction, init, no_media, no_extmap}
use libmezia.Sdp.Parser.{is_trimmed}
use libmezia.Sdp.Writer.{
  ufrag_of, pwd_of, algo_of, fingerprint_of, audio_mid_of, video_mid_of, audio_pt_of, video_pt_of,
  transport_wide_uri, mid_uri, level_uri,
}

abbrev pub not_blank : ℕ → Bool
not_blank c = not (is_trimmed c)

-- A token for an array of `size`: it fits with its 0, and no blank or line end is in it.
pub record IsToken (size : ℕ) (text : List ℕ) : Type 0 where
  pub solid : every not_blank text ≡ true
  pub fits : length text < size

-- Parameters whose offer can be read back.
pub record IsOfferable (p : OfferParams) : Type 0 where
  pub some : (p.offer_audio || p.offer_video) ≡ true
  pub ufrag : IsToken 256 (ufrag_of p)
  pub pwd : IsToken 256 (pwd_of p)
  pub algo : IsToken 16 (algo_of p)
  pub fingerprint : IsToken 256 (fingerprint_of p)
  pub has_fingerprint : 1 ≤ length (fingerprint_of p)
  pub audio_mid : IsToken 16 (audio_mid_of p)
  pub has_audio_mid : 1 ≤ length (audio_mid_of p)
  pub video_mid : IsToken 16 (video_mid_of p)
  pub has_video_mid : 1 ≤ length (video_mid_of p)
  pub audio_pt : audio_pt_of p ≤ 127
  pub video_pt : video_pt_of p ≤ 127

unfoldable pub offered_audio : ℕ → List ℕ → SdpMedia
offered_audio pt mid = record {
  present = true;
  mid = mid;
  payload_type = pt;
  codec = codes "opus";
  clock_rate = 48000;
  channels = 2;
  direction = Direction.sendrecv;
  rtcp_mux = true;
  nack = false;
  pli = false;
  transport_cc = true;
  extmap =
      record { id = 6; uri = transport_wide_uri }
      ∷ record { id = 7; uri = mid_uri }
      ∷ record { id = 1; uri = level_uri }
      ∷ replicate 5 no_extmap;
  extmap_count = 3;
}

unfoldable pub offered_video : ℕ → List ℕ → SdpMedia
offered_video pt mid = record {
  present = true;
  mid = mid;
  payload_type = pt;
  codec = codes "H264";
  clock_rate = 90000;
  channels = 1;
  direction = Direction.sendrecv;
  rtcp_mux = true;
  nack = true;
  pli = true;
  transport_cc = true;
  extmap =
      record { id = 6; uri = transport_wide_uri }
      ∷ record { id = 7; uri = mid_uri }
      ∷ replicate 6 no_extmap;
  extmap_count = 2;
}

unfoldable pub offered_mids : Bool → Bool → List ℕ → List ℕ → List (List ℕ)
offered_mids true true audio_mid video_mid = audio_mid ∷ video_mid ∷ replicate 2 []
offered_mids true false audio_mid video_mid = audio_mid ∷ replicate 3 []
offered_mids false _ audio_mid video_mid = video_mid ∷ replicate 3 []

abbrev pub mid_count : Bool → Bool → ℕ
mid_count true true = 2
mid_count _ _ = 1

-- What the offer for these parameters says.
unfoldable pub offered : OfferParams → Sdp
offered p = record {
  ice_ufrag = ufrag_of p;
  ice_pwd = pwd_of p;
  fingerprint_algo = algo_of p;
  fingerprint = fingerprint_of p;
  setup = codes "actpass";
  trickle = true;
  bundle = true;
  bundle_mids = offered_mids p.offer_audio p.offer_video (audio_mid_of p) (video_mid_of p);
  bundle_mid_count = mid_count p.offer_audio p.offer_video;
  audio = if p.offer_audio then offered_audio (audio_pt_of p) (audio_mid_of p) else no_media;
  video = if p.offer_video then offered_video (video_pt_of p) (video_mid_of p) else no_media;
}
