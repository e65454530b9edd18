-- ===== src/Sdp.antt =====
-- src/sdp/sdp.c: session descriptions, and their parts in include/mezia/sdp.h. A character array is
-- the text that it holds; an `int` that is only a condition is a Bool.
pub mod Parser
pub mod Writer
pub mod Lines
pub mod Offer
pub mod Bounds
pub mod Safe
pub mod Room
use libmezia.Prelude.{
  ℕ, List, [], Bool, true, false, Option, none, some, leb, length, replicate, if◌then◌else◌,
}

abbrev pub max_token : ℕ
max_token = 256

abbrev pub max_mid : ℕ
max_mid = 16

abbrev pub max_mids : ℕ
max_mids = 4

abbrev pub max_codec : ℕ
max_codec = 16

abbrev pub max_extmap : ℕ
max_extmap = 8

-- `mezia_sdp_dir_t`
pub data Direction : Type 0 where
  sendrecv sendonly recvonly inactive : Direction

-- `mezia_sdp_extmap_t`
pub record Extmap : Type 0 where
  pub id : ℕ
  pub uri : List ℕ

-- `mezia_sdp_media_t`
pub record SdpMedia : Type 0 where
  pub present : Bool
  pub mid : List ℕ
  pub payload_type : ℕ
  pub codec : List ℕ
  pub clock_rate : ℕ
  pub channels : ℕ
  pub direction : Direction
  pub rtcp_mux : Bool
  pub nack : Bool
  pub pli : Bool
  pub transport_cc : Bool
  pub extmap : List Extmap
  pub extmap_count : ℕ

-- `mezia_sdp_t`
pub record Sdp : Type 0 where
  pub ice_ufrag : List ℕ
  pub ice_pwd : List ℕ
  pub fingerprint_algo : List ℕ
  pub fingerprint : List ℕ
  pub setup : List ℕ
  pub trickle : Bool
  pub bundle : Bool
  pub bundle_mids : List (List ℕ)
  pub bundle_mid_count : ℕ
  pub audio : SdpMedia
  pub video : SdpMedia

-- `mezia_sdp_offer_params_t`; a null text is none.
pub record OfferParams : Type 0 where
  pub ice_ufrag : Option (List ℕ)
  pub ice_pwd : Option (List ℕ)
  pub fingerprint_algo : Option (List ℕ)
  pub fingerprint : Option (List ℕ)
  pub offer_audio : Bool
  pub offer_video : Bool
  pub audio_payload_type : ℕ
  pub video_payload_type : ℕ
  pub audio_mid : Option (List ℕ)
  pub video_mid : Option (List ℕ)

abbrev pub no_extmap : Extmap
no_extmap = record { id = 0; uri = [] }

abbrev pub no_media : SdpMedia
no_media = record {
  present = false;
  mid = [];
  payload_type = 0;
  codec = [];
  clock_rate = 0;
  channels = 0;
  direction = Direction.sendrecv;
  rtcp_mux = false;
  nack = false;
  pli = false;
  transport_cc = false;
  extmap = replicate max_extmap no_extmap;
  extmap_count = 0;
}

-- `mezia_sdp_init`, on a description that is not null.
abbrev pub init : Sdp
init = record {
  ice_ufrag = [];
  ice_pwd = [];
  fingerprint_algo = [];
  fingerprint = [];
  setup = [];
  trickle = false;
  bundle = false;
  bundle_mids = replicate max_mids [];
  bundle_mid_count = 0;
  audio = no_media;
  video = no_media;
}

-- `copy_token`: what is copied, unless it does not fit with its 0.
abbrev pub copy_token : ℕ → List ℕ → Option (List ℕ)
copy_token size text = if leb size (length text) then none else some text
