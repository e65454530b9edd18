-- ===== src/Session.antt =====
-- src/session/session.c: two descriptions, and the media context that is made from them. The section's
-- codec is that of the media context.
pub mod Start
pub mod Traffic
pub mod Valid
pub mod Started
pub mod Life
pub mod Exchange
pub mod Agreed
pub mod Refused
use libmezia.Prelude.{
  ℕ, ◌+◌, ◌-◌, ◌*◌, List, [], ◌∷◌, Option, none, some, Bool, true, false, ◌&&◌, ◌||◌, not, ◌==◌,
  leb, nonzero, length, take, is_null, if◌then◌else◌,
}
use libmezia.Types.{Status, Stats, Written, is_ok, zero_stats, default_mtu}
use libmezia.Text.{codes}
use libmezia.Opus.{Codec}
use libmezia.Audio.{AudioConfig, Playout, or_default}
use libmezia.Video.{VideoConfig}
use libmezia.Peer.{PeerConfig, Network}
use libmezia.Media
use libmezia.Media.{MediaCtx, MediaConfig, Memory}
use libmezia.Media.Sender.{Outlet, Surroundings}
use libmezia.Media.Sender
use libmezia.Media.Receiver
use libmezia.Sdp
use libmezia.Sdp.{Sdp, SdpMedia, OfferParams}
use libmezia.Sdp.Parser
use libmezia.Sdp.Writer.{write_offer, default_ufrag, default_pwd, default_algo, default_fingerprint}

-- `mezia_session_config_t`; the callbacks as whether they are set, a null text as none.
pub record SessionConfig : Type 0 where
  pub local_ip : Option (List ℕ)
  pub local_port : ℕ
  pub remote_ip : Option (List ℕ)
  pub remote_port : ℕ
  pub mtu : ℕ
  pub offer_audio : Bool
  pub offer_video : Bool
  pub ice_ufrag : Option (List ℕ)
  pub ice_pwd : Option (List ℕ)
  pub fingerprint : Option (List ℕ)
  pub on_audio : Bool
  pub on_nal : Bool

-- The text that `copy_cstr` takes: the fallback for a null or empty one.
abbrev pub value_or : Option (List ℕ) → List ℕ → List ℕ
value_or none fallback = fallback
value_or (some []) fallback = fallback
value_or (some (c ∷ text)) fallback = c ∷ text

-- `copy_cstr`: what an array of `size` holds afterwards.
unfoldable pub copy_cstr : ℕ → Option (List ℕ) → List ℕ → List ℕ
copy_cstr size src fallback =
    let value = value_or src fallback in
    if leb size (length value) then take (size - 1) value else value

unfoldable pub localhost : List ℕ
localhost = codes "127.0.0.1"

abbrev pub zero_audio_config : AudioConfig
zero_audio_config = record {
  payload_type = 0;
  ssrc = 0;
  mtu = 0;
  jitter_target_ms = 0;
  jitter_max_ms = 0;
  adaptation = record {
    enabled = false;
    min_bitrate_bps = 0;
    initial_bitrate_bps = 0;
    max_bitrate_bps = 0;
    report_interval_ms = 0;
    feedback_timeout_ms = 0;
  };
  on_audio = false;
}

abbrev pub zero_video_config : VideoConfig
zero_video_config = record { payload_type = 0; ssrc = 0; mtu = 0; max_nal_size = 0; on_nal = false }

module _ (c : Codec) where
  -- `struct mezia_session`
  pub record Session : Type 0 where
    pub config : SessionConfig
    pub local_ip : List ℕ
    pub remote_ip : List ℕ
    pub ice_ufrag : List ℕ
    pub ice_pwd : List ℕ
    pub fingerprint : List ℕ
    pub near : Sdp
    pub far : Sdp
    pub have_local : Bool
    pub have_remote : Bool
    pub started : Bool
    pub media : Option (MediaCtx c)
    pub audio_cfg : AudioConfig
    pub video_cfg : VideoConfig

  abbrev pub made : SessionConfig → Session
  made config =
      let local_ip = copy_cstr 64 config.local_ip localhost in
      let remote_ip = copy_cstr 64 config.remote_ip localhost in
      let ufrag = copy_cstr 256 config.ice_ufrag default_ufrag in
      let pwd = copy_cstr 256 config.ice_pwd default_pwd in
      let fingerprint = copy_cstr 256 config.fingerprint default_fingerprint in
      record {
        config = record config {
          local_ip = some local_ip;
          remote_ip = some remote_ip;
          ice_ufrag = some ufrag;
          ice_pwd = some pwd;
          fingerprint = some fingerprint;
        };
        local_ip = local_ip;
        remote_ip = remote_ip;
        ice_ufrag = ufrag;
        ice_pwd = pwd;
        fingerprint = fingerprint;
        near = Sdp.init;
        far = Sdp.init;
        have_local = false;
        have_remote = false;
        started = false;
        media = none;
        audio_cfg = zero_audio_config;
        video_cfg = zero_video_config;
      }

  -- `mezia_session_create`; `calloc_ok` is whether the session could be allocated.
  unfoldable pub create : Option SessionConfig → Bool → Option Session
  create none calloc_ok = none
  create (some config) calloc_ok =
      if is_null config.local_ip || is_null config.remote_ip
      then none
      else if not config.offer_audio && not config.offer_video
      then none
      else if not calloc_ok
      then none
      else some (made config)

  -- What a session offers.
  abbrev pub offer_params : Session → OfferParams
  offer_params s = record {
    ice_ufrag = some s.ice_ufrag;
    ice_pwd = some s.ice_pwd;
    fingerprint_algo = some default_algo;
    fingerprint = some s.fingerprint;
    offer_audio = s.config.offer_audio;
    offer_video = s.config.offer_video;
    audio_payload_type = 111;
    video_payload_type = 102;
    audio_mid = some (codes "0");
    video_mid = some (codes "1");
  }

  -- `mezia_session_create_offer` on a session that is not null.
  unfoldable pub create_offer : Session → Option (List ℕ) → ℕ → Option ℕ → Written
  create_offer s out capacity out_len = write_offer (some (offer_params s)) out capacity out_len

  -- A description is replaced also by a text that is malformed.
  abbrev pub put_local : Session → Status × Option Sdp → Status × Session
  put_local s (status, none) = (status, s)
  put_local s (status, some sdp) =
      (status, record s { near = sdp; have_local = if is_ok status then true else s.have_local })

  abbrev pub put_remote : Session → Status × Option Sdp → Status × Session
  put_remote s (status, none) = (status, s)
  put_remote s (status, some sdp) =
      (status, record s { far = sdp; have_remote = if is_ok status then true else s.have_remote })

  -- `mezia_session_set_local_description` on a session that is not null.
  unfoldable pub set_local_description : Session → Option (List ℕ) → Status × Session
  set_local_description s text =
      if s.started
      then (Status.bad_state, s)
      else if is_null text
      then (Status.invalid_arg, s)
      else put_local s (Parser.parse text (some s.near))

  -- `mezia_session_set_remote_description` on a session that is not null.
  unfoldable pub set_remote_description : Session → Option (List ℕ) → Status × Session
  set_remote_description s text =
      if s.started
      then (Status.bad_state, s)
      else if is_null text
      then (Status.invalid_arg, s)
      else put_remote s (Parser.parse text (some s.far))
