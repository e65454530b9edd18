-- ===== src/Audio.antt =====
-- src/audio/audio.c: the audio context, from PCM to packets and back, with the loss reports that
-- drive the bitrate. The two spin locks are left out: each operation here is one step.
pub mod Receiver
pub mod Valid
pub mod Running
pub mod Adapted
pub mod Report
pub mod Playback
use libmezia.Prelude.{
  ℕ, zero, suc, ◌+◌, ◌-◌, ◌*◌, ◌/◌, ◌%◌, ◌^◌, List, [], ◌∷◌, Option, none, some, Bool, true, false,
  ◌&&◌, ◌||◌, not, bit_and, bit_or, ltb, leb, ◌==◌, if◌then◌else◌, nonzero, is_null, bool_int,
  get_or, set, length, take, copy_at, replicate, u16, u32, u64, sub16, inc64,
}
use libmezia.Types.{
  Status, is_ok, Packet, Stats, zero_stats, bytes_of, rtp_header_size, default_mtu,
  default_audio_payload_type, opus_frame_ms, opus_frame_samples, opus_bitrate,
  opus_expected_loss_percent,
}
use libmezia.Rtp.{seq_before}
use libmezia.Feedback.{Feedback}
use libmezia.Bitrate
use libmezia.Bitrate.{Controller, Decision}
use libmezia.Jitter
use libmezia.Jitter.{Jitter, Frame, opus_max_packet_size}
use libmezia.Opus.{Codec}

-- `mezon_audio_adaptation_config_t`
pub record Adaptation : Type 0 where
  pub enabled : Bool
  pub min_bitrate_bps : ℕ
  pub initial_bitrate_bps : ℕ
  pub max_bitrate_bps : ℕ
  pub report_interval_ms : ℕ
  pub feedback_timeout_ms : ℕ

-- `mezon_audio_config_t`; `on_audio` says whether a callback is set.
pub record AudioConfig : Type 0 where
  pub payload_type : ℕ
  pub ssrc : ℕ
  pub mtu : ℕ
  pub jitter_target_ms : ℕ
  pub jitter_max_ms : ℕ
  pub adaptation : Adaptation
  pub on_audio : Bool

-- A call of `on_audio`.
pub record Playout : Type 0 where
  pub pcm : List ℕ
  pub timestamp : ℕ
  pub discontinuity : Bool

abbrev pub no_feedback : Feedback
no_feedback = record { report_seq = 0; media_ssrc = 0; expected = 0; received = 0 }

-- The value or, for 0, its default.
abbrev pub or_default : ℕ → ℕ → ℕ
or_default n d = if nonzero n then n else d

-- The three bitrates that `mezon_audio_create` starts from: least, first, most.
abbrev pub bitrates : Adaptation → ℕ × ℕ × ℕ
bitrates a =
    if a.enabled
    then (
      or_default a.min_bitrate_bps 16000,
      or_default a.initial_bitrate_bps opus_bitrate,
      or_default a.max_bitrate_bps 48000,
    )
    else (16000, opus_bitrate, 48000)

-- The configuration with its defaults, as `mezon_audio_create` stores it.
abbrev pub with_defaults : AudioConfig → AudioConfig
with_defaults c = record c {
  mtu = or_default c.mtu default_mtu;
  payload_type = or_default c.payload_type default_audio_payload_type;
  jitter_target_ms = or_default c.jitter_target_ms 60;
  jitter_max_ms = or_default c.jitter_max_ms 120;
  adaptation = record c.adaptation {
    min_bitrate_bps = (bitrates c.adaptation).0;
    initial_bitrate_bps = (bitrates c.adaptation).1;
    max_bitrate_bps = (bitrates c.adaptation).2;
    report_interval_ms = or_default c.adaptation.report_interval_ms 1000;
    feedback_timeout_ms = or_default c.adaptation.feedback_timeout_ms 3000;
  };
}

-- The checks of `mezon_audio_create` before it allocates.
unfoldable pub config_fits : AudioConfig → Bool
config_fits c =
    let full = with_defaults c in
    let (least, first, most) = bitrates c.adaptation in
    if ltb 127 c.payload_type || nonzero c.mtu && leb c.mtu (rtp_header_size + 2)
    then false
    else if ltb full.jitter_target_ms 40
        || ltb 120 full.jitter_max_ms
        || ltb full.jitter_max_ms full.jitter_target_ms
        || nonzero (full.jitter_target_ms % opus_frame_ms)
        || nonzero (full.jitter_max_ms % opus_frame_ms)
    then false
    else not (
        c.adaptation.enabled
        && (ltb least 16000 || ltb 48000 most || ltb first least || ltb most first))

-- The checks of the report times, after the allocation.
unfoldable pub times_fit : Adaptation → Bool
times_fit a = not (
    a.enabled
    && (ltb a.report_interval_ms 200 || ltb a.feedback_timeout_ms (a.report_interval_ms * 2)))

-- The adaptation and playout state of `mezon_audio_ctx_t`, without its codec.
pub record Audio : Type 0 where
  pub config : AudioConfig
  pub jitter : Jitter
  pub controller : Controller
  pub pending_feedback : Feedback
  pub pending_feedback_time_ns : ℕ
  pub last_feedback_time_ns : ℕ
  pub report_started_ns : ℕ
  pub report_seen_mask : ℕ
  pub report_ssrc : ℕ
  pub report_base_seq : ℕ
  pub report_highest_seq : ℕ
  pub next_report_seq : ℕ
  pub last_feedback_seq : ℕ
  pub adaptation_enabled : Bool
  pub feedback_pending : Bool
  pub have_feedback_seq : Bool
  pub stale_backoff_applied : Bool
  pub report_initialized : Bool
  pub next_seq : ℕ
  pub next_timestamp : ℕ
  pub sender_silent : Bool
  pub consecutive_plc : ℕ
  pub stats : Stats

-- The context that `mezon_audio_create` returns, from the configuration with its defaults.
unfoldable pub fresh : AudioConfig → Audio
fresh full = record {
  config = full;
  jitter = Jitter.init (full.jitter_target_ms / opus_frame_ms) (full.jitter_max_ms / opus_frame_ms);
  controller =
      Bitrate.init full.adaptation.min_bitrate_bps full.adaptation.initial_bitrate_bps
        full.adaptation.max_bitrate_bps;
  pending_feedback = no_feedback;
  pending_feedback_time_ns = 0;
  last_feedback_time_ns = 0;
  report_started_ns = 0;
  report_seen_mask = 0;
  report_ssrc = 0;
  report_base_seq = 0;
  report_highest_seq = 0;
  next_report_seq = 0;
  last_feedback_seq = 0;
  adaptation_enabled = full.adaptation.enabled;
  feedback_pending = false;
  have_feedback_seq = false;
  stale_backoff_applied = false;
  report_initialized = false;
  next_seq = 0;
  next_timestamp = 0;
  sender_silent = true;
  consecutive_plc = 0;
  stats = record zero_stats {
    audio_current_bitrate_bps = full.adaptation.initial_bitrate_bps;
    audio_current_packet_loss_percent = opus_expected_loss_percent;
  };
}

abbrev pub with_codec : {S : Type 0} → AudioConfig → Option S → Option (Audio × S)
with_codec full none = none
with_codec full (some s) = some (fresh full, s)

-- `mezon_audio_create`: `calloc_ok` is whether the context is allocated, `codec` what
-- `mezon_opus_create` returns for the first bitrate.
unfoldable pub create :
    {S : Type 0} → Option AudioConfig → Bool → (ℕ → Option S) → Option (Audio × S)
create none calloc_ok codec = none
create (some c) calloc_ok codec =
    let full = with_defaults c in
    if not (config_fits c)
    then none
    else if not calloc_ok
    then none
    else if not (times_fit full.adaptation)
    then none
    else with_codec full (codec full.adaptation.initial_bitrate_bps)

-- `mezon_audio_max_packets`
unfoldable pub max_packets : Option Audio → ℕ → ℕ
max_packets none samples = 0
max_packets (some a) samples = if samples == opus_frame_samples then 1 else 0

-- `mezon_audio_local_ssrc`
unfoldable pub local_ssrc : Option Audio → ℕ
local_ssrc none = 0
local_ssrc (some a) = a.config.ssrc

-- `mezon_audio_adaptation_enabled`
unfoldable pub is_adaptation_enabled : Option Audio → Bool
is_adaptation_enabled none = false
is_adaptation_enabled (some a) = a.adaptation_enabled

-- `mezon_audio_note_report_sent`
unfoldable pub note_report_sent : Audio → Audio
note_report_sent a = record a {
  stats = record a.stats {
    audio_adaptation_reports_sent = inc64 a.stats.audio_adaptation_reports_sent;
  };
}
