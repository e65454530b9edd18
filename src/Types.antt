-- ===== src/Types.antt =====
-- include/mezia/types.h: the status codes, the packet and the counters that every part shares.
use libmezia.Prelude.{ℕ, List, [], Option, none, some, take, Bool, true, false}

-- `mezon_status_t`
pub data Status : Type 0 where
  ok invalid_arg nomem internal not_ready buffer_too_small malformed_packet : Status
  network would_block unsupported bad_state codec_error : Status

-- `status == MEZON_OK`
abbrev pub is_ok : Status → Bool
is_ok Status.ok = true
is_ok _ = false

abbrev pub rtp_header_size : ℕ
rtp_header_size = 12

abbrev pub default_mtu : ℕ
default_mtu = 1200

abbrev pub max_datagram_size : ℕ
max_datagram_size = 1500

abbrev pub default_audio_payload_type : ℕ
default_audio_payload_type = 96

abbrev pub default_video_payload_type : ℕ
default_video_payload_type = 97

abbrev pub default_control_payload_type : ℕ
default_control_payload_type = 98

abbrev pub opus_sample_rate : ℕ
opus_sample_rate = 48000

abbrev pub opus_channels : ℕ
opus_channels = 1

abbrev pub opus_frame_ms : ℕ
opus_frame_ms = 20

abbrev pub opus_frame_samples : ℕ
opus_frame_samples = 960

abbrev pub opus_bitrate : ℕ
opus_bitrate = 24000

abbrev pub opus_expected_loss_percent : ℕ
opus_expected_loss_percent = 10

-- `mezon_packet_t`. A null `data` is `none`; a pointer is the bytes from where it points on.
pub record Packet : Type 0 where
  pub bytes : Option (List ℕ)
  pub len : ℕ
  pub capacity : ℕ
  pub timestamp : ℕ
  pub seq : ℕ
  pub ssrc : ℕ
  pub arrival_time_ns : ℕ
  pub payload_type : ℕ
  pub marker : ℕ

-- `memset(packet, 0, sizeof(*packet))`
abbrev pub zero_packet : Packet
zero_packet = record {
  bytes = none;
  len = 0;
  capacity = 0;
  timestamp = 0;
  seq = 0;
  ssrc = 0;
  arrival_time_ns = 0;
  payload_type = 0;
  marker = 0;
}

abbrev pub bytes_of : Option (List ℕ) → List ℕ
bytes_of none = []
bytes_of (some d) = d

-- The bytes that a packet carries: the first `len` from its pointer on.
abbrev pub payload : Packet → List ℕ
payload p = take p.len (bytes_of p.bytes)

-- `mezon_stats_t`
pub record Stats : Type 0 where
  pub packets_sent : ℕ
  pub packets_received : ℕ
  pub bytes_sent : ℕ
  pub bytes_received : ℕ
  pub malformed_packets : ℕ
  pub unknown_payloads : ℕ
  pub sequence_gaps : ℕ
  pub duplicate_packets : ℕ
  pub late_packets : ℕ
  pub reassembly_failures : ℕ
  pub socket_errors : ℕ
  pub audio_frames_encoded : ℕ
  pub audio_frames_decoded : ℕ
  pub audio_frames_fec_recovered : ℕ
  pub audio_frames_plc : ℕ
  pub audio_frames_dropped : ℕ
  pub audio_jitter_resets : ℕ
  pub audio_jitter_underruns : ℕ
  pub audio_adaptation_reports_sent : ℕ
  pub audio_adaptation_reports_received : ℕ
  pub audio_adaptation_reports_rejected : ℕ
  pub audio_adaptation_stale_events : ℕ
  pub audio_bitrate_increases : ℕ
  pub audio_bitrate_decreases : ℕ
  pub audio_current_bitrate_bps : ℕ
  pub audio_current_packet_loss_percent : ℕ

abbrev pub zero_stats : Stats
zero_stats = record {
  packets_sent = 0;
  packets_received = 0;
  bytes_sent = 0;
  bytes_received = 0;
  malformed_packets = 0;
  unknown_payloads = 0;
  sequence_gaps = 0;
  duplicate_packets = 0;
  late_packets = 0;
  reassembly_failures = 0;
  socket_errors = 0;
  audio_frames_encoded = 0;
  audio_frames_decoded = 0;
  audio_frames_fec_recovered = 0;
  audio_frames_plc = 0;
  audio_frames_dropped = 0;
  audio_jitter_resets = 0;
  audio_jitter_underruns = 0;
  audio_adaptation_reports_sent = 0;
  audio_adaptation_reports_received = 0;
  audio_adaptation_reports_rejected = 0;
  audio_adaptation_stale_events = 0;
  audio_bitrate_increases = 0;
  audio_bitrate_decreases = 0;
  audio_current_bitrate_bps = 0;
  audio_current_packet_loss_percent = 0;
}

-- What a writer into a caller's buffer leaves behind: its status, the buffer, and `*out_len`.
pub record Written : Type 0 where
  pub status : Status
  pub out : Option (List ℕ)
  pub out_len : Option ℕ
