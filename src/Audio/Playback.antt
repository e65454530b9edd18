-- ===== src/Audio/Playback.antt =====
-- The operations of src/audio/audio.c that call the codec.
use libmezia.Prelude.{
  ℕ, ◌+◌, ◌-◌, ◌*◌, List, Option, none, some, Bool, true, false, ◌&&◌, ◌||◌, not, ltb, leb, ◌==◌,
  if◌then◌else◌, is_null, bool_int, length, copy_at, replicate, u16, u32, u64, inc64,
}
use libmezia.Types.{Status, is_ok, Packet, bytes_of, rtp_header_size, opus_frame_samples}
use libmezia.Bitrate
use libmezia.Bitrate.{Decision}
use libmezia.Jitter
use libmezia.Jitter.{Jitter, Frame, opus_max_packet_size}
use libmezia.Opus.{Codec}
use libmezia.Audio.{Audio, Playout}

-- The two counts that a report brings; the stale backoff makes up its own.
abbrev pub stale_expected : ℕ
stale_expected = 100

abbrev pub stale_received : ℕ
stale_received = 90

-- Has the peer been silent for longer than the timeout?
unfoldable pub is_stale : Audio → ℕ → Bool
is_stale a now_ns =
    let timeout_ns = a.config.adaptation.feedback_timeout_ms * 1000000 in
    not (
      not a.have_feedback_seq
      || a.stale_backoff_applied
      || ltb now_ns a.last_feedback_time_ns
      || leb (now_ns - a.last_feedback_time_ns) timeout_ns)

-- `samples[i] = 0` over the whole frame.
pub silence : List ℕ
silence = replicate opus_frame_samples 0

module _ (c : Codec) where
  open c use {State, encode, decode, set_network_state}

  -- The update of the controller and the codec. The controller keeps its decision also where the
  -- codec refuses it.
  unfoldable pub apply_report : Audio → State → ℕ → ℕ → Audio × State
  apply_report a s expected received =
      let (controller, decision) = Bitrate.update a.controller expected received in
      let (status, s') = set_network_state s decision.bitrate decision.loss_percent in
      (
        record a {
          controller = controller;
          stats =
              if is_ok status
              then record a.stats {
                audio_current_bitrate_bps = decision.bitrate;
                audio_current_packet_loss_percent = decision.loss_percent;
                audio_bitrate_increases =
                    u64 (a.stats.audio_bitrate_increases + bool_int decision.increased);
                audio_bitrate_decreases =
                    u64 (a.stats.audio_bitrate_decreases + bool_int decision.decreased);
              }
              else a.stats;
        },
        s',
      )

  -- `apply_pending_feedback`; `now_ns` is what the clock says if it is asked.
  unfoldable pub apply_pending_feedback : Audio → State → ℕ → Audio × State
  apply_pending_feedback a s now_ns =
      if not a.adaptation_enabled
      then (a, s)
      else if a.feedback_pending
      then apply_report (record a { feedback_pending = false; stale_backoff_applied = false }) s
          a.pending_feedback.expected a.pending_feedback.received
      else if is_stale a now_ns
      then apply_report
          (record a {
            stale_backoff_applied = true;
            stats = record a.stats {
              audio_adaptation_stale_events = inc64 a.stats.audio_adaptation_stale_events;
            };
          })
          s stale_expected stale_received
      else (a, s)

  -- What a call of `mezon_audio_packetize` leaves: `packet` is `packets[0]`.
  pub record Packetized : Type 0 where
    pub status : Status
    pub audio : Audio
    pub codec : State
    pub packet : Packet
    pub packet_count : ℕ

  -- The packet and the counters once the codec has encoded a frame.
  unfoldable pub send_frame : Audio → Packet → List ℕ → Audio × Packet
  send_frame a p encoded =
      let dtx_packet = leb (length encoded) 2 in
      (
        record a {
          next_seq = u16 (a.next_seq + 1);
          next_timestamp = u32 (a.next_timestamp + opus_frame_samples);
          sender_silent = dtx_packet;
          stats = record a.stats {
            audio_frames_encoded = inc64 a.stats.audio_frames_encoded;
            packets_sent = inc64 a.stats.packets_sent;
            bytes_sent = u64 (a.stats.bytes_sent + length encoded);
          };
        },
        record p {
          bytes = some (copy_at (bytes_of p.bytes) 0 encoded);
          len = length encoded;
          payload_type = a.config.payload_type;
          marker = bool_int (not dtx_packet && a.sender_silent);
          seq = a.next_seq;
          timestamp = a.next_timestamp;
          ssrc = a.config.ssrc;
        },
      )

  -- The room for the payload of one packet.
  abbrev pub max_payload : Audio → ℕ
  max_payload a =
      if ltb opus_max_packet_size (a.config.mtu - rtp_header_size)
      then opus_max_packet_size
      else a.config.mtu - rtp_header_size

  unfoldable pub packetize_frame : Audio → State → List ℕ → Packet → ℕ → Packetized
  packetize_frame a s pcm p packet_count =
      let (status, encoded, s') = encode s pcm (max_payload a) in
      let (a', p') = send_frame a p encoded in
      if is_null p.bytes || ltb p.capacity (max_payload a)
      then record {
        status = Status.buffer_too_small;
        audio = a;
        codec = s;
        packet = record p { len = max_payload a };
        packet_count = 1;
      }
      else if is_ok status
      then record { status = Status.ok; audio = a'; codec = s'; packet = p'; packet_count = 1 }
      else record {
        status = status;
        audio = a;
        codec = s';
        packet = p;
        packet_count = packet_count;
      }

  -- `mezon_audio_packetize` on a context, packets and a count that are not null.
  unfoldable pub packetize : Audio → State → ℕ → Option (List ℕ) → ℕ → Packet → ℕ → ℕ → Packetized
  packetize a s now_ns none samples p packet_capacity packet_count = record {
    status = Status.invalid_arg;
    audio = a;
    codec = s;
    packet = p;
    packet_count = packet_count;
  }
  packetize a s now_ns (some pcm) samples p packet_capacity packet_count =
      let (a', s') = apply_pending_feedback a s now_ns in
      if not (samples == opus_frame_samples)
      then record {
        status = Status.invalid_arg;
        audio = a;
        codec = s;
        packet = p;
        packet_count = packet_count;
      }
      else if packet_capacity == 0
      then record {
        status = Status.buffer_too_small;
        audio = a;
        codec = s;
        packet = p;
        packet_count = 1;
      }
      else packetize_frame a' s' pcm p packet_count

  -- The end of a tick: a frame that was decoded is counted and played.
  unfoldable pub finish :
      Audio → State → Status → List ℕ → ℕ → Bool → Status × Audio × State × Option Playout
  finish a s status pcm timestamp discontinuity =
      if is_ok status
      then (
        Status.ok,
        record a {
          stats = record a.stats { audio_frames_decoded = inc64 a.stats.audio_frames_decoded };
        },
        s,
        if a.config.on_audio
            then some (record { pcm = pcm; timestamp = timestamp; discontinuity = discontinuity })
            else none,
      )
      else (
        status,
        record a {
          stats = record a.stats { audio_frames_dropped = inc64 a.stats.audio_frames_dropped };
        },
        s,
        none,
      )

  abbrev pub count_if : Bool → ℕ → ℕ
  count_if b n = if b then inc64 n else n

  -- The frame that is there.
  unfoldable pub play_frame : Audio → State → Frame → Status × Audio × State × Option Playout
  play_frame a s f =
      let (status, pcm, s') = decode s (some f.bytes) false in
      finish (record a { consecutive_plc = 0 }) s' status pcm f.timestamp false

  -- A lost frame, from the FEC data of the next one.
  unfoldable pub play_fec : Audio → State → Frame → ℕ → Status × Audio × State × Option Playout
  play_fec a s f timestamp =
      let (status, pcm, s') = decode s (some f.bytes) true in
      let stats = record a.stats {
        audio_frames_fec_recovered = count_if (is_ok status) a.stats.audio_frames_fec_recovered;
      } in
      finish (record a { stats = stats; consecutive_plc = 0 }) s' status pcm timestamp false

  -- A lost frame with nothing to go by: concealment for six frames in a row, then silence.
  unfoldable pub conceal : Audio → State → ℕ → Status × Audio × State × Option Playout
  conceal a s timestamp =
      let (status, pcm, s') = decode s none false in
      let stats = record a.stats {
        audio_frames_plc = count_if (is_ok status) a.stats.audio_frames_plc;
      } in
      let a' = record a { stats = stats; consecutive_plc = u64 (a.consecutive_plc + 1) } in
      if ltb a.consecutive_plc 6
      then finish a' s' status pcm timestamp true
      else finish a s Status.ok silence timestamp true

  abbrev pub play_missing :
      Audio → State → Option Frame → ℕ → Status × Audio × State × Option Playout
  play_missing a s (some f) timestamp = play_fec a s f timestamp
  play_missing a s none timestamp = conceal a s timestamp

  -- The expected frame, or the one after it for its FEC data. The window moves on before the
  -- codec is called.
  abbrev pub play_next :
      Audio → State → Jitter → Option Frame → Status × Audio × State × Option Playout
  play_next a s j (some f) = play_frame (record a { jitter = Jitter.advance j }) s f
  play_next a s j none =
      let (next, j') = Jitter.copy j (u16 (j.expected_seq + 1)) false in
      play_missing
        (record a {
          jitter = Jitter.advance j';
          stats = record a.stats {
            sequence_gaps = inc64 a.stats.sequence_gaps;
            audio_jitter_underruns = inc64 a.stats.audio_jitter_underruns;
          };
        })
        s next j.expected_timestamp

  -- `mezon_audio_playout` on a context that is not null.
  unfoldable pub playout : Audio → State → ℕ → Status × Audio × State × Option Playout
  playout a s now_ns =
      let (is_ready, j) = Jitter.ready a.jitter now_ns in
      let (frame, j') = Jitter.copy j j.expected_seq true in
      if is_ready
      then play_next a s j' frame
      else (Status.not_ready, record a { jitter = j }, s, none)
