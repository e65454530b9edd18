-- ===== src/Media/Receiver.antt =====
-- The receiving side of src/media/media.c: what the peer's callback does with a packet, and the
-- counters.
use libmezia.Prelude.{ℕ, ◌+◌, Option, none, some, ◌&&◌, ◌==◌, if◌then◌else◌, u64}
use libmezia.Types.{Status, Packet, Stats}
use libmezia.Feedback
use libmezia.Feedback.{Feedback}
use libmezia.Opus.{Codec}
use libmezia.Audio.{Audio}
use libmezia.Audio.Receiver
use libmezia.Video.{Video, Delivery}
use libmezia.Video.Receiver as VideoReceiver
use libmezia.Peer.{Incoming, receive_round}
use libmezia.Media.{MediaCtx, is_some}

module _ (c : Codec) where
  open c use {State}

  -- A control packet: a report that parses is handed on; its status is not looked at.
  abbrev pub take_report : Audio × State → Packet → Status × Option Feedback → Audio × State
  take_report (a, s) p (Status.ok, f) =
      ((Receiver.submit_receiver_report a f p.arrival_time_ns).1, s)
  take_report (a, s) p (error, f) = (a, s)

  -- What the report is read into, before it is.
  abbrev pub blank_report : Feedback
  blank_report = record { report_seq = 0; media_ssrc = 0; expected = 0; received = 0 }

  abbrev pub to_control : Packet → Option (Audio × State) → Option (Audio × State)
  to_control p none = none
  to_control p (some a) = some (take_report a p (Feedback.parse p.bytes p.len (some blank_report)))

  abbrev pub to_audio : Packet → Option (Audio × State) → Option (Audio × State)
  to_audio p none = none
  to_audio p (some (a, s)) = some ((Receiver.receive a (some p)).1, s)

  -- The video context, and the call of its callback.
  abbrev pub to_video : Packet → Option Video → Option Video × Option Delivery
  to_video p none = (none, none)
  to_video p (some v) =
      let (status, v', delivery) = VideoReceiver.receive v (some p) in (some v', delivery)

  -- `media_packet`
  unfoldable pub media_packet : MediaCtx c → Packet → MediaCtx c × Option Delivery
  media_packet m p =
      let (video, delivery) = to_video p m.video in
      if is_some m.audio && p.payload_type == m.control_payload_type
      then (record m { audio = to_control p m.audio }, none)
      else if is_some m.audio && p.payload_type == m.audio_payload_type
      then (record m { audio = to_audio p m.audio }, none)
      else if is_some m.video && p.payload_type == m.video_payload_type
      then (record m { video = video }, delivery)
      else (m, none)

  abbrev pub take_packet : MediaCtx c → Option Packet → MediaCtx c × Option Delivery
  take_packet m none = (m, none)
  take_packet m (some p) = media_packet m p

  -- A round of the peer's worker, with the callback that it makes.
  unfoldable pub media_round : MediaCtx c → Incoming → ℕ → MediaCtx c × Option Delivery
  media_round m e now_ns =
      let round = receive_round m.peer e now_ns in
      take_packet (record m { peer = round.peer }) round.packet

  abbrev pub with_audio_stats : Stats → Option (Audio × State) → Stats
  with_audio_stats st none = st
  with_audio_stats st (some (a, s)) = record st {
    sequence_gaps = u64 (st.sequence_gaps + a.stats.sequence_gaps);
    duplicate_packets = u64 (st.duplicate_packets + a.stats.duplicate_packets);
    late_packets = u64 (st.late_packets + a.stats.late_packets);
    audio_frames_encoded = a.stats.audio_frames_encoded;
    audio_frames_decoded = a.stats.audio_frames_decoded;
    audio_frames_fec_recovered = a.stats.audio_frames_fec_recovered;
    audio_frames_plc = a.stats.audio_frames_plc;
    audio_frames_dropped = a.stats.audio_frames_dropped;
    audio_jitter_resets = a.stats.audio_jitter_resets;
    audio_jitter_underruns = a.stats.audio_jitter_underruns;
    audio_adaptation_reports_sent = a.stats.audio_adaptation_reports_sent;
    audio_adaptation_reports_received = a.stats.audio_adaptation_reports_received;
    audio_adaptation_reports_rejected = a.stats.audio_adaptation_reports_rejected;
    audio_adaptation_stale_events = a.stats.audio_adaptation_stale_events;
    audio_bitrate_increases = a.stats.audio_bitrate_increases;
    audio_bitrate_decreases = a.stats.audio_bitrate_decreases;
    audio_current_bitrate_bps = a.stats.audio_current_bitrate_bps;
    audio_current_packet_loss_percent = a.stats.audio_current_packet_loss_percent;
  }

  -- `mezia_get_stats` on pointers that are not null.
  unfoldable pub get_stats : MediaCtx c → Stats
  get_stats m = with_audio_stats m.peer.stats m.audio
