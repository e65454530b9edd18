-- ===== src/Audio/Receiver.antt =====
-- The receiving side of src/audio/audio.c: packets in, loss reports out and back in.
use libmezia.Prelude.{
  ℕ, zero, suc, ◌+◌, ◌-◌, ◌*◌, ◌/◌, ◌^◌, Option, none, some, Bool, true, false, ◌&&◌, ◌||◌, not,
  bit_and, bit_or, ltb, ◌==◌, if◌then◌else◌, nonzero, u16, u32, u64, sub16, inc64,
}
use libmezia.Types.{Status, is_ok, Packet}
use libmezia.Rtp.{seq_before}
use libmezia.Feedback.{Feedback}
use libmezia.Jitter
use libmezia.Jitter.{Jitter, Frame, opus_max_packet_size}
use libmezia.Audio.{Audio}

-- `track_receiver_packet`: one bit of the mask for each number seen, of 64 from the base on.
unfoldable pub track_receiver_packet : Audio → Packet → Audio
track_receiver_packet a p =
    let distance = sub16 p.seq a.report_base_seq in
    if not a.adaptation_enabled
    then a
    else if not a.report_initialized || not (p.ssrc == a.report_ssrc)
    then record a {
      report_ssrc = p.ssrc;
      report_base_seq = p.seq;
      report_highest_seq = p.seq;
      report_seen_mask = 1;
      report_started_ns = p.arrival_time_ns;
      report_initialized = true;
    }
    else if ltb distance 64
    then record a {
      report_seen_mask = bit_or a.report_seen_mask (u64 (2 ^ distance));
      report_highest_seq =
          if seq_before a.report_highest_seq p.seq then p.seq else a.report_highest_seq;
    }
    else a

-- `mezon_audio_receive` on a context that is not null.
unfoldable pub receive : Audio → Option Packet → Status × Audio
receive a none = (Status.invalid_arg, a)
receive a (some p) =
    let tracked = track_receiver_packet a p in
    let (status, j, st) = Jitter.insert tracked.jitter (some p) tracked.stats in
    let counted = record st {
      packets_received = inc64 st.packets_received;
      bytes_received = u64 (st.bytes_received + p.len);
    } in
    if not (p.payload_type == a.config.payload_type)
    then (Status.invalid_arg, a)
    else (status, record tracked { jitter = j; stats = if is_ok status then counted else st })

-- `count_bits`, with fuel for its shifts.
unfoldable pub count_bits : ℕ → ℕ → ℕ
count_bits zero value = 0
count_bits (suc fuel) value =
    let rest = count_bits fuel (value / 2) in if value == 0 then 0 else bit_and value 1 + rest

-- `mezon_audio_take_receiver_report`: 64 shifts empty the mask.
unfoldable pub take_receiver_report : Audio → ℕ → Option Feedback → Bool × Audio × Option Feedback
take_receiver_report a now_ns none = (false, a, none)
take_receiver_report a now_ns (some f) =
    let interval_ns = a.config.adaptation.report_interval_ms * 1000000 in
    let expected = u32 (sub16 a.report_highest_seq a.report_base_seq + 1) in
    if not a.adaptation_enabled
    then (false, a, some f)
    else if not a.report_initialized
        || ltb now_ns a.report_started_ns
        || ltb (now_ns - a.report_started_ns) interval_ns
    then (false, a, some f)
    else (
      nonzero expected,
      record a {
        next_report_seq = u16 (a.next_report_seq + 1);
        report_initialized = false;
        report_seen_mask = 0;
      },
      some (record {
        report_seq = a.next_report_seq;
        media_ssrc = a.report_ssrc;
        expected = expected;
        received = count_bits 64 a.report_seen_mask;
      }),
    )

-- `mezon_audio_submit_receiver_report` on a context that is not null.
unfoldable pub submit_receiver_report : Audio → Option Feedback → ℕ → Status × Audio
submit_receiver_report a none arrival_time_ns = (Status.invalid_arg, a)
submit_receiver_report a (some f) arrival_time_ns =
    if not a.adaptation_enabled
      || f.expected == 0
      || ltb f.expected f.received
      || not (f.media_ssrc == a.config.ssrc)
    then (Status.invalid_arg, a)
    else if a.have_feedback_seq && not (seq_before a.last_feedback_seq f.report_seq)
    then (
      Status.bad_state,
      record a {
        stats = record a.stats {
          audio_adaptation_reports_rejected = inc64 a.stats.audio_adaptation_reports_rejected;
        };
      },
    )
    else (
      Status.ok,
      record a {
        pending_feedback = f;
        pending_feedback_time_ns = arrival_time_ns;
        last_feedback_time_ns = arrival_time_ns;
        last_feedback_seq = f.report_seq;
        have_feedback_seq = true;
        feedback_pending = true;
        stats = record a.stats {
          audio_adaptation_reports_received = inc64 a.stats.audio_adaptation_reports_received;
        };
      },
    )
