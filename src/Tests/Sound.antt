-- ===== src/Tests/Sound.antt =====
-- src/audio/audio.c at fixed inputs.
use libmezia.Prelude.{
  ℕ, ◌+◌, ◌≤◌, ◌≡◌, ◌≢◌, refl, [], ◌∷◌, Option, some, Bool, true, arith, replicate, take, u16,
}
use libmezia.Types.{Status, Packet, zero_packet}
use libmezia.Feedback.{Feedback}
use libmezia.Opus.{Codec}
use libmezia.Audio
use libmezia.Audio.{Adaptation, AudioConfig, Audio, with_defaults, fresh}
use libmezia.Audio.Receiver
use libmezia.Audio.Receiver.{track_receiver_packet, submit_receiver_report, take_receiver_report}
use libmezia.Audio.Report.{
  IsTracking, track-IsTracking, take_receiver_report-IsReport, submit_receiver_report-older,
}
use libmezia.Audio.Valid.{IsValid, create-IsValid}

abbrev pub audio_config : AudioConfig
audio_config = record {
  payload_type = 0;
  ssrc = 77;
  mtu = 0;
  jitter_target_ms = 0;
  jitter_max_ms = 0;
  adaptation = record {
    enabled = true;
    min_bitrate_bps = 0;
    initial_bitrate_bps = 0;
    max_bitrate_bps = 0;
    report_interval_ms = 0;
    feedback_timeout_ms = 0;
  };
  on_audio = true;
}

-- A codec that keeps the samples, and counts its calls.
abbrev pub plain_codec : Codec
plain_codec = record {
  State = ℕ;
  encode = λ s pcm room. (Status.ok, take room pcm, s + 1);
  decode = λ s content fec. (Status.ok, replicate 2 s, s + 1);
  set_network_state = λ s bitrate loss. (Status.ok, s + 1);
}

abbrev pub audio : Audio
audio = fresh (with_defaults audio_config)

created : Audio.create (some audio_config) true (λ bitrate. some bitrate) ≡ some (audio, 24000)
unfolding Audio.create Audio.config_fits Audio.times_fit Audio.fresh
created = refl

pub audio-IsValid : IsValid audio
audio-IsValid = create-IsValid audio_config true (λ bitrate. some bitrate) audio 24000 created

abbrev pub voice_packet : Packet
voice_packet = record zero_packet {
  bytes = some (1 ∷ 2 ∷ 3 ∷ []);
  len = 3;
  timestamp = 960;
  seq = 9;
  ssrc = 78;
  arrival_time_ns = 5;
  payload_type = 96;
}

abbrev report : Feedback
report = record { report_seq = 7; media_ssrc = 77; expected = 50; received = 48 }

abbrev void_report : Feedback
void_report = record report { expected = 0 }

-- The receiver after its first packet.
abbrev tracking : Audio
tracking = track_receiver_packet audio voice_packet

audio-IsTracking : IsTracking audio
audio-IsTracking = audio-IsValid.tracking

abbrev taken : Bool × Audio × Option Feedback
taken = take_receiver_report tracking 5000000000 (some report)

abbrev taken_report : Feedback
taken_report = record { report_seq = 0; media_ssrc = 78; expected = 1; received = 1 }

report_taken : taken ≡ (true, taken.1, some taken_report)
unfolding Receiver.take_receiver_report Receiver.track_receiver_packet Audio.fresh
    Receiver.count_bits
report_taken = refl

take_receiver_report-IsReport_example :
    (1 ≤ taken_report.received)
    × (taken_report.received ≤ taken_report.expected)
    × (taken_report.expected ≤ 64)
    × (taken_report.report_seq ≡ tracking.next_report_seq)
    × (taken.1.next_report_seq ≡ u16 (tracking.next_report_seq + 1))
    × IsTracking taken.1
take_receiver_report-IsReport_example =
    take_receiver_report-IsReport tracking taken.1 5000000000 report taken_report
      (track-IsTracking audio voice_packet (omega arith) audio-IsTracking) report_taken

submitted : (submit_receiver_report audio (some report) 1000).0 ≡ Status.ok
unfolding Receiver.submit_receiver_report Audio.fresh
submitted = refl

submit_receiver_report-older_example :
    let a' = (submit_receiver_report audio (some report) 1000).1 in
    let (status, a'') =
      submit_receiver_report a' (some (record report { report_seq = 65534 })) 2000 in
    (status ≢ Status.ok)
    × (a''.pending_feedback ≡ report)
    × (a''.pending_feedback_time_ns ≡ 1000)
    × (a''.last_feedback_seq ≡ report.report_seq)
submit_receiver_report-older_example =
    submit_receiver_report-older audio report (record report { report_seq = 65534 }) 1000 2000
      (report.report_seq + 2) (omega arith) (omega arith) (omega arith) submitted

void_refused : (submit_receiver_report audio (some void_report) 1000).0 ≢ Status.ok
unfolding Receiver.submit_receiver_report Audio.fresh
void_refused e = cc
