-- ===== src/Tests/Transport.antt =====
-- src/transport/packet.c and src/transport/audio_feedback.c at fixed inputs.
use libmezia.Prelude.{ℕ, ◌≡◌, refl, List, [], ◌∷◌, some, arith, replicate}
use libmezia.Types.{Status, Packet, zero_packet}
use libmezia.Wire
use libmezia.Rtp
use libmezia.Rtp.{seq_before, serialize, parse}
use libmezia.Rtp.RoundTrip.{parse-serialize, SamePacket, IsSendable}
use libmezia.Feedback
use libmezia.Feedback.{Feedback}
use libmezia.Feedback.RoundTrip.{parse-serialize_report, serialize-parse_report}

abbrev two_bytes : List ℕ
two_bytes = 7 ∷ 9 ∷ []

abbrev video_packet : Packet
video_packet = record zero_packet {
  bytes = some two_bytes;
  len = 2;
  timestamp = 960;
  seq = 65535;
  ssrc = 305419896;
  payload_type = 97;
  marker = 5;
}

abbrev room : List ℕ
room = replicate 16 0

sendable : IsSendable video_packet two_bytes
sendable = record {
  here = refl;
  enough = omega arith;
  small = omega arith;
  type_fits = omega arith;
  seq_fits = omega arith;
  timestamp_fits = omega arith;
  ssrc_fits = omega arith;
}

-- Version 2 with the padding bit, and two bytes of padding behind one of payload.
abbrev padded : List ℕ
padded = 160 ∷ 97 ∷ 0 ∷ 1 ∷ 0 ∷ 0 ∷ 0 ∷ 2 ∷ 0 ∷ 0 ∷ 0 ∷ 3 ∷ 42 ∷ 0 ∷ 2 ∷ []

abbrev from_padded : Packet
from_padded = record zero_packet {
  bytes = some (42 ∷ 0 ∷ 2 ∷ []);
  len = 1;
  capacity = 1;
  timestamp = 2;
  seq = 1;
  ssrc = 3;
  payload_type = 97;
}

parse_old_version :
    Rtp.parse (some room) 16 (some zero_packet) ≡ (Status.unsupported, some zero_packet)
unfolding Rtp.parse
parse_old_version = refl

parse_old_version_fails : (Rtp.parse (some room) 16 (some zero_packet)).0 ≡ Status.ok → ⊥
unfolding Rtp.parse
parse_old_version_fails e = cc

parse-serialize_example :
    (wire : List ℕ) × (serialize (some video_packet) (some room) 16 (some 0)
      ≡ record { status = Status.ok; out = some wire; out_len = some 14 })
    × (r : Packet) × (parse (some wire) 14 (some zero_packet) ≡ (Status.ok, some r))
    × SamePacket video_packet r
parse-serialize_example =
    parse-serialize video_packet zero_packet two_bytes room 16 0 sendable (omega arith)
      (omega arith)

abbrev report : Feedback
report = record { report_seq = 7; media_ssrc = 305419896; expected = 50; received = 48 }

abbrev report_bytes : List ℕ
report_bytes = 77 ∷ 1 ∷ 0 ∷ 7 ∷ 18 ∷ 52 ∷ 86 ∷ 120 ∷ 0 ∷ 0 ∷ 0 ∷ 50 ∷ 0 ∷ 0 ∷ 0 ∷ 48 ∷ []

parse-report : Feedback.parse (some report_bytes) 16 (some report) ≡ (Status.ok, some report)
unfolding Feedback.parse Wire.read_u16 Wire.read_u32
parse-report = refl

parse-serialize_report_example :
    let (s, wire) = Feedback.serialize (some report) (some room) 16 in
    (s ≡ Status.ok) × (Feedback.parse wire 16 (some report) ≡ (Status.ok, some report))
parse-serialize_report_example =
    parse-serialize_report report report room 16 (omega arith) (omega arith) (omega arith)

serialize-parse_report_example :
    Feedback.serialize (some report) (some room) 16 ≡ (Status.ok, some report_bytes)
serialize-parse_report_example =
    serialize-parse_report report_bytes room 16 report report (omega arith) refl (omega arith) refl
      parse-report
