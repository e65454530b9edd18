-- ===== src/Tests/Control.antt =====
-- src/rtcp/rtcp.c and src/audio/bitrate_controller.c at fixed inputs.
use libmezia.Prelude.{
  ℕ, ◌-◌, ◌≤◌, ◌≡◌, refl, List, [], ◌∷◌, some, true, min, arith, length, replicate,
}
use libmezia.Types.{Status}
use libmezia.Wire
use libmezia.Rtcp
use libmezia.Rtcp.{SenderReport, ReceiverReport, Nack, Pli, RtcpPacket, parse_nack_fci}
use libmezia.Rtcp.Reports.{Survives, parse-write_sr}
use libmezia.Rtcp.Bounds.{parse-nack-length, parse_nack_fci-fuel}
use libmezia.Bitrate
use libmezia.Bitrate.{Controller, update, loss_of}
use libmezia.Bitrate.Loss.{IsCeilingPercent, loss_of-exact, loss_of_wraps}
use libmezia.Bitrate.Range
use libmezia.Bitrate.Range.{update-IsValid}
use libmezia.Bitrate.Steps.{update_rounds_up}

abbrev buffer : List ℕ
buffer = replicate 32 0

abbrev pli_packet : Pli
pli_packet = record { sender_ssrc = 1; media_ssrc = 4294967295 }

abbrev sender_report : SenderReport
sender_report = record {
  sender_ssrc = 1;
  ntp_msw = 2;
  ntp_lsw = 4294967295;
  rtp_timestamp = 960;
  packet_count = 5;
  octet_count = 400;
}

abbrev receiver_report : ReceiverReport
receiver_report = record {
  sender_ssrc = 1;
  media_ssrc = 2;
  fraction_lost = 255;
  cumulative_lost = 65793;
  extended_seq = 70000;
  jitter = 9;
  last_sr = 3;
  delay_since_last_sr = 4;
}

parse-write_sr_example :
    Survives
      (Rtcp.write_sr (some sender_report) (some buffer) 32 (some 0))
      28
      RtcpPacket.unknown
      (RtcpPacket.sr sender_report)
parse-write_sr_example =
    parse-write_sr sender_report RtcpPacket.unknown buffer 32 0 (omega arith) (omega arith)
      (omega arith)

-- A NACK for 10, 11 and 13.
abbrev nack_bytes : List ℕ
nack_bytes = 129 ∷ 205 ∷ 0 ∷ 3 ∷ 0 ∷ 0 ∷ 0 ∷ 1 ∷ 0 ∷ 0 ∷ 0 ∷ 2 ∷ 0 ∷ 10 ∷ 0 ∷ 5 ∷ []

abbrev three_lost : Nack
three_lost = record { sender_ssrc = 1; media_ssrc = 2; seqs = 10 ∷ 11 ∷ 13 ∷ [] }

parse-three_lost :
    Rtcp.parse (some nack_bytes) 16 (some RtcpPacket.unknown)
    ≡ (Status.ok, some (RtcpPacket.nack three_lost))
unfolding Rtcp.parse Rtcp.parse_body Rtcp.parse_nack_fci Rtcp.blp_seqs Wire.read_u16 Wire.read_u32
parse-three_lost = refl

parse-nack-length_example : length three_lost.seqs ≤ 64
parse-nack-length_example =
    parse-nack-length nack_bytes 16 RtcpPacket.unknown three_lost parse-three_lost

parse_nack_fci-fuel_example :
    parse_nack_fci 1 (0 ∷ 10 ∷ 0 ∷ 5 ∷ []) 3 4 [] ≡ parse_nack_fci 9 (0 ∷ 10 ∷ 0 ∷ 5 ∷ []) 3 4 []
parse_nack_fci-fuel_example =
    parse_nack_fci-fuel 1 9 (0 ∷ 10 ∷ 0 ∷ 5 ∷ []) 3 4 [] (omega arith) (omega arith)

abbrev controller : Controller
controller = record {
  min_bitrate = 16000;
  max_bitrate = 32000;
  current_bitrate = 24000;
  loss_percent = 10;
  clean_reports = 2;
}

abbrev odd_controller : Controller
odd_controller = record controller { current_bitrate = 24500; clean_reports = 0 }

abbrev in_range : Range.IsValid controller
in_range = omega arith

abbrev odd_in_range : Range.IsValid odd_controller
odd_in_range = omega arith

-- Two of forty lost is 5 percent; a clean report is none.
loss_five : loss_of 40 38 ≡ 5
unfolding loss_of
loss_five = refl

loss_none : loss_of 40 40 ≡ 0
unfolding loss_of
loss_none = refl

raised : (update controller 40 40).0.current_bitrate ≡ 26000
unfolding Bitrate.update Bitrate.adjust Bitrate.aim Bitrate.clamp_round loss_of
raised = refl

update-IsValid_example : Range.IsValid (update controller 40 38).0
update-IsValid_example = update-IsValid {c = controller} 40 38 in_range

loss_of-exact_example : (v : ℕ) × IsCeilingPercent v (40 - 38) 40 × (loss_of 40 38 ≡ min v 20)
loss_of-exact_example = loss_of-exact 40 38 (omega arith) (omega arith) (omega arith)

loss_of_wraps_example : loss_of 42949673 0 ≡ 1
loss_of_wraps_example = loss_of_wraps 42949673 (omega arith) (omega arith)

update_rounds_up_example : (update odd_controller 40 40).1.increased ≡ true
update_rounds_up_example =
    update_rounds_up odd_controller 40 40 odd_in_range refl (omega arith) (omega arith)
      (omega arith) (omega arith) (omega (arith, loss_none))
