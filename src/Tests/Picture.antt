-- ===== src/Tests/Picture.antt =====
-- src/video/video.c at fixed inputs.
use libmezia.Prelude.{
  ℕ, ◌≡◌, refl, List, Option, [], ◌∷◌, some, true, false, arith, replicate, inl, inr,
}
use libmezia.Types.{Status, Packet, zero_packet, zero_stats}
use libmezia.Rtp
use libmezia.Video
use libmezia.Video.Packetizer
use libmezia.Video.Receiver
use libmezia.Video.{Video, VideoConfig, Delivery, max_packets_for_nal}
use libmezia.Video.Count.{IsCeiling, max_packets_for_nal-IsCeiling}
use libmezia.Video.Assembly.{Holds, Carries}
use libmezia.Video.InOrder.{IsNextFragment, receive-delivers}
use libmezia.Video.Receive.{IsValid, receive_nal-IsValid}

-- A payload of 5 bytes, so 3 of each fragment.
abbrev tiny : Video
tiny = record {
  config = record { payload_type = 97; ssrc = 9; mtu = 17; max_nal_size = 8; on_nal = true };
  next_seq = 65535;
  expected_seq = 0;
  have_expected_seq = false;
  reassembly = replicate 8 0;
  reassembly_len = 0;
  reassembly_timestamp = 0;
  reassembling = false;
  discontinuity = false;
  stats = zero_stats;
}

abbrev keyframe : List ℕ
keyframe = 101 ∷ 1 ∷ 2 ∷ 3 ∷ 4 ∷ 5 ∷ []

abbrev fresh_packet : Packet
fresh_packet = record zero_packet { bytes = some (replicate 5 0); capacity = 5 }

abbrev sent : Packetizer.Packetized
sent =
    Packetizer.packetize_nal tiny (some keyframe) 6 900 true (fresh_packet ∷ fresh_packet ∷ []) 2 0

abbrev first_fragment : Packet
first_fragment = record fresh_packet {
  bytes = some (124 ∷ 133 ∷ 1 ∷ 2 ∷ 3 ∷ []);
  len = 5;
  timestamp = 900;
  seq = 65535;
  ssrc = 9;
  payload_type = 97;
}

abbrev last_fragment : Packet
last_fragment = record fresh_packet {
  bytes = some (124 ∷ 69 ∷ 4 ∷ 5 ∷ 0 ∷ []);
  len = 4;
  timestamp = 900;
  seq = 0;
  ssrc = 9;
  payload_type = 97;
  marker = 1;
}

-- Two fragments, with the sequence number passing its end.
sent_fragments : sent.packets ≡ first_fragment ∷ last_fragment ∷ []
unfolding Packetizer.packetize_nal Video.max_packets_for_nal Video.valid_nal Packetizer.find_small
    Packetizer.fill_fragments Packetizer.fragment_packet
sent_fragments = refl

-- They are put together to the NAL unit that was sent.
delivered :
    (Receiver.receive (Receiver.receive tiny (some first_fragment)).1 (some last_fragment)).2
    ≡ some
        (record { nal = keyframe; timestamp = 900; end_of_access_unit = 1; discontinuity = false })
unfolding Receiver.receive Receiver.receive_sequenced Receiver.receive_payload
    Receiver.receive_fragment Receiver.start_fragment Receiver.append_fragment
    Receiver.reset_reassembly Rtp.seq_before
delivered = refl

tiny-IsValid : IsValid tiny
tiny-IsValid = record {
  room = omega arith;
  size = refl;
  fits = omega arith;
  started = inl refl;
  addressable = omega arith;
}

receive_nal-IsValid_example : IsValid (Receiver.receive tiny (some first_fragment)).1
receive_nal-IsValid_example = receive_nal-IsValid tiny first_fragment (omega arith) tiny-IsValid

max_packets_for_nal-IsCeiling_example : IsCeiling (max_packets_for_nal tiny 6) 3 5
max_packets_for_nal-IsCeiling_example =
    max_packets_for_nal-IsCeiling tiny 6 (omega arith) (omega arith)

abbrev tiny_config : VideoConfig
tiny_config = record { payload_type = 0; ssrc = 9; mtu = 0; max_nal_size = 8; on_nal = true }

abbrev eight_bytes : ℕ → Option (List ℕ)
eight_bytes n = some (replicate 8 0)

-- The receiver after the first fragment.
abbrev midway : Video
midway = record tiny {
  have_expected_seq = true;
  reassembly = 101 ∷ 1 ∷ 2 ∷ 3 ∷ 0 ∷ 0 ∷ 0 ∷ 0 ∷ [];
  reassembly_len = 4;
  reassembly_timestamp = 900;
  reassembling = true;
}

midway-Holds : Holds midway keyframe 4 900
midway-Holds = record {
  valid = record {
    room = omega arith;
    size = refl;
    fits = omega arith;
    started = inr (omega arith);
    addressable = omega arith;
  };
  running = refl;
  whole = refl;
  reached = refl;
  prefix = refl;
  same_time = refl;
  inside = omega arith;
  room = omega arith;
}

last_fragment-IsNextFragment : IsNextFragment midway last_fragment (124 ∷ 69 ∷ 4 ∷ 5 ∷ 0 ∷ [])
last_fragment-IsNextFragment = record {
  expecting = refl;
  in_order = refl;
  seq_fits = omega arith;
  here = refl;
  long = omega arith;
  own_type = refl;
  is_fragment = refl;
  reserved_clear = refl;
}

-- One byte more, and not the last.
abbrev middle_fragment : Packet
middle_fragment = record last_fragment { bytes = some (124 ∷ 5 ∷ 4 ∷ []); len = 3; marker = 0 }

middle_fragment-IsNextFragment : IsNextFragment midway middle_fragment (124 ∷ 5 ∷ 4 ∷ [])
middle_fragment-IsNextFragment = record {
  expecting = refl;
  in_order = refl;
  seq_fits = omega arith;
  here = refl;
  long = omega arith;
  own_type = refl;
  is_fragment = refl;
  reserved_clear = refl;
}

last_fragment-Carries : Carries last_fragment (4 ∷ 5 ∷ 0 ∷ []) keyframe 4 2
last_fragment-Carries = record { len = refl; inside = omega arith; same = refl }

middle_fragment-Carries : Carries middle_fragment (4 ∷ []) keyframe 4 1
middle_fragment-Carries = record { len = refl; inside = omega arith; same = refl }

receive-delivers_example :
    let (status, v', delivery) = Receiver.receive midway (some last_fragment) in
    (status ≡ Status.ok)
    × (delivery
        ≡ some (record {
          nal = keyframe;
          timestamp = 900;
          end_of_access_unit = 1;
          discontinuity = false;
        }))
receive-delivers_example =
    receive-delivers midway last_fragment (124 ∷ 69 ∷ 4 ∷ 5 ∷ 0 ∷ []) keyframe 4 2 refl
      last_fragment-IsNextFragment refl refl midway-Holds last_fragment-Carries refl

abbrev waiting : Video
waiting = record tiny { have_expected_seq = true; expected_seq = 65535 }

waiting-IsValid : IsValid waiting
waiting-IsValid = record {
  room = omega arith;
  size = refl;
  fits = omega arith;
  started = inl refl;
  addressable = omega arith;
}

first_fragment-IsNextFragment : IsNextFragment waiting first_fragment (124 ∷ 133 ∷ 1 ∷ 2 ∷ 3 ∷ [])
first_fragment-IsNextFragment = record {
  expecting = refl;
  in_order = refl;
  seq_fits = omega arith;
  here = refl;
  long = omega arith;
  own_type = refl;
  is_fragment = refl;
  reserved_clear = refl;
}

first_fragment-Carries : Carries first_fragment (1 ∷ 2 ∷ 3 ∷ []) keyframe 1 3
first_fragment-Carries = record { len = refl; inside = omega arith; same = refl }
