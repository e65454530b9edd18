-- ===== src/Tests/Buffer.antt =====
-- src/audio/jitter.c at fixed inputs.
use libmezia.Prelude.{◌≡◌, refl, [], ◌∷◌, none, some, true, ◌==◌, if◌then◌else◌, arith}
use libmezia.Types.{Status, Packet, zero_packet, zero_stats, payload}
use libmezia.Rtp
use libmezia.Jitter
use libmezia.Jitter.{Jitter, Frame, copy, ready, advance}
use libmezia.Jitter.Valid.{IsValid, IsWirePacket, init-IsValid, insert-IsValid}
use libmezia.Jitter.Lookup.{held, IsTimely, held-insert}
use libmezia.Jitter.Start.{ready_by_deadline, insert_each}

abbrev first_packet : Packet
first_packet = record zero_packet {
  bytes = some (1 ∷ 2 ∷ 3 ∷ []);
  len = 3;
  timestamp = 4294966816;
  seq = 65535;
  arrival_time_ns = 5;
  payload_type = 96;
}

-- The next number, past the end of both counters.
abbrev second_packet : Packet
second_packet = record zero_packet {
  bytes = some (4 ∷ 5 ∷ []);
  len = 2;
  timestamp = 480;
  seq = 0;
  arrival_time_ns = 6;
  payload_type = 96;
}

abbrev empty : Jitter
empty = Jitter.init 3 8

abbrev one_frame : Jitter
one_frame = (Jitter.insert empty (some first_packet) zero_stats).1

first_fits : IsWirePacket first_packet
first_fits = omega arith

empty-IsValid : IsValid empty
empty-IsValid = init-IsValid 3 8 (omega arith)

one_frame-IsValid : IsValid one_frame
one_frame-IsValid = insert-IsValid empty first_packet zero_stats empty-IsValid first_fits

insert-IsValid_example : IsValid (Jitter.insert empty (some first_packet) zero_stats).1
insert-IsValid_example = insert-IsValid empty first_packet zero_stats empty-IsValid first_fits

second-IsTimely : IsTimely one_frame second_packet (4 ∷ 5 ∷ [])
unfolding Jitter.insert Jitter.insert_checked Jitter.insert_started Jitter.place Jitter.store
    Jitter.fill Jitter.reset Jitter.init Rtp.seq_before
second-IsTimely = record {
  running = refl;
  wire = omega arith;
  here = refl;
  enough = omega arith;
  len_pos = omega arith;
  len_le = omega arith;
  near = omega arith;
  in_window = omega arith;
  on_time = refl;
}

second_absent : held one_frame 0 ≡ none
unfolding Jitter.copy Jitter.insert Jitter.insert_checked Jitter.insert_started Jitter.place
    Jitter.store Jitter.fill Jitter.fill_slot Jitter.reset Jitter.init Rtp.seq_before
second_absent = refl

abbrev first_frame : Frame
first_frame = record { bytes = 1 ∷ 2 ∷ 3 ∷ []; len = 3; timestamp = 4294966816; marker = 0 }

first_held : held one_frame 65535 ≡ some first_frame
unfolding Jitter.copy Jitter.insert Jitter.insert_checked Jitter.insert_started Jitter.place
    Jitter.store Jitter.fill Jitter.fill_slot Jitter.reset Jitter.init Rtp.seq_before
    Jitter.zero_frame
first_held = refl

first-IsTimely : IsTimely one_frame first_packet (1 ∷ 2 ∷ 3 ∷ [])
unfolding Jitter.insert Jitter.insert_checked Jitter.insert_started Jitter.place Jitter.store
    Jitter.fill Jitter.reset Jitter.init Rtp.seq_before
first-IsTimely = record {
  running = refl;
  wire = omega arith;
  here = refl;
  enough = omega arith;
  len_pos = omega arith;
  len_le = omega arith;
  near = omega arith;
  in_window = omega arith;
  on_time = refl;
}

held-insert_example :
    let (s, j', st') = Jitter.insert one_frame (some second_packet) zero_stats in
    (s ≡ Status.ok)
    × (st' ≡ zero_stats)
    × (held j' 0 ≡ (
        if 0 == second_packet.seq
        then some (record { bytes = payload second_packet; len = 2; timestamp = 480; marker = 0 })
        else held one_frame 0))
held-insert_example =
    held-insert one_frame second_packet zero_stats (4 ∷ 5 ∷ []) 0 one_frame-IsValid second-IsTimely
      second_absent

expected_held : (copy one_frame one_frame.expected_seq true).0 ≡ some first_frame
unfolding Jitter.copy Jitter.insert Jitter.insert_checked Jitter.insert_started Jitter.place
    Jitter.store Jitter.fill Jitter.fill_slot Jitter.reset Jitter.init Rtp.seq_before
    Jitter.zero_frame
expected_held = refl

first_taken : (Jitter.insert empty (some first_packet) zero_stats).0 ≡ Status.ok
unfolding Jitter.insert Jitter.insert_checked Jitter.insert_started Jitter.reset Jitter.place
    Jitter.store Jitter.init Jitter.fill Rtp.seq_before
first_taken = refl

ready_by_deadline_example :
    let (status, j, after) = Jitter.insert empty (some first_packet) zero_stats in
    (ready (insert_each (second_packet ∷ []) j after) 60000006).0 ≡ true
ready_by_deadline_example =
    ready_by_deadline 3 8 60000006 first_packet (second_packet ∷ []) zero_stats first_taken
      (
        record { some_time = omega arith; passed = omega arith },
        (record { some_time = omega arith; passed = omega arith }, tt),
      )
      (omega arith)
