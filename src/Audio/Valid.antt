-- ===== src/Audio/Valid.antt =====
-- The invariant of the audio context of src/audio/audio.c, from creation through every operation.
use libmezia.Prelude.{
  ℕ, ◌≤◌, ◌<◌, ◌≡◌, inl, refl, subst, Option, some, Bool, true, arith, ltb, not, ◌||◌, ◌&&◌,
  if_cases, ◌==◌, IsU16, IsU32,
}
use libmezia.Types.{Status, Packet}
use libmezia.Bitrate.Range
use libmezia.Bitrate.Range.{update-IsValid}
use libmezia.Rtp.{seq_before}
use libmezia.Jitter.Valid
use libmezia.Jitter.Valid.{IsWirePacket, insert-IsValid, init-IsValid}
use libmezia.Feedback.{Feedback}
use libmezia.Audio.{Audio, AudioConfig, with_defaults, config_fits, fresh, create}
use libmezia.Audio.Receiver.{receive, track_receiver_packet, submit_receiver_report}
use libmezia.Audio.Report.{IsTracking, track-IsTracking}

pub record IsValid (a : Audio) : Type 0 where
  pub rates : Range.IsValid a.controller
  pub buffer : Valid.IsValid a.jitter
  pub tracking : IsTracking a
  pub room : 14 < a.config.mtu
  pub type_fits : a.config.payload_type < 128
  pub seq_fits : IsU16 a.next_seq
  pub timestamp_fits : IsU32 a.next_timestamp
  pub few_plc : a.consecutive_plc ≤ 6

fresh-IsValid : (c : AudioConfig) → config_fits c ≡ true → IsValid (fresh (with_defaults c))
unfolding fresh config_fits
fresh-IsValid c fits = record {
  rates = Range.init-IsValid _ _ _ (ground arith) (ground arith) (ground arith) (ground arith);
  buffer = init-IsValid _ _ (ground arith);
  tracking = (inl refl, omega arith);
  room = ground arith;
  type_fits = ground arith;
  seq_fits = omega arith;
  timestamp_fits = omega arith;
  few_plc = omega arith;
}

create-fresh :
    {S : Type 0} (c : AudioConfig) (calloc_ok : Bool) (codec : ℕ → Option S) (a : Audio) (s : S)
    → create (some c) calloc_ok codec ≡ some (a, s)
    → (config_fits c ≡ true) × (fresh (with_defaults c) ≡ a)
unfolding create
create-fresh c calloc_ok codec a s e = ground arith

-- A context that `mezon_audio_create` returns is valid, whatever the configuration.
pub create-IsValid :
    {S : Type 0} (c : AudioConfig) (calloc_ok : Bool) (codec : ℕ → Option S) (a : Audio) (s : S)
    → create (some c) calloc_ok codec ≡ some (a, s)
    → IsValid a
create-IsValid c calloc_ok codec a s e =
    let made = create-fresh c calloc_ok codec a s e in subst IsValid made.1 (fresh-IsValid c made.0)

track-keeps :
    (a : Audio) (p : Packet)
    → ((track_receiver_packet a p).config ≡ a.config)
      × ((track_receiver_packet a p).controller ≡ a.controller)
      × ((track_receiver_packet a p).jitter ≡ a.jitter)
      × ((track_receiver_packet a p).next_seq ≡ a.next_seq)
      × ((track_receiver_packet a p).next_timestamp ≡ a.next_timestamp)
      × ((track_receiver_packet a p).consecutive_plc ≡ a.consecutive_plc)
unfolding track_receiver_packet
track-keeps a p = ground arith

-- The fields that the invariant reads, but for the jitter buffer and the concealment count.
abbrev pub Same : Audio → Audio → Type 0
Same a b =
    (b.controller ≡ a.controller)
    × (b.config ≡ a.config)
    × (b.report_initialized ≡ a.report_initialized)
    × (b.report_base_seq ≡ a.report_base_seq)
    × (b.report_highest_seq ≡ a.report_highest_seq)
    × (b.report_seen_mask ≡ a.report_seen_mask)
    × (b.next_report_seq ≡ a.next_report_seq)
    × (b.next_seq ≡ a.next_seq)
    × (b.next_timestamp ≡ a.next_timestamp)

pub same-IsValid :
    (a b : Audio)
    → Same a b
    → Valid.IsValid b.jitter
    → b.consecutive_plc ≤ 6
    → IsValid a
    → IsValid b
same-IsValid a b e buffer few v = record {
  rates = rw e.0 v.rates;
  buffer = buffer;
  tracking = (rw (e.2, e.3, e.4, e.5) v.tracking.0, rw e.6 v.tracking.1);
  room = rw e.1 v.room;
  type_fits = rw e.1 v.type_fits;
  seq_fits = rw e.7 v.seq_fits;
  timestamp_fits = rw e.8 v.timestamp_fits;
  few_plc = few;
}

abbrev Fine : Status × Audio → Type 0
Fine t = IsValid t.1

-- A received packet, of this payload type or another, keeps a valid context valid, if its fields fit
-- their types.
pub receive-IsValid :
    (a : Audio) (p : Packet) → IsWirePacket p → IsValid a → IsValid (receive a (some p)).1
unfolding receive
receive-IsValid a p w v =
    let kept = track-keeps a p in
    let tracked = track_receiver_packet a p in
    if_cases Fine (not (p.payload_type == a.config.payload_type)) (λ _. v)
      (λ _. record {
        rates = rw kept.1 v.rates;
        buffer = insert-IsValid tracked.jitter p tracked.stats (rw kept.2 v.buffer) w;
        tracking = track-IsTracking a p w.seq_fits v.tracking;
        room = rw kept.0 v.room;
        type_fits = rw kept.0 v.type_fits;
        seq_fits = rw kept.3 v.seq_fits;
        timestamp_fits = rw kept.4 v.timestamp_fits;
        few_plc = rw kept.5 v.few_plc;
      })

-- A report from the peer, taken or refused, keeps a valid context valid.
pub submit-IsValid :
    (a : Audio) (f : Feedback) (arrival_time_ns : ℕ)
    → IsValid a
    → IsValid (submit_receiver_report a (some f) arrival_time_ns).1
unfolding submit_receiver_report
submit-IsValid a f arrival_time_ns v =
    if_cases Fine
      (not a.adaptation_enabled
        || f.expected == 0
        || ltb f.expected f.received
        || not (f.media_ssrc == a.config.ssrc))
      (λ _. v)
      (λ _.
        if_cases Fine (a.have_feedback_seq && not (seq_before a.last_feedback_seq f.report_seq))
          (λ _. same-IsValid a _ (ground arith) v.buffer v.few_plc v)
          (λ _. same-IsValid a _ (ground arith) v.buffer v.few_plc v))
