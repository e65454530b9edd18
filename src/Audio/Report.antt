-- ===== src/Audio/Report.antt =====
-- The loss reports of src/audio/audio.c: what a receiver counts, and what a sender takes.
use libmezia.Prelude.{
  ℕ, zero, suc, ◌+◌, ◌-◌, ◌/◌, ◌^◌, ◌≤◌, ◌<◌, ◌≡◌, ◌≢◌, ◌⊎◌, inl, inr, some, true, false, arith,
  bit_or, ltb, ◌==◌, if◌then◌else◌, not, ◌||◌, if_cases, u16, u64, sub16, IsU16,
}
use libmezia.Prelude.Bits.{bit_or-lt, le-bit_or, bit_and-one, pow_mono}
use native.Mathlib.Nat.{pow-suc}
use libmezia.Types.{Status, Packet}
use libmezia.Rtp.{seq_before}
use libmezia.Feedback.{Feedback}
use libmezia.Audio.{Audio}
use libmezia.Audio.Receiver.{
  track_receiver_packet, count_bits, take_receiver_report, submit_receiver_report,
}

count_bits-bounds : (fuel k value : ℕ) → value < 2 ^ k → k ≤ fuel → count_bits fuel value ≤ k
unfolding count_bits
count_bits-bounds zero k value h le = omega arith
count_bits-bounds (suc fuel) zero zero h le = omega arith
count_bits-bounds (suc fuel) zero (suc value) h le = absurd (omega arith)
count_bits-bounds (suc fuel) (suc k) value h le = ground (
  arith,
  bit_and-one value,
  count_bits-bounds fuel k (value / 2) (omega (arith, pow-suc 2 k)) (omega arith),
)

count_bits-pos : (fuel value : ℕ) → 1 ≤ value → value < 2 ^ fuel → 1 ≤ count_bits fuel value
unfolding count_bits
count_bits-pos zero value pos h = absurd (omega arith)
count_bits-pos (suc fuel) value pos h =
    ground (arith, bit_and-one value, pow-suc 2 fuel, count_bits-pos fuel (value / 2))

-- What the receiver has counted since its last report: the numbers seen lie from the base to the
-- highest, at most 63 apart.
pub record IsCounting (base highest mask : ℕ) : Type 0 where
  pub base_fits : IsU16 base
  pub highest_fits : IsU16 highest
  pub near : sub16 highest base < 64
  pub some_seen : 1 ≤ mask
  pub seen : mask < 2 ^ suc (sub16 highest base)

abbrev pub IsTracking : Audio → Type 0
IsTracking a =
    ((a.report_initialized ≡ false)
      ⊎ IsCounting a.report_base_seq a.report_highest_seq a.report_seen_mask)
    × IsU16 a.next_report_seq

-- One more bit, at a distance inside the new span.
seen_more :
    (mask old d new : ℕ)
    → mask < 2 ^ suc old
    → d < 64
    → old ≤ new
    → d ≤ new
    → bit_or mask (u64 (2 ^ d)) < 2 ^ suc new
seen_more mask old d new h near le_old le_d =
    let whole : u64 (2 ^ d) ≡ 2 ^ d = omega (arith, pow_mono d 63 (omega arith)) in
    rw whole (
      bit_or-lt (suc new) mask (2 ^ d) (omega (arith, pow_mono (suc old) (suc new) (omega arith)))
        (omega (arith, pow-suc 2 new, pow_mono 0 new (omega arith), pow_mono d new le_d)))

-- The highest number after one more is seen.
abbrev highest_of : ℕ → ℕ → ℕ
highest_of highest seq = if seq_before highest seq then seq else highest

highest_of-span :
    (base highest seq : ℕ)
    → IsU16 base
    → IsU16 highest
    → IsU16 seq
    → sub16 highest base < 64
    → sub16 seq base < 64
    → IsU16 (highest_of highest seq)
      × (sub16 (highest_of highest seq) base < 64)
      × (sub16 highest base ≤ sub16 (highest_of highest seq) base)
      × (sub16 seq base ≤ sub16 (highest_of highest seq) base)
unfolding seq_before
highest_of-span base highest seq hb hh hs nh ns = ground arith

IsCounting-more :
    (base highest mask seq : ℕ)
    → IsU16 seq
    → IsCounting base highest mask
    → sub16 seq base < 64
    → IsCounting base (highest_of highest seq) (bit_or mask (u64 (2 ^ sub16 seq base)))
IsCounting-more base highest mask seq fits c near =
    let span = highest_of-span base highest seq c.base_fits c.highest_fits fits c.near near in
    record {
      base_fits = c.base_fits;
      highest_fits = span.0;
      near = span.1;
      some_seen = omega (arith, c.some_seen, le-bit_or mask (u64 (2 ^ sub16 seq base)));
      seen = seen_more mask _ _ _ c.seen near span.2 span.3;
    }

first_seen : (seq : ℕ) → IsU16 seq → IsCounting seq seq 1
first_seen seq fits = record {
  base_fits = fits;
  highest_fits = fits;
  near = omega arith;
  some_seen = omega arith;
  seen = omega (arith, pow-suc 2 (sub16 seq seq), pow_mono 0 (sub16 seq seq) (omega arith));
}

-- Whatever packet with a 16-bit number arrives, consistent counting stays so: no number is marked
-- beyond the highest.
pub track-IsTracking :
    (a : Audio) (p : Packet) → IsU16 p.seq → IsTracking a → IsTracking (track_receiver_packet a p)
unfolding track_receiver_packet
track-IsTracking a p fits t =
    if_cases IsTracking (not a.adaptation_enabled) (λ _. t)
      (λ _.
        if_cases IsTracking (not a.report_initialized || not (p.ssrc == a.report_ssrc))
          (λ _. (inr (first_seen p.seq fits), t.1))
          (λ running.
            if_cases IsTracking (ltb (sub16 p.seq a.report_base_seq) 64)
              (λ near. (more (ground arith), t.1)) (λ _. t)))
  where
    more :
        sub16 p.seq a.report_base_seq < 64
        → (a.report_initialized ≡ false)
          ⊎ IsCounting a.report_base_seq
              (highest_of a.report_highest_seq p.seq)
              (bit_or a.report_seen_mask (u64 (2 ^ sub16 p.seq a.report_base_seq)))
    more near = elim t.0 [
      | inl off ↦ inl off
      | inr c ↦ inr (IsCounting-more _ _ _ p.seq fits c near)
    ]

-- From consistent counting, the report that a receiver takes is one that the wire format accepts: some packets expected, at
-- most 64, and no more received than expected. After it the counting is consistent still.
pub take_receiver_report-IsReport :
    (a a' : Audio) (now_ns : ℕ) (f g : Feedback)
    → IsTracking a
    → take_receiver_report a now_ns (some f) ≡ (true, a', some g)
    → (1 ≤ g.received)
      × (g.received ≤ g.expected)
      × (g.expected ≤ 64)
      × (g.report_seq ≡ a.next_report_seq)
      × (a'.next_report_seq ≡ u16 (a.next_report_seq + 1))
      × IsTracking a'
unfolding take_receiver_report
take_receiver_report-IsReport a a' now_ns f g t e = elim t.0 [
  | inl off ↦ absurd (ground arith)
  | inr c ↦
      let span : ℕ = sub16 a.report_highest_seq a.report_base_seq in
      let most =
        count_bits-bounds 64 (suc span) a.report_seen_mask c.seen (omega (arith, c.near)) in
      let least =
        count_bits-pos 64 a.report_seen_mask c.some_seen
          (omega (arith, c.seen, pow_mono (suc span) 64 (omega (arith, c.near)))) in
      (
        ground (arith, least),
        ground (arith, most, c.near),
        ground (arith, c.near),
        ground arith,
        ground arith,
        (inl (ground arith), ground arith),
      )
]

not_ahead :
    (s t back : ℕ) → IsU16 s → back ≤ 32767 → t ≡ u16 (s + 65536 - back) → seq_before s t ≡ false
unfolding seq_before
not_ahead s t back fits near number = ground arith

-- After a report with a 16-bit number was taken, the next report that is handed in is refused
-- if it has this number or one of the 32767 before it, counted round the end of the 16 bits,
-- whatever else is in it and at whatever time: the report that was taken stays the one to act
-- on, with its time and its number.
pub submit_receiver_report-older :
    (a : Audio) (f g : Feedback) (arrival_time_ns later_ns back : ℕ)
    → IsU16 f.report_seq
    → back ≤ 32767
    → g.report_seq ≡ u16 (f.report_seq + 65536 - back)
    → (submit_receiver_report a (some f) arrival_time_ns).0 ≡ Status.ok
    → let a' = (submit_receiver_report a (some f) arrival_time_ns).1 in
      let (status, a'') = submit_receiver_report a' (some g) later_ns in
      (status ≢ Status.ok)
      × (a''.pending_feedback ≡ f)
      × (a''.pending_feedback_time_ns ≡ arrival_time_ns)
      × (a''.last_feedback_seq ≡ f.report_seq)
unfolding submit_receiver_report
submit_receiver_report-older a f g arrival_time_ns later_ns back fits near number taken =
    let old : seq_before f.report_seq g.report_seq ≡ false =
      not_ahead f.report_seq g.report_seq back fits near number in
    ground (arith, old)

-- A report that is refused, for whatever reason, leaves what the next frame will act on as it was.
pub submit_refused :
    (a : Audio) (f : Feedback) (arrival_time_ns : ℕ)
    → (submit_receiver_report a (some f) arrival_time_ns).0 ≢ Status.ok
    → let a' = (submit_receiver_report a (some f) arrival_time_ns).1 in
      (a'.pending_feedback ≡ a.pending_feedback)
      × (a'.feedback_pending ≡ a.feedback_pending)
      × (a'.last_feedback_seq ≡ a.last_feedback_seq)
      × (a'.last_feedback_time_ns ≡ a.last_feedback_time_ns)
      × (a'.controller ≡ a.controller)
unfolding submit_receiver_report
submit_refused a f arrival_time_ns refused = ground arith
