-- ===== src/Jitter/Playout.antt =====
-- Taking frames out of the buffer of src/audio/jitter.c keeps it valid.
use libmezia.Prelude.{
  ℕ, ◌%◌, ◌<◌, ◌≡◌, inl, inr, refl, Bool, true, false, Option, some, arith, length-set, sub64,
  if◌then◌else◌, ◌==◌, Bool-cases, if_cases, equal, not, ◌||◌, set,
}
use libmezia.Jitter.{Slot, Jitter, Frame, slot_at, copy, ready, advance}
use libmezia.Jitter.Slots.{occupied_count-set, occupied_count-pos, occupied_count-le, slot_at-set}
use libmezia.Jitter.Valid.{IsValid, occupied-seq, advance-IsValid}

module _ (j : Jitter) (i : ℕ) (v : IsValid j) (low : i < 8) where
  freed : Slot
  freed = record (slot_at j.slots i) { occupied = false }

  written :
      (k : ℕ) → slot_at (set j.slots i freed) k ≡ (if k == i then freed else slot_at j.slots k)
  written k = slot_at-set j.slots i k freed (omega (arith, v.eight))

  -- Freeing an occupied slot, with the count one less.
  free-IsValid :
      (slot_at j.slots i).occupied ≡ true
      → IsValid (record j { slots = set j.slots i freed; count = sub64 j.count 1 })
  unfolding freed
  free-IsValid full = record {
    eight = rw length-set v.eight;
    counted = ground (
      arith,
      v.counted,
      v.eight,
      occupied_count-pos j.slots i full,
      occupied_count-le j.slots,
      occupied_count-set j.slots i freed,
    );
    seq_fits = v.seq_fits;
    timestamp_fits = v.timestamp_fits;
    room = v.room;
    each = λ k. rw (written k) (elim (Bool-cases (k == i)) [
      | inl same ↦ rw same (inl refl)
      | inr other ↦ rw other (v.each k)
    ]);
    arrays = λ k. rw (written k) (elim (Bool-cases (k == i)) [
      | inl same ↦ rw same (v.arrays i)
      | inr other ↦ rw other (v.arrays k)
    ]);
  }

-- Copying a frame out, removed or not, keeps the buffer valid.
pub copy-IsValid :
    (j : Jitter) (seq : ℕ) (remove : Bool) → IsValid j → IsValid (copy j seq remove).1
unfolding copy freed
copy-IsValid j seq remove v =
    if_cases (λ (t : Option Frame × Jitter). IsValid t.1)
      (not (slot_at j.slots (seq % 8)).occupied || not ((slot_at j.slots (seq % 8)).seq == seq))
      (λ _. v)
      (λ found.
        if_cases IsValid remove (λ _. free-IsValid j (seq % 8) v (omega arith) (ground arith))
          (λ _. v))

-- After the frame that is expected has been taken, or was missing, its slot is free.
pub copy-frees :
    (j : Jitter) (seq : ℕ)
    → IsValid j
    → seq ≡ j.expected_seq
    → (slot_at (copy j seq true).1.slots (seq % 8)).occupied ≡ false
unfolding copy
copy-frees j seq v e =
    if_cases (λ (t : Option Frame × Jitter). (slot_at t.1.slots (seq % 8)).occupied ≡ false)
      (not (slot_at j.slots (seq % 8)).occupied || not ((slot_at j.slots (seq % 8)).seq == seq))
      (λ missing. elim (Bool-cases (slot_at j.slots (seq % 8)).occupied) [
        | inl full ↦ absurd (clash full missing)
        | inr free ↦ free
      ])
      (λ _.
        rw (slot_at-set j.slots (seq % 8) (seq % 8) _ (omega (arith, v.eight)), equal (seq % 8)))
  where
    clash :
        (slot_at j.slots (seq % 8)).occupied ≡ true
        → (not (slot_at j.slots (seq % 8)).occupied || not ((slot_at j.slots (seq % 8)).seq == seq))
          ≡ true
        → ⊥
    clash full missing =
        ground (arith, occupied-seq j seq v (rw e v.seq_fits) (omega (arith, e)) full)

pub copy-keeps_window :
    (j : Jitter) (seq : ℕ) (remove : Bool)
    → ((copy j seq remove).1.expected_seq ≡ j.expected_seq)
      × ((copy j seq remove).1.expected_timestamp ≡ j.expected_timestamp)
      × ((copy j seq remove).1.max_frames ≡ j.max_frames)
unfolding copy
copy-keeps_window j seq remove = ground arith

-- A copy that does not remove changes nothing.
pub copy-kept : (j : Jitter) (seq : ℕ) → (copy j seq false).1 ≡ j
unfolding copy
copy-kept j seq = ground arith

-- In a valid buffer the frame of the expected number carries the expected timestamp.
pub copy-on_time :
    (j : Jitter) (remove : Bool) (f : Frame)
    → IsValid j
    → (copy j j.expected_seq remove).0 ≡ some f
    → f.timestamp ≡ j.expected_timestamp
unfolding copy
copy-on_time j remove f v e = elim (v.each (j.expected_seq % 8)) [
  | inl free ↦ ground (arith, v.timestamp_fits, v.seq_fits)
  | inr s ↦ ground (arith, v.timestamp_fits, v.seq_fits, s.on_time)
]

pub ready-keeps_window :
    (j : Jitter) (now_ns : ℕ)
    → ((ready j now_ns).1.expected_seq ≡ j.expected_seq)
      × ((ready j now_ns).1.expected_timestamp ≡ j.expected_timestamp)
unfolding ready
ready-keeps_window j now_ns = ground arith

pub ready-initialized :
    (j : Jitter) (now_ns : ℕ) → (ready j now_ns).0 ≡ true → (ready j now_ns).1.initialized ≡ true
unfolding ready
ready-initialized j now_ns h = ground arith

pub copy-initialized :
    (j : Jitter) (seq : ℕ) (remove : Bool) → (copy j seq remove).1.initialized ≡ j.initialized
unfolding copy
copy-initialized j seq remove = ground arith

started-IsValid : (j : Jitter) → IsValid j → IsValid (record j { started = true })
started-IsValid j v = record {
  eight = v.eight;
  counted = v.counted;
  seq_fits = v.seq_fits;
  timestamp_fits = v.timestamp_fits;
  room = v.room;
  each = v.each;
  arrays = v.arrays;
}

abbrev After : Bool × Jitter → Type 0
After t = IsValid t.1

pub ready-IsValid : (j : Jitter) (now_ns : ℕ) → IsValid j → IsValid (ready j now_ns).1
unfolding ready
ready-IsValid j now_ns v =
    if_cases After (not j.initialized) (λ _. v)
      (λ _.
        if_cases After j.started (λ _. v)
          (λ _. if_cases After _ (λ _. started-IsValid j v) (λ _. v)))

-- One tick of playout takes the expected frame, removed if it is there, and moves the window on.
-- That keeps a valid buffer valid.
pub advance-copy-IsValid :
    (j : Jitter) → IsValid j → IsValid (advance (copy j j.expected_seq true).1)
advance-copy-IsValid j v =
    let j' = (copy j j.expected_seq true).1 in
    let free = copy-frees j j.expected_seq v refl in
    advance-IsValid j' (copy-IsValid j j.expected_seq true v)
      (rw (copy-keeps_window j j.expected_seq true).0 free)
