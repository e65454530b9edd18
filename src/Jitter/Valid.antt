-- ===== src/Jitter/Valid.antt =====
-- The representation invariant of the jitter buffer of src/audio/jitter.c.
use libmezia.Prelude.{
  ℕ, ◌+◌, ◌*◌, ◌%◌, ◌≤◌, ◌<◌, ◌≡◌, ◌≢◌, ◌⊎◌, inl, inr, refl, true, false, some, arith, length,
  length-set, length-copy_at, set, u16, u32, sub16, IsU16, IsU32, if◌then◌else◌, ◌==◌, Bool-cases,
  if_cases, is_null, bool_int, ltb, ◌||◌,
}
use libmezia.Types.{Status, Packet, Stats}
use libmezia.Rtp.{seq_before}
use libmezia.Jitter.{
  Slot, Jitter, slot_at, length-zero_frame, init, reset, fill_slot, fill, store, place, beyond,
  insert_started, insert_checked, insert, advance,
}
use libmezia.Jitter.Slots.{
  occupied_count, occupied_count-set, occupied_count-le, slot_at-set, slot_at-fresh,
}

-- An occupied slot: it stands at its sequence number's place, inside the window of `limit` frames
-- that starts at `first`, with the timestamp that the window gives that number.
pub record Holds (first start limit : ℕ) (i : ℕ) (s : Slot) : Type 0 where
  pub seq_fits : IsU16 s.seq
  pub home : s.seq % 8 ≡ i
  pub near : sub16 s.seq first < 8
  pub in_window : sub16 s.seq first < limit
  pub on_time : s.timestamp ≡ u32 (start + sub16 s.seq first * 960)
  pub len_pos : 1 ≤ s.len
  pub len_le : s.len ≤ 1275

abbrev pub SlotIsValid : Jitter → ℕ → Slot → Type 0
SlotIsValid j i s =
    (s.occupied ≡ false) ⊎ Holds j.expected_seq j.expected_timestamp j.max_frames i s

pub record IsValid (j : Jitter) : Type 0 where
  pub eight : length j.slots ≡ 8
  pub counted : j.count ≡ occupied_count j.slots
  pub seq_fits : IsU16 j.expected_seq
  pub timestamp_fits : IsU32 j.expected_timestamp
  pub room : 1 ≤ j.max_frames
  pub each : (i : ℕ) → SlotIsValid j i (slot_at j.slots i)
  pub arrays : (i : ℕ) → length (slot_at j.slots i).frame ≡ 1275

-- The fields of a packet fit their types, and its length is that of its bytes.
pub record IsWirePacket (p : Packet) : Type 0 where
  pub seq_fits : IsU16 p.seq
  pub timestamp_fits : IsU32 p.timestamp

pub init-IsValid :
    (target_frames max_frames : ℕ) → 1 ≤ max_frames → IsValid (init target_frames max_frames)
unfolding init
init-IsValid target_frames max_frames h = record {
  eight = refl;
  counted = refl;
  seq_fits = omega arith;
  timestamp_fits = omega arith;
  room = h;
  each = λ i. inl (rw (slot_at-fresh 8 i));
  arrays = λ i. rw (slot_at-fresh 8 i) length-zero_frame;
}

pub reset-IsValid :
    (j : Jitter) (p : Packet) (st : Stats)
    → 1 ≤ j.max_frames
    → IsWirePacket p
    → IsValid (reset j p st).0
unfolding reset
reset-IsValid j p st h w = record {
  eight = refl;
  counted = refl;
  seq_fits = w.seq_fits;
  timestamp_fits = w.timestamp_fits;
  room = h;
  each = λ i. inl (rw (slot_at-fresh 8 i));
  arrays = λ i. rw (slot_at-fresh 8 i) length-zero_frame;
}

-- The fill of a slot by a packet inside the window. The new count is right if it is one more for a
-- free slot.
fill-IsValid :
    (j : Jitter) (p : Packet) (count : ℕ)
    → IsValid j
    → IsWirePacket p
    → sub16 p.seq j.expected_seq < 8
    → sub16 p.seq j.expected_seq < j.max_frames
    → p.timestamp ≡ u32 (j.expected_timestamp + sub16 p.seq j.expected_seq * 960)
    → 1 ≤ p.len
    → p.len ≤ 1275
    → (slot_at j.slots (p.seq % 8)).occupied ≡ false
    → count ≡ j.count + 1
    → IsValid (fill j p count)
unfolding fill fill_slot
fill-IsValid j p count v w near inside on_time pos le free e = record {
  eight = rw length-set v.eight;
  counted = omega (
    arith,
    occupied_count-set j.slots (p.seq % 8) (fill_slot (slot_at j.slots (p.seq % 8)) p),
    free_int,
  );
  seq_fits = v.seq_fits;
  timestamp_fits = v.timestamp_fits;
  room = v.room;
  each = λ i. rw (written i) (elim (Bool-cases (i == p.seq % 8)) [
    | inl same ↦ rw same (
        inr (record {
          seq_fits = w.seq_fits;
          home = ground arith;
          near = near;
          in_window = inside;
          on_time = on_time;
          len_pos = pos;
          len_le = le;
        }))
    | inr other ↦ rw other (v.each i)
  ]);
  arrays = λ i. rw (written i) (elim (Bool-cases (i == p.seq % 8)) [
    | inl same ↦ rw (same, length-copy_at) (v.arrays (p.seq % 8))
    | inr other ↦ rw other (v.arrays i)
  ]);
}
  where
    written :
        (i : ℕ)
        → slot_at (set j.slots (p.seq % 8) (fill_slot (slot_at j.slots (p.seq % 8)) p)) i ≡ (
            if i == p.seq % 8 then fill_slot (slot_at j.slots (p.seq % 8)) p else slot_at j.slots i)
    written i = slot_at-set j.slots (p.seq % 8) i _ (omega (arith, v.eight))

    free_int : bool_int (slot_at j.slots (p.seq % 8)).occupied ≡ 0
    free_int = rw free

-- Two numbers of one window with one place are one number.
same_home :
    (first a b : ℕ)
    → IsU16 first
    → IsU16 a
    → IsU16 b
    → sub16 a first < 8
    → sub16 b first < 8
    → a % 8 ≡ b % 8
    → a ≡ b
same_home first a b hf ha hb na nb e = omega arith

-- In a valid buffer an occupied slot at a packet's place holds that packet's number: no frame in
-- the window is ever overwritten by another.
pub occupied-seq :
    (j : Jitter) (seq : ℕ)
    → IsValid j
    → IsU16 seq
    → sub16 seq j.expected_seq < 8
    → (slot_at j.slots (seq % 8)).occupied ≡ true
    → (slot_at j.slots (seq % 8)).seq ≡ seq
occupied-seq j seq v h near full = elim (v.each (seq % 8)) [
  | inl free ↦ cc
  | inr s ↦ same_home j.expected_seq _ seq v.seq_fits s.seq_fits h s.near near s.home
]

-- The buffer that an insertion leaves is valid.
abbrev After : Status × Jitter × Stats → Type 0
After t = IsValid t.1

module _ (j : Jitter) (p : Packet) (st : Stats) (w : IsWirePacket p) (pos : 1 ≤ p.len)
    (le : p.len ≤ 1275) where
  store-IsValid :
      IsValid j
      → sub16 p.seq j.expected_seq < 8
      → sub16 p.seq j.expected_seq < j.max_frames
      → p.timestamp ≡ u32 (j.expected_timestamp + sub16 p.seq j.expected_seq * 960)
      → IsValid (store j p st).1
  unfolding store
  store-IsValid v near inside on_time =
      if_cases After (slot_at j.slots (p.seq % 8)).occupied
        (λ full.
          if_cases After ((slot_at j.slots (p.seq % 8)).seq == p.seq) (λ _. v)
            (λ other. absurd (clash full other)))
        (λ free.
          fill-IsValid j p _ v w near inside on_time pos le free
            (omega (arith, v.counted, v.eight, occupied_count-le j.slots)))
    where
      clash :
          (slot_at j.slots (p.seq % 8)).occupied ≡ true
          → ((slot_at j.slots (p.seq % 8)).seq == p.seq) ≡ false
          → ⊥
      clash full other = ground (arith, occupied-seq j p.seq v w.seq_fits near full)

  place-IsValid :
      (distance : ℕ)
      → IsValid j
      → distance ≡ sub16 p.seq j.expected_seq
      → distance < 8
      → distance < j.max_frames
      → IsValid (place j p st distance).1
  unfolding place
  place-IsValid distance v e near inside =
      if_cases After (p.timestamp == u32 (j.expected_timestamp + u32 (distance * 960)))
        (λ on_time. store-IsValid v (omega arith) (omega arith) (ground arith)) (λ _. v)

module _ (p : Packet) (w : IsWirePacket p) (pos : 1 ≤ p.len) (le : p.len ≤ 1275) where
  insert_started-IsValid : (j : Jitter) (st : Stats) → IsValid j → IsValid (insert_started j p st).1
  unfolding insert_started
  insert_started-IsValid j st v =
      if_cases After (seq_before p.seq j.expected_seq) (λ _. v)
        (λ _.
          if_cases After (beyond j (sub16 p.seq j.expected_seq))
            (λ _.
              place-IsValid (reset j p st).0 p (reset j p st).1 w pos le 0
                (reset-IsValid j p st v.room w) (unfold reset in omega (arith, w.seq_fits))
                (omega arith) (unfold reset in v.room))
            (λ inside.
              place-IsValid j p st w pos le (sub16 p.seq j.expected_seq) v refl (ground arith)
                (ground arith)))

  insert_checked-IsValid : (j : Jitter) (st : Stats) → IsValid j → IsValid (insert_checked j p st).1
  unfolding insert_checked
  insert_checked-IsValid j st v =
      if_cases After j.initialized (λ _. insert_started-IsValid j st v)
        (λ _. insert_started-IsValid _ _ (reset-IsValid j p st v.room w))

-- Inserting any packet whose fields fit their types keeps a valid buffer valid: the count is that of the occupied
-- slots, and every occupied slot holds a frame of the window at its own place, with the timestamp
-- that belongs to its number.
pub insert-IsValid :
    (j : Jitter) (p : Packet) (st : Stats)
    → IsValid j
    → IsWirePacket p
    → IsValid (insert j (some p) st).1
unfolding insert
insert-IsValid j p st v w =
    if_cases After (is_null p.bytes || p.len == 0 || ltb 1275 p.len) (λ _. v)
      (λ fit. insert_checked-IsValid p w (ground arith) (ground arith) j st v)

-- A frame of the window that is not its first one is in the next window.
Holds-next :
    (first start limit i : ℕ) (s : Slot)
    → IsU16 first
    → Holds first start limit i s
    → s.seq ≢ first
    → Holds (u16 (first + 1)) (u32 (start + 960)) limit i s
Holds-next first start limit i s fits h ne = record {
  seq_fits = h.seq_fits;
  home = h.home;
  near = omega arith;
  in_window = omega arith;
  on_time = omega arith;
  len_pos = h.len_pos;
  len_le = h.len_le;
}

slot-next :
    (j : Jitter) (i : ℕ)
    → IsValid j
    → (slot_at j.slots (j.expected_seq % 8)).occupied ≡ false
    → SlotIsValid j i (slot_at j.slots i)
    → ((slot_at j.slots i).occupied ≡ false)
      ⊎ Holds
          (u16 (j.expected_seq + 1))
          (u32 (j.expected_timestamp + 960))
          j.max_frames
          i
          (slot_at j.slots i)
slot-next j i v free (inl out) = inl out
slot-next j i v free (inr h) = elim (Bool-cases (slot_at j.slots i).occupied) [
  | inl full ↦ inr (Holds-next _ _ _ i _ v.seq_fits h (λ e. clash e full))
  | inr out ↦ inl out
]
  where
    here : (slot_at j.slots i).seq ≡ j.expected_seq → j.expected_seq % 8 ≡ i
    here e = rw (← e) h.home

    clash : (slot_at j.slots i).seq ≡ j.expected_seq → (slot_at j.slots i).occupied ≡ true → ⊥
    clash e full = ground (arith, rw (here e) at free)

pub advance-IsValid :
    (j : Jitter)
    → IsValid j
    → (slot_at j.slots (j.expected_seq % 8)).occupied ≡ false
    → IsValid (advance j)
unfolding advance
advance-IsValid j v free =
    if_cases IsValid j.initialized
      (λ _. record {
        eight = v.eight;
        counted = v.counted;
        seq_fits = omega arith;
        timestamp_fits = omega arith;
        room = v.room;
        each = λ i. slot-next j i v free (v.each i);
        arrays = v.arrays;
      })
      (λ _. v)
