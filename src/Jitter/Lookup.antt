-- ===== src/Jitter/Lookup.antt =====
-- The jitter buffer of src/audio/jitter.c as a finite map from sequence numbers to frames.
use libmezia.Prelude.{
  ℕ, ◌+◌, ◌*◌, ◌%◌, ◌≤◌, ◌<◌, ◌≡◌, ◌∙◌, inl, inr, refl, ap, sym, Bool, true, false, Option, none,
  some, List, arith, length, length-take, take-copy_at, sub16, u32, u64, inc64, if◌then◌else◌, ◌==◌,
  Bool-cases, if_true, if_false, ==_iff, not, ◌||◌, set, take, copy_at, is_null, ltb, IsU16,
}
use libmezia.Types.{Status, Packet, Stats, payload}
use libmezia.Rtp.{seq_before}
use libmezia.Jitter.{
  Slot, Jitter, Frame, slot_at, copy, fill, fill_slot, store, place, insert, insert_started,
  insert_checked, beyond,
}
use libmezia.Jitter.Slots.{slot_at-set}
use libmezia.Jitter.Valid.{IsValid, IsWirePacket, occupied-seq}

-- The frame that the buffer holds for a number.
abbrev pub held : Jitter → ℕ → Option Frame
held j seq = (copy j seq false).0

-- A packet that belongs in the window of a running buffer.
pub record IsTimely (j : Jitter) (p : Packet) (content : List ℕ) : Type 0 where
  pub running : j.initialized ≡ true
  pub wire : IsWirePacket p
  pub here : p.bytes ≡ some content
  pub enough : p.len ≤ length content
  pub len_pos : 1 ≤ p.len
  pub len_le : p.len ≤ 1275
  pub near : sub16 p.seq j.expected_seq < 8
  pub in_window : sub16 p.seq j.expected_seq < j.max_frames
  pub on_time : p.timestamp ≡ u32 (j.expected_timestamp + sub16 p.seq j.expected_seq * 960)

insert-timely :
    (j : Jitter) (p : Packet) (st : Stats) (content : List ℕ)
    → IsTimely j p content
    → insert j (some p) st ≡ store j p st
unfolding insert insert_checked insert_started place
insert-timely j p st content t =
    if_false (is_null p.bytes || p.len == 0 || ltb 1275 p.len) _ (rw t.here (ground arith))
    ∙ if_true j.initialized _ t.running
    ∙ if_false (seq_before p.seq j.expected_seq) _ (unfold seq_before in ground arith)
    ∙ if_false (beyond j (sub16 p.seq j.expected_seq)) _ (ground arith)
    ∙ if_true (p.timestamp == u32 (j.expected_timestamp + u32 (sub16 p.seq j.expected_seq * 960))) _
        (ground arith)

-- A number with no frame has a free slot.
free_slot :
    (j : Jitter) (seq : ℕ)
    → IsValid j
    → IsU16 seq
    → sub16 seq j.expected_seq < 8
    → held j seq ≡ none
    → (slot_at j.slots (seq % 8)).occupied ≡ false
unfolding copy
free_slot j seq v fits near absent = elim (Bool-cases (slot_at j.slots (seq % 8)).occupied) [
  | inl full ↦ absurd (ground (arith, occupied-seq j seq v fits near full))
  | inr free ↦ free
]

-- What one slot holds for a number.
view : Slot → ℕ → Option Frame
view s seq =
    if not s.occupied || not (s.seq == seq)
    then none
    else some (record {
      bytes = take s.len s.frame;
      len = s.len;
      timestamp = s.timestamp;
      marker = s.marker;
    })

held-view : (j : Jitter) (seq : ℕ) → held j seq ≡ view (slot_at j.slots (seq % 8)) seq
unfolding copy view
held-view j seq = ground arith

view-free : (s : Slot) (seq : ℕ) → s.occupied ≡ false → view s seq ≡ none
unfolding view
view-free s seq free = ground arith

view-fill :
    (s : Slot) (p : Packet) (k : ℕ)
    → length s.frame ≡ 1275
    → p.len ≤ 1275
    → length (payload p) ≡ p.len
    → view (fill_slot s p) k ≡ (
        if k == p.seq
        then some
            (record { bytes = payload p; len = p.len; timestamp = p.timestamp; marker = p.marker })
        else none)
unfolding view fill_slot
view-fill s p k whole le size = ground (arith, read_back)
  where
    read_back : take p.len (copy_at s.frame 0 (payload p)) ≡ payload p
    read_back = rw size at (take-copy_at s.frame (payload p) (omega (arith, size, whole)))

held-fill :
    (j : Jitter) (p : Packet) (count k : ℕ)
    → IsValid j
    → p.len ≤ 1275
    → length (payload p) ≡ p.len
    → (slot_at j.slots (p.seq % 8)).occupied ≡ false
    → held (fill j p count) k ≡ (
        if k == p.seq
        then some
            (record { bytes = payload p; len = p.len; timestamp = p.timestamp; marker = p.marker })
        else held j k)
unfolding fill
held-fill j p count k v le size free =
    held-view (fill j p count) k
    ∙ ap (λ s. view s k) (written (k % 8))
    ∙ elim (Bool-cases (k % 8 == p.seq % 8)) [
      | inl same ↦ if_same same
      | inr other ↦ if_other other
    ]
  where
    new : Slot
    new = fill_slot (slot_at j.slots (p.seq % 8)) p

    written :
        (i : ℕ)
        → slot_at (set j.slots (p.seq % 8) new) i
          ≡ (if i == p.seq % 8 then new else slot_at j.slots i)
    written i = slot_at-set j.slots (p.seq % 8) i new (omega (arith, v.eight))

    frame : Frame
    frame = record { bytes = payload p; len = p.len; timestamp = p.timestamp; marker = p.marker }

    gone : (k % 8 == p.seq % 8) ≡ true → held j k ≡ none
    gone same = held-view j k ∙ view-free _ k (rw ((==_iff (k % 8) (p.seq % 8)).0 same) free)

    if_same :
        (k % 8 == p.seq % 8) ≡ true
        → view (if k % 8 == p.seq % 8 then new else slot_at j.slots (k % 8)) k
          ≡ (if k == p.seq then some frame else held j k)
    if_same same =
        ap (λ (b : Bool). view (if b then new else slot_at j.slots (k % 8)) k) same
        ∙ view-fill (slot_at j.slots (p.seq % 8)) p k (v.arrays (p.seq % 8)) le size
        ∙ ap (λ (h : Option Frame). if k == p.seq then some frame else h) (sym (gone same))

    if_other :
        (k % 8 == p.seq % 8) ≡ false
        → view (if k % 8 == p.seq % 8 then new else slot_at j.slots (k % 8)) k
          ≡ (if k == p.seq then some frame else held j k)
    if_other other =
        ap (λ (b : Bool). view (if b then new else slot_at j.slots (k % 8)) k) other
        ∙ sym (held-view j k)
        ∙ sym (if_false (k == p.seq) _ (ground arith))

store-free :
    (j : Jitter) (p : Packet) (st : Stats)
    → (slot_at j.slots (p.seq % 8)).occupied ≡ false
    → store j p st ≡ (Status.ok, fill j p (u64 (j.count + 1)), st)
unfolding store
store-free j p st free = if_false (slot_at j.slots (p.seq % 8)).occupied _ free

-- A timely packet whose number has no frame yet is taken: the call succeeds, changes no counter,
-- and from then on the buffer holds the packet's payload under its number, and under every other
-- number what it held before.
pub held-insert :
    (j : Jitter) (p : Packet) (st : Stats) (content : List ℕ) (k : ℕ)
    → IsValid j
    → IsTimely j p content
    → held j p.seq ≡ none
    → let (s, j', st') = insert j (some p) st in
      (s ≡ Status.ok)
      × (st' ≡ st)
      × (held j' k ≡ (
          if k == p.seq
          then some (record {
            bytes = payload p;
            len = p.len;
            timestamp = p.timestamp;
            marker = p.marker;
          })
          else held j k))
held-insert j p st content k v t absent =
    rw taken (refl, refl, held-fill j p _ k v t.len_le size free)
  where
    free : (slot_at j.slots (p.seq % 8)).occupied ≡ false
    free = free_slot j p.seq v t.wire.seq_fits t.near absent

    taken : insert j (some p) st ≡ (Status.ok, fill j p (u64 (j.count + 1)), st)
    taken = insert-timely j p st content t ∙ store-free j p st free

    size : length (payload p) ≡ p.len
    size = rw t.here (omega (arith, length-take p.len content, t.enough))

-- A timely packet whose number has a frame already is dropped as a duplicate: the buffer stays as
-- it is.
pub insert-duplicate :
    (j : Jitter) (p : Packet) (st : Stats) (content : List ℕ) (f : Frame)
    → IsValid j
    → IsTimely j p content
    → held j p.seq ≡ some f
    → insert j (some p) st
      ≡ (Status.ok, j, record st { duplicate_packets = inc64 st.duplicate_packets })
unfolding store copy
insert-duplicate j p st content f v t e =
    insert-timely j p st content t
    ∙ if_true (slot_at j.slots (p.seq % 8)).occupied _ (ground arith)
    ∙ if_true ((slot_at j.slots (p.seq % 8)).seq == p.seq) _ (ground arith)

-- A packet from before the window never enters the buffer: it is counted as late and dropped.
pub insert-late :
    (j : Jitter) (p : Packet) (st : Stats) (content : List ℕ)
    → j.initialized ≡ true
    → p.bytes ≡ some content
    → 1 ≤ p.len
    → p.len ≤ 1275
    → seq_before p.seq j.expected_seq ≡ true
    → insert j (some p) st ≡ (
      Status.ok,
      j,
      record st {
        late_packets = inc64 st.late_packets;
        audio_frames_dropped = inc64 st.audio_frames_dropped;
      },
    )
unfolding insert insert_checked insert_started
insert-late j p st content running here pos le late =
    if_false (is_null p.bytes || p.len == 0 || ltb 1275 p.len) _ (rw here (ground arith))
    ∙ if_true j.initialized _ running
    ∙ if_true (seq_before p.seq j.expected_seq) _ late
