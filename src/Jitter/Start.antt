-- ===== src/Jitter/Start.antt =====
-- When playout starts, in src/audio/jitter.c, and that it goes on.
use libmezia.Prelude.{
  ℕ, ◌+◌, ◌*◌, ◌≤◌, ◌≡◌, refl, List, [], ◌∷◌, some, true, ◌||◌, ◌==◌, ltb, if_cases, is_null, sub16,
  u32, u64, All, arith, IsU64, ◌%◌,
}
use libmezia.Types.{Status, Packet, Stats}
use libmezia.Rtp.{seq_before}
use libmezia.Jitter.{
  Jitter, ready, copy, advance, init, reset, fill, store, place, beyond, insert_started,
  insert_checked, insert, slot_at, jitter_slots, opus_max_packet_size,
}

-- A time of arrival, and the target delay of 20 ms for each target frame behind it.
pub record IsPast (target now_ns arrival_ns : ℕ) : Type 0 where
  pub some_time : 1 ≤ arrival_ns
  pub passed : arrival_ns + target * 20000000 ≤ now_ns

-- A buffer that is set up, since at least the target delay.
record IsDue (target now_ns : ℕ) (j : Jitter) : Type 0 where
  running : j.initialized ≡ true
  same : j.target_frames ≡ target
  first : IsPast target now_ns j.first_arrival_ns

-- The deadline test of `mezon_audio_jitter_ready`.
ready-IsDue :
    (target now_ns : ℕ) (j : Jitter)
    → IsDue target now_ns j
    → IsU64 now_ns
    → (ready j now_ns).0 ≡ true
unfolding ready
ready-IsDue target now_ns j v fits =
    ground (arith, v.running, v.same, v.first.some_time, v.first.passed)

module _ (target now_ns : ℕ) where
  fill-IsDue :
      (j : Jitter) (p : Packet) (count : ℕ)
      → IsDue target now_ns j
      → IsDue target now_ns (fill j p count)
  unfolding fill
  fill-IsDue j p count v = record {
    running = v.running;
    same = v.same;
    first =
        if_cases (IsPast target now_ns) (j.first_arrival_ns == 0)
          (λ none. absurd (ground (arith, v.first.some_time))) (λ _. v.first);
  }

  abbrev Due : Status × Jitter × Stats → Type 0
  Due t = IsDue target now_ns t.1

  store-IsDue : (j : Jitter) (p : Packet) (st : Stats) → IsDue target now_ns j → Due (store j p st)
  unfolding store
  store-IsDue j p st v =
      let s = slot_at j.slots (p.seq % jitter_slots) in
      if_cases Due s.occupied
        (λ _. if_cases Due (s.seq == p.seq) (λ _. v) (λ _. fill-IsDue j p j.count v))
        (λ _. fill-IsDue j p (u64 (j.count + 1)) v)

  place-IsDue :
      (j : Jitter) (p : Packet) (st : Stats) (distance : ℕ)
      → IsDue target now_ns j
      → Due (place j p st distance)
  unfolding place
  place-IsDue j p st distance v =
      if_cases Due (p.timestamp == u32 (j.expected_timestamp + u32 (distance * 960)))
        (λ _. store-IsDue j p st v) (λ _. v)

  reset-IsDue :
      (j : Jitter) (p : Packet) (st : Stats)
      → j.target_frames ≡ target
      → IsPast target now_ns p.arrival_time_ns
      → IsDue target now_ns (reset j p st).0
  unfolding reset init
  reset-IsDue j p st same past = record { running = refl; same = same; first = past }

  insert_started-IsDue :
      (j : Jitter) (p : Packet) (st : Stats)
      → IsPast target now_ns p.arrival_time_ns
      → IsDue target now_ns j
      → Due (insert_started j p st)
  unfolding insert_started
  insert_started-IsDue j p st past v =
      let distance = sub16 p.seq j.expected_seq in
      if_cases Due (seq_before p.seq j.expected_seq) (λ _. v)
        (λ _.
          if_cases Due (beyond j distance)
            (λ _.
              place-IsDue (reset j p st).0 p (reset j p st).1 0 (reset-IsDue j p st v.same past))
            (λ _. place-IsDue j p st distance v))

  insert_checked-IsDue :
      (j : Jitter) (p : Packet) (st : Stats)
      → j.target_frames ≡ target
      → IsPast target now_ns p.arrival_time_ns
      → (j.initialized ≡ true → IsDue target now_ns j)
      → Due (insert_checked j p st)
  unfolding insert_checked
  insert_checked-IsDue j p st same past v =
      if_cases Due j.initialized (λ on. insert_started-IsDue j p st past (v on))
        (λ _. insert_started-IsDue (reset j p st).0 p _ past (reset-IsDue j p st same past))

  insert-IsDue :
      (j : Jitter) (p : Packet) (st : Stats)
      → IsPast target now_ns p.arrival_time_ns
      → IsDue target now_ns j
      → Due (insert j (some p) st)
  unfolding insert
  insert-IsDue j p st past v =
      if_cases Due (is_null p.bytes || p.len == 0 || ltb opus_max_packet_size p.len) (λ _. v)
        (λ _. insert_checked-IsDue j p st v.same past (λ _. v))

  new-target : (most : ℕ) → (init target most).target_frames ≡ target
  unfolding init
  new-target most = refl

  new-off :
      (most : ℕ) → (init target most).initialized ≡ true → IsDue target now_ns (init target most)
  unfolding init
  new-off most e = absurd (ground (arith, e))

  first-IsDue :
      (most : ℕ) (p : Packet) (st : Stats)
      → IsPast target now_ns p.arrival_time_ns
      → (insert (init target most) (some p) st).0 ≡ Status.ok
      → Due (insert (init target most) (some p) st)
  unfolding insert
  first-IsDue most p st past =
      if_cases (λ (t : Status × Jitter × Stats). t.0 ≡ Status.ok → Due t)
        (is_null p.bytes || p.len == 0 || ltb opus_max_packet_size p.len)
        (λ _ e. absurd (ground (arith, e)))
        (λ _ e. insert_checked-IsDue (init target most) p st (new-target most) past (new-off most))

-- Packets inserted one after the other.
unfoldable pub insert_each : List Packet → Jitter → Stats → Jitter
insert_each [] j st = j
insert_each (p ∷ ps) j st =
    let (status, next, after) = insert j (some p) st in insert_each ps next after

insert_each-IsDue :
    (target now_ns : ℕ) (ps : List Packet) (j : Jitter) (st : Stats)
    → All (λ (p : Packet). IsPast target now_ns p.arrival_time_ns) ps
    → IsDue target now_ns j
    → IsDue target now_ns (insert_each ps j st)
unfolding insert_each
insert_each-IsDue target now_ns [] j st past v = v
insert_each-IsDue target now_ns (p ∷ ps) j st (one, more) v =
    insert_each-IsDue target now_ns ps _ _ more (insert-IsDue target now_ns j p st one v)

-- A new buffer takes a first packet, and then any others, in order or not, well formed or not, also
-- such that set it up anew. Once the target delay of 20 ms for each target frame has passed since each
-- of them arrived, at a time other than 0, the buffer plays, however few frames came.
pub ready_by_deadline :
    (target most now_ns : ℕ) (p : Packet) (ps : List Packet) (st : Stats)
    → (insert (init target most) (some p) st).0 ≡ Status.ok
    → All (λ (q : Packet). IsPast target now_ns q.arrival_time_ns) (p ∷ ps)
    → IsU64 now_ns
    → let (status, j, after) = insert (init target most) (some p) st in
      (ready (insert_each ps j after) now_ns).0 ≡ true
ready_by_deadline target most now_ns p ps st taken (one, more) fits =
    let r = insert (init target most) (some p) st in
    ready-IsDue target now_ns (insert_each ps r.1 r.2)
      (insert_each-IsDue target now_ns ps r.1 r.2 more
        (first-IsDue target now_ns most p st one taken))
      fits

-- A buffer that is ready is ready at any other time too, after the frame of any number has been
-- taken out and the window has moved on.
pub ready-advance :
    (j : Jitter) (now_ns later_ns seq : ℕ)
    → (ready j now_ns).0 ≡ true
    → (ready (advance (copy (ready j now_ns).1 seq true).1) later_ns).0 ≡ true
unfolding ready copy advance
ready-advance j now_ns later_ns seq h = ground arith
