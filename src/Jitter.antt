-- ===== src/Jitter.antt =====
-- src/audio/jitter.c: the ring of eight compressed frames between the network and playout.
pub mod Slots
pub mod Valid
pub mod Playout
pub mod Lookup
pub mod Start
use libmezia.Prelude.{
  ℕ, ◌+◌, ◌-◌, ◌*◌, ◌%◌, ◌≤◌, ◌≡◌, List, Option, none, some, Bool, true, false, ◌&&◌, ◌||◌, not,
  ltb, leb, ◌==◌, if◌then◌else◌, get_or, set, take, copy_at, replicate, length, length-replicate,
  u16, u32, u64, sub16, sub64, inc64, nonzero, is_null,
}
use libmezia.Types.{Status, Packet, Stats, opus_frame_samples, opus_frame_ms, payload}
use libmezia.Rtp.{seq_before}

abbrev pub opus_max_packet_size : ℕ
opus_max_packet_size = 1275

abbrev pub jitter_slots : ℕ
jitter_slots = 8

-- `mezon_audio_jitter_slot_t`; `frame` is its payload array of 1275 bytes.
pub record Slot : Type 0 where
  pub frame : List ℕ
  pub len : ℕ
  pub timestamp : ℕ
  pub seq : ℕ
  pub arrival_time_ns : ℕ
  pub marker : ℕ
  pub occupied : Bool

-- `mezon_audio_jitter_t`
pub record Jitter : Type 0 where
  pub slots : List Slot
  pub expected_seq : ℕ
  pub expected_timestamp : ℕ
  pub count : ℕ
  pub target_frames : ℕ
  pub max_frames : ℕ
  pub first_arrival_ns : ℕ
  pub started : Bool
  pub initialized : Bool

-- The zeroed array, kept shut: it is long.
unfoldable pub zero_frame : List ℕ
zero_frame = replicate opus_max_packet_size 0

pub length-zero_frame : length zero_frame ≡ 1275
unfolding zero_frame
length-zero_frame = length-replicate {A = ℕ} 1275 0

abbrev pub zero_slot : Slot
zero_slot = record {
  frame = zero_frame;
  len = 0;
  timestamp = 0;
  seq = 0;
  arrival_time_ns = 0;
  marker = 0;
  occupied = false;
}

abbrev pub slot_at : List Slot → ℕ → Slot
slot_at slots i = get_or slots i zero_slot

-- `mezon_audio_jitter_init`
unfoldable pub init : ℕ → ℕ → Jitter
init target_frames max_frames = record {
  slots = replicate jitter_slots zero_slot;
  expected_seq = 0;
  expected_timestamp = 0;
  count = 0;
  target_frames = target_frames;
  max_frames = max_frames;
  first_arrival_ns = 0;
  started = false;
  initialized = false;
}

-- `reset_jitter`
unfoldable pub reset : Jitter → Packet → Stats → Jitter × Stats
unfolding init
reset j p st = (
  record (init j.target_frames j.max_frames) {
    expected_seq = p.seq;
    expected_timestamp = p.timestamp;
    first_arrival_ns = p.arrival_time_ns;
    initialized = true;
  },
  record st { audio_jitter_resets = inc64 st.audio_jitter_resets },
)

-- The frame of a packet in a slot: the bytes are copied over what the array held.
unfoldable pub fill_slot : Slot → Packet → Slot
fill_slot s p = record {
  frame = copy_at s.frame 0 (payload p);
  len = p.len;
  timestamp = p.timestamp;
  seq = p.seq;
  arrival_time_ns = p.arrival_time_ns;
  marker = p.marker;
  occupied = true;
}

unfoldable pub fill : Jitter → Packet → ℕ → Jitter
fill j p count = record j {
  slots = set j.slots (p.seq % jitter_slots) (fill_slot (slot_at j.slots (p.seq % jitter_slots)) p);
  count = count;
  first_arrival_ns = if j.first_arrival_ns == 0 then p.arrival_time_ns else j.first_arrival_ns;
}

-- The slot of the packet: a duplicate is dropped, another frame is overwritten, a free slot filled.
unfoldable pub store : Jitter → Packet → Stats → Status × Jitter × Stats
store j p st =
    let s = slot_at j.slots (p.seq % jitter_slots) in
    if s.occupied
    then (if s.seq == p.seq
        then (Status.ok, j, record st { duplicate_packets = inc64 st.duplicate_packets })
        else (
          Status.ok,
          fill j p j.count,
          record st { audio_frames_dropped = inc64 st.audio_frames_dropped },
        ))
    else (Status.ok, fill j p (u64 (j.count + 1)), st)

-- The check of the timestamp against the distance from the expected frame.
unfoldable pub place : Jitter → Packet → Stats → ℕ → Status × Jitter × Stats
place j p st distance =
    if p.timestamp == u32 (j.expected_timestamp + u32 (distance * opus_frame_samples))
    then store j p st
    else (Status.malformed_packet, j, record st { malformed_packets = inc64 st.malformed_packets })

-- Is the packet too far ahead for the window?
abbrev pub beyond : Jitter → ℕ → Bool
beyond j distance = leb jitter_slots distance || leb j.max_frames distance

-- Insertion once the buffer knows what it expects.
unfoldable pub insert_started : Jitter → Packet → Stats → Status × Jitter × Stats
insert_started j p st =
    let distance = sub16 p.seq j.expected_seq in
    let (j0, st0) = reset j p st in
    if seq_before p.seq j.expected_seq
    then (
      Status.ok,
      j,
      record st {
        late_packets = inc64 st.late_packets;
        audio_frames_dropped = inc64 st.audio_frames_dropped;
      },
    )
    else if beyond j distance
    then place j0 p st0 0
    else place j p st distance

-- The first packet sets the buffer up; this does not count as a reset.
unfoldable pub insert_checked : Jitter → Packet → Stats → Status × Jitter × Stats
insert_checked j p st =
    let (j0, st0) = reset j p st in
    if j.initialized
    then insert_started j p st
    else insert_started j0 p (record st0 { audio_jitter_resets = sub64 st0.audio_jitter_resets 1 })

-- `mezon_audio_jitter_insert` on a buffer and counters that are not null.
unfoldable pub insert : Jitter → Option Packet → Stats → Status × Jitter × Stats
insert j none st = (Status.invalid_arg, j, st)
insert j (some p) st =
    if is_null p.bytes || p.len == 0 || ltb opus_max_packet_size p.len
    then (Status.invalid_arg, j, st)
    else insert_checked j p st

-- `mezon_audio_jitter_ready`: enough frames, or enough time since the first.
unfoldable pub ready : Jitter → ℕ → Bool × Jitter
ready j now_ns =
    let target_ns = u64 (u64 (j.target_frames * opus_frame_ms) * 1000000) in
    if not j.initialized
    then (false, j)
    else if j.started
    then (true, j)
    else if leb j.target_frames j.count
        || nonzero j.first_arrival_ns
          && leb j.first_arrival_ns now_ns
          && leb target_ns (now_ns - j.first_arrival_ns)
    then (true, record j { started = true })
    else (false, j)

-- What `mezon_audio_jitter_copy` hands out.
pub record Frame : Type 0 where
  pub bytes : List ℕ
  pub len : ℕ
  pub timestamp : ℕ
  pub marker : ℕ

-- `mezon_audio_jitter_copy` into pointers that are not null; `none` is its 0.
unfoldable pub copy : Jitter → ℕ → Bool → Option Frame × Jitter
copy j seq remove =
    let i = seq % jitter_slots in
    let s = slot_at j.slots i in
    if not s.occupied || not (s.seq == seq) then (none, j) else (
      some (record {
        bytes = take s.len s.frame;
        len = s.len;
        timestamp = s.timestamp;
        marker = s.marker;
      }),
      if remove
          then record j {
            slots = set j.slots i (record s { occupied = false });
            count = sub64 j.count 1;
          }
          else j,
    )

-- `mezon_audio_jitter_advance`
unfoldable pub advance : Jitter → Jitter
advance j =
    if j.initialized
    then record j {
      expected_seq = u16 (j.expected_seq + 1);
      expected_timestamp = u32 (j.expected_timestamp + opus_frame_samples);
    }
    else j
