-- ===== src/Video/Receive.antt =====
-- The reassembly buffer of src/video/video.c: no fragment is written past its end.
use libmezia.Prelude.{
  ℕ, ◌+◌, ◌-◌, ◌≤◌, ◌≡◌, refl, List, some, Bool, true, false, ◌&&◌, ◌||◌, not, ltb, leb, ◌==◌,
  arith, if_cases, take, drop, copy_at, length, length-set, length-copy_at, ◌^◌, ◌⊎◌, inl, inr, u8,
  u64, sub16, bit_and, bit_or, nonzero, is_null,
}
use libmezia.Types.{Packet, bytes_of}
use libmezia.Rtp.{seq_before}
use libmezia.Wire.{byte_at}
use libmezia.Video.{Video, nal_type_of}
use libmezia.Video.Receiver.{
  Received, reset_reassembly, start_fragment, append_fragment, receive_fragment, receive_payload,
  receive_sequenced, receive, skip_gap,
}

pub record IsValid (v : Video) : Type 0 where
  pub room : 1 ≤ v.config.max_nal_size
  pub size : length v.reassembly ≡ v.config.max_nal_size
  pub fits : v.reassembly_len ≤ v.config.max_nal_size
  pub started : (v.reassembling ≡ false) ⊎ (1 ≤ v.reassembly_len)
  pub addressable : v.config.max_nal_size ≤ 2 ^ 63

-- No object of C is longer.
abbrev pub IsAddressable : Packet → Type 0
IsAddressable p = p.len ≤ 2 ^ 63

abbrev Keeps : Received → Type 0
Keeps t = IsValid t.1

reset-IsValid : (v : Video) (failed : Bool) → IsValid v → IsValid (reset_reassembly v failed)
unfolding reset_reassembly
reset-IsValid v failed w = record {
  room = w.room;
  size = w.size;
  fits = omega arith;
  started = inl refl;
  addressable = w.addressable;
}

-- Only the counters and the sequence number differ.
pub recount-IsValid :
    (v v' : Video)
    → (v'.config ≡ v.config)
      × (v'.reassembly ≡ v.reassembly)
      × (v'.reassembly_len ≡ v.reassembly_len)
      × (v'.reassembling ≡ v.reassembling)
    → IsValid v
    → IsValid v'
recount-IsValid v v' e w = record {
  room = rw e.0 w.room;
  size = rw (e.0, e.1) w.size;
  fits = rw (e.0, e.2) w.fits;
  started = rw (e.2, e.3) w.started;
  addressable = rw e.0 w.addressable;
}

pub start-IsValid :
    (v : Video) (p : Packet) (indicator header : ℕ) (discontinuity : Bool)
    → IsValid v
    → IsValid (start_fragment v p indicator header discontinuity)
unfolding start_fragment
start-IsValid v p indicator header discontinuity w = record {
  room = w.room;
  size =
      rw (length-set v.reassembly 0 (u8 (bit_or (bit_and indicator 0xe0) (bit_and header 0x1f))))
        w.size;
  fits = w.room;
  started = inr (omega arith);
  addressable = w.addressable;
}

pub grown-IsValid :
    (v : Video) (n : ℕ) (content : List ℕ)
    → v.reassembly_len + n ≤ v.config.max_nal_size
    → IsValid v
    → IsValid (record v {
      reassembly = copy_at v.reassembly v.reassembly_len content;
      reassembly_len = u64 (v.reassembly_len + n);
    })
grown-IsValid v n content le w = record {
  room = w.room;
  size = rw (length-copy_at v.reassembly v.reassembly_len content) w.size;
  fits = omega (arith, w.addressable);
  started = elim w.started [ inl e ↦ inl e | inr h ↦ inr (omega (arith, w.addressable)) ];
  addressable = w.addressable;
}

append-IsValid :
    (v : Video) (p : Packet) (content : List ℕ) (last : Bool)
    → IsAddressable p
    → IsValid v
    → IsValid (append_fragment v p content last).1
unfolding append_fragment
append-IsValid v p content last small w =
    if_cases Keeps (ltb v.config.max_nal_size (u64 (v.reassembly_len + (p.len - 2))))
      (λ _. reset-IsValid v true w)
      (λ room.
        let le : v.reassembly_len + (p.len - 2) ≤ v.config.max_nal_size =
          ground (arith, w.addressable, w.fits) in
        let grown = grown-IsValid v (p.len - 2) (take (p.len - 2) content) le w in
        if_cases Keeps last
          (λ _. recount-IsValid _ _ (refl, refl, refl, refl) (reset-IsValid _ false grown))
          (λ _. recount-IsValid _ _ (refl, refl, refl, refl) grown))

fragment-IsValid :
    (v : Video) (p : Packet) (d : List ℕ) (discontinuity : Bool)
    → IsAddressable p
    → IsValid v
    → IsValid (receive_fragment v p d discontinuity).1
unfolding receive_fragment
fragment-IsValid v p d discontinuity small w =
    let header = byte_at d 1 in
    let first = nonzero (bit_and header 0x80) in
    let last = nonzero (bit_and header 0x40) in
    if_cases Keeps (ltb p.len 3)
      (λ _. reset-IsValid _ true (recount-IsValid v _ (refl, refl, refl, refl) w))
      (λ _.
        if_cases Keeps (nonzero (bit_and header 0x20) || first && last)
          (λ _. reset-IsValid _ true (recount-IsValid v _ (refl, refl, refl, refl) w))
          (λ _.
            if_cases Keeps first
              (λ _.
                append-IsValid _ p (drop 2 d) last small
                  (start-IsValid v p (byte_at d 0) header discontinuity w))
              (λ _.
                if_cases Keeps (not v.reassembling || not (v.reassembly_timestamp == p.timestamp))
                  (λ _. recount-IsValid v _ (refl, refl, refl, refl) w)
                  (λ _. append-IsValid v p (drop 2 d) last small w))))

payload-IsValid :
    (v : Video) (p : Packet) (d : List ℕ) (discontinuity : Bool)
    → IsAddressable p
    → IsValid v
    → IsValid (receive_payload v p d discontinuity).1
unfolding receive_payload
payload-IsValid v p d discontinuity small w =
    let kind = nal_type_of (byte_at d 0) in
    if_cases Keeps (leb 1 kind && leb kind 23)
      (λ _. recount-IsValid _ _ (refl, refl, refl, refl) (reset-IsValid v true w))
      (λ _.
        if_cases Keeps (kind == 28) (λ _. fragment-IsValid v p d discontinuity small w)
          (λ _. recount-IsValid v _ (refl, refl, refl, refl) w))

gap-IsValid : (v : Video) (p : Packet) → IsValid v → IsValid (skip_gap v p)
unfolding skip_gap
gap-IsValid v p w = reset-IsValid _ true (recount-IsValid v _ (refl, refl, refl, refl) w)

sequenced-IsValid :
    (v : Video) (p : Packet) (d : List ℕ)
    → IsAddressable p
    → IsValid v
    → IsValid (receive_sequenced v p d).1
unfolding receive_sequenced
sequenced-IsValid v p d small w =
    if_cases Keeps (not v.have_expected_seq)
      (λ _. payload-IsValid _ p d false small (recount-IsValid v _ (refl, refl, refl, refl) w))
      (λ _.
        if_cases Keeps (p.seq == sub16 v.expected_seq 1)
          (λ _. recount-IsValid v _ (refl, refl, refl, refl) w)
          (λ _.
            if_cases Keeps (seq_before p.seq v.expected_seq)
              (λ _. recount-IsValid v _ (refl, refl, refl, refl) w)
              (λ _.
                if_cases Keeps (p.seq == v.expected_seq)
                  (λ _.
                    payload-IsValid _ p d false small
                      (recount-IsValid v _ (refl, refl, refl, refl) w))
                  (λ _.
                    payload-IsValid _ p d true small
                      (recount-IsValid _ _ (refl, refl, refl, refl) (gap-IsValid v p w))))))

-- Whatever packet of up to 2 ^ 63 bytes reaches a valid context, in order or not, well formed or not:
-- the bytes that have been put
-- together fit the reassembly buffer, and the buffer keeps its size.
pub receive_nal-IsValid :
    (v : Video) (p : Packet) → IsAddressable p → IsValid v → IsValid (receive v (some p)).1
unfolding receive
receive_nal-IsValid v p small w =
    if_cases Keeps (is_null p.bytes || p.len == 0 || not (p.payload_type == v.config.payload_type))
      (λ _. w) (λ _. sequenced-IsValid v p (bytes_of p.bytes) small w)
