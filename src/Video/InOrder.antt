-- ===== src/Video/InOrder.antt =====
-- Fragments that arrive in order at the receiver of src/video/video.c.
use libmezia.Prelude.{
  ℕ, ◌+◌, ◌≤◌, ◌≡◌, refl, sym, ap, ◌∙◌, List, Option, none, some, true, false, not, ◌&&◌, ◌||◌, ltb,
  leb, ◌==◌, if_true, if_false, arith, nonzero, bit_and, bit_or, u8, set, is_null, sub16, IsU16,
  length, take, drop, [], ◌∷◌,
}
use libmezia.Types.{Status, Packet, bytes_of}
use libmezia.Wire.{byte_at}
use libmezia.Rtp.{seq_before}
use libmezia.Rtp.Seq.{seq_before-irreflexive}
use libmezia.Video.{Video, nal_type_of}
use libmezia.Video.Receiver.{
  append_fragment, receive_fragment, receive_payload, receive_sequenced, receive, expect_next,
  start_fragment,
}
use libmezia.Video.Receive.{IsValid, recount-IsValid, start-IsValid}
use libmezia.Video.Assembly.{Holds, Carries, append-Holds, append-delivers}

-- The packet is the next one of the stream, and a fragment.
pub record IsNextFragment (v : Video) (p : Packet) (d : List ℕ) : Type 0 where
  pub expecting : v.have_expected_seq ≡ true
  pub in_order : p.seq ≡ v.expected_seq
  pub seq_fits : IsU16 p.seq
  pub here : p.bytes ≡ some d
  pub long : 3 ≤ p.len
  pub own_type : p.payload_type ≡ v.config.payload_type
  pub is_fragment : nal_type_of (byte_at d 0) ≡ 28
  pub reserved_clear : bit_and (byte_at d 1) 0x20 ≡ 0

receive-in_order :
    (v : Video) (p : Packet) (d : List ℕ)
    → IsNextFragment v p d
    → receive v (some p) ≡ receive_payload (expect_next v p) p d false
unfolding receive receive_sequenced
receive-in_order v p d q =
    if_false (is_null p.bytes || p.len == 0 || not (p.payload_type == v.config.payload_type)) _
      (rw q.here (ground (arith, q.long, q.own_type)))
    ∙ if_false (not v.have_expected_seq) _ (rw q.expecting refl)
    ∙ if_false (p.seq == sub16 v.expected_seq 1) _ (ground (arith, q.in_order, q.seq_fits))
    ∙ if_false (seq_before p.seq v.expected_seq) _
        (rw (sym q.in_order) (seq_before-irreflexive p.seq q.seq_fits))
    ∙ if_true (p.seq == v.expected_seq) _ (ground (arith, q.in_order))
    ∙ ap (λ (o : Option (List ℕ)). receive_payload (expect_next v p) p (bytes_of o) false) q.here

receive-append :
    (v : Video) (p : Packet) (d nal : List ℕ) (offset : ℕ)
    → IsNextFragment v p d
    → bit_and (byte_at d 1) 0x80 ≡ 0
    → Holds v nal offset p.timestamp
    → receive v (some p)
      ≡ append_fragment (expect_next v p) p (drop 2 d) (nonzero (bit_and (byte_at d 1) 0x40))
unfolding receive_payload receive_fragment
receive-append v p d nal offset q later h =
    receive-in_order v p d q
    ∙ if_false (leb 1 (nal_type_of (byte_at d 0)) && leb (nal_type_of (byte_at d 0)) 23) _
        (rw q.is_fragment refl)
    ∙ if_true (nal_type_of (byte_at d 0) == 28) _ (rw q.is_fragment refl)
    ∙ if_false (ltb p.len 3) _ (ground (arith, q.long))
    ∙ if_false
        (nonzero (bit_and (byte_at d 1) 0x20)
          || nonzero (bit_and (byte_at d 1) 0x80) && nonzero (bit_and (byte_at d 1) 0x40))
        _ (rw (q.reserved_clear, later) refl)
    ∙ if_false (nonzero (bit_and (byte_at d 1) 0x80)) _ (rw later refl)
    ∙ if_false (not v.reassembling || not (v.reassembly_timestamp == p.timestamp)) _
        (rw (h.running, h.same_time) (ground arith))

expecting-Holds :
    (v : Video) (p : Packet) (nal : List ℕ) (offset timestamp : ℕ)
    → Holds v nal offset timestamp
    → Holds (expect_next v p) nal offset timestamp
expecting-Holds v p nal offset timestamp h = record {
  valid = recount-IsValid v _ (refl, refl, refl, refl) h.valid;
  running = h.running;
  whole = h.whole;
  reached = h.reached;
  prefix = h.prefix;
  same_time = h.same_time;
  inside = h.inside;
  room = h.room;
}

-- While the first `offset` bytes of a NAL unit are put together: the next packet of the stream, of
-- the same time and neither first nor last, that carries the next `n` bytes, is taken without a
-- delivery, and then the first `offset + n` bytes are put together.
pub receive-Holds :
    (v : Video) (p : Packet) (d nal : List ℕ) (offset n : ℕ)
    → IsNextFragment v p d
    → bit_and (byte_at d 1) 0x80 ≡ 0
    → bit_and (byte_at d 1) 0x40 ≡ 0
    → Holds v nal offset p.timestamp
    → Carries p (drop 2 d) nal offset n
    → let (status, v', delivery) = receive v (some p) in
      (status ≡ Status.ok) × Holds v' nal (offset + n) p.timestamp × (delivery ≡ none)
receive-Holds v p d nal offset n q later more h c =
    rw (receive-append v p d nal offset q later h, more)
      (append-Holds (expect_next v p) p (drop 2 d) nal offset p.timestamp n
        (expecting-Holds v p nal offset p.timestamp h) c)

-- While the first `offset` bytes of a NAL unit are put together and a callback is set: the next
-- packet of the stream, of the same time, the last fragment and not the first, that carries the
-- rest, delivers the NAL unit as it is, with the packet's timestamp and marker, and without a
-- discontinuity.
pub receive-delivers :
    (v : Video) (p : Packet) (d nal : List ℕ) (offset n : ℕ)
    → v.config.on_nal ≡ true
    → IsNextFragment v p d
    → bit_and (byte_at d 1) 0x80 ≡ 0
    → nonzero (bit_and (byte_at d 1) 0x40) ≡ true
    → Holds v nal offset p.timestamp
    → Carries p (drop 2 d) nal offset n
    → offset + n ≡ length nal
    → let (status, v', delivery) = receive v (some p) in
      (status ≡ Status.ok)
      × (delivery
          ≡ some (record {
            nal = nal;
            timestamp = p.timestamp;
            end_of_access_unit = p.marker;
            discontinuity = false;
          }))
receive-delivers v p d nal offset n listening q later last h c end =
    rw (receive-append v p d nal offset q later h, last)
      (append-delivers (expect_next v p) p (drop 2 d) nal offset p.timestamp n listening
        (expecting-Holds v p nal offset p.timestamp h) c end)

receive-start :
    (v : Video) (p : Packet) (d : List ℕ)
    → IsNextFragment v p d
    → nonzero (bit_and (byte_at d 1) 0x80) ≡ true
    → bit_and (byte_at d 1) 0x40 ≡ 0
    → receive v (some p)
      ≡ append_fragment
          (start_fragment (expect_next v p) p (byte_at d 0) (byte_at d 1) false)
          p
          (drop 2 d)
          (nonzero (bit_and (byte_at d 1) 0x40))
unfolding receive_payload receive_fragment
receive-start v p d q first more =
    receive-in_order v p d q
    ∙ if_false (leb 1 (nal_type_of (byte_at d 0)) && leb (nal_type_of (byte_at d 0)) 23) _
        (rw q.is_fragment refl)
    ∙ if_true (nal_type_of (byte_at d 0) == 28) _ (rw q.is_fragment refl)
    ∙ if_false (ltb p.len 3) _ (ground (arith, q.long))
    ∙ if_false
        (nonzero (bit_and (byte_at d 1) 0x20)
          || nonzero (bit_and (byte_at d 1) 0x80) && nonzero (bit_and (byte_at d 1) 0x40))
        _ (rw (q.reserved_clear, first, more) refl)
    ∙ if_true (nonzero (bit_and (byte_at d 1) 0x80)) _ first

start-prefix :
    (buf : List ℕ) (b : ℕ) (rest : List ℕ)
    → 1 ≤ length buf
    → take 1 (set buf 0 b) ≡ take 1 (b ∷ rest)
start-prefix [] b rest h = absurd (omega arith)
start-prefix (x ∷ xs) b rest h = refl

start-Holds :
    (v : Video) (p : Packet) (indicator header b : ℕ) (rest : List ℕ)
    → IsValid v
    → u8 (bit_or (bit_and indicator 0xe0) (bit_and header 0x1f)) ≡ b
    → length (b ∷ rest) ≤ v.config.max_nal_size
    → Holds (start_fragment v p indicator header false) (b ∷ rest) 1 p.timestamp
unfolding start_fragment
start-Holds v p indicator header b rest w rebuilt room = record {
  valid = start-IsValid v p indicator header false w;
  running = refl;
  whole = refl;
  reached = refl;
  prefix = rw rebuilt (start-prefix v.reassembly b rest (omega (arith, w.size, w.room)));
  same_time = refl;
  inside = omega arith;
  room = room;
}

-- In a valid context with room for the NAL unit: the next packet of the stream, the first fragment
-- of the unit and not the last, that carries the `n` bytes behind the unit's header, is taken without
-- a delivery, whatever was being put together before, and then the first `1 + n` bytes of this unit
-- are.
pub receive-starts :
    (v : Video) (p : Packet) (d : List ℕ) (b : ℕ) (rest : List ℕ) (n : ℕ)
    → IsValid v
    → IsNextFragment v p d
    → nonzero (bit_and (byte_at d 1) 0x80) ≡ true
    → bit_and (byte_at d 1) 0x40 ≡ 0
    → u8 (bit_or (bit_and (byte_at d 0) 0xe0) (bit_and (byte_at d 1) 0x1f)) ≡ b
    → length (b ∷ rest) ≤ v.config.max_nal_size
    → Carries p (drop 2 d) (b ∷ rest) 1 n
    → let (status, v', delivery) = receive v (some p) in
      (status ≡ Status.ok) × Holds v' (b ∷ rest) (1 + n) p.timestamp × (delivery ≡ none)
receive-starts v p d b rest n w q first more rebuilt room c =
    rw (receive-start v p d q first more, more)
      (append-Holds _ p (drop 2 d) (b ∷ rest) 1 p.timestamp n
        (start-Holds (expect_next v p) p (byte_at d 0) (byte_at d 1) b rest
          (recount-IsValid v _ (refl, refl, refl, refl) w) rebuilt room)
        c)
