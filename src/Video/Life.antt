-- ===== src/Video/Life.antt =====
-- The context of src/video/video.c from its creation on, and what sending does to it.
use libmezia.Prelude.{
  ℕ, zero, suc, ◌-◌, ◌^◌, ◌≤◌, ◌<◌, ◌≡◌, refl, inl, ◌⊎◌, List, Option, none, some, Bool, true,
  false, not, ltb, ◌==◌, ◌||◌, arith, if_cases, is_null, length,
}
use libmezia.Types.{Packet, bytes_of, zero_stats}
use libmezia.Video.{Video, VideoConfig, with_defaults, create, valid_nal, max_packets_for_nal}
use libmezia.Video.Packetizer.{
  Packetized, packetize_nal, packetize_single, packetize_checked, fill_fragments, packet_at,
}
use libmezia.Video.Receive.{IsValid, recount-IsValid}

-- `malloc`: a block that it returns has the size asked for.
abbrev pub Allocates : (ℕ → Option (List ℕ)) → ℕ → Type 0
Allocates malloc n = (b : List ℕ) × (malloc n ≡ some b) × (length b ≡ n)

unfoldable pub new_video : VideoConfig → List ℕ → Video
new_video c b = record {
  config = with_defaults c;
  next_seq = 0;
  expected_seq = 0;
  have_expected_seq = false;
  reassembly = b;
  reassembly_len = 0;
  reassembly_timestamp = 0;
  reassembling = false;
  discontinuity = false;
  stats = zero_stats;
}

-- With a 7-bit payload type, an MTU that is 0 or above 14, a NAL limit of up to 2 ^ 63 and memory,
-- creation returns a context: it is valid, and its MTU leaves room for a fragment of at least one
-- byte.
pub create_valid :
    (c : VideoConfig) (malloc : ℕ → Option (List ℕ))
    → c.payload_type ≤ 127
    → (c.mtu ≡ 0) ⊎ (14 < c.mtu)
    → (with_defaults c).max_nal_size ≤ 2 ^ 63
    → Allocates malloc (with_defaults c).max_nal_size
    → (v : Video) × (create (some c) true malloc ≡ some v) × IsValid v × (14 < v.config.mtu)
unfolding create new_video
create_valid c malloc type mtu small (b, found, size) = (
  new_video c b,
  rw found (ground arith),
  record {
    room = ground arith;
    size = size;
    fits = omega arith;
    started = inl refl;
    addressable = small;
  },
  ground arith,
)

fill-IsValid :
    (nal : List ℕ) (nal_len fragment timestamp : ℕ) (eau : Bool) (required left i offset : ℕ)
    (v : Video) (ps : List Packet)
    → IsValid v
    → IsValid (fill_fragments nal nal_len fragment timestamp eau required left i offset v ps).0
unfolding fill_fragments
fill-IsValid nal nal_len fragment timestamp eau required zero i offset v ps w = w
fill-IsValid nal nal_len fragment timestamp eau required (suc left) i offset v ps w =
    fill-IsValid nal nal_len fragment timestamp eau required left _ _ _ _
      (recount-IsValid v _ (refl, refl, refl, refl) w)

abbrev Left : Packetized → Type 0
Left t = IsValid t.video

single-IsValid :
    (v : Video) (nal : List ℕ) (nal_len timestamp : ℕ) (eau : Bool) (ps : List Packet)
    → IsValid v
    → IsValid (packetize_single v nal nal_len timestamp eau ps).video
unfolding packetize_single
single-IsValid v nal nal_len timestamp eau ps w =
    if_cases Left (is_null (packet_at ps 0).bytes || ltb (packet_at ps 0).capacity nal_len) (λ _. w)
      (λ _. recount-IsValid v _ (refl, refl, refl, refl) w)

checked-IsValid :
    (v : Video) (nal : List ℕ) (nal_len timestamp : ℕ) (eau : Bool) (ps : List Packet)
    (required : ℕ) (small : Option (ℕ × ℕ))
    → IsValid v
    → IsValid (packetize_checked v nal nal_len timestamp eau ps required small).video
checked-IsValid v nal nal_len timestamp eau ps required (some (i, size)) w = w
checked-IsValid v nal nal_len timestamp eau ps required none w =
    fill-IsValid nal nal_len (v.config.mtu - 12 - 2) timestamp eau required required 0 1 v ps w

-- Sending, with whatever arguments, keeps a valid context valid.
pub packetize_nal-IsValid :
    (v : Video) (nal : Option (List ℕ)) (nal_len timestamp : ℕ) (eau : Bool) (ps : List Packet)
    (packet_capacity packet_count : ℕ)
    → IsValid v
    → IsValid (packetize_nal v nal nal_len timestamp eau ps packet_capacity packet_count).video
unfolding packetize_nal
packetize_nal-IsValid v nal nal_len timestamp eau ps room n w =
    let required = max_packets_for_nal v nal_len in
    if_cases Left (not (valid_nal nal nal_len)) (λ _. w)
      (λ _.
        if_cases Left (ltb room required) (λ _. w)
          (λ _.
            if_cases Left (required == 1)
              (λ _. single-IsValid v (bytes_of nal) nal_len timestamp eau ps w)
              (λ _. checked-IsValid v (bytes_of nal) nal_len timestamp eau ps required _ w)))
