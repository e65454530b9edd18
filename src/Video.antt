-- ===== src/Video.antt =====
-- src/video/video.c: H.264 NAL units over RTP, by RFC 6184 single packets and FU-A fragments.
pub mod Packetizer
pub mod Receiver
pub mod Count
pub mod Receive
pub mod Life
pub mod Assembly
pub mod InOrder
pub mod Headers
use libmezia.Prelude.{
  ℕ, zero, suc, ◌+◌, ◌-◌, ◌*◌, ◌/◌, ◌%◌, List, [], ◌∷◌, ◌++◌, Option, none, some, Bool, true, false,
  ◌&&◌, ◌||◌, not, bit_and, bit_or, ltb, leb, ◌==◌, if◌then◌else◌, nonzero, is_null, bool_int,
  get_or, set, length, drop, take, copy_at, u8, u16, u64, sub16, inc64,
}
use libmezia.Types.{
  Status, Packet, Stats, zero_stats, bytes_of, rtp_header_size, default_mtu,
  default_video_payload_type,
}
use libmezia.Wire.{byte_at}
use libmezia.Rtp.{seq_before}

-- `mezon_video_config_t`; `on_nal` says whether a callback is set. Its calls are the deliveries.
pub record VideoConfig : Type 0 where
  pub payload_type : ℕ
  pub ssrc : ℕ
  pub mtu : ℕ
  pub max_nal_size : ℕ
  pub on_nal : Bool

-- `mezon_video_ctx_t`. `reassembly` is the buffer of `max_nal_size` bytes.
pub record Video : Type 0 where
  pub config : VideoConfig
  pub next_seq : ℕ
  pub expected_seq : ℕ
  pub have_expected_seq : Bool
  pub reassembly : List ℕ
  pub reassembly_len : ℕ
  pub reassembly_timestamp : ℕ
  pub reassembling : Bool
  pub discontinuity : Bool
  pub stats : Stats

-- A call of `on_nal`.
pub record Delivery : Type 0 where
  pub nal : List ℕ
  pub timestamp : ℕ
  pub end_of_access_unit : ℕ
  pub discontinuity : Bool

-- The type of a NAL unit, or of the RTP payload that begins with this byte.
abbrev pub nal_type_of : ℕ → ℕ
nal_type_of b = u8 (bit_and b 0x1f)

-- `valid_nal`
unfoldable pub valid_nal : Option (List ℕ) → ℕ → Bool
valid_nal none nal_len = false
valid_nal (some nal) nal_len =
    let kind = nal_type_of (byte_at nal 0) in
    if nal_len == 0 || nonzero (bit_and (byte_at nal 0) 0x80)
    then false
    else leb 1 kind && leb kind 23

-- The configuration with its defaults, as `mezon_video_create` stores it.
abbrev pub with_defaults : VideoConfig → VideoConfig
with_defaults c = record c {
  mtu = if nonzero c.mtu then c.mtu else default_mtu;
  max_nal_size = if nonzero c.max_nal_size then c.max_nal_size else 2 * 1024 * 1024;
  payload_type = if nonzero c.payload_type then c.payload_type else default_video_payload_type;
}

-- `mezon_video_create`. The two buffers are what the allocators return: `none` is a null context,
-- and the second argument the result of `malloc(max_nal_size)`.
unfoldable pub create : Option VideoConfig → Bool → (ℕ → Option (List ℕ)) → Option Video
create none calloc_ok malloc = none
create (some c) calloc_ok malloc =
    let full = with_defaults c in
    if ltb 127 c.payload_type || nonzero c.mtu && leb c.mtu (rtp_header_size + 2)
    then none
    else if not calloc_ok
    then none
    else elim (malloc full.max_nal_size) [
      | none ↦ none
      | some buffer ↦ some (record {
        config = full;
        next_seq = 0;
        expected_seq = 0;
        have_expected_seq = false;
        reassembly = buffer;
        reassembly_len = 0;
        reassembly_timestamp = 0;
        reassembling = false;
        discontinuity = false;
        stats = zero_stats;
      })
    ]

-- `mezon_video_max_packets_for_nal`
unfoldable pub max_packets_for_nal : Video → ℕ → ℕ
max_packets_for_nal v nal_len =
    let payload = v.config.mtu - rtp_header_size in
    let fragment = payload - 2 in
    if nal_len == 0
    then 0
    else if leb nal_len payload
    then 1
    else if nonzero fragment
    then (nal_len - 1) / fragment + bool_int (nonzero ((nal_len - 1) % fragment))
    else 0
