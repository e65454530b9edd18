-- ===== src/Video/Headers.antt =====
-- The two bytes before the content of a fragment: what src/video/video.c writes there as a sender, and
-- what it makes of them as a receiver.
use libmezia.Prelude.{ℕ, ◌≡◌, refl, Bool, true, false, ◌==◌, bit_and, bit_or, u8, IsU8}
use libmezia.Prelude.Bits.{every_below, byte_table}
use libmezia.Video.{nal_type_of}
use libmezia.Video.Packetizer.{fu_header}

-- The first byte, from the header `b` of the NAL unit.
abbrev pub indicator_of : ℕ → ℕ
indicator_of b = u8 (bit_or (bit_and b 0xe0) 28)

indicator_table : every_below (λ b. nal_type_of (indicator_of b) == 28) 256 ≡ true
unfolding every_below
indicator_table = refl

pub indicator-type : (b : ℕ) → IsU8 b → nal_type_of (indicator_of b) ≡ 28
indicator-type b h = byte_table (λ b. nal_type_of (indicator_of b)) (λ b. 28) b indicator_table h

abbrev rebuilt : ℕ → Bool → Bool → ℕ
rebuilt b first last =
    u8
      (bit_or (bit_and (indicator_of b) 0xe0) (bit_and (fu_header (nal_type_of b) first last) 0x1f))

first_table : every_below (λ b. rebuilt b true false == b) 256 ≡ true
unfolding every_below
first_table = refl

-- The receiver puts the header of the NAL unit together again from the first fragment.
pub rebuilt-header : (b : ℕ) → IsU8 b → rebuilt b true false ≡ b
rebuilt-header b h = byte_table (λ b. rebuilt b true false) (λ b. b) b first_table h
