-- ===== src/Ring.antt =====
-- platform/common/audio_ring.h: the ring of PCM samples between the device and the audio context.
pub mod Refine
use libmezia.Prelude.{
  ℕ, zero, suc, ◌+◌, ◌-◌, ◌*◌, ◌%◌, List, [], ◌∷◌, get_or, set, take, replicate, ltb, if◌then◌else◌,
}
use libmezia.Types.{opus_frame_samples}

abbrev pub ring_frames : ℕ
ring_frames = 10

abbrev pub ring_samples : ℕ
ring_samples = 9600

-- `mezia_audio_ring_t`
pub record Ring : Type 0 where
  pub samples : List ℕ
  pub read_at : ℕ
  pub write_at : ℕ
  pub count : ℕ

-- The zeroed array, kept shut: it is long.
pub zero_samples : List ℕ
zero_samples = replicate ring_samples 0

-- `mezia_audio_ring_init`
unfoldable pub init : Ring
init = record { samples = zero_samples; read_at = 0; write_at = 0; count = 0 }

-- `mezia_audio_ring_space`
unfoldable pub space : Ring → ℕ
space r = ring_samples - r.count

-- `mezia_audio_ring_available`
unfoldable pub available : Ring → ℕ
available r = r.count

-- One round of the writing loop.
abbrev pub put : Ring → ℕ → Ring
put r x = record r {
  samples = set r.samples r.write_at x;
  write_at = (r.write_at + 1) % ring_samples;
  count = r.count + 1;
}

unfoldable pub write_loop : Ring → List ℕ → ℕ → Ring × ℕ
write_loop r [] written = (r, written)
write_loop r (x ∷ pcm) written =
    let rest = write_loop (put r x) pcm (written + 1) in
    if ltb r.count ring_samples then rest else (r, written)

-- `mezia_audio_ring_write`: the first `samples` of what `pcm` points to.
unfoldable pub write : Ring → List ℕ → ℕ → Ring × ℕ
write r pcm samples = write_loop r (take samples pcm) 0

-- One round of the reading loop.
abbrev pub skip : Ring → Ring
skip r = record r { read_at = (r.read_at + 1) % ring_samples; count = r.count - 1 }

-- `mezia_audio_ring_read`: the samples that it writes to `pcm`; it returns how many they are.
unfoldable pub read : Ring → ℕ → Ring × List ℕ
read r zero = (r, [])
read r (suc left) =
    let (r', rest) = read (skip r) left in
    if ltb 0 r.count then (r', get_or r.samples r.read_at 0 ∷ rest) else (r, [])
