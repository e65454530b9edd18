-- ===== src/Opus.antt =====
-- The codec as src/audio/audio.c uses it: src/audio/opus.c wraps libopus, which is outside the
-- repository, so its encoder and decoder are parameters of the model.
pub mod Wrapper
pub mod Synced
use libmezia.Prelude.{ℕ, List, Option, Bool}
use libmezia.Types.{Status}

-- The codec's operations, each with its state before and after. `encode` takes the PCM and the room
-- for the packet, and hands back the packet's bytes; `decode` takes the payload (`none` asks for
-- concealment) and whether to decode its FEC data, and hands back the PCM.
pub record Codec : Type 1 where
  pub State : Type 0
  pub encode : State → List ℕ → ℕ → Status × List ℕ × State
  pub decode : State → Option (List ℕ) → Bool → Status × List ℕ × State
  pub set_network_state : State → ℕ → ℕ → Status × State
