-- ===== src/Audio/Adapted.antt =====
-- The loss reports of src/audio/audio.c reach the encoder: the bitrate controller, the audio context
-- and the wrapper of src/audio/opus.c together.
use libmezia.Prelude.{◌≡◌}
use libmezia.Bitrate
use libmezia.Bitrate.Range
use libmezia.Opus.Wrapper.{LibOpus, OpusCodec}
use libmezia.Opus.Synced.{Documented, AcceptsLoss}
use libmezia.Audio.{Audio}

module _ (L : LibOpus) (doc : Documented L) (takes : AcceptsLoss L) where
  open doc use {bitrate_of, loss_of}

  -- The encoder runs with what the controller has decided, and the counters tell the same.
  pub record IsApplied (a : Audio) (s : OpusCodec L) : Type 0 where
    pub rate : bitrate_of s.encoder ≡ a.controller.current_bitrate
    pub loss : loss_of s.encoder ≡ a.controller.loss_percent
    pub noted : s.bitrate ≡ a.controller.current_bitrate
    pub told : a.stats.audio_current_bitrate_bps ≡ a.controller.current_bitrate
