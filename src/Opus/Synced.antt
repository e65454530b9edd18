-- ===== src/Opus/Synced.antt =====
-- The wrapper of src/audio/opus.c keeps its record of the encoder's settings true.
use libmezia.Prelude.{List, ◌∙◌, ◌==◌, ℕ, ◌≤◌, ◌≡◌, true, false, not, ◌||◌, ltb, if_cases, arith}
use libmezia.Types.{Status}
use libmezia.Opus.Wrapper.{
  LibOpus, Request, OpusCodec, Answer, good, bad, set_network_state, encoded, encode,
}

-- What the documentation of libopus says of two of its settings: what a request sets and keeps, that
-- a request that fails changes nothing, and which bitrates are accepted. A request for a loss may fail.
pub record Documented (L : LibOpus) : Type 0 where
  pub bitrate_of : L.Encoder → ℕ
  pub loss_of : L.Encoder → ℕ
  pub sets_bitrate :
      (e : L.Encoder) (b : ℕ)
      → 500 ≤ b
      → b ≤ 512000
      → ((L.ctl e (Request.set_bitrate b)).0 ≡ true)
        × (bitrate_of (L.ctl e (Request.set_bitrate b)).1 ≡ b)
        × (loss_of (L.ctl e (Request.set_bitrate b)).1 ≡ loss_of e)
  pub keeps_bitrate :
      (e : L.Encoder) (p : ℕ)
      → bitrate_of (L.ctl e (Request.set_packet_loss_perc p)).1 ≡ bitrate_of e
  pub sets_loss :
      (e : L.Encoder) (p : ℕ)
      → (L.ctl e (Request.set_packet_loss_perc p)).0 ≡ true
      → loss_of (L.ctl e (Request.set_packet_loss_perc p)).1 ≡ p
  pub failed_loss :
      (e : L.Encoder) (p : ℕ)
      → (L.ctl e (Request.set_packet_loss_perc p)).0 ≡ false
      → loss_of (L.ctl e (Request.set_packet_loss_perc p)).1 ≡ loss_of e
  pub encode_keeps :
      (e : L.Encoder) (pcm : List ℕ) (samples room : ℕ)
      → (bitrate_of (L.encode e pcm samples room).1 ≡ bitrate_of e)
        × (loss_of (L.encode e pcm samples room).1 ≡ loss_of e)

-- A loss of up to 100 percent is accepted.
pub record AcceptsLoss (L : LibOpus) : Type 0 where
  pub accepts_loss :
      (e : L.Encoder) (p : ℕ) → p ≤ 100 → (L.ctl e (Request.set_packet_loss_perc p)).0 ≡ true

module _ (L : LibOpus) (doc : Documented L) where
  open doc use {bitrate_of, loss_of}

  -- The settings of the encoder are those that the wrapper has noted.
  pub record IsSynced (s : OpusCodec L) : Type 0 where
    pub rate : bitrate_of s.encoder ≡ s.bitrate
    pub loss : loss_of s.encoder ≡ s.loss_percent
    pub low : 500 ≤ s.bitrate
    pub high : s.bitrate ≤ 512000

  abbrev Good : Status × OpusCodec L → Type 0
  Good t = IsSynced t.1

  -- Whatever bitrate and loss are asked for, and whether libopus takes the loss or refuses it: the
  -- settings of the encoder are those noted afterwards, since a bitrate that was set is set back.
  pub set_network_state-IsSynced :
      (s : OpusCodec L) (bitrate loss_percent : ℕ)
      → IsSynced s
      → IsSynced (set_network_state L s bitrate loss_percent).1
  unfolding set_network_state
  set_network_state-IsSynced s bitrate p v =
      if_cases Good (ltb bitrate 6000 || ltb 510000 bitrate || ltb 100 p) (λ _. v)
        (λ taken.
          let e1 = (L.ctl s.encoder (Request.set_bitrate bitrate)).1 in
          let e2 = (L.ctl e1 (Request.set_packet_loss_perc p)).1 in
          let rated = doc.sets_bitrate s.encoder bitrate (ground arith) (ground arith) in
          let back = doc.sets_bitrate e2 s.bitrate v.low v.high in
          if_cases Good (not (L.ctl s.encoder (Request.set_bitrate bitrate)).0)
            (λ refused. absurd (ground (arith, rated.0)))
            (λ _.
              if_cases Good (not (L.ctl e1 (Request.set_packet_loss_perc p)).0)
                (λ failed. record {
                  rate = back.1;
                  loss = back.2 ∙ doc.failed_loss e1 p (ground arith) ∙ rated.2 ∙ v.loss;
                  low = v.low;
                  high = v.high;
                })
                (λ done. record {
                  rate = doc.keeps_bitrate e1 p ∙ rated.1;
                  loss = doc.sets_loss e1 p (ground arith);
                  low = ground arith;
                  high = ground arith;
                })))

  abbrev Kept : Status × List ℕ × OpusCodec L → Type 0
  Kept t = IsSynced t.2

  encoder-IsSynced :
      (s : OpusCodec L) (e : L.Encoder)
      → (bitrate_of e ≡ bitrate_of s.encoder) × (loss_of e ≡ loss_of s.encoder)
      → IsSynced s
      → IsSynced (record s { encoder = e })
  encoder-IsSynced s e same v = record {
    rate = same.0 ∙ v.rate;
    loss = same.1 ∙ v.loss;
    low = v.low;
    high = v.high;
  }

  encoded-IsSynced :
      (s : OpusCodec L) (a : Answer (List ℕ) × L.Encoder)
      → (bitrate_of a.1 ≡ bitrate_of s.encoder) × (loss_of a.1 ≡ loss_of s.encoder)
      → IsSynced s
      → Kept (encoded L s a)
  encoded-IsSynced s (bad error, e) same v = encoder-IsSynced s e same v
  encoded-IsSynced s (good bytes, e) same v = encoder-IsSynced s e same v

  -- Encoding does not touch the settings.
  pub encode-IsSynced :
      (s : OpusCodec L) (pcm : List ℕ) (output_capacity : ℕ)
      → IsSynced s
      → IsSynced (encode L s pcm output_capacity).2
  unfolding encode
  encode-IsSynced s pcm room v =
      if_cases Kept (room == 0) (λ _. v)
        (λ _. encoded-IsSynced s _ (doc.encode_keeps s.encoder pcm 960 _) v)
