-- ===== src/Opus/Wrapper.antt =====
-- src/audio/opus.c over libopus, which is outside the repository and a parameter here.
use libmezia.Prelude.{
  ℕ, List, [], ◌∷◌, Option, none, some, Bool, true, false, ◌&&◌, ◌||◌, not, ltb, ◌==◌,
  if◌then◌else◌, length,
}
use libmezia.Types.{
  Status, opus_frame_samples, opus_expected_loss_percent, opus_sample_rate, opus_channels,
}
use libmezia.Opus.{Codec}

-- The results of libopus that the wrapper tells apart; `other` is any other negative number.
pub data OpusError : Type 0 where
  buffer_too_small bad_arg invalid_packet other : OpusError

-- A call that answers a number below 0 on an error.
pub data Answer (A : Type 0) : Type 0 where
  good : A → Answer A
  bad : OpusError → Answer A

-- The requests of `opus_encoder_ctl` that the wrapper makes.
pub data Request : Type 0 where
  set_bitrate set_packet_loss_perc set_complexity set_lsb_depth : ℕ → Request
  set_vbr set_vbr_constraint set_dtx set_inband_fec : Bool → Request
  set_signal_voice : Request

-- What the wrapper calls, each with the coder's state before and after. `encode` hands back the
-- bytes that it wrote, and `decode` the samples.
pub record LibOpus : Type 1 where
  pub Encoder : Type 0
  pub Decoder : Type 0
  pub encoder_create : ℕ → ℕ → Option Encoder × Bool
  pub decoder_create : ℕ → ℕ → Option Decoder × Bool
  pub ctl : Encoder → Request → Bool × Encoder
  pub encode : Encoder → List ℕ → ℕ → ℕ → Answer (List ℕ) × Encoder
  pub decode : Decoder → Option (List ℕ) → ℕ → Bool → Answer (List ℕ) × Decoder

abbrev pub int32_max : ℕ
int32_max = 2147483647

-- `map_opus_error`
unfoldable pub map_opus_error : OpusError → Status
map_opus_error buffer_too_small = Status.buffer_too_small
map_opus_error bad_arg = Status.invalid_arg
map_opus_error invalid_packet = Status.malformed_packet
map_opus_error other = Status.codec_error

module _ (L : LibOpus) where
  open L use {Encoder, Decoder, encoder_create, decoder_create, ctl}

  -- `struct mezon_opus_codec`
  pub record OpusCodec : Type 0 where
    pub encoder : Encoder
    pub decoder : Decoder
    pub bitrate : ℕ
    pub loss_percent : ℕ

  -- A chain of requests under `&&`: the first that fails is the last that is made.
  unfoldable pub ctl_all : Encoder → List Request → Bool × Encoder
  ctl_all e [] = (true, e)
  ctl_all e (r ∷ rest) =
      let (done, e') = ctl e r in let more = ctl_all e' rest in if done then more else (false, e')

  abbrev pub settings : ℕ → List Request
  settings bitrate =
      set_bitrate bitrate
      ∷ set_vbr true
      ∷ set_vbr_constraint true
      ∷ set_complexity 5
      ∷ set_dtx true
      ∷ set_inband_fec true
      ∷ set_packet_loss_perc opus_expected_loss_percent
      ∷ set_signal_voice
      ∷ set_lsb_depth 16
      ∷ []

  -- `configure_encoder`
  unfoldable pub configure_encoder : Encoder → ℕ → Bool × Encoder
  configure_encoder e bitrate = ctl_all e (settings bitrate)

  -- The decoder, once the encoder is set up.
  abbrev pub with_decoder : Encoder → ℕ → Option Decoder × Bool → Option OpusCodec
  with_decoder e initial_bitrate (none, fine) = none
  with_decoder e initial_bitrate (some d, fine) =
      if fine
      then some (record {
        encoder = e;
        decoder = d;
        bitrate = initial_bitrate;
        loss_percent = opus_expected_loss_percent;
      })
      else none

  abbrev pub with_encoder : ℕ → Option Encoder × Bool → Option OpusCodec
  with_encoder initial_bitrate (none, fine) = none
  with_encoder initial_bitrate (some e, fine) =
      let (done, e') = configure_encoder e initial_bitrate in
      if fine && done
      then with_decoder e' initial_bitrate (decoder_create opus_sample_rate opus_channels)
      else none

  -- `mezon_opus_create`: `calloc_ok` is whether the codec is allocated.
  unfoldable pub create : Bool → ℕ → Option OpusCodec
  create calloc_ok initial_bitrate =
      if calloc_ok
      then with_encoder initial_bitrate (encoder_create opus_sample_rate opus_channels)
      else none

  -- `mezon_opus_set_network_state` on a codec that is not null.
  unfoldable pub set_network_state : OpusCodec → ℕ → ℕ → Status × OpusCodec
  set_network_state s bitrate loss_percent =
      let (rated, e1) = ctl s.encoder (set_bitrate bitrate) in
      let (protected, e2) = ctl e1 (set_packet_loss_perc loss_percent) in
      let (restored, e3) = ctl e2 (set_bitrate s.bitrate) in
      if ltb bitrate 6000 || ltb 510000 bitrate || ltb 100 loss_percent
      then (Status.invalid_arg, s)
      else if not rated
      then (Status.codec_error, record s { encoder = e1 })
      else if not protected
      then (Status.codec_error, record s { encoder = e3 })
      else (Status.ok, record s { encoder = e2; bitrate = bitrate; loss_percent = loss_percent })

  abbrev pub encoded : OpusCodec → Answer (List ℕ) × Encoder → Status × List ℕ × OpusCodec
  encoded s (bad error, e) = (map_opus_error error, [], record s { encoder = e })
  encoded s (good bytes, e) = (Status.ok, bytes, record s { encoder = e })

  -- `mezon_opus_encode` on pointers that are not null: the bytes are those written to `output`.
  unfoldable pub encode : OpusCodec → List ℕ → ℕ → Status × List ℕ × OpusCodec
  encode s pcm output_capacity =
      let room = if ltb int32_max output_capacity then int32_max else output_capacity in
      if output_capacity == 0
      then (Status.invalid_arg, [], s)
      else encoded s (L.encode s.encoder pcm opus_frame_samples room)

  abbrev pub decoded : OpusCodec → Answer (List ℕ) × Decoder → Status × List ℕ × OpusCodec
  decoded s (bad error, d) = (map_opus_error error, [], record s { decoder = d })
  decoded s (good pcm, d) =
      if length pcm == opus_frame_samples
      then (Status.ok, pcm, record s { decoder = d })
      else (Status.codec_error, pcm, record s { decoder = d })

  -- The length of the payload, 0 for a null pointer.
  abbrev pub payload_len : Option (List ℕ) → ℕ
  payload_len none = 0
  payload_len (some payload) = length payload

  -- `mezon_opus_decode` on pointers that are not null, but for the payload.
  unfoldable pub decode : OpusCodec → Option (List ℕ) → Bool → Status × List ℕ × OpusCodec
  decode s payload decode_fec =
      if ltb int32_max (payload_len payload)
      then (Status.invalid_arg, [], s)
      else decoded s (L.decode s.decoder payload opus_frame_samples decode_fec)

  -- The wrapper is a codec for the audio context.
  abbrev pub opus_codec : Codec
  opus_codec = record {
    State = OpusCodec;
    encode = encode;
    decode = decode;
    set_network_state = set_network_state;
  }
