-- ===== src/Tests/Device.antt =====
-- platform/common/audio_ring.h, platform/common/nal_split.h and src/audio/opus.c at fixed inputs.
use libmezia.Prelude.{
  ℕ, ◌≡◌, refl, List, [], ◌∷◌, some, Bool, true, false, arith, min, u32, ◌*◌, ◌/◌, take, length,
  ltb, if◌then◌else◌,
}
use libmezia.Ring
use libmezia.Nal.{split_annexb, rtp_video_timestamp}
use libmezia.Nal.Split.{is_escaped, stream, visits, split_annexb-stream}
use libmezia.Nal.Clock.{rtp_video_timestamp-exact}
use libmezia.Ring.{Ring}
use libmezia.Ring.Refine
use libmezia.Ring.Refine.{Wrote, TookOut, write_refines, read_refines, init-IsValid}
use libmezia.Types.{Status}
use libmezia.Opus.Wrapper.{LibOpus, Request, Answer, OpusCodec, set_network_state}
use libmezia.Opus.Synced.{Documented, IsSynced, set_network_state-IsSynced}

abbrev three : List ℕ
three = 4 ∷ 5 ∷ 6 ∷ []

write_refines_example :
    Wrote Ring.init (Ring.write Ring.init three 2).0 (take 2 three)
    × ((Ring.write Ring.init three 2).1 ≡ min (Ring.space Ring.init) (length (take 2 three)))
write_refines_example = write_refines Ring.init three 2 init-IsValid.0

abbrev filled : Ring
filled = (Ring.write Ring.init three 2).0

filled-IsValid : Refine.IsValid filled
filled-IsValid = (write_refines Ring.init three 2 init-IsValid.0).0.valid

read_refines_example : TookOut filled (Ring.read filled 5).0 5 (Ring.read filled 5).1
read_refines_example = read_refines filled 5 filled-IsValid

-- An encoder that is its two settings, and refuses a loss above the limit.
abbrev obey : ℕ → ℕ × ℕ → Request → Bool × (ℕ × ℕ)
obey limit (b, p) (Request.set_bitrate n) = (true, (n, p))
obey limit (b, p) (Request.set_packet_loss_perc n) =
    if ltb limit n then (false, (b, p)) else (true, (b, n))
obey limit e request = (true, e)

abbrev opus_up_to : ℕ → LibOpus
opus_up_to limit = record {
  Encoder = ℕ × ℕ;
  Decoder = ℕ;
  encoder_create = λ rate channels. (some (0, 0), true);
  decoder_create = λ rate channels. (some 0, true);
  ctl = obey limit;
  encode = λ e pcm samples room. (Answer.good (take room pcm), e);
  decode = λ d content samples fec. (Answer.good [], d);
}

obeys_loss :
    (limit b p n : ℕ)
    → (obey limit (b, p) (Request.set_packet_loss_perc n)).0 ≡ true
    → (obey limit (b, p) (Request.set_packet_loss_perc n)).1.1 ≡ n
obeys_loss limit b p n e = ground arith

obeys_rate : (limit b p n : ℕ) → (obey limit (b, p) (Request.set_packet_loss_perc n)).1.0 ≡ b
obeys_rate limit b p n = ground arith

obeys_failed :
    (limit b p n : ℕ)
    → (obey limit (b, p) (Request.set_packet_loss_perc n)).0 ≡ false
    → (obey limit (b, p) (Request.set_packet_loss_perc n)).1.1 ≡ p
obeys_failed limit b p n failed = ground arith

abbrev documented : (limit : ℕ) → Documented (opus_up_to limit)
documented limit = record {
  bitrate_of = λ e. e.0;
  loss_of = λ e. e.1;
  sets_bitrate = λ e b low high. (refl, refl, refl);
  keeps_bitrate = λ e p. obeys_rate limit e.0 e.1 p;
  sets_loss = λ e p done. obeys_loss limit e.0 e.1 p done;
  failed_loss = λ e p failed. obeys_failed limit e.0 e.1 p failed;
  encode_keeps = λ e pcm samples room. (refl, refl);
}

abbrev opus : (limit : ℕ) → OpusCodec (opus_up_to limit)
opus limit = record { encoder = (24000, 10); decoder = 0; bitrate = 24000; loss_percent = 10 }

-- The loss is refused, so the bitrate is set back.
loss_refused : set_network_state (opus_up_to 12) (opus 12) 32000 15 ≡ (Status.codec_error, opus 12)
unfolding set_network_state
loss_refused = refl

set_network_state-IsSynced_example :
    IsSynced
      (opus_up_to 12)
      (documented 12)
      (set_network_state (opus_up_to 12) (opus 12) 32000 15).1
set_network_state-IsSynced_example =
    set_network_state-IsSynced (opus_up_to 12) (documented 12) (opus 12) 32000 15
      (record { rate = refl; loss = refl; low = omega arith; high = omega arith })

-- A parameter set, with two zeros inside, and a slice.
abbrev parameters : List ℕ
parameters = 103 ∷ 0 ∷ 0 ∷ 3 ∷ 1 ∷ []

abbrev slice : List ℕ
slice = 65 ∷ 1 ∷ 0 ∷ 128 ∷ []

slice_escaped : is_escaped slice ≡ true
unfolding is_escaped
slice_escaped = refl

parameters_escaped : is_escaped parameters ≡ true
unfolding is_escaped
parameters_escaped = refl

-- The parameters behind a long start code, the slice behind a short one.
abbrev both_units : List ℕ
both_units = stream ((true, parameters) ∷ (false, slice) ∷ [])

split_annexb-stream_example :
    split_annexb both_units (length both_units) ≡ visits parameters ((false, slice) ∷ [])
split_annexb-stream_example =
    split_annexb-stream true parameters ((false, slice) ∷ []) (omega arith, parameters_escaped)
      ((omega arith, slice_escaped), tt)

rtp_video_timestamp-exact_example :
    (rtp_video_timestamp 1000000000 ≡ u32 (1000000000 * 90000 / 1000000000))
    × (rtp_video_timestamp 204963823041217 ≡ 1266874889)
    × (rtp_video_timestamp 204963823041218 ≡ 0)
rtp_video_timestamp-exact_example = rtp_video_timestamp-exact 1000000000 (omega arith)
