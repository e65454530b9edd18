-- ===== src/Media/Cramped.antt =====
-- A context of src/media/media.c that is created with the default MTU for its audio part.
use libmezia.Prelude.{
  ℕ, ◌≡◌, refl, ap, sym, subst, ◌∙◌, List, Option, none, some, Bool, ◌||◌, not, some-injective,
  none-ne-some, arith,
}
use libmezia.Types.{default_mtu}
use libmezia.Opus.{Codec}
use libmezia.Audio
use libmezia.Audio.{
  Audio, AudioConfig, with_codec, with_defaults, fresh, config_fits, times_fit, or_default,
}
use libmezia.Video.{VideoConfig, Video}
use libmezia.Peer.{Peer}
use libmezia.Media.{
  MediaCtx, MediaConfig, Memory, create, with_peer, add_audio, add_video, put_audio, put_video,
  blank, types_collide, audio_mtu_differs, video_mtu_differs,
}
use libmezia.Media.Life.{past}

module _ (c : Codec) where
  open c use {State}

  -- The audio part that is made with the default MTU, and what its packets are stored in.
  pub record IsCramped (mtu : ℕ) (m : MediaCtx c) : Type 0 where
    pub audio : Audio
    pub codec : State
    pub here : m.audio ≡ some (audio, codec)
    pub room : m.audio_packet.capacity ≡ mtu
    pub wants : audio.config.mtu ≡ default_mtu

  with_codec-config :
      (full : AudioConfig) (o : Option State) (x : Audio × State)
      → with_codec full o ≡ some x
      → full ≡ x.0.config
  unfolding fresh
  with_codec-config full none x e = absurd (none-ne-some _ e)
  with_codec-config full (some s) x e =
      ap (λ (y : Audio × State). y.0.config) (some-injective _ _ e)

  created_audio :
      (a : AudioConfig) (ok : Bool) (codec : ℕ → Option State) (x : Audio × State)
      → a.mtu ≡ 0
      → Audio.create (some a) ok codec ≡ some x
      → x.0.config.mtu ≡ default_mtu
  unfolding Audio.create
  created_audio a ok codec x zero e =
      let full = with_defaults a in
      let default : full.mtu ≡ default_mtu = ground (arith, zero) in
      ap (λ (f : AudioConfig). f.mtu)
        (sym (
          with_codec-config full _ x (
            past (not (times_fit full.adaptation)) (past (not ok) (past (not (config_fits a)) e)))))
      ∙ default

  put_audio-IsCramped :
      (mtu : ℕ) (m n : MediaCtx c) (pt : ℕ) (made : Option (Audio × State))
      (storage : Option (List ℕ))
      → m.mtu ≡ mtu
      → ((x : Audio × State) → made ≡ some x → x.0.config.mtu ≡ default_mtu)
      → put_audio c m pt made storage ≡ some n
      → IsCramped mtu n
  put_audio-IsCramped mtu m n pt none storage same wants e = absurd (none-ne-some _ e)
  put_audio-IsCramped mtu m n pt (some x) none same wants e = absurd (none-ne-some _ e)
  put_audio-IsCramped mtu m n pt (some x) (some storage) same wants e =
      subst (IsCramped mtu) (some-injective _ _ e)
        (record { audio = x.0; codec = x.1; here = refl; room = same; wants = wants x refl })

  put_video-IsCramped :
      (mtu : ℕ) (m n : MediaCtx c) (pt : ℕ) (made : Option Video)
      → IsCramped mtu m
      → put_video c m pt made ≡ some n
      → IsCramped mtu n
  put_video-IsCramped mtu m n pt none v e = absurd (none-ne-some _ e)
  put_video-IsCramped mtu m n pt (some w) v e =
      subst (IsCramped mtu) (some-injective _ _ e)
        (record { audio = v.audio; codec = v.codec; here = v.here; room = v.room; wants = v.wants })

  add_video-IsCramped :
      (mtu : ℕ) (memory : Memory c) (video : Option VideoConfig) (o : Option (MediaCtx c))
      (n : MediaCtx c)
      → ((m : MediaCtx c) → o ≡ some m → IsCramped mtu m)
      → add_video c memory video o ≡ some n
      → IsCramped mtu n
  unfolding add_video
  add_video-IsCramped mtu memory video none n made e = absurd (none-ne-some _ e)
  add_video-IsCramped mtu memory none (some m) n made e = made n e
  add_video-IsCramped mtu memory (some v) (some m) n made e =
      put_video-IsCramped mtu m n _ _ (made m refl) e

  add_audio-IsCramped :
      (mtu : ℕ) (memory : Memory c) (audio : Option AudioConfig) (a : AudioConfig)
      (m n : MediaCtx c)
      → audio ≡ some a
      → a.mtu ≡ 0
      → m.mtu ≡ mtu
      → add_audio c memory audio m ≡ some n
      → IsCramped mtu n
  unfolding add_audio
  add_audio-IsCramped mtu memory none a m n has zero same e = absurd (none-ne-some _ has)
  add_audio-IsCramped mtu memory (some b) a m n has zero same e =
      let default : b.mtu ≡ 0 = ap (λ (x : AudioConfig). x.mtu) (some-injective _ _ has) ∙ zero in
      put_audio-IsCramped mtu m n _ (Audio.create (some b) memory.audio memory.codec) _ same
        (λ x. created_audio b memory.audio memory.codec x default) e

  with_peer-IsCramped :
      (mtu : ℕ) (config : MediaConfig) (memory : Memory c) (a : AudioConfig) (o : Option Peer)
      (n : MediaCtx c)
      → config.audio ≡ some a
      → a.mtu ≡ 0
      → or_default config.peer.mtu default_mtu ≡ mtu
      → with_peer c memory config o ≡ some n
      → IsCramped mtu n
  with_peer-IsCramped mtu config memory a none n has zero same e = absurd (none-ne-some _ e)
  with_peer-IsCramped mtu config memory a (some peer) n has zero same e =
      add_video-IsCramped mtu memory config.video _ n
        (λ m. add_audio-IsCramped mtu memory config.audio a (blank c config peer) m has zero same) e

  pub create-IsCramped :
      (config : MediaConfig) (memory : Memory c) (a : AudioConfig) (m : MediaCtx c)
      → config.audio ≡ some a
      → a.mtu ≡ 0
      → create c (some config) memory ≡ some m
      → IsCramped (or_default config.peer.mtu default_mtu) m
  unfolding create
  create-IsCramped config memory a m has zero e =
      let mtu = or_default config.peer.mtu default_mtu in
      with_peer-IsCramped mtu config memory a _ m has zero refl (
        past (audio_mtu_differs config.audio mtu || video_mtu_differs config.video mtu)
          (past (not memory.ctx) (past (types_collide config) e)))
