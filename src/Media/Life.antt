-- ===== src/Media/Life.antt =====
-- The life of a context of src/media/media.c: from its creation on, every order of its operations and
-- of its worker's rounds.
use libmezia.Prelude.{
  ℕ, ◌≡◌, ◌≤◌, ◌^◌, ◌⊎◌, refl, inl, inr, List, Option, none, some, Bool, true, false, not, ◌||◌,
  if_cases, Option-cases, length, some-injective, none-ne-some, if◌then◌else◌, arith, subst,
  Bool-cases,
}
use libmezia.Types.{Status, is_ok, default_mtu}
use libmezia.Opus.{Codec}
use libmezia.Audio
use libmezia.Audio.{Audio, AudioConfig, or_default}
use libmezia.Audio.Valid as AudioValid
use libmezia.Video
use libmezia.Video.{Video, VideoConfig}
use libmezia.Video.Life.{new_video}
use libmezia.Video.Receive as VideoReceive
use libmezia.Peer
use libmezia.Peer.{Peer, PeerConfig, Network, Incoming}
use libmezia.Peer.Life
use libmezia.Media.{
  audio_mtu_differs, video_mtu_differs, types_collide, MediaCtx, MediaConfig, Memory, create,
  with_peer, add_audio, add_video, put_audio, put_video, blank, start, stop, note_start,
}
use libmezia.Media.Receiver.{media_round}
use libmezia.Media.Sender.{Outlet, Surroundings, send_audio, playout_audio, send_h264}
use libmezia.Media.Valid
use libmezia.Media.Valid.{IsValid, IsBrought, peer-IsValid, media_round-IsValid}
use libmezia.Media.Sends.{send_audio-IsValid, playout_audio-IsValid}
use libmezia.Media.Pictures.{send_h264-IsValid}

-- A chain of checks that ends with something has passed each of them.
pub past {ℓ} :
    {A : Type ℓ} (b : Bool) {x : Option A} {y : A} → (if b then none else x) ≡ some y → x ≡ some y
past true e = absurd (none-ne-some _ e)
past false e = e

-- `malloc`: a block has the size asked for.
abbrev pub IsSized : (ℕ → Option (List ℕ)) → Type 0
IsSized malloc = (n : ℕ) (b : List ℕ) → malloc n ≡ some b → length b ≡ n

-- No block of C is longer.
abbrev pub NalFits : Option VideoConfig → Type 0
NalFits none = Unit
NalFits (some v) = (Video.with_defaults v).max_nal_size ≤ 2 ^ 63

made_video :
    (c : VideoConfig) (calloc_ok : Bool) (malloc : ℕ → Option (List ℕ)) (v : Video) (b : List ℕ)
    → malloc (Video.with_defaults c).max_nal_size ≡ some b
    → Video.create (some c) calloc_ok malloc ≡ some v
    → new_video c b ≡ v
unfolding Video.create new_video
made_video c calloc_ok malloc v b got e = ground arith

create_video-IsValid :
    (config : VideoConfig) (calloc_ok : Bool) (malloc : ℕ → Option (List ℕ)) (v : Video)
    → IsSized malloc
    → NalFits (some config)
    → Video.create (some config) calloc_ok malloc ≡ some v
    → VideoReceive.IsValid v
unfolding Video.create new_video
create_video-IsValid config calloc_ok malloc v sized fits e =
    elim (Option-cases (malloc (Video.with_defaults config).max_nal_size)) [
      | inl full ↦ absurd (ground arith)
      | inr (b, got) ↦
          subst VideoReceive.IsValid (made_video config calloc_ok malloc v b got e) (record {
            room = ground arith;
            size = sized _ b got;
            fits = omega arith;
            started = inl refl;
            addressable = fits;
          })
    ]

module _ (c : Codec) where
  open c use {State}

  -- A context that has no worker yet.
  record IsQuiet (config : MediaConfig) (m : MediaCtx c) : Type 0 where
    idle : m.running ≡ false
    same : (m.peer.config.on_packet ≡ true) × Life.IsValid m.peer
    sound : Valid.AudioIsValid c m.audio
    picture : Valid.VideoIsValid c m.video

  put_audio-IsQuiet :
      (config : MediaConfig) (a : AudioConfig) (m n : MediaCtx c) (pt : ℕ)
      (made : Option (Audio × State)) (storage : Option (List ℕ))
      → ((x : Audio × State) → made ≡ some x → AudioValid.IsValid x.0)
      → IsQuiet config m
      → put_audio c m pt made storage ≡ some n
      → IsQuiet config n
  put_audio-IsQuiet config a m n pt none storage fine q e = absurd (none-ne-some _ e)
  put_audio-IsQuiet config a m n pt (some x) none fine q e = absurd (none-ne-some _ e)
  put_audio-IsQuiet config a m n pt (some x) (some storage) fine q e =
      subst (IsQuiet config) (some-injective _ _ e)
        (record { idle = q.idle; same = q.same; sound = fine x refl; picture = q.picture })

  add_audio-IsQuiet :
      (config : MediaConfig) (memory : Memory c) (a : Option AudioConfig) (m n : MediaCtx c)
      → IsQuiet config m
      → add_audio c memory a m ≡ some n
      → IsQuiet config n
  unfolding add_audio
  add_audio-IsQuiet config memory none m n q e = subst (IsQuiet config) (some-injective _ _ e) q
  add_audio-IsQuiet config memory (some a) m n q e =
      put_audio-IsQuiet config a m n _ (Audio.create (some a) memory.audio memory.codec) _
        (λ x made. AudioValid.create-IsValid a memory.audio memory.codec x.0 x.1 made) q e

  put_video-IsQuiet :
      (config : MediaConfig) (m n : MediaCtx c) (pt : ℕ) (made : Option Video)
      → ((v : Video) → made ≡ some v → VideoReceive.IsValid v)
      → IsQuiet config m
      → put_video c m pt made ≡ some n
      → IsQuiet config n
  put_video-IsQuiet config m n pt none fine q e = absurd (none-ne-some _ e)
  put_video-IsQuiet config m n pt (some v) fine q e =
      subst (IsQuiet config) (some-injective _ _ e)
        (record { idle = q.idle; same = q.same; sound = q.sound; picture = fine v refl })

  add_video-IsQuiet :
      (config : MediaConfig) (memory : Memory c) (v : Option VideoConfig) (x : Option (MediaCtx c))
      (n : MediaCtx c)
      → IsSized memory.nal
      → NalFits v
      → ((m : MediaCtx c) → x ≡ some m → IsQuiet config m)
      → add_video c memory v x ≡ some n
      → IsQuiet config n
  unfolding add_video
  add_video-IsQuiet config memory v none n sized fits q e = absurd (none-ne-some _ e)
  add_video-IsQuiet config memory none (some m) n sized fits q e = q n e
  add_video-IsQuiet config memory (some v) (some m) n sized fits q e =
      put_video-IsQuiet config m n _ (Video.create (some v) memory.video memory.nal)
        (λ w made. create_video-IsValid v memory.video memory.nal w sized fits made) (q m refl) e

  with_peer-IsQuiet :
      (config : MediaConfig) (memory : Memory c) (p : Option Peer) (n : MediaCtx c)
      → IsSized memory.nal
      → NalFits config.video
      → ((q : Peer) → p ≡ some q → (q.config.on_packet ≡ true) × Life.IsValid q)
      → with_peer c memory config p ≡ some n
      → IsQuiet config n
  with_peer-IsQuiet config memory none n sized fits valid e = absurd (none-ne-some _ e)
  with_peer-IsQuiet config memory (some p) n sized fits valid e =
      add_video-IsQuiet config memory config.video _ n sized fits
        (λ m.
          add_audio-IsQuiet config memory config.audio (blank c config p) m
            (record { idle = refl; same = valid p refl; sound = tt; picture = tt }))
        e

  listening :
      (config : PeerConfig) (ok : Bool) (q : Peer)
      → Peer.create (some (record config { on_packet = true })) ok ≡ some q
      → q.config.on_packet ≡ true
  unfolding Peer.create
  listening config ok q e = ground arith

  -- A created context is valid and does not run, if the video buffer that the allocator returns has
  -- the size asked for, which is that of a block of C.
  pub create_media-IsValid :
      (config : MediaConfig) (memory : Memory c) (m : MediaCtx c)
      → IsSized memory.nal
      → NalFits config.video
      → create c (some config) memory ≡ some m
      → IsValid c m × (m.running ≡ false)
  unfolding create
  create_media-IsValid config memory m sized fits e =
      let mtu = or_default config.peer.mtu default_mtu in
      let q =
        with_peer-IsQuiet config memory
          (Peer.create (some (record config.peer { on_packet = true })) memory.peer) m sized fits
          (λ p made. (
            listening config.peer memory.peer p made,
            Life.create-IsValid (record config.peer { on_packet = true }) memory.peer p made,
          ))
          (past (audio_mtu_differs config.audio mtu || video_mtu_differs config.video mtu)
            (past (not memory.ctx) (past (types_collide config) e))) in
      (
        record {
          peer = q.same.1;
          listens = q.same.0;
          runs = inl q.idle;
          sound = q.sound;
          picture = q.picture;
        },
        q.idle,
      )

  -- What happens to a context after its creation: its operations, from any thread, with whatever
  -- arguments, memory and answers of the operating system, and the rounds of its worker.
  pub data Step (m n : MediaCtx c) : Type 0 where
    starting : (w : Network) → n ≡ (start c w m).1 → Step m n
    stopping : (own_thread : Bool) → n ≡ (stop c own_thread m).1 → Step m n
    arriving :
        (e : Incoming) (now_ns : ℕ) → IsBrought c e → n ≡ (media_round c m e now_ns).0 → Step m n
    sending_audio :
        (e : Surroundings c) (pcm : Option (List ℕ)) (samples : ℕ)
        → n ≡ (send_audio c e m pcm samples).1
        → Step m n
    playing : (e : Surroundings c) (now_ns : ℕ) → n ≡ (playout_audio c e m now_ns).1 → Step m n
    sending_video :
        (o : Outlet) (calloc_ok : Bool) (malloc : ℕ → Option (List ℕ)) (nal : Option (List ℕ))
        (nal_len timestamp : ℕ) (eau : Bool)
        → n ≡ (send_h264 c o calloc_ok malloc m nal nal_len timestamp eau).1
        → Step m n

  pub data Reach (m : MediaCtx c) : MediaCtx c → Type 0 where
    here : Reach m m
    next : {n o : MediaCtx c} → Reach m n → Step n o → Reach m o

  started_runs :
      (w : Network) (m : MediaCtx c)
      → m.running ≡ false
      → let (status, n) = note_start c m (Peer.start w m.peer) in
        (n.running ≡ false) ⊎ (n.peer.running ≡ true)
  started_runs w m idle = elim (Bool-cases (is_ok (Peer.start w m.peer).0)) [
    | inl fine ↦ inr (Life.start-runs w m.peer fine)
    | inr failed ↦ inl (rw failed idle)
  ]

  start_media-IsValid : (w : Network) (m : MediaCtx c) → IsValid c m → IsValid c (start c w m).1
  unfolding start
  start_media-IsValid w m v =
      if_cases (λ (t : Status × MediaCtx c). IsValid c t.1) m.running (λ _. v)
        (λ idle.
          peer-IsValid c m (Peer.start w m.peer).1 _ (Life.start-IsValid w m.peer v.peer)
            (Life.start-config w m.peer) (started_runs w m idle) v)

  stop_media-IsValid :
      (own_thread : Bool) (m : MediaCtx c) → IsValid c m → IsValid c (stop c own_thread m).1
  unfolding stop
  stop_media-IsValid own_thread m v =
      if_cases (λ (t : Status × MediaCtx c). IsValid c t.1) m.running
        (λ _.
          peer-IsValid c m (Peer.stop own_thread m.peer).1 false
            (Life.stop-IsValid own_thread m.peer v.peer) (Life.stop-config own_thread m.peer)
            (inl refl) v)
        (λ _. v)

  pub Step-IsValid_media : {m n : MediaCtx c} → Step m n → IsValid c m → IsValid c n
  Step-IsValid_media {m} (Step.starting w e) v = rw e (start_media-IsValid w m v)
  Step-IsValid_media {m} (Step.stopping own_thread e) v = rw e (stop_media-IsValid own_thread m v)
  Step-IsValid_media {m} (Step.arriving d now_ns b e) v =
      rw e (media_round-IsValid c m d now_ns b v)
  Step-IsValid_media {m} (Step.sending_audio s pcm samples e) v =
      rw e (send_audio-IsValid c s m pcm samples v)
  Step-IsValid_media {m} (Step.playing s now_ns e) v = rw e (playout_audio-IsValid c s m now_ns v)
  Step-IsValid_media {m} (Step.sending_video o ok malloc nal nal_len timestamp eau e) v =
      rw e (send_h264-IsValid c o ok m malloc nal nal_len timestamp eau v)

  -- A context that was created, with a video buffer of the size asked for and a NAL limit of up to
  -- 2 ^ 63, stays valid through any starts, stops, sends and ticks of playout, in any order and from any
  -- thread, and through whatever datagrams of up to 1500 bytes its worker receives: the peer, the audio
  -- context with its jitter buffer and the video context keep their invariants, the peer calls the
  -- dispatch, and a context that runs has a peer that runs.
  pub Reach-IsValid_media :
      (config : MediaConfig) (memory : Memory c) {m n : MediaCtx c}
      → IsSized memory.nal
      → NalFits config.video
      → create c (some config) memory ≡ some m
      → Reach m n
      → IsValid c n
  Reach-IsValid_media config memory {m} sized fits made Reach.here =
      (create_media-IsValid config memory m sized fits made).0
  Reach-IsValid_media config memory sized fits made (Reach.next r s) =
      Step-IsValid_media s (Reach-IsValid_media config memory sized fits made r)
