-- ===== src/Media.antt =====
-- src/media/media.c: one peer with an audio and a video context, and the dispatch between them. The
-- section's codec is that of the audio context.
pub mod Sender
pub mod Receiver
pub mod Valid
pub mod Sends
pub mod Pictures
pub mod Stops
pub mod Reports
pub mod Frames
pub mod Wire
pub mod Life
pub mod Cramped
pub mod Starved
use libmezia.Prelude.{
  ℕ, ◌+◌, ◌*◌, List, Option, none, some, Bool, true, false, ◌&&◌, ◌||◌, not, ◌==◌, if◌then◌else◌,
  nonzero,
}
use libmezia.Types.{
  Status, is_ok, Packet, zero_packet, default_mtu, default_audio_payload_type,
  default_video_payload_type, default_control_payload_type,
}
use libmezia.Opus.{Codec}
use libmezia.Audio
use libmezia.Audio.{Audio, AudioConfig, or_default}
use libmezia.Video
use libmezia.Video.{Video, VideoConfig}
use libmezia.Peer
use libmezia.Peer.{Peer, PeerConfig, Network}

-- `mezia_config_t`; a null configuration is none.
pub record MediaConfig : Type 0 where
  pub peer : PeerConfig
  pub audio : Option AudioConfig
  pub video : Option VideoConfig
  pub control_payload_type : ℕ

-- The payload type of a context: its own, or the default.
abbrev pub audio_type : Option AudioConfig → ℕ
audio_type none = default_audio_payload_type
audio_type (some a) = or_default a.payload_type default_audio_payload_type

abbrev pub video_type : Option VideoConfig → ℕ
video_type none = default_video_payload_type
video_type (some v) = or_default v.payload_type default_video_payload_type

abbrev pub is_some {ℓ} : {A : Type ℓ} → Option A → Bool
is_some none = false
is_some (some x) = true

abbrev pub adapts : Option AudioConfig → Bool
adapts none = false
adapts (some a) = a.adaptation.enabled

-- Do two of the payload types that are in use collide?
unfoldable pub types_collide : MediaConfig → Bool
types_collide c =
    let audio_pt = audio_type c.audio in
    let video_pt = video_type c.video in
    let control_pt = or_default c.control_payload_type default_control_payload_type in
    is_some c.audio && is_some c.video && audio_pt == video_pt
    || adapts c.audio && (control_pt == audio_pt || is_some c.video && control_pt == video_pt)

-- A context's MTU that is given, and is another than the peer's.
abbrev pub audio_mtu_differs : Option AudioConfig → ℕ → Bool
audio_mtu_differs none mtu = false
audio_mtu_differs (some a) mtu = nonzero a.mtu && not (a.mtu == mtu)

abbrev pub video_mtu_differs : Option VideoConfig → ℕ → Bool
video_mtu_differs none mtu = false
video_mtu_differs (some v) mtu = nonzero v.mtu && not (v.mtu == mtu)

module _ (c : Codec) where
  open c use {State}

  -- `mezia_ctx`, with the codec's state beside the audio context that owns it.
  pub record MediaCtx : Type 0 where
    pub peer : Peer
    pub audio : Option (Audio × State)
    pub video : Option Video
    pub audio_payload_type : ℕ
    pub video_payload_type : ℕ
    pub control_payload_type : ℕ
    pub control_seq : ℕ
    pub audio_packet : Packet
    pub mtu : ℕ
    pub running : Bool

  -- What the allocators return, and `mezon_opus_create` for a bitrate.
  pub record Memory : Type 0 where
    pub ctx : Bool
    pub audio : Bool
    pub codec : ℕ → Option State
    pub storage : ℕ → Option (List ℕ)
    pub video : Bool
    pub nal : ℕ → Option (List ℕ)
    pub peer : Bool

  -- The context before its parts are made.
  abbrev pub blank : MediaConfig → Peer → MediaCtx
  blank config peer = record {
    peer = peer;
    audio = none;
    video = none;
    audio_payload_type = 0;
    video_payload_type = 0;
    control_payload_type = or_default config.control_payload_type default_control_payload_type;
    control_seq = 0;
    audio_packet = zero_packet;
    mtu = or_default config.peer.mtu default_mtu;
    running = false;
  }

  abbrev pub put_audio : MediaCtx → ℕ → Option (Audio × State) → Option (List ℕ) → Option MediaCtx
  put_audio m pt none storage = none
  put_audio m pt (some a) none = none
  put_audio m pt (some a) (some storage) = some (record m {
    audio = some a;
    audio_payload_type = pt;
    audio_packet = record m.audio_packet { bytes = some storage; capacity = m.mtu };
  })

  -- The audio part; `none` where it, or its storage, cannot be made.
  unfoldable pub add_audio : Memory → Option AudioConfig → MediaCtx → Option MediaCtx
  add_audio memory none m = some m
  add_audio memory (some a) m =
      put_audio m (audio_type (some a)) (Audio.create (some a) memory.audio memory.codec)
        (memory.storage m.mtu)

  abbrev pub put_video : MediaCtx → ℕ → Option Video → Option MediaCtx
  put_video m pt none = none
  put_video m pt (some v) = some (record m { video = some v; video_payload_type = pt })

  unfoldable pub add_video : Memory → Option VideoConfig → Option MediaCtx → Option MediaCtx
  add_video memory config none = none
  add_video memory none (some m) = some m
  add_video memory (some v) (some m) =
      put_video m (video_type (some v)) (Video.create (some v) memory.video memory.nal)

  -- The peer is made last, with the dispatch as its callback; until then the context has none.
  abbrev pub with_peer : Memory → MediaConfig → Option Peer → Option MediaCtx
  with_peer memory config none = none
  with_peer memory config (some peer) =
      add_video memory config.video (add_audio memory config.audio (blank config peer))

  -- `mezia_create`
  unfoldable pub create : Option MediaConfig → Memory → Option MediaCtx
  create none memory = none
  create (some config) memory =
      let mtu = or_default config.peer.mtu default_mtu in
      if types_collide config
      then none
      else if not memory.ctx
      then none
      else if audio_mtu_differs config.audio mtu || video_mtu_differs config.video mtu
      then none
      else with_peer memory config
          (Peer.create (some (record config.peer { on_packet = true })) memory.peer)

  -- The context once its peer has been started, or has refused to.
  abbrev pub note_start : MediaCtx → Status × Peer → Status × MediaCtx
  note_start m (status, peer) =
      (status, record m { peer = peer; running = if is_ok status then true else m.running })

  -- `mezia_start` on a context that is not null.
  unfoldable pub start : Network → MediaCtx → Status × MediaCtx
  start n m = if m.running then (Status.ok, m) else note_start m (Peer.start n m.peer)

  -- `mezia_stop` on a context that is not null; `own_thread` is whether the worker itself calls.
  unfoldable pub stop : Bool → MediaCtx → Status × MediaCtx
  stop own_thread m =
      let (status, peer) = Peer.stop own_thread m.peer in
      if m.running then (status, record m { peer = peer; running = false }) else (Status.ok, m)
