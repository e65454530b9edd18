-- ===== src/Session/Start.antt =====
-- `mezia_session_start` of src/session/session.c.
use libmezia.Prelude.{
  ℕ, ◌*◌, Option, none, some, Bool, true, false, ◌&&◌, ◌||◌, not, nonzero, if◌then◌else◌,
}
use libmezia.Types.{Status, is_ok, default_mtu}
use libmezia.Opus.{Codec}
use libmezia.Audio.{AudioConfig, or_default}
use libmezia.Video.{VideoConfig}
use libmezia.Peer.{PeerConfig, Network}
use libmezia.Media
use libmezia.Media.{MediaCtx, MediaConfig, Memory}
use libmezia.Sdp.{SdpMedia}
use libmezia.Session.{Session, zero_audio_config}

-- `negotiated_pt`, with two media that are not null.
unfoldable pub negotiated_pt : SdpMedia → SdpMedia → ℕ → ℕ
negotiated_pt near far fallback =
    if far.present && nonzero far.payload_type
    then far.payload_type
    else if near.present && nonzero near.payload_type
    then near.payload_type
    else fallback

module _ (c : Codec) where
  -- Media that this session offers and both descriptions have.
  abbrev pub has_audio : Session c → Bool
  has_audio s = s.config.offer_audio && s.near.audio.present && s.far.audio.present

  abbrev pub has_video : Session c → Bool
  has_video s = s.config.offer_video && s.near.video.present && s.far.video.present

  abbrev pub session_mtu : Session c → ℕ
  session_mtu s = or_default s.config.mtu default_mtu

  abbrev pub audio_config : Session c → AudioConfig
  audio_config s = record zero_audio_config {
    payload_type = negotiated_pt s.near.audio s.far.audio 111;
    ssrc = 286331153;
    mtu = session_mtu s;
    jitter_target_ms = 60;
    jitter_max_ms = 120;
    on_audio = s.config.on_audio;
  }

  abbrev pub video_config : Session c → VideoConfig
  video_config s = record {
    payload_type = negotiated_pt s.near.video s.far.video 102;
    ssrc = 572662306;
    mtu = session_mtu s;
    max_nal_size = 256 * 1024;
    on_nal = s.config.on_nal;
  }

  -- The two configurations noted in the session, where they are used.
  abbrev pub note_audio : Session c → Session c
  note_audio s = if has_audio s then record s { audio_cfg = audio_config s } else s

  abbrev pub note_video : Session c → Session c
  note_video s = if has_video s then record s { video_cfg = video_config s } else s

  abbrev pub peer_config : Session c → PeerConfig
  peer_config s = record {
    local_ip = some s.local_ip;
    local_port = s.config.local_port;
    remote_ip = some s.remote_ip;
    remote_port = s.config.remote_port;
    mtu = session_mtu s;
    on_packet = false;
    on_error = false;
  }

  abbrev pub media_config : Session c → MediaConfig
  media_config s = record {
    peer = peer_config s;
    audio = if has_audio s then some (audio_config s) else none;
    video = if has_video s then some (video_config s) else none;
    control_payload_type = 0;
  }

  -- The context is kept only if it runs.
  abbrev pub note_running : Session c → Status × MediaCtx c → Status × Session c
  note_running s (status, m) =
      if is_ok status
      then (Status.ok, record s { media = some m; started = true })
      else (Status.network, record s { media = none })

  abbrev pub launch : Network → Session c → Option (MediaCtx c) → Status × Session c
  launch n s none = (Status.internal, record s { media = none })
  launch n s (some m) = note_running s (Media.start c n m)

  -- `mezia_session_start` on a session that is not null.
  unfoldable pub start : Memory c → Network → Session c → Status × Session c
  start memory n s =
      let noted = note_video (note_audio s) in
      if s.started
      then (Status.ok, s)
      else if not s.have_local || not s.have_remote
      then (Status.not_ready, s)
      else if not (has_audio s) && not (has_video s)
      then (Status.unsupported, noted)
      else launch n noted (Media.create c (some (media_config s)) memory)
