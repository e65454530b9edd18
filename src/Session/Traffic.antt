-- ===== src/Session/Traffic.antt =====
-- What a session of src/session/session.c passes on to its media context.
use libmezia.Prelude.{ℕ, List, [], Option, none, some, Bool, if◌then◌else◌}
use libmezia.Types.{Status, Stats, zero_stats}
use libmezia.Opus.{Codec}
use libmezia.Audio.{Playout}
use libmezia.Media.{MediaCtx}
use libmezia.Media.Sender.{Outlet, Surroundings}
use libmezia.Media.Sender
use libmezia.Media.Receiver
use libmezia.Sdp.{Sdp}
use libmezia.Session.{Session}

module _ (c : Codec) where
  abbrev pub put_sent :
      Session c → Status × MediaCtx c × List (List ℕ) → Status × Session c × List (List ℕ)
  put_sent s (status, m, ds) = (status, record s { media = some m }, ds)

  abbrev pub put_played :
      Session c
      → Status × MediaCtx c × Option Playout × Option (List ℕ)
      → Status × Session c × Option Playout × Option (List ℕ)
  put_played s (status, m, p, d) = (status, record s { media = some m }, p, d)

  abbrev pub pass_audio :
      Surroundings c
      → Session c
      → Option (List ℕ)
      → ℕ
      → Option (MediaCtx c)
      → Status × Session c × List (List ℕ)
  pass_audio e s pcm samples none = (Status.not_ready, s, [])
  pass_audio e s pcm samples (some m) = put_sent s (Sender.send_audio c e m pcm samples)

  -- `mezia_session_send_audio` on a session that is not null.
  unfoldable pub send_audio :
      Surroundings c → Session c → Option (List ℕ) → ℕ → Status × Session c × List (List ℕ)
  send_audio e s pcm samples = pass_audio e s pcm samples s.media

  abbrev pub pass_playout :
      Surroundings c
      → Session c
      → ℕ
      → Option (MediaCtx c)
      → Status × Session c × Option Playout × Option (List ℕ)
  pass_playout e s now_ns none = (Status.not_ready, s, none, none)
  pass_playout e s now_ns (some m) = put_played s (Sender.playout_audio c e m now_ns)

  -- `mezia_session_playout_audio` on a session that is not null.
  unfoldable pub playout_audio :
      Surroundings c → Session c → ℕ → Status × Session c × Option Playout × Option (List ℕ)
  playout_audio e s now_ns = pass_playout e s now_ns s.media

  -- A NAL unit as a caller hands it over.
  pub record NalUnit : Type 0 where
    pub nal : Option (List ℕ)
    pub nal_len : ℕ
    pub rtp_timestamp : ℕ
    pub end_of_access_unit : Bool

  abbrev pub pass_video :
      Outlet
      → Bool
      → (ℕ → Option (List ℕ))
      → Session c
      → NalUnit
      → Option (MediaCtx c)
      → Status × Session c × List (List ℕ)
  pass_video o calloc_ok malloc s u none = (Status.not_ready, s, [])
  pass_video o calloc_ok malloc s u (some m) =
      put_sent s (
        Sender.send_h264 c o calloc_ok malloc m u.nal u.nal_len u.rtp_timestamp
          u.end_of_access_unit)

  -- `mezia_session_send_video` on a session that is not null.
  unfoldable pub send_video :
      Outlet
      → Bool
      → (ℕ → Option (List ℕ))
      → Session c
      → NalUnit
      → Status × Session c × List (List ℕ)
  send_video o calloc_ok malloc s u = pass_video o calloc_ok malloc s u s.media

  -- `mezia_session_get_stats`; a null session is none.
  abbrev pub media_stats : Option (MediaCtx c) → Stats
  media_stats none = zero_stats
  media_stats (some m) = Receiver.get_stats c m

  unfoldable pub get_stats : Option (Session c) → Stats
  get_stats none = zero_stats
  get_stats (some s) = media_stats s.media

  -- `mezia_session_local_sdp` and `mezia_session_remote_sdp`
  unfoldable pub local_sdp : Option (Session c) → Option Sdp
  local_sdp none = none
  local_sdp (some s) = if s.have_local then some s.near else none

  unfoldable pub remote_sdp : Option (Session c) → Option Sdp
  remote_sdp none = none
  remote_sdp (some s) = if s.have_remote then some s.far else none
