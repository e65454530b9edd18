-- ===== src/Session/Life.antt =====
-- Every order of the operations of src/session/session.c on a session that was created.
use libmezia.Prelude.{ℕ, ◌≡◌, refl, List, Option, none, some, Bool}
use libmezia.Opus.{Codec}
use libmezia.Peer.{Network, Incoming}
use libmezia.Media.{MediaCtx, Memory}
use libmezia.Media.Sender
use libmezia.Media.Sender.{Outlet, Surroundings}
use libmezia.Media.Receiver.{media_round}
use libmezia.Media.Valid as MediaValid
use libmezia.Media.Life as MediaLife
use libmezia.Media.Life.{IsSized, NalFits, create_media-IsValid, Step-IsValid_media}
use libmezia.Session.{Session, SessionConfig, create, set_local_description, set_remote_description}
use libmezia.Session.Start.{start}
use libmezia.Session.Traffic.{
  send_audio, playout_audio, send_video, pass_audio, pass_playout, pass_video, NalUnit,
}
use libmezia.Session.Valid.{
  IsValid, create_session-IsValid, set_local_description-IsValid, set_remote_description-IsValid,
}
use libmezia.Session.Started.{start_session-IsValid, with_media}

module _ (c : Codec) where
  -- A round of the media context's worker.
  abbrev pub worker_round : Session c → Incoming → ℕ → Option (MediaCtx c) → Session c
  worker_round s d now_ns none = s
  worker_round s d now_ns (some m) = record s { media = some (media_round c m d now_ns).0 }

  -- What happens to a session after its creation: its operations, with whatever arguments, memory and
  -- answers of the operating system, and the rounds of its worker.
  pub data Step (s t : Session c) : Type 0 where
    describing_local : (text : Option (List ℕ)) → t ≡ (set_local_description c s text).1 → Step s t
    describing_remote :
        (text : Option (List ℕ)) → t ≡ (set_remote_description c s text).1 → Step s t
    starting :
        (memory : Memory c) (w : Network)
        → IsSized memory.nal
        → t ≡ (start c memory w s).1
        → Step s t
    sending_audio :
        (e : Surroundings c) (pcm : Option (List ℕ)) (samples : ℕ)
        → t ≡ (send_audio c e s pcm samples).1
        → Step s t
    playing : (e : Surroundings c) (now_ns : ℕ) → t ≡ (playout_audio c e s now_ns).1 → Step s t
    sending_video :
        (o : Outlet) (calloc_ok : Bool) (malloc : ℕ → Option (List ℕ)) (u : NalUnit c)
        → t ≡ (send_video c o calloc_ok malloc s u).1
        → Step s t
    arriving :
        (d : Incoming) (now_ns : ℕ)
        → MediaValid.IsBrought c d
        → t ≡ worker_round s d now_ns s.media
        → Step s t

  pub data Reach (s : Session c) : Session c → Type 0 where
    here : Reach s s
    next : {t u : Session c} → Reach s t → Step t u → Reach s u

  sent_audio :
      (e : Surroundings c) (s : Session c) (pcm : Option (List ℕ)) (samples : ℕ)
      (o : Option (MediaCtx c))
      → s.media ≡ o
      → IsValid c s
      → IsValid c (pass_audio c e s pcm samples o).1
  sent_audio e s pcm samples none h v = v
  sent_audio e s pcm samples (some m) h v =
      with_media c s m (Sender.send_audio c e m pcm samples).1 h
        (Step-IsValid_media c (MediaLife.Step.sending_audio e pcm samples refl)) v

  ticked :
      (e : Surroundings c) (s : Session c) (now_ns : ℕ) (o : Option (MediaCtx c))
      → s.media ≡ o
      → IsValid c s
      → IsValid c (pass_playout c e s now_ns o).1
  ticked e s now_ns none h v = v
  ticked e s now_ns (some m) h v =
      with_media c s m (Sender.playout_audio c e m now_ns).1 h
        (Step-IsValid_media c (MediaLife.Step.playing e now_ns refl)) v

  sent_video :
      (o : Outlet) (ok : Bool) (malloc : ℕ → Option (List ℕ)) (s : Session c) (u : NalUnit c)
      (x : Option (MediaCtx c))
      → s.media ≡ x
      → IsValid c s
      → IsValid c (pass_video c o ok malloc s u x).1
  sent_video o ok malloc s u none h v = v
  sent_video o ok malloc s u (some m) h v =
      with_media c s m _ h
        (Step-IsValid_media c (
          MediaLife.Step.sending_video o ok malloc u.nal u.nal_len u.rtp_timestamp
            u.end_of_access_unit refl))
        v

  arrived :
      (d : Incoming) (now_ns : ℕ) (s : Session c) (x : Option (MediaCtx c))
      → MediaValid.IsBrought c d
      → s.media ≡ x
      → IsValid c s
      → IsValid c (worker_round s d now_ns x)
  arrived d now_ns s none b h v = v
  arrived d now_ns s (some m) b h v =
      with_media c s m _ h (Step-IsValid_media c (MediaLife.Step.arriving d now_ns b refl)) v

  Step-IsValid_session : {s t : Session c} → Step s t → IsValid c s → IsValid c t
  unfolding send_audio playout_audio send_video
  Step-IsValid_session {s} (Step.describing_local text e) v =
      rw e (set_local_description-IsValid c s text v)
  Step-IsValid_session {s} (Step.describing_remote text e) v =
      rw e (set_remote_description-IsValid c s text v)
  Step-IsValid_session {s} (Step.starting memory w sized e) v =
      rw e (start_session-IsValid c memory w s sized v)
  Step-IsValid_session {s} (Step.sending_audio o pcm samples e) v =
      rw e (sent_audio o s pcm samples s.media refl v)
  Step-IsValid_session {s} (Step.playing o now_ns e) v = rw e (ticked o s now_ns s.media refl v)
  Step-IsValid_session {s} (Step.sending_video o ok malloc u e) v =
      rw e (sent_video o ok malloc s u s.media refl v)
  Step-IsValid_session {s} (Step.arriving d now_ns b e) v =
      rw e (arrived d now_ns s s.media b refl v)

  -- A session that was created, after any descriptions, starts, sends and ticks of playout in any
  -- order, with whatever texts and arguments, and through whatever datagrams of up to 1500 bytes
  -- its worker receives, where video buffers have the size asked for: the texts and both descriptions
  -- stay inside their arrays, and the session either has not started and holds no media context, or
  -- has started from two descriptions and holds a valid one.
  pub Reach-IsValid_session :
      (config : Option SessionConfig) (ok : Bool) {s t : Session c}
      → create c config ok ≡ some s
      → Reach s t
      → IsValid c t
  Reach-IsValid_session config ok {s} made Reach.here = create_session-IsValid c config ok s made
  Reach-IsValid_session config ok made (Reach.next r step) =
      Step-IsValid_session step (Reach-IsValid_session config ok made r)
