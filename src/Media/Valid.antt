-- ===== src/Media/Valid.antt =====
-- The invariant of the context of src/media/media.c, through every operation and every round of the
-- worker.
use libmezia.Prelude.{
  ℕ, ◌+◌, ◌≤◌, ◌≡◌, ◌⊎◌, inl, inr, refl, ◌∙◌, Option, none, some, Bool, true, false, ◌&&◌, ◌==◌,
  arith, length, if_cases, Bool-cases, subst,
}
use libmezia.Types.{Status, Packet, zero_packet}
use libmezia.Rtp.Fields.{AreBytes, parse-IsWirePacket}
use libmezia.Jitter.Valid.{IsWirePacket}
use libmezia.Feedback.{Feedback}
use libmezia.Opus.{Codec}
use libmezia.Audio.{Audio}
use libmezia.Audio.Receiver.{submit_receiver_report}
use libmezia.Audio.Valid as AudioValid
use libmezia.Audio.Valid.{receive-IsValid, submit-IsValid}
use libmezia.Video.{Video, Delivery}
use libmezia.Video.Receive as VideoReceive
use libmezia.Video.Receive.{IsAddressable, receive_nal-IsValid}
use libmezia.Peer.{Peer, Incoming, receive_round, parsed_round, same_endpoint}
use libmezia.Peer.Life
use libmezia.Peer.Life.{
  start-IsValid, stop-IsValid, receive_round-IsValid, send-IsValid, send-Stays, start-config,
  stop-config, receive_round-Stays,
}
use libmezia.Media.{MediaCtx, is_some}
use libmezia.Media.Receiver.{
  take_report, to_control, to_audio, to_video, media_packet, take_packet, media_round,
}

module _ (c : Codec) where
  open c use {State}

  abbrev pub AudioIsValid : Option (Audio × State) → Type 0
  AudioIsValid none = Unit
  AudioIsValid (some (a, s)) = AudioValid.IsValid a

  abbrev pub VideoIsValid : Option Video → Type 0
  VideoIsValid none = Unit
  VideoIsValid (some v) = VideoReceive.IsValid v

  pub record IsValid (m : MediaCtx c) : Type 0 where
    pub peer : Life.IsValid m.peer
    pub listens : m.peer.config.on_packet ≡ true
    pub runs : (m.running ≡ false) ⊎ (m.peer.running ≡ true)
    pub sound : AudioIsValid m.audio
    pub picture : VideoIsValid m.video

  -- What the peer's callback is given.
  pub record IsArrival (p : Packet) : Type 0 where
    pub wire : IsWirePacket p
    pub short : IsAddressable p

  report-IsValid :
      (a : Audio) (s : State) (p : Packet) (answer : Status × Option Feedback)
      → AudioValid.IsValid a
      → AudioIsValid (some (take_report c (a, s) p answer))
  unfolding submit_receiver_report
  report-IsValid a s p (Status.ok, some f) v = submit-IsValid a f p.arrival_time_ns v
  report-IsValid a s p (Status.ok, none) v = v
  report-IsValid a s p (_, f) v = v

  control-IsValid :
      (p : Packet) (a : Option (Audio × State)) → AudioIsValid a → AudioIsValid (to_control c p a)
  control-IsValid p none v = v
  control-IsValid p (some (a, s)) v = report-IsValid a s p _ v

  audio-IsValid :
      (p : Packet) (a : Option (Audio × State))
      → IsArrival p
      → AudioIsValid a
      → AudioIsValid (to_audio c p a)
  audio-IsValid p none i v = v
  audio-IsValid p (some (a, s)) i v = receive-IsValid a p i.wire v

  video-IsValid :
      (p : Packet) (v : Option Video)
      → IsArrival p
      → VideoIsValid v
      → VideoIsValid (to_video c p v).0
  video-IsValid p none i w = w
  video-IsValid p (some v) i w = receive_nal-IsValid v p i.short w

  abbrev Handled : MediaCtx c × Option Delivery → Type 0
  Handled t = IsValid t.0

  pub media_packet-IsValid :
      (m : MediaCtx c) (p : Packet) → IsArrival p → IsValid m → Handled (media_packet c m p)
  unfolding media_packet
  media_packet-IsValid m p i v =
      if_cases Handled (is_some m.audio && p.payload_type == m.control_payload_type)
        (λ _. record {
          peer = v.peer;
          listens = v.listens;
          runs = v.runs;
          sound = control-IsValid p m.audio v.sound;
          picture = v.picture;
        })
        (λ _.
          if_cases Handled (is_some m.audio && p.payload_type == m.audio_payload_type)
            (λ _. record {
              peer = v.peer;
              listens = v.listens;
              runs = v.runs;
              sound = audio-IsValid p m.audio i v.sound;
              picture = v.picture;
            })
            (λ _.
              if_cases Handled (is_some m.video && p.payload_type == m.video_payload_type)
                (λ _. record {
                  peer = v.peer;
                  listens = v.listens;
                  runs = v.runs;
                  sound = v.sound;
                  picture = video-IsValid p m.video i v.picture;
                })
                (λ _. v)))

  -- The context after a step of its peer alone.
  pub peer-IsValid :
      (m : MediaCtx c) (q : Peer) (running : Bool)
      → Life.IsValid q
      → q.config ≡ m.peer.config
      → (running ≡ false) ⊎ (q.running ≡ true)
      → IsValid m
      → IsValid (record m { peer = q; running = running })
  peer-IsValid m q running valid same runs v = record {
    peer = valid;
    listens = rw same v.listens;
    runs = runs;
    sound = v.sound;
    picture = v.picture;
  }

  -- A step of the peer that leaves its configuration, and whether it runs.
  pub stays-IsValid :
      (m : MediaCtx c) (q : Peer)
      → Life.IsValid q
      → Life.Stays m.peer q
      → IsValid m
      → IsValid (record m { peer = q })
  stays-IsValid m q valid stays v = peer-IsValid m q m.running valid stays.0 (still v.runs) v
    where
      still :
          (m.running ≡ false) ⊎ (m.peer.running ≡ true) → (m.running ≡ false) ⊎ (q.running ≡ true)
      still (inl off) = inl off
      still (inr on) = inr (stays.1 ∙ on)

  taken-IsValid :
      (m : MediaCtx c) (p : Option Packet)
      → ((r : Packet) → p ≡ some r → IsArrival r)
      → IsValid m
      → Handled (take_packet c m p)
  taken-IsValid m none i v = v
  taken-IsValid m (some p) i v = media_packet-IsValid m p (i p refl) v

  timed-IsArrival :
      (q : Packet) (n now_ns : ℕ)
      → n ≤ 1500
      → IsWirePacket q × (12 + q.len ≤ n)
      → IsArrival (record q { arrival_time_ns = now_ns })
  timed-IsArrival q n now_ns short w = record {
    wire = record { seq_fits = w.0.seq_fits; timestamp_fits = w.0.timestamp_fits };
    short = omega (arith, short, w.1);
  }

  parsed-IsArrival :
      (p : Peer) (n now_ns : ℕ) (answer : Status × Option Packet) (r : Packet)
      → n ≤ 1500
      → ((q : Packet) → answer ≡ (Status.ok, some q) → IsWirePacket q × (12 + q.len ≤ n))
      → (parsed_round p n now_ns answer).packet ≡ some r
      → IsArrival r
  parsed-IsArrival p n now_ns (Status.ok, some q) r short fine e =
      elim (Bool-cases p.config.on_packet) [
        | inl heard ↦
            subst IsArrival (ground arith) (timed-IsArrival q n now_ns short (fine q refl))
        | inr deaf ↦ absurd (ground arith)
      ]
  parsed-IsArrival p n now_ns (Status.ok, none) r short fine e = absurd (ground arith)
  parsed-IsArrival p n now_ns (_, q) r short fine e = absurd (ground arith)

  -- What the network can bring: bytes, in a datagram of up to 1500.
  pub IsBrought : Incoming → Type 0
  IsBrought (Incoming.datagram d source) = AreBytes d × (length d ≤ 1500)
  IsBrought _ = Unit

  round-IsArrival :
      (p : Peer) (e : Incoming) (now_ns : ℕ) (r : Packet)
      → IsBrought e
      → (receive_round p e now_ns).packet ≡ some r
      → IsArrival r
  unfolding receive_round IsBrought
  round-IsArrival p Incoming.nothing now_ns r b e = absurd (ground arith)
  round-IsArrival p Incoming.broken now_ns r b e = absurd (ground arith)
  round-IsArrival p (Incoming.datagram d source) now_ns r b e =
      elim (Bool-cases (same_endpoint p.remote_addr source)) [
        | inl from ↦
            parsed-IsArrival p (length d) now_ns _ r b.1
              (λ q parsed. parse-IsWirePacket d (length d) zero_packet q b.0 parsed) (rw from at e)
        | inr other ↦ absurd (ground arith)
      ]

  -- A round of the worker keeps a valid context valid, whatever datagram comes, from whoever.
  pub media_round-IsValid :
      (m : MediaCtx c) (e : Incoming) (now_ns : ℕ)
      → IsBrought e
      → IsValid m
      → IsValid (media_round c m e now_ns).0
  unfolding media_round
  media_round-IsValid m e now_ns b v =
      let q = (receive_round m.peer e now_ns).peer in
      taken-IsValid _ (receive_round m.peer e now_ns).packet
        (λ r found. round-IsArrival m.peer e now_ns r b found)
        (stays-IsValid m q (receive_round-IsValid m.peer e now_ns v.peer)
          (receive_round-Stays m.peer e now_ns) v)
