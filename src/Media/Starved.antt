-- ===== src/Media/Starved.antt =====
-- A context of src/media/media.c whose audio part makes its packets for a larger MTU than the context.
use libmezia.Prelude.{
  ℕ, ◌+◌, ◌≤◌, ◌<◌, ◌≡◌, refl, ap, sym, subst, ◌∙◌, List, [], ◌∷◌, ◌++◌, map, Option, some, true,
  ◌||◌, not, ltb, if_true, if_false, Bool-cases, inl, inr, is_null, arith,
}
use libmezia.Types.{Status, Packet, is_ok, default_mtu}
use libmezia.Opus.{Codec}
use libmezia.Audio.{Audio, AudioConfig, or_default}
use libmezia.Audio.Playback.{apply_pending_feedback, packetize, packetize_frame, max_payload}
use libmezia.Peer
use libmezia.Peer.{Peer, Network}
use libmezia.Media.{MediaCtx, MediaConfig, Memory, create, start, note_start}
use libmezia.Media.Sender.{Surroundings, send_audio, send_audio_of, send_packetized}
use libmezia.Media.Frames.{pending-keeps}
use libmezia.Media.Cramped.{IsCramped, create-IsCramped}

module _ (c : Codec) where
  open c use {State}

  -- A context that runs, with less storage than the payload that its audio part wants room for.
  record IsStarved (m : MediaCtx c) : Type 0 where
    audio : Audio
    codec : State
    here : m.audio ≡ some (audio, codec)
    runs : m.running ≡ true
    small : m.audio_packet.capacity < max_payload c audio

  packetize-small :
      (a : Audio) (s : State) (now_ns : ℕ) (pcm : List ℕ) (p : Packet)
      → p.capacity < max_payload c a
      → let (a1, s1) = apply_pending_feedback c a s now_ns in
        packetize c a s now_ns (some pcm) 960 p 1 1 ≡ record {
          status = Status.buffer_too_small;
          audio = a1;
          codec = s1;
          packet = record p { len = max_payload c a1 };
          packet_count = 1;
        }
  unfolding packetize packetize_frame
  packetize-small a s now_ns pcm p small =
      let a1 = (apply_pending_feedback c a s now_ns).0 in
      let still : p.capacity < max_payload c a1 = rw (pending-keeps c a s now_ns).0 small in
      if_true (is_null p.bytes || ltb p.capacity (max_payload c a1)) _ (ground (arith, still))

  -- The context after a frame that did not leave.
  abbrev after : Surroundings c → MediaCtx c → Audio → State → MediaCtx c
  after e m a s =
      let (a1, s1) = apply_pending_feedback c a s e.clock in
      record m {
        audio = some (a1, s1);
        audio_packet = record m.audio_packet { len = max_payload c a1 };
      }

  send_audio-starved :
      (e : Surroundings c) (m : MediaCtx c) (pcm : List ℕ) (v : IsStarved m)
      → send_audio c e m (some pcm) 960 ≡ (Status.buffer_too_small, after e m v.audio v.codec, [])
  unfolding send_audio
  send_audio-starved e m pcm v =
      ap (λ (x : Option (Audio × State)). send_audio_of c e m (some pcm) 960 x) v.here
      ∙ if_false (not m.running) (Status.not_ready, m, []) (ground (arith, v.runs))
      ∙ ap (send_packetized c e m)
          (packetize-small v.audio v.codec e.clock pcm (record m.audio_packet { len = 0 }) v.small)

  after-IsStarved :
      (e : Surroundings c) (m : MediaCtx c) (v : IsStarved m)
      → IsStarved (after e m v.audio v.codec)
  after-IsStarved e m v = record {
    audio = (apply_pending_feedback c v.audio v.codec e.clock).0;
    codec = (apply_pending_feedback c v.audio v.codec e.clock).1;
    here = refl;
    runs = v.runs;
    small = rw (pending-keeps c v.audio v.codec e.clock).0 v.small;
  }

  -- Frames of 960 samples sent one after the other: the answers, and the datagrams that left.
  unfoldable pub send_each :
      List (Surroundings c × List ℕ) → MediaCtx c → List Status × List (List ℕ)
  send_each [] m = ([], [])
  send_each ((e, pcm) ∷ frames) m =
      let (status, n, ds) = send_audio c e m (some pcm) 960 in
      let (rest, more) = send_each frames n in (status ∷ rest, ds ++ more)

  send_each-starved :
      (frames : List (Surroundings c × List ℕ)) (m : MediaCtx c)
      → IsStarved m
      → send_each frames m
        ≡ (map (λ (f : Surroundings c × List ℕ). Status.buffer_too_small) frames, [])
  unfolding send_each
  send_each-starved [] m v = refl
  send_each-starved ((e, pcm) ∷ frames) m v =
      ap
        (λ (x : Status × MediaCtx c × List (List ℕ)).
          let (status, n, ds) = x in
          let (rest, more) = send_each frames n in (status ∷ rest, ds ++ more))
        (send_audio-starved e m pcm v)
      ∙ ap (λ (x : List Status × List (List ℕ)). (Status.buffer_too_small ∷ x.0, x.1))
          (send_each-starved frames (after e m v.audio v.codec) (after-IsStarved e m v))

  -- A context that was started.
  started-IsStarved :
      (w : Network) (m : MediaCtx c) (mtu : ℕ)
      → IsCramped c mtu m
      → mtu + 12 < default_mtu
      → (start c w m).0 ≡ Status.ok
      → IsStarved (start c w m).1
  unfolding start
  started-IsStarved w m mtu v low fine = elim (Bool-cases m.running) [
    | inl on ↦
        subst IsStarved (sym (ap (λ (x : Status × MediaCtx c). x.1) (if_true m.running _ on)))
          (record {
            audio = v.audio;
            codec = v.codec;
            here = v.here;
            runs = on;
            small = ground (arith, v.room, v.wants, low);
          })
    | inr off ↦
        let r = Peer.start w m.peer in
        let e = if_false m.running (Status.ok, m) {y = note_start c m r} off in
        let good : is_ok r.0 ≡ true =
          ap is_ok (sym (ap (λ (x : Status × MediaCtx c). x.0) e) ∙ fine) in
        subst IsStarved (sym (ap (λ (x : Status × MediaCtx c). x.1) e)) (record {
          audio = v.audio;
          codec = v.codec;
          here = v.here;
          runs = if_true (is_ok r.0) m.running good;
          small = ground (arith, v.room, v.wants, low);
        })
  ]

  -- A configuration leaves the MTU of its audio part to the default of 1200, and gives the peer one from
  -- 1 to 1187. A context that is created from it and starts without an error sends nothing: of the
  -- frames of 960 samples that are handed in right behind the start, one after the other, whatever is
  -- in them, whatever the codec and the socket answer and however many they are, each is answered
  -- BUFFER_TOO_SMALL, and nothing goes to the socket.
  pub send_audio_too_small :
      (config : MediaConfig) (memory : Memory c) (w : Network) (a : AudioConfig) (m : MediaCtx c)
      (frames : List (Surroundings c × List ℕ))
      → config.audio ≡ some a
      → a.mtu ≡ 0
      → 1 ≤ config.peer.mtu
      → config.peer.mtu + 12 < default_mtu
      → create c (some config) memory ≡ some m
      → (start c w m).0 ≡ Status.ok
      → send_each frames (start c w m).1
        ≡ (map (λ (f : Surroundings c × List ℕ). Status.buffer_too_small) frames, [])
  send_audio_too_small config memory w a m frames has zero given low made fine =
      let mtu = or_default config.peer.mtu default_mtu in
      let small : mtu + 12 < default_mtu = ground arith in
      send_each-starved frames (start c w m).1
        (started-IsStarved w m mtu (create-IsCramped c config memory a m has zero made) small fine)
