-- ===== src/Media/Frames.antt =====
-- A frame of audio through `mezia_send_audio` of src/media/media.c: how it reaches the jitter buffer
-- of the other side.
use libmezia.Prelude.{
  ℕ, ◌+◌, ◌≤◌, ◌≡◌, refl, List, [], ◌∷◌, Option, some, true, false, ◌||◌, not, ◌==◌, ltb, arith,
  length, if_false, ◌∙◌, ap, IsU32, is_null, subst, copy_at, take-copy_at, length-copy_at,
}
use libmezia.Types.{Status, Packet, payload}
use libmezia.Rtp.RoundTrip.{IsSendable}
use libmezia.Opus.{Codec}
use libmezia.Audio.{Audio, AudioConfig}
use libmezia.Audio.Receiver as AudioReceiver
use libmezia.Audio.Playback
use libmezia.Audio.Playback.{
  apply_pending_feedback, apply_report, packetize, packetize_frame, max_payload, send_frame,
  is_stale,
}
use libmezia.Audio.Valid as AudioValid
use libmezia.Audio.Running.{apply_pending-IsValid}
use libmezia.Video.{Delivery}
use libmezia.Peer
use libmezia.Peer.{Peer, Address, Sending, Incoming, same_endpoint, receive_round}
use libmezia.Media.{MediaCtx}
use libmezia.Media.Sender.{
  Surroundings, send_audio, send_audio_of, maybe_send_audio_feedback, send_packetized, sent_frame,
  with_datagram,
}
use libmezia.Media.Receiver.{media_round, media_packet}
use libmezia.Media.Valid
use libmezia.Media.Wire.{media_round-send, runs}

module _ (c : Codec) where
  open c use {State, encode}

  -- What feedback changes is not what the packets are numbered and sized by.
  pub pending-keeps :
      (a : Audio) (s : State) (now_ns : ℕ)
      → let a' = (apply_pending_feedback c a s now_ns).0 in
        (a'.config ≡ a.config) × (a'.next_seq ≡ a.next_seq) × (a'.next_timestamp ≡ a.next_timestamp)
  unfolding apply_pending_feedback apply_report
  pending-keeps a s now_ns = ground arith

  -- A frame that the codec encodes into the room for it.
  packetize_sent :
      (a : Audio) (s s' : State) (now_ns : ℕ) (pcm storage encoded : List ℕ) (p : Packet)
      → let (a1, s1) = apply_pending_feedback c a s now_ns in
        encode s1 pcm (max_payload c a1) ≡ (Status.ok, encoded, s')
        → p.bytes ≡ some storage
        → max_payload c a ≤ p.capacity
        → packetize c a s now_ns (some pcm) 960 p 1 1 ≡ record {
          status = Status.ok;
          audio = (send_frame c (apply_pending_feedback c a s now_ns).0 p encoded).0;
          codec = s';
          packet = (send_frame c (apply_pending_feedback c a s now_ns).0 p encoded).1;
          packet_count = 1;
        }
  unfolding packetize packetize_frame
  packetize_sent a s s' now_ns pcm storage encoded p coded here room =
      let a1 : Audio = (apply_pending_feedback c a s now_ns).0 in
      let kept = pending-keeps a s now_ns in
      if_false (is_null p.bytes || ltb p.capacity (max_payload c a1)) _
        (rw (here, kept.0) (ground (arith, room)))
      ∙ rw coded refl

  -- The packet that a frame goes into: the fields of the context, and the frame as its payload.
  sent_fields :
      (a : Audio) (storage encoded : List ℕ) (p : Packet)
      → p.bytes ≡ some storage
      → length encoded ≤ length storage
      → let r = (send_frame c a p encoded).1 in
        (r.bytes ≡ some (copy_at storage 0 encoded))
        × (payload r ≡ encoded)
        × (r.len ≡ length encoded)
        × (r.payload_type ≡ a.config.payload_type)
        × (r.seq ≡ a.next_seq)
        × (r.timestamp ≡ a.next_timestamp)
        × (r.ssrc ≡ a.config.ssrc)
  unfolding send_frame
  sent_fields a storage encoded p here fits =
      (rw here refl, rw here (take-copy_at storage encoded fits), refl, refl, refl, refl, refl)

  -- A running context whose codec encodes the frame, into a packet with room for it.
  pub record Sends (m : MediaCtx c) (e : Surroundings c) (pcm encoded : List ℕ) (a : Audio)
      (s s' : State) : Type 0 where
    pub valid : Valid.IsValid c m
    pub running : m.running ≡ true
    pub here : m.audio ≡ some (a, s)
    pub coded :
        let (a1, s1) = apply_pending_feedback c a s e.clock in
        encode s1 pcm (max_payload c a1) ≡ (Status.ok, encoded, s')
    pub storage : List ℕ
    pub stored : m.audio_packet.bytes ≡ some storage
    pub enough : length encoded ≤ length storage
    pub room : max_payload c a ≤ m.audio_packet.capacity
    pub fits : 12 + length encoded ≤ m.peer.config.mtu
    pub ssrc_fits : IsU32 a.config.ssrc
    pub stack : length (e.outlet.stack 0) ≡ 1500
    pub went : e.outlet.result 0 ≡ Sending.sent

  -- A context that listens to `source`, and takes packets of this type for audio.
  pub record Hears (q : MediaCtx c) (source : Address) (payload_type : ℕ) (b : Audio) (t : State)
      : Type 0 where
    pub from : same_endpoint q.peer.remote_addr source ≡ true
    pub listening : q.peer.config.on_packet ≡ true
    pub here : q.audio ≡ some (b, t)
    pub own : (payload_type == q.audio_payload_type) ≡ true
    pub other : (payload_type == q.control_payload_type) ≡ false

  hears :
      (q : MediaCtx c) (b : Audio) (t : State) (r : Packet)
      → q.audio ≡ some (b, t)
      → (r.payload_type == q.control_payload_type) ≡ false
      → (r.payload_type == q.audio_payload_type) ≡ true
      → (media_packet c q r).0.audio ≡ some ((AudioReceiver.receive b (some r)).1, t)
  unfolding media_packet
  hears q b t r here other own = rw (here, other, own) refl

  sendable :
      (a : Audio) (storage encoded : List ℕ) (p : Packet)
      → AudioValid.IsValid a
      → IsU32 a.config.ssrc
      → p.bytes ≡ some storage
      → length encoded ≤ length storage
      → 12 + length encoded ≤ 1500
      → IsSendable (send_frame c a p encoded).1 (copy_at storage 0 encoded)
  unfolding send_frame
  sendable a storage encoded p v ssrc_fits here fits short =
      let e = sent_fields a storage encoded p here fits in
      record {
        here = e.0;
        enough = omega (arith, length-copy_at storage 0 encoded, fits);
        small = omega (arith, short);
        type_fits = v.type_fits;
        seq_fits = v.seq_fits;
        timestamp_fits = v.timestamp_fits;
        ssrc_fits = ssrc_fits;
      }

  -- In a valid context that runs, the codec encodes a frame of 960 samples into the room for it; the
  -- encoding fits the packet's storage and, behind a header, the MTU, and the socket takes the datagram.
  -- Then `send_audio` succeeds, and the frame leaves as one datagram in front of what else is sent. When
  -- this datagram arrives at a context that listens to its source and takes the payload type for audio,
  -- the audio part receives a packet with the encoded frame as its payload, with the number, the
  -- timestamp and the SSRC of the sender, and with the time of arrival.
  pub media_round-send_audio :
      (e : Surroundings c) (m q : MediaCtx c) (pcm encoded : List ℕ) (a b : Audio) (s s' t : State)
      (source : Address) (later_ns : ℕ)
      → Sends m e pcm encoded a s s'
      → Hears q source a.config.payload_type b t
      → let (status, m', out) = send_audio c e m (some pcm) 960 in
        (status ≡ Status.ok)
        × (wire : List ℕ) × (rest : List (List ℕ)) × (out ≡ wire ∷ rest)
        × (r : Packet) × ((media_round c q (Incoming.datagram wire source) later_ns).0.audio
            ≡ some ((AudioReceiver.receive b (some r)).1, t))
        × (payload r ≡ encoded)
        × (r.payload_type ≡ a.config.payload_type)
        × (r.seq ≡ a.next_seq)
        × (r.timestamp ≡ a.next_timestamp)
        × (r.ssrc ≡ a.config.ssrc)
        × (r.arrival_time_ns ≡ later_ns)
  unfolding send_audio
  media_round-send_audio e m q pcm encoded a b s s' t source later_ns h w =
      let p : Packet = record m.audio_packet { len = 0 } in
      let a1 : Audio = (apply_pending_feedback c a s e.clock).0 in
      let kept = pending-keeps a s e.clock in
      let sound : AudioValid.IsValid a = subst (Valid.AudioIsValid c) h.here h.valid.sound in
      let valid : AudioValid.IsValid a1 = apply_pending-IsValid c a s e.clock sound in
      let fields = sent_fields a1 h.storage encoded p h.stored h.enough in
      let packet : Packet = (send_frame c a1 p encoded).1 in
      let (wire, done, out, r, round, same, timed) =
        media_round-send c m.peer q packet (copy_at h.storage 0 encoded) (e.outlet.stack 0) source
          later_ns h.valid.peer (runs c m h.running h.valid) h.stack
          (sendable a1 h.storage encoded p valid (rw kept.0 h.ssrc_fits) h.stored h.enough
            (omega (arith, h.fits, h.valid.peer.mtu_high)))
          (rw fields.2 h.fits) w.from w.listening in
      let m1 : MediaCtx c = record m {
        audio = some ((send_frame c a1 p encoded).0, s');
        audio_packet = packet;
      } in
      let left = Peer.send m.peer (some packet) (e.outlet.stack 0) Sending.sent in
      let rest : List (List ℕ) =
        with_datagram
          (maybe_send_audio_feedback c e.outlet e.blank e.content (record m1 { peer = left.1 })
            e.clock_after).1
          [] in
      let whole =
        ap (λ (x : Option (Audio × State)). send_audio_of c e m (some pcm) 960 x) h.here
        ∙ if_false (not m.running) (Status.not_ready, m, []) (ground (arith, h.running))
        ∙ ap (λ (x : Playback.Packetized c). send_packetized c e m x)
            (packetize_sent a s s' e.clock pcm h.storage encoded p h.coded h.stored h.room)
        ∙ ap
            (λ (x : Sending).
              sent_frame c e m1 (Peer.send m.peer (some packet) (e.outlet.stack 0) x))
            h.went in
      let typed : r.payload_type ≡ a.config.payload_type =
        same.same_type ∙ fields.3 ∙ ap (λ (x : AudioConfig). x.payload_type) kept.0 in
      (
        ap (λ (x : Status × MediaCtx c × List (List ℕ)). x.0) whole ∙ done,
        wire,
        rest,
        ap (λ (x : Status × MediaCtx c × List (List ℕ)). x.2) whole
            ∙ ap (λ (x : Option (List ℕ)). with_datagram x rest) out,
        r,
        ap (λ (x : MediaCtx c × Option Delivery). x.0.audio) round
            ∙ hears _ b t r w.here (rw typed w.other) (rw typed w.own),
        same.same_payload ∙ fields.1,
        typed,
        same.same_seq ∙ fields.4 ∙ kept.1,
        same.same_timestamp ∙ fields.5 ∙ kept.2,
        same.same_ssrc ∙ fields.6 ∙ ap (λ (x : AudioConfig). x.ssrc) kept.0,
        timed,
      )
