-- ===== src/Media/Sender.antt =====
-- The sending side of src/media/media.c: captured audio and video to the peer, and the loss reports
-- that go along with the audio.
use libmezia.Prelude.{
  ℕ, zero, suc, ◌+◌, ◌-◌, ◌*◌, ◌/◌, ◌^◌, List, [], ◌∷◌, Option, none, some, Bool, ◌||◌, not, ltb,
  ◌==◌, bit_xor, if◌then◌else◌, drop, u16, u32,
}
use libmezia.Types.{Status, is_ok, Packet, zero_packet}
use libmezia.Feedback
use libmezia.Feedback.{Feedback, feedback_size}
use libmezia.Opus.{Codec}
use libmezia.Audio.{Audio, Playout, is_adaptation_enabled, local_ssrc, note_report_sent}
use libmezia.Audio.Receiver.{take_receiver_report}
use libmezia.Audio.Playback
use libmezia.Video.{Video, max_packets_for_nal}
use libmezia.Video.Packetizer
use libmezia.Video.Packetizer.{packet_at, packetize_nal}
use libmezia.Peer
use libmezia.Peer.{Peer, Sending}
use libmezia.Media.{MediaCtx}

-- What the calls of `mezon_peer_send` meet, by their number in one operation: the array on the stack
-- before, and the answer of `sendto`.
pub record Outlet : Type 0 where
  pub stack : ℕ → List ℕ
  pub result : ℕ → Sending

-- The datagrams, in order.
abbrev pub with_datagram : Option (List ℕ) → List (List ℕ) → List (List ℕ)
with_datagram none ds = ds
with_datagram (some d) ds = d ∷ ds

-- `send_packets`, `left` rounds before its end: the first packet that is not sent ends it.
unfoldable pub send_packets : Outlet → List Packet → ℕ → ℕ → Peer → Status × Peer × List (List ℕ)
send_packets o ps zero i p = (Status.ok, p, [])
send_packets o ps (suc left) i p =
    let (status, p', d) = Peer.send p (some (packet_at ps i)) (o.stack i) (o.result i) in
    let (status', p'', ds) = send_packets o ps left (i + 1) p' in
    if is_ok status then (status', p'', with_datagram d ds) else (status, p', with_datagram d [])

-- The report's packet: the sixteen bytes on the stack, and the number before it is counted up.
abbrev pub feedback_packet : ℕ → ℕ → ℕ → List ℕ → Packet
feedback_packet payload_type control_seq ssrc content = record zero_packet {
  bytes = some content;
  len = feedback_size;
  capacity = feedback_size;
  payload_type = payload_type;
  seq = u16 control_seq;
  ssrc = bit_xor ssrc 0x4d455a49;
}

abbrev pub size_max : ℕ
size_max = 2 ^ 64 - 1

-- `sizeof(mezon_packet_t)` with pointers of 64 bits.
abbrev pub packet_struct_size : ℕ
packet_struct_size = 56

-- The packets of one NAL unit, each on its part of the storage.
unfoldable pub packet_slots : ℕ → ℕ → List ℕ → ℕ → List Packet
packet_slots mtu zero storage i = []
packet_slots mtu (suc left) storage i =
    record zero_packet { bytes = some (drop (i * mtu) storage); capacity = mtu }
    ∷ packet_slots mtu left storage (i + 1)

module _ (c : Codec) where
  open c use {State}

  abbrev pub note_sent :
      Status × Peer × Option (List ℕ) → MediaCtx c → Audio → State → MediaCtx c × Option (List ℕ)
  note_sent (status, p, d) m a s =
      (record m { peer = p; audio = some (if is_ok status then note_report_sent a else a, s) }, d)

  abbrev pub send_report :
      Outlet → MediaCtx c → Audio → State → Status × Option (List ℕ) → MediaCtx c × Option (List ℕ)
  send_report o m a s (Status.ok, some content) =
      let packet =
        feedback_packet m.control_payload_type m.control_seq (local_ssrc (some a)) content in
      note_sent (Peer.send m.peer (some packet) (o.stack 1) (o.result 1))
        (record m { control_seq = u32 (m.control_seq + 1) }) a s
  send_report o m a s (error, content) = (record m { audio = some (a, s) }, none)

  abbrev pub take_and_send :
      Outlet
      → MediaCtx c
      → List ℕ
      → State
      → Bool × Audio × Option Feedback
      → MediaCtx c × Option (List ℕ)
  take_and_send o m content s (taken, a, f) =
      if taken
      then send_report o m a s (Feedback.serialize f (some content) feedback_size)
      else (record m { audio = some (a, s) }, none)

  abbrev pub feedback_of :
      Outlet
      → Feedback
      → List ℕ
      → MediaCtx c
      → ℕ
      → Option (Audio × State)
      → MediaCtx c × Option (List ℕ)
  feedback_of o blank content m now_ns none = (m, none)
  feedback_of o blank content m now_ns (some (a, s)) =
      if not m.running || not (is_adaptation_enabled (some a))
      then (m, none)
      else take_and_send o m content s (take_receiver_report a now_ns (some blank))

  -- `maybe_send_audio_feedback`; `blank` and `content` are the report and the bytes on the stack.
  unfoldable pub maybe_send_audio_feedback :
      Outlet → Feedback → List ℕ → MediaCtx c → ℕ → MediaCtx c × Option (List ℕ)
  maybe_send_audio_feedback o blank content m now_ns = feedback_of o blank content m now_ns m.audio

  -- What one operation meets: the outlet, the stack, and the clock where it is read.
  pub record Surroundings : Type 0 where
    pub outlet : Outlet
    pub blank : Feedback
    pub content : List ℕ
    pub clock : ℕ
    pub clock_after : ℕ

  abbrev pub sent_frame :
      Surroundings
      → MediaCtx c
      → Status × Peer × Option (List ℕ)
      → Status × MediaCtx c × List (List ℕ)
  sent_frame e m (status, p, d) =
      let (m', report) =
        maybe_send_audio_feedback e.outlet e.blank e.content (record m { peer = p })
          e.clock_after in
      (status, m', with_datagram d (with_datagram report []))

  abbrev pub send_packetized :
      Surroundings → MediaCtx c → Playback.Packetized c → Status × MediaCtx c × List (List ℕ)
  send_packetized e m r =
      let m' = record m { audio = some (r.audio, r.codec); audio_packet = r.packet } in
      if is_ok r.status
      then sent_frame e m' (Peer.send m.peer (some r.packet) (e.outlet.stack 0) (e.outlet.result 0))
      else (r.status, m', [])

  abbrev pub send_audio_of :
      Surroundings
      → MediaCtx c
      → Option (List ℕ)
      → ℕ
      → Option (Audio × State)
      → Status × MediaCtx c × List (List ℕ)
  send_audio_of e m pcm samples none = (Status.not_ready, m, [])
  send_audio_of e m pcm samples (some (a, s)) =
      if not m.running
      then (Status.not_ready, m, [])
      else send_packetized e m
          (Playback.packetize c a s e.clock pcm samples (record m.audio_packet { len = 0 }) 1 1)

  -- `mezia_send_audio` on a context that is not null.
  unfoldable pub send_audio :
      Surroundings → MediaCtx c → Option (List ℕ) → ℕ → Status × MediaCtx c × List (List ℕ)
  send_audio e m pcm samples = send_audio_of e m pcm samples m.audio

  abbrev pub played :
      Surroundings
      → MediaCtx c
      → ℕ
      → Status × Audio × State × Option Playout
      → Status × MediaCtx c × Option Playout × Option (List ℕ)
  played e m now_ns (status, a, s, playout) =
      let (m', report) =
        maybe_send_audio_feedback e.outlet e.blank e.content (record m { audio = some (a, s) })
          now_ns in
      (status, m', playout, report)

  abbrev pub playout_audio_of :
      Surroundings
      → MediaCtx c
      → ℕ
      → Option (Audio × State)
      → Status × MediaCtx c × Option Playout × Option (List ℕ)
  playout_audio_of e m now_ns none = (Status.not_ready, m, none, none)
  playout_audio_of e m now_ns (some (a, s)) = played e m now_ns (Playback.playout c a s now_ns)

  -- `mezia_playout_audio` on a context that is not null, with the call of the audio callback.
  unfoldable pub playout_audio :
      Surroundings → MediaCtx c → ℕ → Status × MediaCtx c × Option Playout × Option (List ℕ)
  playout_audio e m now_ns = playout_audio_of e m now_ns m.audio

  abbrev pub send_nal :
      Outlet → MediaCtx c → Packetizer.Packetized → Status × MediaCtx c × List (List ℕ)
  send_nal o m r =
      let (status, p, ds) = send_packets o r.packets r.packet_count 0 m.peer in
      let m' = record m { video = some r.video } in
      if is_ok r.status then (status, record m' { peer = p }, ds) else (r.status, m', [])

  abbrev pub send_with :
      Outlet
      → MediaCtx c
      → Video
      → ℕ
      → Bool
      → Option (List ℕ)
      → Option (List ℕ)
      → ℕ
      → ℕ
      → Bool
      → Status × MediaCtx c × List (List ℕ)
  send_with o m v count calloc_ok none nal nal_len timestamp eau = (Status.nomem, m, [])
  send_with o m v count calloc_ok (some storage) nal nal_len timestamp eau =
      if not calloc_ok
      then (Status.nomem, m, [])
      else send_nal o m (
          packetize_nal v nal nal_len timestamp eau (packet_slots m.mtu count storage 0) count
            count)

  abbrev pub send_h264_of :
      Outlet
      → Bool
      → (ℕ → Option (List ℕ))
      → MediaCtx c
      → Option (List ℕ)
      → ℕ
      → ℕ
      → Bool
      → Option Video
      → Status × MediaCtx c × List (List ℕ)
  send_h264_of o calloc_ok malloc m nal nal_len timestamp eau none = (Status.not_ready, m, [])
  send_h264_of o calloc_ok malloc m nal nal_len timestamp eau (some v) =
      let count = max_packets_for_nal v nal_len in
      if not m.running
      then (Status.not_ready, m, [])
      else if count == 0
          || ltb (size_max / packet_struct_size) count
          || ltb (size_max / m.mtu) count
      then (Status.invalid_arg, m, [])
      else send_with o m v count calloc_ok (malloc (count * m.mtu)) nal nal_len timestamp eau

  -- `mezia_send_h264` on a context that is not null; `calloc_ok` and `malloc` are what the two
  -- allocations answer.
  unfoldable pub send_h264 :
      Outlet
      → Bool
      → (ℕ → Option (List ℕ))
      → MediaCtx c
      → Option (List ℕ)
      → ℕ
      → ℕ
      → Bool
      → Status × MediaCtx c × List (List ℕ)
  send_h264 o calloc_ok malloc m nal nal_len timestamp eau =
      send_h264_of o calloc_ok malloc m nal nal_len timestamp eau m.video
