-- ===== src/Media/Reports.antt =====
-- The loss reports of src/media/media.c, from the context that counts to the one that acts on them.
use libmezia.Prelude.{
  ℕ, ◌+◌, ◌≤◌, ◌<◌, ◌≡◌, refl, List, Option, none, some, Bool, true, false, ◌&&◌, ◌||◌, not, ◌==◌,
  arith, take, length, if_false, ◌∙◌, ap, sym, if◌then◌else◌, IsU32, take-length, length-take,
  bit_xor, subst, u32, equal,
}
use libmezia.Prelude.Bits.{bit_xor-lt}
use libmezia.Types.{Status, is_ok, Packet, bytes_of}
use libmezia.Rtp.RoundTrip.{SamePacket}
use libmezia.Rtp.{seq_before}
use libmezia.Feedback
use libmezia.Feedback.{Feedback}
use libmezia.Feedback.RoundTrip.{IsReport, parse-serialize_report, parse-take, length-serialize}
use libmezia.Opus.{Codec}
use libmezia.Audio.{Audio, note_report_sent, local_ssrc, is_adaptation_enabled}
use libmezia.Audio.Receiver.{take_receiver_report, submit_receiver_report}
use libmezia.Audio.Report.{take_receiver_report-IsReport}
use libmezia.Audio.Valid as AudioValid
use libmezia.Video.{Delivery}
use libmezia.Peer
use libmezia.Peer.{Peer, Address, Sending, Incoming, same_endpoint, receive_round}
use libmezia.Media.{MediaCtx}
use libmezia.Media.Sender.{
  Outlet, feedback_packet, maybe_send_audio_feedback, note_sent, feedback_of, take_and_send,
  send_report,
}
use libmezia.Media.Receiver.{media_round, media_packet, blank_report}
use libmezia.Audio.Report.{IsTracking}
use libmezia.Media.Valid
use libmezia.Media.Wire.{media_round-send, runs}

-- Bytes that begin with a written report parse to it.
parse_front :
    (f g : Feedback) (sent : List ℕ) (b : Option (List ℕ))
    → length sent ≡ 16
    → Feedback.parse (some sent) 16 (some g) ≡ (Status.ok, some f)
    → take 16 (bytes_of b) ≡ sent
    → Feedback.parse b 16 (some g) ≡ (Status.ok, some f)
parse_front f g sent none size read front = absurd (omega (arith, size, ap length front))
parse_front f g sent (some d) size read front =
    parse-take d g (omega (arith, size, length-take 16 d, ap length front))
    ∙ ap (λ (x : List ℕ). Feedback.parse (some x) 16 (some g)) front
    ∙ read

-- The report that a packet carries is what is read from the packet that arrives.
parse_arrived :
    (f g : Feedback) (sent : List ℕ) (p r : Packet)
    → p.bytes ≡ some sent
    → p.len ≡ 16
    → length sent ≡ 16
    → Feedback.parse (some sent) 16 (some g) ≡ (Status.ok, some f)
    → SamePacket p r
    → Feedback.parse r.bytes r.len (some g) ≡ (Status.ok, some f)
parse_arrived f g sent p r here len size read same =
    let whole : take 16 sent ≡ sent = take-length sent 16 (omega (arith, size)) in
    let long : r.len ≡ 16 = same.same_len ∙ len in
    let front : take 16 (bytes_of r.bytes) ≡ sent =
      ap (λ (n : ℕ). take n (bytes_of r.bytes)) (sym long)
      ∙ same.same_payload
      ∙ ap (λ (n : ℕ). take n (bytes_of p.bytes)) len
      ∙ ap (λ (x : Option (List ℕ)). take 16 (bytes_of x)) here
      ∙ whole in
    ap (λ (n : ℕ). Feedback.parse r.bytes n (some g)) long
    ∙ parse_front f g sent r.bytes size read front

-- A report that the sender has not seen, about its own stream, is what it will act on next.
taken_report :
    (b : Audio) (f : Feedback) (arrival_time_ns : ℕ)
    → b.adaptation_enabled ≡ true
    → 1 ≤ f.expected
    → f.received ≤ f.expected
    → f.media_ssrc ≡ b.config.ssrc
    → (b.have_feedback_seq && not (seq_before b.last_feedback_seq f.report_seq)) ≡ false
    → let b' = (submit_receiver_report b (some f) arrival_time_ns).1 in
      (b'.pending_feedback ≡ f)
      × (b'.feedback_pending ≡ true)
      × (b'.last_feedback_time_ns ≡ arrival_time_ns)
unfolding submit_receiver_report
taken_report b f arrival_time_ns on some_expected not_more own new = ground arith

taken_fields :
    (a a' : Audio) (now_ns : ℕ) (blank f : Feedback)
    → take_receiver_report a now_ns (some blank) ≡ (true, a', some f)
    → (f.media_ssrc ≡ a.report_ssrc) × (a'.config ≡ a.config)
unfolding take_receiver_report
taken_fields a a' now_ns blank f e = ground arith

module _ (c : Codec) where
  open c use {State}

  takes_report :
      (q : MediaCtx c) (b : Audio) (t : State) (r : Packet) (f : Feedback)
      → q.audio ≡ some (b, t)
      → (r.payload_type == q.control_payload_type) ≡ true
      → Feedback.parse r.bytes r.len (some (blank_report c)) ≡ (Status.ok, some f)
      → (media_packet c q r).0.audio
        ≡ some ((submit_receiver_report b (some f) r.arrival_time_ns).1, t)
  unfolding media_packet
  takes_report q b t r f here type read = rw (here, type, read) refl

  -- A running context whose audio part has a report due: `f`, which leaves `a`.
  pub record Reports (m : MediaCtx c) (blank : Feedback) (now_ns : ℕ) (f : Feedback) (a : Audio)
      (s : State) : Type 0 where
    pub valid : Valid.IsValid c m
    pub running : m.running ≡ true
    pub before : Audio
    pub here : m.audio ≡ some (before, s)
    pub due : take_receiver_report before now_ns (some blank) ≡ (true, a, some f)
    pub type_fits : m.control_payload_type < 128
    pub ssrc_fits : IsU32 before.config.ssrc
    pub report_fits : IsU32 before.report_ssrc
    pub room : 28 ≤ m.peer.config.mtu

  -- A context that listens to `source`, and has not had this report about its stream.
  pub record Awaits (q : MediaCtx c) (source : Address) (f : Feedback) (b : Audio) (t : State)
      : Type 0 where
    pub from : same_endpoint q.peer.remote_addr source ≡ true
    pub listening : q.peer.config.on_packet ≡ true
    pub here : q.audio ≡ some (b, t)
    pub on : b.adaptation_enabled ≡ true
    pub own : f.media_ssrc ≡ b.config.ssrc
    pub new : (b.have_feedback_seq && not (seq_before b.last_feedback_seq f.report_seq)) ≡ false

  due_enabled :
      (before a : Audio) (now_ns : ℕ) (blank f : Feedback)
      → take_receiver_report before now_ns (some blank) ≡ (true, a, some f)
      → before.adaptation_enabled ≡ true
  unfolding take_receiver_report
  due_enabled before a now_ns blank f due = ground arith

  report_sent :
      (m : MediaCtx c) (blank f : Feedback) (now_ns : ℕ) (a : Audio) (s : State) (o : Outlet)
      (content sent : List ℕ)
      → Reports m blank now_ns f a s
      → Feedback.serialize (some f) (some content) 16 ≡ (Status.ok, some sent)
      → maybe_send_audio_feedback c o blank content m now_ns
        ≡ note_sent c
            (Peer.send m.peer
              (some
                (feedback_packet m.control_payload_type m.control_seq (local_ssrc (some a)) sent))
              (o.stack 1)
              (o.result 1))
            (record m { control_seq = u32 (m.control_seq + 1) })
            a
            s
  unfolding maybe_send_audio_feedback is_adaptation_enabled
  report_sent m blank f now_ns a s o content sent r w =
      let enabled = due_enabled r.before a now_ns blank f r.due in
      ap (λ (x : Option (Audio × State)). feedback_of c o blank content m now_ns x) r.here
      ∙ if_false (not m.running || not (is_adaptation_enabled (some r.before))) (m, none)
          (ground (arith, enabled, r.running))
      ∙ ap (λ (x : Bool × Audio × Option Feedback). take_and_send c o m content s x) r.due
      ∙ ap (λ (x : Status × Option (List ℕ)). send_report c o m a s x) w

  tracked :
      (m : MediaCtx c) (blank f : Feedback) (now_ns : ℕ) (a : Audio) (s : State)
      → Reports m blank now_ns f a s
      → IsTracking a × IsReport f
  tracked m blank f now_ns a s r =
      let sound : AudioValid.IsValid r.before = subst (Valid.AudioIsValid c) r.here r.valid.sound in
      let (least, most, few, numbered, next, counting) =
        take_receiver_report-IsReport r.before a now_ns blank f sound.tracking r.due in
      (
        counting,
        record {
          some_expected = omega (arith, least, most);
          not_more = most;
          seq_fits = rw numbered sound.tracking.1;
          ssrc_fits = rw (taken_fields r.before a now_ns blank f r.due).0 r.report_fits;
          expected_fits = omega (arith, few);
        },
      )

  read_sent :
      (f g : Feedback) (content sent : List ℕ)
      → (Feedback.serialize (some f) (some content) 16).1 ≡ some sent
      → Feedback.parse (Feedback.serialize (some f) (some content) 16).1 16 (some g)
        ≡ (Status.ok, some f)
      → Feedback.parse (some sent) 16 (some g) ≡ (Status.ok, some f)
  read_sent f g content sent is_sent read =
      ap (λ (x : Option (List ℕ)). Feedback.parse x 16 (some g)) (sym is_sent) ∙ read

  report_ssrc :
      (m : MediaCtx c) (blank f : Feedback) (now_ns : ℕ) (a : Audio) (s : State)
      → Reports m blank now_ns f a s
      → IsU32 (bit_xor (local_ssrc (some a)) 0x4d455a49)
  unfolding local_ssrc
  report_ssrc m blank f now_ns a s r =
      bit_xor-lt 32 a.config.ssrc 0x4d455a49
        (rw (taken_fields r.before a now_ns blank f r.due).1 r.ssrc_fits) (omega arith)

  -- A valid context that runs has a loss report due; its control type is below 128, its MTU has room for
  -- 28 bytes, and the socket takes the datagram. Then `maybe_send_audio_feedback` sends one datagram and
  -- counts one more report as sent. When the datagram arrives at a context that listens to its source,
  -- uses the same control type, adapts, owns the stream that was counted and has not had this report
  -- yet, that context holds exactly the report that was counted, for its next frame to act on, with the
  -- time of arrival.
  pub media_round-report :
      (m q : MediaCtx c) (blank f : Feedback) (now_ns later_ns : ℕ) (a b : Audio) (s t : State)
      (o : Outlet) (content : List ℕ) (source : Address)
      → Reports m blank now_ns f a s
      → Awaits q source f b t
      → q.control_payload_type ≡ m.control_payload_type
      → length content ≡ 16
      → length (o.stack 1) ≡ 1500
      → o.result 1 ≡ Sending.sent
      → let (m', out) = maybe_send_audio_feedback c o blank content m now_ns in
        (wire : List ℕ) × (out ≡ some wire)
        × (m'.audio ≡ some (note_report_sent a, s))
        × (b' : Audio) × ((media_round c q (Incoming.datagram wire source) later_ns).0.audio
            ≡ some (b', t))
        × (b'.pending_feedback ≡ f)
        × (b'.feedback_pending ≡ true)
        × (b'.last_feedback_time_ns ≡ later_ns)
  media_round-report m q blank f now_ns later_ns a b s t o content source r w same_type size stack
        went =
      let (counting, fine) = tracked m blank f now_ns a s r in
      let (sent, is_sent, sized) = length-serialize f content fine size in
      let (accepted, read) =
        parse-serialize_report f (blank_report c) content 16 fine (omega arith)
          (omega (arith, size)) in
      let packet : Packet =
        feedback_packet m.control_payload_type m.control_seq (local_ssrc (some a)) sent in
      let (wire, done, out, p, round, same, timed) =
        media_round-send c m.peer q packet sent (o.stack 1) source later_ns r.valid.peer
          (runs c m r.running r.valid) stack
          (record {
            here = refl;
            enough = omega (arith, sized);
            small = omega arith;
            type_fits = r.type_fits;
            seq_fits = omega arith;
            timestamp_fits = omega arith;
            ssrc_fits = report_ssrc m blank f now_ns a s r;
          })
          (omega (arith, r.room)) w.from w.listening in
      let all =
        report_sent m blank f now_ns a s o content sent r (λ i. (accepted i, is_sent i))
        ∙ ap
            (λ (x : Sending).
              note_sent c (Peer.send m.peer (some packet) (o.stack 1) x)
                (record m { control_seq = u32 (m.control_seq + 1) }) a s)
            went in
      let here : MediaCtx c = record q {
        peer = (receive_round q.peer (Incoming.datagram wire source) later_ns).peer;
      } in
      let typed : (p.payload_type == q.control_payload_type) ≡ true =
        rw (same.same_type, same_type) (equal m.control_payload_type) in
      let taken =
        taken_report b f p.arrival_time_ns w.on fine.some_expected fine.not_more w.own w.new in
      (
        wire,
        ap (λ (x : MediaCtx c × Option (List ℕ)). x.1) all ∙ out,
        ap (λ (x : MediaCtx c × Option (List ℕ)). x.0.audio) all
            ∙ ap (λ (x : Status). some (if is_ok x then note_report_sent a else a, s)) done,
        (submit_receiver_report b (some f) p.arrival_time_ns).1,
        ap (λ (x : MediaCtx c × Option Delivery). x.0.audio) round
            ∙ takes_report here b t p f w.here typed (
                parse_arrived f (blank_report c) sent packet p refl refl sized
                  (read_sent f (blank_report c) content sent is_sent read) same),
        taken.0,
        taken.1,
        taken.2 ∙ timed,
      )
