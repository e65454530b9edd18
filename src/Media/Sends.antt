-- ===== src/Media/Sends.antt =====
-- The invariant of the context through sending and playing audio in src/media/media.c.
use libmezia.Prelude.{
  ℕ, ◌-◌, refl, List, Option, none, some, Bool, ◌||◌, not, ltb, ◌*◌, if_cases, if◌then◌else◌, inl,
  arith,
}
use libmezia.Types.{Status, is_ok, Packet}
use libmezia.Feedback.{Feedback}
use libmezia.Opus.{Codec}
use libmezia.Audio.{Audio, note_report_sent, local_ssrc, is_adaptation_enabled}
use libmezia.Audio.Receiver.{take_receiver_report}
use libmezia.Audio.Playback
use libmezia.Audio.Valid as AudioValid
use libmezia.Audio.Running.{packetize-IsValid, playout-IsValid}
use libmezia.Peer
use libmezia.Peer.{Peer}
use libmezia.Peer.Life
use libmezia.Peer.Life.{Stays, send-IsValid, send-Stays}
use libmezia.Media.{MediaCtx}
use libmezia.Media.Sender.{
  Outlet, Surroundings, maybe_send_audio_feedback, take_and_send, send_report, note_sent,
  send_packetized, send_audio, playout_audio, send_audio_of, playout_audio_of, feedback_of,
  feedback_packet,
}
use libmezia.Media.Valid
use libmezia.Media.Valid.{IsValid, stays-IsValid}

abbrev Taken : Bool × Audio × Option Feedback → Type 0
Taken t = AudioValid.IsValid t.1

-- Taking a report keeps the audio context valid.
take-IsValid :
    (a : Audio) (now_ns : ℕ) (f : Option Feedback)
    → AudioValid.IsValid a
    → AudioValid.IsValid (take_receiver_report a now_ns f).1
unfolding take_receiver_report
take-IsValid a now_ns none v = v
take-IsValid a now_ns (some f) v =
    if_cases Taken (not a.adaptation_enabled) (λ _. v)
      (λ _.
        if_cases Taken
          (not a.report_initialized
            || ltb now_ns a.report_started_ns
            || ltb (now_ns - a.report_started_ns)
                (a.config.adaptation.report_interval_ms * 1000000))
          (λ _. v)
          (λ _. record {
            rates = v.rates;
            buffer = v.buffer;
            tracking = (inl refl, omega arith);
            room = v.room;
            type_fits = v.type_fits;
            seq_fits = v.seq_fits;
            timestamp_fits = v.timestamp_fits;
            few_plc = v.few_plc;
          }))

note-IsValid : (a : Audio) → AudioValid.IsValid a → AudioValid.IsValid (note_report_sent a)
unfolding note_report_sent
note-IsValid a v =
    AudioValid.same-IsValid a _ (refl, refl, refl, refl, refl, refl, refl, refl, refl) v.buffer
      v.few_plc v

module _ (c : Codec) where
  open c use {State}

  abbrev Fed : MediaCtx c × Option (List ℕ) → Type 0
  Fed t = IsValid c t.0

  -- The context with another audio context in it.
  sound-IsValid :
      (m : MediaCtx c) (a : Audio) (s : State)
      → AudioValid.IsValid a
      → IsValid c m
      → IsValid c (record m { audio = some (a, s) })
  sound-IsValid m a s w v = record {
    peer = v.peer;
    listens = v.listens;
    runs = v.runs;
    sound = w;
    picture = v.picture;
  }

  counted-IsValid :
      (m : MediaCtx c) (n : ℕ) → IsValid c m → IsValid c (record m { control_seq = n })
  counted-IsValid m n v = record {
    peer = v.peer;
    listens = v.listens;
    runs = v.runs;
    sound = v.sound;
    picture = v.picture;
  }

  noted-IsValid :
      (b : Bool) (a : Audio) (s : State)
      → AudioValid.IsValid a
      → AudioValid.IsValid (if b then note_report_sent a else a)
  noted-IsValid b a s w = if_cases AudioValid.IsValid b (λ _. note-IsValid a w) (λ _. w)

  note_sent-IsValid :
      (t : Status × Peer × Option (List ℕ)) (m : MediaCtx c) (a : Audio) (s : State)
      → Life.IsValid t.1
      → Stays m.peer t.1
      → AudioValid.IsValid a
      → IsValid c m
      → Fed (note_sent c t m a s)
  note_sent-IsValid t m a s valid stays w v =
      sound-IsValid (record m { peer = t.1 }) (if is_ok t.0 then note_report_sent a else a) s
        (noted-IsValid (is_ok t.0) a s w) (stays-IsValid c m t.1 valid stays v)

  report-IsValid :
      (o : Outlet) (m : MediaCtx c) (a : Audio) (s : State) (answer : Status × Option (List ℕ))
      → AudioValid.IsValid a
      → IsValid c m
      → Fed (send_report c o m a s answer)
  report-IsValid o m a s (Status.ok, some content) w v =
      let packet : Option Packet =
        some (feedback_packet m.control_payload_type m.control_seq (local_ssrc (some a)) content) in
      note_sent-IsValid (Peer.send m.peer packet (o.stack 1) (o.result 1)) _ a s
        (send-IsValid m.peer packet (o.stack 1) (o.result 1) v.peer)
        (send-Stays m.peer packet (o.stack 1) (o.result 1)) w (counted-IsValid m _ v)
  report-IsValid o m a s (Status.ok, none) w v = sound-IsValid m a s w v
  report-IsValid o m a s (_, content) w v = sound-IsValid m a s w v

  taken-IsValid :
      (o : Outlet) (m : MediaCtx c) (content : List ℕ) (s : State)
      (t : Bool × Audio × Option Feedback)
      → AudioValid.IsValid t.1
      → IsValid c m
      → Fed (take_and_send c o m content s t)
  taken-IsValid o m content s t w v =
      if_cases Fed t.0 (λ _. report-IsValid o m t.1 s _ w v) (λ _. sound-IsValid m t.1 s w v)

  feedback_of-IsValid :
      (o : Outlet) (blank : Feedback) (content : List ℕ) (m : MediaCtx c) (now_ns : ℕ)
      (x : Option (Audio × State))
      → Valid.AudioIsValid c x
      → IsValid c m
      → Fed (feedback_of c o blank content m now_ns x)
  feedback_of-IsValid o blank content m now_ns none w v = v
  feedback_of-IsValid o blank content m now_ns (some (a, s)) w v =
      if_cases Fed (not m.running || not (is_adaptation_enabled (some a))) (λ _. v)
        (λ _. taken-IsValid o m content s _ (take-IsValid a now_ns (some blank) w) v)

  -- Sending a report, or not, keeps a valid context valid.
  pub feedback-IsValid :
      (o : Outlet) (blank : Feedback) (content : List ℕ) (m : MediaCtx c) (now_ns : ℕ)
      → IsValid c m
      → Fed (maybe_send_audio_feedback c o blank content m now_ns)
  unfolding maybe_send_audio_feedback
  feedback-IsValid o blank content m now_ns v =
      feedback_of-IsValid o blank content m now_ns m.audio v.sound v

  abbrev Sent : Status × MediaCtx c × List (List ℕ) → Type 0
  Sent t = IsValid c t.1

  packetized-IsValid :
      (e : Surroundings c) (m : MediaCtx c) (r : Playback.Packetized c)
      → AudioValid.IsValid r.audio
      → IsValid c m
      → Sent (send_packetized c e m r)
  packetized-IsValid e m r w v =
      let packet : Option Packet = some r.packet in
      let valid : IsValid c
          (record m { audio = some (r.audio, r.codec); audio_packet = r.packet }) =
        record {
          peer = v.peer;
          listens = v.listens;
          runs = v.runs;
          sound = w;
          picture = v.picture;
        } in
      if_cases Sent (is_ok r.status)
        (λ _. feedback-IsValid e.outlet e.blank e.content _ e.clock_after (
          stays-IsValid c _ (Peer.send m.peer packet (e.outlet.stack 0) (e.outlet.result 0)).1
            (send-IsValid m.peer packet (e.outlet.stack 0) (e.outlet.result 0) v.peer)
            (send-Stays m.peer packet (e.outlet.stack 0) (e.outlet.result 0)) valid))
        (λ _. valid)

  send_audio_of-IsValid :
      (e : Surroundings c) (m : MediaCtx c) (pcm : Option (List ℕ)) (samples : ℕ)
      (x : Option (Audio × State))
      → Valid.AudioIsValid c x
      → IsValid c m
      → Sent (send_audio_of c e m pcm samples x)
  send_audio_of-IsValid e m pcm samples none w v = v
  send_audio_of-IsValid e m pcm samples (some (a, s)) w v =
      if_cases Sent (not m.running) (λ _. v)
        (λ _.
          packetized-IsValid e m
            (Playback.packetize c a s e.clock pcm samples (record m.audio_packet { len = 0 }) 1 1)
            (packetize-IsValid c a s e.clock pcm samples (record m.audio_packet { len = 0 }) 1 1 w)
            v)

  -- Sending a frame, and the report that goes with it, keeps a valid context valid.
  pub send_audio-IsValid :
      (e : Surroundings c) (m : MediaCtx c) (pcm : Option (List ℕ)) (samples : ℕ)
      → IsValid c m
      → IsValid c (send_audio c e m pcm samples).1
  unfolding send_audio
  send_audio-IsValid e m pcm samples v = send_audio_of-IsValid e m pcm samples m.audio v.sound v

  playout_of-IsValid :
      (e : Surroundings c) (m : MediaCtx c) (now_ns : ℕ) (x : Option (Audio × State))
      → Valid.AudioIsValid c x
      → IsValid c m
      → IsValid c (playout_audio_of c e m now_ns x).1
  playout_of-IsValid e m now_ns none w v = v
  playout_of-IsValid e m now_ns (some (a, s)) w v =
      feedback-IsValid e.outlet e.blank e.content _ now_ns
        (sound-IsValid m _ _ (playout-IsValid c a s now_ns w) v)

  -- A tick of playout, and the report that goes with it, keeps a valid context valid.
  pub playout_audio-IsValid :
      (e : Surroundings c) (m : MediaCtx c) (now_ns : ℕ)
      → IsValid c m
      → IsValid c (playout_audio c e m now_ns).1
  unfolding playout_audio
  playout_audio-IsValid e m now_ns v = playout_of-IsValid e m now_ns m.audio v.sound v
