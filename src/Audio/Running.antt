-- ===== src/Audio/Running.antt =====
-- The invariant of the audio context through what src/audio/audio.c does with the codec: playout and
-- packetizing.
use libmezia.Prelude.{
  ℕ, List, Option, some, none, Bool, true, arith, ltb, not, is_null, ◌||◌, if_cases, ◌==◌,
}
use libmezia.Types.{Status, is_ok, Packet}
use libmezia.Bitrate.Range.{update-IsValid}
use libmezia.Jitter
use libmezia.Jitter.{Jitter, Frame, slot_at}
use libmezia.Jitter.Valid
use libmezia.Jitter.Valid.{IsWirePacket, insert-IsValid, init-IsValid}
use libmezia.Jitter.Playout.{copy-kept, ready-IsValid, advance-copy-IsValid}
use libmezia.Opus.{Codec}
use libmezia.Audio.{Audio, Playout}
use libmezia.Audio.Playback.{
  playout, play_next, play_missing, play_frame, play_fec, conceal, finish, packetize,
  packetize_frame, send_frame, apply_pending_feedback, apply_report, is_stale, Packetized,
  max_payload,
}
use libmezia.Audio.Valid.{IsValid, same-IsValid}

module _ (c : Codec) where
  open c use {State}

  abbrev After : Status × Audio × State × Option Playout → Type 0
  After t = IsValid t.1

  abbrev Left : Audio × State → Type 0
  Left t = IsValid t.0

  abbrev Sent : Packetized c → Type 0
  Sent t = IsValid t.audio

  finish-IsValid :
      (a : Audio) (s : State) (status : Status) (pcm : List ℕ) (timestamp : ℕ) (gap : Bool)
      → IsValid a
      → IsValid (finish c a s status pcm timestamp gap).1
  unfolding finish
  finish-IsValid a s status pcm timestamp gap v =
      if_cases After (is_ok status) (λ _. same-IsValid a _ (ground arith) v.buffer v.few_plc v)
        (λ _. same-IsValid a _ (ground arith) v.buffer v.few_plc v)

  play_frame-IsValid : (a : Audio) (s : State) (f : Frame) → IsValid a → After (play_frame c a s f)
  unfolding play_frame
  play_frame-IsValid a s f v =
      finish-IsValid _ _ _ _ _ _ (same-IsValid a _ (ground arith) v.buffer (omega arith) v)

  play_fec-IsValid :
      (a : Audio) (s : State) (f : Frame) (timestamp : ℕ)
      → IsValid a
      → After (play_fec c a s f timestamp)
  unfolding play_fec
  play_fec-IsValid a s f timestamp v =
      finish-IsValid _ _ _ _ _ _ (same-IsValid a _ (ground arith) v.buffer (omega arith) v)

  conceal-IsValid :
      (a : Audio) (s : State) (timestamp : ℕ) → IsValid a → After (conceal c a s timestamp)
  unfolding conceal
  conceal-IsValid a s timestamp v =
      if_cases After (ltb a.consecutive_plc 6)
        (λ few.
          finish-IsValid _ _ _ _ _ _ (same-IsValid a _ (ground arith) v.buffer (ground arith) v))
        (λ _. finish-IsValid _ _ _ _ _ _ v)

  play_missing-IsValid :
      (a : Audio) (s : State) (f : Option Frame) (timestamp : ℕ)
      → IsValid a
      → After (play_missing c a s f timestamp)
  play_missing-IsValid a s none timestamp v = conceal-IsValid a s timestamp v
  play_missing-IsValid a s (some f) timestamp v = play_fec-IsValid a s f timestamp v

  play_next-IsValid :
      (a : Audio) (s : State) (j : Jitter) (f : Option Frame)
      → Valid.IsValid (Jitter.advance j)
      → IsValid a
      → After (play_next c a s j f)
  play_next-IsValid a s j (some f) buffer v =
      play_frame-IsValid _ s f (same-IsValid a _ (ground arith) buffer v.few_plc v)
  play_next-IsValid a s j none buffer v =
      play_missing-IsValid _ s _ _
        (same-IsValid a _ (ground arith) (rw copy-kept buffer) v.few_plc v)

  -- A tick of playout, whatever the codec answers, keeps a valid context valid; so the jitter buffer
  -- stays consistent, and at most six frames in a row are concealed before silence is played.
  pub playout-IsValid :
      (a : Audio) (s : State) (now_ns : ℕ) → IsValid a → After (playout c a s now_ns)
  unfolding playout
  playout-IsValid a s now_ns v =
      let j = (Jitter.ready a.jitter now_ns).1 in
      let valid = ready-IsValid a.jitter now_ns v.buffer in
      if_cases After (Jitter.ready a.jitter now_ns).0
        (λ _.
          play_next-IsValid a s (Jitter.copy j j.expected_seq true).1
            (Jitter.copy j j.expected_seq true).0 (advance-copy-IsValid j valid) v)
        (λ _. same-IsValid a _ (ground arith) valid v.few_plc v)

  -- What sending does to the context.
  apply_report-IsValid :
      (a : Audio) (s : State) (expected received : ℕ)
      → IsValid a
      → IsValid (apply_report c a s expected received).0
  unfolding apply_report
  apply_report-IsValid a s expected received v = record {
    rates = update-IsValid expected received v.rates;
    buffer = v.buffer;
    tracking = v.tracking;
    room = v.room;
    type_fits = v.type_fits;
    seq_fits = v.seq_fits;
    timestamp_fits = v.timestamp_fits;
    few_plc = v.few_plc;
  }

  pub apply_pending-IsValid :
      (a : Audio) (s : State) (now_ns : ℕ)
      → IsValid a
      → IsValid (apply_pending_feedback c a s now_ns).0
  unfolding apply_pending_feedback
  apply_pending-IsValid a s now_ns v =
      if_cases Left (not a.adaptation_enabled) (λ _. v)
        (λ _.
          if_cases Left a.feedback_pending
            (λ _.
              apply_report-IsValid _ s _ _ (same-IsValid a _ (ground arith) v.buffer v.few_plc v))
            (λ _.
              if_cases Left (is_stale a now_ns)
                (λ _.
                  apply_report-IsValid _ s _ _
                    (same-IsValid a _ (ground arith) v.buffer v.few_plc v))
                (λ _. v)))

  send_frame-IsValid :
      (a : Audio) (p : Packet) (encoded : List ℕ) → IsValid a → IsValid (send_frame c a p encoded).0
  unfolding send_frame
  send_frame-IsValid a p encoded v = record {
    rates = v.rates;
    buffer = v.buffer;
    tracking = v.tracking;
    room = v.room;
    type_fits = v.type_fits;
    seq_fits = omega arith;
    timestamp_fits = omega arith;
    few_plc = v.few_plc;
  }

  packetize_frame-IsValid :
      (a : Audio) (s : State) (pcm : List ℕ) (p : Packet) (n : ℕ)
      → IsValid a
      → IsValid (packetize_frame c a s pcm p n).audio
  unfolding packetize_frame
  packetize_frame-IsValid a s pcm p n v =
      if_cases Sent (is_null p.bytes || ltb p.capacity (max_payload c a)) (λ _. v)
        (λ _.
          if_cases Sent (is_ok (c.encode s pcm (max_payload c a)).0)
            (λ _. send_frame-IsValid a p _ v) (λ _. v))

  -- Packetizing, with whatever arguments and whatever the codec answers, keeps a valid context valid:
  -- the bitrate that the reports lead to stays between the limits.
  pub packetize-IsValid :
      (a : Audio) (s : State) (now_ns : ℕ) (pcm : Option (List ℕ)) (samples : ℕ) (p : Packet)
      (packet_capacity n : ℕ)
      → IsValid a
      → IsValid (packetize c a s now_ns pcm samples p packet_capacity n).audio
  unfolding packetize
  packetize-IsValid a s now_ns none samples p room n v = v
  packetize-IsValid a s now_ns (some pcm) samples p room n v =
      if_cases Sent (not (samples == 960)) (λ _. v)
        (λ _.
          if_cases Sent (room == 0) (λ _. v)
            (λ _. packetize_frame-IsValid _ _ pcm p n (apply_pending-IsValid a s now_ns v)))
