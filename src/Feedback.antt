-- ===== src/Feedback.antt =====
-- src/transport/audio_feedback.c: the 16-byte receiver report.
pub mod RoundTrip
use libmezia.Prelude.{ℕ, ◌+◌, List, Option, none, some, ◌||◌, ltb, ◌==◌, if◌then◌else◌, not, set}
use libmezia.Types.{Status}
use libmezia.Wire.{byte_at, read_u16, read_u32, write_u16, write_u32}

abbrev pub feedback_size : ℕ
feedback_size = 16

abbrev pub feedback_magic : ℕ
feedback_magic = 0x4d

abbrev pub feedback_version : ℕ
feedback_version = 1

-- `mezon_audio_feedback_t`
pub record Feedback : Type 0 where
  pub report_seq : ℕ
  pub media_ssrc : ℕ
  pub expected : ℕ
  pub received : ℕ

-- The sixteen bytes.
unfoldable pub write_report : Feedback → List ℕ → List ℕ
write_report f out =
    let tagged = set (set out 0 feedback_magic) 1 feedback_version in
    let numbered = write_u32 (write_u16 tagged 2 f.report_seq) 4 f.media_ssrc in
    write_u32 (write_u32 numbered 8 f.expected) 12 f.received

-- `mezon_audio_feedback_serialize`
unfoldable pub serialize : Option Feedback → Option (List ℕ) → ℕ → Status × Option (List ℕ)
unfolding write_report
serialize (some f) (some out) room =
    if ltb room feedback_size || f.expected == 0 || ltb f.expected f.received
    then (Status.invalid_arg, some out)
    else (Status.ok, some (write_report f out))
serialize f out room = (Status.invalid_arg, out)

abbrev pub read_report : List ℕ → Feedback
read_report payload = record {
  report_seq = read_u16 payload 2;
  media_ssrc = read_u32 payload 4;
  expected = read_u32 payload 8;
  received = read_u32 payload 12;
}

-- `mezon_audio_feedback_parse`. The caller's record is overwritten before the counts are checked.
unfoldable pub parse : Option (List ℕ) → ℕ → Option Feedback → Status × Option Feedback
parse (some payload) len (some f) =
    if not (len == feedback_size)
    then (Status.malformed_packet, some f)
    else if not (byte_at payload 0 == feedback_magic) || not (byte_at payload 1 == feedback_version)
    then (Status.unsupported, some f)
    else let g = read_report payload in
      if g.expected == 0 || ltb g.expected g.received
      then (Status.malformed_packet, some g)
      else (Status.ok, some g)
parse payload len f = (Status.malformed_packet, f)
