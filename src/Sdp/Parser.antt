-- ===== src/Sdp/Parser.antt =====
-- `mezia_sdp_parse` of src/sdp/sdp.c.
pub mod Attributes
use libmezia.Prelude.{
  ℕ, zero, suc, ◌+◌, List, [], ◌∷◌, Option, none, some, Bool, true, false, ◌&&◌, ◌||◌, not, ◌==◌,
  if◌then◌else◌, length,
}
use libmezia.Types.{Status}
use libmezia.Text.{codes, strip_prefix, is_empty, read_while, newline, carriage_return, space_char}
use libmezia.Sdp.{Sdp, SdpMedia, Direction, init}
use libmezia.Sdp.Parser.Attributes.{Section, on, attribute}

-- The characters that end a line for `trim_cr`.
abbrev pub is_trimmed : ℕ → Bool
is_trimmed c = c == carriage_return || c == newline || c == space_char

-- `trim_cr`
abbrev pub trim_cr : List ℕ → List ℕ
trim_cr [] = []
trim_cr (c ∷ line) =
    let rest = trim_cr line in if is_trimmed c && is_empty rest then [] else c ∷ rest

-- The description so far, and the section that its lines are in.
pub record Parser : Type 0 where
  pub section : Section
  pub sdp : Sdp

abbrev pub opened : SdpMedia → SdpMedia
opened m = record m { present = true; direction = Direction.sendrecv }

-- A line `m=`.
abbrev pub media_line : List ℕ → Parser → Parser
media_line value p =
    on (strip_prefix (codes "audio ") value)
      (λ _. record { section = Section.audio; sdp = record p.sdp { audio = opened p.sdp.audio } })
      (on (strip_prefix (codes "video ") value)
        (λ _. record { section = Section.video; sdp = record p.sdp { video = opened p.sdp.video } })
        (record p { section = Section.nowhere }))

abbrev pub put_sdp : Section → Bool × Sdp → Bool × Parser
put_sdp section (fine, sdp) = (fine, record { section = section; sdp = sdp })

-- One line, trimmed: whether it is well formed, and what it makes of the description.
unfoldable pub parse_line : List ℕ → Parser → Bool × Parser
parse_line (kind ∷ second ∷ value) p =
    if not (second == b'=')
    then (true, p)
    else if kind == b'm'
    then (true, media_line value p)
    else if not (kind == b'a')
    then (true, p)
    else put_sdp p.section (attribute p.section value p.sdp)
parse_line _ p = (true, p)

-- `sizeof(line)`, less the 0 at its end.
abbrev pub line_room : ℕ
line_room = 511

-- The text behind the newline that ended a line.
abbrev pub skip_newline : List ℕ → List ℕ
skip_newline [] = []
skip_newline (c ∷ text) = if c == newline then text else c ∷ text

-- One line and the text behind it; a longer one is cut.
unfoldable pub read_line : List ℕ → List ℕ × List ℕ
read_line text =
    let (line, rest) = read_while (λ c. not (c == newline)) line_room text in
    (trim_cr line, skip_newline rest)

-- The loop of `mezia_sdp_parse`: whether all lines are well formed, and the description.
unfoldable pub parse_lines : ℕ → List ℕ → Parser → Bool × Parser
parse_lines zero text p = (true, p)
parse_lines (suc fuel) [] p = (true, p)
parse_lines (suc fuel) (c ∷ text) p =
    let (line, rest) = read_line (c ∷ text) in
    let (fine, next) = parse_line line p in
    let all = parse_lines fuel rest next in if fine then all else (false, next)

abbrev pub verdict : Bool × Parser → Status × Sdp
verdict (fine, p) =
    if not fine
    then (Status.malformed_packet, p.sdp)
    else if not p.sdp.audio.present && not p.sdp.video.present
    then (Status.malformed_packet, p.sdp)
    else (Status.ok, p.sdp)

-- The description before the first line.
abbrev pub begin : Parser
begin = record { section = Section.nowhere; sdp = init }

-- `mezia_sdp_parse`, with the description that its second argument points at, before and after.
unfoldable pub parse : Option (List ℕ) → Option Sdp → Status × Option Sdp
parse none sdp = (Status.invalid_arg, sdp)
parse (some text) none = (Status.invalid_arg, none)
parse (some text) (some sdp) =
    let (status, parsed) = verdict (parse_lines (length text) text begin) in (status, some parsed)
