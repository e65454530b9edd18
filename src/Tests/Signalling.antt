-- ===== src/Tests/Signalling.antt =====
-- src/sdp/sdp.c and src/session/session.c at fixed inputs.
use libmezia.Prelude.{
  ℕ, ◌<◌, ◌≡◌, ◌≢◌, refl, get_elem?, List, [], none, some, true, false, ◌||◌, arith, length,
  if◌then◌else◌,
}
use libmezia.Types.{Status, bytes_of}
use libmezia.Text.{codes}
use libmezia.Text.Span.{every}
use libmezia.Text.Scan.{scan_unsigned, scan_word, scan_until}
use libmezia.Text.Print.{decimal}
use libmezia.Media
use libmezia.Sdp
use libmezia.Sdp.{Sdp, OfferParams, no_media}
use libmezia.Sdp.Parser.Attributes.{parse_extmap, attribute, media_attribute, parse_rtpmap}
use libmezia.Sdp.Parser
use libmezia.Sdp.Parser.{parse_lines, begin}
use libmezia.Sdp.Writer.{
  write_offer, append_all, append, offer_texts, head_lines, bundle_line, default_fingerprint,
}
use libmezia.Sdp.Room.{write_offer-Fits}
use libmezia.Sdp.Lines.{parse_lines-fuel}
use libmezia.Sdp.Bounds.{IsInside}
use libmezia.Sdp.Safe.{parse-IsInside_sdp}
use libmezia.Sdp.Offer.{IsOfferable, offered}
use libmezia.Sdp.Offer.RoundTrip.{parse-write_offer}
use libmezia.Session
use libmezia.Session.{
  Session, SessionConfig, made, copy_cstr, create_offer, set_local_description,
  set_remote_description,
}
use libmezia.Session.Start
use libmezia.Session.Start.{launch, note_audio, note_video}
use libmezia.Session.Traffic.{remote_sdp}
use libmezia.Session.Valid
use libmezia.Session.Valid.{TextsFit}
use libmezia.Session.Life as SessionLife
use libmezia.Session.Life.{Reach-IsValid_session}
use libmezia.Session.Exchange.{IsPlain, described, set_remote_description-set_local_description}
use libmezia.Session.Agreed.{start-negotiated, prepared, all_audio, all_video, agreed, chosen}
use libmezia.Session.Refused.{set_remote_description_clobbers}
use libmezia.Tests.Sound.{plain_codec}
use libmezia.Tests.Network.{network, memory}

-- A number, printed and scanned.
prints : decimal 2049 ≡ codes "2049"
unfolding decimal
prints = refl

scans : scan_unsigned (codes " 48000/2") ≡ some (48000, codes "/2")
unfolding scan_unsigned
scans = refl

-- `strtoul` stops at its largest value.
scans_large : scan_unsigned (codes "99999999999999999999 x") ≡ some (4294967295, codes " x")
unfolding scan_unsigned
scans_large = refl

-- A direction behind the number is taken for the URI.
reads_direction :
    ((parse_extmap (codes "1/sendonly urn:x") no_media).0 ≡ true)
    × (get_elem? (parse_extmap (codes "1/sendonly urn:x") no_media).1.extmap 0
        ≡ some (record { id = 1; uri = codes "/sendonly" }))
unfolding parse_extmap scan_unsigned scan_word
reads_direction = (refl, refl)

abbrev plain_params : OfferParams
plain_params = record {
  ice_ufrag = none;
  ice_pwd = some (codes "secret");
  fingerprint_algo = none;
  fingerprint = none;
  offer_audio = true;
  offer_video = true;
  audio_payload_type = 0;
  video_payload_type = 100;
  audio_mid = some (codes "a");
  video_mid = none;
}

plain_params-IsOfferable : IsOfferable plain_params
unfolding every default_fingerprint
plain_params-IsOfferable = record {
  some = refl;
  ufrag = record { solid = refl; fits = omega arith };
  pwd = record { solid = refl; fits = omega arith };
  algo = record { solid = refl; fits = omega arith };
  fingerprint = record { solid = refl; fits = omega arith };
  has_fingerprint = omega arith;
  audio_mid = record { solid = refl; fits = omega arith };
  has_audio_mid = omega arith;
  video_mid = record { solid = refl; fits = omega arith };
  has_video_mid = omega arith;
  audio_pt = omega arith;
  video_pt = omega arith;
}

parse-write_offer_example :
    let w = write_offer (some plain_params) (some []) 2048 (some 0) in
    (w.status ≡ Status.ok)
    × (Parser.parse w.out (some Sdp.init) ≡ (Status.ok, some (offered plain_params)))
parse-write_offer_example =
    parse-write_offer plain_params [] 2048 0 Sdp.init plain_params-IsOfferable (omega arith)

-- An attribute in front of any medium, both kinds of line ends, and a last line without one.
abbrev small_text : List ℕ
small_text = codes "a=ice-options:trickle x\nm=video 9 UDP 97\na=extmap:3 urn:x\r\na=mid:v"

abbrev small_sdp : Sdp
small_sdp = (Parser.verdict (parse_lines (length small_text) small_text begin)).1

parse-IsInside_sdp_example : IsInside small_sdp
unfolding Parser.parse
parse-IsInside_sdp_example = parse-IsInside_sdp small_text Sdp.init small_sdp refl

parse_lines-fuel_example : parse_lines 100 small_text begin ≡ parse_lines 90 small_text begin
parse_lines-fuel_example = parse_lines-fuel 100 90 small_text begin (omega arith) (omega arith)

abbrev host : List ℕ
host = codes "10.0.0.1"

abbrev caller_config : SessionConfig
caller_config = record {
  local_ip = some host;
  local_port = 4000;
  remote_ip = some host;
  remote_port = 5000;
  mtu = 0;
  offer_audio = true;
  offer_video = false;
  ice_ufrag = some (codes "user");
  ice_pwd = none;
  fingerprint = some (codes "AB:CD");
  on_audio = true;
  on_nal = false;
}

abbrev caller : Session plain_codec
caller = made plain_codec caller_config

abbrev callee : Session plain_codec
callee = made plain_codec (record caller_config { offer_video = true })

caller_created : Session.create plain_codec (some caller_config) true ≡ some caller
unfolding Session.create
caller_created = refl

abbrev after_empty : Session plain_codec
after_empty = (set_remote_description plain_codec caller (some [])).1

Reach-IsValid_session_example : Valid.IsValid plain_codec after_empty
Reach-IsValid_session_example =
    Reach-IsValid_session plain_codec (some caller_config) true caller_created (
      SessionLife.Reach.next SessionLife.Reach.here
        (SessionLife.Step.describing_remote (some []) refl))

caller-IsPlain : IsPlain plain_codec caller
unfolding every copy_cstr
caller-IsPlain = record {
  some = refl;
  texts =
      (Reach-IsValid_session plain_codec (some caller_config) true caller_created
        SessionLife.Reach.here).texts;
  ufrag = refl;
  pwd = refl;
  fingerprint = refl;
  has_fingerprint = omega arith;
}

callee_created :
    Session.create plain_codec (some (record caller_config { offer_video = true })) true
    ≡ some callee
unfolding Session.create
callee_created = refl

callee-IsPlain : IsPlain plain_codec callee
unfolding every copy_cstr
callee-IsPlain = record {
  some = refl;
  texts =
      (Reach-IsValid_session plain_codec (some (record caller_config { offer_video = true })) true
        callee_created SessionLife.Reach.here).texts;
  ufrag = refl;
  pwd = refl;
  fingerprint = refl;
  has_fingerprint = omega arith;
}

set_remote_description-set_local_description_example :
    let mine = create_offer plain_codec caller (some []) 2048 (some 0) in
    let theirs = create_offer plain_codec callee (some []) 2048 (some 0) in
    let (status, t) = set_local_description plain_codec caller mine.out in
    (status ≡ Status.ok)
    × (set_remote_description plain_codec t theirs.out
        ≡ (Status.ok, described plain_codec caller callee))
set_remote_description-set_local_description_example =
    set_remote_description-set_local_description plain_codec caller callee [] [] 2048 0 0
      caller-IsPlain callee-IsPlain refl (omega arith)

-- A remote description with another type for audio.
abbrev other_text : List ℕ
other_text = codes "m=audio 9 UDP 96\na=rtpmap:96 opus/48000/2\nm=video 9 UDP 97\n"

abbrev other_sdp : Sdp
other_sdp = (Parser.verdict (parse_lines (length other_text) other_text begin)).1

other_parses : Parser.parse (some other_text) (some Sdp.init) ≡ (Status.ok, some other_sdp)
unfolding Parser.parse parse_lines Parser.read_line Parser.parse_line attribute media_attribute
    parse_rtpmap scan_unsigned scan_until
other_parses = refl

-- The remote description names the type of audio; for video the offer's is left.
chooses : (chosen other_sdp.audio 111 ≡ 96) × (chosen other_sdp.video 100 ≡ 100)
unfolding parse_lines Parser.read_line Parser.parse_line attribute media_attribute parse_rtpmap
    scan_unsigned scan_until
chooses = (refl, refl)

start-negotiated_example :
    let offer = (write_offer (some plain_params) (some []) 2048 (some 0)).out in
    let t = (set_local_description plain_codec caller offer).1 in
    let u = (set_remote_description plain_codec t (some other_text)).1 in
    let noted =
      note_video plain_codec
        (note_audio plain_codec (prepared plain_codec caller plain_params other_sdp)) in
    Start.start plain_codec memory network u ≡ (
      if all_audio plain_codec caller plain_params other_sdp
        || all_video plain_codec caller plain_params other_sdp
      then launch plain_codec network noted (
          Media.create plain_codec (some (agreed plain_codec caller plain_params other_sdp)) memory)
      else (Status.unsupported, noted))
start-negotiated_example =
    start-negotiated plain_codec memory network caller plain_params [] other_text 2048 0 other_sdp
      plain_params-IsOfferable (omega arith) refl other_parses

-- The caller once it knows both offers.
abbrev ready_caller : Session plain_codec
ready_caller = described plain_codec caller callee

-- A description that breaks off in its header extension.
abbrev broken_text : List ℕ
broken_text = codes "m=audio 9 UDP 96\na=extmap:x\n"

broken_refused : (Parser.parse (some broken_text) (some ready_caller.far)).0 ≢ Status.ok
unfolding Parser.parse parse_lines Parser.read_line Parser.parse_line attribute media_attribute
    parse_extmap scan_unsigned
broken_refused e = cc

set_remote_description_clobbers_example :
    let (status, t) = set_remote_description plain_codec ready_caller (some broken_text) in
    (status ≡ Status.malformed_packet)
    × (remote_sdp plain_codec (some t) ≡ (Parser.parse (some broken_text) (some Sdp.init)).1)
    × ((Start.start plain_codec memory network t).0 ≢ Status.not_ready)
set_remote_description_clobbers_example =
    set_remote_description_clobbers plain_codec memory network ready_caller broken_text refl refl
      refl broken_refused

-- An array that has room for the first lines only.
abbrev cut_text : List ℕ
cut_text = bytes_of (write_offer (some plain_params) (some []) 60 (some 0)).out

write_offer-Fits_example : length cut_text < 60
unfolding write_offer append_all append offer_texts head_lines bundle_line
write_offer-Fits_example = write_offer-Fits plain_params [] cut_text 60 0 (omega arith) refl
