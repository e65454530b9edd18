-- ===== src/Sdp/Writer.antt =====
-- `mezia_sdp_write_offer` of src/sdp/sdp.c.
use libmezia.Prelude.{
  ℕ, ◌+◌, ◌-◌, List, [], ◌∷◌, ◌++◌, Option, none, some, Bool, true, false, ◌&&◌, not, ◌==◌, ltb,
  if◌then◌else◌, length,
}
use libmezia.Types.{Status, Written}
use libmezia.Text.{codes, carriage_return, newline, space_char}
use libmezia.Text.Print.{decimal, snprintf}
use libmezia.Sdp.{OfferParams}

-- A token of the parameters, or its default.
abbrev pub or_text : Option (List ℕ) → List ℕ → List ℕ
or_text none fallback = fallback
or_text (some text) fallback = text

abbrev pub or_type : ℕ → ℕ → ℕ
or_type pt fallback = if pt == 0 then fallback else pt

-- The text that a call has put into the caller's array, and the room that is left.
pub record Sink : Type 0 where
  pub text : List ℕ
  pub remaining : ℕ

-- `append`: whether the text fits with its 0, and the array.
unfoldable pub append : List ℕ → Sink → Bool × Sink
append text s =
    if ltb s.remaining (length text + 1)
    then (false, s)
    else (true, record { text = s.text ++ text; remaining = s.remaining - length text })

-- The format's lines, each with its end.
abbrev pub join_lines : List (List ℕ) → List ℕ
join_lines [] = []
join_lines (line ∷ lines) = line ++ (carriage_return ∷ newline ∷ join_lines lines)

abbrev pub default_ufrag : List ℕ
default_ufrag = codes "mezia"

abbrev pub default_pwd : List ℕ
default_pwd = codes "meziapasswordmeziapassword"

abbrev pub default_algo : List ℕ
default_algo = codes "sha-256"

unfoldable pub default_fingerprint : List ℕ
default_fingerprint =
    codes "00:00:00:00:00:00:00:00:00:00:00:00:00:00:00:00:00:00:00:00:00:"
    ++ codes "00:00:00:00:00:00:00:00:00:00:00"

unfoldable pub head_lines : List (List ℕ)
head_lines = codes "v=0" ∷ codes "o=- 0 0 IN IP4 0.0.0.0" ∷ codes "s=-" ∷ codes "t=0 0" ∷ []

unfoldable pub bundle_line : Bool → Bool → List ℕ → List ℕ → List ℕ
bundle_line true true audio_mid video_mid =
    codes "a=group:BUNDLE " ++ audio_mid ++ (space_char ∷ video_mid)
bundle_line true false audio_mid video_mid = codes "a=group:BUNDLE " ++ audio_mid
bundle_line false _ audio_mid video_mid = codes "a=group:BUNDLE " ++ video_mid

unfoldable pub transport_lines : List ℕ → List ℕ → List ℕ → List ℕ → List (List ℕ)
transport_lines ufrag pwd algo fp =
    (codes "a=ice-ufrag:" ++ ufrag)
    ∷ (codes "a=ice-pwd:" ++ pwd)
    ∷ (codes "a=fingerprint:" ++ algo ++ (space_char ∷ fp))
    ∷ codes "a=ice-options:trickle"
    ∷ codes "a=setup:actpass"
    ∷ []

unfoldable pub transport_wide_uri : List ℕ
transport_wide_uri =
    codes "http://www.ietf.org/id/" ++ codes "draft-holmer-rmcat-transport-wide-cc-extensions-01"

unfoldable pub mid_uri : List ℕ
mid_uri = codes "urn:ietf:params:rtp-hdrext:sdes:mid"

unfoldable pub level_uri : List ℕ
level_uri = codes "urn:ietf:params:rtp-hdrext:ssrc-audio-level"

unfoldable pub audio_lines : ℕ → List ℕ → List (List ℕ)
audio_lines pt mid =
    (codes "m=audio 9 UDP/TLS/RTP/SAVPF " ++ decimal pt)
    ∷ codes "c=IN IP4 0.0.0.0"
    ∷ (codes "a=mid:" ++ mid)
    ∷ codes "a=sendrecv"
    ∷ codes "a=rtcp-mux"
    ∷ (codes "a=rtpmap:" ++ decimal pt ++ codes " opus/48000/2")
    ∷ (codes "a=fmtp:" ++ decimal pt ++ codes " minptime=10;useinbandfec=1")
    ∷ (codes "a=rtcp-fb:" ++ decimal pt ++ codes " transport-cc")
    ∷ (codes "a=extmap:6 " ++ transport_wide_uri)
    ∷ (codes "a=extmap:7 " ++ mid_uri)
    ∷ (codes "a=extmap:1 " ++ level_uri)
    ∷ []

unfoldable pub video_lines : ℕ → List ℕ → List (List ℕ)
video_lines pt mid =
    (codes "m=video 9 UDP/TLS/RTP/SAVPF " ++ decimal pt)
    ∷ codes "c=IN IP4 0.0.0.0"
    ∷ (codes "a=mid:" ++ mid)
    ∷ codes "a=sendrecv"
    ∷ codes "a=rtcp-mux"
    ∷ (codes "a=rtpmap:" ++ decimal pt ++ codes " H264/90000")
    ∷ (codes "a=fmtp:"
        ++ decimal pt
        ++ codes " level-asymmetry-allowed=1;packetization-mode=1;profile-level-id=42e01f")
    ∷ (codes "a=rtcp-fb:" ++ decimal pt ++ codes " nack")
    ∷ (codes "a=rtcp-fb:" ++ decimal pt ++ codes " nack pli")
    ∷ (codes "a=rtcp-fb:" ++ decimal pt ++ codes " transport-cc")
    ∷ (codes "a=extmap:6 " ++ transport_wide_uri)
    ∷ (codes "a=extmap:7 " ++ mid_uri)
    ∷ []

-- The parameters, or the defaults of those that are missing.
abbrev pub ufrag_of : OfferParams → List ℕ
ufrag_of p = or_text p.ice_ufrag default_ufrag

abbrev pub pwd_of : OfferParams → List ℕ
pwd_of p = or_text p.ice_pwd default_pwd

abbrev pub algo_of : OfferParams → List ℕ
algo_of p = or_text p.fingerprint_algo default_algo

abbrev pub fingerprint_of : OfferParams → List ℕ
fingerprint_of p = or_text p.fingerprint default_fingerprint

abbrev pub audio_mid_of : OfferParams → List ℕ
audio_mid_of p = or_text p.audio_mid (codes "0")

abbrev pub video_mid_of : OfferParams → List ℕ
video_mid_of p = or_text p.video_mid (codes "1")

abbrev pub audio_pt_of : OfferParams → ℕ
audio_pt_of p = or_type p.audio_payload_type 111

abbrev pub video_pt_of : OfferParams → ℕ
video_pt_of p = or_type p.video_payload_type 102

abbrev pub when {ℓ} : {A : Type ℓ} → Bool → A → List A
when true x = x ∷ []
when false x = []

-- What is appended for an offer, in its order; all but the first goes through `line`.
unfoldable pub offer_texts : OfferParams → List (List ℕ)
offer_texts p =
    let format = λ (lines : List (List ℕ)). snprintf 1024 (join_lines lines) in
    join_lines head_lines
    ∷ format (bundle_line p.offer_audio p.offer_video (audio_mid_of p) (video_mid_of p) ∷ [])
    ∷ format (transport_lines (ufrag_of p) (pwd_of p) (algo_of p) (fingerprint_of p))
    ∷ (when p.offer_audio (format (audio_lines (audio_pt_of p) (audio_mid_of p)))
        ++ when p.offer_video (format (video_lines (video_pt_of p) (video_mid_of p))))

-- One after the other, until one does not fit.
unfoldable pub append_all : List (List ℕ) → Sink → Bool × Sink
append_all [] s = (true, s)
append_all (text ∷ texts) s =
    let (fine, next) = append text s in
    let all = append_all texts next in if fine then all else (false, next)

abbrev pub offer_result : Bool × Sink → Option ℕ → Written
offer_result (false, s) out_len = record {
  status = Status.buffer_too_small;
  out = some s.text;
  out_len = out_len;
}
offer_result (true, s) out_len = record {
  status = Status.ok;
  out = some s.text;
  out_len = some (length s.text);
}

abbrev pub refused : Option (List ℕ) → Option ℕ → Written
refused out out_len = record { status = Status.invalid_arg; out = out; out_len = out_len }

-- `mezia_sdp_write_offer`, with the text in the caller's array and `*out_len`, before and after.
unfoldable pub write_offer : Option OfferParams → Option (List ℕ) → ℕ → Option ℕ → Written
write_offer (some p) (some out) capacity (some n) =
    if capacity == 0
    then refused (some out) (some n)
    else if not p.offer_audio && not p.offer_video
    then refused (some out) (some n)
    else offer_result (append_all (offer_texts p) (record { text = []; remaining = capacity }))
        (some n)
write_offer _ out capacity out_len = refused out out_len
