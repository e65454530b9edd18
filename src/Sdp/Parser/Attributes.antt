-- ===== src/Sdp/Parser/Attributes.antt =====
-- The attribute lines of `mezia_sdp_parse` of src/sdp/sdp.c. A result is whether the line is well
-- formed, and what it has made of the description.
use libmezia.Prelude.{
  ℕ, zero, suc, ◌+◌, List, Option, none, some, Bool, true, false, not, ◌==◌, leb, ltb,
  if◌then◌else◌, length, set, get_or, u8,
}
use libmezia.Text.{
  codes, strip_prefix, same_text, contains, split_at, is_empty, read_while, skip_while, space_char,
}
use libmezia.Text.Scan.{scan_unsigned, scan_until, scan_word, scan_char, is_space, ◌>>=◌}
use libmezia.Sdp.{
  Sdp, SdpMedia, Extmap, Direction, no_extmap, copy_token, max_token, max_mid, max_mids, max_codec,
  max_extmap,
}

-- The variable `section`: 0, 1 and 2.
pub data Section : Type 0 where
  nowhere audio video : Section

-- The rest of the text where there is one; else what follows.
abbrev pub on {ℓ} : {A : Type ℓ} → Option (List ℕ) → (List ℕ → A) → A → A
on none f otherwise = otherwise
on (some rest) f otherwise = f rest

-- The caller's answer to `copy_token`: the token put in its place, or a malformed line.
abbrev pub keep_token {ℓ} : {A : Type ℓ} → A → Option (List ℕ) → (List ℕ → A) → Bool × A
keep_token was none put = (false, was)
keep_token was (some token) put = (true, put token)

abbrev pub channel_count : Option (ℕ × List ℕ) → ℕ
channel_count none = 1
channel_count (some (n, rest)) = u8 n

-- The items behind the payload type; the channels are 1 if the fourth is missing.
abbrev pub scan_codec : ℕ × List ℕ → Option (ℕ × List ℕ × ℕ × ℕ)
scan_codec (pt, behind_type) = do
  (codec, behind_codec) ← scan_until b'/' 15 (skip_while is_space behind_type)
  at_rate ← scan_char b'/' behind_codec
  (rate, behind_rate) ← scan_unsigned at_rate
  some (pt, codec, rate, channel_count (scan_char b'/' behind_rate >>= scan_unsigned))

-- What `"%u %15[^/]/%u/%u"` reads, unless it is less than three items.
abbrev pub scan_rtpmap : List ℕ → Option (ℕ × List ℕ × ℕ × ℕ)
scan_rtpmap value = scan_unsigned value >>= scan_codec

abbrev pub put_rtpmap : SdpMedia → Option (ℕ × List ℕ × ℕ × ℕ) → Bool × SdpMedia
put_rtpmap media none = (false, media)
put_rtpmap media (some (pt, codec, rate, channels)) =
    let typed = record media { payload_type = u8 pt } in
    if ltb 127 pt
    then (false, media)
    else keep_token typed (copy_token max_codec codec)
        (λ token. record typed { codec = token; clock_rate = rate; channels = channels })

unfoldable pub parse_rtpmap : List ℕ → SdpMedia → Bool × SdpMedia
parse_rtpmap value media = put_rtpmap media (scan_rtpmap value)

-- What `"%u %95s"` reads, unless it is less than two items.
abbrev pub scan_extmap : List ℕ → Option (ℕ × List ℕ)
scan_extmap value = do
  (id, behind_id) ← scan_unsigned value
  (uri, rest) ← scan_word 95 behind_id
  some (id, uri)

abbrev pub put_extmap : SdpMedia → Option (ℕ × List ℕ) → Bool × SdpMedia
put_extmap media none = (false, media)
put_extmap media (some (id, uri)) =
    let entry = get_or media.extmap media.extmap_count no_extmap in
    let put = λ (e : Extmap). record media { extmap = set media.extmap media.extmap_count e } in
    if ltb 14 id
    then (false, media)
    else keep_token (put (record entry { id = u8 id })) (copy_token 96 uri) (λ token.
      record (put (record { id = u8 id; uri = token })) { extmap_count = media.extmap_count + 1 })

unfoldable pub parse_extmap : List ℕ → SdpMedia → Bool × SdpMedia
parse_extmap value media =
    if leb max_extmap media.extmap_count
    then (true, media)
    else put_extmap media (scan_extmap value)

abbrev pub not_space : ℕ → Bool
not_space c = not (c == space_char)

-- Puts a mid at the end of those that the group has.
abbrev pub put_mid : Sdp → List ℕ → Sdp
put_mid sdp token = record sdp {
  bundle_mids = set sdp.bundle_mids sdp.bundle_mid_count token;
  bundle_mid_count = sdp.bundle_mid_count + 1;
}

-- The loop of `parse_bundle`, with the number of mids that there is room for.
unfoldable pub bundle_loop : ℕ → List ℕ → Sdp → Bool × Sdp
bundle_loop zero text sdp = (true, sdp)
bundle_loop (suc room) text sdp =
    let at_mid = skip_while (λ c. c == space_char) text in
    let (mid, behind) = read_while not_space 15 at_mid in
    let (fine, next) = keep_token sdp (copy_token max_mid mid) (put_mid sdp) in
    let more = bundle_loop room (skip_while not_space behind) next in
    if is_empty at_mid then (true, sdp) else if fine then more else (false, sdp)

unfoldable pub parse_bundle : List ℕ → Sdp → Bool × Sdp
parse_bundle value sdp =
    bundle_loop max_mids value (record sdp { bundle = true; bundle_mid_count = 0 })

-- `fingerprint:` and its two tokens.
abbrev pub parse_fingerprint : Option (List ℕ × List ℕ) → Sdp → Bool × Sdp
parse_fingerprint none sdp = (false, sdp)
parse_fingerprint (some (algo, fingerprint)) sdp =
    let noted = record sdp { fingerprint_algo = algo } in
    if leb 16 (length algo)
    then (false, sdp)
    else keep_token noted (copy_token max_token fingerprint)
        (λ token. record noted { fingerprint = token })

-- `rtcp-fb:` and what it asks for.
abbrev pub put_feedback : List ℕ → SdpMedia → SdpMedia
put_feedback value media =
    let nack = contains (codes "nack") value in
    let pli = contains (codes "nack pli") value in
    record media {
      pli = if pli then true else media.pli;
      nack = if pli then true else if nack then true else media.nack;
      transport_cc = if contains (codes "transport-cc") value then true else media.transport_cc;
    }

-- An attribute inside the section of a medium.
unfoldable pub media_attribute : List ℕ → SdpMedia → Bool × SdpMedia
media_attribute value media =
    on (strip_prefix (codes "mid:") value)
      (λ mid. keep_token media (copy_token max_mid mid) (λ token. record media { mid = token }))
      (if same_text value (codes "sendrecv")
        then (true, record media { direction = Direction.sendrecv })
        else if same_text value (codes "sendonly")
        then (true, record media { direction = Direction.sendonly })
        else if same_text value (codes "recvonly")
        then (true, record media { direction = Direction.recvonly })
        else if same_text value (codes "inactive")
        then (true, record media { direction = Direction.inactive })
        else if same_text value (codes "rtcp-mux")
        then (true, record media { rtcp_mux = true })
        else on (strip_prefix (codes "rtpmap:") value) (λ map. parse_rtpmap map media)
            (on (strip_prefix (codes "extmap:") value) (λ map. parse_extmap map media)
              (on (strip_prefix (codes "rtcp-fb:") value) (λ fb. (true, put_feedback fb media))
                (true, media))))

abbrev pub put_audio_media : Sdp → Bool × SdpMedia → Bool × Sdp
put_audio_media sdp (fine, media) = (fine, record sdp { audio = media })

abbrev pub put_video_media : Sdp → Bool × SdpMedia → Bool × Sdp
put_video_media sdp (fine, media) = (fine, record sdp { video = media })

-- The same, on the medium of `current_media`.
abbrev pub in_section : Section → List ℕ → Sdp → Bool × Sdp
in_section Section.nowhere value sdp = (true, sdp)
in_section Section.audio value sdp = put_audio_media sdp (media_attribute value sdp.audio)
in_section Section.video value sdp = put_video_media sdp (media_attribute value sdp.video)

-- A line `a=`, by what stands behind these two characters.
unfoldable pub attribute : Section → List ℕ → Sdp → Bool × Sdp
attribute section value sdp =
    on (strip_prefix (codes "group:BUNDLE") value) (λ mids. parse_bundle mids sdp)
      (on (strip_prefix (codes "ice-ufrag:") value)
        (λ t. keep_token sdp (copy_token max_token t) (λ token. record sdp { ice_ufrag = token }))
        (on (strip_prefix (codes "ice-pwd:") value)
          (λ t. keep_token sdp (copy_token max_token t) (λ token. record sdp { ice_pwd = token }))
          (on (strip_prefix (codes "fingerprint:") value)
            (λ t. parse_fingerprint (split_at space_char t) sdp)
            (on (strip_prefix (codes "ice-options:") value)
              (λ t. (
                true,
                record sdp { trickle = if contains (codes "trickle") t then true else sdp.trickle },
              ))
              (on (strip_prefix (codes "setup:") value)
                (λ t. keep_token sdp (copy_token 16 t) (λ token. record sdp { setup = token }))
                (in_section section value sdp))))))
