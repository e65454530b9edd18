-- ===== src/Sdp/Offer/Words.antt =====
-- The lines of an offer of src/sdp/sdp.c that carry a token or a number, each as the parser reads it.
use libmezia.Prelude.{
  ℕ, suc, ◌≤◌, ◌<◌, ◌≡◌, refl, ap, ◌∙◌, List, ◌∷◌, ◌++◌, true, leb, ltb, if◌then◌else◌, if_false,
  length, arith, Option, some, none, u8,
}
use libmezia.Text.{codes, space_char}
use libmezia.Text.Span.{every, every-weaken, split_at-word}
use libmezia.Text.Numbers.{decimal-IsDecimal, scan_unsigned-digits, contains-digits}
use libmezia.Text.Scan.{scan_unsigned, scan_until, ◌>>=◌}
use libmezia.Text.Print.{decimal}
use libmezia.Sdp.{Sdp, SdpMedia, copy_token}
use libmezia.Sdp.Parser.{Parser, parse_line, put_sdp}
use libmezia.Sdp.Parser.Attributes.{
  Section, attribute, media_attribute, keep_token, put_audio_media, put_video_media,
  parse_fingerprint, not_space, parse_rtpmap, put_rtpmap, scan_codec, put_feedback,
}
use libmezia.Sdp.Offer.{IsToken, not_blank}

pub copy_token-fits : (size : ℕ) (t : List ℕ) → length t < size → copy_token size t ≡ some t
copy_token-fits size t h = if_false (leb size (length t)) none (ground arith)

pub ufrag_line :
    (u : List ℕ) (p : Parser)
    → IsToken 256 u
    → parse_line (codes "a=ice-ufrag:" ++ u) p
      ≡ (true, record p { sdp = record p.sdp { ice_ufrag = u } })
unfolding parse_line attribute
ufrag_line u p v =
    ap
      (λ (t : Option (List ℕ)).
        put_sdp p.section (keep_token p.sdp t (λ token. record p.sdp { ice_ufrag = token })))
      (copy_token-fits 256 u v.fits)

pub pwd_line :
    (u : List ℕ) (p : Parser)
    → IsToken 256 u
    → parse_line (codes "a=ice-pwd:" ++ u) p
      ≡ (true, record p { sdp = record p.sdp { ice_pwd = u } })
unfolding parse_line attribute
pwd_line u p v =
    ap
      (λ (t : Option (List ℕ)).
        put_sdp p.section (keep_token p.sdp t (λ token. record p.sdp { ice_pwd = token })))
      (copy_token-fits 256 u v.fits)

blank_space : (c : ℕ) → not_blank c ≡ true → not_space c ≡ true
blank_space c e = ground arith

pub token_words : (size : ℕ) (t : List ℕ) → IsToken size t → every not_space t ≡ true
token_words size t v = every-weaken not_blank not_space blank_space t v.solid

pub fingerprint_line :
    (algo fp : List ℕ) (p : Parser)
    → IsToken 16 algo
    → IsToken 256 fp
    → parse_line (codes "a=fingerprint:" ++ algo ++ (space_char ∷ fp)) p
      ≡ (true, record p { sdp = record p.sdp { fingerprint_algo = algo; fingerprint = fp } })
unfolding parse_line attribute
fingerprint_line algo fp p v w =
    ap (λ (t : Option (List ℕ × List ℕ)). put_sdp p.section (parse_fingerprint t p.sdp))
      (split_at-word space_char algo fp (token_words 16 algo v))
    ∙ ap (put_sdp p.section) (
        if_false (leb 16 (length algo)) _ (ground (arith, v.fits))
        ∙ ap
            (λ (t : Option (List ℕ)).
              keep_token (record p.sdp { fingerprint_algo = algo }) t
                (λ token. record p.sdp { fingerprint_algo = algo; fingerprint = token }))
            (copy_token-fits 256 fp w.fits))

pub audio_mid_line :
    (mid : List ℕ) (sdp : Sdp)
    → IsToken 16 mid
    → parse_line (codes "a=mid:" ++ mid) (record { section = Section.audio; sdp = sdp }) ≡ (
      true,
      record {
        section = Section.audio;
        sdp = record sdp { audio = record sdp.audio { mid = mid } };
      },
    )
unfolding parse_line attribute media_attribute
audio_mid_line mid sdp v =
    ap
      (λ (t : Option (List ℕ)).
        put_sdp Section.audio (
          put_audio_media sdp (keep_token sdp.audio t (λ token. record sdp.audio { mid = token }))))
      (copy_token-fits 16 mid v.fits)

pub video_mid_line :
    (mid : List ℕ) (sdp : Sdp)
    → IsToken 16 mid
    → parse_line (codes "a=mid:" ++ mid) (record { section = Section.video; sdp = sdp }) ≡ (
      true,
      record {
        section = Section.video;
        sdp = record sdp { video = record sdp.video { mid = mid } };
      },
    )
unfolding parse_line attribute media_attribute
video_mid_line mid sdp v =
    ap
      (λ (t : Option (List ℕ)).
        put_sdp Section.video (
          put_video_media sdp (keep_token sdp.video t (λ token. record sdp.video { mid = token }))))
      (copy_token-fits 16 mid v.fits)

-- The number of a payload type, in front of a blank.
pub scan_unsigned-decimal :
    (pt : ℕ) (rest : List ℕ)
    → pt ≤ 127
    → scan_unsigned (decimal pt ++ (space_char ∷ rest)) ≡ some (pt, space_char ∷ rest)
scan_unsigned-decimal pt rest h =
    scan_unsigned-digits 3 pt (decimal pt) space_char rest (decimal-IsDecimal pt (omega arith))
      (omega arith) refl

put_rtpmap-fits :
    (media : SdpMedia) (pt : ℕ) (codec : List ℕ) (rate channels : ℕ)
    → pt ≤ 127
    → length codec < 16
    → put_rtpmap media (some (pt, codec, rate, channels)) ≡ (
      true,
      record media { payload_type = pt; codec = codec; clock_rate = rate; channels = channels },
    )
put_rtpmap-fits media pt codec rate channels h k =
    if_false (ltb 127 pt) _ (ground arith)
    ∙ ap
        (λ (t : Option (List ℕ)).
          keep_token (record media { payload_type = u8 pt }) t
            (λ token. record media {
              payload_type = u8 pt;
              codec = token;
              clock_rate = rate;
              channels = channels;
            }))
        (copy_token-fits 16 codec k)
    ∙ ap
        (λ (t : ℕ). (
          true,
          record media { payload_type = t; codec = codec; clock_rate = rate; channels = channels },
        ))
        (omega arith)

opus_codec_scan :
    (pt : ℕ) → scan_codec (pt, codes " opus/48000/2") ≡ some (pt, codes "opus", 48000, 2)
unfolding scan_unsigned scan_until
opus_codec_scan pt = refl

h264_codec_scan :
    (pt : ℕ) → scan_codec (pt, codes " H264/90000") ≡ some (pt, codes "H264", 90000, 1)
unfolding scan_unsigned scan_until
h264_codec_scan pt = refl

pub parse_rtpmap-opus :
    (pt : ℕ) (media : SdpMedia)
    → pt ≤ 127
    → parse_rtpmap (decimal pt ++ codes " opus/48000/2") media ≡ (
      true,
      record media { payload_type = pt; codec = codes "opus"; clock_rate = 48000; channels = 2 },
    )
unfolding parse_rtpmap
parse_rtpmap-opus pt media h =
    ap (λ (t : Option (ℕ × List ℕ)). put_rtpmap media (t >>= scan_codec))
      (scan_unsigned-decimal pt (codes "opus/48000/2") h)
    ∙ ap (put_rtpmap media) (opus_codec_scan pt)
    ∙ put_rtpmap-fits media pt (codes "opus") 48000 2 h (leb→lt4 refl)
  where
    leb→lt4 : leb (suc (length (codes "opus"))) 16 ≡ true → length (codes "opus") < 16
    leb→lt4 e = ground arith

pub parse_rtpmap-h264 :
    (pt : ℕ) (media : SdpMedia)
    → pt ≤ 127
    → parse_rtpmap (decimal pt ++ codes " H264/90000") media ≡ (
      true,
      record media { payload_type = pt; codec = codes "H264"; clock_rate = 90000; channels = 1 },
    )
unfolding parse_rtpmap
parse_rtpmap-h264 pt media h =
    ap (λ (t : Option (ℕ × List ℕ)). put_rtpmap media (t >>= scan_codec))
      (scan_unsigned-decimal pt (codes "H264/90000") h)
    ∙ ap (put_rtpmap media) (h264_codec_scan pt)
    ∙ put_rtpmap-fits media pt (codes "H264") 90000 1 h (omega arith)

-- What `rtcp-fb:` asks for, behind a payload type.
pub put_feedback-decimal :
    (pt : ℕ) (rest : List ℕ) (media : SdpMedia)
    → pt ≤ 127
    → put_feedback (decimal pt ++ rest) media ≡ put_feedback rest media
put_feedback-decimal pt rest media h =
    let digits = (decimal-IsDecimal pt (omega arith)).digits in
    let nack = contains-digits b'n' (codes "ack") (decimal pt) rest refl digits in
    let pli = contains-digits b'n' (codes "ack pli") (decimal pt) rest refl digits in
    let tcc = contains-digits b't' (codes "ransport-cc") (decimal pt) rest refl digits in
    λ i. record media {
      pli = if pli i then true else media.pli;
      nack = if pli i then true else if nack i then true else media.nack;
      transport_cc = if tcc i then true else media.transport_cc;
    }
