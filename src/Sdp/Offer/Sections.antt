-- ===== src/Sdp/Offer/Sections.antt =====
-- The sections of an offer of src/sdp/sdp.c, as the parser's loop takes their lines one by one.
use libmezia.Prelude.{ℕ, ◌≤◌, ◌≡◌, refl, ap, List, ◌∷◌, ◌++◌, true}
use libmezia.Text.{codes}
use libmezia.Text.Scan.{scan_unsigned, scan_word}
use libmezia.Text.Print.{decimal}
use libmezia.Sdp.{Sdp, SdpMedia, no_media}
use libmezia.Sdp.Parser.{Parser, parse_line, put_sdp, begin}
use libmezia.Sdp.Parser.Attributes.{
  Section, attribute, media_attribute, put_audio_media, put_video_media, parse_extmap, put_feedback,
}
use libmezia.Sdp.Lines.{Run}
use libmezia.Sdp.Writer.{
  head_lines, transport_lines, audio_lines, video_lines, transport_wide_uri, mid_uri, level_uri,
}
use libmezia.Sdp.Offer.{IsToken, offered_audio, offered_video}
use libmezia.Sdp.Offer.Words.{
  ufrag_line, pwd_line, fingerprint_line, audio_mid_line, video_mid_line, parse_rtpmap-opus,
  parse_rtpmap-h264, put_feedback-decimal,
}

pub head-Run : Run head_lines begin begin
unfolding head_lines parse_line attribute
head-Run = Run.next refl (Run.next refl (Run.next refl (Run.next refl Run.done)))

pub transport-Run :
    (ufrag pwd algo fp : List ℕ) (p : Parser)
    → IsToken 256 ufrag
    → IsToken 256 pwd
    → IsToken 16 algo
    → IsToken 256 fp
    → Run (transport_lines ufrag pwd algo fp) p (record p {
      sdp = record p.sdp {
        ice_ufrag = ufrag;
        ice_pwd = pwd;
        fingerprint_algo = algo;
        fingerprint = fp;
        setup = codes "actpass";
        trickle = true;
      };
    })
unfolding transport_lines parse_line attribute
transport-Run ufrag pwd algo fp p v w x y = Run.next (ufrag_line ufrag p v) (
    Run.next (pwd_line pwd _ w)
      (Run.next (fingerprint_line algo fp _ x y) (Run.next refl (Run.next refl Run.done))))

-- An attribute of the audio section, from what it makes of the medium.
in_audio :
    (value : List ℕ) (sdp : Sdp) (m : SdpMedia)
    → attribute Section.audio value sdp ≡ put_audio_media sdp (true, m)
    → parse_line (b'a' ∷ b'=' ∷ value) (record { section = Section.audio; sdp = sdp })
      ≡ (true, record { section = Section.audio; sdp = record sdp { audio = m } })
unfolding parse_line
in_audio value sdp m e = ap (put_sdp Section.audio) e

in_video :
    (value : List ℕ) (sdp : Sdp) (m : SdpMedia)
    → attribute Section.video value sdp ≡ put_video_media sdp (true, m)
    → parse_line (b'a' ∷ b'=' ∷ value) (record { section = Section.video; sdp = sdp })
      ≡ (true, record { section = Section.video; sdp = record sdp { video = m } })
unfolding parse_line
in_video value sdp m e = ap (put_sdp Section.video) e

audio_rtpmap_line :
    (pt : ℕ) (sdp : Sdp)
    → pt ≤ 127
    → parse_line
        (codes "a=rtpmap:" ++ decimal pt ++ codes " opus/48000/2")
        (record { section = Section.audio; sdp = sdp })
      ≡ (
        true,
        record {
          section = Section.audio;
          sdp = record sdp {
            audio = record sdp.audio {
              payload_type = pt;
              codec = codes "opus";
              clock_rate = 48000;
              channels = 2;
            };
          };
        },
      )
unfolding attribute media_attribute
audio_rtpmap_line pt sdp h =
    in_audio (codes "rtpmap:" ++ decimal pt ++ codes " opus/48000/2") sdp _
      (ap (put_audio_media sdp) (parse_rtpmap-opus pt sdp.audio h))

video_rtpmap_line :
    (pt : ℕ) (sdp : Sdp)
    → pt ≤ 127
    → parse_line
        (codes "a=rtpmap:" ++ decimal pt ++ codes " H264/90000")
        (record { section = Section.video; sdp = sdp })
      ≡ (
        true,
        record {
          section = Section.video;
          sdp = record sdp {
            video = record sdp.video {
              payload_type = pt;
              codec = codes "H264";
              clock_rate = 90000;
              channels = 1;
            };
          };
        },
      )
unfolding attribute media_attribute
video_rtpmap_line pt sdp h =
    in_video (codes "rtpmap:" ++ decimal pt ++ codes " H264/90000") sdp _
      (ap (put_video_media sdp) (parse_rtpmap-h264 pt sdp.video h))

audio_feedback_line :
    (pt : ℕ) (rest : List ℕ) (sdp : Sdp)
    → pt ≤ 127
    → parse_line
        (codes "a=rtcp-fb:" ++ decimal pt ++ rest)
        (record { section = Section.audio; sdp = sdp })
      ≡ (
        true,
        record {
          section = Section.audio;
          sdp = record sdp { audio = put_feedback rest sdp.audio };
        },
      )
unfolding attribute media_attribute
audio_feedback_line pt rest sdp h =
    in_audio (codes "rtcp-fb:" ++ decimal pt ++ rest) sdp _
      (ap (λ m. put_audio_media sdp (true, m)) (put_feedback-decimal pt rest sdp.audio h))

video_feedback_line :
    (pt : ℕ) (rest : List ℕ) (sdp : Sdp)
    → pt ≤ 127
    → parse_line
        (codes "a=rtcp-fb:" ++ decimal pt ++ rest)
        (record { section = Section.video; sdp = sdp })
      ≡ (
        true,
        record {
          section = Section.video;
          sdp = record sdp { video = put_feedback rest sdp.video };
        },
      )
unfolding attribute media_attribute
video_feedback_line pt rest sdp h =
    in_video (codes "rtcp-fb:" ++ decimal pt ++ rest) sdp _
      (ap (λ m. put_video_media sdp (true, m)) (put_feedback-decimal pt rest sdp.video h))

pub audio-Run :
    (pt : ℕ) (mid : List ℕ) (section : Section) (sdp : Sdp)
    → pt ≤ 127
    → IsToken 16 mid
    → Run
        (audio_lines pt mid)
        (record { section = section; sdp = record sdp { audio = no_media } })
        (record { section = Section.audio; sdp = record sdp { audio = offered_audio pt mid } })
unfolding audio_lines parse_line attribute media_attribute parse_extmap scan_unsigned scan_word
    offered_audio transport_wide_uri mid_uri level_uri
audio-Run pt mid section sdp h v = Run.next refl (
    Run.next refl (
      Run.next (audio_mid_line mid _ v) (
        Run.next refl (
          Run.next refl (
            Run.next (audio_rtpmap_line pt _ h) (
              Run.next refl (
                Run.next (audio_feedback_line pt (codes " transport-cc") _ h)
                  (Run.next refl (Run.next refl (Run.next refl Run.done))))))))))

pub video-Run :
    (pt : ℕ) (mid : List ℕ) (section : Section) (sdp : Sdp)
    → pt ≤ 127
    → IsToken 16 mid
    → Run
        (video_lines pt mid)
        (record { section = section; sdp = record sdp { video = no_media } })
        (record { section = Section.video; sdp = record sdp { video = offered_video pt mid } })
unfolding video_lines parse_line attribute media_attribute parse_extmap scan_unsigned scan_word
    offered_video transport_wide_uri mid_uri level_uri
video-Run pt mid section sdp h v = Run.next refl (
    Run.next refl (
      Run.next (video_mid_line mid _ v) (
        Run.next refl (
          Run.next refl (
            Run.next (video_rtpmap_line pt _ h) (
              Run.next refl (
                Run.next (video_feedback_line pt (codes " nack") _ h) (
                  Run.next (video_feedback_line pt (codes " nack pli") _ h) (
                    Run.next (video_feedback_line pt (codes " transport-cc") _ h)
                      (Run.next refl (Run.next refl Run.done)))))))))))
