-- ===== src/Sdp/Offer/MediaShape.antt =====
-- The lines of a medium's section in an offer of src/sdp/sdp.c.
use libmezia.Prelude.{
  ℕ, ◌+◌, ◌≤◌, ◌≡◌, refl, ◌∙◌, List, ◌∷◌, ◌++◌, true, false, not, leb, length, arith,
}
use libmezia.Text.{codes}
use libmezia.Text.Span.{every}
use libmezia.Text.Numbers.{decimal-IsDecimal}
use libmezia.Text.Print.{decimal}
use libmezia.Sdp.Parser.{is_trimmed}
use libmezia.Sdp.Lines.{not_newline, ends_solid}
use libmezia.Sdp.Writer.{audio_lines, video_lines, transport_wide_uri, mid_uri, level_uri}
use libmezia.Sdp.Offer.{IsToken}
use libmezia.Sdp.Offer.Shape.{
  Fine, ◌then◌, literal, token, number, fixed, solid_decimal, ends_solid-some, ends_solid-word,
  ends_solid-append,
}

-- A line with a payload type between two literals.
typed :
    (n m : ℕ) (front : List ℕ) (c : ℕ) (rest : List ℕ) {k pt : ℕ} {lines : List (List ℕ)}
    → every not_newline front ≡ true
    → leb (length front) n ≡ true
    → every not_newline (c ∷ rest) ≡ true
    → leb (length (c ∷ rest)) (m + 1) ≡ true
    → leb (n + 3 + (m + 1)) 509 ≡ true
    → ends_solid (not (is_trimmed c)) rest ≡ true
    → pt ≤ 127
    → Fine k lines
    → Fine (n + 3 + (m + 1) + 2 + k) ((front ++ decimal pt ++ (c ∷ rest)) ∷ lines)
unfolding ends_solid
typed n m front c rest {pt = pt} e h f g low solid small others =
    Fine.more low ((literal n front e h then number pt small) then literal (m + 1) (c ∷ rest) f g)
      (ends_solid-append false (front ++ decimal pt) c rest ∙ solid) others

pub audio-Fine : (pt : ℕ) (mid : List ℕ) → pt ≤ 127 → IsToken 16 mid → Fine 382 (audio_lines pt mid)
unfolding audio_lines every ends_solid transport_wide_uri mid_uri level_uri
audio-Fine pt mid h v =
    Fine.more {n = 31} refl
      (literal 28 (codes "m=audio 9 UDP/TLS/RTP/SAVPF ") refl refl then number pt h)
      (ends_solid-some false (decimal pt) (decimal-IsDecimal pt (omega arith)).some
        (solid_decimal pt h))
      (fixed 16 (codes "c=IN IP4 0.0.0.0") refl refl refl refl (
        Fine.more {n = 21} refl (literal 6 (codes "a=mid:") refl refl then token 16 mid v)
          (ends_solid-word mid v.solid)
          (fixed 10 (codes "a=sendrecv") refl refl refl refl (
            fixed 10 (codes "a=rtcp-mux") refl refl refl refl (
              typed 9 12 (codes "a=rtpmap:") b' ' (codes "opus/48000/2") refl refl refl refl refl
                refl h
                (typed 7 26 (codes "a=fmtp:") b' ' (codes "minptime=10;useinbandfec=1") refl refl
                  refl refl refl refl h
                  (typed 10 12 (codes "a=rtcp-fb:") b' ' (codes "transport-cc") refl refl refl refl
                    refl refl h
                    (fixed 84 (codes "a=extmap:6 " ++ transport_wide_uri) refl refl refl refl (
                      fixed 46 (codes "a=extmap:7 " ++ mid_uri) refl refl refl refl (
                        fixed 54 (codes "a=extmap:1 " ++ level_uri) refl refl refl refl
                          Fine.none))))))))))

pub video-Fine : (pt : ℕ) (mid : List ℕ) → pt ≤ 127 → IsToken 16 mid → Fine 412 (video_lines pt mid)
unfolding video_lines every ends_solid transport_wide_uri mid_uri level_uri
video-Fine pt mid h v =
    Fine.more {n = 31} refl
      (literal 28 (codes "m=video 9 UDP/TLS/RTP/SAVPF ") refl refl then number pt h)
      (ends_solid-some false (decimal pt) (decimal-IsDecimal pt (omega arith)).some
        (solid_decimal pt h))
      (fixed 16 (codes "c=IN IP4 0.0.0.0") refl refl refl refl (
        Fine.more {n = 21} refl (literal 6 (codes "a=mid:") refl refl then token 16 mid v)
          (ends_solid-word mid v.solid)
          (fixed 10 (codes "a=sendrecv") refl refl refl refl (
            fixed 10 (codes "a=rtcp-mux") refl refl refl refl (
              typed 9 10 (codes "a=rtpmap:") b' ' (codes "H264/90000") refl refl refl refl refl refl
                h
                (typed 7 70 (codes "a=fmtp:") b' '
                  (codes "level-asymmetry-allowed=1;packetization-mode=1;profile-level-id=42e01f")
                  refl refl refl refl refl refl h
                  (typed 10 4 (codes "a=rtcp-fb:") b' ' (codes "nack") refl refl refl refl refl refl
                    h
                    (typed 10 8 (codes "a=rtcp-fb:") b' ' (codes "nack pli") refl refl refl refl
                      refl refl h
                      (typed 10 12 (codes "a=rtcp-fb:") b' ' (codes "transport-cc") refl refl refl
                        refl refl refl h
                        (fixed 84 (codes "a=extmap:6 " ++ transport_wide_uri) refl refl refl refl (
                          fixed 46 (codes "a=extmap:7 " ++ mid_uri) refl refl refl refl
                            Fine.none)))))))))))
