-- ===== src/Sdp/Offer/RoundTrip.antt =====
-- `mezia_sdp_parse` reads back what `mezia_sdp_write_offer` writes.
use libmezia.Prelude.{
  ℕ, ◌+◌, ◌≤◌, ◌≡◌, refl, ap, sym, ◌∙◌, List, [], ◌∷◌, ◌++◌, Bool, true, false, not, ◌&&◌, ◌||◌,
  ◌==◌, length, arith, if◌then◌else◌, if_false, some,
}
use libmezia.Types.{Status, Written}
use libmezia.Text.Print.{snprintf}
use libmezia.Sdp.{Sdp, OfferParams, no_media}
use libmezia.Sdp.Parser
use libmezia.Sdp.Parser.{Parser, parse_lines, verdict, begin}
use libmezia.Sdp.Parser.Attributes.{Section}
use libmezia.Sdp.Lines.{Run, Run-append, run_lines-Run, parse_lines-join_lines}
use libmezia.Sdp.Writer.{
  Sink, offer_result, write_offer, offer_texts, join_lines, when, head_lines, bundle_line,
  transport_lines, audio_lines, video_lines, ufrag_of, pwd_of, algo_of, fingerprint_of,
  audio_mid_of, video_mid_of, audio_pt_of, video_pt_of,
}
use libmezia.Sdp.Offer.{IsOfferable, offered, offered_audio, offered_video}
use libmezia.Sdp.Offer.Bundle.{bundle_line_lem}
use libmezia.Sdp.Offer.Sections.{head-Run, transport-Run, audio-Run, video-Run}
use libmezia.Sdp.Offer.Shape.{Fine, head-Fine, bundle-Fine, transport-Fine}
use libmezia.Sdp.Offer.MediaShape.{audio-Fine, video-Fine}
use libmezia.Sdp.Offer.Pieces.{Pieces, Pieces-AllLines, AllWritten, append_all-Pieces}

-- The lines of a section that is offered, in front of others.
abbrev section_lines : Bool → List (List ℕ) → List (List ℕ) → List (List ℕ)
section_lines true lines rest = lines ++ rest
section_lines false lines rest = rest

-- All lines of an offer.
abbrev all_lines : OfferParams → List (List ℕ)
all_lines p =
    head_lines
    ++ ((bundle_line p.offer_audio p.offer_video (audio_mid_of p) (video_mid_of p) ∷ [])
        ++ (transport_lines (ufrag_of p) (pwd_of p) (algo_of p) (fingerprint_of p)
            ++ section_lines p.offer_audio (audio_lines (audio_pt_of p) (audio_mid_of p))
                (section_lines p.offer_video (video_lines (video_pt_of p) (video_mid_of p)) [])))

abbrev size_of : Bool → ℕ → ℕ → ℕ
size_of true n m = n + m
size_of false n m = m

media_Pieces :
    (audio video : Bool) (xs ys : List (List ℕ))
    → Fine 382 xs
    → Fine 412 ys
    → Pieces
        (size_of audio 382 (size_of video 412 0))
        (when audio (snprintf 1024 (join_lines xs)) ++ when video (snprintf 1024 (join_lines ys)))
        (section_lines audio xs (section_lines video ys []))
media_Pieces true true xs ys f g = Pieces.cons refl f (Pieces.cons refl g Pieces.nil)
media_Pieces true false xs ys f g = Pieces.cons refl f Pieces.nil
media_Pieces false true xs ys f g = Pieces.cons refl g Pieces.nil
media_Pieces false false xs ys f g = Pieces.nil

abbrev last_section : Bool → Bool → Section → Section
last_section audio true s = Section.video
last_section true false s = Section.audio
last_section false false s = s

media_Run :
    (p : OfferParams) (audio video : Bool) (s : Section) (sdp : Sdp)
    → IsOfferable p
    → Run
        (section_lines audio
          (audio_lines (audio_pt_of p) (audio_mid_of p))
          (section_lines video (video_lines (video_pt_of p) (video_mid_of p)) []))
        (record { section = s; sdp = record sdp { audio = no_media; video = no_media } })
        (record {
          section = last_section audio video s;
          sdp = record sdp {
            audio = if audio then offered_audio (audio_pt_of p) (audio_mid_of p) else no_media;
            video = if video then offered_video (video_pt_of p) (video_mid_of p) else no_media;
          };
        })
media_Run p true true s sdp v =
    Run-append
      (audio-Run (audio_pt_of p) (audio_mid_of p) s (record sdp { video = no_media }) v.audio_pt
        v.audio_mid)
      (Run-append
        (video-Run (video_pt_of p) (video_mid_of p) Section.audio
          (record sdp { audio = offered_audio (audio_pt_of p) (audio_mid_of p) }) v.video_pt
          v.video_mid)
        Run.done)
media_Run p true false s sdp v =
    Run-append
      (audio-Run (audio_pt_of p) (audio_mid_of p) s (record sdp { video = no_media }) v.audio_pt
        v.audio_mid)
      Run.done
media_Run p false true s sdp v =
    Run-append
      (video-Run (video_pt_of p) (video_mid_of p) s (record sdp { audio = no_media }) v.video_pt
        v.video_mid)
      Run.done
media_Run p false false s sdp v = Run.done

-- The lines take the empty description to the one that is offered.
offer_Run :
    (p : OfferParams)
    → IsOfferable p
    → Run (all_lines p) begin (record {
      section = last_section p.offer_audio p.offer_video Section.nowhere;
      sdp = offered p;
    })
unfolding offered
offer_Run p v = Run-append head-Run (
    Run-append
      (Run.next
        (bundle_line_lem p.offer_audio p.offer_video (audio_mid_of p) (video_mid_of p) v.audio_mid
          v.has_audio_mid v.video_mid v.has_video_mid)
        Run.done)
      (Run-append
        (transport-Run (ufrag_of p) (pwd_of p) (algo_of p) (fingerprint_of p) _ v.ufrag v.pwd v.algo
          v.fingerprint)
        (media_Run p p.offer_audio p.offer_video Section.nowhere (offered p) v)))

offer-Pieces :
    (p : OfferParams)
    → IsOfferable p
    → Pieces
        (41 + (48 + (866 + size_of p.offer_audio 382 (size_of p.offer_video 412 0))))
        (offer_texts p)
        (all_lines p)
unfolding offer_texts head_lines
offer-Pieces p v = Pieces.cons refl head-Fine (
    Pieces.cons refl
      (bundle-Fine p.offer_audio p.offer_video (audio_mid_of p) (video_mid_of p) v.audio_mid
        v.has_audio_mid v.video_mid v.has_video_mid)
      (Pieces.cons refl
        (transport-Fine (ufrag_of p) (pwd_of p) (algo_of p) (fingerprint_of p) v.ufrag v.pwd v.algo
          v.fingerprint v.has_fingerprint)
        (media_Pieces p.offer_audio p.offer_video _ _
          (audio-Fine (audio_pt_of p) (audio_mid_of p) v.audio_pt v.audio_mid)
          (video-Fine (video_pt_of p) (video_mid_of p) v.video_pt v.video_mid))))

size_of-bound : (audio video : Bool) → size_of audio 382 (size_of video 412 0) ≤ 794
size_of-bound true true = omega arith
size_of-bound true false = omega arith
size_of-bound false true = omega arith
size_of-bound false false = omega arith

present :
    (audio video : Bool) (a v : List ℕ) (m n : ℕ)
    → (audio || video) ≡ true
    → (not (if audio then offered_audio m a else no_media).present
        && not (if video then offered_video n v else no_media).present)
      ≡ false
unfolding offered_audio offered_video
present true video a v m n e = refl
present false true a v m n e = refl
present false false a v m n e = sym e

parse-all_lines :
    (p : OfferParams) (was : Sdp)
    → IsOfferable p
    → Parser.parse (some (join_lines (all_lines p))) (some was) ≡ (Status.ok, some (offered p))
unfolding Parser.parse offered
parse-all_lines p was v =
    let q : Parser = record {
      section = last_section p.offer_audio p.offer_video Section.nowhere;
      sdp = offered p;
    } in
    ap (λ (t : Bool × Parser). let (status, parsed) = verdict t in (status, some parsed))
      (parse_lines-join_lines (all_lines p) begin (Pieces-AllLines (offer-Pieces p v))
        ∙ run_lines-Run (offer_Run p v))
    ∙ ap (λ (t : Status × Sdp). (t.0, some t.1))
        (if_false _ (Status.malformed_packet, offered p)
          (present p.offer_audio p.offer_video (audio_mid_of p) (video_mid_of p) (audio_pt_of p)
            (video_pt_of p) v.some))

abbrev written : OfferParams → Written
written p = record {
  status = Status.ok;
  out = some (join_lines (all_lines p));
  out_len = some (length (join_lines (all_lines p)));
}

finished :
    (r : Bool × Sink) (text : List ℕ) (n : ℕ)
    → AllWritten r text
    → offer_result r (some n)
      ≡ record { status = Status.ok; out = some text; out_len = some (length text) }
unfolding AllWritten
finished (fine, s) text n (e, f) =
    ap (λ b. offer_result (b, s) (some n)) e
    ∙ ap (λ t. record { status = Status.ok; out = some t; out_len = some (length t) }) f

write_offer-written :
    (p : OfferParams) (out : List ℕ) (capacity n : ℕ)
    → IsOfferable p
    → 1750 ≤ capacity
    → write_offer (some p) (some out) capacity (some n) ≡ written p
unfolding write_offer
write_offer-written p out capacity n v h =
    if_false (capacity == 0) _ (ground arith)
    ∙ if_false (not p.offer_audio && not p.offer_video) _
        (someone p.offer_audio p.offer_video v.some)
    ∙ finished _ _ n (
        append_all-Pieces (record { text = []; remaining = capacity }) (offer-Pieces p v)
          (omega (arith, size_of-bound p.offer_audio p.offer_video)))
  where
    someone : (audio video : Bool) → (audio || video) ≡ true → (not audio && not video) ≡ false
    someone true video e = refl
    someone false true e = refl
    someone false false e = sym e

-- For parameters whose tokens fit their arrays and have no blank in them, whose fingerprint and mids
-- are not empty, and whose payload types are below 128: an offer of audio, video or both is written
-- into an array of 1750 characters or more, and `mezia_sdp_parse` reads from it exactly what was
-- offered, whatever the description was before.
pub parse-write_offer :
    (p : OfferParams) (out : List ℕ) (capacity n : ℕ) (was : Sdp)
    → IsOfferable p
    → 1750 ≤ capacity
    → let w = write_offer (some p) (some out) capacity (some n) in
      (w.status ≡ Status.ok) × (Parser.parse w.out (some was) ≡ (Status.ok, some (offered p)))
parse-write_offer p out capacity n was v h =
    let e = write_offer-written p out capacity n v h in
    (
      ap (λ (w : Written). w.status) e,
      ap (λ (w : Written). Parser.parse w.out (some was)) e ∙ parse-all_lines p was v,
    )
