-- ===== src/Session/Refused.antt =====
-- What a text that is refused does to a session of src/session/session.c.
use libmezia.Prelude.{
  ℕ, ◌≡◌, ◌≢◌, refl, ap, ◌∙◌, List, Option, none, some, Bool, true, false, not, ◌&&◌, ◌||◌, length,
  if◌then◌else◌, if_cases, if_true, if_false, Bool-cases, inl, inr, arith,
}
use libmezia.Types.{Status, is_ok}
use libmezia.Opus.{Codec}
use libmezia.Peer.{Network}
use libmezia.Media
use libmezia.Media.{MediaCtx, Memory}
use libmezia.Sdp
use libmezia.Sdp.{Sdp}
use libmezia.Sdp.Parser
use libmezia.Sdp.Parser.{Parser, parse_lines, verdict, begin}
use libmezia.Session.{Session, set_remote_description}
use libmezia.Session.Start.{
  start, launch, note_audio, note_video, media_config, has_audio, has_video,
}
use libmezia.Session.Traffic.{remote_sdp}

verdict-refused :
    (r : Bool × Parser) → (verdict r).0 ≢ Status.ok → (verdict r).0 ≡ Status.malformed_packet
verdict-refused (false, p) refused = refl
verdict-refused (true, p) refused =
    elim (Bool-cases (not p.sdp.audio.present && not p.sdp.video.present)) [
      | inl empty ↦ ap (λ (x : Status × Sdp). x.0) (if_true _ (Status.ok, p.sdp) empty)
      | inr full ↦ absurd (
          refused
            (ap (λ (x : Status × Sdp). x.0) (if_false _ (Status.malformed_packet, p.sdp) full)))
    ]

abbrev is_waiting : Status → Bool
is_waiting Status.not_ready = true
is_waiting _ = false

differs : (a : Status) → is_waiting a ≡ false → a ≢ Status.not_ready
differs a e f = absurd (ground (arith, e, ap is_waiting f))

module _ (c : Codec) where
  launched :
      (w : Network) (s : Session c) (o : Option (MediaCtx c))
      → is_waiting (launch c w s o).0 ≡ false
  launched w s none = refl
  launched w s (some m) =
      if_cases (λ (x : Status × Session c). is_waiting x.0 ≡ false) (is_ok (Media.start c w m).0)
        (λ _. refl) (λ _. refl)

  -- The start of a session that has both descriptions.
  start-both :
      (memory : Memory c) (w : Network) (s : Session c)
      → s.have_local ≡ true
      → s.have_remote ≡ true
      → is_waiting (start c memory w s).0 ≡ false
  unfolding start
  start-both memory w s near far =
      let P = λ (x : Status × Session c). is_waiting x.0 ≡ false in
      let noted = note_video c (note_audio c s) in
      if_cases P s.started (λ _. refl)
        (λ _.
          if_cases P (not s.have_local || not s.have_remote)
            (λ missing. absurd (ground (arith, near, far, missing)))
            (λ _.
              if_cases P (not (has_audio c s) && not (has_video c s)) (λ _. refl)
                (λ _. launched w noted (Media.create c (some (media_config c s)) memory))))

  -- A session that has not started, and has both descriptions, is given a text that does not
  -- parse. It answers MALFORMED_PACKET, but its remote description is gone: in its place it
  -- gives out what the text left in an empty one before it was refused, and a start does not
  -- answer NOT_READY.
  pub set_remote_description_clobbers :
      (memory : Memory c) (w : Network) (s : Session c) (text : List ℕ)
      → s.started ≡ false
      → s.have_local ≡ true
      → s.have_remote ≡ true
      → (Parser.parse (some text) (some s.far)).0 ≢ Status.ok
      → let (status, t) = set_remote_description c s (some text) in
        (status ≡ Status.malformed_packet)
        × (remote_sdp c (some t) ≡ (Parser.parse (some text) (some Sdp.init)).1)
        × ((start c memory w t).0 ≢ Status.not_ready)
  unfolding set_remote_description Parser.parse remote_sdp
  set_remote_description_clobbers memory w s text idle near far refused =
      let r = parse_lines (length text) text begin in
      let have : Bool = if is_ok (verdict r).0 then true else s.have_remote in
      let t : Session c = record s { far = (verdict r).1; have_remote = have } in
      let kept : have ≡ true = ground (arith, far) in
      let e : set_remote_description c s (some text) ≡ ((verdict r).0, t) =
        if_false s.started _ idle in
      (
        ap (λ (x : Status × Session c). x.0) e ∙ verdict-refused r refused,
        ap (λ (x : Status × Session c). remote_sdp c (some x.1)) e ∙ if_true have none kept,
        differs _ (
            ap (λ (x : Status × Session c). is_waiting (start c memory w x.1).0) e
            ∙ start-both memory w t near kept),
      )
