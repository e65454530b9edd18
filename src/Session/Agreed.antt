-- ===== src/Session/Agreed.antt =====
-- What a session of src/session/session.c starts with, from the two descriptions that it has.
use libmezia.Prelude.{
  ℕ, ◌*◌, ◌≤◌, ◌≡◌, refl, ap, ◌∙◌, List, none, some, Bool, true, false, not, ◌&&◌, ◌||◌,
  if◌then◌else◌, if_false, arith,
}
use libmezia.Types.{Status}
use libmezia.Opus.{Codec}
use libmezia.Audio.{AudioConfig, or_default}
use libmezia.Video.{VideoConfig}
use libmezia.Peer.{Network}
use libmezia.Media
use libmezia.Media.{MediaConfig, Memory}
use libmezia.Sdp.{Sdp, SdpMedia, OfferParams, no_media}
use libmezia.Sdp.Writer.{write_offer, or_type, audio_pt_of, video_pt_of, audio_mid_of, video_mid_of}
use libmezia.Sdp.Offer.RoundTrip.{parse-write_offer}
use libmezia.Sdp.Parser
use libmezia.Sdp.Parser.{parse_lines}
use libmezia.Sdp.Offer.{IsOfferable, offered, offered_audio, offered_video}
use libmezia.Session.{Session, set_local_description, set_remote_description, zero_audio_config}
use libmezia.Session.Start.{
  start, launch, note_audio, note_video, peer_config, session_mtu, negotiated_pt,
}
use libmezia.Session.Exchange.{local_of, remote_of}

-- The payload type that a medium is started with: the one that the remote description names, or else
-- the one that was offered.
abbrev pub chosen : SdpMedia → ℕ → ℕ
chosen far mine = or_default far.payload_type mine

module _ (c : Codec) where
  -- A session that has the offer for the parameters as its own, and another description as the remote
  -- one.
  abbrev pub prepared : Session c → OfferParams → Sdp → Session c
  prepared s p far = record s { near = offered p; far = far; have_local = true; have_remote = true }

  -- The media that the session may use, that it has offered, and that the other side has.
  abbrev pub all_audio : Session c → OfferParams → Sdp → Bool
  all_audio s p far = s.config.offer_audio && p.offer_audio && far.audio.present

  abbrev pub all_video : Session c → OfferParams → Sdp → Bool
  all_video s p far = s.config.offer_video && p.offer_video && far.video.present

  abbrev pub agreed_audio : Session c → ℕ → AudioConfig
  agreed_audio s pt = record zero_audio_config {
    payload_type = pt;
    ssrc = 286331153;
    mtu = session_mtu c s;
    jitter_target_ms = 60;
    jitter_max_ms = 120;
    on_audio = s.config.on_audio;
  }

  abbrev pub agreed_video : Session c → ℕ → VideoConfig
  agreed_video s pt = record {
    payload_type = pt;
    ssrc = 572662306;
    mtu = session_mtu c s;
    max_nal_size = 256 * 1024;
    on_nal = s.config.on_nal;
  }

  -- What a media context is made from.
  abbrev pub agreed : Session c → OfferParams → Sdp → MediaConfig
  agreed s p far = record {
    peer = peer_config c s;
    audio =
        if all_audio s p far
        then some (agreed_audio s (chosen far.audio (audio_pt_of p)))
        else none;
    video =
        if all_video s p far
        then some (agreed_video s (chosen far.video (video_pt_of p)))
        else none;
    control_payload_type = 0;
  }

  or_type-nonzero : (pt fallback : ℕ) → 1 ≤ fallback → 1 ≤ or_type pt fallback
  or_type-nonzero pt fallback h = ground arith

  -- The type of a medium that is offered with the type `pt`, and there on the other side.
  negotiated_pt-chosen :
      (near far : SdpMedia) (pt fallback : ℕ)
      → near.present ≡ true
      → far.present ≡ true
      → near.payload_type ≡ pt
      → 1 ≤ pt
      → negotiated_pt near far fallback ≡ chosen far pt
  unfolding negotiated_pt
  negotiated_pt-chosen near far pt fallback mine theirs same some_type = ground arith

  -- A medium is used under the same conditions, with the same type.
  medium_agreed {ℓ} :
      {A : Type ℓ} (with_type : ℕ → A) (wanted offer : Bool) (near far : SdpMedia) (pt fallback : ℕ)
      → near.present ≡ true
      → near.payload_type ≡ pt
      → 1 ≤ pt
      → let mine = if offer then near else no_media in
        ((wanted && mine.present && far.present) ≡ (wanted && offer && far.present))
        × ((if wanted && mine.present && far.present
              then some (with_type (negotiated_pt mine far fallback))
              else none)
            ≡ (if wanted && offer && far.present then some (with_type (chosen far pt)) else none))
  medium_agreed with_type false offer near far pt fallback mine same some_type = (refl, refl)
  medium_agreed with_type true false near far pt fallback mine same some_type = (refl, refl)
  medium_agreed with_type true true near far pt fallback mine same some_type =
      let test : (near.present && far.present) ≡ far.present =
        ap (λ (b : Bool). b && far.present) mine in
      (
        test,
        ap (λ (b : Bool). if b then some (with_type (negotiated_pt near far fallback)) else none)
              test
            ∙ typed far.present refl,
      )
    where
      typed :
          (b : Bool)
          → far.present ≡ b
          → (if b then some (with_type (negotiated_pt near far fallback)) else none)
            ≡ (if b then some (with_type (chosen far pt)) else none)
      typed true theirs =
          ap (λ (n : ℕ). some (with_type n))
            (negotiated_pt-chosen near far pt fallback mine theirs same some_type)
      typed false theirs = refl

  neither {ℓ} :
      {A : Type ℓ} (a v : Bool) (x y : A)
      → (if not a && not v then x else y) ≡ (if a || v then y else x)
  neither true v x y = refl
  neither false true x y = refl
  neither false false x y = refl

  start-ready :
      (memory : Memory c) (w : Network) (s : Session c) (p : OfferParams) (far : Sdp)
      → s.started ≡ false
      → let noted = note_video c (note_audio c (prepared s p far)) in
        start c memory w (prepared s p far) ≡ (
          if all_audio s p far || all_video s p far
          then launch c w noted (Media.create c (some (agreed s p far)) memory)
          else (Status.unsupported, noted))
  unfolding start offered offered_audio offered_video
  start-ready memory w s p far idle =
      let noted = note_video c (note_audio c (prepared s p far)) in
      let (ea, ca) =
        medium_agreed (agreed_audio s) s.config.offer_audio p.offer_audio
          (offered_audio (audio_pt_of p) (audio_mid_of p)) far.audio (audio_pt_of p) 111 refl refl
          (or_type-nonzero p.audio_payload_type 111 (omega arith)) in
      let (ev, cv) =
        medium_agreed (agreed_video s) s.config.offer_video p.offer_video
          (offered_video (video_pt_of p) (video_mid_of p)) far.video (video_pt_of p) 102 refl refl
          (or_type-nonzero p.video_payload_type 102 (omega arith)) in
      if_false s.started _ idle
      ∙ (λ i.
          if not (ea i) && not (ev i)
          then (Status.unsupported, noted)
          else launch c w noted (
              Media.create c
                (some (record {
                  peer = peer_config c s;
                  audio = ca i;
                  video = cv i;
                  control_payload_type = 0;
                }))
                memory))
      ∙ neither (all_audio s p far) (all_video s p far) _ _

  -- A session that has not started sets an offer as its local description: one for any
  -- parameters that can be read back (tokens that fit and have no blank, a fingerprint and mids
  -- that are not empty, payload types up to 127, where 0 stands for the default), written into
  -- an array of 1750 characters or more. Then it sets as its remote description any text that
  -- parses. Where no medium is one that the session's configuration offers, that was offered and
  -- that the remote text has, its start answers UNSUPPORTED. Else its media context is made with
  -- these media and no other, and launched; each has the payload type that the remote text
  -- names, or the one that was offered where that text names none.
  pub start-negotiated :
      (memory : Memory c) (w : Network) (s : Session c) (p : OfferParams) (out text : List ℕ)
      (capacity n : ℕ) (far : Sdp)
      → IsOfferable p
      → 1750 ≤ capacity
      → s.started ≡ false
      → Parser.parse (some text) (some s.far) ≡ (Status.ok, some far)
      → let offer = (write_offer (some p) (some out) capacity (some n)).out in
        let t = (set_local_description c s offer).1 in
        let u = (set_remote_description c t (some text)).1 in
        let noted = note_video c (note_audio c (prepared s p far)) in
        start c memory w u ≡ (
          if all_audio s p far || all_video s p far
          then launch c w noted (Media.create c (some (agreed s p far)) memory)
          else (Status.unsupported, noted))
  start-negotiated memory w s p out text capacity n far v h idle parsed =
      let offer = (write_offer (some p) (some out) capacity (some n)).out in
      let t : Session c = record s { near = offered p; have_local = true } in
      ap (λ (x : Status × Session c). start c memory w (set_remote_description c x.1 (some text)).1)
        (local_of c s offer (offered p) idle (parse-write_offer p out capacity n s.near v h).1)
      ∙ ap (λ (x : Status × Session c). start c memory w x.1)
          (remote_of c t (some text) far idle parsed)
      ∙ start-ready memory w s p far idle
