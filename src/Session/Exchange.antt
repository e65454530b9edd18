-- ===== src/Session/Exchange.antt =====
-- Two sessions of src/session/session.c that exchange their offers.
use libmezia.Prelude.{
  ℕ, ◌≤◌, ◌≡◌, refl, ap, ◌∙◌, List, Option, none, some, true, false, ◌||◌, length, if_false, arith,
}
use libmezia.Types.{Status, is_ok}
use libmezia.Text.Span.{every}
use libmezia.Opus.{Codec}
use libmezia.Sdp.{Sdp}
use libmezia.Sdp.Parser
use libmezia.Sdp.Parser.{parse_lines}
use libmezia.Sdp.Offer.{IsOfferable, not_blank, offered}
use libmezia.Sdp.Offer.RoundTrip.{parse-write_offer}
use libmezia.Session.{
  Session, offer_params, create_offer, set_local_description, set_remote_description, put_local,
  put_remote,
}
use libmezia.Session.Valid.{TextsFit}

module _ (c : Codec) where
  -- A session that offers something, in tokens without a blank or a line end.
  pub record IsPlain (s : Session c) : Type 0 where
    pub some : (s.config.offer_audio || s.config.offer_video) ≡ true
    pub texts : TextsFit c s
    pub ufrag : every not_blank s.ice_ufrag ≡ true
    pub pwd : every not_blank s.ice_pwd ≡ true
    pub fingerprint : every not_blank s.fingerprint ≡ true
    pub has_fingerprint : 1 ≤ length s.fingerprint

  offer_params-IsOfferable : (s : Session c) → IsPlain s → IsOfferable (offer_params c s)
  unfolding every
  offer_params-IsOfferable s v = record {
    some = v.some;
    ufrag = record { solid = v.ufrag; fits = v.texts.ice_ufrag };
    pwd = record { solid = v.pwd; fits = v.texts.ice_pwd };
    algo = record { solid = refl; fits = omega arith };
    fingerprint = record { solid = v.fingerprint; fits = v.texts.fingerprint };
    has_fingerprint = v.has_fingerprint;
    audio_mid = record { solid = refl; fits = omega arith };
    has_audio_mid = omega arith;
    video_mid = record { solid = refl; fits = omega arith };
    has_video_mid = omega arith;
    audio_pt = omega arith;
    video_pt = omega arith;
  }

  not_refused :
      {n o : Option Sdp}
      → Path (Status × Option Sdp) (Status.invalid_arg, n) (Status.ok, o)
      → false ≡ true
  not_refused e = ap (λ (t : Status × Option Sdp). is_ok t.0) e

  -- What a session's own parser makes of its offer.
  read_back :
      (s : Session c) (out : List ℕ) (capacity n : ℕ) (was : Sdp)
      → IsPlain s
      → 1750 ≤ capacity
      → Parser.parse (create_offer c s (some out) capacity (some n)).out (some was)
        ≡ (Status.ok, some (offered (offer_params c s)))
  unfolding create_offer
  read_back s out capacity n was v h =
      (parse-write_offer (offer_params c s) out capacity n was (offer_params-IsOfferable s v) h).1

  -- A session that knows what both offer.
  abbrev pub described : Session c → Session c → Session c
  described s r = record s {
    near = offered (offer_params c s);
    far = offered (offer_params c r);
    have_local = true;
    have_remote = true;
  }

  pub local_of :
      (s : Session c) (text : Option (List ℕ)) (sdp : Sdp)
      → s.started ≡ false
      → Parser.parse text (some s.near) ≡ (Status.ok, some sdp)
      → set_local_description c s text ≡ (Status.ok, record s { near = sdp; have_local = true })
  unfolding set_local_description Parser.parse
  local_of s none sdp idle e = absurd (ground (arith, not_refused e))
  local_of s (some text) sdp idle e = if_false s.started _ idle ∙ ap (put_local c s) e

  pub remote_of :
      (s : Session c) (text : Option (List ℕ)) (sdp : Sdp)
      → s.started ≡ false
      → Parser.parse text (some s.far) ≡ (Status.ok, some sdp)
      → set_remote_description c s text ≡ (Status.ok, record s { far = sdp; have_remote = true })
  unfolding set_remote_description Parser.parse
  remote_of s none sdp idle e = absurd (ground (arith, not_refused e))
  remote_of s (some text) sdp idle e = if_false s.started _ idle ∙ ap (put_remote c s) e

  -- Two sessions offer something in plain tokens, and the first has not started. Each offer is written
  -- into an array of 1750 characters or more. Then the first session takes its own offer as its local
  -- and the other's as its remote description, and afterwards holds exactly what the two offered.
  pub set_remote_description-set_local_description :
      (s r : Session c) (a b : List ℕ) (capacity m n : ℕ)
      → IsPlain s
      → IsPlain r
      → s.started ≡ false
      → 1750 ≤ capacity
      → let mine = create_offer c s (some a) capacity (some m) in
        let theirs = create_offer c r (some b) capacity (some n) in
        let (status, t) = set_local_description c s mine.out in
        (status ≡ Status.ok) × (set_remote_description c t theirs.out ≡ (Status.ok, described s r))
  set_remote_description-set_local_description s r a b capacity m n v w idle h =
      let mine = create_offer c s (some a) capacity (some m) in
      let theirs = create_offer c r (some b) capacity (some n) in
      let t : Session c = record s { near = offered (offer_params c s); have_local = true } in
      let first =
        local_of s mine.out (offered (offer_params c s)) idle
          (read_back s a capacity m s.near v h) in
      (
        ap (λ (x : Status × Session c). x.0) first,
        ap (λ (x : Status × Session c). set_remote_description c x.1 theirs.out) first
            ∙ remote_of t theirs.out (offered (offer_params c r)) idle
                (read_back r b capacity n t.far w h),
      )
