-- ===== src/Session/Valid.antt =====
-- The life of a session of src/session/session.c, from its creation on.
use libmezia.Prelude.{
  ℕ, ◌-◌, ◌≤◌, ◌≡◌, ◌⊎◌, inl, inr, refl, sym, subst, List, Option, none, some, Bool, true, false,
  not, ◌&&◌, ◌||◌, leb, is_null, length, length-take, if_cases, some-injective, none-ne-some, arith,
}
use libmezia.Types.{Status}
use libmezia.Opus.{Codec}
use libmezia.Media.{MediaCtx}
use libmezia.Media.Valid as MediaValid
use libmezia.Media.Life.{past}
use libmezia.Sdp.{Sdp}
use libmezia.Sdp.Parser
use libmezia.Sdp.Bounds.{Fits, IsInside}
use libmezia.Sdp.Safe.{parse-IsInside_sdp, init-IsInside}
use libmezia.Sdp.Writer.{default_ufrag, default_pwd, default_fingerprint}
use libmezia.Session.{
  Session, SessionConfig, create, made, copy_cstr, value_or, localhost, set_local_description,
  set_remote_description, put_local, put_remote,
}

copy_cstr-Fits :
    (size : ℕ) (src : Option (List ℕ)) (fallback : List ℕ)
    → 1 ≤ size
    → Fits size (copy_cstr size src fallback)
unfolding copy_cstr
copy_cstr-Fits size src fallback h =
    let value = value_or src fallback in
    if_cases (Fits size) (leb size (length value))
      (λ _. omega (arith, length-take (size - 1) value)) (λ e. ground arith)

module _ (c : Codec) where
  -- The arrays that `mezia_session_create` fills.
  pub record TextsFit (s : Session c) : Type 0 where
    pub local_ip : Fits 64 s.local_ip
    pub remote_ip : Fits 64 s.remote_ip
    pub ice_ufrag : Fits 256 s.ice_ufrag
    pub ice_pwd : Fits 256 s.ice_pwd
    pub fingerprint : Fits 256 s.fingerprint

  -- A session that has not started has no media context.
  pub record IsIdle (s : Session c) : Type 0 where
    pub waits : s.started ≡ false
    pub empty : s.media ≡ none

  -- A session that has started has both descriptions, and a valid context.
  pub record IsLive (s : Session c) : Type 0 where
    pub runs : s.started ≡ true
    pub have_local : s.have_local ≡ true
    pub have_remote : s.have_remote ≡ true
    pub context : MediaCtx c
    pub held : s.media ≡ some context
    pub valid : MediaValid.IsValid c context

  pub record IsValid (s : Session c) : Type 0 where
    pub texts : TextsFit s
    pub near : IsInside s.near
    pub far : IsInside s.far
    pub phase : IsIdle s ⊎ IsLive s

  made-IsValid : (config : SessionConfig) → IsValid (made c config)
  made-IsValid config = record {
    texts = record {
      local_ip = copy_cstr-Fits 64 config.local_ip localhost (omega arith);
      remote_ip = copy_cstr-Fits 64 config.remote_ip localhost (omega arith);
      ice_ufrag = copy_cstr-Fits 256 config.ice_ufrag default_ufrag (omega arith);
      ice_pwd = copy_cstr-Fits 256 config.ice_pwd default_pwd (omega arith);
      fingerprint = copy_cstr-Fits 256 config.fingerprint default_fingerprint (omega arith);
    };
    near = init-IsInside;
    far = init-IsInside;
    phase = inl (record { waits = refl; empty = refl });
  }

  pub create_session-IsValid :
      (config : Option SessionConfig) (ok : Bool) (s : Session c)
      → create c config ok ≡ some s
      → IsValid s
  unfolding create
  create_session-IsValid none ok s e = absurd (none-ne-some _ e)
  create_session-IsValid (some config) ok s e =
      subst IsValid
        (some-injective _ _ (
          past (not ok) (
            past (not config.offer_audio && not config.offer_video)
              (past (is_null config.local_ip || is_null config.remote_ip) e))))
        (made-IsValid config)

  pub same_texts :
      (s t : Session c)
      → (t.local_ip ≡ s.local_ip) × (t.remote_ip ≡ s.remote_ip)
      → (t.ice_ufrag ≡ s.ice_ufrag) × (t.ice_pwd ≡ s.ice_pwd)
      → t.fingerprint ≡ s.fingerprint
      → TextsFit s
      → TextsFit t
  same_texts s t (a, b) (d, e) f v = record {
    local_ip = subst (Fits 64) (sym a) v.local_ip;
    remote_ip = subst (Fits 64) (sym b) v.remote_ip;
    ice_ufrag = subst (Fits 256) (sym d) v.ice_ufrag;
    ice_pwd = subst (Fits 256) (sym e) v.ice_pwd;
    fingerprint = subst (Fits 256) (sym f) v.fingerprint;
  }

  put_local-IsValid :
      (s : Session c) (r : Status × Option Sdp)
      → ((sdp : Sdp) → r.1 ≡ some sdp → IsInside sdp)
      → IsIdle s
      → IsValid s
      → IsValid (put_local c s r).1
  put_local-IsValid s (status, none) inside idle v = v
  put_local-IsValid s (status, some sdp) inside idle v = record {
    texts =
        same_texts s (put_local c s (status, some sdp)).1 (refl, refl) (refl, refl) refl v.texts;
    near = inside sdp refl;
    far = v.far;
    phase = inl (record { waits = idle.waits; empty = idle.empty });
  }

  put_remote-IsValid :
      (s : Session c) (r : Status × Option Sdp)
      → ((sdp : Sdp) → r.1 ≡ some sdp → IsInside sdp)
      → IsIdle s
      → IsValid s
      → IsValid (put_remote c s r).1
  put_remote-IsValid s (status, none) inside idle v = v
  put_remote-IsValid s (status, some sdp) inside idle v = record {
    texts =
        same_texts s (put_remote c s (status, some sdp)).1 (refl, refl) (refl, refl) refl v.texts;
    near = v.near;
    far = inside sdp refl;
    phase = inl (record { waits = idle.waits; empty = idle.empty });
  }

  -- A valid session that has not started is idle.
  pub session-IsIdle : (s : Session c) → IsValid s → s.started ≡ false → IsIdle s
  session-IsIdle s v e = elim v.phase [
    | inl idle ↦ idle
    | inr live ↦ absurd (ground (arith, live.runs, e))
  ]

  pub set_local_description-IsValid :
      (s : Session c) (text : Option (List ℕ))
      → IsValid s
      → IsValid (set_local_description c s text).1
  unfolding set_local_description
  set_local_description-IsValid s none v =
      if_cases (λ (t : Status × Session c). IsValid t.1) s.started (λ _. v) (λ _. v)
  set_local_description-IsValid s (some text) v =
      if_cases (λ (t : Status × Session c). IsValid t.1) s.started (λ _. v)
        (λ e.
          put_local-IsValid s (Parser.parse (some text) (some s.near))
            (λ sdp. parse-IsInside_sdp text s.near sdp) (session-IsIdle s v e) v)

  pub set_remote_description-IsValid :
      (s : Session c) (text : Option (List ℕ))
      → IsValid s
      → IsValid (set_remote_description c s text).1
  unfolding set_remote_description
  set_remote_description-IsValid s none v =
      if_cases (λ (t : Status × Session c). IsValid t.1) s.started (λ _. v) (λ _. v)
  set_remote_description-IsValid s (some text) v =
      if_cases (λ (t : Status × Session c). IsValid t.1) s.started (λ _. v)
        (λ e.
          put_remote-IsValid s (Parser.parse (some text) (some s.far))
            (λ sdp. parse-IsInside_sdp text s.far sdp) (session-IsIdle s v e) v)
