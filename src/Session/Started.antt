-- ===== src/Session/Started.antt =====
-- The start of a session of src/session/session.c, and a session with another context.
use libmezia.Prelude.{
  ◌≡◌, inl, inr, refl, sym, ◌∙◌, subst, Option, none, some, true, not, ◌&&◌, ◌||◌, leb→le, if_cases,
  some-injective, none-ne-some, arith,
}
use libmezia.Types.{Status, is_ok}
use libmezia.Opus.{Codec}
use libmezia.Audio.{AudioConfig}
use libmezia.Video.{VideoConfig}
use libmezia.Peer.{Network}
use libmezia.Media
use libmezia.Media.{MediaCtx, Memory}
use libmezia.Media.Valid as MediaValid
use libmezia.Media.Life as MediaLife
use libmezia.Media.Life.{IsSized, NalFits, create_media-IsValid, Step-IsValid_media}
use libmezia.Session.{Session}
use libmezia.Session.Start.{
  start, launch, note_running, note_audio, note_video, media_config, has_audio, has_video,
  audio_config, video_config,
}
use libmezia.Session.Valid.{IsValid, IsIdle, same_texts, session-IsIdle}

module _ (c : Codec) where
  -- The two configurations are changed at most.
  IsNoted : Session c → Session c → Type 0
  IsNoted s n =
      IsValid c n × IsIdle c n × (n.have_local ≡ s.have_local) × (n.have_remote ≡ s.have_remote)

  with_configs :
      (s : Session c) (a : AudioConfig) (b : VideoConfig)
      → IsValid c s
      → IsIdle c s
      → IsNoted s (record s { audio_cfg = a; video_cfg = b })
  unfolding IsNoted
  with_configs s a b v idle =
      let n : Session c = record s { audio_cfg = a; video_cfg = b } in
      let waiting : IsIdle c n = record { waits = idle.waits; empty = idle.empty } in
      (
        record {
          texts = same_texts c s n (refl, refl) (refl, refl) refl v.texts;
          near = v.near;
          far = v.far;
          phase = inl waiting;
        },
        waiting,
        refl,
        refl,
      )

  note_video-note_audio-IsNoted :
      (s : Session c) → IsValid c s → IsIdle c s → IsNoted s (note_video c (note_audio c s))
  note_video-note_audio-IsNoted s v idle =
      if_cases (λ (a : Session c). IsNoted s (note_video c a)) (has_audio c s)
        (λ _.
          if_cases (IsNoted s) (has_video c s)
            (λ _. with_configs s (audio_config c s) (video_config c s) v idle)
            (λ _. with_configs s (audio_config c s) s.video_cfg v idle))
        (λ _.
          if_cases (IsNoted s) (has_video c s)
            (λ _. with_configs s s.audio_cfg (video_config c s) v idle)
            (λ _. with_configs s s.audio_cfg s.video_cfg v idle))

  nal_fits : (s : Session c) → NalFits (media_config c s).video
  nal_fits s = if_cases NalFits (has_video c s) (λ _. leb→le _ _ refl) (λ _. tt)

  -- A session whose context has just been started, or has refused to.
  note_running-IsValid :
      (s : Session c) (m : MediaCtx c) (w : Network)
      → IsValid c s
      → IsIdle c s
      → (s.have_local ≡ true) × (s.have_remote ≡ true)
      → MediaValid.IsValid c m
      → IsValid c (note_running c s (Media.start c w m)).1
  note_running-IsValid s m w v idle (near, far) mv =
      let run = Media.start c w m in
      let kept = record s { media = some run.1; started = true } in
      let dropped = record s { media = none } in
      if_cases (λ (t : Status × Session c). IsValid c t.1) (is_ok run.0)
        (λ _. record {
          texts = same_texts c s kept (refl, refl) (refl, refl) refl v.texts;
          near = v.near;
          far = v.far;
          phase = inr (record {
            runs = refl;
            have_local = near;
            have_remote = far;
            context = run.1;
            held = refl;
            valid = Step-IsValid_media c (MediaLife.Step.starting w refl) mv;
          });
        })
        (λ _. record {
          texts = same_texts c s dropped (refl, refl) (refl, refl) refl v.texts;
          near = v.near;
          far = v.far;
          phase = inl (record { waits = idle.waits; empty = refl });
        })

  launch-IsValid :
      (s n : Session c) (memory : Memory c) (w : Network) (o : Option (MediaCtx c))
      → ((m : MediaCtx c) → o ≡ some m → MediaValid.IsValid c m)
      → IsValid c n
      → IsIdle c n
      → (n.have_local ≡ true) × (n.have_remote ≡ true)
      → IsValid c (launch c w n o).1
  launch-IsValid s n memory w none made v idle have = record {
    texts = same_texts c n (record n { media = none }) (refl, refl) (refl, refl) refl v.texts;
    near = v.near;
    far = v.far;
    phase = inl (record { waits = idle.waits; empty = refl });
  }
  launch-IsValid s n memory w (some m) made v idle have =
      note_running-IsValid n m w v idle have (made m refl)

  pub start_session-IsValid :
      (memory : Memory c) (w : Network) (s : Session c)
      → IsSized memory.nal
      → IsValid c s
      → IsValid c (start c memory w s).1
  unfolding start IsNoted
  start_session-IsValid memory w s sized v =
      let P = λ (t : Status × Session c). IsValid c t.1 in
      if_cases P s.started (λ _. v)
        (λ waits.
          if_cases P (not s.have_local || not s.have_remote) (λ _. v)
            (λ have.
              let (nv, nidle, nl, nr) =
                note_video-note_audio-IsNoted s v (session-IsIdle c s v waits) in
              if_cases P (not (has_audio c s) && not (has_video c s)) (λ _. nv)
                (λ _.
                  launch-IsValid s (note_video c (note_audio c s)) memory w
                    (Media.create c (some (media_config c s)) memory)
                    (λ m made.
                      (create_media-IsValid c (media_config c s) memory m sized (nal_fits s)
                        made).0)
                    nv nidle (nl ∙ ground (arith, have), nr ∙ ground (arith, have)))))

  -- Another context in the place of the one that a session holds.
  pub with_media :
      (s : Session c) (m n : MediaCtx c)
      → s.media ≡ some m
      → (MediaValid.IsValid c m → MediaValid.IsValid c n)
      → IsValid c s
      → IsValid c (record s { media = some n })
  with_media s m n held step v = record {
    texts = same_texts c s (record s { media = some n }) (refl, refl) (refl, refl) refl v.texts;
    near = v.near;
    far = v.far;
    phase = elim v.phase [
      | inl idle ↦ absurd (none-ne-some m (sym idle.empty ∙ held))
      | inr live ↦ inr (record {
        runs = live.runs;
        have_local = live.have_local;
        have_remote = live.have_remote;
        context = n;
        held = refl;
        valid =
            step
              (subst (MediaValid.IsValid c) (some-injective _ _ (sym live.held ∙ held)) live.valid);
      })
    ];
  }
