-- ===== src/Media/Stops.antt =====
-- Stopping a context of src/media/media.c from the callback of its own worker.
use libmezia.Prelude.{◌≡◌, refl, ap, ◌∙◌, Bool, true, false, List, [], ◌∷◌, map, if_false, arith}
use libmezia.Types.{Status}
use libmezia.Opus.{Codec}
use libmezia.Peer
use libmezia.Media.{MediaCtx, stop}

module _ (c : Codec) where
  stopped_by_worker :
      (m : MediaCtx c)
      → m.running ≡ true
      → m.peer.running ≡ true
      → let (status, m1) = stop c true m in
        (status ≡ Status.bad_state) × (m1.running ≡ false) × (m1.peer ≡ m.peer)
  unfolding stop Peer.stop
  stopped_by_worker m on live = ground arith

  -- Stops one after the other, each by the worker itself or from another thread, with their answers.
  unfoldable pub stop_each : List Bool → MediaCtx c → List Status × MediaCtx c
  stop_each [] m = ([], m)
  stop_each (own_thread ∷ threads) m =
      let (status, n) = stop c own_thread m in
      let (rest, last) = stop_each threads n in (status ∷ rest, last)

  -- A context that does not run is stopped without an effect.
  stop_each-idle :
      (threads : List Bool) (m : MediaCtx c)
      → m.running ≡ false
      → stop_each threads m ≡ (map (λ (t : Bool). Status.ok) threads, m)
  unfolding stop_each stop
  stop_each-idle [] m off = refl
  stop_each-idle (own_thread ∷ threads) m off =
      let still : stop c own_thread m ≡ (Status.ok, m) = if_false m.running _ off in
      ap
        (λ (x : Status × MediaCtx c).
          let (rest, last) = stop_each threads x.1 in (x.0 ∷ rest, last))
        still
      ∙ ap (λ (x : List Status × MediaCtx c). (Status.ok ∷ x.0, x.1)) (stop_each-idle threads m off)

  -- A running context that its own worker stops answers BAD_STATE, but no longer counts as running.
  -- However often it is stopped then, from whatever threads and without a start in between: each
  -- stop answers OK, and the peer keeps running with its socket.
  pub stop_from_callback :
      (m : MediaCtx c) (threads : List Bool)
      → m.running ≡ true
      → m.peer.running ≡ true
      → let (first, m1) = stop c true m in
        let (answers, m2) = stop_each threads m1 in
        (first ≡ Status.bad_state)
        × (answers ≡ map (λ (t : Bool). Status.ok) threads)
        × (m2.running ≡ false)
        × (m2.peer ≡ m.peer)
  stop_from_callback m threads on live =
      let (first, off, same) = stopped_by_worker m on live in
      let later = stop_each-idle threads (stop c true m).1 off in
      (
        first,
        ap (λ (x : List Status × MediaCtx c). x.0) later,
        ap (λ (x : List Status × MediaCtx c). x.1.running) later ∙ off,
        ap (λ (x : List Status × MediaCtx c). x.1.peer) later ∙ same,
      )
