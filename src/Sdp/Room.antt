-- ===== src/Sdp/Room.antt =====
-- `mezia_sdp_write_offer` of src/sdp/sdp.c stays inside the caller's array.
use libmezia.Prelude.{
  ℕ, ◌+◌, ◌-◌, ◌≤◌, ◌<◌, ◌≡◌, subst, List, [], ◌∷◌, ◌++◌, some, Bool, true, false, not, ◌&&◌, ◌==◌,
  ltb, if◌then◌else◌, if_cases, length, length-append, some-injective, arith,
}
use libmezia.Types.{Written}
use libmezia.Sdp.{OfferParams}
use libmezia.Sdp.Writer.{Sink, append, append_all, offer_result, offer_texts, refused, write_offer}

-- The text and the room behind it are the array, and there is room for the 0.
record HasEnd (capacity : ℕ) (s : Sink) : Type 0 where
  whole : length s.text + s.remaining ≡ capacity
  room : 1 ≤ s.remaining

append_all-inside :
    (capacity : ℕ) (texts : List (List ℕ)) (s : Sink)
    → HasEnd capacity s
    → length (append_all texts s).1.text < capacity
unfolding append_all append
append_all-inside capacity [] s v = omega (arith, v.whole, v.room)
append_all-inside capacity (text ∷ texts) s v =
    if_cases
      (λ (r : Bool × Sink).
        length (if r.0 then append_all texts r.1 else (false, r.1)).1.text < capacity)
      (ltb s.remaining (length text + 1)) (λ _. omega (arith, v.whole, v.room))
      (λ e.
        let low : length text + 1 ≤ s.remaining = ground arith in
        append_all-inside capacity texts
          (record { text = s.text ++ text; remaining = s.remaining - length text })
          (record {
            whole = omega (arith, length-append s.text text, v.whole, low);
            room = omega (arith, low);
          }))

offer_result-inside :
    (capacity n : ℕ) (r : Bool × Sink) (text : List ℕ)
    → length r.1.text < capacity
    → (offer_result r (some n)).out ≡ some text
    → length text < capacity
offer_result-inside capacity n (true, s) text h e =
    subst (λ t. length t < capacity) (some-injective _ _ e) h
offer_result-inside capacity n (false, s) text h e =
    subst (λ t. length t < capacity) (some-injective _ _ e) h

-- Whatever the parameters, and however long their tokens: the text that `mezia_sdp_write_offer` leaves
-- in an array that held a text before fits the array with its 0, whether the offer was written, did not
-- fit, or was refused.
pub write_offer-Fits :
    (p : OfferParams) (out text : List ℕ) (capacity n : ℕ)
    → length out < capacity
    → (write_offer (some p) (some out) capacity (some n)).out ≡ some text
    → length text < capacity
unfolding write_offer
write_offer-Fits p out text capacity n h =
    let P = λ (w : Written). w.out ≡ some text → length text < capacity in
    let kept : P (refused (some out) (some n)) =
      λ e. subst (λ t. length t < capacity) (some-injective _ _ e) h in
    if_cases P (capacity == 0) (λ _. kept)
      (λ _.
        if_cases P (not p.offer_audio && not p.offer_video) (λ _. kept)
          (λ _.
            offer_result-inside capacity n
              (append_all (offer_texts p) (record { text = []; remaining = capacity })) text
              (append_all-inside capacity (offer_texts p)
                (record { text = []; remaining = capacity })
                (record { whole = omega arith; room = omega arith }))))
