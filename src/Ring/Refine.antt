-- ===== src/Ring/Refine.antt =====
-- The ring of platform/common/audio_ring.h as a bounded queue of samples.
use libmezia.Prelude.{
  ℕ, zero, suc, ◌+◌, ◌-◌, ◌%◌, ◌≤◌, ◌<◌, ◌≡◌, ◌∙◌, refl, ap, ap₂, sym, min, List, [], ◌∷◌, ◌++◌,
  arith, get_or, set, take, drop, length, length-set, length-replicate, length-append,
  get_or-set_self, get_or-set_ne, append-nil, append_assoc, take-nil, ltb, ltb→lt, Bool-cases, inl,
  inr,
}
use libmezia.Ring.{Ring, zero_samples, init, put, skip, space, write_loop, write, read}

pub record IsValid (r : Ring) : Type 0 where
  pub size : length r.samples ≡ 9600
  pub read_in : r.read_at < 9600
  pub write_after : r.write_at ≡ (r.read_at + r.count) % 9600
  pub fits : r.count ≤ 9600

-- The `n` samples from index `h` on, going round at the end.
abbrev pub samples_from : List ℕ → ℕ → ℕ → List ℕ
samples_from buf h zero = []
samples_from buf h (suc n) = samples_from buf h n ++ (get_or buf ((h + n) % 9600) 0 ∷ [])

-- The queue that a ring stands for, oldest sample first.
abbrev pub contents : Ring → List ℕ
contents r = samples_from r.samples r.read_at r.count

length-samples_from : (buf : List ℕ) (h n : ℕ) → length (samples_from buf h n) ≡ n
length-samples_from buf h zero = refl
length-samples_from buf h (suc n) = omega (
  arith,
  length-append (samples_from buf h n) (get_or buf ((h + n) % 9600) 0 ∷ []),
  length-samples_from buf h n,
)

-- A write `d` places behind the start touches none of the first `n` samples.
samples_from-set :
    (buf : List ℕ) (h n d x : ℕ)
    → n ≤ d
    → d < 9600
    → samples_from (set buf ((h + d) % 9600) x) h n ≡ samples_from buf h n
samples_from-set buf h zero d x le low = refl
samples_from-set buf h (suc n) d x le low =
    ap₂ (λ s t. s ++ (t ∷ [])) (samples_from-set buf h n d x (omega arith) low)
      (get_or-set_ne buf ((h + d) % 9600) ((h + n) % 9600) x 0 (λ e. omega arith))

-- The first sample, and the others.
samples_from-head :
    (buf : List ℕ) (h n : ℕ)
    → h < 9600
    → samples_from buf h (suc n) ≡ get_or buf h 0 ∷ samples_from buf ((h + 1) % 9600) n
samples_from-head buf h zero low = ap (λ (i : ℕ). get_or buf i 0 ∷ []) (omega arith)
samples_from-head buf h (suc n) low =
    ap₂ (λ s i. s ++ (get_or buf i 0 ∷ [])) (samples_from-head buf h n low) (omega arith)

put-IsValid : (r : Ring) (x : ℕ) → IsValid r → r.count < 9600 → IsValid (put r x)
put-IsValid r x v room = record {
  size = rw (length-set r.samples r.write_at x) v.size;
  read_in = v.read_in;
  write_after = omega (arith, v.write_after);
  fits = omega arith;
}

samples_from-more :
    (buf : List ℕ) (h n w x : ℕ)
    → length buf ≡ 9600
    → w ≡ (h + n) % 9600
    → n < 9600
    → samples_from (set buf w x) h (n + 1) ≡ samples_from buf h n ++ (x ∷ [])
samples_from-more buf h n w x size e room =
    let one_more : n + 1 ≡ suc n = omega arith in
    rw (e, one_more)
      (ap₂ (λ s t. s ++ (t ∷ [])) (samples_from-set buf h n n x (omega arith) room)
        (get_or-set_self buf ((h + n) % 9600) x 0 (omega (arith, size))))

contents-put :
    (r : Ring) (x : ℕ) → IsValid r → r.count < 9600 → contents (put r x) ≡ contents r ++ (x ∷ [])
contents-put r x v room =
    samples_from-more r.samples r.read_at r.count r.write_at x v.size v.write_after room

skip-IsValid : (r : Ring) → IsValid r → 0 < r.count → IsValid (skip r)
skip-IsValid r v some_left = record {
  size = v.size;
  read_in = omega arith;
  write_after = omega (arith, v.write_after);
  fits = omega (arith, v.fits);
}

contents-skip :
    (r : Ring)
    → IsValid r
    → 0 < r.count
    → contents r ≡ get_or r.samples r.read_at 0 ∷ contents (skip r)
contents-skip r v some_left =
    let one_less : r.count ≡ suc (r.count - 1) = omega arith in
    ap (λ (n : ℕ). samples_from r.samples r.read_at n) one_less
    ∙ samples_from-head r.samples r.read_at (r.count - 1) v.read_in

-- A ring after samples were put behind those that it held.
pub record Wrote (r r' : Ring) (pcm : List ℕ) : Type 0 where
  pub valid : IsValid r'
  pub behind : contents r' ≡ contents r ++ take (9600 - r.count) pcm

-- A ring after its oldest samples were taken out.
pub record TookOut (r r' : Ring) (n : ℕ) (out : List ℕ) : Type 0 where
  pub valid : IsValid r'
  pub oldest : out ≡ take n (contents r)
  pub rest : contents r' ≡ drop n (contents r)

put-Wrote :
    (r r' : Ring) (x : ℕ) (pcm : List ℕ)
    → IsValid r
    → r.count < 9600
    → Wrote (put r x) r' pcm
    → Wrote r r' (x ∷ pcm)
put-Wrote r r' x pcm v room w =
    let one_less : 9600 - r.count ≡ suc (9600 - (r.count + 1)) = omega arith in
    record {
      valid = w.valid;
      behind =
          w.behind
          ∙ ap (λ t. t ++ take (9600 - (r.count + 1)) pcm) (contents-put r x v room)
          ∙ append_assoc (contents r) (x ∷ []) (take (9600 - (r.count + 1)) pcm)
          ∙ ap (λ (n : ℕ). contents r ++ take n (x ∷ pcm)) (sym one_less);
    }

nothing-Wrote :
    (r : Ring) (pcm : List ℕ) → IsValid r → take (9600 - r.count) pcm ≡ [] → Wrote r r pcm
nothing-Wrote r pcm v e = record { valid = v; behind = rw e (sym (append-nil (contents r))) }

write_loop-Wrote :
    (r : Ring) (pcm : List ℕ) (before : ℕ)
    → IsValid r
    → let (r', written) = write_loop r pcm before in
      Wrote r r' pcm × (written ≡ before + min (9600 - r.count) (length pcm))
unfolding write_loop
write_loop-Wrote r [] before v = (nothing-Wrote r [] v (take-nil (9600 - r.count)), omega arith)
write_loop-Wrote r (x ∷ pcm) before v = elim (Bool-cases (ltb r.count 9600)) [
  | inl room ↦
      let low : r.count < 9600 = ltb→lt r.count 9600 room in
      let rest = write_loop-Wrote (put r x) pcm (before + 1) (put-IsValid r x v low) in
      rw room (put-Wrote r _ x pcm v low rest.0, omega (arith, rest.1))
  | inr full ↦
      let none_left : 9600 - r.count ≡ 0 = ground arith in
      rw full (nothing-Wrote r (x ∷ pcm) v (rw none_left refl), omega arith)
]

-- Writing to a valid ring puts the samples behind those that it holds, as many as there is space
-- for, and tells how many they were.
pub write_refines :
    (r : Ring) (pcm : List ℕ) (samples : ℕ)
    → IsValid r
    → let (r', written) = write r pcm samples in
      Wrote r r' (take samples pcm) × (written ≡ min (space r) (length (take samples pcm)))
unfolding write space
write_refines r pcm samples v =
    let w = write_loop-Wrote r (take samples pcm) 0 v in (w.0, omega (arith, w.1))

-- Reading from a valid ring takes the oldest samples out, in their order, as many as are asked for
-- and there.
pub read_refines : (r : Ring) (n : ℕ) → IsValid r → let (r', out) = read r n in TookOut r r' n out
unfolding read
read_refines r zero v = record { valid = v; oldest = refl; rest = refl }
read_refines r (suc n) v = elim (Bool-cases (ltb 0 r.count)) [
  | inl some_left ↦
      let pos : 0 < r.count = ltb→lt 0 r.count some_left in
      let rest = read_refines (skip r) n (skip-IsValid r v pos) in
      rw some_left (record {
        valid = rest.valid;
        oldest =
            rw (contents-skip r v pos) (ap (λ t. get_or r.samples r.read_at 0 ∷ t) rest.oldest);
        rest = rw (contents-skip r v pos) rest.rest;
      })
  | inr empty ↦
      let none_left : r.count ≡ 0 = ground arith in
      rw empty (record { valid = v; oldest = rw none_left refl; rest = rw none_left refl })
]

-- The ring after initialization is valid and holds nothing.
pub init-IsValid : IsValid init × (contents init ≡ [])
unfolding init zero_samples
init-IsValid = (
  record {
    size = length-replicate {A = ℕ} 9600 0;
    read_in = omega arith;
    write_after = refl;
    fits = omega arith;
  },
  refl,
)
