-- ===== src/Jitter/Slots.antt =====
-- How many slots of src/audio/jitter.c are occupied, and what a write to one does to that number.
use libmezia.Prelude.{
  ℕ, zero, suc, ◌+◌, ◌≤◌, ◌<◌, ◌≡◌, List, [], ◌∷◌, true, arith, length, set, bool_int, ◌==◌, refl,
  if◌then◌else◌, replicate,
}
use libmezia.Jitter.{Slot, slot_at, zero_slot}

abbrev pub occupied_count : List Slot → ℕ
occupied_count [] = 0
occupied_count (s ∷ ss) = bool_int s.occupied + occupied_count ss

pub occupied_count-set :
    (ss : List Slot) (i : ℕ) (s : Slot)
    → i < length ss
    → occupied_count (set ss i s) + bool_int (slot_at ss i).occupied
      ≡ occupied_count ss + bool_int s.occupied
occupied_count-set [] i s h = absurd (omega arith)
occupied_count-set (x ∷ xs) zero s h = omega arith
occupied_count-set (x ∷ xs) (suc i) s h = omega (arith, occupied_count-set xs i s)

pub occupied_count-le : (ss : List Slot) → occupied_count ss ≤ length ss
occupied_count-le [] = omega arith
occupied_count-le (s ∷ ss) = ground (arith, occupied_count-le ss)

-- A slot that is occupied counts.
pub occupied_count-pos :
    (ss : List Slot) (i : ℕ) → (slot_at ss i).occupied ≡ true → 1 ≤ occupied_count ss
occupied_count-pos [] i h = ground arith
occupied_count-pos (x ∷ xs) zero h = ground arith
occupied_count-pos (x ∷ xs) (suc i) h = omega (arith, occupied_count-pos xs i h)

pub slot_at-set :
    (ss : List Slot) (i k : ℕ) (s : Slot)
    → i < length ss
    → slot_at (set ss i s) k ≡ (if k == i then s else slot_at ss k)
slot_at-set [] i k s h = absurd (omega arith)
slot_at-set (x ∷ xs) zero zero s h = ground arith
slot_at-set (x ∷ xs) zero (suc k) s h = ground arith
slot_at-set (x ∷ xs) (suc i) zero s h = ground arith
slot_at-set (x ∷ xs) (suc i) (suc k) s h = ground (arith, slot_at-set xs i k s)

pub slot_at-fresh : (n i : ℕ) → slot_at (replicate n zero_slot) i ≡ zero_slot
slot_at-fresh zero i = refl
slot_at-fresh (suc n) zero = refl
slot_at-fresh (suc n) (suc i) = slot_at-fresh n i
