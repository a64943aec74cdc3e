-- ===== src/Runs/Slots.antt =====
-- Runs of ocudu_patches/slot_point_extender_adaptor.cpp.
use ocudu_aerial_fapi_connec.Common.{
  ℕ, ◌+◌, ◌-◌, ◌≡◌, refl, leb, if◌then◌else◌, leb→le, leb→gt, Bool-cases, inl, inr, List, [], ◌∷◌,
  pos, negsuc, ℤ, arith,
}
use ocudu_aerial_fapi_connec.SlotExtender.{SlotOps, Laws, SlotIndication, new_extender, on_all}
use ocudu_aerial_fapi_connec.SlotExtender.Drift.{raws, shifted, on_all-shifted, on_all-raws}
use ocudu_aerial_fapi_connec.SlotExtender.Order.{AllLater, on_all-AllLater}

abbrev minus : ℕ → ℕ → ℤ
minus a b = if leb b a then pos (a - b) else negsuc (b - a - 1)

-- Slots that are counted on and on, without frames.
abbrev counted_slots : SlotOps ℕ ℕ
counted_slots = record {
  without_hyper_sfn = λ e. e;
  extended = λ r. r;
  difference = minus;
  plus = λ r n. r + n;
  add = λ e n. e + n;
}

pos-injective : (a b : ℕ) → pos a ≡ pos b → a ≡ b
pos-injective a b h = cc

negsuc-injective : (a b : ℕ) → negsuc a ≡ negsuc b → a ≡ b
negsuc-injective a b h = cc

minus-forward : (a b n : ℕ) → minus a b ≡ pos n → b + n ≡ a
minus-forward a b n h = elim (Bool-cases (leb b a)) [
  | inl later ↦ omega (arith, leb→le b a later, pos-injective (a - b) n (ground (arith, h)))
  | inr earlier ↦ absurd (ground (arith, h))
]

minus-backward : (a b n : ℕ) → minus a b ≡ negsuc n → a + (n + 1) ≡ b
minus-backward a b n h = elim (Bool-cases (leb b a)) [
  | inl later ↦ absurd (ground (arith, h))
  | inr earlier ↦
      omega (arith, leb→gt b a earlier, negsuc-injective (b - a - 1) n (ground (arith, h)))
]

counted_slots-Laws : Laws counted_slots
counted_slots-Laws = record {
  plus_zero = λ r. omega arith;
  plus_plus = λ r m n. omega arith;
  forward = minus-forward;
  backward = minus-backward;
  raw_extended = λ r. refl;
  raw_add = λ e n. refl;
}

abbrev at_slot : ℕ → ℕ → SlotIndication ℕ
at_slot slot now = record { slot = slot; time_point = now }

-- The third slot is repeated, and the last one lies behind.
abbrev slots : List (SlotIndication ℕ)
slots = at_slot 5 100 ∷ at_slot 6 101 ∷ at_slot 8 102 ∷ at_slot 8 103 ∷ at_slot 7 104 ∷ []

on_all-shifted_example :
    raws counted_slots (on_all counted_slots slots new_extender).notified
    ≡ shifted counted_slots slots
on_all-shifted_example = on_all-shifted counted_slots counted_slots-Laws slots

on_all-raws_example :
    raws counted_slots
      (on_all counted_slots
        (at_slot 5 100 ∷ at_slot 6 101 ∷ at_slot 8 102 ∷ [])
        new_extender).notified
    ≡ raws counted_slots (at_slot 5 100 ∷ at_slot 6 101 ∷ at_slot 8 102 ∷ [])
on_all-raws_example =
    on_all-raws counted_slots counted_slots-Laws (at_slot 5 100)
      (at_slot 6 101 ∷ at_slot 8 102 ∷ []) ((0, refl), ((1, refl), tt))

on_all-AllLater_example : AllLater counted_slots (on_all counted_slots slots new_extender).notified
on_all-AllLater_example = on_all-AllLater counted_slots slots
