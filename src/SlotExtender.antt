-- ===== src/SlotExtender.antt =====
-- `slot_point_extender_adaptor` of ocudu_patches/slot_point_extender_adaptor.cpp and its header: slot
-- indications on their way to a notifier that counts hyper frames.
pub mod Drift
pub mod Order
use ocudu_aerial_fapi_connec.Common.{
  ℕ, zero, suc, ◌+◌, ◌<◌, ◌≡◌, List, [], ◌∷◌, ◌++◌, Option, none, some, ℤ, pos, negsuc,
}

-- What OCUDU's `slot_point` and `slot_point_extended` offer.
pub record SlotOps (Raw Extended : Type 0) : Type 0 where
  pub without_hyper_sfn : Extended → Raw
  pub extended : Raw → Extended
  -- `a - b` of slot points: from -N/2 to N/2 - 1 when there are N of them.
  pub difference : Raw → Raw → ℤ
  -- Some slots later.
  pub plus : Raw → ℕ → Raw
  pub add : Extended → ℕ → Extended

-- The arithmetic of slots, which goes round after the last one.
pub record Laws {Raw Extended : Type 0} (ops : SlotOps Raw Extended) : Type 0 where
  pub plus_zero : (r : Raw) → ops.plus r 0 ≡ r
  pub plus_plus : (r : Raw) (m n : ℕ) → ops.plus (ops.plus r m) n ≡ ops.plus r (m + n)
  pub forward : (a b : Raw) (n : ℕ) → ops.difference a b ≡ pos n → ops.plus b n ≡ a
  pub backward : (a b : Raw) (n : ℕ) → ops.difference a b ≡ negsuc n → ops.plus a (n + 1) ≡ b
  pub raw_extended : (r : Raw) → ops.without_hyper_sfn (ops.extended r) ≡ r
  pub raw_add :
      (e : Extended) (n : ℕ)
      → ops.without_hyper_sfn (ops.add e n) ≡ ops.plus (ops.without_hyper_sfn e) n

-- A SLOT.indication; the time point is passed on as it is.
pub record SlotIndication (Extended : Type 0) : Type 0 where
  pub slot : Extended
  pub time_point : ℕ

-- The members, and what the notifier has been told.
pub record Extender (Raw Extended : Type 0) : Type 0 where
  pub last_slot : Option Raw
  pub last_extended_slot : Option Extended
  pub notified : List (SlotIndication Extended)

abbrev pub new_extender : {Raw Extended : Type 0} → Extender Raw Extended
new_extender = record { last_slot = none; last_extended_slot = none; notified = [] }

-- How far the extended slot moves: `delta`, or 1 if that is not positive.
pub advance : ℤ → ℕ
advance (pos zero) = 1
advance (pos (suc n)) = n + 1
advance (negsuc n) = 1

module _ {Raw Extended : Type 0} (ops : SlotOps Raw Extended) where
  pub next_extended : Raw → Option Raw → Option Extended → Extended
  next_extended raw (some last) (some e) = ops.add e (advance (ops.difference raw last))
  next_extended raw (some last) none = ops.extended raw
  next_extended raw none e = ops.extended raw

  pub on_slot_indication : SlotIndication Extended → Extender Raw Extended → Extender Raw Extended
  on_slot_indication msg x =
      let raw_slot = ops.without_hyper_sfn msg.slot in
      let e = next_extended raw_slot x.last_slot x.last_extended_slot in
      record {
        last_slot = some raw_slot;
        last_extended_slot = some e;
        notified = x.notified ++ (record { slot = e; time_point = msg.time_point } ∷ []);
      }

  pub on_all : List (SlotIndication Extended) → Extender Raw Extended → Extender Raw Extended
  on_all [] x = x
  on_all (msg ∷ rest) x = on_all rest (on_slot_indication msg x)
