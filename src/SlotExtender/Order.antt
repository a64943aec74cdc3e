-- ===== src/SlotExtender/Order.antt =====
-- The order of the slots that `slot_point_extender_adaptor` of
-- ocudu_patches/slot_point_extender_adaptor.cpp passes on.
use ocudu_aerial_fapi_connec.Common.{
  ℕ, zero, suc, ◌<◌, ◌≡◌, refl, sym, subst, ◌∙◌, append-nil, List, [], ◌∷◌, ◌++◌, append_assoc,
  some, ℤ, pos, negsuc, arith,
}
use ocudu_aerial_fapi_connec.SlotExtender.{
  SlotOps, SlotIndication, new_extender, advance, next_extended, on_slot_indication, on_all,
}

module _ {Raw Extended : Type 0} (ops : SlotOps Raw Extended) where
  -- Some slots later, and not none.
  abbrev pub Later : Extended → Extended → Type 0
  Later e e' = (n : ℕ) × (0 < n) × (e' ≡ ops.add e n)

  -- Each slot comes later than the one before it, starting from the given one.
  pub Ascends : Extended → List (SlotIndication Extended) → Type 0
  Ascends e [] = Unit {0}
  Ascends e (m ∷ rest) = Later e m.slot × Ascends m.slot rest

  -- The same of a list without anything before it.
  pub AllLater : List (SlotIndication Extended) → Type 0
  AllLater [] = Unit {0}
  AllLater (m ∷ rest) = Ascends m.slot rest

  advance-pos : (d : ℤ) → 0 < advance d
  unfolding advance
  advance-pos (pos zero) = omega arith
  advance-pos (pos (suc n)) = omega arith
  advance-pos (negsuc n) = omega arith

  -- What the notifier is told from a state on, in which `e` was the last slot passed on.
  told_from : Raw → Extended → List (SlotIndication Extended) → List (SlotIndication Extended)
  told_from last e [] = []
  told_from last e (m ∷ rest) =
      let raw = ops.without_hyper_sfn m.slot in
      let e' = ops.add e (advance (ops.difference raw last)) in
      record { slot = e'; time_point = m.time_point } ∷ told_from raw e' rest

  told_from-Ascends :
      (msgs : List (SlotIndication Extended)) (last : Raw) (e : Extended)
      → Ascends e (told_from last e msgs)
  unfolding told_from Ascends
  told_from-Ascends [] last e = tt
  told_from-Ascends (m ∷ rest) last e =
      let d = ops.difference (ops.without_hyper_sfn m.slot) last in
      ((advance d, advance-pos d, refl), told_from-Ascends rest _ _)

  on_all-told_from :
      (msgs : List (SlotIndication Extended)) (last : Raw) (e : Extended)
      (seen : List (SlotIndication Extended))
      → (on_all ops msgs
          (record { last_slot = some last; last_extended_slot = some e; notified = seen })).notified
        ≡ seen ++ told_from last e msgs
  unfolding on_all on_slot_indication next_extended told_from
  on_all-told_from [] last e seen = sym (append-nil seen)
  on_all-told_from (m ∷ rest) last e seen =
      on_all-told_from rest (ops.without_hyper_sfn m.slot) _ _ ∙ append_assoc seen _ _

  -- Whatever slots are received, each slot passed on is one or more slots later than the slot passed on
  -- before it.
  pub on_all-AllLater :
      (msgs : List (SlotIndication Extended)) → AllLater (on_all ops msgs new_extender).notified
  unfolding on_all on_slot_indication next_extended AllLater
  on_all-AllLater [] = tt
  on_all-AllLater (m ∷ rest) =
      let raw = ops.without_hyper_sfn m.slot in
      subst AllLater (sym (on_all-told_from rest raw (ops.extended raw) _))
        (told_from-Ascends rest raw (ops.extended raw))
