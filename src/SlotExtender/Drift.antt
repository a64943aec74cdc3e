-- ===== src/SlotExtender/Drift.antt =====
-- The slots that `slot_point_extender_adaptor` of ocudu_patches/slot_point_extender_adaptor.cpp passes
-- on, against the slots that it receives.
use ocudu_aerial_fapi_connec.Common.{
  ℕ, zero, suc, ◌+◌, ◌≡◌, refl, ap, sym, ◌∙◌, List, [], ◌∷◌, ◌++◌, append-nil, append_assoc, map,
  some, ℤ, pos, negsuc, arith,
}
use ocudu_aerial_fapi_connec.SlotExtender.{
  SlotOps, Laws, SlotIndication, Extender, new_extender, advance, next_extended, on_slot_indication,
  on_all,
}

-- How far the slots passed on lie ahead of those received, after one more of these.
pub drift : ℤ → ℕ → ℕ
drift (pos zero) k = k + 1
drift (pos (suc n)) k = k
drift (negsuc n) k = k + (n + 2)

module _ {Raw Extended : Type 0} (ops : SlotOps Raw Extended) where
  -- Raw slots with their time points.
  abbrev pub raws : List (SlotIndication Extended) → List (Raw × ℕ)
  raws = map (λ (m : SlotIndication Extended). (ops.without_hyper_sfn m.slot, m.time_point))

  -- What the notifier is told, when the last slot received was `last` and the one passed on lay `k`
  -- slots ahead of it.
  pub shifted_from : Raw → ℕ → List (SlotIndication Extended) → List (Raw × ℕ)
  shifted_from last k [] = []
  shifted_from last k (m ∷ rest) =
      let raw = ops.without_hyper_sfn m.slot in
      let k' = drift (ops.difference raw last) k in
      (ops.plus raw k', m.time_point) ∷ shifted_from raw k' rest

  pub shifted : List (SlotIndication Extended) → List (Raw × ℕ)
  shifted [] = []
  shifted (m ∷ rest) =
      (ops.without_hyper_sfn m.slot, m.time_point)
      ∷ shifted_from (ops.without_hyper_sfn m.slot) 0 rest

  -- Each slot lies ahead of the one before it, by less than half of all slots.
  abbrev pub AllForward : Raw → List (SlotIndication Extended) → Type 0
  AllForward last [] = Unit {0}
  AllForward last (m ∷ rest) =
      ((n : ℕ) × (ops.difference (ops.without_hyper_sfn m.slot) last ≡ pos (suc n)))
      × AllForward (ops.without_hyper_sfn m.slot) rest

  module _ (laws : Laws ops) where
    plus_plus_eq : (r : Raw) (a b c : ℕ) → a + b ≡ c → ops.plus (ops.plus r a) b ≡ ops.plus r c
    plus_plus_eq r a b c e = laws.plus_plus r a b ∙ ap (ops.plus r) e

    -- What the extended slot does to the raw slot it stands for.
    advance-drift :
        (raw last : Raw) (e : Extended) (k : ℕ) (d : ℤ)
        → ops.difference raw last ≡ d
        → ops.without_hyper_sfn e ≡ ops.plus last k
        → ops.without_hyper_sfn (ops.add e (advance d)) ≡ ops.plus raw (drift d k)
    unfolding advance drift
    advance-drift raw last e k (pos zero) h v =
        laws.raw_add e 1
        ∙ ap (λ r. ops.plus r 1) v
        ∙ plus_plus_eq last k 1 (k + 1) (omega arith)
        ∙ sym (plus_plus_eq last 0 (k + 1) (k + 1) (omega arith))
        ∙ ap (λ r. ops.plus r (k + 1)) (laws.forward raw last 0 h)
    advance-drift raw last e k (pos (suc n)) h v =
        laws.raw_add e (n + 1)
        ∙ ap (λ r. ops.plus r (n + 1)) v
        ∙ plus_plus_eq last k (n + 1) (k + (n + 1)) refl
        ∙ sym (plus_plus_eq last (suc n) k (k + (n + 1)) (omega arith))
        ∙ ap (λ r. ops.plus r k) (laws.forward raw last (suc n) h)
    advance-drift raw last e k (negsuc n) h v =
        laws.raw_add e 1
        ∙ ap (λ r. ops.plus r 1) v
        ∙ plus_plus_eq last k 1 (k + 1) (omega arith)
        ∙ sym (ap (λ r. ops.plus r (k + 1)) (laws.backward raw last n h))
        ∙ plus_plus_eq raw (n + 1) (k + 1) (k + (n + 2)) (omega arith)

    abbrev running : Raw → Extended → List (SlotIndication Extended) → Extender Raw Extended
    running last e seen = record {
      last_slot = some last;
      last_extended_slot = some e;
      notified = seen;
    }

    raws-snoc :
        (xs : List (SlotIndication Extended)) (m : SlotIndication Extended)
        → raws (xs ++ (m ∷ [])) ≡ raws xs ++ ((ops.without_hyper_sfn m.slot, m.time_point) ∷ [])
    raws-snoc [] m = refl
    raws-snoc (x ∷ xs) m = rw (raws-snoc xs m)

    on_all-shifted_from :
        (msgs : List (SlotIndication Extended)) (last : Raw) (e : Extended) (k : ℕ)
        (seen : List (SlotIndication Extended))
        → ops.without_hyper_sfn e ≡ ops.plus last k
        → raws (on_all ops msgs (running last e seen)).notified
          ≡ raws seen ++ shifted_from last k msgs
    unfolding on_all on_slot_indication next_extended shifted_from
    on_all-shifted_from [] last e k seen v = sym (append-nil (raws seen))
    on_all-shifted_from (m ∷ rest) last e k seen v =
        let raw = ops.without_hyper_sfn m.slot in
        let d = ops.difference raw last in
        let e' = ops.add e (advance d) in
        let v' = advance-drift raw last e k d refl v in
        on_all-shifted_from rest raw e' (drift d k) _ v'
        ∙ ap (λ xs. xs ++ shifted_from raw (drift d k) rest)
            (raws-snoc seen (record { slot = e'; time_point = m.time_point }))
        ∙ append_assoc (raws seen) ((ops.without_hyper_sfn e', m.time_point) ∷ [])
            (shifted_from raw (drift d k) rest)
        ∙ ap (λ (r : Raw). raws seen ++ ((r, m.time_point) ∷ shifted_from raw (drift d k) rest)) v'

    -- The slots passed on are, as raw slots, those received, shifted by a drift: no drift at first, and
    -- none as long as slots move forward; a slot that is repeated or lies `n` slots back adds `n + 1`
    -- to it for good. Time points are passed on as they are.
    pub on_all-shifted :
        (msgs : List (SlotIndication Extended))
        → raws (on_all ops msgs new_extender).notified ≡ shifted msgs
    unfolding on_all on_slot_indication next_extended shifted
    on_all-shifted [] = refl
    on_all-shifted (m ∷ rest) =
        let raw = ops.without_hyper_sfn m.slot in
        on_all-shifted_from rest raw (ops.extended raw) 0 _
          (laws.raw_extended raw ∙ sym (laws.plus_zero raw))
        ∙ ap (λ (r : Raw). (r, m.time_point) ∷ shifted_from raw 0 rest) (laws.raw_extended raw)

    shifted_from-raws :
        (msgs : List (SlotIndication Extended)) (last : Raw)
        → AllForward last msgs
        → shifted_from last 0 msgs ≡ raws msgs
    unfolding shifted_from drift
    shifted_from-raws [] last h = refl
    shifted_from-raws (m ∷ rest) last ((n, e), hs) = rw e (
        rw (shifted_from-raws rest (ops.without_hyper_sfn m.slot) hs)
          (rw (laws.plus_zero (ops.without_hyper_sfn m.slot)) refl))

    -- As long as each slot received lies ahead of the one before it, by less than half of all slots,
    -- what is passed on differs from what is received in the hyper frame only.
    pub on_all-raws :
        (m : SlotIndication Extended) (rest : List (SlotIndication Extended))
        → AllForward (ops.without_hyper_sfn m.slot) rest
        → raws (on_all ops (m ∷ rest) new_extender).notified ≡ raws (m ∷ rest)
    unfolding shifted
    on_all-raws m rest h =
        on_all-shifted (m ∷ rest)
        ∙ ap (λ xs. (ops.without_hyper_sfn m.slot, m.time_point) ∷ xs)
            (shifted_from-raws rest (ops.without_hyper_sfn m.slot) h)
