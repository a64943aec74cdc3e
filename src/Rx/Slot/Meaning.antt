-- ===== src/Rx/Slot/Meaning.antt =====
-- What the slot parser of aerial_bridge/src/msg_translator.cpp accepts, and which numerology it
-- gives the slot.
use ocudu_aerial_fapi_connec.Common.{
  ℕ, zero, suc, ◌-◌, ◌*◌, ◌^◌, ◌≤◌, ◌<◌, ◌≡◌, ◌⊎◌, ltb, ◌&&◌, if◌then◌else◌, List, ◌++◌,
  append_assoc, none, some, length, length-append, arith,
}
use ocudu_aerial_fapi_connec.Ocudu.{Ocudu}
use ocudu_aerial_fapi_connec.Rx.Slot.{
  slots_per_frame, infer_numerology, deserialize_slot_indication,
}
use ocudu_aerial_fapi_connec.Wire.{le16, load16, load16_at}

-- The least numerology from `numerology` to 4 whose frame has the slot, or 4 if none has.
pub record IsLeast (numerology slot effective : ℕ) : Type 0 where
  pub from : numerology ≤ effective
  pub to : effective ≤ 4
  pub enough : slot < 160 → slot < 10 * 2 ^ effective
  pub least : (effective ≡ numerology) ⊎ (10 * 2 ^ (effective - 1) ≤ slot)

infer_numerology-IsLeast :
    (numerology slot : ℕ)
    → numerology ≤ 4
    → IsLeast numerology slot (infer_numerology (4 - numerology) slot numerology)
unfolding infer_numerology
infer_numerology-IsLeast zero slot h = ground arith
infer_numerology-IsLeast (suc zero) slot h = ground arith
infer_numerology-IsLeast (suc (suc zero)) slot h = ground arith
infer_numerology-IsLeast (suc (suc (suc zero))) slot h = ground arith
infer_numerology-IsLeast (suc (suc (suc (suc zero)))) slot h = ground arith
infer_numerology-IsLeast (suc (suc (suc (suc (suc n))))) slot h = absurd (omega arith)

frame_bounds : (e : ℕ) → e ≤ 4 → (slots_per_frame e ≡ 10 * 2 ^ e) × (10 * 2 ^ e ≤ 160)
frame_bounds zero h = omega arith
frame_bounds (suc zero) h = omega arith
frame_bounds (suc (suc zero)) h = omega arith
frame_bounds (suc (suc (suc zero))) h = omega arith
frame_bounds (suc (suc (suc (suc zero)))) h = omega arith
frame_bounds (suc (suc (suc (suc (suc e))))) h = absurd (omega arith)

module _ {Slot Ta : Type 0} (o : Ocudu Slot Ta) (hdr rest : List ℕ) (sfn slot numerology now : ℕ)
    (header : length hdr ≡ 8) (sfn_fits : sfn < 65536) (slot_fits : slot < 65536)
    (valid : numerology ≤ 4) where
  abbrev message : List ℕ
  message = hdr ++ (le16 sfn ++ (le16 slot ++ rest))

  length-message : 12 ≤ length message
  length-message = omega (arith, length-append hdr (le16 sfn ++ (le16 slot ++ rest)))

  slot_read : load16 message 10 ≡ some slot
  slot_read = rw (← append_assoc hdr (le16 sfn) (le16 slot ++ rest)) (
      load16_at (hdr ++ le16 sfn) rest slot 10 (omega (arith, length-append hdr (le16 sfn)))
        slot_fits)

  -- With a configured numerology of at most 4, a message whose fields are the 16-bit numbers `sfn`
  -- and `slot` is accepted exactly if `sfn` is at most 1023 and `slot` at most 159; the slot then
  -- goes by the least numerology, from the configured one to 4, whose frame has that slot.
  pub deserialize_slot_indication-IsLeast :
      (e : ℕ) × IsLeast numerology slot e
      × (deserialize_slot_indication o message numerology now
          ≡ some (
              if ltb sfn 1024 && ltb slot 160
              then some (record { slot = o.slot_point e sfn slot; time_point = now })
              else none))
  unfolding deserialize_slot_indication
  deserialize_slot_indication-IsLeast =
      let e : ℕ = infer_numerology (4 - numerology) slot numerology in
      let l = infer_numerology-IsLeast numerology slot valid in
      (
        e,
        l,
        rw (slot_read, load16_at hdr (le16 slot ++ rest) sfn 8 (omega arith) sfn_fits)
            (ground (arith, frame_bounds e, length-message)),
      )
