-- ===== src/Rx/Slot/Safety.antt =====
-- The slot parser of aerial_bridge/src/msg_translator.cpp reads inside its buffer.
use ocudu_aerial_fapi_connec.Common.{
  ℕ, ◌+◌, ltb, ltb→ge, Bool-cases, inl, inr, List, none, length, ◌≢◌, arith,
}
use ocudu_aerial_fapi_connec.Ocudu.{Ocudu}
use ocudu_aerial_fapi_connec.Rx.Slot.{deserialize_slot_indication}
use ocudu_aerial_fapi_connec.Wire.{load16_inside}

pub deserialize_slot_indication-ne-none :
    {Slot Ta : Type 0} (o : Ocudu Slot Ta) (buf : List ℕ) (numerology now : ℕ)
    → deserialize_slot_indication o buf numerology now ≢ none
unfolding deserialize_slot_indication
deserialize_slot_indication-ne-none o buf numerology now =
    elim (Bool-cases (ltb (length buf) (2 + 6 + 4))) [
      | inl out ↦ rw out (λ e. cc)
      | inr fits ↦
          let inside = ltb→ge _ _ fits in
          let (sfn, e0) = load16_inside buf 8 (omega arith) in
          let (slot, e1) = load16_inside buf 10 (omega arith) in rw (fits, e0, e1) (ground arith)
    ]
