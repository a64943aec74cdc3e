-- ===== src/Rx/Slot.antt =====
-- `deserialize_slot_indication` of aerial_bridge/src/msg_translator.cpp.
pub mod Safety
pub mod Meaning
use ocudu_aerial_fapi_connec.Common.{
  ℕ, zero, suc, ◌+◌, ◌-◌, ◌*◌, ◌%◌, ◌^◌, ltb, leb, ◌&&◌, if◌then◌else◌, List, Option, none, some,
  ◌>>=◌, length,
}
use ocudu_aerial_fapi_connec.Ocudu.{Ocudu}
use ocudu_aerial_fapi_connec.Wire.{load16}

-- `10u * (1u << numerology)` on 32-bit unsigned integers.
abbrev pub slots_per_frame : ℕ → ℕ
slots_per_frame numerology = 10 * (2 ^ numerology % 2 ^ 32) % 2 ^ 32

-- `while (slot >= nof_slots_per_frame && effective_numerology < 4)`, with at most `rounds` rounds.
pub infer_numerology : ℕ → ℕ → ℕ → ℕ
infer_numerology zero slot effective = effective
infer_numerology (suc rounds) slot effective =
    let next = infer_numerology rounds slot (effective + 1) in
    if leb (slots_per_frame effective) slot && ltb effective 4 then next else effective

pub record SlotIndication (Slot : Type 0) : Type 0 where
  pub slot : Slot
  pub time_point : ℕ

-- The outer `none` is a fault, the inner one the result `false`. `now` is the system clock.
pub deserialize_slot_indication :
    {Slot Ta : Type 0} → Ocudu Slot Ta → List ℕ → ℕ → ℕ → Option (Option (SlotIndication Slot))
deserialize_slot_indication o buf numerology now =
    if ltb (length buf) (2 + 6 + 4) then some none else do
      sfn ← load16 buf 8
      slot ← load16 buf 10
      let effective = infer_numerology (4 - numerology) slot numerology
      if ltb 1023 sfn
          then some none
          else if leb (slots_per_frame effective) slot
          then some none
          else some (some (record { slot = o.slot_point effective sfn slot; time_point = now }))
