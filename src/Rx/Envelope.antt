-- ===== src/Rx/Envelope.antt =====
-- The start of RACH, UCI and SRS indications, as the layouts in aerial_bridge/src/msg_translator.cpp
-- state it: the headers, SFN, slot and a count of 8 bits.
use ocudu_aerial_fapi_connec.Common.{
  ℕ, ◌<◌, ◌≡◌, ap, ◌∙◌, ltb, false, ge→ltb, List, ◌++◌, append_assoc, some, length, length-append,
  arith,
}
use ocudu_aerial_fapi_connec.Rx.Indication.{Indication}
use ocudu_aerial_fapi_connec.Rx.World.{World}
use ocudu_aerial_fapi_connec.Wire.{
  le8, le16, load8, load16, one_byte, two_bytes, load8_behind, load16_behind,
}

abbrev pub counted : ℕ → ℕ → ℕ → List ℕ
counted sfn slot count = le16 sfn ++ (le16 slot ++ le8 count)

-- A message with a payload behind the count.
abbrev pub message_of : List ℕ → ℕ → ℕ → ℕ → List ℕ → List ℕ
message_of hdr sfn slot count payload = hdr ++ (counted sfn slot count ++ payload)

abbrev pub front : List ℕ → ℕ → ℕ → ℕ → List ℕ
front hdr sfn slot count = hdr ++ counted sfn slot count

module _ (hdr : List ℕ) (sfn slot count : ℕ) (payload : List ℕ) (header : length hdr ≡ 8) where
  pub message_of-front : front hdr sfn slot count ++ payload ≡ message_of hdr sfn slot count payload
  message_of-front = append_assoc hdr (counted sfn slot count) payload

  pub length-front : 13 ≡ length (front hdr sfn slot count)
  length-front = omega (arith, length-append hdr (counted sfn slot count))

  pub not_short : ltb (length (message_of hdr sfn slot count payload)) 13 ≡ false
  not_short = ge→ltb _ 13 (omega (arith, length-append hdr (counted sfn slot count ++ payload)))

  pub load-sfn : sfn < 65536 → load16 (message_of hdr sfn slot count payload) 8 ≡ some sfn
  unfolding load16
  load-sfn h =
      load16_behind hdr (counted sfn slot count ++ payload) 8 0 (omega arith)
      ∙ ap some (two_bytes sfn h)

  pub load-slot : slot < 65536 → load16 (message_of hdr sfn slot count payload) 10 ≡ some slot
  unfolding load16
  load-slot h =
      load16_behind hdr (counted sfn slot count ++ payload) 10 2 (omega arith)
      ∙ ap some (two_bytes slot h)

  pub load-count : count < 256 → load8 (message_of hdr sfn slot count payload) 12 ≡ some count
  unfolding load8
  load-count h =
      load8_behind hdr (counted sfn slot count ++ payload) 12 4 (omega arith)
      ∙ ap some (one_byte count h)

module _ {Slot Ta : Type 0} where
  -- The notifications made are the old ones and the given ones, in this order.
  abbrev pub Adds : List (Indication Slot Ta) → World Slot Ta → World Slot Ta → Type 0
  Adds is w w' = w'.notified ≡ w.notified ++ is

  pub Adds-trans :
      (is js : List (Indication Slot Ta)) (a b c : World Slot Ta)
      → Adds is a b
      → Adds js b c
      → Adds (is ++ js) a c
  Adds-trans is js a b c f g =
      g ∙ ap (λ (xs : List (Indication Slot Ta)). xs ++ js) f ∙ append_assoc a.notified is js
