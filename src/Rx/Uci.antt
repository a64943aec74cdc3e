-- ===== src/Rx/Uci.antt =====
-- `dispatch_uci_indication` of aerial_bridge/src/msg_translator.cpp.
pub mod Section
pub mod Bits
pub mod Entries
pub mod Sections
pub mod Cases
pub mod RoundTrip
pub mod Pdu
pub mod Safety
pub mod Total
use ocudu_aerial_fapi_connec.Common.{
  ℕ, zero, suc, ◌+◌, ◌==◌, ltb, ◌||◌, if◌then◌else◌, List, Option, none, some, ◌>>=◌, length,
}
use ocudu_aerial_fapi_connec.Ocudu.{Ocudu}
use ocudu_aerial_fapi_connec.Rx.World.{World, scf_hdr_size}
use ocudu_aerial_fapi_connec.Wire.{load16}
use Pdu.{uci_pusch_case, uci_pucch01_case, uci_pucch234_case}

module _ {Slot Ta : Type 0} where
  -- The `switch` on the PDU type. An unknown type is passed over.
  pub uci_pdu :
      Ocudu Slot Ta → ℕ → List ℕ → ℕ → ℕ → ℕ → Slot → World Slot Ta → Option (World Slot Ta)
  uci_pdu o numerology buf pdu_type q p_end sp w =
      if pdu_type == 0
      then uci_pusch_case o numerology buf q p_end sp w
      else if pdu_type == 1
      then uci_pucch01_case o numerology buf q p_end sp w
      else if pdu_type == 2
      then uci_pucch234_case o numerology buf q p_end sp w
      else some w

  pub uci_loop : Ocudu Slot Ta → ℕ → ℕ → List ℕ → ℕ → Slot → World Slot Ta → Option (World Slot Ta)
  uci_loop o numerology zero buf p sp w = some w
  uci_loop o numerology (suc rounds) buf p sp w = if ltb (length buf) (p + 4) then some w else do
    pdu_type ← load16 buf p
    pdu_size ← load16 buf (p + 2)
    if ltb pdu_size 4 || ltb (length buf) (p + pdu_size) then some w else do
      w' ← uci_pdu o numerology buf pdu_type (p + 4) (p + pdu_size) sp w
      uci_loop o numerology rounds buf (p + pdu_size) sp w'

  pub dispatch_uci_indication : Ocudu Slot Ta → List ℕ → ℕ → World Slot Ta → Option (World Slot Ta)
  dispatch_uci_indication o buf numerology w =
      if ltb (length buf) (scf_hdr_size + 6) then some w else do
        sfn ← load16 buf scf_hdr_size
        slot ← load16 buf (scf_hdr_size + 2)
        num_ucis ← load16 buf (scf_hdr_size + 4)
        uci_loop o numerology num_ucis buf (scf_hdr_size + 6) (o.slot_point numerology sfn slot) w
