-- ===== src/Tx/UlDci.antt =====
-- `serialize_ul_dci_request` of aerial_bridge/src/msg_translator.cpp.
pub mod Framed
use ocudu_aerial_fapi_connec.Common.{
  ℕ, ◌+◌, ltb, if◌then◌else◌, List, [], ◌∷◌, ◌++◌, Option, none, some, length,
}
use ocudu_aerial_fapi_connec.ScfMsgId
use ocudu_aerial_fapi_connec.Tx.Frame.{SfnSlot, concat, message, slot_to_sfn_slot}
use ocudu_aerial_fapi_connec.Tx.Pdcch.{Pdcch, serialize_pdcch_pdu}
use ocudu_aerial_fapi_connec.Wire.{le8}

pub record UlDciRequest : Type 0 where
  pub slot : SfnSlot
  pub pdus : List Pdcch

-- The PDU type that the loop stores again is the one that `serialize_pdcch_pdu` stored.
pub ul_dci_loop : List Pdcch → List ℕ → List ℕ
ul_dci_loop [] payload = payload
ul_dci_loop (p ∷ ps) payload = ul_dci_loop ps (payload ++ serialize_pdcch_pdu p)

-- As in `DlTti`, `buf_len` is compared with the size of the fixed part only.
unfoldable pub serialize_ul_dci_request : UlDciRequest → ℕ → ℕ → Option (List ℕ)
serialize_ul_dci_request msg buf_len cell_id =
    if ltb buf_len (2 + 6 + 8)
    then none
    else some (
        message cell_id ScfMsgId.ul_dci_request (
          concat
            (slot_to_sfn_slot msg.slot ∷ le8 (length msg.pdus) ∷ ul_dci_loop msg.pdus [] ∷ [])))
