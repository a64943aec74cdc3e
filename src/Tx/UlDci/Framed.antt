-- ===== src/Tx/UlDci/Framed.antt =====
-- The bytes of a UL_DCI.request as aerial_bridge/src/msg_translator.cpp writes them.
use ocudu_aerial_fapi_connec.Common.{
  ℕ, ◌≤◌, ◌<◌, ◌≡◌, refl, ◌∙◌, inl, inr, Bool-cases, ltb, ltb→lt, List, [], ◌∷◌, ◌++◌, map,
  append-nil, append_assoc, All, Ensures, length, arith,
}
use ocudu_aerial_fapi_connec.ScfMsgId
use ocudu_aerial_fapi_connec.Tx.Frame.{concat}
use ocudu_aerial_fapi_connec.Tx.Framing.{
  IsPdu, IsShort, IsFramed, InRange, pdu-IsPdu, message-IsFramed,
}
use ocudu_aerial_fapi_connec.Tx.Pdcch.{Pdcch, serialize_pdcch_pdu}
use ocudu_aerial_fapi_connec.Tx.UlDci.{UlDciRequest, ul_dci_loop, serialize_ul_dci_request}

abbrev pub ul_dci_pdus : UlDciRequest → List (List ℕ)
ul_dci_pdus msg = map serialize_pdcch_pdu msg.pdus

pub ul_dci_loop_lem :
    (ps : List Pdcch) (payload : List ℕ)
    → ul_dci_loop ps payload ≡ payload ++ concat (map serialize_pdcch_pdu ps)
unfolding ul_dci_loop
ul_dci_loop_lem [] payload = rw append-nil
ul_dci_loop_lem (p ∷ ps) payload =
    ul_dci_loop_lem ps (payload ++ serialize_pdcch_pdu p)
    ∙ append_assoc payload (serialize_pdcch_pdu p) (concat (map serialize_pdcch_pdu ps))

map-IsPdu :
    (ps : List Pdcch)
    → All IsShort (map serialize_pdcch_pdu ps)
    → All IsPdu (map serialize_pdcch_pdu ps)
unfolding serialize_pdcch_pdu
map-IsPdu [] h = h
map-IsPdu (p ∷ ps) (h, hs) = (pdu-IsPdu 0 _ h, map-IsPdu ps hs)

length-pdus : (ps : List Pdcch) → length (map serialize_pdcch_pdu ps) ≡ length ps
length-pdus [] = refl
length-pdus (p ∷ ps) = omega (arith, length-pdus ps)

abbrev pub WritesFrame : UlDciRequest → ℕ → List ℕ → Type 0
WritesFrame msg cell_id = IsFramed ScfMsgId.ul_dci_request cell_id msg.slot 13 (ul_dci_pdus msg)

-- A request for a cell, SFN and slot in the range of their fields, with fewer than 256 PDUs, each
-- below 65536 bytes, and a buffer length of 16 or more, is serialized into bytes from which a
-- reader that follows the size fields gets back exactly its PDCCH PDUs in order.
pub serialize_ul_dci_request-IsFramed :
    (msg : UlDciRequest) (buf_len cell_id : ℕ)
    → 16 ≤ buf_len
    → InRange ScfMsgId.ul_dci_request cell_id msg.slot
    → All IsShort (ul_dci_pdus msg)
    → length msg.pdus < 256
    → Ensures (WritesFrame msg cell_id) (serialize_ul_dci_request msg buf_len cell_id)
unfolding serialize_ul_dci_request
serialize_ul_dci_request-IsFramed msg buf_len cell_id room range short few =
    elim (Bool-cases (ltb buf_len 16)) [
      | inl e ↦ absurd (omega (arith, ltb→lt buf_len 16 e))
      | inr e ↦
          rw (e, append-nil (ul_dci_loop msg.pdus []), ul_dci_loop_lem msg.pdus [])
            (message-IsFramed ScfMsgId.ul_dci_request cell_id msg.slot [] (ul_dci_pdus msg)
              (length msg.pdus) range (omega (arith, length-pdus msg.pdus)) (omega arith)
              (map-IsPdu msg.pdus short))
    ]
