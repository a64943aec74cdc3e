-- ===== src/Tx/DlTti.antt =====
-- `serialize_dl_tti_request` of aerial_bridge/src/msg_translator.cpp.
pub mod Framed
use ocudu_aerial_fapi_connec.Common.{
  ℕ, ◌+◌, ◌%◌, ◌^◌, ltb, Bool, if◌then◌else◌, List, [], ◌∷◌, ◌++◌, Option, none, some, ◌>>=◌,
}
use ocudu_aerial_fapi_connec.ScfMsgId
use ocudu_aerial_fapi_connec.Tx.Frame.{SfnSlot, concat, message, slot_to_sfn_slot}
use ocudu_aerial_fapi_connec.Tx.Pdcch.{Ssb, Pdcch, serialize_ssb_pdu, serialize_pdcch_pdu}
use ocudu_aerial_fapi_connec.Tx.Pdsch.{Pdsch, serialize_pdsch_pdu, pdsch_debug}
use ocudu_aerial_fapi_connec.Wire.{le8}

-- CSI-RS and PRS PDUs are not serialized.
pub data DlPdu : Type 0 where
  ssb : Ssb → DlPdu
  pdcch : Pdcch → DlPdu
  pdsch : Pdsch → DlPdu
  csi_rs_or_prs : DlPdu

pub record DlTtiRequest : Type 0 where
  pub slot : SfnSlot
  pub pdus : List DlPdu

-- The variables of the loop: the bytes from `pdu_offset` back to the first PDU, `req.num_pdus`
-- (`uint8_t`), `next_pdsch_pdu_index` (`uint16_t`) and the static `pdsch_dbg_count`.
pub record DlState : Type 0 where
  pub payload : List ℕ
  pub num_pdus : ℕ
  pub next_pdsch_pdu_index : ℕ
  pub pdsch_dbg_count : ℕ

abbrev pub append_pdu : List ℕ → DlState → DlState
append_pdu bytes st = record st {
  payload = st.payload ++ bytes;
  num_pdus = (st.num_pdus + 1) % 256;
}

unfoldable pub dl_step : Bool → DlPdu → DlState → Option DlState
dl_step force_table0 (ssb p) st = some (append_pdu (serialize_ssb_pdu p) st)
dl_step force_table0 (pdcch p) st = some (append_pdu (serialize_pdcch_pdu p) st)
dl_step force_table0 (pdsch p) st = do
  dbg ← pdsch_debug st.pdsch_dbg_count p.cws
  let st' : DlState = record st {
    next_pdsch_pdu_index = (st.next_pdsch_pdu_index + 1) % 2 ^ 16;
    pdsch_dbg_count = dbg;
  }
  some (append_pdu (serialize_pdsch_pdu force_table0 p st.next_pdsch_pdu_index) st')
dl_step force_table0 csi_rs_or_prs st = some st

unfoldable pub dl_loop : Bool → List DlPdu → DlState → Option DlState
dl_loop force_table0 [] st = some st
dl_loop force_table0 (p ∷ ps) st = do st' ← dl_step force_table0 p st; dl_loop force_table0 ps st'

-- What a serializer returns: the bytes written, or `none` for the result -1, and its static counter.
pub record DlResult : Type 0 where
  pub written : Option (List ℕ)
  pub pdsch_dbg_count : ℕ

-- `buf_len` is compared with the size of the fixed part only; PDUs that lie behind it are among the
-- bytes written, and it is for the caller to have the memory. The `int` result is their number.
unfoldable pub serialize_dl_tti_request : Bool → DlTtiRequest → ℕ → ℕ → ℕ → Option DlResult
serialize_dl_tti_request force_table0 msg buf_len cell_id dbg =
    if ltb buf_len (2 + 6 + 6) then some (record { written = none; pdsch_dbg_count = dbg }) else do
      st ←
          dl_loop force_table0 msg.pdus
            (record { payload = []; num_pdus = 0; next_pdsch_pdu_index = 0; pdsch_dbg_count = dbg })
      some (record {
        written = some (
            message cell_id ScfMsgId.dl_tti_request
              (concat (slot_to_sfn_slot msg.slot ∷ le8 st.num_pdus ∷ le8 0 ∷ st.payload ∷ [])));
        pdsch_dbg_count = st.pdsch_dbg_count;
      })
