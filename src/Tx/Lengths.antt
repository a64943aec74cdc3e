-- ===== src/Tx/Lengths.antt =====
-- What the serializers of aerial_bridge/src/msg_translator.cpp do with the length of their buffer.
use ocudu_aerial_fapi_connec.Common.{
  ℕ, ◌≤◌, ◌<◌, ◌≡◌, refl, Bool, ge→ltb, List, [], ◌∷◌, some, Ensures, length, arith,
}
use ocudu_aerial_fapi_connec.Tx.DlTti.{ssb, DlResult, dl_step, dl_loop, serialize_dl_tti_request}
use ocudu_aerial_fapi_connec.Tx.Frame.{SfnSlot, message, pdu, write_headers, slot_to_sfn_slot}
use ocudu_aerial_fapi_connec.Tx.Pdcch.{Ssb, serialize_ssb_pdu}

abbrev pub Exceeds : ℕ → DlResult → Type 0
Exceeds n r = (bytes : List ℕ) × (r.written ≡ some bytes) × (n < length bytes)

-- A request with one SSB PDU is written in full to any buffer of 14 to 29 bytes, past its end.
pub serialize_dl_tti_request-overrun :
    (force_table0 : Bool) (p : Ssb) (sp : SfnSlot) (n cell_id dbg : ℕ)
    → 14 ≤ n
    → n < 30
    → Ensures (Exceeds n) (
        serialize_dl_tti_request force_table0
          (record { slot = sp; pdus = ssb p ∷ [] })
          n
          cell_id
          dbg)
unfolding serialize_dl_tti_request dl_loop dl_step serialize_ssb_pdu pdu message slot_to_sfn_slot
    write_headers
serialize_dl_tti_request-overrun force_table0 p sp n cell_id dbg lo hi =
    rw (ge→ltb n 14 lo) (_, refl, omega arith)
