-- ===== src/Gateway/P7/Sizes.antt =====
-- How many bytes the requests of `aerial_p7_gateway` in aerial_bridge/src/aerial_fapi_adaptor.cpp take
-- in the message buffer.
use ocudu_aerial_fapi_connec.Common.{
  ℕ, ◌+◌, ◌*◌, ◌≡◌, refl, ap, Bool, List, [], ◌∷◌, append-nil, All, Option, some, Ensures,
  Ensures->>=, length, length-append, arith,
}
use ocudu_aerial_fapi_connec.Gateway.P7.{P7Request, dl_tti, ul_tti, ul_dci, tx_data}
use ocudu_aerial_fapi_connec.Metrics.{Metrics}
use ocudu_aerial_fapi_connec.Tx.DlTti.{
  DlTtiRequest, DlState, DlResult, dl_loop, serialize_dl_tti_request,
}
use ocudu_aerial_fapi_connec.Tx.DlTti.Framed.{HasCodeword, Grown, dl_pdus, dl_loop-Grown}
use ocudu_aerial_fapi_connec.Tx.Frame.{concat, message, write_headers, slot_to_sfn_slot}
use ocudu_aerial_fapi_connec.Tx.TxData.{
  TxPdu, TxDataRequest, TxState, tx_pdu_bytes, tx_step, tx_loop, serialize_tx_data_request,
}
use ocudu_aerial_fapi_connec.Tx.UlDci.{UlDciRequest, ul_dci_loop, serialize_ul_dci_request}
use ocudu_aerial_fapi_connec.Tx.UlDci.Framed.{ul_dci_pdus, ul_dci_loop_lem}
use ocudu_aerial_fapi_connec.Tx.UlTti.{
  UlTtiRequest, Globals, ul_loop, ul_init, serialize_ul_tti_request,
}
use ocudu_aerial_fapi_connec.Tx.UlTti.Framed.{ul_pdus, ul_loop-Grown}

-- The length of the message: the fixed part and the PDUs. An entry of TX_DATA.request has 18 bytes.
abbrev pub message_bytes : Bool → P7Request → ℕ
message_bytes force_table0 (dl_tti msg) = 14 + length (concat (dl_pdus force_table0 0 msg.pdus))
message_bytes force_table0 (ul_tti msg) = 17 + length (concat (ul_pdus msg))
message_bytes force_table0 (ul_dci msg) = 13 + length (concat (ul_dci_pdus msg))
message_bytes force_table0 (tx_data msg) = 14 + 18 * length msg.pdus

-- A serializer has written `n` bytes.
abbrev pub Writes : ℕ → Option (List ℕ) → Type 0
Writes n written = (bytes : List ℕ) × (written ≡ some bytes) × (length bytes ≡ n)

pub serialize_dl_tti_request-Writes :
    (force_table0 : Bool) (msg : DlTtiRequest) (cell_id dbg : ℕ)
    → All HasCodeword msg.pdus
    → Ensures
        (λ (r : DlResult). Writes (message_bytes force_table0 (dl_tti msg)) r.written)
        (serialize_dl_tti_request force_table0 msg 15000 cell_id dbg)
unfolding serialize_dl_tti_request message slot_to_sfn_slot write_headers
serialize_dl_tti_request-Writes force_table0 msg cell_id dbg h =
    Ensures->>= (Grown (dl_pdus force_table0 0 msg.pdus) init) _
      (dl_loop force_table0 msg.pdus init) _ (dl_loop-Grown force_table0 msg.pdus init h)
      (λ st g. (_, refl, omega (arith, ap length (append-nil st.payload), ap length g.0)))
  where
    init : DlState
    init = record { payload = []; num_pdus = 0; next_pdsch_pdu_index = 0; pdsch_dbg_count = dbg }

pub serialize_ul_tti_request-Writes :
    (force_table0 : Bool) (msg : UlTtiRequest) (cell_id : ℕ) (g : Globals)
    → Writes
        (message_bytes force_table0 (ul_tti msg))
        (serialize_ul_tti_request msg 15000 cell_id g).written
unfolding serialize_ul_tti_request message slot_to_sfn_slot write_headers ul_init
serialize_ul_tti_request-Writes force_table0 msg cell_id g =
    let st = ul_loop msg.pdus (ul_init g) in
    (
      _,
      refl,
      omega (
        arith,
        ap length (append-nil st.payload),
        ap length (ul_loop-Grown msg.pdus (ul_init g)).payload_is,
      ),
    )

pub serialize_ul_dci_request-Writes :
    (force_table0 : Bool) (msg : UlDciRequest) (cell_id : ℕ)
    → Writes (message_bytes force_table0 (ul_dci msg)) (serialize_ul_dci_request msg 15000 cell_id)
unfolding serialize_ul_dci_request message slot_to_sfn_slot write_headers
serialize_ul_dci_request-Writes force_table0 msg cell_id = (
  _,
  refl,
  omega (
    arith,
    ap length (append-nil (ul_dci_loop msg.pdus [])),
    ap length (ul_dci_loop_lem msg.pdus []),
  ),
)

length-tx_loop :
    (ps : List TxPdu) (st : TxState)
    → length (tx_loop ps st).payload ≡ length st.payload + 18 * length ps
unfolding tx_loop tx_step tx_pdu_bytes
length-tx_loop [] st = omega arith
length-tx_loop (p ∷ ps) st = omega (
  arith,
  length-tx_loop ps (tx_step p st),
  length-append st.payload (tx_pdu_bytes p st.data_offset),
)

pub serialize_tx_data_request-Writes :
    (force_table0 : Bool) (msg : TxDataRequest) (dat : Option (List ℕ)) (cell_id : ℕ) (m : Metrics)
    → Writes
        (message_bytes force_table0 (tx_data msg))
        (serialize_tx_data_request msg 15000 dat cell_id m).written
unfolding serialize_tx_data_request message slot_to_sfn_slot write_headers
serialize_tx_data_request-Writes force_table0 msg dat cell_id m = (
  _,
  refl,
  omega
      (arith, ap length (append-nil (tx_loop msg.pdus init).payload), length-tx_loop msg.pdus init),
)
  where
    init : TxState
    init = record { payload = []; data_buf = dat; data_offset = 0 }
