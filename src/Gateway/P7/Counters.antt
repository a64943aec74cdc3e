-- ===== src/Gateway/P7/Counters.antt =====
-- What the requests of `aerial_p7_gateway` leave alone: the counters of the received indications,
-- which the serializers of aerial_bridge/src/msg_translator.cpp share with the dispatchers.
use ocudu_aerial_fapi_connec.Common.{
  ℕ, ◌≤◌, Bool, ltb, le→leb, if-elim, List, length, Option, none, Ensures, Ensures->>=, arith,
}
use ocudu_aerial_fapi_connec.Gateway.P7.{
  Allocation, failed, granted, P7, P7Request, dl_tti, ul_tti, ul_dci, tx_data, max_msg_len, finish,
  send, send_dl_tti_request, send_ul_tti_request, send_ul_dci_request, send_tx_data_request,
}
use ocudu_aerial_fapi_connec.Gateway.P7.Delivery.{Sendable}
use ocudu_aerial_fapi_connec.Gateway.P7.Sizes.{
  message_bytes, Writes, serialize_dl_tti_request-Writes, serialize_ul_tti_request-Writes,
  serialize_ul_dci_request-Writes, serialize_tx_data_request-Writes,
}
use ocudu_aerial_fapi_connec.Metrics.{Metrics}
use ocudu_aerial_fapi_connec.Metrics.Received.{SameRx, SameRx-refl}
use ocudu_aerial_fapi_connec.Tx.UlTti.Counters.{serialize_ul_tti_request-SameRx}
use ocudu_aerial_fapi_connec.Tx.DlTti.{DlResult, serialize_dl_tti_request}
use ocudu_aerial_fapi_connec.Tx.TxData.{TxDataRequest, TxResult, serialize_tx_data_request}

serialize_tx_data_request-SameRx :
    (msg : TxDataRequest) (n cell : ℕ) (dat : Option (List ℕ)) (m : Metrics)
    → SameRx m (serialize_tx_data_request msg n dat cell m).metrics
unfolding serialize_tx_data_request
serialize_tx_data_request-SameRx msg n cell dat m =
    if-elim (λ (r : TxResult). SameRx m r.metrics) (ltb n 14) _ _ (λ e. SameRx-refl m)
      (λ e. ground arith)

abbrev pub KeepsRx : P7 → P7 → Type 0
KeepsRx st st' = SameRx st.globals.metrics st'.globals.metrics

finish-KeepsRx :
    (id n : ℕ) (written dat : Option (List ℕ)) (data_len : ℕ) (st st' : P7)
    → Writes n written
    → n ≤ max_msg_len
    → KeepsRx st st'
    → Ensures (KeepsRx st) (finish id written dat data_len st')
unfolding finish
finish-KeepsRx id n written dat data_len st st' (bytes, e, l) fits h =
    rw (e, le→leb (length bytes) max_msg_len (omega arith)) h

-- A request changes no counter of a received indication.
pub send-KeepsRx :
    (f : Bool) (r : P7Request) (b : Allocation) (st : P7)
    → Sendable f (r, b)
    → Ensures (KeepsRx st) (send f r b st)
unfolding send send_dl_tti_request send_ul_tti_request send_ul_dci_request send_tx_data_request
send-KeepsRx f (dl_tti msg) failed st h = SameRx-refl st.globals.metrics
send-KeepsRx f (dl_tti msg) (granted dat) st (h, fits) =
    let n = message_bytes f (dl_tti msg) in
    Ensures->>= (λ (r : DlResult). Writes n r.written) (KeepsRx st)
      (serialize_dl_tti_request f msg max_msg_len 0 st.pdsch_dbg_count) _
      (serialize_dl_tti_request-Writes f msg 0 st.pdsch_dbg_count h)
      (λ r w.
        finish-KeepsRx _ n r.written none 0 st (record st { pdsch_dbg_count = r.pdsch_dbg_count }) w
          fits (SameRx-refl st.globals.metrics))
send-KeepsRx f (ul_tti msg) failed st h = SameRx-refl st.globals.metrics
send-KeepsRx f (ul_tti msg) (granted dat) st (h, fits) =
    finish-KeepsRx _ _ _ none 0 st _ (serialize_ul_tti_request-Writes f msg 0 st.globals) fits
      (serialize_ul_tti_request-SameRx msg max_msg_len 0 st.globals)
send-KeepsRx f (ul_dci msg) failed st h = SameRx-refl st.globals.metrics
send-KeepsRx f (ul_dci msg) (granted dat) st (h, fits) =
    finish-KeepsRx _ _ _ none 0 st st (serialize_ul_dci_request-Writes f msg 0) fits
      (SameRx-refl st.globals.metrics)
send-KeepsRx f (tx_data msg) failed st h = SameRx-refl st.globals.metrics
send-KeepsRx f (tx_data msg) (granted dat) st (h, fits) =
    finish-KeepsRx _ _ _ _ _ st _ (serialize_tx_data_request-Writes f msg dat 0 st.globals.metrics)
      fits (serialize_tx_data_request-SameRx msg max_msg_len 0 dat st.globals.metrics)
