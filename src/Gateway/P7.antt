-- ===== src/Gateway/P7.antt =====
-- `aerial_p7_gateway` of aerial_bridge/src/aerial_fapi_adaptor.cpp: the four requests of a slot.
pub mod Counters
pub mod Delivery
pub mod Overrun
pub mod Sizes
use ocudu_aerial_fapi_connec.Common.{
  ℕ, ◌+◌, Bool, leb, if◌then◌else◌, length, List, [], ◌∷◌, ◌++◌, Option, none, some, ◌>>=◌,
}
use ocudu_aerial_fapi_connec.ScfMsgId
use ocudu_aerial_fapi_connec.Tx.DlTti.{DlTtiRequest, serialize_dl_tti_request}
use ocudu_aerial_fapi_connec.Tx.TxData.{TxDataRequest, serialize_tx_data_request}
use ocudu_aerial_fapi_connec.Tx.UlDci.{UlDciRequest, serialize_ul_dci_request}
use ocudu_aerial_fapi_connec.Tx.UlTti.{UlTtiRequest, Globals, serialize_ul_tti_request}

-- What `tx_allocate` of nvIPC answers: a negative result, or a message buffer of `msg_len` bytes
-- with a data buffer of `data_len` bytes, which is `none` for a null pointer.
pub data Allocation : Type 0 where
  failed : Allocation
  granted : Option (List ℕ) → Allocation

-- The `nv_ipc_msg_t` that is sent; `msg_len` is the number of bytes of `msg`.
pub record IpcOut : Type 0 where
  pub msg_id : ℕ
  pub msg : List ℕ
  pub data_buf : Option (List ℕ)
  pub data_len : ℕ

-- The globals that the serializers change, the static counters, and what was taken from the
-- transport's pool and given back to it: messages sent, and ids of messages released unsent.
pub record P7 : Type 0 where
  pub globals : Globals
  pub pdsch_dbg_count : ℕ
  pub tx_data_count : ℕ
  pub allocated : ℕ
  pub sent : List IpcOut
  pub released : List ℕ

-- The `msg_len` that every handler asks for.
abbrev pub max_msg_len : ℕ
max_msg_len = 15000

-- The end of every handler: release on the result -1, send otherwise. The result is `none` where the
-- serializer has written past the end of the granted buffer; up to there the number of bytes is
-- the `int` that it returns.
pub finish : ℕ → Option (List ℕ) → Option (List ℕ) → ℕ → P7 → Option P7
finish msg_id none dat data_len st =
    some (record st { allocated = st.allocated + 1; released = st.released ++ (msg_id ∷ []) })
finish msg_id (some bytes) dat data_len st =
    if leb (length bytes) max_msg_len
    then some (record st {
      allocated = st.allocated + 1;
      sent =
          st.sent
          ++ (record { msg_id = msg_id; msg = bytes; data_buf = dat; data_len = data_len } ∷ []);
    })
    else none

pub send_dl_tti_request : Bool → DlTtiRequest → Allocation → P7 → Option P7
send_dl_tti_request force_table0 msg failed st = some st
send_dl_tti_request force_table0 msg (granted dat) st = do
  r ← serialize_dl_tti_request force_table0 msg max_msg_len 0 st.pdsch_dbg_count
  finish ScfMsgId.dl_tti_request r.written none 0
      (record st { pdsch_dbg_count = r.pdsch_dbg_count })

pub send_ul_tti_request : UlTtiRequest → Allocation → P7 → Option P7
send_ul_tti_request msg failed st = some st
send_ul_tti_request msg (granted dat) st =
    let r = serialize_ul_tti_request msg max_msg_len 0 st.globals in
    finish ScfMsgId.ul_tti_request r.written none 0 (record st { globals = r.globals })

pub send_ul_dci_request : UlDciRequest → Allocation → P7 → Option P7
send_ul_dci_request msg failed st = some st
send_ul_dci_request msg (granted dat) st =
    finish ScfMsgId.ul_dci_request (serialize_ul_dci_request msg max_msg_len 0) none 0 st

-- The counter of the debug dump also counts calls whose allocation fails.
pub send_tx_data_request : TxDataRequest → Allocation → P7 → Option P7
send_tx_data_request msg failed st = some (record st { tx_data_count = st.tx_data_count + 1 })
send_tx_data_request msg (granted dat) st =
    let r = serialize_tx_data_request msg max_msg_len dat 0 st.globals.metrics in
    finish ScfMsgId.tx_data_request r.written r.data_buf r.data_bytes_written (record st {
      tx_data_count = st.tx_data_count + 1;
      globals = record (st.globals) { metrics = r.metrics };
    })

pub data P7Request : Type 0 where
  dl_tti : DlTtiRequest → P7Request
  ul_tti : UlTtiRequest → P7Request
  ul_dci : UlDciRequest → P7Request
  tx_data : TxDataRequest → P7Request

pub send : Bool → P7Request → Allocation → P7 → Option P7
send force_table0 (dl_tti msg) a st = send_dl_tti_request force_table0 msg a st
send force_table0 (ul_tti msg) a st = send_ul_tti_request msg a st
send force_table0 (ul_dci msg) a st = send_ul_dci_request msg a st
send force_table0 (tx_data msg) a st = send_tx_data_request msg a st

-- A sequence of calls, each with the answer of the transport.
pub send_all : Bool → List (P7Request × Allocation) → P7 → Option P7
send_all force_table0 [] st = some st
send_all force_table0 ((msg, a) ∷ rest) st = do
  st' ← send force_table0 msg a st
  send_all force_table0 rest st'
