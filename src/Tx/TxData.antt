-- ===== src/Tx/TxData.antt =====
-- `serialize_tx_data_request` of aerial_bridge/src/msg_translator.cpp.
pub mod Blocks
pub mod Bounds
pub mod Copy
use ocudu_aerial_fapi_connec.Common.{
  ℕ, ◌+◌, ◌-◌, ◌%◌, ◌^◌, leb, ltb, if◌then◌else◌, List, [], ◌∷◌, ◌++◌, Option, none, some, length,
  take, drop,
}
use ocudu_aerial_fapi_connec.Metrics.{Metrics, add64}
use ocudu_aerial_fapi_connec.ScfMsgId
use ocudu_aerial_fapi_connec.Tx.Frame.{SfnSlot, concat, message, slot_to_sfn_slot}
use ocudu_aerial_fapi_connec.Wire.{le16, le32}

-- A PDU and its transport block.
pub record TxPdu : Type 0 where
  pub pdu_index : ℕ
  pub block : List ℕ

pub record TxDataRequest : Type 0 where
  pub slot : SfnSlot
  pub pdus : List TxPdu

-- `memcpy(data_buf + at, bytes, bytes.size())`, for bytes that fit.
abbrev pub write_at : ℕ → List ℕ → List ℕ → List ℕ
write_at at bytes buf = take at buf ++ (bytes ++ drop (at + length bytes) buf)

-- `(~tb_len + 1) & 31` on a `uint32_t`.
abbrev pub padding : ℕ → ℕ
padding tb_len = (2 ^ 32 - 1 - tb_len + 1) % 2 ^ 32 % 32

-- `uint32_t tb_len = tb_data.size()`.
abbrev pub tb_len : TxPdu → ℕ
tb_len p = length p.block % 2 ^ 32

-- `pdu_len`, `pdu_index`, `num_tlv`, and one TLV: tag, length, offset in the data buffer.
unfoldable pub tx_pdu_bytes : TxPdu → ℕ → List ℕ
tx_pdu_bytes p data_offset =
    concat (
      le32 (tb_len p)
      ∷ le16 p.pdu_index
      ∷ le32 1
      ∷ le16 2
      ∷ le16 (tb_len p)
      ∷ le32 data_offset
      ∷ [])

-- The loop's variables. `data_buf` is `none` for a null pointer; its length is `data_buf_len`.
pub record TxState : Type 0 where
  pub payload : List ℕ
  pub data_buf : Option (List ℕ)
  pub data_offset : ℕ

-- Where a block of `n` bytes fits at the current offset: the copy and the new offset, which grows by
-- a `uint32_t` sum.
unfoldable pub copy_block : List ℕ → ℕ → Option (List ℕ) → ℕ → Option (List ℕ) × ℕ
copy_block block n none data_offset = (none, data_offset)
copy_block block n (some buf) data_offset =
    if leb (data_offset + n) (length buf)
    then (some (write_at data_offset (take n block) buf), data_offset + (n + padding n) % 2 ^ 32)
    else (some buf, data_offset)

unfoldable pub tx_step : TxPdu → TxState → TxState
tx_step p st =
    let copied = copy_block p.block (tb_len p) st.data_buf st.data_offset in
    record {
      payload = st.payload ++ tx_pdu_bytes p st.data_offset;
      data_buf = copied.0;
      data_offset = copied.1;
    }

unfoldable pub tx_loop : List TxPdu → TxState → TxState
tx_loop [] st = st
tx_loop (p ∷ ps) st = tx_loop ps (tx_step p st)

-- The bytes written to `msg_buf`, or `none` for the result -1; the data buffer;
-- `data_bytes_written`; the metrics.
pub record TxResult : Type 0 where
  pub written : Option (List ℕ)
  pub data_buf : Option (List ℕ)
  pub data_bytes_written : ℕ
  pub metrics : Metrics

abbrev pub count_tx : ℕ → Metrics → Metrics
count_tx bytes m = record m {
  tx_data_reqs = add64 m.tx_data_reqs 1;
  tx_data_bytes = add64 m.tx_data_bytes bytes;
}

-- As in `DlTti`, `msg_buf_len` is compared with the size of the fixed part only.
unfoldable pub serialize_tx_data_request :
    TxDataRequest → ℕ → Option (List ℕ) → ℕ → Metrics → TxResult
serialize_tx_data_request msg msg_buf_len data_buf cell_id m =
    let st = tx_loop msg.pdus (record { payload = []; data_buf = data_buf; data_offset = 0 }) in
    let body = concat (slot_to_sfn_slot msg.slot ∷ le16 (length msg.pdus) ∷ st.payload ∷ []) in
    if ltb msg_buf_len (2 + 6 + 6)
    then record { written = none; data_buf = data_buf; data_bytes_written = 0; metrics = m }
    else record {
      written = some (message cell_id ScfMsgId.tx_data_request body);
      data_buf = st.data_buf;
      data_bytes_written = st.data_offset;
      metrics = count_tx st.data_offset m;
    }
