-- ===== src/Tx/TxData/Bounds.antt =====
-- Bounds on the data buffer of a TX_DATA.request in aerial_bridge/src/msg_translator.cpp, for any
-- request and any buffer.
use ocudu_aerial_fapi_connec.Common.{
  ℕ, ◌+◌, ◌%◌, ◌^◌, ◌≤◌, ◌<◌, ◌≡◌, refl, ◌∙◌, ltb, leb, leb→le, Bool-cases, inl, inr, List, [], ◌∷◌,
  some, length, take, length-take, arith,
}
use ocudu_aerial_fapi_connec.Metrics.{Metrics}
use ocudu_aerial_fapi_connec.Tx.TxData.{
  TxPdu, TxDataRequest, write_at, padding, tb_len, TxState, TxResult, copy_block, tx_step, tx_loop,
  serialize_tx_data_request,
}
use ocudu_aerial_fapi_connec.Tx.TxData.Copy.{length-write_at}

-- The buffer keeps its length, and the offset is a multiple of 32 that passes the buffer's end by
-- less than one padding.
record Inside (size : ℕ) (st : TxState) : Type 0 where
  buf : List ℕ
  is_data : st.data_buf ≡ some buf
  same_length : length buf ≡ size
  below : st.data_offset ≤ size + 31
  whole : st.data_offset % 32 ≡ 0

padded_multiple : (o n : ℕ) → n < 4294967296 → o % 32 ≡ 0 → (o + (n + padding n) % 2 ^ 32) % 32 ≡ 0
padded_multiple o n h e = omega arith

padded_below : (n : ℕ) → n < 4294967296 → (n + padding n) % 2 ^ 32 ≤ n + 31
padded_below n h = omega arith

tx_step-Inside : (size : ℕ) (p : TxPdu) (st : TxState) → Inside size st → Inside size (tx_step p st)
unfolding tx_step copy_block
tx_step-Inside size p st v = elim (Bool-cases (leb (st.data_offset + tb_len p) (length v.buf))) [
  | inl fits ↦
      let inside = leb→le (st.data_offset + tb_len p) (length v.buf) fits in
      let taken : length (take (tb_len p) p.block) ≡ tb_len p =
        length-take (tb_len p) p.block (omega arith) in
      let small : tb_len p < 4294967296 = omega arith in
      rw (v.is_data, fits)
        (record {
          buf = write_at st.data_offset (take (tb_len p) p.block) v.buf;
          is_data = refl;
          same_length =
              length-write_at st.data_offset (take (tb_len p) p.block) v.buf (omega arith)
              ∙ v.same_length;
          below = omega (arith, padded_below (tb_len p) small, v.same_length);
          whole = padded_multiple st.data_offset (tb_len p) small v.whole;
        })
  | inr out ↦
      rw (v.is_data, out)
        (record {
          buf = v.buf;
          is_data = refl;
          same_length = v.same_length;
          below = v.below;
          whole = v.whole;
        })
]

tx_loop-Inside :
    (size : ℕ) (ps : List TxPdu) (st : TxState) → Inside size st → Inside size (tx_loop ps st)
unfolding tx_loop
tx_loop-Inside size [] st v = v
tx_loop-Inside size (p ∷ ps) st v =
    tx_loop-Inside size ps (tx_step p st) (tx_step-Inside size p st v)

-- What a call leaves of a data buffer of `size` bytes.
pub record Bounded (size : ℕ) (r : TxResult) : Type 0 where
  pub buf : List ℕ
  pub is_data : r.data_buf ≡ some buf
  pub same_length : length buf ≡ size
  pub below : r.data_bytes_written ≤ size + 31
  pub whole : r.data_bytes_written % 32 ≡ 0

-- For any request and any data buffer the copies stay inside the data buffer, and the number of
-- bytes that is reported is a multiple of 32 and exceeds the buffer's length by at most 31.
pub serialize_tx_data_request-Bounded :
    (msg : TxDataRequest) (buf : List ℕ) (msg_buf_len cell_id : ℕ) (m : Metrics)
    → Bounded (length buf) (serialize_tx_data_request msg msg_buf_len (some buf) cell_id m)
unfolding serialize_tx_data_request
serialize_tx_data_request-Bounded msg buf msg_buf_len cell_id m =
    elim (Bool-cases (ltb msg_buf_len 14)) [
      | inl refused ↦ rw refused (record {
        buf = buf;
        is_data = refl;
        same_length = refl;
        below = omega arith;
        whole = refl;
      })
      | inr accepted ↦ rw accepted (record {
        buf = v.buf;
        is_data = v.is_data;
        same_length = v.same_length;
        below = v.below;
        whole = v.whole;
      })
    ]
  where
    init : TxState
    init = record { payload = []; data_buf = some buf; data_offset = 0 }

    v : Inside (length buf) (tx_loop msg.pdus init)
    v = tx_loop-Inside (length buf) msg.pdus init (record {
      buf = buf;
      is_data = refl;
      same_length = refl;
      below = omega arith;
      whole = refl;
    })
