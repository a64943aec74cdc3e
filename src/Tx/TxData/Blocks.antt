-- ===== src/Tx/TxData/Blocks.antt =====
-- The data buffer of a TX_DATA.request as aerial_bridge/src/msg_translator.cpp fills it, against an
-- independent reader.
use ocudu_aerial_fapi_connec.Common.{
  ℕ, zero, suc, ◌+◌, ◌*◌, ◌/◌, ◌%◌, ◌^◌, ◌≤◌, ◌<◌, ◌≡◌, refl, ap, ◌∙◌, ltb, leb, ltb→lt, le→leb,
  Bool-cases, inl, inr, if◌then◌else◌, List, [], ◌∷◌, ◌++◌, append-nil, append_assoc, All, Option,
  none, some, ◌>>=◌, length, take, drop, arith,
}
use ocudu_aerial_fapi_connec.Metrics.{Metrics}
use ocudu_aerial_fapi_connec.ScfMsgId
use ocudu_aerial_fapi_connec.Tx.Frame.{concat, message, write_headers, slot_to_sfn_slot}
use ocudu_aerial_fapi_connec.Tx.TxData.{
  TxPdu, TxDataRequest, write_at, padding, tx_pdu_bytes, TxState, copy_block, tx_step, tx_loop,
  TxResult, count_tx, serialize_tx_data_request,
}
use ocudu_aerial_fapi_connec.Tx.TxData.Copy.{
  take_whole, agree_below, agree_less, length-write_at, take-write_at, block-write_at,
}
use ocudu_aerial_fapi_connec.Wire.{le16, load8, load16, load32, two_bytes, four_bytes}

-- What L1 does with `n` PDU entries: each names a length and an offset in the data buffer.
pub read_tx : ℕ → List ℕ → List ℕ → Option (List TxPdu)
read_tx zero entries buf = some []
read_tx (suc n) entries buf = do
  size ← load32 entries 0
  index ← load16 entries 4
  at ← load32 entries 14
  rest ← read_tx n (drop 18 entries) buf
  if leb (at + size) (length buf)
      then some (record { pdu_index = index; block = take size (drop at buf) } ∷ rest)
      else none

-- A length rounded up to a multiple of 32.
abbrev pub aligned : ℕ → ℕ
aligned n = (n + 31) / 32 * 32

-- The bytes of the data buffer that a list of blocks takes.
abbrev pub span : List TxPdu → ℕ
span [] = 0
span (p ∷ ps) = aligned (length p.block) + span ps

padding-aligned : (n : ℕ) → aligned n < 4294967296 → (n + padding n) % 2 ^ 32 ≡ aligned n
padding-aligned n h = omega arith

-- The entries that the loop writes from a given offset on.
tx_layout : List TxPdu → ℕ → List ℕ
tx_layout [] at = []
tx_layout (p ∷ ps) at = tx_pdu_bytes p at ++ tx_layout ps (at + aligned (length p.block))

abbrev pub IndexFits : TxPdu → Type 0
IndexFits p = p.pdu_index < 65536

-- What the loop leaves behind when it starts with the buffer `buf` and all blocks fit.
record Copied (ps : List TxPdu) (st : TxState) (buf : List ℕ) (st' : TxState) : Type 0 where
  buf' : List ℕ
  is_data : st'.data_buf ≡ some buf'
  same_length : length buf' ≡ length buf
  kept : take st.data_offset buf' ≡ take st.data_offset buf
  offset_is : st'.data_offset ≡ st.data_offset + span ps
  payload_is : st'.payload ≡ st.payload ++ tx_layout ps st.data_offset
  blocks : read_tx (length ps) (tx_layout ps st.data_offset) buf' ≡ some ps

word_bytes : (v : ℕ) → v < 4294967296 → v % 2 ^ 32 ≡ v
word_bytes v h = omega arith

read_tx_step :
    (p : TxPdu) (n at : ℕ) (entries buf : List ℕ)
    → p.pdu_index < 65536
    → at < 4294967296
    → length p.block < 4294967296
    → read_tx (suc n) (tx_pdu_bytes p at ++ entries) buf ≡ (
        read_tx n entries buf >>= λ (rest : List TxPdu).
        if leb (at + length p.block) (length buf)
        then some
            (record { pdu_index = p.pdu_index; block = take (length p.block) (drop at buf) } ∷ rest)
        else none)
unfolding read_tx tx_pdu_bytes load16 load32
read_tx_step p n at entries buf hi ha hb = rw (
  word_bytes (length p.block) hb,
  four_bytes (length p.block) hb,
  two_bytes p.pdu_index hi,
  four_bytes at ha,
)

module _ (p : TxPdu) (ps : List TxPdu) (st : TxState) (buf : List ℕ) where
  abbrev at : ℕ
  at = st.data_offset

  abbrev mid : TxState
  mid = record {
    payload = st.payload ++ tx_pdu_bytes p at;
    data_buf = some (write_at at p.block buf);
    data_offset = at + aligned (length p.block);
  }

  tx_step-mid :
      st.data_buf ≡ some buf
      → length buf < 4294967296
      → at + aligned (length p.block) ≤ length buf
      → tx_step p st ≡ mid
  unfolding tx_step copy_block
  tx_step-mid e small fits = rw (
    e,
    word_bytes (length p.block) (omega arith),
    le→leb (at + length p.block) (length buf) (omega arith),
    take_whole p.block,
    padding-aligned (length p.block) (omega arith),
  )

  step-Copied :
      (st' : TxState)
      → p.pdu_index < 65536
      → length buf < 4294967296
      → at + length p.block ≤ length buf
      → Copied ps mid (write_at at p.block buf) st'
      → Copied (p ∷ ps) st buf st'
  unfolding tx_layout
  step-Copied st' hi small fits c = record {
    buf' = c.buf';
    is_data = c.is_data;
    same_length = c.same_length ∙ length-write_at at p.block buf fits;
    kept =
        agree_less at mid.data_offset c.buf' (write_at at p.block buf) (omega arith) c.kept
        ∙ take-write_at at p.block buf fits;
    offset_is = omega (arith, c.offset_is);
    payload_is =
        c.payload_is ∙ append_assoc st.payload (tx_pdu_bytes p at) (tx_layout ps mid.data_offset);
    blocks =
        read_tx_step p (length ps) at (tx_layout ps mid.data_offset) c.buf' hi (omega arith)
          (omega arith)
        ∙ rw (c.blocks, le→leb (at + length p.block) (length c.buf') inside, read_back);
  }
    where
      inside : at + length p.block ≤ length c.buf'
      inside = omega (arith, c.same_length, length-write_at at p.block buf fits)

      read_back : take (length p.block) (drop at c.buf') ≡ p.block
      read_back =
          agree_below at (length p.block) mid.data_offset c.buf' (write_at at p.block buf)
            (omega arith) c.kept
          ∙ block-write_at at p.block buf fits

tx_loop-Copied :
    (ps : List TxPdu) (st : TxState) (buf : List ℕ)
    → st.data_buf ≡ some buf
    → length buf < 4294967296
    → All IndexFits ps
    → st.data_offset + span ps ≤ length buf
    → Copied ps st buf (tx_loop ps st)
unfolding tx_loop tx_layout read_tx
tx_loop-Copied [] st buf e small hs room = record {
  buf' = buf;
  is_data = e;
  same_length = refl;
  kept = refl;
  offset_is = omega arith;
  payload_is = rw append-nil;
  blocks = refl;
}
tx_loop-Copied (p ∷ ps) st buf e small (h, hs) room =
    let fits : st.data_offset + length p.block ≤ length buf = omega arith in
    let same = length-write_at st.data_offset p.block buf fits in
    rw (tx_step-mid p ps st buf e small (omega arith)) (
      step-Copied p ps st buf (tx_loop ps (mid p ps st buf)) h small fits (
        tx_loop-Copied ps (mid p ps st buf) (write_at st.data_offset p.block buf) refl (omega arith)
          hs (omega arith)))

-- The result of a call: bytes for the message buffer and for the data buffer, in which L1 finds
-- every block of the request.
pub record Delivers (msg : TxDataRequest) (buf : List ℕ) (cell_id : ℕ) (r : TxResult) : Type 0 where
  pub bytes : List ℕ
  pub is_written : r.written ≡ some bytes
  pub buf' : List ℕ
  pub is_data : r.data_buf ≡ some buf'
  pub same_length : length buf' ≡ length buf
  pub written_is : r.data_bytes_written ≡ span msg.pdus
  pub handle_id : load8 bytes 1 ≡ some cell_id
  pub message_id : load16 bytes 2 ≡ some ScfMsgId.tx_data_request
  pub num_pdus : load16 bytes 12 ≡ some (length msg.pdus)
  pub blocks : read_tx (length msg.pdus) (drop 14 bytes) buf' ≡ some msg.pdus

-- For a request of fewer than 65536 PDUs with 16-bit indices, a message buffer of 14 bytes or more
-- and a data buffer below 4 GiB with room for the blocks, each rounded up to 32 bytes, L1 reads
-- back exactly the request's PDUs: every entry of the message names the place of its block in the
-- data buffer, no block overwrites another one, and `data_bytes_written` is the rounded total.
pub serialize_tx_data_request-Delivers :
    (msg : TxDataRequest) (buf : List ℕ) (msg_buf_len cell_id : ℕ) (m : Metrics)
    → 14 ≤ msg_buf_len
    → cell_id < 256
    → length msg.pdus < 65536
    → length buf < 4294967296
    → All IndexFits msg.pdus
    → span msg.pdus ≤ length buf
    → Delivers msg buf cell_id (serialize_tx_data_request msg msg_buf_len (some buf) cell_id m)
unfolding serialize_tx_data_request message slot_to_sfn_slot write_headers load8 load16
serialize_tx_data_request-Delivers msg buf msg_buf_len cell_id m room cell few small hs total =
    elim (Bool-cases (ltb msg_buf_len 14)) [
      | inl e ↦ absurd (omega (arith, ltb→lt msg_buf_len 14 e))
      | inr e ↦ rw e delivers
    ]
  where
    init : TxState
    init = record { payload = []; data_buf = some buf; data_offset = 0 }

    st : TxState
    st = tx_loop msg.pdus init

    c : Copied msg.pdus init buf st
    c = tx_loop-Copied msg.pdus init buf refl small hs (omega arith)

    delivers : Delivers msg buf cell_id (record {
      written = some (
          message cell_id ScfMsgId.tx_data_request
            (concat (slot_to_sfn_slot msg.slot ∷ le16 (length msg.pdus) ∷ st.payload ∷ [])));
      data_buf = st.data_buf;
      data_bytes_written = st.data_offset;
      metrics = count_tx st.data_offset m;
    })
    delivers = record {
      bytes = _;
      is_written = refl;
      buf' = c.buf';
      is_data = c.is_data;
      same_length = c.same_length;
      written_is = omega (arith, c.offset_is);
      handle_id = ap some (omega arith);
      message_id = refl;
      num_pdus = ap some (omega arith);
      blocks = rw (append-nil st.payload, c.payload_is) c.blocks;
    }
