-- ===== src/Rx/RxData.antt =====
-- `dispatch_rx_data_indication` of aerial_bridge/src/msg_translator.cpp.
pub mod Safety
pub mod RoundTrip
use ocudu_aerial_fapi_connec.Common.{
  ℕ, zero, suc, ◌+◌, Bool, ◌&&◌, ltb, leb, if◌then◌else◌, List, Option, none, some, ◌>>=◌, length,
}
use ocudu_aerial_fapi_connec.Metrics.{add64}
use ocudu_aerial_fapi_connec.Ocudu.{Ocudu}
use ocudu_aerial_fapi_connec.Rx.Indication.{RxDataPdu, on_rx_data_indication}
use ocudu_aerial_fapi_connec.Rx.World.{World, notify, scf_hdr_size}
use ocudu_aerial_fapi_connec.Wire.{load8, load16, load32}

-- `data_buf` as the dispatcher sees it: whether the pointer is set, and `data_len`.
pub record DataBuf : Type 0 where
  pub present : Bool
  pub data_len : ℕ

pub record RxDataEntry : Type 0 where
  pub handle : ℕ
  pub rnti : ℕ
  pub harq_id : ℕ
  pub pdu_len : ℕ

-- The 16 bytes of one entry; `ul_cqi`, `timing_advance` and `rssi` are skipped.
pub read_rx_data : List ℕ → ℕ → Option RxDataEntry
read_rx_data buf p = do
  handle ← load32 buf p
  rnti ← load16 buf (p + 4)
  harq_id ← load8 buf (p + 6)
  pdu_len ← load32 buf (p + 7)
  some (record { handle = handle; rnti = rnti; harq_id = harq_id; pdu_len = pdu_len })

-- `data_buf && data_offset + pdu_len <= data_len`, on `size_t`.
abbrev pub block_fits : DataBuf → ℕ → ℕ → Bool
block_fits d data_offset pdu_len = d.present && leb (data_offset + pdu_len) d.data_len

pub rx_data_pdu : DataBuf → ℕ → RxDataEntry → RxDataPdu
rx_data_pdu d data_offset e = record {
  handle = e.handle;
  rnti = e.rnti;
  harq_id = e.harq_id;
  transport_block =
      if block_fits d data_offset e.pdu_len
      then some (record { start = data_offset; size = e.pdu_len })
      else none;
}

-- A block that does not fit leaves the offset where it is.
pub next_offset : DataBuf → ℕ → RxDataEntry → ℕ
next_offset d data_offset e =
    if block_fits d data_offset e.pdu_len then data_offset + e.pdu_len else data_offset

module _ {Slot Ta : Type 0} where
  unfoldable pub notify_rx_data : Slot → DataBuf → ℕ → RxDataEntry → World Slot Ta → World Slot Ta
  unfolding rx_data_pdu
  notify_rx_data sp d data_offset e w =
      let m = w.metrics in
      notify (on_rx_data_indication sp (rx_data_pdu d data_offset e)) (record w {
        metrics = record m {
          rx_data_pdus = add64 m.rx_data_pdus 1;
          rx_data_bytes = add64 m.rx_data_bytes e.pdu_len;
        };
      })

  -- The entries left, the message, the offset in it, the data buffer and the offset in that.
  pub rx_data_loop : ℕ → List ℕ → ℕ → DataBuf → ℕ → Slot → World Slot Ta → Option (World Slot Ta)
  rx_data_loop zero buf p d data_offset sp w = some w
  rx_data_loop (suc rounds) buf p d data_offset sp w =
      if ltb (length buf) (p + 16) then some w else do
        e ← read_rx_data buf p
        rx_data_loop rounds buf (p + 16) d (next_offset d data_offset e) sp
            (notify_rx_data sp d data_offset e w)

  pub dispatch_rx_data_indication :
      Ocudu Slot Ta → List ℕ → DataBuf → ℕ → World Slot Ta → Option (World Slot Ta)
  dispatch_rx_data_indication o buf d numerology w =
      if ltb (length buf) (scf_hdr_size + 6) then some w else do
        sfn ← load16 buf scf_hdr_size
        slot ← load16 buf (scf_hdr_size + 2)
        num_pdus ← load16 buf (scf_hdr_size + 4)
        rx_data_loop num_pdus buf (scf_hdr_size + 6) d 0 (o.slot_point numerology sfn slot) w
