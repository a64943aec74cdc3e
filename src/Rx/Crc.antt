-- ===== src/Rx/Crc.antt =====
-- `dispatch_crc_indication` of aerial_bridge/src/msg_translator.cpp.
pub mod Safety
pub mod RoundTrip
use ocudu_aerial_fapi_connec.Common.{
  ℕ, zero, suc, ◌+◌, ◌==◌, ltb, leb, if◌then◌else◌, List, Option, none, some, ◌>>=◌, length,
}
use ocudu_aerial_fapi_connec.Metrics.{add64, should_log_indication}
use ocudu_aerial_fapi_connec.Ocudu.{Ocudu}
use ocudu_aerial_fapi_connec.Rx.Indication.{CrcPdu, CrcMeasurement, on_crc_indication}
use ocudu_aerial_fapi_connec.Rx.World.{World, crc_line, notify, write_line, scf_hdr_size}
use ocudu_aerial_fapi_connec.Wire.{load8, load16, load32}

-- The measurement fields behind the array of code block states, and the offset behind them.
pub read_measurement : List ℕ → ℕ → Option (Option CrcMeasurement × ℕ)
read_measurement buf p =
    if leb (p + 5) (length buf)
    then (do
      ul_cqi ← load8 buf p
      ta ← load16 buf (p + 1)
      rssi ← load16 buf (p + 3)
      some (some (record { ul_sinr_metric = ul_cqi; rssi = rssi; rsrp = 0 }), p + 5))
    else some (none, p)

-- One entry at offset `p`, and the offset of the next one.
pub read_crc : List ℕ → ℕ → Option (CrcPdu × ℕ)
read_crc buf p = do
  handle ← load32 buf p
  rnti ← load16 buf (p + 4)
  harq_id ← load8 buf (p + 6)
  status ← load8 buf (p + 7)
  num_cb ← load16 buf (p + 8)
  (measured, next) ← read_measurement buf (p + 10 + num_cb)
  some (
    record {
      handle = handle;
      rnti = rnti;
      harq_id = harq_id;
      tb_crc_status_ok = status == 0;
      measured = measured;
    },
    next,
  )

module _ {Slot Ta : Type 0} where
  -- What one entry does to the notifier, the metrics and the log.
  unfoldable pub notify_crc : Slot → CrcPdu → World Slot Ta → World Slot Ta
  notify_crc sp pdu w =
      let m = w.metrics in
      let d = should_log_indication w.counters.crc_dispatch_count in
      let counted : World Slot Ta = record w {
        metrics = record m {
          crc_total = add64 m.crc_total 1;
          crc_ok = if pdu.tb_crc_status_ok then add64 m.crc_ok 1 else m.crc_ok;
          crc_fail = if pdu.tb_crc_status_ok then m.crc_fail else add64 m.crc_fail 1;
        };
        counters = record (w.counters) { crc_dispatch_count = d.counter };
      } in
      let told = notify (on_crc_indication sp pdu) counted in
      if d.log then write_line (crc_line d.counter) told else told

  -- The loop over `num_crcs` entries: the entries left, the buffer, the offset `p`.
  pub crc_loop : ℕ → List ℕ → ℕ → Slot → World Slot Ta → Option (World Slot Ta)
  crc_loop zero buf p sp w = some w
  crc_loop (suc rounds) buf p sp w =
      if ltb (length buf) (p + 10)
      then some w
      else do (pdu, next) ← read_crc buf p; crc_loop rounds buf next sp (notify_crc sp pdu w)

  pub dispatch_crc_indication : Ocudu Slot Ta → List ℕ → ℕ → World Slot Ta → Option (World Slot Ta)
  dispatch_crc_indication o buf numerology w =
      if ltb (length buf) (scf_hdr_size + 6) then some w else do
        sfn ← load16 buf scf_hdr_size
        slot ← load16 buf (scf_hdr_size + 2)
        num_crcs ← load16 buf (scf_hdr_size + 4)
        crc_loop num_crcs buf (scf_hdr_size + 6) (o.slot_point numerology sfn slot) w
