-- ===== src/Rx/Uci/Pdu.antt =====
-- The three UCI PDU types of `dispatch_uci_indication` in aerial_bridge/src/msg_translator.cpp.
use ocudu_aerial_fapi_connec.Common.{
  ℕ, ◌+◌, ◌==◌, ltb, Bool, if◌then◌else◌, List, Option, some, ◌>>=◌,
}
use ocudu_aerial_fapi_connec.Metrics.{add64, should_log_indication, should_log_limited}
use ocudu_aerial_fapi_connec.Ocudu.{Ocudu}
use ocudu_aerial_fapi_connec.Rx.Indication.{
  UciCommon, UciPusch, UciPucch01, UciPucch234, format_0, format_1, format_2, format_3, format_4,
  on_uci_pusch, on_uci_pucch_0_1, on_uci_pucch_2_3_4,
}
use ocudu_aerial_fapi_connec.Rx.World.{
  World, payload_bounds, malformed_uci, harq_dropped, uci_line, notify, write_line,
  decode_timing_advance,
}
use ocudu_aerial_fapi_connec.Rx.Uci.Section.{
  bit_set, bits_section, sr_section, sr_f0_f1_section, harq_f0_f1_section,
}
use ocudu_aerial_fapi_connec.Wire.{load8, load16, load32}

-- `scf_uci_pusch_pdu` (12 bytes): the bitmap and what it says of the common fields.
pub record Header (Ta : Type 0) : Type 0 where
  pub pdu_bitmap : ℕ
  pub pucch_format : ℕ
  pub common : UciCommon Ta

module _ {Slot Ta : Type 0} where
  -- The common fields, with the timing advance and the RSSI at offsets `ta_at` and `ta_at + 2`.
  unfoldable pub uci_common : Ocudu Slot Ta → ℕ → List ℕ → ℕ → ℕ → Option (UciCommon Ta)
  uci_common o numerology buf q ta_at = do
    handle ← load32 buf (q + 1)
    rnti ← load16 buf (q + 5)
    timing_advance ← load16 buf ta_at
    rssi ← load16 buf (ta_at + 2)
    some (record {
      handle = handle;
      rnti = rnti;
      ul_sinr_metric = 0x8000;
      timing_advance_offset = decode_timing_advance o timing_advance numerology;
      rssi = rssi;
      rsrp = 0xffff;
    })

  unfoldable pub pusch_header : Ocudu Slot Ta → ℕ → List ℕ → ℕ → Option (Header Ta)
  unfolding uci_common
  pusch_header o numerology buf q = do
    pdu_bitmap ← load8 buf q
    common ← uci_common o numerology buf q (q + 8)
    some (record { pdu_bitmap = pdu_bitmap; pucch_format = 0; common = common })

  -- `scf_uci_pucch_pdu` (13 bytes) has the format in front of the `ul_cqi` byte.
  unfoldable pub pucch_header : Ocudu Slot Ta → ℕ → List ℕ → ℕ → Option (Header Ta)
  unfolding uci_common
  pucch_header o numerology buf q = do
    pdu_bitmap ← load8 buf q
    pucch_format ← load8 buf (q + 7)
    common ← uci_common o numerology buf q (q + 9)
    some (record { pdu_bitmap = pdu_bitmap; pucch_format = pucch_format; common = common })

  -- The log lines that a refused payload leaves.
  unfoldable pub note_bounds : Bool → World Slot Ta → World Slot Ta
  note_bounds rejected w = if rejected then write_line payload_bounds w else w

  unfoldable pub log_malformed_uci_bytes : World Slot Ta → World Slot Ta
  log_malformed_uci_bytes w =
      let d = should_log_limited w.counters.malformed_uci_log_count 24 in
      let counted : World Slot Ta = record w {
        counters = record (w.counters) { malformed_uci_log_count = d.counter };
      } in
      if d.log then write_line malformed_uci counted else counted

  unfoldable pub note_malformed : Bool → World Slot Ta → World Slot Ta
  unfolding log_malformed_uci_bytes
  note_malformed rejected w =
      if rejected then log_malformed_uci_bytes (write_line payload_bounds w) else w

  unfoldable pub note_harq_dropped : Bool → World Slot Ta → World Slot Ta
  unfolding log_malformed_uci_bytes
  note_harq_dropped rejected w =
      if rejected then write_line harq_dropped (log_malformed_uci_bytes w) else w

  -- `uci_total` and the limited log line, which follow each notification.
  unfoldable pub count_uci : World Slot Ta → World Slot Ta
  count_uci w =
      let m = w.metrics in
      let d = should_log_indication w.counters.uci_dispatch_count in
      let counted : World Slot Ta = record w {
        metrics = record m { uci_total = add64 m.uci_total 1 };
        counters = record (w.counters) { uci_dispatch_count = d.counter };
      } in
      if d.log then write_line (uci_line d.counter) counted else counted

  unfoldable pub notify_pusch : Slot → UciPusch Ta → World Slot Ta → World Slot Ta
  notify_pusch sp pdu w =
      let m = w.metrics in
      count_uci (
        notify (on_uci_pusch sp pdu)
          (record w { metrics = record m { uci_pusch = add64 m.uci_pusch 1 } }))

  unfoldable pub notify_pucch01 : Slot → UciPucch01 Ta → World Slot Ta → World Slot Ta
  notify_pucch01 sp pdu w =
      let m = w.metrics in
      count_uci (
        notify (on_uci_pucch_0_1 sp pdu)
          (record w { metrics = record m { uci_pucch01 = add64 m.uci_pucch01 1 } }))

  unfoldable pub notify_pucch234 : Slot → UciPucch234 Ta → World Slot Ta → World Slot Ta
  notify_pucch234 sp pdu w =
      let m = w.metrics in
      count_uci (
        notify (on_uci_pucch_2_3_4 sp pdu)
          (record w { metrics = record m { uci_pucch234 = add64 m.uci_pucch234 1 } }))

  -- `case 0`: UCI on PUSCH. `q` is the offset of the PDU's payload, `p_end` the end of the PDU.
  unfoldable pub uci_pusch_case :
      Ocudu Slot Ta → ℕ → List ℕ → ℕ → ℕ → Slot → World Slot Ta → Option (World Slot Ta)
  uci_pusch_case o numerology buf q p_end sp w = if ltb p_end (q + 12) then some w else do
    hdr ← pusch_header o numerology buf q
    harq ← bits_section o.max_nof_payload_bits buf p_end (q + 12) (bit_set hdr.pdu_bitmap 1)
    csi1 ← bits_section o.max_nof_payload_bits buf p_end harq.next (bit_set hdr.pdu_bitmap 2)
    csi2 ← bits_section o.max_nof_payload_bits buf p_end csi1.next (bit_set hdr.pdu_bitmap 3)
    some (
        notify_pusch sp
          (record {
            common = hdr.common;
            harq = harq.value;
            csi_part1 = csi1.value;
            csi_part2 = csi2.value;
          })
          (note_bounds csi2.rejected (note_bounds csi1.rejected (note_bounds harq.rejected w))))

  -- `case 1`: PUCCH format 0 or 1.
  unfoldable pub uci_pucch01_case :
      Ocudu Slot Ta → ℕ → List ℕ → ℕ → ℕ → Slot → World Slot Ta → Option (World Slot Ta)
  uci_pucch01_case o numerology buf q p_end sp w = if ltb p_end (q + 13) then some w else do
    hdr ← pucch_header o numerology buf q
    sr ← sr_f0_f1_section buf p_end (q + 13) (bit_set hdr.pdu_bitmap 0)
    harq ← harq_f0_f1_section o.max_num_harq buf p_end sr.next (bit_set hdr.pdu_bitmap 1)
    some (
        notify_pucch01 sp
          (record {
            common = hdr.common;
            pucch_format = if hdr.pucch_format == 0 then format_0 else format_1;
            sr = sr.value;
            harq = harq.value;
          })
          (note_harq_dropped harq.rejected w))

  -- `case 2`: PUCCH format 2, 3 or 4.
  unfoldable pub uci_pucch234_case :
      Ocudu Slot Ta → ℕ → List ℕ → ℕ → ℕ → Slot → World Slot Ta → Option (World Slot Ta)
  uci_pucch234_case o numerology buf q p_end sp w = if ltb p_end (q + 13) then some w else do
    hdr ← pucch_header o numerology buf q
    sr ← sr_section o.max_sr_payload_size_bits buf p_end (q + 13) (bit_set hdr.pdu_bitmap 0)
    harq ← bits_section o.max_nof_payload_bits buf p_end sr.next (bit_set hdr.pdu_bitmap 1)
    csi1 ← bits_section o.max_nof_payload_bits buf p_end harq.next (bit_set hdr.pdu_bitmap 2)
    csi2 ← bits_section o.max_nof_payload_bits buf p_end csi1.next (bit_set hdr.pdu_bitmap 3)
    some (
        notify_pucch234 sp
          (record {
            common = hdr.common;
            pucch_format =
                if hdr.pucch_format == 0
                then format_2
                else if hdr.pucch_format == 1
                then format_3
                else format_4;
            sr = sr.value;
            harq = harq.value;
            csi_part1 = csi1.value;
            csi_part2 = csi2.value;
          })
          (note_bounds csi2.rejected (
            note_bounds csi1.rejected
              (note_malformed harq.rejected (note_malformed sr.rejected w)))))
