-- ===== src/Rx/Srs.antt =====
-- `dispatch_srs_indication` of aerial_bridge/src/msg_translator.cpp.
pub mod Safety
pub mod RoundTrip
use ocudu_aerial_fapi_connec.Common.{
  ℕ, zero, suc, ◌+◌, ltb, if◌then◌else◌, List, Option, none, some, ◌>>=◌, length,
}
use ocudu_aerial_fapi_connec.Metrics.{add64}
use ocudu_aerial_fapi_connec.Ocudu.{Ocudu}
use ocudu_aerial_fapi_connec.Rx.Indication.{SrsPdu, on_srs_indication}
use ocudu_aerial_fapi_connec.Rx.World.{World, notify, decode_timing_advance, scf_hdr_size}
use ocudu_aerial_fapi_connec.Wire.{load8, load16, load32}

-- The inner loop over the symbol reports: the offset behind those that the message holds, clamped
-- to the end of the message.
pub report_loop : ℕ → List ℕ → ℕ → Option ℕ
report_loop zero buf p = some p
report_loop (suc rounds) buf p = if ltb (length buf) (p + 2) then some (length buf) else do
  num_rbs ← load16 buf p
  if ltb (length buf) (p + 2 + num_rbs)
      then some (length buf)
      else report_loop rounds buf (p + 2 + num_rbs)

module _ {Slot Ta : Type 0} where
  -- One entry at offset `p` (`scf_srs_ind_pdu_start` is 11 bytes), and the offset of the next one.
  pub read_srs : Ocudu Slot Ta → ℕ → List ℕ → ℕ → Option (SrsPdu Ta × ℕ)
  read_srs o numerology buf p = do
    handle ← load32 buf p
    rnti ← load16 buf (p + 4)
    timing_advance ← load16 buf (p + 6)
    num_reported_symbols ← load8 buf (p + 10)
    next ← report_loop num_reported_symbols buf (p + 11)
    some (
      record {
        handle = handle;
        rnti = rnti;
        timing_advance_offset = decode_timing_advance o timing_advance numerology;
      },
      next,
    )

  unfoldable pub notify_srs : Slot → SrsPdu Ta → World Slot Ta → World Slot Ta
  notify_srs sp pdu w =
      let m = w.metrics in
      notify (on_srs_indication sp pdu)
        (record w { metrics = record m { srs_total = add64 m.srs_total 1 } })

  pub srs_loop : Ocudu Slot Ta → ℕ → ℕ → List ℕ → ℕ → Slot → World Slot Ta → Option (World Slot Ta)
  srs_loop o numerology zero buf p sp w = some w
  srs_loop o numerology (suc rounds) buf p sp w = if ltb (length buf) (p + 11) then some w else do
    (pdu, next) ← read_srs o numerology buf p
    srs_loop o numerology rounds buf next sp (notify_srs sp pdu w)

  pub dispatch_srs_indication : Ocudu Slot Ta → List ℕ → ℕ → World Slot Ta → Option (World Slot Ta)
  dispatch_srs_indication o buf numerology w =
      if ltb (length buf) (scf_hdr_size + 5) then some w else do
        sfn ← load16 buf scf_hdr_size
        slot ← load16 buf (scf_hdr_size + 2)
        num_pdus ← load8 buf (scf_hdr_size + 4)
        srs_loop o numerology num_pdus buf (scf_hdr_size + 5) (o.slot_point numerology sfn slot) w
