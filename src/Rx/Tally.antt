-- ===== src/Rx/Tally.antt =====
-- The runtime metrics of aerial_bridge/src/msg_translator.cpp against the notifications made.
use ocudu_aerial_fapi_connec.Common.{
  ℕ, ◌+◌, ◌%◌, ◌^◌, ◌≡◌, Bool, true, false, if◌then◌else◌, List, [], ◌∷◌, ◌++◌, arith,
}
use ocudu_aerial_fapi_connec.Metrics.{should_log_indication, should_log_limited}
use ocudu_aerial_fapi_connec.Rx.Crc.{notify_crc}
use ocudu_aerial_fapi_connec.Rx.Indication.{
  Indication, CrcPdu, RachPdu, SrsPdu, UciPusch, UciPucch01, UciPucch234, on_crc_indication,
  on_rx_data_indication, on_rach_indication, on_srs_indication, on_uci_pusch, on_uci_pucch_0_1,
  on_uci_pucch_2_3_4,
}
use ocudu_aerial_fapi_connec.Rx.Rach.{notify_rach}
use ocudu_aerial_fapi_connec.Rx.RxData.{DataBuf, RxDataEntry, rx_data_pdu, notify_rx_data}
use ocudu_aerial_fapi_connec.Rx.Srs.{notify_srs}
use ocudu_aerial_fapi_connec.Rx.Uci.Pdu.{
  notify_pusch, notify_pucch01, notify_pucch234, note_bounds, note_malformed, note_harq_dropped,
  count_uci, log_malformed_uci_bytes,
}
use ocudu_aerial_fapi_connec.Rx.World.{World, notify}

-- The classes of notifications that the metrics count.
pub data Class : Type 0 where
  crc_good crc_bad rx_block rach_report srs_report pusch_uci pucch01_uci pucch234_uci other : Class

module _ {Slot Ta : Type 0} where
  abbrev pub class : Indication Slot Ta → Class
  class (on_crc_indication sp pdu) = if pdu.tb_crc_status_ok then crc_good else crc_bad
  class (on_rx_data_indication sp pdu) = rx_block
  class (on_rach_indication sp pdu) = rach_report
  class (on_srs_indication sp pdu) = srs_report
  class (on_uci_pusch sp pdu) = pusch_uci
  class (on_uci_pucch_0_1 sp pdu) = pucch01_uci
  class (on_uci_pucch_2_3_4 sp pdu) = pucch234_uci
  class i = other

abbrev same : Class → Class → Bool
same crc_good crc_good = true
same crc_bad crc_bad = true
same rx_block rx_block = true
same rach_report rach_report = true
same srs_report srs_report = true
same pusch_uci pusch_uci = true
same pucch01_uci pucch01_uci = true
same pucch234_uci pucch234_uci = true
same c d = false

module _ {Slot Ta : Type 0} where
  -- How many notifications of a class a list holds.
  unfoldable pub tally : Class → List (Indication Slot Ta) → ℕ
  tally c [] = 0
  tally c (i ∷ is) = (if same c (class i) then 1 else 0) + tally c is

  tally-snoc :
      (c : Class) (is : List (Indication Slot Ta)) (i : Indication Slot Ta)
      → tally c (is ++ (i ∷ [])) ≡ tally c is + (if same c (class i) then 1 else 0)
  unfolding tally
  tally-snoc c [] i = omega arith
  tally-snoc c (j ∷ is) i = omega (arith, tally-snoc c is i)

  -- Each 64-bit counter is the number of notifications of its class, and the two totals are the
  -- sums of their parts.
  pub record IsTallied (w : World Slot Ta) : Type 0 where
    pub crc_ok : tally crc_good w.notified % 2 ^ 64 ≡ w.metrics.crc_ok
    pub crc_fail : tally crc_bad w.notified % 2 ^ 64 ≡ w.metrics.crc_fail
    pub crc_total :
        (tally crc_good w.notified + tally crc_bad w.notified) % 2 ^ 64 ≡ w.metrics.crc_total
    pub rx_data : tally rx_block w.notified % 2 ^ 64 ≡ w.metrics.rx_data_pdus
    pub rach : tally rach_report w.notified % 2 ^ 64 ≡ w.metrics.rach_total
    pub srs : tally srs_report w.notified % 2 ^ 64 ≡ w.metrics.srs_total
    pub uci_pusch : tally pusch_uci w.notified % 2 ^ 64 ≡ w.metrics.uci_pusch
    pub uci_pucch01 : tally pucch01_uci w.notified % 2 ^ 64 ≡ w.metrics.uci_pucch01
    pub uci_pucch234 : tally pucch234_uci w.notified % 2 ^ 64 ≡ w.metrics.uci_pucch234
    pub uci_total :
        (tally pusch_uci w.notified + tally pucch01_uci w.notified + tally pucch234_uci w.notified)
          % 2 ^ 64
        ≡ w.metrics.uci_total

  -- What one more notification does to all tallies.
  record Snoc (is : List (Indication Slot Ta)) (i : Indication Slot Ta) : Type 0 where
    a :
        tally crc_good (is ++ (i ∷ []))
        ≡ tally crc_good is + (if same crc_good (class i) then 1 else 0)
    b :
        tally crc_bad (is ++ (i ∷ []))
        ≡ tally crc_bad is + (if same crc_bad (class i) then 1 else 0)
    c :
        tally rx_block (is ++ (i ∷ []))
        ≡ tally rx_block is + (if same rx_block (class i) then 1 else 0)
    d :
        tally rach_report (is ++ (i ∷ []))
        ≡ tally rach_report is + (if same rach_report (class i) then 1 else 0)
    e :
        tally srs_report (is ++ (i ∷ []))
        ≡ tally srs_report is + (if same srs_report (class i) then 1 else 0)
    f :
        tally pusch_uci (is ++ (i ∷ []))
        ≡ tally pusch_uci is + (if same pusch_uci (class i) then 1 else 0)
    g :
        tally pucch01_uci (is ++ (i ∷ []))
        ≡ tally pucch01_uci is + (if same pucch01_uci (class i) then 1 else 0)
    h :
        tally pucch234_uci (is ++ (i ∷ []))
        ≡ tally pucch234_uci is + (if same pucch234_uci (class i) then 1 else 0)

  snoc : (is : List (Indication Slot Ta)) (i : Indication Slot Ta) → Snoc is i
  snoc is i = record {
    a = tally-snoc crc_good is i;
    b = tally-snoc crc_bad is i;
    c = tally-snoc rx_block is i;
    d = tally-snoc rach_report is i;
    e = tally-snoc srs_report is i;
    f = tally-snoc pusch_uci is i;
    g = tally-snoc pucch01_uci is i;
    h = tally-snoc pucch234_uci is i;
  }

  pub notify_crc-IsTallied :
      (sp : Slot) (pdu : CrcPdu) (w : World Slot Ta) → IsTallied w → IsTallied (notify_crc sp pdu w)
  unfolding notify_crc should_log_indication
  notify_crc-IsTallied sp pdu w v = ground (arith, snoc w.notified (on_crc_indication sp pdu))

  pub notify_rx_data-IsTallied :
      (sp : Slot) (d : DataBuf) (off : ℕ) (e : RxDataEntry) (w : World Slot Ta)
      → IsTallied w
      → IsTallied (notify_rx_data sp d off e w)
  unfolding notify_rx_data
  notify_rx_data-IsTallied sp d off e w v =
      ground (arith, snoc w.notified (on_rx_data_indication sp (rx_data_pdu d off e)))

  pub notify_rach-IsTallied :
      (sp : Slot) (pdu : RachPdu) (w : World Slot Ta)
      → IsTallied w
      → IsTallied (notify_rach sp pdu w)
  unfolding notify_rach
  notify_rach-IsTallied sp pdu w v = ground (arith, snoc w.notified (on_rach_indication sp pdu))

  pub notify_srs-IsTallied :
      (sp : Slot) (pdu : SrsPdu Ta) (w : World Slot Ta)
      → IsTallied w
      → IsTallied (notify_srs sp pdu w)
  unfolding notify_srs
  notify_srs-IsTallied sp pdu w v = ground (arith, snoc w.notified (on_srs_indication sp pdu))

  pub notify_pusch-IsTallied :
      (sp : Slot) (pdu : UciPusch Ta) (w : World Slot Ta)
      → IsTallied w
      → IsTallied (notify_pusch sp pdu w)
  unfolding notify_pusch count_uci should_log_indication
  notify_pusch-IsTallied sp pdu w v = ground (arith, snoc w.notified (on_uci_pusch sp pdu))

  pub notify_pucch01-IsTallied :
      (sp : Slot) (pdu : UciPucch01 Ta) (w : World Slot Ta)
      → IsTallied w
      → IsTallied (notify_pucch01 sp pdu w)
  unfolding notify_pucch01 count_uci should_log_indication
  notify_pucch01-IsTallied sp pdu w v = ground (arith, snoc w.notified (on_uci_pucch_0_1 sp pdu))

  pub notify_pucch234-IsTallied :
      (sp : Slot) (pdu : UciPucch234 Ta) (w : World Slot Ta)
      → IsTallied w
      → IsTallied (notify_pucch234 sp pdu w)
  unfolding notify_pucch234 count_uci should_log_indication
  notify_pucch234-IsTallied sp pdu w v = ground (arith, snoc w.notified (on_uci_pucch_2_3_4 sp pdu))

  pub note_bounds-IsTallied :
      (rejected : Bool) (w : World Slot Ta) → IsTallied w → IsTallied (note_bounds rejected w)
  unfolding note_bounds
  note_bounds-IsTallied rejected w v = ground arith

  pub note_malformed-IsTallied :
      (rejected : Bool) (w : World Slot Ta) → IsTallied w → IsTallied (note_malformed rejected w)
  unfolding note_malformed log_malformed_uci_bytes should_log_limited
  note_malformed-IsTallied rejected w v = ground arith

  pub note_harq_dropped-IsTallied :
      (rejected : Bool) (w : World Slot Ta) → IsTallied w → IsTallied (note_harq_dropped rejected w)
  unfolding note_harq_dropped log_malformed_uci_bytes should_log_limited
  note_harq_dropped-IsTallied rejected w v = ground arith

  -- A notification that no metric counts.
  pub notify_other-IsTallied :
      (i : Indication Slot Ta) (w : World Slot Ta)
      → class i ≡ other
      → IsTallied w
      → IsTallied (notify i w)
  notify_other-IsTallied i w e v = ground (arith, snoc w.notified i)
