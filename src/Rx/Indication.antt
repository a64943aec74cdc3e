-- ===== src/Rx/Indication.antt =====
-- The OCUDU indication messages, with the fields that the dispatchers of
-- aerial_bridge/src/msg_translator.cpp and rx_thread.cpp fill in, and the notifier's calls.
use ocudu_aerial_fapi_connec.Common.{ℕ, Bool, List, Option}

-- Measurements of a CRC indication. `timing_advance_offset` is `std::nullopt` on every path.
pub record CrcMeasurement : Type 0 where
  pub ul_sinr_metric : ℕ
  pub rssi : ℕ
  pub rsrp : ℕ

-- `measured` is `none` where the message ends before the measurement fields, which then keep the
-- values that the constructor of the indication gave them.
pub record CrcPdu : Type 0 where
  pub handle : ℕ
  pub rnti : ℕ
  pub harq_id : ℕ
  pub tb_crc_status_ok : Bool
  pub measured : Option CrcMeasurement

-- A `span` into the data buffer.
pub record Span : Type 0 where
  pub start : ℕ
  pub size : ℕ

-- `transport_block` is `none` for the empty span `{}`.
pub record RxDataPdu : Type 0 where
  pub handle : ℕ
  pub rnti : ℕ
  pub harq_id : ℕ
  pub transport_block : Option Span

-- `timing_advance_offset` is `std::nullopt` on every path.
pub record Preamble : Type 0 where
  pub preamble_index : ℕ
  pub preamble_pwr : ℕ
  pub preamble_snr : ℕ

pub record RachPdu : Type 0 where
  pub symbol_index : ℕ
  pub slot_index : ℕ
  pub ra_index : ℕ
  pub avg_rssi : ℕ
  pub avg_snr : ℕ
  pub preambles : List Preamble

pub record SrsPdu (Ta : Type 0) : Type 0 where
  pub handle : ℕ
  pub rnti : ℕ
  pub timing_advance_offset : Option Ta

pub data DetectionStatus : Type 0 where
  crc_pass crc_failure dtx no_dtx dtx_not_checked : DetectionStatus

-- `uci_harq_pdu`, `uci_csi_part1` and `uci_csi_part2` have the same fields.
pub record UciBits : Type 0 where
  pub detection_status : DetectionStatus
  pub expected_bit_length : ℕ
  pub payload : List Bool

-- Fields that all three UCI PDUs have. `ul_sinr_metric` is the bit pattern of an `int16_t`.
pub record UciCommon (Ta : Type 0) : Type 0 where
  pub handle : ℕ
  pub rnti : ℕ
  pub ul_sinr_metric : ℕ
  pub timing_advance_offset : Option Ta
  pub rssi : ℕ
  pub rsrp : ℕ

pub record UciPusch (Ta : Type 0) : Type 0 where
  pub common : UciCommon Ta
  pub harq : Option UciBits
  pub csi_part1 : Option UciBits
  pub csi_part2 : Option UciBits

pub data PucchFormat : Type 0 where
  format_0 format_1 format_2 format_3 format_4 : PucchFormat

pub record UciPucch01 (Ta : Type 0) : Type 0 where
  pub common : UciCommon Ta
  pub pucch_format : PucchFormat
  -- `sr_detected`, where a scheduling request section is present.
  pub sr : Option Bool
  pub harq : Option (List ℕ)

pub record UciPucch234 (Ta : Type 0) : Type 0 where
  pub common : UciCommon Ta
  pub pucch_format : PucchFormat
  pub sr : Option (List Bool)
  pub harq : Option UciBits
  pub csi_part1 : Option UciBits
  pub csi_part2 : Option UciBits

-- One call of a notifier.
pub data Indication (Slot Ta : Type 0) : Type 0 where
  on_slot_indication : Slot → ℕ → Indication Slot Ta
  on_crc_indication : Slot → CrcPdu → Indication Slot Ta
  on_rx_data_indication : Slot → RxDataPdu → Indication Slot Ta
  on_rach_indication : Slot → RachPdu → Indication Slot Ta
  on_srs_indication : Slot → SrsPdu Ta → Indication Slot Ta
  on_uci_pusch : Slot → UciPusch Ta → Indication Slot Ta
  on_uci_pucch_0_1 : Slot → UciPucch01 Ta → Indication Slot Ta
  on_uci_pucch_2_3_4 : Slot → UciPucch234 Ta → Indication Slot Ta
  on_param_response : ℕ → Indication Slot Ta
  on_config_response : ℕ → Indication Slot Ta
  on_stop_indication : Indication Slot Ta
  on_error_indication : Slot → ℕ → ℕ → Indication Slot Ta
