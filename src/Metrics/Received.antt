-- ===== src/Metrics/Received.antt =====
-- The counters of received indications among the metrics of aerial_bridge/src/msg_translator.cpp.
use ocudu_aerial_fapi_connec.Common.{◌≡◌, arith}
use ocudu_aerial_fapi_connec.Metrics.{Metrics}

-- Two states of the metrics with the same counters of received indications.
pub record SameRx (m n : Metrics) : Type 0 where
  pub crc_ok : n.crc_ok ≡ m.crc_ok
  pub crc_fail : n.crc_fail ≡ m.crc_fail
  pub crc_total : n.crc_total ≡ m.crc_total
  pub rx_data_pdus : n.rx_data_pdus ≡ m.rx_data_pdus
  pub rach_total : n.rach_total ≡ m.rach_total
  pub srs_total : n.srs_total ≡ m.srs_total
  pub uci_pusch : n.uci_pusch ≡ m.uci_pusch
  pub uci_pucch01 : n.uci_pucch01 ≡ m.uci_pucch01
  pub uci_pucch234 : n.uci_pucch234 ≡ m.uci_pucch234
  pub uci_total : n.uci_total ≡ m.uci_total

pub SameRx-refl : (m : Metrics) → SameRx m m
SameRx-refl m = ground arith

pub SameRx-trans : (a b c : Metrics) → SameRx a b → SameRx b c → SameRx a c
SameRx-trans a b c f g = ground arith
