-- ===== src/Metrics.antt =====
-- The runtime metrics and log counters of aerial_bridge/src/msg_translator.cpp
-- (`bridge_runtime_metrics`, `reset_bridge_runtime_metrics`, `should_log_indication`).
pub mod Received
use ocudu_aerial_fapi_connec.Common.{ℕ, ◌+◌, ◌%◌, ◌^◌, Bool, ◌||◌, leb, ◌==◌}

-- Each field is a `std::atomic<uint64_t>`.
pub record Metrics : Type 0 where
  pub tx_data_reqs : ℕ
  pub tx_data_bytes : ℕ
  pub ul_pusch_pdus : ℕ
  pub ul_pucch_pdus : ℕ
  pub ul_prach_pdus : ℕ
  pub ul_srs_pdus : ℕ
  pub crc_total : ℕ
  pub crc_ok : ℕ
  pub crc_fail : ℕ
  pub rx_data_pdus : ℕ
  pub rx_data_bytes : ℕ
  pub uci_total : ℕ
  pub uci_pusch : ℕ
  pub uci_pucch01 : ℕ
  pub uci_pucch234 : ℕ
  pub rach_total : ℕ
  pub srs_total : ℕ

-- `fetch_add` on a `uint64_t` and on an `unsigned`.
abbrev pub add64 : ℕ → ℕ → ℕ
add64 v n = (v + n) % 2 ^ 64

abbrev pub add32 : ℕ → ℕ → ℕ
add32 v n = (v + n) % 2 ^ 32

abbrev pub reset_bridge_runtime_metrics : Metrics → Metrics
reset_bridge_runtime_metrics m = record {
  tx_data_reqs = 0;
  tx_data_bytes = 0;
  ul_pusch_pdus = 0;
  ul_pucch_pdus = 0;
  ul_prach_pdus = 0;
  ul_srs_pdus = 0;
  crc_total = 0;
  crc_ok = 0;
  crc_fail = 0;
  rx_data_pdus = 0;
  rx_data_bytes = 0;
  uci_total = 0;
  uci_pusch = 0;
  uci_pucch01 = 0;
  uci_pucch234 = 0;
  rach_total = 0;
  srs_total = 0;
}

-- The four counters that bound the amount of logging; each is a `std::atomic<unsigned>`.
pub record LogCounters : Type 0 where
  pub crc_dispatch_count : ℕ
  pub uci_dispatch_count : ℕ
  pub ul_pdu_serialize_log_count : ℕ
  pub malformed_uci_log_count : ℕ

-- Whether to log, and the counter afterwards.
pub record LogDecision : Type 0 where
  pub log : Bool
  pub counter : ℕ

unfoldable pub should_log_indication : ℕ → LogDecision
should_log_indication counter =
    let value : ℕ = add32 counter 1 in
    record { log = leb value 16 || value % 1000 == 0; counter = value }

unfoldable pub should_log_limited : ℕ → ℕ → LogDecision
should_log_limited counter limit =
    let value : ℕ = add32 counter 1 in record { log = leb value limit; counter = value }
