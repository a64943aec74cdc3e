-- ===== src/Ocudu.antt =====
-- What the bridge takes from the OCUDU headers, which are not part of this repository: the slot
-- and timing types with their constructors, and three capacity limits.

use ocudu_aerial_fapi_connec.Common.{ℕ}

pub record Ocudu (Slot Ta : Type 0) : Type 0 where
  -- `slot_point(numerology, sfn, slot)`.
  pub slot_point : ℕ → ℕ → ℕ → Slot
  -- `phy_time_unit::from_timing_advance(raw, to_subcarrier_spacing(numerology))`.
  pub from_timing_advance : ℕ → ℕ → Ta
  -- `uci_constants::MAX_NOF_PAYLOAD_BITS`.
  pub max_nof_payload_bits : ℕ
  -- `sr_pdu_format_2_3_4::MAX_SR_PAYLOAD_SIZE_BITS`.
  pub max_sr_payload_size_bits : ℕ
  -- `uci_harq_format_0_1::MAX_NUM_HARQ`.
  pub max_num_harq : ℕ
