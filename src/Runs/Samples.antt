-- ===== src/Runs/Samples.antt =====
-- Requests, states and a choice of the OCUDU types for the runs of aerial_bridge/src.
use ocudu_aerial_fapi_connec.Common.{ℕ, true, false, List, [], ◌∷◌, none, some, ◌+◌}
use ocudu_aerial_fapi_connec.Metrics.{Metrics}
use ocudu_aerial_fapi_connec.Tx.DlTti.{ssb, pdcch, pdsch, csi_rs_or_prs, DlTtiRequest}
use ocudu_aerial_fapi_connec.Tx.Frame.{Interval, SfnSlot}
use ocudu_aerial_fapi_connec.Tx.Pdcch.{Ssb, Pdcch, non_interleaved}
use ocudu_aerial_fapi_connec.Tx.Pdsch.{Pdsch}
use ocudu_aerial_fapi_connec.Tx.Pucch.{format_0, Pucch}
use ocudu_aerial_fapi_connec.Tx.Srs.{Prach}
use ocudu_aerial_fapi_connec.Tx.Pusch.{Pusch, enabled}
use ocudu_aerial_fapi_connec.Tx.UlDci.{UlDciRequest}
use ocudu_aerial_fapi_connec.Tx.UlTti.{prach, pusch, pucch, UlTtiRequest, Globals}
use ocudu_aerial_fapi_connec.Ocudu.{Ocudu}
use ocudu_aerial_fapi_connec.Rx.World.{World}

abbrev pub slot_5 : SfnSlot
slot_5 = record { sfn = 1000; slot_index = 5 }

abbrev pub whole_band : Interval
whole_band = record { start = 0; size = 273 }

abbrev pub sample_ssb : Ssb
sample_ssb = record {
  phys_cell_id = 41;
  ssb_block_index = 0;
  subcarrier_offset = 4;
  ssb_offset_point_a = 12;
  bch_payload = 0x123456;
  beta_pss = some 1;
}

abbrev pub sample_pdcch : Pdcch
sample_pdcch = record {
  coreset_bwp = whole_band;
  scs = 1;
  cp_normal = true;
  symbols = record { start = 0; size = 1 };
  freq_domain_resource = true ∷ true ∷ false ∷ [];
  mapping = non_interleaved 6;
  precoder_granularity = 0;
  dl_dci = record {
    rnti = 0x4601;
    nid_pdcch_dmrs = 41;
    nrnti_pdcch_data = 0x4601;
    cce_index = 0;
    dci_aggregation_level = 4;
    payload = true ∷ false ∷ true ∷ [];
  };
}

abbrev pub sample_pdsch : Pdsch
sample_pdsch = record {
  rnti = 0x4601;
  bwp = whole_band;
  scs = 1;
  cp_normal = true;
  cws =
      record { qam_mod_order = 2; mcs_index = 9; mcs_table = 0; rv_index = 0; tb_size = 320 } ∷ [];
  nid_pdsch = 41;
  num_layers = 1;
  ref_point = 0;
  dl_dmrs_symb_pos = 4;
  dmrs_type = 0;
  pdsch_dmrs_scrambling_id = 41;
  nscid = 0;
  num_dmrs_cdm_grps_no_data = 2;
  dmrs_ports = 1;
  vrbs = record { start = 0; size = 20 };
  vrb_to_prb_mapping = 0;
  symbols = record { start = 1; size = 13 };
}

abbrev pub dl_request : DlTtiRequest
dl_request = record {
  slot = slot_5;
  pdus =
      ssb sample_ssb
      ∷ pdcch sample_pdcch
      ∷ csi_rs_or_prs
      ∷ pdsch sample_pdsch
      ∷ pdsch sample_pdsch
      ∷ [];
}

abbrev pub ul_dci_sample : UlDciRequest
ul_dci_sample = record { slot = slot_5; pdus = sample_pdcch ∷ sample_pdcch ∷ [] }

abbrev pub sample_prach : Prach
sample_prach = record {
  num_prach_ocas = 1;
  prach_format = 8;
  index_fd_ra = 0;
  prach_start_symbol = 0;
  num_cs = 13;
}

abbrev pub sample_pusch : Pusch
sample_pusch = record {
  rnti = 0x4601;
  handle = 77;
  bwp = whole_band;
  scs = 1;
  cp_normal = true;
  target_code_rate = 1930;
  qam_mod_order = 2;
  mcs_index = 4;
  mcs_table = 0;
  transform_precoding = enabled 9;
  nid_pusch = 41;
  num_layers = 1;
  ul_dmrs_symb_pos = 4;
  dmrs_type = 0;
  pusch_dmrs_scrambling_id = 41;
  nscid = 0;
  dmrs_ports = 1;
  vrbs = record { start = 0; size = 20 };
  tx_direct_current_location = 0;
  symbols = record { start = 0; size = 14 };
  pusch_data = some (record { rv_index = 0; harq_process_id = 1; new_data = true; tb_size = 320 });
  pusch_uci = none;
}

abbrev pub sample_pucch : Pucch
sample_pucch = record {
  rnti = 0x4601;
  handle = 78;
  bwp = whole_band;
  scs = 1;
  cp_normal = true;
  format = format_0 (record {
    nid_pucch_hopping = 1;
    initial_cyclic_shift = 0;
    sr_present = true;
    bit_len_harq = 1;
  });
  prbs = record { start = 0; size = 1 };
  symbols = record { start = 13; size = 1 };
  second_hop_prb = none;
}

abbrev pub ul_request : UlTtiRequest
ul_request = record {
  slot = slot_5;
  pdus = prach sample_prach ∷ pusch sample_pusch ∷ pucch sample_pucch ∷ [];
}

abbrev pub zero_metrics : Metrics
zero_metrics = record {
  tx_data_reqs = 0;
  tx_data_bytes = 0;
  ul_pusch_pdus = 0;
  ul_pucch_pdus = 0;
  ul_prach_pdus = 0;
  ul_srs_pdus = 0;
  crc_total = 0;
  crc_ok = 0;
  crc_fail = 0;
  rx_data_pdus = 0;
  rx_data_bytes = 0;
  uci_total = 0;
  uci_pusch = 0;
  uci_pucch01 = 0;
  uci_pucch234 = 0;
  rach_total = 0;
  srs_total = 0;
}

abbrev pub fresh_globals : Globals
fresh_globals = record {
  metrics = zero_metrics;
  counters = record {
    crc_dispatch_count = 0;
    uci_dispatch_count = 0;
    ul_pdu_serialize_log_count = 0;
    malformed_uci_log_count = 0;
  };
}

-- Slot points as triples, timing advances as the raw value shifted by the numerology.
abbrev pub sample_ocudu : Ocudu (ℕ × ℕ × ℕ) ℕ
sample_ocudu = record {
  slot_point = λ numerology sfn slot. (numerology, sfn, slot);
  from_timing_advance = λ raw numerology. raw + numerology;
  max_nof_payload_bits = 1706;
  max_sr_payload_size_bits = 4;
  max_num_harq = 2;
}

abbrev pub header_bytes : List ℕ
header_bytes = 1 ∷ 0 ∷ 0x82 ∷ 0 ∷ 4 ∷ 0 ∷ 0 ∷ 0 ∷ []

abbrev pub fresh : World (ℕ × ℕ × ℕ) ℕ
fresh = record {
  metrics = zero_metrics;
  counters = record {
    crc_dispatch_count = 0;
    uci_dispatch_count = 0;
    ul_pdu_serialize_log_count = 0;
    malformed_uci_log_count = 0;
  };
  notified = [];
  log = [];
}
