-- ===== src/Runs/Dci.antt =====
-- Runs of the PDCCH and PDSCH serializers of aerial_bridge/src/msg_translator.cpp.
use ocudu_aerial_fapi_connec.Common.{◌≡◌, refl, true, false, [], ◌∷◌, ◌++◌, some, replicate, arith}
use ocudu_aerial_fapi_connec.Tx.Pdcch.{Pdcch, interleaved, serialize_pdcch_pdu}
use ocudu_aerial_fapi_connec.Tx.Pdcch.Reader.{read_pdcch, PdcchFits}
use ocudu_aerial_fapi_connec.Tx.Pdcch.RoundTrip.{serialize_pdcch_pdu-read_pdcch}
use ocudu_aerial_fapi_connec.Tx.Pdsch.{serialize_pdsch_pdu}
use ocudu_aerial_fapi_connec.Tx.Pdsch.RoundTrip.{
  read_pdsch, pdsch_view, PdschFits, serialize_pdsch_pdu-read_pdsch,
}
use ocudu_aerial_fapi_connec.Runs.Samples.{whole_band, sample_pdsch}

-- A DCI of eleven bits.
abbrev full_pdcch : Pdcch
full_pdcch = record {
  coreset_bwp = whole_band;
  scs = 1;
  cp_normal = true;
  symbols = record { start = 0; size = 2 };
  freq_domain_resource = true ∷ (replicate 43 false ++ (true ∷ []));
  mapping = interleaved 6 2 41;
  precoder_granularity = 0;
  dl_dci = record {
    rnti = 0x4601;
    nid_pdcch_dmrs = 41;
    nrnti_pdcch_data = 0x4601;
    cce_index = 8;
    dci_aggregation_level = 4;
    payload = true ∷ false ∷ false ∷ true ∷ true ∷ true ∷ false ∷ false ∷ false ∷ true ∷ true ∷ [];
  };
}

full_pdcch-PdcchFits : PdcchFits full_pdcch
full_pdcch-PdcchFits = record {
  size_fits = omega arith;
  start_fits = omega arith;
  scs_fits = omega arith;
  first_fits = omega arith;
  count_fits = omega arith;
  resources = refl;
  mapping_fits = (omega arith, omega arith, omega arith);
  granularity_fits = omega arith;
  dci_fits = record {
    rnti_fits = omega arith;
    nid_fits = omega arith;
    nrnti_fits = omega arith;
    cce_fits = omega arith;
    level_fits = omega arith;
    payload_fits = omega arith;
  };
}

serialize_pdcch_pdu-read_pdcch_example :
    read_pdcch (serialize_pdcch_pdu full_pdcch) ≡ some full_pdcch
serialize_pdcch_pdu-read_pdcch_example =
    serialize_pdcch_pdu-read_pdcch full_pdcch full_pdcch-PdcchFits

sample_pdsch-PdschFits : PdschFits sample_pdsch
sample_pdsch-PdschFits = record {
  rnti_fits = omega arith;
  bwp_size_fits = omega arith;
  bwp_start_fits = omega arith;
  scs_fits = omega arith;
  few_codewords = omega arith;
  codewords_fit = (
    record {
      index_fits = omega arith;
      table_fits = omega arith;
      rv_fits = omega arith;
      size_fits = omega arith;
    },
    tt,
  );
  nid_fits = omega arith;
  layers_fit = omega arith;
  ref_fits = omega arith;
  pos_fits = omega arith;
  dmrs_fits = omega arith;
  scrambling_fits = omega arith;
  nscid_fits = omega arith;
  groups_fit = omega arith;
  ports_fit = omega arith;
  rb_start_fits = omega arith;
  rb_size_fits = omega arith;
  mapping_fits = omega arith;
  first_fits = omega arith;
  count_fits = omega arith;
}

serialize_pdsch_pdu-read_pdsch_example :
    read_pdsch (serialize_pdsch_pdu false sample_pdsch 3) ≡ some (pdsch_view false sample_pdsch 3)
serialize_pdsch_pdu-read_pdsch_example =
    serialize_pdsch_pdu-read_pdsch false sample_pdsch 3 sample_pdsch-PdschFits (omega arith)
