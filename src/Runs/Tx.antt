-- ===== src/Runs/Tx.antt =====
-- Runs of the serializers of aerial_bridge/src/msg_translator.cpp.
use ocudu_aerial_fapi_connec.Common.{
  ℕ, ◌≡◌, true, List, [], ◌∷◌, none, some, Ensures, replicate, arith,
}
use ocudu_aerial_fapi_connec.Tx.Mcs.{get_pdsch_mcs_entry}
use ocudu_aerial_fapi_connec.Tx.Mcs.Range.{IsMcs, get_pdsch_mcs_entry-IsMcs}
use ocudu_aerial_fapi_connec.Tx.DlTti.{ssb, serialize_dl_tti_request}
use ocudu_aerial_fapi_connec.Tx.Bits.{pack_msb, pack_lsb}
use ocudu_aerial_fapi_connec.Tx.DlTti.Framed.{
  dl_pdus, WritesFrame, serialize_dl_tti_request-IsFramed,
}
use ocudu_aerial_fapi_connec.Tx.Frame.{pdu, bwp_bytes, no_beamforming}
use ocudu_aerial_fapi_connec.Tx.Lengths.{Exceeds, serialize_dl_tti_request-overrun}
use ocudu_aerial_fapi_connec.Tx.Pusch.Reader.{read_pusch}
use ocudu_aerial_fapi_connec.Tx.Pusch.RoundTrip.{serialize_pusch_pdu-read_pusch}
use ocudu_aerial_fapi_connec.Tx.Pdcch.{
  mapping_bytes, dci_bytes, serialize_ssb_pdu, serialize_pdcch_pdu,
}
use ocudu_aerial_fapi_connec.Tx.Pdsch.{
  codeword_bytes, codewords, pdsch_pdu_end, serialize_pdsch_pdu,
}
use ocudu_aerial_fapi_connec.Tx.Pucch.{serialize_pucch_pdu}
use ocudu_aerial_fapi_connec.Tx.Srs.{prach_pdu}
use ocudu_aerial_fapi_connec.Tx.Pusch.{
  pusch_fixed, pusch_data_bytes, pusch_uci_bytes, dft_ofdm_bytes, serialize_pusch_pdu,
}
use ocudu_aerial_fapi_connec.Tx.TxData.{TxDataRequest, serialize_tx_data_request}
use ocudu_aerial_fapi_connec.Tx.TxData.Blocks.{Delivers, serialize_tx_data_request-Delivers}
use ocudu_aerial_fapi_connec.Tx.TxData.Bounds.{Bounded, serialize_tx_data_request-Bounded}
use ocudu_aerial_fapi_connec.Tx.UlDci
use ocudu_aerial_fapi_connec.Tx.UlTti
use ocudu_aerial_fapi_connec.Tx.UlDci.{UlDciRequest, serialize_ul_dci_request}
use ocudu_aerial_fapi_connec.Tx.UlTti.{
  UlPdu, prach, pusch, pucch, UlTtiRequest, Globals, serialize_ul_tti_request,
}
use ocudu_aerial_fapi_connec.Tx.UlDci.Framed.{serialize_ul_dci_request-IsFramed}
use ocudu_aerial_fapi_connec.Tx.UlTti.Framed.{pdu_of, serialize_ul_tti_request-IsFramed}
use ocudu_aerial_fapi_connec.Runs.Samples.{
  slot_5, sample_ssb, dl_request, ul_dci_sample, sample_pusch, ul_request, zero_metrics,
  fresh_globals,
}

serialize_dl_tti_request-IsFramed_example :
    Ensures (WritesFrame true dl_request 3) (serialize_dl_tti_request true dl_request 4096 3 0)
unfolding dl_pdus serialize_ssb_pdu serialize_pdcch_pdu serialize_pdsch_pdu pdu bwp_bytes
    no_beamforming mapping_bytes dci_bytes codeword_bytes codewords pdsch_pdu_end pack_msb pack_lsb
serialize_dl_tti_request-IsFramed_example =
    serialize_dl_tti_request-IsFramed true dl_request 4096 3 0 (omega arith)
      (record {
        type_range = omega arith;
        cell_range = omega arith;
        sfn_range = omega arith;
        slot_range = omega arith;
      })
      (tt, (tt, (tt, (omega arith, (omega arith, tt)))))
      (omega arith, (omega arith, (omega arith, (omega arith, tt)))) (omega arith)

serialize_ul_dci_request-IsFramed_example :
    Ensures
      (UlDci.Framed.WritesFrame ul_dci_sample 0)
      (serialize_ul_dci_request ul_dci_sample 2048 0)
unfolding serialize_pdcch_pdu pdu bwp_bytes no_beamforming mapping_bytes dci_bytes pack_msb pack_lsb
serialize_ul_dci_request-IsFramed_example =
    serialize_ul_dci_request-IsFramed ul_dci_sample 2048 0 (omega arith)
      (record {
        type_range = omega arith;
        cell_range = omega arith;
        sfn_range = omega arith;
        slot_range = omega arith;
      })
      (omega arith, (omega arith, tt)) (omega arith)

serialize_ul_tti_request-IsFramed_example :
    UlTti.Framed.WritesFrame ul_request 1
      (serialize_ul_tti_request ul_request 4096 1 fresh_globals).written
unfolding pdu_of prach_pdu serialize_pusch_pdu pusch_fixed pusch_data_bytes pusch_uci_bytes
    dft_ofdm_bytes serialize_pucch_pdu pdu bwp_bytes no_beamforming
serialize_ul_tti_request-IsFramed_example =
    serialize_ul_tti_request-IsFramed ul_request 4096 1 fresh_globals (omega arith)
      (record {
        type_range = omega arith;
        cell_range = omega arith;
        sfn_range = omega arith;
        slot_range = omega arith;
      })
      (omega arith, (omega arith, (omega arith, tt))) (omega arith)

-- Three blocks, the second of 40 bytes, in a data buffer of 160 bytes.
abbrev tx_request : TxDataRequest
tx_request = record {
  slot = slot_5;
  pdus =
      record { pdu_index = 0; block = 1 ∷ 2 ∷ 3 ∷ [] }
      ∷ record { pdu_index = 1; block = replicate 40 7 }
      ∷ record { pdu_index = 2; block = 9 ∷ [] }
      ∷ [];
}

abbrev data_buffer : List ℕ
data_buffer = replicate 160 0xff

serialize_tx_data_request-Delivers_example :
    Delivers tx_request data_buffer 2
      (serialize_tx_data_request tx_request 1024 (some data_buffer) 2 zero_metrics)
serialize_tx_data_request-Delivers_example =
    serialize_tx_data_request-Delivers tx_request data_buffer 1024 2 zero_metrics (omega arith)
      (omega arith) (omega arith) (omega arith) (omega arith, (omega arith, (omega arith, tt)))
      (omega arith)

-- A data buffer in which only the last block fits.
serialize_tx_data_request-Bounded_example :
    Bounded 2 (serialize_tx_data_request tx_request 1024 (some (replicate 2 0xff)) 2 zero_metrics)
serialize_tx_data_request-Bounded_example =
    serialize_tx_data_request-Bounded tx_request (replicate 2 0xff) 1024 2 zero_metrics

serialize_pusch_pdu-read_pusch_example :
    read_pusch (serialize_pusch_pdu sample_pusch)
    ≡ some (record {
      rnti = 0x4601;
      handle = 77;
      pusch_data =
          some (record { rv_index = 0; harq_process_id = 1; new_data = true; tb_size = 320 });
      pusch_uci = none;
      dmrs_identity = some 9;
      trailer = 0 ∷ 0 ∷ 0 ∷ 0 ∷ 0 ∷ [];
    })
serialize_pusch_pdu-read_pusch_example =
    serialize_pusch_pdu-read_pusch sample_pusch (omega arith) (omega arith)
      (omega arith, omega arith, omega arith) tt (omega arith)

serialize_dl_tti_request-overrun_example :
    Ensures
      (Exceeds 14)
      (serialize_dl_tti_request true (record { slot = slot_5; pdus = ssb sample_ssb ∷ [] }) 14 3 0)
serialize_dl_tti_request-overrun_example =
    serialize_dl_tti_request-overrun true sample_ssb slot_5 14 3 0 (omega arith) (omega arith)

-- A table number and an index outside the tables.
get_pdsch_mcs_entry-IsMcs_example : IsMcs (get_pdsch_mcs_entry 7 40)
get_pdsch_mcs_entry-IsMcs_example = get_pdsch_mcs_entry-IsMcs 7 40
