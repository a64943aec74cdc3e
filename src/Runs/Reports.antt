-- ===== src/Runs/Reports.antt =====
-- Runs of the RACH and SRS dispatchers of aerial_bridge/src/msg_translator.cpp.
use ocudu_aerial_fapi_connec.Common.{refl, List, [], ◌∷◌, map, Ensures, arith}
use ocudu_aerial_fapi_connec.Rx.Envelope.{Adds, message_of}
use ocudu_aerial_fapi_connec.Rx.Rach.{dispatch_rach_indication}
use ocudu_aerial_fapi_connec.Rx.Rach.RoundTrip.{
  told_rach, RachEntry, rach_bytes, dispatch_rach_indication-Adds,
}
use ocudu_aerial_fapi_connec.Rx.Srs.{dispatch_srs_indication}
use ocudu_aerial_fapi_connec.Rx.Srs.RoundTrip.{
  told_srs, SrsEntry, srs_bytes, dispatch_srs_indication-Adds,
}
use ocudu_aerial_fapi_connec.Tx.Frame.{concat}
use ocudu_aerial_fapi_connec.Runs.Samples.{sample_ocudu, header_bytes, fresh}

-- Two preambles in one occasion.
abbrev rach_entries : List RachEntry
rach_entries =
    record {
      phys_cell_id = 41;
      symbol_index = 0;
      slot_index = 19;
      freq_index = 0;
      avg_rssi = 120;
      avg_snr = 30;
      preambles =
          record { preamble_index = 7; timing_advance = 12; preamble_power = 100000 }
          ∷ record { preamble_index = 9; timing_advance = 3; preamble_power = 90000 }
          ∷ [];
    }
    ∷ []

dispatch_rach_indication-Adds_example :
    Ensures (Adds (told_rach (1, 1000, 19) rach_entries) fresh) (
      dispatch_rach_indication sample_ocudu
        (message_of header_bytes 1000 19 1 (concat (map rach_bytes rach_entries)))
        1
        fresh)
dispatch_rach_indication-Adds_example =
    dispatch_rach_indication-Adds sample_ocudu header_bytes 1000 19 1 rach_entries fresh refl
      (omega arith) (omega arith) (omega arith)
      (
        record {
          symbol_fits = omega arith;
          slot_fits = omega arith;
          freq_fits = omega arith;
          rssi_fits = omega arith;
          snr_fits = omega arith;
          few_preambles = omega arith;
          preambles_fit = (
            record { index_fits = omega arith; power_fits = omega arith },
            (record { index_fits = omega arith; power_fits = omega arith }, tt),
          );
        },
        tt,
      )

-- A sounding with one symbol report.
abbrev srs_entries : List SrsEntry
srs_entries =
    record {
      handle = 5;
      rnti = 0x4601;
      timing_advance = 31;
      num_symbols = 1;
      wideband_snr = 100;
      reports = (1 ∷ 2 ∷ 3 ∷ []) ∷ [];
    }
    ∷ []

dispatch_srs_indication-Adds_example :
    Ensures (Adds (told_srs sample_ocudu 1 (1, 1000, 19) srs_entries) fresh) (
      dispatch_srs_indication sample_ocudu
        (message_of header_bytes 1000 19 1 (concat (map srs_bytes srs_entries)))
        1
        fresh)
dispatch_srs_indication-Adds_example =
    dispatch_srs_indication-Adds sample_ocudu 1 header_bytes 1000 19 srs_entries fresh refl
      (omega arith) (omega arith) (omega arith)
      (
        record {
          handle_fits = omega arith;
          rnti_fits = omega arith;
          advance_fits = omega arith;
          few_reports = omega arith;
          reports_fit = (omega arith, tt);
        },
        tt,
      )
