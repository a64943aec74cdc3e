-- ===== src/Runs/Indications.antt =====
-- Runs of the CRC and RX_DATA dispatchers of aerial_bridge/src/msg_translator.cpp.
use ocudu_aerial_fapi_connec.Common.{refl, true, List, [], ◌∷◌, Ensures, arith}
use ocudu_aerial_fapi_connec.Rx.Crc.{dispatch_crc_indication}
use ocudu_aerial_fapi_connec.Rx.Crc.RoundTrip.{
  CrcEntry, Tells, crc_message_of, dispatch_crc_indication-Tells,
}
use ocudu_aerial_fapi_connec.Rx.RxData.{dispatch_rx_data_indication}
use ocudu_aerial_fapi_connec.Rx.RxData.RoundTrip
use ocudu_aerial_fapi_connec.Rx.RxData.RoundTrip.{
  WireEntry, rx_data_message_of, dispatch_rx_data_indication-Tells,
}
use ocudu_aerial_fapi_connec.Runs.Samples.{sample_ocudu, header_bytes, fresh}

-- An entry with two code blocks, and one with none.
abbrev crc_entries : List CrcEntry
crc_entries =
    record {
      handle = 7;
      rnti = 0x4601;
      harq_id = 3;
      tb_crc_status = 0;
      cb_crc_status = 0 ∷ 1 ∷ [];
      ul_cqi = 200;
      timing_advance = 16;
      rssi = 1200;
    }
    ∷ record {
      handle = 8;
      rnti = 0x4602;
      harq_id = 0;
      tb_crc_status = 1;
      cb_crc_status = [];
      ul_cqi = 90;
      timing_advance = 0;
      rssi = 880;
    }
    ∷ []

dispatch_crc_indication-Tells_example :
    Ensures (Tells (1, 1000, 4) crc_entries fresh) (
      dispatch_crc_indication sample_ocudu (crc_message_of header_bytes 1000 4 crc_entries) 1 fresh)
dispatch_crc_indication-Tells_example =
    dispatch_crc_indication-Tells sample_ocudu header_bytes 1000 4 1 crc_entries fresh refl
      (omega arith) (omega arith) (omega arith)
      (
        record {
          handle_fits = omega arith;
          rnti_fits = omega arith;
          harq_fits = omega arith;
          status_fits = omega arith;
          cbs_fit = omega arith;
          cqi_fits = omega arith;
          rssi_fits = omega arith;
        },
        (
          record {
            handle_fits = omega arith;
            rnti_fits = omega arith;
            harq_fits = omega arith;
            status_fits = omega arith;
            cbs_fit = omega arith;
            cqi_fits = omega arith;
            rssi_fits = omega arith;
          },
          tt,
        ),
      )

abbrev rx_entries : List WireEntry
rx_entries =
    record {
      entry = record { handle = 7; rnti = 0x4601; harq_id = 3; pdu_len = 40 };
      ul_cqi = 200;
      timing_advance = 16;
      rssi = 1200;
    }
    ∷ record {
      entry = record { handle = 8; rnti = 0x4602; harq_id = 0; pdu_len = 24 };
      ul_cqi = 90;
      timing_advance = 0;
      rssi = 880;
    }
    ∷ []

dispatch_rx_data_indication-Tells_example :
    Ensures (RoundTrip.Tells (1, 1000, 4) 0 rx_entries fresh) (
      dispatch_rx_data_indication sample_ocudu
        (rx_data_message_of header_bytes 1000 4 rx_entries)
        (record { present = true; data_len = 64 })
        1
        fresh)
dispatch_rx_data_indication-Tells_example =
    dispatch_rx_data_indication-Tells sample_ocudu header_bytes 1000 4 1 rx_entries 64 fresh refl
      (omega arith) (omega arith) (omega arith)
      (
        record {
          handle_fits = omega arith;
          rnti_fits = omega arith;
          harq_fits = omega arith;
          pdu_len_fits = omega arith;
        },
        (
          record {
            handle_fits = omega arith;
            rnti_fits = omega arith;
            harq_fits = omega arith;
            pdu_len_fits = omega arith;
          },
          tt,
        ),
      )
      (omega arith)
