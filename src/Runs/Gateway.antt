-- ===== src/Runs/Gateway.antt =====
-- Runs of the gateways of aerial_bridge/src/aerial_fapi_adaptor.cpp.
use ocudu_aerial_fapi_connec.Common.{
  ◌≡◌, List, [], ◌∷◌, ◌++◌, none, some, Ensures, true, replicate, arith,
}
use ocudu_aerial_fapi_connec.Gateway.P5.{P5, send_config_request}
use ocudu_aerial_fapi_connec.Gateway.P5.Config.{ConfigSent, send_config_request-ConfigSent}
use ocudu_aerial_fapi_connec.Gateway.P7.{
  Allocation, failed, granted, P7, P7Request, dl_tti, ul_tti, ul_dci, tx_data, send_all,
}
use ocudu_aerial_fapi_connec.Gateway.P7.Delivery.{Sends, send_all-Sends}
use ocudu_aerial_fapi_connec.Gateway.Tlv.{Tlv, add_tlvs, read_tlvs, read_tlvs-add_tlvs}
use ocudu_aerial_fapi_connec.Tx.DlTti.{ssb}
use ocudu_aerial_fapi_connec.Tx.DlTti.Framed.{dl_pdus}
use ocudu_aerial_fapi_connec.Tx.Frame.{SfnSlot, pdu}
use ocudu_aerial_fapi_connec.Tx.Pdcch.{serialize_ssb_pdu}
use ocudu_aerial_fapi_connec.Tx.UlTti.Framed.{pdu_of}
use ocudu_aerial_fapi_connec.Runs.Samples.{fresh_globals, sample_ssb}

-- Values of one and of five bytes.
abbrev two_tlvs : List Tlv
two_tlvs =
    record { tag = 0x100D; value = 1 ∷ [] }
    ∷ record { tag = 0x1004; value = 1 ∷ 2 ∷ 3 ∷ 4 ∷ 5 ∷ [] }
    ∷ []

read_tlvs-add_tlvs_example :
    read_tlvs 2 (add_tlvs two_tlvs ++ (0xff ∷ [])) ≡ some (two_tlvs, 0xff ∷ [])
read_tlvs-add_tlvs_example = read_tlvs-add_tlvs two_tlvs (0xff ∷ []) (
  record { tag_fits = omega arith; length_fits = omega arith },
  (record { tag_fits = omega arith; length_fits = omega arith }, tt),
)

abbrev pub idle_p5 : P5
idle_p5 = record { allocated = 0; sent = [] }

send_config_request-ConfigSent_example :
    ConfigSent idle_p5 (send_config_request (granted none) idle_p5)
send_config_request-ConfigSent_example = send_config_request-ConfigSent none idle_p5

abbrev slot_9 : SfnSlot
slot_9 = record { sfn = 512; slot_index = 9 }

abbrev pub idle_p7 : P7
idle_p7 = record {
  globals = fresh_globals;
  pdsch_dbg_count = 0;
  tx_data_count = 0;
  allocated = 0;
  sent = [];
  released = [];
}

-- A slot of four requests, the second of which gets no buffer.
abbrev slot_requests : List (P7Request × Allocation)
slot_requests =
    (dl_tti (record { slot = slot_9; pdus = ssb sample_ssb ∷ [] }), granted none)
    ∷ (ul_tti (record { slot = slot_9; pdus = [] }), failed)
    ∷ (ul_dci (record { slot = slot_9; pdus = [] }), granted none)
    ∷ (
      tx_data (record { slot = slot_9; pdus = record { pdu_index = 0; block = 5 ∷ 6 ∷ [] } ∷ [] }),
      granted (some (0 ∷ 0 ∷ 0 ∷ [])),
    )
    ∷ []

send_all-Sends_example :
    Ensures (Sends (0x80 ∷ 0x83 ∷ 0x84 ∷ []) idle_p7) (send_all true slot_requests idle_p7)
unfolding dl_pdus pdu_of serialize_ssb_pdu pdu
send_all-Sends_example =
    send_all-Sends true slot_requests idle_p7
      (((tt, tt), omega arith), ((tt, omega arith), ((tt, omega arith), ((tt, omega arith), tt))))

-- 833 transport blocks in one slot.
abbrev many_blocks : P7Request
many_blocks =
    tx_data (record { slot = slot_9; pdus = replicate 833 (record { pdu_index = 0; block = [] }) })
