-- ===== src/Runs/BridgeTest.antt =====
-- Runs of aerial_bridge/src/bridge_test.cpp.
use ocudu_aerial_fapi_connec.BridgeTest.{
  BridgeTest, Round, configure, start, empty_request, main_loop,
}
use ocudu_aerial_fapi_connec.BridgeTest.Handshake.{traffic, start-configure}
use ocudu_aerial_fapi_connec.BridgeTest.Requests.{serialize-empty_request}
use ocudu_aerial_fapi_connec.BridgeTest.Rounds.{Served, taken, rounds_run, main_loop-Served}
use ocudu_aerial_fapi_connec.Common.{
  ℕ, ◌≡◌, List, [], ◌∷◌, true, false, none, some, Ensures, length, arith,
}
use ocudu_aerial_fapi_connec.Gateway.P5.{send_config_request, send_start_request}
use ocudu_aerial_fapi_connec.Gateway.P7.{failed, granted}
use ocudu_aerial_fapi_connec.ScfMsgId
use ocudu_aerial_fapi_connec.Tx.DlTti.{serialize_dl_tti_request}
use ocudu_aerial_fapi_connec.Tx.UlTti.{serialize_ul_tti_request}
use ocudu_aerial_fapi_connec.Runs.Rx.{crc_message}
use ocudu_aerial_fapi_connec.Runs.Samples.{slot_5, fresh_globals}

abbrev begun : BridgeTest
begun = record {
  slot_count = 1;
  msg_count = 1;
  error_count = 0;
  current_sfn = 1000;
  current_slot = 5;
  allocated = 0;
  sent = [];
  posts = 0;
  released = 1;
  past_end = 0;
}

start-configure_example :
    traffic (start failed (configure (granted none) begun))
    ≡ send_start_request failed (send_config_request (granted none) (traffic begun))
start-configure_example = start-configure (granted none) failed begun

serialize-empty_request_example :
    (serialize_dl_tti_request false (record { slot = slot_5; pdus = [] }) 15000 0 7
      ≡ some (record {
        written = some (empty_request ScfMsgId.dl_tti_request 1000 5);
        pdsch_dbg_count = 7;
      }))
    × (length (empty_request ScfMsgId.ul_tti_request 1000 5) ≡ 14)
    × ((bytes : List ℕ) × ((serialize_ul_tti_request
            (record { slot = slot_5; pdus = [] })
            15000
            0
            fresh_globals).written
          ≡ some bytes)
        × (length bytes ≡ 17))
serialize-empty_request_example = serialize-empty_request false slot_5 7 fresh_globals

-- The downlink request of the first round gets no buffer; the last round is not run.
abbrev some_rounds : List Round
some_rounds =
    record {
      running_after = true;
      queue = crc_message ∷ [];
      dl_buffer = failed;
      ul_buffer = granted none;
    }
    ∷ record {
      running_after = true;
      queue = [];
      dl_buffer = granted none;
      ul_buffer = granted none;
    }
    ∷ record {
      running_after = false;
      queue = crc_message ∷ [];
      dl_buffer = failed;
      ul_buffer = failed;
    }
    ∷ []

main_loop-Served_example : Ensures (Served 1 2 begun) (main_loop some_rounds begun)
unfolding taken rounds_run
main_loop-Served_example =
    main_loop-Served some_rounds begun (omega arith) (omega arith)
      ((omega arith, tt), (tt, ((omega arith, tt), tt)))
