-- ===== src/BridgeTest/Requests.antt =====
-- The empty requests of aerial_bridge/src/bridge_test.cpp against the serializers of
-- aerial_bridge/src/msg_translator.cpp.
use ocudu_aerial_fapi_connec.BridgeTest.{empty_request}
use ocudu_aerial_fapi_connec.Common.{ℕ, ◌≡◌, refl, Bool, List, [], some, length}
use ocudu_aerial_fapi_connec.ScfMsgId
use ocudu_aerial_fapi_connec.Tx.DlTti.{dl_loop, serialize_dl_tti_request}
use ocudu_aerial_fapi_connec.Tx.Frame.{SfnSlot, message, slot_to_sfn_slot, write_headers}
use ocudu_aerial_fapi_connec.Tx.UlTti.{Globals, ul_loop, ul_init, serialize_ul_tti_request}

-- The empty DL_TTI.request of the test program is, byte for byte, what the bridge writes for a
-- downlink request without PDUs in that slot. Its empty UL_TTI.request is not what the bridge writes
-- for an uplink request without PDUs: it has 14 bytes, and the bridge writes 17.
pub serialize-empty_request :
    (force_table0 : Bool) (sp : SfnSlot) (dbg : ℕ) (g : Globals)
    → (serialize_dl_tti_request force_table0 (record { slot = sp; pdus = [] }) 15000 0 dbg
        ≡ some (record {
          written = some (empty_request ScfMsgId.dl_tti_request sp.sfn sp.slot_index);
          pdsch_dbg_count = dbg;
        }))
      × (length (empty_request ScfMsgId.ul_tti_request sp.sfn sp.slot_index) ≡ 14)
      × ((bytes : List ℕ) × ((serialize_ul_tti_request
              (record { slot = sp; pdus = [] })
              15000
              0
              g).written
            ≡ some bytes)
          × (length bytes ≡ 17))
unfolding empty_request serialize_dl_tti_request dl_loop message write_headers slot_to_sfn_slot
    serialize_ul_tti_request ul_loop ul_init
serialize-empty_request force_table0 sp dbg g = (refl, refl, (_, refl, refl))
