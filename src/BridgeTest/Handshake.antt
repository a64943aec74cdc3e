-- ===== src/BridgeTest/Handshake.antt =====
-- The first two messages of aerial_bridge/src/bridge_test.cpp against the gateway of
-- aerial_bridge/src/aerial_fapi_adaptor.cpp.
use ocudu_aerial_fapi_connec.BridgeTest.{
  BridgeTest, transmit, clear_buffer, post_if, slot_symbols, slots_symbols, test_tlvs, test_config,
  test_start, configure, start,
}
use ocudu_aerial_fapi_connec.Common.{◌≡◌, refl}
use ocudu_aerial_fapi_connec.Gateway.P5.{
  P5, send_p5, config_body, send_config_request, send_start_request,
}
use ocudu_aerial_fapi_connec.Gateway.P7.{Allocation, failed, granted}
use ocudu_aerial_fapi_connec.Gateway.Tlv.{add_tlv, add_tlvs}

-- The test program's traffic as that of a gateway.
abbrev pub traffic : BridgeTest → P5
traffic st = record { allocated = st.allocated; sent = st.sent }

-- Whether or not buffers are granted, the test program configures and starts L1 with exactly the
-- messages, byte for byte, that the P5 gateway sends for a sector's CONFIG and START.
pub start-configure :
    (b c : Allocation) (st : BridgeTest)
    → traffic (start c (configure b st)) ≡ send_start_request c (send_config_request b (traffic st))
unfolding configure start transmit clear_buffer post_if test_config test_start test_tlvs
    slots_symbols slot_symbols send_p5 add_tlv add_tlvs send_config_request config_body
start-configure failed failed st = refl
start-configure failed (granted d) st = refl
start-configure (granted d) failed st = refl
start-configure (granted d) (granted e) st = refl
