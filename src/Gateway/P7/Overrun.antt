-- ===== src/Gateway/P7/Overrun.antt =====
-- Requests that are too long for the message buffers of `aerial_p7_gateway` in
-- aerial_bridge/src/aerial_fapi_adaptor.cpp.
use ocudu_aerial_fapi_connec.Gateway.P7.{P7}
