-- ===== src/Gateway.antt =====
-- The gateways of aerial_bridge/src/aerial_fapi_adaptor.cpp, through which OCUDU sends requests.
pub mod P5
pub mod P7
pub mod Tlv
