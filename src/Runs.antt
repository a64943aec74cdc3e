-- ===== src/Runs.antt =====
-- Runs of the model of aerial_bridge/src at concrete inputs.
pub mod Adaptor
pub mod BridgeTest
pub mod Dci
pub mod Gateway
pub mod Gdr
pub mod Indications
pub mod Samples
pub mod Slots
pub mod Reports
pub mod Rx
pub mod Tx
pub mod Uci
