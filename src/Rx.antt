-- ===== src/Rx.antt =====
-- The receive half of aerial_bridge/src/msg_translator.cpp: SCF indications from L1 become
-- calls of the OCUDU notifier.
pub mod Indication
pub mod World
pub mod Slot
pub mod Crc
pub mod Envelope
pub mod RxData
pub mod Rach
pub mod Srs
pub mod Uci
pub mod Tally
