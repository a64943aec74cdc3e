-- ===== src/Tx.antt =====
-- The transmit half of aerial_bridge/src/msg_translator.cpp: OCUDU requests become SCF messages.
pub mod Frame
pub mod Lengths
pub mod Bits
pub mod Pdcch
pub mod Mcs
pub mod Pdsch
pub mod DlTti
pub mod Pusch
pub mod Pucch
pub mod Srs
pub mod UlTti
pub mod UlDci
pub mod TxData
pub mod Framing
