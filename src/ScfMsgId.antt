-- ===== src/ScfMsgId.antt =====
-- The message ids of `scf_msg_id` in aerial_bridge/include/aerial_bridge/msg_translator.h.
use ocudu_aerial_fapi_connec.Common.{ℕ}

abbrev pub param_request : ℕ
param_request = 0x00

abbrev pub param_response : ℕ
param_response = 0x01

abbrev pub config_request : ℕ
config_request = 0x02

abbrev pub config_response : ℕ
config_response = 0x03

abbrev pub start_request : ℕ
start_request = 0x04

abbrev pub stop_request : ℕ
stop_request = 0x05

abbrev pub stop_indication : ℕ
stop_indication = 0x06

abbrev pub error_indication : ℕ
error_indication = 0x07

abbrev pub dl_tti_request : ℕ
dl_tti_request = 0x80

abbrev pub ul_tti_request : ℕ
ul_tti_request = 0x81

abbrev pub slot_indication : ℕ
slot_indication = 0x82

abbrev pub ul_dci_request : ℕ
ul_dci_request = 0x83

abbrev pub tx_data_request : ℕ
tx_data_request = 0x84

abbrev pub rx_data_indication : ℕ
rx_data_indication = 0x85

abbrev pub crc_indication : ℕ
crc_indication = 0x86

abbrev pub uci_indication : ℕ
uci_indication = 0x87

abbrev pub srs_indication : ℕ
srs_indication = 0x88

abbrev pub rach_indication : ℕ
rach_indication = 0x89
