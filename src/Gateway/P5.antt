-- ===== src/Gateway/P5.antt =====
-- `aerial_p5_gateway` of aerial_bridge/src/aerial_fapi_adaptor.cpp: configuration, start and stop.
pub mod Balance
pub mod Config
use ocudu_aerial_fapi_connec.Common.{
  ℕ, ◌+◌, List, [], ◌∷◌, ◌++◌, Option, none, some, length, replicate,
}
use ocudu_aerial_fapi_connec.Gateway.P7.{Allocation, failed, granted, IpcOut}
use ocudu_aerial_fapi_connec.Gateway.Tlv.{Tlv, add_tlvs}
use ocudu_aerial_fapi_connec.ScfMsgId
use ocudu_aerial_fapi_connec.Wire.{le8, le16, le32}

-- What was taken from the transport's pool, and what was sent.
pub record P5 : Type 0 where
  pub allocated : ℕ
  pub sent : List IpcOut

unfoldable pub send_p5 : ℕ → List ℕ → Allocation → P5 → P5
send_p5 msg_id bytes failed st = st
send_p5 msg_id bytes (granted dat) st = record {
  allocated = st.allocated + 1;
  sent = st.sent ++ (record { msg_id = msg_id; msg = bytes; data_buf = none; data_len = 0 } ∷ []);
}

-- Eight bytes: message count, handle, type, and a length of 0.
abbrev pub empty_message : ℕ → List ℕ
empty_message type_id = 1 ∷ 0 ∷ (le16 type_id ++ le32 0)

abbrev pub send_param_request : Allocation → P5 → P5
send_param_request = send_p5 ScfMsgId.param_request (empty_message ScfMsgId.param_request)

abbrev pub send_start_request : Allocation → P5 → P5
send_start_request = send_p5 ScfMsgId.start_request (empty_message ScfMsgId.start_request)

abbrev pub send_stop_request : Allocation → P5 → P5
send_stop_request = send_p5 ScfMsgId.stop_request (empty_message ScfMsgId.stop_request)

abbrev dl_slot : List ℕ
dl_slot = replicate 14 0

abbrev special_slot : List ℕ
special_slot = replicate 10 0 ++ (2 ∷ 2 ∷ 1 ∷ 1 ∷ [])

abbrev ul_slot : List ℕ
ul_slot = replicate 14 1

abbrev half_frame : List ℕ
half_frame = dl_slot ++ (dl_slot ++ (dl_slot ++ (special_slot ++ ul_slot)))

abbrev slot_cfg : List ℕ
slot_cfg = half_frame ++ half_frame

abbrev grid : List ℕ
grid = le16 0 ++ (le16 273 ++ (le16 0 ++ (le16 0 ++ le16 0)))

-- The TLVs in the order of the calls of `add_tlv`.
abbrev pub config_tlvs : List Tlv
config_tlvs =
    record { tag = 0x1001; value = le16 273 }
    ∷ record { tag = 0x1002; value = le32 3600000 }
    ∷ record { tag = 0x1005; value = le16 2 }
    ∷ record { tag = 0x1006; value = le16 273 }
    ∷ record { tag = 0x1007; value = le32 3600000 }
    ∷ record { tag = 0x100A; value = le16 2 }
    ∷ record { tag = 0x1004; value = grid }
    ∷ record { tag = 0x1009; value = grid }
    ∷ record { tag = 0x100C; value = le16 1 }
    ∷ record { tag = 0x100D; value = le8 1 }
    ∷ record { tag = 0x1010; value = le8 1 }
    ∷ record { tag = 0x100E; value = le32 0 }
    ∷ record { tag = 0x101D; value = le16 0 }
    ∷ record { tag = 0x101F; value = le8 2 }
    ∷ record { tag = 0x1020; value = le8 0 }
    ∷ record { tag = 0x1021; value = 0 ∷ 0 ∷ 0 ∷ [] }
    ∷ record { tag = 0x1022; value = le32 1 }
    ∷ record { tag = 0x1022; value = le32 0 }
    ∷ record { tag = 0x1011; value = le8 1 }
    ∷ record { tag = 0x1012; value = le8 1 }
    ∷ record { tag = 0x1013; value = le8 0 }
    ∷ record { tag = 0x1029; value = le8 159 }
    ∷ record { tag = 0x1014; value = le8 1 }
    ∷ record { tag = 0x1015; value = le16 1 }
    ∷ record { tag = 0x1016; value = le8 1 }
    ∷ record { tag = 0x1017; value = le16 0 }
    ∷ record { tag = 0x1018; value = le8 0 }
    ∷ record { tag = 0x101B; value = le8 0 }
    ∷ record { tag = 0x1026; value = le8 6 }
    ∷ record { tag = 0x1027; value = slot_cfg }
    ∷ []

unfoldable pub config_body : List ℕ
config_body = 30 ∷ add_tlvs config_tlvs

unfoldable pub send_config_request : Allocation → P5 → P5
send_config_request =
    send_p5 ScfMsgId.config_request
      (1 ∷ 0 ∷ (le16 ScfMsgId.config_request ++ (le32 (length config_body) ++ config_body)))
