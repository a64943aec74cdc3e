-- ===== src/Gateway/P5/Config.antt =====
-- The CONFIG.request of aerial_bridge/src/aerial_fapi_adaptor.cpp.
use ocudu_aerial_fapi_connec.Common.{
  ℕ, ◌+◌, ◌-◌, ◌≤◌, ◌≡◌, refl, ap, sym, Bool, true, ltb, ltb→lt, ◌&&◌, ◌∙◌, List, [], ◌∷◌, ◌++◌,
  append-nil, All, Option, none, some, length, drop, arith,
}
use ocudu_aerial_fapi_connec.Gateway.P5.{P5, send_p5, config_tlvs, config_body, send_config_request}
use ocudu_aerial_fapi_connec.Gateway.P7.{granted}
use ocudu_aerial_fapi_connec.Gateway.Tlv.{
  Tlv, TlvFits, add_tlv, add_tlvs, read_tlvs, read_tlvs-add_tlvs,
}
use ocudu_aerial_fapi_connec.ScfMsgId
use ocudu_aerial_fapi_connec.Wire.{load8, load16, load32}

unfoldable all_fit : List Tlv → Bool
all_fit [] = true
all_fit (t ∷ ts) = ltb t.tag 65536 && ltb (length t.value) 65536 && all_fit ts

all_fit-All : (ts : List Tlv) → all_fit ts ≡ true → All TlvFits ts
unfolding all_fit
all_fit-All [] h = tt
all_fit-All (t ∷ ts) h =
    let tag = ltb→lt t.tag 65536 (ground arith) in
    let len = ltb→lt (length t.value) 65536 (ground arith) in
    (record { tag_fits = tag; length_fits = len }, all_fit-All ts (ground arith))

config_tlvs-fit : All TlvFits config_tlvs
unfolding all_fit
config_tlvs-fit = all_fit-All config_tlvs refl

-- One more message is sent, in a buffer of 520 bytes, which announces as many TLVs as it has.
pub record ConfigSent (st st' : P5) : Type 0 where
  pub bytes : List ℕ
  pub sent_is :
      st'.sent
      ≡ st.sent
        ++ (record { msg_id = ScfMsgId.config_request; msg = bytes; data_buf = none; data_len = 0 }
            ∷ [])
  pub allocated_is : st'.allocated ≡ st.allocated + 1
  pub fits : length bytes ≤ 520
  pub message_id : load16 bytes 2 ≡ some ScfMsgId.config_request
  pub body_length : load32 bytes 4 ≡ some (length bytes - 8)
  pub num_tlvs : load8 bytes 8 ≡ some (length config_tlvs)
  pub tlvs : read_tlvs (length config_tlvs) (drop 9 bytes) ≡ some (config_tlvs, [])

-- Given a buffer, CONFIG.request sends one message, which stays within the 520 bytes asked for,
-- states its own length and the number of its TLVs, and from which a TLV reader gets back exactly
-- the configuration's TLVs with nothing behind them.
pub send_config_request-ConfigSent :
    (dat : Option (List ℕ)) (st : P5) → ConfigSent st (send_config_request (granted dat) st)
unfolding send_config_request send_p5 config_body add_tlvs add_tlv load8 load16 load32
send_config_request-ConfigSent dat st = record {
  bytes = _;
  sent_is = refl;
  allocated_is = refl;
  fits = omega arith;
  message_id = refl;
  body_length = refl;
  num_tlvs = refl;
  tlvs =
      ap (read_tlvs 30) (sym (append-nil (add_tlvs config_tlvs)))
      ∙ read_tlvs-add_tlvs config_tlvs [] config_tlvs-fit;
}
