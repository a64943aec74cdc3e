-- ===== src/Gateway/P5/Balance.antt =====
-- The buffers of `aerial_p5_gateway` in aerial_bridge/src/aerial_fapi_adaptor.cpp.
use ocudu_aerial_fapi_connec.Common.{ℕ, ◌≡◌, List, [], ◌∷◌, length, length-append, none, arith}
use ocudu_aerial_fapi_connec.Gateway.P5.{
  P5, send_p5, send_param_request, send_config_request, send_start_request, send_stop_request,
}
use ocudu_aerial_fapi_connec.Gateway.P7.{Allocation, failed, granted}

-- Every buffer that was taken was sent.
abbrev pub AllSent : P5 → Type 0
AllSent p = p.allocated ≡ length p.sent

send_p5-AllSent :
    (id : ℕ) (bytes : List ℕ) (b : Allocation) (p : P5) → AllSent p → AllSent (send_p5 id bytes b p)
unfolding send_p5
send_p5-AllSent id bytes failed p h = h
send_p5-AllSent id bytes (granted dat) p h = omega (
  arith,
  length-append p.sent (record { msg_id = id; msg = bytes; data_buf = none; data_len = 0 } ∷ []),
)

pub send_param_request-AllSent :
    (b : Allocation) (p : P5) → AllSent p → AllSent (send_param_request b p)
send_param_request-AllSent b p h = send_p5-AllSent _ _ b p h

pub send_config_request-AllSent :
    (b : Allocation) (p : P5) → AllSent p → AllSent (send_config_request b p)
unfolding send_config_request
send_config_request-AllSent b p h = send_p5-AllSent _ _ b p h

pub send_start_request-AllSent :
    (b : Allocation) (p : P5) → AllSent p → AllSent (send_start_request b p)
send_start_request-AllSent b p h = send_p5-AllSent _ _ b p h

pub send_stop_request-AllSent :
    (b : Allocation) (p : P5) → AllSent p → AllSent (send_stop_request b p)
send_stop_request-AllSent b p h = send_p5-AllSent _ _ b p h
