-- ===== src/Tx/UlTti/Counters.antt =====
-- The metrics that `serialize_ul_tti_request` of aerial_bridge/src/msg_translator.cpp changes.
use ocudu_aerial_fapi_connec.Common.{ℕ, ltb, if-elim, List, [], ◌∷◌, arith}
use ocudu_aerial_fapi_connec.Metrics.Received.{SameRx, SameRx-refl, SameRx-trans}
use ocudu_aerial_fapi_connec.Tx.UlTti.{
  UlPdu, UlTtiRequest, Globals, UlState, UlResult, ul_step, ul_loop, ul_init,
  serialize_ul_tti_request,
}

ul_step-SameRx :
    (p : UlPdu) (st : UlState) → SameRx st.globals.metrics (ul_step p st).globals.metrics
unfolding ul_step
ul_step-SameRx p st = ground arith

ul_loop-SameRx :
    (ps : List UlPdu) (st : UlState) → SameRx st.globals.metrics (ul_loop ps st).globals.metrics
unfolding ul_loop
ul_loop-SameRx [] st = SameRx-refl st.globals.metrics
ul_loop-SameRx (p ∷ ps) st =
    SameRx-trans _ _ _ (ul_step-SameRx p st) (ul_loop-SameRx ps (ul_step p st))

pub serialize_ul_tti_request-SameRx :
    (msg : UlTtiRequest) (n cell : ℕ) (g : Globals)
    → SameRx g.metrics (serialize_ul_tti_request msg n cell g).globals.metrics
unfolding serialize_ul_tti_request ul_init
serialize_ul_tti_request-SameRx msg n cell g =
    if-elim (λ (r : UlResult). SameRx g.metrics r.globals.metrics) (ltb n 17) _ _
      (λ e. SameRx-refl g.metrics) (λ e. ul_loop-SameRx msg.pdus (ul_init g))
