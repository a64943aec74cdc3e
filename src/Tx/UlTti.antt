-- ===== src/Tx/UlTti.antt =====
-- `serialize_ul_tti_request` of aerial_bridge/src/msg_translator.cpp.
pub mod Counters
pub mod Framed
use ocudu_aerial_fapi_connec.Common.{
  ℕ, ◌+◌, ◌%◌, ltb, if◌then◌else◌, List, [], ◌∷◌, ◌++◌, Option, none, some,
}
use ocudu_aerial_fapi_connec.Metrics.{Metrics, LogCounters, add64, should_log_limited}
use ocudu_aerial_fapi_connec.ScfMsgId
use ocudu_aerial_fapi_connec.Tx.Frame.{SfnSlot, concat, message, slot_to_sfn_slot}
use ocudu_aerial_fapi_connec.Tx.Pucch.{Pucch, serialize_pucch_pdu}
use ocudu_aerial_fapi_connec.Tx.Srs.{Srs, Prach, serialize_srs_pdu, prach_pdu}
use ocudu_aerial_fapi_connec.Tx.Pusch.{Pusch, serialize_pusch_pdu}
use ocudu_aerial_fapi_connec.Wire.{le8}

pub data UlPdu : Type 0 where
  prach : Prach → UlPdu
  pusch : Pusch → UlPdu
  pucch : Pucch → UlPdu
  srs : Srs → UlPdu

pub record UlTtiRequest : Type 0 where
  pub slot : SfnSlot
  pub pdus : List UlPdu

-- The global state that the serializer changes.
pub record Globals : Type 0 where
  pub metrics : Metrics
  pub counters : LogCounters

-- The variables of the loop; the counters of the header are `uint8_t`.
pub record UlState : Type 0 where
  pub payload : List ℕ
  pub num_pdus : ℕ
  pub rach_present : ℕ
  pub num_ulsch : ℕ
  pub num_ulcch : ℕ
  pub globals : Globals

abbrev pub append_pdu : List ℕ → UlState → UlState
append_pdu bytes st = record st {
  payload = st.payload ++ bytes;
  num_pdus = (st.num_pdus + 1) % 256;
}

-- `log_outgoing_ul_pdu`: what remains of it is its counter.
abbrev pub log_outgoing_ul_pdu : Globals → Globals
log_outgoing_ul_pdu g = record g {
  counters = record (g.counters) {
    ul_pdu_serialize_log_count =
        (should_log_limited g.counters.ul_pdu_serialize_log_count 64).counter;
  };
}

abbrev pub count_metrics : (Metrics → Metrics) → Globals → Globals
count_metrics f g = record g { metrics = f g.metrics }

pub ul_step : UlPdu → UlState → UlState
ul_step (prach p) st = append_pdu (prach_pdu p) (record st {
  rach_present = 1;
  globals = count_metrics (λ m. record m { ul_prach_pdus = add64 m.ul_prach_pdus 1 }) st.globals;
})
ul_step (pusch p) st = append_pdu (serialize_pusch_pdu p) (record st {
  num_ulsch = (st.num_ulsch + 1) % 256;
  globals =
      log_outgoing_ul_pdu
        (count_metrics (λ m. record m { ul_pusch_pdus = add64 m.ul_pusch_pdus 1 }) st.globals);
})
ul_step (pucch p) st = append_pdu (serialize_pucch_pdu p) (record st {
  num_ulcch = (st.num_ulcch + 1) % 256;
  globals =
      log_outgoing_ul_pdu
        (count_metrics (λ m. record m { ul_pucch_pdus = add64 m.ul_pucch_pdus 1 }) st.globals);
})
ul_step (srs p) st = append_pdu (serialize_srs_pdu p) (record st {
  globals = count_metrics (λ m. record m { ul_srs_pdus = add64 m.ul_srs_pdus 1 }) st.globals;
})

unfoldable pub ul_loop : List UlPdu → UlState → UlState
ul_loop [] st = st
ul_loop (p ∷ ps) st = ul_loop ps (ul_step p st)

unfoldable pub ul_init : Globals → UlState
ul_init g = record {
  payload = [];
  num_pdus = 0;
  rach_present = 0;
  num_ulsch = 0;
  num_ulcch = 0;
  globals = g;
}

-- The bytes written, or `none` for the result -1, and the global state. As in `DlTti`, `buf_len` is
-- compared with the size of the fixed part only, and the caller has to have the memory.
pub record UlResult : Type 0 where
  pub written : Option (List ℕ)
  pub globals : Globals

unfoldable pub serialize_ul_tti_request : UlTtiRequest → ℕ → ℕ → Globals → UlResult
serialize_ul_tti_request msg buf_len cell_id g =
    let st = ul_loop msg.pdus (ul_init g) in
    let body = concat (
      slot_to_sfn_slot msg.slot
      ∷ le8 st.num_pdus
      ∷ le8 st.rach_present
      ∷ le8 st.num_ulsch
      ∷ le8 st.num_ulcch
      ∷ le8 0
      ∷ st.payload
      ∷ []) in
    if ltb buf_len (2 + 6 + 9) then record { written = none; globals = g } else record {
      written = some (message cell_id ScfMsgId.ul_tti_request body);
      globals = st.globals;
    }
