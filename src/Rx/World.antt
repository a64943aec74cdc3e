-- ===== src/Rx/World.antt =====
-- The state that the dispatchers of aerial_bridge/src/msg_translator.cpp change: the metrics, the
-- log counters, and what the notifiers and the log have been told, oldest first.
use ocudu_aerial_fapi_connec.Common.{
  ℕ, ◌==◌, List, [], ◌∷◌, ◌++◌, Option, none, some, if◌then◌else◌,
}
use ocudu_aerial_fapi_connec.Metrics.{Metrics, LogCounters}
use ocudu_aerial_fapi_connec.Ocudu.{Ocudu}
use ocudu_aerial_fapi_connec.Rx.Indication.{Indication}

-- A line on `stderr`; a numbered line carries the counter that it prints.
pub data LogLine : Type 0 where
  crc_line uci_line : ℕ → LogLine
  payload_bounds malformed_uci harq_dropped : LogLine
  config_response_line invalid_tlvs_line unknown_message : ℕ → LogLine

pub record World (Slot Ta : Type 0) : Type 0 where
  pub metrics : Metrics
  pub counters : LogCounters
  pub notified : List (Indication Slot Ta)
  pub log : List LogLine

module _ {Slot Ta : Type 0} where
  abbrev pub notify : Indication Slot Ta → World Slot Ta → World Slot Ta
  notify i w = record w { notified = w.notified ++ (i ∷ []) }

  abbrev pub write_line : LogLine → World Slot Ta → World Slot Ta
  write_line l w = record w { log = w.log ++ (l ∷ []) }

  -- 65535 stands for a timing advance that was not measured.
  abbrev pub decode_timing_advance : Ocudu Slot Ta → ℕ → ℕ → Option Ta
  decode_timing_advance o raw_ta numerology =
      if raw_ta == 65535 then none else some (o.from_timing_advance raw_ta numerology)

-- `scf_header` (2 bytes) and `scf_body_header` (6 bytes).
abbrev pub scf_hdr_size : ℕ
scf_hdr_size = 8
