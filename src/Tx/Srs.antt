-- ===== src/Tx/Srs.antt =====
-- `serialize_srs_pdu`, and the PRACH PDU of `serialize_ul_tti_request`, of
-- aerial_bridge/src/msg_translator.cpp.
use ocudu_aerial_fapi_connec.Common.{ℕ, Bool, List, [], ◌∷◌}
use ocudu_aerial_fapi_connec.Tx.Frame.{Interval, concat, pdu, bwp_bytes}
use ocudu_aerial_fapi_connec.Wire.{le8, le16, le32}

pub record Srs : Type 0 where
  pub rnti : ℕ
  pub handle : ℕ
  pub bwp : Interval
  pub scs : ℕ
  pub cp_normal : Bool
  pub num_ant_ports : ℕ
  pub ofdm_symbols : Interval
  pub num_repetitions : ℕ
  pub time_start_position : ℕ
  pub config_index : ℕ
  pub sequence_id : ℕ
  pub bandwidth_index : ℕ
  pub comb_size : ℕ
  pub comb_offset : ℕ
  pub cyclic_shift : ℕ
  pub frequency_position : ℕ
  pub frequency_shift : ℕ
  pub frequency_hopping : ℕ
  pub group_or_sequence_hopping : ℕ
  pub resource_type : ℕ
  pub t_srs : ℕ
  pub t_offset : ℕ

unfoldable pub serialize_srs_pdu : Srs → List ℕ
serialize_srs_pdu p = pdu 3 (
    concat (
      le16 p.rnti
      ∷ le32 p.handle
      ∷ bwp_bytes p.bwp p.scs p.cp_normal
      ∷ le8 p.num_ant_ports
      ∷ le8 p.ofdm_symbols.start
      ∷ le8 p.ofdm_symbols.size
      ∷ le8 p.num_repetitions
      ∷ le8 p.time_start_position
      ∷ le8 p.config_index
      ∷ le16 p.sequence_id
      ∷ le8 p.bandwidth_index
      ∷ le8 p.comb_size
      ∷ le8 p.comb_offset
      ∷ le8 p.cyclic_shift
      ∷ le8 p.frequency_position
      ∷ le16 p.frequency_shift
      ∷ le8 p.frequency_hopping
      ∷ le8 p.group_or_sequence_hopping
      ∷ le8 p.resource_type
      ∷ le16 p.t_srs
      ∷ le16 p.t_offset
      ∷ []))

pub record Prach : Type 0 where
  pub num_prach_ocas : ℕ
  pub prach_format : ℕ
  pub index_fd_ra : ℕ
  pub prach_start_symbol : ℕ
  pub num_cs : ℕ

unfoldable pub prach_pdu : Prach → List ℕ
prach_pdu p = pdu 0 (
    concat (
      le16 0
      ∷ le8 p.num_prach_ocas
      ∷ le8 p.prach_format
      ∷ le8 p.index_fd_ra
      ∷ le8 p.prach_start_symbol
      ∷ le16 p.num_cs
      ∷ []))
