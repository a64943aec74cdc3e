-- ===== src/Tx/Pdsch.antt =====
-- `serialize_pdsch_pdu` of aerial_bridge/src/msg_translator.cpp.
pub mod Codewords
pub mod RoundTrip
use ocudu_aerial_fapi_connec.Common.{
  ℕ, ◌+◌, ◌%◌, ◌==◌, ltb, Bool, if◌then◌else◌, List, [], ◌∷◌, ◌++◌, Option, none, some, length,
  replicate,
}
use ocudu_aerial_fapi_connec.Tx.Frame.{Interval, concat, pdu, bwp_bytes, no_beamforming}
use ocudu_aerial_fapi_connec.Tx.Mcs.{get_pdsch_mcs_entry, get_effective_pdsch_mcs_table}
use ocudu_aerial_fapi_connec.Wire.{le8, le16, le32}

pub record Codeword : Type 0 where
  pub qam_mod_order : ℕ
  pub mcs_index : ℕ
  pub mcs_table : ℕ
  pub rv_index : ℕ
  pub tb_size : ℕ

pub record Pdsch : Type 0 where
  pub rnti : ℕ
  pub bwp : Interval
  pub scs : ℕ
  pub cp_normal : Bool
  pub cws : List Codeword
  pub nid_pdsch : ℕ
  pub num_layers : ℕ
  pub ref_point : ℕ
  pub dl_dmrs_symb_pos : ℕ
  pub dmrs_type : ℕ
  pub pdsch_dmrs_scrambling_id : ℕ
  pub nscid : ℕ
  pub num_dmrs_cdm_grps_no_data : ℕ
  pub dmrs_ports : ℕ
  pub vrbs : Interval
  pub vrb_to_prb_mapping : ℕ
  pub symbols : Interval

-- `scf_pdsch_codeword`, 10 bytes.
unfoldable pub codeword_bytes : Bool → Codeword → List ℕ
codeword_bytes force_table0 cw =
    let table = get_effective_pdsch_mcs_table force_table0 (cw.mcs_table % 256) in
    let mcs = get_pdsch_mcs_entry table (cw.mcs_index % 256) in
    concat (
      le16 mcs.target_code_rate
      ∷ le8 (if mcs.qam_mod_order == 0 then cw.qam_mod_order else mcs.qam_mod_order)
      ∷ le8 cw.mcs_index
      ∷ le8 table
      ∷ le8 cw.rv_index
      ∷ le32 cw.tb_size
      ∷ [])

unfoldable pub codewords : Bool → List Codeword → List ℕ
codewords force_table0 [] = []
codewords force_table0 (cw ∷ cws) = codeword_bytes force_table0 cw ++ codewords force_table0 cws

-- `scf_pdsch_pdu_end`, 58 bytes.
unfoldable pub pdsch_pdu_end : Pdsch → List ℕ
pdsch_pdu_end pdsch = concat (
    le16 pdsch.nid_pdsch
    ∷ le8 pdsch.num_layers
    ∷ le8 0
    ∷ le8 pdsch.ref_point
    ∷ le16 pdsch.dl_dmrs_symb_pos
    ∷ le8 pdsch.dmrs_type
    ∷ le16 pdsch.pdsch_dmrs_scrambling_id
    ∷ le8 pdsch.nscid
    ∷ le8 pdsch.num_dmrs_cdm_grps_no_data
    ∷ le16 pdsch.dmrs_ports
    ∷ le8 1
    ∷ replicate 36 0
    ∷ le16 pdsch.vrbs.start
    ∷ le16 pdsch.vrbs.size
    ∷ le8 pdsch.vrb_to_prb_mapping
    ∷ le8 pdsch.symbols.start
    ∷ le8 pdsch.symbols.size
    ∷ [])

unfoldable pub serialize_pdsch_pdu : Bool → Pdsch → ℕ → List ℕ
serialize_pdsch_pdu force_table0 pdsch pdu_index = pdu 1 (
    concat (
      le16 0
      ∷ le16 pdsch.rnti
      ∷ le16 pdu_index
      ∷ bwp_bytes pdsch.bwp pdsch.scs pdsch.cp_normal
      ∷ le8 (length pdsch.cws)
      ∷ codewords force_table0 pdsch.cws
      ∷ pdsch_pdu_end pdsch
      ∷ no_beamforming
      ∷ le8 8
      ∷ le8 1
      ∷ []))

-- The debug print of the first five PDUs reads the first codeword. `none`: there is none to read.
unfoldable pub pdsch_debug : ℕ → List Codeword → Option ℕ
pdsch_debug pdsch_dbg_count [] = if ltb pdsch_dbg_count 5 then none else some pdsch_dbg_count
pdsch_debug pdsch_dbg_count (cw ∷ cws) =
    some (if ltb pdsch_dbg_count 5 then pdsch_dbg_count + 1 else pdsch_dbg_count)
