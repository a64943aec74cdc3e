-- ===== src/Tx/Pusch.antt =====
-- `serialize_pusch_pdu` of aerial_bridge/src/msg_translator.cpp.
pub mod Reader
pub mod RoundTrip
use ocudu_aerial_fapi_connec.Common.{
  ℕ, ◌+◌, Bool, true, false, if◌then◌else◌, List, [], ◌∷◌, Option, none, some, replicate,
}
use ocudu_aerial_fapi_connec.Tx.Frame.{Interval, concat, pdu, bwp_bytes, no_beamforming}
use ocudu_aerial_fapi_connec.Wire.{le8, le16, le32}

-- The variant `transform_precoding`: the DMRS identity, or the number of CDM groups without data.
pub data TransformPrecoding : Type 0 where
  enabled : ℕ → TransformPrecoding
  disabled : ℕ → TransformPrecoding

pub record PuschData : Type 0 where
  pub rv_index : ℕ
  pub harq_process_id : ℕ
  pub new_data : Bool
  pub tb_size : ℕ

pub record PuschUci : Type 0 where
  pub harq_ack_bit : ℕ
  pub csi_part1_bit : ℕ
  pub alpha_scaling : ℕ
  pub beta_offset_harq_ack : ℕ
  pub beta_offset_csi1 : ℕ
  pub beta_offset_csi2 : ℕ

-- `target_code_rate` is `static_cast<uint16_t>(pdu.target_code_rate * 10.0f)`.
pub record Pusch : Type 0 where
  pub rnti : ℕ
  pub handle : ℕ
  pub bwp : Interval
  pub scs : ℕ
  pub cp_normal : Bool
  pub target_code_rate : ℕ
  pub qam_mod_order : ℕ
  pub mcs_index : ℕ
  pub mcs_table : ℕ
  pub transform_precoding : TransformPrecoding
  pub nid_pusch : ℕ
  pub num_layers : ℕ
  pub ul_dmrs_symb_pos : ℕ
  pub dmrs_type : ℕ
  pub pusch_dmrs_scrambling_id : ℕ
  pub nscid : ℕ
  pub dmrs_ports : ℕ
  pub vrbs : Interval
  pub tx_direct_current_location : ℕ
  pub symbols : Interval
  pub pusch_data : Option PuschData
  pub pusch_uci : Option PuschUci

abbrev pub is_present : {A : Type 0} → Option A → Bool
is_present none = false
is_present (some a) = true

abbrev pub is_enabled : TransformPrecoding → Bool
is_enabled (enabled identity) = true
is_enabled (disabled groups) = false

-- Bit 0: data, bit 1: UCI, bit 3: DFT-s-OFDM.
pub pusch_bitmap : Pusch → ℕ
pusch_bitmap p =
    (if is_present p.pusch_data then 0x01 else 0)
    + (if is_present p.pusch_uci then 0x02 else 0)
    + (if is_enabled p.transform_precoding then 0x08 else 0)

abbrev pub transform_precoding_flag : TransformPrecoding → ℕ
transform_precoding_flag (enabled identity) = 0
transform_precoding_flag (disabled groups) = 1

abbrev pub dfts_ofdm_dmrs_identity : TransformPrecoding → ℕ
dfts_ofdm_dmrs_identity (enabled identity) = identity
dfts_ofdm_dmrs_identity (disabled groups) = 0

abbrev pub num_dmrs_cdm_grps_no_data : TransformPrecoding → ℕ
num_dmrs_cdm_grps_no_data (enabled identity) = 0
num_dmrs_cdm_grps_no_data (disabled groups) = groups

-- The fields that every PUSCH PDU has.
unfoldable pub pusch_fixed : Pusch → List ℕ
pusch_fixed p = concat (
    le16 (pusch_bitmap p)
    ∷ le16 p.rnti
    ∷ le32 p.handle
    ∷ bwp_bytes p.bwp p.scs p.cp_normal
    ∷ le16 p.target_code_rate
    ∷ le8 p.qam_mod_order
    ∷ le8 p.mcs_index
    ∷ le8 p.mcs_table
    ∷ le8 (transform_precoding_flag p.transform_precoding)
    ∷ le16 p.nid_pusch
    ∷ le8 p.num_layers
    ∷ le16 p.ul_dmrs_symb_pos
    ∷ le8 p.dmrs_type
    ∷ le16 p.pusch_dmrs_scrambling_id
    ∷ le16 (dfts_ofdm_dmrs_identity p.transform_precoding)
    ∷ le8 p.nscid
    ∷ le8 (num_dmrs_cdm_grps_no_data p.transform_precoding)
    ∷ le16 p.dmrs_ports
    ∷ le8 1
    ∷ replicate 36 0
    ∷ le16 p.vrbs.start
    ∷ le16 p.vrbs.size
    ∷ le8 0
    ∷ le8 0
    ∷ le16 p.tx_direct_current_location
    ∷ le8 0
    ∷ le8 p.symbols.start
    ∷ le8 p.symbols.size
    ∷ [])

unfoldable pub pusch_data_bytes : Option PuschData → List ℕ
pusch_data_bytes none = []
pusch_data_bytes (some d) = concat (
    le8 d.rv_index
    ∷ le8 d.harq_process_id
    ∷ le8 (if d.new_data then 1 else 0)
    ∷ le32 d.tb_size
    ∷ le16 0
    ∷ [])

unfoldable pub pusch_uci_bytes : Option PuschUci → List ℕ
pusch_uci_bytes none = []
pusch_uci_bytes (some u) = concat (
    le16 u.harq_ack_bit
    ∷ le16 u.csi_part1_bit
    ∷ le16 0
    ∷ le8 u.alpha_scaling
    ∷ le8 u.beta_offset_harq_ack
    ∷ le8 u.beta_offset_csi1
    ∷ le8 u.beta_offset_csi2
    ∷ [])

-- `scf_pusch_dft_ofdm`.
unfoldable pub dft_ofdm_bytes : TransformPrecoding → List ℕ
dft_ofdm_bytes (enabled identity) = concat (le8 0 ∷ le16 identity ∷ le8 0 ∷ le8 0 ∷ [])
dft_ofdm_bytes (disabled groups) = []

unfoldable pub serialize_pusch_pdu : Pusch → List ℕ
serialize_pusch_pdu p = pdu 1 (
    concat (
      pusch_fixed p
      ∷ pusch_data_bytes p.pusch_data
      ∷ pusch_uci_bytes p.pusch_uci
      ∷ dft_ofdm_bytes p.transform_precoding
      ∷ no_beamforming
      ∷ []))
