-- ===== src/Tx/Pdcch.antt =====
-- `serialize_pdcch_pdu` and `serialize_ssb_pdu` of aerial_bridge/src/msg_translator.cpp.
pub mod Reader
pub mod RoundTrip
use ocudu_aerial_fapi_connec.Common.{
  ℕ, ◌+◌, ◌/◌, ◌%◌, ◌^◌, Bool, List, [], ◌∷◌, Option, none, some, length, take,
}
use ocudu_aerial_fapi_connec.Tx.Bits.{pack_msb, pack_lsb}
use ocudu_aerial_fapi_connec.Tx.Frame.{Interval, concat, pdu, bwp_bytes, no_beamforming}
use ocudu_aerial_fapi_connec.Wire.{le8, le16, le32}

-- `dl_ssb_pdu`; `beta_pss` is there for the NR power profile.
pub record Ssb : Type 0 where
  pub phys_cell_id : ℕ
  pub ssb_block_index : ℕ
  pub subcarrier_offset : ℕ
  pub ssb_offset_point_a : ℕ
  pub bch_payload : ℕ
  pub beta_pss : Option ℕ

abbrev pub beta_pss_field : Option ℕ → ℕ
beta_pss_field none = 0
beta_pss_field (some beta) = beta

unfoldable pub serialize_ssb_pdu : Ssb → List ℕ
serialize_ssb_pdu ssb = pdu 3 (
    concat (
      le16 ssb.phys_cell_id
      ∷ le8 (beta_pss_field ssb.beta_pss)
      ∷ le8 ssb.ssb_block_index
      ∷ le8 ssb.subcarrier_offset
      ∷ le16 ssb.ssb_offset_point_a
      ∷ le8 1
      ∷ le32 ssb.bch_payload
      ∷ []))

-- The variant `dl_pdcch_pdu::mapping`.
pub data CceMapping : Type 0 where
  coreset_0 : ℕ → ℕ → ℕ → CceMapping
  interleaved : ℕ → ℕ → ℕ → CceMapping
  non_interleaved : ℕ → CceMapping

-- CCE-REG mapping type, REG bundle size, interleaver size, CORESET type, shift index.
unfoldable pub mapping_bytes : CceMapping → List ℕ
mapping_bytes (coreset_0 reg_bundle_sz interleaver_sz shift_index) =
    concat (le8 0 ∷ le8 reg_bundle_sz ∷ le8 interleaver_sz ∷ le8 1 ∷ le16 shift_index ∷ [])
mapping_bytes (interleaved reg_bundle_sz interleaver_sz shift_index) =
    concat (le8 0 ∷ le8 reg_bundle_sz ∷ le8 interleaver_sz ∷ le8 0 ∷ le16 shift_index ∷ [])
mapping_bytes (non_interleaved reg_bundle_sz) =
    concat (le8 1 ∷ le8 reg_bundle_sz ∷ le8 0 ∷ le8 0 ∷ le16 0 ∷ [])

pub record DlDci : Type 0 where
  pub rnti : ℕ
  pub nid_pdcch_dmrs : ℕ
  pub nrnti_pdcch_data : ℕ
  pub cce_index : ℕ
  pub dci_aggregation_level : ℕ
  pub payload : List Bool

pub record Pdcch : Type 0 where
  pub coreset_bwp : Interval
  pub scs : ℕ
  pub cp_normal : Bool
  pub symbols : Interval
  pub freq_domain_resource : List Bool
  pub mapping : CceMapping
  pub precoder_granularity : ℕ
  pub dl_dci : DlDci

-- `uint16_t payload_size = dci.payload.size()`.
abbrev pub payload_size : DlDci → ℕ
payload_size dci = length dci.payload % 2 ^ 16

-- `scf_dl_dci`, the beamforming and power blocks, and the payload.
unfoldable pub dci_bytes : DlDci → List ℕ
dci_bytes dci = concat (
    le16 dci.rnti
    ∷ le16 dci.nid_pdcch_dmrs
    ∷ le16 dci.nrnti_pdcch_data
    ∷ le8 dci.cce_index
    ∷ le8 dci.dci_aggregation_level
    ∷ no_beamforming
    ∷ le8 0
    ∷ le8 1
    ∷ le16 (payload_size dci)
    ∷ pack_msb ((payload_size dci + 7) / 8) (take (payload_size dci) dci.payload)
    ∷ [])

unfoldable pub serialize_pdcch_pdu : Pdcch → List ℕ
serialize_pdcch_pdu pdcch = pdu 0 (
    concat (
      bwp_bytes pdcch.coreset_bwp pdcch.scs pdcch.cp_normal
      ∷ le8 pdcch.symbols.start
      ∷ le8 pdcch.symbols.size
      ∷ pack_lsb 6 (take 45 pdcch.freq_domain_resource)
      ∷ mapping_bytes pdcch.mapping
      ∷ le8 pdcch.precoder_granularity
      ∷ le16 1
      ∷ dci_bytes pdcch.dl_dci
      ∷ []))
