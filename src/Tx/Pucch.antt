-- ===== src/Tx/Pucch.antt =====
-- `serialize_pucch_pdu` of aerial_bridge/src/msg_translator.cpp.
use ocudu_aerial_fapi_connec.Common.{
  ℕ, Bool, false, if◌then◌else◌, List, [], ◌∷◌, Option, none, some,
}
use ocudu_aerial_fapi_connec.Tx.Frame.{Interval, concat, pdu, bwp_bytes, no_beamforming}
use ocudu_aerial_fapi_connec.Wire.{le8, le16, le32}

-- The fields of a PUCCH PDU that depend on the format, with the values that the local variables
-- of the serializer have where a format does not set them.
pub record FormatFields : Type 0 where
  pub format_type : ℕ
  pub pi2_bpsk : Bool
  pub hopping_id : ℕ
  pub initial_cyclic_shift : ℕ
  pub data_scrambling_id : ℕ
  pub time_domain_occ_idx : ℕ
  pub pre_dft_occ_idx : ℕ
  pub pre_dft_occ_len : ℕ
  pub add_dmrs_flag : Bool
  pub dmrs_scrambling_id : ℕ
  pub dmrs_cyclic_shift : ℕ
  pub sr_flag : ℕ
  pub bit_len_harq : ℕ
  pub bit_len_csi_part_1 : ℕ

abbrev blank : FormatFields
blank = record {
  format_type = 0;
  pi2_bpsk = false;
  hopping_id = 0;
  initial_cyclic_shift = 0;
  data_scrambling_id = 0;
  time_domain_occ_idx = 0;
  pre_dft_occ_idx = 0;
  pre_dft_occ_len = 0;
  add_dmrs_flag = false;
  dmrs_scrambling_id = 0;
  dmrs_cyclic_shift = 0;
  sr_flag = 0;
  bit_len_harq = 0;
  bit_len_csi_part_1 = 0;
}

pub record Format0 : Type 0 where
  pub nid_pucch_hopping : ℕ
  pub initial_cyclic_shift : ℕ
  pub sr_present : Bool
  pub bit_len_harq : ℕ

pub record Format1 : Type 0 where
  pub nid_pucch_hopping : ℕ
  pub initial_cyclic_shift : ℕ
  pub time_domain_occ_index : ℕ
  pub sr_present : Bool
  pub bit_len_harq : ℕ

pub record Format2 : Type 0 where
  pub nid_pucch_scrambling : ℕ
  pub nid0_pucch_dmrs_scrambling : ℕ
  pub sr_bit_len : ℕ
  pub bit_len_harq : ℕ
  pub csi_part1_bit_length : ℕ

pub record Format3 : Type 0 where
  pub pi2_bpsk : Bool
  pub nid_pucch_hopping : ℕ
  pub nid_pucch_scrambling : ℕ
  pub add_dmrs_flag : Bool
  pub nid0_pucch_dmrs_scrambling : ℕ
  pub m0_pucch_dmrs_cyclic_shift : ℕ
  pub sr_bit_len : ℕ
  pub bit_len_harq : ℕ
  pub csi_part1_bit_length : ℕ

pub record Format4 : Type 0 where
  pub format_3 : Format3
  pub pre_dft_occ_idx : ℕ
  pub pre_dft_occ_len : ℕ

-- The variant `ul_pucch_pdu::format`.
pub data UlPucchFormat : Type 0 where
  format_0 : Format0 → UlPucchFormat
  format_1 : Format1 → UlPucchFormat
  format_2 : Format2 → UlPucchFormat
  format_3 : Format3 → UlPucchFormat
  format_4 : Format4 → UlPucchFormat

abbrev format_3_fields : ℕ → Format3 → FormatFields
format_3_fields number f = record blank {
  format_type = number;
  pi2_bpsk = f.pi2_bpsk;
  hopping_id = f.nid_pucch_hopping;
  data_scrambling_id = f.nid_pucch_scrambling;
  add_dmrs_flag = f.add_dmrs_flag;
  dmrs_scrambling_id = f.nid0_pucch_dmrs_scrambling;
  dmrs_cyclic_shift = f.m0_pucch_dmrs_cyclic_shift;
  sr_flag = f.sr_bit_len;
  bit_len_harq = f.bit_len_harq;
  bit_len_csi_part_1 = f.csi_part1_bit_length;
}

abbrev pub format_fields : UlPucchFormat → FormatFields
format_fields (format_0 f) = record blank {
  hopping_id = f.nid_pucch_hopping;
  initial_cyclic_shift = f.initial_cyclic_shift;
  sr_flag = if f.sr_present then 1 else 0;
  bit_len_harq = f.bit_len_harq;
}
format_fields (format_1 f) = record blank {
  format_type = 1;
  hopping_id = f.nid_pucch_hopping;
  initial_cyclic_shift = f.initial_cyclic_shift;
  time_domain_occ_idx = f.time_domain_occ_index;
  sr_flag = if f.sr_present then 1 else 0;
  bit_len_harq = f.bit_len_harq;
}
format_fields (format_2 f) = record blank {
  format_type = 2;
  data_scrambling_id = f.nid_pucch_scrambling;
  dmrs_scrambling_id = f.nid0_pucch_dmrs_scrambling;
  sr_flag = f.sr_bit_len;
  bit_len_harq = f.bit_len_harq;
  bit_len_csi_part_1 = f.csi_part1_bit_length;
}
format_fields (format_3 f) = format_3_fields 3 f
format_fields (format_4 f) =
    let base = format_3_fields 4 f.format_3 in
    record base { pre_dft_occ_idx = f.pre_dft_occ_idx; pre_dft_occ_len = f.pre_dft_occ_len }

pub record Pucch : Type 0 where
  pub rnti : ℕ
  pub handle : ℕ
  pub bwp : Interval
  pub scs : ℕ
  pub cp_normal : Bool
  pub format : UlPucchFormat
  pub prbs : Interval
  pub symbols : Interval
  pub second_hop_prb : Option ℕ

abbrev flag : Bool → ℕ
flag b = if b then 1 else 0

-- Frequency hopping flag and second hop.
abbrev hop_bytes : Option ℕ → List ℕ
hop_bytes none = concat (le8 0 ∷ le16 0 ∷ [])
hop_bytes (some prb) = concat (le8 1 ∷ le16 prb ∷ [])

unfoldable pub serialize_pucch_pdu : Pucch → List ℕ
serialize_pucch_pdu p =
    let f = format_fields p.format in
    pdu 2 (
      concat (
        le16 p.rnti
        ∷ le32 p.handle
        ∷ bwp_bytes p.bwp p.scs p.cp_normal
        ∷ le8 f.format_type
        ∷ le8 0
        ∷ le8 (flag f.pi2_bpsk)
        ∷ le16 p.prbs.start
        ∷ le16 p.prbs.size
        ∷ le8 p.symbols.start
        ∷ le8 p.symbols.size
        ∷ hop_bytes p.second_hop_prb
        ∷ le8 0
        ∷ le8 0
        ∷ le16 f.hopping_id
        ∷ le16 f.initial_cyclic_shift
        ∷ le16 f.data_scrambling_id
        ∷ le8 f.time_domain_occ_idx
        ∷ le8 f.pre_dft_occ_idx
        ∷ le8 f.pre_dft_occ_len
        ∷ le8 (flag f.add_dmrs_flag)
        ∷ le16 f.dmrs_scrambling_id
        ∷ le8 f.dmrs_cyclic_shift
        ∷ le8 f.sr_flag
        ∷ le16 f.bit_len_harq
        ∷ le16 f.bit_len_csi_part_1
        ∷ le16 0
        ∷ no_beamforming
        ∷ []))
