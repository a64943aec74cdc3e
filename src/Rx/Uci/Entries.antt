-- ===== src/Rx/Uci/Entries.antt =====
-- UCI PDUs as the structs of aerial_bridge/src/msg_translator.cpp lay them out, and what they mean.
use ocudu_aerial_fapi_connec.Common.{
  ℕ, ◌+◌, ◌<◌, ◌≤◌, ◌==◌, Bool, true, false, if◌then◌else◌, List, [], ◌++◌, Option, none, some,
  length,
}
use ocudu_aerial_fapi_connec.Ocudu.{Ocudu}
use ocudu_aerial_fapi_connec.Rx.Indication.{
  Indication, UciBits, UciCommon, format_0, format_1, format_2, format_3, format_4, on_uci_pusch,
  on_uci_pucch_0_1, on_uci_pucch_2_3_4,
}
use ocudu_aerial_fapi_connec.Rx.Uci.Section.{decode_detection_status, num_bytes}
use ocudu_aerial_fapi_connec.Rx.World.{decode_timing_advance}
use ocudu_aerial_fapi_connec.Tx.Bits.{pack_lsb}
use ocudu_aerial_fapi_connec.Wire.{le8, le16, le32}

-- An optional section.
abbrev pub is_some : {A : Type 0} → Option A → Bool
is_some none = false
is_some (some a) = true

abbrev pub bytes_of : {A : Type 0} → (A → List ℕ) → Option A → List ℕ
bytes_of f none = []
bytes_of f (some a) = f a

abbrev pub map_some : {A B : Type 0} → (A → B) → Option A → Option B
map_some f none = none
map_some f (some a) = some (f a)

abbrev pub IfSome : {A : Type 0} → (A → Type 0) → Option A → Type 0
IfSome P none = Unit {0}
IfSome P (some a) = P a

abbrev pub packed : List Bool → List ℕ
packed bits = pack_lsb (num_bytes (length bits)) bits

-- `scf_uci_harq_f2_f3_f4` and `scf_uci_csi_part`.
pub record BitsEntry : Type 0 where
  pub status : ℕ
  pub bits : List Bool

pub record BitsFit (max_bits : ℕ) (e : BitsEntry) : Type 0 where
  pub status_fits : e.status < 256
  pub length_fits : length e.bits < 65536
  pub accepted : length e.bits ≤ max_bits

abbrev pub bits_bytes : BitsEntry → List ℕ
bits_bytes e = le8 e.status ++ (le16 (length e.bits) ++ packed e.bits)

abbrev pub uci_bits : BitsEntry → UciBits
uci_bits e = record {
  detection_status = decode_detection_status e.status;
  expected_bit_length = length e.bits;
  payload = e.bits;
}

-- `scf_uci_sr_f2_f3_f4`.
pub record SrFits (max_bits : ℕ) (bits : List Bool) : Type 0 where
  pub length_fits : length bits < 65536
  pub accepted : length bits ≤ max_bits

abbrev pub sr_bytes : List Bool → List ℕ
sr_bytes bits = le16 (length bits) ++ packed bits

-- `scf_uci_sr_f0_f1`.
pub record Sr01Entry : Type 0 where
  pub sr_indication : ℕ
  pub sr_confidence_level : ℕ

abbrev pub sr01_bytes : Sr01Entry → List ℕ
sr01_bytes e = le8 e.sr_indication ++ le8 e.sr_confidence_level

abbrev pub sr01_of : Sr01Entry → Bool
sr01_of e = if e.sr_indication == 0 then false else true

-- `scf_uci_harq_f0_f1`.
pub record Harq01Entry : Type 0 where
  pub harq_confidence_level : ℕ
  pub harq_values : List ℕ

pub record Harq01Fits (max_num_harq : ℕ) (e : Harq01Entry) : Type 0 where
  pub number_fits : length e.harq_values < 256
  pub accepted : length e.harq_values ≤ max_num_harq

abbrev pub harq01_bytes : Harq01Entry → List ℕ
harq01_bytes e = le8 (length e.harq_values) ++ (le8 e.harq_confidence_level ++ e.harq_values)

-- The fields of `scf_uci_pusch_pdu` and `scf_uci_pucch_pdu` behind the bitmap.
pub record HeadEntry : Type 0 where
  pub handle : ℕ
  pub rnti : ℕ
  pub ul_cqi : ℕ
  pub timing_advance : ℕ
  pub rssi : ℕ

pub record HeadFits (e : HeadEntry) : Type 0 where
  pub handle_fits : e.handle < 4294967296
  pub rnti_fits : e.rnti < 65536
  pub advance_fits : e.timing_advance < 65536
  pub rssi_fits : e.rssi < 65536

-- Bits 0 to 3: scheduling request, HARQ, CSI part 1, CSI part 2.
abbrev pub bitmap_of : Bool → Bool → Bool → Bool → ℕ
bitmap_of sr harq csi1 csi2 =
    (if sr then 1 else 0)
    + (if harq then 2 else 0)
    + (if csi1 then 4 else 0)
    + (if csi2 then 8 else 0)

abbrev pub pusch_head : ℕ → HeadEntry → List ℕ
pusch_head bitmap e =
    le8 bitmap
    ++ (le32 e.handle ++ (le16 e.rnti ++ (le8 e.ul_cqi ++ (le16 e.timing_advance ++ le16 e.rssi))))

abbrev pub pucch_head : ℕ → ℕ → HeadEntry → List ℕ
pucch_head bitmap format e =
    le8 bitmap
    ++ (le32 e.handle
        ++ (le16 e.rnti
            ++ (le8 format ++ (le8 e.ul_cqi ++ (le16 e.timing_advance ++ le16 e.rssi)))))

-- A UCI PDU of each of the three types.
pub data UciEntry : Type 0 where
  pusch_entry : HeadEntry → Option BitsEntry → Option BitsEntry → Option BitsEntry → UciEntry
  pucch01_entry : ℕ → HeadEntry → Option Sr01Entry → Option Harq01Entry → UciEntry
  pucch234_entry :
      ℕ
      → HeadEntry
      → Option (List Bool)
      → Option BitsEntry
      → Option BitsEntry
      → Option BitsEntry
      → UciEntry

abbrev pub type_of : UciEntry → ℕ
type_of (pusch_entry h harq csi1 csi2) = 0
type_of (pucch01_entry f h sr harq) = 1
type_of (pucch234_entry f h sr harq csi1 csi2) = 2

abbrev pub payload_of : UciEntry → List ℕ
payload_of (pusch_entry h harq csi1 csi2) =
    pusch_head (bitmap_of false (is_some harq) (is_some csi1) (is_some csi2)) h
    ++ (bytes_of bits_bytes harq ++ (bytes_of bits_bytes csi1 ++ bytes_of bits_bytes csi2))
payload_of (pucch01_entry f h sr harq) =
    pucch_head (bitmap_of (is_some sr) (is_some harq) false false) f h
    ++ (bytes_of sr01_bytes sr ++ bytes_of harq01_bytes harq)
payload_of (pucch234_entry f h sr harq csi1 csi2) =
    pucch_head (bitmap_of (is_some sr) (is_some harq) (is_some csi1) (is_some csi2)) f h
    ++ (bytes_of sr_bytes sr
        ++ (bytes_of bits_bytes harq ++ (bytes_of bits_bytes csi1 ++ bytes_of bits_bytes csi2)))

-- `scf_uci_pdu`, whose size counts its own four bytes.
abbrev pub uci_bytes : UciEntry → List ℕ
uci_bytes e = le16 (type_of e) ++ (le16 (4 + length (payload_of e)) ++ payload_of e)

module _ {Slot Ta : Type 0} (o : Ocudu Slot Ta) where
  abbrev pub FieldsFit : UciEntry → Type 0
  FieldsFit (pusch_entry h harq csi1 csi2) =
      HeadFits h
      × IfSome (BitsFit o.max_nof_payload_bits) harq
      × IfSome (BitsFit o.max_nof_payload_bits) csi1
      × IfSome (BitsFit o.max_nof_payload_bits) csi2
  FieldsFit (pucch01_entry f h sr harq) =
      (f < 256)
      × HeadFits h
      × IfSome (λ (e : Sr01Entry). e.sr_indication < 256) sr
      × IfSome (Harq01Fits o.max_num_harq) harq
  FieldsFit (pucch234_entry f h sr harq csi1 csi2) =
      (f < 256)
      × HeadFits h
      × IfSome (SrFits o.max_sr_payload_size_bits) sr
      × IfSome (BitsFit o.max_nof_payload_bits) harq
      × IfSome (BitsFit o.max_nof_payload_bits) csi1
      × IfSome (BitsFit o.max_nof_payload_bits) csi2

  -- Fields in range, bit counts that OCUDU accepts, and a size of 16 bits.
  pub record UciFits (e : UciEntry) : Type 0 where
    pub fields : FieldsFit e
    pub size_fits : 4 + length (payload_of e) < 65536

  module _ (numerology : ℕ) where
    abbrev pub common_of : HeadEntry → UciCommon Ta
    common_of e = record {
      handle = e.handle;
      rnti = e.rnti;
      ul_sinr_metric = 0x8000;
      timing_advance_offset = decode_timing_advance o e.timing_advance numerology;
      rssi = e.rssi;
      rsrp = 0xffff;
    }

    -- What the notifier is told of a PDU.
    abbrev pub meaning : Slot → UciEntry → Indication Slot Ta
    meaning sp (pusch_entry h harq csi1 csi2) = on_uci_pusch sp (record {
      common = common_of h;
      harq = map_some uci_bits harq;
      csi_part1 = map_some uci_bits csi1;
      csi_part2 = map_some uci_bits csi2;
    })
    meaning sp (pucch01_entry f h sr harq) = on_uci_pucch_0_1 sp (record {
      common = common_of h;
      pucch_format = if f == 0 then format_0 else format_1;
      sr = map_some sr01_of sr;
      harq = map_some (λ (e : Harq01Entry). e.harq_values) harq;
    })
    meaning sp (pucch234_entry f h sr harq csi1 csi2) = on_uci_pucch_2_3_4 sp (record {
      common = common_of h;
      pucch_format = if f == 0 then format_2 else if f == 1 then format_3 else format_4;
      sr = sr;
      harq = map_some uci_bits harq;
      csi_part1 = map_some uci_bits csi1;
      csi_part2 = map_some uci_bits csi2;
    })
