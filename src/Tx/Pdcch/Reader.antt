-- ===== src/Tx/Pdcch/Reader.antt =====
-- A reader of the PDCCH PDUs that aerial_bridge/src/msg_translator.cpp writes, at the offsets of the
-- structs of include/aerial_bridge/msg_translator.h.
use ocudu_aerial_fapi_connec.Common.{
  ℕ, ◌+◌, ◌/◌, ◌<◌, ◌≡◌, refl, ap, sym, ◌∙◌, Bool, ◌==◌, if◌then◌else◌, List, [], ◌∷◌, ◌++◌,
  append-nil, Option, some, ◌>>=◌, length, take, take-append, arith,
}
use ocudu_aerial_fapi_connec.Rx.Uci.Section.{payload_bits}
use ocudu_aerial_fapi_connec.Tx.Bits.{pack_msb}
use ocudu_aerial_fapi_connec.Tx.Bits.Msb.{msb_bits, msb_bits-pack_msb}
use ocudu_aerial_fapi_connec.Tx.Frame.{no_beamforming}
use ocudu_aerial_fapi_connec.Tx.Pdcch.{
  CceMapping, coreset_0, interleaved, non_interleaved, mapping_bytes, DlDci, Pdcch, payload_size,
  dci_bytes,
}
use ocudu_aerial_fapi_connec.Wire.{le8, le16, load8, load16, one_byte, two_bytes}
use ocudu_aerial_fapi_connec.Wire.Cursor.{At, At-left, At-right, load8-At, load16-At}

-- The mapping, by its type and the CORESET type.
unfoldable pub read_mapping : List ℕ → ℕ → Option CceMapping
read_mapping buf q = do
  kind ← load8 buf q
  reg_bundle_sz ← load8 buf (q + 1)
  interleaver_sz ← load8 buf (q + 2)
  coreset_type ← load8 buf (q + 3)
  shift_index ← load16 buf (q + 4)
  some (
      if kind == 1
      then non_interleaved reg_bundle_sz
      else if coreset_type == 1
      then coreset_0 reg_bundle_sz interleaver_sz shift_index
      else interleaved reg_bundle_sz interleaver_sz shift_index)

-- `scf_dl_dci`, and behind the beamforming and power blocks `scf_pdcch_dci_payload`.
unfoldable pub read_dci : List ℕ → ℕ → Option DlDci
read_dci buf q = do
  rnti ← load16 buf q
  nid ← load16 buf (q + 2)
  nrnti ← load16 buf (q + 4)
  cce_index ← load8 buf (q + 6)
  level ← load8 buf (q + 7)
  bits ← load16 buf (q + 15)
  payload ← msb_bits bits buf (q + 17) 0
  some (record {
    rnti = rnti;
    nid_pdcch_dmrs = nid;
    nrnti_pdcch_data = nrnti;
    cce_index = cce_index;
    dci_aggregation_level = level;
    payload = payload;
  })

-- A whole PDU, with its 45 bits of frequency resources.
unfoldable pub read_pdcch : List ℕ → Option Pdcch
read_pdcch buf = do
  bwp_size ← load16 buf 4
  bwp_start ← load16 buf 6
  scs ← load8 buf 8
  cp ← load8 buf 9
  first ← load8 buf 10
  count ← load8 buf 11
  resources ← payload_bits 45 buf 12 0
  mapping ← read_mapping buf 18
  granularity ← load8 buf 24
  dci ← read_dci buf 27
  some (record {
    coreset_bwp = record { start = bwp_start; size = bwp_size };
    scs = scs;
    cp_normal = cp == 0;
    symbols = record { start = first; size = count };
    freq_domain_resource = resources;
    mapping = mapping;
    precoder_granularity = granularity;
    dl_dci = dci;
  })

abbrev pub MappingFits : CceMapping → Type 0
MappingFits (coreset_0 reg il shift) = (reg < 256) × (il < 256) × (shift < 65536)
MappingFits (interleaved reg il shift) = (reg < 256) × (il < 256) × (shift < 65536)
MappingFits (non_interleaved reg) = reg < 256

pub record DciFits (d : DlDci) : Type 0 where
  pub rnti_fits : d.rnti < 65536
  pub nid_fits : d.nid_pdcch_dmrs < 65536
  pub nrnti_fits : d.nrnti_pdcch_data < 65536
  pub cce_fits : d.cce_index < 256
  pub level_fits : d.dci_aggregation_level < 256
  pub payload_fits : length d.payload < 65536

-- Fields that fit the structs' fields, and a frequency resource of 45 bits.
pub record PdcchFits (p : Pdcch) : Type 0 where
  pub size_fits : p.coreset_bwp.size < 65536
  pub start_fits : p.coreset_bwp.start < 65536
  pub scs_fits : p.scs < 256
  pub first_fits : p.symbols.start < 256
  pub count_fits : p.symbols.size < 256
  pub resources : length p.freq_domain_resource ≡ 45
  pub mapping_fits : MappingFits p.mapping
  pub granularity_fits : p.precoder_granularity < 256
  pub dci_fits : DciFits p.dl_dci

pub length-mapping_bytes : (m : CceMapping) → length (mapping_bytes m) ≡ 6
unfolding mapping_bytes
length-mapping_bytes (coreset_0 reg il shift) = refl
length-mapping_bytes (interleaved reg il shift) = refl
length-mapping_bytes (non_interleaved reg) = refl

pub read_mapping_lem :
    (m : CceMapping) (buf : List ℕ) (q : ℕ)
    → MappingFits m
    → At buf q (mapping_bytes m)
    → read_mapping buf q ≡ some m
unfolding read_mapping mapping_bytes load8 load16
read_mapping_lem (coreset_0 reg il shift) buf q (hr, hi, hs) a =
    let xs = mapping_bytes (coreset_0 reg il shift) in
    rw
      (
        load8-At buf q xs a q 0 (omega arith) (omega arith),
        load8-At buf q xs a (q + 1) 1 refl (omega arith) ∙ ap some (one_byte reg hr),
        load8-At buf q xs a (q + 2) 2 refl (omega arith) ∙ ap some (one_byte il hi),
        load8-At buf q xs a (q + 3) 3 refl (omega arith),
        load16-At buf q xs a (q + 4) 4 refl (omega arith) ∙ ap some (two_bytes shift hs),
      )
      refl
read_mapping_lem (interleaved reg il shift) buf q (hr, hi, hs) a =
    let xs = mapping_bytes (interleaved reg il shift) in
    rw
      (
        load8-At buf q xs a q 0 (omega arith) (omega arith),
        load8-At buf q xs a (q + 1) 1 refl (omega arith) ∙ ap some (one_byte reg hr),
        load8-At buf q xs a (q + 2) 2 refl (omega arith) ∙ ap some (one_byte il hi),
        load8-At buf q xs a (q + 3) 3 refl (omega arith),
        load16-At buf q xs a (q + 4) 4 refl (omega arith) ∙ ap some (two_bytes shift hs),
      )
      refl
read_mapping_lem (non_interleaved reg) buf q hr a =
    let xs = mapping_bytes (non_interleaved reg) in
    rw
      (
        load8-At buf q xs a q 0 (omega arith) (omega arith),
        load8-At buf q xs a (q + 1) 1 refl (omega arith) ∙ ap some (one_byte reg hr),
        load8-At buf q xs a (q + 2) 2 refl (omega arith),
        load8-At buf q xs a (q + 3) 3 refl (omega arith),
        load16-At buf q xs a (q + 4) 4 refl (omega arith),
      )
      refl

-- `take` of a whole list.
pub take-whole : (n : ℕ) (bs : List Bool) → n ≡ length bs → take n bs ≡ bs
take-whole n bs e =
    ap (λ (k : ℕ). take k bs) e ∙ ap (take (length bs)) (sym (append-nil bs)) ∙ take-append bs []

module _ (d : DlDci) (fits : DciFits d) (buf : List ℕ) (q : ℕ) (a : At buf q (dci_bytes d)) where
  abbrev bits : ℕ
  bits = length d.payload

  -- The payload's size is not cut, and neither is the payload.
  size_kept : payload_size d ≡ bits
  size_kept = omega (arith, fits.payload_fits)

  -- All that stands before the payload's bits: 17 bytes.
  abbrev front : List ℕ
  front =
      le16 d.rnti
      ++ (le16 d.nid_pdcch_dmrs
          ++ (le16 d.nrnti_pdcch_data
              ++ (le8 d.cce_index
                  ++ (le8 d.dci_aggregation_level
                      ++ (0 ∷ 0 ∷ 0 ∷ 0 ∷ 0 ∷ 0 ∷ 1 ∷ le16 (payload_size d))))))

  abbrev bytes : List ℕ
  bytes = pack_msb ((bits + 7) / 8) d.payload

  shape : dci_bytes d ≡ front ++ bytes
  unfolding dci_bytes no_beamforming
  shape =
      ap (λ (xs : List ℕ). front ++ xs)
        (append-nil (pack_msb ((payload_size d + 7) / 8) (take (payload_size d) d.payload))
          ∙ ap (λ (n : ℕ). pack_msb ((n + 7) / 8) (take n d.payload)) size_kept
          ∙ ap (pack_msb ((bits + 7) / 8)) (take-whole bits d.payload refl))

  here : At buf q (front ++ bytes)
  here = rw shape at a

  pub read_dci_lem : read_dci buf q ≡ some d
  unfolding read_dci load8 load16
  read_dci_lem =
      let f = At-left buf q front bytes here in
      rw
        (
          load16-At buf q front f q 0 (omega arith) (omega arith)
              ∙ ap some (two_bytes d.rnti fits.rnti_fits),
          load16-At buf q front f (q + 2) 2 refl (omega arith)
              ∙ ap some (two_bytes d.nid_pdcch_dmrs fits.nid_fits),
          load16-At buf q front f (q + 4) 4 refl (omega arith)
              ∙ ap some (two_bytes d.nrnti_pdcch_data fits.nrnti_fits),
          load8-At buf q front f (q + 6) 6 refl (omega arith)
              ∙ ap some (one_byte d.cce_index fits.cce_fits),
          load8-At buf q front f (q + 7) 7 refl (omega arith)
              ∙ ap some (one_byte d.dci_aggregation_level fits.level_fits),
          load16-At buf q front f (q + 15) 15 refl (omega arith)
              ∙ ap some (two_bytes (payload_size d) (omega (arith, fits.payload_fits)) ∙ size_kept),
          msb_bits-pack_msb d.payload buf (q + 17) (At-right buf q front bytes here),
        )
        refl
