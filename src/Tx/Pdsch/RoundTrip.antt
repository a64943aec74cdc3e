-- ===== src/Tx/Pdsch/RoundTrip.antt =====
-- Reading back the PDSCH PDUs that aerial_bridge/src/msg_translator.cpp writes, at the offsets of the
-- structs of include/aerial_bridge/msg_translator.h.
use ocudu_aerial_fapi_connec.Common.{
  ℕ, ◌+◌, ◌*◌, ◌<◌, ◌≡◌, refl, ap, sym, ◌∙◌, Bool, ◌==◌, List, [], ◌∷◌, ◌++◌, append-nil, All, map,
  Option, some, ◌>>=◌, length, arith,
}
use ocudu_aerial_fapi_connec.Tx.Frame.{Interval, pdu, bwp_bytes, no_beamforming}
use ocudu_aerial_fapi_connec.Tx.Pdcch.RoundTrip.{cp-normal}
use ocudu_aerial_fapi_connec.Tx.Pdsch.{Pdsch, codewords, pdsch_pdu_end, serialize_pdsch_pdu}
use ocudu_aerial_fapi_connec.Tx.Pdsch.Codewords.{
  CodewordView, CodewordFits, codeword_view, read_codewords, length-codewords, read_codewords_lem,
}
use ocudu_aerial_fapi_connec.Wire.{le8, le16, load8, load16, one_byte, two_bytes}
use ocudu_aerial_fapi_connec.Wire.Cursor.{At, At-left, At-right, load8-At, load16-At}

-- What L1 reads of a PDU. Allocation type 1 is read from the first RB and the number of RBs.
pub record PdschView : Type 0 where
  pub rnti : ℕ
  pub pdu_index : ℕ
  pub bwp : Interval
  pub scs : ℕ
  pub cp_normal : Bool
  pub cws : List CodewordView
  pub nid_pdsch : ℕ
  pub num_layers : ℕ
  pub ref_point : ℕ
  pub dl_dmrs_symb_pos : ℕ
  pub dmrs_type : ℕ
  pub pdsch_dmrs_scrambling_id : ℕ
  pub nscid : ℕ
  pub num_dmrs_cdm_grps_no_data : ℕ
  pub dmrs_ports : ℕ
  pub resource_alloc : ℕ
  pub vrbs : Interval
  pub vrb_to_prb_mapping : ℕ
  pub symbols : Interval

-- The fixed fields, the codewords that they announce, and `scf_pdsch_pdu_end` behind these.
unfoldable pub read_pdsch : List ℕ → Option PdschView
read_pdsch buf = do
  rnti ← load16 buf 6
  index ← load16 buf 8
  bwp_size ← load16 buf 10
  bwp_start ← load16 buf 12
  scs ← load8 buf 14
  cp ← load8 buf 15
  num_cw ← load8 buf 16
  cws ← read_codewords num_cw buf 17
  let q = 17 + 10 * num_cw
  nid ← load16 buf q
  layers ← load8 buf (q + 2)
  ref ← load8 buf (q + 4)
  pos ← load16 buf (q + 5)
  dmrs ← load8 buf (q + 7)
  scrambling ← load16 buf (q + 8)
  nscid ← load8 buf (q + 10)
  groups ← load8 buf (q + 11)
  ports ← load16 buf (q + 12)
  alloc ← load8 buf (q + 14)
  rb_start ← load16 buf (q + 51)
  rb_size ← load16 buf (q + 53)
  mapping ← load8 buf (q + 55)
  first ← load8 buf (q + 56)
  count ← load8 buf (q + 57)
  some (record {
    rnti = rnti;
    pdu_index = index;
    bwp = record { start = bwp_start; size = bwp_size };
    scs = scs;
    cp_normal = cp == 0;
    cws = cws;
    nid_pdsch = nid;
    num_layers = layers;
    ref_point = ref;
    dl_dmrs_symb_pos = pos;
    dmrs_type = dmrs;
    pdsch_dmrs_scrambling_id = scrambling;
    nscid = nscid;
    num_dmrs_cdm_grps_no_data = groups;
    dmrs_ports = ports;
    resource_alloc = alloc;
    vrbs = record { start = rb_start; size = rb_size };
    vrb_to_prb_mapping = mapping;
    symbols = record { start = first; size = count };
  })

-- Fields that fit the structs' fields.
pub record PdschFits (p : Pdsch) : Type 0 where
  pub rnti_fits : p.rnti < 65536
  pub bwp_size_fits : p.bwp.size < 65536
  pub bwp_start_fits : p.bwp.start < 65536
  pub scs_fits : p.scs < 256
  pub few_codewords : length p.cws < 256
  pub codewords_fit : All CodewordFits p.cws
  pub nid_fits : p.nid_pdsch < 65536
  pub layers_fit : p.num_layers < 256
  pub ref_fits : p.ref_point < 256
  pub pos_fits : p.dl_dmrs_symb_pos < 65536
  pub dmrs_fits : p.dmrs_type < 256
  pub scrambling_fits : p.pdsch_dmrs_scrambling_id < 65536
  pub nscid_fits : p.nscid < 256
  pub groups_fit : p.num_dmrs_cdm_grps_no_data < 256
  pub ports_fit : p.dmrs_ports < 65536
  pub rb_start_fits : p.vrbs.start < 65536
  pub rb_size_fits : p.vrbs.size < 65536
  pub mapping_fits : p.vrb_to_prb_mapping < 256
  pub first_fits : p.symbols.start < 256
  pub count_fits : p.symbols.size < 256

-- The fields of the request, with the codewords by the MCS tables.
abbrev pub pdsch_view : Bool → Pdsch → ℕ → PdschView
pdsch_view force_table0 p index = record {
  rnti = p.rnti;
  pdu_index = index;
  bwp = p.bwp;
  scs = p.scs;
  cp_normal = p.cp_normal;
  cws = map (codeword_view force_table0) p.cws;
  nid_pdsch = p.nid_pdsch;
  num_layers = p.num_layers;
  ref_point = p.ref_point;
  dl_dmrs_symb_pos = p.dl_dmrs_symb_pos;
  dmrs_type = p.dmrs_type;
  pdsch_dmrs_scrambling_id = p.pdsch_dmrs_scrambling_id;
  nscid = p.nscid;
  num_dmrs_cdm_grps_no_data = p.num_dmrs_cdm_grps_no_data;
  dmrs_ports = p.dmrs_ports;
  resource_alloc = 1;
  vrbs = p.vrbs;
  vrb_to_prb_mapping = p.vrb_to_prb_mapping;
  symbols = p.symbols;
}

module _ (force_table0 : Bool) (p : Pdsch) (index : ℕ) where
  abbrev buf : List ℕ
  buf = serialize_pdsch_pdu force_table0 p index

  abbrev cws : List ℕ
  cws = codewords force_table0 p.cws

  abbrev n : ℕ
  n = length p.cws

  abbrev tail : List ℕ
  tail = no_beamforming ++ (8 ∷ 1 ∷ [])

  abbrev fields : List ℕ
  fields = le16 0 ++ (le16 p.rnti ++ (le16 index ++ (bwp_bytes p.bwp p.scs p.cp_normal ++ le8 n)))

  abbrev start : List ℕ
  start = le16 1 ++ (le16 (4 + length (fields ++ (cws ++ (pdsch_pdu_end p ++ tail)))) ++ fields)

  shape : buf ≡ start ++ (cws ++ (pdsch_pdu_end p ++ tail))
  unfolding serialize_pdsch_pdu pdu bwp_bytes
  shape =
      ap
        (λ (xs : List ℕ).
          le16 1 ++ (le16 (4 + length (fields ++ (cws ++ (pdsch_pdu_end p ++ tail)))) ++ xs))
        (append-nil (fields ++ (cws ++ (pdsch_pdu_end p ++ tail))))

  everything : At buf 0 (start ++ (cws ++ (pdsch_pdu_end p ++ tail)))
  everything = record { pre = []; rest = []; split = shape ∙ sym (append-nil _); offset = refl }

  head : At buf 0 start
  head = At-left buf 0 start (cws ++ (pdsch_pdu_end p ++ tail)) everything

  behind : At buf 17 (cws ++ (pdsch_pdu_end p ++ tail))
  unfolding bwp_bytes
  behind = At-right buf 0 start (cws ++ (pdsch_pdu_end p ++ tail)) everything

  ending : At buf (17 + 10 * n) (pdsch_pdu_end p)
  ending =
      let q : 17 + length cws ≡ 17 + 10 * n = omega (arith, length-codewords force_table0 p.cws) in
      At-left buf (17 + 10 * n) (pdsch_pdu_end p) tail
        (rw q at (At-right buf 17 cws (pdsch_pdu_end p ++ tail) behind))

  -- A PDSCH PDU whose fields fit the structs' fields is read back from the bytes written for it: the
  -- request's fields, the index given to it, and for each codeword its transport block size with the
  -- modulation order and code rate that the MCS tables have for it.
  pub serialize_pdsch_pdu-read_pdsch :
      PdschFits p
      → index < 65536
      → read_pdsch (serialize_pdsch_pdu force_table0 p index)
        ≡ some (pdsch_view force_table0 p index)
  unfolding read_pdsch load8 load16 bwp_bytes pdsch_pdu_end
  serialize_pdsch_pdu-read_pdsch fits index_fits =
      let q = 17 + 10 * n in
      let xs = pdsch_pdu_end p in
      rw
        (
          load16-At buf 0 start head 6 6 refl (omega arith)
              ∙ ap some (two_bytes p.rnti fits.rnti_fits),
          load16-At buf 0 start head 8 8 refl (omega arith) ∙ ap some (two_bytes index index_fits),
          load16-At buf 0 start head 10 10 refl (omega arith)
              ∙ ap some (two_bytes p.bwp.size fits.bwp_size_fits),
          load16-At buf 0 start head 12 12 refl (omega arith)
              ∙ ap some (two_bytes p.bwp.start fits.bwp_start_fits),
          load8-At buf 0 start head 14 14 refl (omega arith)
              ∙ ap some (one_byte p.scs fits.scs_fits),
          load8-At buf 0 start head 15 15 refl (omega arith),
          load8-At buf 0 start head 16 16 refl (omega arith)
              ∙ ap some (one_byte n fits.few_codewords),
          read_codewords_lem force_table0 p.cws buf 17 fits.codewords_fit
              (At-left buf 17 cws (pdsch_pdu_end p ++ tail) behind),
          load16-At buf q xs ending q 0 (omega arith) (omega arith)
              ∙ ap some (two_bytes p.nid_pdsch fits.nid_fits),
          load8-At buf q xs ending (q + 2) 2 refl (omega arith)
              ∙ ap some (one_byte p.num_layers fits.layers_fit),
          load8-At buf q xs ending (q + 4) 4 refl (omega arith)
              ∙ ap some (one_byte p.ref_point fits.ref_fits),
          load16-At buf q xs ending (q + 5) 5 refl (omega arith)
              ∙ ap some (two_bytes p.dl_dmrs_symb_pos fits.pos_fits),
          load8-At buf q xs ending (q + 7) 7 refl (omega arith)
              ∙ ap some (one_byte p.dmrs_type fits.dmrs_fits),
          load16-At buf q xs ending (q + 8) 8 refl (omega arith)
              ∙ ap some (two_bytes p.pdsch_dmrs_scrambling_id fits.scrambling_fits),
          load8-At buf q xs ending (q + 10) 10 refl (omega arith)
              ∙ ap some (one_byte p.nscid fits.nscid_fits),
          load8-At buf q xs ending (q + 11) 11 refl (omega arith)
              ∙ ap some (one_byte p.num_dmrs_cdm_grps_no_data fits.groups_fit),
          load16-At buf q xs ending (q + 12) 12 refl (omega arith)
              ∙ ap some (two_bytes p.dmrs_ports fits.ports_fit),
          load8-At buf q xs ending (q + 14) 14 refl (omega arith),
          load16-At buf q xs ending (q + 51) 51 refl (omega arith)
              ∙ ap some (two_bytes p.vrbs.start fits.rb_start_fits),
          load16-At buf q xs ending (q + 53) 53 refl (omega arith)
              ∙ ap some (two_bytes p.vrbs.size fits.rb_size_fits),
          load8-At buf q xs ending (q + 55) 55 refl (omega arith)
              ∙ ap some (one_byte p.vrb_to_prb_mapping fits.mapping_fits),
          load8-At buf q xs ending (q + 56) 56 refl (omega arith)
              ∙ ap some (one_byte p.symbols.start fits.first_fits),
          load8-At buf q xs ending (q + 57) 57 refl (omega arith)
              ∙ ap some (one_byte p.symbols.size fits.count_fits),
          cp-normal p.cp_normal,
        )
        refl
