-- ===== src/Tx/Pdsch/Codewords.antt =====
-- Reading back the codewords of the PDSCH PDUs that aerial_bridge/src/msg_translator.cpp writes, at the offsets of the
-- structs of include/aerial_bridge/msg_translator.h.
use ocudu_aerial_fapi_connec.Common.{
  ℕ, zero, suc, ◌+◌, ◌*◌, ◌%◌, ◌<◌, ◌≡◌, refl, ap, ◌∙◌, Bool, ◌==◌, if◌then◌else◌, List, [], ◌∷◌,
  ◌++◌, All, map, Option, some, ◌>>=◌, length, length-append, arith,
}
use ocudu_aerial_fapi_connec.Tx.Mcs.{McsEntry, get_pdsch_mcs_entry, get_effective_pdsch_mcs_table}
use ocudu_aerial_fapi_connec.Tx.Mcs.Range.{IsMcs, get_pdsch_mcs_entry-IsMcs}
use ocudu_aerial_fapi_connec.Tx.Pdsch.{Codeword, codeword_bytes, codewords}
use ocudu_aerial_fapi_connec.Wire.{
  le8, le16, le32, load8, load16, load32, one_byte, two_bytes, four_bytes,
}
use ocudu_aerial_fapi_connec.Wire.Cursor.{At, At-left, At-right, load8-At, load16-At, load32-At}

-- `scf_pdsch_codeword`.
pub record CodewordView : Type 0 where
  pub target_code_rate : ℕ
  pub qam_mod_order : ℕ
  pub mcs_index : ℕ
  pub mcs_table : ℕ
  pub rv_index : ℕ
  pub tb_size : ℕ

unfoldable pub read_codeword : List ℕ → ℕ → Option CodewordView
read_codeword buf q = do
  rate ← load16 buf q
  order ← load8 buf (q + 2)
  index ← load8 buf (q + 3)
  table ← load8 buf (q + 4)
  rv ← load8 buf (q + 5)
  size ← load32 buf (q + 6)
  some (record {
    target_code_rate = rate;
    qam_mod_order = order;
    mcs_index = index;
    mcs_table = table;
    rv_index = rv;
    tb_size = size;
  })

unfoldable pub read_codewords : ℕ → List ℕ → ℕ → Option (List CodewordView)
read_codewords zero buf q = some []
read_codewords (suc n) buf q = do
  cw ← read_codeword buf q
  rest ← read_codewords n buf (q + 10)
  some (cw ∷ rest)

pub record CodewordFits (cw : Codeword) : Type 0 where
  pub index_fits : cw.mcs_index < 256
  pub table_fits : cw.mcs_table < 256
  pub rv_fits : cw.rv_index < 256
  pub size_fits : cw.tb_size < 4294967296

module _ (force_table0 : Bool) where
  abbrev pub table_of : Codeword → ℕ
  table_of cw = get_effective_pdsch_mcs_table force_table0 cw.mcs_table

  abbrev pub mcs_of : Codeword → McsEntry
  mcs_of cw = get_pdsch_mcs_entry (table_of cw) cw.mcs_index

  -- What L1 is told of a codeword: the rate and the order are those of the MCS tables.
  abbrev pub codeword_view : Codeword → CodewordView
  codeword_view cw = record {
    target_code_rate = (mcs_of cw).target_code_rate;
    qam_mod_order = (mcs_of cw).qam_mod_order;
    mcs_index = cw.mcs_index;
    mcs_table = table_of cw;
    rv_index = cw.rv_index;
    tb_size = cw.tb_size;
  }

  table_of-small : (cw : Codeword) → CodewordFits cw → table_of cw < 256
  table_of-small cw fits = ground (arith, fits.table_fits)

  order_lem :
      (m : McsEntry) (own : ℕ)
      → IsMcs m
      → (if m.qam_mod_order == 0 then own else m.qam_mod_order) % 256 ≡ m.qam_mod_order
  order_lem m own h = ground (arith, h.at_least_qpsk, h.at_most_1024qam)

  -- The bytes of a codeword, by the table and the index that are looked up.
  abbrev looked_up : ℕ → ℕ → Codeword → List ℕ
  looked_up requested index cw =
      let table = get_effective_pdsch_mcs_table force_table0 requested in
      let mcs = get_pdsch_mcs_entry table index in
      le16 mcs.target_code_rate
      ++ (le8 (if mcs.qam_mod_order == 0 then cw.qam_mod_order else mcs.qam_mod_order)
          ++ (le8 cw.mcs_index ++ (le8 table ++ (le8 cw.rv_index ++ (le32 cw.tb_size ++ [])))))

  codeword_bytes-looked_up :
      (cw : Codeword)
      → CodewordFits cw
      → codeword_bytes force_table0 cw ≡ looked_up cw.mcs_table cw.mcs_index cw
  unfolding codeword_bytes
  codeword_bytes-looked_up cw fits =
      ap (λ (t : ℕ). looked_up t (cw.mcs_index % 256) cw) (one_byte cw.mcs_table fits.table_fits)
      ∙ ap (λ (i : ℕ). looked_up cw.mcs_table i cw) (one_byte cw.mcs_index fits.index_fits)

  read_codeword_lem :
      (cw : Codeword) (buf : List ℕ) (q : ℕ)
      → CodewordFits cw
      → At buf q (codeword_bytes force_table0 cw)
      → read_codeword buf q ≡ some (codeword_view cw)
  unfolding read_codeword load8 load16 load32
  read_codeword_lem cw buf q fits a =
      let xs = looked_up cw.mcs_table cw.mcs_index cw in
      let m = mcs_of cw in
      let h = get_pdsch_mcs_entry-IsMcs (table_of cw) cw.mcs_index in
      let b : At buf q xs = rw (codeword_bytes-looked_up cw fits) at a in
      rw
        (
          load16-At buf q xs b q 0 (omega arith) (omega arith)
              ∙ ap some (two_bytes m.target_code_rate (omega (arith, h.rate))),
          load8-At buf q xs b (q + 2) 2 refl (omega arith)
              ∙ ap some (order_lem m cw.qam_mod_order h),
          load8-At buf q xs b (q + 3) 3 refl (omega arith)
              ∙ ap some (one_byte cw.mcs_index fits.index_fits),
          load8-At buf q xs b (q + 4) 4 refl (omega arith)
              ∙ ap some (one_byte (table_of cw) (table_of-small cw fits)),
          load8-At buf q xs b (q + 5) 5 refl (omega arith)
              ∙ ap some (one_byte cw.rv_index fits.rv_fits),
          load32-At buf q xs b (q + 6) 6 refl (omega arith)
              ∙ ap some (four_bytes cw.tb_size fits.size_fits),
        )
        refl

  length-codeword_bytes : (cw : Codeword) → length (codeword_bytes force_table0 cw) ≡ 10
  unfolding codeword_bytes
  length-codeword_bytes cw = refl

  pub length-codewords :
      (cws : List Codeword) → length (codewords force_table0 cws) ≡ 10 * length cws
  unfolding codewords
  length-codewords [] = refl
  length-codewords (cw ∷ cws) = omega (
    arith,
    length-append (codeword_bytes force_table0 cw) (codewords force_table0 cws),
    length-codeword_bytes cw,
    length-codewords cws,
  )

  pub read_codewords_lem :
      (cws : List Codeword) (buf : List ℕ) (q : ℕ)
      → All CodewordFits cws
      → At buf q (codewords force_table0 cws)
      → read_codewords (length cws) buf q ≡ some (map codeword_view cws)
  unfolding read_codewords codewords
  read_codewords_lem [] buf q h a = refl
  read_codewords_lem (cw ∷ cws) buf q (h, hs) a =
      let first = codeword_bytes force_table0 cw in
      let rest = codewords force_table0 cws in
      let next : q + length first ≡ q + 10 = omega (arith, length-codeword_bytes cw) in
      rw
        (
          read_codeword_lem cw buf q h (At-left buf q first rest a),
          read_codewords_lem cws buf (q + 10) hs (rw next at (At-right buf q first rest a)),
        )
        refl
