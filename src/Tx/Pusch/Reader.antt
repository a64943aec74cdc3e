-- ===== src/Tx/Pusch/Reader.antt =====
-- An independent reader of the PUSCH PDUs that aerial_bridge/src/msg_translator.cpp writes: it finds
-- the optional sections by the PDU bitmap alone.
use ocudu_aerial_fapi_connec.Common.{
  ℕ, ◌+◌, ◌/◌, ◌%◌, ◌<◌, ◌≡◌, refl, Bool, true, false, ◌==◌, if◌then◌else◌, List, ◌++◌, Option,
  none, some, ◌>>=◌, length, drop, arith,
}
use ocudu_aerial_fapi_connec.Tx.Pusch.{
  TransformPrecoding, enabled, disabled, PuschData, PuschUci, is_present, is_enabled,
  pusch_data_bytes, pusch_uci_bytes, dft_ofdm_bytes,
}
use ocudu_aerial_fapi_connec.Wire.{
  load8, load16, load32, one_byte, two_bytes, four_bytes, load8_behind, load16_behind,
  load32_behind,
}

pub record PuschView : Type 0 where
  pub rnti : ℕ
  pub handle : ℕ
  pub pusch_data : Option PuschData
  pub pusch_uci : Option PuschUci
  pub dmrs_identity : Option ℕ
  pub trailer : List ℕ

pub read_data : Bool → List ℕ → ℕ → Option (Option PuschData)
read_data false buf p = some none
read_data true buf p = do
  rv ← load8 buf p
  harq ← load8 buf (p + 1)
  new_data ← load8 buf (p + 2)
  tb_size ← load32 buf (p + 3)
  some (
      some (record {
        rv_index = rv;
        harq_process_id = harq;
        new_data = new_data == 1;
        tb_size = tb_size;
      }))

pub read_uci : Bool → List ℕ → ℕ → Option (Option PuschUci)
read_uci false buf p = some none
read_uci true buf p = do
  harq ← load16 buf p
  csi1 ← load16 buf (p + 2)
  alpha ← load8 buf (p + 6)
  beta_harq ← load8 buf (p + 7)
  beta_csi1 ← load8 buf (p + 8)
  beta_csi2 ← load8 buf (p + 9)
  some (
      some (record {
        harq_ack_bit = harq;
        csi_part1_bit = csi1;
        alpha_scaling = alpha;
        beta_offset_harq_ack = beta_harq;
        beta_offset_csi1 = beta_csi1;
        beta_offset_csi2 = beta_csi2;
      }))

pub read_dft : Bool → List ℕ → ℕ → Option (Option ℕ)
read_dft false buf p = some none
read_dft true buf p = do identity ← load16 buf (p + 1); some (some identity)

-- Sections of 9, 10 and 5 bytes behind 86 bytes, present as bits 0, 1 and 3 of the bitmap say.
unfoldable pub read_pusch : List ℕ → Option PuschView
read_pusch buf = do
  bitmap ← load16 buf 4
  rnti ← load16 buf 6
  handle ← load32 buf 8
  let has_data = bitmap % 2 == 1
  let has_uci = bitmap / 2 % 2 == 1
  let has_dft = bitmap / 8 % 2 == 1
  let uci_at : ℕ = 86 + (if has_data then 9 else 0)
  let dft_at : ℕ = uci_at + (if has_uci then 10 else 0)
  data_section ← read_data has_data buf 86
  uci_section ← read_uci has_uci buf uci_at
  dft_section ← read_dft has_dft buf dft_at
  some (record {
    rnti = rnti;
    handle = handle;
    pusch_data = data_section;
    pusch_uci = uci_section;
    dmrs_identity = dft_section;
    trailer = drop (dft_at + (if has_dft then 5 else 0)) buf;
  })

-- The ranges of the fields, which are those of their C++ types.
abbrev pub DataFits : Option PuschData → Type 0
DataFits none = Unit {0}
DataFits (some d) = (d.rv_index < 256) × (d.harq_process_id < 256) × (d.tb_size < 4294967296)

pub record UciInRange (u : PuschUci) : Type 0 where
  pub harq_fits : u.harq_ack_bit < 65536
  pub csi1_fits : u.csi_part1_bit < 65536
  pub alpha_fits : u.alpha_scaling < 256
  pub beta_harq_fits : u.beta_offset_harq_ack < 256
  pub beta_csi1_fits : u.beta_offset_csi1 < 256
  pub beta_csi2_fits : u.beta_offset_csi2 < 256

abbrev pub UciFits : Option PuschUci → Type 0
UciFits none = Unit {0}
UciFits (some u) = UciInRange u

abbrev pub identity_of : TransformPrecoding → Option ℕ
identity_of (enabled identity) = some identity
identity_of (disabled groups) = none

abbrev pub IdentityFits : TransformPrecoding → Type 0
IdentityFits (enabled identity) = identity < 65536
IdentityFits (disabled groups) = Unit {0}

flag_back : (b : Bool) → ((if b then 1 else 0) % 256 == 1) ≡ b
flag_back true = refl
flag_back false = refl

module _ (pre post : List ℕ) (p : ℕ) (at : p ≡ length pre) where
  pub read_data_lem :
      (d : Option PuschData)
      → DataFits d
      → read_data (is_present d) (pre ++ (pusch_data_bytes d ++ post)) p ≡ some d
  unfolding read_data pusch_data_bytes load8 load16 load32
  read_data_lem none h = refl
  read_data_lem (some d) (rv, harq, tb) =
      let suf = pusch_data_bytes (some d) ++ post in
      rw (
        load8_behind pre suf p 0 (omega arith),
        load8_behind pre suf (p + 1) 1 (omega arith),
        load8_behind pre suf (p + 2) 2 (omega arith),
        load32_behind pre suf (p + 3) 3 (omega arith),
        one_byte d.rv_index rv,
        one_byte d.harq_process_id harq,
        four_bytes d.tb_size tb,
        flag_back d.new_data,
      )

  pub read_uci_lem :
      (u : Option PuschUci)
      → UciFits u
      → read_uci (is_present u) (pre ++ (pusch_uci_bytes u ++ post)) p ≡ some u
  unfolding read_uci pusch_uci_bytes load8 load16
  read_uci_lem none h = refl
  read_uci_lem (some u) h =
      let suf = pusch_uci_bytes (some u) ++ post in
      rw (
        load16_behind pre suf p 0 (omega arith),
        load16_behind pre suf (p + 2) 2 (omega arith),
        load8_behind pre suf (p + 6) 6 (omega arith),
        load8_behind pre suf (p + 7) 7 (omega arith),
        load8_behind pre suf (p + 8) 8 (omega arith),
        load8_behind pre suf (p + 9) 9 (omega arith),
        two_bytes u.harq_ack_bit h.harq_fits,
        two_bytes u.csi_part1_bit h.csi1_fits,
        one_byte u.alpha_scaling h.alpha_fits,
        one_byte u.beta_offset_harq_ack h.beta_harq_fits,
        one_byte u.beta_offset_csi1 h.beta_csi1_fits,
        one_byte u.beta_offset_csi2 h.beta_csi2_fits,
      )

  pub read_dft_lem :
      (t : TransformPrecoding)
      → IdentityFits t
      → read_dft (is_enabled t) (pre ++ (dft_ofdm_bytes t ++ post)) p ≡ some (identity_of t)
  unfolding read_dft dft_ofdm_bytes load16
  read_dft_lem (disabled groups) h = refl
  read_dft_lem (enabled identity) h = rw (
    load16_behind pre (dft_ofdm_bytes (enabled identity) ++ post) (p + 1) 1 (omega arith),
    two_bytes identity h,
  )
