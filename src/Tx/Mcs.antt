-- ===== src/Tx/Mcs.antt =====
-- The MCS tables of aerial_bridge/src/msg_translator.cpp (`pdsch_mcs_tables`,
-- `get_pdsch_mcs_entry`, `get_effective_pdsch_mcs_table`). Code rates are in tenths, the form in
-- which they are sent: all of them are multiples of a half, so `rate * 10.0f` is exact.
pub mod Range
use ocudu_aerial_fapi_connec.Common.{
  ℕ, zero, suc, Bool, ltb, if◌then◌else◌, List, [], ◌∷◌, Option, none, some, get_elem?,
}

pub record McsEntry : Type 0 where
  pub qam_mod_order : ℕ
  pub target_code_rate : ℕ

abbrev pub entry : Option (ℕ × ℕ) → McsEntry
entry none = record { qam_mod_order = 0; target_code_rate = 0 }
entry (some (qam, rate)) = record { qam_mod_order = qam; target_code_rate = rate }

abbrev pub mcs_table_0 : List (ℕ × ℕ)
mcs_table_0 =
    (2, 1200)
    ∷ (2, 1570)
    ∷ (2, 1930)
    ∷ (2, 2510)
    ∷ (2, 3080)
    ∷ (2, 3790)
    ∷ (2, 4490)
    ∷ (2, 5260)
    ∷ (2, 6020)
    ∷ (2, 6790)
    ∷ (4, 3400)
    ∷ (4, 3780)
    ∷ (4, 4340)
    ∷ (4, 4900)
    ∷ (4, 5530)
    ∷ (4, 6160)
    ∷ (4, 6580)
    ∷ (6, 4380)
    ∷ (6, 4660)
    ∷ (6, 5170)
    ∷ (6, 5670)
    ∷ (6, 6160)
    ∷ (6, 6660)
    ∷ (6, 7190)
    ∷ (6, 7720)
    ∷ (6, 8220)
    ∷ (6, 8730)
    ∷ (6, 9100)
    ∷ (6, 9480)
    ∷ (2, 0)
    ∷ (4, 0)
    ∷ (6, 0)
    ∷ []

abbrev pub mcs_table_1 : List (ℕ × ℕ)
mcs_table_1 =
    (2, 1200)
    ∷ (2, 1930)
    ∷ (2, 3080)
    ∷ (2, 4490)
    ∷ (2, 6020)
    ∷ (4, 3780)
    ∷ (4, 4340)
    ∷ (4, 4900)
    ∷ (4, 5530)
    ∷ (4, 6160)
    ∷ (4, 6580)
    ∷ (6, 4660)
    ∷ (6, 5170)
    ∷ (6, 5670)
    ∷ (6, 6160)
    ∷ (6, 6660)
    ∷ (6, 7190)
    ∷ (6, 7720)
    ∷ (6, 8220)
    ∷ (6, 8730)
    ∷ (8, 6825)
    ∷ (8, 7110)
    ∷ (8, 7540)
    ∷ (8, 7970)
    ∷ (8, 8410)
    ∷ (8, 8850)
    ∷ (8, 9165)
    ∷ (8, 9480)
    ∷ (2, 0)
    ∷ (4, 0)
    ∷ (6, 0)
    ∷ (8, 0)
    ∷ []

abbrev pub mcs_table_2 : List (ℕ × ℕ)
mcs_table_2 =
    (2, 300)
    ∷ (2, 400)
    ∷ (2, 500)
    ∷ (2, 640)
    ∷ (2, 780)
    ∷ (2, 990)
    ∷ (2, 1200)
    ∷ (2, 1570)
    ∷ (2, 1930)
    ∷ (2, 2510)
    ∷ (2, 3080)
    ∷ (2, 3790)
    ∷ (2, 4490)
    ∷ (2, 5260)
    ∷ (2, 6020)
    ∷ (4, 3400)
    ∷ (4, 3780)
    ∷ (4, 4340)
    ∷ (4, 4900)
    ∷ (4, 5530)
    ∷ (4, 6160)
    ∷ (6, 4380)
    ∷ (6, 4660)
    ∷ (6, 5170)
    ∷ (6, 5670)
    ∷ (6, 6160)
    ∷ (6, 6660)
    ∷ (6, 7190)
    ∷ (6, 7720)
    ∷ (2, 0)
    ∷ (4, 0)
    ∷ (6, 0)
    ∷ []

abbrev pub mcs_table_3 : List (ℕ × ℕ)
mcs_table_3 =
    (2, 1200)
    ∷ (2, 1930)
    ∷ (2, 4490)
    ∷ (4, 3780)
    ∷ (4, 4900)
    ∷ (4, 6160)
    ∷ (6, 4660)
    ∷ (6, 5170)
    ∷ (6, 5670)
    ∷ (6, 6160)
    ∷ (6, 6660)
    ∷ (6, 7190)
    ∷ (6, 7720)
    ∷ (6, 8220)
    ∷ (6, 8730)
    ∷ (8, 6825)
    ∷ (8, 7110)
    ∷ (8, 7540)
    ∷ (8, 7970)
    ∷ (8, 8410)
    ∷ (8, 8850)
    ∷ (8, 9165)
    ∷ (8, 9480)
    ∷ (10, 8055)
    ∷ (10, 8530)
    ∷ (10, 9005)
    ∷ (10, 9480)
    ∷ (2, 0)
    ∷ (4, 0)
    ∷ (6, 0)
    ∷ (8, 0)
    ∷ (10, 0)
    ∷ []

-- A number beyond the four tables has no entries.
abbrev pub pdsch_mcs_table : ℕ → List (ℕ × ℕ)
pdsch_mcs_table zero = mcs_table_0
pdsch_mcs_table (suc zero) = mcs_table_1
pdsch_mcs_table (suc (suc zero)) = mcs_table_2
pdsch_mcs_table (suc (suc (suc zero))) = mcs_table_3
pdsch_mcs_table (suc (suc (suc (suc n)))) = []

-- Both numbers fall back to 0 where they are out of range.
abbrev pub get_pdsch_mcs_entry : ℕ → ℕ → McsEntry
get_pdsch_mcs_entry mcs_table mcs_index =
    let table : ℕ = if ltb mcs_table 4 then mcs_table else 0 in
    let index : ℕ = if ltb mcs_index 32 then mcs_index else 0 in
    entry (get_elem? (pdsch_mcs_table table) index)

-- `force_table0` says whether AERIAL_BRIDGE_FORCE_PDSCH_MCS_TABLE0 is set to other than "0".
abbrev pub get_effective_pdsch_mcs_table : Bool → ℕ → ℕ
get_effective_pdsch_mcs_table force_table0 requested_table =
    if force_table0 then 0 else requested_table
