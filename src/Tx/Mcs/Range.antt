-- ===== src/Tx/Mcs/Range.antt =====
-- The MCS lookup of aerial_bridge/src/msg_translator.cpp on any table number and any index.
use ocudu_aerial_fapi_connec.Common.{
  ℕ, zero, suc, ◌%◌, ◌≤◌, ◌<◌, ◌≡◌, refl, Bool, true, ◌&&◌, ◌==◌, ltb, leb, if◌then◌else◌, List, [],
  ◌∷◌, get_elem?, length, arith,
}
use ocudu_aerial_fapi_connec.Tx.Mcs.{McsEntry, entry, pdsch_mcs_table, get_pdsch_mcs_entry}

-- Modulation orders of QPSK to 1024QAM, and code rates below 1, in tenths of 1024ths.
pub record IsMcs (e : McsEntry) : Type 0 where
  pub at_least_qpsk : 2 ≤ e.qam_mod_order
  pub at_most_1024qam : e.qam_mod_order ≤ 10
  pub even : e.qam_mod_order % 2 ≡ 0
  pub rate : e.target_code_rate < 10240

unfoldable all_mcs : List (ℕ × ℕ) → Bool
all_mcs [] = true
all_mcs ((q, r) ∷ rest) = leb 2 q && leb q 10 && q % 2 == 0 && ltb r 10240 && all_mcs rest

all_mcs-IsMcs :
    (xs : List (ℕ × ℕ)) (i : ℕ) → all_mcs xs ≡ true → i < length xs → IsMcs (entry (get_elem? xs i))
unfolding all_mcs
all_mcs-IsMcs [] i h small = absurd (omega arith)
all_mcs-IsMcs ((q, r) ∷ rest) zero h small = record {
  at_least_qpsk = ground arith;
  at_most_1024qam = ground arith;
  even = ground arith;
  rate = ground arith;
}
all_mcs-IsMcs ((q, r) ∷ rest) (suc i) h small = all_mcs-IsMcs rest i (ground arith) (omega arith)

table_lem : (t i : ℕ) → t < 4 → i < 32 → IsMcs (entry (get_elem? (pdsch_mcs_table t) i))
unfolding all_mcs
table_lem zero i k h = all_mcs-IsMcs (pdsch_mcs_table zero) i refl h
table_lem (suc zero) i k h = all_mcs-IsMcs (pdsch_mcs_table (suc zero)) i refl h
table_lem (suc (suc zero)) i k h = all_mcs-IsMcs (pdsch_mcs_table (suc (suc zero))) i refl h
table_lem (suc (suc (suc zero))) i k h =
    all_mcs-IsMcs (pdsch_mcs_table (suc (suc (suc zero)))) i refl h
table_lem (suc (suc (suc (suc t)))) i k h = absurd (omega arith)

-- For any table number and any index the lookup stays inside the tables and gives a modulation order
-- of 2, 4, 6, 8 or 10 and a code rate below 1; in particular the order is never 0, so the
-- serializer's fallback to the codeword's own order is never taken.
pub get_pdsch_mcs_entry-IsMcs :
    (mcs_table mcs_index : ℕ) → IsMcs (get_pdsch_mcs_entry mcs_table mcs_index)
get_pdsch_mcs_entry-IsMcs mcs_table mcs_index =
    table_lem (if ltb mcs_table 4 then mcs_table else 0) (if ltb mcs_index 32 then mcs_index else 0)
      (ground arith) (ground arith)
