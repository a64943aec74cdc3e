-- ===== src/Tx/DlTti/Framed.antt =====
-- The bytes of a DL_TTI.request as aerial_bridge/src/msg_translator.cpp writes them.
use ocudu_aerial_fapi_connec.Common.{
  ℕ, ◌+◌, ◌%◌, ◌^◌, ◌≤◌, ◌<◌, ◌≡◌, inl, inr, refl, ltb→lt, Bool-cases, ◌∙◌, ltb, Bool, List, [],
  ◌∷◌, ◌++◌, append-nil, append_assoc, All, some, Ensures, Ensures-map, Ensures->>=, length, arith,
}
use ocudu_aerial_fapi_connec.ScfMsgId
use ocudu_aerial_fapi_connec.Tx.DlTti.{
  DlPdu, ssb, pdcch, pdsch, csi_rs_or_prs, DlTtiRequest, DlState, DlResult, append_pdu, dl_step,
  dl_loop, serialize_dl_tti_request,
}
use ocudu_aerial_fapi_connec.Tx.Frame.{concat, message, slot_to_sfn_slot}
use ocudu_aerial_fapi_connec.Tx.Framing.{
  IsPdu, IsFramed, IsShort, InRange, pdu-IsPdu, message-IsFramed,
}
use ocudu_aerial_fapi_connec.Tx.Pdcch.{serialize_ssb_pdu, serialize_pdcch_pdu}
use ocudu_aerial_fapi_connec.Tx.Pdsch.{Codeword, Pdsch, serialize_pdsch_pdu, pdsch_debug}
use ocudu_aerial_fapi_connec.Wire.{le8}

-- The PDUs that a request leads to: PDSCH PDUs are numbered from `index` on, and CSI-RS and PRS
-- PDUs are left out.
unfoldable pub dl_pdus : Bool → ℕ → List DlPdu → List (List ℕ)
dl_pdus force_table0 index [] = []
dl_pdus force_table0 index (ssb p ∷ ps) = serialize_ssb_pdu p ∷ dl_pdus force_table0 index ps
dl_pdus force_table0 index (pdcch p ∷ ps) = serialize_pdcch_pdu p ∷ dl_pdus force_table0 index ps
dl_pdus force_table0 index (pdsch p ∷ ps) =
    serialize_pdsch_pdu force_table0 p index ∷ dl_pdus force_table0 ((index + 1) % 2 ^ 16) ps
dl_pdus force_table0 index (csi_rs_or_prs ∷ ps) = dl_pdus force_table0 index ps

-- Every PDSCH PDU has a codeword, which the debug print reads.
abbrev pub HasCodeword : DlPdu → Type 0
HasCodeword (ssb p) = Unit {0}
HasCodeword (pdcch p) = Unit {0}
HasCodeword (pdsch p) = 0 < length p.cws
HasCodeword csi_rs_or_prs = Unit {0}

abbrev pub Grown : List (List ℕ) → DlState → DlState → Type 0
Grown pdus st st' =
    (st'.payload ≡ st.payload ++ concat pdus)
    × (st'.num_pdus % 256 ≡ (st.num_pdus + length pdus) % 256)

pdsch_debug-some :
    (n : ℕ) (cws : List Codeword) → 0 < length cws → (m : ℕ) × (pdsch_debug n cws ≡ some m)
unfolding pdsch_debug
pdsch_debug-some n [] h = absurd (omega arith)
pdsch_debug-some n (cw ∷ cws) h = (_, refl)

module _ (force_table0 : Bool) where
  step-Grown :
      (b : List ℕ) (bs : List (List ℕ)) (st mid st' : DlState)
      → mid.payload ≡ st.payload ++ b
      → mid.num_pdus ≡ (st.num_pdus + 1) % 256
      → Grown bs mid st'
      → Grown (b ∷ bs) st st'
  step-Grown b bs st mid st' ep en (gp, gn) =
      (gp ∙ rw ep (append_assoc st.payload b (concat bs)), omega arith)

  abbrev pdsch_state : Pdsch → ℕ → DlState → DlState
  pdsch_state p dbg st =
      append_pdu (serialize_pdsch_pdu force_table0 p st.next_pdsch_pdu_index) (record st {
        next_pdsch_pdu_index = (st.next_pdsch_pdu_index + 1) % 2 ^ 16;
        pdsch_dbg_count = dbg;
      })

  pub dl_loop-Grown :
      (ps : List DlPdu) (st : DlState)
      → All HasCodeword ps
      → Ensures
          (Grown (dl_pdus force_table0 st.next_pdsch_pdu_index ps) st)
          (dl_loop force_table0 ps st)
  unfolding dl_loop dl_step dl_pdus
  dl_loop-Grown [] st h = (rw append-nil, omega arith)
  dl_loop-Grown (ssb p ∷ ps) st (h, hs) =
      let mid = append_pdu (serialize_ssb_pdu p) st in
      Ensures-map (Grown (dl_pdus force_table0 st.next_pdsch_pdu_index ps) mid)
        (Grown (serialize_ssb_pdu p ∷ dl_pdus force_table0 st.next_pdsch_pdu_index ps) st)
        (dl_loop force_table0 ps mid)
        (λ st' g.
          step-Grown (serialize_ssb_pdu p) (dl_pdus force_table0 st.next_pdsch_pdu_index ps) st mid
            st' refl refl g)
        (dl_loop-Grown ps mid hs)
  dl_loop-Grown (pdcch p ∷ ps) st (h, hs) =
      let mid = append_pdu (serialize_pdcch_pdu p) st in
      Ensures-map (Grown (dl_pdus force_table0 st.next_pdsch_pdu_index ps) mid)
        (Grown (serialize_pdcch_pdu p ∷ dl_pdus force_table0 st.next_pdsch_pdu_index ps) st)
        (dl_loop force_table0 ps mid)
        (λ st' g.
          step-Grown (serialize_pdcch_pdu p) (dl_pdus force_table0 st.next_pdsch_pdu_index ps) st
            mid st' refl refl g)
        (dl_loop-Grown ps mid hs)
  dl_loop-Grown (pdsch p ∷ ps) st (h, hs) =
      let (dbg, e) = pdsch_debug-some st.pdsch_dbg_count p.cws h in
      let mid = pdsch_state p dbg st in
      let rest = dl_pdus force_table0 mid.next_pdsch_pdu_index ps in
      let b = serialize_pdsch_pdu force_table0 p st.next_pdsch_pdu_index in
      rw e (
        Ensures-map (Grown rest mid) (Grown (b ∷ rest) st) (dl_loop force_table0 ps mid)
          (λ st' g. step-Grown b rest st mid st' refl refl g) (dl_loop-Grown ps mid hs))
  dl_loop-Grown (csi_rs_or_prs ∷ ps) st (h, hs) = dl_loop-Grown ps st hs

  dl_pdus-IsPdu :
      (index : ℕ) (ps : List DlPdu)
      → All IsShort (dl_pdus force_table0 index ps)
      → All IsPdu (dl_pdus force_table0 index ps)
  unfolding dl_pdus serialize_ssb_pdu serialize_pdcch_pdu serialize_pdsch_pdu
  dl_pdus-IsPdu index [] h = h
  dl_pdus-IsPdu index (ssb p ∷ ps) (h, hs) = (pdu-IsPdu 3 _ h, dl_pdus-IsPdu index ps hs)
  dl_pdus-IsPdu index (pdcch p ∷ ps) (h, hs) = (pdu-IsPdu 0 _ h, dl_pdus-IsPdu index ps hs)
  dl_pdus-IsPdu index (pdsch p ∷ ps) (h, hs) =
      (pdu-IsPdu 1 _ h, dl_pdus-IsPdu ((index + 1) % 2 ^ 16) ps hs)
  dl_pdus-IsPdu index (csi_rs_or_prs ∷ ps) h = dl_pdus-IsPdu index ps h

  abbrev pub WritesFrame : DlTtiRequest → ℕ → DlResult → Type 0
  WritesFrame msg cell_id r =
      (bytes : List ℕ) × (r.written ≡ some bytes)
      × IsFramed ScfMsgId.dl_tti_request cell_id msg.slot 14 (dl_pdus force_table0 0 msg.pdus) bytes

  -- A request for a cell, SFN and slot in the range of their fields, with every PDSCH PDU having a
  -- codeword, every PDU below 65536 bytes, fewer than 256 PDUs and a buffer length of 14 or more,
  -- is serialized without an out-of-bounds access to its codewords, and a reader that follows the
  -- size fields gets back exactly its SSB, PDCCH and PDSCH PDUs in order, the PDSCH PDUs numbered
  -- from 0; CSI-RS and PRS PDUs of the request are not among them.
  pub serialize_dl_tti_request-IsFramed :
      (msg : DlTtiRequest) (buf_len cell_id dbg : ℕ)
      → 14 ≤ buf_len
      → InRange ScfMsgId.dl_tti_request cell_id msg.slot
      → All HasCodeword msg.pdus
      → All IsShort (dl_pdus force_table0 0 msg.pdus)
      → length (dl_pdus force_table0 0 msg.pdus) < 256
      → Ensures
          (WritesFrame msg cell_id)
          (serialize_dl_tti_request force_table0 msg buf_len cell_id dbg)
  unfolding serialize_dl_tti_request
  serialize_dl_tti_request-IsFramed msg buf_len cell_id dbg room range codewords short few =
      elim (Bool-cases (ltb buf_len 14)) [
        | inl e ↦ absurd (omega (arith, ltb→lt buf_len 14 e))
        | inr e ↦ rw e (
            Ensures->>= (Grown (dl_pdus force_table0 0 msg.pdus) init) (WritesFrame msg cell_id)
              (dl_loop force_table0 msg.pdus init) _ (dl_loop-Grown msg.pdus init codewords)
              (λ st g. (_, refl, framed st g)))
      ]
    where
      init : DlState
      init = record { payload = []; num_pdus = 0; next_pdsch_pdu_index = 0; pdsch_dbg_count = dbg }

      framed :
          (st : DlState)
          → Grown (dl_pdus force_table0 0 msg.pdus) init st
          → IsFramed ScfMsgId.dl_tti_request cell_id msg.slot 14 (dl_pdus force_table0 0 msg.pdus) (
              message cell_id ScfMsgId.dl_tti_request
                (concat (slot_to_sfn_slot msg.slot ∷ le8 st.num_pdus ∷ le8 0 ∷ st.payload ∷ [])))
      framed st (gp, gn) =
          rw (append-nil st.payload, gp)
            (message-IsFramed ScfMsgId.dl_tti_request cell_id msg.slot (le8 0)
              (dl_pdus force_table0 0 msg.pdus) st.num_pdus range (omega arith) (omega arith)
              (dl_pdus-IsPdu 0 msg.pdus short))
