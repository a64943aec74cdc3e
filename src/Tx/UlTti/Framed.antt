-- ===== src/Tx/UlTti/Framed.antt =====
-- The bytes of a UL_TTI.request as aerial_bridge/src/msg_translator.cpp writes them.
use ocudu_aerial_fapi_connec.Common.{
  ℕ, ◌+◌, ◌%◌, ◌≤◌, ◌<◌, ◌≡◌, refl, ◌∙◌, inl, inr, Bool-cases, ltb, ltb→lt, List, [], ◌∷◌, ◌++◌,
  map, append-nil, append_assoc, All, Option, some, length, ap, arith,
}
use ocudu_aerial_fapi_connec.ScfMsgId
use ocudu_aerial_fapi_connec.Tx.Frame.{concat, message, write_headers, slot_to_sfn_slot}
use ocudu_aerial_fapi_connec.Tx.Framing.{
  IsPdu, IsShort, IsFramed, InRange, pdu-IsPdu, message-IsFramed,
}
use ocudu_aerial_fapi_connec.Tx.Pucch.{serialize_pucch_pdu}
use ocudu_aerial_fapi_connec.Tx.Srs.{serialize_srs_pdu, prach_pdu}
use ocudu_aerial_fapi_connec.Tx.Pusch.{serialize_pusch_pdu}
use ocudu_aerial_fapi_connec.Tx.UlTti.{
  UlPdu, prach, pusch, pucch, srs, UlTtiRequest, Globals, UlState, ul_step, ul_loop, ul_init,
  serialize_ul_tti_request,
}
use ocudu_aerial_fapi_connec.Wire.{le8, load8}

unfoldable pub pdu_of : UlPdu → List ℕ
pdu_of (prach p) = prach_pdu p
pdu_of (pusch p) = serialize_pusch_pdu p
pdu_of (pucch p) = serialize_pucch_pdu p
pdu_of (srs p) = serialize_srs_pdu p

abbrev pub ul_pdus : UlTtiRequest → List (List ℕ)
ul_pdus msg = map pdu_of msg.pdus

-- How many PDUs of one kind a request has.
abbrev pub count : (UlPdu → ℕ) → List UlPdu → ℕ
count f [] = 0
count f (p ∷ ps) = f p + count f ps

abbrev pub is_pusch : UlPdu → ℕ
is_pusch (pusch p) = 1
is_pusch (prach p) = 0
is_pusch (pucch p) = 0
is_pusch (srs p) = 0

abbrev pub is_pucch : UlPdu → ℕ
is_pucch (pucch p) = 1
is_pucch (prach p) = 0
is_pucch (pusch p) = 0
is_pucch (srs p) = 0

pub record Grown (ps : List UlPdu) (st st' : UlState) : Type 0 where
  pub payload_is : st'.payload ≡ st.payload ++ concat (map pdu_of ps)
  pub num_pdus_is : st'.num_pdus % 256 ≡ (st.num_pdus + length (map pdu_of ps)) % 256
  pub ulsch_is : st'.num_ulsch % 256 ≡ (st.num_ulsch + count is_pusch ps) % 256
  pub ulcch_is : st'.num_ulcch % 256 ≡ (st.num_ulcch + count is_pucch ps) % 256

step-Grown :
    (p : UlPdu) (ps : List UlPdu) (st st' : UlState)
    → Grown ps (ul_step p st) st'
    → Grown (p ∷ ps) st st'
unfolding ul_step pdu_of
step-Grown (prach p) ps st st' g = record {
  payload_is = g.payload_is ∙ append_assoc st.payload (prach_pdu p) (concat (map pdu_of ps));
  num_pdus_is = omega (arith, g.num_pdus_is);
  ulsch_is = omega (arith, g.ulsch_is);
  ulcch_is = omega (arith, g.ulcch_is);
}
step-Grown (pusch p) ps st st' g = record {
  payload_is =
      g.payload_is ∙ append_assoc st.payload (serialize_pusch_pdu p) (concat (map pdu_of ps));
  num_pdus_is = omega (arith, g.num_pdus_is);
  ulsch_is = omega (arith, g.ulsch_is);
  ulcch_is = omega (arith, g.ulcch_is);
}
step-Grown (pucch p) ps st st' g = record {
  payload_is =
      g.payload_is ∙ append_assoc st.payload (serialize_pucch_pdu p) (concat (map pdu_of ps));
  num_pdus_is = omega (arith, g.num_pdus_is);
  ulsch_is = omega (arith, g.ulsch_is);
  ulcch_is = omega (arith, g.ulcch_is);
}
step-Grown (srs p) ps st st' g = record {
  payload_is =
      g.payload_is ∙ append_assoc st.payload (serialize_srs_pdu p) (concat (map pdu_of ps));
  num_pdus_is = omega (arith, g.num_pdus_is);
  ulsch_is = omega (arith, g.ulsch_is);
  ulcch_is = omega (arith, g.ulcch_is);
}

pub ul_loop-Grown : (ps : List UlPdu) (st : UlState) → Grown ps st (ul_loop ps st)
unfolding ul_loop
ul_loop-Grown [] st = record {
  payload_is = rw append-nil;
  num_pdus_is = omega arith;
  ulsch_is = omega arith;
  ulcch_is = omega arith;
}
ul_loop-Grown (p ∷ ps) st = step-Grown p ps st _ (ul_loop-Grown ps (ul_step p st))

pdus-IsPdu : (ps : List UlPdu) → All IsShort (map pdu_of ps) → All IsPdu (map pdu_of ps)
unfolding pdu_of prach_pdu serialize_pusch_pdu serialize_pucch_pdu serialize_srs_pdu
pdus-IsPdu [] h = h
pdus-IsPdu (prach p ∷ ps) (h, hs) = (pdu-IsPdu 0 _ h, pdus-IsPdu ps hs)
pdus-IsPdu (pusch p ∷ ps) (h, hs) = (pdu-IsPdu 1 _ h, pdus-IsPdu ps hs)
pdus-IsPdu (pucch p ∷ ps) (h, hs) = (pdu-IsPdu 2 _ h, pdus-IsPdu ps hs)
pdus-IsPdu (srs p ∷ ps) (h, hs) = (pdu-IsPdu 3 _ h, pdus-IsPdu ps hs)

-- A frame of the request's PDUs whose header counts its PUSCH and PUCCH PDUs.
pub record WritesFrame (msg : UlTtiRequest) (cell_id : ℕ) (written : Option (List ℕ)) : Type 0 where
  pub bytes : List ℕ
  pub is_written : written ≡ some bytes
  pub framed : IsFramed ScfMsgId.ul_tti_request cell_id msg.slot 17 (ul_pdus msg) bytes
  pub ulsch : load8 bytes 14 ≡ some (count is_pusch msg.pdus)
  pub ulcch : load8 bytes 15 ≡ some (count is_pucch msg.pdus)

count_is :
    (f : UlPdu → ℕ)
    → ((p : UlPdu) → f p ≤ 1)
    → (ps : List UlPdu) → count f ps ≤ length (map pdu_of ps)
count_is f h [] = omega arith
count_is f h (p ∷ ps) = omega (arith, h p, count_is f h ps)

is_pusch_le : (p : UlPdu) → is_pusch p ≤ 1
is_pusch_le (prach p) = omega arith
is_pusch_le (pusch p) = omega arith
is_pusch_le (pucch p) = omega arith
is_pusch_le (srs p) = omega arith

is_pucch_le : (p : UlPdu) → is_pucch p ≤ 1
is_pucch_le (prach p) = omega arith
is_pucch_le (pusch p) = omega arith
is_pucch_le (pucch p) = omega arith
is_pucch_le (srs p) = omega arith

-- A request for a cell, SFN and slot in the range of their fields, with fewer than 256 PDUs, each
-- below 65536 bytes, and a buffer length of 17 or more, is serialized into bytes from which a
-- reader that follows the size fields gets back exactly its PDUs in order, and whose header counts
-- its PUSCH and its PUCCH PDUs.
pub serialize_ul_tti_request-IsFramed :
    (msg : UlTtiRequest) (buf_len cell_id : ℕ) (g : Globals)
    → 17 ≤ buf_len
    → InRange ScfMsgId.ul_tti_request cell_id msg.slot
    → All IsShort (ul_pdus msg)
    → length (ul_pdus msg) < 256
    → WritesFrame msg cell_id (serialize_ul_tti_request msg buf_len cell_id g).written
unfolding serialize_ul_tti_request ul_init message slot_to_sfn_slot write_headers load8
serialize_ul_tti_request-IsFramed msg buf_len cell_id g room range short few =
    elim (Bool-cases (ltb buf_len 17)) [
      | inl e ↦ absurd (omega (arith, ltb→lt buf_len 17 e))
      | inr e ↦ rw e frame
    ]
  where
    st : UlState
    st = ul_loop msg.pdus (ul_init g)

    grown : Grown msg.pdus (ul_init g) st
    grown = ul_loop-Grown msg.pdus (ul_init g)

    flags : List ℕ
    flags = le8 st.rach_present ++ (le8 st.num_ulsch ++ (le8 st.num_ulcch ++ le8 0))

    frame : WritesFrame msg cell_id (
        some (
          message cell_id ScfMsgId.ul_tti_request (
            concat (
              slot_to_sfn_slot msg.slot
              ∷ le8 st.num_pdus
              ∷ le8 st.rach_present
              ∷ le8 st.num_ulsch
              ∷ le8 st.num_ulcch
              ∷ le8 0
              ∷ st.payload
              ∷ []))))
    frame = record {
      bytes = _;
      is_written = refl;
      framed =
          rw (append-nil st.payload, grown.payload_is)
            (message-IsFramed ScfMsgId.ul_tti_request cell_id msg.slot flags (ul_pdus msg)
              st.num_pdus range (omega (arith, grown.num_pdus_is)) (omega arith)
              (pdus-IsPdu msg.pdus short));
      ulsch = ap some (omega (arith, grown.ulsch_is, count_is is_pusch is_pusch_le msg.pdus));
      ulcch = ap some (omega (arith, grown.ulcch_is, count_is is_pucch is_pucch_le msg.pdus));
    }
