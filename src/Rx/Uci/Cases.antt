-- ===== src/Rx/Uci/Cases.antt =====
-- The three cases of `dispatch_uci_indication` in aerial_bridge/src/msg_translator.cpp on PDUs that
-- follow the structs.
use ocudu_aerial_fapi_connec.Common.{
  ℕ, ◌+◌, ◌<◌, ◌≡◌, refl, ap, ◌∙◌, Bool, false, ◌==◌, if◌then◌else◌, ge→ltb, List, [], ◌∷◌, ◌++◌,
  Option, some, Ensures, length, length-append, arith,
}
use ocudu_aerial_fapi_connec.Ocudu.{Ocudu}
use ocudu_aerial_fapi_connec.Rx.Envelope.{Adds}
use ocudu_aerial_fapi_connec.Rx.Indication.{format_0, format_1, format_2, format_3, format_4}
use ocudu_aerial_fapi_connec.Rx.Uci.{uci_pdu}
use ocudu_aerial_fapi_connec.Rx.Uci.Entries.{
  is_some, bytes_of, map_some, BitsEntry, bits_bytes, uci_bits, sr_bytes, Sr01Entry, sr01_bytes,
  sr01_of, Harq01Entry, harq01_bytes, HeadEntry, HeadFits, bitmap_of, pusch_head, pucch_head,
  UciEntry, pusch_entry, pucch01_entry, pucch234_entry, type_of, payload_of, FieldsFit, common_of,
  meaning,
}
use ocudu_aerial_fapi_connec.Rx.Uci.Pdu.{
  uci_common, pusch_header, pucch_header, note_bounds, note_malformed, note_harq_dropped, count_uci,
  notify_pusch, notify_pucch01, notify_pucch234, uci_pusch_case, uci_pucch01_case,
  uci_pucch234_case,
}
use ocudu_aerial_fapi_connec.Rx.Uci.Section.{bit_set}
use ocudu_aerial_fapi_connec.Rx.Uci.Sections.{
  bits_section_lem, sr_section_lem, sr_f0_f1_section_lem, harq_f0_f1_section_lem,
}
use ocudu_aerial_fapi_connec.Rx.World.{World}
use ocudu_aerial_fapi_connec.Wire.{load8, load16, load32, one_byte, two_bytes, four_bytes}
use ocudu_aerial_fapi_connec.Wire.Cursor.{At, At-left, At-right, load8-At, load16-At, load32-At}

record Bitmap (a b c d : Bool) : Type 0 where
  small : bitmap_of a b c d < 256
  bit_0 : bit_set (bitmap_of a b c d) 0 ≡ a
  bit_1 : bit_set (bitmap_of a b c d) 1 ≡ b
  bit_2 : bit_set (bitmap_of a b c d) 2 ≡ c
  bit_3 : bit_set (bitmap_of a b c d) 3 ≡ d

bitmap_of_lem : (a b c d : Bool) → Bitmap a b c d
bitmap_of_lem a b c d = ground arith

module _ {Slot Ta : Type 0} (o : Ocudu Slot Ta) (numerology : ℕ) (buf : List ℕ) (q : ℕ) where
  pusch_header_lem :
      (bitmap : ℕ) (h : HeadEntry)
      → bitmap < 256
      → HeadFits h
      → At buf q (pusch_head bitmap h)
      → pusch_header o numerology buf q
        ≡ some (record { pdu_bitmap = bitmap; pucch_format = 0; common = common_of o numerology h })
  unfolding pusch_header uci_common load8 load16 load32
  pusch_header_lem bitmap h small fits a =
      let xs = pusch_head bitmap h in
      rw
        (
          load8-At buf q xs a q 0 (omega arith) (omega arith) ∙ ap some (one_byte bitmap small),
          load32-At buf q xs a (q + 1) 1 refl (omega arith)
              ∙ ap some (four_bytes h.handle fits.handle_fits),
          load16-At buf q xs a (q + 5) 5 refl (omega arith)
              ∙ ap some (two_bytes h.rnti fits.rnti_fits),
          load16-At buf q xs a (q + 8) 8 refl (omega arith)
              ∙ ap some (two_bytes h.timing_advance fits.advance_fits),
          load16-At buf q xs a (q + 8 + 2) 10 (omega arith) (omega arith)
              ∙ ap some (two_bytes h.rssi fits.rssi_fits),
        )
        refl

  pucch_header_lem :
      (bitmap format : ℕ) (h : HeadEntry)
      → bitmap < 256
      → format < 256
      → HeadFits h
      → At buf q (pucch_head bitmap format h)
      → pucch_header o numerology buf q
        ≡ some (record {
          pdu_bitmap = bitmap;
          pucch_format = format;
          common = common_of o numerology h;
        })
  unfolding pucch_header uci_common load8 load16 load32
  pucch_header_lem bitmap format h small short fits a =
      let xs = pucch_head bitmap format h in
      rw
        (
          load8-At buf q xs a q 0 (omega arith) (omega arith) ∙ ap some (one_byte bitmap small),
          load8-At buf q xs a (q + 7) 7 refl (omega arith) ∙ ap some (one_byte format short),
          load32-At buf q xs a (q + 1) 1 refl (omega arith)
              ∙ ap some (four_bytes h.handle fits.handle_fits),
          load16-At buf q xs a (q + 5) 5 refl (omega arith)
              ∙ ap some (two_bytes h.rnti fits.rnti_fits),
          load16-At buf q xs a (q + 9) 9 refl (omega arith)
              ∙ ap some (two_bytes h.timing_advance fits.advance_fits),
          load16-At buf q xs a (q + 9 + 2) 11 (omega arith) (omega arith)
              ∙ ap some (two_bytes h.rssi fits.rssi_fits),
        )
        refl

-- What is done for a PDU that is notified.
notify_uci :
    {Slot Ta : Type 0} → Ocudu Slot Ta → ℕ → Slot → UciEntry → World Slot Ta → World Slot Ta
notify_uci o numerology sp (pusch_entry h harq csi1 csi2) w =
    notify_pusch sp
      (record {
        common = common_of o numerology h;
        harq = map_some uci_bits harq;
        csi_part1 = map_some uci_bits csi1;
        csi_part2 = map_some uci_bits csi2;
      })
      w
notify_uci o numerology sp (pucch01_entry f h sr harq) w =
    notify_pucch01 sp
      (record {
        common = common_of o numerology h;
        pucch_format = if f == 0 then format_0 else format_1;
        sr = map_some sr01_of sr;
        harq = map_some (λ (e : Harq01Entry). e.harq_values) harq;
      })
      w
notify_uci o numerology sp (pucch234_entry f h sr harq csi1 csi2) w =
    notify_pucch234 sp
      (record {
        common = common_of o numerology h;
        pucch_format = if f == 0 then format_2 else if f == 1 then format_3 else format_4;
        sr = sr;
        harq = map_some uci_bits harq;
        csi_part1 = map_some uci_bits csi1;
        csi_part2 = map_some uci_bits csi2;
      })
      w

module _ {Slot Ta : Type 0} (o : Ocudu Slot Ta) (numerology : ℕ) (sp : Slot) where
  notify_uci-Adds :
      (e : UciEntry) (w : World Slot Ta)
      → Adds (meaning o numerology sp e ∷ []) w (notify_uci o numerology sp e w)
  unfolding notify_uci notify_pusch notify_pucch01 notify_pucch234 count_uci
  notify_uci-Adds (pusch_entry h harq csi1 csi2) w = ground arith
  notify_uci-Adds (pucch01_entry f h sr harq) w = ground arith
  notify_uci-Adds (pucch234_entry f h sr harq csi1 csi2) w = ground arith

  module _ (buf : List ℕ) (q p_end : ℕ) (w : World Slot Ta) where
    pusch_lem :
        (h : HeadEntry) (harq csi1 csi2 : Option BitsEntry)
        → let e = pusch_entry h harq csi1 csi2 in
          FieldsFit o e
          → At buf q (payload_of e)
          → q + length (payload_of e) ≡ p_end
          → uci_pusch_case o numerology buf q p_end sp w ≡ some (notify_uci o numerology sp e w)
    unfolding uci_pusch_case note_bounds notify_uci
    pusch_lem h harq csi1 csi2 (hf, hh, hc, hd) a end =
        let b = bitmap_of_lem false (is_some harq) (is_some csi1) (is_some csi2) in
        let bitmap = bitmap_of false (is_some harq) (is_some csi1) (is_some csi2) in
        let s1 = bytes_of bits_bytes harq in
        let s2 = bytes_of bits_bytes csi1 in
        let s3 = bytes_of bits_bytes csi2 in
        let q1 = q + 12 in
        let q2 = q1 + length s1 in
        let q3 = q2 + length s2 in
        let a1 = At-right buf q (pusch_head bitmap h) (s1 ++ (s2 ++ s3)) a in
        let a2 = At-right buf q1 s1 (s2 ++ s3) a1 in
        let size : q3 + length s3 ≡ p_end =
          omega (arith, end, length-append s1 (s2 ++ s3), length-append s2 s3) in
        rw
          (
            ge→ltb p_end (q + 12) (omega (arith, size)),
            pusch_header_lem o numerology buf q bitmap h b.small hf
                (At-left buf q (pusch_head bitmap h) (s1 ++ (s2 ++ s3)) a),
            b.bit_1,
            b.bit_2,
            b.bit_3,
            bits_section_lem buf p_end q1 o.max_nof_payload_bits harq hh
                (At-left buf q1 s1 (s2 ++ s3) a1) (omega (arith, size)),
            bits_section_lem buf p_end q2 o.max_nof_payload_bits csi1 hc (At-left buf q2 s2 s3 a2)
                (omega (arith, size)),
            bits_section_lem buf p_end q3 o.max_nof_payload_bits csi2 hd (At-right buf q2 s2 s3 a2)
                (omega (arith, size)),
          )
          refl

    pucch01_lem :
        (f : ℕ) (h : HeadEntry) (sr : Option Sr01Entry) (harq : Option Harq01Entry)
        → let e = pucch01_entry f h sr harq in
          FieldsFit o e
          → At buf q (payload_of e)
          → q + length (payload_of e) ≡ p_end
          → uci_pucch01_case o numerology buf q p_end sp w ≡ some (notify_uci o numerology sp e w)
    unfolding uci_pucch01_case note_harq_dropped notify_uci
    pucch01_lem f h sr harq (ff, hf, hs, hh) a end =
        let b = bitmap_of_lem (is_some sr) (is_some harq) false false in
        let bitmap = bitmap_of (is_some sr) (is_some harq) false false in
        let s1 = bytes_of sr01_bytes sr in
        let s2 = bytes_of harq01_bytes harq in
        let q1 = q + 13 in
        let q2 = q1 + length s1 in
        let a1 = At-right buf q (pucch_head bitmap f h) (s1 ++ s2) a in
        let size : q2 + length s2 ≡ p_end = omega (arith, end, length-append s1 s2) in
        rw
          (
            ge→ltb p_end (q + 13) (omega (arith, size)),
            pucch_header_lem o numerology buf q bitmap f h b.small ff hf
                (At-left buf q (pucch_head bitmap f h) (s1 ++ s2) a),
            b.bit_0,
            b.bit_1,
            sr_f0_f1_section_lem buf p_end q1 sr hs (At-left buf q1 s1 s2 a1) (omega (arith, size)),
            harq_f0_f1_section_lem buf p_end q2 o.max_num_harq harq hh (At-right buf q1 s1 s2 a1)
                (omega (arith, size)),
          )
          refl

    pucch234_lem :
        (f : ℕ) (h : HeadEntry) (sr : Option (List Bool)) (harq csi1 csi2 : Option BitsEntry)
        → let e = pucch234_entry f h sr harq csi1 csi2 in
          FieldsFit o e
          → At buf q (payload_of e)
          → q + length (payload_of e) ≡ p_end
          → uci_pucch234_case o numerology buf q p_end sp w ≡ some (notify_uci o numerology sp e w)
    unfolding uci_pucch234_case note_bounds note_malformed notify_uci
    pucch234_lem f h sr harq csi1 csi2 (ff, hf, hs, hh, hc, hd) a end =
        let b = bitmap_of_lem (is_some sr) (is_some harq) (is_some csi1) (is_some csi2) in
        let bitmap = bitmap_of (is_some sr) (is_some harq) (is_some csi1) (is_some csi2) in
        let s0 = bytes_of sr_bytes sr in
        let s1 = bytes_of bits_bytes harq in
        let s2 = bytes_of bits_bytes csi1 in
        let s3 = bytes_of bits_bytes csi2 in
        let q0 = q + 13 in
        let q1 = q0 + length s0 in
        let q2 = q1 + length s1 in
        let q3 = q2 + length s2 in
        let a0 = At-right buf q (pucch_head bitmap f h) (s0 ++ (s1 ++ (s2 ++ s3))) a in
        let a1 = At-right buf q0 s0 (s1 ++ (s2 ++ s3)) a0 in
        let a2 = At-right buf q1 s1 (s2 ++ s3) a1 in
        let size : q3 + length s3 ≡ p_end = omega (
          arith,
          end,
          length-append s0 (s1 ++ (s2 ++ s3)),
          length-append s1 (s2 ++ s3),
          length-append s2 s3,
        ) in
        rw
          (
            ge→ltb p_end (q + 13) (omega (arith, size)),
            pucch_header_lem o numerology buf q bitmap f h b.small ff hf
                (At-left buf q (pucch_head bitmap f h) (s0 ++ (s1 ++ (s2 ++ s3))) a),
            b.bit_0,
            b.bit_1,
            b.bit_2,
            b.bit_3,
            sr_section_lem buf p_end q0 o.max_sr_payload_size_bits sr hs
                (At-left buf q0 s0 (s1 ++ (s2 ++ s3)) a0) (omega (arith, size)),
            bits_section_lem buf p_end q1 o.max_nof_payload_bits harq hh
                (At-left buf q1 s1 (s2 ++ s3) a1) (omega (arith, size)),
            bits_section_lem buf p_end q2 o.max_nof_payload_bits csi1 hc (At-left buf q2 s2 s3 a2)
                (omega (arith, size)),
            bits_section_lem buf p_end q3 o.max_nof_payload_bits csi2 hd (At-right buf q2 s2 s3 a2)
                (omega (arith, size)),
          )
          refl

    pub uci_pdu_lem :
        (e : UciEntry)
        → FieldsFit o e
        → At buf q (payload_of e)
        → q + length (payload_of e) ≡ p_end
        → Ensures
            (Adds (meaning o numerology sp e ∷ []) w)
            (uci_pdu o numerology buf (type_of e) q p_end sp w)
    unfolding uci_pdu
    uci_pdu_lem (pusch_entry h harq csi1 csi2) fits a end =
        rw (pusch_lem h harq csi1 csi2 fits a end)
          (notify_uci-Adds (pusch_entry h harq csi1 csi2) w)
    uci_pdu_lem (pucch01_entry f h sr harq) fits a end =
        rw (pucch01_lem f h sr harq fits a end) (notify_uci-Adds (pucch01_entry f h sr harq) w)
    uci_pdu_lem (pucch234_entry f h sr harq csi1 csi2) fits a end =
        rw (pucch234_lem f h sr harq csi1 csi2 fits a end)
          (notify_uci-Adds (pucch234_entry f h sr harq csi1 csi2) w)
