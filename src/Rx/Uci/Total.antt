-- ===== src/Rx/Uci/Total.antt =====
-- The UCI dispatcher of aerial_bridge/src/msg_translator.cpp on any buffer.
use ocudu_aerial_fapi_connec.Common.{
  or-false, ℕ, zero, suc, ◌+◌, ◌≤◌, ◌==◌, ◌||◌, ltb, ltb→ge, Bool, Bool-cases, Ensures, Ensures->>=,
  Ensures->>=_ne_none, inl, inr, List, none, length, ◌≢◌, arith,
}
use ocudu_aerial_fapi_connec.Ocudu.{Ocudu}
use ocudu_aerial_fapi_connec.Rx.Indication.{UciPusch, UciPucch01, UciPucch234}
use ocudu_aerial_fapi_connec.Rx.World.{World, scf_hdr_size}
use ocudu_aerial_fapi_connec.Rx.Uci.{uci_pdu, uci_loop, dispatch_uci_indication}
use ocudu_aerial_fapi_connec.Rx.Uci.Pdu.{
  pusch_header, pucch_header, uci_pusch_case, uci_pucch01_case, uci_pucch234_case, notify_pusch,
  notify_pucch01, notify_pucch234, note_bounds, note_malformed, note_harq_dropped,
}
use ocudu_aerial_fapi_connec.Rx.Uci.Safety.{
  bits_section-ne-none, sr_section-ne-none, sr_f0_f1_section-ne-none, harq_f0_f1_section-ne-none,
}
use ocudu_aerial_fapi_connec.Wire.{load8_inside, load16_inside, load32_inside}

module _ {Slot Ta : Type 0} (o : Ocudu Slot Ta) (numerology : ℕ) where
  pusch_header-ne-none :
      (buf : List ℕ) (q : ℕ) → q + 12 ≤ length buf → pusch_header o numerology buf q ≢ none
  unfolding pusch_header
  pusch_header-ne-none buf q h =
      let (a, ea) = load8_inside buf q (omega arith) in
      let (b, eb) = load32_inside buf (q + 1) (omega arith) in
      let (c, ec) = load16_inside buf (q + 5) (omega arith) in
      let (d, ed) = load16_inside buf (q + 8) (omega arith) in
      let (r, er) = load16_inside buf (q + 8 + 2) (omega arith) in rw (ea, eb, ec, ed, er) (λ e. cc)

  pucch_header-ne-none :
      (buf : List ℕ) (q : ℕ) → q + 13 ≤ length buf → pucch_header o numerology buf q ≢ none
  unfolding pucch_header
  pucch_header-ne-none buf q h =
      let (a, ea) = load8_inside buf q (omega arith) in
      let (f, ef) = load8_inside buf (q + 7) (omega arith) in
      let (b, eb) = load32_inside buf (q + 1) (omega arith) in
      let (c, ec) = load16_inside buf (q + 5) (omega arith) in
      let (d, ed) = load16_inside buf (q + 9) (omega arith) in
      let (r, er) = load16_inside buf (q + 9 + 2) (omega arith) in
      rw (ea, ef, eb, ec, ed, er) (λ e. cc)

-- What a predicate on the state must survive: the three notifications and the log lines.
pub record Kept {Slot Ta : Type 0} (P : World Slot Ta → Type 0) : Type 0 where
  pub pusch : (sp : Slot) (pdu : UciPusch Ta) (w : World Slot Ta) → P w → P (notify_pusch sp pdu w)
  pub pucch01 :
      (sp : Slot) (pdu : UciPucch01 Ta) (w : World Slot Ta) → P w → P (notify_pucch01 sp pdu w)
  pub pucch234 :
      (sp : Slot) (pdu : UciPucch234 Ta) (w : World Slot Ta) → P w → P (notify_pucch234 sp pdu w)
  pub bounds : (rejected : Bool) (w : World Slot Ta) → P w → P (note_bounds rejected w)
  pub malformed : (rejected : Bool) (w : World Slot Ta) → P w → P (note_malformed rejected w)
  pub harq : (rejected : Bool) (w : World Slot Ta) → P w → P (note_harq_dropped rejected w)

module _ {Slot Ta : Type 0} (o : Ocudu Slot Ta) (numerology : ℕ) (P : World Slot Ta → Type 0)
    (keep : Kept P) where
  module _ (buf : List ℕ) (q p_end : ℕ) (sp : Slot) (w : World Slot Ta)
      (inside : p_end ≤ length buf) (h : P w) where
    uci_pusch_case-Ensures : Ensures P (uci_pusch_case o numerology buf q p_end sp w)
    unfolding uci_pusch_case
    uci_pusch_case-Ensures = elim (Bool-cases (ltb p_end (q + 12))) [
      | inl out ↦ rw out h
      | inr fits ↦
          let start = ltb→ge _ _ fits in
          rw fits (
            Ensures->>=_ne_none P _ _ (pusch_header-ne-none o numerology buf q (omega arith)) λ hdr.
              Ensures->>=_ne_none P _ _ (bits_section-ne-none _ buf p_end _ _ inside) λ harq.
                Ensures->>=_ne_none P _ _ (bits_section-ne-none _ buf p_end _ _ inside) λ csi1.
                  Ensures->>=_ne_none P _ _ (bits_section-ne-none _ buf p_end _ _ inside) λ csi2.
                    keep.pusch _ _ _ (keep.bounds _ _ (keep.bounds _ _ (keep.bounds _ _ h))))
    ]

    uci_pucch01_case-Ensures : Ensures P (uci_pucch01_case o numerology buf q p_end sp w)
    unfolding uci_pucch01_case
    uci_pucch01_case-Ensures = elim (Bool-cases (ltb p_end (q + 13))) [
      | inl out ↦ rw out h
      | inr fits ↦
          let start = ltb→ge _ _ fits in
          rw fits (
            Ensures->>=_ne_none P _ _ (pucch_header-ne-none o numerology buf q (omega arith)) λ hdr.
              Ensures->>=_ne_none P _ _ (sr_f0_f1_section-ne-none buf p_end _ _ inside) λ sr.
                Ensures->>=_ne_none P _ _ (harq_f0_f1_section-ne-none _ buf p_end _ _ inside)
                  λ harq. keep.pucch01 _ _ _ (keep.harq _ _ h))
    ]

    uci_pucch234_case-Ensures : Ensures P (uci_pucch234_case o numerology buf q p_end sp w)
    unfolding uci_pucch234_case
    uci_pucch234_case-Ensures = elim (Bool-cases (ltb p_end (q + 13))) [
      | inl out ↦ rw out h
      | inr fits ↦
          let start = ltb→ge _ _ fits in
          rw fits (
            Ensures->>=_ne_none P _ _ (pucch_header-ne-none o numerology buf q (omega arith)) λ hdr.
              Ensures->>=_ne_none P _ _ (sr_section-ne-none _ buf p_end _ _ inside) λ sr.
                Ensures->>=_ne_none P _ _ (bits_section-ne-none _ buf p_end _ _ inside) λ harq.
                  Ensures->>=_ne_none P _ _ (bits_section-ne-none _ buf p_end _ _ inside) λ csi1.
                    Ensures->>=_ne_none P _ _ (bits_section-ne-none _ buf p_end _ _ inside) λ csi2.
                      keep.pucch234 _ _ _ (
                        keep.bounds _ _
                          (keep.bounds _ _ (keep.malformed _ _ (keep.malformed _ _ h)))))
    ]

    uci_pdu-Ensures : (pdu_type : ℕ) → Ensures P (uci_pdu o numerology buf pdu_type q p_end sp w)
    unfolding uci_pdu
    uci_pdu-Ensures pdu_type = elim (Bool-cases (pdu_type == 0)) [
      | inl e ↦ rw e uci_pusch_case-Ensures
      | inr n ↦ elim (Bool-cases (pdu_type == 1)) [
        | inl e ↦ rw (n, e) uci_pucch01_case-Ensures
        | inr m ↦ elim (Bool-cases (pdu_type == 2)) [
          | inl e ↦ rw (n, m, e) uci_pucch234_case-Ensures
          | inr k ↦ rw (n, m, k) h
        ]
      ]
    ]

  uci_loop-Ensures :
      (rounds : ℕ) (buf : List ℕ) (p : ℕ) (sp : Slot) (w : World Slot Ta)
      → P w
      → Ensures P (uci_loop o numerology rounds buf p sp w)
  unfolding uci_loop
  uci_loop-Ensures zero buf p sp w h = h
  uci_loop-Ensures (suc rounds) buf p sp w h = elim (Bool-cases (ltb (length buf) (p + 4))) [
    | inl out ↦ rw out h
    | inr fits ↦
        let start = ltb→ge _ _ fits in
        let (t, et) = load16_inside buf p (omega arith) in
        let (n, en) = load16_inside buf (p + 2) (omega arith) in
        elim (Bool-cases (ltb n 4 || ltb (length buf) (p + n))) [
          | inl bad ↦ rw (fits, et, en, bad) h
          | inr good ↦
              let inside = ltb→ge _ _ (or-false (ltb n 4) _ good) in
              rw (fits, et, en, good)
                (Ensures->>= P P _ _ (uci_pdu-Ensures buf (p + 4) (p + n) sp w inside h t)
                  (uci_loop-Ensures rounds buf (p + n) sp))
        ]
  ]

  -- On every buffer the dispatcher ends without a read outside the buffer, and keeps what every
  -- notification and log line keeps.
  pub dispatch_uci_indication-Ensures :
      (buf : List ℕ) (w : World Slot Ta)
      → P w
      → Ensures P (dispatch_uci_indication o buf numerology w)
  unfolding dispatch_uci_indication
  dispatch_uci_indication-Ensures buf w h =
      elim (Bool-cases (ltb (length buf) (scf_hdr_size + 6))) [
        | inl out ↦ rw out h
        | inr fits ↦
            let inside = ltb→ge _ _ fits in
            let (sfn, e0) = load16_inside buf 8 (omega arith) in
            let (slot, e1) = load16_inside buf 10 (omega arith) in
            let (n, e2) = load16_inside buf 12 (omega arith) in
            rw (fits, e0, e1, e2) (uci_loop-Ensures n buf 14 (o.slot_point numerology sfn slot) w h)
      ]
