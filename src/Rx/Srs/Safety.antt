-- ===== src/Rx/Srs/Safety.antt =====
-- The SRS dispatcher of aerial_bridge/src/msg_translator.cpp reads inside its buffer.
use ocudu_aerial_fapi_connec.Common.{
  ℕ, zero, suc, ◌+◌, ◌≤◌, ltb, ltb→ge, Bool-cases, Option-cases, Ensures, inl, inr, List, none,
  length, ◌≢◌, arith,
}
use ocudu_aerial_fapi_connec.Ocudu.{Ocudu}
use ocudu_aerial_fapi_connec.Rx.Indication.{SrsPdu}
use ocudu_aerial_fapi_connec.Rx.World.{World, scf_hdr_size}
use ocudu_aerial_fapi_connec.Rx.Srs.{
  report_loop, read_srs, notify_srs, srs_loop, dispatch_srs_indication,
}
use ocudu_aerial_fapi_connec.Wire.{load8_inside, load16_inside, load32_inside}

report_loop-ne-none : (rounds : ℕ) (buf : List ℕ) (p : ℕ) → report_loop rounds buf p ≢ none
unfolding report_loop
report_loop-ne-none zero buf p = λ e. cc
report_loop-ne-none (suc rounds) buf p = elim (Bool-cases (ltb (length buf) (p + 2))) [
  | inl out ↦ rw out (λ e. cc)
  | inr fits ↦
      let inside = ltb→ge _ _ fits in
      let (n, en) = load16_inside buf p inside in
      rw (fits, en) (ground (arith, report_loop-ne-none rounds buf (p + 2 + n)))
]

module _ {Slot Ta : Type 0} (o : Ocudu Slot Ta) (numerology : ℕ) where
  read_srs-ne-none :
      (buf : List ℕ) (p : ℕ) → p + 11 ≤ length buf → read_srs o numerology buf p ≢ none
  unfolding read_srs
  read_srs-ne-none buf p h =
      let (a, ea) = load32_inside buf p (omega arith) in
      let (b, eb) = load16_inside buf (p + 4) (omega arith) in
      let (c, ec) = load16_inside buf (p + 6) (omega arith) in
      let (n, en) = load8_inside buf (p + 10) (omega arith) in
      rw (ea, eb, ec, en) (ground (arith, report_loop-ne-none n buf (p + 11)))

module _ {Slot Ta : Type 0} (o : Ocudu Slot Ta) (numerology : ℕ) (P : World Slot Ta → Type 0)
    (keep : ((sp : Slot) (pdu : SrsPdu Ta) (w : World Slot Ta)
      → P w
      → P (notify_srs sp pdu w))) where
  srs_loop-Ensures :
      (rounds : ℕ) (buf : List ℕ) (p : ℕ) (sp : Slot) (w : World Slot Ta)
      → P w
      → Ensures P (srs_loop o numerology rounds buf p sp w)
  unfolding srs_loop
  srs_loop-Ensures zero buf p sp w h = h
  srs_loop-Ensures (suc rounds) buf p sp w h = elim (Bool-cases (ltb (length buf) (p + 11))) [
    | inl out ↦ rw out h
    | inr fits ↦ elim (Option-cases (read_srs o numerology buf p)) [
      | inl e ↦ absurd (read_srs-ne-none o numerology buf p (ltb→ge _ _ fits) e)
      | inr ((pdu, next), e) ↦
          rw (fits, e) (srs_loop-Ensures rounds buf next sp (notify_srs sp pdu w) (keep sp pdu w h))
    ]
  ]

  -- On every buffer the dispatcher ends without a read outside the buffer, and keeps what every
  -- notification keeps.
  pub dispatch_srs_indication-Ensures :
      (buf : List ℕ) (w : World Slot Ta)
      → P w
      → Ensures P (dispatch_srs_indication o buf numerology w)
  unfolding dispatch_srs_indication
  dispatch_srs_indication-Ensures buf w h =
      elim (Bool-cases (ltb (length buf) (scf_hdr_size + 5))) [
        | inl out ↦ rw out h
        | inr fits ↦
            let inside = ltb→ge _ _ fits in
            let (sfn, e0) = load16_inside buf 8 (omega arith) in
            let (slot, e1) = load16_inside buf 10 (omega arith) in
            let (n, e2) = load8_inside buf 12 (omega arith) in
            rw (fits, e0, e1, e2) (srs_loop-Ensures n buf 13 (o.slot_point numerology sfn slot) w h)
      ]
