-- ===== src/Rx/Crc/Safety.antt =====
-- The CRC dispatcher of aerial_bridge/src/msg_translator.cpp reads inside its buffer.
use ocudu_aerial_fapi_connec.Common.{
  ℕ, zero, suc, ◌+◌, ◌≤◌, ltb, ltb→ge, Bool-cases, Option-cases, Ensures, inl, inr, List, none,
  length, ◌≢◌, arith,
}
use ocudu_aerial_fapi_connec.Ocudu.{Ocudu}
use ocudu_aerial_fapi_connec.Rx.Indication.{CrcPdu}
use ocudu_aerial_fapi_connec.Rx.World.{World, scf_hdr_size}
use ocudu_aerial_fapi_connec.Rx.Crc.{
  read_measurement, read_crc, notify_crc, crc_loop, dispatch_crc_indication,
}
use ocudu_aerial_fapi_connec.Wire.{load8_inside, load16_inside, load32_inside}

-- Every read of an entry lies in the buffer once its ten fixed bytes do.
read_measurement-ne-none : (buf : List ℕ) (p : ℕ) → read_measurement buf p ≢ none
unfolding read_measurement
read_measurement-ne-none buf p =
    ground (arith, load8_inside buf p, load16_inside buf (p + 1), load16_inside buf (p + 3))

read_crc-ne-none : (buf : List ℕ) (p : ℕ) → p + 10 ≤ length buf → read_crc buf p ≢ none
unfolding read_crc
read_crc-ne-none buf p h =
    let (a, ea) = load32_inside buf p (omega arith) in
    let (b, eb) = load16_inside buf (p + 4) (omega arith) in
    let (c, ec) = load8_inside buf (p + 6) (omega arith) in
    let (d, ed) = load8_inside buf (p + 7) (omega arith) in
    let (n, en) = load16_inside buf (p + 8) (omega arith) in
    rw (ea, eb, ec, ed, en) (ground (arith, read_measurement-ne-none buf (p + 10 + n)))

module _ {Slot Ta : Type 0} (P : World Slot Ta → Type 0)
    (keep : ((sp : Slot) (pdu : CrcPdu) (w : World Slot Ta) → P w → P (notify_crc sp pdu w))) where
  crc_loop-Ensures :
      (rounds : ℕ) (buf : List ℕ) (p : ℕ) (sp : Slot) (w : World Slot Ta)
      → P w
      → Ensures P (crc_loop rounds buf p sp w)
  unfolding crc_loop
  crc_loop-Ensures zero buf p sp w h = h
  crc_loop-Ensures (suc rounds) buf p sp w h = elim (Bool-cases (ltb (length buf) (p + 10))) [
    | inl out ↦ rw out h
    | inr fits ↦ elim (Option-cases (read_crc buf p)) [
      | inl e ↦ absurd (read_crc-ne-none buf p (ltb→ge _ _ fits) e)
      | inr ((pdu, next), e) ↦
          rw (fits, e) (crc_loop-Ensures rounds buf next sp (notify_crc sp pdu w) (keep sp pdu w h))
    ]
  ]

  -- On every buffer the dispatcher ends without a read outside the buffer, and keeps what every
  -- notification keeps.
  pub dispatch_crc_indication-Ensures :
      (o : Ocudu Slot Ta) (buf : List ℕ) (numerology : ℕ) (w : World Slot Ta)
      → P w
      → Ensures P (dispatch_crc_indication o buf numerology w)
  unfolding dispatch_crc_indication
  dispatch_crc_indication-Ensures o buf numerology w h =
      elim (Bool-cases (ltb (length buf) (scf_hdr_size + 6))) [
        | inl out ↦ rw out h
        | inr fits ↦
            let inside = ltb→ge _ _ fits in
            let (sfn, e0) = load16_inside buf 8 (omega arith) in
            let (slot, e1) = load16_inside buf 10 (omega arith) in
            let (n, e2) = load16_inside buf 12 (omega arith) in
            rw (fits, e0, e1, e2) (crc_loop-Ensures n buf 14 (o.slot_point numerology sfn slot) w h)
      ]
