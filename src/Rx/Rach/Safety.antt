-- ===== src/Rx/Rach/Safety.antt =====
-- The RACH dispatcher of aerial_bridge/src/msg_translator.cpp reads inside its buffer.
use ocudu_aerial_fapi_connec.Common.{
  ℕ, zero, suc, ◌+◌, ◌≤◌, ltb, ltb→ge, Bool-cases, Option-cases, Ensures, inl, inr, List, none,
  length, ◌≢◌, arith,
}
use ocudu_aerial_fapi_connec.Ocudu.{Ocudu}
use ocudu_aerial_fapi_connec.Rx.Indication.{RachPdu}
use ocudu_aerial_fapi_connec.Rx.World.{World, scf_hdr_size}
use ocudu_aerial_fapi_connec.Rx.Rach.{
  read_preamble, preamble_loop, read_rach, notify_rach, rach_loop, dispatch_rach_indication,
}
use ocudu_aerial_fapi_connec.Wire.{load8_inside, load16_inside, load32_inside}

read_preamble-ne-none : (buf : List ℕ) (p : ℕ) → p + 7 ≤ length buf → read_preamble buf p ≢ none
unfolding read_preamble
read_preamble-ne-none buf p h =
    let (a, ea) = load8_inside buf p (omega arith) in
    let (b, eb) = load16_inside buf (p + 1) (omega arith) in
    let (c, ec) = load32_inside buf (p + 3) (omega arith) in rw (ea, eb, ec) (λ e. cc)

preamble_loop-ne-none : (rounds : ℕ) (buf : List ℕ) (p : ℕ) → preamble_loop rounds buf p ≢ none
unfolding preamble_loop
preamble_loop-ne-none zero buf p = λ e. cc
preamble_loop-ne-none (suc rounds) buf p = elim (Bool-cases (ltb (length buf) (p + 7))) [
  | inl out ↦ rw out (λ e. cc)
  | inr fits ↦ elim (Option-cases (read_preamble buf p)) [
    | inl e ↦ absurd (read_preamble-ne-none buf p (ltb→ge _ _ fits) e)
    | inr (preamble, e) ↦ rw (fits, e) (ground (arith, preamble_loop-ne-none rounds buf (p + 7)))
  ]
]

read_rach-ne-none : (buf : List ℕ) (p : ℕ) → p + 8 ≤ length buf → read_rach buf p ≢ none
unfolding read_rach
read_rach-ne-none buf p h =
    let (a, ea) = load8_inside buf (p + 2) (omega arith) in
    let (b, eb) = load8_inside buf (p + 3) (omega arith) in
    let (c, ec) = load8_inside buf (p + 4) (omega arith) in
    let (d, ed) = load8_inside buf (p + 5) (omega arith) in
    let (s, es) = load8_inside buf (p + 6) (omega arith) in
    let (n, en) = load8_inside buf (p + 7) (omega arith) in
    rw (ea, eb, ec, ed, es, en) (ground (arith, preamble_loop-ne-none n buf (p + 8)))

module _ {Slot Ta : Type 0} (P : World Slot Ta → Type 0)
    (keep : ((sp : Slot) (pdu : RachPdu) (w : World Slot Ta)
      → P w
      → P (notify_rach sp pdu w))) where
  rach_loop-Ensures :
      (rounds : ℕ) (buf : List ℕ) (p : ℕ) (sp : Slot) (w : World Slot Ta)
      → P w
      → Ensures P (rach_loop rounds buf p sp w)
  unfolding rach_loop
  rach_loop-Ensures zero buf p sp w h = h
  rach_loop-Ensures (suc rounds) buf p sp w h = elim (Bool-cases (ltb (length buf) (p + 8))) [
    | inl out ↦ rw out h
    | inr fits ↦ elim (Option-cases (read_rach buf p)) [
      | inl e ↦ absurd (read_rach-ne-none buf p (ltb→ge _ _ fits) e)
      | inr ((pdu, next), e) ↦
          rw (fits, e)
            (rach_loop-Ensures rounds buf next sp (notify_rach sp pdu w) (keep sp pdu w h))
    ]
  ]

  -- On every buffer the dispatcher ends without a read outside the buffer, and keeps what every
  -- notification keeps.
  pub dispatch_rach_indication-Ensures :
      (o : Ocudu Slot Ta) (buf : List ℕ) (numerology : ℕ) (w : World Slot Ta)
      → P w
      → Ensures P (dispatch_rach_indication o buf numerology w)
  unfolding dispatch_rach_indication
  dispatch_rach_indication-Ensures o buf numerology w h =
      elim (Bool-cases (ltb (length buf) (scf_hdr_size + 5))) [
        | inl out ↦ rw out h
        | inr fits ↦
            let inside = ltb→ge _ _ fits in
            let (sfn, e0) = load16_inside buf 8 (omega arith) in
            let (slot, e1) = load16_inside buf 10 (omega arith) in
            let (n, e2) = load8_inside buf 12 (omega arith) in
            rw (fits, e0, e1, e2)
              (rach_loop-Ensures n buf 13 (o.slot_point numerology sfn slot) w h)
      ]
