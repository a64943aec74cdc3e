-- ===== src/Rx/RxData/Safety.antt =====
-- The RX_DATA dispatcher of aerial_bridge/src/msg_translator.cpp reads inside its buffer.
use ocudu_aerial_fapi_connec.Common.{
  ℕ, zero, suc, ◌+◌, ◌≤◌, ltb, ltb→ge, Bool-cases, Option-cases, Ensures, inl, inr, List, none,
  length, ◌≢◌, arith,
}
use ocudu_aerial_fapi_connec.Ocudu.{Ocudu}
use ocudu_aerial_fapi_connec.Rx.World.{World, scf_hdr_size}
use ocudu_aerial_fapi_connec.Rx.RxData.{
  DataBuf, RxDataEntry, read_rx_data, next_offset, notify_rx_data, rx_data_loop,
  dispatch_rx_data_indication,
}
use ocudu_aerial_fapi_connec.Wire.{load8_inside, load16_inside, load32_inside}

read_rx_data-ne-none : (buf : List ℕ) (p : ℕ) → p + 16 ≤ length buf → read_rx_data buf p ≢ none
unfolding read_rx_data
read_rx_data-ne-none buf p h =
    let (a, ea) = load32_inside buf p (omega arith) in
    let (b, eb) = load16_inside buf (p + 4) (omega arith) in
    let (c, ec) = load8_inside buf (p + 6) (omega arith) in
    let (d, ed) = load32_inside buf (p + 7) (omega arith) in rw (ea, eb, ec, ed) (λ e. cc)

module _ {Slot Ta : Type 0} (P : World Slot Ta → Type 0)
    (keep : ((sp : Slot) (d : DataBuf) (off : ℕ) (pdu : RxDataEntry) (w : World Slot Ta)
      → P w
      → P (notify_rx_data sp d off pdu w))) where
  rx_data_loop-Ensures :
      (rounds : ℕ) (buf : List ℕ) (p : ℕ) (d : DataBuf) (off : ℕ) (sp : Slot) (w : World Slot Ta)
      → P w
      → Ensures P (rx_data_loop rounds buf p d off sp w)
  unfolding rx_data_loop
  rx_data_loop-Ensures zero buf p d off sp w h = h
  rx_data_loop-Ensures (suc rounds) buf p d off sp w h =
      elim (Bool-cases (ltb (length buf) (p + 16))) [
        | inl out ↦ rw out h
        | inr fits ↦ elim (Option-cases (read_rx_data buf p)) [
          | inl e ↦ absurd (read_rx_data-ne-none buf p (ltb→ge _ _ fits) e)
          | inr (pdu, e) ↦
              rw (fits, e)
                (rx_data_loop-Ensures rounds buf (p + 16) d (next_offset d off pdu) sp
                  (notify_rx_data sp d off pdu w) (keep sp d off pdu w h))
        ]
      ]

  -- On every buffer the dispatcher ends without a read outside the buffer, and keeps what every
  -- notification keeps.
  pub dispatch_rx_data_indication-Ensures :
      (o : Ocudu Slot Ta) (buf : List ℕ) (d : DataBuf) (numerology : ℕ) (w : World Slot Ta)
      → P w
      → Ensures P (dispatch_rx_data_indication o buf d numerology w)
  unfolding dispatch_rx_data_indication
  dispatch_rx_data_indication-Ensures o buf d numerology w h =
      elim (Bool-cases (ltb (length buf) (scf_hdr_size + 6))) [
        | inl out ↦ rw out h
        | inr fits ↦
            let inside = ltb→ge _ _ fits in
            let (sfn, e0) = load16_inside buf 8 (omega arith) in
            let (slot, e1) = load16_inside buf 10 (omega arith) in
            let (n, e2) = load16_inside buf 12 (omega arith) in
            rw (fits, e0, e1, e2)
              (rx_data_loop-Ensures n buf 14 d 0 (o.slot_point numerology sfn slot) w h)
      ]
