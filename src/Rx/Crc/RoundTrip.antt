-- ===== src/Rx/Crc/RoundTrip.antt =====
-- CRC.indication messages that follow the layout stated in aerial_bridge/src/msg_translator.cpp,
-- and what the dispatcher makes of them.
use ocudu_aerial_fapi_connec.Common.{
  ℕ, ◌+◌, ◌<◌, ◌==◌, ◌≡◌, refl, ap, ◌∙◌, sym, le→leb, List, [], ◌∷◌, ◌++◌, map, append-nil,
  append_assoc, All, some, Ensures, Ensures-map, ge→ltb, length, length-append, arith,
}
use ocudu_aerial_fapi_connec.Ocudu.{Ocudu}
use ocudu_aerial_fapi_connec.Rx.Crc.{
  read_measurement, read_crc, notify_crc, crc_loop, dispatch_crc_indication,
}
use ocudu_aerial_fapi_connec.Rx.Indication.{Indication, CrcPdu, on_crc_indication}
use ocudu_aerial_fapi_connec.Rx.World.{World}
use ocudu_aerial_fapi_connec.Tx.Frame.{concat}
use ocudu_aerial_fapi_connec.Wire.{
  le8, le16, le32, load8, load16, load32, one_byte, two_bytes, four_bytes, load8_behind,
  load16_behind, load32_behind,
}

-- An entry of the layout without `SCF_FAPI_10_04`.
pub record CrcEntry : Type 0 where
  pub handle : ℕ
  pub rnti : ℕ
  pub harq_id : ℕ
  pub tb_crc_status : ℕ
  pub cb_crc_status : List ℕ
  pub ul_cqi : ℕ
  pub timing_advance : ℕ
  pub rssi : ℕ

pub record Fits (e : CrcEntry) : Type 0 where
  pub handle_fits : e.handle < 4294967296
  pub rnti_fits : e.rnti < 65536
  pub harq_fits : e.harq_id < 256
  pub status_fits : e.tb_crc_status < 256
  pub cbs_fit : length e.cb_crc_status < 65536
  pub cqi_fits : e.ul_cqi < 256
  pub rssi_fits : e.rssi < 65536

abbrev crc_head : CrcEntry → List ℕ
crc_head e =
    le32 e.handle
    ++ (le16 e.rnti ++ (le8 e.harq_id ++ (le8 e.tb_crc_status ++ le16 (length e.cb_crc_status))))

abbrev crc_tail : CrcEntry → List ℕ
crc_tail e = le8 e.ul_cqi ++ (le16 e.timing_advance ++ le16 e.rssi)

abbrev pub crc_bytes : CrcEntry → List ℕ
crc_bytes e = crc_head e ++ (e.cb_crc_status ++ crc_tail e)

-- What the notifier is told of an entry.
abbrev pub crc_pdu : CrcEntry → CrcPdu
crc_pdu e = record {
  handle = e.handle;
  rnti = e.rnti;
  harq_id = e.harq_id;
  tb_crc_status_ok = e.tb_crc_status == 0;
  measured = some (record { ul_sinr_metric = e.ul_cqi; rssi = e.rssi; rsrp = 0 });
}

module _ (e : CrcEntry) (fits : Fits e) (pre rest : List ℕ) (p : ℕ) (at : p ≡ length pre) where
  abbrev buf : List ℕ
  buf = pre ++ (crc_bytes e ++ rest)

  abbrev q : ℕ
  q = p + 10 + length e.cb_crc_status

  size : length buf ≡ q + 5 + length rest
  size = omega (
    arith,
    length-append pre (crc_bytes e ++ rest),
    length-append (e.cb_crc_status ++ crc_tail e) rest,
    length-append e.cb_crc_status (crc_tail e),
  )

  abbrev before : List ℕ
  before = pre ++ (crc_head e ++ e.cb_crc_status)

  abbrev after : List ℕ
  after = crc_tail e ++ rest

  tail_view : buf ≡ before ++ after
  tail_view =
      ap (λ (xs : List ℕ). pre ++ (crc_head e ++ xs))
        (append_assoc e.cb_crc_status (crc_tail e) rest)
      ∙ sym (append_assoc pre (crc_head e ++ e.cb_crc_status) after)

  length-before : length before ≡ q
  length-before = omega (arith, length-append pre (crc_head e ++ e.cb_crc_status))

  read_cqi : load8 buf q ≡ some e.ul_cqi
  unfolding load8
  read_cqi =
      ap (λ (b : List ℕ). load8 b q) tail_view
      ∙ load8_behind before after q 0 (omega (arith, length-before))
      ∙ ap some (one_byte e.ul_cqi fits.cqi_fits)

  read_ta : load16 buf (q + 1) ≡ load16 after 1
  read_ta =
      ap (λ (b : List ℕ). load16 b (q + 1)) tail_view
      ∙ load16_behind before after (q + 1) 1 (omega (arith, length-before))

  read_rssi : load16 buf (q + 3) ≡ some e.rssi
  unfolding load16
  read_rssi =
      ap (λ (b : List ℕ). load16 b (q + 3)) tail_view
      ∙ load16_behind before after (q + 3) 3 (omega (arith, length-before))
      ∙ ap some (two_bytes e.rssi fits.rssi_fits)

  read_measurement_lem :
      read_measurement buf q
      ≡ some (some (record { ul_sinr_metric = e.ul_cqi; rssi = e.rssi; rsrp = 0 }), q + 5)
  unfolding read_measurement load16
  read_measurement_lem =
      rw (le→leb (q + 5) (length buf) (omega (arith, size)), read_cqi, read_ta, read_rssi)

  read_handle : load32 buf p ≡ some e.handle
  unfolding load32
  read_handle =
      load32_behind pre (crc_bytes e ++ rest) p 0 (omega arith)
      ∙ ap some (four_bytes e.handle fits.handle_fits)

  read_rnti : load16 buf (p + 4) ≡ some e.rnti
  unfolding load16
  read_rnti =
      load16_behind pre (crc_bytes e ++ rest) (p + 4) 4 (omega arith)
      ∙ ap some (two_bytes e.rnti fits.rnti_fits)

  read_harq : load8 buf (p + 6) ≡ some e.harq_id
  unfolding load8
  read_harq =
      load8_behind pre (crc_bytes e ++ rest) (p + 6) 6 (omega arith)
      ∙ ap some (one_byte e.harq_id fits.harq_fits)

  read_status : load8 buf (p + 7) ≡ some e.tb_crc_status
  unfolding load8
  read_status =
      load8_behind pre (crc_bytes e ++ rest) (p + 7) 7 (omega arith)
      ∙ ap some (one_byte e.tb_crc_status fits.status_fits)

  read_num_cb : load16 buf (p + 8) ≡ some (length e.cb_crc_status)
  unfolding load16
  read_num_cb =
      load16_behind pre (crc_bytes e ++ rest) (p + 8) 8 (omega arith)
      ∙ ap some (two_bytes (length e.cb_crc_status) fits.cbs_fit)

  read_crc_lem : read_crc buf p ≡ some (crc_pdu e, q + 5)
  unfolding read_crc
  read_crc_lem =
      rw (read_handle, read_rnti, read_harq, read_status, read_num_cb, read_measurement_lem)

-- A message of the stated layout.
abbrev pub crc_message_of : List ℕ → ℕ → ℕ → List CrcEntry → List ℕ
crc_message_of hdr sfn slot es =
    hdr ++ (le16 sfn ++ (le16 slot ++ (le16 (length es) ++ concat (map crc_bytes es))))

module _ {Slot Ta : Type 0} where
  -- The notifications of a list of entries.
  abbrev pub told : Slot → List CrcEntry → List (Indication Slot Ta)
  told sp es = map (λ e. on_crc_indication sp (crc_pdu e)) es

  abbrev pub Tells : Slot → List CrcEntry → World Slot Ta → World Slot Ta → Type 0
  Tells sp es w w' = w'.notified ≡ w.notified ++ told sp es

  notify_crc-notified :
      (sp : Slot) (pdu : CrcPdu) (w : World Slot Ta)
      → (notify_crc sp pdu w).notified ≡ w.notified ++ (on_crc_indication sp pdu ∷ [])
  unfolding notify_crc
  notify_crc-notified sp pdu w = ground arith

  crc_loop-Tells :
      (es : List CrcEntry) (pre : List ℕ) (p : ℕ) (sp : Slot) (w : World Slot Ta)
      → All Fits es
      → p ≡ length pre
      → Ensures (Tells sp es w) (crc_loop (length es) (pre ++ concat (map crc_bytes es)) p sp w)
  unfolding crc_loop
  crc_loop-Tells [] pre p sp w h at = rw append-nil
  crc_loop-Tells (e ∷ es) pre p sp w (h, hs) at =
      let rest = concat (map crc_bytes es) in
      let w1 = notify_crc sp (crc_pdu e) w in
      let next = q e h pre rest p at + 5 in
      rw
        (
          ge→ltb (length (buf e h pre rest p at)) (p + 10) (omega (arith, size e h pre rest p at)),
          read_crc_lem e h pre rest p at,
        )
        (Ensures-map (Tells sp es w1) (Tells sp (e ∷ es) w)
          (crc_loop (length es) (pre ++ (crc_bytes e ++ rest)) next sp w1)
          (λ w' t.
            t
            ∙ ap (λ (is : List (Indication Slot Ta)). is ++ told sp es)
                (notify_crc-notified sp (crc_pdu e) w)
            ∙ append_assoc w.notified (on_crc_indication sp (crc_pdu e) ∷ []) (told sp es))
          (rw (append_assoc pre (crc_bytes e) rest) at (
            crc_loop-Tells es (pre ++ crc_bytes e) next sp w1 hs (
              omega (
                arith,
                length-append pre (crc_bytes e),
                length-append e.cb_crc_status (crc_tail e),
              )))))

  module _ (o : Ocudu Slot Ta) (hdr : List ℕ) (sfn slot numerology : ℕ) (es : List CrcEntry)
      (w : World Slot Ta) where
    abbrev buffer : List ℕ
    buffer = crc_message_of hdr sfn slot es

    -- A CRC.indication that follows the stated layout, with 16-bit SFN and slot and fewer than
    -- 65536 entries with fields in range, leads to exactly one notification per entry, in order,
    -- each with the entry's handle, RNTI, HARQ process, CRC status and measurements.
    pub dispatch_crc_indication-Tells :
        length hdr ≡ 8
        → sfn < 65536
        → slot < 65536
        → length es < 65536
        → All Fits es
        → Ensures
            (Tells (o.slot_point numerology sfn slot) es w)
            (dispatch_crc_indication o (crc_message_of hdr sfn slot es) numerology w)
    unfolding dispatch_crc_indication load16
    dispatch_crc_indication-Tells header sfn_fits slot_fits few fits =
        rw
          (
            ge→ltb (length buffer) 14 (omega (arith, whole)),
            field 0 8 refl,
            field 2 10 refl,
            field 4 12 refl,
            two_bytes sfn sfn_fits,
            two_bytes slot slot_fits,
            two_bytes (length es) few,
          )
          (rw shape at (
            crc_loop-Tells es front 14 (o.slot_point numerology sfn slot) w fits
              (omega (arith, length-append hdr (le16 sfn ++ (le16 slot ++ le16 (length es)))))))
      where
        body : List ℕ
        body = le16 sfn ++ (le16 slot ++ (le16 (length es) ++ concat (map crc_bytes es)))

        whole : length buffer ≡ 8 + length body
        whole = omega (arith, length-append hdr body)

        front : List ℕ
        front = hdr ++ (le16 sfn ++ (le16 slot ++ le16 (length es)))

        shape : front ++ concat (map crc_bytes es) ≡ buffer
        shape =
            append_assoc hdr (le16 sfn ++ (le16 slot ++ le16 (length es)))
              (concat (map crc_bytes es))

        field : (k p : ℕ) → p ≡ 8 + k → load16 buffer p ≡ load16 body k
        field k p e = load16_behind hdr body p k (omega arith)
