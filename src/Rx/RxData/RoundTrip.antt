-- ===== src/Rx/RxData/RoundTrip.antt =====
-- RX_DATA.indication messages that follow the layout stated in aerial_bridge/src/msg_translator.cpp,
-- and what the dispatcher makes of them.
use ocudu_aerial_fapi_connec.Common.{
  ℕ, ◌+◌, ◌≤◌, ◌<◌, ◌≡◌, refl, ap, ◌∙◌, true, le→leb, ge→ltb, List, [], ◌∷◌, ◌++◌, map, append-nil,
  append_assoc, All, some, Ensures, Ensures-map, length, length-append, arith,
}
use ocudu_aerial_fapi_connec.Ocudu.{Ocudu}
use ocudu_aerial_fapi_connec.Rx.Indication.{Indication, on_rx_data_indication}
use ocudu_aerial_fapi_connec.Rx.RxData.{
  DataBuf, RxDataEntry, read_rx_data, rx_data_pdu, next_offset, notify_rx_data, rx_data_loop,
  dispatch_rx_data_indication,
}
use ocudu_aerial_fapi_connec.Rx.World.{World}
use ocudu_aerial_fapi_connec.Tx.Frame.{concat}
use ocudu_aerial_fapi_connec.Wire.{
  le8, le16, le32, load8, load16, load32, one_byte, two_bytes, four_bytes, load8_behind,
  load16_behind, load32_behind,
}

-- An entry of the layout without `SCF_FAPI_10_04`: the fields that the dispatcher reads, and the
-- three measurements that it skips.
pub record WireEntry : Type 0 where
  pub entry : RxDataEntry
  pub ul_cqi : ℕ
  pub timing_advance : ℕ
  pub rssi : ℕ

pub record Fits (e : WireEntry) : Type 0 where
  pub handle_fits : e.entry.handle < 4294967296
  pub rnti_fits : e.entry.rnti < 65536
  pub harq_fits : e.entry.harq_id < 256
  pub pdu_len_fits : e.entry.pdu_len < 4294967296

abbrev pub entry_bytes : WireEntry → List ℕ
entry_bytes e =
    le32 e.entry.handle
    ++ (le16 e.entry.rnti
        ++ (le8 e.entry.harq_id
            ++ (le32 e.entry.pdu_len ++ (le8 e.ul_cqi ++ (le16 e.timing_advance ++ le16 e.rssi)))))

-- The bytes of the data buffer that the entries announce.
abbrev pub total : List WireEntry → ℕ
total [] = 0
total (e ∷ es) = e.entry.pdu_len + total es

module _ (e : WireEntry) (fits : Fits e) (pre rest : List ℕ) (p : ℕ) (at : p ≡ length pre) where
  abbrev buf : List ℕ
  buf = pre ++ (entry_bytes e ++ rest)

  read_handle : load32 buf p ≡ some e.entry.handle
  unfolding load32
  read_handle =
      load32_behind pre (entry_bytes e ++ rest) p 0 (omega arith)
      ∙ ap some (four_bytes e.entry.handle fits.handle_fits)

  read_rnti : load16 buf (p + 4) ≡ some e.entry.rnti
  unfolding load16
  read_rnti =
      load16_behind pre (entry_bytes e ++ rest) (p + 4) 4 (omega arith)
      ∙ ap some (two_bytes e.entry.rnti fits.rnti_fits)

  read_harq : load8 buf (p + 6) ≡ some e.entry.harq_id
  unfolding load8
  read_harq =
      load8_behind pre (entry_bytes e ++ rest) (p + 6) 6 (omega arith)
      ∙ ap some (one_byte e.entry.harq_id fits.harq_fits)

  read_pdu_len : load32 buf (p + 7) ≡ some e.entry.pdu_len
  unfolding load32
  read_pdu_len =
      load32_behind pre (entry_bytes e ++ rest) (p + 7) 7 (omega arith)
      ∙ ap some (four_bytes e.entry.pdu_len fits.pdu_len_fits)

  read_rx_data_lem : read_rx_data buf p ≡ some e.entry
  unfolding read_rx_data
  read_rx_data_lem = rw (read_handle, read_rnti, read_harq, read_pdu_len)

next_offset-fits :
    (data_len offset : ℕ) (e : WireEntry)
    → offset + e.entry.pdu_len ≤ data_len
    → next_offset (record { present = true; data_len = data_len }) offset e.entry
      ≡ offset + e.entry.pdu_len
unfolding next_offset
next_offset-fits data_len offset e room = rw (le→leb (offset + e.entry.pdu_len) data_len room)

module _ {Slot Ta : Type 0} where
  -- The notifications of entries whose blocks lie one behind the other from `offset` on.
  abbrev pub told : Slot → ℕ → List WireEntry → List (Indication Slot Ta)
  told sp offset [] = []
  told sp offset (e ∷ es) =
      on_rx_data_indication sp (record {
        handle = e.entry.handle;
        rnti = e.entry.rnti;
        harq_id = e.entry.harq_id;
        transport_block = some (record { start = offset; size = e.entry.pdu_len });
      })
      ∷ told sp (offset + e.entry.pdu_len) es

  abbrev pub Tells : Slot → ℕ → List WireEntry → World Slot Ta → World Slot Ta → Type 0
  Tells sp offset es w w' = w'.notified ≡ w.notified ++ told sp offset es

  notify_rx_data-notified :
      (data_len offset : ℕ) (e : WireEntry)
      → offset + e.entry.pdu_len ≤ data_len
      → (sp : Slot) (w : World Slot Ta)
      → (notify_rx_data sp
          (record { present = true; data_len = data_len })
          offset
          e.entry
          w).notified
        ≡ w.notified ++ told sp offset (e ∷ [])
  unfolding notify_rx_data rx_data_pdu
  notify_rx_data-notified data_len offset e room sp w =
      rw (le→leb (offset + e.entry.pdu_len) data_len room)

  rx_data_loop-Tells :
      (es : List WireEntry) (pre : List ℕ) (p data_len offset : ℕ) (sp : Slot) (w : World Slot Ta)
      → All Fits es
      → offset + total es ≤ data_len
      → p ≡ length pre
      → Ensures (Tells sp offset es w) (
          rx_data_loop
            (length es)
            (pre ++ concat (map entry_bytes es))
            p
            (record { present = true; data_len = data_len })
            offset
            sp
            w)
  unfolding rx_data_loop
  rx_data_loop-Tells [] pre p data_len offset sp w h room at = rw append-nil
  rx_data_loop-Tells (e ∷ es) pre p data_len offset sp w (h, hs) room at =
      let rest = concat (map entry_bytes es) in
      let dat : DataBuf = record { present = true; data_len = data_len } in
      let w1 = notify_rx_data sp dat offset e.entry w in
      let after = offset + e.entry.pdu_len in
      let here : after ≤ data_len = omega arith in
      rw
        (
          ge→ltb (length (buf e h pre rest p at)) (p + 16)
              (omega (arith, length-append pre (entry_bytes e ++ rest))),
          read_rx_data_lem e h pre rest p at,
          next_offset-fits data_len offset e here,
        )
        (Ensures-map (Tells sp after es w1) (Tells sp offset (e ∷ es) w)
          (rx_data_loop (length es) (pre ++ (entry_bytes e ++ rest)) (p + 16) dat after sp w1)
          (λ w' t.
            t
            ∙ ap (λ (is : List (Indication Slot Ta)). is ++ told sp after es)
                (notify_rx_data-notified data_len offset e here sp w)
            ∙ append_assoc w.notified (told sp offset (e ∷ [])) (told sp after es))
          (rw (append_assoc pre (entry_bytes e) rest) at (
            rx_data_loop-Tells es (pre ++ entry_bytes e) (p + 16) data_len after sp w1 hs
              (omega arith) (omega (arith, length-append pre (entry_bytes e))))))

-- A message of the stated layout.
abbrev pub rx_data_message_of : List ℕ → ℕ → ℕ → List WireEntry → List ℕ
rx_data_message_of hdr sfn slot es =
    hdr ++ (le16 sfn ++ (le16 slot ++ (le16 (length es) ++ concat (map entry_bytes es))))

module _ {Slot Ta : Type 0} (o : Ocudu Slot Ta) (hdr : List ℕ) (sfn slot numerology : ℕ)
    (es : List WireEntry) (data_len : ℕ) (w : World Slot Ta) where
  abbrev buffer : List ℕ
  buffer = rx_data_message_of hdr sfn slot es

  -- An RX_DATA.indication that follows the stated layout, with 16-bit SFN and slot and fewer than
  -- 65536 entries with fields in range, whose blocks fit the data buffer together, leads to
  -- exactly one notification per entry, in order; the blocks handed out lie one behind the other
  -- from offset 0 and do not overlap.
  pub dispatch_rx_data_indication-Tells :
      length hdr ≡ 8
      → sfn < 65536
      → slot < 65536
      → length es < 65536
      → All Fits es
      → total es ≤ data_len
      → Ensures (Tells (o.slot_point numerology sfn slot) 0 es w) (
          dispatch_rx_data_indication o
            (rx_data_message_of hdr sfn slot es)
            (record { present = true; data_len = data_len })
            numerology
            w)
  unfolding dispatch_rx_data_indication load16
  dispatch_rx_data_indication-Tells header sfn_fits slot_fits few fits room =
      rw
        (
          ge→ltb (length buffer) 14 (omega (arith, whole)),
          field 0 8 refl,
          field 2 10 refl,
          field 4 12 refl,
          two_bytes sfn sfn_fits,
          two_bytes slot slot_fits,
          two_bytes (length es) few,
        )
        (rw shape at (
          rx_data_loop-Tells es front 14 data_len 0 (o.slot_point numerology sfn slot) w fits
            (omega arith)
            (omega (arith, length-append hdr (le16 sfn ++ (le16 slot ++ le16 (length es)))))))
    where
      body : List ℕ
      body = le16 sfn ++ (le16 slot ++ (le16 (length es) ++ concat (map entry_bytes es)))

      whole : length buffer ≡ 8 + length body
      whole = omega (arith, length-append hdr body)

      front : List ℕ
      front = hdr ++ (le16 sfn ++ (le16 slot ++ le16 (length es)))

      shape : front ++ concat (map entry_bytes es) ≡ buffer
      shape =
          append_assoc hdr (le16 sfn ++ (le16 slot ++ le16 (length es)))
            (concat (map entry_bytes es))

      field : (k p : ℕ) → p ≡ 8 + k → load16 buffer p ≡ load16 body k
      field k p e = load16_behind hdr body p k (omega arith)
