-- ===== src/Rx/Uci/RoundTrip.antt =====
-- UCI.indication messages that follow the structs of aerial_bridge/src/msg_translator.cpp, and what the
-- dispatcher makes of them.
use ocudu_aerial_fapi_connec.Common.{
  ℕ, ◌+◌, ◌<◌, ◌≡◌, refl, ap, sym, ◌∙◌, ge→ltb, List, [], ◌∷◌, ◌++◌, append-nil, map, All, some,
  Ensures, Ensures->>=, Ensures-map, length, length-append, arith,
}
use ocudu_aerial_fapi_connec.Ocudu.{Ocudu}
use ocudu_aerial_fapi_connec.Rx.Envelope.{Adds, Adds-trans}
use ocudu_aerial_fapi_connec.Rx.Indication.{Indication}
use ocudu_aerial_fapi_connec.Rx.Uci.{uci_pdu, uci_loop, dispatch_uci_indication}
use ocudu_aerial_fapi_connec.Rx.Uci.Cases.{uci_pdu_lem}
use ocudu_aerial_fapi_connec.Rx.Uci.Entries.{
  UciEntry, pusch_entry, pucch01_entry, pucch234_entry, type_of, payload_of, uci_bytes, UciFits,
  meaning,
}
use ocudu_aerial_fapi_connec.Rx.World.{World}
use ocudu_aerial_fapi_connec.Tx.Frame.{concat}
use ocudu_aerial_fapi_connec.Wire.{le16, load16, two_bytes}
use ocudu_aerial_fapi_connec.Wire.Cursor.{At, At-left, At-right, At-inside, load16-At}

-- A message of the stated layout.
abbrev pub uci_message_of : List ℕ → ℕ → ℕ → List UciEntry → List ℕ
uci_message_of hdr sfn slot es =
    hdr ++ (le16 sfn ++ (le16 slot ++ (le16 (length es) ++ concat (map uci_bytes es))))

type_of-small : (e : UciEntry) → type_of e < 65536
type_of-small (pusch_entry h harq csi1 csi2) = omega arith
type_of-small (pucch01_entry f h sr harq) = omega arith
type_of-small (pucch234_entry f h sr harq csi1 csi2) = omega arith

module _ {Slot Ta : Type 0} (o : Ocudu Slot Ta) (numerology : ℕ) where
  -- The notifications of a list of PDUs.
  abbrev pub told_uci : Slot → List UciEntry → List (Indication Slot Ta)
  told_uci sp es = map (λ e. meaning o numerology sp e) es

  uci_loop-Adds :
      (es : List UciEntry) (buf : List ℕ) (p : ℕ) (sp : Slot) (w : World Slot Ta)
      → All (UciFits o) es
      → At buf p (concat (map uci_bytes es))
      → Ensures (Adds (told_uci sp es) w) (uci_loop o numerology (length es) buf p sp w)
  unfolding uci_loop load16
  uci_loop-Adds [] buf p sp w h a = sym (append-nil w.notified)
  uci_loop-Adds (e ∷ es) buf p sp w (h, hs) a =
      let rest = concat (map uci_bytes es) in
      let size = 4 + length (payload_of e) in
      let here = At-left buf p (uci_bytes e) rest a in
      let inside = At-inside buf p (uci_bytes e) here in
      let next : p + length (uci_bytes e) ≡ p + size = omega arith in
      rw
        (
          ge→ltb (length buf) (p + 4) (omega (arith, inside)),
          load16-At buf p (uci_bytes e) here p 0 (omega arith) (omega arith)
              ∙ ap some (two_bytes (type_of e) (type_of-small e)),
          load16-At buf p (uci_bytes e) here (p + 2) 2 refl (omega arith)
              ∙ ap some (two_bytes size h.size_fits),
          ge→ltb size 4 (omega arith),
          ge→ltb (length buf) (p + size) (omega (arith, inside)),
        )
        (Ensures->>= (Adds (meaning o numerology sp e ∷ []) w) (Adds (told_uci sp (e ∷ es)) w)
          (uci_pdu o numerology buf (type_of e) (p + 4) (p + size) sp w) _
          (uci_pdu_lem o numerology sp buf (p + 4) (p + size) w e h.fields
            (At-right buf p (le16 (type_of e) ++ le16 size) (payload_of e) here) (omega arith))
          (λ w1 t.
            Ensures-map (Adds (told_uci sp es) w1) (Adds (told_uci sp (e ∷ es)) w)
              (uci_loop o numerology (length es) buf (p + size) sp w1)
              (λ w' t'. Adds-trans (meaning o numerology sp e ∷ []) (told_uci sp es) w w1 w' t t')
              (uci_loop-Adds es buf (p + size) sp w1 hs
                (rw next at (At-right buf p (uci_bytes e) rest a)))))

  -- A UCI.indication that follows the stated layout, with 16-bit SFN and slot, fewer than 65536 PDUs
  -- of the three types with fields in range, and payloads of no more bits than OCUDU holds, leads to
  -- exactly one notification per PDU, in order: the PDU's identification, timing advance and RSSI, and
  -- of each optional section whether it is there and, bit for bit, what it holds.
  pub dispatch_uci_indication-Adds :
      (hdr : List ℕ) (sfn slot : ℕ) (es : List UciEntry) (w : World Slot Ta)
      → length hdr ≡ 8
      → sfn < 65536
      → slot < 65536
      → length es < 65536
      → All (UciFits o) es
      → Ensures
          (Adds (told_uci (o.slot_point numerology sfn slot) es) w)
          (dispatch_uci_indication o (uci_message_of hdr sfn slot es) numerology w)
  unfolding dispatch_uci_indication load16
  dispatch_uci_indication-Adds hdr sfn slot es w header sfn_fits slot_fits few fits =
      let entries = concat (map uci_bytes es) in
      let n = length es in
      let front = le16 sfn ++ (le16 slot ++ le16 n) in
      let body = front ++ entries in
      let buf = hdr ++ body in
      let at : At buf 8 body = record {
        pre = hdr;
        rest = [];
        split = ap (λ (xs : List ℕ). hdr ++ xs) (sym (append-nil body));
        offset = sym header;
      } in
      rw
        (
          ge→ltb (length buf) 14 (omega (arith, length-append hdr body)),
          load16-At buf 8 body at 8 0 refl (omega arith) ∙ ap some (two_bytes sfn sfn_fits),
          load16-At buf 8 body at 10 2 refl (omega arith) ∙ ap some (two_bytes slot slot_fits),
          load16-At buf 8 body at 12 4 refl (omega arith) ∙ ap some (two_bytes n few),
        )
        (uci_loop-Adds es buf 14 (o.slot_point numerology sfn slot) w fits
          (At-right buf 8 front entries at))
