-- ===== src/Rx/Rach/RoundTrip.antt =====
-- RACH.indication messages that follow the layout stated in aerial_bridge/src/msg_translator.cpp, and
-- what the dispatcher makes of them.
use ocudu_aerial_fapi_connec.Common.{
  ℕ, ◌+◌, ◌*◌, ◌%◌, ◌<◌, ◌≡◌, refl, ap, ◌∙◌, sym, false, ltb, ge→ltb, List, [], ◌∷◌, ◌++◌, map,
  append-nil, append_assoc, All, some, Ensures, Ensures-map, length, length-append, arith,
}
use ocudu_aerial_fapi_connec.Ocudu.{Ocudu}
use ocudu_aerial_fapi_connec.Rx.Envelope.{
  message_of, front, message_of-front, length-front, not_short, load-sfn, load-slot, load-count,
  Adds, Adds-trans,
}
use ocudu_aerial_fapi_connec.Rx.Indication.{Indication, Preamble, RachPdu, on_rach_indication}
use ocudu_aerial_fapi_connec.Rx.Rach.{
  read_preamble, preamble_loop, read_rach, notify_rach, rach_loop, dispatch_rach_indication,
}
use ocudu_aerial_fapi_connec.Rx.World.{World}
use ocudu_aerial_fapi_connec.Tx.Frame.{concat}
use ocudu_aerial_fapi_connec.Wire.{
  le8, le16, le32, load8, load16, load32, one_byte, four_bytes, load8_behind, load16_behind,
  load32_behind,
}

pub record PreambleEntry : Type 0 where
  pub preamble_index : ℕ
  pub timing_advance : ℕ
  pub preamble_power : ℕ

pub record RachEntry : Type 0 where
  pub phys_cell_id : ℕ
  pub symbol_index : ℕ
  pub slot_index : ℕ
  pub freq_index : ℕ
  pub avg_rssi : ℕ
  pub avg_snr : ℕ
  pub preambles : List PreambleEntry

pub record PreambleFits (e : PreambleEntry) : Type 0 where
  pub index_fits : e.preamble_index < 256
  pub power_fits : e.preamble_power < 4294967296

pub record RachFits (e : RachEntry) : Type 0 where
  pub symbol_fits : e.symbol_index < 256
  pub slot_fits : e.slot_index < 256
  pub freq_fits : e.freq_index < 256
  pub rssi_fits : e.avg_rssi < 256
  pub snr_fits : e.avg_snr < 256
  pub few_preambles : length e.preambles < 256
  pub preambles_fit : All PreambleFits e.preambles

abbrev pub preamble_bytes : PreambleEntry → List ℕ
preamble_bytes e = le8 e.preamble_index ++ (le16 e.timing_advance ++ le32 e.preamble_power)

abbrev pub preambles_bytes : List PreambleEntry → List ℕ
preambles_bytes es = concat (map preamble_bytes es)

abbrev head : RachEntry → List ℕ
head e =
    le16 e.phys_cell_id
    ++ (le8 e.symbol_index
        ++ (le8 e.slot_index
            ++ (le8 e.freq_index
                ++ (le8 e.avg_rssi ++ (le8 e.avg_snr ++ le8 (length e.preambles))))))

abbrev pub rach_bytes : RachEntry → List ℕ
rach_bytes e = head e ++ preambles_bytes e.preambles

-- What the notifier is told; timing advances are not passed on.
abbrev pub preamble_of : PreambleEntry → Preamble
preamble_of e = record {
  preamble_index = e.preamble_index;
  preamble_pwr = e.preamble_power;
  preamble_snr = 0;
}

abbrev pub rach_pdu : RachEntry → RachPdu
rach_pdu e = record {
  symbol_index = e.symbol_index;
  slot_index = e.slot_index;
  ra_index = e.freq_index;
  avg_rssi = e.avg_rssi;
  avg_snr = e.avg_snr;
  preambles = map preamble_of e.preambles;
}

read_preamble_lem :
    (e : PreambleEntry) (pre rest : List ℕ) (p : ℕ)
    → PreambleFits e
    → p ≡ length pre
    → read_preamble (pre ++ (preamble_bytes e ++ rest)) p ≡ some (preamble_of e)
unfolding read_preamble load8 load16 load32
read_preamble_lem e pre rest p h at =
    let post = preamble_bytes e ++ rest in
    rw (
      load8_behind pre post p 0 (omega arith),
      load16_behind pre post (p + 1) 1 (omega arith),
      load32_behind pre post (p + 3) 3 (omega arith),
      one_byte e.preamble_index h.index_fits,
      four_bytes e.preamble_power h.power_fits,
    )

length-preambles_bytes : (es : List PreambleEntry) → length (preambles_bytes es) ≡ 7 * length es
length-preambles_bytes [] = refl
length-preambles_bytes (e ∷ es) =
    omega (arith, length-preambles_bytes es, length-append (preamble_bytes e) (preambles_bytes es))

preamble_loop_lem :
    (es : List PreambleEntry) (pre rest : List ℕ) (p : ℕ)
    → All PreambleFits es
    → p ≡ length pre
    → preamble_loop (length es) (pre ++ (preambles_bytes es ++ rest)) p
      ≡ some (map preamble_of es, p + 7 * length es)
unfolding preamble_loop
preamble_loop_lem [] pre rest p h at = ap (λ (n : ℕ). some ([], n)) (omega arith)
preamble_loop_lem (e ∷ es) pre rest p (h, hs) at =
    let tail = preambles_bytes es ++ rest in
    let buf = pre ++ (preamble_bytes e ++ tail) in
    let long : ltb (length buf) (p + 7) ≡ false =
      ge→ltb (length buf) (p + 7) (omega (arith, length-append pre (preamble_bytes e ++ tail))) in
    let more = rw (append_assoc pre (preamble_bytes e) tail) at (
      preamble_loop_lem es (pre ++ preamble_bytes e) rest (p + 7) hs
        (omega (arith, length-append pre (preamble_bytes e)))) in
    rw (append_assoc (preamble_bytes e) (preambles_bytes es) rest) (
      rw (long, read_preamble_lem e pre tail p h at, more)
        (ap (λ (n : ℕ). some (map preamble_of (e ∷ es), n)) (omega arith)))

module _ (e : RachEntry) (fits : RachFits e) (pre rest : List ℕ) (p : ℕ) (at : p ≡ length pre) where
  abbrev post : List ℕ
  post = rach_bytes e ++ rest

  abbrev size : ℕ
  size = 8 + 7 * length e.preambles

  length-rach_bytes : length (rach_bytes e) ≡ size
  length-rach_bytes = omega (
    arith,
    length-preambles_bytes e.preambles,
    length-append (head e) (preambles_bytes e.preambles),
  )

  long : ltb (length (pre ++ post)) (p + 8) ≡ false
  long =
      ge→ltb (length (pre ++ post)) (p + 8) (
        omega (arith, length-append pre post, length-append (rach_bytes e) rest, length-rach_bytes))

  read_preambles :
      preamble_loop (length e.preambles) (pre ++ post) (p + 8)
      ≡ some (map preamble_of e.preambles, p + size)
  read_preambles =
      ap (λ (b : List ℕ). preamble_loop (length e.preambles) b (p + 8))
        (ap (λ (b : List ℕ). pre ++ b) (append_assoc (head e) (preambles_bytes e.preambles) rest)
          ∙ sym (append_assoc pre (head e) (preambles_bytes e.preambles ++ rest)))
      ∙ preamble_loop_lem e.preambles (pre ++ head e) rest (p + 8) fits.preambles_fit
          (omega (arith, length-append pre (head e)))
      ∙ ap (λ (n : ℕ). some (map preamble_of e.preambles, n)) (omega arith)

  -- The byte at an offset of the head.
  head_byte :
      (k v : ℕ) → v < 256 → load8 post k ≡ some (v % 256) → load8 (pre ++ post) (p + k) ≡ some v
  head_byte k v h e = load8_behind pre post (p + k) k (omega arith) ∙ e ∙ ap some (one_byte v h)

  read_rach_lem : read_rach (pre ++ post) p ≡ some (rach_pdu e, p + size)
  unfolding read_rach load8
  read_rach_lem = rw (
    head_byte 2 e.symbol_index fits.symbol_fits refl,
    head_byte 3 e.slot_index fits.slot_fits refl,
    head_byte 4 e.freq_index fits.freq_fits refl,
    head_byte 5 e.avg_rssi fits.rssi_fits refl,
    head_byte 6 e.avg_snr fits.snr_fits refl,
    head_byte 7 (length e.preambles) fits.few_preambles refl,
    read_preambles,
  )

module _ {Slot Ta : Type 0} where
  -- The notifications of a list of entries.
  abbrev pub told_rach : Slot → List RachEntry → List (Indication Slot Ta)
  told_rach sp es = map (λ e. on_rach_indication sp (rach_pdu e)) es

  rach_loop-Adds :
      (es : List RachEntry) (pre : List ℕ) (p : ℕ) (sp : Slot) (w : World Slot Ta)
      → All RachFits es
      → p ≡ length pre
      → Ensures
          (Adds (told_rach sp es) w)
          (rach_loop (length es) (pre ++ concat (map rach_bytes es)) p sp w)
  unfolding rach_loop notify_rach
  rach_loop-Adds [] pre p sp w h at = sym (append-nil w.notified)
  rach_loop-Adds (e ∷ es) pre p sp w (h, hs) at =
      let rest = concat (map rach_bytes es) in
      let w1 = notify_rach sp (rach_pdu e) w in
      rw (long e h pre rest p at, read_rach_lem e h pre rest p at)
        (Ensures-map (Adds (told_rach sp es) w1) (Adds (told_rach sp (e ∷ es)) w) _
          (λ w' t.
            Adds-trans (on_rach_indication sp (rach_pdu e) ∷ []) (told_rach sp es) w w1 w' refl t)
          (rw (append_assoc pre (rach_bytes e) rest) at (
            rach_loop-Adds es (pre ++ rach_bytes e) (p + size e h pre rest p at) sp w1 hs (
              omega
                (arith, length-append pre (rach_bytes e), length-rach_bytes e h pre rest p at)))))

  -- A RACH.indication that follows the stated layout, with 16-bit SFN and slot, fewer than 256
  -- entries, and in each fewer than 256 preambles, all fields in range, leads to exactly one
  -- notification per entry, in order, each with the entry's occasion and measurements and with all of
  -- its preambles in order.
  pub dispatch_rach_indication-Adds :
      (o : Ocudu Slot Ta) (hdr : List ℕ) (sfn slot numerology : ℕ) (es : List RachEntry)
      (w : World Slot Ta)
      → length hdr ≡ 8
      → sfn < 65536
      → slot < 65536
      → length es < 256
      → All RachFits es
      → Ensures (Adds (told_rach (o.slot_point numerology sfn slot) es) w) (
          dispatch_rach_indication o
            (message_of hdr sfn slot (length es) (concat (map rach_bytes es)))
            numerology
            w)
  unfolding dispatch_rach_indication
  dispatch_rach_indication-Adds o hdr sfn slot numerology es w header sfn_fits slot_fits few fits =
      let payload = concat (map rach_bytes es) in
      let n = length es in
      rw
        (
          not_short hdr sfn slot n payload header,
          load-sfn hdr sfn slot n payload header sfn_fits,
          load-slot hdr sfn slot n payload header slot_fits,
          load-count hdr sfn slot n payload header few,
        )
        (rw (message_of-front hdr sfn slot n payload header) at (
          rach_loop-Adds es (front hdr sfn slot n) 13 (o.slot_point numerology sfn slot) w fits
            (length-front hdr sfn slot n payload header)))
