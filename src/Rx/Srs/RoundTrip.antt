-- ===== src/Rx/Srs/RoundTrip.antt =====
-- SRS.indication messages that follow the structs in aerial_bridge/src/msg_translator.cpp, and what the
-- dispatcher makes of them.
use ocudu_aerial_fapi_connec.Common.{
  ℕ, ◌+◌, ◌<◌, ◌≡◌, refl, ap, ◌∙◌, sym, false, ltb, ge→ltb, List, [], ◌∷◌, ◌++◌, map, append-nil,
  append_assoc, All, some, Ensures, Ensures-map, length, length-append, arith,
}
use ocudu_aerial_fapi_connec.Ocudu.{Ocudu}
use ocudu_aerial_fapi_connec.Rx.Envelope.{
  message_of, front, message_of-front, length-front, not_short, load-sfn, load-slot, load-count,
  Adds, Adds-trans,
}
use ocudu_aerial_fapi_connec.Rx.Indication.{Indication, SrsPdu, on_srs_indication}
use ocudu_aerial_fapi_connec.Rx.Srs.{
  report_loop, read_srs, notify_srs, srs_loop, dispatch_srs_indication,
}
use ocudu_aerial_fapi_connec.Rx.World.{World, decode_timing_advance}
use ocudu_aerial_fapi_connec.Tx.Frame.{concat}
use ocudu_aerial_fapi_connec.Wire.{
  le8, le16, le32, load8, load16, load32, one_byte, two_bytes, four_bytes, load8_behind,
  load16_behind, load32_behind,
}

-- A symbol report is the list of the values of its resource blocks.
pub record SrsEntry : Type 0 where
  pub handle : ℕ
  pub rnti : ℕ
  pub timing_advance : ℕ
  pub num_symbols : ℕ
  pub wideband_snr : ℕ
  pub reports : List (List ℕ)

pub record SrsFits (e : SrsEntry) : Type 0 where
  pub handle_fits : e.handle < 4294967296
  pub rnti_fits : e.rnti < 65536
  pub advance_fits : e.timing_advance < 65536
  pub few_reports : length e.reports < 256
  pub reports_fit : All (λ (rbs : List ℕ). length rbs < 65536) e.reports

abbrev report_bytes : List ℕ → List ℕ
report_bytes rbs = le16 (length rbs) ++ rbs

abbrev reports_bytes : List (List ℕ) → List ℕ
reports_bytes rs = concat (map report_bytes rs)

abbrev head : SrsEntry → List ℕ
head e =
    le32 e.handle
    ++ (le16 e.rnti
        ++ (le16 e.timing_advance
            ++ (le8 e.num_symbols ++ (le8 e.wideband_snr ++ le8 (length e.reports)))))

abbrev pub srs_bytes : SrsEntry → List ℕ
srs_bytes e = head e ++ reports_bytes e.reports

-- Every report is skipped as a whole.
report_loop_lem :
    (rs : List (List ℕ)) (pre rest : List ℕ) (p : ℕ)
    → All (λ (rbs : List ℕ). length rbs < 65536) rs
    → p ≡ length pre
    → report_loop (length rs) (pre ++ (reports_bytes rs ++ rest)) p
      ≡ some (p + length (reports_bytes rs))
unfolding report_loop load16
report_loop_lem [] pre rest p h at = ap some (omega arith)
report_loop_lem (r ∷ rs) pre rest p (h, hs) at =
    let tail = reports_bytes rs ++ rest in
    let post = report_bytes r ++ tail in
    let buf = pre ++ post in
    let next = p + 2 + length r in
    let whole : length buf ≡ next + length tail =
      omega (arith, length-append pre post, length-append r tail) in
    let more = rw (append_assoc pre (report_bytes r) tail) at (
      report_loop_lem rs (pre ++ report_bytes r) rest next hs
        (omega (arith, length-append pre (report_bytes r)))) in
    rw (append_assoc (report_bytes r) (reports_bytes rs) rest) (
      rw
        (
          ge→ltb (length buf) (p + 2) (omega (arith, whole)),
          load16_behind pre post p 0 (omega arith) ∙ ap some (two_bytes (length r) h),
          ge→ltb (length buf) next (omega (arith, whole)),
          more,
        )
        (ap some (omega (arith, length-append r (reports_bytes rs)))))

module _ {Slot Ta : Type 0} (o : Ocudu Slot Ta) (numerology : ℕ) where
  -- What the notifier is told: the reports themselves are not passed on.
  abbrev pub srs_pdu : SrsEntry → SrsPdu Ta
  srs_pdu e = record {
    handle = e.handle;
    rnti = e.rnti;
    timing_advance_offset = decode_timing_advance o e.timing_advance numerology;
  }

  module _ (e : SrsEntry) (fits : SrsFits e) (pre rest : List ℕ) (p : ℕ) (at : p ≡ length pre) where
    abbrev post : List ℕ
    post = srs_bytes e ++ rest

    abbrev next : ℕ
    next = p + length (srs_bytes e)

    long : ltb (length (pre ++ post)) (p + 11) ≡ false
    long = ge→ltb (length (pre ++ post)) (p + 11) (
        omega (
          arith,
          length-append pre post,
          length-append (srs_bytes e) rest,
          length-append (head e) (reports_bytes e.reports),
        ))

    skip_reports : report_loop (length e.reports) (pre ++ post) (p + 11) ≡ some next
    skip_reports =
        ap (λ (b : List ℕ). report_loop (length e.reports) b (p + 11))
          (ap (λ (b : List ℕ). pre ++ b) (append_assoc (head e) (reports_bytes e.reports) rest)
            ∙ sym (append_assoc pre (head e) (reports_bytes e.reports ++ rest)))
        ∙ report_loop_lem e.reports (pre ++ head e) rest (p + 11) fits.reports_fit
            (omega (arith, length-append pre (head e)))
        ∙ ap some (omega (arith, length-append (head e) (reports_bytes e.reports)))

    read_srs_lem : read_srs o numerology (pre ++ post) p ≡ some (srs_pdu e, next)
    unfolding read_srs load8 load16 load32
    read_srs_lem = rw (
      load32_behind pre post p 0 (omega arith) ∙ ap some (four_bytes e.handle fits.handle_fits),
      load16_behind pre post (p + 4) 4 (omega arith) ∙ ap some (two_bytes e.rnti fits.rnti_fits),
      load16_behind pre post (p + 6) 6 (omega arith)
          ∙ ap some (two_bytes e.timing_advance fits.advance_fits),
      load8_behind pre post (p + 10) 10 (omega arith)
          ∙ ap some (one_byte (length e.reports) fits.few_reports),
      skip_reports,
    )

  -- The notifications of a list of entries.
  abbrev pub told_srs : Slot → List SrsEntry → List (Indication Slot Ta)
  told_srs sp es = map (λ e. on_srs_indication sp (srs_pdu e)) es

  srs_loop-Adds :
      (es : List SrsEntry) (pre : List ℕ) (p : ℕ) (sp : Slot) (w : World Slot Ta)
      → All SrsFits es
      → p ≡ length pre
      → Ensures
          (Adds (told_srs sp es) w)
          (srs_loop o numerology (length es) (pre ++ concat (map srs_bytes es)) p sp w)
  unfolding srs_loop notify_srs
  srs_loop-Adds [] pre p sp w h at = sym (append-nil w.notified)
  srs_loop-Adds (e ∷ es) pre p sp w (h, hs) at =
      let rest = concat (map srs_bytes es) in
      let w1 = notify_srs sp (srs_pdu e) w in
      rw (long e h pre rest p at, read_srs_lem e h pre rest p at)
        (Ensures-map (Adds (told_srs sp es) w1) (Adds (told_srs sp (e ∷ es)) w) _
          (λ w' t.
            Adds-trans (on_srs_indication sp (srs_pdu e) ∷ []) (told_srs sp es) w w1 w' refl t)
          (rw (append_assoc pre (srs_bytes e) rest) at (
            srs_loop-Adds es (pre ++ srs_bytes e) (next e h pre rest p at) sp w1 hs
              (omega (arith, length-append pre (srs_bytes e))))))

  -- An SRS.indication that follows the stated layout, with 16-bit SFN and slot and fewer than 256
  -- entries with fields in range, leads to exactly one notification per entry, in order, each with
  -- the entry's handle, RNTI and decoded timing advance, and every symbol report is skipped.
  pub dispatch_srs_indication-Adds :
      (hdr : List ℕ) (sfn slot : ℕ) (es : List SrsEntry) (w : World Slot Ta)
      → length hdr ≡ 8
      → sfn < 65536
      → slot < 65536
      → length es < 256
      → All SrsFits es
      → Ensures (Adds (told_srs (o.slot_point numerology sfn slot) es) w) (
          dispatch_srs_indication o
            (message_of hdr sfn slot (length es) (concat (map srs_bytes es)))
            numerology
            w)
  unfolding dispatch_srs_indication
  dispatch_srs_indication-Adds hdr sfn slot es w header sfn_fits slot_fits few fits =
      let payload = concat (map srs_bytes es) in
      let n = length es in
      rw
        (
          not_short hdr sfn slot n payload header,
          load-sfn hdr sfn slot n payload header sfn_fits,
          load-slot hdr sfn slot n payload header slot_fits,
          load-count hdr sfn slot n payload header few,
        )
        (rw (message_of-front hdr sfn slot n payload header) at (
          srs_loop-Adds es (front hdr sfn slot n) 13 (o.slot_point numerology sfn slot) w fits
            (length-front hdr sfn slot n payload header)))
