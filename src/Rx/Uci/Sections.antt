-- ===== src/Rx/Uci/Sections.antt =====
-- The section readers of `dispatch_uci_indication` in aerial_bridge/src/msg_translator.cpp on sections
-- that follow the structs.
use ocudu_aerial_fapi_connec.Common.{
  ℕ, ◌+◌, ◌<◌, ◌≤◌, ◌≡◌, refl, ap, sym, ◌∙◌, Bool, false, le→leb, ge→ltb, List, [], ◌∷◌, ◌++◌,
  Option, none, some, length, arith,
}
use ocudu_aerial_fapi_connec.Rx.Uci.Bits.{length-pack_lsb, payload_bits-pack_lsb}
use ocudu_aerial_fapi_connec.Rx.Uci.Entries.{
  is_some, bytes_of, map_some, IfSome, packed, BitsEntry, BitsFit, bits_bytes, uci_bits, SrFits,
  sr_bytes, Sr01Entry, sr01_bytes, sr01_of, Harq01Entry, Harq01Fits, harq01_bytes,
}
use ocudu_aerial_fapi_connec.Rx.Uci.Section.{
  Section, skipped, payload_bits, decode_payload_bits, num_bytes, bits_section, sr_section,
  sr_f0_f1_section, harq_values, harq_f0_f1_section,
}
use ocudu_aerial_fapi_connec.Wire.{le8, le16, load8, load16, one_byte, two_bytes}
use ocudu_aerial_fapi_connec.Wire.Cursor.{At, At-right, load8-At, load16-At}

-- A section that was read in full.
abbrev pub whole : {A : Type 0} → Option A → ℕ → Section A
whole value next = record { value = value; next = next; rejected = false }

length-packed : (bits : List Bool) → length (packed bits) ≡ num_bytes (length bits)
length-packed bits = length-pack_lsb (num_bytes (length bits)) bits

decode_payload_bits-At :
    (max : ℕ) (buf : List ℕ) (p : ℕ) (bits : List Bool)
    → length bits ≤ max
    → At buf p (packed bits)
    → decode_payload_bits max buf p (length bits) ≡ some (some bits)
unfolding decode_payload_bits
decode_payload_bits-At max buf p bits h a =
    rw
      (
        ge→ltb max (length bits) h,
        ap (λ (b : List ℕ). payload_bits (length bits) b p 0) a.split
            ∙ payload_bits-pack_lsb bits a.pre a.rest p a.offset,
      )
      refl

module _ (buf : List ℕ) (p_end q : ℕ) where
  pub bits_section_lem :
      (max : ℕ) (e : Option BitsEntry)
      → IfSome (BitsFit max) e
      → At buf q (bytes_of bits_bytes e)
      → q + length (bytes_of bits_bytes e) ≤ p_end
      → bits_section max buf p_end q (is_some e)
        ≡ some (whole (map_some uci_bits e) (q + length (bytes_of bits_bytes e)))
  unfolding bits_section load8 load16
  bits_section_lem max none h a fits = ap (λ (n : ℕ). some (skipped n)) (omega arith)
  bits_section_lem max (some e) h a fits =
      let n = length e.bits in
      let end = q + 3 + num_bytes n in
      let size : q + length (bits_bytes e) ≡ end = omega (arith, length-packed e.bits) in
      rw
        (
          le→leb (q + 3) p_end (omega (arith, size)),
          load8-At buf q (bits_bytes e) a q 0 (omega arith) (omega arith)
              ∙ ap some (one_byte e.status h.status_fits),
          load16-At buf q (bits_bytes e) a (q + 1) 1 refl (omega arith)
              ∙ ap some (two_bytes n h.length_fits),
          le→leb end p_end (omega (arith, size)),
          decode_payload_bits-At max buf (q + 3) e.bits h.accepted
              (At-right buf q (le8 e.status ++ le16 n) (packed e.bits) a),
        )
        (ap (λ (m : ℕ). some (whole (some (uci_bits e)) m)) (sym size))

  pub sr_section_lem :
      (max : ℕ) (e : Option (List Bool))
      → IfSome (SrFits max) e
      → At buf q (bytes_of sr_bytes e)
      → q + length (bytes_of sr_bytes e) ≤ p_end
      → sr_section max buf p_end q (is_some e) ≡ some (whole e (q + length (bytes_of sr_bytes e)))
  unfolding sr_section load16
  sr_section_lem max none h a fits = ap (λ (n : ℕ). some (skipped n)) (omega arith)
  sr_section_lem max (some bits) h a fits =
      let n = length bits in
      let end = q + 2 + num_bytes n in
      let size : q + length (sr_bytes bits) ≡ end = omega (arith, length-packed bits) in
      rw
        (
          le→leb (q + 2) p_end (omega (arith, size)),
          load16-At buf q (sr_bytes bits) a q 0 (omega arith) (omega arith)
              ∙ ap some (two_bytes n h.length_fits),
          le→leb end p_end (omega (arith, size)),
          decode_payload_bits-At max buf (q + 2) bits h.accepted
              (At-right buf q (le16 n) (packed bits) a),
        )
        (ap (λ (m : ℕ). some (whole (some bits) m)) (sym size))

  pub sr_f0_f1_section_lem :
      (e : Option Sr01Entry)
      → IfSome (λ (x : Sr01Entry). x.sr_indication < 256) e
      → At buf q (bytes_of sr01_bytes e)
      → q + length (bytes_of sr01_bytes e) ≤ p_end
      → sr_f0_f1_section buf p_end q (is_some e)
        ≡ some (whole (map_some sr01_of e) (q + length (bytes_of sr01_bytes e)))
  unfolding sr_f0_f1_section load8
  sr_f0_f1_section_lem none h a fits = ap (λ (n : ℕ). some (skipped n)) (omega arith)
  sr_f0_f1_section_lem (some e) h a fits =
      rw
        (
          le→leb (q + 2) p_end (omega arith),
          load8-At buf q (sr01_bytes e) a q 0 (omega arith) (omega arith)
              ∙ ap some (one_byte e.sr_indication h),
        )
        refl

harq_values_lem : (vs buf : List ℕ) (p : ℕ) → At buf p vs → harq_values (length vs) buf p ≡ some vs
unfolding harq_values load8
harq_values_lem [] buf p a = refl
harq_values_lem (v ∷ vs) buf p a =
    rw
      (
        load8-At buf p (v ∷ vs) a p 0 (omega arith) (omega arith),
        harq_values_lem vs buf (p + 1) (At-right buf p (v ∷ []) vs a),
      )
      refl

module _ (buf : List ℕ) (p_end q : ℕ) where
  pub harq_f0_f1_section_lem :
      (max : ℕ) (e : Option Harq01Entry)
      → IfSome (Harq01Fits max) e
      → At buf q (bytes_of harq01_bytes e)
      → q + length (bytes_of harq01_bytes e) ≤ p_end
      → harq_f0_f1_section max buf p_end q (is_some e)
        ≡ some (
            whole
              (map_some (λ (x : Harq01Entry). x.harq_values) e)
              (q + length (bytes_of harq01_bytes e)))
  unfolding harq_f0_f1_section load8
  harq_f0_f1_section_lem max none h a fits = ap (λ (n : ℕ). some (skipped n)) (omega arith)
  harq_f0_f1_section_lem max (some e) h a fits =
      let n = length e.harq_values in
      let end = q + 2 + n in
      let size : q + length (harq01_bytes e) ≡ end = omega arith in
      rw
        (
          le→leb (q + 2) p_end (omega (arith, size)),
          load8-At buf q (harq01_bytes e) a q 0 (omega arith) (omega arith)
              ∙ ap some (one_byte n h.number_fits),
          le→leb end p_end (omega (arith, size)),
          le→leb n max h.accepted,
          harq_values_lem e.harq_values buf (q + 2)
              (At-right buf q (le8 n ++ le8 e.harq_confidence_level) e.harq_values a),
        )
        (ap (λ (m : ℕ). some (whole (some e.harq_values) m)) (sym size))
