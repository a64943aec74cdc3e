-- ===== src/Rx/Uci/Safety.antt =====
-- The UCI dispatcher of aerial_bridge/src/msg_translator.cpp reads inside its buffer.
use ocudu_aerial_fapi_connec.Common.{
  &&-true, ℕ, zero, suc, ◌+◌, ◌/◌, ◌≤◌, leb, leb→le, Bool, ◌&&◌, Bool-cases, inl, inr, List, none,
  length, ◌≢◌, arith,
}
use ocudu_aerial_fapi_connec.Rx.Uci.Section.{
  payload_bits, decode_payload_bits, num_bytes, bits_section, sr_section, sr_f0_f1_section,
  harq_values, harq_f0_f1_section,
}
use ocudu_aerial_fapi_connec.Wire.{load8_inside, load16_inside}

-- `bit` bits are read and `rounds` are left, of a payload of `n` bits.
payload_bits-ne-none :
    (rounds : ℕ) (buf : List ℕ) (payload bit n : ℕ)
    → bit + rounds ≤ n
    → payload + num_bytes n ≤ length buf
    → payload_bits rounds buf payload bit ≢ none
unfolding payload_bits
payload_bits-ne-none zero buf payload bit n h fits = λ e. cc
payload_bits-ne-none (suc rounds) buf payload bit n h fits =
    let (v, e) = load8_inside buf (payload + bit / 8) (omega arith) in
    rw e (ground (arith, payload_bits-ne-none rounds buf payload (bit + 1) n (omega arith)))

decode_payload_bits-ne-none :
    (max_bits : ℕ) (buf : List ℕ) (payload n : ℕ)
    → payload + num_bytes n ≤ length buf
    → decode_payload_bits max_bits buf payload n ≢ none
unfolding decode_payload_bits
decode_payload_bits-ne-none max_bits buf payload n fits =
    ground (arith, payload_bits-ne-none n buf payload 0 n (omega arith))

pub bits_section-ne-none :
    (max_bits : ℕ) (buf : List ℕ) (p_end q : ℕ) (wanted : Bool)
    → p_end ≤ length buf
    → bits_section max_bits buf p_end q wanted ≢ none
unfolding bits_section
bits_section-ne-none max_bits buf p_end q wanted h =
    elim (Bool-cases (wanted && leb (q + 3) p_end)) [
      | inl here ↦
          let inside = leb→le _ _ (&&-true wanted _ here) in
          let (s, es) = load8_inside buf q (omega arith) in
          let (n, en) = load16_inside buf (q + 1) (omega arith) in
          rw (here, es, en) (ground (arith, decode_payload_bits-ne-none max_bits buf (q + 3) n))
      | inr off ↦ rw off (λ e. cc)
    ]

pub sr_section-ne-none :
    (max_bits : ℕ) (buf : List ℕ) (p_end q : ℕ) (wanted : Bool)
    → p_end ≤ length buf
    → sr_section max_bits buf p_end q wanted ≢ none
unfolding sr_section
sr_section-ne-none max_bits buf p_end q wanted h = elim (Bool-cases (wanted && leb (q + 2) p_end)) [
  | inl here ↦
      let inside = leb→le _ _ (&&-true wanted _ here) in
      let (n, en) = load16_inside buf q (omega arith) in
      rw (here, en) (ground (arith, decode_payload_bits-ne-none max_bits buf (q + 2) n))
  | inr off ↦ rw off (λ e. cc)
]

pub sr_f0_f1_section-ne-none :
    (buf : List ℕ) (p_end q : ℕ) (wanted : Bool)
    → p_end ≤ length buf
    → sr_f0_f1_section buf p_end q wanted ≢ none
unfolding sr_f0_f1_section
sr_f0_f1_section-ne-none buf p_end q wanted h = elim (Bool-cases (wanted && leb (q + 2) p_end)) [
  | inl here ↦
      let inside = leb→le _ _ (&&-true wanted _ here) in
      let (s, es) = load8_inside buf q (omega arith) in rw (here, es) (λ e. cc)
  | inr off ↦ rw off (λ e. cc)
]

harq_values-ne-none :
    (rounds : ℕ) (buf : List ℕ) (p : ℕ) → p + rounds ≤ length buf → harq_values rounds buf p ≢ none
unfolding harq_values
harq_values-ne-none zero buf p h = λ e. cc
harq_values-ne-none (suc rounds) buf p h =
    let (v, e) = load8_inside buf p (omega arith) in
    rw e (ground (arith, harq_values-ne-none rounds buf (p + 1) (omega arith)))

pub harq_f0_f1_section-ne-none :
    (max_num_harq : ℕ) (buf : List ℕ) (p_end q : ℕ) (wanted : Bool)
    → p_end ≤ length buf
    → harq_f0_f1_section max_num_harq buf p_end q wanted ≢ none
unfolding harq_f0_f1_section
harq_f0_f1_section-ne-none max_num_harq buf p_end q wanted h =
    elim (Bool-cases (wanted && leb (q + 2) p_end)) [
      | inl here ↦
          let inside = leb→le _ _ (&&-true wanted _ here) in
          let (n, en) = load8_inside buf q (omega arith) in
          rw (here, en) (ground (arith, harq_values-ne-none n buf (q + 2)))
      | inr off ↦ rw off (λ e. cc)
    ]
