-- ===== src/Rx/Uci/Section.antt =====
-- The optional sections of a UCI PDU, and the bit payloads in them: `decode_payload_bits`,
-- `decode_sr_payload_bits`, `decode_detection_status` and the section code of
-- `dispatch_uci_indication` in aerial_bridge/src/msg_translator.cpp.
use ocudu_aerial_fapi_connec.Common.{
  ℕ, zero, suc, ◌+◌, ◌/◌, ◌%◌, ◌^◌, ◌==◌, ltb, leb, Bool, true, false, ◌&&◌, if◌then◌else◌, List,
  [], ◌∷◌, Option, none, some, ◌>>=◌,
}
use ocudu_aerial_fapi_connec.Rx.Indication.{
  DetectionStatus, crc_pass, crc_failure, dtx, no_dtx, dtx_not_checked, UciBits,
}
use ocudu_aerial_fapi_connec.Wire.{load8, load16}

-- `(bitmap & (1 << k)) != 0`.
abbrev pub bit_set : ℕ → ℕ → Bool
bit_set bitmap k = bitmap / 2 ^ k % 2 == 1

abbrev pub decode_detection_status : ℕ → DetectionStatus
decode_detection_status raw_status =
    if raw_status == 0
    then crc_pass
    else if raw_status == 1
    then crc_failure
    else if raw_status == 2
    then dtx
    else if raw_status == 3
    then no_dtx
    else dtx_not_checked

-- The bits from number `bit` on, the lowest bit of a byte first.
unfoldable pub payload_bits : ℕ → List ℕ → ℕ → ℕ → Option (List Bool)
payload_bits zero buf payload bit = some []
payload_bits (suc rounds) buf payload bit = do
  byte ← load8 buf (payload + bit / 8)
  rest ← payload_bits rounds buf payload (bit + 1)
  some (bit_set byte (bit % 8) ∷ rest)

-- The outer `none` is a fault, the inner one the refusal of too long a payload.
unfoldable pub decode_payload_bits : ℕ → List ℕ → ℕ → ℕ → Option (Option (List Bool))
decode_payload_bits max_bits buf payload bit_len =
    if ltb max_bits bit_len
    then some none
    else do bits ← payload_bits bit_len buf payload 0; some (some bits)

-- `(bit_len + 7U) / 8U`.
abbrev pub num_bytes : ℕ → ℕ
num_bytes bit_len = (bit_len + 7) / 8

-- What a section yields, the offset behind it, and whether its payload was refused as too long.
pub record Section (A : Type 0) : Type 0 where
  pub value : Option A
  pub next : ℕ
  pub rejected : Bool

abbrev pub skipped : {A : Type 0} → ℕ → Section A
skipped q = record { value = none; next = q; rejected = false }

-- A decoded payload as a section that ends at `next`.
abbrev pub decoded_section : {A : Type 0} → (List Bool → A) → ℕ → Option (List Bool) → Section A
decoded_section f next none = record { value = none; next = next; rejected = true }
decoded_section f next (some bits) = record { value = some (f bits); next = next; rejected = false }

-- A HARQ section of format 2, 3 or 4 or a CSI part: state (1 byte), bit length (2 bytes), bits.
unfoldable pub bits_section : ℕ → List ℕ → ℕ → ℕ → Bool → Option (Section UciBits)
bits_section max_bits buf p_end q wanted =
    if wanted && leb (q + 3) p_end
    then (do
      status ← load8 buf q
      bit_len ← load16 buf (q + 1)
      let next = q + 3 + num_bytes bit_len
      if leb next p_end
          then (do
            decoded ← decode_payload_bits max_bits buf (q + 3) bit_len
            some (
                decoded_section
                  (λ bits. record {
                    detection_status = decode_detection_status status;
                    expected_bit_length = bit_len;
                    payload = bits;
                  })
                  next decoded))
          else some (skipped next))
    else some (skipped q)

-- A scheduling request section of format 2, 3 or 4: bit length (2 bytes), bits.
unfoldable pub sr_section : ℕ → List ℕ → ℕ → ℕ → Bool → Option (Section (List Bool))
sr_section max_bits buf p_end q wanted =
    if wanted && leb (q + 2) p_end
    then (do
      bit_len ← load16 buf q
      let next = q + 2 + num_bytes bit_len
      if leb next p_end
          then (do
            decoded ← decode_payload_bits max_bits buf (q + 2) bit_len
            some (decoded_section (λ bits. bits) next decoded))
          else some (skipped next))
    else some (skipped q)

-- A scheduling request section of format 0 or 1 (2 bytes).
unfoldable pub sr_f0_f1_section : List ℕ → ℕ → ℕ → Bool → Option (Section Bool)
sr_f0_f1_section buf p_end q wanted =
    if wanted && leb (q + 2) p_end
    then (do
      sr_indication ← load8 buf q
      some (record {
        value = some (if sr_indication == 0 then false else true);
        next = q + 2;
        rejected = false;
      }))
    else some (skipped q)

-- The HARQ values of format 0 or 1, a byte each.
unfoldable pub harq_values : ℕ → List ℕ → ℕ → Option (List ℕ)
harq_values zero buf p = some []
harq_values (suc rounds) buf p = do
  value ← load8 buf p
  rest ← harq_values rounds buf (p + 1)
  some (value ∷ rest)

unfoldable pub harq_f0_f1_section : ℕ → List ℕ → ℕ → ℕ → Bool → Option (Section (List ℕ))
harq_f0_f1_section max_num_harq buf p_end q wanted =
    if wanted && leb (q + 2) p_end
    then (do
      num_harq ← load8 buf q
      let next = q + 2 + num_harq
      if leb next p_end
          then (if leb num_harq max_num_harq
              then (do
                values ← harq_values num_harq buf (q + 2)
                some (record { value = some values; next = next; rejected = false }))
              else some (record { value = none; next = next; rejected = true }))
          else some (skipped next))
    else some (skipped q)
