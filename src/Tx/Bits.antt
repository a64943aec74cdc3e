-- ===== src/Tx/Bits.antt =====
-- Bit sets packed into bytes, as the loops of `serialize_pdcch_pdu` in
-- aerial_bridge/src/msg_translator.cpp pack them.
pub mod Msb
use ocudu_aerial_fapi_connec.Common.{
  ℕ, zero, suc, ◌+◌, ◌*◌, ◌/◌, Bool, if◌then◌else◌, List, [], ◌∷◌, take, drop,
}

-- One byte from at most eight bits: the first bit has the weight given, each next one half of it.
abbrev pub msb_byte : ℕ → List Bool → ℕ
msb_byte weight [] = 0
msb_byte weight (b ∷ bs) = (if b then weight else 0) + msb_byte (weight / 2) bs

-- The same with doubling weights.
abbrev pub lsb_byte : ℕ → List Bool → ℕ
lsb_byte weight [] = 0
lsb_byte weight (b ∷ bs) = (if b then weight else 0) + lsb_byte (weight * 2) bs

-- `next[i / 8] |= 1 << (7 - i % 8)` over `n` zeroed bytes.
unfoldable pub pack_msb : ℕ → List Bool → List ℕ
pack_msb zero bits = []
pack_msb (suc n) bits = msb_byte 128 (take 8 bits) ∷ pack_msb n (drop 8 bits)

-- `next[i / 8] |= 1 << (i % 8)` over `n` zeroed bytes.
unfoldable pub pack_lsb : ℕ → List Bool → List ℕ
pack_lsb zero bits = []
pack_lsb (suc n) bits = lsb_byte 1 (take 8 bits) ∷ pack_lsb n (drop 8 bits)
