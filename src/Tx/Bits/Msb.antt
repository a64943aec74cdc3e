-- ===== src/Tx/Bits/Msb.antt =====
-- Reading back the bits that `serialize_pdcch_pdu` of aerial_bridge/src/msg_translator.cpp packs into
-- bytes, the highest bit of a byte first.
use ocudu_aerial_fapi_connec.Common.{
  ℕ, zero, suc, ◌+◌, ◌-◌, ◌*◌, ◌/◌, ◌%◌, ◌^◌, ◌<◌, ◌≤◌, ◌≡◌, refl, ap, sym, ◌∙◌, Bool, true, false,
  ◌==◌, if◌then◌else◌, List, [], ◌∷◌, Option, some, ◌>>=◌, take, drop, length, get_elem?, arith,
}
use ocudu_aerial_fapi_connec.Rx.Uci.Bits.{bit_at, bit_at-drop}
use ocudu_aerial_fapi_connec.Tx.Bits.{msb_byte, pack_msb}
use ocudu_aerial_fapi_connec.Wire.{load8}
use ocudu_aerial_fapi_connec.Wire.Cursor.{At, load8-At}

-- The digit of a bit, and the bit of a digit.
abbrev digit : Bool → ℕ
digit true = 1
digit false = 0

weight_digit : (b : Bool) (w : ℕ) → (if b then w else 0) ≡ w * digit b
weight_digit true w = omega arith
weight_digit false w = omega arith

digit-one : (b : Bool) → (digit b == 1) ≡ b
digit-one true = refl
digit-one false = refl

digit-small : (b : Bool) → digit b ≤ 1
digit-small true = omega arith
digit-small false = omega arith

-- The byte that eight bits make.
abbrev byte_of : List Bool → ℕ
byte_of bs =
    128 * digit (bit_at bs 0)
    + 64 * digit (bit_at bs 1)
    + 32 * digit (bit_at bs 2)
    + 16 * digit (bit_at bs 3)
    + 8 * digit (bit_at bs 4)
    + 4 * digit (bit_at bs 5)
    + 2 * digit (bit_at bs 6)
    + digit (bit_at bs 7)

msb_byte_lem : (bs : List Bool) → msb_byte 128 (take 8 bs) ≡ byte_of bs
unfolding bit_at
msb_byte_lem [] = refl
msb_byte_lem (a ∷ []) = omega (arith, weight_digit a 128)
msb_byte_lem (a ∷ b ∷ []) = omega (arith, weight_digit a 128, weight_digit b 64)
msb_byte_lem (a ∷ b ∷ c ∷ []) =
    omega (arith, weight_digit a 128, weight_digit b 64, weight_digit c 32)
msb_byte_lem (a ∷ b ∷ c ∷ d ∷ []) =
    omega (arith, weight_digit a 128, weight_digit b 64, weight_digit c 32, weight_digit d 16)
msb_byte_lem (a ∷ b ∷ c ∷ d ∷ e ∷ []) = omega (
  arith,
  weight_digit a 128,
  weight_digit b 64,
  weight_digit c 32,
  weight_digit d 16,
  weight_digit e 8,
)
msb_byte_lem (a ∷ b ∷ c ∷ d ∷ e ∷ f ∷ []) = omega (
  arith,
  weight_digit a 128,
  weight_digit b 64,
  weight_digit c 32,
  weight_digit d 16,
  weight_digit e 8,
  weight_digit f 4,
)
msb_byte_lem (a ∷ b ∷ c ∷ d ∷ e ∷ f ∷ g ∷ []) = omega (
  arith,
  weight_digit a 128,
  weight_digit b 64,
  weight_digit c 32,
  weight_digit d 16,
  weight_digit e 8,
  weight_digit f 4,
  weight_digit g 2,
)
msb_byte_lem (a ∷ b ∷ c ∷ d ∷ e ∷ f ∷ g ∷ h ∷ rest) = omega (
  arith,
  weight_digit a 128,
  weight_digit b 64,
  weight_digit c 32,
  weight_digit d 16,
  weight_digit e 8,
  weight_digit f 4,
  weight_digit g 2,
  weight_digit h 1,
)

-- `byte & (1 << (7 - k))`.
abbrev pub msb_set : ℕ → ℕ → Bool
msb_set byte k = byte / 2 ^ (7 - k) % 2 == 1

module _ (bs : List Bool) where
  smalls : (k : ℕ) → digit (bit_at bs k) ≤ 1
  smalls k = digit-small (bit_at bs k)

  at_weight : (n w k : ℕ) → n / w % 2 ≡ digit (bit_at bs k) → (n / w % 2 == 1) ≡ bit_at bs k
  at_weight n w k e = ap (λ (x : ℕ). x == 1) e ∙ digit-one (bit_at bs k)

  -- Each of the eight bits of the byte.
  msb_set-byte_of : (k : ℕ) → k < 8 → msb_set (byte_of bs) k ≡ bit_at bs k
  msb_set-byte_of zero h = at_weight (byte_of bs) 128 0 (
      omega (arith, smalls 0, smalls 1, smalls 2, smalls 3, smalls 4, smalls 5, smalls 6, smalls 7))
  msb_set-byte_of (suc zero) h = at_weight (byte_of bs) 64 1 (
      omega (arith, smalls 0, smalls 1, smalls 2, smalls 3, smalls 4, smalls 5, smalls 6, smalls 7))
  msb_set-byte_of (suc (suc zero)) h = at_weight (byte_of bs) 32 2 (
      omega (arith, smalls 0, smalls 1, smalls 2, smalls 3, smalls 4, smalls 5, smalls 6, smalls 7))
  msb_set-byte_of (suc (suc (suc zero))) h = at_weight (byte_of bs) 16 3 (
      omega (arith, smalls 0, smalls 1, smalls 2, smalls 3, smalls 4, smalls 5, smalls 6, smalls 7))
  msb_set-byte_of (suc (suc (suc (suc zero)))) h = at_weight (byte_of bs) 8 4 (
      omega (arith, smalls 0, smalls 1, smalls 2, smalls 3, smalls 4, smalls 5, smalls 6, smalls 7))
  msb_set-byte_of (suc (suc (suc (suc (suc zero))))) h = at_weight (byte_of bs) 4 5 (
      omega (arith, smalls 0, smalls 1, smalls 2, smalls 3, smalls 4, smalls 5, smalls 6, smalls 7))
  msb_set-byte_of (suc (suc (suc (suc (suc (suc zero)))))) h = at_weight (byte_of bs) 2 6 (
      omega (arith, smalls 0, smalls 1, smalls 2, smalls 3, smalls 4, smalls 5, smalls 6, smalls 7))
  msb_set-byte_of (suc (suc (suc (suc (suc (suc (suc zero))))))) h = at_weight (byte_of bs) 1 7 (
      omega (arith, smalls 0, smalls 1, smalls 2, smalls 3, smalls 4, smalls 5, smalls 6, smalls 7))
  msb_set-byte_of (suc (suc (suc (suc (suc (suc (suc (suc k)))))))) h = absurd (omega arith)

-- A byte of a packed list, which has the bits of its place.
pack_msb-bit_at :
    (n : ℕ) (bs : List Bool) (q k : ℕ)
    → q < n
    → k < 8
    → (v : ℕ) × (get_elem? (pack_msb n bs) q ≡ some v) × (msb_set v k ≡ bit_at bs (8 * q + k))
unfolding pack_msb
pack_msb-bit_at zero bs q k h g = absurd (omega arith)
pack_msb-bit_at (suc n) bs zero k h g = (
  msb_byte 128 (take 8 bs),
  refl,
  ap (λ (v : ℕ). msb_set v k) (msb_byte_lem bs)
      ∙ msb_set-byte_of bs k g
      ∙ ap (bit_at bs) (omega arith),
)
pack_msb-bit_at (suc n) bs (suc q) k h g =
    let (v, e, f) = pack_msb-bit_at n (drop 8 bs) q k (omega arith) g in
    (v, e, f ∙ bit_at-drop 8 bs (8 * q + k) ∙ ap (bit_at bs) (omega arith))

pub length-pack_msb : (n : ℕ) (bs : List Bool) → length (pack_msb n bs) ≡ n
unfolding pack_msb
length-pack_msb zero bs = refl
length-pack_msb (suc n) bs = omega (arith, length-pack_msb n (drop 8 bs))

-- The bits from number `bit` on, the highest bit of a byte first.
unfoldable pub msb_bits : ℕ → List ℕ → ℕ → ℕ → Option (List Bool)
msb_bits zero buf payload bit = some []
msb_bits (suc rounds) buf payload bit = do
  byte ← load8 buf (payload + bit / 8)
  rest ← msb_bits rounds buf payload (bit + 1)
  some (msb_set byte (bit % 8) ∷ rest)

-- The bits of a buffer from `i` on, as the reader takes them.
Holds : List ℕ → ℕ → ℕ → List Bool → Type 0
Holds buf payload i bs =
    (j : ℕ)
    → j < length bs
    → (v : ℕ) × (load8 buf (payload + (i + j) / 8) ≡ some v)
      × (msb_set v ((i + j) % 8) ≡ bit_at bs j)

msb_bits-Holds :
    (bs : List Bool) (buf : List ℕ) (payload i : ℕ)
    → Holds buf payload i bs
    → msb_bits (length bs) buf payload i ≡ some bs
unfolding msb_bits bit_at Holds
msb_bits-Holds [] buf payload i h = refl
msb_bits-Holds (b ∷ bs) buf payload i h =
    let (v, e, f) = h 0 (omega arith) in
    let at : payload + (i + 0) / 8 ≡ payload + i / 8 = omega arith in
    let rest = msb_bits-Holds bs buf payload (i + 1) (λ j g.
      let (w, e', f') = h (suc j) (omega arith) in
      let shift : i + suc j ≡ i + 1 + j = omega arith in (w, rw shift at e', rw shift at f')) in
    rw (sym (ap (load8 buf) at) ∙ e, rest)
      (ap (λ (x : Bool). some (x ∷ bs)) (ap (λ (m : ℕ). msb_set v (m % 8)) (omega arith) ∙ f))

-- Bits that are packed into the smallest number of bytes are read back from wherever they lie.
pub msb_bits-pack_msb :
    (bs : List Bool) (buf : List ℕ) (p : ℕ)
    → At buf p (pack_msb ((length bs + 7) / 8) bs)
    → msb_bits (length bs) buf p 0 ≡ some bs
unfolding Holds load8
msb_bits-pack_msb bs buf p a =
    let n = (length bs + 7) / 8 in
    msb_bits-Holds bs buf p 0 (λ j h.
      let (v, e, f) = pack_msb-bit_at n bs (j / 8) (j % 8) (omega arith) (omega arith) in
      (
        v,
        load8-At buf p (pack_msb n bs) a (p + (0 + j) / 8) (j / 8) (omega arith)
              (omega (arith, length-pack_msb n bs))
            ∙ e,
        ap (λ (m : ℕ). msb_set v (m % 8)) {y = j} (omega arith)
            ∙ f
            ∙ ap (bit_at bs) {y = j} (omega arith),
      ))
