-- ===== src/Rx/Uci/Bits.antt =====
-- Bits packed into bytes, the lowest bit of a byte first, and `decode_payload_bits` of
-- aerial_bridge/src/msg_translator.cpp on them.
use native.Mathlib.Nat.{div-div-eq-div-mul, pow-succ', zero-div}
use ocudu_aerial_fapi_connec.Common.{
  ℕ, zero, suc, ◌+◌, ◌*◌, ◌/◌, ◌%◌, ◌^◌, ◌<◌, ◌≡◌, refl, ap, sym, ◌∙◌, Bool, true, false, ◌==◌,
  List, [], ◌∷◌, ◌++◌, some, take, drop, length, get_elem?, get_elem?-append, get_elem?-append_left,
  arith,
}
use ocudu_aerial_fapi_connec.Rx.Uci.Section.{bit_set, payload_bits, num_bytes}
use ocudu_aerial_fapi_connec.Tx.Bits.{lsb_byte, pack_lsb}
use ocudu_aerial_fapi_connec.Wire.{load8}

-- The bit at a place, false behind the end.
unfoldable pub bit_at : List Bool → ℕ → Bool
bit_at [] k = false
bit_at (b ∷ bs) zero = b
bit_at (b ∷ bs) (suc k) = bit_at bs k

lsb_byte-double : (w : ℕ) (bs : List Bool) → lsb_byte (w * 2) bs ≡ 2 * lsb_byte w bs
lsb_byte-double w [] = refl
lsb_byte-double w (true ∷ bs) = omega (arith, lsb_byte-double (w * 2) bs)
lsb_byte-double w (false ∷ bs) = omega (arith, lsb_byte-double (w * 2) bs)

halve : (v t k : ℕ) → v / 2 ≡ t → v / 2 ^ suc k ≡ t / 2 ^ k
halve v t k e =
    ap (λ (m : ℕ). v / m) (pow-succ' 2 k)
    ∙ sym (div-div-eq-div-mul v 2 (2 ^ k))
    ∙ ap (λ (x : ℕ). x / 2 ^ k) e

bit_set-lsb_byte : (bs : List Bool) (k : ℕ) → bit_set (lsb_byte 1 bs) k ≡ bit_at bs k
unfolding bit_at
bit_set-lsb_byte [] k = ap (λ (x : ℕ). x % 2 == 1) (zero-div (2 ^ k))
bit_set-lsb_byte (true ∷ bs) zero =
    ap (λ (x : ℕ). x == 1) {y = 1} (omega (arith, lsb_byte-double 1 bs))
bit_set-lsb_byte (false ∷ bs) zero =
    ap (λ (x : ℕ). x == 1) {y = 0} (omega (arith, lsb_byte-double 1 bs))
bit_set-lsb_byte (true ∷ bs) (suc k) =
    ap (λ (x : ℕ). x % 2 == 1)
      (halve (lsb_byte 1 (true ∷ bs)) (lsb_byte 1 bs) k (omega (arith, lsb_byte-double 1 bs)))
    ∙ bit_set-lsb_byte bs k
bit_set-lsb_byte (false ∷ bs) (suc k) =
    ap (λ (x : ℕ). x % 2 == 1)
      (halve (lsb_byte 1 (false ∷ bs)) (lsb_byte 1 bs) k (omega (arith, lsb_byte-double 1 bs)))
    ∙ bit_set-lsb_byte bs k

bit_at-take : (n : ℕ) (bs : List Bool) (k : ℕ) → k < n → bit_at (take n bs) k ≡ bit_at bs k
unfolding bit_at
bit_at-take zero bs k h = absurd (omega arith)
bit_at-take (suc n) [] k h = refl
bit_at-take (suc n) (b ∷ bs) zero h = refl
bit_at-take (suc n) (b ∷ bs) (suc k) h = bit_at-take n bs k (omega arith)

pub bit_at-drop : (n : ℕ) (bs : List Bool) (k : ℕ) → bit_at (drop n bs) k ≡ bit_at bs (n + k)
unfolding bit_at
bit_at-drop zero bs k = ap (bit_at bs) (omega arith)
bit_at-drop (suc n) [] k = refl
bit_at-drop (suc n) (b ∷ bs) k =
    bit_at-drop n bs k ∙ sym (ap (bit_at (b ∷ bs)) {y = suc (n + k)} (omega arith))

-- A byte of a packed list, which has the bits of its place.
pack_lsb-bit_at :
    (n : ℕ) (bs : List Bool) (q k : ℕ)
    → q < n
    → k < 8
    → (v : ℕ) × (get_elem? (pack_lsb n bs) q ≡ some v) × (bit_set v k ≡ bit_at bs (8 * q + k))
unfolding pack_lsb
pack_lsb-bit_at zero bs q k h g = absurd (omega arith)
pack_lsb-bit_at (suc n) bs zero k h g = (
  lsb_byte 1 (take 8 bs),
  refl,
  bit_set-lsb_byte (take 8 bs) k ∙ bit_at-take 8 bs k g ∙ ap (bit_at bs) (omega arith),
)
pack_lsb-bit_at (suc n) bs (suc q) k h g =
    let (v, e, f) = pack_lsb-bit_at n (drop 8 bs) q k (omega arith) g in
    (v, e, f ∙ bit_at-drop 8 bs (8 * q + k) ∙ ap (bit_at bs) (omega arith))

pub length-pack_lsb : (n : ℕ) (bs : List Bool) → length (pack_lsb n bs) ≡ n
unfolding pack_lsb
length-pack_lsb zero bs = refl
length-pack_lsb (suc n) bs = omega (arith, length-pack_lsb n (drop 8 bs))

-- The bits of a buffer from `i` on, as the loop reads them.
Holds : List ℕ → ℕ → ℕ → List Bool → Type 0
Holds buf payload i bs =
    (j : ℕ)
    → j < length bs
    → (v : ℕ) × (load8 buf (payload + (i + j) / 8) ≡ some v)
      × (bit_set v ((i + j) % 8) ≡ bit_at bs j)

payload_bits-Holds :
    (bs : List Bool) (buf : List ℕ) (payload i : ℕ)
    → Holds buf payload i bs
    → payload_bits (length bs) buf payload i ≡ some bs
unfolding payload_bits bit_at Holds
payload_bits-Holds [] buf payload i h = refl
payload_bits-Holds (b ∷ bs) buf payload i h =
    let (v, e, f) = h 0 (omega arith) in
    let at : payload + (i + 0) / 8 ≡ payload + i / 8 = omega arith in
    let rest = payload_bits-Holds bs buf payload (i + 1) (λ j g.
      let (w, e', f') = h (suc j) (omega arith) in
      let shift : i + suc j ≡ i + 1 + j = omega arith in (w, rw shift at e', rw shift at f')) in
    rw (sym (ap (load8 buf) at) ∙ e, rest)
      (ap (λ (x : Bool). some (x ∷ bs)) (ap (λ (m : ℕ). bit_set v (m % 8)) (omega arith) ∙ f))

-- Bits that are packed into the smallest number of bytes, with whatever around them, are read back.
pub payload_bits-pack_lsb :
    (bs : List Bool) (pre rest : List ℕ) (p : ℕ)
    → p ≡ length pre
    → payload_bits (length bs) (pre ++ (pack_lsb (num_bytes (length bs)) bs ++ rest)) p 0 ≡ some bs
unfolding Holds load8
payload_bits-pack_lsb bs pre rest p at = payload_bits-Holds bs (pre ++ (packed ++ rest)) p 0 (λ j h.
    let (v, e, f) =
      pack_lsb-bit_at (num_bytes (length bs)) bs (j / 8) (j % 8) (omega arith) (omega arith) in
    (
      v,
      get_elem?-append pre (packed ++ rest) (p + (0 + j) / 8) (j / 8) (omega arith)
          ∙ get_elem?-append_left packed rest (j / 8)
              (omega (arith, length-pack_lsb (num_bytes (length bs)) bs))
          ∙ e,
      ap (λ (m : ℕ). bit_set v (m % 8)) {y = j} (omega arith)
          ∙ f
          ∙ ap (bit_at bs) {y = j} (omega arith),
    ))
  where
    packed : List ℕ
    packed = pack_lsb (num_bytes (length bs)) bs
