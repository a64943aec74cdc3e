-- ===== src/Gateway/Tlv.antt =====
-- `add_tlv` of aerial_bridge/src/aerial_fapi_adaptor.cpp, and a reader of what it writes.
use ocudu_aerial_fapi_connec.Common.{
  ℕ, zero, suc, ◌+◌, ◌-◌, ◌*◌, ◌/◌, ◌<◌, ◌≡◌, refl, ap, ◌∙◌, List, [], ◌∷◌, ◌++◌, append_assoc, All,
  Option, some, ◌>>=◌, length, take, drop, replicate, length-append, length-replicate, take-append,
  drop-append, arith,
}
use ocudu_aerial_fapi_connec.Wire.{le16, load16, two_bytes}

-- A tag and the `len` bytes behind the pointer `value`.
pub record Tlv : Type 0 where
  pub tag : ℕ
  pub value : List ℕ

abbrev pub padded_len : ℕ → ℕ
padded_len len = (len + 3) / 4 * 4

unfoldable pub add_tlv : Tlv → List ℕ
add_tlv t =
    le16 t.tag
    ++ (le16 (length t.value)
        ++ (t.value ++ replicate (padded_len (length t.value) - length t.value) 0))

unfoldable pub add_tlvs : List Tlv → List ℕ
add_tlvs [] = []
add_tlvs (t ∷ ts) = add_tlv t ++ add_tlvs ts

-- A reader that advances by the padded length: `n` TLVs and the bytes behind them.
pub read_tlvs : ℕ → List ℕ → Option (List Tlv × List ℕ)
read_tlvs zero bytes = some ([], bytes)
read_tlvs (suc n) bytes = do
  tag ← load16 bytes 0
  len ← load16 bytes 2
  (ts, rest) ← read_tlvs n (drop (padded_len len) (drop 4 bytes))
  some (record { tag = tag; value = take len (drop 4 bytes) } ∷ ts, rest)

pub record TlvFits (t : Tlv) : Type 0 where
  pub tag_fits : t.tag < 65536
  pub length_fits : length t.value < 65536

read_tlvs_step :
    (t : Tlv) (n : ℕ) (rest : List ℕ)
    → TlvFits t
    → read_tlvs (suc n) (add_tlv t ++ rest)
      ≡ (read_tlvs n rest >>= λ (r : List Tlv × List ℕ). some (t ∷ r.0, r.1))
unfolding read_tlvs add_tlv load16
read_tlvs_step t n rest fits = rw (
  two_bytes t.tag fits.tag_fits,
  two_bytes (length t.value) fits.length_fits,
  behind,
  append_assoc t.value pad rest,
  take-append t.value (pad ++ rest),
)
  where
    pad : List ℕ
    pad = replicate (padded_len (length t.value) - length t.value) 0

    whole : padded_len (length t.value) ≡ length (t.value ++ pad)
    whole = omega (
      arith,
      length-append t.value pad,
      length-replicate {A = ℕ} (padded_len (length t.value) - length t.value) 0,
    )

    behind : drop (padded_len (length t.value)) ((t.value ++ pad) ++ rest) ≡ rest
    behind =
        ap (λ (k : ℕ). drop k ((t.value ++ pad) ++ rest)) whole ∙ drop-append (t.value ++ pad) rest

-- TLVs of any values below 65536 bytes, with tags of 16 bits, are read back in order with their
-- exact values, the padding dropped, and the reader stops at the byte behind the last one.
pub read_tlvs-add_tlvs :
    (ts : List Tlv) (rest : List ℕ)
    → All TlvFits ts
    → read_tlvs (length ts) (add_tlvs ts ++ rest) ≡ some (ts, rest)
unfolding add_tlvs read_tlvs
read_tlvs-add_tlvs [] rest h = refl
read_tlvs-add_tlvs (t ∷ ts) rest (h, hs) =
    rw (append_assoc (add_tlv t) (add_tlvs ts) rest)
      (read_tlvs_step t (length ts) (add_tlvs ts ++ rest) h ∙ rw (read_tlvs-add_tlvs ts rest hs))
