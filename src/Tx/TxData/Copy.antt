-- ===== src/Tx/TxData/Copy.antt =====
-- The copy of a block into the data buffer, `memcpy` in `serialize_tx_data_request` of
-- aerial_bridge/src/msg_translator.cpp.
use ocudu_aerial_fapi_connec.Common.{
  ℕ, zero, suc, ◌+◌, ◌≤◌, ◌≡◌, refl, ap, ◌∙◌, sym, List, [], ◌∷◌, ◌++◌, length, take, drop,
  length-append, length-take, length-drop, take-append, drop-append, arith,
}
use ocudu_aerial_fapi_connec.Tx.TxData.{write_at}

module _ {A : Type 0} where
  pub take_whole : (xs : List A) → take (length xs) xs ≡ xs
  take_whole [] = refl
  take_whole (x ∷ xs) = rw (take_whole xs)

  take-take : (n m : ℕ) (xs : List A) → n ≤ m → take n (take m xs) ≡ take n xs
  take-take zero m xs h = refl
  take-take (suc n) zero xs h = absurd (omega arith)
  take-take (suc n) (suc m) [] h = refl
  take-take (suc n) (suc m) (x ∷ xs) h = rw (take-take n m xs (omega arith))

  take-drop : (n m : ℕ) (xs : List A) → take n (drop m xs) ≡ drop m (take (m + n) xs)
  take-drop n zero xs = let e : 0 + n ≡ n = omega arith in rw e
  take-drop zero (suc m) [] = let e : suc m + 0 ≡ suc m = omega arith in rw e
  take-drop (suc n) (suc m) [] = let e : suc m + suc n ≡ suc (m + suc n) = omega arith in rw e
  take-drop n (suc m) (x ∷ xs) =
      let e : suc m + n ≡ suc (m + n) = omega arith in rw e (take-drop n m xs)

  -- What lies below `m` in two lists that agree up to `m` is the same.
  pub agree_below :
      (o l m : ℕ) (xs ys : List A)
      → o + l ≤ m
      → take m xs ≡ take m ys
      → take l (drop o xs) ≡ take l (drop o ys)
  agree_below o l m xs ys h e =
      rw (
        take-drop l o xs,
        take-drop l o ys,
        ← take-take (o + l) m xs h,
        e,
        take-take (o + l) m ys h,
      )

  pub agree_less :
      (n m : ℕ) (xs ys : List A) → n ≤ m → take m xs ≡ take m ys → take n xs ≡ take n ys
  agree_less n m xs ys h e = rw (← take-take n m xs h, e, take-take n m ys h)

-- A block that fits is found where it was written, and everything before it is kept.
module _ (at : ℕ) (bytes buf : List ℕ) (fits : at + length bytes ≤ length buf) where
  prefix_length : length (take at buf) ≡ at
  prefix_length = length-take at buf (omega arith)

  pub length-write_at : length (write_at at bytes buf) ≡ length buf
  length-write_at = omega (
    arith,
    length-append (take at buf) (bytes ++ drop (at + length bytes) buf),
    length-append bytes (drop (at + length bytes) buf),
    length-drop (at + length bytes) buf,
    prefix_length,
  )

  pub take-write_at : take at (write_at at bytes buf) ≡ take at buf
  take-write_at =
      ap (λ (n : ℕ). take n (write_at at bytes buf)) (sym prefix_length)
      ∙ take-append (take at buf) (bytes ++ drop (at + length bytes) buf)

  pub block-write_at : take (length bytes) (drop at (write_at at bytes buf)) ≡ bytes
  block-write_at =
      ap (λ (n : ℕ). take (length bytes) (drop n (write_at at bytes buf))) (sym prefix_length)
      ∙ ap (take (length bytes)) (drop-append (take at buf) (bytes ++ drop (at + length bytes) buf))
      ∙ take-append bytes (drop (at + length bytes) buf)
