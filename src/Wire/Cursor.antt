-- ===== src/Wire/Cursor.antt =====
-- Where a piece of a message lies, and reads inside it: the pointers into messages of
-- aerial_bridge/src/msg_translator.cpp.
use ocudu_aerial_fapi_connec.Common.{
  ℕ, ◌+◌, ◌<◌, ◌≤◌, ◌≡◌, refl, ap, sym, ◌∙◌, List, ◌++◌, append_assoc, length, length-append,
  get_elem?, get_elem?-append, get_elem?-append_left, arith,
}
use ocudu_aerial_fapi_connec.Wire.{load8, load16, load32}

-- `buf` has `xs` at offset `q`.
pub record At (buf : List ℕ) (q : ℕ) (xs : List ℕ) : Type 0 where
  pub pre : List ℕ
  pub rest : List ℕ
  pub split : buf ≡ pre ++ (xs ++ rest)
  pub offset : q ≡ length pre

pub At-left : (buf : List ℕ) (q : ℕ) (xs ys : List ℕ) → At buf q (xs ++ ys) → At buf q xs
At-left buf q xs ys a = record {
  pre = a.pre;
  rest = ys ++ a.rest;
  split = a.split ∙ ap (λ (zs : List ℕ). a.pre ++ zs) (append_assoc xs ys a.rest);
  offset = a.offset;
}

pub At-right :
    (buf : List ℕ) (q : ℕ) (xs ys : List ℕ) → At buf q (xs ++ ys) → At buf (q + length xs) ys
At-right buf q xs ys a = record {
  pre = a.pre ++ xs;
  rest = a.rest;
  split =
      a.split
      ∙ ap (λ (zs : List ℕ). a.pre ++ zs) (append_assoc xs ys a.rest)
      ∙ sym (append_assoc a.pre xs (ys ++ a.rest));
  offset = omega (arith, a.offset, length-append a.pre xs);
}

-- The piece ends inside the message.
pub At-inside : (buf : List ℕ) (q : ℕ) (xs : List ℕ) → At buf q xs → q + length xs ≤ length buf
At-inside buf q xs a = omega (
  arith,
  a.offset,
  ap length a.split,
  length-append a.pre (xs ++ a.rest),
  length-append xs a.rest,
)

-- Reads inside the piece.
module _ (buf : List ℕ) (q : ℕ) (xs : List ℕ) (a : At buf q xs) where
  pub get_elem?-At : (p k : ℕ) → p ≡ q + k → k < length xs → get_elem? buf p ≡ get_elem? xs k
  get_elem?-At p k e h =
      ap (λ (zs : List ℕ). get_elem? zs p) a.split
      ∙ get_elem?-append a.pre (xs ++ a.rest) p k (omega (arith, a.offset))
      ∙ get_elem?-append_left xs a.rest k h

  pub load8-At : (p k : ℕ) → p ≡ q + k → k + 1 ≤ length xs → load8 buf p ≡ load8 xs k
  unfolding load8
  load8-At p k e h = get_elem?-At p k e (omega arith)

  pub load16-At : (p k : ℕ) → p ≡ q + k → k + 2 ≤ length xs → load16 buf p ≡ load16 xs k
  unfolding load16
  load16-At p k e h =
      rw
        (get_elem?-At p k e (omega arith), get_elem?-At (p + 1) (k + 1) (omega arith) (omega arith))
        refl

  pub load32-At : (p k : ℕ) → p ≡ q + k → k + 4 ≤ length xs → load32 buf p ≡ load32 xs k
  unfolding load32
  load32-At p k e h =
      rw
        (
          get_elem?-At p k e (omega arith),
          get_elem?-At (p + 1) (k + 1) (omega arith) (omega arith),
          get_elem?-At (p + 2) (k + 2) (omega arith) (omega arith),
          get_elem?-At (p + 3) (k + 3) (omega arith) (omega arith),
        )
        refl
