-- ===== src/Wire.antt =====
-- Little-endian integers in byte buffers, as the packed structs and `memcpy` calls of
-- aerial_bridge/src/msg_translator.cpp read and write them.
pub mod Cursor
use ocudu_aerial_fapi_connec.Common.{
  ℕ, ◌+◌, ◌*◌, ◌/◌, ◌%◌, ◌≤◌, ◌<◌, ◌≡◌, ap, ◌∙◌, List, [], ◌∷◌, ◌++◌, Option, some, ◌>>=◌, length,
  get_elem?, get_elem?_inside, get_elem?-append, arith,
}

-- What a store of a value into a `uint8_t`, `uint16_t` or `uint32_t` leaves in memory.
abbrev pub le8 : ℕ → List ℕ
le8 v = v % 256 ∷ []

abbrev pub le16 : ℕ → List ℕ
le16 v = v % 256 ∷ v / 256 % 256 ∷ []

abbrev pub le32 : ℕ → List ℕ
le32 v = v % 256 ∷ v / 256 % 256 ∷ v / 65536 % 256 ∷ v / 16777216 % 256 ∷ []

-- Reads at a byte offset. `none`: the read leaves the buffer.
unfoldable pub load8 : List ℕ → ℕ → Option ℕ
load8 buf p = get_elem? buf p

unfoldable pub load16 : List ℕ → ℕ → Option ℕ
load16 buf p = do a ← get_elem? buf p; b ← get_elem? buf (p + 1); some (a + 256 * b)

unfoldable pub load32 : List ℕ → ℕ → Option ℕ
load32 buf p = do
  a ← get_elem? buf p
  b ← get_elem? buf (p + 1)
  c ← get_elem? buf (p + 2)
  d ← get_elem? buf (p + 3)
  some (a + 256 * b + 65536 * c + 16777216 * d)

-- A read that ends inside the buffer does not fault.
pub load8_inside : (buf : List ℕ) (p : ℕ) → p + 1 ≤ length buf → (v : ℕ) × (load8 buf p ≡ some v)
unfolding load8
load8_inside buf p h = get_elem?_inside buf p (omega arith)

pub load16_inside : (buf : List ℕ) (p : ℕ) → p + 2 ≤ length buf → (v : ℕ) × (load16 buf p ≡ some v)
unfolding load16
load16_inside buf p h =
    let (a, ea) = get_elem?_inside buf p (omega arith) in
    let (b, eb) = get_elem?_inside buf (p + 1) (omega arith) in (a + 256 * b, rw (ea, eb))

pub load32_inside : (buf : List ℕ) (p : ℕ) → p + 4 ≤ length buf → (v : ℕ) × (load32 buf p ≡ some v)
unfolding load32
load32_inside buf p h =
    let (a, ea) = get_elem?_inside buf p (omega arith) in
    let (b, eb) = get_elem?_inside buf (p + 1) (omega arith) in
    let (c, ec) = get_elem?_inside buf (p + 2) (omega arith) in
    let (d, ed) = get_elem?_inside buf (p + 3) (omega arith) in
    (a + 256 * b + 65536 * c + 16777216 * d, rw (ea, eb, ec, ed))

-- A read at the place of a stored integer gives the integer, whatever stands around it.
module _ (pre post : List ℕ) (v p : ℕ) (at : p ≡ length pre) where
  pub load8_at : v < 256 → load8 (pre ++ (le8 v ++ post)) p ≡ some v
  unfolding load8
  load8_at h = get_elem?-append pre (le8 v ++ post) p 0 (omega arith) ∙ ap some (omega arith)

  pub load16_at : v < 65536 → load16 (pre ++ (le16 v ++ post)) p ≡ some v
  unfolding load16
  load16_at h =
      rw
        (
          get_elem?-append pre (le16 v ++ post) p 0 (omega arith),
          get_elem?-append pre (le16 v ++ post) (p + 1) 1 (omega arith),
        )
        (ap some (omega arith))

  pub load32_at : v < 4294967296 → load32 (pre ++ (le32 v ++ post)) p ≡ some v
  unfolding load32
  load32_at h =
      rw
        (
          get_elem?-append pre (le32 v ++ post) p 0 (omega arith),
          get_elem?-append pre (le32 v ++ post) (p + 1) 1 (omega arith),
          get_elem?-append pre (le32 v ++ post) (p + 2) 2 (omega arith),
          get_elem?-append pre (le32 v ++ post) (p + 3) 3 (omega arith),
        )
        (ap some (omega arith))

-- The value of the bytes of an integer in range.
pub one_byte : (v : ℕ) → v < 256 → v % 256 ≡ v
one_byte v h = omega arith

pub two_bytes : (v : ℕ) → v < 65536 → v % 256 + 256 * (v / 256 % 256) ≡ v
two_bytes v h = omega arith

pub four_bytes :
    (v : ℕ)
    → v < 4294967296
    → v % 256 + 256 * (v / 256 % 256) + 65536 * (v / 65536 % 256) + 16777216 * (v / 16777216 % 256)
      ≡ v
four_bytes v h = omega arith

-- A read behind a prefix is a read of what follows it.
module _ (pre post : List ℕ) (p k : ℕ) (behind : p ≡ length pre + k) where
  pub load8_behind : load8 (pre ++ post) p ≡ load8 post k
  unfolding load8
  load8_behind = get_elem?-append pre post p k behind

  pub load16_behind : load16 (pre ++ post) p ≡ load16 post k
  unfolding load16
  load16_behind = rw (
    get_elem?-append pre post p k behind,
    get_elem?-append pre post (p + 1) (k + 1) (omega arith),
  )

  pub load32_behind : load32 (pre ++ post) p ≡ load32 post k
  unfolding load32
  load32_behind = rw (
    get_elem?-append pre post p k behind,
    get_elem?-append pre post (p + 1) (k + 1) (omega arith),
    get_elem?-append pre post (p + 2) (k + 2) (omega arith),
    get_elem?-append pre post (p + 3) (k + 3) (omega arith),
  )
