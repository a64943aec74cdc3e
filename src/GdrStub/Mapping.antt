-- ===== src/GdrStub/Mapping.antt =====
-- Mapping and unmapping in aerial_bridge/src/gdr_stub.cpp.
use ocudu_aerial_fapi_connec.Common.{
  ℕ, ◌+◌, ◌/◌, ◌^◌, ◌<◌, ◌≤◌, ◌≡◌, refl, ap, sym, ◌∙◌, true, false, ltb, Option, none, some,
  Bool-cases, ltb→lt, ltb→ge, inl, inr, ◌⊎◌, arith,
}
use ocudu_aerial_fapi_connec.GdrStub.{
  AddressSpaceOps, wanted, page_align, Mapped, after_mmap, gdr_map, gdr_unmap,
}

-- The number of pages of a length.
abbrev pub pages : ℕ → ℕ
pages n = (n + 4095) / 4096

-- What is documented of the calls: an empty mapping fails, and a mapping that was just made is gone,
-- with what was written to it, once a length of as many pages is unmapped at its address.
pub record MapLaws {Mem : Type 0} (os : AddressSpaceOps Mem) : Type 0 where
  pub mmap_empty : (m : Mem) → os.mmap 0 m ≡ none
  pub munmap_mmap :
      (n k a : ℕ) (m m' : Mem)
      → os.mmap n m ≡ some (a, m')
      → pages n ≡ pages k
      → os.munmap a k (os.clear a n m') ≡ m

-- Rounding up to pages keeps the number of pages, unless it goes beyond 64 bits.
page_align-pages : (n : ℕ) → n + 4095 < 2 ^ 64 → pages (page_align n) ≡ pages n
unfolding page_align
page_align-pages n h = omega arith

-- Beyond 64 bits nothing is left.
page_align-wraps : (n : ℕ) → n < 2 ^ 64 → 2 ^ 64 ≤ n + 4095 → page_align n ≡ 0
unfolding page_align
page_align-wraps n h g = omega arith

none-some : {A : Type 0} {a : A} → none ≡ some a → ⊥
none-some e = cc

wanted-small : (size : ℕ) → size < 2 ^ 64 → wanted size < 2 ^ 64
wanted-small size h = ground (arith, h)

module _ {Mem : Type 0} (os : AddressSpaceOps Mem) where
  -- A mapping fails and changes nothing, or it can be undone with the same size.
  abbrev pub Undone : ℕ → Mem → Mapped Mem → Type 0
  Undone size m r =
      ((r.failed ≡ true) × (r.va ≡ none) × (r.mem ≡ m))
      ⊎ ((r.failed ≡ false) × (gdr_unmap os r.va size r.mem ≡ m))

module _ {Mem : Type 0} (os : AddressSpaceOps Mem) (laws : MapLaws os) where
  after_mmap-Undone :
      (size n : ℕ) (m : Mem) (answer : Option (ℕ × Mem))
      → os.mmap n m ≡ answer
      → (pages n ≡ pages (wanted size)) ⊎ (n ≡ 0)
      → Undone os size m (after_mmap os n m answer)
  unfolding after_mmap gdr_unmap
  after_mmap-Undone size n m none e h = inl (refl, refl, refl)
  after_mmap-Undone size n m (some (a, m')) e (inl same) =
      inr (refl, laws.munmap_mmap n (wanted size) a m m' e same)
  after_mmap-Undone size n m (some (a, m')) e (inr empty) =
      absurd (none-some (sym (laws.mmap_empty m) ∙ ap (λ (k : ℕ). os.mmap k m) (sym empty) ∙ e))

  page_align-cases :
      (size : ℕ)
      → size < 2 ^ 64
      → (pages (page_align (wanted size)) ≡ pages (wanted size)) ⊎ (page_align (wanted size) ≡ 0)
  page_align-cases size h = elim (Bool-cases (ltb (wanted size + 4095) (2 ^ 64))) [
    | inl small ↦ inl (page_align-pages (wanted size) (ltb→lt (wanted size + 4095) (2 ^ 64) small))
    | inr large ↦ inr (
        page_align-wraps (wanted size) (wanted-small size h)
          (ltb→ge (wanted size + 4095) (2 ^ 64) large))
  ]

  -- For every 64-bit size, zero included, `gdr_map` either reports a failure, stores a null pointer and
  -- leaves the address space as it was, or `gdr_unmap` with the same size undoes it altogether.
  pub gdr_map-gdr_unmap :
      (size : ℕ) (m : Mem) → size < 2 ^ 64 → Undone os size m (gdr_map os size m)
  unfolding gdr_map
  gdr_map-gdr_unmap size m h =
      after_mmap-Undone size (page_align (wanted size)) m (os.mmap (page_align (wanted size)) m)
        refl (page_align-cases size h)
