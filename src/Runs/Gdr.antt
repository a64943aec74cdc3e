-- ===== src/Runs/Gdr.antt =====
-- Runs of aerial_bridge/src/gdr_stub.cpp.
use ocudu_aerial_fapi_connec.Common.{
  ℕ, ◌≡◌, refl, ap, sym, ◌==◌, Bool-cases, inl, inr, if◌then◌else◌, List, [], ◌∷◌, Option, none,
  some, drop, arith,
}
use ocudu_aerial_fapi_connec.GdrStub.{
  AddressSpaceOps, gdr_map, memcpy, gdr_copy_to_mapping, gdr_copy_from_mapping,
}
use ocudu_aerial_fapi_connec.GdrStub.Mapping.{pages, MapLaws, Undone, gdr_map-gdr_unmap}

-- An address space as the page counts of its mappings, the last one first.
abbrev stack_space : AddressSpaceOps (List ℕ)
stack_space = record {
  mmap = λ n m. if n == 0 then none else some (65536, pages n ∷ m);
  munmap = λ a k m. drop 1 m;
  clear = λ a n m. m;
}

abbrev below : Option (ℕ × List ℕ) → List ℕ
below none = []
below (some (a, m)) = drop 1 m

munmap_mmap_lem : (n k a : ℕ) (m m' : List ℕ) → stack_space.mmap n m ≡ some (a, m') → drop 1 m' ≡ m
munmap_mmap_lem n k a m m' e = elim (Bool-cases (n == 0)) [
  | inl zero_length ↦ absurd (ground (arith, e))
  | inr some_length ↦ sym (ap below (rw some_length at e))
]

stack_space-MapLaws : MapLaws stack_space
stack_space-MapLaws = record {
  mmap_empty = λ m. refl;
  munmap_mmap = λ n k a m m' e same. munmap_mmap_lem n k a m m' e;
}

gdr_map-gdr_unmap_example : Undone stack_space 5000 (3 ∷ []) (gdr_map stack_space 5000 (3 ∷ []))
gdr_map-gdr_unmap_example =
    gdr_map-gdr_unmap stack_space stack_space-MapLaws 5000 (3 ∷ []) (omega arith)

-- Two bytes to a mapping and back; five bytes do not fit.
copied_back :
    (gdr_copy_to_mapping (1 ∷ 1 ∷ 1 ∷ []) (5 ∷ 6 ∷ []) 2 ≡ some (5 ∷ 6 ∷ 1 ∷ []))
    × (gdr_copy_from_mapping (0 ∷ 0 ∷ 9 ∷ []) (5 ∷ 6 ∷ 1 ∷ []) 2 ≡ some (5 ∷ 6 ∷ 9 ∷ []))
    × (gdr_copy_to_mapping (1 ∷ 1 ∷ 1 ∷ []) (1 ∷ 2 ∷ 3 ∷ 4 ∷ 5 ∷ []) 5 ≡ none)
unfolding memcpy
copied_back = (refl, refl, refl)
