-- ===== src/GdrStub.antt =====
-- aerial_bridge/src/gdr_stub.cpp: functions of the GDRCopy library on anonymous memory.
pub mod Mapping
use ocudu_aerial_fapi_connec.Common.{
  ℕ, ◌+◌, ◌*◌, ◌/◌, ◌%◌, ◌^◌, Bool, true, false, ◌&&◌, leb, ltb, if◌then◌else◌, List, [], ◌∷◌, ◌++◌,
  Option, none, some, length, take, drop,
}

-- The operating system's calls on an address space: `mmap` of anonymous memory, with an address or
-- MAP_FAILED, `munmap`, and `memset` with zeroes.
pub record AddressSpaceOps (Mem : Type 0) : Type 0 where
  pub mmap : ℕ → Mem → Option (ℕ × Mem)
  pub munmap : ℕ → ℕ → Mem → Mem
  pub clear : ℕ → ℕ → Mem → Mem

-- `size > 0 ? size : 4096`.
abbrev pub wanted : ℕ → ℕ
wanted size = if ltb 0 size then size else 4096

-- `(alloc_size + 4095) & ~4095UL` on 64 bits.
unfoldable pub page_align : ℕ → ℕ
page_align n = (n + 4095) % 2 ^ 64 / 4096 * 4096

-- What `gdr_map` returns, what it leaves in `*va`, and the address space.
pub record Mapped (Mem : Type 0) : Type 0 where
  pub failed : Bool
  pub va : Option ℕ
  pub mem : Mem

module _ {Mem : Type 0} (os : AddressSpaceOps Mem) where
  unfoldable pub after_mmap : ℕ → Mem → Option (ℕ × Mem) → Mapped Mem
  after_mmap n m none = record { failed = true; va = none; mem = m }
  after_mmap n m (some (a, m')) = record { failed = false; va = some a; mem = os.clear a n m' }

  -- `gdr_map` with a place for the address.
  unfoldable pub gdr_map : ℕ → Mem → Mapped Mem
  gdr_map size m =
      let alloc_size = page_align (wanted size) in after_mmap alloc_size m (os.mmap alloc_size m)

  unfoldable pub gdr_unmap : Option ℕ → ℕ → Mem → Mem
  gdr_unmap none size m = m
  gdr_unmap (some va) size m = os.munmap va (wanted size) m

-- `memcpy` of `size` bytes to the start of `target`; `none` where it would read or write past the
-- end of one of the two.
unfoldable pub memcpy : List ℕ → List ℕ → ℕ → Option (List ℕ)
memcpy target source size =
    if leb size (length source) && leb size (length target)
    then some (take size source ++ drop size target)
    else none

abbrev pub gdr_copy_to_mapping : List ℕ → List ℕ → ℕ → Option (List ℕ)
gdr_copy_to_mapping map_d h size = memcpy map_d h size

abbrev pub gdr_copy_from_mapping : List ℕ → List ℕ → ℕ → Option (List ℕ)
gdr_copy_from_mapping h map_d size = memcpy h map_d size
