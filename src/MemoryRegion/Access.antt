-- ===== src/MemoryRegion/Access.antt =====
-- Reading and writing a region of src/MemoryRegion.cpp.
use min_bp.Prelude.{
  ℕ, ◌+◌, ◌^◌, ◌≤◌, ◌<◌, ◌≡◌, refl, ap, List, none, some, length, arith, true, false,
}
use min_bp.Kvm.{Machine}
use min_bp.Memory.{poke}
use min_bp.Memory.Laws.{poke-Apart, peek-poke, Apart}
use min_bp.MemoryRegion.{MemoryRegion, fits, write, read}

fits_test :
    (r : MemoryRegion) (offset n : ℕ)
    → offset + n < 2 ^ 64
    → offset + n ≤ r.size
    → fits r offset n ≡ true
fits_test r offset n b h = ground arith

unfit_test :
    (r : MemoryRegion) (offset n : ℕ)
    → offset + n < 2 ^ 64
    → r.size < offset + n
    → fits r offset n ≡ false
unfit_test r offset n b h = ground arith

module _ {K : Type 0} where
  -- Bytes written inside a region are read back at the same offset, every byte of the process outside
  -- the written range stays, and so do the kernel and the run structures; for an offset and a length
  -- whose sum has 64 bits, what does not fit the region is refused, by `write` and by `read`.
  pub read-write :
      (r : MemoryRegion) (offset : ℕ) (bytes : List ℕ) (m : Machine K)
      → offset + length bytes < 2 ^ 64
      → (offset + length bytes ≤ r.size
          → (m' : Machine K) × (write r offset bytes m ≡ some m')
            × (read r offset (length bytes) m' ≡ some bytes)
            × ((x : ℕ) → Apart (r.host_addr + offset) (length bytes) x → m'.memory x ≡ m.memory x)
            × (m' ≡ record m { memory = m'.memory }))
        × (r.size < offset + length bytes
            → (write r offset bytes m ≡ none) × (read r offset (length bytes) m ≡ none))
  unfolding write read
  read-write r offset bytes m b = (
    λ h. (
      record m { memory = poke (r.host_addr + offset) bytes m.memory },
      rw (fits_test r offset (length bytes) b h),
      rw (fits_test r offset (length bytes) b h)
          (ap some (peek-poke (r.host_addr + offset) bytes m.memory)),
      λ x apart. poke-Apart (r.host_addr + offset) bytes m.memory x apart,
      refl,
    ),
    λ h. (rw (unfit_test r offset (length bytes) b h), rw (unfit_test r offset (length bytes) b h)),
  )
