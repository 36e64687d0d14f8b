-- ===== src/VmiAgent/Reads.antt =====
-- What `readGuestPhysMemory` and `snapshotRegisters` of src/VmiAgent.cpp find.
use min_bp.Prelude.{
  ℕ, ◌+◌, ◌-◌, ◌^◌, ◌≤◌, ◌<◌, ◌≡◌, refl, ◌⊎◌, inl, inr, Bool, true, false, ◌&&◌, List, [], ◌∷◌,
  some, leb, u64, arith, Bool-cases,
}
use min_bp.Kvm.{Machine}
use min_bp.Memory.{peek}
use min_bp.MemoryRegion.{MemoryRegion}
use min_bp.MemoryRegion
use min_bp.VmiAgent.{read_regions}

-- The range of `size` bytes from `addr` lies in the region.
abbrev pub Holds : ℕ → ℕ → MemoryRegion → Type 0
Holds addr size r = (r.guest_phys_addr ≤ addr) × (addr + size ≤ r.guest_phys_addr + r.size)

abbrev pub EndsBelow64 : List MemoryRegion → Type 0
EndsBelow64 [] = Unit {0}
EndsBelow64 (r ∷ rs) = (r.guest_phys_addr + r.size < 2 ^ 64) × EndsBelow64 rs

-- `r` is the first of the regions that holds the range; no region does.
pub data First (addr size : ℕ) (r : MemoryRegion) : List MemoryRegion → Type 0 where
  here : {rs : List MemoryRegion} → Holds addr size r → First addr size r (r ∷ rs)
  later :
      {q : MemoryRegion} {rs : List MemoryRegion}
      → ¬ Holds addr size q
      → First addr size r rs
      → First addr size r (q ∷ rs)

abbrev pub Missing : ℕ → ℕ → List MemoryRegion → Type 0
Missing addr size [] = Unit {0}
Missing addr size (r ∷ rs) = (¬ Holds addr size r) × Missing addr size rs

abbrev test : ℕ → ℕ → MemoryRegion → Bool
test addr size r =
    leb r.guest_phys_addr addr && leb (u64 (addr + size)) (u64 (r.guest_phys_addr + r.size))

test-Holds :
    (addr size : ℕ) (r : MemoryRegion)
    → addr + size < 2 ^ 64
    → r.guest_phys_addr + r.size < 2 ^ 64
    → test addr size r ≡ true
    → Holds addr size r
test-Holds addr size r p q h = ground arith

test-not :
    (addr size : ℕ) (r : MemoryRegion)
    → addr + size < 2 ^ 64
    → r.guest_phys_addr + r.size < 2 ^ 64
    → test addr size r ≡ false
    → ¬ Holds addr size r
test-not addr size r p q h = ground arith

pub read-region :
    {K : Type 0} (addr size : ℕ) (r : MemoryRegion) (m : Machine K)
    → addr + size < 2 ^ 64
    → Holds addr size r
    → MemoryRegion.read r (addr - r.guest_phys_addr) size m
      ≡ some (peek (r.host_addr + (addr - r.guest_phys_addr)) size m.memory)
unfolding MemoryRegion.read
read-region addr size r m p h = ground arith

-- For a range and regions that end below 2 ^ 64, the bytes that are read are those that the first
-- region holding the range gives for its own offset; when no region holds it, there are none.
pub read_regions_outcome :
    {K : Type 0} (rs : List MemoryRegion) (addr size : ℕ) (m : Machine K)
    → addr + size < 2 ^ 64
    → EndsBelow64 rs
    → ((r : MemoryRegion) × First addr size r rs
        × (MemoryRegion.read r (addr - r.guest_phys_addr) size m
            ≡ some (read_regions rs addr size m.memory)))
      ⊎ (Missing addr size rs × (read_regions rs addr size m.memory ≡ []))
unfolding read_regions
read_regions_outcome [] addr size m p b = inr (tt, refl)
read_regions_outcome (r ∷ rs) addr size m p b = elim (Bool-cases (test addr size r)) [
  | inl e ↦
      let holds = test-Holds addr size r p b.0 e in
      inl (r, First.here holds, rw e (read-region addr size r m p holds))
  | inr e ↦
      let misses = test-not addr size r p b.0 e in
      elim (read_regions_outcome rs addr size m p b.1) [
        | inl (q, first, q_read) ↦ inl (q, First.later misses first, rw e q_read)
        | inr (missing, empty) ↦ inr ((misses, missing), rw e empty)
      ]
]
