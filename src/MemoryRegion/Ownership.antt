-- ===== src/MemoryRegion/Ownership.antt =====
-- Who owns the memory of a region of src/MemoryRegion.cpp.
use min_bp.Prelude.{◌∙◌, ℕ, ◌≡◌, ◌≢◌, refl, Bool, false, inl, inr, arith}
use min_bp.Prelude.Result.{ok, err, Result-cases}
use min_bp.Kvm.{Fd, Machine, MemorySlot, Kvm, null, map_failed}
use min_bp.MemoryRegion.{MemoryRegion, removal, create, release, move, assign}

module _ {K : Type 0} (kvm : Kvm K) where
  -- After a move the new region is the old one, and the destructor of what is left of the old one
  -- does nothing. A move assignment does to the machine what the destructor of the overwritten region
  -- would have done, and nothing more.
  pub move_releases_once :
      (self other : MemoryRegion) (m : Machine K)
      → ((move other).0 ≡ other)
        × (release kvm (move other).1 m ≡ m)
        × ((assign kvm self other m).0 ≡ move other)
        × ((assign kvm self other m).1 ≡ release kvm self m)
  unfolding move assign release
  move_releases_once self other m = (refl, refl, refl, refl)

  -- What the code relies on, with `in_use` for the slots that the VM has: setting a slot that is not in
  -- use and its removal, and a mapping and its unmapping, cancel out; a refused call changes nothing,
  -- and a mapping leaves the slots alone.
  pub record SlotsCancel (fd : Fd) : Type 0 where
    pub in_use : K → ℕ → Bool
    pub set_removed :
        (s : MemorySlot) (k : K)
        → in_use k s.slot ≡ false
        → s.memory_size ≢ 0
        → (kvm.set_user_memory_region fd s k).0 ≡ ok tt
        → (kvm.set_user_memory_region fd (removal s.slot) (kvm.set_user_memory_region fd s k).1).1
          ≡ k
    pub set_refused :
        (s : MemorySlot) (k : K) (e : ℕ)
        → (kvm.set_user_memory_region fd s k).0 ≡ err e
        → (kvm.set_user_memory_region fd s k).1 ≡ k
    pub mapped :
        (size : ℕ) (m : Machine K) (a : ℕ)
        → (kvm.mmap_anonymous size m).0 ≡ ok a
        → (a ≢ null)
          × (a ≢ map_failed)
          × (kvm.munmap a size (kvm.mmap_anonymous size m).1.kernel ≡ m.kernel)
    pub unmapped :
        (size : ℕ) (m : Machine K) (e : ℕ)
        → (kvm.mmap_anonymous size m).0 ≡ err e
        → (kvm.mmap_anonymous size m).1.kernel ≡ m.kernel
    pub mapped_slots :
        (size : ℕ) (m : Machine K) (slot : ℕ)
        → in_use (kvm.mmap_anonymous size m).1.kernel slot ≡ in_use m.kernel slot

  abbrev slot_of : ℕ → ℕ → ℕ → ℕ → ℕ → MemorySlot
  slot_of slot gpa size flags host = record {
    slot = slot;
    flags = flags;
    guest_phys_addr = gpa;
    memory_size = size;
    userspace_addr = host;
  }

  failed :
      (fd : Fd) (slot gpa size flags e : ℕ) (m : Machine K)
      → SlotsCancel fd
      → (create kvm fd slot gpa size flags m).0 ≡ err e
      → (create kvm fd slot gpa size flags m).1.kernel ≡ m.kernel
  unfolding create
  failed fd slot gpa size flags e m laws h =
      let k = (kvm.mmap_anonymous size m).1.kernel in
      elim (Result-cases (kvm.mmap_anonymous size m).0) [
        | inr (x, f) ↦ ground (arith, laws.unmapped size m x f)
        | inl (a, f) ↦
            let s = slot_of slot gpa size flags a in
            elim (Result-cases (kvm.set_user_memory_region fd s k).0) [
              | inl (_, g) ↦ ground arith
              | inr (x, g) ↦ ground (arith, laws.set_refused s k x g, laws.mapped size m a f)
            ]
      ]

  created :
      (fd : Fd) (slot gpa size flags : ℕ) (m : Machine K) (r : MemoryRegion) (laws : SlotsCancel fd)
      → laws.in_use m.kernel slot ≡ false
      → size ≢ 0
      → (create kvm fd slot gpa size flags m).0 ≡ ok r
      → (release kvm r (create kvm fd slot gpa size flags m).1).kernel ≡ m.kernel
  unfolding create release
  created fd slot gpa size flags m r laws free nonzero h =
      let k = (kvm.mmap_anonymous size m).1.kernel in
      elim (Result-cases (kvm.mmap_anonymous size m).0) [
        | inr (x, f) ↦ ground arith
        | inl (a, f) ↦
            let s = slot_of slot gpa size flags a in
            elim (Result-cases (kvm.set_user_memory_region fd s k).0) [
              | inr (x, g) ↦ ground arith
              | inl (_, g) ↦ ground (
                arith,
                laws.set_removed s k (laws.mapped_slots size m slot ∙ free) nonzero g,
                laws.mapped size m a f,
              )
            ]
      ]

  -- No leak: when `create` fails, the kernel is in the state that it was in, with no mapping and no slot
  -- left over. When it succeeds for a slot that was not in use and a size that is not 0, the destructor
  -- of the region brings the kernel back to that state.
  pub create-release :
      (fd : Fd) (slot gpa size flags : ℕ) (m : Machine K) (laws : SlotsCancel fd)
      → laws.in_use m.kernel slot ≡ false
      → size ≢ 0
      → ((e : ℕ)
          → (create kvm fd slot gpa size flags m).0 ≡ err e
          → (create kvm fd slot gpa size flags m).1.kernel ≡ m.kernel)
        × ((r : MemoryRegion)
            → (create kvm fd slot gpa size flags m).0 ≡ ok r
            → (release kvm r (create kvm fd slot gpa size flags m).1).kernel ≡ m.kernel)
  create-release fd slot gpa size flags m laws free nonzero = (
    λ e. failed fd slot gpa size flags e m laws,
    λ r. created fd slot gpa size flags m r laws free nonzero,
  )
