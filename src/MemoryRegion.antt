-- ===== src/MemoryRegion.antt =====
-- src/MemoryRegion.cpp: a block of host memory that is a slot of guest memory.
pub mod Access
pub mod Ownership
use min_bp.Prelude.{
  ℕ, ◌+◌, ◌==◌, Bool, not, ◌&&◌, List, Option, none, some, length, leb, u64, if◌then◌else◌,
}
use min_bp.Prelude.Result.{Result, ok, err}
use min_bp.Kvm.{Fd, MemorySlot, Machine, Kvm, null, map_failed, set_kernel}
use min_bp.Memory.{poke, peek}

pub record MemoryRegion : Type 0 where
  pub vm_fd : Fd
  pub slot : ℕ
  pub guest_phys_addr : ℕ
  pub size : ℕ
  pub host_addr : ℕ

-- `m_hostAddr != nullptr && m_hostAddr != MAP_FAILED`
abbrev pub holds : MemoryRegion → Bool
holds r = not (r.host_addr == null) && not (r.host_addr == map_failed)

-- `KVM_SET_USER_MEMORY_REGION` with size 0 removes the slot.
abbrev pub removal : ℕ → MemorySlot
removal slot = record {
  slot = slot;
  flags = 0;
  guest_phys_addr = 0;
  memory_size = 0;
  userspace_addr = 0;
}

module _ {K : Type 0} (kvm : Kvm K) where
  -- `create`; the `madvise` call, whose result is ignored, is left out.
  unfoldable pub create : Fd → ℕ → ℕ → ℕ → ℕ → Machine K → Result MemoryRegion × Machine K
  create vm_fd slot guest_phys_addr size flags m =
      let (mapped, m1) = kvm.mmap_anonymous size m in
      elim mapped [
        | err e ↦ (err e, m1)
        | ok host ↦
            (let region : MemorySlot = record {
              slot = slot;
              flags = flags;
              guest_phys_addr = guest_phys_addr;
              memory_size = size;
              userspace_addr = host;
            } in
              let (set, k) = kvm.set_user_memory_region vm_fd region m1.kernel in
              (
                elim set [
                  | err e ↦ err e
                  | ok _ ↦ ok (record {
                    vm_fd = vm_fd;
                    slot = slot;
                    guest_phys_addr = guest_phys_addr;
                    size = size;
                    host_addr = host;
                  })
                ],
                set_kernel (elim set [ err e ↦ kvm.munmap host size k | ok _ ↦ k ]) m1,
              ))
      ]

  -- The destructor, and the first half of the move assignment.
  unfoldable pub release : MemoryRegion → Machine K → Machine K
  release r m =
      if holds r
      then set_kernel
          (kvm.munmap r.host_addr r.size
            (kvm.set_user_memory_region r.vm_fd (removal r.slot) m.kernel).1)
          m
      else m

-- The move constructor: the new region, and what is left of the old one.
unfoldable pub move : MemoryRegion → MemoryRegion × MemoryRegion
move other = (other, record other { host_addr = null })

-- The move assignment from another object: this region, the other one, and the machine.
unfoldable pub assign :
    {K : Type 0} (kvm : Kvm K)
    → MemoryRegion
    → MemoryRegion
    → Machine K
    → (MemoryRegion × MemoryRegion) × Machine K
unfolding move
assign kvm self other m = (move other, release kvm self m)

-- The assertion of `write` and `read`; the sum is a `size_t`.
abbrev pub fits : MemoryRegion → ℕ → ℕ → Bool
fits r offset n = leb (u64 (offset + n)) r.size

-- `none` is a failed assertion. The sum with the host's address is not cut: a range that leaves the
-- region, which the sum in the assertion lets pass when it wraps, is undefined behaviour.
unfoldable pub write : {K : Type 0} → MemoryRegion → ℕ → List ℕ → Machine K → Option (Machine K)
write r offset bytes m =
    if fits r offset (length bytes)
    then some (record m { memory = poke (r.host_addr + offset) bytes m.memory })
    else none

unfoldable pub read : {K : Type 0} → MemoryRegion → ℕ → ℕ → Machine K → Option (List ℕ)
read r offset n m = if fits r offset n then some (peek (r.host_addr + offset) n m.memory) else none
