-- ===== src/VirtualMachine.antt =====
-- src/VirtualMachine.cpp: the memory regions and vCPUs of a VM, and snapshots of their state.
pub mod Slots
pub mod Snapshot
pub mod Release
use min_bp.Prelude.{
  ℕ, zero, ◌+◌, ◌==◌, Bool, true, false, not, ◌||◌, List, [], ◌∷◌, ◌++◌, Option, none, some, length,
  take, map, u32, if◌then◌else◌,
}
use min_bp.Prelude.Result.{ErrorCode, error_code, Result, ok, err, value_or}
use min_bp.Kvm.{
  set_kernel, Fd, Regs, Sregs, KvmRun, Machine, Kvm, null, zero_regs, zero_sregs, set_kernel,
}
use min_bp.Memory.{Memory, poke, peek}
use min_bp.VCpu.{VCpu}
use min_bp.VCpu
use min_bp.MemoryRegion.{MemoryRegion}
use min_bp.MemoryRegion

pub record VirtualMachine : Type 0 where
  pub fd : Fd
  pub vcpu_mmap_size : ℕ
  pub next_slot : ℕ
  pub memory_regions : List MemoryRegion
  pub vcpus : List VCpu

pub record VmSnapShot : Type 0 where
  pub regs : Regs
  pub sregs : Sregs
  pub memory_regions : List (List ℕ)

abbrev pub new : Fd → ℕ → VirtualMachine
new vm_fd vcpu_mmap_size = record {
  fd = vm_fd;
  vcpu_mmap_size = vcpu_mmap_size;
  next_slot = 0;
  memory_regions = [];
  vcpus = [];
}

-- KVM_CAP_EXIT_ON_EMULATION_FAILURE
abbrev pub cap_exit_on_emulation_failure : ℕ
cap_exit_on_emulation_failure = 204

-- The move constructor: the new object, and what is left of the old one.
unfoldable pub move : VirtualMachine → VirtualMachine × VirtualMachine
move other = (other, record other { fd = none; memory_regions = []; vcpus = [] })

abbrev is_null : MemoryRegion → Bool
is_null r = r.host_addr == null

-- The copies of the regions' memory; a region without memory has an empty one.
unfoldable pub copy_regions : List MemoryRegion → Memory → List (List ℕ)
copy_regions [] mem = []
copy_regions (r ∷ rs) mem =
    (if is_null r then [] else peek r.host_addr r.size mem) ∷ copy_regions rs mem

abbrev is_empty : List ℕ → Bool
is_empty [] = true
is_empty (_ ∷ _) = false

-- The loop of `restoreSnapshot`: a region with no memory, no copy or an empty copy is skipped.
unfoldable pub restore_regions : List MemoryRegion → List (List ℕ) → Memory → Memory
restore_regions [] copies mem = mem
restore_regions (r ∷ rs) [] mem = mem
restore_regions (r ∷ rs) (copy ∷ copies) mem =
    restore_regions rs copies
      (if is_null r || is_empty copy then mem else poke r.host_addr (take r.size copy) mem)

module _ {K : Type 0} (kvm : Kvm K) where
  unfoldable pub add_memory_region :
      ℕ → ℕ → ℕ → VirtualMachine → Machine K → (Result MemoryRegion × VirtualMachine) × Machine K
  add_memory_region guest_phys_addr size flags vm m =
      let (result, m') = MemoryRegion.create kvm vm.fd vm.next_slot guest_phys_addr size flags m in
      (
        elim result [
          | err e ↦ (err e, vm)
          | ok region ↦ (
            ok region,
            record vm {
              memory_regions = vm.memory_regions ++ region ∷ [];
              next_slot = u32 (vm.next_slot + 1);
            },
          )
        ],
        m',
      )

  unfoldable pub add_vcpu :
      ℕ → VirtualMachine → Machine K → (Result VCpu × VirtualMachine) × Machine K
  add_vcpu id vm m =
      let (result, m') = VCpu.create kvm vm.fd id vm.vcpu_mmap_size m in
      (
        elim result [
          | err e ↦ (err e, vm)
          | ok vcpu ↦ (ok vcpu, record vm { vcpus = vm.vcpus ++ vcpu ∷ [] })
        ],
        m',
      )

  -- The snapshot of the first vCPU and of all regions. Registers that cannot be read are zeros.
  unfoldable pub snapshot_of : VCpu → List MemoryRegion → Machine K → VmSnapShot
  snapshot_of v regions m = record {
    regs = value_or (VCpu.get_regs kvm v m) zero_regs;
    sregs = value_or (VCpu.get_sregs kvm v m) zero_sregs;
    memory_regions = copy_regions regions m.memory;
  }

  -- A failed register call is reported, and the restore goes on.
  unfoldable pub restore_to : VCpu → List MemoryRegion → VmSnapShot → Machine K → Machine K
  restore_to v regions snap m =
      let m1 = (VCpu.set_regs kvm v snap.regs m).1 in
      let m2 = (VCpu.set_sregs kvm v snap.sregs m1).1 in
      record m2 { memory = restore_regions regions snap.memory_regions m2.memory }

  -- `vm.vcpus()[0]`: `none` stands for the undefined behaviour of an empty vector.
  unfoldable pub take_snap_shot : VirtualMachine → Machine K → Option VmSnapShot
  take_snap_shot vm m = elim vm.vcpus [
    | [] ↦ none
    | v ∷ _ ↦ some (snapshot_of v vm.memory_regions m)
  ]

  unfoldable pub restore_snapshot : VirtualMachine → VmSnapShot → Machine K → Option (Machine K)
  restore_snapshot vm snap m = elim vm.vcpus [
    | [] ↦ none
    | v ∷ _ ↦ some (restore_to v vm.memory_regions snap m)
  ]

  -- The single system calls on a VM.
  unfoldable pub set_irq_line : VirtualMachine → ℕ → ℕ → K → ErrorCode × K
  set_irq_line vm irq level k = let (r, k') = kvm.irq_line vm.fd irq level k in (error_code r, k')

  unfoldable pub create_irq_chip : VirtualMachine → K → ErrorCode × K
  create_irq_chip vm k = let (r, k') = kvm.create_irqchip vm.fd k in (error_code r, k')

  unfoldable pub create_pit2 : VirtualMachine → K → ErrorCode × K
  create_pit2 vm k = let (r, k') = kvm.create_pit2 vm.fd 0 k in (error_code r, k')

  unfoldable pub enable_emulation_exits : VirtualMachine → K → ErrorCode × K
  enable_emulation_exits vm k =
      let (r, k') = kvm.enable_cap vm.fd cap_exit_on_emulation_failure 1 k in (error_code r, k')

  -- The destructors of the elements of the two vectors.
  unfoldable pub release_vcpus : List VCpu → Machine K → Machine K
  release_vcpus [] m = m
  release_vcpus (v ∷ vs) m = release_vcpus vs (VCpu.release kvm v m)

  unfoldable pub release_regions : List MemoryRegion → Machine K → Machine K
  release_regions [] m = m
  release_regions (r ∷ rs) m = release_regions rs (MemoryRegion.release kvm r m)

  unfoldable pub close_vm : VirtualMachine → Machine K → Machine K
  close_vm vm m = set_kernel (VCpu.close_fd kvm vm.fd m.kernel) m

  -- The destructor: its body closes the VM, and then the members go, the last one first.
  unfoldable pub release : VirtualMachine → Machine K → Machine K
  unfolding close_vm release_vcpus release_regions
  release vm m = release_regions vm.memory_regions (release_vcpus vm.vcpus (close_vm vm m))

  -- The move assignment from another object: the vectors are assigned in the order of the members.
  unfoldable pub assign :
      VirtualMachine → VirtualMachine → Machine K → (VirtualMachine × VirtualMachine) × Machine K
  unfolding move close_vm release_vcpus release_regions
  assign self other m =
      (move other, release_vcpus self.vcpus (release_regions self.memory_regions (close_vm self m)))
