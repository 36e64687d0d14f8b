-- ===== src/Main/Runs/Fresh.antt =====
-- In which state each run of src/main.cpp starts.
use min_bp.Prelude.{ℕ, suc, ◌+◌, ◌==◌, ◌≡◌, refl, ap, ◌∙◌, List, [], ◌∷◌, some, if◌then◌else◌}
use min_bp.Prelude.Result.{ok, no_error}
use min_bp.Kvm.{Regs, Sregs, Machine, Kvm}
use min_bp.Memory.{Memory, poke}
use min_bp.VCpu.{VCpu}
use min_bp.VCpu
use min_bp.VCpu.Registers.{RegistersHold}
use min_bp.MemoryRegion.{MemoryRegion}
use min_bp.VirtualMachine.{VirtualMachine, VmSnapShot, take_snap_shot, restore_snapshot}
use min_bp.VirtualMachine.Snapshot.{is_inside, restore-take, registers-restore}
use min_bp.Main.Runs.{scancode, inject_scancode, restore_before, start_run}

poke_one : (a b : ℕ) (mem : Memory) (x : ℕ) → poke a (b ∷ []) mem x ≡ (if a == x then b else mem x)
unfolding poke
poke_one a b mem x = refl

module _ {K : Type 0} (kvm : Kvm K) where
  start_run-restored :
      (vm : VirtualMachine) (r : MemoryRegion) (rs : List MemoryRegion) (snap : VmSnapShot) (i : ℕ)
      (m m' : Machine K)
      → vm.memory_regions ≡ r ∷ rs
      → restore_before kvm vm snap i m ≡ some m'
      → start_run kvm vm snap i m
        ≡ some (record m' { memory = poke (r.host_addr + 0x2000) (scancode i ∷ []) m'.memory })
  unfolding start_run inject_scancode
  start_run-restored vm r rs snap i m m' has restored = rw (restored, start_run, has) refl

  -- The snapshot of `m`, restored in `later`: bytes and registers at once.
  restored_state :
      (laws : RegistersHold kvm) (vm : VirtualMachine) (v : VCpu) (vs : List VCpu)
      (m later : Machine K) (snap : VmSnapShot) (regs : Regs) (sregs : Sregs)
      → vm.vcpus ≡ v ∷ vs
      → take_snap_shot kvm vm m ≡ some snap
      → VCpu.get_regs kvm v m ≡ ok regs
      → VCpu.get_sregs kvm v m ≡ ok sregs
      → (VCpu.set_regs kvm v regs later).0 ≡ no_error
      → (VCpu.set_sregs kvm v sregs (VCpu.set_regs kvm v regs later).1).0 ≡ no_error
      → (m' : Machine K) × (restore_snapshot kvm vm snap later ≡ some m')
        × ((x : ℕ)
            → m'.memory x ≡ (if is_inside vm.memory_regions x then m.memory x else later.memory x))
        × (VCpu.get_regs kvm v m' ≡ ok regs)
        × (VCpu.get_sregs kvm v m' ≡ ok sregs)
  restored_state laws vm v vs m later snap regs sregs has taken read sread set sset =
      let (snap1, taken1, (m1, restored1, bytes)) = restore-take kvm vm v vs m later has in
      let (snap2, taken2, (m2, restored2, got, sgot)) =
        registers-restore kvm laws vm v vs m later regs sregs has read sread set sset in
      let same1 : snap1 ≡ snap = cc in
      let same2 : snap2 ≡ snap = cc in let same : m1 ≡ m2 = cc in (m1, cc, bytes, cc, cc)

  registers_of_kernel :
      (v : VCpu) (mem : Memory) (m : Machine K)
      → (VCpu.get_regs kvm v (record m { memory = mem }) ≡ VCpu.get_regs kvm v m)
        × (VCpu.get_sregs kvm v (record m { memory = mem }) ≡ VCpu.get_sregs kvm v m)
  unfolding VCpu.get_regs VCpu.get_sregs
  registers_of_kernel v mem m = (refl, refl)

  -- Let the snapshot be that of the machine `m`, in which the first vCPU's registers can be read. A run
  -- but the first that is to start in `later`, whatever has run before it, starts with that vCPU's old
  -- registers, if the kernel accepts them, with the run's scancode at offset 0x2000 of the first
  -- region, with every other byte of the regions as in `m`, and with all bytes outside as in `later`.
  pub start_run_fresh :
      (laws : RegistersHold kvm) (vm : VirtualMachine) (v : VCpu) (vs : List VCpu)
      (r : MemoryRegion) (rs : List MemoryRegion) (m later : Machine K) (snap : VmSnapShot)
      (regs : Regs) (sregs : Sregs) (i : ℕ)
      → vm.vcpus ≡ v ∷ vs
      → vm.memory_regions ≡ r ∷ rs
      → take_snap_shot kvm vm m ≡ some snap
      → VCpu.get_regs kvm v m ≡ ok regs
      → VCpu.get_sregs kvm v m ≡ ok sregs
      → (VCpu.set_regs kvm v regs later).0 ≡ no_error
      → (VCpu.set_sregs kvm v sregs (VCpu.set_regs kvm v regs later).1).0 ≡ no_error
      → (m' : Machine K) × (start_run kvm vm snap (suc i) later ≡ some m')
        × ((x : ℕ)
            → m'.memory x ≡ (
                if r.host_addr + 0x2000 == x
                then scancode (suc i)
                else if is_inside vm.memory_regions x
                then m.memory x
                else later.memory x))
        × (VCpu.get_regs kvm v m' ≡ ok regs)
        × (VCpu.get_sregs kvm v m' ≡ ok sregs)
  unfolding restore_before
  start_run_fresh laws vm v vs r rs m later snap regs sregs i has_vcpu has_region taken read sread
        set sset =
      let (m1, restored, bytes, got, sgot) =
        restored_state laws vm v vs m later snap regs sregs has_vcpu taken read sread set sset in
      let mem = poke (r.host_addr + 0x2000) (scancode (suc i) ∷ []) m1.memory in
      let kept = registers_of_kernel v mem m1 in
      (
        record m1 { memory = mem },
        start_run-restored vm r rs snap (suc i) later m1 has_region restored,
        λ x.
            poke_one (r.host_addr + 0x2000) (scancode (suc i)) m1.memory x
            ∙ ap (λ (b : ℕ). if r.host_addr + 0x2000 == x then scancode (suc i) else b) (bytes x),
        kept.0 ∙ got,
        kept.1 ∙ sgot,
      )
