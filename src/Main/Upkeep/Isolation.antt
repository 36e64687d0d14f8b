-- ===== src/Main/Upkeep/Isolation.antt =====
-- What a run of src/main.cpp sees of the runs before it.
use min_bp.Prelude.{ℕ, suc, ◌+◌, ◌==◌, ◌≡◌, List, ◌∷◌, some, if◌then◌else◌, subst, sym}
use min_bp.Prelude.Result.{ok, no_error}
use min_bp.Kvm.{Regs, Sregs, Machine, Kvm}
use min_bp.VCpu.{VCpu}
use min_bp.VCpu
use min_bp.VCpu.Registers.{RegistersHold}
use min_bp.MemoryRegion.{MemoryRegion}
use min_bp.VirtualMachine.{VirtualMachine, VmSnapShot, take_snap_shot}
use min_bp.VirtualMachine.Snapshot.{is_inside}
use min_bp.InstructionTrapper.{Session}
use min_bp.Main.State.{ProgramState}
use min_bp.Main.Callbacks.{Stable}
use min_bp.Main.Runs.{scancode, start_run}
use min_bp.Main.Runs.Fresh.{start_run_fresh}
use min_bp.Main.Runs.Series.{Series}
use min_bp.Main.Upkeep.{Kept}
use min_bp.Main.Upkeep.Steps.{Series-Kept}

abbrev pub Anything : {K : Type 0} → K → Type 0
Anything k = Unit {0}

module _ {K : Type 0} (kvm : Kvm K) where
  pub Anything-Stable : Stable kvm Anything
  Anything-Stable = record {
    run = λ fd m p. tt;
    now = λ k p. tt;
    set_regs = λ fd regs k p. tt;
    set_sregs = λ fd sregs k p. tt;
  }

  -- Let the snapshot be that of the machine `m`, in which the registers of the VM's first vCPU can be read,
  -- and let any number of runs of the program have ended without an error. Whatever the guest did in
  -- them, the next run, if the kernel accepts the registers, starts with the old registers of that
  -- vCPU, with the run's scancode at offset 0x2000 of the first region, and with every other byte of
  -- the VM's regions as in `m`; the bytes outside the regions stay.
  pub next_run_fresh :
      (laws : RegistersHold kvm) (vm : VirtualMachine) (v : VCpu) (vs : List VCpu)
      (r : MemoryRegion) (rs : List MemoryRegion) (m : Machine K) (snap : VmSnapShot) (regs : Regs)
      (sregs : Sregs) (n i next : ℕ) (s t : Session K ProgramState)
      → vm.vcpus ≡ v ∷ vs
      → vm.memory_regions ≡ r ∷ rs
      → take_snap_shot kvm vm m ≡ some snap
      → VCpu.get_regs kvm v m ≡ ok regs
      → VCpu.get_sregs kvm v m ≡ ok sregs
      → Kept kvm Anything vm s
      → Series kvm snap n i s 0 t
      → let later = t.world.machine in
        (VCpu.set_regs kvm v regs later).0 ≡ no_error
        → (VCpu.set_sregs kvm v sregs (VCpu.set_regs kvm v regs later).1).0 ≡ no_error
        → (m' : Machine K) × (start_run kvm t.world.user.vm snap (suc next) later ≡ some m')
          × ((x : ℕ)
              → m'.memory x ≡ (
                  if r.host_addr + 0x2000 == x
                  then scancode (suc next)
                  else if is_inside vm.memory_regions x
                  then m.memory x
                  else later.memory x))
          × (VCpu.get_regs kvm v m' ≡ ok regs)
          × (VCpu.get_sregs kvm v m' ≡ ok sregs)
  next_run_fresh laws vm v vs r rs m snap regs sregs n i next s t has_vcpu has_region taken read
        sread k series set sset =
      let kept = Series-Kept kvm Anything-Stable vm series k in
      let (m', started, bytes, got, sgot) =
        start_run_fresh kvm laws vm v vs r rs m t.world.machine snap regs sregs next has_vcpu
          has_region taken read sread set sset in
      (
        m',
        subst (λ (u : VirtualMachine). start_run kvm u snap (suc next) t.world.machine ≡ some m')
            (sym kept.same_vm) started,
        bytes,
        got,
        sgot,
      )
