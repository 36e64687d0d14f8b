-- ===== src/Main/Upkeep/Steps.antt =====
-- What stays as it is over the steps and the runs of src/main.cpp.
use min_bp.Prelude.{ℕ, zero, suc, ◌≡◌, List, [], ◌∷◌, Option, none, some, subst, inl, inr}
use min_bp.Prelude.Result.{Result-cases}
use min_bp.Kvm.{Machine, Kvm}
use min_bp.Memory.{Memory}
use min_bp.MemoryRegion.{MemoryRegion}
use min_bp.VCpu.{VCpu}
use min_bp.VCpu
use min_bp.VirtualMachine.{VirtualMachine, VmSnapShot, restore_snapshot, restore_to}
use min_bp.InstructionTrapper.{RunResult, Session, after_run, count_exit, step}
use min_bp.InstructionTrapper.Loop.{Continues, Ends, here, further, by_limit, by_step}
use min_bp.Main.State.{ProgramState}
use min_bp.Main.Callbacks.{Stable}
use min_bp.Main.Runs.{inject_scancode, restore_before, scancode, start_run}
use min_bp.Main.Runs.Series.{Series, over, stopped, followed}
use min_bp.Main.Upkeep.{Kept, dispatch_exit-Kept, after_run-Kept, count_exit-Kept}

module _ {K : Type 0} (kvm : Kvm K) {P : K → Type 0} (stable : Stable kvm P)
    (vm : VirtualMachine) where
  pub run-kernel : (v : VCpu) (m : Machine K) → P m.kernel → P (VCpu.run kvm v m).1.kernel
  unfolding VCpu.run
  run-kernel v m p = stable.run v.fd m p

  pub step-Kept : (s : Session K ProgramState) → Kept kvm P vm s → Kept kvm P vm (step kvm s).1
  unfolding step
  step-Kept s k =
      let ran = run-kernel s.trapper.vcpu s.world.machine k.kernel in
      let m = (VCpu.run kvm s.trapper.vcpu s.world.machine).1 in
      let after = after_run-Kept kvm stable vm s m ran k in
      elim (Result-cases (VCpu.run kvm s.trapper.vcpu s.world.machine).0) [
        | inr (x, e) ↦ rw (e, step) after
        | inl (reason, e) ↦
            rw (e, step)
              (dispatch_exit-Kept kvm stable vm reason (count_exit kvm (after_run kvm s m))
                (count_exit-Kept kvm stable vm (after_run kvm s m) after))
      ]

  pub Continues-Kept :
      {n : ℕ} {s t : Session K ProgramState}
      → Continues kvm n s t
      → Kept kvm P vm s
      → Kept kvm P vm t
  Continues-Kept (here s) k = k
  Continues-Kept (further {s = s} c cs) k = Continues-Kept cs (step-Kept s k)

  pub Ends-Kept :
      {limit i : ℕ} {s u : Session K ProgramState} {r : RunResult}
      → Ends kvm limit i s r u
      → Kept kvm P vm s
      → Kept kvm P vm u
  Ends-Kept (by_limit n p e cs) k = Continues-Kept cs k
  Ends-Kept (by_step {t = t} n l cs e d) k =
      subst (λ (r : RunResult × Session K ProgramState). Kept kvm P vm r.1) e
        (step-Kept t (Continues-Kept cs k))

  restore_to-kernel :
      (v : VCpu) (rs : List MemoryRegion) (snap : VmSnapShot) (m : Machine K)
      → P m.kernel
      → P (restore_to kvm v rs snap m).kernel
  unfolding restore_to VCpu.set_regs VCpu.set_sregs
  restore_to-kernel v rs snap m p =
      stable.set_sregs v.fd snap.sregs _ (stable.set_regs v.fd snap.regs m.kernel p)

  -- A property of the machine that an optional one has, if it is there.
  abbrev Holds : Option (Machine K) → Type 0
  Holds none = Unit {0}
  Holds (some m) = P m.kernel

  restore_snapshot-Holds :
      (snap : VmSnapShot) (m : Machine K) → P m.kernel → Holds (restore_snapshot kvm vm snap m)
  unfolding restore_snapshot
  restore_snapshot-Holds snap m p = at_first vm.vcpus
    where
      at_first :
          (vs : List VCpu)
          → Holds (elim vs [ [] ↦ none | v ∷ _ ↦ some (restore_to kvm v vm.memory_regions snap m) ])
      at_first [] = tt
      at_first (v ∷ vs) = restore_to-kernel v vm.memory_regions snap m p

  restore_before-Holds :
      (snap : VmSnapShot) (i : ℕ) (m : Machine K)
      → P m.kernel
      → Holds (restore_before kvm vm snap i m)
  unfolding restore_before
  restore_before-Holds snap zero m p = p
  restore_before-Holds snap (suc i) m p = restore_snapshot-Holds snap m p

  start_run-Holds :
      (snap : VmSnapShot) (i : ℕ) (m : Machine K) → P m.kernel → Holds (start_run kvm vm snap i m)
  unfolding start_run
  start_run-Holds snap i m p =
      injected (restore_before kvm vm snap i m) (restore_before-Holds snap i m p)
    where
      placed :
          (m' : Machine K) (o : Option Memory)
          → P m'.kernel
          → Holds (elim o [ none ↦ none | some mem ↦ some (record m' { memory = mem }) ])
      placed m' none q = tt
      placed m' (some mem) q = q

      injected :
          (o : Option (Machine K))
          → Holds o
          → Holds (elim o [
            | none ↦ none
            | some m' ↦ elim (inject_scancode vm.memory_regions (scancode i) m'.memory) [
              | none ↦ none
              | some mem ↦ some (record m' { memory = mem })
            ]
          ])
      injected none h = tt
      injected (some m') h = placed m' (inject_scancode vm.memory_regions (scancode i) m'.memory) h

  pub started-Kept :
      (snap : VmSnapShot) (i : ℕ) (s : Session K ProgramState) (m : Machine K)
      → start_run kvm s.world.user.vm snap i s.world.machine ≡ some m
      → Kept kvm P vm s
      → Kept kvm P vm (after_run kvm s m)
  started-Kept snap i s m e k =
      let same : start_run kvm vm snap i s.world.machine ≡ some m =
        subst (λ (v : VirtualMachine). start_run kvm v snap i s.world.machine ≡ some m) k.same_vm
          e in
      let held = subst Holds same (start_run-Holds snap i s.world.machine k.kernel) in
      after_run-Kept kvm stable vm s m held k

  -- Let a property of the kernel's state be kept by running the guest, by setting registers and by
  -- reading the clock. Through any series of runs from a session of the program with that property,
  -- whatever the guest does, the property stays, the VM stays the one that it was, and the handlers
  -- and the dispatcher keep the program's callbacks and subscribers.
  pub Series-Kept :
      {snap : VmSnapShot} {n i status : ℕ} {s t : Session K ProgramState}
      → Series kvm snap n i s status t
      → Kept kvm P vm s
      → Kept kvm P vm t
  Series-Kept (over i s) k = k
  Series-Kept {snap = snap} (stopped {i = i} {s = s} m started ends) k =
      Ends-Kept ends (started-Kept snap i s m started k)
  Series-Kept {snap = snap} (followed {i = i} {s = s} m started ends d rest) k =
      Series-Kept rest (Ends-Kept ends (started-Kept snap i s m started k))
