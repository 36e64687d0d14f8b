-- ===== src/Main/Upkeep/Logged.antt =====
-- The log of the agent over the steps and the runs of src/main.cpp.
use min_bp.Prelude.{
  ℕ, ◌==◌, refl, ap, Bool, true, false, Option, none, some, if◌then◌else◌, subst, inl, inr,
}
use min_bp.Prelude.Result.{Result-cases}
use min_bp.Event.{EventType}
use min_bp.Kvm.{Machine, Kvm}
use min_bp.VCpu.{ExitReason}
use min_bp.VCpu
use min_bp.VirtualMachine.{VirtualMachine, VmSnapShot}
use min_bp.CpuidHandler.{CpuidHandler}
use min_bp.IoPortHandler.{IoPortHandler}
use min_bp.MmioHandler.{MmioHandler}
use min_bp.InstructionTrapper.{
  RunResult, Session, publish_to, call_io, call_mmio, call_cpuid, exit_io, exit_mmio, exit_unknown,
  exit_internal_error, dispatch_exit, after_run, count_exit, step, kvm_run, error_emulation,
}
use min_bp.InstructionTrapper.EventData.{cpuid_payload}
use min_bp.InstructionTrapper.Loop.{Continues, Ends, here, further, by_limit, by_step}
use min_bp.Main.State.{ProgramState}
use min_bp.Main.Device.Protocol.{handle-agent, handle-printed}
use min_bp.Main.Callbacks.{Stable, handle-IsKeyboard, handle-cpuid}
use min_bp.Main.Runs.Series.{Series, over, stopped, followed}
use min_bp.Main.Upkeep.{
  Kept, CpuidKept, IoKept, MmioKept, call_io-Kept, call_mmio-Kept, call_cpuid-Kept, after_run-Kept,
  count_exit-Kept,
}
use min_bp.Main.Upkeep.Steps.{step-Kept, Continues-Kept, Ends-Kept, started-Kept, run-kernel}
use min_bp.Main.Upkeep.Events.{Adds, no_event-Adds, then-Adds, publish_to-Adds}

module _ {K : Type 0} (kvm : Kvm K) {P : K → Type 0} (stable : Stable kvm P)
    (vm : VirtualMachine) where
  call_io-Adds :
      (o : Option (IoPortHandler ProgramState)) (s : Session K ProgramState)
      → IoKept o
      → Adds kvm s (call_io kvm o s).1
  unfolding call_io
  call_io-Adds none s h = no_event-Adds kvm s s refl refl refl refl
  call_io-Adds (some h) s b =
      no_event-Adds kvm s _
        (ap (λ (u : ProgramState). u.agent) (handle-IsKeyboard h (kvm_run s) s.world.user b).1)
        (ap (λ (u : ProgramState). u.printed) (handle-IsKeyboard h (kvm_run s) s.world.user b).1)
        refl refl

  call_mmio-Adds :
      (o : Option (MmioHandler ProgramState)) (s : Session K ProgramState)
      → MmioKept o
      → Adds kvm s (call_mmio kvm o s).1
  unfolding call_mmio
  call_mmio-Adds none s h = no_event-Adds kvm s s refl refl refl refl
  call_mmio-Adds (some h) s b =
      no_event-Adds kvm s _ (handle-agent h (kvm_run s).mmio s.world.user b)
        (handle-printed h (kvm_run s).mmio s.world.user b) refl refl

  call_cpuid-Adds :
      (o : Option (CpuidHandler ProgramState)) (s : Session K ProgramState)
      → CpuidKept o
      → P s.world.machine.kernel
      → Adds kvm s (call_cpuid kvm o s).1
  unfolding call_cpuid
  call_cpuid-Adds none s h p = no_event-Adds kvm s s refl refl refl refl
  call_cpuid-Adds (some h) s b p =
      no_event-Adds kvm s _
        (ap (λ (u : ProgramState). u.agent)
          (handle-cpuid kvm stable h s.trapper.vcpu s.world b p).1)
        (ap (λ (u : ProgramState). u.printed)
          (handle-cpuid kvm stable h s.trapper.vcpu s.world b p).1)
        refl refl

  choice :
      (s : Session K ProgramState) (b : Bool) (x y : RunResult × Session K ProgramState)
      → Adds kvm s x.1
      → Adds kvm s y.1
      → Adds kvm s (if b then x else y).1
  choice s true x y p q = p
  choice s false x y p q = q

  dispatch_exit-Adds :
      (reason : ExitReason) (s : Session K ProgramState)
      → Kept kvm P vm s
      → Adds kvm s (dispatch_exit kvm reason s).1
  unfolding dispatch_exit exit_io exit_mmio exit_unknown exit_internal_error
  dispatch_exit-Adds ExitReason.hlt s k = publish_to-Adds kvm _ _ _ s k.bus
  dispatch_exit-Adds ExitReason.shutdown s k = publish_to-Adds kvm _ _ _ s k.bus
  dispatch_exit-Adds ExitReason.io s k =
      let called = call_io-Adds s.trapper.io s k.io in
      choice s _ _ _
        (then-Adds kvm s _ _ called
          (publish_to-Adds kvm _ _ _ _ (call_io-Kept kvm stable vm s.trapper.io s k.io k).bus))
        called
  dispatch_exit-Adds ExitReason.mmio s k =
      let called = call_mmio-Adds s.trapper.mmio s k.mmio in
      choice s _ _ _
        (then-Adds kvm s _ _ called (
          publish_to-Adds kvm _ _ _ _ (call_mmio-Kept kvm stable vm s.trapper.mmio s k.mmio k).bus))
        called
  dispatch_exit-Adds ExitReason.unknown s k =
      let (done, s') = call_cpuid kvm s.trapper.cpuid s in
      let called = call_cpuid-Adds s.trapper.cpuid s k.cpuid k.kernel in
      choice s ((kvm_run s).hardware_exit_reason == 0)
        (if done then (RunResult.continue, s') else (RunResult.error, s')) (RunResult.continue, s)
        (choice s done (RunResult.continue, s') (RunResult.error, s') called called)
        (no_event-Adds kvm s s refl refl refl refl)
  dispatch_exit-Adds ExitReason.internal_error s k =
      let (done, s') = call_cpuid kvm s.trapper.cpuid s in
      let called = call_cpuid-Adds s.trapper.cpuid s k.cpuid k.kernel in
      let told =
        publish_to kvm s'.trapper.dispatch EventType.cpuid_access
          (cpuid_payload (VCpu.get_regs kvm s'.trapper.vcpu s'.world.machine)) true s' in
      choice s ((kvm_run s).suberror == error_emulation)
        (if done then (RunResult.continue, told) else (RunResult.error, s')) (RunResult.error, s)
        (choice s done (RunResult.continue, told) (RunResult.error, s')
          (then-Adds kvm s _ _ called (
            publish_to-Adds kvm _ _ _ s'
              (call_cpuid-Kept kvm stable vm s.trapper.cpuid s k.cpuid k).bus))
          called)
        (no_event-Adds kvm s s refl refl refl refl)
  dispatch_exit-Adds _ s k = no_event-Adds kvm s s refl refl refl refl

  step-Adds : (s : Session K ProgramState) → Kept kvm P vm s → Adds kvm s (step kvm s).1
  unfolding step
  step-Adds s k =
      let m = (VCpu.run kvm s.trapper.vcpu s.world.machine).1 in
      let ran = run-kernel kvm stable vm s.trapper.vcpu s.world.machine k.kernel in
      let counted =
        count_exit-Kept kvm stable vm (after_run kvm s m)
          (after_run-Kept kvm stable vm s m ran k) in
      let nothing = no_event-Adds kvm s (after_run kvm s m) refl refl refl refl in
      let one_exit = no_event-Adds kvm s (count_exit kvm (after_run kvm s m)) refl refl refl refl in
      elim (Result-cases (VCpu.run kvm s.trapper.vcpu s.world.machine).0) [
        | inr (x, e) ↦ rw (e, step) nothing
        | inl (reason, e) ↦
            rw (e, step) (then-Adds kvm s _ _ one_exit (dispatch_exit-Adds reason _ counted))
      ]

  Continues-Adds :
      {n : ℕ} {s t : Session K ProgramState} → Continues kvm n s t → Kept kvm P vm s → Adds kvm s t
  Continues-Adds (here s) k = no_event-Adds kvm s s refl refl refl refl
  Continues-Adds (further {s = s} c cs) k =
      then-Adds kvm s _ _ (step-Adds s k) (Continues-Adds cs (step-Kept kvm stable vm s k))

  Ends-Adds :
      {limit i : ℕ} {s u : Session K ProgramState} {r : RunResult}
      → Ends kvm limit i s r u
      → Kept kvm P vm s
      → Adds kvm s u
  Ends-Adds (by_limit n p e cs) k = Continues-Adds cs k
  Ends-Adds {s = s} (by_step {t = t} n l cs e d) k = then-Adds kvm s t _ (Continues-Adds cs k) (
      subst (λ (r : RunResult × Session K ProgramState). Adds kvm t r.1) e
        (step-Adds t (Continues-Kept kvm stable vm cs k)))

  started-Adds :
      (s u : Session K ProgramState) (m : Machine K) → Adds kvm (after_run kvm s m) u → Adds kvm s u
  started-Adds s u m a =
      then-Adds kvm s (after_run kvm s m) u
        (no_event-Adds kvm s (after_run kvm s m) refl refl refl refl) a

  -- Over any series of runs of the program, whatever the guest does, the agent's log grows by exactly
  -- the events that the other subscriber, the logger, prints, unchanged, each once and in the same
  -- order: the dispatcher's count grows by their number, wrapped at 2 ^ 64, and all carry the number
  -- of the one vCPU, which stays. The restoring
  -- of the snapshot between the runs takes no entry back. A log without dumps that can be read back from
  -- its file stays one, if the clock, the RIP and the vCPU's number fit 64 bits.
  pub Series-Adds :
      {snap : VmSnapShot} {n i status : ℕ} {s t : Session K ProgramState}
      → Series kvm snap n i s status t
      → Kept kvm P vm s
      → Adds kvm s t
  Series-Adds (over i s) k = no_event-Adds kvm s s refl refl refl refl
  Series-Adds {snap = snap} (stopped {i = i} {s = s} {u = u} m started ends) k =
      started-Adds s u m (Ends-Adds ends (started-Kept kvm stable vm snap i s m started k))
  Series-Adds {snap = snap} (followed {i = i} {s = s} {u = u} {t = t} m started ends d rest) k =
      let ran = started-Kept kvm stable vm snap i s m started k in
      then-Adds kvm s u t (started-Adds s u m (Ends-Adds ends ran))
        (Series-Adds rest (Ends-Kept kvm stable vm ends ran))
