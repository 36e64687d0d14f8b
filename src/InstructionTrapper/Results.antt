-- ===== src/InstructionTrapper/Results.antt =====
-- The result of each exit in src/InstructionTrapper.cpp, and the handler that no exit reaches.
use min_bp.Prelude.{
  ◌==◌, ◌≡◌, ◌≢◌, ◌↔◌, refl, ◌⊎◌, inl, inr, Bool, true, false, Option, none, some, if◌then◌else◌,
  arith,
}
use min_bp.Prelude.Result.{Result-cases}
use min_bp.Event.{EventType, EventPayload}
use min_bp.Kvm.{World, Kvm}
use min_bp.VCpu
use min_bp.VCpu.{VCpu, ExitReason}
use min_bp.CpuidHandler.{CpuidHandler}
use min_bp.IoPortHandler.{IoPortHandler}
use min_bp.IoPortHandler
use min_bp.MsrHandler.{MsrHandler}
use min_bp.MmioHandler.{MmioHandler}
use min_bp.EventDispatcher.{EventDispatcher}
use min_bp.InstructionTrapper.{
  RunResult, Session, error_emulation, kvm_run, publish_to, call_io, call_mmio, call_cpuid, exit_io,
  exit_mmio, exit_unknown, exit_internal_error, dispatch_exit, step,
}

module _ {K U : Type 0} (kvm : Kvm K) where
  call_io_done : (o : Option (IoPortHandler U)) (s : Session K U) → (call_io kvm o s).0 ≡ true
  unfolding call_io IoPortHandler.handle
  call_io_done none s = refl
  call_io_done (some h) s = ground arith

  -- A guest that halts, and it alone, gives `Halt`; a shutdown, and it alone, gives `Shutdown`.
  pub dispatch_exit_stops :
      (reason : ExitReason) (s : Session K U)
      → (((dispatch_exit kvm reason s).0 ≡ RunResult.halt) ↔ (reason ≡ ExitReason.hlt))
        × (((dispatch_exit kvm reason s).0 ≡ RunResult.shutdown) ↔ (reason ≡ ExitReason.shutdown))
  unfolding dispatch_exit exit_io exit_mmio exit_unknown exit_internal_error
  dispatch_exit_stops ExitReason.hlt s = ground arith
  dispatch_exit_stops _ s = ground arith

  -- An exit gives `Error` exactly when it is an access by MMIO that a handler is there for and
  -- refuses, a CPUID exit (of unknown reason 0, or of a failed emulation) that a handler is there for
  -- and fails, or an internal error other than a failed emulation. A port access never does.
  pub dispatch_exit_errs :
      (reason : ExitReason) (s : Session K U)
      → ((dispatch_exit kvm reason s).0 ≡ RunResult.error) ↔ (
          ((reason ≡ ExitReason.mmio) × ((call_mmio kvm s.trapper.mmio s).0 ≡ false))
          ⊎ ((reason ≡ ExitReason.unknown)
              × ((kvm_run s).hardware_exit_reason ≡ 0)
              × ((call_cpuid kvm s.trapper.cpuid s).0 ≡ false))
          ⊎ ((reason ≡ ExitReason.internal_error)
              × (((kvm_run s).suberror ≢ error_emulation)
                  ⊎ ((call_cpuid kvm s.trapper.cpuid s).0 ≡ false))))
  unfolding dispatch_exit exit_io exit_mmio exit_unknown exit_internal_error
  dispatch_exit_errs ExitReason.io s = ground (arith, call_io_done s.trapper.io s)
  dispatch_exit_errs _ s = ground arith

  -- The trapper with another MSR handler.
  abbrev pub with_msr : Option (MsrHandler U) → Session K U → Session K U
  with_msr o s = record s { trapper = record s.trapper { msr = o } }

  abbrev pub with_msr_result :
      Option (MsrHandler U) → RunResult × Session K U → RunResult × Session K U
  with_msr_result o r = (r.0, with_msr o r.1)

  publish_to-with_msr :
      (o : Option (MsrHandler U)) (d : Option (EventDispatcher (World K U))) (type : EventType)
      (payload : EventPayload) (with_rip : Bool) (s : Session K U)
      → publish_to kvm d type payload with_rip (with_msr o s)
        ≡ with_msr o (publish_to kvm d type payload with_rip s)
  unfolding publish_to
  publish_to-with_msr o none type payload with_rip s = refl
  publish_to-with_msr o (some d) type payload with_rip s = refl

  call_io-with_msr :
      (o : Option (MsrHandler U)) (h : Option (IoPortHandler U)) (s : Session K U)
      → call_io kvm h (with_msr o s) ≡ ((call_io kvm h s).0, with_msr o (call_io kvm h s).1)
  unfolding call_io
  call_io-with_msr o none s = refl
  call_io-with_msr o (some h) s = refl

  call_mmio-with_msr :
      (o : Option (MsrHandler U)) (h : Option (MmioHandler U)) (s : Session K U)
      → call_mmio kvm h (with_msr o s) ≡ ((call_mmio kvm h s).0, with_msr o (call_mmio kvm h s).1)
  unfolding call_mmio
  call_mmio-with_msr o none s = refl
  call_mmio-with_msr o (some h) s = refl

  call_cpuid-with_msr :
      (o : Option (MsrHandler U)) (h : Option (CpuidHandler U)) (s : Session K U)
      → call_cpuid kvm h (with_msr o s)
        ≡ ((call_cpuid kvm h s).0, with_msr o (call_cpuid kvm h s).1)
  unfolding call_cpuid
  call_cpuid-with_msr o none s = refl
  call_cpuid-with_msr o (some h) s = refl

  if-with_msr :
      (o : Option (MsrHandler U)) (b : Bool) (x y : RunResult × Session K U)
      → (if b then with_msr_result o x else with_msr_result o y)
        ≡ with_msr_result o (if b then x else y)
  if-with_msr o true x y = refl
  if-with_msr o false x y = refl

  if-if-with_msr :
      (o : Option (MsrHandler U)) (b c : Bool) (x y z : RunResult × Session K U)
      → (if b
          then (if c then with_msr_result o x else with_msr_result o y)
          else with_msr_result o z)
        ≡ with_msr_result o (if b then (if c then x else y) else z)
  if-if-with_msr o true c x y z = if-with_msr o c x y
  if-if-with_msr o false c x y z = refl

  exit_io-with_msr :
      (o : Option (MsrHandler U)) (s : Session K U)
      → exit_io kvm (with_msr o s) ≡ with_msr_result o (exit_io kvm s)
  unfolding exit_io
  exit_io-with_msr o s =
      rw (call_io-with_msr o s.trapper.io s, publish_to-with_msr o)
        (if-with_msr o (call_io kvm s.trapper.io s).0 _ _)

  exit_mmio-with_msr :
      (o : Option (MsrHandler U)) (s : Session K U)
      → exit_mmio kvm (with_msr o s) ≡ with_msr_result o (exit_mmio kvm s)
  unfolding exit_mmio
  exit_mmio-with_msr o s =
      rw (call_mmio-with_msr o s.trapper.mmio s, publish_to-with_msr o)
        (if-with_msr o (call_mmio kvm s.trapper.mmio s).0 _ _)

  exit_unknown-with_msr :
      (o : Option (MsrHandler U)) (s : Session K U)
      → exit_unknown kvm (with_msr o s) ≡ with_msr_result o (exit_unknown kvm s)
  unfolding exit_unknown
  exit_unknown-with_msr o s = rw (call_cpuid-with_msr o s.trapper.cpuid s) (
      if-if-with_msr o ((kvm_run s).hardware_exit_reason == 0) (call_cpuid kvm s.trapper.cpuid s).0
        _ _ _)

  exit_internal_error-with_msr :
      (o : Option (MsrHandler U)) (s : Session K U)
      → exit_internal_error kvm (with_msr o s) ≡ with_msr_result o (exit_internal_error kvm s)
  unfolding exit_internal_error
  exit_internal_error-with_msr o s =
      rw (call_cpuid-with_msr o s.trapper.cpuid s, publish_to-with_msr o)
        (if-if-with_msr o ((kvm_run s).suberror == error_emulation)
          (call_cpuid kvm s.trapper.cpuid s).0 _ _ _)

  dispatch_exit-with_msr :
      (o : Option (MsrHandler U)) (reason : ExitReason) (s : Session K U)
      → dispatch_exit kvm reason (with_msr o s) ≡ with_msr_result o (dispatch_exit kvm reason s)
  unfolding dispatch_exit exit_io exit_mmio exit_unknown exit_internal_error
  dispatch_exit-with_msr o ExitReason.hlt s = rw publish_to-with_msr
  dispatch_exit-with_msr o ExitReason.shutdown s = rw publish_to-with_msr
  dispatch_exit-with_msr o ExitReason.io s = exit_io-with_msr o s
  dispatch_exit-with_msr o ExitReason.mmio s = exit_mmio-with_msr o s
  dispatch_exit-with_msr o ExitReason.unknown s = exit_unknown-with_msr o s
  dispatch_exit-with_msr o ExitReason.internal_error s = exit_internal_error-with_msr o s
  dispatch_exit-with_msr o _ s = refl

  -- No exit reaches the MSR handler: a step has the same result and the same effect on the world and
  -- on the other parts of the trapper whichever MSR handler there is, if any, and leaves that one
  -- as it was.
  pub step-with_msr :
      (o : Option (MsrHandler U)) (s : Session K U)
      → step kvm (with_msr o s) ≡ with_msr_result o (step kvm s)
  unfolding step
  step-with_msr o s = elim (Result-cases (VCpu.run kvm s.trapper.vcpu s.world.machine).0) [
    | inl (reason, e) ↦ rw (e, step) (dispatch_exit-with_msr o reason _)
    | inr (_, e) ↦ rw (e, step) refl
  ]
