-- ===== src/InstructionTrapper/Events.antt =====
-- What src/InstructionTrapper.cpp counts, and the events that it publishes.
use min_bp.Prelude.{
  ℕ, ◌+◌, ◌%◌, ◌^◌, ◌<◌, ◌==◌, ◌≡◌, refl, inl, inr, Bool, true, false, Option, none, some,
  if◌then◌else◌, arith,
}
use min_bp.Prelude.Result.{ok, err, Result-cases}
use min_bp.Event.{EventType, EventPayload}
use min_bp.Kvm.{World, Kvm}
use min_bp.VCpu
use min_bp.VCpu.{VCpu, ExitReason}
use min_bp.CpuidHandler.{CpuidHandler}
use min_bp.IoPortHandler.{IoPortHandler}
use min_bp.MmioHandler.{MmioHandler}
use min_bp.EventDispatcher.{EventDispatcher}
use min_bp.InstructionTrapper.{
  RunResult, Session, error_emulation, kvm_run, publish_to, call_io, call_mmio, call_cpuid, exit_io,
  exit_mmio, exit_unknown, exit_internal_error, dispatch_exit, step,
}
use min_bp.InstructionTrapper.Loop.{Continues}

module _ {K U : Type 0} (kvm : Kvm K) where
  -- The parts of a session that no exit changes.
  record Steady (s t : Session K U) : Type 0 where
    vcpu : t.trapper.vcpu ≡ s.trapper.vcpu
    exit_count : t.trapper.exit_count ≡ s.trapper.exit_count

  publish_to-Steady :
      (d : Option (EventDispatcher (World K U))) (type : EventType) (payload : EventPayload)
      (with_rip : Bool) (s t : Session K U)
      → Steady s t
      → Steady s (publish_to kvm d type payload with_rip t)
  unfolding publish_to
  publish_to-Steady none type payload with_rip s t h = h
  publish_to-Steady (some d) type payload with_rip s t h = record {
    vcpu = h.vcpu;
    exit_count = h.exit_count;
  }

  call_io-Steady : (h : Option (IoPortHandler U)) (s : Session K U) → Steady s (call_io kvm h s).1
  unfolding call_io
  call_io-Steady none s = record { vcpu = refl; exit_count = refl }
  call_io-Steady (some h) s = record { vcpu = refl; exit_count = refl }

  call_mmio-Steady : (h : Option (MmioHandler U)) (s : Session K U) → Steady s (call_mmio kvm h s).1
  unfolding call_mmio
  call_mmio-Steady none s = record { vcpu = refl; exit_count = refl }
  call_mmio-Steady (some h) s = record { vcpu = refl; exit_count = refl }

  call_cpuid-Steady :
      (h : Option (CpuidHandler U)) (s : Session K U) → Steady s (call_cpuid kvm h s).1
  unfolding call_cpuid
  call_cpuid-Steady none s = record { vcpu = refl; exit_count = refl }
  call_cpuid-Steady (some h) s = record { vcpu = refl; exit_count = refl }

  record EndsSteady (s : Session K U) (r : RunResult × Session K U) : Type 0 where
    session : Steady s r.1

  EndsSteady-if :
      (b : Bool) {s : Session K U} {x y : RunResult × Session K U}
      → EndsSteady s x
      → EndsSteady s y
      → EndsSteady s (if b then x else y)
  EndsSteady-if true p q = p
  EndsSteady-if false p q = q

  same : (r : RunResult) (s : Session K U) → EndsSteady s (r, s)
  same r s = record { session = record { vcpu = refl; exit_count = refl } }

  dispatch_exit-EndsSteady :
      (reason : ExitReason) (s : Session K U) → EndsSteady s (dispatch_exit kvm reason s)
  unfolding dispatch_exit exit_io exit_mmio exit_unknown exit_internal_error
  dispatch_exit-EndsSteady ExitReason.hlt s = record {
    session = publish_to-Steady _ _ _ _ s s (same RunResult.halt s).session;
  }
  dispatch_exit-EndsSteady ExitReason.shutdown s = record {
    session = publish_to-Steady _ _ _ _ s s (same RunResult.shutdown s).session;
  }
  dispatch_exit-EndsSteady ExitReason.io s =
      let h = call_io-Steady s.trapper.io s in
      EndsSteady-if (call_io kvm s.trapper.io s).0
        (record { session = publish_to-Steady _ _ _ _ s _ h }) (record { session = h })
  dispatch_exit-EndsSteady ExitReason.mmio s =
      let h = call_mmio-Steady s.trapper.mmio s in
      EndsSteady-if (call_mmio kvm s.trapper.mmio s).0
        (record { session = publish_to-Steady _ _ _ _ s _ h }) (record { session = h })
  dispatch_exit-EndsSteady ExitReason.unknown s =
      let h = call_cpuid-Steady s.trapper.cpuid s in
      EndsSteady-if ((kvm_run s).hardware_exit_reason == 0)
        (EndsSteady-if (call_cpuid kvm s.trapper.cpuid s).0 (record { session = h })
          (record { session = h }))
        (same _ s)
  dispatch_exit-EndsSteady ExitReason.internal_error s =
      let h = call_cpuid-Steady s.trapper.cpuid s in
      EndsSteady-if ((kvm_run s).suberror == error_emulation)
        (EndsSteady-if (call_cpuid kvm s.trapper.cpuid s).0
          (record { session = publish_to-Steady _ _ _ _ s _ h }) (record { session = h }))
        (same _ s)
  dispatch_exit-EndsSteady _ s = same _ s

  dispatch_exit-Steady :
      (reason : ExitReason) (s : Session K U) → Steady s (dispatch_exit kvm reason s).1
  dispatch_exit-Steady reason s = (dispatch_exit-EndsSteady reason s).session

  -- A step that enters the guest and comes back adds one to the exit count, wrapping at 2 ^ 64, and
  -- one that fails to does not; the vCPU stays.
  pub step_counts :
      (s : Session K U)
      → let ran = (VCpu.run kvm s.trapper.vcpu s.world.machine).0 in
        ((reason : ExitReason)
          → ran ≡ ok reason
          → (step kvm s).1.trapper.exit_count ≡ (s.trapper.exit_count + 1) % 2 ^ 64)
        × ((e : ℕ)
            → ran ≡ err e
            → ((step kvm s).0 ≡ RunResult.error)
              × ((step kvm s).1.trapper.exit_count ≡ s.trapper.exit_count))
        × ((step kvm s).1.trapper.vcpu ≡ s.trapper.vcpu)
  unfolding step
  step_counts s = (
    λ reason ran. rw (ran, step) (dispatch_exit-Steady reason _).exit_count,
    λ e ran. (rw (ran, step) refl, rw (ran, step) refl),
    elim (Result-cases (VCpu.run kvm s.trapper.vcpu s.world.machine).0) [
      | inl (reason, e) ↦ rw (e, step) (dispatch_exit-Steady reason _).vcpu
      | inr (_, e) ↦ rw (e, step) refl
    ],
  )

  step_continues_counts :
      (s : Session K U)
      → (step kvm s).0 ≡ RunResult.continue
      → (step kvm s).1.trapper.exit_count ≡ (s.trapper.exit_count + 1) % 2 ^ 64
  step_continues_counts s c = elim (Result-cases (VCpu.run kvm s.trapper.vcpu s.world.machine).0) [
    | inl (reason, e) ↦ (step_counts s).0 reason e
    | inr (n, e) ↦ absurd (grind (arith, (step_counts s).1 n e))
  ]

  -- After `n` steps that continue the exit count has grown by `n`, wrapping at 2 ^ 64.
  pub exit_count-Continues :
      {n : ℕ} {s t : Session K U}
      → Continues kvm n s t
      → s.trapper.exit_count < 2 ^ 64
      → t.trapper.exit_count ≡ (s.trapper.exit_count + n) % 2 ^ 64
  exit_count-Continues (Continues.here s) b = omega arith
  exit_count-Continues (Continues.further {n = n} {s = s} c cs) b = omega (
    arith,
    step_continues_counts s c,
    exit_count-Continues cs (omega (arith, step_continues_counts s c)),
  )
