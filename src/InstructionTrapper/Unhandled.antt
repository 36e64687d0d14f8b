-- ===== src/InstructionTrapper/Unhandled.antt =====
-- Exits that `dispatchExit` of src/InstructionTrapper.cpp leaves to its default.
use min_bp.Prelude.{ℕ, zero, suc, ◌+◌, ◌≡◌, ◌≢◌, refl, ap, ◌∙◌, inl, none, u64}
use min_bp.Prelude.Result.{ok}
use min_bp.Kvm.{Kvm}
use min_bp.VCpu
use min_bp.VCpu.{VCpu, ExitReason}
use min_bp.InstructionTrapper.{
  RunResult, Session, step, dispatch_exit, count_exit, after_run, run_loop,
}
use min_bp.InstructionTrapper.Loop.{round_more}

-- The exits that the dispatch has no case for.
abbrev pub IsUnhandled : ExitReason → Type 0
IsUnhandled reason =
    (reason ≢ ExitReason.hlt)
    × (reason ≢ ExitReason.shutdown)
    × (reason ≢ ExitReason.io)
    × (reason ≢ ExitReason.unknown)
    × (reason ≢ ExitReason.mmio)
    × (reason ≢ ExitReason.internal_error)

module _ {K U : Type 0} (kvm : Kvm K) where
  dispatch_exit_unhandled :
      (reason : ExitReason) (s : Session K U)
      → IsUnhandled reason
      → dispatch_exit kvm reason s ≡ (RunResult.continue, s)
  unfolding dispatch_exit
  dispatch_exit_unhandled ExitReason.hlt s h = absurd (h.0 refl)
  dispatch_exit_unhandled ExitReason.shutdown s h = absurd (h.1 refl)
  dispatch_exit_unhandled ExitReason.io s h = absurd (h.2 refl)
  dispatch_exit_unhandled ExitReason.unknown s h = absurd (h.3 refl)
  dispatch_exit_unhandled ExitReason.mmio s h = absurd (h.4 refl)
  dispatch_exit_unhandled ExitReason.internal_error s h = absurd (h.5 refl)
  dispatch_exit_unhandled _ s h = refl

  step_unhandled :
      (v : VCpu) (reason : ExitReason)
      → IsUnhandled reason
      → (s : Session K U) → (VCpu.run kvm v s.world.machine).0 ≡ ok reason
      → s.trapper.vcpu ≡ v
      → step kvm s ≡ (
        RunResult.continue,
        count_exit kvm (after_run kvm s (VCpu.run kvm s.trapper.vcpu s.world.machine).1),
      )
  unfolding step
  step_unhandled v reason h s ran e =
      let ran' : (VCpu.run kvm s.trapper.vcpu s.world.machine).0 ≡ ok reason = rw e ran in
      rw (ran', step) (dispatch_exit_unhandled reason _ h)

  -- A guest that the kernel cannot enter, or that keeps leaving for a reason without a case, is run
  -- again and again: with no limit the loop does not return, however much fuel it has.
  pub unhandled_spins :
      (v : VCpu) (reason : ExitReason)
      → IsUnhandled reason
      → ((s : Session K U) → (VCpu.run kvm v s.world.machine).0 ≡ ok reason)
      → (fuel i : ℕ) (s : Session K U) → s.trapper.vcpu ≡ v
      → run_loop kvm fuel 0 i s ≡ none
  unhandled_spins v reason h keeps zero i s e = unfold run_loop in refl
  unhandled_spins v reason h keeps (suc fuel) i s e =
      let stepped = step_unhandled v reason h s (keeps s) e in
      round_more kvm fuel 0 i s (inl refl) (ap (λ p. p.0) stepped)
      ∙ unhandled_spins v reason h keeps fuel (u64 (i + 1)) (step kvm s).1
          (ap (λ p. p.1.trapper.vcpu) stepped ∙ e)
