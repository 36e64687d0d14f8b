-- ===== src/CpuidHandler/Leaves.antt =====
-- What `CpuidHandler::handle` of src/CpuidHandler.cpp gives the guest, on every branch.
use min_bp.Prelude.{
  ℕ, ◌+◌, ◌%◌, ◌^◌, ◌≡◌, ◌≢◌, ap, ◌∙◌, refl, inl, inr, Option-cases, none, some, true, false, find,
  arith,
}
use min_bp.Prelude.Result.{ok, err, no_error}
use min_bp.Kvm.{Regs, World, Kvm}
use min_bp.VCpu.{VCpu}
use min_bp.VCpu
use min_bp.VCpu.Registers.{RegistersHold, get_regs-set_regs}
use min_bp.CpuidHandler.{
  CpuidHandler, LeafResult, leaf_result, execute_host_cpuid, handle_regs, handle,
}

-- The four registers that the host's CPUID instruction leaves, each under its name.
abbrev pub host_words : {K : Type 0} → Kvm K → ℕ → ℕ → LeafResult
host_words kvm leaf subleaf = record {
  eax = (kvm.cpuid leaf subleaf).0;
  ebx = (kvm.cpuid leaf subleaf).1;
  ecx = (kvm.cpuid leaf subleaf).2;
  edx = (kvm.cpuid leaf subleaf).3;
}

module _ {K U : Type 0} (kvm : Kvm K) where
  handle-err :
      (h : CpuidHandler U) (v : VCpu) (w : World K U) (e : ℕ)
      → VCpu.get_regs kvm v w.machine ≡ err e
      → handle kvm h v w ≡ record { done = false; handler = h; world = w }
  unfolding handle
  handle-err h v w e failed = rw (failed, handle)

  handle-ok :
      (h : CpuidHandler U) (v : VCpu) (w : World K U) (regs : Regs)
      → VCpu.get_regs kvm v w.machine ≡ ok regs
      → handle kvm h v w ≡ handle_regs kvm h v regs w
  unfolding handle
  handle-ok h v w regs read = rw (read, handle)

  -- What is done with the four words once they are there.
  regs_done :
      (laws : RegistersHold kvm) (h : CpuidHandler U) (v : VCpu) (regs : Regs) (w : World K U)
      (result : LeafResult) (user : U)
      → leaf_result kvm
          (find (regs.rax % 2 ^ 32) h.leaf_callbacks)
          (regs.rax % 2 ^ 32)
          (regs.rcx % 2 ^ 32)
          w.user
        ≡ (result, user)
      → let after = record regs {
        rax = result.eax;
        rbx = result.ebx;
        rcx = result.ecx;
        rdx = result.edx;
      } in
        let written = (VCpu.set_regs kvm v after w.machine).0 in
        let r = handle_regs kvm h v regs w in
        (r.world.user ≡ user)
        × (written ≢ no_error → (r.done ≡ false) × (r.handler ≡ h))
        × (written ≡ no_error
            → (r.done ≡ true)
              × (r.handler ≡ record h { handled_count = (h.handled_count + 1) % 2 ^ 64 })
              × (VCpu.get_regs kvm v r.world.machine ≡ ok after))
  unfolding handle_regs
  regs_done laws h v regs w result user got =
      rw (got, handle_regs)
        (
          ground arith,
          λ n. ground arith,
          λ y. (
            ground arith,
            ground arith,
            ground (arith, get_regs-set_regs kvm laws v _ w.machine y),
          ),
        )

  -- When the registers cannot be read nothing changes and the exit is not done. When they can, the
  -- callback of the leaf in EAX, or the host's CPUID if the leaf has none, gets that leaf and the
  -- subleaf in ECX. If its result cannot be written back the exit is not done and not counted. If it
  -- can, the exit is done and counted, and the guest's registers are the old ones but for RAX, RBX,
  -- RCX and RDX, which hold the four results.
  pub handle_outcome :
      (laws : RegistersHold kvm) (h : CpuidHandler U) (v : VCpu) (w : World K U)
      → ((e : ℕ)
          → VCpu.get_regs kvm v w.machine ≡ err e
          → handle kvm h v w ≡ record { done = false; handler = h; world = w })
        × ((regs : Regs)
            → VCpu.get_regs kvm v w.machine ≡ ok regs
            → let leaf = regs.rax % 2 ^ 32 in
              let subleaf = regs.rcx % 2 ^ 32 in
              let (result, user) : LeafResult × U = elim (find leaf h.leaf_callbacks) [
                | none ↦ (host_words kvm leaf subleaf, w.user)
                | some callback ↦ callback leaf subleaf w.user
              ] in
              let after = record regs {
                rax = result.eax;
                rbx = result.ebx;
                rcx = result.ecx;
                rdx = result.edx;
              } in
              let written = (VCpu.set_regs kvm v after w.machine).0 in
              let r = handle kvm h v w in
              (r.world.user ≡ user)
              × (written ≢ no_error → (r.done ≡ false) × (r.handler ≡ h))
              × (written ≡ no_error
                  → (r.done ≡ true)
                    × (r.handler ≡ record h { handled_count = (h.handled_count + 1) % 2 ^ 64 })
                    × (VCpu.get_regs kvm v r.world.machine ≡ ok after)))
  handle_outcome laws h v w = (
    λ e failed. handle-err h v w e failed,
    λ regs read. elim (Option-cases (find (regs.rax % 2 ^ 32) h.leaf_callbacks)) [
      | inl e ↦
          rw (e, handle-ok h v w regs read)
            (regs_done laws h v regs w _ _ (
              ap (λ o. leaf_result kvm o (regs.rax % 2 ^ 32) (regs.rcx % 2 ^ 32) w.user) e
              ∙ unfold leaf_result execute_host_cpuid in refl))
      | inr (callback, e) ↦
          rw (e, handle-ok h v w regs read)
            (regs_done laws h v regs w _ _ (
              ap (λ o. leaf_result kvm o (regs.rax % 2 ^ 32) (regs.rcx % 2 ^ 32) w.user) e
              ∙ unfold leaf_result in refl))
    ],
  )
