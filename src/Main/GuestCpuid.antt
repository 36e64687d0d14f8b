-- ===== src/Main/GuestCpuid.antt =====
-- What a guest's CPUID gives with the handler of src/main.cpp.
use min_bp.Prelude.{
  ℕ, ◌%◌, ◌^◌, ◌==◌, ◌≡◌, refl, ap, ◌∙◌, Bool, true, false, none, some, find, if◌then◌else◌,
  Bool-cases, inl, inr,
}
use min_bp.Prelude.Result.{ok, no_error}
use min_bp.Kvm.{Regs, World, Kvm}
use min_bp.VCpu.{VCpu}
use min_bp.VCpu
use min_bp.VCpu.Registers.{RegistersHold}
use min_bp.CpuidHandler.{
  CpuidHandler, LeafResult, inject, register_leaf, leaf_result, execute_host_cpuid, handle,
}
use min_bp.CpuidHandler.Leaves.{host_words, handle_outcome}
use min_bp.Main.State.{ProgramState}
use min_bp.Main.Wiring.{mask_leaf, cpuid_handler}

find_leaf :
    (leaf : ℕ)
    → find leaf cpuid_handler.leaf_callbacks ≡ (if 1 == leaf then some mask_leaf else none)
unfolding cpuid_handler register_leaf
find_leaf leaf = refl

module _ {K : Type 0} (kvm : Kvm K) where
  -- The four words that the guest gets.
  abbrev pub guest_leaf : ℕ → ℕ → LeafResult
  guest_leaf leaf subleaf =
      if 1 == leaf
      then record { eax = 0; ebx = 0; ecx = 0; edx = 0 }
      else host_words kvm leaf subleaf

  pub leaf_result-guest :
      (leaf subleaf : ℕ) (s : ProgramState)
      → leaf_result kvm (find leaf cpuid_handler.leaf_callbacks) leaf subleaf s
        ≡ (guest_leaf leaf subleaf, s)
  unfolding leaf_result execute_host_cpuid
  leaf_result-guest leaf subleaf s = elim (Bool-cases (1 == leaf)) [
    | inl e ↦ rw (find_leaf leaf, e) refl
    | inr e ↦ rw (find_leaf leaf, e) refl
  ]

  answer_by :
      (b : Bool) (leaf subleaf : ℕ) (s : ProgramState)
      → (elim (if b then some mask_leaf else none) as (λ o. LeafResult × ProgramState) [
        | none ↦ (host_words kvm leaf subleaf, s)
        | some callback ↦ callback leaf subleaf s
      ])
        ≡ (
          if b then record { eax = 0; ebx = 0; ecx = 0; edx = 0 } else host_words kvm leaf subleaf,
          s,
        )
  answer_by true leaf subleaf s = refl
  answer_by false leaf subleaf s = refl

  -- Let the guest execute CPUID, its registers be readable, and the kernel accept the new ones. With
  -- leaf 1 in EAX it gets four zeros, and with any other leaf what the host's CPUID gives for that leaf
  -- and the subleaf in ECX. All other registers stay, and so does the state of the program.
  pub guest_cpuid :
      (laws : RegistersHold kvm) (h : CpuidHandler ProgramState) (v : VCpu)
      (w : World K ProgramState) (regs : Regs)
      → h.leaf_callbacks ≡ cpuid_handler.leaf_callbacks
      → VCpu.get_regs kvm v w.machine ≡ ok regs
      → let result = guest_leaf (regs.rax % 2 ^ 32) (regs.rcx % 2 ^ 32) in
        let after = record regs {
          rax = result.eax;
          rbx = result.ebx;
          rcx = result.ecx;
          rdx = result.edx;
        } in
        (VCpu.set_regs kvm v after w.machine).0 ≡ no_error
        → let r = handle kvm h v w in
          (r.done ≡ true)
          × (VCpu.get_regs kvm v r.world.machine ≡ ok after)
          × (r.world.user ≡ w.user)
          × (r.handler.leaf_callbacks ≡ cpuid_handler.leaf_callbacks)
  unfolding cpuid_handler register_leaf
  guest_cpuid laws h v w regs callbacks read set =
      let leaf = regs.rax % 2 ^ 32 in
      let subleaf = regs.rcx % 2 ^ 32 in
      let answer : (elim (find leaf h.leaf_callbacks) as (λ o. LeafResult × ProgramState) [
        | none ↦ (host_words kvm leaf subleaf, w.user)
        | some callback ↦ callback leaf subleaf w.user
      ])
          ≡ (guest_leaf leaf subleaf, w.user) =
        rw callbacks (answer_by (1 == leaf) leaf subleaf w.user) in
      let outcome = (handle_outcome kvm laws h v w).1 regs read in
      let written = outcome.2 (rw answer set) in
      (
        written.0,
        written.2 ∙ ap (λ (a : LeafResult × ProgramState). ok (inject a.0 regs)) answer,
        outcome.0 ∙ ap (λ (a : LeafResult × ProgramState). a.1) answer,
        ap (λ (c : CpuidHandler ProgramState). c.leaf_callbacks) written.1 ∙ callbacks,
      )
