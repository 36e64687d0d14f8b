-- ===== src/CpuidHandler.antt =====
-- src/CpuidHandler.cpp: CPUID exits. `U` is the state that callbacks act on.
pub mod Leaves
use min_bp.Prelude.{
  ℕ, ◌+◌, ◌==◌, Bool, true, false, List, [], ◌∷◌, Option, none, some, find, assign, u32, u64,
  if◌then◌else◌,
}
use min_bp.Prelude.Result.{Result, ok, err, no_error}
use min_bp.Kvm.{Regs, Machine, World, Kvm}
use min_bp.VCpu.{VCpu}
use min_bp.VCpu

pub record LeafResult : Type 0 where
  pub eax : ℕ
  pub ebx : ℕ
  pub ecx : ℕ
  pub edx : ℕ

abbrev pub LeafCallback : Type 0 → Type 0
LeafCallback U = ℕ → ℕ → U → LeafResult × U

pub record CpuidHandler (U : Type 0) : Type 0 where
  pub leaf_callbacks : List (ℕ × LeafCallback U)
  pub handled_count : ℕ

-- What `handle` returns, with the objects that it changed.
pub record Handled (K U : Type 0) : Type 0 where
  pub done : Bool
  pub handler : CpuidHandler U
  pub world : World K U

-- `regs` with the four results, which the assignment widens with zeros.
abbrev pub inject : LeafResult → Regs → Regs
inject r regs = record regs { rax = r.eax; rbx = r.ebx; rcx = r.ecx; rdx = r.edx }

module _ {U : Type 0} where
  abbrev pub new : CpuidHandler U
  new = record { leaf_callbacks = []; handled_count = 0 }

  unfoldable pub register_leaf : ℕ → LeafCallback U → CpuidHandler U → CpuidHandler U
  register_leaf leaf cb h = record h { leaf_callbacks = assign leaf cb h.leaf_callbacks }

module _ {K : Type 0} (kvm : Kvm K) where
  unfoldable pub execute_host_cpuid : ℕ → ℕ → LeafResult
  execute_host_cpuid leaf subleaf =
      let r = kvm.cpuid leaf subleaf in record { eax = r.0; ebx = r.1; ecx = r.2; edx = r.3 }

  module _ {U : Type 0} where
    unfoldable pub leaf_result : Option (LeafCallback U) → ℕ → ℕ → U → LeafResult × U
    leaf_result none leaf subleaf u = (execute_host_cpuid leaf subleaf, u)
    leaf_result (some cb) leaf subleaf u = cb leaf subleaf u

    -- After `regs` has been read.
    unfoldable pub handle_regs : CpuidHandler U → VCpu → Regs → World K U → Handled K U
    handle_regs h v regs w =
        let leaf = u32 regs.rax in
        let subleaf = u32 regs.rcx in
        let (result, user) = leaf_result (find leaf h.leaf_callbacks) leaf subleaf w.user in
        let (ec, machine) = VCpu.set_regs kvm v (inject result regs) w.machine in
        let w' : World K U = record { machine = machine; user = user } in
        if ec == no_error
        then record {
          done = true;
          handler = record h { handled_count = u64 (h.handled_count + 1) };
          world = w';
        }
        else record { done = false; handler = h; world = w' }

    unfoldable pub handle : CpuidHandler U → VCpu → World K U → Handled K U
    handle h v w = elim (VCpu.get_regs kvm v w.machine) [
      | err e ↦ record { done = false; handler = h; world = w }
      | ok regs ↦ handle_regs h v regs w
    ]
