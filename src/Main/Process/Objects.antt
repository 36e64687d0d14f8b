-- ===== src/Main/Process/Objects.antt =====
-- The objects of src/KvmSystem.cpp, src/VirtualMachine.cpp and src/VCpu.cpp that own a descriptor, side by
-- side: made, moved, assigned and destroyed in any order.
pub mod Balance
pub mod Effects
pub mod Creation
pub mod Lifetime
use min_bp.Prelude.{ℕ, ◌+◌, ◌==◌, List, [], ◌∷◌, none, some, if◌then◌else◌}
use min_bp.Kvm.{Fd, Machine, Kvm, set_kernel}
use min_bp.VCpu.{VCpu}
use min_bp.VCpu
use min_bp.VirtualMachine.{VirtualMachine}
use min_bp.VirtualMachine
use min_bp.KvmSystem.{KvmSystem}
use min_bp.KvmSystem

pub data Object : Type 0 where
  system : KvmSystem → Object
  machine : VirtualMachine → Object
  vcpu : VCpu → Object

-- How often a member holds the descriptor `x`.
abbrev pub held : Fd → ℕ → ℕ
held none x = 0
held (some fd) x = if x == fd then 1 else 0

abbrev pub vcpus_hold : List VCpu → ℕ → ℕ
vcpus_hold [] x = 0
vcpus_hold (v ∷ vs) x = held v.fd x + vcpus_hold vs x

abbrev pub holds : Object → ℕ → ℕ
holds (Object.system s) x = held s.fd x
holds (Object.machine vm) x = held vm.fd x + vcpus_hold vm.vcpus x
holds (Object.vcpu v) x = held v.fd x

abbrev pub total : List Object → ℕ → ℕ
total [] x = 0
total (o ∷ os) x = holds o x + total os x

-- The move constructors: the new object, and what is left of the old one.
abbrev pub moved : Object → Object × Object
moved (Object.system s) =
    let (new, old) = KvmSystem.move s in (Object.system new, Object.system old)
moved (Object.machine vm) =
    let (new, old) = VirtualMachine.move vm in (Object.machine new, Object.machine old)
moved (Object.vcpu v) = let (new, old) = VCpu.move v in (Object.vcpu new, Object.vcpu old)

module _ {K : Type 0} (kvm : Kvm K) where
  -- The destructors.
  abbrev pub destroy : Object → Machine K → Machine K
  destroy (Object.system s) m = set_kernel (KvmSystem.release kvm s m.kernel) m
  destroy (Object.machine vm) m = VirtualMachine.release kvm vm m
  destroy (Object.vcpu v) m = VCpu.release kvm v m

  abbrev pub destroy_all : List Object → Machine K → Machine K
  destroy_all [] m = m
  destroy_all (o ∷ os) m = destroy_all os (destroy o m)
