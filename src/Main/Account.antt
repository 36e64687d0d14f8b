-- ===== src/Main/Account.antt =====
-- What the VM of src/main.cpp holds of the kernel, and the operations of the program that keep it so.
pub mod Loading
use min_bp.Prelude.{ℕ, ◌≡◌, refl, List, [], ◌∷◌, ◌++◌, inl, inr}
use min_bp.Prelude.Result.{ok, err, Result-cases}
use min_bp.Kvm.{Fd, CpuidEntry, Machine, Kvm}
use min_bp.VCpu
use min_bp.VirtualMachine.{VirtualMachine, add_memory_region, add_vcpu}
use min_bp.Main.Callbacks.{Stable}

-- A relation between the VM and the kernel's state that every operation of the program keeps between
-- the making of the VM and its destruction.
pub record Account {K : Type 0} (kvm : Kvm K) : Type 1 where
  pub Holds : VirtualMachine → K → Type 0
  pub stable : (vm : VirtualMachine) → Stable kvm (Holds vm)
  pub region_added :
      (gpa size flags : ℕ) (vm : VirtualMachine) (m : Machine K)
      → Holds vm m.kernel
      → let r = add_memory_region kvm gpa size flags vm m in Holds r.0.1 r.1.kernel
  pub vcpu_added :
      (id : ℕ) (vm : VirtualMachine) (m : Machine K)
      → Holds vm m.kernel
      → let r = add_vcpu kvm id vm m in Holds r.0.1 r.1.kernel
  pub cpuid_set :
      (fd : Fd) (n : ℕ) (entries : List CpuidEntry) (vm : VirtualMachine) (k : K)
      → Holds vm k
      → Holds vm (kvm.set_cpuid2 fd n entries k).1

module _ {K : Type 0} (kvm : Kvm K) where
  pub add_vcpu-vm :
      (id : ℕ) (vm : VirtualMachine) (m : Machine K)
      → let r = VCpu.create kvm vm.fd id vm.vcpu_mmap_size m in
        (add_vcpu kvm id vm m).0.1
        ≡ elim r.0 [ err e ↦ vm | ok v ↦ record vm { vcpus = vm.vcpus ++ v ∷ [] } ]
  unfolding add_vcpu
  add_vcpu-vm id vm m = elim (Result-cases (VCpu.create kvm vm.fd id vm.vcpu_mmap_size m).0) [
    | inr (e, f) ↦ rw (f, add_vcpu) refl
    | inl (v, f) ↦ rw (f, add_vcpu) refl
  ]
