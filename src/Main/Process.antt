-- ===== src/Main/Process.antt =====
-- Which descriptors the objects of src/main.cpp own.
pub mod Loading
pub mod Objects
use Prim.Native.String.{String}
use min_bp.Prelude.{
  ℕ, ◌==◌, ==_iff, ==_refl, ◌≡◌, refl, ap, ◌∙◌, Bool, true, false, not, ◌&&◌, ◌||◌, List, [], ◌∷◌,
  ◌++◌, none, some, inl, inr, Bool-cases, arith,
}
use min_bp.Prelude.Result.{Result, ok, err, Result-cases}
use min_bp.Kvm.{Fd, Regs, Sregs, MemorySlot, CpuidEntry, Machine, Kvm, set_kernel}
use min_bp.VCpu.{VCpu}
use min_bp.VCpu
use min_bp.MemoryRegion.{MemoryRegion}
use min_bp.MemoryRegion
use min_bp.VirtualMachine.{VirtualMachine, add_memory_region, add_vcpu, release}
use min_bp.VirtualMachine.Release.{Closes, is_fd, vcpus_own, owns, is_open-release}
use min_bp.KvmSystem.Ownership.{Descriptors}
use min_bp.Main.Callbacks.{Stable}

-- What the code relies on: opening the device, making a VM and making a vCPU give a descriptor that was
-- not open, or fail and change none; closing closes that descriptor alone; no other call opens or
-- closes any.
pub record Process {K : Type 0} (kvm : Kvm K) : Type 0 where
  pub is_open : K → ℕ → Bool
  pub opened :
      (path : String) (k : K) (fd : ℕ)
      → (kvm.open_path path k).0 ≡ ok fd
      → (is_open k fd ≡ false)
        × ((x : ℕ) → is_open (kvm.open_path path k).1 x ≡ (x == fd || is_open k x))
  pub open_refused :
      (path : String) (k : K) (e x : ℕ)
      → (kvm.open_path path k).0 ≡ err e
      → is_open (kvm.open_path path k).1 x ≡ is_open k x
  pub vm_made :
      (sys : Fd) (k : K) (fd : ℕ)
      → (kvm.create_vm sys k).0 ≡ ok fd
      → (is_open k fd ≡ false)
        × ((x : ℕ) → is_open (kvm.create_vm sys k).1 x ≡ (x == fd || is_open k x))
  pub vm_refused :
      (sys : Fd) (k : K) (e x : ℕ)
      → (kvm.create_vm sys k).0 ≡ err e
      → is_open (kvm.create_vm sys k).1 x ≡ is_open k x
  pub vcpu_made :
      (vm : Fd) (id : ℕ) (k : K) (fd : ℕ)
      → (kvm.create_vcpu vm id k).0 ≡ ok fd
      → (is_open k fd ≡ false)
        × ((x : ℕ) → is_open (kvm.create_vcpu vm id k).1 x ≡ (x == fd || is_open k x))
  pub vcpu_refused :
      (vm : Fd) (id : ℕ) (k : K) (e x : ℕ)
      → (kvm.create_vcpu vm id k).0 ≡ err e
      → is_open (kvm.create_vcpu vm id k).1 x ≡ is_open k x
  pub closed :
      (fd : ℕ) (k : K) (x : ℕ) → is_open (kvm.close fd k) x ≡ (not (x == fd) && is_open k x)
  pub unmapped : (a n : ℕ) (k : K) (x : ℕ) → is_open (kvm.munmap a n k) x ≡ is_open k x
  pub set_slot :
      (fd : Fd) (s : MemorySlot) (k : K) (x : ℕ)
      → is_open (kvm.set_user_memory_region fd s k).1 x ≡ is_open k x
  pub mapped :
      (n : ℕ) (m : Machine K) (x : ℕ)
      → is_open (kvm.mmap_anonymous n m).1.kernel x ≡ is_open m.kernel x
  pub run_mapped :
      (fd : Fd) (n : ℕ) (m : Machine K) (x : ℕ)
      → is_open (kvm.mmap_run fd n m).1.kernel x ≡ is_open m.kernel x
  pub ran :
      (fd : Fd) (m : Machine K) (x : ℕ) → is_open (kvm.run fd m).1.kernel x ≡ is_open m.kernel x
  pub told : (k : K) (x : ℕ) → is_open (kvm.now k).1 x ≡ is_open k x
  pub regs_set :
      (fd : Fd) (regs : Regs) (k : K) (x : ℕ) → is_open (kvm.set_regs fd regs k).1 x ≡ is_open k x
  pub sregs_set :
      (fd : Fd) (sregs : Sregs) (k : K) (x : ℕ)
      → is_open (kvm.set_sregs fd sregs k).1 x ≡ is_open k x
  pub cpuid_set :
      (fd : Fd) (n : ℕ) (entries : List CpuidEntry) (k : K) (x : ℕ)
      → is_open (kvm.set_cpuid2 fd n entries k).1 x ≡ is_open k x
  pub enabled :
      (fd : Fd) (capability argument : ℕ) (k : K) (x : ℕ)
      → is_open (kvm.enable_cap fd capability argument k).1 x ≡ is_open k x

module _ {K : Type 0} (kvm : Kvm K) (laws : Process kvm) where
  abbrev pub to_Closes : Closes kvm
  to_Closes = record {
    is_open = laws.is_open;
    closed = laws.closed;
    unmapped = laws.unmapped;
    set_slot = laws.set_slot;
  }

  abbrev pub to_Descriptors : Descriptors kvm
  to_Descriptors = record {
    is_open = laws.is_open;
    opened = laws.opened;
    open_refused = laws.open_refused;
    closed = laws.closed;
  }

  -- Without those that the VM owns, the open descriptors are the ones of `base`.
  abbrev pub Owned : (ℕ → Bool) → VirtualMachine → K → Type 0
  Owned base vm k = (x : ℕ) → (not (owns vm x) && laws.is_open k x) ≡ base x

  -- No descriptor is opened or closed from one state to the other.
  abbrev pub Same : K → K → Type 0
  Same k k' = (x : ℕ) → laws.is_open k' x ≡ laws.is_open k x

  pub Owned-Same :
      (base : ℕ → Bool) (vm : VirtualMachine) (k k' : K)
      → Same k k'
      → Owned base vm k
      → Owned base vm k'
  Owned-Same base vm k k' same o x = ap (λ b. not (owns vm x) && b) (same x) ∙ o x

  pub Owned-Stable : (base : ℕ → Bool) (vm : VirtualMachine) → Stable kvm (Owned base vm)
  Owned-Stable base vm = record {
    run = λ fd m. Owned-Same base vm m.kernel (kvm.run fd m).1.kernel (laws.ran fd m);
    now = λ k. Owned-Same base vm k (kvm.now k).1 (laws.told k);
    set_regs =
        λ fd regs k. Owned-Same base vm k (kvm.set_regs fd regs k).1 (laws.regs_set fd regs k);
    set_sregs =
        λ fd sregs k. Owned-Same base vm k (kvm.set_sregs fd sregs k).1 (laws.sregs_set fd sregs k);
  }

  pub Owned-released :
      (base : ℕ → Bool) (vm : VirtualMachine) (m : Machine K)
      → Owned base vm m.kernel
      → (x : ℕ) → laws.is_open (release kvm vm m).kernel x ≡ base x
  Owned-released base vm m o x = is_open-release kvm to_Closes vm m x ∙ o x

  pub fresh :
      (fd : ℕ) (base : ℕ → Bool) (x : ℕ)
      → base fd ≡ false
      → (not (x == fd) && (x == fd || base x)) ≡ base x
  fresh fd base x free = elim (Bool-cases (x == fd)) [
    | inl e ↦ rw ((==_iff x fd).0 e, ==_refl fd, free) refl
    | inr e ↦ rw e refl
  ]
