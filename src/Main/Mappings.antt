-- ===== src/Main/Mappings.antt =====
-- Which memory of the process the objects of src/main.cpp have mapped.
pub mod Kept
use Prim.Native.String.{String}
use min_bp.Prelude.{
  ℕ, ◌==◌, ◌≡◌, ◌≢◌, refl, ap, ◌∙◌, Bool, true, false, not, ◌&&◌, ◌||◌, List, [], ◌∷◌, none, some,
  inl, inr, Bool-cases, arith,
}
use min_bp.Prelude.Result.{Result, ok, err, Result-cases}
use min_bp.Kvm.{Fd, Regs, Sregs, MemorySlot, CpuidEntry, Machine, Kvm, null, map_failed, set_kernel}
use min_bp.VCpu.{VCpu}
use min_bp.VCpu
use min_bp.MemoryRegion.{MemoryRegion, holds, removal}
use min_bp.MemoryRegion
use min_bp.VirtualMachine.{VirtualMachine, release, release_vcpus, release_regions, close_vm}

-- A block was mapped: the address is a valid one, and its bytes, which were free, are mapped now.
pub record NewBlock (covers : ℕ → ℕ → ℕ → Bool) (before after : ℕ → Bool) (a n : ℕ) : Type 0 where
  pub not_null : a ≢ null
  pub not_failed : a ≢ map_failed
  pub free : (x : ℕ) → covers a n x ≡ true → before x ≡ false
  pub grown : (x : ℕ) → after x ≡ (covers a n x || before x)

-- What the code relies on, with `covers a n` for the bytes that a call with the address `a` and the
-- size `n` maps or unmaps: mapping takes bytes that were free, or fails and changes none; unmapping
-- frees those bytes alone; no other call maps or unmaps any.
pub record Mappings {K : Type 0} (kvm : Kvm K) : Type 0 where
  pub covers : ℕ → ℕ → ℕ → Bool
  pub is_mapped : K → ℕ → Bool
  pub mapped :
      (n : ℕ) (m : Machine K) (a : ℕ)
      → (kvm.mmap_anonymous n m).0 ≡ ok a
      → NewBlock covers (is_mapped m.kernel) (is_mapped (kvm.mmap_anonymous n m).1.kernel) a n
  pub map_refused :
      (n : ℕ) (m : Machine K) (e x : ℕ)
      → (kvm.mmap_anonymous n m).0 ≡ err e
      → is_mapped (kvm.mmap_anonymous n m).1.kernel x ≡ is_mapped m.kernel x
  pub run_mapped :
      (fd : Fd) (n : ℕ) (m : Machine K) (a : ℕ)
      → (kvm.mmap_run fd n m).0 ≡ ok a
      → NewBlock covers (is_mapped m.kernel) (is_mapped (kvm.mmap_run fd n m).1.kernel) a n
  pub run_map_refused :
      (fd : Fd) (n : ℕ) (m : Machine K) (e x : ℕ)
      → (kvm.mmap_run fd n m).0 ≡ err e
      → is_mapped (kvm.mmap_run fd n m).1.kernel x ≡ is_mapped m.kernel x
  pub unmapped :
      (a n : ℕ) (k : K) (x : ℕ)
      → is_mapped (kvm.munmap a n k) x ≡ (not (covers a n x) && is_mapped k x)
  pub opened :
      (path : String) (k : K) (x : ℕ) → is_mapped (kvm.open_path path k).1 x ≡ is_mapped k x
  pub vm_made : (sys : Fd) (k : K) (x : ℕ) → is_mapped (kvm.create_vm sys k).1 x ≡ is_mapped k x
  pub vcpu_made :
      (vm : Fd) (id : ℕ) (k : K) (x : ℕ) → is_mapped (kvm.create_vcpu vm id k).1 x ≡ is_mapped k x
  pub closed : (fd : ℕ) (k : K) (x : ℕ) → is_mapped (kvm.close fd k) x ≡ is_mapped k x
  pub set_slot :
      (fd : Fd) (s : MemorySlot) (k : K) (x : ℕ)
      → is_mapped (kvm.set_user_memory_region fd s k).1 x ≡ is_mapped k x
  pub ran :
      (fd : Fd) (m : Machine K) (x : ℕ) → is_mapped (kvm.run fd m).1.kernel x ≡ is_mapped m.kernel x
  pub told : (k : K) (x : ℕ) → is_mapped (kvm.now k).1 x ≡ is_mapped k x
  pub regs_set :
      (fd : Fd) (regs : Regs) (k : K) (x : ℕ)
      → is_mapped (kvm.set_regs fd regs k).1 x ≡ is_mapped k x
  pub sregs_set :
      (fd : Fd) (sregs : Sregs) (k : K) (x : ℕ)
      → is_mapped (kvm.set_sregs fd sregs k).1 x ≡ is_mapped k x
  pub cpuid_set :
      (fd : Fd) (n : ℕ) (entries : List CpuidEntry) (k : K) (x : ℕ)
      → is_mapped (kvm.set_cpuid2 fd n entries k).1 x ≡ is_mapped k x
  pub enabled :
      (fd : Fd) (capability argument : ℕ) (k : K) (x : ℕ)
      → is_mapped (kvm.enable_cap fd capability argument k).1 x ≡ is_mapped k x

-- The test of both destructors on an address.
abbrev pub usable : ℕ → Bool
usable a = not (a == null) && not (a == map_failed)

module _ {K : Type 0} (kvm : Kvm K) (laws : Mappings kvm) where
  -- The bytes of a region, of a vCPU's run structure, and of all that a VM has.
  abbrev pub region_has : MemoryRegion → ℕ → Bool
  region_has r x = usable r.host_addr && laws.covers r.host_addr r.size x

  abbrev pub page_has : VCpu → ℕ → Bool
  page_has v x = usable v.run_page && laws.covers v.run_page v.mmap_size x

  abbrev pub regions_have : List MemoryRegion → ℕ → Bool
  regions_have [] x = false
  regions_have (r ∷ rs) x = region_has r x || regions_have rs x

  abbrev pub pages_have : List VCpu → ℕ → Bool
  pages_have [] x = false
  pages_have (v ∷ vs) x = page_has v x || pages_have vs x

  abbrev pub has_mapped : VirtualMachine → ℕ → Bool
  has_mapped vm x = regions_have vm.memory_regions x || pages_have vm.vcpus x

  -- Without those that the VM has, the mapped bytes are the ones of `base`.
  abbrev pub Mapped : (ℕ → Bool) → VirtualMachine → K → Type 0
  Mapped base vm k = (x : ℕ) → (not (has_mapped vm x) && laws.is_mapped k x) ≡ base x

  -- Nothing is mapped or unmapped from one state to the other.
  abbrev pub SameMap : K → K → Type 0
  SameMap k k' = (x : ℕ) → laws.is_mapped k' x ≡ laws.is_mapped k x

  pub Mapped-SameMap :
      (base : ℕ → Bool) (vm : VirtualMachine) (k k' : K)
      → SameMap k k'
      → Mapped base vm k
      → Mapped base vm k'
  Mapped-SameMap base vm k k' same o x = ap (λ b. not (has_mapped vm x) && b) (same x) ∙ o x

  close_fd-SameMap : (fd : Fd) (k : K) → SameMap k (VCpu.close_fd kvm fd k)
  unfolding VCpu.close_fd
  close_fd-SameMap none k x = refl
  close_fd-SameMap (some fd) k x = laws.closed fd k x

  is_mapped-vcpu :
      (v : VCpu) (m : Machine K) (x : ℕ)
      → laws.is_mapped (VCpu.release kvm v m).kernel x
        ≡ (not (page_has v x) && laws.is_mapped m.kernel x)
  unfolding VCpu.release VCpu.unmap
  is_mapped-vcpu v m x = elim (Bool-cases (usable v.run_page)) [
    | inl e ↦ rw e (close_fd-SameMap v.fd _ x ∙ laws.unmapped v.run_page v.mmap_size m.kernel x)
    | inr e ↦ rw e (close_fd-SameMap v.fd m.kernel x)
  ]

  is_mapped-region :
      (r : MemoryRegion) (m : Machine K) (x : ℕ)
      → laws.is_mapped (MemoryRegion.release kvm r m).kernel x
        ≡ (not (region_has r x) && laws.is_mapped m.kernel x)
  unfolding MemoryRegion.release
  is_mapped-region r m x = elim (Bool-cases (holds r)) [
    | inl e ↦ rw e (
        laws.unmapped r.host_addr r.size _ x
        ∙ ap (λ b. not (laws.covers r.host_addr r.size x) && b)
            (laws.set_slot r.vm_fd (removal r.slot) m.kernel x))
    | inr e ↦ rw e refl
  ]

  de_morgan : (a b c : Bool) → (not b && (not a && c)) ≡ (not (a || b) && c)
  de_morgan a b c = ground arith

  is_mapped-release_vcpus :
      (vs : List VCpu) (m : Machine K) (x : ℕ)
      → laws.is_mapped (release_vcpus kvm vs m).kernel x
        ≡ (not (pages_have vs x) && laws.is_mapped m.kernel x)
  unfolding release_vcpus
  is_mapped-release_vcpus [] m x = refl
  is_mapped-release_vcpus (v ∷ vs) m x =
      is_mapped-release_vcpus vs (VCpu.release kvm v m) x
      ∙ ap (λ b. not (pages_have vs x) && b) (is_mapped-vcpu v m x)
      ∙ de_morgan (page_has v x) _ (laws.is_mapped m.kernel x)

  is_mapped-release_regions :
      (rs : List MemoryRegion) (m : Machine K) (x : ℕ)
      → laws.is_mapped (release_regions kvm rs m).kernel x
        ≡ (not (regions_have rs x) && laws.is_mapped m.kernel x)
  unfolding release_regions
  is_mapped-release_regions [] m x = refl
  is_mapped-release_regions (r ∷ rs) m x =
      is_mapped-release_regions rs (MemoryRegion.release kvm r m) x
      ∙ ap (λ b. not (regions_have rs x) && b) (is_mapped-region r m x)
      ∙ de_morgan (region_has r x) _ (laws.is_mapped m.kernel x)

  -- The destructor of a VM unmaps what the VM has mapped and nothing else.
  pub Mapped-release :
      (base : ℕ → Bool) (vm : VirtualMachine) (m : Machine K)
      → Mapped base vm m.kernel
      → (x : ℕ) → laws.is_mapped (release kvm vm m).kernel x ≡ base x
  unfolding release close_vm
  Mapped-release base vm m o x =
      is_mapped-release_regions vm.memory_regions _ x
      ∙ ap (λ b. not (regions_have vm.memory_regions x) && b)
          (is_mapped-release_vcpus vm.vcpus _ x
            ∙ ap (λ b. not (pages_have vm.vcpus x) && b) (close_fd-SameMap vm.fd m.kernel x))
      ∙ ap (λ b. b) (swap (regions_have vm.memory_regions x) _ (laws.is_mapped m.kernel x))
      ∙ o x
    where
      swap : (a b c : Bool) → (not a && (not b && c)) ≡ (not (a || b) && c)
      swap a b c = ground arith
