-- ===== src/VirtualMachine/Release.antt =====
-- What the destructor of src/VirtualMachine.cpp closes.
use min_bp.Prelude.{
  ℕ, ◌==◌, ◌≡◌, refl, ap, ◌∙◌, Bool, false, not, ◌&&◌, ◌||◌, List, [], ◌∷◌, none, some, arith,
  Bool-cases, inl, inr,
}
use min_bp.Kvm.{Fd, MemorySlot, Machine, Kvm, null, map_failed}
use min_bp.VCpu.{VCpu}
use min_bp.VCpu
use min_bp.MemoryRegion.{MemoryRegion, holds, removal}
use min_bp.MemoryRegion
use min_bp.VirtualMachine.{
  VirtualMachine, release, assign, release_vcpus, release_regions, close_vm,
}

-- What the code relies on, with `is_open` for the descriptors of the process: closing closes that
-- descriptor alone, and neither unmapping nor a change of the slots opens or closes any.
pub record Closes {K : Type 0} (kvm : Kvm K) : Type 0 where
  pub is_open : K → ℕ → Bool
  pub closed :
      (fd : ℕ) (k : K) (x : ℕ) → is_open (kvm.close fd k) x ≡ (not (x == fd) && is_open k x)
  pub unmapped : (a n : ℕ) (k : K) (x : ℕ) → is_open (kvm.munmap a n k) x ≡ is_open k x
  pub set_slot :
      (fd : Fd) (s : MemorySlot) (k : K) (x : ℕ)
      → is_open (kvm.set_user_memory_region fd s k).1 x ≡ is_open k x

-- Whether a member holds the descriptor, and whether the VM or one of its vCPUs does.
abbrev pub is_fd : Fd → ℕ → Bool
is_fd none x = false
is_fd (some fd) x = x == fd

abbrev pub vcpus_own : List VCpu → ℕ → Bool
vcpus_own [] x = false
vcpus_own (v ∷ vs) x = is_fd v.fd x || vcpus_own vs x

abbrev pub owns : VirtualMachine → ℕ → Bool
owns vm x = is_fd vm.fd x || vcpus_own vm.vcpus x

module _ {K : Type 0} (kvm : Kvm K) (laws : Closes kvm) where
  is_open-close_fd :
      (fd : Fd) (k : K) (x : ℕ)
      → laws.is_open (VCpu.close_fd kvm fd k) x ≡ (not (is_fd fd x) && laws.is_open k x)
  unfolding VCpu.close_fd
  is_open-close_fd none k x = refl
  is_open-close_fd (some fd) k x = laws.closed fd k x

  is_open-unmap :
      (v : VCpu) (k : K) (x : ℕ) → laws.is_open (VCpu.unmap kvm v k) x ≡ laws.is_open k x
  unfolding VCpu.unmap
  is_open-unmap v k x =
      elim (Bool-cases (not (v.run_page == null) && not (v.run_page == map_failed))) [
        | inl e ↦ rw e (laws.unmapped v.run_page v.mmap_size k x)
        | inr e ↦ rw e refl
      ]

  pub is_open-vcpu :
      (v : VCpu) (m : Machine K) (x : ℕ)
      → laws.is_open (VCpu.release kvm v m).kernel x
        ≡ (not (is_fd v.fd x) && laws.is_open m.kernel x)
  unfolding VCpu.release
  is_open-vcpu v m x =
      is_open-close_fd v.fd _ x ∙ ap (λ b. not (is_fd v.fd x) && b) (is_open-unmap v m.kernel x)

  de_morgan : (a b c : Bool) → (not b && (not a && c)) ≡ (not (a || b) && c)
  de_morgan a b c = ground arith

  pub is_open-release_vcpus :
      (vs : List VCpu) (m : Machine K) (x : ℕ)
      → laws.is_open (release_vcpus kvm vs m).kernel x
        ≡ (not (vcpus_own vs x) && laws.is_open m.kernel x)
  unfolding release_vcpus
  is_open-release_vcpus [] m x = refl
  is_open-release_vcpus (v ∷ vs) m x =
      is_open-release_vcpus vs (VCpu.release kvm v m) x
      ∙ ap (λ b. not (vcpus_own vs x) && b) (is_open-vcpu v m x)
      ∙ de_morgan (is_fd v.fd x) _ (laws.is_open m.kernel x)

  is_open-region :
      (r : MemoryRegion) (m : Machine K) (x : ℕ)
      → laws.is_open (MemoryRegion.release kvm r m).kernel x ≡ laws.is_open m.kernel x
  unfolding MemoryRegion.release
  is_open-region r m x = elim (Bool-cases (holds r)) [
    | inl e ↦
        rw e
          (laws.unmapped r.host_addr r.size _ x ∙ laws.set_slot r.vm_fd (removal r.slot) m.kernel x)
    | inr e ↦ rw e refl
  ]

  pub is_open-release_regions :
      (rs : List MemoryRegion) (m : Machine K) (x : ℕ)
      → laws.is_open (release_regions kvm rs m).kernel x ≡ laws.is_open m.kernel x
  unfolding release_regions
  is_open-release_regions [] m x = refl
  is_open-release_regions (r ∷ rs) m x =
      is_open-release_regions rs (MemoryRegion.release kvm r m) x ∙ is_open-region r m x

  pub is_open-close_vm :
      (vm : VirtualMachine) (m : Machine K) (x : ℕ)
      → laws.is_open (close_vm kvm vm m).kernel x ≡ (not (is_fd vm.fd x) && laws.is_open m.kernel x)
  unfolding close_vm
  is_open-close_vm vm m x = is_open-close_fd vm.fd m.kernel x

  -- After the destructor of a VM its descriptor and those of its vCPUs are closed, and every other
  -- descriptor of the process is as it was.
  pub is_open-release :
      (vm : VirtualMachine) (m : Machine K) (x : ℕ)
      → laws.is_open (release kvm vm m).kernel x ≡ (not (owns vm x) && laws.is_open m.kernel x)
  unfolding release
  is_open-release vm m x =
      is_open-release_regions vm.memory_regions _ x
      ∙ is_open-release_vcpus vm.vcpus _ x
      ∙ ap (λ b. not (vcpus_own vm.vcpus x) && b) (is_open-close_vm vm m x)
      ∙ de_morgan (is_fd vm.fd x) _ (laws.is_open m.kernel x)

  -- The move assignment closes what the destructor of the overwritten VM would have closed.
  pub is_open-assign :
      (self other : VirtualMachine) (m : Machine K) (x : ℕ)
      → laws.is_open (assign kvm self other m).1.kernel x
        ≡ (not (owns self x) && laws.is_open m.kernel x)
  unfolding assign
  is_open-assign self other m x =
      is_open-release_vcpus self.vcpus _ x
      ∙ ap (λ b. not (vcpus_own self.vcpus x) && b)
          (is_open-release_regions self.memory_regions _ x ∙ is_open-close_vm self m x)
      ∙ de_morgan (is_fd self.fd x) _ (laws.is_open m.kernel x)
