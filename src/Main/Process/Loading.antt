-- ===== src/Main/Process/Loading.antt =====
-- The loading of the guest in src/main.cpp opens no descriptor that the VM does not own.
use min_bp.Prelude.{
  ℕ, ◌==◌, ==_iff, ◌≡◌, refl, ap, ◌∙◌, sym, subst, inl, inr, Bool, true, false, not, ◌&&◌, ◌||◌,
  List, [], ◌∷◌, ◌++◌, some, arith,
}
use min_bp.Prelude.Result.{Result, ok, err, Result-cases}
use min_bp.Kvm.{MemorySlot, Fd, Machine, Kvm, set_kernel}
use min_bp.VCpu.{VCpu}
use min_bp.VCpu
use min_bp.MemoryRegion.{MemoryRegion}
use min_bp.MemoryRegion
use min_bp.VirtualMachine.{VirtualMachine, add_memory_region, add_vcpu}
use min_bp.VirtualMachine.Release.{is_fd, vcpus_own, owns}
use min_bp.Main.Account.{Account, add_vcpu-vm}
use min_bp.Main.Process.{Process, Owned, Same, Owned-Same, Owned-Stable, fresh}

vcpus_own-append :
    (vs : List VCpu) (v : VCpu) (x : ℕ)
    → vcpus_own (vs ++ v ∷ []) x ≡ (vcpus_own vs x || is_fd v.fd x)
vcpus_own-append [] v x = ground arith
vcpus_own-append (u ∷ us) v x = ground (arith, vcpus_own-append us v x)

joined :
    (a b c open_before base : Bool)
    → (c ≡ true → base ≡ false)
    → (not (a || b) && open_before) ≡ base
    → (not (a || (b || c)) && (c || open_before)) ≡ base
joined a b c open_before base h o = ground arith

module _ {K : Type 0} (kvm : Kvm K) (laws : Process kvm) where
  pub create-Same :
      (fd : Fd) (slot gpa size flags : ℕ) (m : Machine K)
      → Same kvm laws m.kernel (MemoryRegion.create kvm fd slot gpa size flags m).1.kernel
  unfolding MemoryRegion.create
  create-Same fd slot gpa size flags m x =
      let (mapped, m1) = kvm.mmap_anonymous size m in
      elim (Result-cases mapped) [
        | inr (e, f) ↦ rw (f, MemoryRegion.create) (laws.mapped size m x)
        | inl (host, f) ↦
            let s : MemorySlot = record {
              slot = slot;
              flags = flags;
              guest_phys_addr = gpa;
              memory_size = size;
              userspace_addr = host;
            } in
            let kept = laws.set_slot fd s m1.kernel x ∙ laws.mapped size m x in
            elim (Result-cases (kvm.set_user_memory_region fd s m1.kernel).0) [
              | inr (e, g) ↦ rw (f, MemoryRegion.create, g) (laws.unmapped host size _ x ∙ kept)
              | inl (_, g) ↦ rw (f, MemoryRegion.create, g) kept
            ]
      ]

  pub add_memory_region-Owned :
      (base : ℕ → Bool) (gpa size flags : ℕ) (vm : VirtualMachine) (m : Machine K)
      → Owned kvm laws base vm m.kernel
      → let r = add_memory_region kvm gpa size flags vm m in Owned kvm laws base r.0.1 r.1.kernel
  unfolding add_memory_region
  add_memory_region-Owned base gpa size flags vm m o =
      let made = MemoryRegion.create kvm vm.fd vm.next_slot gpa size flags m in
      let same = create-Same vm.fd vm.next_slot gpa size flags m in
      let kept = Owned-Same kvm laws base vm m.kernel made.1.kernel same o in
      elim (Result-cases made.0) [
        | inr (e, f) ↦ rw (f, add_memory_region) kept
        | inl (r, f) ↦ rw (f, add_memory_region) kept
      ]

  -- How a vCPU is made: not at all, or with a descriptor that was not open.
  pub data Created (k : K) : Result VCpu × Machine K → Type 0 where
    no_vcpu : (e : ℕ) (m : Machine K) → Same kvm laws k m.kernel → Created k (err e, m)
    new_vcpu :
        (v : VCpu) (fd : ℕ) (m : Machine K)
        → v.fd ≡ some fd
        → laws.is_open k fd ≡ false
        → ((x : ℕ) → laws.is_open m.kernel x ≡ (x == fd || laws.is_open k x))
        → Created k (ok v, m)

  pub create-Created :
      (vm : Fd) (id size : ℕ) (m : Machine K) → Created m.kernel (VCpu.create kvm vm id size m)
  unfolding VCpu.create
  create-Created vm id size m =
      let (made, k) = kvm.create_vcpu vm id m.kernel in
      elim (Result-cases made) [
        | inr (e, f) ↦
            rw (f, VCpu.create) (no_vcpu e _ (λ x. laws.vcpu_refused vm id m.kernel e x f))
        | inl (fd, f) ↦
            let (free, grown) = laws.vcpu_made vm id m.kernel fd f in
            let mapped = kvm.mmap_run (some fd) size (set_kernel k m) in
            let kept = λ (x : ℕ). laws.run_mapped (some fd) size (set_kernel k m) x ∙ grown x in
            elim (Result-cases mapped.0) [
              | inr (e, g) ↦
                  rw (f, VCpu.create, g)
                    (no_vcpu e _ (λ x.
                      laws.closed fd mapped.1.kernel x
                      ∙ ap (λ b. not (x == fd) && b) (kept x)
                      ∙ fresh kvm laws fd (laws.is_open m.kernel) x free))
              | inl (page, g) ↦ rw (f, VCpu.create, g) (new_vcpu _ fd _ refl free kept)
            ]
      ]

  -- A VM to which an own vCPU was added still owns all that was opened.
  Created-Owned :
      (base : ℕ → Bool) (vm : VirtualMachine) (k : K) (r : Result VCpu × Machine K)
      → Created k r
      → Owned kvm laws base vm k
      → Owned kvm laws base
          (elim r.0 [ err e ↦ vm | ok v ↦ record vm { vcpus = vm.vcpus ++ v ∷ [] } ])
          r.1.kernel
  Created-Owned base vm k _ (no_vcpu e m same) o x = Owned-Same kvm laws base vm k m.kernel same o x
  Created-Owned base vm k _ (new_vcpu v fd m has free grown) o x =
      let none_there : base fd ≡ false = sym (o fd) ∙ rw free (ground arith) in
      let own : owns (record vm { vcpus = vm.vcpus ++ v ∷ [] }) x
          ≡ (is_fd vm.fd x || (vcpus_own vm.vcpus x || x == fd)) =
        rw (vcpus_own-append vm.vcpus v x, has) refl in
      rw (own, grown x)
        (joined (is_fd vm.fd x) (vcpus_own vm.vcpus x) (x == fd) (laws.is_open k x) (base x)
          (λ e. rw ((==_iff x fd).0 e) none_there) (o x))

  pub add_vcpu-Owned :
      (base : ℕ → Bool) (id : ℕ) (vm : VirtualMachine) (m : Machine K)
      → Owned kvm laws base vm m.kernel
      → let r = add_vcpu kvm id vm m in Owned kvm laws base r.0.1 r.1.kernel
  unfolding add_vcpu
  add_vcpu-Owned base id vm m o =
      subst
        (λ (u : VirtualMachine).
          Owned kvm laws base u (VCpu.create kvm vm.fd id vm.vcpu_mmap_size m).1.kernel)
        (sym (add_vcpu-vm kvm id vm m))
        (Created-Owned base vm m.kernel _ (create-Created vm.fd id vm.vcpu_mmap_size m) o)

  -- What the VM owns accounts for the open descriptors all through the program.
  abbrev pub owned_account : (ℕ → Bool) → Account kvm
  owned_account base = record {
    Holds = λ vm k. Owned kvm laws base vm k;
    stable = Owned-Stable kvm laws base;
    region_added = add_memory_region-Owned base;
    vcpu_added = add_vcpu-Owned base;
    cpuid_set = λ fd n entries vm k o x.
        Owned-Same kvm laws base vm k _ (laws.cpuid_set fd n entries k) o x;
  }
