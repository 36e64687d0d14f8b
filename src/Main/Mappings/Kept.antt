-- ===== src/Main/Mappings/Kept.antt =====
-- The VM of src/main.cpp has all that is mapped while the program runs.
use min_bp.Prelude.{
  ℕ, ◌+◌, u32, ◌≡◌, ◌≢◌, refl, ap, ◌∙◌, sym, subst, Bool, true, false, not, ◌&&◌, ◌||◌, List, [],
  ◌∷◌, ◌++◌, some, inl, inr, arith,
}
use min_bp.Prelude.Result.{Result, ok, err, Result-cases}
use min_bp.Kvm.{Fd, MemorySlot, Machine, Kvm, null, map_failed, set_kernel}
use min_bp.VCpu.{VCpu}
use min_bp.VCpu
use min_bp.MemoryRegion.{MemoryRegion}
use min_bp.MemoryRegion
use min_bp.VirtualMachine.{VirtualMachine, add_memory_region, add_vcpu}
use min_bp.Main.Callbacks.{Stable}
use min_bp.Main.Account.{Account, add_vcpu-vm}
use min_bp.Main.Mappings.{
  Mappings, NewBlock, usable, region_has, page_has, regions_have, pages_have, Mapped, SameMap,
  Mapped-SameMap,
}

cancelled : (c b : Bool) → (c ≡ true → b ≡ false) → (not c && (c || b)) ≡ b
cancelled c b h = ground arith

region_joined :
    (a b c before base : Bool)
    → (c ≡ true → before ≡ false)
    → (not (a || b) && before) ≡ base
    → (not ((a || c) || b) && (c || before)) ≡ base
region_joined a b c before base h o = ground arith

page_joined :
    (a b c before base : Bool)
    → (c ≡ true → before ≡ false)
    → (not (a || b) && before) ≡ base
    → (not (a || (b || c)) && (c || before)) ≡ base
page_joined a b c before base h o = ground arith

usable_block : (a : ℕ) → a ≢ null → a ≢ map_failed → usable a ≡ true
usable_block a p q = ground arith

module _ {K : Type 0} (kvm : Kvm K) (laws : Mappings kvm) where
  regions_have-append :
      (rs : List MemoryRegion) (r : MemoryRegion) (x : ℕ)
      → regions_have kvm laws (rs ++ r ∷ []) x
        ≡ (regions_have kvm laws rs x || region_has kvm laws r x)
  regions_have-append [] r x = ground arith
  regions_have-append (q ∷ rs) r x = ground (arith, regions_have-append rs r x)

  pages_have-append :
      (vs : List VCpu) (v : VCpu) (x : ℕ)
      → pages_have kvm laws (vs ++ v ∷ []) x ≡ (pages_have kvm laws vs x || page_has kvm laws v x)
  pages_have-append [] v x = ground arith
  pages_have-append (u ∷ vs) v x = ground (arith, pages_have-append vs v x)

  -- What `k` becomes when the bytes `c`, which were free, are mapped.
  pub record Taken (k k' : K) (c : ℕ → Bool) : Type 0 where
    pub were_free : (x : ℕ) → c x ≡ true → laws.is_mapped k x ≡ false
    pub are_mapped : (x : ℕ) → laws.is_mapped k' x ≡ (c x || laws.is_mapped k x)

  -- How a region or a vCPU is made: not at all, or with its block mapped.
  abbrev Made : {A : Type 0} → (A → ℕ → Bool) → K → Result A → K → Type 0
  Made has k (err e) k' = SameMap kvm laws k k'
  Made has k (ok a) k' = Taken k k' (has a)

  block-Taken :
      (k k1 k2 : K) (a n : ℕ)
      → NewBlock laws.covers (laws.is_mapped k) (laws.is_mapped k1) a n
      → SameMap kvm laws k1 k2
      → Taken k k2 (λ x. usable a && laws.covers a n x)
  block-Taken k k1 k2 a n b same =
      rw (usable_block a b.not_null b.not_failed)
        (record { were_free = b.free; are_mapped = λ x. same x ∙ b.grown x })

  region-Made :
      (fd : Fd) (slot gpa size flags : ℕ) (m : Machine K)
      → let r = MemoryRegion.create kvm fd slot gpa size flags m in
        Made (region_has kvm laws) m.kernel r.0 r.1.kernel
  unfolding MemoryRegion.create
  region-Made fd slot gpa size flags m =
      let (mapped, m1) = kvm.mmap_anonymous size m in
      elim (Result-cases mapped) [
        | inr (e, f) ↦ rw (f, MemoryRegion.create) (λ x. laws.map_refused size m e x f)
        | inl (host, f) ↦
            let s : MemorySlot = record {
              slot = slot;
              flags = flags;
              guest_phys_addr = gpa;
              memory_size = size;
              userspace_addr = host;
            } in
            let block = laws.mapped size m host f in
            let kept = laws.set_slot fd s m1.kernel in
            elim (Result-cases (kvm.set_user_memory_region fd s m1.kernel).0) [
              | inr (e, g) ↦
                  rw (f, MemoryRegion.create, g)
                    (λ x.
                      laws.unmapped host size _ x
                      ∙ ap (λ b. not (laws.covers host size x) && b) (kept x ∙ block.grown x)
                      ∙ cancelled (laws.covers host size x) _ (block.free x))
              | inl (_, g) ↦
                  rw (f, MemoryRegion.create, g) (block-Taken m.kernel _ _ host size block kept)
            ]
      ]

  vcpu-Made :
      (vm : Fd) (id size : ℕ) (m : Machine K)
      → let r = VCpu.create kvm vm id size m in Made (page_has kvm laws) m.kernel r.0 r.1.kernel
  unfolding VCpu.create
  vcpu-Made vm id size m =
      let (made, k) = kvm.create_vcpu vm id m.kernel in
      let same = laws.vcpu_made vm id m.kernel in
      elim (Result-cases made) [
        | inr (e, f) ↦ rw (f, VCpu.create) same
        | inl (fd, f) ↦
            let mapped = kvm.mmap_run (some fd) size (set_kernel k m) in
            elim (Result-cases mapped.0) [
              | inr (e, g) ↦
                  rw (f, VCpu.create, g)
                    (λ x.
                      laws.closed fd mapped.1.kernel x
                      ∙ laws.run_map_refused (some fd) size (set_kernel k m) e x g
                      ∙ same x)
              | inl (page, g) ↦
                  let block = laws.run_mapped (some fd) size (set_kernel k m) page g in
                  rw (f, VCpu.create, g)
                    (block-Taken m.kernel mapped.1.kernel _ page size
                      (record {
                        not_null = block.not_null;
                        not_failed = block.not_failed;
                        free = λ x c. sym (same x) ∙ block.free x c;
                        grown =
                            λ x. block.grown x ∙ ap (λ b. laws.covers page size x || b) (same x);
                      })
                      (λ x. refl))
            ]
      ]

  region_added-Mapped :
      (base : ℕ → Bool) (vm : VirtualMachine) (r : MemoryRegion) (slot : ℕ) (k k' : K)
      → Taken k k' (region_has kvm laws r)
      → Mapped kvm laws base vm k
      → Mapped kvm laws base
          (record vm { next_slot = slot; memory_regions = vm.memory_regions ++ r ∷ [] })
          k'
  region_added-Mapped base vm r slot k k' t o x =
      rw (regions_have-append vm.memory_regions r x, t.are_mapped x)
        (region_joined _ (pages_have kvm laws vm.vcpus x) _ _ _ (t.were_free x) (o x))

  vcpu_added-Mapped :
      (base : ℕ → Bool) (vm : VirtualMachine) (r : Result VCpu) (k k' : K)
      → Made (page_has kvm laws) k r k'
      → Mapped kvm laws base vm k
      → Mapped kvm laws base
          (elim r [ err e ↦ vm | ok v ↦ record vm { vcpus = vm.vcpus ++ v ∷ [] } ])
          k'
  vcpu_added-Mapped base vm (err e) k k' same o x = Mapped-SameMap kvm laws base vm k k' same o x
  vcpu_added-Mapped base vm (ok v) k k' t o x =
      rw (pages_have-append vm.vcpus v x, t.are_mapped x)
        (page_joined (regions_have kvm laws vm.memory_regions x) _ _ _ _ (t.were_free x) (o x))

  pub add_memory_region-Mapped :
      (base : ℕ → Bool) (gpa size flags : ℕ) (vm : VirtualMachine) (m : Machine K)
      → Mapped kvm laws base vm m.kernel
      → let r = add_memory_region kvm gpa size flags vm m in Mapped kvm laws base r.0.1 r.1.kernel
  unfolding add_memory_region
  add_memory_region-Mapped base gpa size flags vm m o =
      let (made, m') = MemoryRegion.create kvm vm.fd vm.next_slot gpa size flags m in
      let how = region-Made vm.fd vm.next_slot gpa size flags m in
      elim (Result-cases made) [
        | inr (e, f) ↦
            let same = subst (λ q. Made (region_has kvm laws) m.kernel q m'.kernel) f how in
            rw (f, add_memory_region) (Mapped-SameMap kvm laws base vm m.kernel m'.kernel same o)
        | inl (r, f) ↦
            let taken = subst (λ q. Made (region_has kvm laws) m.kernel q m'.kernel) f how in
            rw (f, add_memory_region)
              (region_added-Mapped base vm r (u32 (vm.next_slot + 1)) m.kernel m'.kernel taken o)
      ]

  pub add_vcpu-Mapped :
      (base : ℕ → Bool) (id : ℕ) (vm : VirtualMachine) (m : Machine K)
      → Mapped kvm laws base vm m.kernel
      → let r = add_vcpu kvm id vm m in Mapped kvm laws base r.0.1 r.1.kernel
  unfolding add_vcpu
  add_vcpu-Mapped base id vm m o =
      let r = VCpu.create kvm vm.fd id vm.vcpu_mmap_size m in
      subst (λ (u : VirtualMachine). Mapped kvm laws base u r.1.kernel)
        (sym (add_vcpu-vm kvm id vm m))
        (vcpu_added-Mapped base vm r.0 m.kernel r.1.kernel (vcpu-Made vm.fd id vm.vcpu_mmap_size m)
          o)

  pub Mapped-Stable : (base : ℕ → Bool) (vm : VirtualMachine) → Stable kvm (Mapped kvm laws base vm)
  Mapped-Stable base vm = record {
    run = λ fd m. Mapped-SameMap kvm laws base vm m.kernel _ (laws.ran fd m);
    now = λ k. Mapped-SameMap kvm laws base vm k _ (laws.told k);
    set_regs = λ fd regs k. Mapped-SameMap kvm laws base vm k _ (laws.regs_set fd regs k);
    set_sregs = λ fd sregs k. Mapped-SameMap kvm laws base vm k _ (laws.sregs_set fd sregs k);
  }

  -- What the VM has mapped accounts for the mapped bytes all through the program.
  abbrev pub mapped_account : (ℕ → Bool) → Account kvm
  mapped_account base = record {
    Holds = λ vm k. Mapped kvm laws base vm k;
    stable = Mapped-Stable base;
    region_added = add_memory_region-Mapped base;
    vcpu_added = add_vcpu-Mapped base;
    cpuid_set =
        λ fd n entries vm k. Mapped-SameMap kvm laws base vm k _ (laws.cpuid_set fd n entries k);
  }
