-- ===== src/VirtualMachine/Slots.antt =====
-- The slots of the memory regions that src/VirtualMachine.cpp adds.
use min_bp.Prelude.{
  ℕ, ◌+◌, ◌^◌, ◌<◌, ◌≡◌, refl, ap, ◌∙◌, sym, inl, inr, List, [], ◌∷◌, ◌++◌, arith, u32,
}
use min_bp.Prelude.Result.{ok, err, Result-cases}
use min_bp.Kvm.{Fd, Machine, Kvm}
use min_bp.MemoryRegion.{MemoryRegion}
use min_bp.MemoryRegion
use min_bp.VCpu.{VCpu}
use min_bp.VCpu
use min_bp.VirtualMachine.{add_vcpu, VirtualMachine, add_memory_region}

-- The regions are numbered by their slots, from `i` to below `n`.
abbrev pub Numbered : ℕ → List MemoryRegion → ℕ → Type 0
Numbered i [] n = i ≡ n
Numbered i (r ∷ rs) n = (r.slot ≡ i) × Numbered (i + 1) rs n

Numbered-last :
    (i : ℕ) (rs : List MemoryRegion) (r : MemoryRegion) (n : ℕ)
    → Numbered i rs n
    → r.slot ≡ n
    → Numbered i (rs ++ r ∷ []) (n + 1)
Numbered-last i [] r n h e = (e ∙ sym h, ap (λ (k : ℕ). k + 1) h)
Numbered-last i (q ∷ rs) r n h e = (h.0, Numbered-last (i + 1) rs r n h.1 e)

err-ne-ok : {x : ℕ} {r : MemoryRegion} → ¬ (err x ≡ ok r)
err-ne-ok h = cc

ok-ne-err : {x : ℕ} {r : MemoryRegion} → ¬ (ok r ≡ err x)
ok-ne-err h = cc

module _ {K : Type 0} (kvm : Kvm K) where
  created_slot :
      (fd : Fd) (slot gpa size flags : ℕ) (m : Machine K) (r : MemoryRegion)
      → (MemoryRegion.create kvm fd slot gpa size flags m).0 ≡ ok r
      → (r.slot ≡ slot) × (r.guest_phys_addr ≡ gpa) × (r.size ≡ size) × (r.vm_fd ≡ fd)
  unfolding MemoryRegion.create
  created_slot fd slot gpa size flags m r h = ground arith

  pub added_region :
      (gpa size flags : ℕ) (vm : VirtualMachine) (m : Machine K) (r : MemoryRegion)
      → (add_memory_region kvm gpa size flags vm m).0.0 ≡ ok r
      → ((add_memory_region kvm gpa size flags vm m).0.1.memory_regions
          ≡ vm.memory_regions ++ r ∷ [])
        × ((add_memory_region kvm gpa size flags vm m).0.1.vcpus ≡ vm.vcpus)
        × (r.guest_phys_addr ≡ gpa)
        × (r.size ≡ size)
  unfolding add_memory_region
  added_region gpa size flags vm m r h =
      elim (Result-cases (MemoryRegion.create kvm vm.fd vm.next_slot gpa size flags m).0) [
        | inr (x, f) ↦ absurd (ground arith)
        | inl (q, f) ↦ ground (arith, created_slot vm.fd vm.next_slot gpa size flags m q f)
      ]

  pub added_vcpu :
      (id : ℕ) (vm : VirtualMachine) (m : Machine K) (v : VCpu)
      → (add_vcpu kvm id vm m).0.0 ≡ ok v
      → ((add_vcpu kvm id vm m).0.1.vcpus ≡ vm.vcpus ++ v ∷ [])
        × ((add_vcpu kvm id vm m).0.1.memory_regions ≡ vm.memory_regions)
  unfolding add_vcpu
  added_vcpu id vm m v h = elim (Result-cases (VCpu.create kvm vm.fd id vm.vcpu_mmap_size m).0) [
    | inr (x, f) ↦ absurd (ground arith)
    | inl (q, f) ↦ ground arith
  ]

  -- Where the regions are numbered by their slots from 0 to below the next slot, adding a region keeps
  -- them so, as long as fewer than 2 ^ 32 - 1 were added: on success there is one region more, the
  -- last, with the address and the size asked for; on failure the VM is as it was. The vCPUs stay.
  pub add_memory_region_slots :
      (gpa size flags : ℕ) (vm : VirtualMachine) (m : Machine K)
      → Numbered 0 vm.memory_regions vm.next_slot
      → vm.next_slot + 1 < 2 ^ 32
      → let ((result, vm'), m') = add_memory_region kvm gpa size flags vm m in
        Numbered 0 vm'.memory_regions vm'.next_slot
        × (vm'.vcpus ≡ vm.vcpus)
        × ((r : MemoryRegion)
            → result ≡ ok r
            → (vm'.memory_regions ≡ vm.memory_regions ++ r ∷ [])
              × (r.guest_phys_addr ≡ gpa)
              × (r.size ≡ size))
        × ((e : ℕ) → result ≡ err e → vm' ≡ vm)
  unfolding add_memory_region
  add_memory_region_slots gpa size flags vm m numbered bound =
      elim (Result-cases (MemoryRegion.create kvm vm.fd vm.next_slot gpa size flags m).0) [
        | inr (x, f) ↦
            rw (f, add_memory_region) (numbered, refl, λ r h. absurd (err-ne-ok h), λ e h. refl)
        | inl (r, f) ↦
            let made = created_slot vm.fd vm.next_slot gpa size flags m r f in
            let grown = Numbered-last 0 vm.memory_regions r vm.next_slot numbered made.0 in
            let next : u32 (vm.next_slot + 1) ≡ vm.next_slot + 1 = omega arith in
            rw (f, add_memory_region, next)
              (grown, refl, λ q h. ground arith, λ e h. absurd (ok-ne-err h))
      ]
