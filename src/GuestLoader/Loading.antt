-- ===== src/GuestLoader/Loading.antt =====
-- `loadBytes` of src/GuestLoader.cpp as a whole: the bounds of the image, and what is in place at the end.
use min_bp.Prelude.{
  ℕ, ◌+◌, ◌%◌, ◌^◌, ◌≤◌, ◌<◌, ◌==◌, ◌≡◌, refl, ap, ◌∙◌, inl, inr, true, false, List, [], ◌∷◌, ◌++◌,
  some, length, ltb, u16, u64, arith, Bool-cases,
}
use min_bp.Prelude.Result.{ok, ErrorCode, no_error, Result-cases}
use min_bp.Kvm.{Fd, Regs, Sregs, Machine, Kvm, zero_regs}
use min_bp.Memory.{peek}
use min_bp.Memory.Laws.{peek-poke}
use min_bp.VCpu.{VCpu}
use min_bp.VCpu
use min_bp.VCpu.Registers.{RegistersHold}
use min_bp.MemoryRegion.{MemoryRegion}
use min_bp.VirtualMachine.{VirtualMachine, add_memory_region, add_vcpu}
use min_bp.GuestLoader.{enomem, setup_vcpu, setup_real_mode_vcpu, load_bytes}
use min_bp.VirtualMachine.Slots.{added_region, added_vcpu}
use min_bp.GuestLoader.RealMode.{setup_real_mode_registers}
use min_bp.GuestLoader.Placing.{put, refused_large, placed_fitting, placed_loads}

module _ {K : Type 0} (kvm : Kvm K) where
  memory-create :
      ((fd : Fd) (size : ℕ) (m : Machine K) → (kvm.mmap_run fd size m).1.memory ≡ m.memory)
      → (vm_fd : Fd) (id mmap_size : ℕ) (m : Machine K)
      → (VCpu.create kvm vm_fd id mmap_size m).1.memory ≡ m.memory
  unfolding VCpu.create
  memory-create keeps vm_fd id mmap_size m =
      let (made, k) = kvm.create_vcpu vm_fd id m.kernel in
      elim (Result-cases made) [
        | inr (x, e) ↦ rw (e, VCpu.create) refl
        | inl (fd, e) ↦
            elim (Result-cases (kvm.mmap_run (some fd) mmap_size (record m { kernel = k })).0) [
              | inr (x, f) ↦ rw (e, VCpu.create, f) (keeps (some fd) mmap_size _)
              | inl (page, f) ↦ rw (e, VCpu.create, f) (keeps (some fd) mmap_size _)
            ]
      ]

  pub memory-add_vcpu :
      ((fd : Fd) (size : ℕ) (m : Machine K) → (kvm.mmap_run fd size m).1.memory ≡ m.memory)
      → (id : ℕ) (vm : VirtualMachine) (m : Machine K) → (add_vcpu kvm id vm m).1.memory ≡ m.memory
  unfolding add_vcpu
  memory-add_vcpu keeps id vm m = memory-create keeps vm.fd id vm.vcpu_mmap_size m

  pub memory-setup_vcpu :
      (change : Sregs → Sregs) (regs : Regs) (v : VCpu) (m : Machine K)
      → (setup_vcpu kvm change regs v m).1.memory ≡ m.memory
  unfolding setup_vcpu
  memory-setup_vcpu change regs v m = elim (Result-cases (VCpu.get_sregs kvm v m)) [
    | inr (x, e) ↦ rw (e, setup_vcpu) refl
    | inl (sregs, e) ↦
        let set = VCpu.set_sregs kvm v (change sregs) m in
        elim (Bool-cases (set.0 == no_error)) [
          | inl t ↦ rw (e, setup_vcpu, t) (unfold VCpu.set_regs VCpu.set_sregs in refl)
          | inr t ↦ rw (e, setup_vcpu, t) (unfold VCpu.set_sregs in refl)
        ]
  ]

  memory-setup_real_mode_vcpu :
      (v : VCpu) (ip : ℕ) (m : Machine K) → (setup_real_mode_vcpu kvm v ip m).1.memory ≡ m.memory
  unfolding setup_real_mode_vcpu
  memory-setup_real_mode_vcpu v ip m = memory-setup_vcpu _ _ v m

  pub over :
      (size sum memory_size : ℕ) → size ≡ memory_size → sum ≤ memory_size → ltb size sum ≡ false
  over size sum memory_size e h = ground arith

  under : (size sum memory_size : ℕ) → size ≡ memory_size → memory_size < sum → ltb size sum ≡ true
  under size sum memory_size e h = ground arith

  -- What the code relies on: a mapping of a run structure changes no byte that was there, and the laws
  -- of the register calls.
  pub record Loads : Type 0 where
    pub registers : RegistersHold kvm
    pub keeps : (fd : Fd) (size : ℕ) (m : Machine K) → (kvm.mmap_run fd size m).1.memory ≡ m.memory

  -- Let the kernel grant the region, whose mapping ends at 2 ^ 64 or below, and then, with the code
  -- written, the vCPU `v`. When the code ends inside the memory, `load_bytes` returns the error code of
  -- the set-up of real mode; the VM then has one region more, of that size at guest address 0, and
  -- one vCPU more, `v`; and the code is in memory at the load address. If the error code is 0, `v`
  -- starts at the low 16 bits of the load address. When the sum of the load address and the code's
  -- length, cut to 64 bits, is larger than the memory size, `load_bytes` returns ENOMEM, with the
  -- region added and no vCPU. A sum that wraps to a small one is neither case.
  pub load_bytes_outcome :
      (laws : Loads) (code : List ℕ) (load_addr memory_size : ℕ) (vm : VirtualMachine)
      (m : Machine K) (region : MemoryRegion) (v : VCpu) (sregs : Sregs)
      → let added = add_memory_region kvm 0 memory_size 0 vm m in
        let made = add_vcpu kvm 0 added.0.1 (put region code load_addr added.1) in
        let sum = (load_addr + length code) % 2 ^ 64 in
        added.0.0 ≡ ok region
        → made.0.0 ≡ ok v
        → VCpu.get_sregs kvm v made.1 ≡ ok sregs
        → memory_size < 2 ^ 64
        → region.host_addr + memory_size ≤ 2 ^ 64
        → (load_addr + length code ≤ memory_size
            → (ec : ErrorCode) × (vm' : VirtualMachine) × (m' : Machine K) × (load_bytes kvm code
                  load_addr memory_size vm m
                ≡ some ((ec, vm'), m'))
              × (vm'.memory_regions ≡ vm.memory_regions ++ region ∷ [])
              × (region.guest_phys_addr ≡ 0)
              × (region.size ≡ memory_size)
              × (vm'.vcpus ≡ vm.vcpus ++ v ∷ [])
              × (peek (region.host_addr + load_addr) (length code) m'.memory ≡ code)
              × (ec ≡ no_error
                  → VCpu.get_regs kvm v m'
                    ≡ ok (record zero_regs { rip = load_addr % 2 ^ 16; rsp = 0xFFF0; rflags = 2 })))
          × (memory_size < sum
              → load_bytes kvm code load_addr memory_size vm m ≡ some ((enomem, added.0.1), added.1)
                × (added.0.1.vcpus ≡ vm.vcpus))
  load_bytes_outcome laws code load_addr memory_size vm m region v sregs added made read size_fits
        below_top =
      let grown = add_memory_region kvm 0 memory_size 0 vm m in
      let staffed = add_vcpu kvm 0 grown.0.1 (put region code load_addr grown.1) in
      let done = setup_real_mode_vcpu kvm v (u16 load_addr) staffed.1 in
      let facts = added_region kvm 0 memory_size 0 vm m region added in
      let joined = added_vcpu kvm 0 grown.0.1 (put region code load_addr grown.1) v made in
      let sum = u64 (load_addr + length code) in
      (
        λ fits.
            let fit = over region.size sum memory_size facts.3 (omega arith) in
            (
              done.0,
              staffed.0.1,
              done.1,
              placed_loads kvm code load_addr memory_size vm m v _ _
                  (placed_fitting kvm code load_addr memory_size vm m region v added fit made),
              joined.1 ∙ facts.0,
              facts.2,
              facts.3,
              joined.0 ∙ ap (λ (vs : List VCpu). vs ++ v ∷ []) facts.1,
              ap (peek (region.host_addr + load_addr) (length code)) (
                    memory-setup_real_mode_vcpu v (u16 load_addr) staffed.1
                    ∙ memory-add_vcpu laws.keeps 0 grown.0.1 (put region code load_addr grown.1))
                  ∙ peek-poke (region.host_addr + load_addr) code grown.1.memory,
              λ z.
                  (setup_real_mode_registers kvm laws.registers v (u16 load_addr) staffed.1 sregs
                    read z).0,
            ),
        λ large. (
          refused_large kvm code load_addr memory_size vm m region added
              (under region.size sum memory_size facts.3 large),
          facts.1,
        ),
      )
