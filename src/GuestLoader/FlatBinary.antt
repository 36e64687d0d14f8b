-- ===== src/GuestLoader/FlatBinary.antt =====
-- `load` of src/GuestLoader.cpp as a whole, for a flat binary.
use min_bp.Prelude.{
  ℕ, ◌+◌, ◌%◌, ◌/◌, ◌^◌, ◌≤◌, ◌<◌, ◌≡◌, ◌≢◌, refl, ap, ◌∙◌, ◌⊎◌, List, [], ◌∷◌, ◌++◌, some, Option,
  length, u64, arith,
}
use min_bp.Prelude.Result.{ok, ErrorCode, no_error}
use min_bp.Kvm.{Sregs, Machine, Kvm, zero_regs}
use min_bp.Memory.{Memory, poke, peek}
use min_bp.Memory.Laws.{peek-poke, peek-congr}
use min_bp.VCpu.{VCpu}
use min_bp.VCpu
use min_bp.MemoryRegion.{MemoryRegion}
use min_bp.VirtualMachine.{VirtualMachine, add_memory_region, add_vcpu}
use min_bp.VirtualMachine.Slots.{added_region, added_vcpu}
use min_bp.GuestLoader.{
  GuestLoadMode, GuestLoadParams, pgtable_base, write_tables, setup_64bit_vcpu, setup_long_mode,
  setup_mode, Placed, place, load_image, load, read_file,
}
use min_bp.GuestLoader.RealMode.{setup_64bit_registers}
use min_bp.GuestLoader.Placing.{put, placed_fitting}
use min_bp.GuestLoader.Loading.{Loads, memory-setup_vcpu, memory-add_vcpu, over}
use min_bp.GuestLoader.PageTables.{guest, walk}
use min_bp.GuestLoader.PageTables.Entries.{tables-Apart}
use min_bp.GuestLoader.PageTables.Identity.{walk-write_tables}
use min_bp.GuestLoader.PageTables.Bounds.{built_first}

-- An image that ends before the tables or begins behind them.
abbrev pub Clear : ℕ → ℕ → Type 0
Clear start size = (start + size ≤ 0x2000) ⊎ (0x5000 ≤ start)

module _ {K : Type 0} (kvm : Kvm K) where
  -- The machine with the page tables in the region.
  abbrev with_tables : MemoryRegion → Machine K → Machine K
  with_tables r m = record m {
    memory = write_tables (r.host_addr + pgtable_base) pgtable_base m.memory;
  }

  setup_flat_binary :
      (params : GuestLoadParams) (v : VCpu) (vm : VirtualMachine) (m : Machine K) (r : MemoryRegion)
      → params.mode ≡ GuestLoadMode.flat_binary
      → vm.memory_regions ≡ r ∷ []
      → r.guest_phys_addr ≡ 0
      → pgtable_base < r.size
      → r.size < 2 ^ 64
      → setup_mode kvm params params.mode v vm m
        ≡ setup_64bit_vcpu kvm v params.entry_point pgtable_base (with_tables r m)
  unfolding setup_mode setup_long_mode
  setup_flat_binary params v vm m r mode has z low high =
      rw (mode, has, built_first r [] m z low high) refl

  load_placed :
      (params : GuestLoadParams) (image : List ℕ) (vm : VirtualMachine) (m : Machine K) (v : VCpu)
      (vm' : VirtualMachine) (m' : Machine K)
      → params.image ≡ some image
      → image ≢ []
      → place kvm image params.load_address params.memory_size vm m ≡ Placed.placed v vm' m'
      → let done = setup_mode kvm params params.mode v vm' m' in
        load kvm params vm m ≡ some ((done.0, vm'), done.1)
  unfolding load read_file
  load_placed params image vm m v vm' m' given some_bytes q =
      ap (λ (o : Option (List ℕ)). load_image kvm (read_file o) params vm m) given
      ∙ go image some_bytes q
    where
      go :
          (bytes : List ℕ)
          → bytes ≢ []
          → place kvm bytes params.load_address params.memory_size vm m ≡ Placed.placed v vm' m'
          → let done = setup_mode kvm params params.mode v vm' m' in
            load_image kvm bytes params vm m ≡ some ((done.0, vm'), done.1)
      go [] n p = absurd (n refl)
      go (b ∷ bs) n p = unfold load_image in rw (p, load_image) refl

  memory-setup_64bit_vcpu :
      (v : VCpu) (rip cr3 : ℕ) (m : Machine K)
      → (setup_64bit_vcpu kvm v rip cr3 m).1.memory ≡ m.memory
  unfolding setup_64bit_vcpu
  memory-setup_64bit_vcpu v rip cr3 m = memory-setup_vcpu kvm _ _ v m

  sregs_of_kernel :
      (v : VCpu) (r : MemoryRegion) (m : Machine K)
      → VCpu.get_sregs kvm v (with_tables r m) ≡ VCpu.get_sregs kvm v m
  unfolding VCpu.get_sregs
  sregs_of_kernel v r m = refl

  image_kept :
      (host start : ℕ) (image : List ℕ) (mem : Memory)
      → Clear start (length image)
      → peek
          (host + start)
          (length image)
          (write_tables (host + pgtable_base) pgtable_base (poke (host + start) image mem))
        ≡ image
  image_kept host start image mem clear =
      peek-congr (host + start) (length image) _ _
        (λ x p q. tables-Apart (host + pgtable_base) _ x (ground arith))
      ∙ peek-poke (host + start) image mem

  -- Let a flat binary that is not empty be loaded to a VM without regions, and let the kernel grant the
  -- region and then, with the image written, the vCPU `v`. Let the image end inside the memory, which
  -- has room for the three pages of tables at 0x2000 and whose mapping ends at 2 ^ 64 or below. Then `load` returns the error code of the set-up of long mode; the VM has
  -- the one region, of the given size at guest address 0, and one vCPU more, `v`; the processor's walk
  -- of the page tables at 0x2000 takes every virtual address below 1 GiB to itself; and an image that
  -- ends before the tables or begins behind them is in memory at the load address. If the error code is
  -- 0, `v` starts at the entry point with paging on and those tables.
  pub load_flat_binary :
      (laws : Loads kvm) (params : GuestLoadParams) (image : List ℕ) (vm : VirtualMachine)
      (m : Machine K) (region : MemoryRegion) (v : VCpu) (sregs : Sregs)
      → let added = add_memory_region kvm 0 params.memory_size 0 vm m in
        let made = add_vcpu kvm 0 added.0.1 (put region image params.load_address added.1) in
        params.image ≡ some image
        → image ≢ []
        → params.mode ≡ GuestLoadMode.flat_binary
        → vm.memory_regions ≡ []
        → added.0.0 ≡ ok region
        → made.0.0 ≡ ok v
        → VCpu.get_sregs kvm v made.1 ≡ ok sregs
        → params.load_address + length image ≤ params.memory_size
        → pgtable_base + 0x3000 ≤ params.memory_size
        → params.memory_size < 2 ^ 64
        → region.host_addr + params.memory_size ≤ 2 ^ 64
        → (ec : ErrorCode) × (vm' : VirtualMachine) × (m' : Machine K) × (load kvm params vm m
            ≡ some ((ec, vm'), m'))
          × (vm'.memory_regions ≡ region ∷ [])
          × (region.guest_phys_addr ≡ 0)
          × (region.size ≡ params.memory_size)
          × (vm'.vcpus ≡ vm.vcpus ++ v ∷ [])
          × ((a : ℕ) → a < 2 ^ 30 → walk (guest region.host_addr m'.memory) pgtable_base a ≡ some a)
          × (Clear params.load_address (length image)
              → peek (region.host_addr + params.load_address) (length image) m'.memory ≡ image)
          × (ec ≡ no_error
              → (VCpu.get_regs kvm v m'
                  ≡ ok (record zero_regs { rip = params.entry_point; rsp = 0x200000; rflags = 2 }))
                × ((now : Sregs) × (VCpu.get_sregs kvm v m' ≡ ok now)
                    × ((now.cr0 / 2 ^ 31) % 2 ≡ 1)
                    × (now.cr3 ≡ pgtable_base)))
  load_flat_binary laws params image vm m region v sregs given some_bytes mode empty added made read
        fits low high below_top =
      let start = params.load_address in
      let size = params.memory_size in
      let grown = add_memory_region kvm 0 size 0 vm m in
      let staffed = add_vcpu kvm 0 grown.0.1 (put region image start grown.1) in
      let facts = added_region kvm 0 size 0 vm m region added in
      let joined = added_vcpu kvm 0 grown.0.1 (put region image start grown.1) v made in
      let sum : u64 (start + length image) ≤ size = omega arith in
      let fit = over kvm region.size (u64 (start + length image)) size facts.3 sum in
      let q = placed_fitting kvm image start size vm m region v added fit made in
      let regions : staffed.0.1.memory_regions ≡ region ∷ [] =
        joined.1 ∙ facts.0 ∙ ap (λ (rs : List MemoryRegion). rs ++ region ∷ []) empty in
      let ready = with_tables region staffed.1 in
      let done = setup_64bit_vcpu kvm v params.entry_point pgtable_base ready in
      let mode_done =
        setup_flat_binary params v staffed.0.1 staffed.1 region mode regions facts.2 (omega arith)
          (omega arith) in
      let memory : done.1.memory
          ≡ write_tables (region.host_addr + pgtable_base) pgtable_base
              (poke (region.host_addr + start) image grown.1.memory) =
        memory-setup_64bit_vcpu v params.entry_point pgtable_base ready
        ∙ ap (write_tables (region.host_addr + pgtable_base) pgtable_base)
            (memory-add_vcpu kvm laws.keeps 0 grown.0.1 (put region image start grown.1)) in
      (
        done.0,
        staffed.0.1,
        done.1,
        load_placed params image vm m v _ _ given some_bytes q
            ∙ ap (λ (r : ErrorCode × Machine K). some ((r.0, staffed.0.1), r.1)) mode_done,
        regions,
        facts.2,
        facts.3,
        joined.0 ∙ ap (λ (vs : List VCpu). vs ++ v ∷ []) facts.1,
        λ a below. rw memory (walk-write_tables region.host_addr _ a below),
        λ clear. rw memory (image_kept region.host_addr start image grown.1.memory clear),
        λ z.
            let set =
              setup_64bit_registers kvm laws.registers v params.entry_point pgtable_base ready sregs
                (sregs_of_kernel v region staffed.1 ∙ read) z in
            (set.0, (set.1.0, set.1.1, set.1.3, set.1.7)),
      )
