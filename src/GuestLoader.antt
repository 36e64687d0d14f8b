-- ===== src/GuestLoader.antt =====
-- src/GuestLoader.cpp: a guest's memory, page tables and registers.
pub mod Modes
pub mod RealMode
pub mod Placing
pub mod Loading
pub mod PageTables
pub mod FlatBinary
pub mod Numbered
use Prim.Native.Nat.{bit_or}
use min_bp.Prelude.{
  ℕ, zero, suc, ◌+◌, ◌-◌, ◌*◌, ◌%◌, ◌^◌, ◌==◌, Bool, ◌||◌, List, [], ◌∷◌, Option, none, some,
  length, leb, ltb, u16, u64, if◌then◌else◌,
}
use min_bp.Prelude.Result.{Result, ok, err, ErrorCode, no_error}
use min_bp.Kvm.{Regs, Segment, Sregs, Machine, Kvm, zero_regs, zero_segment}
use min_bp.GuestLoader.Modes.{real_mode_sregs, real_mode_regs, long_mode_sregs, long_mode_regs}
use min_bp.Memory.{Memory, fill, store_u64}
use min_bp.VCpu.{VCpu}
use min_bp.VCpu
use min_bp.MemoryRegion.{MemoryRegion}
use min_bp.MemoryRegion
use min_bp.VirtualMachine.{VirtualMachine, add_memory_region, add_vcpu}

pub data GuestLoadMode : Type 0 where
  flat_binary real_mode16 : GuestLoadMode

-- The image file is given by its contents; `none` is a file that cannot be opened.
pub record GuestLoadParams : Type 0 where
  pub image : Option (List ℕ)
  pub mode : GuestLoadMode
  pub load_address : ℕ
  pub entry_point : ℕ
  pub memory_size : ℕ

-- ENONET and ENOMEM
abbrev pub enonet : ErrorCode
enonet = 64

abbrev pub enomem : ErrorCode
enomem = 12

abbrev pub pgtable_base : ℕ
pgtable_base = 0x2000

unfoldable pub read_file : Option (List ℕ) → List ℕ
read_file none = []
read_file (some bytes) = bytes

-- The loop over the page directory: `n` entries from number `i` on.
unfoldable pub fill_directory : ℕ → ℕ → ℕ → Memory → Memory
fill_directory pd i zero mem = mem
fill_directory pd i (suc n) mem =
    fill_directory pd (i + 1) n (store_u64 (pd + 8 * i) (bit_or (i * 2 ^ 21) 0x83) mem)

-- The three tables at the host address `tables`, for the guest address `base_addr`. Behind the region the
-- bytes are those of the process, and no memory of the guest.
unfoldable pub write_tables : ℕ → ℕ → Memory → Memory
unfolding fill_directory
write_tables tables base_addr mem =
    let pml4 = tables in
    let pdpt = tables + 8 * 512 in
    let pd = tables + 8 * 1024 in
    let cleared = fill pd 0 4096 (fill pdpt 0 4096 (fill pml4 0 4096 mem)) in
    let linked = store_u64 pml4 (bit_or (u64 (base_addr + 0x1000)) 0x03) cleared in
    fill_directory pd 0 512 (store_u64 pdpt (bit_or (u64 (base_addr + 0x2000)) 0x03) linked)

-- `base_addr < rbase || base_addr >= rend` is false.
abbrev pub covers : MemoryRegion → ℕ → Bool
covers r a =
    if ltb a r.guest_phys_addr || leb (u64 (r.guest_phys_addr + r.size)) a
    then Bool.false
    else Bool.true

-- The loop over the regions ends at the first that covers the address.
unfoldable pub build_identity_page_tables :
    {K : Type 0} → List MemoryRegion → ℕ → Machine K → ErrorCode × Machine K
build_identity_page_tables [] base_addr m = (enonet, m)
build_identity_page_tables (r ∷ rs) base_addr m =
    let rest = build_identity_page_tables rs base_addr m in
    if covers r base_addr
    then (
      no_error,
      record m {
        memory = write_tables (r.host_addr + (base_addr - r.guest_phys_addr)) base_addr m.memory;
      },
    )
    else rest

module _ {K : Type 0} (kvm : Kvm K) where
  -- The special registers are read, changed and written; then the general ones are written.
  unfoldable pub setup_vcpu : (Sregs → Sregs) → Regs → VCpu → Machine K → ErrorCode × Machine K
  setup_vcpu change regs v m = elim (VCpu.get_sregs kvm v m) [
    | err e ↦ (e, m)
    | ok sregs ↦
        (let (ec, m1) = VCpu.set_sregs kvm v (change sregs) m in
          if ec == no_error then VCpu.set_regs kvm v regs m1 else (ec, m1))
  ]

  unfoldable pub setup_real_mode_vcpu : VCpu → ℕ → Machine K → ErrorCode × Machine K
  unfolding setup_vcpu
  setup_real_mode_vcpu v entry_ip m = setup_vcpu real_mode_sregs (real_mode_regs entry_ip) v m

  unfoldable pub setup_64bit_vcpu : VCpu → ℕ → ℕ → Machine K → ErrorCode × Machine K
  unfolding setup_vcpu
  setup_64bit_vcpu v rip cr3 m = setup_vcpu (long_mode_sregs cr3) (long_mode_regs rip) v m

  -- How far `load` and `loadBytes` get before the vCPU is set up: a failed assertion, an error, or the
  -- image in place and the vCPU made.
  pub data Placed : Type 0 where
    aborted : Placed
    refused : ErrorCode → VirtualMachine → Machine K → Placed
    placed : VCpu → VirtualMachine → Machine K → Placed

  unfoldable pub make_vcpu : VirtualMachine → Machine K → Placed
  make_vcpu vm m =
      let ((result, vm'), m') = add_vcpu kvm 0 vm m in
      elim result [ err e ↦ Placed.refused e vm' m' | ok v ↦ Placed.placed v vm' m' ]

  unfoldable pub write_image : MemoryRegion → List ℕ → ℕ → VirtualMachine → Machine K → Placed
  unfolding make_vcpu
  write_image region bytes offset vm m =
      if ltb region.size (u64 (offset + length bytes))
      then Placed.refused enomem vm m
      else elim (MemoryRegion.write region offset bytes m) [
        | none ↦ Placed.aborted
        | some m' ↦ make_vcpu vm m'
      ]

  unfoldable pub place : List ℕ → ℕ → ℕ → VirtualMachine → Machine K → Placed
  unfolding write_image
  place bytes offset memory_size vm m =
      let ((result, vm'), m') = add_memory_region kvm 0 memory_size 0 vm m in
      elim result [
        | err e ↦ Placed.refused e vm' m'
        | ok region ↦ write_image region bytes offset vm' m'
      ]

  -- The error code, the VM and the machine; `none` is a failed assertion.
  abbrev pub Loaded : Type 0
  Loaded = Option ((ErrorCode × VirtualMachine) × Machine K)

  abbrev finish : VirtualMachine → ErrorCode × Machine K → Loaded
  finish vm r = some ((r.0, vm), r.1)

  unfoldable pub load_bytes : List ℕ → ℕ → ℕ → VirtualMachine → Machine K → Loaded
  unfolding place setup_real_mode_vcpu
  load_bytes code load_addr memory_size vm m = elim (place code load_addr memory_size vm m) [
    | Placed.aborted ↦ none
    | Placed.refused e vm' m' ↦ some ((e, vm'), m')
    | Placed.placed v vm' m' ↦ finish vm' (setup_real_mode_vcpu v (u16 load_addr) m')
  ]

  setup_long_mode : VCpu → ℕ → ErrorCode × Machine K → ErrorCode × Machine K
  unfolding setup_64bit_vcpu
  setup_long_mode v rip tables =
      if tables.0 == no_error then setup_64bit_vcpu v rip pgtable_base tables.1 else tables

  setup_mode :
      GuestLoadParams → GuestLoadMode → VCpu → VirtualMachine → Machine K → ErrorCode × Machine K
  unfolding setup_real_mode_vcpu setup_long_mode build_identity_page_tables
  setup_mode params GuestLoadMode.real_mode16 v vm m =
      setup_real_mode_vcpu v (u16 params.entry_point) m
  setup_mode params GuestLoadMode.flat_binary v vm m =
      setup_long_mode v params.entry_point
        (build_identity_page_tables vm.memory_regions pgtable_base m)

  unfoldable pub load_image : List ℕ → GuestLoadParams → VirtualMachine → Machine K → Loaded
  unfolding place setup_mode
  load_image [] params vm m = some ((enonet, vm), m)
  load_image (b ∷ bs) params vm m =
      elim (place (b ∷ bs) params.load_address params.memory_size vm m) [
        | Placed.aborted ↦ none
        | Placed.refused e vm' m' ↦ some ((e, vm'), m')
        | Placed.placed v vm' m' ↦ finish vm' (setup_mode params params.mode v vm' m')
      ]

  unfoldable pub load : GuestLoadParams → VirtualMachine → Machine K → Loaded
  unfolding read_file load_image
  load params vm m = load_image (read_file params.image) params vm m
