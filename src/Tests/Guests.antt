-- ===== src/Tests/Guests.antt =====
-- Regions, snapshots and the set-up of a guest at concrete inputs.
use min_bp.Prelude.{
  ◌<◌, ◌^◌, ◌/◌, ◌%◌, List, some, ◌+◌, ℕ, ◌+◌, ◌≡◌, refl, [], ◌∷◌, some, arith, if◌then◌else◌,
}
use min_bp.Prelude.Result.{ErrorCode, ok, no_error}
use min_bp.Kvm.{Sregs, Machine, zero_regs, zero_sregs}
use min_bp.VCpu.{VCpu}
use min_bp.VCpu
use min_bp.MemoryRegion.{MemoryRegion}
use min_bp.MemoryRegion
use min_bp.MemoryRegion.Access.{read-write}
use min_bp.MemoryRegion.Ownership.{create-release}
use min_bp.VirtualMachine.{
  add_vcpu, VirtualMachine, VmSnapShot, add_memory_region, take_snap_shot, restore_snapshot,
}
use min_bp.VirtualMachine.Snapshot.{is_inside, restore-take, registers-restore}
use min_bp.Memory.{peek}
use min_bp.GuestLoader.Loading.{Loads, load_bytes_outcome}
use min_bp.GuestLoader.FlatBinary.{Clear, load_flat_binary}
use min_bp.GuestLoader.PageTables.Bounds.{build_identity_page_tables_bounds}
use min_bp.GuestLoader.{
  GuestLoadParams, load, GuestLoadMode, load_bytes, pgtable_base, build_identity_page_tables,
}
use min_bp.GuestLoader.PageTables.{guest, walk}
use min_bp.Tests.Toy.{Toy, toy, toy-RegistersHold, toy_slots, vcpu, machine, host_base}

abbrev region : MemoryRegion
region = record {
  vm_fd = some 3;
  slot = 0;
  guest_phys_addr = 0;
  size = 0x5000;
  host_addr = host_base;
}

abbrev vm : VirtualMachine
vm = record {
  fd = some 3;
  vcpu_mmap_size = 4096;
  next_slot = 1;
  memory_regions = region ∷ [];
  vcpus = vcpu ∷ [];
}

abbrev before : Machine Toy
before = machine []

-- The guest has run: its memory and registers are others.
abbrev after : Machine Toy
after = record before {
  memory = λ a. 77;
  kernel = record before.kernel { regs = record zero_regs { rip = 0x7C00 } };
}

restore-take_example :
    (snap : VmSnapShot) × (take_snap_shot toy vm before ≡ some snap)
    × ((restored : Machine Toy) × (restore_snapshot toy vm snap after ≡ some restored)
        × ((x : ℕ)
            → restored.memory x
              ≡ (if is_inside (region ∷ []) x then before.memory x else after.memory x)))
restore-take_example = restore-take toy vm vcpu [] before after refl

registers-restore_example :
    (snap : VmSnapShot) × (take_snap_shot toy vm before ≡ some snap)
    × ((restored : Machine Toy) × (restore_snapshot toy vm snap after ≡ some restored)
        × (VCpu.get_regs toy vcpu restored ≡ ok zero_regs)
        × (VCpu.get_sregs toy vcpu restored ≡ ok zero_sregs))
unfolding VCpu.get_regs VCpu.get_sregs VCpu.set_regs VCpu.set_sregs
registers-restore_example =
    registers-restore toy toy-RegistersHold vm vcpu [] before after zero_regs zero_sregs refl refl
      refl refl refl

read-write_example :
    (m' : Machine Toy) × (MemoryRegion.write region 0x10 (1 ∷ 2 ∷ []) before ≡ some m')
    × (MemoryRegion.read region 0x10 2 m' ≡ some (1 ∷ 2 ∷ []))
read-write_example =
    let r = (read-write region 0x10 (1 ∷ 2 ∷ []) before (omega arith)).0 (omega arith) in
    (r.0, r.1, r.2)

abbrev small_region : MemoryRegion
small_region = record {
  vm_fd = some 3;
  slot = 0;
  guest_phys_addr = 0;
  size = 4096;
  host_addr = host_base;
}

create-release_example :
    (MemoryRegion.release toy small_region
      (MemoryRegion.create toy (some 3) 0 0 4096 0 before).1).kernel
    ≡ before.kernel
unfolding MemoryRegion.create
create-release_example =
    (create-release toy (some 3) 0 0 4096 0 before (toy_slots (some 3)) refl (omega arith)).1
      small_region refl

-- A VM with no region and no vCPU yet.
abbrev empty_vm : VirtualMachine
empty_vm = record {
  fd = some 3;
  vcpu_mmap_size = 4096;
  next_slot = 0;
  memory_regions = [];
  vcpus = [];
}

abbrev code : List ℕ
code = 0xB8 ∷ 0x01 ∷ 0x00 ∷ 0xF4 ∷ []

toy-Loads : Loads toy
toy-Loads = record { registers = toy-RegistersHold; keeps = λ fd size m. refl }

abbrev loaded_region : MemoryRegion
loaded_region = record {
  vm_fd = some 3;
  slot = 0;
  guest_phys_addr = 0;
  size = 0x4000;
  host_addr = host_base;
}

load_bytes_outcome_example :
    (ec : ErrorCode) × (vm' : VirtualMachine) × (m' : Machine Toy) × (load_bytes toy code 0x1000
        0x4000 empty_vm before
      ≡ some ((ec, vm'), m'))
    × (vm'.memory_regions ≡ loaded_region ∷ [])
    × (loaded_region.guest_phys_addr ≡ 0)
    × (loaded_region.size ≡ 0x4000)
    × (vm'.vcpus ≡ vcpu ∷ [])
    × (peek (host_base + 0x1000) 4 m'.memory ≡ code)
    × (ec ≡ no_error
        → VCpu.get_regs toy vcpu m'
          ≡ ok (record zero_regs { rip = 0x1000; rsp = 0xFFF0; rflags = 2 }))
unfolding add_memory_region add_vcpu MemoryRegion.create VCpu.create VCpu.get_sregs
load_bytes_outcome_example =
    (load_bytes_outcome toy toy-Loads code 0x1000 0x4000 empty_vm before loaded_region vcpu
        zero_sregs refl refl refl (omega arith) (omega arith)).0
      (omega arith)

abbrev flat_params : GuestLoadParams
flat_params = record {
  image = some code;
  mode = GuestLoadMode.flat_binary;
  load_address = 0x5000;
  entry_point = 0x5000;
  memory_size = 0x6000;
}

abbrev flat_region : MemoryRegion
flat_region = record {
  vm_fd = some 3;
  slot = 0;
  guest_phys_addr = 0;
  size = 0x6000;
  host_addr = host_base;
}

load_flat_binary_example :
    (ec : ErrorCode) × (vm' : VirtualMachine) × (m' : Machine Toy) × (load toy flat_params empty_vm
        before
      ≡ some ((ec, vm'), m'))
    × (vm'.memory_regions ≡ flat_region ∷ [])
    × (flat_region.guest_phys_addr ≡ 0)
    × (flat_region.size ≡ 0x6000)
    × (vm'.vcpus ≡ vcpu ∷ [])
    × ((a : ℕ) → a < 2 ^ 30 → walk (guest host_base m'.memory) pgtable_base a ≡ some a)
    × (Clear 0x5000 4 → peek (host_base + 0x5000) 4 m'.memory ≡ code)
    × (ec ≡ no_error
        → (VCpu.get_regs toy vcpu m'
            ≡ ok (record zero_regs { rip = 0x5000; rsp = 0x200000; rflags = 2 }))
          × ((now : Sregs) × (VCpu.get_sregs toy vcpu m' ≡ ok now)
              × ((now.cr0 / 2 ^ 31) % 2 ≡ 1)
              × (now.cr3 ≡ pgtable_base)))
unfolding add_memory_region add_vcpu MemoryRegion.create VCpu.create VCpu.get_sregs
load_flat_binary_example =
    load_flat_binary toy toy-Loads flat_params code empty_vm before flat_region vcpu zero_sregs refl
      (λ e. cc) refl refl refl refl refl (omega arith) (omega arith) (omega arith) (omega arith)

-- A region that is too small for the tables.
abbrev small_tables : MemoryRegion
small_tables = record {
  vm_fd = some 3;
  slot = 0;
  guest_phys_addr = 0;
  size = 0x2400;
  host_addr = host_base;
}

build_identity_page_tables_bounds_example :
    (build_identity_page_tables (small_tables ∷ []) pgtable_base before).1.memory
      (host_base + 0x2800)
    ≡ 0
build_identity_page_tables_bounds_example =
    (build_identity_page_tables_bounds small_tables [] before refl (omega arith) (omega arith)).2
      (host_base + 0x2800) (omega arith) (omega arith)
