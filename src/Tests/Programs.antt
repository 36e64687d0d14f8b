-- ===== src/Tests/Programs.antt =====
-- The program at concrete inputs.
use min_bp.Prelude.{true, ℕ, ◌+◌, ◌*◌, ◌^◌, ◌≡◌, refl, List, [], ◌∷◌, some, arith}
use min_bp.Prelude.Result.{ok}
use min_bp.Bytes.{load}
use min_bp.Kvm.{Machine, World, zero_regs, Regs}
use min_bp.VCpu.{VCpu}
use min_bp.VCpu
use min_bp.MemoryRegion.{MemoryRegion}
use min_bp.VirtualMachine.{VirtualMachine, VmSnapShot, snapshot_of}
use min_bp.MmioHandler.{MmioExit, handle}
use min_bp.CpuidHandler.{inject}
use min_bp.CpuidHandler
use min_bp.Main.State.{ProgramState}
use min_bp.Main.Device.{mmio_handler, reg_input, reg_status}
use min_bp.Main.Device.Protocol.{handle_all, read_of, status_counts}
use min_bp.Main.Wiring.{wire, fresh_device, cpuid_handler}
use min_bp.Main.CpuidTable.{Table, build_table}
use min_bp.Main.CpuidTable.Installed.{installed_entry, build_table-entries}
use min_bp.Main.GuestCpuid.{guest_cpuid}
use min_bp.Tests.Toy.{Toy, toy, toy-RegistersHold, vcpu, machine, host_base}

abbrev pub region : MemoryRegion
region = record {
  vm_fd = some 3;
  slot = 0;
  guest_phys_addr = 0;
  size = 0x5000;
  host_addr = host_base;
}

abbrev pub vm : VirtualMachine
vm = record {
  fd = some 3;
  vcpu_mmap_size = 4096;
  next_slot = 1;
  memory_regions = region ∷ [];
  vcpus = vcpu ∷ [];
}

unfoldable pub state : ProgramState
unfolding wire
state = record { device = fresh_device; vm = vm; agent = (wire toy).0; printed = [] }

abbrev zero_bytes : List ℕ
zero_bytes = 0 ∷ 0 ∷ 0 ∷ 0 ∷ 0 ∷ 0 ∷ 0 ∷ 0 ∷ []

abbrev write_of : ℕ → ℕ → MmioExit
write_of len b = record {
  phys_addr = reg_input;
  bytes = b ∷ 0 ∷ 0 ∷ 0 ∷ 0 ∷ 0 ∷ 0 ∷ 0 ∷ [];
  len = len;
  is_write = true;
}

-- Two writes count, and the refused one of 9 bytes does not.
status_counts_example :
    load 8
      (handle
        (handle_all (write_of 1 0x41 ∷ write_of 9 0x77 ∷ write_of 4 0x42 ∷ []) mmio_handler state).0
        (read_of reg_status zero_bytes)
        (handle_all
          (write_of 1 0x41 ∷ write_of 9 0x77 ∷ write_of 4 0x42 ∷ [])
          mmio_handler
          state).1).exit.bytes
    ≡ 2 * 2 ^ 32 + 0x42
unfolding state load min_bp.Bytes.le_decode
status_counts_example =
    (status_counts (write_of 1 0x41 ∷ write_of 9 0x77 ∷ write_of 4 0x42 ∷ []) mmio_handler state
      zero_bytes (record { reads = refl; writes = refl }) (omega arith)).0

abbrev pub empty_table : Table toy
empty_table = record {
  entries = [];
  bus = (wire toy).1;
  world = record { machine = machine []; user = state };
}

build_table-entries_example :
    (build_table toy (0 ∷ 1 ∷ []) empty_table).entries
    ≡ installed_entry toy 0 ∷ installed_entry toy 1 ∷ []
build_table-entries_example = (build_table-entries toy (0 ∷ 1 ∷ []) empty_table refl).0

abbrev asking : Regs
asking = record zero_regs { rax = 1; r8 = 5 }

abbrev asking_world : World Toy ProgramState
asking_world = record {
  machine = record (machine []) { kernel = record (machine []).kernel { regs = asking } };
  user = state;
}

guest_cpuid_example :
    VCpu.get_regs toy vcpu (CpuidHandler.handle toy cpuid_handler vcpu asking_world).world.machine
    ≡ ok (record zero_regs { rax = 0; r8 = 5 })
unfolding VCpu.get_regs VCpu.set_regs
guest_cpuid_example =
    (guest_cpuid toy toy-RegistersHold cpuid_handler vcpu asking_world asking refl refl refl).1

abbrev pub before : Machine Toy
before = machine []

unfoldable pub snap : VmSnapShot
unfolding snapshot_of
snap = snapshot_of toy vcpu (region ∷ []) before
