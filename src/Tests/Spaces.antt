-- ===== src/Tests/Spaces.antt =====
-- The mappings of the program, with a kernel that has room for one of each kind.
use min_bp.GuestLoader
use min_bp.InstructionTrapper
use min_bp.KvmSystem
use min_bp.Main.CpuidTable
use min_bp.Main.Wiring
use min_bp.MemoryRegion
use min_bp.VirtualMachine
use min_bp.VmiAgent
use min_bp.Prelude.{
  ◌&&◌, ◌||◌, not, Bool, true, false, ℕ, ◌==◌, ◌≡◌, refl, Option, some, none, arith, if◌then◌else◌,
}
use min_bp.Prelude.Result.{ok, err}
use min_bp.Kvm.{Machine, Kvm, zero_regs, zero_sregs, set_kernel, set_run_page}
use min_bp.VCpu
use min_bp.Main.Mappings.{Mappings, NewBlock}
use min_bp.Main.Program.{Ended, main}
use min_bp.Main.Program.Unmapped.{main-Unmapped}
use min_bp.Tests.Toy.{host_base, run_base, idle}
use min_bp.Tests.Endings.{guest, halted}

record Space : Type 0 where
  memory : Bool
  page : Bool

abbrev space : Kvm Space
space = record {
  run = λ fd m. (ok tt, set_run_page run_base halted m);
  get_regs = λ fd k. ok zero_regs;
  set_regs = λ fd regs k. (ok tt, k);
  get_sregs = λ fd k. ok zero_sregs;
  set_sregs = λ fd sregs k. (ok tt, k);
  create_vcpu = λ fd id k. (ok 7, k);
  set_user_memory_region = λ fd s k. (ok tt, k);
  set_msr_filter = λ fd f k. (ok tt, k);
  mmap_anonymous = λ size m.
      if m.kernel.memory
      then (err 12, m)
      else (ok host_base, set_kernel (record m.kernel { memory = true }) m);
  mmap_run = λ fd size m.
      if m.kernel.page
      then (err 12, m)
      else (ok run_base, set_kernel (record m.kernel { page = true }) m);
  munmap = λ a size k. record {
    memory = not (a == host_base) && k.memory;
    page = not (a == run_base) && k.page;
  };
  close = λ fd k. k;
  cpuid = λ leaf subleaf. (0x16, 0x756E6547, 0x6C65746E, 0x49656E69);
  now = λ k. (42, k);
  open_path = λ path k. (ok 5, k);
  get_api_version = λ fd k. ok 12;
  get_vcpu_mmap_size = λ fd k. ok 4096;
  check_extension = λ fd capability k. ok 1;
  create_vm = λ fd k. (ok 6, k);
  errno = λ k. 9;
  set_guest_debug = λ fd control k. (ok tt, k);
  set_cpuid2 = λ fd nent entries k. (ok tt, k);
  irq_line = λ fd irq level k. (ok tt, k);
  create_irqchip = λ fd k. (ok tt, k);
  create_pit2 = λ fd flags k. (ok tt, k);
  enable_cap = λ fd capability argument k. (ok tt, k);
}

-- A block counts as its first byte.
abbrev space_covers : ℕ → ℕ → ℕ → Bool
space_covers a n x = x == a && (a == host_base || a == run_base)

abbrev space_mapped : Space → ℕ → Bool
space_mapped k x = (x == host_base && k.memory) || (x == run_base && k.page)

memory_block :
    (n : ℕ) (m : Machine Space) (a : ℕ)
    → (space.mmap_anonymous n m).0 ≡ ok a
    → NewBlock space_covers
        (space_mapped m.kernel)
        (space_mapped (space.mmap_anonymous n m).1.kernel)
        a
        n
memory_block n m a h = record {
  not_null = ground arith;
  not_failed = ground arith;
  free = λ x c. ground arith;
  grown = λ x. ground arith;
}

page_block :
    (n : ℕ) (m : Machine Space) (a : ℕ)
    → (space.mmap_run none n m).0 ≡ ok a
    → NewBlock space_covers
        (space_mapped m.kernel)
        (space_mapped (space.mmap_run none n m).1.kernel)
        a
        n
page_block n m a h = record {
  not_null = ground arith;
  not_failed = ground arith;
  free = λ x c. ground arith;
  grown = λ x. ground arith;
}

space_unmapped :
    (a n : ℕ) (k : Space) (x : ℕ)
    → space_mapped (space.munmap a n k) x ≡ (not (space_covers a n x) && space_mapped k x)
space_unmapped a n k x = ground arith

memory_refused :
    (n : ℕ) (m : Machine Space) (e x : ℕ)
    → (space.mmap_anonymous n m).0 ≡ err e
    → space_mapped (space.mmap_anonymous n m).1.kernel x ≡ space_mapped m.kernel x
memory_refused n m e x h = ground arith

page_refused :
    (n : ℕ) (m : Machine Space) (e x : ℕ)
    → (space.mmap_run none n m).0 ≡ err e
    → space_mapped (space.mmap_run none n m).1.kernel x ≡ space_mapped m.kernel x
page_refused n m e x h = ground arith

abbrev space_mappings : Mappings space
space_mappings = record {
  covers = space_covers;
  is_mapped = space_mapped;
  mapped = memory_block;
  map_refused = memory_refused;
  run_mapped = λ fd. page_block;
  run_map_refused = λ fd. page_refused;
  unmapped = space_unmapped;
  opened = λ path k x. refl;
  vm_made = λ sys k x. refl;
  vcpu_made = λ vm id k x. refl;
  closed = λ fd k x. refl;
  set_slot = λ fd s k x. refl;
  ran = λ fd m x. refl;
  told = λ k x. refl;
  regs_set = λ fd regs k x. refl;
  sregs_set = λ fd sregs k x. refl;
  cpuid_set = λ fd n entries k x. refl;
  enabled = λ fd capability argument k x. refl;
}

abbrev empty_space : Machine Space
empty_space = record {
  kernel = record { memory = false; page = false };
  memory = λ a. 0;
  run_pages = λ a. idle;
}

abbrev ended_or : Ended Space → Option (Ended Space) → Ended Space
ended_or e none = e
ended_or e (some r) = r

unfoldable left_space : Ended Space
unfolding main
left_space =
    ended_or (record { status = 7; events_file = none; machine = empty_space })
      (main space 5 guest empty_space)

space_ends : main space 5 guest empty_space ≡ some left_space
unfolding left_space KvmSystem.open_system KvmSystem.create_vm KvmSystem.check_extension
    VirtualMachine.add_memory_region VirtualMachine.add_vcpu VirtualMachine.restore_to
    VirtualMachine.take_snap_shot VirtualMachine.restore_snapshot
    VirtualMachine.enable_emulation_exits MemoryRegion.create MemoryRegion.write VCpu.exit_reason
    VCpu.create VCpu.run VCpu.get_regs VCpu.set_regs VCpu.get_sregs VCpu.set_sregs
    VCpu.install_cpuid GuestLoader.load_bytes InstructionTrapper.publish_to
    InstructionTrapper.dispatch_exit InstructionTrapper.step InstructionTrapper.run_loop
    VmiAgent.snapshot_vcpu VmiAgent.snapshot_registers VmiAgent.handle_hv_event Wiring.agent_handler
    Wiring.wire CpuidTable.build_table
space_ends = refl

main-Unmapped_example : space_mapped left_space.machine.kernel host_base ≡ false
main-Unmapped_example =
    main-Unmapped space space_mappings 5 guest empty_space left_space space_ends host_base
