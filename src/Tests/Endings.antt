-- ===== src/Tests/Endings.antt =====
-- The program at concrete inputs, to its end.
use min_bp.GuestLoader
use min_bp.InstructionTrapper
use min_bp.KvmSystem
use min_bp.Main.CpuidTable
use min_bp.Main.Wiring
use min_bp.MemoryRegion
use min_bp.VirtualMachine
use min_bp.VmiAgent
use min_bp.Prelude.{
  ◌+◌, if◌then◌else◌, ◌||◌, Bool, false, ℕ, ◌==◌, ◌≡◌, refl, List, [], ◌∷◌, Option, some, none,
  arith,
}
use min_bp.Prelude.Result.{err, ok}
use min_bp.Kvm.{zero_regs, zero_sregs, Fd, Machine, KvmRun}
use min_bp.VCpu.{VCpu, ExitReason}
use min_bp.VCpu
use min_bp.MemoryRegion.{MemoryRegion}
use min_bp.VirtualMachine.{VirtualMachine, VmSnapShot, snapshot_of, take_snap_shot}
use min_bp.InstructionTrapper.{Session, dispatch_exit}
use min_bp.Main.Upkeep.Stopping.{Summarised, stop_summaries}
use min_bp.Main.State.{ProgramState}
use min_bp.Main.Wiring.{wire, fresh_device, cpuid_handler, no_leaf}
use min_bp.Main.CpuidTable.{Table, host_entry, build_table}
use min_bp.Main.Runs.{runs, start_run, scancode}
use min_bp.Main.Runs.Series.{Series, runs_iff}
use min_bp.Main.Program.{Ended, session_of, main}
use min_bp.Main.Program.Outcome.{Success, main_iff}
use min_bp.VirtualMachine.Snapshot.{is_inside}
use min_bp.Tests.Toy.{
  vcpu, host_base, toy-RegistersHold, toy_is_open, toy_opened, toy_open_refused, toy_closed, play,
  Toy, toy, idle, machine,
}
use min_bp.Main.Upkeep.Isolation.{Anything, next_run_fresh}
use min_bp.Main.Upkeep.Events.{Adds}
use min_bp.Main.Upkeep.Logged.{Series-Adds}
use min_bp.Main.Process.{Process, Owned, Owned-Stable}
use min_bp.Main.Upkeep.{Kept}
use min_bp.Main.Upkeep.Steps.{Series-Kept}
use min_bp.Main.Program.Parts.{HasStatus}
use min_bp.Main.Program.Closing.{main-Clean}
use min_bp.Tests.Programs.{region, before, vm, state, empty_table, snap}

-- The guest halts three times.
abbrev pub halted : KvmRun
halted = record idle { exit_reason = 5 }

abbrev pub boot_machine : Machine Toy
boot_machine = machine (halted ∷ halted ∷ halted ∷ [])

-- The result, or what stands in for it.
abbrev pub result_or : Ended Toy → Option (Ended Toy) → Ended Toy
result_or e none = e
result_or e (some r) = r

abbrev pub nothing : Ended Toy
nothing = record { status = 7; events_file = none; machine = boot_machine }

abbrev pub guest : List ℕ
guest = 0xF4 ∷ []

unfoldable ended : Ended Toy
unfolding main
ended = result_or nothing (main toy 5 guest boot_machine)

main_ends : main toy 5 guest boot_machine ≡ some ended
unfolding ended KvmSystem.open_system KvmSystem.create_vm KvmSystem.check_extension
    VirtualMachine.add_memory_region VirtualMachine.add_vcpu VirtualMachine.restore_to
    VirtualMachine.take_snap_shot VirtualMachine.restore_snapshot
    VirtualMachine.enable_emulation_exits MemoryRegion.create MemoryRegion.write VCpu.exit_reason
    VCpu.create VCpu.run VCpu.get_regs VCpu.set_regs VCpu.get_sregs VCpu.set_sregs
    VCpu.install_cpuid GuestLoader.load_bytes InstructionTrapper.publish_to
    InstructionTrapper.dispatch_exit InstructionTrapper.step InstructionTrapper.run_loop
    VmiAgent.snapshot_vcpu VmiAgent.snapshot_registers VmiAgent.handle_hv_event Wiring.agent_handler
    Wiring.wire CpuidTable.build_table
main_ends = refl

ended_well : ended.status ≡ 0
unfolding ended KvmSystem.open_system KvmSystem.create_vm KvmSystem.check_extension
    VirtualMachine.add_memory_region VirtualMachine.add_vcpu VirtualMachine.restore_to
    VirtualMachine.take_snap_shot VirtualMachine.restore_snapshot
    VirtualMachine.enable_emulation_exits MemoryRegion.create MemoryRegion.write VCpu.exit_reason
    VCpu.create VCpu.run VCpu.get_regs VCpu.set_regs VCpu.get_sregs VCpu.set_sregs
    VCpu.install_cpuid GuestLoader.load_bytes InstructionTrapper.publish_to
    InstructionTrapper.dispatch_exit InstructionTrapper.step InstructionTrapper.run_loop
    VmiAgent.snapshot_vcpu VmiAgent.snapshot_registers VmiAgent.handle_hv_event Wiring.agent_handler
    Wiring.wire CpuidTable.build_table
ended_well = refl

main_iff_example : Success toy guest boot_machine ended
main_iff_example = (main_iff toy guest boot_machine ended).0 (5, main_ends, ended_well)

abbrev session : Session Toy ProgramState
session = session_of toy vcpu empty_table (record { machine = boot_machine; user = state })

abbrev pair_or :
    ℕ × Session Toy ProgramState
    → Option (ℕ × Session Toy ProgramState)
    → ℕ × Session Toy ProgramState
pair_or e none = e
pair_or e (some r) = r

unfoldable last : Session Toy ProgramState
unfolding runs
last = (pair_or (7, session) (runs toy 5 snap 3 0 session)).1

runs_return : runs toy 5 snap 3 0 session ≡ some (0, last)
unfolding last VirtualMachine.restore_to VirtualMachine.restore_snapshot VCpu.exit_reason VCpu.run
    VCpu.get_regs VCpu.set_regs VCpu.get_sregs VCpu.set_sregs InstructionTrapper.publish_to
    InstructionTrapper.dispatch_exit InstructionTrapper.step InstructionTrapper.run_loop
    VmiAgent.snapshot_vcpu VmiAgent.snapshot_registers VmiAgent.handle_hv_event Wiring.agent_handler
    Wiring.wire CpuidTable.add_leaf state
runs_return = refl

runs_iff_example : Series toy snap 3 0 session 0 last
runs_iff_example = (runs_iff toy snap 3 0 0 session last).0 (5, runs_return)

pub play_open :
    (script : List KvmRun) (m : Machine Toy) (x : ℕ)
    → toy_is_open (play script m).kernel x ≡ toy_is_open m.kernel x
play_open [] m x = refl
play_open (r ∷ rs) m x = refl

pub vm_made :
    (sys : Fd) (k : Toy) (fd : ℕ)
    → (toy.create_vm sys k).0 ≡ ok fd
    → (toy_is_open k fd ≡ false)
      × ((x : ℕ) → toy_is_open (toy.create_vm sys k).1 x ≡ (x == fd || toy_is_open k x))
vm_made sys k fd h = (ground arith, λ x. ground arith)

pub vm_refused :
    (sys : Fd) (k : Toy) (e x : ℕ)
    → (toy.create_vm sys k).0 ≡ err e
    → toy_is_open (toy.create_vm sys k).1 x ≡ toy_is_open k x
vm_refused sys k e x h = ground arith

pub vcpu_made :
    (vm_fd : Fd) (id : ℕ) (k : Toy) (fd : ℕ)
    → (toy.create_vcpu vm_fd id k).0 ≡ ok fd
    → (toy_is_open k fd ≡ false)
      × ((x : ℕ) → toy_is_open (toy.create_vcpu vm_fd id k).1 x ≡ (x == fd || toy_is_open k x))
vcpu_made vm_fd id k fd h = (ground arith, λ x. ground arith)

pub vcpu_refused :
    (vm_fd : Fd) (id : ℕ) (k : Toy) (e x : ℕ)
    → (toy.create_vcpu vm_fd id k).0 ≡ err e
    → toy_is_open (toy.create_vcpu vm_fd id k).1 x ≡ toy_is_open k x
vcpu_refused vm_fd id k e x h = ground arith

abbrev pub toy_process : Process toy
toy_process = record {
  is_open = toy_is_open;
  opened = toy_opened;
  open_refused = toy_open_refused;
  vm_made = vm_made;
  vm_refused = vm_refused;
  vcpu_made = vcpu_made;
  vcpu_refused = vcpu_refused;
  closed = toy_closed;
  unmapped = λ a n k x. refl;
  set_slot = λ fd s k x. refl;
  mapped = λ n m x. refl;
  run_mapped = λ fd n m x. refl;
  ran = λ fd m x. play_open m.kernel.script m x;
  told = λ k x. refl;
  regs_set = λ fd regs k x. refl;
  sregs_set = λ fd sregs k x. refl;
  cpuid_set = λ fd n entries k x. refl;
  enabled = λ fd capability argument k x. refl;
}

main-Clean_example :
    ((x : ℕ) → toy_is_open ended.machine.kernel x ≡ toy_is_open boot_machine.kernel x)
    × HasStatus ended.status ended.events_file
main-Clean_example = main-Clean toy toy_process 5 guest boot_machine ended main_ends

-- All that is open is owned.
abbrev nothing_else : ℕ → Bool
nothing_else x = false

boot_machine-Owned : Owned toy toy_process nothing_else vm boot_machine.kernel
boot_machine-Owned x = ground arith

session-Kept : Kept toy (Owned toy toy_process nothing_else vm) vm session
unfolding state
session-Kept = record {
  cpuid = refl;
  io = (refl, refl);
  mmio = record { reads = refl; writes = refl };
  bus = refl;
  same_vm = refl;
  kernel = boot_machine-Owned;
}

Series-Kept_example : Kept toy (Owned toy toy_process nothing_else vm) vm last
Series-Kept_example =
    Series-Kept toy (Owned-Stable toy toy_process nothing_else vm) vm
      ((runs_iff toy snap 3 0 0 session last).0 (5, runs_return)) session-Kept

Series-Adds_example : Adds toy session last
Series-Adds_example =
    Series-Adds toy (Owned-Stable toy toy_process nothing_else vm) vm
      ((runs_iff toy snap 3 0 0 session last).0 (5, runs_return)) session-Kept

session-Anything : Kept toy Anything vm session
unfolding state
session-Anything = record {
  cpuid = refl;
  io = (refl, refl);
  mmio = record { reads = refl; writes = refl };
  bus = refl;
  same_vm = refl;
  kernel = tt;
}

next_run_fresh_example :
    (m' : Machine Toy) × (start_run toy last.world.user.vm snap 3 last.world.machine ≡ some m')
    × ((x : ℕ)
        → m'.memory x ≡ (
            if host_base + 0x2000 == x
            then scancode 3
            else if is_inside (region ∷ []) x
            then before.memory x
            else last.world.machine.memory x))
    × (VCpu.get_regs toy vcpu m' ≡ ok zero_regs)
    × (VCpu.get_sregs toy vcpu m' ≡ ok zero_sregs)
unfolding VCpu.get_regs VCpu.get_sregs VCpu.set_regs VCpu.set_sregs take_snap_shot snapshot_of snap
next_run_fresh_example =
    next_run_fresh toy toy-RegistersHold vm vcpu [] region [] before snap zero_regs zero_sregs 3 0 2
      session last refl refl refl refl refl session-Anything
      ((runs_iff toy snap 3 0 0 session last).0 (5, runs_return)) refl refl

stop_summaries_example :
    Summarised toy 0 "HLT" session.world (dispatch_exit toy ExitReason.hlt session).1.world
stop_summaries_example = (stop_summaries toy session empty_table.bus refl refl).0
