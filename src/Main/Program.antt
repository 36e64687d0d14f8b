-- ===== src/Main/Program.antt =====
-- `main` of src/main.cpp. The guest's file is given by its contents, which are empty if there is no
-- such file, and the file of the event log is one that can be written. What is only printed, but for
-- the logger's lines, is left out. The locals that own nothing of the kernel are destroyed without an
-- effect.
pub mod Running
pub mod Outcome
pub mod Parts
pub mod Closing
pub mod Written
pub mod Unmapped
use Prim.Native.String.{String}
use min_bp.Prelude.{ℕ, ◌^◌, ◌==◌, List, [], ◌∷◌, Option, none, some, if◌then◌else◌}
use min_bp.Prelude.Result.{Result, ok, err, no_error}
use min_bp.Kvm.{Machine, World, Kvm, set_kernel}
use min_bp.VCpu.{VCpu, install_cpuid}
use min_bp.VirtualMachine.{
  VirtualMachine, VmSnapShot, cap_exit_on_emulation_failure, enable_emulation_exits, take_snap_shot,
}
use min_bp.VirtualMachine
use min_bp.KvmSystem.{KvmSystem, open_system, create_vm, check_extension}
use min_bp.KvmSystem
use min_bp.GuestLoader.{load_bytes}
use min_bp.MsrHandler
use min_bp.InstructionTrapper.{InstructionTrapper, Session}
use min_bp.VmiAgent.Dump.{dump_event_log}
use min_bp.Main.State.{ProgramState}
use min_bp.Main.Device.{mmio_handler, io_handler}
use min_bp.Main.Wiring.{cpuid_handler, fresh_device, wire}
use min_bp.Main.CpuidTable.{Table, cpuid_leaves, build_table}
use min_bp.Main.Runs.{max_iterations, runs}

-- How a part of `main` returns: its status, the text of vmi_events.json if that is written, and the VM
-- and the machine as they are then.
pub record Left (K : Type 0) : Type 0 where
  pub status : ℕ
  pub events_file : Option String
  pub vm : VirtualMachine
  pub machine : Machine K

-- The first element; `none` stands for the undefined behaviour of an empty vector.
abbrev pub front : List VCpu → Option VCpu
front [] = none
front (v ∷ vs) = some v

pub record Ended (K : Type 0) : Type 0 where
  pub status : ℕ
  pub events_file : Option String
  pub machine : Machine K

module _ {K : Type 0} (kvm : Kvm K) where
  abbrev failed : VirtualMachine → Machine K → Option (Left K)
  failed vm m = some (record { status = 1; events_file = none; vm = vm; machine = m })

  -- The log is written when all runs have gone well.
  unfoldable pub dump_after : ℕ × Session K ProgramState → Left K
  unfolding dump_event_log
  dump_after r = record {
    status = r.0;
    events_file = if r.0 == 0 then some (dump_event_log r.1.world.user.agent.event_log) else none;
    vm = r.1.world.user.vm;
    machine = r.1.world.machine;
  }

  -- The trapper on the vCPU, the handlers and the dispatcher with the program's subscribers.
  abbrev pub session_of : VCpu → Table kvm → World K ProgramState → Session K ProgramState
  session_of v t w = record {
    trapper = record {
      vcpu = v;
      cpuid = some cpuid_handler;
      io = some io_handler;
      msr = some MsrHandler.new;
      mmio = some mmio_handler;
      dispatch = some t.bus;
      exit_count = 0;
    };
    world = w;
  }

  -- After the table is installed.
  unfoldable pub fuzz_guest : ℕ → VCpu → Table kvm → World K ProgramState → Option (Left K)
  unfolding dump_after runs
  fuzz_guest fuel v t w = elim (take_snap_shot kvm w.user.vm w.machine) [
    | none ↦ none
    | some snap ↦ elim (runs kvm fuel snap max_iterations 0 (session_of v t w)) [
      | none ↦ none
      | some r ↦ some (dump_after r)
    ]
  ]

  -- After the guest is loaded: the objects, the CPUID table and the runs.
  abbrev pub table_of : VirtualMachine → Machine K → Table kvm
  table_of vm m =
      let (agent, bus) = wire kvm in
      build_table kvm cpuid_leaves (record {
        entries = [];
        bus = bus;
        world = record {
          machine = m;
          user = record { device = fresh_device; vm = vm; agent = agent; printed = [] };
        };
      })

  unfoldable pub run_guest : ℕ → VCpu → VirtualMachine → Machine K → Option (Left K)
  unfolding fuzz_guest
  run_guest fuel v vm m =
      let t = table_of vm m in
      let (ec, m') = install_cpuid kvm v t.entries t.world.machine in
      if ec == no_error
      then fuzz_guest fuel v t (record { machine = m'; user = t.world.user })
      else failed vm m'

  -- `&vm.vcpus()[0]`
  unfoldable pub first_vcpu : ℕ → VirtualMachine → Machine K → Option (Left K)
  unfolding run_guest
  first_vcpu fuel vm m = elim (front vm.vcpus) [ none ↦ none | some v ↦ run_guest fuel v vm m ]

  -- An error of the call is printed, and `main` goes on.
  unfoldable pub trap_emulation : KvmSystem → VirtualMachine → Machine K → Machine K
  trap_emulation sys vm m =
      if check_extension kvm sys cap_exit_on_emulation_failure m.kernel
      then set_kernel (enable_emulation_exits kvm vm m.kernel).1 m
      else m

  unfoldable pub load_guest : ℕ → List ℕ → VirtualMachine → Machine K → Option (Left K)
  unfolding first_vcpu
  load_guest fuel [] vm m = failed vm m
  load_guest fuel (b ∷ bs) vm m = elim (load_bytes kvm (b ∷ bs) 0x1000 (2 ^ 19) vm m) [
    | none ↦ none
    | some r ↦ if r.0.0 == no_error then first_vcpu fuel r.0.1 r.1 else failed r.0.1 r.1
  ]

  -- The destructors of the VM and of the system, at every return after both were made.
  unfoldable pub leave : KvmSystem → Left K → Ended K
  leave sys l =
      let m = VirtualMachine.release kvm l.vm l.machine in
      record {
        status = l.status;
        events_file = l.events_file;
        machine = set_kernel (KvmSystem.release kvm sys m.kernel) m;
      }

  unfoldable pub with_vm : ℕ → List ℕ → KvmSystem → VirtualMachine → Machine K → Option (Ended K)
  unfolding load_guest trap_emulation leave
  with_vm fuel guest sys vm m = elim (load_guest fuel guest vm (trap_emulation sys vm m)) [
    | none ↦ none
    | some l ↦ some (leave sys l)
  ]

  unfoldable pub with_system : ℕ → List ℕ → KvmSystem → Machine K → Option (Ended K)
  unfolding with_vm
  with_system fuel guest sys m =
      let (made, k) = create_vm kvm sys m.kernel in
      elim made [
        | err _ ↦ some (record {
          status = 1;
          events_file = none;
          machine = set_kernel (KvmSystem.release kvm sys k) m;
        })
        | ok vm ↦ with_vm fuel guest sys vm (set_kernel k m)
      ]

  unfoldable pub main : ℕ → List ℕ → Machine K → Option (Ended K)
  unfolding with_system
  main fuel guest m =
      let (opened, k) = open_system kvm "/dev/kvm" m.kernel in
      elim opened [
        | err _ ↦ some (record { status = 1; events_file = none; machine = set_kernel k m })
        | ok sys ↦ with_system fuel guest sys (set_kernel k m)
      ]
