-- ===== src/Tests/Exits.antt =====
-- The CPUID and MSR handlers and the run loop at concrete inputs.
use min_bp.Prelude.{
  ℕ, ◌+◌, ◌*◌, ◌^◌, ◌≡◌, ◌≢◌, ◌↔◌, ◌⊎◌, refl, inr, List, [], ◌∷◌, none, some, true, false, arith,
}
use min_bp.Prelude.Result.{ok}
use min_bp.Event.{HvEvent}
use min_bp.EventDispatcher.{EventDispatcher}
use min_bp.Kvm.{KvmRun, World, Kvm, zero_regs, set_run_page}
use min_bp.VCpu.{VCpu, ExitReason, exit_reason}
use min_bp.VCpu
use min_bp.CpuidHandler.{CpuidHandler, LeafResult}
use min_bp.CpuidHandler
use min_bp.CpuidHandler.Leaves.{handle_outcome}
use min_bp.MsrHandler.{MsrHandler}
use min_bp.MsrHandler
use min_bp.MsrHandler.Access.{rdmsr_outcome, wrmsr_as_rdmsr}
use min_bp.MsrHandler.Filter.{permits, permits-filter_of}
use min_bp.InstructionTrapper.{
  RunResult, Session, InstructionTrapper, step, run_loop, dispatch_exit, kvm_run, call_mmio,
  call_cpuid, error_emulation,
}
use min_bp.InstructionTrapper.Loop.{Continues, Ends, run_loop_iff, run_loop_returns}
use min_bp.InstructionTrapper.Results.{dispatch_exit_errs, with_msr, with_msr_result, step-with_msr}
use min_bp.InstructionTrapper.Unhandled.{unhandled_spins}
use min_bp.InstructionTrapper.Payloads.{mmio_read_event}
use min_bp.Tests.Toy.{Toy, toy, toy-RegistersHold, vcpu, idle, machine, run_base}
use min_bp.Tests.Buses.{device, read_exit, read_register}

abbrev world : World Toy ℕ
world = record { machine = machine []; user = 5 }

-- A leaf whose callback reports the subleaf.
abbrev leaf_callback : CpuidHandler.LeafCallback ℕ
leaf_callback leaf subleaf u = (record { eax = leaf; ebx = subleaf; ecx = 1; edx = 2 }, u + 1)

abbrev leaves : CpuidHandler ℕ
leaves = record { leaf_callbacks = (0, leaf_callback) ∷ []; handled_count = 3 }

handle_outcome_example :
    VCpu.get_regs toy vcpu (CpuidHandler.handle toy leaves vcpu world).world.machine
    ≡ ok (record zero_regs { rax = 0; rbx = 0; rcx = 1; rdx = 2 })
unfolding VCpu.get_regs VCpu.set_regs CpuidHandler.leaf_result
handle_outcome_example =
    (((handle_outcome toy toy-RegistersHold leaves vcpu world).1 zero_regs refl).2 refl).2

-- A register 0x10 that holds the user state, widened by a high half.
abbrev read_tsc : MsrHandler.ReadCallback ℕ
read_tsc idx u = (7 * 2 ^ 32 + u, u + 1)

abbrev msrs : MsrHandler ℕ
msrs = record {
  read_callbacks = (0x10, read_tsc) ∷ [];
  write_callbacks = (0x11, λ idx v u. v) ∷ [];
  read_count = 0;
  write_count = 0;
}

rdmsr_outcome_example :
    (MsrHandler.handle toy msrs vcpu (record { reason = 4; index = 0x10; value = 0 }) world).done
    ≡ true
unfolding VCpu.get_regs VCpu.set_regs
rdmsr_outcome_example =
    ((rdmsr_outcome toy toy-RegistersHold msrs vcpu (record { reason = 4; index = 0x10; value = 0 })
        world zero_regs (omega arith) refl).2
      refl).0

wrmsr_as_rdmsr_example :
    (MsrHandler.handle toy msrs vcpu
      (record { reason = 4; index = 0x11; value = 9 })
      world).handler.write_count
    ≡ 0
wrmsr_as_rdmsr_example =
    (wrmsr_as_rdmsr toy msrs vcpu (record { reason = 4; index = 0x11; value = 9 }) world
      (inr (inr refl))).0

permits-filter_of_example : permits (MsrHandler.filter_of msrs) 0x10 ≡ true
permits-filter_of_example = permits-filter_of msrs 0x10

-- A trapper with the MMIO device and a subscriber that adds 1 to the user state.
abbrev count_event : HvEvent → World Toy ℕ → World Toy ℕ
count_event ev w = record w { user = w.user + 1 }

abbrev listener : EventDispatcher (World Toy ℕ)
listener = record {
  subscriptions = record { id = 1; filter = none; handler = count_event } ∷ [];
  next_id = 2;
  published_count = 0;
}

abbrev trapper : InstructionTrapper Toy ℕ
trapper = record {
  vcpu = vcpu;
  cpuid = some leaves;
  io = none;
  msr = none;
  mmio = some device;
  dispatch = some listener;
  exit_count = 0;
}

abbrev session : List KvmRun → Session Toy ℕ
session script = record { trapper = trapper; world = record { machine = machine script; user = 5 } }

abbrev halted : KvmRun
halted = record idle { exit_reason = 5 }

-- The guest is interrupted, and then halts.
abbrev two_exits : Session Toy ℕ
two_exits = session (idle ∷ halted ∷ [])

abbrev later : Session Toy ℕ
later = (step toy two_exits).1

interrupted : (step toy two_exits).0 ≡ RunResult.continue
unfolding step dispatch_exit VCpu.run exit_reason
interrupted = refl

stopped : (step toy later).0 ≡ RunResult.halt
unfolding step dispatch_exit VCpu.run exit_reason
stopped = refl

run_loop_iff_example :
    ((fuel : ℕ) × (run_loop toy fuel 10 0 two_exits ≡ some (RunResult.halt, (step toy later).1)))
    ↔ Ends toy 10 0 two_exits RunResult.halt (step toy later).1
run_loop_iff_example = run_loop_iff toy 10 two_exits RunResult.halt (step toy later).1 (omega arith)

two_exits-Ends : Ends toy 10 0 two_exits RunResult.halt (step toy later).1
two_exits-Ends =
    Ends.by_step 1 (inr (omega arith)) (Continues.further interrupted (Continues.here later))
      (λ i. (stopped i, (step toy later).1)) (λ e. cc)

run_loop_returns_example :
    (r : RunResult × Session Toy ℕ) × (run_loop toy 11 10 0 two_exits ≡ some r)
run_loop_returns_example = run_loop_returns toy 10 two_exits (omega arith) (omega arith)

dispatch_exit_errs_example :
    ((dispatch_exit toy ExitReason.internal_error two_exits).0 ≡ RunResult.error) ↔ (
      ((ExitReason.internal_error ≡ ExitReason.mmio)
        × ((call_mmio toy (some device) two_exits).0 ≡ false))
      ⊎ ((ExitReason.internal_error ≡ ExitReason.unknown)
          × ((kvm_run two_exits).hardware_exit_reason ≡ 0)
          × ((call_cpuid toy (some leaves) two_exits).0 ≡ false))
      ⊎ ((ExitReason.internal_error ≡ ExitReason.internal_error)
          × (((kvm_run two_exits).suberror ≢ error_emulation)
              ⊎ ((call_cpuid toy (some leaves) two_exits).0 ≡ false))))
dispatch_exit_errs_example = dispatch_exit_errs toy ExitReason.internal_error two_exits

step-with_msr_example :
    step toy (with_msr toy (some msrs) two_exits)
    ≡ with_msr_result toy (some msrs) (step toy two_exits)
step-with_msr_example = step-with_msr toy (some msrs) two_exits

-- A kernel that cannot enter the guest.
abbrev broken : Kvm Toy
broken = record toy {
  run = λ fd m. (ok tt, set_run_page run_base (record idle { exit_reason = 9 }) m);
}

unhandled_spins_example : run_loop broken 1000 0 0 two_exits ≡ none
unfolding VCpu.run exit_reason
unhandled_spins_example =
    unhandled_spins broken vcpu ExitReason.fail_entry
      ((λ e. cc), (λ e. cc), (λ e. cc), (λ e. cc), (λ e. cc), (λ e. cc)) (λ s. refl) 1000 0
      two_exits refl

-- The guest is about to read from the device.
abbrev reading : Session Toy ℕ
reading = record {
  trapper = trapper;
  world = record {
    machine =
        set_run_page run_base (record idle { exit_reason = 6; mmio = read_exit }) (machine []);
    user = 0xABCDE;
  };
}

mmio_read_event_example : (dispatch_exit toy ExitReason.mmio reading).0 ≡ RunResult.continue
mmio_read_event_example =
    (mmio_read_event toy reading device listener read_register refl refl (omega arith, omega arith)
      refl (omega arith) refl).0
