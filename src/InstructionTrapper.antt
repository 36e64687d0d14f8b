-- ===== src/InstructionTrapper.antt =====
-- src/InstructionTrapper.cpp: the run loop, and the dispatch of each exit to its handler. The handlers
-- and the dispatcher that the trapper points to are part of its state; `none` is a null pointer. A
-- callback of a handler acts on the user state `U`, a subscriber of the dispatcher on the whole world.
pub mod EventData
pub mod Results
pub mod Loop
pub mod Payloads
pub mod Unhandled
pub mod Events
use min_bp.Prelude.{
  ℕ, zero, suc, ◌+◌, ◌==◌, Bool, true, false, ◌||◌, Option, none, some, drop, ltb, u32, u64, min,
  if◌then◌else◌,
}
use min_bp.Prelude.Result.{Result, ok, err}
use min_bp.Bytes.{load}
use min_bp.Event.{EventType, EventPayload, HvEvent, CpuidEvent, IoEvent, MmioEvent, empty_cpuid}
use min_bp.InstructionTrapper.EventData.{rip_or_zero, cpuid_payload, io_payload, mmio_payload}
use min_bp.Kvm.{Regs, KvmRun, Machine, World, Kvm, set_kernel, set_run_page}
use min_bp.VCpu
use min_bp.VCpu.{VCpu, ExitReason}
use min_bp.CpuidHandler.{CpuidHandler}
use min_bp.CpuidHandler
use min_bp.IoPortHandler.{IoPortHandler, io_out}
use min_bp.IoPortHandler
use min_bp.MsrHandler.{MsrHandler}
use min_bp.MmioHandler.{MmioHandler}
use min_bp.MmioHandler
use min_bp.EventDispatcher.{EventDispatcher}
use min_bp.EventDispatcher

pub data RunResult : Type 0 where
  continue halt shutdown error : RunResult

pub record InstructionTrapper (K U : Type 0) : Type 0 where
  pub vcpu : VCpu
  pub cpuid : Option (CpuidHandler U)
  pub io : Option (IoPortHandler U)
  pub msr : Option (MsrHandler U)
  pub mmio : Option (MmioHandler U)
  pub dispatch : Option (EventDispatcher (World K U))
  pub exit_count : ℕ

-- The trapper in the world that it runs in.
pub record Session (K U : Type 0) : Type 0 where
  pub trapper : InstructionTrapper K U
  pub world : World K U

-- KVM_INTERNAL_ERROR_EMULATION
abbrev pub error_emulation : ℕ
error_emulation = 1

abbrev pub kvm_run : {K U : Type 0} → Session K U → KvmRun
kvm_run s = VCpu.kvm_run s.trapper.vcpu s.world.machine

module _ {K U : Type 0} (kvm : Kvm K) where
  -- `m_dispatch->publish(ev)` for an event with the time, and the RIP if it is wanted and can be read.
  unfoldable pub publish_to :
      Option (EventDispatcher (World K U))
      → EventType
      → EventPayload
      → Bool
      → Session K U
      → Session K U
  publish_to none type payload with_rip s = s
  publish_to (some d) type payload with_rip s =
      let (time, k) = kvm.now s.world.machine.kernel in
      let w : World K U = record { machine = set_kernel k s.world.machine; user = s.world.user } in
      let rip = if with_rip then rip_or_zero (VCpu.get_regs kvm s.trapper.vcpu w.machine) else 0 in
      let ev : HvEvent = record {
        type = type;
        vcpu_id = s.trapper.vcpu.id;
        rip = rip;
        timestamp = time;
        payload = payload;
      } in
      let (d', w') = EventDispatcher.publish ev d w in
      record { trapper = record s.trapper { dispatch = some d' }; world = w' }

  -- The handler calls; without a handler the exit counts as handled.
  unfoldable pub call_io : Option (IoPortHandler U) → Session K U → Bool × Session K U
  call_io none s = (true, s)
  call_io (some h) s =
      let r = IoPortHandler.handle h (kvm_run s) s.world.user in
      (
        r.done,
        record {
          trapper = record s.trapper { io = some r.handler };
          world = record {
            machine = set_run_page s.trapper.vcpu.run_page r.run s.world.machine;
            user = r.world;
          };
        },
      )

  unfoldable pub call_mmio : Option (MmioHandler U) → Session K U → Bool × Session K U
  call_mmio none s = (true, s)
  call_mmio (some h) s =
      let run = kvm_run s in
      let r = MmioHandler.handle h run.mmio s.world.user in
      (
        r.done,
        record {
          trapper = record s.trapper { mmio = some r.handler };
          world = record {
            machine =
                set_run_page s.trapper.vcpu.run_page (record run { mmio = r.exit }) s.world.machine;
            user = r.world;
          };
        },
      )

  unfoldable pub call_cpuid : Option (CpuidHandler U) → Session K U → Bool × Session K U
  call_cpuid none s = (true, s)
  call_cpuid (some h) s =
      let r = CpuidHandler.handle kvm h s.trapper.vcpu s.world in
      (r.done, record { trapper = record s.trapper { cpuid = some r.handler }; world = r.world })

  abbrev pub io_event : Session K U → EventType
  io_event s = if (io_payload (kvm_run s)).is_write then EventType.io_write else EventType.io_read

  unfoldable pub exit_io : Session K U → RunResult × Session K U
  exit_io s =
      let (done, s') = call_io s.trapper.io s in
      if done
      then (
        RunResult.continue,
        publish_to s'.trapper.dispatch (io_event s') (EventPayload.io (io_payload (kvm_run s')))
            true s',
      )
      else (RunResult.error, s')

  unfoldable pub exit_mmio : Session K U → RunResult × Session K U
  exit_mmio s =
      let (done, s') = call_mmio s.trapper.mmio s in
      if done
      then (
        RunResult.continue,
        publish_to s'.trapper.dispatch EventType.mem_access
            (EventPayload.mmio (mmio_payload (kvm_run s'))) true s',
      )
      else (RunResult.error, s')

  unfoldable pub exit_unknown : Session K U → RunResult × Session K U
  exit_unknown s =
      let (done, s') = call_cpuid s.trapper.cpuid s in
      if (kvm_run s).hardware_exit_reason == 0
      then (if done then (RunResult.continue, s') else (RunResult.error, s'))
      else (RunResult.continue, s)

  unfoldable pub exit_internal_error : Session K U → RunResult × Session K U
  exit_internal_error s =
      let (done, s') = call_cpuid s.trapper.cpuid s in
      if (kvm_run s).suberror == error_emulation
      then (if done
          then (
            RunResult.continue,
            publish_to s'.trapper.dispatch EventType.cpuid_access
                (cpuid_payload (VCpu.get_regs kvm s'.trapper.vcpu s'.world.machine)) true s',
          )
          else (RunResult.error, s'))
      else (RunResult.error, s)

  -- The event of a shutdown has no RIP, and the default payload: that is the first alternative.
  unfoldable pub dispatch_exit : ExitReason → Session K U → RunResult × Session K U
  dispatch_exit ExitReason.hlt s = (
    RunResult.halt,
    publish_to s.trapper.dispatch EventType.guest_halt EventPayload.monostate true s,
  )
  dispatch_exit ExitReason.shutdown s = (
    RunResult.shutdown,
    publish_to s.trapper.dispatch EventType.guest_shutdown (EventPayload.cpuid empty_cpuid) false s,
  )
  dispatch_exit ExitReason.io s = exit_io s
  dispatch_exit ExitReason.unknown s = exit_unknown s
  dispatch_exit ExitReason.intr s = (RunResult.continue, s)
  dispatch_exit ExitReason.mmio s = exit_mmio s
  dispatch_exit ExitReason.internal_error s = exit_internal_error s
  dispatch_exit _ s = (RunResult.continue, s)

  abbrev pub after_run : Session K U → Machine K → Session K U
  after_run s m = record s { world = record { machine = m; user = s.world.user } }

  abbrev pub count_exit : Session K U → Session K U
  count_exit s = record s {
    trapper = record s.trapper { exit_count = u64 (s.trapper.exit_count + 1) };
  }

  unfoldable pub step : Session K U → RunResult × Session K U
  step s =
      let (exit, m) = VCpu.run kvm s.trapper.vcpu s.world.machine in
      elim exit [
        | err e ↦ (RunResult.error, after_run s m)
        | ok reason ↦ dispatch_exit reason (count_exit (after_run s m))
      ]

  -- `runLoop`, with fuel: `none` means that the loop is still running. `iterations` counts the
  -- rounds done; the limit 0 stands for none.
  unfoldable pub run_loop : ℕ → ℕ → ℕ → Session K U → Option (RunResult × Session K U)
  run_loop zero max_iterations iterations s = none
  run_loop (suc fuel) max_iterations iterations s =
      let (result, s') = step s in
      let more = run_loop fuel max_iterations (u64 (iterations + 1)) s' in
      let round : Option (RunResult × Session K U) = elim result [
        | RunResult.continue ↦ more
        | other ↦ some (other, s')
      ] in
      if max_iterations == 0 || ltb iterations max_iterations
      then round
      else some (RunResult.continue, s)
