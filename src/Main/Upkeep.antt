-- ===== src/Main/Upkeep.antt =====
-- What stays as it is while the guest of src/main.cpp runs.
pub mod Steps
pub mod Isolation
pub mod Events
pub mod Logged
pub mod Stopping
use min_bp.Prelude.{
  ℕ, zero, suc, ◌==◌, ◌≡◌, refl, ap, ◌∙◌, sym, Bool, true, false, Option, none, some, if◌then◌else◌,
  subst, Bool-cases, inl, inr,
}
use min_bp.Prelude.Result.{ok, err, Result-cases}
use min_bp.EventDispatcher.{publish}
use min_bp.Event.{HvEvent, EventType, EventPayload}
use min_bp.Kvm.{Machine, World, Kvm, set_kernel}
use min_bp.VCpu.{VCpu, ExitReason}
use min_bp.VCpu
use min_bp.VirtualMachine.{VirtualMachine}
use min_bp.CpuidHandler.{CpuidHandler}
use min_bp.IoPortHandler.{IoPortHandler}
use min_bp.MmioHandler.{MmioHandler}
use min_bp.InstructionTrapper.{
  RunResult, Session, publish_to, call_io, call_mmio, call_cpuid, exit_io, exit_mmio, exit_unknown,
  exit_internal_error, dispatch_exit, after_run, count_exit, step, kvm_run, error_emulation,
}
use min_bp.InstructionTrapper.EventData.{cpuid_payload}
use min_bp.InstructionTrapper.Loop.{Continues, Ends, here, further, by_limit, by_step}
use min_bp.Main.State.{ProgramState}
use min_bp.Main.Device.Protocol.{HasDevice, handle-HasDevice, handle-vm}
use min_bp.Main.Wiring.{Bus, cpuid_handler}
use min_bp.Main.CpuidTable.Installed.{IsWired, publish-IsWired}
use min_bp.Main.Callbacks.{Stable, IsKeyboard, handle-IsKeyboard, handle-cpuid, agent_handler-keeps}

-- The handlers that are there have the program's callbacks.
abbrev pub CpuidKept : Option (CpuidHandler ProgramState) → Type 0
CpuidKept none = Unit {0}
CpuidKept (some h) = h.leaf_callbacks ≡ cpuid_handler.leaf_callbacks

abbrev pub IoKept : Option (IoPortHandler ProgramState) → Type 0
IoKept none = Unit {0}
IoKept (some h) = IsKeyboard h

abbrev pub MmioKept : Option (MmioHandler ProgramState) → Type 0
MmioKept none = Unit {0}
MmioKept (some h) = HasDevice h

module _ {K : Type 0} (kvm : Kvm K) where
  abbrev pub BusKept : Option (Bus kvm) → Type 0
  BusKept none = Unit {0}
  BusKept (some d) = IsWired kvm d

  -- The session is the program's, has the VM `vm`, and its kernel is in a state with the property `P`.
  pub record Kept (P : K → Type 0) (vm : VirtualMachine) (s : Session K ProgramState) : Type 0 where
    pub cpuid : CpuidKept s.trapper.cpuid
    pub io : IoKept s.trapper.io
    pub mmio : MmioKept s.trapper.mmio
    pub bus : BusKept s.trapper.dispatch
    pub same_vm : s.world.user.vm ≡ vm
    pub kernel : P s.world.machine.kernel

module _ {K : Type 0} (kvm : Kvm K) {P : K → Type 0} (stable : Stable kvm P)
    (vm : VirtualMachine) where
  published :
      (ev : HvEvent) (d : Bus kvm) (w : World K ProgramState) (s : Session K ProgramState)
      → IsWired kvm d
      → P w.machine.kernel
      → w.user.vm ≡ vm
      → Kept kvm P vm s
      → Kept kvm P vm (record {
        trapper = record s.trapper { dispatch = some (publish ev d w).0 };
        world = (publish ev d w).1;
      })
  published ev d w s wired p same k =
      let to_agent = publish-IsWired kvm ev d w wired in
      let keeps = agent_handler-keeps kvm stable ev w p in
      record {
        cpuid = k.cpuid;
        io = k.io;
        mmio = k.mmio;
        bus = to_agent.1;
        same_vm = ap (λ (u : World K ProgramState). u.user.vm) to_agent.0 ∙ keeps.1 ∙ same;
        kernel = subst (λ (u : World K ProgramState). P u.machine.kernel) (sym to_agent.0) keeps.0;
      }

  publish_to-Kept :
      (d : Option (Bus kvm)) (type : EventType) (payload : EventPayload) (with_rip : Bool)
      (s : Session K ProgramState)
      → BusKept kvm d
      → Kept kvm P vm s
      → Kept kvm P vm (publish_to kvm d type payload with_rip s)
  unfolding publish_to
  publish_to-Kept none type payload with_rip s b k = k
  publish_to-Kept (some d) type payload with_rip s b k =
      published _ d _ s b (stable.now s.world.machine.kernel k.kernel) k.same_vm k

  pub call_io-Kept :
      (o : Option (IoPortHandler ProgramState)) (s : Session K ProgramState)
      → IoKept o
      → Kept kvm P vm s
      → Kept kvm P vm (call_io kvm o s).1
  unfolding call_io
  call_io-Kept none s h k = k
  call_io-Kept (some h) s b k =
      let r = handle-IsKeyboard h (kvm_run s) s.world.user b in
      record {
        cpuid = k.cpuid;
        io = r.0;
        mmio = k.mmio;
        bus = k.bus;
        same_vm = ap (λ (u : ProgramState). u.vm) r.1 ∙ k.same_vm;
        kernel = k.kernel;
      }

  pub call_mmio-Kept :
      (o : Option (MmioHandler ProgramState)) (s : Session K ProgramState)
      → MmioKept o
      → Kept kvm P vm s
      → Kept kvm P vm (call_mmio kvm o s).1
  unfolding call_mmio
  call_mmio-Kept none s h k = k
  call_mmio-Kept (some h) s b k = record {
    cpuid = k.cpuid;
    io = k.io;
    mmio = handle-HasDevice h (kvm_run s).mmio s.world.user b;
    bus = k.bus;
    same_vm = handle-vm h (kvm_run s).mmio s.world.user b ∙ k.same_vm;
    kernel = k.kernel;
  }

  pub call_cpuid-Kept :
      (o : Option (CpuidHandler ProgramState)) (s : Session K ProgramState)
      → CpuidKept o
      → Kept kvm P vm s
      → Kept kvm P vm (call_cpuid kvm o s).1
  unfolding call_cpuid
  call_cpuid-Kept none s h k = k
  call_cpuid-Kept (some h) s b k =
      let r = handle-cpuid kvm stable h s.trapper.vcpu s.world b k.kernel in
      record {
        cpuid = r.0;
        io = k.io;
        mmio = k.mmio;
        bus = k.bus;
        same_vm = ap (λ (u : ProgramState). u.vm) r.1 ∙ k.same_vm;
        kernel = r.2;
      }

  -- What a handler's call and the event after it give.
  abbrev Gives : RunResult × Session K ProgramState → Type 0
  Gives r = Kept kvm P vm r.1

  either :
      (b : Bool) (x y : RunResult × Session K ProgramState)
      → Gives x
      → Gives y
      → Gives (if b then x else y)
  either true x y p q = p
  either false x y p q = q

  dispatch_exit-Kept :
      (reason : ExitReason) (s : Session K ProgramState)
      → Kept kvm P vm s
      → Kept kvm P vm (dispatch_exit kvm reason s).1
  unfolding dispatch_exit exit_io exit_mmio exit_unknown exit_internal_error
  dispatch_exit-Kept ExitReason.hlt s k = publish_to-Kept s.trapper.dispatch _ _ _ s k.bus k
  dispatch_exit-Kept ExitReason.shutdown s k = publish_to-Kept s.trapper.dispatch _ _ _ s k.bus k
  dispatch_exit-Kept ExitReason.io s k =
      let called = call_io-Kept s.trapper.io s k.io k in
      either _ _ _ (publish_to-Kept _ _ _ _ _ called.bus called) called
  dispatch_exit-Kept ExitReason.mmio s k =
      let called = call_mmio-Kept s.trapper.mmio s k.mmio k in
      either _ _ _ (publish_to-Kept _ _ _ _ _ called.bus called) called
  dispatch_exit-Kept ExitReason.unknown s k =
      let (done, s') = call_cpuid kvm s.trapper.cpuid s in
      let called = call_cpuid-Kept s.trapper.cpuid s k.cpuid k in
      either ((kvm_run s).hardware_exit_reason == 0)
        (if done then (RunResult.continue, s') else (RunResult.error, s')) (RunResult.continue, s)
        (either done (RunResult.continue, s') (RunResult.error, s') called called) k
  dispatch_exit-Kept ExitReason.internal_error s k =
      let (done, s') = call_cpuid kvm s.trapper.cpuid s in
      let called = call_cpuid-Kept s.trapper.cpuid s k.cpuid k in
      let told =
        publish_to kvm s'.trapper.dispatch EventType.cpuid_access
          (cpuid_payload (VCpu.get_regs kvm s'.trapper.vcpu s'.world.machine)) true s' in
      either ((kvm_run s).suberror == error_emulation)
        (if done then (RunResult.continue, told) else (RunResult.error, s')) (RunResult.error, s)
        (either done (RunResult.continue, told) (RunResult.error, s')
          (publish_to-Kept s'.trapper.dispatch _ _ _ s' called.bus called) called)
        k
  dispatch_exit-Kept _ s k = k

  pub after_run-Kept :
      (s : Session K ProgramState) (m : Machine K)
      → P m.kernel
      → Kept kvm P vm s
      → Kept kvm P vm (after_run kvm s m)
  after_run-Kept s m p k = record {
    cpuid = k.cpuid;
    io = k.io;
    mmio = k.mmio;
    bus = k.bus;
    same_vm = k.same_vm;
    kernel = p;
  }

  pub count_exit-Kept :
      (s : Session K ProgramState) → Kept kvm P vm s → Kept kvm P vm (count_exit kvm s)
  count_exit-Kept s k = record {
    cpuid = k.cpuid;
    io = k.io;
    mmio = k.mmio;
    bus = k.bus;
    same_vm = k.same_vm;
    kernel = k.kernel;
  }
