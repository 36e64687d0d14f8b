-- ===== src/Main/Callbacks.antt =====
-- What a call of a handler with the callbacks of src/main.cpp leaves as it was.
use min_bp.Prelude.{
  ℕ, ◌==◌, ◌≡◌, refl, ap, Bool, true, false, none, some, find, u32, get_elem?, Option-cases,
  if◌then◌else◌, Bool-cases, inl, inr,
}
use min_bp.Prelude.Result.{no_error, Result-cases}
use min_bp.Event.{HvEvent}
use min_bp.Kvm.{Fd, Regs, Sregs, Machine, World, Kvm, KvmRun}
use min_bp.VCpu.{VCpu}
use min_bp.VCpu
use min_bp.CpuidHandler.{CpuidHandler, LeafResult, inject, leaf_result}
use min_bp.CpuidHandler
use min_bp.IoPortHandler.{
  IoPortHandler, InContext, io_out, register_in_port, run_in, run_out, handle_in, handle_out,
}
use min_bp.IoPortHandler
use min_bp.VirtualMachine.{VirtualMachine}
use min_bp.VmiAgent.{snapshot_vcpu, snapshot_registers, handle_hv_event}
use min_bp.Main.State.{ProgramState}
use min_bp.Main.Device.{io_handler, read_keyboard}
use min_bp.Main.Wiring.{cpuid_handler, agent_handler}
use min_bp.Main.GuestCpuid.{guest_leaf, leaf_result-guest}

find_in :
    (port : ℕ)
    → find port io_handler.in_callbacks ≡ (if 0x60 == port then some read_keyboard else none)
unfolding io_handler register_in_port
find_in port = refl

find_out : (port : ℕ) → find port io_handler.out_callbacks ≡ none
unfolding io_handler register_in_port
find_out port = refl

run_in-keyboard :
    (b : Bool) (ctx : InContext) (s : ProgramState)
    → (run_in (if b then some read_keyboard else none) ctx s).1 ≡ s
unfolding run_in
run_in-keyboard true ctx s = refl
run_in-keyboard false ctx s = refl

-- A handler of ports with the program's callbacks.
abbrev pub IsKeyboard : IoPortHandler ProgramState → Type 0
IsKeyboard h =
    (h.in_callbacks ≡ io_handler.in_callbacks) × (h.out_callbacks ≡ io_handler.out_callbacks)

pub handle-IsKeyboard :
    (h : IoPortHandler ProgramState) (run : KvmRun) (s : ProgramState)
    → IsKeyboard h
    → IsKeyboard (IoPortHandler.handle h run s).handler × ((IoPortHandler.handle h run s).world ≡ s)
unfolding IoPortHandler.handle handle_out handle_in run_out
handle-IsKeyboard h run s k = elim (Bool-cases (run.io.direction == io_out)) [
  | inl e ↦ rw (e, k.1, find_out run.io.port) ((k.0, refl), refl)
  | inr e ↦
      rw (e, k.0, find_in run.io.port) ((refl, k.1), run_in-keyboard (0x60 == run.io.port) _ s)
]

module _ {K : Type 0} (kvm : Kvm K) where
  -- A property of the kernel's state that the calls made while the guest runs keep.
  pub record Stable (P : K → Type 0) : Type 0 where
    pub run : (fd : Fd) (m : Machine K) → P m.kernel → P (kvm.run fd m).1.kernel
    pub now : (k : K) → P k → P (kvm.now k).1
    pub set_regs : (fd : Fd) (regs : Regs) (k : K) → P k → P (kvm.set_regs fd regs k).1
    pub set_sregs : (fd : Fd) (sregs : Sregs) (k : K) → P k → P (kvm.set_sregs fd sregs k).1

module _ {K : Type 0} (kvm : Kvm K) {P : K → Type 0} (stable : Stable kvm P) where
  handle_regs-cpuid :
      (h : CpuidHandler ProgramState) (v : VCpu) (regs : Regs) (w : World K ProgramState)
      → h.leaf_callbacks ≡ cpuid_handler.leaf_callbacks
      → P w.machine.kernel
      → let r = CpuidHandler.handle_regs kvm h v regs w in
        (r.handler.leaf_callbacks ≡ cpuid_handler.leaf_callbacks)
        × (r.world.user ≡ w.user)
        × P r.world.machine.kernel
  unfolding CpuidHandler.handle_regs VCpu.set_regs
  handle_regs-cpuid h v regs w c p =
      let leaf = u32 regs.rax in
      let subleaf = u32 regs.rcx in
      let r = leaf_result kvm (find leaf h.leaf_callbacks) leaf subleaf w.user in
      let answer : r ≡ (guest_leaf kvm leaf subleaf, w.user) =
        rw c (leaf_result-guest kvm leaf subleaf w.user) in
      let kept = ap (λ (a : LeafResult × ProgramState). a.1) answer in
      let held = stable.set_regs v.fd (inject r.0 regs) w.machine.kernel p in
      elim (Bool-cases ((VCpu.set_regs kvm v (inject r.0 regs) w.machine).0 == no_error)) [
        | inl e ↦ rw e (c, kept, held)
        | inr e ↦ rw e (c, kept, held)
      ]

  pub handle-cpuid :
      (h : CpuidHandler ProgramState) (v : VCpu) (w : World K ProgramState)
      → h.leaf_callbacks ≡ cpuid_handler.leaf_callbacks
      → P w.machine.kernel
      → let r = CpuidHandler.handle kvm h v w in
        (r.handler.leaf_callbacks ≡ cpuid_handler.leaf_callbacks)
        × (r.world.user ≡ w.user)
        × P r.world.machine.kernel
  unfolding CpuidHandler.handle
  handle-cpuid h v w c p = elim (Result-cases (VCpu.get_regs kvm v w.machine)) [
    | inr (x, e) ↦ rw (e, CpuidHandler.handle) (c, refl, p)
    | inl (regs, e) ↦ rw (e, CpuidHandler.handle) (handle_regs-cpuid h v regs w c p)
  ]

  snapshot_vcpu-kernel :
      (v : VCpu) (m : Machine K) → P m.kernel → P (snapshot_vcpu kvm v m).1.kernel
  unfolding snapshot_vcpu
  snapshot_vcpu-kernel v m p = elim (Result-cases (VCpu.get_regs kvm v m)) [
    | inr (x, e) ↦ rw (e, snapshot_vcpu) p
    | inl (regs, e) ↦ elim (Result-cases (VCpu.get_sregs kvm v m)) [
      | inr (x, f) ↦ rw (e, snapshot_vcpu, f) p
      | inl (sregs, f) ↦ rw (e, snapshot_vcpu, f) (stable.now m.kernel p)
    ]
  ]

  snapshot_registers-kernel :
      (vm : VirtualMachine) (i : ℕ) (m : Machine K)
      → P m.kernel
      → P (snapshot_registers kvm (some vm) i m).1.kernel
  unfolding snapshot_registers
  snapshot_registers-kernel vm i m p = elim (Option-cases (get_elem? vm.vcpus i)) [
    | inl e ↦ rw (e, snapshot_registers) p
    | inr (v, e) ↦ rw (e, snapshot_registers) (snapshot_vcpu-kernel v m p)
  ]

  -- The agent's subscription keeps the VM and the device's state.
  pub agent_handler-keeps :
      (ev : HvEvent) (w : World K ProgramState)
      → P w.machine.kernel
      → P (agent_handler kvm ev w).machine.kernel
        × ((agent_handler kvm ev w).user.vm ≡ w.user.vm)
        × ((agent_handler kvm ev w).user.device ≡ w.user.device)
  unfolding agent_handler handle_hv_event
  agent_handler-keeps ev w p =
      (snapshot_registers-kernel w.user.vm ev.vcpu_id w.machine p, refl, refl)
