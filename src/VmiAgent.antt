-- ===== src/VmiAgent.antt =====
-- src/VmiAgent.cpp: introspection. The agent subscribes to the dispatcher, and keeps a log of the events
-- with the registers, and a piece of guest memory if that is wanted.
pub mod Summary
pub mod Reader
pub mod Reads
pub mod Entry
pub mod Log
pub mod Dump
pub mod Agents
use min_bp.Prelude.{
  ℕ, ◌+◌, ◌-◌, ◌==◌, Bool, true, false, not, ◌&&◌, List, [], ◌∷◌, ◌++◌, Option, none, some,
  get_elem?, leb, u64, if◌then◌else◌,
}
use min_bp.Prelude.Result.{Result, ok, err}
use min_bp.Event.{HvEvent}
use min_bp.Kvm.{Regs, Sregs, Machine, Kvm, set_kernel}
use min_bp.Memory.{Memory, peek}
use min_bp.VCpu.{VCpu}
use min_bp.VCpu
use min_bp.MemoryRegion.{MemoryRegion}
use min_bp.VirtualMachine.{VirtualMachine}
use min_bp.EventDispatcher.{EventDispatcher}
use min_bp.EventDispatcher
use Prim.Native.String.{String}
use min_bp.VmiAgent.Summary.{GuestSnapshot, no_snapshot, build_summary}

pub record IntrospectionEvent : Type 0 where
  pub base : HvEvent
  pub snapshot : GuestSnapshot
  pub mem_dump : Option (List ℕ)
  pub summary : String

-- The members but for the two pointers. `C` is the state that the agent's callbacks act on.
pub record VmiAgent (C : Type 0) : Type 0 where
  pub callbacks : List (IntrospectionEvent → C → C)
  pub event_log : List IntrospectionEvent
  pub sub_id : ℕ
  pub mem_dump_enabled : Bool
  pub mem_dump_addr : ℕ
  pub mem_dump_size : ℕ

-- What the subscriber of the agent acts on: the agent, the VM that it points to (`none` is a null
-- pointer), the machine and the callbacks' state.
pub record Watched (K C : Type 0) : Type 0 where
  pub agent : VmiAgent C
  pub vm : Option VirtualMachine
  pub machine : Machine K
  pub client : C

-- The loop over the regions: the first that holds the range is read.
unfoldable pub read_regions : List MemoryRegion → ℕ → ℕ → Memory → List ℕ
read_regions [] addr size mem = []
read_regions (r ∷ rs) addr size mem =
    let rest = read_regions rs addr size mem in
    if leb r.guest_phys_addr addr && leb (u64 (addr + size)) (u64 (r.guest_phys_addr + r.size))
    then peek (r.host_addr + (addr - r.guest_phys_addr)) size mem
    else rest

unfoldable pub read_guest_phys_memory : Option VirtualMachine → ℕ → ℕ → Memory → List ℕ
unfolding read_regions
read_guest_phys_memory none addr size mem = []
read_guest_phys_memory (some vm) addr size mem = read_regions vm.memory_regions addr size mem

abbrev pub snapshot_of : Regs → Sregs → ℕ → GuestSnapshot
snapshot_of r sr time = record {
  rip = r.rip;
  rsp = r.rsp;
  rax = r.rax;
  rbx = r.rbx;
  rcx = r.rcx;
  rdx = r.rdx;
  rsi = r.rsi;
  rdi = r.rdi;
  r8 = r.r8;
  r9 = r.r9;
  r10 = r.r10;
  r11 = r.r11;
  r12 = r.r12;
  r13 = r.r13;
  r14 = r.r14;
  r15 = r.r15;
  rflags = r.rflags;
  cr0 = sr.cr0;
  cr3 = sr.cr3;
  cr4 = sr.cr4;
  timestamp = time;
}

-- An empty dump is none.
unfoldable pub some_dump : List ℕ → Option (List ℕ)
some_dump [] = none
some_dump (b ∷ bs) = some (b ∷ bs)

module _ {C : Type 0} where
  abbrev pub new : VmiAgent C
  new = record {
    callbacks = [];
    event_log = [];
    sub_id = 0;
    mem_dump_enabled = false;
    mem_dump_addr = 0;
    mem_dump_size = 0;
  }

  unfoldable pub on_event : (IntrospectionEvent → C → C) → VmiAgent C → VmiAgent C
  on_event cb a = record a { callbacks = a.callbacks ++ cb ∷ [] }

  unfoldable pub enable_memory_dump : ℕ → ℕ → VmiAgent C → VmiAgent C
  enable_memory_dump guest_phys_addr size a = record a {
    mem_dump_enabled = true;
    mem_dump_addr = guest_phys_addr;
    mem_dump_size = size;
  }

  unfoldable pub disable_memory_dump : VmiAgent C → VmiAgent C
  disable_memory_dump a = record a { mem_dump_enabled = false }

  -- The constructor: `handler` is the closure that calls `handleHvEvent` of the agent.
  unfoldable pub attach :
      {W : Type 0}
      → (HvEvent → W → W)
      → Option (EventDispatcher W)
      → VmiAgent C × Option (EventDispatcher W)
  attach handler none = (new, none)
  attach handler (some d) =
      let (d', id) = EventDispatcher.subscribe_all handler d in
      (record new { sub_id = id }, some d')

  -- The destructor.
  unfoldable pub detach :
      {W : Type 0} → VmiAgent C → Option (EventDispatcher W) → Option (EventDispatcher W)
  detach a none = none
  detach a (some d) =
      if not (a.sub_id == 0) then some (EventDispatcher.unsubscribe a.sub_id d) else some d

  -- The loop over the callbacks.
  unfoldable pub notify : List (IntrospectionEvent → C → C) → IntrospectionEvent → C → C
  notify [] ie c = c
  notify (cb ∷ cbs) ie c = notify cbs ie (cb ie c)

  unfoldable pub dump_of : VmiAgent C → Option VirtualMachine → Memory → Option (List ℕ)
  unfolding some_dump
  dump_of a vm mem =
      if a.mem_dump_enabled
      then some_dump (read_guest_phys_memory vm a.mem_dump_addr a.mem_dump_size mem)
      else none

module _ {K : Type 0} (kvm : Kvm K) where
  -- The registers of one vCPU; the clock is read when both kinds can be read.
  unfoldable pub snapshot_vcpu : VCpu → Machine K → Option GuestSnapshot × Machine K
  snapshot_vcpu v m = elim (VCpu.get_regs kvm v m) [
    | err _ ↦ (none, m)
    | ok regs ↦ elim (VCpu.get_sregs kvm v m) [
      | err _ ↦ (none, m)
      | ok sregs ↦
          (some (snapshot_of regs sregs (kvm.now m.kernel).0), set_kernel (kvm.now m.kernel).1 m)
    ]
  ]

  unfoldable pub snapshot_registers :
      Option VirtualMachine → ℕ → Machine K → Option GuestSnapshot × Machine K
  snapshot_registers none vcpu_index m = (none, m)
  snapshot_registers (some vm) vcpu_index m = elim (get_elem? vm.vcpus vcpu_index) [
    | none ↦ (none, m)
    | some v ↦ snapshot_vcpu v m
  ]

  abbrev pub or_zeros : Option GuestSnapshot → GuestSnapshot
  or_zeros none = no_snapshot
  or_zeros (some snap) = snap

  unfoldable pub handle_hv_event : {C : Type 0} → HvEvent → Watched K C → Watched K C
  handle_hv_event event w =
      let (taken, m) = snapshot_registers w.vm event.vcpu_id w.machine in
      let snapshot = or_zeros taken in
      let ie : IntrospectionEvent = record {
        base = event;
        snapshot = snapshot;
        mem_dump = dump_of w.agent w.vm m.memory;
        summary = build_summary event snapshot;
      } in
      record {
        agent = record w.agent { event_log = w.agent.event_log ++ ie ∷ [] };
        vm = w.vm;
        machine = m;
        client = notify w.agent.callbacks ie w.client;
      }
