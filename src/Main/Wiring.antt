-- ===== src/Main/Wiring.antt =====
-- src/main.cpp: the callbacks on CPUID and on the dispatcher, and the objects that they are given to.
use min_bp.Prelude.{ℕ, ◌%◌, ◌^◌, [], ◌∷◌, ◌++◌, Option, none, some}
use min_bp.Event.{HvEvent}
use min_bp.Kvm.{World, Kvm}
use min_bp.CpuidHandler.{CpuidHandler, LeafResult, LeafCallback}
use min_bp.CpuidHandler
use min_bp.EventDispatcher.{EventDispatcher}
use min_bp.EventDispatcher
use min_bp.VmiAgent.{VmiAgent, IntrospectionEvent, Watched, attach, on_event, handle_hv_event}
use min_bp.Main.State.{MmioDeviceState, ProgramState}

-- `ecx &= ~(1u << 31)` on a word of 32 bits.
abbrev pub clear_hypervisor : ℕ → ℕ
clear_hypervisor ecx = ecx % 2 ^ 31

abbrev pub no_leaf : LeafResult
no_leaf = record { eax = 0; ebx = 0; ecx = 0; edx = 0 }

-- The four locals that the instruction fills are not used.
abbrev pub mask_leaf : LeafCallback ProgramState
mask_leaf leaf sub s = (record no_leaf { ecx = clear_hypervisor no_leaf.ecx }, s)

unfoldable pub cpuid_handler : CpuidHandler ProgramState
unfolding CpuidHandler.register_leaf
cpuid_handler = CpuidHandler.register_leaf 0x01 mask_leaf CpuidHandler.new

-- `mmio_state`, before the guest runs.
abbrev pub fresh_device : MmioDeviceState
fresh_device = record { last_write_value = 0; write_count = 0 }

-- The agent's own callback prints the summary.
abbrev pub print_summary : IntrospectionEvent → Unit {0} → Unit {0}
print_summary ev c = c

-- The local dispatcher, whose address is not null.
abbrev pub bus_of : {W : Type 0} → Option (EventDispatcher W) → EventDispatcher W
bus_of none = EventDispatcher.new
bus_of (some d) = d

module _ {K : Type 0} (kvm : Kvm K) where
  abbrev pub Bus : Type 0
  Bus = EventDispatcher (World K ProgramState)

  -- What the agent's subscription sees of the program, and what it leaves there.
  abbrev pub watched : World K ProgramState → Watched K (Unit {0})
  watched w = record { agent = w.user.agent; vm = some w.user.vm; machine = w.machine; client = tt }

  unfoldable pub agent_handler : HvEvent → World K ProgramState → World K ProgramState
  agent_handler ev w =
      let r = handle_hv_event kvm ev (watched w) in
      record { machine = r.machine; user = record w.user { agent = r.agent } }

  -- The logger prints a line for the event.
  abbrev pub print_event : HvEvent → World K ProgramState → World K ProgramState
  print_event ev w = record w { user = record w.user { printed = w.user.printed ++ ev ∷ [] } }

  -- The agent with its callback, and the dispatcher with its two subscribers.
  unfoldable pub wire : VmiAgent (Unit {0}) × Bus
  unfolding attach on_event EventDispatcher.subscribe_all
  wire =
      let (agent, bus) = attach agent_handler (some EventDispatcher.new) in
      (on_event print_summary agent, (EventDispatcher.subscribe_all print_event (bus_of bus)).0)
