-- ===== src/Main/CpuidTable.antt =====
-- src/main.cpp: the CPUID table that is built from the host's, logged and installed.
pub mod Installed
use min_bp.Prelude.{ℕ, ◌==◌, List, [], ◌∷◌, ◌++◌, min, if◌then◌else◌}
use min_bp.Event.{EventType, EventPayload, CpuidEvent, HvEvent}
use min_bp.Kvm.{World, Kvm, CpuidEntry, set_kernel}
use min_bp.CpuidHandler.{execute_host_cpuid}
use min_bp.EventDispatcher
use min_bp.Main.State.{ProgramState}
use min_bp.Main.Wiring.{Bus, clear_hypervisor}

abbrev pub cpuid_leaves : List ℕ
cpuid_leaves =
    0x00 ∷ 0x01 ∷ 0x02 ∷ 0x07 ∷ 0x80000000 ∷ 0x80000001 ∷ 0x80000002 ∷ 0x80000003 ∷ 0x80000004 ∷ []

-- The two changes to the local entry.
abbrev pub mask_entry : CpuidEntry → CpuidEntry
mask_entry e =
    let e1 = if e.function == 0x01 then record e { ecx = clear_hypervisor e.ecx } else e in
    if e.function == 0x00 then record e1 { eax = min e1.eax 0x0B } else e1

abbrev pub event_of : CpuidEntry → CpuidEvent
event_of e = record {
  leaf = e.function;
  subleaf = 0;
  eax = e.eax;
  ebx = e.ebx;
  ecx = e.ecx;
  edx = e.edx;
}

module _ {K : Type 0} (kvm : Kvm K) where
  -- The locals of the loop, and the world.
  pub record Table : Type 0 where
    pub entries : List CpuidEntry
    pub bus : Bus kvm
    pub world : World K ProgramState

  abbrev pub host_entry : ℕ → CpuidEntry
  unfolding execute_host_cpuid
  host_entry leaf =
      let r = execute_host_cpuid kvm leaf 0 in
      record {
        function = leaf;
        index = 0;
        flags = 0;
        eax = r.eax;
        ebx = r.ebx;
        ecx = r.ecx;
        edx = r.edx;
      }

  -- One turn: the entry is pushed before it is changed, and the event has the changed one.
  unfoldable pub add_leaf : ℕ → Table → Table
  unfolding EventDispatcher.publish
  add_leaf leaf t =
      let e = host_entry leaf in
      let (time, k) = kvm.now t.world.machine.kernel in
      let ev : HvEvent = record {
        type = EventType.cpuid_access;
        vcpu_id = 0;
        rip = 0;
        timestamp = time;
        payload = EventPayload.cpuid (event_of (mask_entry e));
      } in
      let w = record t.world { machine = set_kernel k t.world.machine } in
      let (bus, w') = EventDispatcher.publish ev t.bus w in
      record { entries = t.entries ++ e ∷ []; bus = bus; world = w' }

  unfoldable pub build_table : List ℕ → Table → Table
  unfolding add_leaf
  build_table [] t = t
  build_table (leaf ∷ leaves) t = build_table leaves (add_leaf leaf t)
