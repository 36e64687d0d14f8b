-- ===== src/Tests/Agents.antt =====
-- The introspection agent at concrete inputs.
use min_bp.Prelude.{List, ◌+◌, true, ℕ, ◌≡◌, refl, [], ◌∷◌, none, some, arith}
use min_bp.Event.{HvEvent, EventType, EventPayload, empty_cpuid}
use min_bp.MemoryRegion.{MemoryRegion}
use min_bp.VCpu
use min_bp.VirtualMachine.{VirtualMachine}
use min_bp.Kvm.{zero_regs, zero_sregs}
use min_bp.VmiAgent.Entry.{DumpOf, IsSnapshot, HaveRun, handle_hv_event_entry}
use min_bp.VmiAgent.{
  IntrospectionEvent, snapshot_of, notify, VmiAgent, Watched, attach, detach, handle_hv_event,
  read_regions,
}
use min_bp.VmiAgent
use min_bp.VmiAgent.Summary.{no_snapshot, build_summary}
use min_bp.VmiAgent.Dump.{dump_event_log}
use min_bp.VmiAgent.Dump.Reading.{read_log}
use min_bp.VmiAgent.Dump.Log.{AllEntries, read_log-dump_event_log}
use min_bp.Tests.Toy.{vcpu, Toy, toy, machine, host_base}
use min_bp.Tests.Buses.{event}

halt_summary :
    build_summary (event EventType.guest_halt) (record no_snapshot { rip = 0x7C0F })
    ≡ "[VCPU0] RIP=0x7C0F | HLT"
unfolding build_summary
halt_summary = refl

-- The event of a shutdown, as the run loop fills it.
shutdown_summary :
    build_summary
      (record (event EventType.guest_shutdown) { payload = EventPayload.cpuid empty_cpuid })
      no_snapshot
    ≡ "[VCPU0] RIP=0x0 | CPUID leaf=0x0 sub=0x0 => EAX=0x0 EBX=0x0 ECX=0x0 EDX=0x0"
unfolding build_summary
shutdown_summary = refl

one_entry :
    dump_event_log (
      record {
        base = event EventType.guest_halt;
        snapshot = record no_snapshot { rip = 0x7C0F; timestamp = 3_500_000 };
        mem_dump = some (0xF4 ∷ 0x05 ∷ []);
        summary = "HLT";
      }
      ∷ [])
    ≡ "[\n  {\n    \"timestamp\": 3,\n    \"vcpu_id\": 0,\n    \"rip\": \"0x7c0f\",\n    \"summary\": \"HLT\",\n    \"mem_dump\": \"f405\"\n  }\n]\n"
unfolding dump_event_log
one_entry = refl

abbrev low_region : MemoryRegion
low_region = record {
  vm_fd = some 3;
  slot = 0;
  guest_phys_addr = 0;
  size = 0x1000;
  host_addr = host_base;
}

abbrev high_region : MemoryRegion
high_region = record low_region { slot = 1; guest_phys_addr = 0x100000; host_addr = 0x30000 }

abbrev watched : Watched Toy ℕ
watched = record { agent = VmiAgent.new; vm = none; machine = machine []; client = 0 }

abbrev written : HvEvent
written = record {
  type = EventType.mem_access;
  vcpu_id = 2;
  rip = 0;
  timestamp = 7;
  payload =
      EventPayload.mmio
        (record { guest_phys_addr = 0x80008; size = 4; value = 0x41; is_write = true });
}

abbrev dumped_vm : VirtualMachine
dumped_vm = record {
  fd = some 3;
  vcpu_mmap_size = 4096;
  next_slot = 2;
  memory_regions = low_region ∷ high_region ∷ [];
  vcpus = vcpu ∷ [];
}

-- An agent that dumps 4 bytes of the second region.
abbrev dumping : Watched Toy ℕ
dumping = record {
  agent = record VmiAgent.new {
    mem_dump_enabled = true;
    mem_dump_addr = 0x100010;
    mem_dump_size = 4;
    callbacks = (λ ie c. c + 1) ∷ [];
  };
  vm = some dumped_vm;
  machine = machine [];
  client = 0;
}

handle_hv_event_entry_example :
    (ie : IntrospectionEvent) × ((handle_hv_event toy
        (event EventType.io_read)
        dumping).agent.event_log
      ≡ ie ∷ [])
    × (ie.base ≡ event EventType.io_read)
    × IsSnapshot zero_regs zero_sregs 42 ie.snapshot
    × (ie.summary ≡ build_summary (event EventType.io_read) ie.snapshot)
    × DumpOf dumped_vm 0x100010 4 (machine []) ie.mem_dump
    × HaveRun ie dumping.agent.callbacks 0
        (handle_hv_event toy (event EventType.io_read) dumping).client
    × ((handle_hv_event toy (event EventType.io_read) dumping).machine.memory ≡ (machine []).memory)
unfolding VCpu.get_regs VCpu.get_sregs
handle_hv_event_entry_example =
    handle_hv_event_entry toy (event EventType.io_read) dumping dumped_vm vcpu zero_regs zero_sregs
      refl refl refl refl refl (omega arith) (omega arith) (omega arith, (omega arith, tt))

abbrev two_entries : List IntrospectionEvent
two_entries =
    record {
      base = written;
      snapshot = record no_snapshot { rip = 0x7C1F; timestamp = 3_500_000 };
      mem_dump = some (0xF4 ∷ 0x05 ∷ []);
      summary = build_summary written (record no_snapshot { rip = 0x7C1F; timestamp = 3_500_000 });
    }
    ∷ record {
      base = event EventType.guest_halt;
      snapshot = no_snapshot;
      mem_dump = none;
      summary = build_summary (event EventType.guest_halt) no_snapshot;
    }
    ∷ []

two_entries-AllEntries : AllEntries two_entries
two_entries-AllEntries = (
  record {
    summary_built = refl;
    time_fits = omega arith;
    id_fits = omega arith;
    rip_fits = omega arith;
    bytes_fit = omega arith;
  },
  (
    record {
      summary_built = refl;
      time_fits = omega arith;
      id_fits = omega arith;
      rip_fits = omega arith;
      bytes_fit = tt;
    },
    tt,
  ),
)

read_log-dump_event_log_example :
    read_log 3 (dump_event_log two_entries)
    ≡ some (
      record {
        milliseconds = 3;
        vcpu_id = 2;
        rip = 0x7C1F;
        summary = "[VCPU2] RIP=0x7C1F | MMIO-WR gpa=0x80008 size=4B value=0x41";
        mem_dump = some (0xF4 ∷ 0x05 ∷ []);
      }
          ∷ record {
            milliseconds = 0;
            vcpu_id = 0;
            rip = 0;
            summary = "[VCPU0] RIP=0x0 | HLT";
            mem_dump = none;
          }
          ∷ [],
      "",
    )
unfolding build_summary
read_log-dump_event_log_example =
    read_log-dump_event_log two_entries 3 (omega arith) two_entries-AllEntries
