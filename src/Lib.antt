-- ===== src/Lib.antt =====
-- minBp: a small hypervisor on KVM. A VirtualMachine owns MemoryRegions and VCpus; a GuestLoader fills a
-- region with an image and page tables and sets a VCpu's registers; an InstructionTrapper runs a VCpu,
-- hands each exit to the handler for CPUID, ports or MMIO, and publishes events to the subscribers of an
-- EventDispatcher, of which a VmiAgent is one that logs them. The program runs a guest three times from
-- one snapshot, each time with another byte in its memory.
--
-- Files and code (paths from the repository's root):
--   Prelude, Bytes, Memory: tests on numbers, lists and maps; little-endian words; the bytes of the process
--   Kvm                the types of linux/kvm.h, and the system calls as the interface `Kvm K`
--   Event              include/hv/EventDispatcher.h: EventType, the payloads, HvEvent
--   EventDispatcher    src/EventDispatcher.cpp: subscribe, subscribe_all, unsubscribe, publish (its loop is
--                      deliver)
--   MmioHandler        src/MmioHandler.cpp: register_read, register_write, handle
--   IoPortHandler      src/IoPortHandler.cpp: register_in_port, register_out_port, handle
--   CpuidHandler       src/CpuidHandler.cpp: register_leaf, execute_host_cpuid, handle
--   MsrHandler         src/MsrHandler.cpp: register_read, register_write, install_filter, handle
--   VCpu               src/VCpu.cpp: create, run, get_regs, set_regs, get_sregs, set_sregs,
--                      set_single_step, install_cpuid, release (the destructor), move, assign
--   InstructionTrapper src/InstructionTrapper.cpp: dispatch_exit (with exit_io and so on for its cases),
--                      step, run_loop; the data of the events in InstructionTrapper.EventData
--   MemoryRegion       src/MemoryRegion.cpp: create, release (the destructor), move, assign, write, read
--   VirtualMachine     src/VirtualMachine.cpp: add_memory_region, add_vcpu, take_snap_shot,
--                      restore_snapshot, release (the destructor), move, assign, and the single calls
--   GuestLoader        src/GuestLoader.cpp: load, load_bytes, setup_real_mode_vcpu, setup_64bit_vcpu,
--                      build_identity_page_tables, read_file; the registers it sets in GuestLoader.Modes
--   KvmSystem          src/KvmSystem.cpp: open_system (`open` there), release (the destructor), move,
--                      assign, create_vm, check_extension
--   VmiAgent           src/VmiAgent.cpp: attach (the constructor), detach (the destructor), on_event,
--                      enable_memory_dump, disable_memory_dump, read_guest_phys_memory, snapshot_registers,
--                      handle_hv_event; build_summary (VmiAgent.Summary), dump_event_log (VmiAgent.Dump);
--                      agents at addresses with the closures that hold these, and the moves
--                      (VmiAgent.Agents)
--   Main               src/main.cpp: Main.Program has main, cut at its returns (with_system, with_vm,
--                      load_guest, run_guest, fuzz_guest), Main.Device the callbacks behind MMIO and
--                      ports, Main.Wiring the CPUID callback, the agent and the logger, Main.CpuidTable
--                      the loop that builds the CPUID table, Main.Runs the runs; what stays while
--                      they run is in Main.Upkeep, what is in the file it leaves in
--                      Main.Program.Written, what is open in Main.Process, what is mapped in
--                      Main.Mappings (both accounts go through the program by Main.Account), and
--                      any life of the objects that own a descriptor in Main.Process.Objects
--   Tests              kernels that satisfy the laws, and each theorem at a concrete input
--
-- State. An object is a record of its members, and an operation returns the changed record beside its
-- result. The kernel's state is a parameter `K`, which only the calls of `Kvm K` change; what callbacks
-- and subscribers act on is a parameter too (`U` or `W`). `Machine K` adds the memory of the process,
-- a function from addresses to bytes, and the run structures. Errors are the numbers of `errno`; `none` is
-- a failed assertion or undefined behaviour where a comment says so. A hash map is an association list.
--
-- Numbers are natural numbers. A count or sum of the sources that can wrap is written with its remainder
-- (u16, u32, u64). The members of registers and exits are not bounded by their types: where a theorem needs
-- a width it says so.
--
-- What the theorems assume of the kernel is in records: RegistersHold (VCpu.Registers), SlotsCancel
-- (MemoryRegion.Ownership), Loads (GuestLoader.Loading), Descriptors (KvmSystem.Ownership), Closes
-- (VirtualMachine.Release) and Process (Main.Process), which has the fields of the last two and more. The
-- kernel of Tests.Toy satisfies them. Widths (VmiAgent.Dump.Entries) bounds the clock and the RIP, as that
-- of Tests.Files does, and Mappings (Main.Mappings) has the laws of mmap and munmap, which hold in Tests.Spaces.
--
-- Fuel. run_loop has fuel, one unit per round, and gives `none` when it runs out: the source's loop with the
-- limit 0 need not end. With a limit, one unit more than the limit is enough. Each of the program's runs,
-- which have no limit, gets the fuel that main is given; from some amount on that is enough for a guest whose
-- runs all end. The printing of a number has 20 units, one per digit, which are enough for 64 bits. All
-- other loops are structural.
--
-- Not modelled: the signal handler of src/main.cpp, whose flag nothing reads. Files are given by their
-- contents, and the file of the log is one that can be written. A handler that changes the dispatcher or its own callbacks while it runs is outside the model, and so are
-- the messages that are printed, but for which events the logger of src/main.cpp prints. What the processor
-- does with a pointer that leaves its mapping is undefined and not modelled: such a sum is a number here, and
-- the bytes that it leads to are those of the process. The agents of VmiAgent.Agents share one dispatcher, their callbacks do not
-- touch the agents, and what vectors a move assignment leaves behind is a parameter.
pub mod Prelude
pub mod Bytes
pub mod Memory
pub mod Event
pub mod EventDispatcher
pub mod MmioHandler
pub mod Kvm
pub mod VCpu
pub mod IoPortHandler
pub mod CpuidHandler
pub mod MsrHandler
pub mod InstructionTrapper
pub mod MemoryRegion
pub mod VirtualMachine
pub mod GuestLoader
pub mod KvmSystem
pub mod VmiAgent
pub mod Main
pub mod Tests
