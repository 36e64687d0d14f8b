-- ===== src/Tests/Files.antt =====
-- The file that the program leaves, with a kernel whose instruction pointer has 64 bits.
use Prim.Native.String.{String}
use min_bp.GuestLoader
use min_bp.InstructionTrapper
use min_bp.KvmSystem
use min_bp.Main.CpuidTable
use min_bp.Main.Wiring
use min_bp.MemoryRegion
use min_bp.VirtualMachine
use min_bp.VmiAgent
use min_bp.Prelude.{◌%◌, ◌^◌, ◌<◌, ◌≡◌, refl, some, arith, subst}
use min_bp.Prelude.Result.{ok}
use min_bp.Kvm.{Regs, Kvm}
use min_bp.VCpu
use min_bp.VmiAgent.Dump.Entries.{Widths}
use min_bp.Main.Program.{Ended, main}
use min_bp.Main.Program.Outcome.{Success}
use min_bp.Main.Program.Written.{last_of, HasLog, main-HasLog}
use min_bp.Tests.Toy.{Toy, toy}
use min_bp.Tests.Endings.{boot_machine, guest, result_or, nothing}

abbrev toy64 : Kvm Toy
toy64 = record toy { get_regs = λ fd k. ok (record k.regs { rip = k.regs.rip % 2 ^ 64 }) }

toy64-Widths : Widths toy64
toy64-Widths = record {
  now_fits = λ k. omega arith;
  rip_fits = λ fd k regs e.
      let same : record k.regs { rip = k.regs.rip % 2 ^ 64 } ≡ regs = cc in
      subst (λ (r : Regs). r.rip < 2 ^ 64) same (omega arith);
}

unfoldable left_file : Ended Toy
unfolding main
left_file = result_or nothing (main toy64 5 guest boot_machine)

main_leaves : main toy64 5 guest boot_machine ≡ some left_file
unfolding left_file KvmSystem.open_system KvmSystem.create_vm KvmSystem.check_extension
    VirtualMachine.add_memory_region VirtualMachine.add_vcpu VirtualMachine.restore_to
    VirtualMachine.take_snap_shot VirtualMachine.restore_snapshot
    VirtualMachine.enable_emulation_exits MemoryRegion.create MemoryRegion.write VCpu.exit_reason
    VCpu.create VCpu.run VCpu.get_regs VCpu.set_regs VCpu.get_sregs VCpu.set_sregs
    VCpu.install_cpuid GuestLoader.load_bytes InstructionTrapper.publish_to
    InstructionTrapper.dispatch_exit InstructionTrapper.step InstructionTrapper.run_loop
    VmiAgent.snapshot_vcpu VmiAgent.snapshot_registers VmiAgent.handle_hv_event Wiring.agent_handler
    Wiring.wire CpuidTable.build_table
main_leaves = refl

left_well : left_file.status ≡ 0
unfolding left_file KvmSystem.open_system KvmSystem.create_vm KvmSystem.check_extension
    VirtualMachine.add_memory_region VirtualMachine.add_vcpu VirtualMachine.restore_to
    VirtualMachine.take_snap_shot VirtualMachine.restore_snapshot
    VirtualMachine.enable_emulation_exits MemoryRegion.create MemoryRegion.write VCpu.exit_reason
    VCpu.create VCpu.run VCpu.get_regs VCpu.set_regs VCpu.get_sregs VCpu.set_sregs
    VCpu.install_cpuid GuestLoader.load_bytes InstructionTrapper.publish_to
    InstructionTrapper.dispatch_exit InstructionTrapper.step InstructionTrapper.run_loop
    VmiAgent.snapshot_vcpu VmiAgent.snapshot_registers VmiAgent.handle_hv_event Wiring.agent_handler
    Wiring.wire CpuidTable.build_table
left_well = refl

main-HasLog_example :
    (s : Success toy64 guest boot_machine left_file) × (text : String) × (left_file.events_file
      ≡ some text)
    × HasLog toy64 (last_of toy64 s).world.user.agent.event_log text
main-HasLog_example =
    main-HasLog toy64 toy64-Widths 5 guest boot_machine left_file main_leaves left_well
