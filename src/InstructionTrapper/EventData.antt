-- ===== src/InstructionTrapper/EventData.antt =====
-- The data of the events that src/InstructionTrapper.cpp publishes.
use min_bp.Prelude.{ℕ, ◌==◌, drop, min, u32}
use min_bp.Prelude.Result.{Result, ok, err}
use min_bp.Bytes.{load}
use min_bp.Event.{EventPayload, IoEvent, MmioEvent, empty_cpuid}
use min_bp.IoPortHandler.{io_out}
use min_bp.Kvm.{Regs, KvmRun}

abbrev pub rip_or_zero : Result Regs → ℕ
rip_or_zero (ok regs) = regs.rip
rip_or_zero (err e) = 0

-- The payload of an exit for CPUID; it stays zero where the registers cannot be read.
abbrev pub cpuid_payload : Result Regs → EventPayload
cpuid_payload (err e) = EventPayload.cpuid empty_cpuid
cpuid_payload (ok regs) = EventPayload.cpuid (record {
  leaf = u32 regs.rax;
  subleaf = u32 regs.rcx;
  eax = u32 regs.rax;
  ebx = u32 regs.rbx;
  ecx = u32 regs.rcx;
  edx = u32 regs.rdx;
})

abbrev pub io_payload : KvmRun → IoEvent
io_payload run = record {
  port = run.io.port;
  size = run.io.size;
  value = load (min run.io.size 4) (drop run.io.data_offset run.area);
  is_write = run.io.direction == io_out;
}

abbrev pub mmio_payload : KvmRun → MmioEvent
mmio_payload run = record {
  guest_phys_addr = run.mmio.phys_addr;
  size = run.mmio.len;
  value = load (min run.mmio.len 8) run.mmio.bytes;
  is_write = run.mmio.is_write;
}
