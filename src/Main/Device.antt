-- ===== src/Main/Device.antt =====
-- src/main.cpp: the device behind MMIO and the keyboard port.
pub mod Protocol
use Prim.Native.Nat.{bit_or}
use min_bp.Prelude.{ℕ, ◌+◌, ◌*◌, ◌%◌, ◌^◌, u64}
use min_bp.MmioHandler.{MmioHandler, ReadCallback, WriteCallback}
use min_bp.MmioHandler
use min_bp.IoPortHandler.{IoPortHandler, InCallback}
use min_bp.IoPortHandler
use min_bp.Main.State.{MmioDeviceState, ProgramState}

abbrev pub mmio_base : ℕ
mmio_base = 0x80000

abbrev pub reg_magic : ℕ
reg_magic = mmio_base + 0x00

abbrev pub reg_input : ℕ
reg_input = mmio_base + 0x08

abbrev pub reg_status : ℕ
reg_status = mmio_base + 0x10

abbrev pub read_magic : ReadCallback ProgramState
read_magic ctx s = (0x4D4D494F, s)

-- The store of the written value and the increment.
abbrev pub record_write : ℕ → MmioDeviceState → MmioDeviceState
record_write value d = record { last_write_value = value; write_count = u64 (d.write_count + 1) }

abbrev pub write_input : WriteCallback ProgramState
write_input ctx s = record s { device = record_write ctx.value s.device }

-- `count | last`, of 32 bits each.
abbrev pub status_word : MmioDeviceState → ℕ
status_word d = bit_or ((d.write_count % 2 ^ 32) * 2 ^ 32) (d.last_write_value % 2 ^ 32)

abbrev pub read_status : ReadCallback ProgramState
read_status ctx s = (status_word s.device, s)

unfoldable pub mmio_handler : MmioHandler ProgramState
unfolding MmioHandler.register_read MmioHandler.register_write
mmio_handler = MmioHandler.register_read reg_status read_status (
    MmioHandler.register_write reg_input write_input
      (MmioHandler.register_read reg_magic read_magic MmioHandler.new))

abbrev pub read_keyboard : InCallback ProgramState
read_keyboard ctx s = (0x1A, s)

unfoldable pub io_handler : IoPortHandler ProgramState
unfolding IoPortHandler.register_in_port
io_handler = IoPortHandler.register_in_port 0x60 read_keyboard IoPortHandler.new
