-- ===== src/Main/State.antt =====
-- src/main.cpp: what the callbacks of the program act on.
use min_bp.Prelude.{ℕ, List}
use min_bp.Event.{HvEvent}
use min_bp.VirtualMachine.{VirtualMachine}
use min_bp.VmiAgent.{VmiAgent}

pub record MmioDeviceState : Type 0 where
  pub last_write_value : ℕ
  pub write_count : ℕ

-- `mmio_state`, the VM and the agent, whose own callback only prints. Of the output there is the part of
-- the logger: the events whose lines it has printed, the last one last.
pub record ProgramState : Type 0 where
  pub device : MmioDeviceState
  pub vm : VirtualMachine
  pub agent : VmiAgent (Unit {0})
  pub printed : List HvEvent
