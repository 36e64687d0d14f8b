-- ===== src/Event.antt =====
-- The events of include/hv/EventDispatcher.h: their types, payloads and the event record.
use min_bp.Prelude.{ℕ, ◌==◌, Bool}

pub data EventType : Type 0 where
  cpuid_access io_read io_write msr_read msr_write mem_access guest_halt guest_shutdown : EventType

-- The values of the enumerators.
unfoldable pub type_code : EventType → ℕ
type_code EventType.cpuid_access = 0x01
type_code EventType.io_read = 0x02
type_code EventType.io_write = 0x03
type_code EventType.msr_read = 0x04
type_code EventType.msr_write = 0x05
type_code EventType.mem_access = 0x06
type_code EventType.guest_halt = 0x07
type_code EventType.guest_shutdown = 0x08

-- `==` on the enumeration.
unfoldable pub type_eq : EventType → EventType → Bool
unfolding type_code
type_eq s t = type_code s == type_code t

pub record CpuidEvent : Type 0 where
  pub leaf : ℕ
  pub subleaf : ℕ
  pub eax : ℕ
  pub ebx : ℕ
  pub ecx : ℕ
  pub edx : ℕ

pub record IoEvent : Type 0 where
  pub port : ℕ
  pub size : ℕ
  pub value : ℕ
  pub is_write : Bool

pub record MsrEvent : Type 0 where
  pub index : ℕ
  pub value : ℕ
  pub is_write : Bool

pub record MmioEvent : Type 0 where
  pub guest_phys_addr : ℕ
  pub size : ℕ
  pub value : ℕ
  pub is_write : Bool

-- The variant: its first alternative is the default.
pub data EventPayload : Type 0 where
  cpuid : CpuidEvent → EventPayload
  io : IoEvent → EventPayload
  msr : MsrEvent → EventPayload
  mmio : MmioEvent → EventPayload
  monostate : EventPayload

pub record HvEvent : Type 0 where
  pub type : EventType
  pub vcpu_id : ℕ
  pub rip : ℕ
  pub timestamp : ℕ
  pub payload : EventPayload

abbrev pub empty_cpuid : CpuidEvent
empty_cpuid = record { leaf = 0; subleaf = 0; eax = 0; ebx = 0; ecx = 0; edx = 0 }
