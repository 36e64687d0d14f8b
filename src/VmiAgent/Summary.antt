-- ===== src/VmiAgent/Summary.antt =====
-- `buildSummary` of src/VmiAgent.cpp: the text of an event, as the stream prints it.
pub mod Reading
pub mod Line
use Prim.Native.String.{String, ◌++◌, ◌∷◌, [], char_at}
use min_bp.Prelude.{ℕ, zero, suc, ◌/◌, ◌%◌, ◌==◌, if◌then◌else◌}
use min_bp.Event.{EventType, EventPayload, HvEvent}

pub record GuestSnapshot : Type 0 where
  pub rip : ℕ
  pub rsp : ℕ
  pub rax : ℕ
  pub rbx : ℕ
  pub rcx : ℕ
  pub rdx : ℕ
  pub rsi : ℕ
  pub rdi : ℕ
  pub r8 : ℕ
  pub r9 : ℕ
  pub r10 : ℕ
  pub r11 : ℕ
  pub r12 : ℕ
  pub r13 : ℕ
  pub r14 : ℕ
  pub r15 : ℕ
  pub rflags : ℕ
  pub cr0 : ℕ
  pub cr3 : ℕ
  pub cr4 : ℕ
  pub timestamp : ℕ

-- `GuestSnapshot{}`
abbrev pub no_snapshot : GuestSnapshot
no_snapshot = record {
  rip = 0;
  rsp = 0;
  rax = 0;
  rbx = 0;
  rcx = 0;
  rdx = 0;
  rsi = 0;
  rdi = 0;
  r8 = 0;
  r9 = 0;
  r10 = 0;
  r11 = 0;
  r12 = 0;
  r13 = 0;
  r14 = 0;
  r15 = 0;
  rflags = 0;
  cr0 = 0;
  cr3 = 0;
  cr4 = 0;
  timestamp = 0;
}

abbrev pub upper_case : String
upper_case = "0123456789ABCDEF"

abbrev pub lower_case : String
lower_case = "0123456789abcdef"

-- The digit of a number below 16.
abbrev pub digit : String → ℕ → String
digit alphabet d = char_at alphabet d ∷ []

-- A number as an output stream prints it, with `fuel` digits at most; 20 are enough for 64 bits.
unfoldable pub digits : String → ℕ → ℕ → ℕ → String
digits alphabet radix zero n = ""
digits alphabet radix (suc fuel) n =
    let front = digits alphabet radix fuel (n / radix) in
    if n / radix == 0 then digit alphabet (n % radix) else front ++ digit alphabet (n % radix)

abbrev pub hex : ℕ → String
hex n = digits upper_case 16 20 n

abbrev pub dec : ℕ → String
dec n = digits upper_case 10 20 n

-- The visitor of the payload; `type` is read for an event without one.
unfoldable pub describe : EventType → EventPayload → String
unfolding digits
describe type (EventPayload.cpuid p) =
    "CPUID leaf=0x"
    ++ hex p.leaf
    ++ " sub=0x"
    ++ hex p.subleaf
    ++ " => EAX=0x"
    ++ hex p.eax
    ++ " EBX=0x"
    ++ hex p.ebx
    ++ " ECX=0x"
    ++ hex p.ecx
    ++ " EDX=0x"
    ++ hex p.edx
describe type (EventPayload.io p) =
    (if p.is_write then "OUT" else "IN")
    ++ " port=0x"
    ++ hex p.port
    ++ " size="
    ++ dec p.size
    ++ "B value=0x"
    ++ hex p.value
describe type (EventPayload.msr p) =
    (if p.is_write then "WRMSR" else "RDMSR")
    ++ " index=0x"
    ++ hex p.index
    ++ " value=0x"
    ++ hex p.value
describe type (EventPayload.mmio p) =
    (if p.is_write then "MMIO-WR" else "MMIO-RD")
    ++ " gpa=0x"
    ++ hex p.guest_phys_addr
    ++ " size="
    ++ dec p.size
    ++ "B value=0x"
    ++ hex p.value
describe EventType.guest_halt EventPayload.monostate = "HLT"
describe EventType.guest_shutdown EventPayload.monostate = "SHUTDOWN"
describe _ EventPayload.monostate = "EVENT"

unfoldable pub build_summary : HvEvent → GuestSnapshot → String
unfolding describe
build_summary event snap =
    "[VCPU"
    ++ hex event.vcpu_id
    ++ "] RIP=0x"
    ++ hex snap.rip
    ++ " | "
    ++ describe event.type event.payload
