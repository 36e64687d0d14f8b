-- ===== src/Kvm.antt =====
-- The types of linux/kvm.h that the sources use, the memory of the process, and the system calls
-- as an interface: `K` is the kernel's own state, which no source file shows.
use Prim.Native.String.{String}
use min_bp.Prelude.{ℕ, ◌-◌, ◌^◌, ◌==◌, List, Option, if◌then◌else◌}
use min_bp.Prelude.Result.{Result}
use min_bp.MmioHandler.{MmioExit}

-- An `int` descriptor; `none` is -1.
abbrev pub Fd : Type 0
Fd = Option ℕ

-- `nullptr` and `MAP_FAILED`.
abbrev pub null : ℕ
null = 0

abbrev pub map_failed : ℕ
map_failed = 2 ^ 64 - 1

-- kvm_regs
pub record Regs : Type 0 where
  pub rax : ℕ
  pub rbx : ℕ
  pub rcx : ℕ
  pub rdx : ℕ
  pub rsi : ℕ
  pub rdi : ℕ
  pub rsp : ℕ
  pub rbp : ℕ
  pub r8 : ℕ
  pub r9 : ℕ
  pub r10 : ℕ
  pub r11 : ℕ
  pub r12 : ℕ
  pub r13 : ℕ
  pub r14 : ℕ
  pub r15 : ℕ
  pub rip : ℕ
  pub rflags : ℕ

-- kvm_segment
pub record Segment : Type 0 where
  pub base : ℕ
  pub limit : ℕ
  pub selector : ℕ
  pub type : ℕ
  pub present : ℕ
  pub dpl : ℕ
  pub db : ℕ
  pub s : ℕ
  pub l : ℕ
  pub g : ℕ
  pub avl : ℕ
  pub unusable : ℕ

-- kvm_sregs; `unnamed` stands for the members that no source file names.
pub record Sregs : Type 0 where
  pub cs : Segment
  pub ds : Segment
  pub es : Segment
  pub fs : Segment
  pub gs : Segment
  pub ss : Segment
  pub cr0 : ℕ
  pub cr3 : ℕ
  pub cr4 : ℕ
  pub efer : ℕ
  pub unnamed : List ℕ

-- Value-initialised, `kvm_regs{}` and so on.
abbrev pub zero_regs : Regs
zero_regs = record {
  rax = 0;
  rbx = 0;
  rcx = 0;
  rdx = 0;
  rsi = 0;
  rdi = 0;
  rsp = 0;
  rbp = 0;
  r8 = 0;
  r9 = 0;
  r10 = 0;
  r11 = 0;
  r12 = 0;
  r13 = 0;
  r14 = 0;
  r15 = 0;
  rip = 0;
  rflags = 0;
}

abbrev pub zero_segment : Segment
zero_segment = record {
  base = 0;
  limit = 0;
  selector = 0;
  type = 0;
  present = 0;
  dpl = 0;
  db = 0;
  s = 0;
  l = 0;
  g = 0;
  avl = 0;
  unusable = 0;
}

abbrev pub zero_sregs : Sregs
zero_sregs = record {
  cs = zero_segment;
  ds = zero_segment;
  es = zero_segment;
  fs = zero_segment;
  gs = zero_segment;
  ss = zero_segment;
  cr0 = 0;
  cr3 = 0;
  cr4 = 0;
  efer = 0;
  unnamed = List.[];
}

pub record IoExit : Type 0 where
  pub direction : ℕ
  pub size : ℕ
  pub port : ℕ
  pub count : ℕ
  pub data_offset : ℕ

pub record MsrExit : Type 0 where
  pub reason : ℕ
  pub index : ℕ
  pub value : ℕ

-- kvm_run: the members of its union apart (an exit sets and the code reads only the one of its
-- reason), and the mapped area as bytes, where `io.data_offset` points.
pub record KvmRun : Type 0 where
  pub exit_reason : ℕ
  pub hardware_exit_reason : ℕ
  pub suberror : ℕ
  pub io : IoExit
  pub mmio : MmioExit
  pub msr : MsrExit
  pub area : List ℕ

-- kvm_msr_filter_range and kvm_msr_filter; `bitmap` is the words that the pointer leads to, and
-- `ranges` are those with an `nmsrs` that is not 0.
pub record MsrRange : Type 0 where
  pub flags : ℕ
  pub nmsrs : ℕ
  pub base : ℕ
  pub bitmap : List ℕ

pub record MsrFilter : Type 0 where
  pub flags : ℕ
  pub ranges : List MsrRange

-- kvm_userspace_memory_region
pub record MemorySlot : Type 0 where
  pub slot : ℕ
  pub flags : ℕ
  pub guest_phys_addr : ℕ
  pub memory_size : ℕ
  pub userspace_addr : ℕ

-- kvm_cpuid_entry2
pub record CpuidEntry : Type 0 where
  pub function : ℕ
  pub index : ℕ
  pub flags : ℕ
  pub eax : ℕ
  pub ebx : ℕ
  pub ecx : ℕ
  pub edx : ℕ

-- What the process and the kernel share: bytes by address, and the run structures by address.
pub record Machine (K : Type 0) : Type 0 where
  pub kernel : K
  pub memory : ℕ → ℕ
  pub run_pages : ℕ → KvmRun

-- The machine with the state `U` of the user's callbacks.
pub record World (K U : Type 0) : Type 0 where
  pub machine : Machine K
  pub user : U

-- The system calls. A result is the value, or `errno` for a negative return.
pub record Kvm (K : Type 0) : Type 0 where
  pub run : Fd → Machine K → Result (Unit {0}) × Machine K
  pub get_regs : Fd → K → Result Regs
  pub set_regs : Fd → Regs → K → Result (Unit {0}) × K
  pub get_sregs : Fd → K → Result Sregs
  pub set_sregs : Fd → Sregs → K → Result (Unit {0}) × K
  pub create_vcpu : Fd → ℕ → K → Result ℕ × K
  pub set_user_memory_region : Fd → MemorySlot → K → Result (Unit {0}) × K
  pub set_msr_filter : Fd → MsrFilter → K → Result (Unit {0}) × K
  -- mmap of anonymous memory, and of the run structure behind a descriptor
  pub mmap_anonymous : ℕ → Machine K → Result ℕ × Machine K
  pub mmap_run : Fd → ℕ → Machine K → Result ℕ × Machine K
  pub munmap : ℕ → ℕ → K → K
  pub close : ℕ → K → K
  -- the CPUID instruction of the host: leaf and subleaf to EAX, EBX, ECX, EDX
  pub cpuid : ℕ → ℕ → ℕ × ℕ × ℕ × ℕ
  -- steady_clock::now
  pub now : K → ℕ × K
  -- the device, the system calls on it, and `errno` as it stands
  pub open_path : String → K → Result ℕ × K
  pub get_api_version : Fd → K → Result ℕ
  pub get_vcpu_mmap_size : Fd → K → Result ℕ
  pub check_extension : Fd → ℕ → K → Result ℕ
  pub create_vm : Fd → K → Result ℕ × K
  pub errno : K → ℕ
  -- on a vCPU: the control word of kvm_guest_debug; `nent` and the entries of kvm_cpuid2
  pub set_guest_debug : Fd → ℕ → K → Result (Unit {0}) × K
  pub set_cpuid2 : Fd → ℕ → List CpuidEntry → K → Result (Unit {0}) × K
  -- on a VM: an IRQ and its level; the flags of kvm_pit_config; a capability and its argument
  pub irq_line : Fd → ℕ → ℕ → K → Result (Unit {0}) × K
  pub create_irqchip : Fd → K → Result (Unit {0}) × K
  pub create_pit2 : Fd → ℕ → K → Result (Unit {0}) × K
  pub enable_cap : Fd → ℕ → ℕ → K → Result (Unit {0}) × K

module _ {K : Type 0} where
  abbrev pub set_kernel : K → Machine K → Machine K
  set_kernel k m = record m { kernel = k }

  -- A store through the pointer to a run structure.
  abbrev pub set_run_page : ℕ → KvmRun → Machine K → Machine K
  set_run_page a run m = record m { run_pages = λ b. if a == b then run else m.run_pages b }
