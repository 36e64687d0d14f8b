-- ===== src/Tests/Toy.antt =====
-- A kernel with one device, one vCPU and one memory slot, whose guest leaves with the next exit of a script.
use Prim.Native.String.{String}
use min_bp.Prelude.{
  ◌&&◌, ◌||◌, not, ℕ, ◌%◌, ◌≡◌, ◌≢◌, refl, ap, ◌==◌, List, [], ◌∷◌, Option, none, some, Bool, true,
  false, if◌then◌else◌, arith,
}
use min_bp.Prelude.Result.{Result, ok, err}
use min_bp.Kvm.{
  null, map_failed, Fd, Regs, Sregs, KvmRun, MemorySlot, Machine, Kvm, zero_regs, zero_sregs,
  set_kernel, set_run_page,
}
use min_bp.VCpu.{VCpu}
use min_bp.VCpu.Registers.{RegistersHold}
use min_bp.MemoryRegion.Ownership.{SlotsCancel}

pub record Toy : Type 0 where
  pub regs : Regs
  pub sregs : Sregs
  pub slot : Option MemorySlot
  pub script : List KvmRun
  pub device : Bool
  pub vm : Bool
  pub vcpu : Bool

abbrev pub exists_already : ℕ
exists_already = 17

-- The one slot: a size of 0 clears it, and another is refused while it is taken.
abbrev pub set_slot : MemorySlot → Option MemorySlot → Result (Unit {0}) × Option MemorySlot
set_slot s (some t) = if s.memory_size == 0 then (ok tt, none) else (err exists_already, some t)
set_slot s none = if s.memory_size == 0 then (ok tt, none) else (ok tt, some s)

abbrev pub host_base : ℕ
host_base = 0x10000

abbrev pub run_base : ℕ
run_base = 0x9000

-- An exit of the script, if there is one left, shows in the run structure.
abbrev pub play : List KvmRun → Machine Toy → Machine Toy
play [] m = m
play (r ∷ rs) m = set_run_page run_base r (set_kernel (record m.kernel { script = rs }) m)

abbrev pub toy : Kvm Toy
toy = record {
  run = λ fd m. (ok tt, play m.kernel.script m);
  get_regs = λ fd k. ok k.regs;
  set_regs = λ fd regs k. (ok tt, record k { regs = regs });
  get_sregs = λ fd k. ok k.sregs;
  set_sregs = λ fd sregs k. (ok tt, record k { sregs = sregs });
  create_vcpu = λ fd id k. if k.vcpu then (err 16, k) else (ok 7, record k { vcpu = true });
  set_user_memory_region =
      λ fd s k. ((set_slot s k.slot).0, record k { slot = (set_slot s k.slot).1 });
  set_msr_filter = λ fd f k. (ok tt, k);
  mmap_anonymous = λ size m. (ok host_base, m);
  mmap_run = λ fd size m. (ok run_base, m);
  munmap = λ a size k. k;
  close = λ fd k. record k {
    device = not (fd == 5) && k.device;
    vm = not (fd == 6) && k.vm;
    vcpu = not (fd == 7) && k.vcpu;
  };
  cpuid = λ leaf subleaf. (0x16, 0x756E6547, 0x6C65746E, 0x49656E69);
  now = λ k. (42, k);
  open_path = λ path k. if k.device then (err 16, k) else (ok 5, record k { device = true });
  get_api_version = λ fd k. ok 12;
  get_vcpu_mmap_size = λ fd k. ok 4096;
  check_extension = λ fd capability k. ok 1;
  create_vm = λ fd k. if k.vm then (err 16, k) else (ok 6, record k { vm = true });
  errno = λ k. 9;
  set_guest_debug = λ fd control k. (ok tt, k);
  set_cpuid2 = λ fd nent entries k. (ok tt, k);
  irq_line = λ fd irq level k. (ok tt, k);
  create_irqchip = λ fd k. (ok tt, k);
  create_pit2 = λ fd flags k. (ok tt, k);
  enable_cap = λ fd capability argument k. (ok tt, k);
}

pub toy-RegistersHold : RegistersHold toy
toy-RegistersHold = record {
  regs_set = λ fd regs k h. refl;
  sregs_set = λ fd sregs k h. refl;
  sregs_kept = λ fd regs k. refl;
  regs_kept = λ fd sregs k. refl;
  regs_errno = λ fd regs k h. cc;
  sregs_errno = λ fd sregs k h. cc;
}

abbrev pub taken : Option MemorySlot → Bool
taken none = false
taken (some s) = true

pub set_slot_removed :
    (s : MemorySlot) (o : Option MemorySlot)
    → taken o ≡ false
    → s.memory_size ≢ 0
    → (set_slot
        (record {
          slot = s.slot;
          flags = 0;
          guest_phys_addr = 0;
          memory_size = 0;
          userspace_addr = 0;
        })
        (set_slot s o).1).1
      ≡ o
set_slot_removed s none h n = ground arith
set_slot_removed s (some t) h n = absurd (ground arith)

pub set_slot_refused :
    (s : MemorySlot) (o : Option MemorySlot) (e : ℕ)
    → (set_slot s o).0 ≡ err e
    → (set_slot s o).1 ≡ o
set_slot_refused s none e h = ground arith
set_slot_refused s (some t) e h = ground arith

pub mapped_valid : (a : ℕ) → ok host_base ≡ ok a → (a ≢ null) × (a ≢ map_failed)
mapped_valid a h = (ground arith, ground arith)

abbrev pub toy_slots : (fd : Fd) → SlotsCancel toy fd
toy_slots fd = record {
  in_use = λ k slot. taken k.slot;
  set_removed = λ s k free nonzero h.
      ap (λ (o : Option MemorySlot). record k { slot = o })
        (set_slot_removed s k.slot free nonzero);
  set_refused = λ s k e h.
      ap (λ (o : Option MemorySlot). record k { slot = o }) (set_slot_refused s k.slot e h);
  mapped = λ size m a h. ((mapped_valid a h).0, (mapped_valid a h).1, refl);
  unmapped = λ size m e h. refl;
  mapped_slots = λ size m slot. refl;
}

-- A vCPU, and machines.
abbrev pub vcpu : VCpu
vcpu = record { fd = some 7; id = 0; run_page = run_base; mmap_size = 4096 }

abbrev pub idle : KvmRun
idle = record {
  exit_reason = 10;
  hardware_exit_reason = 0;
  suberror = 0;
  io = record { direction = 0; size = 1; port = 0; count = 1; data_offset = 0 };
  mmio = record {
    phys_addr = 0;
    bytes = 0 ∷ 0 ∷ 0 ∷ 0 ∷ 0 ∷ 0 ∷ 0 ∷ 0 ∷ [];
    len = 1;
    is_write = false;
  };
  msr = record { reason = 4; index = 0; value = 0 };
  area = [];
}

abbrev pub kernel : List KvmRun → Toy
kernel script = record {
  regs = zero_regs;
  sregs = zero_sregs;
  slot = none;
  script = script;
  device = false;
  vm = false;
  vcpu = false;
}

abbrev pub machine : List KvmRun → Machine Toy
machine script = record { kernel = kernel script; memory = λ a. a % 251; run_pages = λ a. idle }

-- Whether a descriptor is open.
abbrev pub toy_is_open : Toy → ℕ → Bool
toy_is_open k x = (x == 5 && k.device) || (x == 6 && k.vm) || (x == 7 && k.vcpu)

pub toy_closed :
    (fd : ℕ) (k : Toy) (x : ℕ) → toy_is_open (toy.close fd k) x ≡ (not (x == fd) && toy_is_open k x)
toy_closed fd k x = ground arith

pub toy_opened :
    (path : String) (k : Toy) (fd : ℕ)
    → (toy.open_path path k).0 ≡ ok fd
    → (toy_is_open k fd ≡ false)
      × ((x : ℕ) → toy_is_open (toy.open_path path k).1 x ≡ (x == fd || toy_is_open k x))
toy_opened path k fd h = (ground arith, λ x. ground arith)

pub toy_open_refused :
    (path : String) (k : Toy) (e x : ℕ)
    → (toy.open_path path k).0 ≡ err e
    → toy_is_open (toy.open_path path k).1 x ≡ toy_is_open k x
toy_open_refused path k e x h = ground arith
