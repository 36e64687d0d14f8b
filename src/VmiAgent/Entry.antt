-- ===== src/VmiAgent/Entry.antt =====
-- What `handleHvEvent` of src/VmiAgent.cpp puts in the log and gives to the callbacks.
use min_bp.Prelude.{
  ℕ, zero, suc, ◌+◌, ◌-◌, ◌^◌, ◌<◌, ◌≡◌, refl, ap, ◌∙◌, sym, ◌⊎◌, inl, inr, true, List, [], ◌∷◌,
  ◌++◌, Option, none, some, get_elem?, ap₂, subst, arith,
}
use min_bp.Prelude.Result.{ok}
use min_bp.Event.{HvEvent}
use min_bp.Kvm.{Regs, Sregs, Machine, Kvm, set_kernel}
use min_bp.Memory.{Memory, peek}
use min_bp.VCpu.{VCpu}
use min_bp.VCpu
use min_bp.MemoryRegion.{MemoryRegion}
use min_bp.MemoryRegion
use min_bp.VirtualMachine.{VirtualMachine}
use min_bp.VmiAgent.Summary.{GuestSnapshot, build_summary}
use min_bp.VmiAgent.{
  IntrospectionEvent, VmiAgent, Watched, read_regions, read_guest_phys_memory, snapshot_of,
  some_dump, notify, dump_of, snapshot_vcpu, snapshot_registers, or_zeros, handle_hv_event,
}
use min_bp.VmiAgent.Reads.{Holds, EndsBelow64, First, Missing, read-region, read_regions_outcome}

First-Holds :
    {addr size : ℕ} {r : MemoryRegion} {rs : List MemoryRegion}
    → First addr size r rs
    → Holds addr size r
First-Holds (First.here h) = h
First-Holds (First.later n f) = First-Holds f

some_dump-peek :
    (a size : ℕ) (mem : Memory) → 0 < size → some_dump (peek a size mem) ≡ some (peek a size mem)
unfolding some_dump peek
some_dump-peek a zero mem h = absurd (omega arith)
some_dump-peek a (suc size) mem h = refl

some_dump-nil : some_dump [] ≡ none
unfolding some_dump
some_dump-nil = refl

dump_of-enabled :
    {C : Type 0} (a : VmiAgent C) (vm : VirtualMachine) (mem : Memory)
    → a.mem_dump_enabled ≡ true
    → dump_of a (some vm) mem
      ≡ some_dump (read_regions vm.memory_regions a.mem_dump_addr a.mem_dump_size mem)
unfolding dump_of read_guest_phys_memory
dump_of-enabled a vm mem e = rw e refl

-- The dump that is wanted: the bytes that the first region with the range reads, or none.
abbrev pub DumpOf : {K : Type 0} → VirtualMachine → ℕ → ℕ → Machine K → Option (List ℕ) → Type 0
DumpOf vm addr size m dump =
    ((r : MemoryRegion) × First addr size r vm.memory_regions
      × ((bytes : List ℕ) × (MemoryRegion.read r (addr - r.guest_phys_addr) size m ≡ some bytes)
          × (dump ≡ some bytes)))
    ⊎ (Missing addr size vm.memory_regions × (dump ≡ none))

read_regions-DumpOf :
    {K : Type 0} (vm : VirtualMachine) (addr size : ℕ) (m : Machine K)
    → 0 < size
    → addr + size < 2 ^ 64
    → EndsBelow64 vm.memory_regions
    → DumpOf vm addr size m (some_dump (read_regions vm.memory_regions addr size m.memory))
read_regions-DumpOf vm addr size m positive below ends =
    elim (read_regions_outcome vm.memory_regions addr size m below ends) [
      | inl (r, first, read) ↦
          let bytes = read_regions vm.memory_regions addr size m.memory in
          let same : bytes ≡ peek (r.host_addr + (addr - r.guest_phys_addr)) size m.memory =
            (let direct = read-region addr size r m below (First-Holds first) in cc) in
          inl (
            r,
            first,
            (
              bytes,
              read,
              ap some_dump same ∙ some_dump-peek _ size m.memory positive ∙ ap some (sym same),
            ),
          )
      | inr (missing, empty) ↦ inr (missing, ap some_dump empty ∙ some_dump-nil)
    ]

-- The callbacks of a list have run on an entry, the first one first: what it made of the state `c` is
-- what the others go on from.
pub data HaveRun {C : Type 0} (ie : IntrospectionEvent)
    : List (IntrospectionEvent → C → C) → C → C → Type 0 where
  no_callback : (c : C) → HaveRun ie [] c c
  last_callback :
      (cbs : List (IntrospectionEvent → C → C)) (cb : IntrospectionEvent → C → C) (c d : C)
      → HaveRun ie cbs c d
      → HaveRun ie (cbs ++ cb ∷ []) c (cb ie d)

put_first :
    {C : Type 0} (ie : IntrospectionEvent) (cb : IntrospectionEvent → C → C) (c : C)
    {cbs : List (IntrospectionEvent → C → C)} {b d : C}
    → HaveRun ie cbs b d
    → b ≡ cb ie c
    → HaveRun ie (cb ∷ cbs) c d
put_first ie cb c (no_callback b) e =
    subst (HaveRun ie (cb ∷ []) c) (sym e) (last_callback [] cb c c (no_callback c))
put_first ie cb c (last_callback cbs last b d h) e =
    last_callback (cb ∷ cbs) last c d (put_first ie cb c h e)

notify-HaveRun :
    {C : Type 0} (cbs : List (IntrospectionEvent → C → C)) (ie : IntrospectionEvent) (c : C)
    → HaveRun ie cbs c (notify cbs ie c)
unfolding notify
notify-HaveRun [] ie c = no_callback c
notify-HaveRun (cb ∷ cbs) ie c = put_first ie cb c (notify-HaveRun cbs ie (cb ie c)) refl

-- A snapshot has each register of the two structures under its name, and the time.
pub record IsSnapshot (regs : Regs) (sregs : Sregs) (time : ℕ) (snap : GuestSnapshot) : Type 0 where
  pub rip : snap.rip ≡ regs.rip
  pub rsp : snap.rsp ≡ regs.rsp
  pub rax : snap.rax ≡ regs.rax
  pub rbx : snap.rbx ≡ regs.rbx
  pub rcx : snap.rcx ≡ regs.rcx
  pub rdx : snap.rdx ≡ regs.rdx
  pub rsi : snap.rsi ≡ regs.rsi
  pub rdi : snap.rdi ≡ regs.rdi
  pub r8 : snap.r8 ≡ regs.r8
  pub r9 : snap.r9 ≡ regs.r9
  pub r10 : snap.r10 ≡ regs.r10
  pub r11 : snap.r11 ≡ regs.r11
  pub r12 : snap.r12 ≡ regs.r12
  pub r13 : snap.r13 ≡ regs.r13
  pub r14 : snap.r14 ≡ regs.r14
  pub r15 : snap.r15 ≡ regs.r15
  pub rflags : snap.rflags ≡ regs.rflags
  pub cr0 : snap.cr0 ≡ sregs.cr0
  pub cr3 : snap.cr3 ≡ sregs.cr3
  pub cr4 : snap.cr4 ≡ sregs.cr4
  pub timestamp : snap.timestamp ≡ time

snapshot_of-IsSnapshot :
    (regs : Regs) (sregs : Sregs) (time : ℕ)
    → IsSnapshot regs sregs time (snapshot_of regs sregs time)
snapshot_of-IsSnapshot regs sregs time = record {
  rip = refl;
  rsp = refl;
  rax = refl;
  rbx = refl;
  rcx = refl;
  rdx = refl;
  rsi = refl;
  rdi = refl;
  r8 = refl;
  r9 = refl;
  r10 = refl;
  r11 = refl;
  r12 = refl;
  r13 = refl;
  r14 = refl;
  r15 = refl;
  rflags = refl;
  cr0 = refl;
  cr3 = refl;
  cr4 = refl;
  timestamp = refl;
}

module _ {K : Type 0} (kvm : Kvm K) where
  snapshot_registers_taken :
      (vm : VirtualMachine) (i : ℕ) (v : VCpu) (m : Machine K) (regs : Regs) (sregs : Sregs)
      → get_elem? vm.vcpus i ≡ some v
      → VCpu.get_regs kvm v m ≡ ok regs
      → VCpu.get_sregs kvm v m ≡ ok sregs
      → snapshot_registers kvm (some vm) i m
        ≡ (some (snapshot_of regs sregs (kvm.now m.kernel).0), set_kernel (kvm.now m.kernel).1 m)
  unfolding snapshot_registers snapshot_vcpu
  snapshot_registers_taken vm i v m regs sregs has read sread =
      rw (has, snapshot_registers, read, snapshot_vcpu, sread) refl

  -- Let an agent with a VM handle an event of a vCPU that the VM has and whose registers can be read, and
  -- let a dump of at least one byte be wanted of a range that, like the VM's regions, ends below
  -- 2 ^ 64. The log then has one entry more: the event, a snapshot with each register under its name and
  -- the time of the clock, the summary of both, and the bytes that the first region holding the range reads, or no bytes if none
  -- holds it. The callbacks are run on that entry in their order, and the memory stays.
  pub handle_hv_event_entry :
      {C : Type 0} (event : HvEvent) (w : Watched K C) (vm : VirtualMachine) (v : VCpu)
      (regs : Regs) (sregs : Sregs)
      → w.vm ≡ some vm
      → get_elem? vm.vcpus event.vcpu_id ≡ some v
      → VCpu.get_regs kvm v w.machine ≡ ok regs
      → VCpu.get_sregs kvm v w.machine ≡ ok sregs
      → w.agent.mem_dump_enabled ≡ true
      → 0 < w.agent.mem_dump_size
      → w.agent.mem_dump_addr + w.agent.mem_dump_size < 2 ^ 64
      → EndsBelow64 vm.memory_regions
      → let w' = handle_hv_event kvm event w in
        (ie : IntrospectionEvent) × (w'.agent.event_log ≡ w.agent.event_log ++ ie ∷ [])
        × (ie.base ≡ event)
        × IsSnapshot regs sregs (kvm.now w.machine.kernel).0 ie.snapshot
        × (ie.summary ≡ build_summary event ie.snapshot)
        × DumpOf vm w.agent.mem_dump_addr w.agent.mem_dump_size w.machine ie.mem_dump
        × HaveRun ie w.agent.callbacks w.client w'.client
        × (w'.machine.memory ≡ w.machine.memory)
  unfolding handle_hv_event
  handle_hv_event_entry event w vm v regs sregs has_vm has read sread enabled positive below ends =
      let taken = snapshot_registers kvm w.vm event.vcpu_id w.machine in
      let known : taken ≡ (
        some (snapshot_of regs sregs (kvm.now w.machine.kernel).0),
        set_kernel (kvm.now w.machine.kernel).1 w.machine,
      ) =
        ap (λ (o : Option VirtualMachine). snapshot_registers kvm o event.vcpu_id w.machine) has_vm
        ∙ snapshot_registers_taken vm event.vcpu_id v w.machine regs sregs has read sread in
      let snapshot = ap (λ (p : Option GuestSnapshot × Machine K). or_zeros kvm p.0) known in
      let memory = ap (λ (p : Option GuestSnapshot × Machine K). p.1.memory) known in
      let dump : dump_of w.agent w.vm taken.1.memory
          ≡ some_dump (
              read_regions vm.memory_regions w.agent.mem_dump_addr w.agent.mem_dump_size
                w.machine.memory) =
        ap₂ (dump_of w.agent) has_vm memory ∙ dump_of-enabled w.agent vm w.machine.memory enabled in
      (
        record {
          base = event;
          snapshot = or_zeros kvm taken.0;
          mem_dump = dump_of w.agent w.vm taken.1.memory;
          summary = build_summary event (or_zeros kvm taken.0);
        },
        refl,
        refl,
        subst (IsSnapshot regs sregs (kvm.now w.machine.kernel).0) (sym snapshot)
            (snapshot_of-IsSnapshot regs sregs (kvm.now w.machine.kernel).0),
        refl,
        subst (DumpOf vm w.agent.mem_dump_addr w.agent.mem_dump_size w.machine) (sym dump) (
            read_regions-DumpOf vm w.agent.mem_dump_addr w.agent.mem_dump_size w.machine positive
              below ends),
        notify-HaveRun w.agent.callbacks _ w.client,
        memory,
      )
