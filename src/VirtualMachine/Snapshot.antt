-- ===== src/VirtualMachine/Snapshot.antt =====
-- `restoreSnapshot` of src/VirtualMachine.cpp undoes whatever ran since `takeSnapShot`.
use min_bp.Prelude.{
  ℕ, zero, suc, ◌+◌, ◌==◌, ◌≡◌, refl, ap, ◌∙◌, inl, inr, Bool, false, not, ◌&&◌, ◌||◌, List, [],
  ◌∷◌, some, length, take, leb, ltb, if◌then◌else◌, arith, Bool-cases,
}
use min_bp.Prelude.Result.{ok, no_error}
use min_bp.Kvm.{Regs, Sregs, Machine, Kvm, null}
use min_bp.Memory.{Memory, poke, peek}
use min_bp.Memory.Laws.{poke-peek, length-peek}
use min_bp.VCpu.{VCpu}
use min_bp.VCpu
use min_bp.VCpu.Registers.{
  RegistersHold, get_regs-set_regs, get_sregs-set_sregs, get_regs-set_sregs,
}
use min_bp.MemoryRegion.{MemoryRegion}
use min_bp.VirtualMachine.{
  VirtualMachine, VmSnapShot, is_null, is_empty, copy_regions, restore_regions, snapshot_of,
  restore_to, take_snap_shot, restore_snapshot,
}

-- Whether a byte of the process belongs to one of the regions.
abbrev pub is_inside : List MemoryRegion → ℕ → Bool
is_inside [] x = false
is_inside (r ∷ rs) x =
    (not (r.host_addr == null) && leb r.host_addr x && ltb x (r.host_addr + r.size))
    || is_inside rs x

take_all : (n : ℕ) (xs : List ℕ) → length xs ≡ n → take n xs ≡ xs
take_all zero [] h = refl
take_all zero (x ∷ xs) h = absurd (omega arith)
take_all (suc n) [] h = refl
take_all (suc n) (x ∷ xs) h = ap (◌∷◌ x) (take_all n xs (omega arith))

nonempty : (a n : ℕ) (mem : Memory) → is_empty (peek a (suc n) mem) ≡ false
unfolding peek
nonempty a n mem = refl

empty_copy :
    (a : ℕ) (before mem : Memory) (x : ℕ)
    → (if is_empty (peek a 0 before) then mem else poke a (peek a 0 before) mem) x
      ≡ (if leb a x && ltb x (a + 0) then before x else mem x)
unfolding peek
empty_copy a before mem x = ground arith

copied_one :
    (a n : ℕ) (before mem : Memory) (x : ℕ)
    → (if is_empty (peek a n before) then mem else poke a (peek a n before) mem) x
      ≡ (if leb a x && ltb x (a + n) then before x else mem x)
copied_one a zero before mem x = empty_copy a before mem x
copied_one a (suc n) before mem x =
    (λ i. (if nonempty a n before i then mem else poke a (peek a (suc n) before) mem) x)
    ∙ poke-peek a (suc n) before mem x

-- A byte of a region gets the value that was copied, and any other byte stays.
restore_copied :
    (rs : List MemoryRegion) (before mem : Memory) (x : ℕ)
    → restore_regions rs (copy_regions rs before) mem x
      ≡ (if is_inside rs x then before x else mem x)
unfolding restore_regions copy_regions
restore_copied [] before mem x = refl
restore_copied (r ∷ rs) before mem x = elim (Bool-cases (is_null r)) [
  | inl e ↦ rw e (restore_copied rs before mem x)
  | inr e ↦
      rw
        (
          e,
          take_all r.size (peek r.host_addr r.size before) (length-peek r.host_addr r.size before),
        )
        (restore_copied rs before _ x ∙ ground (arith, copied_one r.host_addr r.size before mem x))
]

module _ {K : Type 0} (kvm : Kvm K) where
  memory_kept :
      (v : VCpu) (regs : Regs) (sregs : Sregs) (m : Machine K)
      → (VCpu.set_sregs kvm v sregs (VCpu.set_regs kvm v regs m).1).1.memory ≡ m.memory
  unfolding VCpu.set_regs VCpu.set_sregs
  memory_kept v regs sregs m = refl

  registers_of_kernel :
      (v : VCpu) (mem : Memory) (m : Machine K)
      → (VCpu.get_regs kvm v (record m { memory = mem }) ≡ VCpu.get_regs kvm v m)
        × (VCpu.get_sregs kvm v (record m { memory = mem }) ≡ VCpu.get_sregs kvm v m)
  unfolding VCpu.get_regs VCpu.get_sregs
  registers_of_kernel v mem m = (refl, refl)

  restore_to_memory :
      (v : VCpu) (rs : List MemoryRegion) (snap : VmSnapShot) (m : Machine K)
      → (restore_to kvm v rs snap m).memory ≡ restore_regions rs snap.memory_regions m.memory
  unfolding restore_to
  restore_to_memory v rs snap m = rw (memory_kept v snap.regs snap.sregs m)

  restore_to_registers :
      (laws : RegistersHold kvm) (v : VCpu) (rs : List MemoryRegion) (snap : VmSnapShot)
      (m : Machine K)
      → (VCpu.set_regs kvm v snap.regs m).0 ≡ no_error
      → (VCpu.set_sregs kvm v snap.sregs (VCpu.set_regs kvm v snap.regs m).1).0 ≡ no_error
      → (VCpu.get_regs kvm v (restore_to kvm v rs snap m) ≡ ok snap.regs)
        × (VCpu.get_sregs kvm v (restore_to kvm v rs snap m) ≡ ok snap.sregs)
  unfolding restore_to
  restore_to_registers laws v rs snap m p q =
      let m1 = (VCpu.set_regs kvm v snap.regs m).1 in
      let m2 = (VCpu.set_sregs kvm v snap.sregs m1).1 in
      let same = registers_of_kernel v (restore_regions rs snap.memory_regions m2.memory) m2 in
      (
        same.0
            ∙ get_regs-set_sregs kvm laws v snap.sregs m1
            ∙ get_regs-set_regs kvm laws v snap.regs m p,
        same.1 ∙ get_sregs-set_sregs kvm laws v snap.sregs m1 q,
      )

  snapshot_registers :
      (v : VCpu) (rs : List MemoryRegion) (m : Machine K) (regs : Regs) (sregs : Sregs)
      → VCpu.get_regs kvm v m ≡ ok regs
      → VCpu.get_sregs kvm v m ≡ ok sregs
      → snapshot_of kvm v rs m
        ≡ record { regs = regs; sregs = sregs; memory_regions = copy_regions rs m.memory }
  unfolding snapshot_of
  snapshot_registers v rs m regs sregs read sread = rw (read, sread)

  -- Let a snapshot be taken of a VM with a vCPU, and restored in whatever state `later` the machine is
  -- then. Both succeed, and afterwards every byte of every region has its old value, whether or not
  -- the regions overlap, and every byte outside them the value that it had in `later`.
  pub restore-take :
      (vm : VirtualMachine) (v : VCpu) (vs : List VCpu) (m later : Machine K)
      → vm.vcpus ≡ v ∷ vs
      → (snap : VmSnapShot) × (take_snap_shot kvm vm m ≡ some snap)
        × ((restored : Machine K) × (restore_snapshot kvm vm snap later ≡ some restored)
            × ((x : ℕ)
                → restored.memory x
                  ≡ (if is_inside vm.memory_regions x then m.memory x else later.memory x)))
  unfolding take_snap_shot restore_snapshot snapshot_of
  restore-take vm v vs m later has =
      let rs = vm.memory_regions in
      let snap = snapshot_of kvm v rs m in
      (
        snap,
        rw (has, take_snap_shot) refl,
        (
          restore_to kvm v rs snap later,
          rw (has, restore_snapshot) refl,
          λ x. rw (restore_to_memory v rs snap later) (restore_copied rs m.memory later.memory x),
        ),
      )

  -- Let a snapshot be taken of a VM whose first vCPU's registers can be read, and restored in a state
  -- `later` in which the kernel accepts the registers. That vCPU then has its old general and special
  -- registers.
  pub registers-restore :
      (laws : RegistersHold kvm) (vm : VirtualMachine) (v : VCpu) (vs : List VCpu)
      (m later : Machine K) (regs : Regs) (sregs : Sregs)
      → vm.vcpus ≡ v ∷ vs
      → VCpu.get_regs kvm v m ≡ ok regs
      → VCpu.get_sregs kvm v m ≡ ok sregs
      → (VCpu.set_regs kvm v regs later).0 ≡ no_error
      → (VCpu.set_sregs kvm v sregs (VCpu.set_regs kvm v regs later).1).0 ≡ no_error
      → (snap : VmSnapShot) × (take_snap_shot kvm vm m ≡ some snap)
        × ((restored : Machine K) × (restore_snapshot kvm vm snap later ≡ some restored)
            × (VCpu.get_regs kvm v restored ≡ ok regs)
            × (VCpu.get_sregs kvm v restored ≡ ok sregs))
  unfolding take_snap_shot restore_snapshot
  registers-restore laws vm v vs m later regs sregs has read sread set sset =
      let rs = vm.memory_regions in
      let snap : VmSnapShot = record {
        regs = regs;
        sregs = sregs;
        memory_regions = copy_regions rs m.memory;
      } in
      let back = restore_to_registers laws v rs snap later set sset in
      (
        snap,
        rw (has, take_snap_shot) (ap some (snapshot_registers v rs m regs sregs read sread)),
        (restore_to kvm v rs snap later, rw (has, restore_snapshot) refl, back.0, back.1),
      )
