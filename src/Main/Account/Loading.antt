-- ===== src/Main/Account/Loading.antt =====
-- What the loading of the guest in src/main.cpp keeps.
use min_bp.Prelude.{
  ℕ, ◌+◌, ◌==◌, ◌≡◌, subst, inl, inr, List, Option, none, some, Bool-cases, u16, length, ltb, u64,
}
use min_bp.Prelude.Result.{no_error, Result-cases, ErrorCode}
use min_bp.Kvm.{Regs, Sregs, Machine, Kvm}
use min_bp.VCpu.{VCpu}
use min_bp.VCpu
use min_bp.MemoryRegion.{MemoryRegion}
use min_bp.VirtualMachine.{VirtualMachine, add_memory_region, add_vcpu}
use min_bp.GuestLoader.{
  Placed, place, write_image, make_vcpu, setup_vcpu, setup_real_mode_vcpu, load_bytes,
}
use min_bp.GuestLoader.Placing.{put, write_image_fits, write_image_refused}
use min_bp.Main.Account.{Account}

module _ {K : Type 0} (kvm : Kvm K) (account : Account kvm) where
  abbrev PlacedHolds : Placed kvm → Type 0
  PlacedHolds Placed.aborted = Unit {0}
  PlacedHolds (Placed.refused e vm m) = account.Holds vm m.kernel
  PlacedHolds (Placed.placed v vm m) = account.Holds vm m.kernel

  make_vcpu-Holds :
      (vm : VirtualMachine) (m : Machine K)
      → account.Holds vm m.kernel
      → PlacedHolds (make_vcpu kvm vm m)
  unfolding make_vcpu
  make_vcpu-Holds vm m o =
      let kept = account.vcpu_added 0 vm m o in
      elim (Result-cases (add_vcpu kvm 0 vm m).0.0) [
        | inr (e, f) ↦ rw (f, make_vcpu) kept
        | inl (v, f) ↦ rw (f, make_vcpu) kept
      ]

  write_image-Holds :
      (region : MemoryRegion) (bytes : List ℕ) (offset : ℕ) (vm : VirtualMachine) (m : Machine K)
      → account.Holds vm m.kernel
      → PlacedHolds (write_image kvm region bytes offset vm m)
  write_image-Holds region bytes offset vm m o =
      elim (Bool-cases (ltb region.size (u64 (offset + length bytes)))) [
        | inl e ↦ rw (write_image_refused kvm region bytes offset vm m e) o
        | inr e ↦
            rw (write_image_fits kvm region bytes offset vm m e)
              (make_vcpu-Holds vm (put region bytes offset m) o)
      ]

  place-Holds :
      (bytes : List ℕ) (offset size : ℕ) (vm : VirtualMachine) (m : Machine K)
      → account.Holds vm m.kernel
      → PlacedHolds (place kvm bytes offset size vm m)
  unfolding place
  place-Holds bytes offset size vm m o =
      let kept = account.region_added 0 size 0 vm m o in
      elim (Result-cases (add_memory_region kvm 0 size 0 vm m).0.0) [
        | inr (e, f) ↦ rw (f, place) kept
        | inl (region, f) ↦ rw (f, place) (write_image-Holds region bytes offset _ _ kept)
      ]

  setup_vcpu-Holds :
      (change : Sregs → Sregs) (regs : Regs) (v : VCpu) (vm : VirtualMachine) (m : Machine K)
      → account.Holds vm m.kernel
      → account.Holds vm (setup_vcpu kvm change regs v m).1.kernel
  unfolding setup_vcpu VCpu.set_regs VCpu.set_sregs
  setup_vcpu-Holds change regs v vm m o = elim (Result-cases (VCpu.get_sregs kvm v m)) [
    | inr (e, f) ↦ rw (f, setup_vcpu) o
    | inl (sregs, f) ↦
        let kept = (account.stable vm).set_sregs v.fd (change sregs) m.kernel o in
        elim (Bool-cases ((VCpu.set_sregs kvm v (change sregs) m).0 == no_error)) [
          | inl t ↦ rw (f, setup_vcpu, t) ((account.stable vm).set_regs v.fd regs _ kept)
          | inr t ↦ rw (f, setup_vcpu, t) kept
        ]
  ]

  real_mode-Holds :
      (v : VCpu) (ip : ℕ) (vm : VirtualMachine) (m : Machine K)
      → account.Holds vm m.kernel
      → account.Holds vm (setup_real_mode_vcpu kvm v ip m).1.kernel
  unfolding setup_real_mode_vcpu
  real_mode-Holds v ip vm m = setup_vcpu-Holds _ _ v vm m

  abbrev LoadedHolds : Option ((ErrorCode × VirtualMachine) × Machine K) → Type 0
  LoadedHolds none = Unit {0}
  LoadedHolds (some r) = account.Holds r.0.1 r.1.kernel

  pub load_bytes-Holds :
      (code : List ℕ) (load_addr size : ℕ) (vm : VirtualMachine) (m : Machine K)
      (r : (ErrorCode × VirtualMachine) × Machine K)
      → load_bytes kvm code load_addr size vm m ≡ some r
      → account.Holds vm m.kernel
      → account.Holds r.0.1 r.1.kernel
  unfolding load_bytes
  load_bytes-Holds code load_addr size vm m r e o =
      subst (LoadedHolds) e
        (after (place kvm code load_addr size vm m) (place-Holds code load_addr size vm m o))
    where
      after :
          (p : Placed kvm)
          → PlacedHolds p
          → LoadedHolds (elim p [
            | Placed.aborted ↦ none
            | Placed.refused e' vm' m' ↦ some ((e', vm'), m')
            | Placed.placed v vm' m' ↦
                (let done = setup_real_mode_vcpu kvm v (u16 load_addr) m' in
                  some ((done.0, vm'), done.1))
          ])
      after Placed.aborted h = tt
      after (Placed.refused e' vm' m') h = h
      after (Placed.placed v vm' m') h = real_mode-Holds v (u16 load_addr) vm' m' h
