-- ===== src/GuestLoader/Numbered.antt =====
-- The vCPU that src/GuestLoader.cpp makes has the number 0.
use min_bp.Prelude.{
  ℕ, ◌+◌, ◌≡◌, refl, List, [], ◌∷◌, ◌++◌, Option, none, some, subst, sym, inl, inr, Bool-cases, ltb,
  u64, u16, length,
}
use min_bp.Prelude.Result.{Result, ok, err, Result-cases, ErrorCode}
use min_bp.Kvm.{Fd, Machine, Kvm, set_kernel}
use min_bp.VCpu.{VCpu}
use min_bp.VCpu
use min_bp.MemoryRegion.{MemoryRegion}
use min_bp.MemoryRegion
use min_bp.VirtualMachine.{VirtualMachine, add_memory_region, add_vcpu}
use min_bp.GuestLoader.{Placed, place, write_image, make_vcpu, setup_real_mode_vcpu, load_bytes}
use min_bp.GuestLoader.Placing.{put, write_image_fits, write_image_refused}

abbrev pub AllZero : List VCpu → Type 0
AllZero [] = Unit {0}
AllZero (v ∷ vs) = (v.id ≡ 0) × AllZero vs

AllZero-append : (vs : List VCpu) (v : VCpu) → AllZero vs → v.id ≡ 0 → AllZero (vs ++ v ∷ [])
AllZero-append [] v h e = (e, tt)
AllZero-append (u ∷ vs) v h e = (h.0, AllZero-append vs v h.1 e)

module _ {K : Type 0} (kvm : Kvm K) where
  -- A vCPU that was made has the number that was asked for.
  abbrev HasId : ℕ → Result VCpu → Type 0
  HasId id (err e) = Unit {0}
  HasId id (ok v) = v.id ≡ id

  create-HasId : (vm : Fd) (id size : ℕ) (m : Machine K) → HasId id (VCpu.create kvm vm id size m).0
  unfolding VCpu.create
  create-HasId vm id size m =
      let (made, k) = kvm.create_vcpu vm id m.kernel in
      elim (Result-cases made) [
        | inr (e, f) ↦ rw (f, VCpu.create) tt
        | inl (fd, f) ↦ elim (Result-cases (kvm.mmap_run (some fd) size (set_kernel k m)).0) [
          | inr (e, g) ↦ rw (f, VCpu.create, g) tt
          | inl (page, g) ↦ rw (f, VCpu.create, g) refl
        ]
      ]

  add_vcpu-AllZero :
      (vm : VirtualMachine) (m : Machine K)
      → AllZero vm.vcpus
      → AllZero (add_vcpu kvm 0 vm m).0.1.vcpus
  unfolding add_vcpu
  add_vcpu-AllZero vm m z = elim (Result-cases (VCpu.create kvm vm.fd 0 vm.vcpu_mmap_size m).0) [
    | inr (e, f) ↦ rw (f, add_vcpu) z
    | inl (v, f) ↦
        rw (f, add_vcpu)
          (AllZero-append vm.vcpus v z
            (subst (HasId 0) f (create-HasId vm.fd 0 vm.vcpu_mmap_size m)))
  ]

  add_memory_region-vcpus :
      (gpa size flags : ℕ) (vm : VirtualMachine) (m : Machine K)
      → (add_memory_region kvm gpa size flags vm m).0.1.vcpus ≡ vm.vcpus
  unfolding add_memory_region
  add_memory_region-vcpus gpa size flags vm m =
      elim (Result-cases (MemoryRegion.create kvm vm.fd vm.next_slot gpa size flags m).0) [
        | inr (e, f) ↦ rw (f, add_memory_region) refl
        | inl (r, f) ↦ rw (f, add_memory_region) refl
      ]

  abbrev PlacedZero : Placed kvm → Type 0
  PlacedZero Placed.aborted = Unit {0}
  PlacedZero (Placed.refused e vm m) = AllZero vm.vcpus
  PlacedZero (Placed.placed v vm m) = AllZero vm.vcpus

  make_vcpu-PlacedZero :
      (vm : VirtualMachine) (m : Machine K) → AllZero vm.vcpus → PlacedZero (make_vcpu kvm vm m)
  unfolding make_vcpu
  make_vcpu-PlacedZero vm m z =
      let kept = add_vcpu-AllZero vm m z in
      elim (Result-cases (add_vcpu kvm 0 vm m).0.0) [
        | inr (e, f) ↦ rw (f, make_vcpu) kept
        | inl (v, f) ↦ rw (f, make_vcpu) kept
      ]

  write_image-PlacedZero :
      (region : MemoryRegion) (bytes : List ℕ) (offset : ℕ) (vm : VirtualMachine) (m : Machine K)
      → AllZero vm.vcpus
      → PlacedZero (write_image kvm region bytes offset vm m)
  write_image-PlacedZero region bytes offset vm m z =
      elim (Bool-cases (ltb region.size (u64 (offset + length bytes)))) [
        | inl e ↦ rw (write_image_refused kvm region bytes offset vm m e) z
        | inr e ↦
            rw (write_image_fits kvm region bytes offset vm m e)
              (make_vcpu-PlacedZero vm (put region bytes offset m) z)
      ]

  place-PlacedZero :
      (bytes : List ℕ) (offset size : ℕ) (vm : VirtualMachine) (m : Machine K)
      → AllZero vm.vcpus
      → PlacedZero (place kvm bytes offset size vm m)
  unfolding place
  place-PlacedZero bytes offset size vm m z =
      let kept = subst AllZero (sym (add_memory_region-vcpus 0 size 0 vm m)) z in
      elim (Result-cases (add_memory_region kvm 0 size 0 vm m).0.0) [
        | inr (e, f) ↦ rw (f, place) kept
        | inl (region, f) ↦ rw (f, place) (write_image-PlacedZero region bytes offset _ _ kept)
      ]

  abbrev LoadedZero : Option ((ErrorCode × VirtualMachine) × Machine K) → Type 0
  LoadedZero none = Unit {0}
  LoadedZero (some r) = AllZero r.0.1.vcpus

  -- A VM whose vCPUs all have the number 0 has no other after the loading.
  pub load_bytes-AllZero :
      (code : List ℕ) (load_addr size : ℕ) (vm : VirtualMachine) (m : Machine K)
      (r : (ErrorCode × VirtualMachine) × Machine K)
      → load_bytes kvm code load_addr size vm m ≡ some r
      → AllZero vm.vcpus
      → AllZero r.0.1.vcpus
  unfolding load_bytes
  load_bytes-AllZero code load_addr size vm m r e z =
      subst LoadedZero e
        (after (place kvm code load_addr size vm m) (place-PlacedZero code load_addr size vm m z))
    where
      after :
          (p : Placed kvm)
          → PlacedZero p
          → LoadedZero (elim p [
            | Placed.aborted ↦ none
            | Placed.refused e' vm' m' ↦ some ((e', vm'), m')
            | Placed.placed v vm' m' ↦
                (let done = setup_real_mode_vcpu kvm v (u16 load_addr) m' in
                  some ((done.0, vm'), done.1))
          ])
      after Placed.aborted h = tt
      after (Placed.refused e' vm' m') h = h
      after (Placed.placed v vm' m') h = h
