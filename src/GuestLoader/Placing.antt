-- ===== src/GuestLoader/Placing.antt =====
-- `load` and `loadBytes` of src/GuestLoader.cpp, as far as the image is in place and the vCPU made.
use min_bp.Prelude.{
  ℕ, ◌+◌, ◌≡◌, refl, ◌⊎◌, inl, inr, true, false, List, [], ◌∷◌, some, length, ltb, u16, u64, arith,
  Bool-cases,
}
use min_bp.Prelude.Result.{ok, ErrorCode, Result-cases}
use min_bp.Kvm.{Machine, Kvm}
use min_bp.Memory.{poke}
use min_bp.VCpu.{VCpu}
use min_bp.MemoryRegion.{MemoryRegion}
use min_bp.MemoryRegion
use min_bp.VirtualMachine.{VirtualMachine, add_memory_region, add_vcpu}
use min_bp.GuestLoader.{
  GuestLoadParams, enomem, Placed, make_vcpu, write_image, place, setup_mode, setup_real_mode_vcpu,
  load_bytes, load_image, load, read_file,
}

-- The bytes of an image in a region.
abbrev pub put : {K : Type 0} → MemoryRegion → List ℕ → ℕ → Machine K → Machine K
put region bytes offset m = record m { memory = poke (region.host_addr + offset) bytes m.memory }

module _ {K : Type 0} (kvm : Kvm K) where
  write_fits :
      (region : MemoryRegion) (bytes : List ℕ) (offset : ℕ) (m : Machine K)
      → ltb region.size (u64 (offset + length bytes)) ≡ false
      → MemoryRegion.write region offset bytes m ≡ some (put region bytes offset m)
  unfolding MemoryRegion.write
  write_fits region bytes offset m h = ground arith

  pub write_image_fits :
      (region : MemoryRegion) (bytes : List ℕ) (offset : ℕ) (vm : VirtualMachine) (m : Machine K)
      → ltb region.size (u64 (offset + length bytes)) ≡ false
      → write_image kvm region bytes offset vm m ≡ make_vcpu kvm vm (put region bytes offset m)
  unfolding write_image
  write_image_fits region bytes offset vm m h = rw (h, write_fits region bytes offset m h)

  pub write_image_refused :
      (region : MemoryRegion) (bytes : List ℕ) (offset : ℕ) (vm : VirtualMachine) (m : Machine K)
      → ltb region.size (u64 (offset + length bytes)) ≡ true
      → write_image kvm region bytes offset vm m ≡ Placed.refused enomem vm m
  unfolding write_image
  write_image_refused region bytes offset vm m h = rw h

  abbrev IsAborted : Placed kvm → Type 0
  IsAborted (Placed.aborted) = Unit {0}
  IsAborted _ = ⊥

  make_vcpu_goes_on : (vm : VirtualMachine) (m : Machine K) → ¬ IsAborted (make_vcpu kvm vm m)
  unfolding make_vcpu
  make_vcpu_goes_on vm m = elim (Result-cases (add_vcpu kvm 0 vm m).0.0) [
    | inl (v, e) ↦ rw (e, make_vcpu) (λ h. h)
    | inr (x, e) ↦ rw (e, make_vcpu) (λ h. h)
  ]

  write_image_goes_on :
      (region : MemoryRegion) (bytes : List ℕ) (offset : ℕ) (vm : VirtualMachine) (m : Machine K)
      → ¬ IsAborted (write_image kvm region bytes offset vm m)
  write_image_goes_on region bytes offset vm m =
      elim (Bool-cases (ltb region.size (u64 (offset + length bytes)))) [
        | inl e ↦ rw (write_image_refused region bytes offset vm m e) (λ h. h)
        | inr e ↦ rw (write_image_fits region bytes offset vm m e) (make_vcpu_goes_on vm _)
      ]

  place_goes_on :
      (bytes : List ℕ) (offset memory_size : ℕ) (vm : VirtualMachine) (m : Machine K)
      → ¬ IsAborted (place kvm bytes offset memory_size vm m)
  unfolding place
  place_goes_on bytes offset memory_size vm m =
      elim (Result-cases (add_memory_region kvm 0 memory_size 0 vm m).0.0) [
        | inl (region, e) ↦ rw (e, place) (write_image_goes_on region bytes offset _ _)
        | inr (x, e) ↦ rw (e, place) (λ h. h)
      ]

  Placed-cases :
      (p : Placed kvm)
      → ¬ IsAborted p
      → ((e : ErrorCode) × (vm : VirtualMachine) × (m : Machine K) × (p ≡ Placed.refused e vm m))
        ⊎ ((v : VCpu) × (vm : VirtualMachine) × (m : Machine K) × (p ≡ Placed.placed v vm m))
  Placed-cases Placed.aborted h = absurd (h tt)
  Placed-cases (Placed.refused e vm m) h = inl (e, vm, m, refl)
  Placed-cases (Placed.placed v vm m) h = inr (v, vm, m, refl)

  load_bytes_returns :
      (code : List ℕ) (load_addr memory_size : ℕ) (vm : VirtualMachine) (m : Machine K)
      → (r : (ErrorCode × VirtualMachine) × Machine K) × (load_bytes kvm code load_addr memory_size
            vm m
          ≡ some r)
  unfolding load_bytes
  load_bytes_returns code load_addr memory_size vm m =
      elim (Placed-cases (place kvm code load_addr memory_size vm m)
        (place_goes_on code load_addr memory_size vm m)) [
          | inl (e, vm', m', q) ↦ (((e, vm'), m'), rw (q, load_bytes) refl)
          | inr (v, vm', m', q) ↦
              let done = setup_real_mode_vcpu kvm v (u16 load_addr) m' in
              (((done.0, vm'), done.1), rw (q, load_bytes) refl)
        ]

  load_image_returns :
      (bytes : List ℕ) (params : GuestLoadParams) (vm : VirtualMachine) (m : Machine K)
      → (r : (ErrorCode × VirtualMachine) × Machine K) × (load_image kvm bytes params vm m ≡ some r)
  unfolding load_image
  load_image_returns [] params vm m = (_, refl)
  load_image_returns (b ∷ bs) params vm m =
      elim (Placed-cases (place kvm (b ∷ bs) params.load_address params.memory_size vm m)
        (place_goes_on (b ∷ bs) params.load_address params.memory_size vm m)) [
          | inl (e, vm', m', q) ↦ (((e, vm'), m'), rw (q, load_image) refl)
          | inr (v, vm', m', q) ↦
              let done = setup_mode kvm params params.mode v vm' m' in
              (((done.0, vm'), done.1), rw (q, load_image) refl)
        ]

  -- Whatever the image, the addresses and the answers of the kernel are, `load` and `load_bytes` return
  -- an error code: the assertion in the write of the image never fails.
  pub loads_return :
      (params : GuestLoadParams) (code : List ℕ) (load_addr memory_size : ℕ) (vm : VirtualMachine)
      (m : Machine K)
      → ((r : (ErrorCode × VirtualMachine) × Machine K) × (load kvm params vm m ≡ some r))
        × ((r : (ErrorCode × VirtualMachine) × Machine K) × (load_bytes kvm code load_addr
                memory_size vm m
              ≡ some r))
  unfolding load
  loads_return params code load_addr memory_size vm m = (
    load_image_returns (read_file params.image) params vm m,
    load_bytes_returns code load_addr memory_size vm m,
  )

  pub refused_large :
      (code : List ℕ) (load_addr memory_size : ℕ) (vm : VirtualMachine) (m : Machine K)
      (region : MemoryRegion)
      → (add_memory_region kvm 0 memory_size 0 vm m).0.0 ≡ ok region
      → ltb region.size (u64 (load_addr + length code)) ≡ true
      → load_bytes kvm code load_addr memory_size vm m
        ≡ some (
          (enomem, (add_memory_region kvm 0 memory_size 0 vm m).0.1),
          (add_memory_region kvm 0 memory_size 0 vm m).1,
        )
  unfolding load_bytes place
  refused_large code load_addr memory_size vm m region made h =
      rw (made, load_bytes, place, write_image_refused region code load_addr _ _ h) refl

  pub placed_fitting :
      (code : List ℕ) (load_addr memory_size : ℕ) (vm : VirtualMachine) (m : Machine K)
      (region : MemoryRegion) (v : VCpu)
      → (add_memory_region kvm 0 memory_size 0 vm m).0.0 ≡ ok region
      → ltb region.size (u64 (load_addr + length code)) ≡ false
      → let added = add_memory_region kvm 0 memory_size 0 vm m in
        let made = add_vcpu kvm 0 added.0.1 (put region code load_addr added.1) in
        made.0.0 ≡ ok v
        → place kvm code load_addr memory_size vm m ≡ Placed.placed v made.0.1 made.1
  unfolding place make_vcpu
  placed_fitting code load_addr memory_size vm m region v added h made =
      rw (added, place, write_image_fits region code load_addr _ _ h, made, make_vcpu) refl

  pub placed_loads :
      (code : List ℕ) (load_addr memory_size : ℕ) (vm : VirtualMachine) (m : Machine K) (v : VCpu)
      (vm' : VirtualMachine) (m' : Machine K)
      → place kvm code load_addr memory_size vm m ≡ Placed.placed v vm' m'
      → let done = setup_real_mode_vcpu kvm v (u16 load_addr) m' in
        load_bytes kvm code load_addr memory_size vm m ≡ some ((done.0, vm'), done.1)
  unfolding load_bytes
  placed_loads code load_addr memory_size vm m v vm' m' q = rw (q, load_bytes) refl
