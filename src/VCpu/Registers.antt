-- ===== src/VCpu/Registers.antt =====
-- What the code relies on of the register calls behind src/VCpu.cpp: laws of the kernel, as
-- hypotheses.
use min_bp.Prelude.{◌≡◌, ◌≢◌, refl, ap}
use min_bp.Prelude.Result.{Result, ok, err, no_error, error_code}
use min_bp.Kvm.{Fd, Regs, Sregs, Machine, Kvm, set_kernel}
use min_bp.VCpu.{VCpu, get_regs, set_regs, get_sregs, set_sregs}

-- KVM_SET_REGS and KVM_SET_SREGS store what KVM_GET_REGS and KVM_GET_SREGS read, neither touches what
-- the other stores, and a call that fails leaves an error number that is not 0.
pub record RegistersHold {K : Type 0} (kvm : Kvm K) : Type 0 where
  pub regs_set :
      (fd : Fd) (regs : Regs) (k : K)
      → (kvm.set_regs fd regs k).0 ≡ ok tt
      → kvm.get_regs fd (kvm.set_regs fd regs k).1 ≡ ok regs
  pub sregs_set :
      (fd : Fd) (sregs : Sregs) (k : K)
      → (kvm.set_sregs fd sregs k).0 ≡ ok tt
      → kvm.get_sregs fd (kvm.set_sregs fd sregs k).1 ≡ ok sregs
  pub sregs_kept :
      (fd : Fd) (regs : Regs) (k : K)
      → kvm.get_sregs fd (kvm.set_regs fd regs k).1 ≡ kvm.get_sregs fd k
  pub regs_kept :
      (fd : Fd) (sregs : Sregs) (k : K)
      → kvm.get_regs fd (kvm.set_sregs fd sregs k).1 ≡ kvm.get_regs fd k
  pub regs_errno : (fd : Fd) (regs : Regs) (k : K) → (kvm.set_regs fd regs k).0 ≢ err 0
  pub sregs_errno : (fd : Fd) (sregs : Sregs) (k : K) → (kvm.set_sregs fd sregs k).0 ≢ err 0

ok_of_code : (r : Result (Unit {0})) → error_code r ≡ no_error → r ≢ err 0 → r ≡ ok tt
ok_of_code (ok tt) h n = refl
ok_of_code (err e) h n = absurd (n (ap err h))

module _ {K : Type 0} (kvm : Kvm K) (laws : RegistersHold kvm) where
  pub get_regs-set_regs :
      (v : VCpu) (regs : Regs) (m : Machine K)
      → (set_regs kvm v regs m).0 ≡ no_error
      → get_regs kvm v (set_regs kvm v regs m).1 ≡ ok regs
  unfolding get_regs set_regs
  get_regs-set_regs v regs m h =
      laws.regs_set v.fd regs m.kernel
        (ok_of_code (kvm.set_regs v.fd regs m.kernel).0 h (laws.regs_errno v.fd regs m.kernel))

  pub get_sregs-set_sregs :
      (v : VCpu) (sregs : Sregs) (m : Machine K)
      → (set_sregs kvm v sregs m).0 ≡ no_error
      → get_sregs kvm v (set_sregs kvm v sregs m).1 ≡ ok sregs
  unfolding get_sregs set_sregs
  get_sregs-set_sregs v sregs m h =
      laws.sregs_set v.fd sregs m.kernel
        (ok_of_code (kvm.set_sregs v.fd sregs m.kernel).0 h (laws.sregs_errno v.fd sregs m.kernel))

  pub get_sregs-set_regs :
      (v : VCpu) (regs : Regs) (m : Machine K)
      → get_sregs kvm v (set_regs kvm v regs m).1 ≡ get_sregs kvm v m
  unfolding get_sregs set_regs
  get_sregs-set_regs v regs m = laws.sregs_kept v.fd regs m.kernel

  pub get_regs-set_sregs :
      (v : VCpu) (sregs : Sregs) (m : Machine K)
      → get_regs kvm v (set_sregs kvm v sregs m).1 ≡ get_regs kvm v m
  unfolding get_regs set_sregs
  get_regs-set_sregs v sregs m = laws.regs_kept v.fd sregs m.kernel

module _ {K : Type 0} (kvm : Kvm K) where
  -- The register calls leave the shared memory alone.
  pub memory-set_regs :
      (v : VCpu) (regs : Regs) (m : Machine K)
      → (set_regs kvm v regs m).1 ≡ set_kernel (set_regs kvm v regs m).1.kernel m
  unfolding set_regs
  memory-set_regs v regs m = refl

  pub memory-set_sregs :
      (v : VCpu) (sregs : Sregs) (m : Machine K)
      → (set_sregs kvm v sregs m).1 ≡ set_kernel (set_sregs kvm v sregs m).1.kernel m
  unfolding set_sregs
  memory-set_sregs v sregs m = refl
