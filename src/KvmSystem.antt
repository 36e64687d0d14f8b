-- ===== src/KvmSystem.antt =====
-- src/KvmSystem.cpp: the descriptor of /dev/kvm.
pub mod Ownership
use Prim.Native.String.{String}
use min_bp.Prelude.{ℕ, ◌==◌, Bool, Option, none, some, ltb, if◌then◌else◌}
use min_bp.Prelude.Result.{Result, ok, err}
use min_bp.Kvm.{Fd, Kvm}
use min_bp.VirtualMachine.{VirtualMachine}
use min_bp.VirtualMachine

pub record KvmSystem : Type 0 where
  pub fd : Fd
  pub api_version : ℕ
  pub vcpu_mmap_size : ℕ

-- KVM_API_VERSION and ENOTSUP
abbrev pub kvm_api_version : ℕ
kvm_api_version = 12

abbrev pub enotsup : ℕ
enotsup = 95

-- The destructor's call.
abbrev pub close_fd : {K : Type 0} → Kvm K → Fd → K → K
close_fd kvm none k = k
close_fd kvm (some fd) k = kvm.close fd k

module _ {K : Type 0} (kvm : Kvm K) where
  -- A failure after `::open`: the descriptor is closed, and the error is `errno` after that.
  abbrev closed_with_errno : ℕ → K → Result KvmSystem × K
  closed_with_errno fd k = (err (kvm.errno (kvm.close fd k)), kvm.close fd k)

  unfoldable pub probe_mmap_size : ℕ → ℕ → K → Result KvmSystem × K
  probe_mmap_size fd version k = elim (kvm.get_vcpu_mmap_size (some fd) k) [
    | err _ ↦ closed_with_errno fd k
    | ok size ↦ (ok (record { fd = some fd; api_version = version; vcpu_mmap_size = size }), k)
  ]

  -- What `open_system` (`open` in the source) does with the descriptor of the device.
  unfoldable pub probe : ℕ → K → Result KvmSystem × K
  unfolding probe_mmap_size
  probe fd k = elim (kvm.get_api_version (some fd) k) [
    | err _ ↦ closed_with_errno fd k
    | ok version ↦
        if version == kvm_api_version
        then probe_mmap_size fd version k
        else (err enotsup, kvm.close fd k)
  ]

  unfoldable pub open_system : String → K → Result KvmSystem × K
  unfolding probe
  open_system kvm_device k =
      let (opened, k') = kvm.open_path kvm_device k in
      elim opened [ err e ↦ (err e, k') | ok fd ↦ probe fd k' ]

  -- The destructor.
  unfoldable pub release : KvmSystem → K → K
  release s k = close_fd kvm s.fd k

  -- The move assignment from another object: all of it stands in the test of the old descriptor.
  unfoldable pub assign : KvmSystem → KvmSystem → K → (KvmSystem × KvmSystem) × K
  assign self other k = elim self.fd [
    | none ↦ ((self, other), k)
    | some fd ↦ ((other, record other { fd = none }), kvm.close fd k)
  ]

  unfoldable pub create_vm : KvmSystem → K → Result VirtualMachine × K
  create_vm s k =
      let (made, k') = kvm.create_vm s.fd k in
      (elim made [ err e ↦ err e | ok fd ↦ ok (VirtualMachine.new (some fd) s.vcpu_mmap_size) ], k')

  -- `ioctl(...) > 0`
  unfoldable pub check_extension : KvmSystem → ℕ → K → Bool
  check_extension s capability k = elim (kvm.check_extension s.fd capability k) [
    | err _ ↦ Bool.false
    | ok n ↦ ltb 0 n
  ]

-- The move constructor: the new object, and what is left of the old one.
unfoldable pub move : KvmSystem → KvmSystem × KvmSystem
move other = (other, record other { fd = none })
