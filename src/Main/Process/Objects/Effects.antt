-- ===== src/Main/Process/Objects/Effects.antt =====
-- What the operations of the objects that own a descriptor do to the open descriptors.
use min_bp.Prelude.{
  ℕ, ◌+◌, ◌≡◌, refl, ap, ◌∙◌, not, ◌&&◌, List, [], ◌∷◌, ◌++◌, some, none, ltb, arith,
}
use min_bp.Kvm.{Machine, Kvm, Fd}
use min_bp.VCpu.{VCpu}
use min_bp.VCpu
use min_bp.VirtualMachine.{
  VirtualMachine, release_vcpus, release_regions, close_vm, add_vcpu, add_memory_region,
}
use min_bp.VirtualMachine
use min_bp.VirtualMachine.Release.{
  is_fd, vcpus_own, owns, is_open-release, is_open-assign, is_open-vcpu,
}
use min_bp.KvmSystem.{KvmSystem}
use min_bp.KvmSystem
use min_bp.Main.Process.{Process, to_Closes}
use min_bp.Main.Process.Objects.{Object, held, vcpus_hold, holds, total, moved, destroy}
use min_bp.Main.Process.Objects.Balance.{Effect}

is_fd-held : (fd : Fd) (x : ℕ) → is_fd fd x ≡ ltb 0 (held fd x)
is_fd-held none x = refl
is_fd-held (some fd) x = ground arith

vcpus_own-vcpus_hold : (vs : List VCpu) (x : ℕ) → vcpus_own vs x ≡ ltb 0 (vcpus_hold vs x)
vcpus_own-vcpus_hold [] x = refl
vcpus_own-vcpus_hold (v ∷ vs) x = ground (arith, is_fd-held v.fd x, vcpus_own-vcpus_hold vs x)

owns-holds : (vm : VirtualMachine) (x : ℕ) → owns vm x ≡ ltb 0 (holds (Object.machine vm) x)
owns-holds vm x = ground (arith, is_fd-held vm.fd x, vcpus_own-vcpus_hold vm.vcpus x)

pub vcpus_hold-append :
    (vs : List VCpu) (v : VCpu) (x : ℕ)
    → vcpus_hold (vs ++ v ∷ []) x ≡ vcpus_hold vs x + held v.fd x
vcpus_hold-append [] v x = omega arith
vcpus_hold-append (u ∷ us) v x = omega (arith, vcpus_hold-append us v x)

-- A move shares the descriptors out anew.
pub holds-moved : (o : Object) (x : ℕ) → holds (moved o).0 x + holds (moved o).1 x ≡ holds o x
unfolding KvmSystem.move VirtualMachine.move VCpu.move
holds-moved (Object.system s) x = omega arith
holds-moved (Object.machine vm) x = omega arith
holds-moved (Object.vcpu v) x = omega arith

module _ {K : Type 0} (kvm : Kvm K) (laws : Process kvm) where
  is_open-close_fd :
      (fd : Fd) (k : K) (x : ℕ)
      → laws.is_open (KvmSystem.close_fd kvm fd k) x ≡ (not (ltb 0 (held fd x)) && laws.is_open k x)
  is_open-close_fd none k x = refl
  is_open-close_fd (some fd) k x = laws.closed fd k x ∙ ground arith

  -- A destructor closes what the object holds, and nothing else.
  pub is_open-destroy :
      (o : Object) (m : Machine K) (x : ℕ)
      → laws.is_open (destroy kvm o m).kernel x
        ≡ (not (ltb 0 (holds o x)) && laws.is_open m.kernel x)
  unfolding KvmSystem.release
  is_open-destroy (Object.system s) m x = is_open-close_fd s.fd m.kernel x
  is_open-destroy (Object.machine vm) m x =
      is_open-release kvm (to_Closes kvm laws) vm m x
      ∙ ap (λ b. not b && laws.is_open m.kernel x) (owns-holds vm x)
  is_open-destroy (Object.vcpu v) m x =
      is_open-vcpu kvm (to_Closes kvm laws) v m x
      ∙ ap (λ b. not b && laws.is_open m.kernel x) (is_fd-held v.fd x)

  pub destroy-Effect :
      (o : Object) (os : List Object) (m : Machine K)
      → Effect kvm laws (total (o ∷ os)) (total os) m.kernel (destroy kvm o m).kernel
  destroy-Effect o os m = Effect.closes (holds o) (is_open-destroy o m) (λ x. refl)

  pub move-Effect :
      (o : Object) (os : List Object) (k : K)
      → Effect kvm laws (total (o ∷ os)) (total ((moved o).0 ∷ (moved o).1 ∷ os)) k k
  move-Effect o os k = Effect.kept (λ x. omega (arith, holds-moved o x)) (λ x. refl)

  pub system_overwritten-Effect :
      (self other : KvmSystem) (os : List Object) (k : K)
      → let ((new, left), k') = KvmSystem.assign kvm self other k in
        Effect kvm laws
          (total (Object.system self ∷ Object.system other ∷ os))
          (total (Object.system new ∷ Object.system left ∷ os))
          k
          k'
  unfolding KvmSystem.assign
  system_overwritten-Effect self other os k = by_fd self.fd refl
    where
      by_fd :
          (fd : Fd)
          → self.fd ≡ fd
          → let ((new, left), k') = (elim fd as (λ f. (KvmSystem × KvmSystem) × K) [
            | none ↦ ((self, other), k)
            | some n ↦ ((other, record other { fd = none }), kvm.close n k)
          ]) in
            Effect kvm laws
              (total (Object.system self ∷ Object.system other ∷ os))
              (total (Object.system new ∷ Object.system left ∷ os))
              k
              k'
      by_fd none e = Effect.kept (λ x. refl) (λ x. refl)
      by_fd (some n) e =
          Effect.closes (held (some n)) (λ x. laws.closed n k x ∙ ground arith)
            (λ x. omega (arith, ap (λ f. held f x) e))

  pub machine_overwritten-Effect :
      (self other : VirtualMachine) (os : List Object) (m : Machine K)
      → let ((new, left), m') = VirtualMachine.assign kvm self other m in
        Effect kvm laws
          (total (Object.machine self ∷ Object.machine other ∷ os))
          (total (Object.machine new ∷ Object.machine left ∷ os))
          m.kernel
          m'.kernel
  unfolding VirtualMachine.assign VirtualMachine.move
  machine_overwritten-Effect self other os m =
      Effect.closes (holds (Object.machine self))
        (λ x.
          is_open-assign kvm (to_Closes kvm laws) self other m x
          ∙ ap (λ b. not b && laws.is_open m.kernel x) (owns-holds self x))
        (λ x. omega arith)

  pub vcpu_overwritten-Effect :
      (self other : VCpu) (os : List Object) (m : Machine K)
      → let ((new, left), m') = VCpu.assign kvm self other m in
        Effect kvm laws
          (total (Object.vcpu self ∷ Object.vcpu other ∷ os))
          (total (Object.vcpu new ∷ Object.vcpu left ∷ os))
          m.kernel
          m'.kernel
  unfolding VCpu.assign VCpu.move
  vcpu_overwritten-Effect self other os m =
      Effect.closes (holds (Object.vcpu self)) (is_open-destroy (Object.vcpu self) m)
        (λ x. omega arith)
