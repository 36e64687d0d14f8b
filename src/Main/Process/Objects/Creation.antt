-- ===== src/Main/Process/Objects/Creation.antt =====
-- What the calls that make an object do to the open descriptors.
use Prim.Native.String.{String}
use min_bp.Prelude.{
  ℕ, subst, ◌+◌, ◌==◌, ◌≡◌, refl, ap, ◌∙◌, sym, true, ◌||◌, List, [], ◌∷◌, ◌++◌, some, arith,
  Bool-cases, inl, inr, ==_iff,
}
use min_bp.Prelude.Result.{Result, ok, err, Result-cases}
use min_bp.Kvm.{Machine, Kvm, Fd}
use min_bp.VCpu.{VCpu}
use min_bp.VCpu
use min_bp.MemoryRegion
use min_bp.VirtualMachine.{VirtualMachine, add_vcpu, add_memory_region}
use min_bp.KvmSystem
use min_bp.KvmSystem.{KvmSystem, open_system, create_vm, release}
use min_bp.KvmSystem.Ownership.{Opened, failed, succeeded, open_system-Opened}
use min_bp.Main.Process.{Process, Same, to_Descriptors}
use min_bp.Main.Account.{add_vcpu-vm}
use min_bp.Main.Process.Loading.{Created, no_vcpu, new_vcpu, create-Same, create-Created}
use min_bp.Main.Process.Objects.{Object, held, total}
use min_bp.Main.Process.Objects.Effects.{vcpus_hold-append}
use min_bp.Main.Process.Objects.Balance.{Effect}

-- The objects with the new one, if there is one.
abbrev pub with_new : {A : Type 0} → (A → Object) → Result A → List Object → List Object
with_new f (err e) os = os
with_new f (ok a) os = f a ∷ os

module _ {K : Type 0} (kvm : Kvm K) (laws : Process kvm) where
  pub add_memory_region-Effect :
      (gpa size flags : ℕ) (vm : VirtualMachine) (os : List Object) (m : Machine K)
      → let r = add_memory_region kvm gpa size flags vm m in
        Effect kvm laws
          (total (Object.machine vm ∷ os))
          (total (Object.machine r.0.1 ∷ os))
          m.kernel
          r.1.kernel
  unfolding add_memory_region
  add_memory_region-Effect gpa size flags vm os m =
      let made = MemoryRegion.create kvm vm.fd vm.next_slot gpa size flags m in
      let same = create-Same kvm laws vm.fd vm.next_slot gpa size flags m in
      elim (Result-cases made.0) [
        | inr (e, f) ↦ rw (f, add_memory_region) (Effect.kept (λ x. refl) same)
        | inl (r, f) ↦ rw (f, add_memory_region) (Effect.kept (λ x. refl) same)
      ]

  Created-Effect :
      (vm : VirtualMachine) (os : List Object) (k : K) (r : Result VCpu × Machine K)
      → Created kvm laws k r
      → Effect kvm laws
          (total (Object.machine vm ∷ os))
          (total (
            Object.machine
              (elim r.0 [ err e ↦ vm | ok v ↦ record vm { vcpus = vm.vcpus ++ v ∷ [] } ])
            ∷ os))
          k
          r.1.kernel
  Created-Effect vm os k _ (no_vcpu e m same) = Effect.kept (λ x. refl) same
  Created-Effect vm os k _ (new_vcpu v fd m has free grown) =
      Effect.opens fd free grown
        (λ x. omega (arith, vcpus_hold-append vm.vcpus v x, ap (λ f. held f x) has))

  pub create_vcpu-Effect :
      (vm : Fd) (id size : ℕ) (os : List Object) (m : Machine K)
      → let r = VCpu.create kvm vm id size m in
        Effect kvm laws (total os) (total (with_new Object.vcpu r.0 os)) m.kernel r.1.kernel
  create_vcpu-Effect vm id size os m = by_creation _ (create-Created kvm laws vm id size m)
    where
      by_creation :
          (r : Result VCpu × Machine K)
          → Created kvm laws m.kernel r
          → Effect kvm laws (total os) (total (with_new Object.vcpu r.0 os)) m.kernel r.1.kernel
      by_creation _ (no_vcpu e m' same) = Effect.kept (λ x. refl) same
      by_creation _ (new_vcpu v fd m' has free grown) =
          Effect.opens fd free grown (λ x. ap (λ f. held f x + total os x) has)

  pub create_vm-Effect :
      (s : KvmSystem) (os : List Object) (k : K)
      → let r = create_vm kvm s k in
        Effect kvm laws (total os) (total (with_new Object.machine r.0 os)) k r.1
  unfolding create_vm
  create_vm-Effect s os k = elim (Result-cases (kvm.create_vm s.fd k).0) [
    | inr (e, f) ↦ rw (f, create_vm) (Effect.kept (λ x. refl) (λ x. laws.vm_refused s.fd k e x f))
    | inl (fd, f) ↦
        let (free, grown) = laws.vm_made s.fd k fd f in
        rw (f, create_vm) (Effect.opens fd free grown (λ x. omega arith))
  ]

  -- An object whose destructor restores the descriptors has opened its own.
  restored-grown :
      (s : KvmSystem) (k k' : K) (fd : ℕ)
      → s.fd ≡ some fd
      → laws.is_open k' fd ≡ true
      → Same kvm laws k (release kvm s k')
      → (x : ℕ) → laws.is_open k' x ≡ (x == fd || laws.is_open k x)
  unfolding release
  restored-grown s k k' fd has now restored x = elim (Bool-cases (x == fd)) [
    | inl e ↦ rw e (ap (laws.is_open k') ((==_iff x fd).0 e) ∙ now)
    | inr e ↦
        let shut : laws.is_open (kvm.close fd k') x ≡ laws.is_open k' x =
          laws.closed fd k' x ∙ rw e refl in
        rw e
          (sym shut ∙ ap (λ f. laws.is_open (KvmSystem.close_fd kvm f k') x) (sym has) ∙ restored x)
  ]

  pub open_system-Effect :
      (path : String) (os : List Object) (k : K)
      → let r = open_system kvm path k in
        Effect kvm laws (total os) (total (with_new Object.system r.0 os)) k r.1
  open_system-Effect path os k =
      by_opening _ (open_system-Opened kvm (to_Descriptors kvm laws) path k)
    where
      by_opening :
          (r : Result KvmSystem × K)
          → Opened kvm (to_Descriptors kvm laws) k r
          → Effect kvm laws (total os) (total (with_new Object.system r.0 os)) k r.1
      by_opening _ (failed e k' same) = Effect.kept (λ x. refl) same
      by_opening _ (succeeded s k' fd has free now version restored) =
          Effect.opens fd free (restored-grown s k k' fd has now restored)
            (λ x. ap (λ f. held f x + total os x) has)

  pub add_vcpu-Effect :
      (id : ℕ) (vm : VirtualMachine) (os : List Object) (m : Machine K)
      → let r = add_vcpu kvm id vm m in
        Effect kvm laws
          (total (Object.machine vm ∷ os))
          (total (Object.machine r.0.1 ∷ os))
          m.kernel
          r.1.kernel
  unfolding add_vcpu
  add_vcpu-Effect id vm os m =
      let made = VCpu.create kvm vm.fd id vm.vcpu_mmap_size m in
      subst
        (λ (u : VirtualMachine).
          Effect kvm laws (total (Object.machine vm ∷ os)) (total (Object.machine u ∷ os)) m.kernel
            made.1.kernel)
        (sym (add_vcpu-vm kvm id vm m))
        (Created-Effect vm os m.kernel made (create-Created kvm laws vm.fd id vm.vcpu_mmap_size m))
