-- ===== src/Main/Process/Objects/Lifetime.antt =====
-- Any life of the objects that own a descriptor: no descriptor is lost, shared or closed twice.
use Prim.Native.String.{String}
use min_bp.Prelude.{ℕ, ◌+◌, ◌≡◌, refl, ap, inl, inr, Bool, List, [], ◌∷◌, ◌++◌, arith}
use min_bp.Kvm.{Machine, Kvm, Fd, set_kernel}
use min_bp.VCpu.{VCpu}
use min_bp.VCpu
use min_bp.VirtualMachine.{VirtualMachine, add_vcpu, add_memory_region}
use min_bp.VirtualMachine
use min_bp.KvmSystem.{KvmSystem, open_system, create_vm}
use min_bp.KvmSystem
use min_bp.Main.Process.{Process, Same}
use min_bp.Main.Process.Objects.{Object, total, holds, moved, destroy, destroy_all}
use min_bp.Main.Process.Objects.Balance.{Effect, Balanced, Effect-Balanced, OneOwner}
use min_bp.Main.Process.Objects.Effects.{
  destroy-Effect, move-Effect, system_overwritten-Effect, machine_overwritten-Effect,
  vcpu_overwritten-Effect,
}
use min_bp.Main.Process.Objects.Creation.{
  with_new, add_memory_region-Effect, create_vcpu-Effect, create_vm-Effect, open_system-Effect,
  add_vcpu-Effect,
}

pub record Objects (K : Type 0) : Type 0 where
  pub all : List Object
  pub now : Machine K

abbrev pub objects : {K : Type 0} → List Object → Machine K → Objects K
objects os m = record { all = os; now = m }

module _ {K : Type 0} (kvm : Kvm K) (laws : Process kvm) where
  -- The objects after a call.
  abbrev pub after_open : String → List Object → Machine K → Objects K
  after_open path os m =
      let r = open_system kvm path m.kernel in
      objects (with_new Object.system r.0 os) (set_kernel r.1 m)

  abbrev pub after_create_vm : KvmSystem → List Object → Machine K → Objects K
  after_create_vm s os m =
      let r = create_vm kvm s m.kernel in
      objects (with_new Object.machine r.0 (Object.system s ∷ os)) (set_kernel r.1 m)

  abbrev pub after_create_vcpu : Fd → ℕ → ℕ → List Object → Machine K → Objects K
  after_create_vcpu vm id size os m =
      let r = VCpu.create kvm vm id size m in objects (with_new Object.vcpu r.0 os) r.1

  abbrev pub after_region : ℕ → ℕ → ℕ → VirtualMachine → List Object → Machine K → Objects K
  after_region gpa size flags vm os m =
      let r = add_memory_region kvm gpa size flags vm m in objects (Object.machine r.0.1 ∷ os) r.1

  abbrev pub after_vcpu : ℕ → VirtualMachine → List Object → Machine K → Objects K
  after_vcpu id vm os m = let r = add_vcpu kvm id vm m in objects (Object.machine r.0.1 ∷ os) r.1

  abbrev pub after_assign_system : KvmSystem → KvmSystem → List Object → Machine K → Objects K
  after_assign_system self other os m =
      let ((new, left), k) = KvmSystem.assign kvm self other m.kernel in
      objects (Object.system new ∷ Object.system left ∷ os) (set_kernel k m)

  abbrev pub after_assign_machine :
      VirtualMachine → VirtualMachine → List Object → Machine K → Objects K
  after_assign_machine self other os m =
      let ((new, left), m') = VirtualMachine.assign kvm self other m in
      objects (Object.machine new ∷ Object.machine left ∷ os) m'

  abbrev pub after_assign_vcpu : VCpu → VCpu → List Object → Machine K → Objects K
  after_assign_vcpu self other os m =
      let ((new, left), m') = VCpu.assign kvm self other m in
      objects (Object.vcpu new ∷ Object.vcpu left ∷ os) m'

  -- What can happen next. The objects are in no order: `swaps` exchanges neighbours, and the other
  -- steps act on the first ones.
  pub data Step : Objects K → Objects K → Type 0 where
    swaps :
        (os : List Object) (a b : Object) (ps : List Object) (m : Machine K)
        → Step (objects (os ++ a ∷ b ∷ ps) m) (objects (os ++ b ∷ a ∷ ps) m)
    opens :
        (path : String) (os : List Object) (m : Machine K)
        → Step (objects os m) (after_open path os m)
    makes_vm :
        (s : KvmSystem) (os : List Object) (m : Machine K)
        → Step (objects (Object.system s ∷ os) m) (after_create_vm s os m)
    makes_vcpu :
        (vm : Fd) (id size : ℕ) (os : List Object) (m : Machine K)
        → Step (objects os m) (after_create_vcpu vm id size os m)
    adds_region :
        (gpa size flags : ℕ) (vm : VirtualMachine) (os : List Object) (m : Machine K)
        → Step (objects (Object.machine vm ∷ os) m) (after_region gpa size flags vm os m)
    adds_vcpu :
        (id : ℕ) (vm : VirtualMachine) (os : List Object) (m : Machine K)
        → Step (objects (Object.machine vm ∷ os) m) (after_vcpu id vm os m)
    moves :
        (o : Object) (os : List Object) (m : Machine K)
        → Step (objects (o ∷ os) m) (objects ((moved o).0 ∷ (moved o).1 ∷ os) m)
    assigns_system :
        (self other : KvmSystem) (os : List Object) (m : Machine K)
        → Step
            (objects (Object.system self ∷ Object.system other ∷ os) m)
            (after_assign_system self other os m)
    assigns_machine :
        (self other : VirtualMachine) (os : List Object) (m : Machine K)
        → Step
            (objects (Object.machine self ∷ Object.machine other ∷ os) m)
            (after_assign_machine self other os m)
    assigns_vcpu :
        (self other : VCpu) (os : List Object) (m : Machine K)
        → Step
            (objects (Object.vcpu self ∷ Object.vcpu other ∷ os) m)
            (after_assign_vcpu self other os m)
    destroys :
        (o : Object) (os : List Object) (m : Machine K)
        → Step (objects (o ∷ os) m) (objects os (destroy kvm o m))
    works :
        (os : List Object) (m m' : Machine K)
        → Same kvm laws m.kernel m'.kernel
        → Step (objects os m) (objects os m')

  pub data Reach (s : Objects K) : Objects K → Type 0 where
    start : Reach s s
    further : {t u : Objects K} → Reach s t → Step t u → Reach s u

  total-swap :
      (os : List Object) (a b : Object) (ps : List Object) (x : ℕ)
      → total (os ++ b ∷ a ∷ ps) x ≡ total (os ++ a ∷ b ∷ ps) x
  total-swap [] a b ps x = omega arith
  total-swap (o ∷ os) a b ps x = ap (λ n. holds o x + n) (total-swap os a b ps x)

  Step-Effect :
      {s t : Objects K}
      → Step s t
      → Effect kvm laws (total s.all) (total t.all) s.now.kernel t.now.kernel
  Step-Effect (swaps os a b ps m) = Effect.kept (total-swap os a b ps) (λ x. refl)
  Step-Effect (opens path os m) = open_system-Effect kvm laws path os m.kernel
  Step-Effect (makes_vm s os m) = create_vm-Effect kvm laws s (Object.system s ∷ os) m.kernel
  Step-Effect (makes_vcpu vm id size os m) = create_vcpu-Effect kvm laws vm id size os m
  Step-Effect (adds_region gpa size flags vm os m) =
      add_memory_region-Effect kvm laws gpa size flags vm os m
  Step-Effect (adds_vcpu id vm os m) = add_vcpu-Effect kvm laws id vm os m
  Step-Effect (moves o os m) = move-Effect kvm laws o os m.kernel
  Step-Effect (assigns_system self other os m) =
      system_overwritten-Effect kvm laws self other os m.kernel
  Step-Effect (assigns_machine self other os m) =
      machine_overwritten-Effect kvm laws self other os m
  Step-Effect (assigns_vcpu self other os m) = vcpu_overwritten-Effect kvm laws self other os m
  Step-Effect (destroys o os m) = destroy-Effect kvm laws o os m
  Step-Effect (works os m m' same) = Effect.kept (λ x. refl) same

  abbrev AllBalanced : (ℕ → Bool) → Objects K → Type 0
  AllBalanced base s = (x : ℕ) → Balanced kvm laws base (total s.all) s.now.kernel x

  Reach-AllBalanced :
      (base : ℕ → Bool) {s t : Objects K} → Reach s t → AllBalanced base s → AllBalanced base t
  Reach-AllBalanced base start b = b
  Reach-AllBalanced base (further {t = t} {u = u} r st) b =
      Effect-Balanced kvm laws base (total t.all) (total u.all) t.now.kernel u.now.kernel
        (Step-Effect st) (Reach-AllBalanced base r b)

  destroy_all-AllBalanced :
      (base : ℕ → Bool) (os : List Object) (m : Machine K)
      → AllBalanced base (objects os m)
      → AllBalanced base (objects [] (destroy_all kvm os m))
  destroy_all-AllBalanced base [] m b = b
  destroy_all-AllBalanced base (o ∷ os) m b = destroy_all-AllBalanced base os (destroy kvm o m) (
      Effect-Balanced kvm laws base (total (o ∷ os)) (total os) m.kernel (destroy kvm o m).kernel
        (destroy-Effect kvm laws o os m) b)

  -- Objects are made, moved, assigned and destroyed in any order, with failures of the calls and other
  -- work in between. At any time a descriptor that was not open at first is open exactly if an object
  -- holds it, which is then a single one that holds it once, and no object holds one that was open
  -- at first; and when the objects that are left are destroyed, exactly the descriptors are open
  -- that were at first.
  pub Reach-OneOwner :
      (m : Machine K) (t : Objects K)
      → Reach (objects [] m) t
      → (x : ℕ)
      → OneOwner (total t.all x) (laws.is_open t.now.kernel x) (laws.is_open m.kernel x)
        × (laws.is_open (destroy_all kvm t.all t.now).kernel x ≡ laws.is_open m.kernel x)
  Reach-OneOwner m t r x =
      let b = Reach-AllBalanced (laws.is_open m.kernel) r (λ y. inl (refl, refl)) in
      (b x, nothing_held (destroy_all-AllBalanced (laws.is_open m.kernel) t.all t.now b x))
    where
      nothing_held : {o base : Bool} → OneOwner 0 o base → o ≡ base
      nothing_held (inl (n, e)) = e
      nothing_held (inr (n, e, f)) = absurd (omega (arith, n))
