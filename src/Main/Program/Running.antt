-- ===== src/Main/Program/Running.antt =====
-- When the part of `main` of src/main.cpp after the loading returns 0.
use min_bp.Prelude.{
  ℕ, ◌==◌, ◌≡◌, ◌≢◌, refl, ap, ◌∙◌, sym, Bool, true, false, Option, none, some, if◌then◌else◌,
  arith, ==_iff,
}
use min_bp.Prelude.Result.{no_error}
use min_bp.Kvm.{Machine, World, Kvm}
use min_bp.VCpu.{VCpu, install_cpuid}
use min_bp.VirtualMachine.{VirtualMachine, VmSnapShot, take_snap_shot}
use min_bp.InstructionTrapper.{Session}
use min_bp.VmiAgent.Dump.{dump_event_log}
use min_bp.Main.State.{ProgramState}
use min_bp.Main.CpuidTable.{Table}
use min_bp.Main.Runs.{max_iterations, runs}
use min_bp.Main.Runs.Series.{Series, runs_iff}
use min_bp.Main.Program.{
  front, Left, dump_after, session_of, fuzz_guest, table_of, run_guest, first_vcpu, failed,
}

pub bind-some :
    {A B : Type 0} (o : Option A) (f : A → Option B) (b : B)
    → (elim o [ none ↦ none | some a ↦ f a ]) ≡ some b
    → (a : A) × (o ≡ some a) × (f a ≡ some b)
bind-some none f b e = absurd (let no : none ≢ some b = λ x. cc in no e)
bind-some (some a) f b e = (a, refl, e)

pub some-bind :
    {A B : Type 0} (o : Option A) (f : A → Option B) (a : A)
    → o ≡ some a
    → (elim o [ none ↦ none | some x ↦ f x ]) ≡ f a
some-bind o f a e = ap (λ (p : Option _). elim p [ none ↦ none | some x ↦ f x ]) e

pub if_true : {A : Type 0} (c : Bool) (x y : A) → c ≡ true → (if c then x else y) ≡ x
if_true true x y e = refl
if_true false x y e = absurd (let no : false ≢ true = λ q. cc in no e)

module _ {K : Type 0} (kvm : Kvm K) where
  unfoldable pub status_of : Option (Left K) → ℕ
  status_of none = 1
  status_of (some l) = l.status

  pub test_passed :
      (c : Bool) (x : Option (Left K)) (vm : VirtualMachine) (m : Machine K) (l : Left K)
      → (if c then x else failed kvm vm m) ≡ some l
      → l.status ≡ 0
      → (c ≡ true) × (x ≡ some l)
  unfolding status_of
  test_passed true x vm m l e z = (refl, e)
  test_passed false x vm m l e z = let one : 1 ≡ l.status = ap status_of e in absurd (omega arith)

  -- The runs of a guest whose table is installed have gone well.
  pub record Fuzzed (v : VCpu) (t : Table kvm) (w : World K ProgramState) (l : Left K)
      : Type 0 where
    pub snap : VmSnapShot
    pub last : Session K ProgramState
    pub taken : take_snap_shot kvm w.user.vm w.machine ≡ some snap
    pub series : Series kvm snap max_iterations 0 (session_of kvm v t w) 0 last
    pub left : l ≡ record {
      status = 0;
      events_file = some (dump_event_log last.world.user.agent.event_log);
      vm = last.world.user.vm;
      machine = last.world.machine;
    }

  dumped :
      (r : ℕ × Session K ProgramState) (l : Left K)
      → some (dump_after kvm r) ≡ some l
      → l.status ≡ 0
      → (r ≡ (0, r.1)) × (l ≡ dump_after kvm (0, r.1))
  unfolding dump_after status_of
  dumped r l e z =
      let same : r.0 ≡ l.status = ap status_of e in
      let pair : r ≡ (0, r.1) = ap (λ (n : ℕ). (n, r.1)) (same ∙ z) in
      let given : dump_after kvm r ≡ l = cc in (pair, sym given ∙ ap (dump_after kvm) pair)

  fuzz_guest-Fuzzed :
      (fuel : ℕ) (v : VCpu) (t : Table kvm) (w : World K ProgramState) (l : Left K)
      → fuzz_guest kvm fuel v t w ≡ some l
      → l.status ≡ 0
      → Fuzzed v t w l
  unfolding fuzz_guest dump_after
  fuzz_guest-Fuzzed fuel v t w l e z =
      let (snap, taken, e1) = bind-some (take_snap_shot kvm w.user.vm w.machine) _ l e in
      let s = session_of kvm v t w in
      let (r, ran, e2) = bind-some (runs kvm fuel snap max_iterations 0 s) _ l e1 in
      let (pair, left) = dumped r l e2 z in
      record {
        snap = snap;
        last = r.1;
        taken = taken;
        series = (runs_iff kvm snap max_iterations 0 0 s r.1).0 (fuel, ran ∙ ap some pair);
        left = left;
      }

  fuzz_guest-returns :
      (v : VCpu) (t : Table kvm) (w : World K ProgramState) (l : Left K)
      → Fuzzed v t w l
      → (fuel : ℕ) × (fuzz_guest kvm fuel v t w ≡ some l)
  unfolding fuzz_guest dump_after
  fuzz_guest-returns v t w l f =
      let (fuel, returns) =
        (runs_iff kvm f.snap max_iterations 0 0 (session_of kvm v t w) f.last).1 f.series in
      let ran : runs kvm fuel f.snap max_iterations 0 (session_of kvm v t w) ≡ some (0, f.last) =
        returns fuel (omega arith) in
      (fuel, rw (f.taken, fuzz_guest, ran) (ap some (sym f.left)))

  -- All that happened after the guest's code was loaded to the VM.
  pub record Run (vm : VirtualMachine) (m : Machine K) (l : Left K) : Type 0 where
    pub vcpu : VCpu
    pub first : front vm.vcpus ≡ some vcpu
    pub installed :
        (install_cpuid kvm vcpu (table_of kvm vm m).entries (table_of kvm vm m).world.machine).0
        ≡ no_error
    pub fuzzed :
        Fuzzed vcpu
          (table_of kvm vm m)
          (record {
            machine =
                (install_cpuid kvm vcpu
                  (table_of kvm vm m).entries
                  (table_of kvm vm m).world.machine).1;
            user = (table_of kvm vm m).world.user;
          })
          l

  run_guest-Run :
      (fuel : ℕ) (v : VCpu) (vm : VirtualMachine) (m : Machine K) (l : Left K)
      → front vm.vcpus ≡ some v
      → run_guest kvm fuel v vm m ≡ some l
      → l.status ≡ 0
      → Run vm m l
  unfolding run_guest
  run_guest-Run fuel v vm m l has e z =
      let t = table_of kvm vm m in
      let (ec, m') = install_cpuid kvm v t.entries t.world.machine in
      let (passed, e1) = test_passed (ec == no_error) _ vm m' l e z in
      record {
        vcpu = v;
        first = has;
        installed = (==_iff _ _).0 passed;
        fuzzed = fuzz_guest-Fuzzed fuel v t _ l e1 z;
      }

  pub first_vcpu-Run :
      (fuel : ℕ) (vm : VirtualMachine) (m : Machine K) (l : Left K)
      → first_vcpu kvm fuel vm m ≡ some l
      → l.status ≡ 0
      → Run vm m l
  unfolding first_vcpu
  first_vcpu-Run fuel vm m l e z =
      let (v, has, e1) = bind-some (front vm.vcpus) _ l e in run_guest-Run fuel v vm m l has e1 z

  pub first_vcpu-returns :
      (vm : VirtualMachine) (m : Machine K) (l : Left K)
      → Run vm m l
      → (fuel : ℕ) × (first_vcpu kvm fuel vm m ≡ some l)
  unfolding first_vcpu run_guest
  first_vcpu-returns vm m l r =
      let (fuel, returns) = fuzz_guest-returns r.vcpu (table_of kvm vm m) _ l r.fuzzed in
      (
        fuel,
        some-bind (front vm.vcpus) (λ v. run_guest kvm fuel v vm m) r.vcpu r.first
            ∙ if_true _ _ _ ((==_iff _ _).1 r.installed)
            ∙ returns,
      )
