-- ===== src/Main/Program/Closing.antt =====
-- What `main` of src/main.cpp leaves open, and what status it returns.
use min_bp.Prelude.{
  ℕ, ◌==◌, ◌≡◌, refl, ap, ◌∙◌, sym, subst, inl, inr, Bool, false, not, ◌&&◌, ◌||◌, List, none, some,
  arith, Bool-cases,
}
use min_bp.Prelude.Result.{Result, ok, err}
use min_bp.Kvm.{Machine, Kvm, set_kernel}
use min_bp.VirtualMachine.{VirtualMachine, cap_exit_on_emulation_failure, enable_emulation_exits}
use min_bp.VirtualMachine
use min_bp.KvmSystem.{KvmSystem, open_system, create_vm, check_extension}
use min_bp.KvmSystem
use min_bp.KvmSystem.Ownership.{Opened, open_system-Opened}
use min_bp.Main.Process.{Process, to_Descriptors, Owned, Same, Owned-Same, Owned-released, fresh}
use min_bp.Main.Process.Loading.{owned_account}
use min_bp.Main.Program.{Left, Ended, trap_emulation, load_guest, leave, with_vm, with_system, main}
use min_bp.Main.Program.Running.{bind-some}
use min_bp.Main.Program.Parts.{HasStatus, Fine, load_guest-Fine}

module _ {K : Type 0} (kvm : Kvm K) (laws : Process kvm) where
  trap_emulation-Same :
      (sys : KvmSystem) (vm : VirtualMachine) (m : Machine K)
      → Same kvm laws m.kernel (trap_emulation kvm sys vm m).kernel
  unfolding trap_emulation enable_emulation_exits
  trap_emulation-Same sys vm m x =
      elim (Bool-cases (check_extension kvm sys cap_exit_on_emulation_failure m.kernel)) [
        | inl e ↦ rw e (laws.enabled vm.fd cap_exit_on_emulation_failure 1 m.kernel x)
        | inr e ↦ rw e refl
      ]

  release-Same :
      (sys : KvmSystem) (fd : ℕ) (k k' : K)
      → sys.fd ≡ some fd
      → Same kvm laws k k'
      → Same kvm laws (KvmSystem.release kvm sys k) (KvmSystem.release kvm sys k')
  unfolding KvmSystem.release
  release-Same sys fd k k' has same x =
      rw has
        (laws.closed fd k' x ∙ ap (λ b. not (x == fd) && b) (same x) ∙ sym (laws.closed fd k x))

  -- What is open at the end is what was open at `k`, and the status fits the file.
  abbrev pub Clean : K → Ended K → Type 0
  Clean k e = Same kvm laws k e.machine.kernel × HasStatus e.status e.events_file

  leave-Clean :
      (sys : KvmSystem) (fd : ℕ) (l : Left K) (k : K)
      → sys.fd ≡ some fd
      → Fine kvm (owned_account kvm laws (laws.is_open k)) l
      → Same kvm laws (KvmSystem.release kvm sys k) (leave kvm sys l).machine.kernel
        × HasStatus (leave kvm sys l).status (leave kvm sys l).events_file
  unfolding leave
  leave-Clean sys fd l k has fine = (
    release-Same sys fd k _ has (Owned-released kvm laws (laws.is_open k) l.vm l.machine fine.0),
    fine.1,
  )

  with_vm-Clean :
      (fuel : ℕ) (guest : List ℕ) (sys : KvmSystem) (fd : ℕ) (vm : VirtualMachine) (m : Machine K)
      (k : K) (e : Ended K)
      → sys.fd ≡ some fd
      → Owned kvm laws (laws.is_open k) vm m.kernel
      → with_vm kvm fuel guest sys vm m ≡ some e
      → Clean (KvmSystem.release kvm sys k) e
  unfolding with_vm
  with_vm-Clean fuel guest sys fd vm m k e has o h =
      let m' = trap_emulation kvm sys vm m in
      let (l, ran, e1) = bind-some (load_guest kvm fuel guest vm m') _ e h in
      let owned =
        Owned-Same kvm laws (laws.is_open k) vm m.kernel m'.kernel (trap_emulation-Same sys vm m)
          o in
      let given : leave kvm sys l ≡ e = cc in
      subst (Clean (KvmSystem.release kvm sys k)) given (
        leave-Clean sys fd l k has (
          load_guest-Fine kvm (owned_account kvm laws (laws.is_open k)) fuel guest vm m' l owned
            ran))

  alone : (a b : Bool) → (not (a || false) && b) ≡ (not a && b)
  alone a b = ground arith

  new-Owned :
      (n size : ℕ) (k k' : K)
      → laws.is_open k n ≡ false
      → ((x : ℕ) → laws.is_open k' x ≡ (x == n || laws.is_open k x))
      → Owned kvm laws (laws.is_open k) (VirtualMachine.new (some n) size) k'
  new-Owned n size k k' free grown x =
      alone (x == n) (laws.is_open k' x)
      ∙ ap (λ b. not (x == n) && b) (grown x)
      ∙ fresh kvm laws n (laws.is_open k) x free

  with_system-Clean :
      (fuel : ℕ) (guest : List ℕ) (sys : KvmSystem) (fd : ℕ) (m : Machine K) (e : Ended K)
      → sys.fd ≡ some fd
      → with_system kvm fuel guest sys m ≡ some e
      → Clean (KvmSystem.release kvm sys m.kernel) e
  unfolding with_system create_vm
  with_system-Clean fuel guest sys fd m e has h =
      after (kvm.create_vm sys.fd m.kernel).0 (λ x f y. laws.vm_refused sys.fd m.kernel x y f)
        (laws.vm_made sys.fd m.kernel) h
    where
      k' : K
      k' = (kvm.create_vm sys.fd m.kernel).1

      after :
          (made : Result ℕ)
          → ((x : ℕ) → made ≡ err x → Same kvm laws m.kernel k')
          → ((n : ℕ)
              → made ≡ ok n
              → (laws.is_open m.kernel n ≡ false)
                × ((x : ℕ) → laws.is_open k' x ≡ (x == n || laws.is_open m.kernel x)))
          → (elim (elim made as (λ q. Result VirtualMachine) [
            | err x ↦ err x
            | ok n ↦ ok (VirtualMachine.new (some n) sys.vcpu_mmap_size)
          ]) [
            | err _ ↦ some (record {
              status = 1;
              events_file = none;
              machine = set_kernel (KvmSystem.release kvm sys k') m;
            })
            | ok vm ↦ with_vm kvm fuel guest sys vm (set_kernel k' m)
          ])
            ≡ some e
          → Clean (KvmSystem.release kvm sys m.kernel) e
      after (err x) same grown q =
          let given : record {
            status = 1;
            events_file = none;
            machine = set_kernel (KvmSystem.release kvm sys k') m;
          }
              ≡ e =
            cc in
          subst (Clean (KvmSystem.release kvm sys m.kernel)) given
            (release-Same sys fd m.kernel k' has (same x refl), inr (refl, refl))
      after (ok n) same grown q =
          let (free, more) = grown n refl in
          with_vm-Clean fuel guest sys fd (VirtualMachine.new (some n) sys.vcpu_mmap_size)
            (set_kernel k' m) m.kernel e has (new-Owned n sys.vcpu_mmap_size m.kernel k' free more)
            q

  after_open :
      (fuel : ℕ) (guest : List ℕ) (m : Machine K) (e : Ended K) (r : Result KvmSystem × K)
      → Opened kvm (to_Descriptors kvm laws) m.kernel r
      → (elim r.0 [
        | err _ ↦ some (record { status = 1; events_file = none; machine = set_kernel r.1 m })
        | ok sys ↦ with_system kvm fuel guest sys (set_kernel r.1 m)
      ])
        ≡ some e
      → Clean m.kernel e
  after_open fuel guest m e _ (Opened.failed x k' kept) q =
      let given : record { status = 1; events_file = none; machine = set_kernel k' m } ≡ e = cc in
      subst (Clean m.kernel) given (kept, inr (refl, refl))
  after_open fuel guest m e _ (Opened.succeeded sys k' fd has free now_open version kept) q =
      let clean = with_system-Clean fuel guest sys fd (set_kernel k' m) e has q in
      (λ x. clean.0 x ∙ kept x, clean.1)

  -- Whenever `main` returns, on whichever path, exactly the descriptors are open that were before it, and
  -- its status is 0, with the event log written, or 1, with no log written.
  pub main-Clean :
      (fuel : ℕ) (guest : List ℕ) (m : Machine K) (e : Ended K)
      → main kvm fuel guest m ≡ some e
      → ((x : ℕ) → laws.is_open e.machine.kernel x ≡ laws.is_open m.kernel x)
        × HasStatus e.status e.events_file
  unfolding main
  main-Clean fuel guest m e h =
      after_open fuel guest m e _
        (open_system-Opened kvm (to_Descriptors kvm laws) "/dev/kvm" m.kernel) h
