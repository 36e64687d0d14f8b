-- ===== src/Main/Program/Outcome.antt =====
-- When `main` of src/main.cpp returns 0, and what it leaves.
use Prim.Native.String.{String}
use min_bp.Prelude.{
  ℕ, ◌^◌, ◌==◌, ◌≡◌, ◌≢◌, ◌↔◌, refl, ap, ◌∙◌, sym, List, [], ◌∷◌, Option, none, some, arith, ==_iff,
  subst, Bool-cases, inl, inr,
}
use min_bp.Prelude.Result.{Result, ok, err, no_error, Result-cases}
use min_bp.Kvm.{Machine, Kvm, set_kernel}
use min_bp.VirtualMachine.{VirtualMachine}
use min_bp.VirtualMachine
use min_bp.InstructionTrapper.{Session}
use min_bp.VmiAgent.Dump.{dump_event_log}
use min_bp.Main.State.{ProgramState}
use min_bp.KvmSystem
use min_bp.KvmSystem.{KvmSystem, kvm_api_version, probe, probe_mmap_size, open_system, create_vm}
use min_bp.GuestLoader.{load_bytes}
use min_bp.Main.Program.{Left, Ended, trap_emulation, load_guest, leave, with_vm, with_system, main}
use min_bp.Main.Program.Running.{
  bind-some, some-bind, test_passed, status_of, Run, first_vcpu-Run, first_vcpu-returns,
}

module _ {K : Type 0} (kvm : Kvm K) where
  -- The guest's code is not empty, and is loaded without error, and all goes well after that.
  pub record LoadedRun (guest : List ℕ) (vm : VirtualMachine) (m : Machine K) (l : Left K)
      : Type 0 where
    pub nonempty : guest ≢ []
    pub loaded_vm : VirtualMachine
    pub loaded_machine : Machine K
    pub loaded :
        load_bytes kvm guest 0x1000 (2 ^ 19) vm m ≡ some ((no_error, loaded_vm), loaded_machine)
    pub ran : Run kvm loaded_vm loaded_machine l

  load_guest-LoadedRun :
      (fuel : ℕ) (guest : List ℕ) (vm : VirtualMachine) (m : Machine K) (l : Left K)
      → load_guest kvm fuel guest vm m ≡ some l
      → l.status ≡ 0
      → LoadedRun guest vm m l
  unfolding load_guest status_of
  load_guest-LoadedRun fuel [] vm m l e z =
      let one : 1 ≡ l.status = ap (status_of kvm) e in absurd (omega arith)
  load_guest-LoadedRun fuel (b ∷ bs) vm m l e z =
      let (r, loaded, e1) = bind-some (load_bytes kvm (b ∷ bs) 0x1000 (2 ^ 19) vm m) _ l e in
      let (passed, e2) = test_passed kvm (r.0.0 == no_error) _ r.0.1 r.1 l e1 z in
      let clean : r ≡ ((no_error, r.0.1), r.1) =
        ap (λ (c : ℕ). ((c, r.0.1), r.1)) ((==_iff _ _).0 passed) in
      record {
        nonempty = λ x. cc;
        loaded_vm = r.0.1;
        loaded_machine = r.1;
        loaded = loaded ∙ ap some clean;
        ran = first_vcpu-Run kvm fuel r.0.1 r.1 l e2 z;
      }

  load_guest-returns :
      (guest : List ℕ) (vm : VirtualMachine) (m : Machine K) (l : Left K)
      → LoadedRun guest vm m l
      → (fuel : ℕ) × (load_guest kvm fuel guest vm m ≡ some l)
  unfolding load_guest
  load_guest-returns [] vm m l r = absurd (r.nonempty refl)
  load_guest-returns (b ∷ bs) vm m l r =
      let (fuel, returns) = first_vcpu-returns kvm r.loaded_vm r.loaded_machine l r.ran in
      (fuel, some-bind (load_bytes kvm (b ∷ bs) 0x1000 (2 ^ 19) vm m) _ _ r.loaded ∙ returns)

  abbrev HasDescriptor : Result KvmSystem → Type 0
  HasDescriptor (err e) = Unit {0}
  HasDescriptor (ok sys) = (fd : ℕ) × (sys.fd ≡ some fd)

  probe_mmap_size-HasDescriptor :
      (fd version : ℕ) (k : K) → HasDescriptor (probe_mmap_size kvm fd version k).0
  unfolding probe_mmap_size
  probe_mmap_size-HasDescriptor fd version k =
      elim (Result-cases (kvm.get_vcpu_mmap_size (some fd) k)) [
        | inr (e, g) ↦ rw (g, probe_mmap_size) tt
        | inl (size, g) ↦ rw (g, probe_mmap_size) (fd, refl)
      ]

  probe-HasDescriptor : (fd : ℕ) (k : K) → HasDescriptor (probe kvm fd k).0
  unfolding probe
  probe-HasDescriptor fd k = elim (Result-cases (kvm.get_api_version (some fd) k)) [
    | inr (e, f) ↦ rw (f, probe) tt
    | inl (version, f) ↦ elim (Bool-cases (version == kvm_api_version)) [
      | inr t ↦ rw (f, probe, t) tt
      | inl t ↦ rw (f, probe, t) (probe_mmap_size-HasDescriptor fd version k)
    ]
  ]

  open_system-HasDescriptor : (path : String) (k : K) → HasDescriptor (open_system kvm path k).0
  unfolding open_system
  open_system-HasDescriptor path k = elim (Result-cases (kvm.open_path path k).0) [
    | inr (e, f) ↦ rw (f, open_system) tt
    | inl (fd, f) ↦ rw (f, open_system) (probe-HasDescriptor fd (kvm.open_path path k).1)
  ]

  -- What stands at the end of the session `last`, with the descriptor `device` open until then.
  abbrev end_of : ℕ → Session K ProgramState → Ended K
  end_of device last =
      let m' = VirtualMachine.release kvm last.world.user.vm last.world.machine in
      record {
        status = 0;
        events_file = some (dump_event_log last.world.user.agent.event_log);
        machine = set_kernel (kvm.close device m'.kernel) m';
      }

  leave-end :
      (sys : KvmSystem) (device : ℕ) (l : Left K) (last : Session K ProgramState)
      → sys.fd ≡ some device
      → l ≡ record {
        status = 0;
        events_file = some (dump_event_log last.world.user.agent.event_log);
        vm = last.world.user.vm;
        machine = last.world.machine;
      }
      → leave kvm sys l ≡ end_of device last
  unfolding leave KvmSystem.release
  leave-end sys device l last has e = ap (leave kvm sys) e ∙ rw has refl

  -- A run of `main` in which nothing has failed but, it may be, the enabling of the emulation exits: the
  -- device is opened, the VM made, the guest loaded, and all runs made. It ends with the last
  -- session's event log in the file, its VM destroyed and the device closed.
  pub record Success (guest : List ℕ) (m : Machine K) (e : Ended K) : Type 0 where
    pub sys : KvmSystem
    pub opened_kernel : K
    pub opened : open_system kvm "/dev/kvm" m.kernel ≡ (ok sys, opened_kernel)
    pub device : ℕ
    pub has_device : sys.fd ≡ some device
    pub vm : VirtualMachine
    pub made_kernel : K
    pub made : create_vm kvm sys opened_kernel ≡ (ok vm, made_kernel)
    pub left : Left K
    pub ran : LoadedRun guest vm (trap_emulation kvm sys vm (set_kernel made_kernel m)) left
    pub ended : e ≡ end_of device ran.ran.fuzzed.last

  with_vm-Run :
      (fuel : ℕ) (guest : List ℕ) (sys : KvmSystem) (vm : VirtualMachine) (m : Machine K)
      (e : Ended K)
      → with_vm kvm fuel guest sys vm m ≡ some e
      → e.status ≡ 0
      → (l : Left K) × LoadedRun guest vm (trap_emulation kvm sys vm m) l
        × (l.status ≡ 0)
        × (e ≡ leave kvm sys l)
  unfolding with_vm
  with_vm-Run fuel guest sys vm m e h z =
      let (l, ran, e1) =
        bind-some (load_guest kvm fuel guest vm (trap_emulation kvm sys vm m)) _ e h in
      let given : leave kvm sys l ≡ e = cc in
      let same : l.status ≡ (leave kvm sys l).status = unfold leave in refl in
      let zero' : l.status ≡ 0 = same ∙ ap (λ (x : Ended K). x.status) given ∙ z in
      (l, load_guest-LoadedRun fuel guest vm _ l ran zero', zero', sym given)

  with_vm-returns :
      (guest : List ℕ) (sys : KvmSystem) (vm : VirtualMachine) (m : Machine K) (l : Left K)
      → LoadedRun guest vm (trap_emulation kvm sys vm m) l
      → (fuel : ℕ) × (with_vm kvm fuel guest sys vm m ≡ some (leave kvm sys l))
  unfolding with_vm
  with_vm-returns guest sys vm m l r =
      let (fuel, returns) = load_guest-returns guest vm (trap_emulation kvm sys vm m) l r in
      (fuel, some-bind _ (λ (x : Left K). some (leave kvm sys x)) l returns)

  abbrev status_one : Machine K → Option (Ended K)
  status_one m = some (record { status = 1; events_file = none; machine = m })

  not_refused : (m : Machine K) (e : Ended K) → status_one m ≡ some e → e.status ≢ 0
  not_refused m e h z =
      let same : record { status = 1; events_file = none; machine = m } ≡ e = cc in
      let one : 1 ≡ e.status = ap (λ (x : Ended K). x.status) same in omega arith

  no_vm :
      (fuel : ℕ) (guest : List ℕ) (sys : KvmSystem) (m : Machine K) (x : ℕ)
      → (create_vm kvm sys m.kernel).0 ≡ err x
      → (m' : Machine K) × (with_system kvm fuel guest sys m ≡ status_one m')
  unfolding with_system
  no_vm fuel guest sys m x q = (
    set_kernel (KvmSystem.release kvm sys (create_vm kvm sys m.kernel).1) m,
    rw (q, with_system) refl,
  )

  some_vm :
      (fuel : ℕ) (guest : List ℕ) (sys : KvmSystem) (m : Machine K) (vm : VirtualMachine)
      → (create_vm kvm sys m.kernel).0 ≡ ok vm
      → with_system kvm fuel guest sys m
        ≡ with_vm kvm fuel guest sys vm (set_kernel (create_vm kvm sys m.kernel).1 m)
  unfolding with_system
  some_vm fuel guest sys m vm q = rw (q, with_system) refl

  no_system :
      (fuel : ℕ) (guest : List ℕ) (m : Machine K) (x : ℕ)
      → (open_system kvm "/dev/kvm" m.kernel).0 ≡ err x
      → (m' : Machine K) × (main kvm fuel guest m ≡ status_one m')
  unfolding main
  no_system fuel guest m x q =
      (set_kernel (open_system kvm "/dev/kvm" m.kernel).1 m, rw (q, main) refl)

  some_system :
      (fuel : ℕ) (guest : List ℕ) (m : Machine K) (sys : KvmSystem)
      → (open_system kvm "/dev/kvm" m.kernel).0 ≡ ok sys
      → main kvm fuel guest m
        ≡ with_system kvm fuel guest sys (set_kernel (open_system kvm "/dev/kvm" m.kernel).1 m)
  unfolding main
  some_system fuel guest m sys q = rw (q, main) refl

  with_system-Success :
      (fuel : ℕ) (guest : List ℕ) (sys : KvmSystem) (m : Machine K) (e : Ended K) (k : K)
      → open_system kvm "/dev/kvm" m.kernel ≡ (ok sys, k)
      → with_system kvm fuel guest sys (set_kernel k m) ≡ some e
      → e.status ≡ 0
      → Success guest m e
  with_system-Success fuel guest sys m e k opened h z =
      elim (Result-cases (create_vm kvm sys k).0) [
        | inr (x, q) ↦
            let (m', r) = no_vm fuel guest sys (set_kernel k m) x q in
            absurd (not_refused m' e (sym r ∙ h) z)
        | inl (vm, q) ↦
            let (l, ran, status, ended) =
              with_vm-Run fuel guest sys vm _ e
                (sym (some_vm fuel guest sys (set_kernel k m) vm q) ∙ h) z in
            let (device, has) =
              subst (λ (r : Result KvmSystem × K). HasDescriptor r.0) opened
                (open_system-HasDescriptor "/dev/kvm" m.kernel) in
            record {
              sys = sys;
              opened_kernel = k;
              opened = opened;
              device = device;
              has_device = has;
              vm = vm;
              made_kernel = (create_vm kvm sys k).1;
              made = ap (λ (r : Result VirtualMachine). (r, (create_vm kvm sys k).1)) q;
              left = l;
              ran = ran;
              ended = ended ∙ leave-end sys device l ran.ran.fuzzed.last has ran.ran.fuzzed.left;
            }
      ]

  main-Success :
      (fuel : ℕ) (guest : List ℕ) (m : Machine K) (e : Ended K)
      → main kvm fuel guest m ≡ some e
      → e.status ≡ 0
      → Success guest m e
  main-Success fuel guest m e h z =
      let (result, k) = open_system kvm "/dev/kvm" m.kernel in
      elim (Result-cases result) [
        | inr (x, q) ↦
            let (m', r) = no_system fuel guest m x q in absurd (not_refused m' e (sym r ∙ h) z)
        | inl (sys, q) ↦
            with_system-Success fuel guest sys m e k (ap (λ (r : Result KvmSystem). (r, k)) q)
              (sym (some_system fuel guest m sys q) ∙ h) z
      ]

  Success-returns :
      (guest : List ℕ) (m : Machine K) (e : Ended K)
      → Success guest m e
      → (fuel : ℕ) × (main kvm fuel guest m ≡ some e) × (e.status ≡ 0)
  Success-returns guest m e s =
      let m' = set_kernel s.opened_kernel m in
      let (fuel, returns) =
        with_vm-returns guest s.sys s.vm (set_kernel s.made_kernel m) s.left s.ran in
      (
        fuel,
        some_system fuel guest m s.sys (ap (λ (p : Result KvmSystem × K). p.0) s.opened)
            ∙ ap (λ (p : Result KvmSystem × K). with_system kvm fuel guest s.sys (set_kernel p.1 m))
                s.opened
            ∙ some_vm fuel guest s.sys m' s.vm (ap (λ (p : Result VirtualMachine × K). p.0) s.made)
            ∙ ap
                (λ (p : Result VirtualMachine × K).
                  with_vm kvm fuel guest s.sys s.vm (set_kernel p.1 m))
                s.made
            ∙ returns
            ∙ ap some (
                leave-end s.sys s.device s.left s.ran.ran.fuzzed.last s.has_device
                  s.ran.ran.fuzzed.left
                ∙ sym s.ended),
        ap (λ (x : Ended K). x.status) s.ended,
      )

  -- `main` returns 0, with some fuel, exactly when nothing that it tests has failed: the device is opened
  -- and the VM made; the guest's file is not empty and is loaded at 0x1000; the VM has a vCPU, which
  -- accepts the CPUID table; the snapshot is taken, and the three runs from it are a series with
  -- status 0. Whether the emulation exits could be enabled makes no difference to that. What it leaves
  -- then is the text of the last session's log in the file, and the machine after the destructor of
  -- that session's VM and the closing of the device.
  pub main_iff :
      (guest : List ℕ) (m : Machine K) (e : Ended K)
      → ((fuel : ℕ) × (main kvm fuel guest m ≡ some e) × (e.status ≡ 0)) ↔ Success guest m e
  main_iff guest m e = (λ r. main-Success r.0 guest m e r.1 r.2, Success-returns guest m e)
