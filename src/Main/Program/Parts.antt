-- ===== src/Main/Program/Parts.antt =====
-- What the parts of `main` of src/main.cpp hold when they return, and with what status.
use Prim.Native.String.{String}
use min_bp.Prelude.{
  ℕ, ◌^◌, ◌==◌, ◌≡◌, ◌≢◌, refl, sym, subst, ◌⊎◌, inl, inr, Bool, true, false, List, [], ◌∷◌, Option,
  none, some, if◌then◌else◌,
}
use min_bp.Prelude.Result.{no_error}
use min_bp.Kvm.{CpuidEntry, Machine, World, Kvm, set_kernel}
use min_bp.VCpu.{VCpu, install_cpuid}
use min_bp.VirtualMachine.{VirtualMachine, take_snap_shot, enable_emulation_exits}
use min_bp.VirtualMachine
use min_bp.GuestLoader.{load_bytes}
use min_bp.InstructionTrapper.{Session}
use min_bp.VmiAgent.Dump.{dump_event_log}
use min_bp.Main.State.{ProgramState}
use min_bp.Main.Callbacks.{Stable, agent_handler-keeps}
use min_bp.Main.CpuidTable.{Table, cpuid_leaves, add_leaf, build_table}
use min_bp.Main.CpuidTable.Installed.{IsWired, publish-IsWired, build_table-entries}
use min_bp.Main.Runs.{max_iterations, runs}
use min_bp.Main.Runs.Series.{Series, over, stopped, followed, runs_iff}
use min_bp.Main.Upkeep.{Kept}
use min_bp.Main.Upkeep.Steps.{Series-Kept}
use min_bp.Main.Account.{Account}
use min_bp.Main.Account.Loading.{load_bytes-Holds}
use min_bp.Main.Program.{
  Left, front, failed, dump_after, session_of, fuzz_guest, table_of, run_guest, first_vcpu,
  load_guest,
}
use min_bp.Main.Program.Running.{bind-some}

-- Either the status is 0 and the log is written, or it is 1 and it is not.
abbrev pub HasStatus : ℕ → Option String → Type 0
HasStatus status file =
    ((status ≡ 0) × ((text : String) × (file ≡ some text))) ⊎ ((status ≡ 1) × (file ≡ none))

module _ {K : Type 0} (kvm : Kvm K) {P : K → Type 0} (stable : Stable kvm P) where
  add_leaf-kernel :
      (leaf : ℕ) (t : Table kvm)
      → IsWired kvm t.bus
      → P t.world.machine.kernel
      → IsWired kvm (add_leaf kvm leaf t).bus × P (add_leaf kvm leaf t).world.machine.kernel
  unfolding add_leaf
  add_leaf-kernel leaf t wired p =
      let w : World K ProgramState = record {
        machine = set_kernel (kvm.now t.world.machine.kernel).1 t.world.machine;
        user = t.world.user;
      } in
      let to_agent = publish-IsWired kvm _ t.bus w wired in
      (
        to_agent.1,
        subst (λ (u : World K ProgramState). P u.machine.kernel) (sym to_agent.0)
            (agent_handler-keeps kvm stable _ w (stable.now t.world.machine.kernel p)).0,
      )

  build_table-kernel :
      (leaves : List ℕ) (t : Table kvm)
      → IsWired kvm t.bus
      → P t.world.machine.kernel
      → P (build_table kvm leaves t).world.machine.kernel
  unfolding build_table
  build_table-kernel [] t wired p = p
  build_table-kernel (leaf ∷ leaves) t wired p =
      let next = add_leaf-kernel leaf t wired p in
      build_table-kernel leaves (add_leaf kvm leaf t) next.0 next.1

module _ {K : Type 0} (kvm : Kvm K) (account : Account kvm) where
  -- How a part of `main` leaves what the VM holds, and with what status.
  abbrev pub Fine : Left K → Type 0
  Fine l = account.Holds l.vm l.machine.kernel × HasStatus l.status l.events_file

  failed-Fine :
      (c : Bool) (x : Option (Left K)) (vm : VirtualMachine) (m : Machine K) (l : Left K)
      → (if c then x else failed kvm vm m) ≡ some l
      → (x ≡ some l → Fine l)
      → account.Holds vm m.kernel
      → Fine l
  failed-Fine true x vm m l e h o = h e
  failed-Fine false x vm m l e h o =
      let same : record { status = 1; events_file = none; vm = vm; machine = m } ≡ l = cc in
      subst (Fine) same (o, inr (refl, refl))

  Series-status :
      {snap : VirtualMachine.VmSnapShot} {n i status : ℕ} {s t : Session K ProgramState}
      → Series kvm snap n i s status t
      → (status ≡ 0) ⊎ (status ≡ 1)
  Series-status (over i s) = inl refl
  Series-status (stopped m started ends) = inr refl
  Series-status (followed m started ends d rest) = Series-status rest

  dump_after-HasStatus :
      (r : ℕ × Session K ProgramState)
      → (r.0 ≡ 0) ⊎ (r.0 ≡ 1)
      → HasStatus (dump_after kvm r).status (dump_after kvm r).events_file
  unfolding dump_after
  dump_after-HasStatus r (inl z) =
      inl (z, (dump_event_log r.1.world.user.agent.event_log, rw z refl))
  dump_after-HasStatus r (inr z) = inr (z, rw z refl)

  dump_after-vm :
      (r : ℕ × Session K ProgramState)
      → ((dump_after kvm r).vm ≡ r.1.world.user.vm)
        × ((dump_after kvm r).machine ≡ r.1.world.machine)
  unfolding dump_after
  dump_after-vm r = (refl, refl)

  session_of-Kept :
      (v : VCpu) (t : Table kvm) (w : World K ProgramState)
      → IsWired kvm t.bus
      → account.Holds w.user.vm w.machine.kernel
      → Kept kvm (account.Holds w.user.vm) w.user.vm (session_of kvm v t w)
  session_of-Kept v t w wired o = record {
    cpuid = refl;
    io = (refl, refl);
    mmio = record { reads = refl; writes = refl };
    bus = wired;
    same_vm = refl;
    kernel = o;
  }

  fuzz_guest-Fine :
      (fuel : ℕ) (v : VCpu) (t : Table kvm) (w : World K ProgramState) (l : Left K)
      → IsWired kvm t.bus
      → account.Holds w.user.vm w.machine.kernel
      → fuzz_guest kvm fuel v t w ≡ some l
      → Fine l
  unfolding fuzz_guest
  fuzz_guest-Fine fuel v t w l wired o e =
      let (snap, taken, e1) = bind-some (take_snap_shot kvm w.user.vm w.machine) _ l e in
      let s = session_of kvm v t w in
      let (r, ran, e2) = bind-some (runs kvm fuel snap max_iterations 0 s) _ l e1 in
      let series = (runs_iff kvm snap max_iterations 0 r.0 s r.1).0 (fuel, ran) in
      let kept =
        Series-Kept kvm (account.stable w.user.vm) w.user.vm series
          (session_of-Kept v t w wired o) in
      let given : dump_after kvm r ≡ l = cc in
      let parts = dump_after-vm r in
      let owned : account.Holds r.1.world.user.vm r.1.world.machine.kernel =
        rw kept.same_vm kept.kernel in
      subst (Fine) given
        (rw (parts.0, parts.1) owned, dump_after-HasStatus r (Series-status series))

  table_of-kept :
      (vm : VirtualMachine) (m : Machine K)
      → account.Holds vm m.kernel
      → IsWired kvm (table_of kvm vm m).bus
        × account.Holds vm (table_of kvm vm m).world.machine.kernel
        × ((table_of kvm vm m).world.user.vm ≡ vm)
  table_of-kept vm m o =
      let built = build_table-entries kvm cpuid_leaves _ refl in
      (built.3, build_table-kernel kvm (account.stable vm) cpuid_leaves _ refl o, built.2)

  install_cpuid-Holds :
      (v : VCpu) (entries : List CpuidEntry) (vm : VirtualMachine) (m : Machine K)
      → account.Holds vm m.kernel
      → account.Holds vm (install_cpuid kvm v entries m).1.kernel
  unfolding install_cpuid
  install_cpuid-Holds v entries vm m = account.cpuid_set v.fd _ entries vm m.kernel

  run_guest-Fine :
      (fuel : ℕ) (v : VCpu) (vm : VirtualMachine) (m : Machine K) (l : Left K)
      → account.Holds vm m.kernel
      → run_guest kvm fuel v vm m ≡ some l
      → Fine l
  unfolding run_guest
  run_guest-Fine fuel v vm m l o e =
      let t = table_of kvm vm m in
      let (wired, owned, same_vm) = table_of-kept vm m o in
      let (ec, m') = install_cpuid kvm v t.entries t.world.machine in
      let still = install_cpuid-Holds v t.entries vm t.world.machine owned in
      let w : World K ProgramState = record { machine = m'; user = t.world.user } in
      failed-Fine (ec == no_error) (fuzz_guest kvm fuel v t w) vm m' l e
        (fuzz_guest-Fine fuel v t w l wired (rw same_vm still)) still

  first_vcpu-Fine :
      (fuel : ℕ) (vm : VirtualMachine) (m : Machine K) (l : Left K)
      → account.Holds vm m.kernel
      → first_vcpu kvm fuel vm m ≡ some l
      → Fine l
  unfolding first_vcpu
  first_vcpu-Fine fuel vm m l o e =
      let (v, has, e1) = bind-some (front vm.vcpus) _ l e in run_guest-Fine fuel v vm m l o e1

  pub load_guest-Fine :
      (fuel : ℕ) (guest : List ℕ) (vm : VirtualMachine) (m : Machine K) (l : Left K)
      → account.Holds vm m.kernel
      → load_guest kvm fuel guest vm m ≡ some l
      → Fine l
  unfolding load_guest
  load_guest-Fine fuel [] vm m l o e =
      failed-Fine false none vm m l e (λ x. absurd (let no : none ≢ some l = λ y. cc in no x)) o
  load_guest-Fine fuel (b ∷ bs) vm m l o e =
      let (r, loaded, e1) = bind-some (load_bytes kvm (b ∷ bs) 0x1000 (2 ^ 19) vm m) _ l e in
      let owned = load_bytes-Holds kvm account (b ∷ bs) 0x1000 (2 ^ 19) vm m r loaded o in
      failed-Fine (r.0.0 == no_error) _ r.0.1 r.1 l e1 (first_vcpu-Fine fuel r.0.1 r.1 l owned)
        owned
