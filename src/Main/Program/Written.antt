-- ===== src/Main/Program/Written.antt =====
-- What stands in the file that `main` of src/main.cpp writes when it returns 0.
use Prim.Native.String.{String}
use min_bp.Prelude.{
  ℕ, ◌^◌, ◌<◌, ◌≡◌, refl, ap, ◌∙◌, sym, subst, List, [], ◌∷◌, ◌++◌, map, length, some, arith, inl,
  inr,
}
use min_bp.Prelude.Result.{Result, ok, err, Result-cases}
use min_bp.Event.{HvEvent}
use min_bp.Kvm.{Machine, World, Kvm, set_kernel}
use min_bp.VCpu.{VCpu}
use min_bp.VirtualMachine.{VirtualMachine}
use min_bp.KvmSystem.{KvmSystem, create_vm}
use min_bp.GuestLoader.Numbered.{AllZero, load_bytes-AllZero}
use min_bp.InstructionTrapper.{Session}
use min_bp.VmiAgent.{IntrospectionEvent, attach, on_event}
use min_bp.VmiAgent.Dump.{dump_event_log}
use min_bp.VmiAgent.Dump.Reading.{read_log}
use min_bp.VmiAgent.Dump.Roundtrip.{entry_of}
use min_bp.VmiAgent.Dump.Log.{read_log-dump_event_log}
use min_bp.VmiAgent.Dump.Entries.{Widths}
use min_bp.Main.State.{ProgramState}
use min_bp.Main.Wiring.{wire}
use min_bp.Main.CpuidTable.{Table, cpuid_leaves, add_leaf, build_table}
use min_bp.Main.CpuidTable.Installed.{
  IsWired, payloads, payloads_of, logged_payload, publish-IsWired, add_leaf-IsWired,
  build_table-entries,
}
use min_bp.Main.Upkeep.{Kept}
use min_bp.Main.Upkeep.Isolation.{Anything, Anything-Stable}
use min_bp.Main.Upkeep.Events.{Adds, IsReadable, log_of, agent_handler-IsReadable}
use min_bp.Main.Upkeep.Logged.{Series-Adds}
use min_bp.Main.Program.{Left, Ended, front, session_of, table_of, main}
use min_bp.Main.Program.Running.{Fuzzed}
use min_bp.Main.Program.Outcome.{Success, main_iff}

payloads_of-base :
    (log : List IntrospectionEvent)
    → payloads_of log
      ≡ map (λ (e : HvEvent). e.payload) (map (λ (e : IntrospectionEvent). e.base) log)
payloads_of-base [] = refl
payloads_of-base (x ∷ log) = ap (λ r. x.base.payload ∷ r) (payloads_of-base log)

payloads-append :
    (xs ys : List HvEvent)
    → map (λ (e : HvEvent). e.payload) (xs ++ ys)
      ≡ map (λ (e : HvEvent). e.payload) xs ++ map (λ (e : HvEvent). e.payload) ys
payloads-append [] ys = refl
payloads-append (x ∷ xs) ys = ap (λ r. x.payload ∷ r) (payloads-append xs ys)

front-id : (vs : List VCpu) (v : VCpu) → AllZero vs → front vs ≡ some v → v.id ≡ 0
front-id [] v z e = absurd (cc)
front-id (u ∷ vs) v z e = let same : u ≡ v = cc in subst (λ (w : VCpu). w.id ≡ 0) same z.0

module _ {K : Type 0} (kvm : Kvm K) where
  -- The session in which the last run of a good run of `main` ended.
  abbrev pub last_of :
      {guest : List ℕ} {m : Machine K} {e : Ended K}
      → Success kvm guest m e
      → Session K ProgramState
  last_of s = s.ran.ran.fuzzed.last

  -- A text is that of the log, since reading it gives the entries of the log, in order. The log begins
  -- with the leaves of the CPUID table.
  pub record HasLog (log : List IntrospectionEvent) (text : String) : Type 0 where
    pub later : List HvEvent
    pub begins :
        payloads_of log
        ≡ map (logged_payload kvm) cpuid_leaves ++ map (λ (e : HvEvent). e.payload) later
    pub reads : (fuel : ℕ) → length log < fuel → read_log fuel text ≡ some (map entry_of log, "")

  -- The session that the runs start from.
  started-Kept :
      (v : VCpu) (vm : VirtualMachine) (m m' : Machine K)
      → Kept kvm Anything vm (
          session_of kvm v
            (table_of kvm vm m)
            (record { machine = m'; user = (table_of kvm vm m).world.user }))
  started-Kept v vm m m' =
      let (_, _, same, wired) = build_table-entries kvm cpuid_leaves _ refl in
      record {
        cpuid = refl;
        io = (refl, refl);
        mmio = record { reads = refl; writes = refl };
        bus = wired;
        same_vm = same;
        kernel = tt;
      }

  table_of-payloads :
      (vm : VirtualMachine) (m : Machine K)
      → payloads (table_of kvm vm m).world ≡ map (logged_payload kvm) cpuid_leaves
  unfolding wire attach on_event
  table_of-payloads vm m = (build_table-entries kvm cpuid_leaves _ refl).1

  create_vm-AllZero :
      (sys : KvmSystem) (k k' : K) (vm : VirtualMachine)
      → create_vm kvm sys k ≡ (ok vm, k')
      → AllZero vm.vcpus
  unfolding create_vm
  create_vm-AllZero sys k k' vm e =
      let fits : Result VirtualMachine → Type 0 =
        λ r. elim r [ err x ↦ Unit {0} | ok w ↦ AllZero w.vcpus ] in
      subst (λ (r : Result VirtualMachine × K). fits r.0) e
        (elim (Result-cases (kvm.create_vm sys.fd k).0) [
          | inr (x, q) ↦ rw (q, create_vm) tt
          | inl (n, q) ↦ rw (q, create_vm) tt
        ])

module _ {K : Type 0} (kvm : Kvm K) (widths : Widths kvm) where
  add_leaf-IsReadable :
      (leaf : ℕ) (t : Table kvm)
      → IsWired kvm t.bus
      → IsReadable kvm t.world.user.agent
      → IsReadable kvm (add_leaf kvm leaf t).world.user.agent
  unfolding add_leaf
  add_leaf-IsReadable leaf t wired p =
      let w = record t.world {
        machine = set_kernel (kvm.now t.world.machine.kernel).1 t.world.machine;
      } in
      subst (λ (u : World K ProgramState). IsReadable kvm u.user.agent)
        (sym (publish-IsWired kvm _ t.bus w wired).0)
        (agent_handler-IsReadable kvm _ w widths (omega arith) p)

  build_table-IsReadable :
      (leaves : List ℕ) (t : Table kvm)
      → IsWired kvm t.bus
      → IsReadable kvm t.world.user.agent
      → IsReadable kvm (build_table kvm leaves t).world.user.agent
  unfolding build_table
  build_table-IsReadable [] t wired p = p
  build_table-IsReadable (leaf ∷ leaves) t wired p =
      build_table-IsReadable leaves (add_leaf kvm leaf t) (add_leaf-IsWired kvm leaf t wired).0
        (add_leaf-IsReadable leaf t wired p)

  wire-IsReadable : IsReadable kvm (wire kvm).0
  unfolding wire attach on_event
  wire-IsReadable = (refl, tt)

  Fuzzed-HasLog :
      (v : VCpu) (vm : VirtualMachine) (m m' : Machine K) (l : Left K)
      → v.id ≡ 0
      → (f : Fuzzed kvm v
          (table_of kvm vm m)
          (record { machine = m'; user = (table_of kvm vm m).world.user })
          l)
      → (text : String) × (l.events_file ≡ some text)
        × HasLog kvm f.last.world.user.agent.event_log text
  Fuzzed-HasLog v vm m m' l id f =
      let s =
        session_of kvm v (table_of kvm vm m)
          (record { machine = m'; user = (table_of kvm vm m).world.user }) in
      let added : Adds kvm s f.last =
        Series-Adds kvm (Anything-Stable kvm) vm f.series (started-Kept kvm v vm m m') in
      let log = f.last.world.user.agent.event_log in
      let readable =
        added.readable widths (subst (λ (n : ℕ). n < 2 ^ 64) (sym id) (omega arith))
          (build_table-IsReadable cpuid_leaves _ refl wire-IsReadable) in
      (
        dump_event_log log,
        ap (λ (x : Left K). x.events_file) f.left,
        record {
          later = added.events;
          begins =
              payloads_of-base log
              ∙ ap (map (λ (e : HvEvent). e.payload)) added.logs
              ∙ payloads-append (log_of kvm s) added.events
              ∙ ap (λ l. l ++ map (λ (e : HvEvent). e.payload) added.events)
                  (sym (payloads_of-base s.world.user.agent.event_log)
                    ∙ table_of-payloads kvm vm m);
          reads = λ fuel enough. read_log-dump_event_log log fuel enough readable.1;
        },
      )

  -- When `main` returns 0, and the clock and the RIP fit 64 bits, its run is one in which nothing that
  -- it tests has failed, and vmi_events.json has been written. Reading the file, with more fuel than
  -- entries, gives the printed fields of every entry of the agent's log in the last session, in
  -- order, whatever the guest did. The payloads of this log begin with those of the nine leaves of
  -- the CPUID table, as the table is logged.
  pub main-HasLog :
      (fuel : ℕ) (guest : List ℕ) (m : Machine K) (e : Ended K)
      → main kvm fuel guest m ≡ some e
      → e.status ≡ 0
      → (s : Success kvm guest m e) × (text : String) × (e.events_file ≡ some text)
        × HasLog kvm (last_of kvm s).world.user.agent.event_log text
  main-HasLog fuel guest m e h z =
      let s : Success kvm guest m e = (main_iff kvm guest m e).0 (fuel, h, z) in
      let run = s.ran.ran in
      let zeros =
        load_bytes-AllZero kvm guest 0x1000 (2 ^ 19) s.vm _ _ s.ran.loaded
          (create_vm-AllZero kvm s.sys s.opened_kernel s.made_kernel s.vm s.made) in
      let (text, file, has) =
        Fuzzed-HasLog run.vcpu s.ran.loaded_vm s.ran.loaded_machine _ s.left
          (front-id s.ran.loaded_vm.vcpus run.vcpu zeros run.first) run.fuzzed in
      (
        s,
        text,
        ap (λ (x : Ended K). x.events_file) s.ended
            ∙ sym (ap (λ (x : Left K). x.events_file) run.fuzzed.left)
            ∙ file,
        has,
      )
