-- ===== src/Main/CpuidTable/Installed.antt =====
-- Which CPUID table src/main.cpp installs, and which one it logs.
use min_bp.Prelude.{
  ℕ, ◌%◌, ◌^◌, ◌==◌, ==_iff, ◌≡◌, refl, ap, ◌∙◌, min, if◌then◌else◌, Bool-cases, inl, inr, List, [],
  ◌∷◌, ◌++◌, map,
}
use min_bp.Event.{EventPayload, HvEvent}
use min_bp.Kvm.{World, Kvm, CpuidEntry, set_kernel}
use min_bp.EventDispatcher
use min_bp.EventDispatcher.{deliver, publish}
use min_bp.VmiAgent.{IntrospectionEvent, handle_hv_event}
use min_bp.Main.State.{ProgramState}
use min_bp.Main.Wiring.{Bus, agent_handler, print_event, wire}
use min_bp.Main.CpuidTable.{Table, mask_entry, event_of, host_entry, add_leaf, build_table}

append_step : {A : Type 0} (xs : List A) (y : A) (ys : List A) → (xs ++ y ∷ []) ++ ys ≡ xs ++ y ∷ ys
append_step [] y ys = refl
append_step (x ∷ xs) y ys = ap (λ r. x ∷ r) (append_step xs y ys)

append_none : {A : Type 0} (xs : List A) → xs ≡ xs ++ []
append_none [] = refl
append_none (x ∷ xs) = ap (λ r. x ∷ r) (append_none xs)

abbrev pub payloads_of : List IntrospectionEvent → List EventPayload
payloads_of log = map (λ (e : IntrospectionEvent). e.base.payload) log

payloads-append :
    (xs : List IntrospectionEvent) (y : IntrospectionEvent)
    → payloads_of (xs ++ y ∷ []) ≡ payloads_of xs ++ y.base.payload ∷ []
payloads-append [] y = refl
payloads-append (x ∷ xs) y = ap (λ r. x.base.payload ∷ r) (payloads-append xs y)

-- The payloads in the log of the agent.
abbrev pub payloads : {K : Type 0} → World K ProgramState → List EventPayload
payloads w = payloads_of w.user.agent.event_log

module _ {K : Type 0} (kvm : Kvm K) where
  -- A dispatcher with the two subscribers of the program.
  abbrev pub IsWired : Bus kvm → Type 0
  IsWired d = d.subscriptions ≡ (wire kvm).1.subscriptions

  deliver-wired :
      (ev : HvEvent) (w : World K ProgramState)
      → deliver ev (wire kvm).1.subscriptions w ≡ print_event kvm ev (agent_handler kvm ev w)
  unfolding deliver wire EventDispatcher.accepts
  deliver-wired ev w = refl

  pub publish-IsWired :
      (ev : HvEvent) (d : Bus kvm) (w : World K ProgramState)
      → IsWired d
      → ((publish ev d w).1 ≡ print_event kvm ev (agent_handler kvm ev w))
        × IsWired (publish ev d w).0
  unfolding publish
  publish-IsWired ev d w h = (rw h (deliver-wired ev w), h)

  agent_handler-logs :
      (ev : HvEvent) (w : World K ProgramState)
      → (payloads (agent_handler kvm ev w) ≡ payloads w ++ ev.payload ∷ [])
        × ((agent_handler kvm ev w).user.device ≡ w.user.device)
        × ((agent_handler kvm ev w).user.vm ≡ w.user.vm)
  unfolding agent_handler handle_hv_event
  agent_handler-logs ev w = (payloads-append w.user.agent.event_log _, refl, refl)

  -- The entry of a leaf: what the host's CPUID leaves in the four registers for subleaf 0, unchanged.
  abbrev pub installed_entry : ℕ → CpuidEntry
  installed_entry leaf = record {
    function = leaf;
    index = 0;
    flags = 0;
    eax = (kvm.cpuid leaf 0).0;
    ebx = (kvm.cpuid leaf 0).1;
    ecx = (kvm.cpuid leaf 0).2;
    edx = (kvm.cpuid leaf 0).3;
  }

  -- The payload of a leaf: the same values, but for leaf 0 with EAX at most 11, and for leaf 1 without
  -- bit 31 of ECX.
  abbrev pub logged_payload : ℕ → EventPayload
  logged_payload leaf = EventPayload.cpuid (record {
    leaf = leaf;
    subleaf = 0;
    eax = if leaf == 0 then min (kvm.cpuid leaf 0).0 11 else (kvm.cpuid leaf 0).0;
    ebx = (kvm.cpuid leaf 0).1;
    ecx = if leaf == 1 then (kvm.cpuid leaf 0).2 % 2 ^ 31 else (kvm.cpuid leaf 0).2;
    edx = (kvm.cpuid leaf 0).3;
  })

  logged-mask_entry :
      (leaf : ℕ)
      → EventPayload.cpuid (event_of (mask_entry (host_entry kvm leaf))) ≡ logged_payload leaf
  unfolding host_entry
  logged-mask_entry leaf = elim (Bool-cases (leaf == 0)) [
    | inl e ↦ rw ((==_iff leaf 0).0 e) refl
    | inr e ↦ elim (Bool-cases (leaf == 1)) [
      | inl f ↦ rw ((==_iff leaf 1).0 f) refl
      | inr f ↦ rw (e, f) refl
    ]
  ]

  pub add_leaf-IsWired :
      (leaf : ℕ) (t : Table kvm)
      → IsWired t.bus
      → IsWired (add_leaf kvm leaf t).bus
        × ((add_leaf kvm leaf t).entries ≡ t.entries ++ installed_entry leaf ∷ [])
        × (payloads (add_leaf kvm leaf t).world ≡ payloads t.world ++ logged_payload leaf ∷ [])
        × ((add_leaf kvm leaf t).world.user.vm ≡ t.world.user.vm)
  unfolding add_leaf host_entry
  add_leaf-IsWired leaf t h =
      let w = record t.world {
        machine = set_kernel (kvm.now t.world.machine.kernel).1 t.world.machine;
      } in
      let published = publish-IsWired _ t.bus w h in
      (
        published.1,
        refl,
        ap payloads published.0
            ∙ (agent_handler-logs _ w).0
            ∙ ap (λ p. payloads t.world ++ p ∷ []) (logged-mask_entry leaf),
        ap (λ (u : World K ProgramState). u.user.vm) published.0 ∙ (agent_handler-logs _ w).2,
      )

  -- The loop over `leaves`, from any state of it with the program's two subscribers, pushes for each
  -- leaf what the host's CPUID gives, unchanged, in the order of the leaves. The agent logs one event
  -- for each leaf in the same order, whose payload has the same values, but for leaf 0 with EAX at most 11 and for
  -- leaf 1 without bit 31 of ECX. The
  -- subscribers and the agent's VM stay.
  pub build_table-entries :
      (leaves : List ℕ) (t : Table kvm)
      → IsWired t.bus
      → let t' = build_table kvm leaves t in
        (t'.entries ≡ t.entries ++ map installed_entry leaves)
        × (payloads t'.world ≡ payloads t.world ++ map logged_payload leaves)
        × (t'.world.user.vm ≡ t.world.user.vm)
        × IsWired t'.bus
  unfolding build_table
  build_table-entries [] t h = (append_none t.entries, append_none (payloads t.world), refl, h)
  build_table-entries (leaf ∷ leaves) t h =
      let one = add_leaf-IsWired leaf t h in
      let rest = build_table-entries leaves (add_leaf kvm leaf t) one.0 in
      (
        rest.0 ∙ ap (λ l. l ++ map installed_entry leaves) one.1 ∙ append_step t.entries _ _,
        rest.1
            ∙ ap (λ l. l ++ map logged_payload leaves) one.2
            ∙ append_step (payloads t.world) _ _,
        rest.2 ∙ one.3,
        rest.3,
      )
