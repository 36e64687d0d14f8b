-- ===== src/Main/Upkeep/Events.antt =====
-- Where the events of the runs of src/main.cpp go.
use min_bp.Prelude.{
  false, ℕ, ◌+◌, ◌%◌, ◌^◌, ◌<◌, ◌≡◌, refl, ap, ◌∙◌, sym, Bool, List, [], ◌∷◌, ◌++◌, map, length,
  length-append, Option, none, some, subst, arith,
}
use min_bp.Event.{HvEvent, EventType, EventPayload}
use min_bp.EventDispatcher.{publish}
use min_bp.Kvm.{World, Kvm}
use min_bp.VmiAgent.{VmiAgent, IntrospectionEvent, handle_hv_event}
use min_bp.VmiAgent.Dump.Log.{AllEntries}
use min_bp.VmiAgent.Dump.Entries.{Widths, handle_hv_event-AllEntries}
use min_bp.VmiAgent.Log.{map-append}
use min_bp.InstructionTrapper.{Session, publish_to}
use min_bp.Main.State.{ProgramState}
use min_bp.Main.Wiring.{Bus, watched, agent_handler}
use min_bp.Main.CpuidTable.Installed.{IsWired, publish-IsWired}
use min_bp.Main.Upkeep.{BusKept}

append_nothing : (l : List HvEvent) → l ≡ l ++ []
append_nothing [] = refl
append_nothing (x ∷ xs) = ap (λ r. x ∷ r) (append_nothing xs)

append_both : (l es fs : List HvEvent) → (l ++ es) ++ fs ≡ l ++ (es ++ fs)
append_both [] es fs = refl
append_both (x ∷ xs) es fs = ap (λ r. x ∷ r) (append_both xs es fs)

-- The events of a vCPU.
abbrev pub AllFrom : ℕ → List HvEvent → Type 0
AllFrom id [] = Unit {0}
AllFrom id (e ∷ es) = (e.vcpu_id ≡ id) × AllFrom id es

AllFrom-append :
    (id : ℕ) (es fs : List HvEvent) → AllFrom id es → AllFrom id fs → AllFrom id (es ++ fs)
AllFrom-append id [] fs p q = q
AllFrom-append id (e ∷ es) fs p q = (p.0, AllFrom-append id es fs p.1 q)

module _ {K : Type 0} (kvm : Kvm K) where
  abbrev pub log_of : Session K ProgramState → List HvEvent
  log_of s = map (λ (e : IntrospectionEvent). e.base) s.world.user.agent.event_log

  abbrev pub count_of : Option (Bus kvm) → ℕ
  count_of none = 0
  count_of (some d) = d.published_count

  -- The agent dumps no memory, and its entries can be read back from its file.
  abbrev pub IsReadable : VmiAgent (Unit {0}) → Type 0
  IsReadable a = (a.mem_dump_enabled ≡ false) × AllEntries a.event_log

  pub agent_handler-IsReadable :
      (ev : HvEvent) (w : World K ProgramState)
      → Widths kvm
      → ev.vcpu_id < 2 ^ 64
      → IsReadable w.user.agent
      → IsReadable (agent_handler kvm ev w).user.agent
  unfolding agent_handler handle_hv_event
  agent_handler-IsReadable ev w widths id p =
      (p.0, handle_hv_event-AllEntries kvm widths ev (watched kvm w) id p.0 p.1)

  -- The events that the program's subscribers get from one session to the other: the agent's log has
  -- them, once and in order, the logger has printed the same ones in the same order, the dispatcher
  -- has counted them, and all come from the trapper's vCPU.
  pub record Adds (s s' : Session K ProgramState) : Type 0 where
    pub events : List HvEvent
    pub logs : log_of s' ≡ log_of s ++ events
    pub prints : s'.world.user.printed ≡ s.world.user.printed ++ events
    pub counts :
        count_of s.trapper.dispatch < 2 ^ 64
        → count_of s'.trapper.dispatch ≡ (count_of s.trapper.dispatch + length events) % 2 ^ 64
    pub same_vcpu : s'.trapper.vcpu ≡ s.trapper.vcpu
    pub from_vcpu : AllFrom s.trapper.vcpu.id events
    pub readable :
        Widths kvm
        → s.trapper.vcpu.id < 2 ^ 64
        → IsReadable s.world.user.agent
        → IsReadable s'.world.user.agent

  -- No event.
  pub no_event-Adds :
      (s s' : Session K ProgramState)
      → s'.world.user.agent ≡ s.world.user.agent
      → s'.world.user.printed ≡ s.world.user.printed
      → s'.trapper.dispatch ≡ s.trapper.dispatch
      → s'.trapper.vcpu ≡ s.trapper.vcpu
      → Adds s s'
  no_event-Adds s s' a p d v = record {
    events = [];
    logs =
        ap (λ g. map (λ (e : IntrospectionEvent). e.base) g) (ap (λ g. g.event_log) a)
        ∙ append_nothing (log_of s);
    prints = p ∙ append_nothing s.world.user.printed;
    counts = λ h. ap count_of d ∙ omega (arith, h);
    same_vcpu = v;
    from_vcpu = tt;
    readable = λ widths id h. subst IsReadable (sym a) h;
  }

  pub then-Adds : (s t u : Session K ProgramState) → Adds s t → Adds t u → Adds s u
  then-Adds s t u p q = record {
    events = p.events ++ q.events;
    logs = q.logs ∙ ap (λ l. l ++ q.events) p.logs ∙ append_both (log_of s) p.events q.events;
    prints =
        q.prints
        ∙ ap (λ l. l ++ q.events) p.prints
        ∙ append_both s.world.user.printed p.events q.events;
    counts = λ h.
        let first = p.counts h in
        q.counts (omega (arith, first)) ∙ omega (arith, first, length-append p.events q.events);
    same_vcpu = q.same_vcpu ∙ p.same_vcpu;
    from_vcpu =
        AllFrom-append s.trapper.vcpu.id p.events q.events p.from_vcpu
          (subst (λ (n : ℕ). AllFrom n q.events) (ap (λ v. v.id) p.same_vcpu) q.from_vcpu);
    readable = λ widths id h.
        q.readable widths (subst (λ (n : ℕ). n < 2 ^ 64) (sym (ap (λ v. v.id) p.same_vcpu)) id)
          (p.readable widths id h);
  }

  agent_handler-log :
      (ev : HvEvent) (w : World K ProgramState)
      → map (λ (e : IntrospectionEvent). e.base) (agent_handler kvm ev w).user.agent.event_log
        ≡ map (λ (e : IntrospectionEvent). e.base) w.user.agent.event_log ++ ev ∷ []
  unfolding agent_handler handle_hv_event
  agent_handler-log ev w = map-append w.user.agent.event_log _

  agent_handler-printed :
      (ev : HvEvent) (w : World K ProgramState)
      → (agent_handler kvm ev w).user.printed ++ ev ∷ [] ≡ w.user.printed ++ ev ∷ []
  unfolding agent_handler
  agent_handler-printed ev w = refl

  published-Adds :
      (ev : HvEvent) (d : Bus kvm) (w : World K ProgramState) (s : Session K ProgramState)
      → s.trapper.dispatch ≡ some d
      → IsWired kvm d
      → w.user ≡ s.world.user
      → ev.vcpu_id ≡ s.trapper.vcpu.id
      → Adds s (record {
        trapper = record s.trapper { dispatch = some (publish ev d w).0 };
        world = (publish ev d w).1;
      })
  unfolding publish
  published-Adds ev d w s e wired user id =
      let to_agent = publish-IsWired kvm ev d w wired in
      record {
        events = ev ∷ [];
        logs =
            ap
              (λ (u : World K ProgramState).
                map (λ (e : IntrospectionEvent). e.base) u.user.agent.event_log)
              to_agent.0
            ∙ agent_handler-log ev w
            ∙ ap
                (λ (u : ProgramState).
                  map (λ (e : IntrospectionEvent). e.base) u.agent.event_log ++ ev ∷ [])
                user;
        prints =
            ap (λ (u : World K ProgramState). u.user.printed) to_agent.0
            ∙ agent_handler-printed ev w
            ∙ ap (λ (u : ProgramState). u.printed ++ ev ∷ []) user;
        counts = λ h. ap (λ o. (count_of o + 1) % 2 ^ 64) (sym e);
        same_vcpu = refl;
        from_vcpu = (id, tt);
        readable = λ widths fits p.
            subst (λ (u : World K ProgramState). IsReadable u.user.agent) (sym to_agent.0)
              (agent_handler-IsReadable ev w widths (subst (λ (n : ℕ). n < 2 ^ 64) (sym id) fits)
                (subst (λ (u : ProgramState). IsReadable u.agent) (sym user) p));
      }

  -- One event, if there is a dispatcher.
  sent :
      (o : Option (Bus kvm)) (type : EventType) (payload : EventPayload) (with_rip : Bool)
      (s : Session K ProgramState)
      → s.trapper.dispatch ≡ o
      → BusKept kvm o
      → Adds s (publish_to kvm o type payload with_rip s)
  unfolding publish_to
  sent none type payload with_rip s e b = no_event-Adds s s refl refl refl refl
  sent (some d) type payload with_rip s e b = published-Adds _ d _ s e b refl refl

  pub publish_to-Adds :
      (type : EventType) (payload : EventPayload) (with_rip : Bool) (s : Session K ProgramState)
      → BusKept kvm s.trapper.dispatch
      → Adds s (publish_to kvm s.trapper.dispatch type payload with_rip s)
  publish_to-Adds type payload with_rip s b = sent s.trapper.dispatch type payload with_rip s refl b
