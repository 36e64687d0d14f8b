-- ===== src/VmiAgent/Agents/Lifetime.antt =====
-- Agents of src/VmiAgent.cpp that are made, used and destroyed, and never moved.
use min_bp.Prelude.{
  ℕ, ◌+◌, ◌^◌, ◌<◌, ◌≡◌, refl, ap, ◌∙◌, sym, Bool, true, false, [], ◌∷◌, ◌++◌, Option, none, some,
  if◌then◌else◌, arith,
}
use min_bp.Event.{HvEvent, EventType}
use min_bp.Kvm.{Kvm, Machine}
use min_bp.VirtualMachine.{VirtualMachine}
use min_bp.EventDispatcher.{
  Subscription, EventDispatcher, add, subscribe_all, unsubscribe, publish, deliver,
}
use min_bp.EventDispatcher
use min_bp.VmiAgent.{VmiAgent}
use min_bp.VmiAgent.Agents.{Cell, Agents, make, destroy, change}
use min_bp.VmiAgent.Agents.Bound.{held_by, shape, log_at, LeavesAgents, uses}
use min_bp.VmiAgent.Agents.Delivery.{times, Delivered, deliver-Delivered}
use min_bp.VmiAgent.Agents.Steps.{
  Setting, World, world, IsBound, publish-IsBound, sets-IsBound, subscribes-IsBound,
  destroys-IsBound, makes-IsBound,
}

module _ {K C : Type 0} (kvm : Kvm K) where
  -- What can happen to the agents: one is made where none is, with or without the dispatcher, one
  -- that is alive is destroyed or set, an event is published, or another client subscribes.
  pub data Step (s : World K C) : World K C → Type 0 where
    makes :
        (a : ℕ) (vm : Option VirtualMachine) (dispatch : Bool)
        → s.agents.cells a ≡ none
        → s.dispatcher.next_id + 1 < 2 ^ 32
        → Step s (world (make kvm a vm dispatch s.dispatcher s.agents))
    destroys :
        (a : ℕ) (cell : Cell C)
        → s.agents.cells a ≡ some cell
        → Step s (world (destroy a s.dispatcher s.agents))
    sets :
        (a : ℕ) (cell : Cell C) (f : VmiAgent C → VmiAgent C)
        → s.agents.cells a ≡ some cell
        → Setting C f
        → Step s (record s { agents = change a f s.agents })
    publishes : (event : HvEvent) → Step s (world (publish event s.dispatcher s.agents))
    subscribes :
        (filter : Option EventType) (h : HvEvent → Agents K C → Agents K C)
        → LeavesAgents h
        → s.dispatcher.next_id + 1 < 2 ^ 32
        → Step s (record s { dispatcher = (add filter h s.dispatcher).0 })

  pub data Reach (s : World K C) : World K C → Type 0 where
    here : Reach s s
    more : {t u : World K C} → Reach s t → Step t u → Reach s u

  Step-IsBound : {s t : World K C} → Step s t → IsBound kvm s → IsBound kvm t
  Step-IsBound {s = s} (makes a vm dispatch e room) b = makes-IsBound kvm a vm dispatch s e room b
  Step-IsBound {s = s} (destroys a cell e) b = destroys-IsBound kvm a cell s e b
  Step-IsBound {s = s} (sets a cell f e h) b = sets-IsBound kvm a cell f s e h b
  Step-IsBound {s = s} (publishes event) b = publish-IsBound kvm event s b
  Step-IsBound {s = s} (subscribes filter h l room) b = subscribes-IsBound kvm filter h s l room b

  pub Reach-IsBound : {s t : World K C} → Reach s t → IsBound kvm s → IsBound kvm t
  Reach-IsBound here b = b
  Reach-IsBound (more r st) b = Step-IsBound st (Reach-IsBound r b)

  -- No agent, and a new dispatcher.
  abbrev pub no_agents : Machine K → C → World K C
  no_agents machine c = record {
    dispatcher = EventDispatcher.new;
    agents = record { cells = λ a. none; machine = machine; client = c; fault = false };
  }

  pub no_agents-IsBound : (machine : Machine K) (c : C) → IsBound kvm (no_agents machine c)
  no_agents-IsBound machine c =
      ((λ id. none, record { fresh = omega arith; owned = tt; given = λ a id h. cc h }), refl)

  logged_once :
      (event : HvEvent) (s : World K C) (a : ℕ) (cell : Cell C)
      → IsBound kvm s
      → s.agents.cells a ≡ some cell
      → log_at (publish event s.dispatcher s.agents).1 a
        ≡ (if cell.dispatch then log_at s.agents a ++ event ∷ [] else log_at s.agents a)
  unfolding publish
  logged_once event s a cell ((who, b), sound) e = by_dispatch cell.dispatch (ap held_by e)
    where
      d :
          Delivered kvm who
            (shape s.agents)
            event
            (λ id. uses id s.dispatcher.subscriptions)
            s.agents
            (deliver event s.dispatcher.subscriptions s.agents)
      d =
          deliver-Delivered kvm who (shape s.agents) event s.dispatcher.next_id
            s.dispatcher.subscriptions s.agents (λ p. refl) b.owned

      by_dispatch :
          (dispatch : Bool)
          → shape s.agents a ≡ some (dispatch, cell.agent.sub_id)
          → log_at (deliver event s.dispatcher.subscriptions s.agents) a
            ≡ (if dispatch then log_at s.agents a ++ event ∷ [] else log_at s.agents a)
      by_dispatch true live =
          let g = b.given a cell.agent.sub_id live in
          d.logs a cell.agent.sub_id live g.0 ∙ ap (λ n. log_at s.agents a ++ times n event) g.3
      by_dispatch false live = d.silent a (λ id h g. cc (sym live ∙ h))

  -- Whatever agents are made, set and destroyed, in any order and with events and other clients in
  -- between: as long as none is moved and the ids do not run out, no closure is ever called whose
  -- agent is gone, and the next event is logged by every agent that is alive and was given the
  -- dispatcher, once and at the end of its log, and by no agent without a dispatcher.
  pub Reach-logs :
      (machine : Machine K) (c : C) (t : World K C) (event : HvEvent)
      → Reach (no_agents machine c) t
      → ((publish event t.dispatcher t.agents).1.fault ≡ false)
        × ((a : ℕ) (cell : Cell C)
            → t.agents.cells a ≡ some cell
            → log_at (publish event t.dispatcher t.agents).1 a
              ≡ (if cell.dispatch then log_at t.agents a ++ event ∷ [] else log_at t.agents a))
  Reach-logs machine c t event r =
      let b = Reach-IsBound r (no_agents-IsBound machine c) in
      ((publish-IsBound kvm event t b).1, λ a cell e. logged_once event t a cell b e)
