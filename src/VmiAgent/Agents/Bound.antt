-- ===== src/VmiAgent/Agents/Bound.antt =====
-- Which subscription of src/EventDispatcher.cpp belongs to which agent of src/VmiAgent.cpp.
use min_bp.Prelude.{
  ℕ, ◌+◌, ◌<◌, ◌==◌, ◌≡◌, Bool, true, List, [], ◌∷◌, map, Option, none, some, if◌then◌else◌,
}
use min_bp.Event.{HvEvent}
use min_bp.Kvm.{Kvm}
use min_bp.EventDispatcher.{Subscription}
use min_bp.VmiAgent.{IntrospectionEvent}
use min_bp.VmiAgent.Agents.{Cell, Agents, call}

-- What the subscriptions depend on: whether the object at an address is there, and if its pointer
-- to the dispatcher is set, with the id that it holds.
abbrev pub held_by : {C : Type 0} → Option (Cell C) → Option (Bool × ℕ)
held_by none = none
held_by (some cell) = some (cell.dispatch, cell.agent.sub_id)

abbrev pub events_of : {C : Type 0} → Option (Cell C) → List HvEvent
events_of none = []
events_of (some cell) = map (λ (e : IntrospectionEvent). e.base) cell.agent.event_log

module _ {K C : Type 0} where
  abbrev pub shape : Agents K C → ℕ → Option (Bool × ℕ)
  shape w a = held_by (w.cells a)

  -- The events in the log of the object at an address.
  abbrev pub log_at : Agents K C → ℕ → List HvEvent
  log_at w a = events_of (w.cells a)

  -- A handler that does not touch the agents.
  pub record LeavesAgents (h : HvEvent → Agents K C → Agents K C) : Type 0 where
    pub same_cells : (event : HvEvent) (w : Agents K C) → (h event w).cells ≡ w.cells
    pub same_fault : (event : HvEvent) (w : Agents K C) → (h event w).fault ≡ w.fault

  -- How often an id occurs.
  abbrev pub uses : ℕ → List (Subscription (Agents K C)) → ℕ
  uses id [] = 0
  uses id (s ∷ ss) = (if s.id == id then 1 else 0) + uses id ss

  module _ (kvm : Kvm K) where
    -- A subscription is another client's, or the closure of an agent that is alive and holds its id.
    -- `who` gives the agent that an id was given to.
    pub data Owner (who : ℕ → Option ℕ) (held : ℕ → Option (Bool × ℕ))
        (s : Subscription (Agents K C)) : Type 0 where
      client : who s.id ≡ none → LeavesAgents s.handler → Owner who held s
      closure :
          (a : ℕ)
          → who s.id ≡ some a
          → s.filter ≡ none
          → s.handler ≡ call kvm a
          → held a ≡ some (true, s.id)
          → Owner who held s

    abbrev pub AllOwned :
        (ℕ → Option ℕ) → (ℕ → Option (Bool × ℕ)) → ℕ → List (Subscription (Agents K C)) → Type 0
    AllOwned who held next [] = Unit {0}
    AllOwned who held next (s ∷ ss) =
        (0 < s.id) × (s.id < next) × Owner who held s × AllOwned who held next ss

    -- Every subscription has its owner, and every agent with a dispatcher has exactly one subscription.
    pub record Bound (who : ℕ → Option ℕ) (held : ℕ → Option (Bool × ℕ)) (next : ℕ)
        (ss : List (Subscription (Agents K C))) : Type 0 where
      pub fresh : 0 < next
      pub owned : AllOwned who held next ss
      pub given :
          (a id : ℕ)
          → held a ≡ some (true, id)
          → (who id ≡ some a) × (0 < id) × (id < next) × (uses id ss ≡ 1)
