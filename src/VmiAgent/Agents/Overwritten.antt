-- ===== src/VmiAgent/Agents/Overwritten.antt =====
-- An agent of include/hv/VmiAgent.h that a move assignment overwrites leaves its closure behind.
use min_bp.Prelude.{
  ℕ, ◌==◌, ==_iff, ◌≡◌, refl, ap, ◌∙◌, Bool, true, false, not, List, [], ◌∷◌, Option, none, some,
  arith, keep_if, Bool-cases, inl, inr,
}
use min_bp.Event.{HvEvent}
use min_bp.Kvm.{Kvm, Machine}
use min_bp.EventDispatcher.{EventDispatcher, publish, deliver, unsubscribe}
use min_bp.VmiAgent.{IntrospectionEvent}
use min_bp.VmiAgent.Agents.{Cell, Agents, place, left_behind, destroy, move_assign}
use min_bp.VmiAgent.Agents.Bound.{held_by, shape, Bound}
use min_bp.VmiAgent.Agents.Delivery.{other_owner}
use min_bp.VmiAgent.Agents.Places.{place_here, place_elsewhere}
use min_bp.VmiAgent.Agents.Steps.{World}
use min_bp.VmiAgent.Agents.Lifetime.{Reach, no_agents, Reach-IsBound, no_agents-IsBound}
use min_bp.VmiAgent.Agents.Moved.{destroy_subscribed}
use min_bp.VmiAgent.Agents.Dangling.{Gone, deliver-Gone}

module _ {ℓ} {A : Type ℓ} where
  keep_if_again : (p : A → Bool) (xs : List A) → keep_if p (keep_if p xs) ≡ keep_if p xs
  keep_if_again p [] = refl
  keep_if_again p (x ∷ xs) = elim (Bool-cases (p x)) [
    | inl e ↦ rw e (rw e (ap (λ r. x ∷ r) (keep_if_again p xs)))
    | inr e ↦ rw e (keep_if_again p xs)
  ]

module _ {K C : Type 0} (kvm : Kvm K) where
  module _ (s : World K C) (from to : ℕ) (cell : Cell C) (left : Cell C) where
    abbrev assigned : ℕ → Option (Cell C)
    assigned = place (place s.agents.cells from (some left)) to (some cell)

    -- The objects after `from` and `to` are destroyed.
    abbrev one_gone : ℕ → Option (Cell C)
    one_gone = place assigned from none

    abbrev both_gone : ℕ → Option (Cell C)
    both_gone = place one_gone to none

    gone_elsewhere :
        (a : ℕ) → (a == to) ≡ false → (a == from) ≡ false → both_gone a ≡ s.agents.cells a
    gone_elsewhere a p q =
        place_elsewhere one_gone to none a p
        ∙ place_elsewhere assigned from none a q
        ∙ place_elsewhere (place s.agents.cells from (some left)) to (some cell) a p
        ∙ place_elsewhere s.agents.cells from (some left) a q

    both_gone-Gone : Gone kvm (shape s.agents) from to (record s.agents { cells = both_gone })
    both_gone-Gone = record {
      no_object = ap held_by (place_here one_gone to none);
      others = λ a p q. ap held_by (gone_elsewhere a p q);
    }

    fault_both_gone :
        (who : ℕ → Option ℕ) (event : HvEvent) (old : Cell C)
        → Bound kvm who (shape s.agents) s.dispatcher.next_id s.dispatcher.subscriptions
        → s.agents.cells from ≡ some cell
        → s.agents.cells to ≡ some old
        → cell.dispatch ≡ true
        → old.dispatch ≡ true
        → (from == to) ≡ false
        → (deliver event
            (keep_if
              (λ t. not (t.id == cell.agent.sub_id))
              (keep_if (λ t. not (t.id == cell.agent.sub_id)) s.dispatcher.subscriptions))
            (record s.agents { cells = both_gone })).fault
          ≡ true
    fault_both_gone who event old b at_from at_to h h' apart =
        let of_from : shape s.agents from ≡ some (true, cell.agent.sub_id) =
          ap held_by at_from ∙ ap (λ t. some (t, cell.agent.sub_id)) h in
        let of_to : shape s.agents to ≡ some (true, old.agent.sub_id) =
          ap held_by at_to ∙ ap (λ t. some (t, old.agent.sub_id)) h' in
        let g = b.given to old.agent.sub_id of_to in
        let owner = (b.given from cell.agent.sub_id of_from).0 in
        let different =
          other_owner who cell.agent.sub_id old.agent.sub_id (some from) to owner g.0
            (λ q. let x : from ≡ to = cc q in cc (apart, (==_iff from to).1 x)) in
        ap (λ ss. (deliver event ss (record s.agents { cells = both_gone })).fault)
          (keep_if_again (λ t. not (t.id == cell.agent.sub_id)) s.dispatcher.subscriptions)
        ∙ deliver-Gone kvm who (shape s.agents) event from to cell.agent.sub_id old.agent.sub_id
            of_from different g.0 s.dispatcher.next_id s.dispatcher.subscriptions b.owned
            (record s.agents { cells = both_gone }) (omega (arith, g.3)) both_gone-Gone

  -- An agent that subscribed is overwritten by the move assignment of another that subscribed, in any
  -- reachable state, and then both are destroyed. The subscription of the overwritten one stays: the
  -- next event calls its closure, whose object is gone, and until then nothing was wrong.
  pub move_assign_dangles :
      (machine : Machine K) (c : C) (s : World K C) (from to : ℕ) (cell old : Cell C)
      (callbacks : List (IntrospectionEvent → C → C)) (log : List IntrospectionEvent)
      (event : HvEvent)
      → Reach kvm (no_agents kvm machine c) s
      → s.agents.cells from ≡ some cell
      → s.agents.cells to ≡ some old
      → cell.dispatch ≡ true
      → old.dispatch ≡ true
      → (from == to) ≡ false
      → (let w = move_assign to from callbacks log s.agents in
          let (d1, w1) = destroy from s.dispatcher w in
          let (d2, w2) = destroy to d1 w1 in
          (w2.fault ≡ false) × ((publish event d2 w2).1.fault ≡ true))
  unfolding move_assign publish unsubscribe
  move_assign_dangles machine c s from to cell old callbacks log event r at_from at_to h h' apart =
      let ((who, b), sound) = Reach-IsBound kvm r (no_agents-IsBound kvm machine c) in
      let left = left_behind callbacks log cell in
      let id = cell.agent.sub_id in
      let to_apart : (to == from) ≡ false = ground (arith, apart) in
      let w_assigned : Agents K C = record s.agents { cells = assigned s from to cell left } in
      let w_gone : Agents K C = record s.agents { cells = one_gone s from to cell left } in
      let used : (id == 0) ≡ false =
        ground (arith, (b.given from id (ap held_by at_from ∙ ap (λ t. some (t, id)) h)).1) in
      let e0 : move_assign to from callbacks log s.agents ≡ w_assigned =
        rw (at_to, at_from, move_assign) refl in
      let e1 =
        ap (destroy from s.dispatcher) e0
        ∙ destroy_subscribed kvm s.dispatcher w_assigned from left
            (place_elsewhere (place s.agents.cells from (some left)) to (some cell) from apart
              ∙ place_here s.agents.cells from (some left))
            h used in
      let e2 =
        ap (λ p. destroy to p.0 p.1) e1
        ∙ destroy_subscribed kvm (unsubscribe id s.dispatcher) w_gone to cell
            (place_elsewhere (assigned s from to cell left) from none to to_apart
              ∙ place_here (place s.agents.cells from (some left)) to (some cell))
            h used in
      (
        ap (λ (p : EventDispatcher (Agents K C) × Agents K C). p.1.fault) e2 ∙ sound,
        ap (λ (p : EventDispatcher (Agents K C) × Agents K C). (publish event p.0 p.1).1.fault) e2
            ∙ fault_both_gone s from to cell left who event old b at_from at_to h h' apart,
      )
