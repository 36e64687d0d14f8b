-- ===== src/VmiAgent/Agents/Moved.antt =====
-- What the defaulted moves of include/hv/VmiAgent.h do to the subscription of an agent.
use min_bp.Prelude.{
  ℕ, ◌<◌, ◌==◌, ==_iff, ◌≡◌, ◌≢◌, refl, ap, ◌∙◌, sym, Bool, true, false, not, List, [], ◌++◌,
  Option, none, some, arith, keep_if, Bool-cases, inl, inr,
}
use min_bp.Event.{HvEvent}
use min_bp.Kvm.{Kvm, Machine}
use min_bp.EventDispatcher.{Subscription, EventDispatcher, unsubscribe}
use min_bp.EventDispatcher.Routing.{publish_all}
use min_bp.VmiAgent.{detach}
use min_bp.VmiAgent.Agents.{
  Cell, Agents, place, pointed, or_kept, left_behind, destroy, move_construct,
}
use min_bp.VmiAgent.Agents.Bound.{
  held_by, events_of, shape, log_at, Owner, client, closure, AllOwned, Bound,
}
use min_bp.VmiAgent.Agents.Subscribed.{AllOwned-map, keep_if-AllOwned}
use min_bp.VmiAgent.Agents.Series.{AllDelivered, publish_all-AllDelivered}
use min_bp.VmiAgent.Agents.Steps.{World}
use min_bp.VmiAgent.Agents.Places.{place_here, place_elsewhere, kept-place, shape-place}
use min_bp.VmiAgent.Agents.Lifetime.{Reach, no_agents, Reach-IsBound, no_agents-IsBound}

module _ {K C : Type 0} (kvm : Kvm K) where
  pub destroy_subscribed :
      (d : EventDispatcher (Agents K C)) (w : Agents K C) (a : ℕ) (cell : Cell C)
      → w.cells a ≡ some cell
      → cell.dispatch ≡ true
      → (cell.agent.sub_id == 0) ≡ false
      → destroy a d w ≡ (unsubscribe cell.agent.sub_id d, record w { cells = place w.cells a none })
  unfolding destroy detach
  destroy_subscribed d w a cell e h used = rw (e, destroy) (by_pointer cell.dispatch h)
    where
      by_pointer :
          (t : Bool)
          → t ≡ true
          → ◌≡◌ {A = EventDispatcher (Agents K C) × Agents K C}
              (
                or_kept d (detach cell.agent (pointed t d)),
                record w { cells = place w.cells a none },
              )
              (unsubscribe cell.agent.sub_id d, record w { cells = place w.cells a none })
      by_pointer true h = rw used refl
      by_pointer false h = cc h

  -- The objects after the move of `from` to `to`, where none was.
  module _ (s : World K C) (from to : ℕ) (cell : Cell C) where
    abbrev emptied : ℕ → Option (Cell C)
    emptied = place s.agents.cells from (some (left_behind [] [] cell))

    abbrev moved : ℕ → Option (Cell C)
    moved = place emptied to (some cell)

    abbrev agents_moved : Agents K C
    agents_moved = record s.agents { cells = moved }

    module _ (who : ℕ → Option ℕ) (at_from : s.agents.cells from ≡ some cell)
        (at_to : s.agents.cells to ≡ none) (subscribed : cell.dispatch ≡ true)
        (b : Bound kvm who (shape s.agents) s.dispatcher.next_id s.dispatcher.subscriptions) where
      id_held : shape s.agents from ≡ some (true, cell.agent.sub_id)
      id_held = ap held_by at_from ∙ ap (λ t. some (t, cell.agent.sub_id)) subscribed

      apart : (from == to) ≡ false
      apart = elim (Bool-cases (from == to)) [
        | inl e ↦ cc (sym at_from ∙ ap s.agents.cells ((==_iff from to).0 e) ∙ at_to)
        | inr e ↦ e
      ]

      held_moved :
          (a id : ℕ) → shape s.agents a ≡ some (true, id) → held_by (moved a) ≡ some (true, id)
      held_moved a id h =
          kept-place emptied to (some cell) a id
            (λ q. cc (
              sym q
              ∙ shape-place s.agents.cells from _ (sym (ap held_by at_from)) to
              ∙ ap held_by at_to))
            (shape-place s.agents.cells from _ (sym (ap held_by at_from)) a ∙ h)

      owned_moved :
          AllOwned kvm who (λ a. held_by (moved a)) s.dispatcher.next_id s.dispatcher.subscriptions
      owned_moved =
          AllOwned-map kvm who (shape s.agents) who _ _ _ s.dispatcher.subscriptions (omega arith)
            kept b.owned
        where
          kept :
              (t : Subscription (Agents K C))
              → t.id < s.dispatcher.next_id
              → Owner kvm who (shape s.agents) t
              → Owner kvm who (λ a. held_by (moved a)) t
          kept t h (client p l) = client p l
          kept t h (closure c p f q l) = closure c p f q (held_moved c t.id l)

      not_owner : (id : ℕ) → held_by (moved to) ≡ some (true, id) → who id ≢ some to
      not_owner id h g =
          let new : held_by (moved to) ≡ some (cell.dispatch, cell.agent.sub_id) =
            ap held_by (place_here emptied to (some cell)) in
          let same : id ≡ cell.agent.sub_id = cc (sym new ∙ h) in
          let mine : who id ≡ some from =
            ap who same ∙ (b.given from cell.agent.sub_id id_held).0 in
          let e : from ≡ to = cc (sym mine ∙ g) in cc (apart, (==_iff from to).1 e)

      destroyed : ℕ → Option (Cell C)
      destroyed = place moved from none

      owned_destroyed :
          AllOwned kvm who
            (λ a. held_by (destroyed a))
            s.dispatcher.next_id
            (keep_if (λ t. not (t.id == cell.agent.sub_id)) s.dispatcher.subscriptions)
      unfolding destroyed
      owned_destroyed =
          keep_if-AllOwned kvm who (λ a. held_by (moved a)) _ cell.agent.sub_id s.dispatcher.next_id
            s.dispatcher.subscriptions kept owned_moved
        where
          kept :
              (t : Subscription (Agents K C))
              → (t.id == cell.agent.sub_id) ≡ false
              → Owner kvm who (λ a. held_by (moved a)) t
              → Owner kvm who (λ a. held_by (destroyed a)) t
          kept t h (client p l) = client p l
          kept t h (closure c p f q l) = elim (Bool-cases (c == from)) [
            | inl k ↦
                let here_too : held_by (moved from) ≡ some (true, t.id) =
                  ap (λ a. held_by (moved a)) (sym ((==_iff c from).0 k)) ∙ l in
                let same : t.id ≡ cell.agent.sub_id =
                  cc (sym here_too ∙ held_moved from cell.agent.sub_id id_held) in
                cc (h, (==_iff t.id cell.agent.sub_id).1 same)
            | inr k ↦ closure c p f q (ap held_by (place_elsewhere moved from none c k) ∙ l)
          ]

      left_cell : moved from ≡ some (left_behind [] [] cell)
      left_cell =
          place_elsewhere emptied to (some cell) from apart
          ∙ place_here s.agents.cells from (some (left_behind [] [] cell))

      -- The old object keeps the closure, with empty vectors.
      left : log_at agents_moved from ≡ []
      left = ap events_of left_cell

      copied : log_at agents_moved to ≡ log_at s.agents from
      copied = ap events_of (place_here emptied to (some cell) ∙ sym at_from)

      moved-AllDelivered :
          (es : List HvEvent)
          → AllDelivered kvm who
              (λ a. held_by (moved a))
              es
              s.dispatcher.subscriptions
              agents_moved
              (publish_all es s.dispatcher agents_moved).1
      moved-AllDelivered es =
          publish_all-AllDelivered kvm who (λ a. held_by (moved a)) es s.dispatcher.next_id
            s.dispatcher agents_moved (λ a. refl) owned_moved

      moved_logs :
          (es : List HvEvent)
          → (log_at (publish_all es s.dispatcher agents_moved).1 to ≡ log_at s.agents from)
            × (log_at (publish_all es s.dispatcher agents_moved).1 from ≡ es)
      moved_logs es =
          let all = moved-AllDelivered es in
          let g = b.given from cell.agent.sub_id id_held in
          (
            all.silent to not_owner ∙ copied,
            all.logs from cell.agent.sub_id (held_moved from cell.agent.sub_id id_held) g.0 g.3
                ∙ ap (λ l. l ++ es) left,
          )

      id_used : (cell.agent.sub_id == 0) ≡ false
      id_used = ground (arith, (b.given from cell.agent.sub_id id_held).1)

      to_apart : (to == from) ≡ false
      to_apart = ground (arith, apart)

      -- What the destructor of the old object leaves.
      destroy_moved :
          destroy from s.dispatcher agents_moved
          ≡ (unsubscribe cell.agent.sub_id s.dispatcher, record s.agents { cells = destroyed })
      unfolding destroyed
      destroy_moved =
          destroy_subscribed s.dispatcher agents_moved from (left_behind [] [] cell) left_cell
            subscribed id_used

      still : destroyed to ≡ moved to
      unfolding destroyed
      still = place_elsewhere moved from none to to_apart

      destroyed_log :
          (es : List HvEvent)
          → log_at
              (publish_all es
                (unsubscribe cell.agent.sub_id s.dispatcher)
                (record s.agents { cells = destroyed })).1
              to
            ≡ log_at s.agents from
      unfolding unsubscribe
      destroyed_log es =
          (publish_all-AllDelivered kvm who (λ a. held_by (destroyed a)) es s.dispatcher.next_id
              (unsubscribe cell.agent.sub_id s.dispatcher) (record s.agents { cells = destroyed })
              (λ a. refl) owned_destroyed).silent
            to (λ id h g. not_owner id (sym (ap held_by still) ∙ h) g)
          ∙ (ap events_of still ∙ copied)

  -- An agent that subscribed, of any reachable state, is moved to a new object. While the old object
  -- is alive, the events go to its log and none to the log of the new one; and after the old object
  -- is destroyed, which unsubscribes the id that both hold, the new object, which still has the
  -- dispatcher, logs none of the events that are published.
  pub move_construct_deaf :
      (machine : Machine K) (c : C) (s : World K C) (from to : ℕ) (cell : Cell C)
      (es : List HvEvent)
      → Reach kvm (no_agents kvm machine c) s
      → s.agents.cells from ≡ some cell
      → s.agents.cells to ≡ none
      → cell.dispatch ≡ true
      → (let w = move_construct to from s.agents in
          let (d', w') = destroy from s.dispatcher w in
          (log_at (publish_all es s.dispatcher w).1 to ≡ log_at s.agents from)
          × (log_at (publish_all es s.dispatcher w).1 from ≡ es)
          × (w'.cells to ≡ some cell)
          × (log_at (publish_all es d' w').1 to ≡ log_at s.agents from))
  unfolding move_construct
  move_construct_deaf machine c s from to cell es r at_from at_to subscribed =
      let ((who, b), sound) = Reach-IsBound kvm r (no_agents-IsBound kvm machine c) in
      let to_moved : move_construct to from s.agents ≡ agents_moved s from to cell =
        rw (at_from, move_construct) refl in
      let gone =
        ap (destroy from s.dispatcher) to_moved
        ∙ destroy_moved s from to cell who at_from at_to subscribed b in
      let logs = moved_logs s from to cell who at_from at_to subscribed b es in
      (
        ap (λ w. log_at (publish_all es s.dispatcher w).1 to) to_moved ∙ logs.0,
        ap (λ w. log_at (publish_all es s.dispatcher w).1 from) to_moved ∙ logs.1,
        ap (λ p. p.1.cells to) gone
            ∙ still s from to cell who at_from at_to subscribed b
            ∙ place_here (emptied s from to cell) to (some cell),
        ap (λ p. log_at (publish_all es p.0 p.1).1 to) gone
            ∙ destroyed_log s from to cell who at_from at_to subscribed b es,
      )
