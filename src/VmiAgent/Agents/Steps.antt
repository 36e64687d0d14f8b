-- ===== src/VmiAgent/Agents/Steps.antt =====
-- Making, setting and destroying agents of src/VmiAgent.cpp, and publishing to them, keeps every
-- subscription with its agent.
use mathlib.Core.Path.{fun_ext}
use min_bp.Prelude.{
  ℕ, ◌+◌, ◌^◌, ◌<◌, ◌==◌, ==_refl, ◌≡◌, ◌≢◌, ◌⊎◌, refl, ap, subst, ◌∙◌, sym, Bool, true, false,
  List, [], ◌∷◌, ◌++◌, Option, none, some, arith, u32, inl, inr,
}
use min_bp.Event.{HvEvent, EventType}
use min_bp.Kvm.{Kvm}
use min_bp.VirtualMachine.{VirtualMachine}
use min_bp.EventDispatcher.{Subscription, EventDispatcher, add, subscribe_all, unsubscribe, publish}
use min_bp.VmiAgent.{
  VmiAgent, attach, detach, IntrospectionEvent, on_event, enable_memory_dump, disable_memory_dump,
}
use min_bp.VmiAgent.Agents.{Cell, Agents, place, pointed, or_kept, call, make, destroy, change}
use min_bp.VmiAgent.Agents.Bound.{held_by, shape, LeavesAgents, client, closure, Bound}
use min_bp.VmiAgent.Agents.Places.{shape-place, held-place, kept-place, new-place}
use min_bp.VmiAgent.Agents.Subscribed.{with_owner, Bound-append, Bound-remove, Bound-same}
use min_bp.VmiAgent.Agents.Delivery.{deliver-Delivered}

-- The member functions that change the object alone.
pub data Setting (C : Type 0) : (VmiAgent C → VmiAgent C) → Type 0 where
  callback : (cb : IntrospectionEvent → C → C) → Setting C (on_event cb)
  dump_on : (addr size : ℕ) → Setting C (enable_memory_dump addr size)
  dump_off : Setting C disable_memory_dump

pub record World (K C : Type 0) : Type 0 where
  pub dispatcher : EventDispatcher (Agents K C)
  pub agents : Agents K C

module _ {K C : Type 0} where
  abbrev pub world : EventDispatcher (Agents K C) × Agents K C → World K C
  world r = record { dispatcher = r.0; agents = r.1 }

  module _ (kvm : Kvm K) where
    abbrev pub IsBound : World K C → Type 0
    IsBound s =
        ((who : ℕ → Option ℕ) × Bound kvm who (shape s.agents) s.dispatcher.next_id
            s.dispatcher.subscriptions)
        × (s.agents.fault ≡ false)

    Bound-held :
        (who : ℕ → Option ℕ) (held held' : ℕ → Option (Bool × ℕ)) (n : ℕ)
        (ss : List (Subscription (Agents K C)))
        → ((a : ℕ) → held' a ≡ held a)
        → Bound kvm who held n ss
        → Bound kvm who held' n ss
    Bound-held who held held' n ss h b = subst (λ f. Bound kvm who f n ss) (sym (fun_ext h)) b

    pub publish-IsBound :
        (event : HvEvent) (s : World K C)
        → IsBound s
        → IsBound (world (publish event s.dispatcher s.agents))
    unfolding publish
    publish-IsBound event s ((who, b), sound) =
        let d =
          deliver-Delivered kvm who (shape s.agents) event s.dispatcher.next_id
            s.dispatcher.subscriptions s.agents (λ a. refl) b.owned in
        ((who, Bound-held who (shape s.agents) _ _ _ d.shape_kept b), d.fault_kept ∙ sound)

    Setting-sub_id :
        (f : VmiAgent C → VmiAgent C) (v : VmiAgent C) → Setting C f → (f v).sub_id ≡ v.sub_id
    unfolding on_event enable_memory_dump disable_memory_dump
    Setting-sub_id _ v (callback cb) = refl
    Setting-sub_id _ v (dump_on addr size) = refl
    Setting-sub_id _ v dump_off = refl

    pub sets-IsBound :
        (a : ℕ) (cell : Cell C) (f : VmiAgent C → VmiAgent C) (s : World K C)
        → s.agents.cells a ≡ some cell
        → Setting C f
        → IsBound s
        → IsBound (record s { agents = change a f s.agents })
    unfolding change
    sets-IsBound a cell f s e h ((who, b), sound) =
        rw (e, change)
          (
            (
              who,
              Bound-held who (shape s.agents) _ _ _
                  (shape-place s.agents.cells a _ (
                    ap (λ id. some (cell.dispatch, id)) (Setting-sub_id f cell.agent h)
                    ∙ sym (ap held_by e)))
                  b,
            ),
            sound,
          )

    pub subscribes-IsBound :
        (filter : Option EventType) (h : HvEvent → Agents K C → Agents K C) (s : World K C)
        → LeavesAgents h
        → s.dispatcher.next_id + 1 < 2 ^ 32
        → IsBound s
        → IsBound (record s { dispatcher = (add filter h s.dispatcher).0 })
    unfolding add
    subscribes-IsBound filter h s l room ((who, b), sound) =
        let n = s.dispatcher.next_id in
        let r : u32 (n + 1) ≡ n + 1 = omega arith in
        (
          (
            with_owner who n none,
            subst
                (λ m. Bound kvm (with_owner who n none) (shape s.agents) m (
                  s.dispatcher.subscriptions
                  ++ record { id = n; filter = filter; handler = h } ∷ []))
                (sym r)
                (Bound-append kvm who (shape s.agents) (shape s.agents) n none
                  s.dispatcher.subscriptions _ refl (client (rw (==_refl n) refl) l) (λ a id q. q)
                  (λ a id q. inl q) b),
          ),
          sound,
        )

    -- An object without a dispatcher comes or goes.
    unsubscribed-Bound :
        (who : ℕ → Option ℕ) (cells : ℕ → Option (Cell C)) (a : ℕ) (o : Option (Cell C)) (n : ℕ)
        (ss : List (Subscription (Agents K C)))
        → ((id : ℕ) → held_by (cells a) ≢ some (true, id))
        → ((id : ℕ) → held_by o ≢ some (true, id))
        → Bound kvm who (λ p. held_by (cells p)) n ss
        → Bound kvm who (λ p. held_by (place cells a o p)) n ss
    unsubscribed-Bound who cells a o n ss before after b =
        Bound-same kvm who (λ p. held_by (cells p)) _ n ss
          (λ p id. kept-place cells a o p id (before id))
          (λ p id h. old_place p id (new-place cells a o p id h)) b
      where
        old_place :
            (p id : ℕ)
            → (held_by (cells p) ≡ some (true, id)) ⊎ ((held_by o ≡ some (true, id)) × (a ≡ p))
            → held_by (cells p) ≡ some (true, id)
        old_place p id (inl old) = old
        old_place p id (inr (q, at_a)) = absurd (after id q)

    pub destroys-IsBound :
        (a : ℕ) (cell : Cell C) (s : World K C)
        → s.agents.cells a ≡ some cell
        → IsBound s
        → IsBound (world (destroy a s.dispatcher s.agents))
    unfolding destroy detach unsubscribe
    destroys-IsBound a cell s e ((who, b), sound) =
        rw (e, destroy) ((who, gone cell.dispatch refl), sound)
      where
        gone :
            (dispatch : Bool)
            → cell.dispatch ≡ dispatch
            → Bound kvm who
                (λ p. held_by (place s.agents.cells a none p))
                (or_kept s.dispatcher (detach cell.agent (pointed dispatch s.dispatcher))).next_id
                (or_kept s.dispatcher
                  (detach cell.agent (pointed dispatch s.dispatcher))).subscriptions
        gone true h =
            let live : shape s.agents a ≡ some (true, cell.agent.sub_id) =
              ap held_by e ∙ ap (λ t. some (t, cell.agent.sub_id)) h in
            let used : (cell.agent.sub_id == 0) ≡ false =
              ground (arith, (b.given a cell.agent.sub_id live).1) in
            rw used (
              Bound-remove kvm who (shape s.agents) _ a cell.agent.sub_id s.dispatcher.next_id
                s.dispatcher.subscriptions live (held-place s.agents.cells a none) b)
        gone false h =
            unsubscribed-Bound who s.agents.cells a none _ _ (λ id p. cc (h, sym p ∙ ap held_by e))
              (λ id p. cc p) b

    pub makes-IsBound :
        (a : ℕ) (vm : Option VirtualMachine) (dispatch : Bool) (s : World K C)
        → s.agents.cells a ≡ none
        → s.dispatcher.next_id + 1 < 2 ^ 32
        → IsBound s
        → IsBound (world (make kvm a vm dispatch s.dispatcher s.agents))
    unfolding make attach subscribe_all add
    makes-IsBound a vm false s e room ((who, b), sound) = (
      (
        who,
        unsubscribed-Bound who s.agents.cells a _ _ _ (λ id p. cc (sym p ∙ ap held_by e))
            (λ id p. cc p) b,
      ),
      sound,
    )
    makes-IsBound a vm true s e room ((who, b), sound) =
        let n = s.dispatcher.next_id in
        (
          (
            with_owner who n (some a),
            subst
                (λ m.
                  Bound kvm (with_owner who n (some a))
                    (shape (make kvm a vm true s.dispatcher s.agents).1) m
                    (s.dispatcher.subscriptions
                      ++ record { id = n; filter = none; handler = call kvm a } ∷ []))
                (omega arith)
                (Bound-append kvm who (shape s.agents) _ n (some a) s.dispatcher.subscriptions _
                  refl
                  (closure a (rw (==_refl n) refl) refl refl
                    (held-place s.agents.cells a _ a ∙ rw (==_refl a) refl))
                  (λ p id. kept-place s.agents.cells a _ p id (λ q. cc (sym q ∙ ap held_by e)))
                  (λ p id h. made p id (new-place s.agents.cells a _ p id h)) b),
          ),
          sound,
        )
      where
        made :
            (p id : ℕ)
            → (held_by (s.agents.cells p) ≡ some (true, id))
              ⊎ ((◌≡◌ {A = Option (Bool × ℕ)} (some (true, s.dispatcher.next_id)) (some (true, id)))
                  × (a ≡ p))
            → (shape s.agents p ≡ some (true, id))
              ⊎ ((id ≡ s.dispatcher.next_id) × (some a ≡ some p))
        made p id (inl old) = inl old
        made p id (inr (q, at_a)) = inr (cc q, ap some at_a)
