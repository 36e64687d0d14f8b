-- ===== src/VmiAgent/Agents/Dangling.antt =====
-- A closure of src/VmiAgent.cpp whose agent is gone is called by the next event.
use min_bp.Prelude.{
  ℕ, ◌<◌, ◌==◌, ==_iff, ◌≡◌, ◌⊎◌, refl, ap, subst, ◌∙◌, sym, Bool, true, false, not, List, [], ◌∷◌,
  Option, none, some, if◌then◌else◌, arith, keep_if, Bool-cases, inl, inr,
}
use min_bp.Event.{HvEvent}
use min_bp.Kvm.{Kvm}
use min_bp.EventDispatcher.{Subscription, accepts, deliver}
use min_bp.VmiAgent.Agents.{Cell, Agents, call, run_in}
use min_bp.VmiAgent.Agents.Bound.{
  held_by, shape, LeavesAgents, Owner, client, closure, AllOwned, uses,
}
use min_bp.VmiAgent.Agents.Delivery.{call-Called, other_owner}

module _ {K C : Type 0} (kvm : Kvm K) where
  none_held : (o : Option (Cell C)) → held_by o ≡ none → o ≡ none
  none_held none h = refl
  none_held (some cell) h = cc h

  fault_dangling :
      (a : ℕ) (event : HvEvent) (w : Agents K C)
      → shape w a ≡ none
      → (call kvm a event w).fault ≡ true
  unfolding call
  fault_dangling a event w h = rw (none_held (w.cells a) h, call) refl

  fault-call :
      (a : ℕ) (event : HvEvent) (w : Agents K C)
      → w.fault ≡ true
      → (call kvm a event w).fault ≡ true
  unfolding call run_in
  fault-call a event w h = by_cell (w.cells a)
    where
      by_cell :
          (o : Option (Cell C))
          → (elim o as (λ q. Agents K C) [
            | none ↦ record w { fault = true }
            | some cell ↦ run_in kvm a event w cell
          ]).fault
            ≡ true
      by_cell none = refl
      by_cell (some cell) = h

  -- The object `to` is gone, and no other but `from`.
  pub record Gone (held : ℕ → Option (Bool × ℕ)) (from to : ℕ) (w : Agents K C) : Type 0 where
    pub no_object : shape w to ≡ none
    pub others : (a : ℕ) → (a == to) ≡ false → (a == from) ≡ false → shape w a ≡ held a

  module _ (who : ℕ → Option ℕ) (held : ℕ → Option (Bool × ℕ)) (event : HvEvent) where
    handled : Subscription (Agents K C) → Agents K C → Agents K C
    handled s w = if accepts s.filter event.type then s.handler event w else w

    handled-closure :
        (s : Subscription (Agents K C)) (w : Agents K C) (a : ℕ)
        → s.filter ≡ none
        → s.handler ≡ call kvm a
        → handled s w ≡ call kvm a event w
    unfolding handled accepts
    handled-closure s w a f e = rw (f, e) refl

    fault-handled :
        (s : Subscription (Agents K C)) (w : Agents K C)
        → Owner kvm who held s
        → w.fault ≡ true
        → (handled s w).fault ≡ true
    unfolding handled
    fault-handled s w (client p l) h = elim (Bool-cases (accepts s.filter event.type)) [
      | inl e ↦ rw e (l.same_fault event w ∙ h)
      | inr e ↦ rw e h
    ]
    fault-handled s w (closure a p f e live) h =
        ap (λ v. v.fault) (handled-closure s w a f e) ∙ fault-call a event w h

    fault-deliver :
        (id n : ℕ) (ss : List (Subscription (Agents K C))) (w : Agents K C)
        → AllOwned kvm who held n ss
        → w.fault ≡ true
        → (deliver event (keep_if (λ s. not (s.id == id)) ss) w).fault ≡ true
    unfolding deliver handled
    fault-deliver id n [] w owned h = h
    fault-deliver id n (s ∷ ss) w owned h = elim (Bool-cases (s.id == id)) [
      | inl e ↦ rw e (fault-deliver id n ss w owned.3 h)
      | inr e ↦ rw e (fault-deliver id n ss (handled s w) owned.3 (fault-handled s w owned.2 h))
    ]

    -- The closure of `to` is among the subscriptions, and `to` is gone; so is `from`, whose
    -- subscription, with the id `id`, was removed.
    module _ (from to id id_to : ℕ) where
      module _ (of_from : held from ≡ some (true, id)) (different : (id == id_to) ≡ false)
          (owner_to : who id_to ≡ some to) where
        client-Gone :
            (s : Subscription (Agents K C)) (w : Agents K C)
            → LeavesAgents s.handler
            → Gone held from to w
            → Gone held from to (handled s w)
        unfolding handled
        client-Gone s w l g = elim (Bool-cases (accepts s.filter event.type)) [
          | inl e ↦
              let same = l.same_cells event w in
              rw e (record {
                no_object = ap (λ f. held_by (f to)) same ∙ g.no_object;
                others = λ a p q. ap (λ f. held_by (f a)) same ∙ g.others a p q;
              })
          | inr e ↦ rw e g
        ]

        closure-Gone :
            (s : Subscription (Agents K C)) (w : Agents K C) (a : ℕ)
            → (a == to) ≡ false
            → (a == from) ≡ false
            → held a ≡ some (true, s.id)
            → Gone held from to w
            → Gone held from to (call kvm a event w)
        closure-Gone s w a p q live g =
            let c = call-Called kvm a s.id event w (g.others a p q ∙ live) in
            record {
              no_object = c.shape_kept to ∙ g.no_object;
              others = λ b x y. c.shape_kept b ∙ g.others b x y;
            }

        abbrev Faults : List (Subscription (Agents K C)) → Type 0
        Faults ss =
            (w : Agents K C)
            → 0 < uses id_to ss
            → Gone held from to w
            → (deliver event (keep_if (λ t. not (t.id == id)) ss) w).fault ≡ true

        later_use :
            (s : Subscription (Agents K C)) (ss : List (Subscription (Agents K C)))
            → (s.id == id_to) ≡ false
            → 0 < uses id_to (s ∷ ss)
            → 0 < uses id_to ss
        later_use s ss e u = ground arith

        kept-Faults :
            (n : ℕ) (s : Subscription (Agents K C)) (ss : List (Subscription (Agents K C)))
            (w : Agents K C)
            → AllOwned kvm who held n ss
            → Owner kvm who held s
            → (s.id == id) ≡ false
            → 0 < uses id_to (s ∷ ss)
            → Gone held from to w
            → Faults ss
            → (deliver event (keep_if (λ t. not (t.id == id)) ss) (handled s w)).fault ≡ true
        kept-Faults n s ss w owned (client p l) e u g rest =
            rest (handled s w)
              (later_use s ss (other_owner who s.id id_to none to p owner_to (λ q. cc q)) u)
              (client-Gone s w l g)
        kept-Faults n s ss w owned (closure a p f c live) e u g rest = elim (Bool-cases (a == to)) [
          | inl k ↦ fault-deliver id n ss (handled s w) owned (
              ap (λ v. v.fault) (handled-closure s w a f c)
              ∙ fault_dangling a event w (ap (shape w) ((==_iff a to).0 k) ∙ g.no_object))
          | inr k ↦
              subst (λ v. (deliver event (keep_if (λ t. not (t.id == id)) ss) v).fault ≡ true)
                (sym (handled-closure s w a f c))
                (rest (call kvm a event w)
                  (later_use s ss
                    (other_owner who s.id id_to (some a) to p owner_to
                      (λ q. let x : a ≡ to = cc q in cc (k, (==_iff a to).1 x)))
                    u)
                  (closure-Gone s w a k (not_from (Bool-cases (a == from))) live g))
        ]
          where
            not_from : (((a == from) ≡ true) ⊎ ((a == from) ≡ false)) → (a == from) ≡ false
            not_from (inr x) = x
            not_from (inl x) =
                let same : s.id ≡ id = cc (sym live ∙ ap held ((==_iff a from).0 x) ∙ of_from) in
                cc (e, (==_iff s.id id).1 same)

        pub deliver-Gone :
            (n : ℕ) (ss : List (Subscription (Agents K C))) → AllOwned kvm who held n ss → Faults ss
        unfolding deliver handled
        deliver-Gone n [] owned w u g = absurd (omega arith)
        deliver-Gone n (s ∷ ss) owned w u g = elim (Bool-cases (s.id == id)) [
          | inl e ↦ rw e (
              deliver-Gone n ss owned.3 w (later_use s ss (rw ((==_iff s.id id).0 e) different) u)
                g)
          | inr e ↦ rw e (kept-Faults n s ss w owned.3 owned.2 e u g (deliver-Gone n ss owned.3))
        ]
