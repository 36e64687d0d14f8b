-- ===== src/VmiAgent/Agents/Delivery.antt =====
-- What an event of src/EventDispatcher.cpp does to the agents of src/VmiAgent.cpp that are alive.
use min_bp.Prelude.{
  ℕ, zero, suc, ◌+◌, ◌==◌, ==_iff, ◌≡◌, ◌≢◌, refl, ap, ap₂, subst, ◌∙◌, sym, Bool, true, false,
  List, [], ◌∷◌, ◌++◌, Option, none, some, if◌then◌else◌, arith, Bool-cases, inl, inr,
}
use min_bp.Event.{HvEvent, EventType}
use min_bp.Kvm.{Kvm}
use min_bp.EventDispatcher.{Subscription, accepts, deliver}
use min_bp.VmiAgent.{handle_hv_event}
use min_bp.VmiAgent.Log.{map-append}
use min_bp.VmiAgent.Agents.{Cell, Agents, run_in, call}
use min_bp.VmiAgent.Agents.Bound.{
  held_by, shape, events_of, log_at, LeavesAgents, Owner, client, closure, AllOwned, uses,
}

-- An event that comes so many times.
abbrev pub times : ℕ → HvEvent → List HvEvent
times zero event = []
times (suc n) event = event ∷ times n event

pub append_none : (l : List HvEvent) → l ≡ l ++ []
append_none [] = refl
append_none (x ∷ xs) = ap (λ r. x ∷ r) (append_none xs)

times-add :
    (n m : ℕ) (event : HvEvent) (l : List HvEvent)
    → (l ++ times n event) ++ times m event ≡ l ++ times (n + m) event
times-add n m event (x ∷ xs) = ap (λ r. x ∷ r) (times-add n m event xs)
times-add zero m event [] = ap (λ k. times k event) (omega arith)
times-add (suc n) m event [] =
    let e : suc (n + m) ≡ suc n + m = omega arith in
    ap (λ r. event ∷ r) (times-add n m event []) ∙ ap (λ k. times k event) e

-- An id that was given to an agent is not another's.
pub other_owner :
    (who : ℕ → Option ℕ) (i j : ℕ) (o : Option ℕ) (a : ℕ)
    → who i ≡ o
    → who j ≡ some a
    → o ≢ some a
    → (i == j) ≡ false
other_owner who i j o a p q n = elim (Bool-cases (i == j)) [
  | inl e ↦ absurd (n (sym p ∙ ap who ((==_iff i j).0 e) ∙ q))
  | inr e ↦ e
]

module _ {K C : Type 0} (kvm : Kvm K) where
  -- What a call of the closure of an agent that is alive does.
  pub record Called (a : ℕ) (event : HvEvent) (w w' : Agents K C) : Type 0 where
    pub shape_kept : (b : ℕ) → shape w' b ≡ shape w b
    pub logs : (b : ℕ) → log_at w' b ≡ (if b == a then log_at w a ++ event ∷ [] else log_at w b)
    pub fault_kept : w'.fault ≡ w.fault

  run_in-Called :
      (a : ℕ) (event : HvEvent) (w : Agents K C) (cell : Cell C)
      → w.cells a ≡ some cell
      → Called a event w (run_in kvm a event w cell)
  unfolding run_in handle_hv_event
  run_in-Called a event w cell e = record {
    shape_kept = λ b. elim (Bool-cases (b == a)) [
      | inl h ↦ rw h (sym (ap held_by (ap w.cells ((==_iff b a).0 h) ∙ e)))
      | inr h ↦ rw h refl
    ];
    logs = λ b. elim (Bool-cases (b == a)) [
      | inl h ↦
          rw h (map-append cell.agent.event_log _ ∙ sym (ap (λ o. events_of o ++ event ∷ []) e))
      | inr h ↦ rw h refl
    ];
    fault_kept = refl;
  }

  pub call-Called :
      (a id : ℕ) (event : HvEvent) (w : Agents K C)
      → shape w a ≡ some (true, id)
      → Called a event w (call kvm a event w)
  unfolding call
  call-Called a id event w live = alive (w.cells a) refl live
    where
      alive :
          (o : Option (Cell C))
          → w.cells a ≡ o
          → held_by o ≡ some (true, id)
          → Called a event w
              (elim o [ none ↦ record w { fault = true } | some cell ↦ run_in kvm a event w cell ])
      alive none e h = cc
      alive (some cell) e h = run_in-Called a event w cell e

  module _ (who : ℕ → Option ℕ) (held : ℕ → Option (Bool × ℕ)) (event : HvEvent) where
    -- The objects are the same but for the logs: an agent with the id `id` has got the event `n id`
    -- times, and an agent without a dispatcher not at all.
    pub record Delivered (n : ℕ → ℕ) (w w' : Agents K C) : Type 0 where
      pub shape_kept : (a : ℕ) → shape w' a ≡ shape w a
      pub fault_kept : w'.fault ≡ w.fault
      pub logs :
          (a id : ℕ)
          → held a ≡ some (true, id)
          → who id ≡ some a
          → log_at w' a ≡ log_at w a ++ times (n id) event
      pub silent :
          (a : ℕ)
          → ((id : ℕ) → held a ≡ some (true, id) → who id ≢ some a)
          → log_at w' a ≡ log_at w a

    nothing-Delivered : (w : Agents K C) → Delivered (λ id. 0) w w
    nothing-Delivered w = record {
      shape_kept = λ a. refl;
      fault_kept = refl;
      logs = λ a id h g. append_none (log_at w a);
      silent = λ a h. refl;
    }

    both-Delivered :
        (n m : ℕ → ℕ) (w w1 w2 : Agents K C)
        → Delivered n w w1
        → Delivered m w1 w2
        → Delivered (λ id. n id + m id) w w2
    both-Delivered n m w w1 w2 p q = record {
      shape_kept = λ a. q.shape_kept a ∙ p.shape_kept a;
      fault_kept = q.fault_kept ∙ p.fault_kept;
      logs = λ a id h g.
          q.logs a id h g
          ∙ ap (λ l. l ++ times (m id) event) (p.logs a id h g)
          ∙ times-add (n id) (m id) event (log_at w a);
      silent = λ a h. q.silent a h ∙ p.silent a h;
    }

    client-Delivered :
        (b : Bool) (s : Subscription (Agents K C)) (w : Agents K C)
        → who s.id ≡ none
        → LeavesAgents s.handler
        → Delivered (λ id. if s.id == id then 1 else 0) w (if b then s.handler event w else w)
    client-Delivered true s w h l = record {
      shape_kept = λ a. ap (λ f. held_by (f a)) (l.same_cells event w);
      fault_kept = l.same_fault event w;
      logs = λ a id live g.
          rw (other_owner who s.id id none a h g (λ e. cc))
            (ap (λ f. events_of (f a)) (l.same_cells event w) ∙ append_none (log_at w a));
      silent = λ a q. ap (λ f. events_of (f a)) (l.same_cells event w);
    }
    client-Delivered false s w h l = record {
      shape_kept = λ a. refl;
      fault_kept = refl;
      logs = λ a id live g.
          rw (other_owner who s.id id none a h g (λ e. cc)) (append_none (log_at w a));
      silent = λ a q. refl;
    }

    closure-logs :
        (s : Subscription (Agents K C)) (w : Agents K C) (a b id : ℕ)
        → who s.id ≡ some b
        → held b ≡ some (true, s.id)
        → held a ≡ some (true, id)
        → who id ≡ some a
        → (if a == b then log_at w b ++ event ∷ [] else log_at w a)
          ≡ log_at w a ++ times (if s.id == id then 1 else 0) event
    closure-logs s w a b id h live l g = elim (Bool-cases (a == b)) [
      | inl e ↦
          let same : a ≡ b = (==_iff a b).0 e in
          let ids : s.id ≡ id = cc (live, l, ap held same) in
          rw (e, (==_iff s.id id).1 ids) (ap (λ c. log_at w c ++ event ∷ []) (sym same))
      | inr e ↦
          rw
            (
              e,
              other_owner who s.id id (some b) a h g
                  (λ q. let k : a ≡ b = cc q in cc (e, (==_iff a b).1 k)),
            )
            (append_none (log_at w a))
    ]

    closure-Delivered :
        (s : Subscription (Agents K C)) (w : Agents K C) (b : ℕ)
        → who s.id ≡ some b
        → held b ≡ some (true, s.id)
        → shape w b ≡ held b
        → Delivered (λ id. if s.id == id then 1 else 0) w (call kvm b event w)
    closure-Delivered s w b h live e =
        let c = call-Called b s.id event w (e ∙ live) in
        record {
          shape_kept = c.shape_kept;
          fault_kept = c.fault_kept;
          logs = λ a id l g. c.logs a ∙ closure-logs s w a b id h live l g;
          silent = λ a q. elim (Bool-cases (a == b)) [
            | inl k ↦
                absurd (
                  q s.id (ap held ((==_iff a b).0 k) ∙ live) (h ∙ ap some (sym ((==_iff a b).0 k))))
            | inr k ↦ c.logs a ∙ rw k refl
          ];
        }

    step-Delivered :
        (s : Subscription (Agents K C)) (w : Agents K C)
        → ((a : ℕ) → shape w a ≡ held a)
        → Owner kvm who held s
        → Delivered
            (λ id. if s.id == id then 1 else 0)
            w
            (if accepts s.filter event.type then s.handler event w else w)
    unfolding accepts
    step-Delivered s w same (client h l) = client-Delivered (accepts s.filter event.type) s w h l
    step-Delivered s w same (closure b h f e live) =
        subst
          (λ (p : Option EventType × (HvEvent → Agents K C → Agents K C)).
            Delivered (λ id. if s.id == id then 1 else 0) w
              (if accepts p.0 event.type then p.1 event w else w))
          (ap₂ (λ x y. (x, y)) (sym f) (sym e)) (closure-Delivered s w b h live (same b))

    pub deliver-Delivered :
        (next : ℕ) (ss : List (Subscription (Agents K C))) (w : Agents K C)
        → ((a : ℕ) → shape w a ≡ held a)
        → AllOwned kvm who held next ss
        → Delivered (λ id. uses id ss) w (deliver event ss w)
    unfolding deliver
    deliver-Delivered next [] w same owned = nothing-Delivered w
    deliver-Delivered next (s ∷ ss) w same owned =
        let first = step-Delivered s w same owned.2 in
        both-Delivered _ _ _ _ _ first
          (deliver-Delivered next ss _ (λ a. first.shape_kept a ∙ same a) owned.3)
