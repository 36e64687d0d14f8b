-- ===== src/VmiAgent/Agents/Series.antt =====
-- A list of events, published to the agents of src/VmiAgent.cpp that are alive.
use min_bp.Prelude.{ℕ, ◌≡◌, ◌≢◌, refl, ap, ◌∙◌, Bool, true, List, [], ◌∷◌, ◌++◌, Option, some}
use min_bp.Event.{HvEvent}
use min_bp.Kvm.{Kvm}
use min_bp.EventDispatcher.{Subscription, EventDispatcher, publish}
use min_bp.EventDispatcher.Routing.{publish_all}
use min_bp.VmiAgent.Agents.{Agents}
use min_bp.VmiAgent.Agents.Bound.{shape, log_at, AllOwned, uses}
use min_bp.VmiAgent.Agents.Delivery.{times, deliver-Delivered, append_none}

append_one : (xs es : List HvEvent) (e : HvEvent) → (xs ++ e ∷ []) ++ es ≡ xs ++ e ∷ es
append_one [] es e = refl
append_one (x ∷ xs) es e = ap (λ r. x ∷ r) (append_one xs es e)

module _ {K C : Type 0} (kvm : Kvm K) where
  module _ (who : ℕ → Option ℕ) (held : ℕ → Option (Bool × ℕ)) where
    -- What a list of events leaves of the objects.
    pub record AllDelivered (es : List HvEvent) (ss : List (Subscription (Agents K C)))
        (w w' : Agents K C) : Type 0 where
      pub fault_kept : w'.fault ≡ w.fault
      pub silent :
          (a : ℕ)
          → ((id : ℕ) → held a ≡ some (true, id) → who id ≢ some a)
          → log_at w' a ≡ log_at w a
      pub logs :
          (a id : ℕ)
          → held a ≡ some (true, id)
          → who id ≡ some a
          → uses id ss ≡ 1
          → log_at w' a ≡ log_at w a ++ es

    pub publish_all-AllDelivered :
        (es : List HvEvent) (n : ℕ) (d : EventDispatcher (Agents K C)) (w : Agents K C)
        → ((a : ℕ) → shape w a ≡ held a)
        → AllOwned kvm who held n d.subscriptions
        → AllDelivered es d.subscriptions w (publish_all es d w).1
    unfolding publish
    publish_all-AllDelivered [] n d w same owned = record {
      fault_kept = refl;
      silent = λ a h. refl;
      logs = λ a id h g u. append_none (log_at w a);
    }
    publish_all-AllDelivered (e ∷ es) n d w same owned =
        let first = deliver-Delivered kvm who held e n d.subscriptions w same owned in
        let rest =
          publish_all-AllDelivered es n (publish e d w).0 (publish e d w).1
            (λ a. first.shape_kept a ∙ same a) owned in
        record {
          fault_kept = rest.fault_kept ∙ first.fault_kept;
          silent = λ a h. rest.silent a h ∙ first.silent a h;
          logs = λ a id h g u.
              rest.logs a id h g u
              ∙ ap (λ l. l ++ es) (first.logs a id h g ∙ ap (λ k. log_at w a ++ times k e) u)
              ∙ append_one (log_at w a) es e;
        }
