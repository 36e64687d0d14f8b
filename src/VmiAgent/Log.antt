-- ===== src/VmiAgent/Log.antt =====
-- The event log of src/VmiAgent.cpp, fed by the dispatcher that the agent subscribes to.
use min_bp.Prelude.{
  ℕ, ◌==◌, ◌<◌, ◌≡◌, refl, ap, ◌∙◌, sym, Bool, true, false, List, [], ◌∷◌, ◌++◌, map, none, some,
  if◌then◌else◌, arith,
}
use min_bp.Event.{HvEvent, EventType}
use min_bp.Kvm.{Kvm}
use min_bp.EventDispatcher.{
  Subscription, EventDispatcher, accepts, subscribe_all, unsubscribe, deliver, publish,
}
use min_bp.EventDispatcher.Routing.{publish_all, publish-subscribe}
use min_bp.EventDispatcher.Ids.{IsWellFormed, IdsRise, unsubscribe-subscribe}
use min_bp.VmiAgent.{IntrospectionEvent, Watched, attach, detach, handle_hv_event}

pub map-append :
    (xs ys : List IntrospectionEvent)
    → map (λ (e : IntrospectionEvent). e.base) (xs ++ ys)
      ≡ map (λ (e : IntrospectionEvent). e.base) xs ++ map (λ (e : IntrospectionEvent). e.base) ys
map-append [] ys = refl
map-append (x ∷ xs) ys = ap (λ r. x.base ∷ r) (map-append xs ys)

append_assoc :
    (xs : List HvEvent) (e : HvEvent) (es : List HvEvent) → (xs ++ e ∷ []) ++ es ≡ xs ++ e ∷ es
append_assoc [] e es = refl
append_assoc (x ∷ xs) e es = ap (λ r. x ∷ r) (append_assoc xs e es)

append_nil : (xs : List HvEvent) → xs ++ [] ≡ xs
append_nil [] = refl
append_nil (x ∷ xs) = ap (λ r. x ∷ r) (append_nil xs)

module _ {K C : Type 0} (kvm : Kvm K) where
  -- The events in the agent's log.
  abbrev pub logged : Watched K C → List HvEvent
  logged w = map (λ (e : IntrospectionEvent). e.base) w.agent.event_log

  -- Subscribers that leave the agent's log alone.
  abbrev pub LeaveLog : List (Subscription (Watched K C)) → Type 0
  LeaveLog [] = Unit {0}
  LeaveLog (s ∷ ss) =
      ((ev : HvEvent) (w : Watched K C) → logged (s.handler ev w) ≡ logged w) × LeaveLog ss

  logged-handle_hv_event :
      (ev : HvEvent) (w : Watched K C) → logged (handle_hv_event kvm ev w) ≡ logged w ++ ev ∷ []
  unfolding handle_hv_event
  logged-handle_hv_event ev w = map-append w.agent.event_log _

  logged-if :
      (b : Bool) (x y : Watched K C) (l : List HvEvent)
      → logged x ≡ l
      → logged y ≡ l
      → logged (if b then x else y) ≡ l
  logged-if true x y l p q = p
  logged-if false x y l p q = q

  logged-deliver :
      (ev : HvEvent) (ss : List (Subscription (Watched K C))) (w : Watched K C)
      → LeaveLog ss
      → logged (deliver ev ss w) ≡ logged w
  unfolding deliver
  logged-deliver ev [] w h = refl
  logged-deliver ev (s ∷ ss) w h =
      logged-deliver ev ss _ h.1
      ∙ logged-if (accepts s.filter ev.type) _ _ (logged w) (h.0 ev w) refl

  logged-publish :
      (ev : HvEvent) (d : EventDispatcher (Watched K C)) (w : Watched K C)
      → LeaveLog d.subscriptions
      → logged (publish ev d w).1 ≡ logged w
  unfolding publish
  logged-publish ev d w h = logged-deliver ev d.subscriptions w h

  logged-attached :
      (ev : HvEvent) (d : EventDispatcher (Watched K C)) (w : Watched K C)
      → LeaveLog d.subscriptions
      → logged (publish ev (subscribe_all (handle_hv_event kvm) d).0 w).1 ≡ logged w ++ ev ∷ []
  logged-attached ev d w h =
      ap logged ((publish-subscribe ev EventType.guest_halt (handle_hv_event kvm) d w).0)
      ∙ logged-handle_hv_event ev (publish ev d w).1
      ∙ ap (λ l. l ++ ev ∷ []) (logged-publish ev d w h)

  -- Publishing counts, and the subscription of the agent stays the last.
  published-subscribed :
      (ev : HvEvent) (d : EventDispatcher (Watched K C)) (w : Watched K C)
      → (publish ev (subscribe_all (handle_hv_event kvm) d).0 w).0
        ≡ (subscribe_all (handle_hv_event kvm) (publish ev d w).0).0
  unfolding publish subscribe_all
  published-subscribed ev d w = refl

  subscriptions-publish :
      (ev : HvEvent) (d : EventDispatcher (Watched K C)) (w : Watched K C)
      → (publish ev d w).0.subscriptions ≡ d.subscriptions
  unfolding publish
  subscriptions-publish ev d w = refl

  LeaveLog-publish :
      (ev : HvEvent) (d : EventDispatcher (Watched K C)) (w : Watched K C)
      → LeaveLog d.subscriptions
      → LeaveLog (publish ev d w).0.subscriptions
  unfolding publish
  LeaveLog-publish ev d w h = h

  logged-publish_all :
      (es : List HvEvent) (d : EventDispatcher (Watched K C)) (w : Watched K C)
      → LeaveLog d.subscriptions
      → logged (publish_all es (subscribe_all (handle_hv_event kvm) d).0 w).1 ≡ logged w ++ es
  logged-publish_all [] d w h = sym (append_nil (logged w))
  logged-publish_all (e ∷ es) d w h =
      let w' = (publish e (subscribe_all (handle_hv_event kvm) d).0 w).1 in
      (λ i. logged (publish_all es (published-subscribed e d w i) w').1)
      ∙ logged-publish_all es (publish e d w).0 w' (LeaveLog-publish e d w h)
      ∙ ap (λ l. l ++ es) (logged-attached e d w h)
      ∙ append_assoc (logged w) e es

  -- The constructor subscribes the agent to the dispatcher that it is given. From then on the log gets
  -- every published event, of every type, once and in the order of publication, whatever
  -- subscribers there were before, if these leave the log alone.
  pub attach_logs :
      (es : List HvEvent) (d : EventDispatcher (Watched K C)) (w : Watched K C)
      → LeaveLog d.subscriptions
      → (d' : EventDispatcher (Watched K C)) × ((attach {C = C} (handle_hv_event kvm) (some d)).1
          ≡ some d')
        × (logged (publish_all es d' w).1 ≡ logged w ++ es)
  unfolding attach
  attach_logs es d w h =
      ((subscribe_all (handle_hv_event kvm) d).0, refl, logged-publish_all es d w h)

module _ {W : Type 0} where
  IdsRise-next : (lo : ℕ) (ss : List (Subscription W)) (hi : ℕ) → IdsRise lo ss hi → lo < hi
  IdsRise-next lo [] hi h = h
  IdsRise-next lo (s ∷ ss) hi h = omega (arith, h.0, IdsRise-next s.id ss hi h.1)

  detached :
      (C : Type 0) (handler : HvEvent → W → W) (d : EventDispatcher W)
      → (d.next_id == 0) ≡ false
      → detach (attach {C = C} handler (some d)).0 (attach {C = C} handler (some d)).1
        ≡ some (unsubscribe d.next_id (subscribe_all handler d).0)
  unfolding attach detach subscribe_all
  detached C handler d nonzero = rw nonzero

  -- An agent that is destroyed right after it was made leaves a well-formed dispatcher with exactly the
  -- subscriptions that it had; an agent without a dispatcher subscribes to nothing.
  pub detach-attach :
      (C : Type 0) (handler : HvEvent → W → W) (d : EventDispatcher W)
      → IsWellFormed d
      → ((d' : EventDispatcher W) × (detach
              (attach {C = C} handler (some d)).0
              (attach {C = C} handler (some d)).1
            ≡ some d')
          × (d'.subscriptions ≡ d.subscriptions))
        × ((attach {C = C} {W = W} handler none).1 ≡ none)
  unfolding attach subscribe_all
  detach-attach C handler d valid = (
    (
      unsubscribe d.next_id (subscribe_all handler d).0,
      detached C handler d (positive (IdsRise-next 0 d.subscriptions d.next_id valid.rising)),
      (unsubscribe-subscribe d EventType.guest_halt handler valid).1,
    ),
    refl,
  )
    where
      positive : {n : ℕ} → 0 < n → (n == 0) ≡ false
      positive h = ground arith
