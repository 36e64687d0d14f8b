-- ===== src/EventDispatcher/Routing.antt =====
-- Which handlers an event of src/EventDispatcher.cpp reaches, and in which order.
use min_bp.Prelude.{
  ◌+◌, ◌%◌, ◌^◌, ◌<◌, ◌≡◌, refl, ap, ◌⊎◌, inl, inr, true, List, [], ◌∷◌, ◌++◌, Option, none, some,
  keep_if, length, u64, arith, Bool-cases,
}
use min_bp.Event.{EventType, type_eq, HvEvent}
use min_bp.EventDispatcher.{
  Subscription, EventDispatcher, accepts, subscribe, subscribe_all, deliver, publish,
}

-- A subscription is meant for a type if it has no filter, or that type for its filter.
abbrev pub Matches : Option EventType → EventType → Type 0
Matches f t = (f ≡ none) ⊎ (f ≡ some t)

type_eq-eq : (s t : EventType) → type_eq s t ≡ true → s ≡ t
unfolding type_eq
type_eq-eq s t h = ground arith

pub type_eq_refl : (t : EventType) → type_eq t t ≡ true
unfolding type_eq
type_eq_refl t = ground arith

accepts-Matches : (f : Option EventType) (t : EventType) → accepts f t ≡ true → Matches f t
unfolding accepts
accepts-Matches none t h = inl refl
accepts-Matches (some s) t h = inr (ap some (type_eq-eq s t h))

Matches-accepts : (f : Option EventType) (t : EventType) → Matches f t → accepts f t ≡ true
unfolding accepts
Matches-accepts none t h = refl
Matches-accepts (some s) t h = ground (arith, type_eq_refl t)

module _ {W : Type 0} where
  -- Those of a list of subscriptions that an event is meant for, in their order.
  pub data Recipients (t : EventType) : List (Subscription W) → List (Subscription W) → Type 0 where
    done : Recipients t [] []
    meant :
        {s : Subscription W} {ss rs : List (Subscription W)}
        → Matches s.filter t
        → Recipients t ss rs
        → Recipients t (s ∷ ss) (s ∷ rs)
    skipped :
        {s : Subscription W} {ss rs : List (Subscription W)}
        → ¬ Matches s.filter t
        → Recipients t ss rs
        → Recipients t (s ∷ ss) rs

  -- The handlers of a list of subscriptions, run one after the other.
  abbrev pub run_handlers : HvEvent → List (Subscription W) → W → W
  run_handlers event [] w = w
  run_handlers event (s ∷ ss) w = run_handlers event ss (s.handler event w)

  abbrev recipients : EventType → List (Subscription W) → List (Subscription W)
  recipients t = keep_if (λ s. accepts s.filter t)

  recipients-Recipients :
      (t : EventType) (ss : List (Subscription W)) → Recipients t ss (recipients t ss)
  recipients-Recipients t [] = done
  recipients-Recipients t (s ∷ ss) = elim (Bool-cases (accepts s.filter t)) [
    | inl e ↦ rw e (meant (accepts-Matches s.filter t e) (recipients-Recipients t ss))
    | inr e ↦ rw e (skipped (λ m. cc (Matches-accepts s.filter t m)) (recipients-Recipients t ss))
  ]

  deliver-recipients :
      (event : HvEvent) (ss : List (Subscription W)) (w : W)
      → deliver event ss w ≡ run_handlers event (recipients event.type ss) w
  unfolding deliver
  deliver-recipients event [] w = refl
  deliver-recipients event (s ∷ ss) w = elim (Bool-cases (accepts s.filter event.type)) [
    | inl e ↦ rw e (deliver-recipients event ss (s.handler event w))
    | inr e ↦ rw e (deliver-recipients event ss w)
  ]

  -- Publishing runs the handlers of exactly the subscriptions that have no filter or the event's
  -- type for their filter, each once and in the order of subscription; it adds one to the count,
  -- which wraps at 2 ^ 64, and changes nothing else of the dispatcher.
  pub publish-Recipients :
      (event : HvEvent) (d : EventDispatcher W) (w : W)
      → (rs : List (Subscription W)) × Recipients event.type d.subscriptions rs
        × (publish event d w
            ≡ (record d { published_count = u64 (d.published_count + 1) }, run_handlers event rs w))
  unfolding publish
  publish-Recipients event d w = (
    recipients event.type d.subscriptions,
    recipients-Recipients event.type d.subscriptions,
    ap (λ (v : W). (record d { published_count = u64 (d.published_count + 1) }, v))
        (deliver-recipients event d.subscriptions w),
  )

  pub deliver-append :
      (event : HvEvent) (ss ts : List (Subscription W)) (w : W)
      → deliver event (ss ++ ts) w ≡ deliver event ts (deliver event ss w)
  unfolding deliver
  deliver-append event [] ts w = refl
  deliver-append event (s ∷ ss) ts w = deliver-append event ss ts _

  -- A handler that subscribes last runs last: after the others when the event has its type (or the
  -- handler takes all types), and not at all when the event has another type.
  pub publish-subscribe :
      (event : HvEvent) (type : EventType) (h : HvEvent → W → W) (d : EventDispatcher W) (w : W)
      → ((publish event (subscribe_all h d).0 w).1 ≡ h event (publish event d w).1)
        × (event.type ≡ type
            → (publish event (subscribe type h d).0 w).1 ≡ h event (publish event d w).1)
        × (¬ (event.type ≡ type)
            → (publish event (subscribe type h d).0 w).1 ≡ (publish event d w).1)
  unfolding publish subscribe subscribe_all
  publish-subscribe event type h d w = (
    deliver-append event d.subscriptions _ w,
    λ e. rw (deliver-append event d.subscriptions) (ground (arith, type_eq_refl event.type)),
    λ n. rw (deliver-append event d.subscriptions) (ground (arith, type_eq-eq type event.type)),
  )

  -- The events of a list, published one after the other.
  abbrev pub publish_all : List HvEvent → EventDispatcher W → W → EventDispatcher W × W
  publish_all [] d w = (d, w)
  publish_all (e ∷ es) d w = let r = publish e d w in publish_all es r.0 r.1

  -- The count of a run of events is their number, wrapped at 2 ^ 64, whatever the subscriptions.
  pub published_count-publish_all :
      (es : List HvEvent) (d : EventDispatcher W) (w : W)
      → d.published_count < 2 ^ 64
      → (publish_all es d w).0.published_count ≡ (d.published_count + length es) % 2 ^ 64
  unfolding publish
  published_count-publish_all [] d w h = omega arith
  published_count-publish_all (e ∷ es) d w h =
      omega
        (arith, published_count-publish_all es (publish e d w).0 (publish e d w).1 (omega arith))
