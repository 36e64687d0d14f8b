-- ===== src/EventDispatcher.antt =====
-- src/EventDispatcher.cpp: the publish-subscribe bus. `W` is the state that handlers act on; a
-- handler does not subscribe or unsubscribe while an event is delivered.
pub mod Routing
pub mod Ids
use min_bp.Prelude.{
  ℕ, ◌+◌, ◌==◌, Bool, true, not, List, [], ◌∷◌, ◌++◌, Option, none, some, keep_if, u32, u64,
  if◌then◌else◌,
}
use min_bp.Event.{EventType, type_eq, HvEvent}

pub record Subscription (W : Type 0) : Type 0 where
  pub id : ℕ
  pub filter : Option EventType
  pub handler : HvEvent → W → W

pub record EventDispatcher (W : Type 0) : Type 0 where
  pub subscriptions : List (Subscription W)
  pub next_id : ℕ
  pub published_count : ℕ

-- `!sub.filter.has_value() || sub.filter.value() == event.type`
unfoldable pub accepts : Option EventType → EventType → Bool
unfolding type_eq
accepts none t = true
accepts (some s) t = type_eq s t

module _ {W : Type 0} where
  abbrev pub new : EventDispatcher W
  new = record { subscriptions = []; next_id = 1; published_count = 0 }

  -- The two subscribe functions differ in the filter alone.
  unfoldable pub add :
      Option EventType → (HvEvent → W → W) → EventDispatcher W → EventDispatcher W × ℕ
  add filter handler d =
      let id = d.next_id in
      (
        record d {
          next_id = u32 (id + 1);
          subscriptions =
              d.subscriptions ++ record { id = id; filter = filter; handler = handler } ∷ [];
        },
        id,
      )

  unfoldable pub subscribe :
      EventType → (HvEvent → W → W) → EventDispatcher W → EventDispatcher W × ℕ
  unfolding add
  subscribe type handler d = add (some type) handler d

  unfoldable pub subscribe_all : (HvEvent → W → W) → EventDispatcher W → EventDispatcher W × ℕ
  unfolding add
  subscribe_all handler d = add none handler d

  unfoldable pub unsubscribe : ℕ → EventDispatcher W → EventDispatcher W
  unsubscribe id d = record d { subscriptions = keep_if (λ s. not (s.id == id)) d.subscriptions }

  -- The loop of `publish`.
  unfoldable pub deliver : HvEvent → List (Subscription W) → W → W
  unfolding accepts
  deliver event [] w = w
  deliver event (sub ∷ subs) w =
      deliver event subs (if accepts sub.filter event.type then sub.handler event w else w)

  unfoldable pub publish : HvEvent → EventDispatcher W → W → EventDispatcher W × W
  unfolding deliver
  publish event d w =
      (record d { published_count = u64 (d.published_count + 1) }, deliver event d.subscriptions w)
