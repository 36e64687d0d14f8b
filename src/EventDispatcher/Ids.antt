-- ===== src/EventDispatcher/Ids.antt =====
-- Subscription ids of src/EventDispatcher.cpp are positive, distinct and below the next one.
use min_bp.Prelude.{
  ℕ, ◌+◌, ◌%◌, ◌^◌, ◌<◌, ◌==◌, ◌≡◌, refl, inl, inr, not, List, [], ◌∷◌, ◌++◌, keep_if, arith,
  Bool-cases,
}
use min_bp.Event.{EventType, HvEvent}
use min_bp.EventDispatcher.{
  Subscription, EventDispatcher, new, subscribe, subscribe_all, unsubscribe, publish,
}

module _ {W : Type 0} where
  -- The ids rise strictly from above `lo` to below `hi`.
  abbrev pub IdsRise : ℕ → List (Subscription W) → ℕ → Type 0
  IdsRise lo [] hi = lo < hi
  IdsRise lo (s ∷ ss) hi = (lo < s.id) × IdsRise s.id ss hi

  pub record IsWellFormed (d : EventDispatcher W) : Type 0 where
    pub rising : IdsRise 0 d.subscriptions d.next_id

  IdsRise-lt : (lo hi : ℕ) (ss : List (Subscription W)) → IdsRise lo ss hi → lo < hi
  IdsRise-lt lo hi [] r = r
  IdsRise-lt lo hi (s ∷ ss) r = omega (arith, IdsRise-lt s.id hi ss r.1)

  IdsRise-append :
      (lo : ℕ) (ss : List (Subscription W)) (s : Subscription W) (hi : ℕ)
      → IdsRise lo ss s.id
      → s.id < hi
      → IdsRise lo (ss ++ s ∷ []) hi
  IdsRise-append lo [] s hi r h = (r, h)
  IdsRise-append lo (t ∷ ss) s hi r h = (r.0, IdsRise-append t.id ss s hi r.1 h)

  IdsRise-mono :
      (lo lo' hi : ℕ) (ss : List (Subscription W)) → lo' < lo → IdsRise lo ss hi → IdsRise lo' ss hi
  IdsRise-mono lo lo' hi [] h r = omega arith
  IdsRise-mono lo lo' hi (s ∷ ss) h r = (omega arith, r.1)

  IdsRise-keep_if :
      (id lo hi : ℕ) (ss : List (Subscription W))
      → IdsRise lo ss hi
      → IdsRise lo (keep_if (λ s. not (s.id == id)) ss) hi
  IdsRise-keep_if id lo hi [] r = r
  IdsRise-keep_if id lo hi (s ∷ ss) r =
      let rest = IdsRise-keep_if id s.id hi ss r.1 in
      elim (Bool-cases (s.id == id)) [
        | inl e ↦ rw e (IdsRise-mono s.id lo hi _ r.0 rest)
        | inr e ↦ rw e (r.0, rest)
      ]

  keep_if_earlier :
      (id lo : ℕ) (ss : List (Subscription W)) (s : Subscription W)
      → s.id ≡ id
      → IdsRise lo ss id
      → keep_if (λ t. not (t.id == id)) (ss ++ s ∷ []) ≡ ss
  keep_if_earlier id lo [] s e r = ground arith
  keep_if_earlier id lo (t ∷ ss) s e r =
      ground (arith, keep_if_earlier id t.id ss s e r.1, IdsRise-lt t.id id ss r.1)

  -- A new dispatcher is well-formed, and every operation keeps the subscription ids positive, distinct and below the next id, as long
  -- as fewer than 2 ^ 32 - 1 ids have been given out.
  pub operations-IsWellFormed :
      (d : EventDispatcher W)
      → IsWellFormed d
      → IsWellFormed (new {W = W})
        × ((type : EventType) (h : HvEvent → W → W)
            → d.next_id + 1 < 2 ^ 32
            → IsWellFormed (subscribe type h d).0)
        × ((h : HvEvent → W → W) → d.next_id + 1 < 2 ^ 32 → IsWellFormed (subscribe_all h d).0)
        × ((id : ℕ) → IsWellFormed (unsubscribe id d))
        × ((event : HvEvent) (w : W) → IsWellFormed (publish event d w).0)
  unfolding subscribe subscribe_all unsubscribe publish
  operations-IsWellFormed d v = (
    record { rising = omega arith },
    λ type h bound. record { rising = grown _ (omega arith) refl },
    λ h bound. record { rising = grown _ (omega arith) refl },
    λ id. record { rising = IdsRise-keep_if id 0 d.next_id d.subscriptions v.rising },
    λ event w. record { rising = v.rising },
  )
    where
      grown :
          (s : Subscription W)
          → d.next_id + 1 < 2 ^ 32
          → s.id ≡ d.next_id
          → IdsRise 0 (d.subscriptions ++ s ∷ []) ((d.next_id + 1) % 2 ^ 32)
      grown s bound e = IdsRise-append 0 d.subscriptions s _ (rw e v.rising) (omega arith)

  -- In a well-formed dispatcher, `unsubscribe` with the id that a subscription has just returned
  -- leaves exactly the earlier subscriptions: an event then has the effect that it had before.
  pub unsubscribe-subscribe :
      (d : EventDispatcher W) (type : EventType) (h : HvEvent → W → W)
      → IsWellFormed d
      → (let (d', id) = subscribe type h d in (unsubscribe id d').subscriptions ≡ d.subscriptions)
        × (let (d', id) = subscribe_all h d in (unsubscribe id d').subscriptions ≡ d.subscriptions)
  unfolding subscribe subscribe_all unsubscribe
  unsubscribe-subscribe d type h v = (
    keep_if_earlier d.next_id 0 d.subscriptions _ refl v.rising,
    keep_if_earlier d.next_id 0 d.subscriptions _ refl v.rising,
  )
