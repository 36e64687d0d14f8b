-- ===== src/VmiAgent/Agents/Subscribed.antt =====
-- Subscribing and unsubscribing at src/EventDispatcher.cpp keep each subscription with its agent.
use min_bp.Prelude.{
  ℕ, ◌+◌, ◌<◌, ◌==◌, ==_iff, ◌≡◌, refl, ap, ◌∙◌, sym, Bool, true, false, not, List, [], ◌∷◌, ◌++◌,
  keep_if, Option, none, some, if◌then◌else◌, arith, Bool-cases, inl, inr, ◌⊎◌,
}
use min_bp.Kvm.{Kvm}
use min_bp.EventDispatcher.{Subscription}
use min_bp.VmiAgent.Agents.{Agents}
use min_bp.VmiAgent.Agents.Delivery.{other_owner}
use min_bp.VmiAgent.Agents.Bound.{Owner, client, closure, AllOwned, uses, Bound}

-- The owner of a new id.
abbrev pub with_owner : (ℕ → Option ℕ) → ℕ → Option ℕ → ℕ → Option ℕ
with_owner who id o j = if j == id then o else who j

with_owner_other :
    (who : ℕ → Option ℕ) (id : ℕ) (o : Option ℕ) (j : ℕ) → j < id → with_owner who id o j ≡ who j
with_owner_other who id o j h = ground arith

module _ {K C : Type 0} (kvm : Kvm K) where
  uses-append :
      (id : ℕ) (ss : List (Subscription (Agents K C))) (s : Subscription (Agents K C))
      → uses id (ss ++ s ∷ []) ≡ uses id ss + (if s.id == id then 1 else 0)
  uses-append id [] s = omega arith
  uses-append id (t ∷ ss) s = omega (arith, uses-append id ss s)

  uses-keep_if :
      (id j : ℕ) (ss : List (Subscription (Agents K C)))
      → (id == j) ≡ false
      → uses j (keep_if (λ s. not (s.id == id)) ss) ≡ uses j ss
  uses-keep_if id j [] h = refl
  uses-keep_if id j (s ∷ ss) h = ground (arith, uses-keep_if id j ss h)

  AllOwned-append :
      (who : ℕ → Option ℕ) (held : ℕ → Option (Bool × ℕ)) (n : ℕ)
      (ss : List (Subscription (Agents K C))) (s : Subscription (Agents K C))
      → AllOwned kvm who held n ss
      → 0 < s.id
      → s.id < n
      → Owner kvm who held s
      → AllOwned kvm who held n (ss ++ s ∷ [])
  AllOwned-append who held n [] s owned p q o = (p, q, o, tt)
  AllOwned-append who held n (t ∷ ss) s owned p q o =
      (owned.0, owned.1, owned.2, AllOwned-append who held n ss s owned.3 p q o)

  module _ (who : ℕ → Option ℕ) (held : ℕ → Option (Bool × ℕ)) where
    uses_unused :
        (id n : ℕ) (ss : List (Subscription (Agents K C)))
        → n < id + 1
        → AllOwned kvm who held n ss
        → uses id ss ≡ 0
    uses_unused id n [] h owned = refl
    uses_unused id n (s ∷ ss) h owned = ground (arith, uses_unused id n ss h owned.3, owned.1)

    pub AllOwned-map :
        (who' : ℕ → Option ℕ) (held' : ℕ → Option (Bool × ℕ)) (n n' : ℕ)
        (ss : List (Subscription (Agents K C)))
        → n < n' + 1
        → ((s : Subscription (Agents K C))
            → s.id < n
            → Owner kvm who held s
            → Owner kvm who' held' s)
        → AllOwned kvm who held n ss
        → AllOwned kvm who' held' n' ss
    AllOwned-map who' held' n n' [] h f owned = tt
    AllOwned-map who' held' n n' (s ∷ ss) h f owned = (
      owned.0,
      omega (arith, owned.1),
      f s owned.1 owned.2,
      AllOwned-map who' held' n n' ss h f owned.3,
    )

    -- A new subscription, of the owner `o`.
    pub Bound-append :
        (held' : ℕ → Option (Bool × ℕ)) (n : ℕ) (o : Option ℕ)
        (ss : List (Subscription (Agents K C))) (s : Subscription (Agents K C))
        → s.id ≡ n
        → Owner kvm (with_owner who n o) held' s
        → ((a id : ℕ) → held a ≡ some (true, id) → held' a ≡ some (true, id))
        → ((a id : ℕ)
            → held' a ≡ some (true, id)
            → (held a ≡ some (true, id)) ⊎ ((id ≡ n) × (o ≡ some a)))
        → Bound kvm who held n ss
        → Bound kvm (with_owner who n o) held' (n + 1) (ss ++ s ∷ [])
    Bound-append held' n o ss s e own up down b = record {
      fresh = omega arith;
      owned =
          AllOwned-append (with_owner who n o) held' (n + 1) ss s
            (AllOwned-map (with_owner who n o) held' n (n + 1) ss (omega arith) kept b.owned)
            (omega (arith, b.fresh, e)) (omega (arith, e)) own;
      given = λ a id h. ids a id h (down a id h);
    }
      where
        kept :
            (t : Subscription (Agents K C))
            → t.id < n
            → Owner kvm who held t
            → Owner kvm (with_owner who n o) held' t
        kept t h (client p l) = client (with_owner_other who n o t.id h ∙ p) l
        kept t h (closure a p f c live) =
            closure a (with_owner_other who n o t.id h ∙ p) f c (up a t.id live)

        ids :
            (a id : ℕ)
            → held' a ≡ some (true, id)
            → (held a ≡ some (true, id)) ⊎ ((id ≡ n) × (o ≡ some a))
            → (with_owner who n o id ≡ some a)
              × (0 < id)
              × (id < n + 1)
              × (uses id (ss ++ s ∷ []) ≡ 1)
        ids a id h (inl old) =
            let g = b.given a id old in
            (
              with_owner_other who n o id g.2 ∙ g.0,
              g.1,
              omega (arith, g.2),
              uses-append id ss s ∙ ground (arith, g.2, g.3, e),
            )
        ids a id h (inr (new, mine)) = (
          ground (arith, new, mine),
          omega (arith, new, b.fresh),
          omega (arith, new),
          uses-append id ss s
              ∙ ground (arith, uses_unused id n ss (omega (arith, new)) b.owned, e, new),
        )

    -- All subscriptions of an id removed.
    pub keep_if-AllOwned :
        (held' : ℕ → Option (Bool × ℕ)) (id n : ℕ) (ss : List (Subscription (Agents K C)))
        → ((s : Subscription (Agents K C))
            → (s.id == id) ≡ false
            → Owner kvm who held s
            → Owner kvm who held' s)
        → AllOwned kvm who held n ss
        → AllOwned kvm who held' n (keep_if (λ s. not (s.id == id)) ss)
    keep_if-AllOwned held' id n [] f owned = tt
    keep_if-AllOwned held' id n (s ∷ ss) f owned = elim (Bool-cases (s.id == id)) [
      | inl e ↦ rw e (keep_if-AllOwned held' id n ss f owned.3)
      | inr e ↦ rw e (owned.0, owned.1, f s e owned.2, keep_if-AllOwned held' id n ss f owned.3)
    ]

    -- The subscription of an agent removed together with the agent.
    pub Bound-remove :
        (held' : ℕ → Option (Bool × ℕ)) (a id n : ℕ) (ss : List (Subscription (Agents K C)))
        → held a ≡ some (true, id)
        → ((b : ℕ) → held' b ≡ (if b == a then none else held b))
        → Bound kvm who held n ss
        → Bound kvm who held' n (keep_if (λ s. not (s.id == id)) ss)
    Bound-remove held' a id n ss live e b = record {
      fresh = b.fresh;
      owned = keep_if-AllOwned held' id n ss kept b.owned;
      given = λ c j h. elim (Bool-cases (c == a)) [
        | inl q ↦ let gone : held' c ≡ none = e c ∙ rw q refl in cc (h, gone)
        | inr q ↦ ids c j q (sym (e c ∙ rw q refl) ∙ h)
      ];
    }
      where
        kept :
            (s : Subscription (Agents K C))
            → (s.id == id) ≡ false
            → Owner kvm who held s
            → Owner kvm who held' s
        kept s h (client p l) = client p l
        kept s h (closure c p f q l) = elim (Bool-cases (c == a)) [
          | inl k ↦
              let same : s.id ≡ id = cc (l, live, ap held ((==_iff c a).0 k)) in
              cc (h, (==_iff s.id id).1 same)
          | inr k ↦ closure c p f q (e c ∙ rw k l)
        ]

        ids :
            (c j : ℕ)
            → (c == a) ≡ false
            → held c ≡ some (true, j)
            → (who j ≡ some c)
              × (0 < j)
              × (j < n)
              × (uses j (keep_if (λ s. not (s.id == id)) ss) ≡ 1)
        ids c j q h =
            let g = b.given c j h in
            let mine = b.given a id live in
            (
              g.0,
              g.1,
              g.2,
              uses-keep_if id j ss (
                    other_owner who id j (some a) c mine.0 g.0
                      (λ k. let s : c ≡ a = cc k in cc (q, (==_iff c a).1 s)))
                  ∙ g.3,
            )

    -- The same subscriptions, and the same agents with a dispatcher.
    pub Bound-same :
        (held' : ℕ → Option (Bool × ℕ)) (n : ℕ) (ss : List (Subscription (Agents K C)))
        → ((a id : ℕ) → held a ≡ some (true, id) → held' a ≡ some (true, id))
        → ((a id : ℕ) → held' a ≡ some (true, id) → held a ≡ some (true, id))
        → Bound kvm who held n ss
        → Bound kvm who held' n ss
    Bound-same held' n ss up down b = record {
      fresh = b.fresh;
      owned = AllOwned-map who held' n n ss (omega arith) kept b.owned;
      given = λ a id h. b.given a id (down a id h);
    }
      where
        kept :
            (s : Subscription (Agents K C))
            → s.id < n
            → Owner kvm who held s
            → Owner kvm who held' s
        kept s h (client p l) = client p l
        kept s h (closure c p f q l) = closure c p f q (up c s.id l)
