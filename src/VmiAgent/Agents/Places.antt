-- ===== src/VmiAgent/Agents/Places.antt =====
-- The objects at their addresses after one was placed.
use min_bp.Prelude.{
  ℕ, ◌==◌, ==_iff, ==_refl, false, ◌≡◌, ◌≢◌, ◌⊎◌, refl, ap, ◌∙◌, sym, true, some, Option,
  if◌then◌else◌, Bool-cases, inl, inr,
}
use min_bp.VmiAgent.Agents.{Cell, place}
use min_bp.VmiAgent.Agents.Bound.{held_by}

module _ {C : Type 0} where
  pub place_here :
      (cells : ℕ → Option (Cell C)) (a : ℕ) (o : Option (Cell C)) → place cells a o a ≡ o
  place_here cells a o = rw (==_refl a) refl

  pub place_elsewhere :
      (cells : ℕ → Option (Cell C)) (a : ℕ) (o : Option (Cell C)) (p : ℕ)
      → (p == a) ≡ false
      → place cells a o p ≡ cells p
  place_elsewhere cells a o p h = rw h refl

  -- An object that is placed where one of the same shape stands.
  pub shape-place :
      (cells : ℕ → Option (Cell C)) (a : ℕ) (o : Option (Cell C))
      → held_by o ≡ held_by (cells a)
      → (p : ℕ) → held_by (place cells a o p) ≡ held_by (cells p)
  shape-place cells a o e p = elim (Bool-cases (p == a)) [
    | inl q ↦ rw q (e ∙ ap (λ n. held_by (cells n)) (sym ((==_iff p a).0 q)))
    | inr q ↦ rw q refl
  ]

  pub held-place :
      (cells : ℕ → Option (Cell C)) (a : ℕ) (o : Option (Cell C)) (p : ℕ)
      → held_by (place cells a o p) ≡ (if p == a then held_by o else held_by (cells p))
  held-place cells a o p = elim (Bool-cases (p == a)) [ inl q ↦ rw q refl | inr q ↦ rw q refl ]

  pub kept-place :
      (cells : ℕ → Option (Cell C)) (a : ℕ) (o : Option (Cell C)) (p id : ℕ)
      → held_by (cells a) ≢ some (true, id)
      → held_by (cells p) ≡ some (true, id)
      → held_by (place cells a o p) ≡ some (true, id)
  kept-place cells a o p id before h = elim (Bool-cases (p == a)) [
    | inl q ↦ absurd (before (ap (λ c. held_by (cells c)) (sym ((==_iff p a).0 q)) ∙ h))
    | inr q ↦ held-place cells a o p ∙ rw q h
  ]

  pub new-place :
      (cells : ℕ → Option (Cell C)) (a : ℕ) (o : Option (Cell C)) (p id : ℕ)
      → held_by (place cells a o p) ≡ some (true, id)
      → (held_by (cells p) ≡ some (true, id)) ⊎ ((held_by o ≡ some (true, id)) × (a ≡ p))
  new-place cells a o p id h = elim (Bool-cases (p == a)) [
    | inl q ↦
        let e : held_by (place cells a o p) ≡ held_by o = held-place cells a o p ∙ rw q refl in
        inr (sym e ∙ h, sym ((==_iff p a).0 q))
    | inr q ↦
        let e : held_by (place cells a o p) ≡ held_by (cells p) =
          held-place cells a o p ∙ rw q refl in
        inl (sym e ∙ h)
  ]
