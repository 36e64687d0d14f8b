-- ===== src/Main/Process/Objects/Balance.antt =====
-- Descriptors that are open before any object is made, or held by exactly one object.
use min_bp.Prelude.{
  ℕ, zero, suc, ap₂, subst, ◌+◌, ◌==◌, ◌≡◌, refl, ap, ◌∙◌, sym, ◌⊎◌, inl, inr, Bool, true, false,
  not, ◌&&◌, ◌||◌, some, if◌then◌else◌, ltb, arith, ==_iff,
}
use min_bp.Kvm.{Kvm}
use min_bp.Main.Process.{Process, Same}
use min_bp.Main.Process.Objects.{held}

-- One descriptor: how many objects hold it, whether it is open, and whether it was.
abbrev pub OneOwner : ℕ → Bool → Bool → Type 0
OneOwner n is_open base =
    ((n ≡ 0) × (is_open ≡ base)) ⊎ ((n ≡ 1) × (is_open ≡ true) × (base ≡ false))

OneOwner-grow :
    (t : Bool) (n n' : ℕ) (o o' base : Bool)
    → (t ≡ true → o ≡ false)
    → o' ≡ (t || o)
    → n' ≡ (if t then 1 else 0) + n
    → OneOwner n o base
    → OneOwner n' o' base
OneOwner-grow true n n' o o' base free g c (inl (p, q)) =
    inr (omega (arith, p, c), g, sym q ∙ free refl)
OneOwner-grow true n n' o o' base free g c (inr (p, q, r)) = cc (free refl, q)
OneOwner-grow false n n' o o' base free g c (inl (p, q)) = inl (omega (arith, p, c), g ∙ q)
OneOwner-grow false n n' o o' base free g c (inr (p, q, r)) = inr (omega (arith, p, c), g ∙ q, r)

OneOwner-shrink :
    (gone n n' : ℕ) (o o' base : Bool)
    → o' ≡ (not (ltb 0 gone) && o)
    → n ≡ gone + n'
    → OneOwner n o base
    → OneOwner n' o' base
OneOwner-shrink zero n n' o o' base g c (inl (p, q)) = inl (omega (arith, p, c), g ∙ q)
OneOwner-shrink zero n n' o o' base g c (inr (p, q, r)) = inr (omega (arith, p, c), g ∙ q, r)
OneOwner-shrink (suc gone) n n' o o' base g c (inl (p, q)) = absurd (omega (arith, p, c))
OneOwner-shrink (suc gone) n n' o o' base g c (inr (p, q, r)) =
    inl (omega (arith, p, c), ground arith)

module _ {K : Type 0} (kvm : Kvm K) (laws : Process kvm) where
  -- The descriptor is as it was in `base` and no object holds it, or it was not open, is open now and one
  -- object holds it, once.
  abbrev pub Balanced : (ℕ → Bool) → (ℕ → ℕ) → K → ℕ → Type 0
  Balanced base count k x = OneOwner (count x) (laws.is_open k x) (base x)

  -- What a step does to the descriptors that the objects hold, and to the open ones.
  pub data Effect (count count' : ℕ → ℕ) (k k' : K) : Type 0 where
    kept : ((x : ℕ) → count' x ≡ count x) → Same kvm laws k k' → Effect count count' k k'
    opens :
        (fd : ℕ)
        → laws.is_open k fd ≡ false
        → ((x : ℕ) → laws.is_open k' x ≡ (x == fd || laws.is_open k x))
        → ((x : ℕ) → count' x ≡ held (some fd) x + count x)
        → Effect count count' k k'
    closes :
        (gone : ℕ → ℕ)
        → ((x : ℕ) → laws.is_open k' x ≡ (not (ltb 0 (gone x)) && laws.is_open k x))
        → ((x : ℕ) → count x ≡ gone x + count' x)
        → Effect count count' k k'

  pub Effect-Balanced :
      (base : ℕ → Bool) (count count' : ℕ → ℕ) (k k' : K)
      → Effect count count' k k'
      → ((x : ℕ) → Balanced base count k x)
      → (x : ℕ) → Balanced base count' k' x
  Effect-Balanced base count count' k k' (kept c s) b x =
      subst (λ (p : ℕ × Bool). OneOwner p.0 p.1 (base x))
        (ap₂ (λ n o. (n, o)) (sym (c x)) (sym (s x))) (b x)
  Effect-Balanced base count count' k k' (opens fd free grown c) b x =
      OneOwner-grow (x == fd) (count x) (count' x) (laws.is_open k x) (laws.is_open k' x) (base x)
        (λ e. ap (laws.is_open k) ((==_iff x fd).0 e) ∙ free) (grown x) (c x) (b x)
  Effect-Balanced base count count' k k' (closes gone shrunk c) b x =
      OneOwner-shrink (gone x) (count x) (count' x) (laws.is_open k x) (laws.is_open k' x) (base x)
        (shrunk x) (c x) (b x)
