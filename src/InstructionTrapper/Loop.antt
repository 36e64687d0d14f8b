-- ===== src/InstructionTrapper/Loop.antt =====
-- `runLoop` of src/InstructionTrapper.cpp against the sequence of steps that it makes.
use min_bp.Prelude.{
  ℕ, zero, suc, ◌+◌, ◌^◌, ◌≤◌, ◌<◌, ◌≡◌, ◌≢◌, ◌↔◌, refl, ap, ◌∙◌, sym, ◌⊎◌, inl, inr, Option, none,
  some, ltb, u64, arith, Bool-cases, ltb→lt, ltb→le, subst,
}
use min_bp.Kvm.{Kvm}
use min_bp.InstructionTrapper.{RunResult, Session, step, run_loop}

pub RunResult-cases : (r : RunResult) → (r ≡ RunResult.continue) ⊎ (r ≢ RunResult.continue)
RunResult-cases RunResult.continue = inl refl
RunResult-cases _ = inr (λ e. cc)

-- The counter does not wrap below a limit of 64 bits.
counter : (limit i : ℕ) → limit < 2 ^ 64 → i < limit → u64 (i + 1) ≡ i + 1
counter limit i b h = omega arith

open_or_reached : (limit i : ℕ) → ((limit ≡ 0) ⊎ (i < limit)) ⊎ ((0 < limit) × (limit ≤ i))
open_or_reached zero i = inl (inl refl)
open_or_reached (suc n) i = elim (Bool-cases (ltb i (suc n))) [
  | inl e ↦ inl (inr (ltb→lt i (suc n) e))
  | inr e ↦ inr (omega arith, ltb→le i (suc n) e)
]

module _ {K U : Type 0} (kvm : Kvm K) where
  -- `n` steps that each let the guest go on, from one session to another.
  pub data Continues : ℕ → Session K U → Session K U → Type 0 where
    here : (s : Session K U) → Continues 0 s s
    further :
        {n : ℕ} {s t : Session K U}
        → (step kvm s).0 ≡ RunResult.continue
        → Continues n (step kvm s).1 t
        → Continues (suc n) s t

  -- How a run ends whose counter stands at `i`: by the limit, or by a step that does not continue,
  -- after `n` steps that do.
  pub data Ends (limit i : ℕ) (s : Session K U) : RunResult → Session K U → Type 0 where
    by_limit :
        {t : Session K U} (n : ℕ)
        → 0 < limit
        → i + n ≡ limit
        → Continues n s t
        → Ends limit i s RunResult.continue t
    by_step :
        {t u : Session K U} {r : RunResult} (n : ℕ)
        → (limit ≡ 0) ⊎ (i + n < limit)
        → Continues n s t
        → step kvm t ≡ (r, u)
        → r ≢ RunResult.continue
        → Ends limit i s r u

  round_limit :
      (fuel limit i : ℕ) (s : Session K U)
      → 0 < limit
      → limit ≤ i
      → run_loop kvm (suc fuel) limit i s ≡ some (RunResult.continue, s)
  unfolding run_loop
  round_limit fuel limit i s p h = ground arith

  pub round_more :
      (fuel limit i : ℕ) (s : Session K U)
      → (limit ≡ 0) ⊎ (i < limit)
      → (step kvm s).0 ≡ RunResult.continue
      → run_loop kvm (suc fuel) limit i s ≡ run_loop kvm fuel limit (u64 (i + 1)) (step kvm s).1
  unfolding run_loop
  round_more fuel limit i s h c = ground arith

  pub round_stop :
      (fuel limit i : ℕ) (s : Session K U)
      → (limit ≡ 0) ⊎ (i < limit)
      → (step kvm s).0 ≢ RunResult.continue
      → run_loop kvm (suc fuel) limit i s ≡ some (step kvm s)
  unfolding run_loop
  round_stop fuel limit i s h c = ground arith

  prepend :
      {limit i : ℕ} {s u : Session K U} {r : RunResult}
      → limit < 2 ^ 64
      → (limit ≡ 0) ⊎ (i < limit)
      → (step kvm s).0 ≡ RunResult.continue
      → Ends limit (u64 (i + 1)) (step kvm s).1 r u
      → Ends limit i s r u
  prepend b h c (by_limit n p e cs) = by_limit (suc n) p (ground arith) (further c cs)
  prepend b h c (by_step n l cs e d) = by_step (suc n) (ground arith) (further c cs) e d

  abbrev EndsIn : ℕ → ℕ → Session K U → Option (RunResult × Session K U) → Type 0
  EndsIn limit i s none = Unit {0}
  EndsIn limit i s (some r) = Ends limit i s r.0 r.1

  EndsIn-prepend :
      (limit i : ℕ) (s : Session K U) (o : Option (RunResult × Session K U))
      → limit < 2 ^ 64
      → (limit ≡ 0) ⊎ (i < limit)
      → (step kvm s).0 ≡ RunResult.continue
      → EndsIn limit (u64 (i + 1)) (step kvm s).1 o
      → EndsIn limit i s o
  EndsIn-prepend limit i s none b h c e = tt
  EndsIn-prepend limit i s (some r) b h c e = prepend b h c e

  sound :
      (fuel limit i : ℕ) (s : Session K U)
      → limit < 2 ^ 64
      → (limit ≡ 0) ⊎ (i ≤ limit)
      → EndsIn limit i s (run_loop kvm fuel limit i s)
  sound zero limit i s b h = unfold run_loop in tt
  sound (suc fuel) limit i s b h = elim (open_or_reached limit i) [
    | inr (p, q) ↦ rw (round_limit fuel limit i s p q) (by_limit 0 p (ground arith) (here s))
    | inl o ↦ elim (RunResult-cases (step kvm s).0) [
      | inl c ↦ rw (round_more fuel limit i s o c) (
          EndsIn-prepend limit i s _ b o c
            (sound fuel limit (u64 (i + 1)) (step kvm s).1 b (ground arith)))
      | inr d ↦ rw (round_stop fuel limit i s o d) (by_step 0 (ground arith) (here s) refl d)
    ]
  ]

  complete_limit :
      {n : ℕ} {s t : Session K U} (limit i : ℕ)
      → limit < 2 ^ 64
      → 0 < limit
      → i + n ≡ limit
      → Continues n s t
      → run_loop kvm (suc n) limit i s ≡ some (RunResult.continue, t)
  complete_limit limit i b p e (here s) = round_limit 0 limit i s p (omega arith)
  complete_limit limit i b p e (further {n = n} {s = s} c cs) =
      round_more (suc n) limit i s (inr (omega arith)) c
      ∙ rw (counter limit i b (omega arith)) (complete_limit limit (i + 1) b p (omega arith) cs)

  complete_step :
      {n : ℕ} {s t u : Session K U} {r : RunResult} (limit i : ℕ)
      → limit < 2 ^ 64
      → (limit ≡ 0) ⊎ (i + n < limit)
      → Continues n s t
      → step kvm t ≡ (r, u)
      → r ≢ RunResult.continue
      → run_loop kvm (suc n) limit i s ≡ some (r, u)
  complete_step limit i b h (here s) e d =
      round_stop 0 limit i s (ground arith) (λ c. d (sym (ap (λ p. p.0) e) ∙ c)) ∙ ap some e
  complete_step limit i b h (further {n = n} {s = s} c cs) e d =
      round_more (suc n) limit i s (ground arith) c
      ∙ complete_step limit (u64 (i + 1)) b (ground arith) cs e d

  finishes :
      (limit : ℕ) (s : Session K U) {r : RunResult} {u : Session K U}
      → limit < 2 ^ 64
      → Ends limit 0 s r u
      → (fuel : ℕ) × (run_loop kvm fuel limit 0 s ≡ some (r, u))
  finishes limit s b (by_limit n p e cs) = (suc n, complete_limit limit 0 b p e cs)
  finishes limit s b (by_step n h cs e d) = (suc n, complete_step limit 0 b h cs e d)

  -- For every limit of 64 bits, the run loop returns `r` in the session `u` (with some fuel) exactly
  -- when `r` and `u` end a sequence of steps: either `r` is `Continue` and the limit, which is not 0,
  -- is the number of steps made, all of which continue; or a step that does not continue gives `r`
  -- and `u`, after steps that all continue and whose number is below the limit unless that is 0.
  pub run_loop_iff :
      (limit : ℕ) (s : Session K U) (r : RunResult) (u : Session K U)
      → limit < 2 ^ 64
      → ((fuel : ℕ) × (run_loop kvm fuel limit 0 s ≡ some (r, u))) ↔ Ends limit 0 s r u
  run_loop_iff limit s r u b = (
    λ returned.
        subst (EndsIn limit 0 s) returned.1 (sound returned.0 limit 0 s b (inr (omega arith))),
    finishes limit s b,
  )

  returns_from :
      (fuel limit i : ℕ) (s : Session K U)
      → limit < 2 ^ 64
      → 0 < limit
      → limit ≤ i + fuel
      → i ≤ limit
      → (r : RunResult × Session K U) × (run_loop kvm (suc fuel) limit i s ≡ some r)
  returns_from zero limit i s b p h l =
      ((RunResult.continue, s), round_limit 0 limit i s p (omega arith))
  returns_from (suc fuel) limit i s b p h l = elim (open_or_reached limit i) [
    | inr (_, q) ↦ ((RunResult.continue, s), round_limit (suc fuel) limit i s p q)
    | inl o ↦ elim (RunResult-cases (step kvm s).0) [
      | inr d ↦ (step kvm s, round_stop (suc fuel) limit i s o d)
      | inl c ↦
          let i' : i < limit = ground arith in
          rw (round_more (suc fuel) limit i s o c, counter limit i b i')
            (returns_from fuel limit (i + 1) (step kvm s).1 b p (omega arith) (omega arith))
    ]
  ]

  -- A run with a limit of 64 bits other than 0 returns: one round more than the limit is fuel enough.
  pub run_loop_returns :
      (limit : ℕ) (s : Session K U)
      → 0 < limit
      → limit < 2 ^ 64
      → (r : RunResult × Session K U) × (run_loop kvm (suc limit) limit 0 s ≡ some r)
  run_loop_returns limit s p b = returns_from limit limit 0 s b p (omega arith) (omega arith)
