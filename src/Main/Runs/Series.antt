-- ===== src/Main/Runs/Series.antt =====
-- The runs of src/main.cpp against the sequence of the guest's exits.
use min_bp.Prelude.{
  ℕ, zero, suc, ◌+◌, ◌≤◌, ◌<◌, ◌≡◌, ◌≢◌, refl, ap, ◌∙◌, sym, ◌⊎◌, inl, inr, Option, none, some, u64,
  arith, Option-cases, subst,
}
use min_bp.Kvm.{Machine, Kvm}
use min_bp.VirtualMachine.{VmSnapShot}
use min_bp.InstructionTrapper.{RunResult, Session, after_run, step, run_loop}
use min_bp.InstructionTrapper.Loop.{
  Continues, Ends, here, further, by_limit, by_step, round_more, round_stop, run_loop_iff,
}
use min_bp.Main.State.{ProgramState}
use min_bp.Main.Runs.{start_run, one_run, runs}

error-cases : (r : RunResult) → (r ≡ RunResult.error) ⊎ (r ≢ RunResult.error)
error-cases RunResult.error = inl refl
error-cases _ = inr (λ e. cc)

module _ {K : Type 0} (kvm : Kvm K) where
  abbrev Program : Type 0
  Program = Session K ProgramState

  -- How `n` runs from number `i` on take the program from one session to another with a status: all
  -- have been made; or the next one starts and its exits end in an error; or they end in another way
  -- and the further runs follow.
  pub data Series (snap : VmSnapShot) : ℕ → ℕ → Program → ℕ → Program → Type 0 where
    over : (i : ℕ) (s : Program) → Series snap 0 i s 0 s
    stopped :
        {n i : ℕ} {s u : Program} (m : Machine K)
        → start_run kvm s.world.user.vm snap i s.world.machine ≡ some m
        → Ends kvm 0 0 (after_run kvm s m) RunResult.error u
        → Series snap (suc n) i s 1 u
    followed :
        {n i status : ℕ} {s u t : Program} {r : RunResult} (m : Machine K)
        → start_run kvm s.world.user.vm snap i s.world.machine ≡ some m
        → Ends kvm 0 0 (after_run kvm s m) r u
        → r ≢ RunResult.error
        → Series snap n (i + 1) u status t
        → Series snap (suc n) i s status t

  one_run-started :
      (fuel : ℕ) (snap : VmSnapShot) (i : ℕ) (s : Program) (m : Machine K)
      → start_run kvm s.world.user.vm snap i s.world.machine ≡ some m
      → one_run kvm fuel snap i s ≡ run_loop kvm fuel 0 0 (after_run kvm s m)
  unfolding one_run
  one_run-started fuel snap i s m e = rw (e, one_run) refl

  nothing :
      (fuel : ℕ) (snap : VmSnapShot) (i : ℕ) (s u : Program) (r : RunResult)
      → start_run kvm s.world.user.vm snap i s.world.machine ≡ none
      → one_run kvm fuel snap i s ≢ some (r, u)
  unfolding one_run
  nothing fuel snap i s u r stuck e =
      let ended : one_run kvm fuel snap i s ≡ none = rw (stuck, one_run) refl in cc

  one_run-Ends :
      (fuel : ℕ) (snap : VmSnapShot) (i : ℕ) (s u : Program) (r : RunResult)
      → one_run kvm fuel snap i s ≡ some (r, u)
      → (m : Machine K) × (start_run kvm s.world.user.vm snap i s.world.machine ≡ some m)
        × Ends kvm 0 0 (after_run kvm s m) r u
  unfolding one_run
  one_run-Ends fuel snap i s u r e =
      elim (Option-cases (start_run kvm s.world.user.vm snap i s.world.machine)) [
        | inl stuck ↦ absurd (nothing fuel snap i s u r stuck e)
        | inr (m, started) ↦
            let looped : run_loop kvm fuel 0 0 (after_run kvm s m) ≡ some (r, u) =
              sym (one_run-started fuel snap i s m started) ∙ e in
            (
              m,
              started,
              (run_loop_iff kvm 0 (after_run kvm s m) r u (omega arith)).0 (fuel, looped),
            )
      ]

  loop_enough :
      (fuel i : ℕ) {n : ℕ} {s t u : Program} {r : RunResult}
      → n < fuel
      → Continues kvm n s t
      → step kvm t ≡ (r, u)
      → r ≢ RunResult.continue
      → run_loop kvm fuel 0 i s ≡ some (r, u)
  loop_enough zero i h c e d = absurd (omega arith)
  loop_enough (suc fuel) i h (here s) e d =
      round_stop kvm fuel 0 i s (inl refl) (λ c. d (sym (ap (λ p. p.0) e) ∙ c)) ∙ ap some e
  loop_enough (suc fuel) i h (further {n = n} {s = s} c cs) e d =
      round_more kvm fuel 0 i s (inl refl) c ∙ loop_enough fuel (u64 (i + 1)) (omega arith) cs e d

  Ends-returns :
      {s u : Program} {r : RunResult}
      → Ends kvm 0 0 s r u
      → (enough : ℕ) × ((fuel : ℕ) → enough ≤ fuel → run_loop kvm fuel 0 0 s ≡ some (r, u))
  Ends-returns (by_limit n p e cs) = absurd (omega arith)
  Ends-returns (by_step n l cs e d) = (suc n, λ fuel h. loop_enough fuel 0 (omega arith) cs e d)

  runs-error :
      (fuel : ℕ) (snap : VmSnapShot) (n i : ℕ) (s u : Program)
      → one_run kvm fuel snap i s ≡ some (RunResult.error, u)
      → runs kvm fuel snap (suc n) i s ≡ some (1, u)
  unfolding runs
  runs-error fuel snap n i s u e = rw (e, runs) refl

  go_on :
      (r : RunResult) (x y : Option (ℕ × Program))
      → r ≢ RunResult.error
      → (elim r [ RunResult.error ↦ x | _ ↦ y ]) ≡ y
  go_on RunResult.continue x y d = refl
  go_on RunResult.halt x y d = refl
  go_on RunResult.shutdown x y d = refl
  go_on RunResult.error x y d = absurd (d refl)

  runs-next :
      (fuel : ℕ) (snap : VmSnapShot) (n i : ℕ) (s u : Program) (r : RunResult)
      → one_run kvm fuel snap i s ≡ some (r, u)
      → r ≢ RunResult.error
      → runs kvm fuel snap (suc n) i s ≡ runs kvm fuel snap n (i + 1) u
  unfolding runs
  runs-next fuel snap n i s u r e d = rw (e, runs) (go_on r _ _ d)

  runs-stuck :
      (fuel : ℕ) (snap : VmSnapShot) (n i : ℕ) (s : Program)
      → one_run kvm fuel snap i s ≡ none
      → runs kvm fuel snap (suc n) i s ≡ none
  unfolding runs
  runs-stuck fuel snap n i s e = rw (e, runs) refl

  abbrev SeriesOf : VmSnapShot → ℕ → ℕ → Program → Option (ℕ × Program) → Type 0
  SeriesOf snap n i s none = Unit {0}
  SeriesOf snap n i s (some r) = Series snap n i s r.0 r.1

  SeriesOf-followed :
      (snap : VmSnapShot) (n i : ℕ) (s u : Program) {r : RunResult} (m : Machine K)
      (o : Option (ℕ × Program))
      → start_run kvm s.world.user.vm snap i s.world.machine ≡ some m
      → Ends kvm 0 0 (after_run kvm s m) r u
      → r ≢ RunResult.error
      → SeriesOf snap n (i + 1) u o
      → SeriesOf snap (suc n) i s o
  SeriesOf-followed snap n i s u m none started ends d rest = tt
  SeriesOf-followed snap n i s u m (some x) started ends d rest = followed m started ends d rest

  runs-SeriesOf :
      (fuel : ℕ) (snap : VmSnapShot) (n i : ℕ) (s : Program)
      → SeriesOf snap n i s (runs kvm fuel snap n i s)
  runs-SeriesOf fuel snap zero i s = unfold runs in over i s
  runs-SeriesOf fuel snap (suc n) i s = elim (Option-cases (one_run kvm fuel snap i s)) [
    | inl e ↦ rw (runs-stuck fuel snap n i s e) tt
    | inr ((r, u), e) ↦
        let (m, started, ends) = one_run-Ends fuel snap i s u r e in
        elim (error-cases r) [
          | inl x ↦ rw (runs-error fuel snap n i s u (e ∙ ap (λ (q : RunResult). some (q, u)) x)) (
              stopped m started
                (subst (λ (q : RunResult). Ends kvm 0 0 (after_run kvm s m) q u) x ends))
          | inr d ↦ rw (runs-next fuel snap n i s u r e d) (
              SeriesOf-followed snap n i s u m (runs kvm fuel snap n (i + 1) u) started ends d
                (runs-SeriesOf fuel snap n (i + 1) u))
        ]
  ]

  Series-returns :
      {snap : VmSnapShot} {n i status : ℕ} {s t : Program}
      → Series snap n i s status t
      → (enough : ℕ) × ((fuel : ℕ) → enough ≤ fuel → runs kvm fuel snap n i s ≡ some (status, t))
  Series-returns (over i s) = (0, λ fuel h. unfold runs in refl)
  Series-returns {snap = snap} (stopped {n = n} {i = i} {s = s} {u = u} m started ends) =
      let (enough, returns) = Ends-returns ends in
      (
        enough,
        λ fuel h.
            runs-error fuel snap n i s u (one_run-started fuel snap i s m started ∙ returns fuel h),
      )
  Series-returns {snap = snap}
        (followed {n = n} {i = i} {s = s} {u = u} {r = r} m started ends d rest) =
      let (enough, returns) = Ends-returns ends in
      let (more, others) = Series-returns rest in
      (
        enough + more,
        λ fuel h.
            runs-next fuel snap n i s u r
              (one_run-started fuel snap i s m started ∙ returns fuel (omega arith)) d
            ∙ others fuel (omega arith),
      )

  -- The runs return a status and a session, with some fuel, exactly when these end a series: each run
  -- starts, makes exits until one does not continue, and hands its session to the next; the series
  -- ends with status 0 after the last run, or with status 1 at the first run that ends in an error.
  -- From some fuel on more fuel changes nothing.
  pub runs_iff :
      (snap : VmSnapShot) (n i status : ℕ) (s t : Program)
      → ((fuel : ℕ) × (runs kvm fuel snap n i s ≡ some (status, t)) → Series snap n i s status t)
        × (Series snap n i s status t
            → (enough : ℕ) × ((fuel : ℕ)
                → enough ≤ fuel
                → runs kvm fuel snap n i s ≡ some (status, t)))
  runs_iff snap n i status s t = (
    λ returned. subst (SeriesOf snap n i s) returned.1 (runs-SeriesOf returned.0 snap n i s),
    Series-returns,
  )
