-- ===== src/Dispatch/Fairness.antt =====
-- Admission in src/prd_agent/production/dispatch.py: the loop ends by its own test.
use prd_agent.Base.{
  ℕ, zero, suc, ◌≤◌, ◌<◌, ◌≡◌, refl, ap, subst, ◌∙◌, String, none, some, same-eq, List, [], ◌∷◌,
  arith, text_key, nat_key, Bool-cases, Option-cases, inl, inr, ◌⊎◌, ◌==◌, ok, >>=-ok, length, All,
  ltb, length-filter,
}
use prd_agent.Base.Dict.{get, values, get-put, count-put_old}
use prd_agent.Dispatch.Model.{ProductionRun, Store, is_waiting_capacity}
use prd_agent.Dispatch.Admission.{
  Admitted, Key, last_turn, admission_key, with_keys, least, candidates, next_admission,
  runnable_runs, promote, promoted, admit_round, admit_loop, waiting_count,
  release_and_admit_waiting, admit_waiting_runs, is_runnable_run, prepend,
}
use prd_agent.Dispatch.Machine.{IsValid, runnable_count}
use prd_agent.Dispatch.Machine.Safety.{RunsStep-IsValid}
use prd_agent.Dispatch.Refines.Admission.{
  IsCandidate, candidates-All, next_admission-IsCandidate, promote-RunsStep,
}

-- Every run has a place in the order of creation.
abbrev pub IsOrdered : Store → Type 0
IsOrdered s =
    (k : String) (run : ProductionRun)
    → get k s.runs ≡ some run
    → (n : ℕ) × (get k s.created_order ≡ some n)

-- No capacity is left, or no waiting run can be admitted.
abbrev pub IsSettled : Store → Type 0
IsSettled s = (s.queue_policy.max_global_runnable ≤ runnable_count s.runs) ⊎ (candidates s ≡ [])

least-none : (keyed : List (Key × ProductionRun)) → least keyed ≡ none → keyed ≡ []
least-none [] e = refl
least-none (c ∷ cs) e = cc

with_keys-nil : (s : Store) (runs : List ProductionRun) → with_keys s runs ≡ ok [] → runs ≡ []
unfolding with_keys
with_keys-nil s [] e = refl
with_keys-nil s (run ∷ rest) e =
    let (key, key_eq, e₁) = >>=-ok (admission_key s run) _ e in
    let (ks, ks_eq, e₂) = >>=-ok (with_keys s rest) _ e₁ in cc

admission_key_total :
    (s : Store) (run : ProductionRun)
    → IsOrdered s
    → IsCandidate s run
    → (key : Key) × (admission_key s run ≡ ok key)
unfolding admission_key
admission_key_total s run ordered c =
    let (n, n_eq) = ordered run.run_id run c.at in
    ((last_turn (get run.owner_id s.owner_last_admitted), n), rw n_eq)

with_keys_total :
    (s : Store) (runs : List ProductionRun)
    → IsOrdered s
    → All (IsCandidate s) runs
    → (keyed : List (Key × ProductionRun)) × (with_keys s runs ≡ ok keyed)
unfolding with_keys
with_keys_total s [] ordered h = ([], refl)
with_keys_total s (run ∷ rest) ordered h =
    let (key, key_eq) = admission_key_total s run ordered h.0 in
    let (ks, ks_eq) = with_keys_total s rest ordered h.1 in ((key, run) ∷ ks, rw (key_eq, ks_eq))

-- The loop's choice never raises, and is `none` only in a settled store.
next_admission_cases :
    (s : Store)
    → IsValid s.runs
    → IsOrdered s
    → ((next_admission s ≡ ok none) × IsSettled s)
      ⊎ ((run : ProductionRun) × (next_admission s ≡ ok (some run)))
unfolding next_admission runnable_runs
next_admission_cases s valid ordered =
    elim (Bool-cases (ltb (length (runnable_runs s)) s.queue_policy.max_global_runnable)) [
      | inr full ↦
          inl (rw full, inl (ground (arith, length-filter is_runnable_run (values s.runs))))
      | inl room ↦
          let (keyed, eq) = with_keys_total s (candidates s) ordered (candidates-All s valid) in
          elim (Option-cases (least keyed)) [
            | inl nobody ↦ inl (
              rw (room, eq, nobody),
              inr (with_keys-nil s (candidates s) (eq ∙ ap ok (least-none keyed nobody))),
            )
            | inr (run, first) ↦ inr (run, rw (room, eq, first))
          ]
    ]

promote-IsOrdered :
    (s : Store) (run : ProductionRun) → IsOrdered s → IsCandidate s run → IsOrdered (promote run s)
unfolding promote
promote-IsOrdered s run ordered c k other at = elim (Bool-cases (run.run_id == k)) [
  | inl same ↦
      subst (λ j. (n : ℕ) × (get j s.created_order ≡ some n)) (same-eq run.run_id k same)
        (ordered run.run_id run c.at)
  | inr differs ↦ ordered k other (ground (arith, get-put run.run_id k (promoted run) s.runs))
]

waiting_count-promote :
    (s : Store) (run : ProductionRun)
    → IsCandidate s run
    → suc (waiting_count (promote run s)) ≡ waiting_count s
unfolding promote
waiting_count-promote s run c =
    let waiting = c.waiting in
    ground (
      arith,
      count-put_old (λ r. is_waiting_capacity r.status) run.run_id (promoted run) run s.runs c.at,
    )

abbrev Settles : Admitted → Type 0
Settles (r, t) = (admitted : List ProductionRun) × (r ≡ ok admitted) × IsSettled t

prepend-Settles : (run : ProductionRun) (a : Admitted) → Settles a → Settles (prepend run a.0, a.1)
prepend-Settles run (r, t) (admitted, eq, settled) = (run ∷ admitted, rw eq, settled)

admit_loop-Settles :
    (fuel : ℕ) (s : Store)
    → IsValid s.runs
    → IsOrdered s
    → waiting_count s < fuel
    → Settles (admit_loop fuel s)
unfolding admit_loop admit_round
admit_loop-Settles zero s valid ordered enough = absurd (omega arith)
admit_loop-Settles (suc fuel) s valid ordered enough = elim (next_admission_cases s valid ordered) [
  | inl (ends, settled) ↦ rw ends ([], refl, settled)
  | inr (run, eq) ↦
      let c = next_admission-IsCandidate s run valid eq in
      let rest =
        admit_loop-Settles fuel (promote run s) (RunsStep-IsValid (promote-RunsStep s run c) valid)
          (promote-IsOrdered s run ordered c) (omega (arith, waiting_count-promote s run c)) in
      rw eq (prepend-Settles (promoted run) (admit_loop fuel (promote run s)) rest)
]

-- Admission loses no capacity: from a valid store whose runs all have a place in the order of
-- creation it returns without raising, the fuel of the model is enough, and afterwards either the
-- global limit is used up or no run that waits for capacity can be admitted.
pub admit_waiting_runs_settles :
    (s : Store)
    → IsValid s.runs
    → IsOrdered s
    → (admitted : List ProductionRun) × ((admit_waiting_runs s).0 ≡ ok admitted)
      × IsSettled (admit_waiting_runs s).1
unfolding admit_waiting_runs release_and_admit_waiting
admit_waiting_runs_settles s valid ordered =
    admit_loop-Settles (suc (waiting_count s)) s valid ordered (omega arith)
