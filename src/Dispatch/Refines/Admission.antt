-- ===== src/Dispatch/Refines/Admission.antt =====
-- The admission loop makes only promotions, each with room.
use prd_agent.Base.{
  ℕ, zero, suc, ◌≡◌, refl, sym, String, true, Option, none, some, List, [], ◌∷◌, arith, text_key,
  subst, ◌==◌, Bool-cases, inl, inr, Result, ok, err, >>=-ok, ok-injective, ltb, ◌>>=◌, length, All,
  All-filter, filter-All, length-filter, count-filter,
}
use prd_agent.Base.Dict.{get, values, AllEntries-values, AllEntries-both, Distinct-get}
use prd_agent.Base.Sort.{min_by, min_by-All}
use prd_agent.Dispatch.Model.{ProductionRun, Store, Error, is_waiting_capacity, waiting_capacity}
use prd_agent.Dispatch.Admission.{
  runnable_runs, can_admit, admission_key, with_keys, Key, key_le, least, candidates,
  next_admission, promote, admit_round, admit_loop, Admitted, release_and_admit_waiting,
  is_runnable_run,
}
use prd_agent.Dispatch.Machine.{
  RunsStep, promotes, Reach, here, next, Reach-trans, IsValid, HasRoom,
}
use prd_agent.Dispatch.Machine.Safety.{RunsStep-IsValid}

pub can_admit-HasRoom :
    (s : Store) (owner : String) → can_admit s owner ≡ true → HasRoom s.queue_policy s.runs owner
unfolding can_admit runnable_runs
can_admit-HasRoom s owner h = ground (
  arith,
  length-filter is_runnable_run (values s.runs),
  count-filter is_runnable_run (λ run. run.owner_id == owner) (values s.runs),
)

-- What the loop may promote in `s`.
pub record IsCandidate (s : Store) (run : ProductionRun) : Type 0 where
  pub at : get run.run_id s.runs ≡ some run
  pub waiting : run.status ≡ waiting_capacity
  pub admissible : can_admit s run.owner_id ≡ true

pub own_entry :
    (s : Store) (valid : IsValid s.runs)
    → All (λ run. get run.run_id s.runs ≡ some run) (values s.runs)
own_entry s valid =
    AllEntries-values (λ k run. (get k s.runs ≡ some run) × (run.run_id ≡ k))
      (λ run. get run.run_id s.runs ≡ some run) s.runs
      (λ k run h. subst (λ j. get j s.runs ≡ some run) (sym h.1) h.0)
      (AllEntries-both _ _ s.runs (Distinct-get s.runs valid.distinct) valid.keyed)

All-pair :
    {A : Type 0} (P Q R : A → Type 0) (xs : List A)
    → ((a : A) → P a → Q a → R a)
    → All P xs
    → All Q xs
    → All R xs
All-pair P Q R [] f h g = tt
All-pair P Q R (x ∷ xs) f h g = (f x h.0 g.0, All-pair P Q R xs f h.1 g.1)

waiting_of :
    (run : ProductionRun) → is_waiting_capacity run.status ≡ true → run.status ≡ waiting_capacity
waiting_of run h = ground arith

pub candidates-All : (s : Store) → IsValid s.runs → All (IsCandidate s) (candidates s)
unfolding candidates
candidates-All s valid =
    All-pair _ _ _ (candidates s)
      (λ run at passed. record {
        at = at;
        waiting = waiting_of run (ground arith);
        admissible = ground arith;
      })
      (All-filter _ _ (values s.runs) (own_entry s valid)) (filter-All _ (values s.runs))

with_keys-All :
    (P : ProductionRun → Type 0) (s : Store) (runs : List ProductionRun)
    (keyed : List (Key × ProductionRun))
    → with_keys s runs ≡ ok keyed
    → All P runs
    → All (λ c. P c.1) keyed
unfolding with_keys
with_keys-All P s [] keyed e h = subst (All (λ c. P c.1)) (ok-injective e) tt
with_keys-All P s (run ∷ rest) keyed e h =
    let (key, key_eq, e₁) = >>=-ok (admission_key s run) _ e in
    let (ks, ks_eq, e₂) = >>=-ok (with_keys s rest) _ e₁ in
    subst (All (λ c. P c.1)) (ok-injective e₂) (h.0, with_keys-All P s rest ks ks_eq h.1)

least-All :
    (P : ProductionRun → Type 0) (keyed : List (Key × ProductionRun)) {run : ProductionRun}
    → All (λ c. P c.1) keyed
    → least keyed ≡ some run
    → P run
least-All P [] h e = cc
least-All P (c ∷ cs) {run} h e =
    let same : (min_by key_le c cs).1 ≡ run = cc in
    subst P same (min_by-All key_le (λ a. P a.1) c cs h.0 h.1)

-- The loop's choice is a candidate.
pub next_admission-IsCandidate :
    (s : Store) (run : ProductionRun)
    → IsValid s.runs
    → next_admission s ≡ ok (some run)
    → IsCandidate s run
unfolding next_admission
next_admission-IsCandidate s run valid e =
    elim (Bool-cases (ltb (length (runnable_runs s)) s.queue_policy.max_global_runnable)) [
      | inr full ↦ absurd (ground arith)
      | inl room ↦
          let found : (do keyed ← with_keys s (candidates s); ok (least keyed)) ≡ ok (some run) =
            rw room at e in
          let (keyed, keyed_eq, e₁) = >>=-ok (with_keys s (candidates s)) _ found in
          least-All (IsCandidate s) keyed
            (with_keys-All (IsCandidate s) s (candidates s) keyed keyed_eq (candidates-All s valid))
            (ok-injective e₁)
    ]

pub promote-RunsStep :
    (s : Store) (run : ProductionRun)
    → IsCandidate s run
    → RunsStep s.queue_policy s.runs (promote run s).runs
unfolding promote
promote-RunsStep s run c =
    promotes s.runs run.run_id run c.at c.waiting (can_admit-HasRoom s run.owner_id c.admissible)

-- The runs after `t` are reached from those of `s`, under the same policy.
abbrev pub Refines : Store → Store → Type 0
Refines s t = Reach s.queue_policy s.runs t.runs × (t.queue_policy ≡ s.queue_policy)

-- One round, if the rounds after it make only moves.
admit_round-Refines :
    (rounds : Store → Admitted) (chosen : Result Error (Option ProductionRun)) (s : Store)
    → IsValid s.runs
    → next_admission s ≡ chosen
    → ((t : Store) → IsValid t.runs → Refines t (rounds t).1)
    → Refines s (admit_round rounds chosen s).1
unfolding admit_round promote
admit_round-Refines rounds (err e) s valid eq rest = (here, refl)
admit_round-Refines rounds (ok none) s valid eq rest = (here, refl)
admit_round-Refines rounds (ok (some run)) s valid eq rest =
    let st = promote-RunsStep s run (next_admission-IsCandidate s run valid eq) in
    let (reach, same) = rest (promote run s) (RunsStep-IsValid st valid) in
    (Reach-trans (next here st) reach, same)

admit_loop-Refines : (fuel : ℕ) (s : Store) → IsValid s.runs → Refines s (admit_loop fuel s).1
unfolding admit_loop
admit_loop-Refines zero s valid = (here, refl)
admit_loop-Refines (suc fuel) s valid =
    admit_round-Refines (admit_loop fuel) (next_admission s) s valid refl (admit_loop-Refines fuel)

pub release_and_admit_waiting-Refines :
    (s : Store) → IsValid s.runs → Refines s (release_and_admit_waiting s).1
unfolding release_and_admit_waiting
release_and_admit_waiting-Refines s valid = admit_loop-Refines _ s valid
