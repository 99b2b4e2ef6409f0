-- ===== src/Dispatch/Machine/Safety.antt =====
-- Invariants of the moves, by induction on the relation.
use prd_agent.Base.{
  ◌≤◌, ◌≡◌, refl, String, true, Option, none, some, arith, text_key, ◌∙◌, ap, subst, ◌==◌,
  Bool-cases, same-eq, inl, inr, is_some,
}
use prd_agent.Base.Dict.{get, put, get-put, Distinct-put, AllEntries-put, AllEntries-get}
use prd_agent.Dispatch.Model.{ProductionRun, QueuePolicy, is_terminal}
use prd_agent.Dispatch.Admission.{promoted}
use prd_agent.Dispatch.Machine.{
  Runs, RunMove, cancels, acquires, completes, beats, RunsStep, moves, promotes, starts_queued,
  starts_waiting, Reach, here, next, IsValid, is_consistent,
}

RunMove-consistent :
    {v w : ProductionRun} → RunMove v w → is_consistent v ≡ true → is_consistent w ≡ true
RunMove-consistent (cancels v now h) c = ground arith
RunMove-consistent (acquires v worker expires h g) c = ground arith
RunMove-consistent (completes v status h g) c = ground arith
RunMove-consistent (beats v expires g) c = ground arith

RunMove-run_id : {v w : ProductionRun} → RunMove v w → w.run_id ≡ v.run_id
RunMove-run_id (cancels v now h) = refl
RunMove-run_id (acquires v worker expires h g) = refl
RunMove-run_id (completes v status h g) = refl
RunMove-run_id (beats v expires g) = refl

-- A write of a consistent run under its id keeps the runs valid.
put-IsValid :
    (d : Runs) (k : String) (w : ProductionRun)
    → IsValid d
    → w.run_id ≡ k
    → is_consistent w ≡ true
    → IsValid (put k w d)
put-IsValid d k w v id c = record {
  distinct = Distinct-put k w d v.distinct;
  keyed = AllEntries-put (λ j run. run.run_id ≡ j) k w d v.keyed id;
  consistent = AllEntries-put (λ j run. is_consistent run ≡ true) k w d v.consistent c;
}

module _ (d : Runs) (k : String) (v : ProductionRun) (valid : IsValid d)
    (at : get k d ≡ some v) where
  pub keyed_at : v.run_id ≡ k
  keyed_at = AllEntries-get (λ j run. run.run_id ≡ j) k v d valid.keyed at

  pub consistent_at : is_consistent v ≡ true
  consistent_at = AllEntries-get (λ j run. is_consistent run ≡ true) k v d valid.consistent at

-- Every step keeps the runs valid.
pub RunsStep-IsValid : {p : QueuePolicy} {d e : Runs} → RunsStep p d e → IsValid d → IsValid e
RunsStep-IsValid (moves d k v w at m) valid =
    put-IsValid d k w valid (RunMove-run_id m ∙ keyed_at d k v valid at)
      (RunMove-consistent m (consistent_at d k v valid at))
RunsStep-IsValid (promotes d k v at w room) valid =
    let c = consistent_at d k v valid at in
    put-IsValid d k _ valid (keyed_at d k v valid at) (ground arith)
RunsStep-IsValid (starts_queued d k task owner at room) valid = put-IsValid d k _ valid refl refl
RunsStep-IsValid (starts_waiting d k task owner at) valid = put-IsValid d k _ valid refl refl

pub Reach-IsValid : {p : QueuePolicy} {d e : Runs} → Reach p d e → IsValid d → IsValid e
Reach-IsValid here valid = valid
Reach-IsValid (next r st) valid = RunsStep-IsValid st (Reach-IsValid r valid)

-- What no step undoes: the run stays, with its id, task and owner; its token does not fall; once
-- it is terminal it is the same for ever; and a request for cancellation keeps its time.
pub record Persists (v w : ProductionRun) : Type 0 where
  pub same_id : w.run_id ≡ v.run_id
  pub same_task : w.task_id ≡ v.task_id
  pub same_owner : w.owner_id ≡ v.owner_id
  pub token_le : v.fencing_token ≤ w.fencing_token
  pub attempts_le : v.attempt_count ≤ w.attempt_count
  pub terminal : is_terminal v.status ≡ true → w ≡ v
  pub cancelled :
      is_some v.cancellation_requested_at ≡ true
      → w.cancellation_requested_at ≡ v.cancellation_requested_at

Persists-refl : (v : ProductionRun) → Persists v v
Persists-refl v = record {
  same_id = refl;
  same_task = refl;
  same_owner = refl;
  token_le = omega arith;
  attempts_le = omega arith;
  terminal = λ h. refl;
  cancelled = λ h. refl;
}

Persists-trans : {u v w : ProductionRun} → Persists u v → Persists v w → Persists u w
Persists-trans {u} {v} {w} a b = record {
  same_id = b.same_id ∙ a.same_id;
  same_task = b.same_task ∙ a.same_task;
  same_owner = b.same_owner ∙ a.same_owner;
  token_le = omega (arith, a.token_le, b.token_le);
  attempts_le = omega (arith, a.attempts_le, b.attempts_le);
  terminal = λ h.
      b.terminal (ap (λ (r : ProductionRun). is_terminal r.status) (a.terminal h) ∙ h)
      ∙ a.terminal h;
  cancelled = λ h. b.cancelled (ap is_some (a.cancelled h) ∙ h) ∙ a.cancelled h;
}

RunMove-Persists : {v w : ProductionRun} → RunMove v w → is_consistent v ≡ true → Persists v w
RunMove-Persists (cancels v now h) c = ground arith
RunMove-Persists (acquires v worker expires h g) c = ground arith
RunMove-Persists (completes v status h g) c = ground arith
RunMove-Persists (beats v expires g) c = ground arith

-- The entry of a key after one step.
abbrev Kept : ProductionRun → Option ProductionRun → Type 0
Kept v o = (w : ProductionRun) × (o ≡ some w) × Persists v w

module _ (d : Runs) (k j : String) (v : ProductionRun) (at : get k d ≡ some v) where
  put-Kept :
      (old w : ProductionRun) → get j d ≡ some old → Persists old w → Kept v (get k (put j w d))
  put-Kept old w old_at persists = elim (Bool-cases (j == k)) [
    | inl same ↦
        let e : old ≡ v = cc (same-eq j k same, old_at) in
        (w, rw get-put (rw same), subst (λ u. Persists u w) e persists)
    | inr other ↦ (v, rw get-put (rw other at), Persists-refl v)
  ]

  add-Kept : (w : ProductionRun) → get j d ≡ none → Kept v (get k (put j w d))
  add-Kept w absent = elim (Bool-cases (j == k)) [
    | inl same ↦ absurd (cc (same-eq j k same, absent))
    | inr other ↦ (v, rw get-put (rw other at), Persists-refl v)
  ]

RunsStep-Kept :
    {p : QueuePolicy} {d e : Runs} (k : String) (v : ProductionRun)
    → RunsStep p d e
    → IsValid d
    → get k d ≡ some v
    → Kept v (get k e)
RunsStep-Kept k v (moves d j old w at m) valid here_at =
    put-Kept d k j v here_at old w at (RunMove-Persists m (consistent_at d j old valid at))
RunsStep-Kept k v (promotes d j old at waiting room) valid here_at =
    put-Kept d k j v here_at old (promoted old) at (ground arith)
RunsStep-Kept k v (starts_queued d j task owner at room) valid here_at =
    add-Kept d k j v here_at _ at
RunsStep-Kept k v (starts_waiting d j task owner at) valid here_at = add-Kept d k j v here_at _ at

-- A run that is there persists through every history.
pub Reach-Persists :
    {p : QueuePolicy} {d e : Runs} (k : String) (v : ProductionRun)
    → Reach p d e
    → IsValid d
    → get k d ≡ some v
    → (w : ProductionRun) × (get k e ≡ some w) × Persists v w
Reach-Persists k v here valid at = (v, at, Persists-refl v)
Reach-Persists k v (next r st) valid at =
    let (u, u_at, u_persists) = Reach-Persists k v r valid at in
    let (w, w_at, w_persists) = RunsStep-Kept k u st (Reach-IsValid r valid) u_at in
    (w, w_at, Persists-trans u_persists w_persists)
