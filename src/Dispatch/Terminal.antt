-- ===== src/Dispatch/Terminal.antt =====
-- Completion in src/prd_agent/production/dispatch.py: a terminal status is the run's last.
use prd_agent.Base.{
  ◌≡◌, ap, ◌∙◌, true, some, List, arith, text_key, Option-cases, inl, inr, ok, err, Result,
}
use prd_agent.Base.Dict.{get, put, get-put_self}
use prd_agent.Dispatch.Model.{
  ProductionRun, ProductionRunStatus, Store, LeaseGrant, Error, is_terminal,
}
use prd_agent.Dispatch.Admission.{release_and_admit_waiting}
use prd_agent.Dispatch.Runs.{complete_run, is_current, completed_as, get_run, after_admission}
use prd_agent.Dispatch.Step.{Op, history}
use prd_agent.Dispatch.Machine.{IsValid, RunsStep, moves, completes}
use prd_agent.Dispatch.Machine.Safety.{Reach-IsValid, RunsStep-IsValid, Reach-Persists}
use prd_agent.Dispatch.Refines.Admission.{release_and_admit_waiting-Refines}
use prd_agent.Dispatch.Refines.Runs.{current-leased}
use prd_agent.Dispatch.Fencing.{history-Persists}

abbrev completed_in : LeaseGrant → ProductionRunStatus → ProductionRun → Store → Store
completed_in g status run s = record s { runs = put g.run_id (completed_as status run) s.runs }

-- What a completion that returns says of the store.
pub record Completed (g : LeaseGrant) (status : ProductionRunStatus) (s : Store)
    (run : ProductionRun) (t : Store) : Type 0 where
  pub old : ProductionRun
  pub before : get g.run_id s.runs ≡ some old
  pub terminal : is_terminal status ≡ true
  pub current : is_current g old ≡ true
  pub result : run ≡ completed_as status old
  pub store : t ≡ (release_and_admit_waiting (completed_in g status old s)).1

after_admission-eq-ok :
    (old run : ProductionRun) (r : Result Error (List ProductionRun) × Store) (t : Store)
    → after_admission old r ≡ (ok run, t)
    → (run ≡ old) × (t ≡ r.1)
after_admission-eq-ok old run (ok admitted, u) t h = ground arith
after_admission-eq-ok old run (err e, u) t h = absurd (ground arith)

pub complete_run-Completed :
    (g : LeaseGrant) (status : ProductionRunStatus) (s : Store) (run : ProductionRun) (t : Store)
    → complete_run g status s ≡ (ok run, t)
    → Completed g status s run t
unfolding complete_run
complete_run-Completed g status s run t h = elim (Option-cases (get g.run_id s.runs)) [
  | inl absent ↦ absurd (ground arith)
  | inr (old, at) ↦
      let terminal : is_terminal status ≡ true = ground arith in
      let current : is_current g old ≡ true = ground arith in
      let done : after_admission (completed_as status old)
            (release_and_admit_waiting (completed_in g status old s))
          ≡ (ok run, t) =
        rw (terminal, at, current) at h in
      let (result, store) = after_admission-eq-ok (completed_as status old) run _ t done in
      record {
        old = old;
        before = at;
        terminal = terminal;
        current = current;
        result = result;
        store = store;
      }
]

-- The store between the write of the result and the admission is valid.
completed_in-IsValid :
    (g : LeaseGrant) (status : ProductionRunStatus) (s : Store) (run : ProductionRun) (t : Store)
    → IsValid s.runs
    → (c : Completed g status s run t) → IsValid (completed_in g status c.old s).runs
completed_in-IsValid g status s run t valid c =
    let st : RunsStep s.queue_policy s.runs (completed_in g status c.old s).runs =
      moves s.runs g.run_id c.old _ c.before
        (completes c.old status c.terminal (current-leased g c.old c.current)) in
    RunsStep-IsValid st valid

-- On a store whose runs are valid a completion that returns is final: the run it returns has the
-- given status, and it is the run that the store holds after any further history, unchanged in
-- every field.
pub complete_run_final :
    (g : LeaseGrant) (status : ProductionRunStatus) (s t : Store) (run : ProductionRun)
    (ops : List Op)
    → IsValid s.runs
    → complete_run g status s ≡ (ok run, t)
    → (run.status ≡ status) × (get_run g.run_id (history ops t) ≡ ok run)
complete_run_final g status s t run ops valid h =
    let c = complete_run-Completed g status s run t h in
    let mid = completed_in g status c.old s in
    let mid_valid = completed_in-IsValid g status s run t valid c in
    let mid_at : get g.run_id mid.runs ≡ some run =
      rw c.result (get-put_self g.run_id (completed_as status c.old) s.runs) in
    let over : is_terminal run.status ≡ true = rw c.result c.terminal in
    let admits = release_and_admit_waiting-Refines mid mid_valid in
    let (v, v_at, v_persists) = Reach-Persists g.run_id run admits.0 mid_valid mid_at in
    let t_at : get g.run_id t.runs ≡ some run =
      rw c.store (v_at ∙ ap some (v_persists.terminal over)) in
    let t_valid : IsValid t.runs = rw c.store (Reach-IsValid admits.0 mid_valid) in
    let (w, w_at, w_persists) = history-Persists ops t g.run_id run t_valid t_at in
    (
      ap (λ (r : ProductionRun). r.status) c.result,
      unfold get_run in rw (w_at ∙ ap some (w_persists.terminal over)),
    )
