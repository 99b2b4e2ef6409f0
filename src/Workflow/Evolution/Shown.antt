-- ===== src/Workflow/Evolution/Shown.antt =====
-- Which task the commands of WorkflowService, src/prd_agent/workflow/service.py, show in the end.
use prd_agent.Base.{
  ◌≡◌, refl, sym, subst, String, Bool, true, false, Option, some, List, Result, ok, err, inl, inr,
  ℕ, Bool-cases, Option-cases, Result-cases, arith, text_key, if◌then◌else◌, [],
}
use prd_agent.Base.Dict.{get}
use prd_agent.Domain.Statuses.{TaskStatus, is_failed}
use prd_agent.Domain.Errors.{WorkflowError}
use prd_agent.Domain.Entities.{
  Task, AgentRun, OutlineVersion, ConfirmationUnit, RequirementBrief, EventValue, WorkflowSnapshot,
}
use prd_agent.Domain.Outcomes.{GroundingResult}
use prd_agent.Workflow.Repository.{Repository, Action, snapshot, get_task, latest_run, save_run}
use prd_agent.Workflow.Action.{after}
use prd_agent.Workflow.Outside.{Outside, Library, UnitDraft}
use prd_agent.Workflow.Common.{advance, present}
use prd_agent.Workflow.Outlining.{save_generated, generate_outline, outline_of}
use prd_agent.Workflow.Generating.{
  Locals, Attempt, done, raised, fail_saved, fail_task, fail_run, attempt_of, wait_saved,
  wait_for_user, finish_unit, block_unit, after_grounding, with_draft, generate_unit_inner, outcome,
  handle, generate_unit, is_model_error, context_of, section_drafts_of, payload_of, index_nodes,
  nodes_of, keys, question_of, grounded_unit,
}
use prd_agent.Workflow.Evolution.Generation.{advance-TaskMove, drafted_locals}

-- A call that returns shows the task that is stored under this id.
abbrev pub Shows : String → Result WorkflowError WorkflowSnapshot × Repository → Type 0
Shows id (err e, t) = Unit
Shows id (ok shown, t) = get id t.tasks ≡ some shown.task

-- Only the last part of a chain shows something.
pub after-Shows :
    {A : Type 0} (id : String) (f : A → Action WorkflowSnapshot)
    (r : Result WorkflowError A × Repository)
    → ((a : A) (t : Repository) → Shows id (f a t))
    → Shows id (after f r)
after-Shows id f (err e, t) h = tt
after-Shows id f (ok a, t) h = h a t

-- The same, of a part whose result is used.
pub checked-Shows :
    {A : Type 0} (id : String) (f : A → Action WorkflowSnapshot) (r : Result WorkflowError A)
    (s : Repository)
    → ((a : A) → r ≡ ok a → Shows id (f a s))
    → Shows id (after f (r, s))
checked-Shows id f (err e) s h = tt
checked-Shows id f (ok a) s h = h a refl

pub snapshot-stored :
    (id : String) (s : Repository) (shown : WorkflowSnapshot)
    → snapshot id s ≡ ok shown
    → get id s.tasks ≡ some shown.task
unfolding snapshot get_task
snapshot-stored id s shown h = elim (Option-cases (get id s.tasks)) [
  | inl absent ↦ absurd (ground arith)
  | inr (task, stored) ↦ elim (Result-cases (latest_run id s)) [
    | inl (e, failed) ↦ absurd (ground arith)
    | inr (run, ran) ↦ ground arith
  ]
]

read-Shows :
    (id : String) (s : Repository) (r : Result WorkflowError WorkflowSnapshot)
    → snapshot id s ≡ r
    → Shows id (r, s)
read-Shows id s (err e) h = tt
read-Shows id s (ok shown) h = snapshot-stored id s shown h

pub snapshot-Shows : (id own : String) (s : Repository) → own ≡ id → Shows id (snapshot own s, s)
snapshot-Shows id own s same =
    subst (λ j. Shows id (snapshot j s, s)) (sym same) (read-Shows id s (snapshot id s) refl)

pub present-Shows :
    (o : Outside) (task : Task) (run : AgentRun) (i k : ℕ) (kind : String)
    (payload : List (String × EventValue)) (node id : String) (s : Repository)
    → task.task_id ≡ id
    → Shows id (present o task run i k kind payload node s)
unfolding present
present-Shows o task run i k kind payload node id s same =
    after-Shows id _ (save_run run s) λ _ t. snapshot-Shows id task.task_id _ same

pub generate_outline-Shows :
    (o : Outside) (task : Task) (run : AgentRun) (brief : RequirementBrief) (s : Repository)
    → Shows task.task_id (generate_outline o task run brief s)
unfolding generate_outline save_generated
generate_outline-Shows o task run brief s =
    after-Shows task.task_id _ (o.outline brief, s)
      λ draft t.
        after-Shows task.task_id _ (snapshot task.task_id t, t)
          λ previous u.
            after-Shows task.task_id _ (outline_of o task.task_id _ draft, u)
              λ outline w.
                checked-Shows task.task_id _ (advance task TaskStatus.outline_review task.version) w
                  λ advanced moved.
                    present-Shows o _ _ 20 22 _ _ _ task.task_id _
                      (advance-TaskMove task TaskStatus.outline_review task.version advanced
                        moved).same_id

-- The same of an attempt to generate a unit.
abbrev ShowsAttempt : String → Attempt × Repository → Type 0
ShowsAttempt id (done shown, t) = get id t.tasks ≡ some shown.task
ShowsAttempt id (raised e v, t) = Unit

attempt_of-Shows :
    (id : String) (v : Locals) (r : Result WorkflowError WorkflowSnapshot) (t : Repository)
    → Shows id (r, t)
    → ShowsAttempt id (attempt_of v r t)
attempt_of-Shows id v (err e) t h = tt
attempt_of-Shows id v (ok shown) t h = h

wait_saved-Shows :
    (o : Outside) (v : Locals) (kind : String) (payload : List (String × EventValue))
    (node : String) (r : Result WorkflowError Unit × Repository)
    → ShowsAttempt v.task.task_id (wait_saved o v kind payload node r)
wait_saved-Shows o v kind payload node (err conflict, t) = tt
wait_saved-Shows o v kind payload node (ok saved, t) =
    attempt_of-Shows v.task.task_id v _ _ (snapshot-Shows v.task.task_id v.task.task_id _ refl)

fail_saved-Shows :
    (id : String) (o : Outside) (k : ℕ) (e : WorkflowError) (v : Locals)
    (r : Result WorkflowError Unit × Repository)
    → ShowsAttempt id (fail_saved o k e v r)
fail_saved-Shows id o k e v (err conflict, t) = tt
fail_saved-Shows id o k e v (ok saved, t) = tt

fail_task-Shows :
    (id : String) (o : Outside) (k : ℕ) (e : WorkflowError) (v : Locals)
    (r : Result WorkflowError Task) (s : Repository)
    → ShowsAttempt id (fail_task o k e v r s)
unfolding fail_task
fail_task-Shows id o k e v (err refused) s = tt
fail_task-Shows id o k e v (ok advanced) s = fail_saved-Shows id o k e _ _

fail_run-Shows :
    (id : String) (o : Outside) (k : ℕ) (e : WorkflowError) (v : Locals) (s : Repository)
    → ShowsAttempt id (fail_run o k e v s)
unfolding fail_run
fail_run-Shows id o k e v s = fail_task-Shows id o k e _ _ s

if-Shows :
    (id : String) (b : Bool) (x y : Attempt × Repository)
    → ShowsAttempt id x
    → ShowsAttempt id y
    → ShowsAttempt id (if b then x else y)
if-Shows id true x y h k = h
if-Shows id false x y h k = k

finish_unit-Shows :
    (l : Library) (o : Outside) (v : Locals) (draft : UnitDraft) (s : Repository)
    → ShowsAttempt v.task.task_id (finish_unit l o v draft s)
unfolding finish_unit wait_for_user
finish_unit-Shows l o v draft s = wait_saved-Shows o _ _ _ _ _

block_unit-Shows :
    (o : Outside) (v : Locals) (grounding : GroundingResult) (s : Repository)
    → ShowsAttempt v.task.task_id (block_unit o v grounding s)
unfolding block_unit wait_for_user
block_unit-Shows o v grounding s = wait_saved-Shows o _ _ _ _ _

after_grounding-Shows :
    (l : Library) (o : Outside) (v : Locals) (draft : UnitDraft) (grounding : GroundingResult)
    (s : Repository)
    → ShowsAttempt v.task.task_id (after_grounding l o v draft grounding s)
unfolding after_grounding
after_grounding-Shows l o v draft grounding s =
    let w : Locals = record v { unit = grounded_unit grounding v.unit } in
    if-Shows v.task.task_id grounding.confirmable _ _ (finish_unit-Shows l o w draft _)
      (block_unit-Shows o w grounding _)

with_draft-Shows :
    (l : Library) (o : Outside) (v : Locals) (context : Option String) (draft : UnitDraft)
    (s : Repository)
    → ShowsAttempt v.task.task_id (with_draft l o v context draft s)
unfolding with_draft
with_draft-Shows l o v context draft s =
    elim (Result-cases (section_drafts_of l v (index_nodes [] (nodes_of v)) draft)) [
      | inl (e, failed) ↦ rw (with_draft, failed) tt
      | inr (drafts, drafted) ↦ elim (Option-cases o.ground) [
        | inl unchecked ↦
            rw (with_draft, drafted, unchecked)
              (finish_unit-Shows l o (drafted_locals v drafts) draft s)
        | inr (ground_with, configured) ↦
            elim (Result-cases (ground_with (question_of l o v context draft))) [
              | inl (e, failed) ↦ rw (with_draft, drafted, configured, failed) tt
              | inr (grounding, grounded) ↦
                  rw (with_draft, drafted, configured, grounded)
                    (after_grounding-Shows l o (drafted_locals v drafts) draft grounding s)
            ]
      ]
    ]

generate_unit_inner-Shows :
    (l : Library) (o : Outside) (v : Locals) (brief : RequirementBrief) (s : Repository)
    → ShowsAttempt v.task.task_id (generate_unit_inner l o v brief s)
unfolding generate_unit_inner
generate_unit_inner-Shows l o v brief s = elim (Result-cases (context_of o v brief)) [
  | inl (e, failed) ↦ rw (generate_unit_inner, failed) tt
  | inr (context, given) ↦ elim (Result-cases (snapshot v.task.task_id s)) [
    | inl (e, failed) ↦ rw (generate_unit_inner, given, failed) tt
    | inr (found, read) ↦
        let payload = payload_of v brief found.sections context in
        elim (Result-cases (o.unit_draft payload (keys (index_nodes [] (nodes_of v))))) [
          | inl (e, failed) ↦ elim (Bool-cases (is_model_error e)) [
            | inl model ↦
                rw (generate_unit_inner, given, read, failed, model)
                  (fail_run-Shows v.task.task_id o 40 e v s)
            | inr apart ↦ rw (generate_unit_inner, given, read, failed, apart) tt
          ]
          | inr (draft, drafted) ↦
              rw (generate_unit_inner, given, read, drafted)
                (with_draft-Shows l o v context draft s)
        ]
  ]
]

outcome-Shows : (id : String) (r : Attempt × Repository) → ShowsAttempt id r → Shows id (outcome r)
outcome-Shows id (done shown, t) h = h
outcome-Shows id (raised e v, t) h = tt

handle-Shows :
    (id : String) (o : Outside) (r : Attempt × Repository)
    → ShowsAttempt id r
    → Shows id (handle o r)
unfolding handle
handle-Shows id o (done shown, t) h = h
handle-Shows id o (raised e v, t) h = elim (Bool-cases (is_failed v.run.status)) [
  | inl failed ↦ rw failed tt
  | inr active ↦ rw active (outcome-Shows id _ (fail_run-Shows id o 50 e v t))
]

pub generate_unit-Shows :
    (l : Library) (o : Outside) (task : Task) (run : AgentRun) (outline : OutlineVersion)
    (unit : ConfirmationUnit) (brief : RequirementBrief) (id : String) (s : Repository)
    → task.task_id ≡ id
    → Shows id (generate_unit l o task run outline unit brief s)
unfolding generate_unit
generate_unit-Shows l o task run outline unit brief id s same =
    subst (λ j. Shows j (generate_unit l o task run outline unit brief s)) same
      (unfold generate_unit in
        handle-Shows task.task_id o _ (generate_unit_inner-Shows l o _ brief s))
