-- ===== src/Workflow/Evolution/Generation.antt =====
-- What the generation of an outline and of a unit, in src/prd_agent/workflow/service.py, does to
-- the tasks and the keys.
use prd_agent.Base.{
  ◌≡◌, refl, String, Bool, true, false, Option, some, List, [], Result, ok, err, inl, inr, ℕ, suc,
  Bool-cases, Option-cases, Result-cases, arith, if◌then◌else◌,
}
use prd_agent.Domain.Statuses.{TaskStatus, RunStatus, is_failed}
use prd_agent.Domain.Errors.{WorkflowError}
use prd_agent.Domain.Entities.{
  Task, AgentRun, OutlineVersion, ConfirmationUnit, RequirementBrief, SectionDraft, EventValue,
  WorkflowSnapshot,
}
use prd_agent.Domain.Outcomes.{GroundingResult}
use prd_agent.Policies.Tasks.{transition}
use prd_agent.Workflow.Repository.{
  Repository, save_task, save_run, save_outline, save_grounding_result, snapshot,
}
use prd_agent.Workflow.Action.{writing}
use prd_agent.Workflow.Outside.{Outside, Library, UnitDraft}
use prd_agent.Workflow.Common.{advance, present, event, checkpoint, with_unit}
use prd_agent.Workflow.Outlining.{save_generated, generate_outline, outline_of, last_version}
use prd_agent.Workflow.Generating.{
  Locals, Attempt, done, raised, fail_saved, fail_task, fail_run, failed_run, attempt_of,
  wait_saved, wait_for_user, finish_unit, after_grounding, with_draft, generate_unit_inner, outcome,
  handle, generate_unit, is_model_error, context_of, section_drafts_of, payload_of, index_nodes,
  nodes_of, keys, question_of, block_unit, generated_unit, blocked_unit, grounded_unit,
}
use prd_agent.Workflow.Evolution.{
  TaskMove, moves, Evolves, Evolves-refl, Evolves-trans, Quiet, Quiet-trans, Quiet-Evolves, IsReady,
  IsReady-Quiet, save_task-Evolves, save_task-IsReady,
}
use prd_agent.Workflow.Evolution.Writes.{
  After, Any, save_run-Quiet, save_outline-Quiet, quiet_end, present-Quiet, event-Quiet,
  checkpoint-Quiet, save_grounding_result-Quiet,
}

-- What `advance` returns is one change further.
pub advance-TaskMove :
    (task : Task) (target : TaskStatus) (expected : ℕ) (w : Task)
    → advance task target expected ≡ ok w
    → TaskMove task w
unfolding advance transition
advance-TaskMove task target expected w h = record {
  same_id = ground arith;
  same_owner = ground arith;
  same_creation = ground arith;
  next_version = ground arith;
  allowed = inl (ground arith);
}

-- A ready task that is changed as the policy allows is ready.
pub IsReady-moves : (v w : Task) (s : Repository) → IsReady v s → TaskMove v w → IsReady w s
IsReady-moves v w s (stored, found, m) step =
    (stored, ground (arith, found, step.same_id), moves v w m step)

-- The three fields that no rule is about.
abbrev pub dated : Task → Option ℕ → Option ℕ → ℕ → Task
dated task outline unit at = record task {
  current_outline_version = outline;
  current_unit_sequence = unit;
  updated_at = at;
}

pub advance-IsReady :
    (task : Task) (target : TaskStatus) (expected : ℕ) (w : Task) (outline unit : Option ℕ) (at : ℕ)
    (s : Repository)
    → IsReady task s
    → advance task target expected ≡ ok w
    → IsReady (dated w outline unit at) s
advance-IsReady task target expected w outline unit at s ready h =
    let m = advance-TaskMove task target expected w h in
    IsReady-moves task (dated w outline unit at) s ready (record {
      same_id = m.same_id;
      same_owner = m.same_owner;
      same_creation = m.same_creation;
      next_version = m.next_version;
      allowed = m.allowed;
    })

-- A save of a ready task.
pub save_task-After :
    (v : Task) (s : Repository)
    → IsReady v s
    → After (λ _ t. IsReady v t) s (writing (save_task v) s)
save_task-After v s ready = (save_task-Evolves v s ready, save_task-IsReady v s)

-- Evolution that goes on.
pub After-trans :
    {A : Type 0} (Q : A → Repository → Type 0) (s t : Repository)
    (r : Result WorkflowError A × Repository)
    → Evolves s t
    → After Q t r
    → After Q s r
After-trans Q s t (err e, u) f g = Evolves-trans f g
After-trans Q s t (ok a, u) f g = (Evolves-trans f g.0, g.1)

save_generated-After :
    (o : Outside) (task : Task) (run : AgentRun) (outline : OutlineVersion) (s : Repository)
    → IsReady task s
    → After Any s (save_generated o task run outline s)
unfolding save_generated
save_generated-After o task run outline s ready =
    let t : Repository = save_outline outline s in
    let q = save_outline-Quiet outline s in
    let u : Repository = save_task task t in
    After-trans Any s u _
      (Evolves-trans (Quiet-Evolves q) (save_task-Evolves task t (IsReady-Quiet task q ready)))
      (quiet_end (present o task run 20 22 _ _ _) u (present-Quiet o task run 20 22 _ _ _))

pub generate_outline-After :
    (o : Outside) (task : Task) (run : AgentRun) (brief : RequirementBrief) (s : Repository)
    → IsReady task s
    → After Any s (generate_outline o task run brief s)
unfolding generate_outline
generate_outline-After o task run brief s ready = elim (Result-cases (o.outline brief)) [
  | inl (e, failed) ↦ rw failed (Evolves-refl s)
  | inr (draft, drafted) ↦ elim (Result-cases (snapshot task.task_id s)) [
    | inl (e, failed) ↦ rw (drafted, failed) (Evolves-refl s)
    | inr (previous, found) ↦
        let version : ℕ = suc (last_version previous.outlines) in
        elim (Result-cases (outline_of o task.task_id version draft)) [
          | inl (e, failed) ↦ rw (drafted, found, failed) (Evolves-refl s)
          | inr (outline, built) ↦
              elim (Result-cases (advance task TaskStatus.outline_review task.version)) [
                | inl (e, failed) ↦ rw (drafted, found, built, failed) (Evolves-refl s)
                | inr (advanced, moved) ↦
                    rw (drafted, found, built, moved)
                      (save_generated-After o _ _ outline s (
                        advance-IsReady task TaskStatus.outline_review task.version advanced
                          (some outline.version) advanced.current_unit_sequence (o.now 21) s ready
                          moved))
              ]
        ]
  ]
]

-- What an attempt left: a task that can still be saved, where it raised.
abbrev Left : Attempt → Repository → Type 0
Left (done found) t = Unit
Left (raised e v) t = IsReady v.task t

abbrev AfterAttempt : Repository → Attempt × Repository → Type 0
AfterAttempt s (a, t) = Evolves s t × Left a t

AfterAttempt-trans :
    (s t : Repository) (r : Attempt × Repository)
    → Evolves s t
    → AfterAttempt t r
    → AfterAttempt s r
AfterAttempt-trans s t (a, u) f (g, left) = (Evolves-trans f g, left)

fail_saved-After :
    (o : Outside) (k : ℕ) (e : WorkflowError) (v : Locals) (s : Repository)
    (r : Result WorkflowError Unit × Repository)
    → Quiet s r.1
    → IsReady v.task s
    → AfterAttempt s (fail_saved o k e v r)
fail_saved-After o k e v s (err conflict, t) q ready =
    (Quiet-Evolves q, IsReady-Quiet v.task q ready)
fail_saved-After o k e v s (ok saved, t) q ready =
    let r = Quiet-trans q (
      Quiet-trans (event-Quiet o k (suc (suc k)) v.task.task_id "RunFailed" _ t)
        (checkpoint-Quiet v.task v.run "GENERATE_FIRST_UNIT_FAILED" _)) in
    (Quiet-Evolves r, IsReady-Quiet v.task r ready)

fail_task-After :
    (o : Outside) (k : ℕ) (e : WorkflowError) (v : Locals) (s : Repository)
    (r : Result WorkflowError Task)
    → advance v.task TaskStatus.failed v.task.version ≡ r
    → IsReady v.task s
    → AfterAttempt s (fail_task o k e v r s)
unfolding fail_task
fail_task-After o k e v s (err refused) h ready = (Evolves-refl s, ready)
fail_task-After o k e v s (ok advanced) h ready =
    let task : Task = record advanced { updated_at = o.now k } in
    let t : Repository = save_outline v.outline s in
    let q = save_outline-Quiet v.outline s in
    let run : AgentRun = failed_run o k e v.run in
    let task_ready : IsReady task t =
      advance-IsReady v.task TaskStatus.failed v.task.version advanced
        advanced.current_outline_version advanced.current_unit_sequence (o.now k) t
        (IsReady-Quiet v.task q ready) h in
    let u : Repository = save_task task t in
    let f = Evolves-trans (Quiet-Evolves q) (save_task-Evolves task t task_ready) in
    let left =
      fail_saved-After o k e (record v { task = task; run = run }) u (save_run run u)
        (save_run-Quiet run u) (save_task-IsReady task t) in
    AfterAttempt-trans s u _ f left

fail_run-After :
    (o : Outside) (k : ℕ) (e : WorkflowError) (v : Locals) (s : Repository)
    → IsReady v.task s
    → AfterAttempt s (fail_run o k e v s)
unfolding fail_run
fail_run-After o k e v s ready = fail_task-After o k e _ s _ refl ready

attempt_of-After :
    (v : Locals) (r : Result WorkflowError WorkflowSnapshot) (s t : Repository)
    → Quiet s t
    → IsReady v.task s
    → AfterAttempt s (attempt_of v r t)
attempt_of-After v (err e) s t q ready = (Quiet-Evolves q, IsReady-Quiet v.task q ready)
attempt_of-After v (ok found) s t q ready = (Quiet-Evolves q, tt)

wait_saved-After :
    (o : Outside) (v : Locals) (kind : String) (payload : List (String × EventValue))
    (node : String) (s : Repository) (r : Result WorkflowError Unit × Repository)
    → Quiet s r.1
    → IsReady v.task s
    → AfterAttempt s (wait_saved o v kind payload node r)
wait_saved-After o v kind payload node s (err conflict, t) q ready =
    (Quiet-Evolves q, IsReady-Quiet v.task q ready)
wait_saved-After o v kind payload node s (ok saved, t) q ready =
    let u : Repository =
      checkpoint v.task v.run node (event o 30 30 v.task.task_id kind payload t) in
    let r : Quiet s u = Quiet-trans q (
      Quiet-trans (event-Quiet o 30 30 v.task.task_id kind payload t)
        (checkpoint-Quiet v.task v.run node _)) in
    attempt_of-After v (snapshot v.task.task_id u) s u r ready

wait_for_user-After :
    (o : Outside) (v : Locals) (kind : String) (payload : List (String × EventValue))
    (node : String) (s : Repository)
    → IsReady v.task s
    → AfterAttempt s (wait_for_user o v kind payload node s)
unfolding wait_for_user
wait_for_user-After o v kind payload node s ready =
    let run : AgentRun = record v.run { status = RunStatus.waiting_user } in
    let outline : OutlineVersion = with_unit v.unit v.outline in
    wait_saved-After o (record v { run = run; outline = outline }) kind payload node s _
      (Quiet-trans (save_outline-Quiet outline s) (save_run-Quiet run (save_outline outline s)))
      ready

finish_unit-After :
    (l : Library) (o : Outside) (v : Locals) (draft : UnitDraft) (s : Repository)
    → IsReady v.task s
    → AfterAttempt s (finish_unit l o v draft s)
unfolding finish_unit
finish_unit-After l o v draft s ready =
    wait_for_user-After o (record v { unit = generated_unit l draft v.unit }) _ _ _ s ready

block_unit-After :
    (o : Outside) (v : Locals) (grounding : GroundingResult) (s : Repository)
    → IsReady v.task s
    → AfterAttempt s (block_unit o v grounding s)
unfolding block_unit
block_unit-After o v grounding s ready =
    wait_for_user-After o (record v { unit = blocked_unit v.unit }) _ _ _ s ready

if-AfterAttempt :
    (b : Bool) (s : Repository) (x y : Attempt × Repository)
    → AfterAttempt s x
    → AfterAttempt s y
    → AfterAttempt s (if b then x else y)
if-AfterAttempt true s x y h k = h
if-AfterAttempt false s x y h k = k

after_grounding-After :
    (l : Library) (o : Outside) (v : Locals) (draft : UnitDraft) (grounding : GroundingResult)
    (s : Repository)
    → IsReady v.task s
    → AfterAttempt s (after_grounding l o v draft grounding s)
unfolding after_grounding
after_grounding-After l o v draft grounding s ready =
    let t : Repository = save_grounding_result v.task.task_id grounding s in
    let q = save_grounding_result-Quiet v.task.task_id grounding s in
    let w : Locals = record v { unit = grounded_unit grounding v.unit } in
    let there = IsReady-Quiet v.task q ready in
    AfterAttempt-trans s t _ (Quiet-Evolves q) (
      if-AfterAttempt grounding.confirmable t (finish_unit l o w draft t)
        (block_unit o w grounding t) (finish_unit-After l o w draft t there)
        (block_unit-After o w grounding t there))

abbrev pub drafted_locals : Locals → List SectionDraft → Locals
drafted_locals v drafts = record v { unit = record v.unit { section_drafts = drafts } }

with_draft-After :
    (l : Library) (o : Outside) (v : Locals) (context : Option String) (draft : UnitDraft)
    (s : Repository)
    → IsReady v.task s
    → AfterAttempt s (with_draft l o v context draft s)
unfolding with_draft
with_draft-After l o v context draft s ready =
    elim (Result-cases (section_drafts_of l v (index_nodes [] (nodes_of v)) draft)) [
      | inl (e, failed) ↦ rw (with_draft, failed) (Evolves-refl s, ready)
      | inr (drafts, drafted) ↦ elim (Option-cases o.ground) [
        | inl unchecked ↦
            rw (with_draft, drafted, unchecked)
              (finish_unit-After l o (drafted_locals v drafts) draft s ready)
        | inr (ground_with, configured) ↦
            elim (Result-cases (ground_with (question_of l o v context draft))) [
              | inl (e, failed) ↦
                  rw (with_draft, drafted, configured, failed) (Evolves-refl s, ready)
              | inr (grounding, grounded) ↦
                  rw (with_draft, drafted, configured, grounded)
                    (after_grounding-After l o (drafted_locals v drafts) draft grounding s ready)
            ]
      ]
    ]

generate_unit_inner-After :
    (l : Library) (o : Outside) (v : Locals) (brief : RequirementBrief) (s : Repository)
    → IsReady v.task s
    → AfterAttempt s (generate_unit_inner l o v brief s)
unfolding generate_unit_inner
generate_unit_inner-After l o v brief s ready = elim (Result-cases (context_of o v brief)) [
  | inl (e, failed) ↦ rw (generate_unit_inner, failed) (Evolves-refl s, ready)
  | inr (context, given) ↦ elim (Result-cases (snapshot v.task.task_id s)) [
    | inl (e, failed) ↦ rw (generate_unit_inner, given, failed) (Evolves-refl s, ready)
    | inr (found, read) ↦
        let payload = payload_of v brief found.sections context in
        elim (Result-cases (o.unit_draft payload (keys (index_nodes [] (nodes_of v))))) [
          | inl (e, failed) ↦ elim (Bool-cases (is_model_error e)) [
            | inl model ↦
                rw (generate_unit_inner, given, read, failed, model)
                  (fail_run-After o 40 e v s ready)
            | inr apart ↦
                rw (generate_unit_inner, given, read, failed, apart) (Evolves-refl s, ready)
          ]
          | inr (draft, drafted) ↦
              rw (generate_unit_inner, given, read, drafted)
                (with_draft-After l o v context draft s ready)
        ]
  ]
]

outcome-After :
    (s : Repository) (r : Attempt × Repository) → AfterAttempt s r → After Any s (outcome r)
outcome-After s (done found, t) h = (h.0, tt)
outcome-After s (raised e v, t) h = h.0

handle-After :
    (o : Outside) (s : Repository) (r : Attempt × Repository)
    → AfterAttempt s r
    → After Any s (handle o r)
unfolding handle
handle-After o s (done found, t) h = (h.0, tt)
handle-After o s (raised e v, t) h = elim (Bool-cases (is_failed v.run.status)) [
  | inl failed ↦ rw failed h.0
  | inr active ↦ rw active (
      After-trans Any s t _ h.0
        (outcome-After t (fail_run o 50 e v t) (fail_run-After o 50 e v t h.1)))
]

pub generate_unit-After :
    (l : Library) (o : Outside) (task : Task) (run : AgentRun) (outline : OutlineVersion)
    (unit : ConfirmationUnit) (brief : RequirementBrief) (s : Repository)
    → IsReady task s
    → After Any s (generate_unit l o task run outline unit brief s)
unfolding generate_unit
generate_unit-After l o task run outline unit brief s ready =
    handle-After o s _ (generate_unit_inner-After l o _ brief s ready)
