-- ===== src/Workflow/Evolution/Answers.antt =====
-- Which task each command of WorkflowService, src/prd_agent/workflow/service.py, shows.
use prd_agent.Base.{
  ◌≡◌, refl, ◌∙◌, subst, String, true, some, none, List, Result, ok, err, inl, inr, ℕ, Bool-cases,
  Option-cases, Result-cases, arith, text_key, pair_key, ◌++◌, ◌∷◌, [],
}
use prd_agent.Base.Texts.{strip}
use prd_agent.Domain.Statuses.{TaskStatus, RunStatus, is_outline_review}
use prd_agent.Domain.Errors.{WorkflowError}
use prd_agent.Domain.Entities.{
  Task, AgentRun, OutlineVersion, ConfirmationUnit, RequirementBrief, EventValue, WorkflowSnapshot,
  PrdSectionVersion, PrdDocumentVersion, needs_clarification, text,
}
use prd_agent.Domain.Commands.{
  StartTask, ReplyToTask, ConfirmOutline, ConfirmUnit, ApproveRevisionPlan, ReopenPrd, FinalizePrd,
}
use prd_agent.Workflow.Repository.{Repository, Action, save_run, save_document}
use prd_agent.Workflow.Action.{after}
use prd_agent.Workflow.Outside.{Outside, Library, new_id}
use prd_agent.Workflow.Common.{advance, brief_in, new_run, succeeded_run, event, with_unit}
use prd_agent.Workflow.Outlining.{generate_outline}
use prd_agent.Workflow.Sections.{current_sections, render_markdown}
use prd_agent.Workflow.Generating.{is_model_error}
use prd_agent.Workflow.Starting.{
  ask_user, continue_with, start_failed, start_with, start_new, supersede, back_to_clarifying,
  reply_guard, reply_new, new_task, bundle, brief_version,
}
use prd_agent.Workflow.Confirming.{
  Confirmation, outline_confirmed, go_on, render_document, finish_document, unit_confirmed,
  next_unit, check_quality, confirm_outline_new, outline_guard, take_over, confirm_unit_new,
  unit_guard, confirmed_unit, new_document, new_sections, drafts_to_confirm,
}
use prd_agent.Workflow.Revising.{
  Revision, revise, finalized, approve_new, approve_guard, reopen_new, reopen_guard, finalize_new,
  finalize_guard,
}
use prd_agent.Workflow.Evolution.{IsKeyed}
use prd_agent.Workflow.Evolution.Generation.{advance-TaskMove}
use prd_agent.Workflow.Evolution.Starts.{reply_guard-stored}
use prd_agent.Workflow.Evolution.Confirmations.{
  owned_snapshot-stored, outline_guard-found, unit_guard-found,
}
use prd_agent.Workflow.Evolution.Revisions.{
  approve_guard-found, reopen_guard-found, finalize_guard-found,
}
use prd_agent.Workflow.Evolution.Shown.{
  Shows, after-Shows, checked-Shows, snapshot-Shows, present-Shows, generate_outline-Shows,
  generate_unit-Shows,
}

continue_with-Shows :
    (o : Outside) (task : Task) (run : AgentRun) (brief : RequirementBrief) (id : String)
    (s : Repository)
    → task.task_id ≡ id
    → Shows id (continue_with o task run brief s)
unfolding continue_with ask_user
continue_with-Shows o task run brief id s same = elim (Bool-cases (needs_clarification brief)) [
  | inl asks ↦ rw asks (present-Shows o task _ 1 6 _ _ _ id s same)
  | inr clear ↦ rw clear (
      subst (λ j. Shows j (generate_outline o task run brief s)) same
        (generate_outline-Shows o task run brief s))
]

start_with-Shows :
    (o : Outside) (c : StartTask) (hash : String) (brief : RequirementBrief) (s : Repository)
    → Shows (new_id o "task" 0) (start_with o c hash brief s)
unfolding start_with
start_with-Shows o c hash brief s =
    let made : Task = new_task o brief.problem c.actor_id in
    let task : Task = record made {
      status = TaskStatus.clarifying;
      version = 2;
      updated_at = o.now 0;
    } in
    let run : AgentRun =
      new_run o task.task_id (new_id o "thread" 0) RunStatus.running hash c.idempotency_key 0 in
    let t : Repository =
      event o 0 5 task.task_id "TaskStarted" (("run_id", text run.run_id) ∷ [])
        (bundle o c hash task run (brief_version o task.task_id 1 brief true) s) in
    continue_with-Shows o task run brief (new_id o "task" 0) t refl

pub start_new-Shows :
    (l : Library) (o : Outside) (c : StartTask) (hash : String) (s : Repository)
    → Shows (new_id o "task" 0) (start_new l o c hash s)
unfolding start_new start_failed
start_new-Shows l o c hash s = elim (Result-cases (o.requirement_brief (strip c.message) none)) [
  | inl (e, failed) ↦ elim (Bool-cases (is_model_error e)) [
    | inl model ↦ rw (start_new, failed, model) tt
    | inr outside ↦ rw (start_new, failed, outside) tt
  ]
  | inr (brief, given) ↦ rw (start_new, given) (start_with-Shows o c hash brief s)
]

-- The task that a reply goes on with is of the same id.
supersede-id :
    (o : Outside) (c : ReplyToTask) (task : Task) (previous : WorkflowSnapshot) (s t : Repository)
    (changed : Task)
    → back_to_clarifying o c task previous s ≡ (ok changed, t)
    → changed.task_id ≡ task.task_id
unfolding supersede
supersede-id o c task previous s t changed h = elim (Bool-cases (is_outline_review task.status)) [
  | inr clarifying ↦ ground arith
  | inl review ↦ elim (Result-cases (advance task TaskStatus.clarifying c.expected_task_version)) [
    | inl (e, failed) ↦ absurd (ground arith)
    | inr (advanced, moved) ↦
        let same =
          (advance-TaskMove task TaskStatus.clarifying c.expected_task_version advanced
            moved).same_id in
        ground arith
  ]
]

-- A chain after a part whose result and state are used.
met-Shows :
    {A : Type 0} (id : String) (f : A → Action WorkflowSnapshot)
    (r : Result WorkflowError A × Repository)
    → ((a : A) (t : Repository) → r ≡ (ok a, t) → Shows id (f a t))
    → Shows id (after f r)
met-Shows id f (err e, t) h = tt
met-Shows id f (ok a, t) h = h a t refl

pub reply_new-Shows :
    (o : Outside) (c : ReplyToTask) (hash : String) (s : Repository)
    → IsKeyed s
    → Shows c.task_id (reply_new o c hash s)
unfolding reply_new
reply_new-Shows o c hash s keyed = checked-Shows c.task_id _ (reply_guard c s) s λ found passed.
    let own = keyed c.task_id found.0 (reply_guard-stored c s found passed).0 in
    after-Shows c.task_id _ (brief_in found.1, s)
      λ old t.
        after-Shows c.task_id _ (o.requirement_brief (strip c.message) (some old), t)
          λ brief u.
            met-Shows c.task_id _ (back_to_clarifying o c found.0 found.1 u) λ task w resumed.
              let run : AgentRun =
                new_run o task.task_id found.1.run.thread_id RunStatus.running hash
                  c.idempotency_key 1 in
              after-Shows c.task_id _ (save_run (succeeded_run found.1.run (o.now 7)) w) λ _ x.
                after-Shows c.task_id _ (save_run run x) λ _ y.
                  continue_with-Shows o task run brief c.task_id _
                    (supersede-id o c found.0 found.1 u w task resumed ∙ own)

pub confirm_outline_new-Shows :
    (l : Library) (o : Outside) (c : ConfirmOutline) (hash : String) (s : Repository)
    → IsKeyed s
    → Shows c.task_id (confirm_outline_new l o c hash s)
unfolding confirm_outline_new outline_confirmed
confirm_outline_new-Shows l o c hash s keyed =
    checked-Shows c.task_id _ (outline_guard c s) s λ v passed.
      let own =
        keyed c.task_id v.found.task (
          owned_snapshot-stored c.task_id c.actor_id s v.found
            (outline_guard-found c s v passed)) in
      after-Shows c.task_id _
        (take_over o c.actor_id c.idempotency_key hash v.found.task v.found.run s)
        λ run t.
          checked-Shows c.task_id _
            (advance v.found.task TaskStatus.generating c.expected_task_version) t
            λ advanced moved.
              after-Shows c.task_id _ (brief_in v.found, _)
                λ brief u. generate_unit-Shows l o _ run _ _ brief c.task_id u (
                  (advance-TaskMove v.found.task TaskStatus.generating c.expected_task_version
                    advanced moved).same_id
                  ∙ own)

render_document-Shows :
    (l : Library) (o : Outside) (found : WorkflowSnapshot) (run : AgentRun)
    (outline : OutlineVersion) (sections : List PrdSectionVersion) (task : Task) (id : String)
    (s : Repository)
    → task.task_id ≡ id
    → Shows id (render_document l o found run outline sections task s)
unfolding render_document
render_document-Shows l o found run outline sections task id s same =
    after-Shows id _ (brief_in found, s)
      λ brief t.
        after-Shows id _
          (
            render_markdown brief outline (current_sections outline (found.sections ++ sections))
                (o.evidence_appendix found.grounding_results),
            t,
          )
          λ markdown u.
            let current = current_sections outline (found.sections ++ sections) in
            let document : PrdDocumentVersion = new_document l o found current markdown in
            after-Shows id _
              (check_quality o task.task_id document outline current (save_document document u))
              λ _ w.
                after-Shows id _ (save_run (succeeded_run run (o.now 18)) _)
                  λ _ x. snapshot-Shows id task.task_id _ same

finish_document-Shows :
    (l : Library) (o : Outside) (c : ConfirmUnit) (found : WorkflowSnapshot) (run : AgentRun)
    (outline : OutlineVersion) (sections : List PrdSectionVersion) (id : String) (s : Repository)
    → found.task.task_id ≡ id
    → Shows id (finish_document l o c found run outline sections s)
unfolding finish_document
finish_document-Shows l o c found run outline sections id s own =
    checked-Shows id _ (advance found.task TaskStatus.final_review c.expected_task_version) s
      λ advanced moved. render_document-Shows l o found run outline sections _ id _ (
        (advance-TaskMove found.task TaskStatus.final_review c.expected_task_version advanced
          moved).same_id
        ∙ own)

go_on-Shows :
    (l : Library) (o : Outside) (found : WorkflowSnapshot) (run : AgentRun)
    (outline : OutlineVersion) (next : ConfirmationUnit) (id : String) (s : Repository)
    → found.task.task_id ≡ id
    → Shows id (go_on l o found run outline next s)
unfolding go_on
go_on-Shows l o found run outline next id s own =
    after-Shows id _ (brief_in found, _) λ brief t. generate_unit-Shows l o _ run _ _ brief id t own

unit_confirmed-Shows :
    (l : Library) (o : Outside) (c : ConfirmUnit) (v : Confirmation) (run : AgentRun) (id : String)
    (s : Repository)
    → v.found.task.task_id ≡ id
    → Shows id (unit_confirmed l o c v run s)
unfolding unit_confirmed
unit_confirmed-Shows l o c v run id s own =
    let unit = confirmed_unit v.unit in
    let outline = with_unit unit v.outline in
    let sections =
      new_sections o c.actor_id run unit v.found.sections 0 (drafts_to_confirm l unit) in
    elim (Option-cases (next_unit unit outline)) [
      | inl over ↦ rw over (finish_document-Shows l o c v.found run outline sections id _ own)
      | inr (next, found) ↦ rw found (go_on-Shows l o v.found run outline next id _ own)
    ]

pub confirm_unit_new-Shows :
    (l : Library) (o : Outside) (c : ConfirmUnit) (hash : String) (s : Repository)
    → IsKeyed s
    → Shows c.task_id (confirm_unit_new l o c hash s)
unfolding confirm_unit_new
confirm_unit_new-Shows l o c hash s keyed = checked-Shows c.task_id _ (unit_guard c s) s λ v passed.
    let own =
      keyed c.task_id v.found.task
        (owned_snapshot-stored c.task_id c.actor_id s v.found (unit_guard-found c s v passed).0) in
    after-Shows c.task_id _
      (take_over o c.actor_id c.idempotency_key hash v.found.task v.found.run s)
      λ run t. unit_confirmed-Shows l o c v run c.task_id t own

revise-Shows :
    (l : Library) (o : Outside) (actor_id key : String) (expected : ℕ) (hash : String)
    (v : Revision) (kind : String) (payload : List (String × EventValue)) (id : String)
    (s : Repository)
    → v.found.task.task_id ≡ id
    → Shows id (revise l o actor_id key expected hash v kind payload s)
unfolding revise
revise-Shows l o actor_id key expected hash v kind payload id s own =
    checked-Shows id _ (advance v.found.task TaskStatus.generating expected) s λ advanced moved.
      after-Shows id _ (save_run _ s) λ _ t.
        after-Shows id _ (brief_in v.found, _)
          λ brief u. generate_unit-Shows l o _ _ v.outline v.target brief id u (
            (advance-TaskMove v.found.task TaskStatus.generating expected advanced moved).same_id
            ∙ own)

pub approve_new-Shows :
    (l : Library) (o : Outside) (c : ApproveRevisionPlan) (hash : String) (s : Repository)
    → IsKeyed s
    → Shows c.task_id (approve_new l o c hash s)
unfolding approve_new
approve_new-Shows l o c hash s keyed = checked-Shows c.task_id _ (approve_guard c s) s λ v passed.
    revise-Shows l o c.actor_id c.idempotency_key c.expected_task_version hash v _ _ c.task_id s (
      keyed c.task_id v.found.task
        (owned_snapshot-stored c.task_id c.actor_id s v.found (approve_guard-found c s v passed)))

pub reopen_new-Shows :
    (l : Library) (o : Outside) (c : ReopenPrd) (hash : String) (s : Repository)
    → IsKeyed s
    → Shows c.task_id (reopen_new l o c hash s)
unfolding reopen_new
reopen_new-Shows l o c hash s keyed = checked-Shows c.task_id _ (reopen_guard c s) s λ v passed.
    revise-Shows l o c.actor_id c.idempotency_key c.expected_task_version hash v _ _ c.task_id s (
      keyed c.task_id v.found.task
        (owned_snapshot-stored c.task_id c.actor_id s v.found (reopen_guard-found c s v passed)))

pub finalize_new-Shows :
    (l : Library) (o : Outside) (c : FinalizePrd) (hash : String) (s : Repository)
    → IsKeyed s
    → Shows c.task_id (finalize_new l o c hash s)
unfolding finalize_new finalized
finalize_new-Shows l o c hash s keyed = checked-Shows c.task_id _ (finalize_guard c s) s λ v passed.
    let own =
      keyed c.task_id v.0.task
        (owned_snapshot-stored c.task_id c.actor_id s v.0 (finalize_guard-found c s v passed)) in
    checked-Shows c.task_id _ (advance v.0.task TaskStatus.completed c.expected_task_version) s
      λ advanced moved. after-Shows c.task_id _ (save_run _ s) λ _ t. snapshot-Shows c.task_id _ _ (
        (advance-TaskMove v.0.task TaskStatus.completed c.expected_task_version advanced
          moved).same_id
        ∙ own)
