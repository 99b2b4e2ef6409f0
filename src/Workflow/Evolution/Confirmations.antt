-- ===== src/Workflow/Evolution/Confirmations.antt =====
-- What `confirm_outline` and `confirm_unit` of src/prd_agent/workflow/service.py do to the tasks
-- and the keys.
use prd_agent.Base.{
  ◌≡◌, refl, ap, subst, ◌∙◌, String, true, none, some, List, ◌++◌, Result, ok, err, inl, inr, ℕ,
  suc, Option-cases, Result-cases, arith, text_key, pair_key,
}
use prd_agent.Base.Dict.{get}
use prd_agent.Domain.Statuses.{TaskStatus, RunStatus, UnitStatus, is_generating}
use prd_agent.Domain.Errors.{WorkflowError}
use prd_agent.Domain.Entities.{
  Task, AgentRun, OutlineVersion, ConfirmationUnit, WorkflowSnapshot, IdempotencyRecord,
  PrdSectionVersion, PrdDocumentVersion, EventValue,
}
use prd_agent.Domain.Commands.{ConfirmOutline, ConfirmUnit}
use prd_agent.Workflow.Repository.{
  Repository, save_task, save_run, save_outline, save_document, snapshot, get_task, latest_run,
  snapshot_for_owner,
}
use prd_agent.Workflow.Action.{after}
use prd_agent.Workflow.Outside.{Outside, Library, new_id}
use prd_agent.Workflow.Sections.{current_sections, render_markdown}
use prd_agent.Workflow.Common.{
  advance, event, with_unit, owned_snapshot, brief_in, new_run, new_record, succeeded_run,
}
use prd_agent.Workflow.Generating.{generate_unit}
use prd_agent.Workflow.Confirming.{
  Confirmation, outline_guard, take_over, confirmed_outline, outline_confirmed, confirm_outline_new,
  unit_guard, go_on, check_quality, render_document, finish_document, new_document, confirmed_unit,
  new_sections, drafts_to_confirm, next_unit, unit_confirmed, confirm_unit_new,
}
use prd_agent.Workflow.Evolution.{
  TaskMove, stays, Evolves, Evolves-refl, Evolves-trans, Quiet, Quiet-refl, Quiet-trans,
  Quiet-Evolves, IsReady, IsReady-Quiet, IsKeyed, IsRecorded, IsRecorded-Evolves, IsOwned,
  IsOwned-Evolves, IsMade, save_task-Evolves, save_task-IsReady, save_idempotency-Evolves,
  save_idempotency-IsRecorded, save_idempotency-IsReady,
}
use prd_agent.Workflow.Evolution.Writes.{
  After, Any, IsQuiet, after-After, after-Quiet, Quiet-After, quiet_end, save_run-Quiet,
  save_outline-Quiet, save_document-Quiet, save_sections-Quiet, save_quality_result-Quiet,
  event-Quiet, checkpoint-Quiet,
}
use prd_agent.Workflow.Evolution.Generation.{
  After-trans, IsReady-moves, advance-IsReady, generate_unit-After,
}

-- The task of a snapshot is the one that is stored.
pub owned_snapshot-stored :
    (task_id actor_id : String) (s : Repository) (found : WorkflowSnapshot)
    → owned_snapshot task_id actor_id s ≡ ok found
    → get task_id s.tasks ≡ some found.task
unfolding owned_snapshot snapshot_for_owner snapshot get_task
owned_snapshot-stored task_id actor_id s found h = elim (Option-cases (get task_id s.tasks)) [
  | inl absent ↦ absurd (ground arith)
  | inr (task, stored) ↦ elim (Result-cases (latest_run task_id s)) [
    | inl (e, failed) ↦ absurd (ground arith)
    | inr (run, ran) ↦ ground arith
  ]
]

pub owned_snapshot-IsOwned :
    (task_id actor_id : String) (s : Repository) (found : WorkflowSnapshot)
    → owned_snapshot task_id actor_id s ≡ ok found
    → IsOwned task_id actor_id s
unfolding owned_snapshot snapshot_for_owner get_task
owned_snapshot-IsOwned task_id actor_id s found h = elim (Option-cases (get task_id s.tasks)) [
  | inl absent ↦ absurd (ground arith)
  | inr (task, stored) ↦ (task, stored, (text_key.same_iff task.owner_id actor_id).0 (ground arith))
]

pub stored-IsReady :
    (task_id : String) (v : Task) (s : Repository)
    → IsKeyed s
    → get task_id s.tasks ≡ some v
    → IsReady v s
stored-IsReady task_id v s keyed stored =
    (v, ap (λ id. get id s.tasks) (keyed task_id v stored) ∙ stored, stays)

-- A value that is recorded stays so.
pub After-IsRecorded :
    {A : Type 0} (actor_id key hash task_id : String) (s : Repository)
    (r : Result WorkflowError A × Repository)
    → IsRecorded actor_id key hash task_id s
    → After Any s r
    → After (λ _ t. IsRecorded actor_id key hash task_id t) s r
After-IsRecorded actor_id key hash task_id s (err e, t) h f = f
After-IsRecorded actor_id key hash task_id s (ok a, t) h f =
    (f.0, IsRecorded-Evolves actor_id key hash task_id s t f.0 h)

pub After-renamed :
    {A : Type 0} (actor_id key hash id task_id : String) (s : Repository)
    (r : Result WorkflowError A × Repository)
    → id ≡ task_id
    → After (λ _ t. IsRecorded actor_id key hash id t) s r
    → After (λ _ t. IsRecorded actor_id key hash task_id t) s r
After-renamed actor_id key hash id task_id s r same h =
    subst (λ i. After (λ _ t. IsRecorded actor_id key hash i t) s r) same h

-- A value that is recorded for an id of a task that was the actor's all along.
pub After-IsMade :
    {A : Type 0} (actor_id key hash id task_id : String) (s : Repository)
    (r : Result WorkflowError A × Repository)
    → id ≡ task_id
    → IsOwned task_id actor_id s
    → After (λ _ t. IsRecorded actor_id key hash id t) s r
    → After (λ _ t. IsMade actor_id key hash task_id t) s r
After-IsMade actor_id key hash id task_id s (err e, t) same owned f = f
After-IsMade actor_id key hash id task_id s (ok a, t) same owned f = (
  f.0,
  (
    subst (λ i. IsRecorded actor_id key hash i t) same f.1,
    IsOwned-Evolves task_id actor_id s t f.0 owned,
  ),
)

-- The last two fields of what `take_over` leaves.
abbrev pub TakenOver : String → String → String → Task → AgentRun → Repository → Type 0
TakenOver actor_id key hash task run t =
    IsReady task t × IsRecorded actor_id key hash task.task_id t

pub take_over-After :
    (o : Outside) (actor_id key hash : String) (task : Task) (run : AgentRun) (s : Repository)
    → get (actor_id, key) s.idempotency ≡ none
    → IsReady task s
    → After (TakenOver actor_id key hash task) s (take_over o actor_id key hash task run s)
unfolding take_over
take_over-After o actor_id key hash task run s fresh ready =
    after-After (λ _ t. Quiet s t) (TakenOver actor_id key hash task) _ s
      (save_run (succeeded_run run (o.now 7)) s) (Quiet-After s _ (save_run-Quiet _ s))
      λ _ t q.
        after-After (λ _ u. Quiet t u) (TakenOver actor_id key hash task) _ t
          (save_run (new_run o task.task_id run.thread_id RunStatus.running hash key 1) t)
          (Quiet-After t _ (save_run-Quiet _ t))
          λ _ u q₁.
            let both = Quiet-trans q q₁ in
            let made : IdempotencyRecord =
              new_record o actor_id key hash task.task_id
                (new_run o task.task_id run.thread_id RunStatus.running hash key 1).run_id 4 in
            (
              save_idempotency-Evolves made u (ap (get (actor_id, key)) both.keys ∙ fresh),
              (
                save_idempotency-IsReady made task u (IsReady-Quiet task both ready),
                save_idempotency-IsRecorded made u,
              ),
            )

pub outline_guard-found :
    (c : ConfirmOutline) (s : Repository) (v : Confirmation)
    → outline_guard c s ≡ ok v
    → owned_snapshot c.task_id c.actor_id s ≡ ok v.found
unfolding outline_guard
outline_guard-found c s v h = ground arith

-- The generation of a unit after a save of the outline and of the task.
pub generate_saved-After :
    (l : Library) (o : Outside) (found : WorkflowSnapshot) (task : Task) (run : AgentRun)
    (outline : OutlineVersion) (unit : ConfirmationUnit) (s t : Repository)
    → Evolves s t
    → IsReady task t
    → After Any s
        (after (λ brief. generate_unit l o task run outline unit brief) (brief_in found, t))
generate_saved-After l o found task run outline unit s t f ready =
    elim (Result-cases (brief_in found)) [
      | inl (e, failed) ↦ rw failed f
      | inr (brief, given) ↦
          rw given
            (After-trans Any s t _ f (generate_unit-After l o task run outline unit brief t ready))
    ]

generating-After :
    (l : Library) (o : Outside) (found : WorkflowSnapshot) (task : Task) (run : AgentRun)
    (outline : OutlineVersion) (unit : ConfirmationUnit) (i k : ℕ) (kind : String)
    (payload : List (String × EventValue)) (s : Repository)
    → IsReady task s
    → After Any s (
        after
          (λ brief. generate_unit l o task run outline unit brief)
          (
            brief_in found,
            event o i k task.task_id kind payload (save_task task (save_outline outline s)),
          ))
generating-After l o found task run outline unit i k kind payload s ready =
    let t : Repository = save_outline outline s in
    let q = save_outline-Quiet outline s in
    let u : Repository = save_task task t in
    let p = event-Quiet o i k task.task_id kind payload u in
    generate_saved-After l o found task run outline unit s _
      (Evolves-trans (Quiet-Evolves q)
        (Evolves-trans (save_task-Evolves task t (IsReady-Quiet task q ready)) (Quiet-Evolves p)))
      (IsReady-Quiet task p (save_task-IsReady task t))

outline_confirmed-After :
    (l : Library) (o : Outside) (c : ConfirmOutline) (v : Confirmation) (run : AgentRun)
    (s : Repository)
    → IsReady v.found.task s
    → After Any s (outline_confirmed l o c v run s)
unfolding outline_confirmed
outline_confirmed-After l o c v run s ready =
    let unit : ConfirmationUnit = record v.unit { status = UnitStatus.generating } in
    let outline : OutlineVersion = confirmed_outline o v.outline unit in
    elim (Result-cases (advance v.found.task TaskStatus.generating c.expected_task_version)) [
      | inl (e, failed) ↦ rw failed (Evolves-refl s)
      | inr (advanced, moved) ↦ rw moved (
          generating-After l o v.found
            (record advanced { current_unit_sequence = some 1; updated_at = o.now 9 }) run outline
            unit 2 10 _ _ s
            (advance-IsReady v.found.task TaskStatus.generating c.expected_task_version advanced
              advanced.current_outline_version (some 1) (o.now 9) s ready moved))
    ]

pub confirm_outline_new-After :
    (l : Library) (o : Outside) (c : ConfirmOutline) (hash : String) (s : Repository)
    → IsKeyed s
    → get (c.actor_id, c.idempotency_key) s.idempotency ≡ none
    → After
        (λ _ t. IsMade c.actor_id c.idempotency_key hash c.task_id t)
        s
        (confirm_outline_new l o c hash s)
unfolding confirm_outline_new
confirm_outline_new-After l o c hash s keyed fresh = elim (Result-cases (outline_guard c s)) [
  | inl (e, failed) ↦ rw failed (Evolves-refl s)
  | inr (v, passed) ↦
      let stored =
        owned_snapshot-stored c.task_id c.actor_id s v.found (outline_guard-found c s v passed) in
      rw passed (
        After-IsMade c.actor_id c.idempotency_key hash v.found.task.task_id c.task_id s _
          (keyed c.task_id v.found.task stored)
          (owned_snapshot-IsOwned c.task_id c.actor_id s v.found (outline_guard-found c s v passed))
          (after-After (TakenOver c.actor_id c.idempotency_key hash v.found.task)
            (λ _ t. IsRecorded c.actor_id c.idempotency_key hash v.found.task.task_id t) _ s
            (take_over o c.actor_id c.idempotency_key hash v.found.task v.found.run s)
            (take_over-After o c.actor_id c.idempotency_key hash v.found.task v.found.run s fresh
              (stored-IsReady c.task_id v.found.task s keyed stored))
            λ run t taken.
              After-IsRecorded c.actor_id c.idempotency_key hash v.found.task.task_id t _ taken.1
                (outline_confirmed-After l o c v run t taken.0)))
]

pub unit_guard-found :
    (c : ConfirmUnit) (s : Repository) (v : Confirmation)
    → unit_guard c s ≡ ok v
    → (owned_snapshot c.task_id c.actor_id s ≡ ok v.found)
      × (is_generating v.found.task.status ≡ true)
unfolding unit_guard
unit_guard-found c s v h = (ground arith, ground arith)

generating-eq : (status : TaskStatus) → is_generating status ≡ true → status ≡ TaskStatus.generating
generating-eq TaskStatus.generating h = refl
generating-eq status h = cc

go_on-After :
    (l : Library) (o : Outside) (found : WorkflowSnapshot) (run : AgentRun)
    (outline : OutlineVersion) (next : ConfirmationUnit) (s : Repository)
    → is_generating found.task.status ≡ true
    → IsReady found.task s
    → After Any s (go_on l o found run outline next s)
unfolding go_on
go_on-After l o found run outline next s on ready =
    let unit : ConfirmationUnit = record next { status = UnitStatus.generating } in
    let changed : OutlineVersion = with_unit unit outline in
    let task : Task = record found.task {
      version = suc found.task.version;
      current_unit_sequence = some unit.sequence;
      updated_at = o.now 13;
    } in
    let t : Repository = save_outline changed s in
    let q = save_outline-Quiet changed s in
    let e = generating-eq found.task.status on in
    let move : TaskMove found.task task = record {
      same_id = refl;
      same_owner = refl;
      same_creation = refl;
      next_version = refl;
      allowed = inr (e, e);
    } in
    let there : IsReady task t =
      IsReady-moves found.task task t (IsReady-Quiet found.task q ready) move in
    generate_saved-After l o found task run changed unit s (save_task task t)
      (Evolves-trans (Quiet-Evolves q) (save_task-Evolves task t there)) (save_task-IsReady task t)

check_quality-Quiet :
    (o : Outside) (task_id : String) (document : PrdDocumentVersion) (outline : OutlineVersion)
    (sections : List PrdSectionVersion)
    → IsQuiet (check_quality o task_id document outline sections)
unfolding check_quality
check_quality-Quiet o task_id document outline sections s = elim (Option-cases o.check_document) [
  | inl unchecked ↦ rw (check_quality, unchecked) (Quiet-refl s)
  | inr (check, configured) ↦
      elim (Result-cases
        (check (new_id o "quality" 0) task_id document.document_id outline sections)) [
          | inl (e, failed) ↦ rw (check_quality, configured, failed) (Quiet-refl s)
          | inr (quality, passed) ↦
              rw (check_quality, configured, passed)
                (Quiet-trans (save_quality_result-Quiet task_id quality s)
                  (event-Quiet o 4 15 task_id "DocumentQualityChecked" _ _))
        ]
]

document_tail-Quiet :
    (l : Library) (o : Outside) (found : WorkflowSnapshot) (run : AgentRun)
    (outline : OutlineVersion) (sections : List PrdSectionVersion) (task : Task)
    → IsQuiet (render_document l o found run outline sections task)
unfolding render_document
document_tail-Quiet l o found run outline sections task s = elim (Result-cases (brief_in found)) [
  | inl (e, failed) ↦ rw failed (Quiet-refl s)
  | inr (brief, given) ↦
      let current = current_sections outline (found.sections ++ sections) in
      elim (Result-cases
        (render_markdown brief outline current (o.evidence_appendix found.grounding_results))) [
          | inl (e, failed) ↦ rw (given, failed) (Quiet-refl s)
          | inr (markdown, rendered) ↦
              let document = new_document l o found current markdown in
              let t = save_document document s in
              rw (given, rendered)
                (Quiet-trans (save_document-Quiet document s) (
                  after-Quiet _ t (check_quality o task.task_id document outline current t)
                    (check_quality-Quiet o task.task_id document outline current t)
                    λ _ u. Quiet-trans (event-Quiet o 5 17 task.task_id "PrdRendered" _ u) (
                      after-Quiet _ _ (save_run (succeeded_run run (o.now 18)) _)
                        (save_run-Quiet (succeeded_run run (o.now 18)) _)
                        λ _ w.
                          checkpoint-Quiet task (succeeded_run run (o.now 18)) "FINAL_REVIEW" w)))
        ]
]

finish_document-After :
    (l : Library) (o : Outside) (c : ConfirmUnit) (found : WorkflowSnapshot) (run : AgentRun)
    (outline : OutlineVersion) (sections : List PrdSectionVersion) (s : Repository)
    → IsReady found.task s
    → After Any s (finish_document l o c found run outline sections s)
unfolding finish_document
finish_document-After l o c found run outline sections s ready =
    elim (Result-cases (advance found.task TaskStatus.final_review c.expected_task_version)) [
      | inl (e, failed) ↦ rw failed (Evolves-refl s)
      | inr (advanced, moved) ↦
          let task : Task = record advanced { updated_at = o.now 16 } in
          let there : IsReady task s =
            advance-IsReady found.task TaskStatus.final_review c.expected_task_version advanced
              advanced.current_outline_version advanced.current_unit_sequence (o.now 16) s ready
              moved in
          rw moved (
            After-trans Any s (save_task task s) _ (save_task-Evolves task s there) (
              quiet_end (render_document l o found run outline sections task) (save_task task s)
                (document_tail-Quiet l o found run outline sections task)))
    ]

unit_confirmed-After :
    (l : Library) (o : Outside) (c : ConfirmUnit) (v : Confirmation) (run : AgentRun)
    (s : Repository)
    → is_generating v.found.task.status ≡ true
    → IsReady v.found.task s
    → After Any s (unit_confirmed l o c v run s)
unfolding unit_confirmed
unit_confirmed-After l o c v run s on ready =
    let unit = confirmed_unit v.unit in
    let outline = with_unit unit v.outline in
    let sections =
      new_sections o c.actor_id run unit v.found.sections 0 (drafts_to_confirm l unit) in
    let q = Quiet-trans (save_outline-Quiet outline s) (
      Quiet-trans (save_sections-Quiet v.found.task.task_id sections (save_outline outline s))
        (event-Quiet o 3 10 v.found.task.task_id "UnitConfirmed" _ _)) in
    let there = IsReady-Quiet v.found.task q ready in
    elim (Option-cases (next_unit unit outline)) [
      | inl over ↦ rw over (
          After-trans Any s _ _ (Quiet-Evolves q)
            (finish_document-After l o c v.found run outline sections _ there))
      | inr (next, found) ↦ rw found (
          After-trans Any s _ _ (Quiet-Evolves q)
            (go_on-After l o v.found run outline next _ on there))
    ]

pub confirm_unit_new-After :
    (l : Library) (o : Outside) (c : ConfirmUnit) (hash : String) (s : Repository)
    → IsKeyed s
    → get (c.actor_id, c.idempotency_key) s.idempotency ≡ none
    → After
        (λ _ t. IsMade c.actor_id c.idempotency_key hash c.task_id t)
        s
        (confirm_unit_new l o c hash s)
unfolding confirm_unit_new
confirm_unit_new-After l o c hash s keyed fresh = elim (Result-cases (unit_guard c s)) [
  | inl (e, failed) ↦ rw failed (Evolves-refl s)
  | inr (v, passed) ↦
      let (read, on) = unit_guard-found c s v passed in
      let stored = owned_snapshot-stored c.task_id c.actor_id s v.found read in
      rw passed (
        After-IsMade c.actor_id c.idempotency_key hash v.found.task.task_id c.task_id s _
          (keyed c.task_id v.found.task stored)
          (owned_snapshot-IsOwned c.task_id c.actor_id s v.found read)
          (after-After (TakenOver c.actor_id c.idempotency_key hash v.found.task)
            (λ _ t. IsRecorded c.actor_id c.idempotency_key hash v.found.task.task_id t) _ s
            (take_over o c.actor_id c.idempotency_key hash v.found.task v.found.run s)
            (take_over-After o c.actor_id c.idempotency_key hash v.found.task v.found.run s fresh
              (stored-IsReady c.task_id v.found.task s keyed stored))
            λ run t taken.
              After-IsRecorded c.actor_id c.idempotency_key hash v.found.task.task_id t _ taken.1
                (unit_confirmed-After l o c v run t on taken.0)))
]
