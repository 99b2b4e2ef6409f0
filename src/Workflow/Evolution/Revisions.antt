-- ===== src/Workflow/Evolution/Revisions.antt =====
-- What `approve_revision_plan`, `reopen_prd` and `finalize_prd` of
-- src/prd_agent/workflow/service.py do to the tasks and the keys.
use prd_agent.Base.{
  ◌≡◌, refl, ap, subst, ◌∙◌, String, none, some, List, ok, inl, inr, ℕ, Result-cases, arith,
  text_key, pair_key,
}
use prd_agent.Base.Dict.{get}
use prd_agent.Domain.Statuses.{TaskStatus, RunStatus}
use prd_agent.Domain.Entities.{
  Task, AgentRun, OutlineVersion, WorkflowSnapshot, IdempotencyRecord, PrdDocumentVersion,
  EventValue,
}
use prd_agent.Domain.Commands.{ApproveRevisionPlan, ReopenPrd, FinalizePrd}
use prd_agent.Workflow.Repository.{
  Repository, save_task, save_run, save_outline, save_document, save_idempotency,
}
use prd_agent.Workflow.Outside.{Outside, Library}
use prd_agent.Workflow.Common.{advance, owned_snapshot, new_run, new_record}
use prd_agent.Workflow.Revising.{
  Revision, current_snapshot, approve_guard, approve_new, reopen, reopen_guard, reopen_new, revise,
  finalize_guard, finalize_new, finalized, finalizing_run, final_document,
}
use prd_agent.Workflow.Evolution.{
  Evolves, Evolves-refl, Evolves-trans, Quiet, Quiet-trans, Quiet-Evolves, IsReady, IsReady-Quiet,
  IsKeyed, IsRecorded, IsMade, save_task-Evolves, save_task-IsReady, save_task-keys,
  save_idempotency-Evolves, save_idempotency-IsRecorded, save_idempotency-IsReady,
}
use prd_agent.Workflow.Evolution.Writes.{
  After, after-After, Quiet-After, save_run-Quiet, save_outline-Quiet, save_document-Quiet,
  event-Quiet, checkpoint-Quiet, read_end,
}
use prd_agent.Workflow.Evolution.Generation.{After-trans, advance-IsReady, advance-TaskMove}
use prd_agent.Workflow.Evolution.Confirmations.{
  owned_snapshot-stored, owned_snapshot-IsOwned, After-IsMade, stored-IsReady, After-IsRecorded,
  generate_saved-After,
}

current_snapshot-found :
    (task_id actor_id : String) (expected : ℕ) (s : Repository) (found : WorkflowSnapshot)
    → current_snapshot task_id actor_id expected s ≡ ok found
    → owned_snapshot task_id actor_id s ≡ ok found
unfolding current_snapshot
current_snapshot-found task_id actor_id expected s found h = ground arith

-- The task and the key as a command leaves them that saves both.
abbrev Both : String → String → String → Task → Repository → Type 0
Both actor_id key hash task t = IsReady task t × IsRecorded actor_id key hash task.task_id t

-- The task is saved, and the command as made.
save_pair :
    (made : IdempotencyRecord) (task : Task) (s : Repository)
    → get (made.actor_id, made.idempotency_key) s.idempotency ≡ none
    → made.task_id ≡ task.task_id
    → IsReady task s
    → Evolves s (save_idempotency made (save_task task s))
      × Both made.actor_id made.idempotency_key made.input_hash task
          (save_idempotency made (save_task task s))
save_pair made task s fresh own ready =
    let t : Repository = save_task task s in
    (
      Evolves-trans (save_task-Evolves task s ready) (
          save_idempotency-Evolves made t
            (ap (get (made.actor_id, made.idempotency_key)) (save_task-keys task s) ∙ fresh)),
      (
        save_idempotency-IsReady made task t (save_task-IsReady task s),
        subst
            (λ i.
              IsRecorded made.actor_id made.idempotency_key made.input_hash i
                (save_idempotency made t))
            own (save_idempotency-IsRecorded made t),
      ),
    )

revise-After :
    (l : Library) (o : Outside) (actor_id key : String) (expected : ℕ) (hash : String)
    (v : Revision) (kind : String) (payload : List (String × EventValue)) (s : Repository)
    → get (actor_id, key) s.idempotency ≡ none
    → IsReady v.found.task s
    → After
        (λ _ t. IsRecorded actor_id key hash v.found.task.task_id t)
        s
        (revise l o actor_id key expected hash v kind payload s)
unfolding revise
revise-After l o actor_id key expected hash v kind payload s fresh ready =
    elim (Result-cases (advance v.found.task TaskStatus.generating expected)) [
      | inl (e, failed) ↦ rw failed (Evolves-refl s)
      | inr (advanced, moved) ↦
          let task : Task = record advanced {
            current_unit_sequence = some v.target.sequence;
            updated_at = o.now 0;
          } in
          let run : AgentRun =
            new_run o task.task_id v.found.run.thread_id RunStatus.running hash key 1 in
          let made : IdempotencyRecord = new_record o actor_id key hash task.task_id run.run_id 4 in
          rw moved (
            after-After (λ _ t. Quiet s t)
              (λ _ t. IsRecorded actor_id key hash v.found.task.task_id t) _ s (save_run run s)
              (Quiet-After s (save_run run s) (save_run-Quiet run s))
              λ _ t q.
                let u : Repository = save_outline v.outline t in
                let r = Quiet-trans q (save_outline-Quiet v.outline t) in
                let there : IsReady task u =
                  advance-IsReady v.found.task TaskStatus.generating expected advanced
                    advanced.current_outline_version (some v.target.sequence) (o.now 0) u
                    (IsReady-Quiet v.found.task r ready) moved in
                let (f, kept) =
                  save_pair made task u (ap (get (actor_id, key)) r.keys ∙ fresh) refl there in
                let w : Repository = save_idempotency made (save_task task u) in
                let p = event-Quiet o 6 5 task.task_id kind payload w in
                let g : Evolves t w =
                  Evolves-trans (Quiet-Evolves (save_outline-Quiet v.outline t)) f in
                After-trans (λ _ x. IsRecorded actor_id key hash v.found.task.task_id x) t w _ g
                  (After-IsRecorded actor_id key hash v.found.task.task_id w _
                    (subst (λ i. IsRecorded actor_id key hash i w)
                      (advance-TaskMove v.found.task TaskStatus.generating expected advanced
                        moved).same_id
                      kept.1)
                    (generate_saved-After l o v.found task run v.outline v.target w _
                      (Quiet-Evolves p) (IsReady-Quiet task p kept.0))))
    ]

reopen-found :
    (found : WorkflowSnapshot) (outline : OutlineVersion) (ids : List String) (v : Revision)
    → reopen found outline ids ≡ ok v
    → v.found ≡ found
unfolding reopen
reopen-found found outline ids v h = ground arith

pub approve_guard-found :
    (c : ApproveRevisionPlan) (s : Repository) (v : Revision)
    → approve_guard c s ≡ ok v
    → owned_snapshot c.task_id c.actor_id s ≡ ok v.found
unfolding approve_guard
approve_guard-found c s v h =
    elim (Result-cases (current_snapshot c.task_id c.actor_id c.expected_task_version s)) [
      | inl (e, failed) ↦ absurd (ground arith)
      | inr (found, read) ↦
          ground
            (arith, current_snapshot-found c.task_id c.actor_id c.expected_task_version s found)
    ]

pub reopen_guard-found :
    (c : ReopenPrd) (s : Repository) (v : Revision)
    → reopen_guard c s ≡ ok v
    → owned_snapshot c.task_id c.actor_id s ≡ ok v.found
unfolding reopen_guard
reopen_guard-found c s v h =
    elim (Result-cases (current_snapshot c.task_id c.actor_id c.expected_task_version s)) [
      | inl (e, failed) ↦ absurd (ground arith)
      | inr (found, read) ↦
          ground
            (arith, current_snapshot-found c.task_id c.actor_id c.expected_task_version s found)
    ]

pub finalize_guard-found :
    (c : FinalizePrd) (s : Repository) (v : WorkflowSnapshot × PrdDocumentVersion)
    → finalize_guard c s ≡ ok v
    → owned_snapshot c.task_id c.actor_id s ≡ ok v.0
unfolding finalize_guard
finalize_guard-found c s v h =
    elim (Result-cases (current_snapshot c.task_id c.actor_id c.expected_task_version s)) [
      | inl (e, failed) ↦ absurd (ground arith)
      | inr (found, read) ↦
          ground
            (arith, current_snapshot-found c.task_id c.actor_id c.expected_task_version s found)
    ]

pub approve_new-After :
    (l : Library) (o : Outside) (c : ApproveRevisionPlan) (hash : String) (s : Repository)
    → IsKeyed s
    → get (c.actor_id, c.idempotency_key) s.idempotency ≡ none
    → After
        (λ _ t. IsMade c.actor_id c.idempotency_key hash c.task_id t)
        s
        (approve_new l o c hash s)
unfolding approve_new
approve_new-After l o c hash s keyed fresh = elim (Result-cases (approve_guard c s)) [
  | inl (e, failed) ↦ rw failed (Evolves-refl s)
  | inr (v, passed) ↦
      let stored =
        owned_snapshot-stored c.task_id c.actor_id s v.found (approve_guard-found c s v passed) in
      rw passed (
        After-IsMade c.actor_id c.idempotency_key hash v.found.task.task_id c.task_id s _
          (keyed c.task_id v.found.task stored)
          (owned_snapshot-IsOwned c.task_id c.actor_id s v.found (approve_guard-found c s v passed))
          (revise-After l o c.actor_id c.idempotency_key c.expected_task_version hash v _ _ s fresh
            (stored-IsReady c.task_id v.found.task s keyed stored)))
]

pub reopen_new-After :
    (l : Library) (o : Outside) (c : ReopenPrd) (hash : String) (s : Repository)
    → IsKeyed s
    → get (c.actor_id, c.idempotency_key) s.idempotency ≡ none
    → After
        (λ _ t. IsMade c.actor_id c.idempotency_key hash c.task_id t)
        s
        (reopen_new l o c hash s)
unfolding reopen_new
reopen_new-After l o c hash s keyed fresh = elim (Result-cases (reopen_guard c s)) [
  | inl (e, failed) ↦ rw failed (Evolves-refl s)
  | inr (v, passed) ↦
      let stored =
        owned_snapshot-stored c.task_id c.actor_id s v.found (reopen_guard-found c s v passed) in
      rw passed (
        After-IsMade c.actor_id c.idempotency_key hash v.found.task.task_id c.task_id s _
          (keyed c.task_id v.found.task stored)
          (owned_snapshot-IsOwned c.task_id c.actor_id s v.found (reopen_guard-found c s v passed))
          (revise-After l o c.actor_id c.idempotency_key c.expected_task_version hash v _ _ s fresh
            (stored-IsReady c.task_id v.found.task s keyed stored)))
]

finalized-After :
    (o : Outside) (c : FinalizePrd) (hash : String) (found : WorkflowSnapshot)
    (document : PrdDocumentVersion) (s : Repository)
    → get (c.actor_id, c.idempotency_key) s.idempotency ≡ none
    → IsReady found.task s
    → After
        (λ _ t. IsRecorded c.actor_id c.idempotency_key hash found.task.task_id t)
        s
        (finalized o c hash found document s)
unfolding finalized
finalized-After o c hash found document s fresh ready =
    elim (Result-cases (advance found.task TaskStatus.completed c.expected_task_version)) [
      | inl (e, failed) ↦ rw failed (Evolves-refl s)
      | inr (advanced, moved) ↦
          let task : Task = record advanced { updated_at = o.now 0 } in
          let run : AgentRun = finalizing_run o c hash found in
          let final : PrdDocumentVersion = final_document o c document in
          let made : IdempotencyRecord =
            new_record o c.actor_id c.idempotency_key hash task.task_id run.run_id 4 in
          rw moved (
            after-After (λ _ t. Quiet s t)
              (λ _ t. IsRecorded c.actor_id c.idempotency_key hash found.task.task_id t) _ s
              (save_run run s) (Quiet-After s (save_run run s) (save_run-Quiet run s))
              λ _ t q.
                let u : Repository = save_document final t in
                let r = Quiet-trans q (save_document-Quiet final t) in
                let there : IsReady task u =
                  advance-IsReady found.task TaskStatus.completed c.expected_task_version advanced
                    advanced.current_outline_version advanced.current_unit_sequence (o.now 0) u
                    (IsReady-Quiet found.task r ready) moved in
                let (f, kept) =
                  save_pair made task u (ap (get (c.actor_id, c.idempotency_key)) r.keys ∙ fresh)
                    refl there in
                let w : Repository = save_idempotency made (save_task task u) in
                let p =
                  Quiet-trans (event-Quiet o 7 5 task.task_id "PrdFinalized" _ w)
                    (checkpoint-Quiet task run "COMPLETED" _) in
                let g : Evolves t w =
                  Evolves-trans (Quiet-Evolves (save_document-Quiet final t)) f in
                After-trans
                  (λ _ x. IsRecorded c.actor_id c.idempotency_key hash found.task.task_id x) t w _ g
                  (After-IsRecorded c.actor_id c.idempotency_key hash found.task.task_id w _
                    (subst (λ i. IsRecorded c.actor_id c.idempotency_key hash i w)
                      (advance-TaskMove found.task TaskStatus.completed c.expected_task_version
                        advanced moved).same_id
                      kept.1)
                    (read_end _ w _ (Quiet-Evolves p))))
    ]

pub finalize_new-After :
    (l : Library) (o : Outside) (c : FinalizePrd) (hash : String) (s : Repository)
    → IsKeyed s
    → get (c.actor_id, c.idempotency_key) s.idempotency ≡ none
    → After
        (λ _ t. IsMade c.actor_id c.idempotency_key hash c.task_id t)
        s
        (finalize_new l o c hash s)
unfolding finalize_new
finalize_new-After l o c hash s keyed fresh = elim (Result-cases (finalize_guard c s)) [
  | inl (e, failed) ↦ rw failed (Evolves-refl s)
  | inr (v, passed) ↦
      let stored =
        owned_snapshot-stored c.task_id c.actor_id s v.0 (finalize_guard-found c s v passed) in
      rw passed (
        After-IsMade c.actor_id c.idempotency_key hash v.0.task.task_id c.task_id s _
          (keyed c.task_id v.0.task stored)
          (owned_snapshot-IsOwned c.task_id c.actor_id s v.0 (finalize_guard-found c s v passed))
          (finalized-After o c hash v.0 v.1 s fresh
            (stored-IsReady c.task_id v.0.task s keyed stored)))
]
