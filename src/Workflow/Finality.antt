-- ===== src/Workflow/Finality.antt =====
-- What has to hold before `finalize_prd` of src/prd_agent/workflow/service.py completes a task, and
-- what `confirm_unit` demands of the unit.
mod Tests
use prd_agent.Base.{
  text_key, nat_key, pair_key, ◌≡◌, refl, sym, ◌∙◌, ap, String, Bool, true, false, not, Option,
  none, some, List, [], ◌∷◌, Result, ok, err, inl, inr, ◌==◌, any, last, All, arith, if◌then◌else◌,
  Bool-cases, Option-cases, Result-cases,
}
use prd_agent.Base.Dict.{get}
use prd_agent.Domain.Statuses.{is_final_review, is_confirmed, UnitStatus, TaskStatus}
use prd_agent.Domain.Errors.{WorkflowError}
use prd_agent.Domain.Entities.{
  WorkflowSnapshot, PrdDocumentVersion, ConfirmationUnit, OutlineVersion, current_outline,
}
use prd_agent.Domain.Commands.{FinalizePrd}
use prd_agent.Workflow.Repository.{Repository, get_idempotency}
use prd_agent.Workflow.Action.{after}
use prd_agent.Workflow.Outside.{Library, Outside, finalize_prd as finalize_input}
use prd_agent.Workflow.Common.{owned_snapshot, once}
use prd_agent.Workflow.Revising.{
  current_snapshot, last_quality, is_document_of, are_confirmed, is_blocked, finalize_document,
  finalize_guard, finalize_new, finalize_prd,
}

-- Every unit is confirmed.
abbrev pub AreConfirmed : List ConfirmationUnit → Type 0
AreConfirmed units = All (λ unit. unit.status ≡ UnitStatus.confirmed) units

are_confirmed-All :
    (units : List ConfirmationUnit) → are_confirmed units ≡ true → AreConfirmed units
are_confirmed-All [] h = tt
are_confirmed-All (unit ∷ units) h = elim (Bool-cases (is_confirmed unit.status)) [
  | inl done ↦ (confirmed-eq unit.status done, are_confirmed-All units (rw done at h))
  | inr open_unit ↦ absurd (ground (arith, h, open_unit))
]
  where
    confirmed-eq :
        (status : UnitStatus) → is_confirmed status ≡ true → status ≡ UnitStatus.confirmed
    confirmed-eq UnitStatus.confirmed h = refl
    confirmed-eq status h = cc

-- The task as its owner finds it is of the expected version and in its final review, the document is
-- its last and the one that the owner has seen, every unit of the current outline is confirmed, and
-- the last quality check of the document, if there is one, lets it be confirmed.
pub record IsFinal (c : FinalizePrd) (s : Repository) : Type 0 where
  pub found : WorkflowSnapshot
  pub document : PrdDocumentVersion
  pub outline : OutlineVersion
  pub owned : owned_snapshot c.task_id c.actor_id s ≡ ok found
  pub version : found.task.version ≡ c.expected_task_version
  pub review : found.task.status ≡ TaskStatus.final_review
  pub newest : last found.documents ≡ some document
  pub same_id : document.document_id ≡ c.document_id
  pub same_hash : document.content_hash ≡ c.content_hash
  pub current : current_outline found ≡ some outline
  pub confirmed : AreConfirmed outline.confirmation_units
  pub unblocked : is_blocked (last_quality document.document_id found) ≡ false

final_review-eq :
    (status : TaskStatus) → is_final_review status ≡ true → status ≡ TaskStatus.final_review
final_review-eq TaskStatus.final_review h = refl
final_review-eq status h = cc

finalize_guard-IsFinal :
    (c : FinalizePrd) (s : Repository) (v : WorkflowSnapshot × PrdDocumentVersion)
    → finalize_guard c s ≡ ok v
    → IsFinal c s
unfolding finalize_guard current_snapshot
finalize_guard-IsFinal c s v h = elim (Result-cases (owned_snapshot c.task_id c.actor_id s)) [
  | inl (e, failed) ↦ absurd (ground (arith, failed))
  | inr (found, owned) ↦ elim (Option-cases (last found.documents)) [
    | inl absent ↦ absurd (ground (arith, owned, absent))
    | inr (document, newest) ↦ elim (Option-cases (current_outline found)) [
      | inl absent ↦ absurd (ground (arith, owned, newest, absent))
      | inr (outline, current) ↦ record {
        found = found;
        document = document;
        outline = outline;
        owned = owned;
        version = ground arith;
        review = final_review-eq found.task.status (ground arith);
        newest = newest;
        same_id = ground (arith, text_key.same_iff document.document_id c.document_id);
        same_hash = ground (arith, text_key.same_iff document.content_hash c.content_hash);
        current = current;
        confirmed = are_confirmed-All outline.confirmation_units (ground arith);
        unblocked = ground arith;
      }
    ]
  ]
]

-- A final confirmation under a new key that returns has found the task, of the expected version and
-- in its final review, its last document with the id and the hash that the command names, every
-- unit of the current outline confirmed, and no quality check of the document that blocks it.
pub finalize_prd-IsFinal :
    (l : Library) (o : Outside) (c : FinalizePrd) (s t : Repository) (shown : WorkflowSnapshot)
    → get (c.actor_id, c.idempotency_key) s.idempotency ≡ none
    → finalize_prd l o c s ≡ (ok shown, t)
    → IsFinal c s
unfolding finalize_prd finalize_new once get_idempotency
finalize_prd-IsFinal l o c s t shown fresh h = elim (Result-cases (finalize_guard c s)) [
  | inr (v, passed) ↦ finalize_guard-IsFinal c s v passed
  | inl (e, failed) ↦
      let refused : finalize_prd l o c s ≡ (err e, s) =
        rw (finalize_prd, once, fresh, finalize_new, failed) refl in
      let wrong : ◌≡◌ {A = Result WorkflowError WorkflowSnapshot} (ok shown) (err e) =
        ap (λ r. r.0) (sym h ∙ refused) in
      absurd (ground (arith, wrong))
]
