-- ===== src/Policies/Tests.antt =====
-- The theorem on the task's transitions at a task that failed once and was then completed.
use prd_agent.Base.{◌≡◌, refl, true, List, [], ◌∷◌, nat_key, any}
use prd_agent.Domain.Statuses.{
  TaskStatus, draft, clarifying, failed, outline_review, generating, final_review, completed,
  is_generating, is_final_review,
}
use prd_agent.Policies.Tasks.{Trace, created, moved, transition, is_clarifying, completed_lem}

abbrev to_review : List TaskStatus
to_review = final_review ∷ generating ∷ outline_review ∷ failed ∷ clarifying ∷ draft ∷ []

failed_once : Trace outline_review (outline_review ∷ failed ∷ clarifying ∷ draft ∷ [])
unfolding transition
failed_once =
    moved failed outline_review 3 _
      (moved clarifying failed 2 _ (moved draft clarifying 1 _ created refl) refl) refl

finished : Trace completed (completed ∷ to_review)
unfolding transition
finished =
    moved final_review completed 6 _
      (moved generating final_review 5 _ (moved outline_review generating 4 _ failed_once refl)
        refl)
      refl

completed_lem_example :
    (any is_clarifying (completed ∷ to_review) ≡ true)
    × (any is_generating (completed ∷ to_review) ≡ true)
    × (any is_final_review (completed ∷ to_review) ≡ true)
completed_lem_example = completed_lem (completed ∷ to_review) finished
