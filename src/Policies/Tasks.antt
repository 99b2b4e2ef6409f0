-- ===== src/Policies/Tasks.antt =====
-- TaskTransitionPolicy of src/prd_agent/policies/task_policy.py.
use prd_agent.Base.{
  nat_key, ℕ, ◌≡◌, refl, Bool, true, false, List, [], ◌∷◌, ◌==◌, arith, if◌then◌else◌, Result, ok,
  err, any,
}
use prd_agent.Domain.Statuses.{
  TaskStatus, draft, clarifying, outline_review, generating, final_review, completed, failed,
  stopped, deleting, is_generating, is_final_review,
}
use prd_agent.Domain.Errors.{WorkflowError, version_conflict, invalid_transition}

-- target in self._allowed[current]
abbrev pub is_allowed : TaskStatus → TaskStatus → Bool
is_allowed draft clarifying = true
is_allowed draft deleting = true
is_allowed draft _ = false
is_allowed clarifying outline_review = true
is_allowed clarifying failed = true
is_allowed clarifying stopped = true
is_allowed clarifying deleting = true
is_allowed clarifying _ = false
is_allowed outline_review clarifying = true
is_allowed outline_review generating = true
is_allowed outline_review deleting = true
is_allowed outline_review _ = false
is_allowed generating outline_review = true
is_allowed generating final_review = true
is_allowed generating failed = true
is_allowed generating stopped = true
is_allowed generating deleting = true
is_allowed generating _ = false
is_allowed final_review generating = true
is_allowed final_review completed = true
is_allowed final_review deleting = true
is_allowed final_review _ = false
is_allowed completed generating = true
is_allowed completed deleting = true
is_allowed completed _ = false
is_allowed failed clarifying = true
is_allowed failed outline_review = true
is_allowed failed generating = true
is_allowed failed deleting = true
is_allowed failed _ = false
is_allowed stopped clarifying = true
is_allowed stopped outline_review = true
is_allowed stopped generating = true
is_allowed stopped deleting = true
is_allowed stopped _ = false
is_allowed deleting _ = false

unfoldable pub transition : TaskStatus → TaskStatus → ℕ → ℕ → Result WorkflowError TaskStatus
transition current target current_version expected_version =
    if current_version == expected_version
    then (if is_allowed current target then ok target else err invalid_transition)
    else err version_conflict

-- The transitions that a task has made, the last first, each under the version it then had.
pub data Trace : TaskStatus → List TaskStatus → Type 0 where
  created : Trace draft (draft ∷ [])
  moved :
      (current target : TaskStatus) (version : ℕ) (past : List TaskStatus)
      → Trace current past
      → transition current target version version ≡ ok target
      → Trace target (target ∷ past)

abbrev pub is_clarifying : TaskStatus → Bool
is_clarifying clarifying = true
is_clarifying _ = false

-- What has happened to a task of this status.
abbrev Past : TaskStatus → List TaskStatus → Type 0
Past draft past = Unit
Past deleting past = Unit
Past generating past = (any is_clarifying past ≡ true) × (any is_generating past ≡ true)
Past final_review past =
    (any is_clarifying past ≡ true)
    × (any is_generating past ≡ true)
    × (any is_final_review past ≡ true)
Past completed past =
    (any is_clarifying past ≡ true)
    × (any is_generating past ≡ true)
    × (any is_final_review past ≡ true)
Past _ past = any is_clarifying past ≡ true

transition-is_allowed :
    (current target : TaskStatus) (version : ℕ)
    → transition current target version version ≡ ok target
    → is_allowed current target ≡ true
unfolding transition
transition-is_allowed current target version h = ground arith

allowed-Past :
    (current target : TaskStatus) (past : List TaskStatus)
    → is_allowed current target ≡ true
    → Past current past
    → Past target (target ∷ past)
allowed-Past draft clarifying past h p = refl
allowed-Past draft deleting past h p = tt
allowed-Past clarifying outline_review past h p = p
allowed-Past clarifying failed past h p = p
allowed-Past clarifying stopped past h p = p
allowed-Past clarifying deleting past h p = tt
allowed-Past outline_review clarifying past h p = refl
allowed-Past outline_review generating past h p = (p, refl)
allowed-Past outline_review deleting past h p = tt
allowed-Past generating outline_review past h p = p.0
allowed-Past generating final_review past h p = (p.0, p.1, refl)
allowed-Past generating failed past h p = p.0
allowed-Past generating stopped past h p = p.0
allowed-Past generating deleting past h p = tt
allowed-Past final_review generating past h p = (p.0, refl)
allowed-Past final_review completed past h p = p
allowed-Past final_review deleting past h p = tt
allowed-Past completed generating past h p = (p.0, refl)
allowed-Past completed deleting past h p = tt
allowed-Past failed clarifying past h p = refl
allowed-Past failed outline_review past h p = p
allowed-Past failed generating past h p = (p, refl)
allowed-Past failed deleting past h p = tt
allowed-Past stopped clarifying past h p = refl
allowed-Past stopped outline_review past h p = p
allowed-Past stopped generating past h p = (p, refl)
allowed-Past stopped deleting past h p = tt
allowed-Past current target past h p = cc

Trace-Past : (status : TaskStatus) (past : List TaskStatus) → Trace status past → Past status past
Trace-Past status past created = tt
Trace-Past status past (moved current target version before t h) =
    allowed-Past current target before (transition-is_allowed current target version h)
      (Trace-Past current before t)

-- A task that the policy brings from DRAFT to COMPLETED has been CLARIFYING, GENERATING and in
-- FINAL_REVIEW.
pub completed_lem :
    (past : List TaskStatus)
    → Trace completed past
    → (any is_clarifying past ≡ true)
      × (any is_generating past ≡ true)
      × (any is_final_review past ≡ true)
completed_lem past t = Trace-Past completed past t
