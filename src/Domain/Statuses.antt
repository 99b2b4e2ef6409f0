-- ===== src/Domain/Statuses.antt =====
-- The statuses of src/prd_agent/domain/enums.py, with the tests of them that the code makes.
use prd_agent.Base.{Bool, true, false}

pub data TaskStatus : Type 0 where
  draft clarifying outline_review generating final_review : TaskStatus
  completed failed stopped deleting : TaskStatus

pub data RunStatus : Type 0 where
  queued running waiting_user succeeded failed stopped : RunStatus

pub data OutlineStatus : Type 0 where
  draft pending_confirmation confirmed superseded : OutlineStatus

pub data UnitStatus : Type 0 where
  pending preparing investigating generating pending_confirmation confirmed : UnitStatus
  revision_required human_input_required superseded failed : UnitStatus

pub data SectionStatus : Type 0 where
  draft pending_confirmation confirmed invalidated superseded : SectionStatus

pub data DocumentStatus : Type 0 where
  checking final_review confirmed superseded : DocumentStatus

pub data Complexity : Type 0 where
  low medium high : Complexity

-- status in ACTIVE_RUN_STATUSES
abbrev pub is_active : RunStatus → Bool
is_active RunStatus.queued = true
is_active RunStatus.running = true
is_active RunStatus.waiting_user = true
is_active _ = false

-- status in {FAILED, STOPPED}
abbrev pub is_retryable : RunStatus → Bool
is_retryable RunStatus.failed = true
is_retryable RunStatus.stopped = true
is_retryable _ = false

-- status == FAILED
abbrev pub is_failed : RunStatus → Bool
is_failed RunStatus.failed = true
is_failed _ = false

-- status == PENDING_CONFIRMATION
abbrev pub is_pending_outline : OutlineStatus → Bool
is_pending_outline OutlineStatus.pending_confirmation = true
is_pending_outline _ = false

-- status == CONFIRMED
abbrev pub is_confirmed_outline : OutlineStatus → Bool
is_confirmed_outline OutlineStatus.confirmed = true
is_confirmed_outline _ = false

-- status == SUPERSEDED
abbrev pub is_superseded : OutlineStatus → Bool
is_superseded OutlineStatus.superseded = true
is_superseded _ = false

-- status == PENDING_CONFIRMATION
abbrev pub is_pending_unit : UnitStatus → Bool
is_pending_unit UnitStatus.pending_confirmation = true
is_pending_unit _ = false

-- status == CONFIRMED
abbrev pub is_confirmed : UnitStatus → Bool
is_confirmed UnitStatus.confirmed = true
is_confirmed _ = false

-- status in {PENDING, REVISION_REQUIRED}
abbrev pub is_open : UnitStatus → Bool
is_open UnitStatus.pending = true
is_open UnitStatus.revision_required = true
is_open _ = false

-- status in {CLARIFYING, OUTLINE_REVIEW}
abbrev pub accepts_reply : TaskStatus → Bool
accepts_reply TaskStatus.clarifying = true
accepts_reply TaskStatus.outline_review = true
accepts_reply _ = false

-- status == OUTLINE_REVIEW
abbrev pub is_outline_review : TaskStatus → Bool
is_outline_review TaskStatus.outline_review = true
is_outline_review _ = false

-- status == GENERATING
abbrev pub is_generating : TaskStatus → Bool
is_generating TaskStatus.generating = true
is_generating _ = false

-- status == FINAL_REVIEW
abbrev pub is_final_review : TaskStatus → Bool
is_final_review TaskStatus.final_review = true
is_final_review _ = false

-- status == COMPLETED
abbrev pub is_completed : TaskStatus → Bool
is_completed TaskStatus.completed = true
is_completed _ = false
