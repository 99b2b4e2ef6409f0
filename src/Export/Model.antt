-- ===== src/Export/Model.antt =====
-- The data of src/prd_agent/export/models.py that the store keeps, and the state of
-- src/prd_agent/export/store.py. Times are microseconds since a fixed instant.
use prd_agent.Base.{ℕ, String, Bool, Option, List, [], Result}
use prd_agent.Base.Dict.{Dict}

pub data ExportMode : Type 0 where
  create overwrite_bound : ExportMode

pub data ExportRunStatus : Type 0 where
  running succeeded failed result_unknown manual_review : ExportRunStatus

pub record ExportIntent : Type 0 where
  pub intent_id : String
  pub task_id : String
  pub owner_id : String
  pub mode : ExportMode
  pub task_version : ℕ
  pub document_id : String
  pub document_version : ℕ
  pub content_hash : String
  pub title : String
  pub unresolved_items : List String
  pub bound_title : Option String
  pub bound_safe_url : Option String
  pub expires_at : ℕ
  pub consumed_at : Option ℕ

pub record ExternalDocumentBinding : Type 0 where
  pub binding_id : String
  pub task_id : String
  pub owner_id : String
  pub provider : String
  pub external_id : String
  pub safe_url : String
  pub display_title : String
  pub last_export_hash : String
  pub last_document_version : ℕ
  pub provider_revision : Option String

pub record ExportRun : Type 0 where
  pub export_run_id : String
  pub intent_id : String
  pub task_id : String
  pub owner_id : String
  pub mode : ExportMode
  pub task_version : ℕ
  pub document_version : ℕ
  pub content_hash : String
  pub status : ExportRunStatus
  pub idempotency_key_hash : String
  pub attempt_count : ℕ
  pub binding_id : Option String
  pub safe_url : Option String
  pub display_title : Option String
  pub error_code : Option String
  pub retryable : Bool
  pub created_at : ℕ
  pub completed_at : Option ℕ

-- The claim of an intent: whose it is, its id, when it ends.
pub record Claim : Type 0 where
  pub owner_id : String
  pub claim_id : String
  pub expires_at : ℕ

-- InMemoryExportStore. A replay is the hash of its input with the id of what the input made.
pub record ExportStore : Type 0 where
  pub intents : Dict String ExportIntent
  pub bindings : Dict (String × String) ExternalDocumentBinding
  pub runs : Dict String ExportRun
  pub replays : Dict (String × String) (String × String)
  pub preview_replays : Dict (String × String) (String × String)
  pub intent_claims : Dict String Claim

-- What the store raises: two codes of IntegrationError, and KeyError.
pub data ExportError : Type 0 where
  resource_not_found idempotency_conflict key_error : ExportError

abbrev pub Returns : Type 0 → Type 0
Returns A = Result ExportError A × ExportStore

unfoldable pub init : ExportStore
init = record {
  intents = [];
  bindings = [];
  runs = [];
  replays = [];
  preview_replays = [];
  intent_claims = [];
}
