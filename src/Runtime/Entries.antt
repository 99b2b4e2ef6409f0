-- ===== src/Runtime/Entries.antt =====
-- What the execution ledger of a run keeps: agent-python/agent/runtime/ledger.py, reconcile.py and
-- outcomes.py. The messages of the protocol are records with the fields that the ledger reads.
use prd_agent.Base.{
  text_key, nat_key, ℕ, String, Bool, false, ◌&&◌, not, Option, none, some, List, [], ◌∷◌, Result,
  ok, err, ◌==◌, leb, if◌then◌else◌,
}
use prd_agent.Base.Dict.{Dict, get, put}
use prd_agent.Base.Json.{Json, string, object, field, end, get_field}
use prd_agent.Base.Texts.{is_blank, text_take, text_length, join}
use text.Mathlib.Text.{starts_with}
use Prim.Native.String.{◌++◌ as text_append}
use prd_agent.Runtime.Budget.{BudgetVector, no_budget, LedgerError, value_error, raised}

-- What the ledger calls: `json.loads` of a content, canonical_json, hashlib's digests, and the
-- match of an operation key with its pattern.
pub record Library : Type 0 where
  pub loads : String → Option Json
  pub canonical_json : Json → String
  pub sha256 : String → String
  pub is_operation_key : String → Bool

-- The status of an entry, a text in the protocol.
pub data LedgerStatus : Type 0 where
  reserved call_started succeeded failed outcome_unknown_status other_status : LedgerStatus

pub record RunLedgerEntry : Type 0 where
  pub operation_key : String
  pub entry_kind : String
  pub operation : String
  pub request_hash : String
  pub status : LedgerStatus
  pub reservation : BudgetVector
  pub consumption : Option BudgetVector
  pub output_artifact_key : String
  pub output_artifact_hash : String
  pub evidence_refs : List String
  pub error_category : String
  pub retryable : Bool

pub record RunArtifact : Type 0 where
  pub artifact_key : String
  pub artifact_type : String
  pub generation : ℕ
  pub request_hash : String
  pub content_hash : String
  pub content : String

pub record EvidenceItem : Type 0 where
  pub source_type : String
  pub source_id : String
  pub locator : String
  pub excerpt_hash : String

pub record LedgerCallSpec : Type 0 where
  pub entry_kind : String
  pub operation : String
  pub operation_key : String
  pub request_hash : String
  pub reservation : BudgetVector
  pub outcome_schema : String

pub record LedgerOutcome : Type 0 where
  pub value : Json
  pub artifact : RunArtifact
  pub replayed : Bool
  pub consumption : BudgetVector

-- {"schema": schema, "value": value}
abbrev pub envelope : String → Json → Json
envelope schema value = object (field "schema" (string schema) (field "value" value end))

unfoldable pub encode_outcome : Library → String → Json → String
encode_outcome l schema value = l.canonical_json (envelope schema value)

abbrev pub is_schema : Option Json → String → Bool
is_schema (some (string s)) schema = s == schema
is_schema _ schema = false

-- The value in an envelope of this schema; a JSON value that is no object has no `get`.
unfoldable pub open_envelope : String → Json → Result LedgerError Json
open_envelope schema (object fields) =
    if is_schema (get_field "schema" fields) schema
    then (elim (get_field "value" fields) [ none ↦ err value_error | some value ↦ ok value ])
    else err value_error
open_envelope schema _ = err (raised "AttributeError")

abbrev pub validated : (Json → Result String Json) → Json → Result LedgerError Json
validated validate value = elim (validate value) [ err e ↦ err (raised e) | ok v ↦ ok v ]

unfoldable pub decode_outcome :
    Library → String → String → (Json → Result String Json) → Result LedgerError Json
unfolding open_envelope
decode_outcome l content schema validate = elim (l.loads content) [
  | none ↦ err value_error
  | some opened ↦ elim (open_envelope schema opened) [
    | err e ↦ err e
    | ok value ↦
        if l.canonical_json opened == content then validated validate value else err value_error
  ]
]

unfoldable pub build_artifact : Library → String → String → String → String → Json → RunArtifact
unfolding encode_outcome
build_artifact l key artifact_type request_hash schema value = record {
  artifact_key = key;
  artifact_type = artifact_type;
  generation = 1;
  request_hash = request_hash;
  content_hash = l.sha256 (encode_outcome l schema value);
  content = encode_outcome l schema value;
}

unfoldable pub outcome_artifact_key : Library → String → String → String
outcome_artifact_key l run_id operation_key =
    text_append run_id
      (text_append ":ledger:" (text_append (text_take 32 (l.sha256 operation_key)) ":outcome"))

-- _evidence_ref; a NUL character separates the parts.
unfoldable pub evidence_ref : Library → EvidenceItem → String
evidence_ref l item = text_append "sha256:" (
    l.sha256
      (join "\0" (item.source_type ∷ item.source_id ∷ item.locator ∷ item.excerpt_hash ∷ [])))

-- index.setdefault(key, item)
abbrev pub set_default : {V : Type 0} → String → V → Dict String V → V × Dict String V
set_default key item index = elim (get key index) [
  | none ↦ (item, put key item index)
  | some previous ↦ (previous, index)
]

abbrev pub is_same_artifact : RunArtifact → RunArtifact → Bool
is_same_artifact a b = a.content_hash == b.content_hash && a.request_hash == b.request_hash

unfoldable pub artifact_index :
    List RunArtifact → Dict String RunArtifact → Result LedgerError (Dict String RunArtifact)
artifact_index [] index = ok index
artifact_index (item ∷ items) index =
    let (previous, next) = set_default item.artifact_key item index in
    let rest = artifact_index items next in
    if is_same_artifact previous item then rest else err value_error

abbrev pub is_same_entry : RunLedgerEntry → RunLedgerEntry → Bool
is_same_entry a b =
    a.request_hash == b.request_hash && a.entry_kind == b.entry_kind && a.operation == b.operation

unfoldable pub ledger_index :
    List RunLedgerEntry
    → Dict String RunLedgerEntry
    → Result LedgerError (Dict String RunLedgerEntry)
ledger_index [] index = ok index
ledger_index (item ∷ items) index =
    let (previous, next) = set_default item.operation_key item index in
    let rest = ledger_index items next in
    if is_same_entry previous item then rest else err value_error

unfoldable pub validate_spec : Library → LedgerCallSpec → String → Result LedgerError Unit
validate_spec l spec expected_kind =
    if (leb (text_length spec.operation_key) 240 && l.is_operation_key spec.operation_key)
      && (spec.entry_kind == expected_kind
          && (not (is_blank spec.operation) && starts_with spec.request_hash "sha256:"))
    then ok tt
    else err value_error

unfoldable pub is_identity : RunLedgerEntry → LedgerCallSpec → Bool
is_identity entry spec =
    entry.request_hash == spec.request_hash
    && (entry.entry_kind == spec.entry_kind && entry.operation == spec.operation)

-- _entry, with its defaults
abbrev pub entry_of : LedgerCallSpec → LedgerStatus → RunLedgerEntry
entry_of spec status = record {
  operation_key = spec.operation_key;
  entry_kind = spec.entry_kind;
  operation = spec.operation;
  request_hash = spec.request_hash;
  status = status;
  reservation = spec.reservation;
  consumption = some no_budget;
  output_artifact_key = "";
  output_artifact_hash = "";
  evidence_refs = [];
  error_category = "";
  retryable = false;
}
