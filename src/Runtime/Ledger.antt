-- ===== src/Runtime/Ledger.antt =====
-- RunExecutionLedger of agent-python/agent/runtime/ledger.py. What the ledger sends to its sink and
-- the calls that it makes are kept in one list, the newest first.
use prd_agent.Base.{
  text_key, String, Bool, true, false, ◌&&◌, ◌||◌, not, Option, none, some, List, [], ◌∷◌, map,
  Result, ok, err, ◌==◌, ltb, text_le, is_empty, if◌then◌else◌,
}
use prd_agent.Base.Dict.{Dict, get, put}
use prd_agent.Base.Json.{Json}
use prd_agent.Base.Sort.{sorted}
use prd_agent.Base.Texts.{is_blank, text_length}
use prd_agent.Runtime.Budget.{
  BudgetVector, BudgetState, no_budget, is_no_budget, add, reserve, finish, consume, remaining,
  LedgerError, value_error, outcome_unknown, terminal_failure, raised,
}
use prd_agent.Runtime.Entries.{
  Library, LedgerStatus, RunLedgerEntry, RunArtifact, EvidenceItem, LedgerCallSpec, LedgerOutcome,
  decode_outcome, build_artifact, outcome_artifact_key, evidence_ref, artifact_index, ledger_index,
  validate_spec, is_identity, entry_of, validated,
}

pub data Effect : Type 0 where
  ledger : String → RunLedgerEntry → Effect
  artifact : RunArtifact → Effect
  evidence : List EvidenceItem → Effect
  called : String → Effect

pub record RunExecutionLedger : Type 0 where
  pub run_id : String
  pub entries : Dict String RunLedgerEntry
  pub artifacts : Dict String RunArtifact
  pub budget : BudgetState
  pub effects : List Effect

-- One call: what it would return or raise, and the functions of its result.
pub record Call : Type 0 where
  pub spec : LedgerCallSpec
  pub invoke : Result String Json
  pub validate : Json → Result String Json
  pub consumption_of : Option (Json → Result String BudgetVector)
  pub evidence_of : Option (Json → Result String (List EvidenceItem))

abbrev pub is_open : LedgerStatus → Bool
is_open LedgerStatus.reserved = true
is_open LedgerStatus.call_started = true
is_open _ = false

unfoldable pub reserved_of : List RunLedgerEntry → BudgetVector → BudgetVector
unfolding add
reserved_of [] v = v
reserved_of (item ∷ items) v =
    reserved_of items (if is_open item.status then add v item.reservation else v)

-- RunExecutionLedger(context), of a context of version run-ledger.v1 with a budget and a sink.
unfoldable pub new_ledger :
    String
    → BudgetVector
    → BudgetVector
    → List RunLedgerEntry
    → List RunArtifact
    → Result LedgerError RunExecutionLedger
unfolding ledger_index artifact_index reserved_of
new_ledger run_id limits consumed entries artifacts = elim (ledger_index entries []) [
  | err e ↦ err e
  | ok by_key ↦ elim (artifact_index artifacts []) [
    | err e ↦ err e
    | ok by_artifact ↦ ok (record {
      run_id = run_id;
      entries = by_key;
      artifacts = by_artifact;
      budget = record {
        limits = limits;
        consumed = consumed;
        reserved = reserved_of entries no_budget;
      };
      effects = [];
    })
  ]
]

-- self._sink.ledger(event_type, entry); self._entries[operation_key] = entry
abbrev pub save_entry :
    String → LedgerCallSpec → RunLedgerEntry → RunExecutionLedger → RunExecutionLedger
save_entry event_type spec entry s = record s {
  entries = put spec.operation_key entry s.entries;
  effects = ledger event_type entry ∷ s.effects;
}

abbrev pub save_artifact : RunArtifact → RunExecutionLedger → RunExecutionLedger
save_artifact a s = record s {
  artifacts = put a.artifact_key a s.artifacts;
  effects = artifact a ∷ s.effects;
}

abbrev pub save_evidence : List EvidenceItem → RunExecutionLedger → RunExecutionLedger
save_evidence items s = record s {
  effects = if is_empty items then s.effects else evidence items ∷ s.effects;
}

abbrev pub finish_budget : BudgetVector → BudgetVector → RunExecutionLedger → RunExecutionLedger
finish_budget reservation consumption s = record s {
  budget = finish reservation consumption s.budget;
}

abbrev pub evidence_for : Call → Json → Result LedgerError (List EvidenceItem)
evidence_for call value = elim call.evidence_of [
  | none ↦ ok []
  | some f ↦ elim (f value) [ err e ↦ err (raised e) | ok items ↦ ok items ]
]

abbrev pub consumption_for : Call → Json → Result LedgerError BudgetVector
consumption_for call value = elim call.consumption_of [
  | none ↦ ok call.spec.reservation
  | some f ↦ elim (f value) [ err e ↦ err (raised e) | ok actual ↦ ok actual ]
]

-- The entry of a call that succeeded.
abbrev pub finished_entry :
    Library → LedgerCallSpec → RunArtifact → List EvidenceItem → BudgetVector → RunLedgerEntry
finished_entry l spec a items actual = record (entry_of spec LedgerStatus.succeeded) {
  consumption = some actual;
  output_artifact_key = a.artifact_key;
  output_artifact_hash = a.content_hash;
  evidence_refs = map (evidence_ref l) items;
}

abbrev pub failed_entry : LedgerCallSpec → RunLedgerEntry
failed_entry spec = record (entry_of spec LedgerStatus.failed) {
  consumption = some spec.reservation;
  error_category = "REMOTE_CALL_FAILED";
}

abbrev pub Returned : Type 0
Returned = Result LedgerError LedgerOutcome × RunExecutionLedger

-- The entry is finished, and the value returned.
unfoldable pub settle :
    Library
    → LedgerCallSpec
    → Json
    → RunArtifact
    → List EvidenceItem
    → BudgetVector
    → Bool
    → RunExecutionLedger
    → Returned
settle l spec value a items actual replayed s = (
  ok (record { value = value; artifact = a; replayed = replayed; consumption = actual }),
  finish_budget spec.reservation actual
      (save_entry "LEDGER_FINISHED" spec (finished_entry l spec a items actual) s),
)

-- The artifact of a call's value.
unfoldable pub outcome_of : Library → String → Call → Json → RunExecutionLedger → RunArtifact
unfolding build_artifact outcome_artifact_key
outcome_of l artifact_type call value s =
    build_artifact l (outcome_artifact_key l s.run_id call.spec.operation_key) artifact_type
      call.spec.request_hash call.spec.outcome_schema value

-- The call has returned a value that is valid.
unfoldable pub succeed : Library → String → Call → Json → RunExecutionLedger → Returned
unfolding settle outcome_of
succeed l artifact_type call value s =
    let spec = call.spec in
    let a = outcome_of l artifact_type call value s in
    let t = save_artifact a s in
    elim (evidence_for call value) [
      | err e ↦ (err e, t)
      | ok items ↦
          let u = save_evidence items t in
          elim (consumption_for call value) [
            | err e ↦ (err e, u)
            | ok actual ↦ settle l spec value a items actual false u
          ]
    ]

unfoldable pub fail : Call → LedgerError → RunExecutionLedger → Returned
fail call e s = (
  err e,
  finish_budget call.spec.reservation call.spec.reservation
      (save_entry "LEDGER_FINISHED" call.spec (failed_entry call.spec) s),
)

abbrev pub invoked : Call → Result LedgerError Json
invoked call = elim call.invoke [
  | err e ↦ err (raised e)
  | ok value ↦ validated call.validate value
]

-- The call is made.
unfoldable pub start : Library → String → Call → RunExecutionLedger → Returned
unfolding fail succeed
start l artifact_type call s =
    let t =
      save_entry "LEDGER_CALL_STARTED" call.spec (entry_of call.spec LedgerStatus.call_started) s in
    let u = record t { effects = called call.spec.operation_key ∷ t.effects } in
    elim (invoked call) [ err e ↦ fail call e u | ok value ↦ succeed l artifact_type call value u ]

abbrev pub artifact_key_of : Library → RunLedgerEntry → LedgerCallSpec → RunExecutionLedger → String
artifact_key_of l entry spec s =
    if is_blank entry.output_artifact_key
    then outcome_artifact_key l s.run_id spec.operation_key
    else entry.output_artifact_key

unfoldable pub artifact_for :
    Library → RunLedgerEntry → LedgerCallSpec → RunExecutionLedger → Result LedgerError RunArtifact
unfolding outcome_artifact_key
artifact_for l entry spec s = elim (get (artifact_key_of l entry spec s) s.artifacts) [
  | none ↦ err (outcome_unknown spec.operation_key)
  | some a ↦
      if not (a.request_hash == spec.request_hash)
      then err (outcome_unknown spec.operation_key)
      else if not (is_blank entry.output_artifact_hash)
          && not (a.content_hash == entry.output_artifact_hash)
      then err value_error
      else ok a
]

-- The artifact of the entry, and the value that it holds.
unfoldable pub stored :
    Library → RunLedgerEntry → Call → RunExecutionLedger → Result LedgerError (RunArtifact × Json)
unfolding artifact_for decode_outcome
stored l entry call s = elim (artifact_for l entry call.spec s) [
  | err e ↦ err e
  | ok a ↦ elim (decode_outcome l a.content call.spec.outcome_schema call.validate) [
    | err e ↦ err e
    | ok value ↦ ok (a, value)
  ]
]

-- BudgetVector.from_proto
abbrev pub from_proto : Option BudgetVector → BudgetVector
from_proto none = no_budget
from_proto (some v) = v

abbrev pub durable_consumption : RunLedgerEntry → LedgerCallSpec → BudgetVector
durable_consumption entry spec = elim entry.consumption [
  | none ↦ spec.reservation
  | some actual ↦ if is_no_budget actual then spec.reservation else actual
]

unfoldable pub finish_durable_ahead :
    Library → RunLedgerEntry → Call → RunExecutionLedger → Returned
unfolding stored settle
finish_durable_ahead l entry call s = elim (stored l entry call s) [
  | err e ↦ (err e, s)
  | ok (a, value) ↦ elim (evidence_for call value) [
    | err e ↦ (err e, s)
    | ok items ↦
        settle l call.spec value a items (durable_consumption entry call.spec) true
          (save_evidence items s)
  ]
]

unfoldable pub replay : Library → RunLedgerEntry → Call → RunExecutionLedger → Returned
unfolding stored
replay l entry call s = elim (stored l entry call s) [
  | err e ↦ (err e, s)
  | ok (a, value) ↦ (
    ok (record {
      value = value;
      artifact = a;
      replayed = true;
      consumption = from_proto entry.consumption;
    }),
    s,
  )
]

-- The entry was started: its result is used if it is durable, and is unknown otherwise.
unfoldable pub resume : Library → RunLedgerEntry → Call → RunExecutionLedger → Returned
unfolding finish_durable_ahead
resume l entry call s = elim (get (artifact_key_of l entry call.spec s) s.artifacts) [
  | none ↦ (err (outcome_unknown call.spec.operation_key), s)
  | some a ↦ finish_durable_ahead l entry call s
]

-- The key has an entry.
unfoldable pub again :
    Library → String → RunLedgerEntry → LedgerStatus → Call → RunExecutionLedger → Returned
unfolding replay resume start
again l artifact_type entry LedgerStatus.succeeded call s = replay l entry call s
again l artifact_type entry LedgerStatus.failed call s =
    (err (terminal_failure entry.error_category entry.retryable), s)
again l artifact_type entry LedgerStatus.outcome_unknown_status call s =
    (err (outcome_unknown call.spec.operation_key), s)
again l artifact_type entry LedgerStatus.call_started call s = resume l entry call s
again l artifact_type entry status call s = start l artifact_type call s

-- The key is new.
unfoldable pub begin : Library → String → Call → RunExecutionLedger → Returned
unfolding start
begin l artifact_type call s = elim (reserve call.spec.reservation s.budget) [
  | err e ↦ (err e, s)
  | ok budget ↦ start l artifact_type call (
      save_entry "LEDGER_RESERVED" call.spec (entry_of call.spec LedgerStatus.reserved)
        (record s { budget = budget }))
]

unfoldable pub execute : Library → String → String → Call → RunExecutionLedger → Returned
unfolding begin again is_identity validate_spec
execute l expected_kind artifact_type call s = elim (validate_spec l call.spec expected_kind) [
  | err e ↦ (err e, s)
  | ok done ↦ elim (get call.spec.operation_key s.entries) [
    | none ↦ begin l artifact_type call s
    | some entry ↦
        if is_identity entry call.spec
        then again l artifact_type entry entry.status call s
        else (err value_error, s)
  ]
]

unfoldable pub execute_model : Library → Call → RunExecutionLedger → Returned
unfolding execute
execute_model l call s =
    execute l "MODEL" "MODEL_VALIDATED_OUTPUT" (record call { evidence_of = none }) s

unfoldable pub execute_capability : Library → Call → RunExecutionLedger → Returned
unfolding execute
execute_capability l call s = execute l "CAPABILITY" "CAPABILITY_VALIDATED_OUTPUT" call s

unfoldable pub execute_derivation : Library → String → Call → RunExecutionLedger → Returned
unfolding execute
execute_derivation l artifact_type call s =
    if is_blank artifact_type || ltb 80 (text_length artifact_type)
    then (err value_error, s)
    else execute l "LOCAL_DERIVATION" artifact_type (record call { evidence_of = none }) s

abbrev pub is_succeeded : LedgerStatus → Bool
is_succeeded LedgerStatus.succeeded = true
is_succeeded _ = false

-- The entry of a transition has no reservation.
abbrev pub transition_entry : LedgerCallSpec → RunLedgerEntry
transition_entry spec = record (entry_of spec LedgerStatus.succeeded) {
  reservation = no_budget;
  consumption = some spec.reservation;
}

unfoldable pub consume_transition :
    Library → LedgerCallSpec → RunExecutionLedger → Result LedgerError Unit × RunExecutionLedger
unfolding is_identity validate_spec
consume_transition l spec s = elim (validate_spec l spec "LOCAL_TRANSITION") [
  | err e ↦ (err e, s)
  | ok done ↦ elim (get spec.operation_key s.entries) [
    | some entry ↦
        if not (is_identity entry spec)
        then (err value_error, s)
        else if is_succeeded entry.status
        then (ok tt, s)
        else (err (outcome_unknown spec.operation_key), s)
    | none ↦ elim (consume spec.reservation s.budget) [
      | err e ↦ (err e, s)
      | ok budget ↦ (
        ok tt,
        save_entry "LEDGER_FINISHED" spec (transition_entry spec) (record s { budget = budget }),
      )
    ]
  ]
]

-- The entries in the order of their keys.
unfoldable pub entries : RunExecutionLedger → List RunLedgerEntry
entries s = map (λ p. p.1) (sorted (λ p q. text_le p.0 q.0) s.entries)

unfoldable pub remaining_budget : RunExecutionLedger → BudgetVector
unfolding remaining
remaining_budget s = remaining s.budget
