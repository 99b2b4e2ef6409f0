-- ===== src/Export/Store.antt =====
-- The methods of InMemoryExportStore in src/prd_agent/export/store.py. A copy of a frozen model
-- is the model.
use prd_agent.Base.{
  nat_key, text_key, pair_key, ℕ, String, Bool, true, false, ◌&&◌, not, Option, none, some, List,
  filter, ◌==◌, ltb, leb, is_some, if◌then◌else◌, Result, ok, err, or_raise, ◌>>=◌,
}
use prd_agent.Base.Dict.{get, put, remove, values}
use prd_agent.Base.Sort.{sorted}
use prd_agent.Export.Model.{
  ExportIntent, ExternalDocumentBinding, ExportRun, Claim, ExportStore, ExportError, Returns,
  resource_not_found, idempotency_conflict, key_error,
}

unfoldable pub save_intent : ExportIntent → ExportStore → ExportStore
save_intent intent s = record s { intents = put intent.intent_id intent s.intents }

unfoldable pub get_intent : String → String → ExportStore → Result ExportError ExportIntent
get_intent intent_id owner_id s = elim (get intent_id s.intents) [
  | none ↦ err resource_not_found
  | some value ↦ if value.owner_id == owner_id then ok value else err resource_not_found
]

unfoldable pub get_preview_replay :
    String → String → ExportStore → Result ExportError (Option (String × ExportIntent))
get_preview_replay owner_id idempotency_key s =
    elim (get (owner_id, idempotency_key) s.preview_replays) [
      | none ↦ ok none
      | some value ↦ get_intent value.1 owner_id s >>= λ intent. ok (some (value.0, intent))
    ]

unfoldable pub save_preview_replay :
    String → String → String → ExportIntent → ExportStore → Returns Unit
save_preview_replay owner_id idempotency_key input_hash intent s =
    let key : String × String = (owner_id, idempotency_key) in
    let saved : ExportStore = record s {
      preview_replays = put key (input_hash, intent.intent_id) s.preview_replays;
    } in
    elim (get key s.preview_replays) [
      | none ↦ (ok tt, saved)
      | some current ↦
          if current.0 == input_hash then (ok tt, saved) else (err idempotency_conflict, s)
    ]

-- The intent of the preview that had the key before; None when this is the first.
unfoldable pub begin_preview :
    String → String → String → ExportIntent → ExportStore → Returns (Option ExportIntent)
begin_preview owner_id idempotency_key input_hash intent s =
    let key : String × String = (owner_id, idempotency_key) in
    elim (get key s.preview_replays) [
      | none ↦ (
        ok none,
        record s {
          intents = put intent.intent_id intent s.intents;
          preview_replays = put key (input_hash, intent.intent_id) s.preview_replays;
        },
      )
      | some current ↦
          if current.0 == input_hash
          then (or_raise (get current.1 s.intents) key_error >>= λ found. ok (some found), s)
          else (err idempotency_conflict, s)
    ]

unfoldable pub save_binding : ExternalDocumentBinding → ExportStore → Returns Unit
save_binding binding s =
    let key : String × String = (binding.owner_id, binding.task_id) in
    let saved : ExportStore = record s { bindings = put key binding s.bindings } in
    elim (get key s.bindings) [
      | none ↦ (ok tt, saved)
      | some current ↦
          if current.binding_id == binding.binding_id
          then (ok tt, saved)
          else (err idempotency_conflict, s)
    ]

unfoldable pub get_binding : String → String → ExportStore → Option ExternalDocumentBinding
get_binding task_id owner_id s = get (owner_id, task_id) s.bindings

unfoldable pub save_run : ExportRun → ExportStore → ExportStore
save_run run s = record s { runs = put run.export_run_id run s.runs }

-- The run that the key started before; None when this call starts it.
unfoldable pub begin_run :
    String → String → String → ExportRun → ExportStore → Returns (Option ExportRun)
begin_run owner_id idempotency_key input_hash run s =
    let key : String × String = (owner_id, idempotency_key) in
    elim (get key s.replays) [
      | none ↦ (
        ok none,
        record s {
          runs = put run.export_run_id run s.runs;
          replays = put key (input_hash, run.export_run_id) s.replays;
        },
      )
      | some current ↦
          if current.0 == input_hash
          then (or_raise (get current.1 s.runs) key_error >>= λ found. ok (some found), s)
          else (err idempotency_conflict, s)
    ]

unfoldable pub get_replay :
    String → String → ExportStore → Result ExportError (Option (String × ExportRun))
get_replay owner_id idempotency_key s = elim (get (owner_id, idempotency_key) s.replays) [
  | none ↦ ok none
  | some value ↦ or_raise (get value.1 s.runs) key_error >>= λ run. ok (some (value.0, run))
]

unfoldable pub save_replay : String → String → String → ExportRun → ExportStore → Returns Unit
save_replay owner_id idempotency_key input_hash run s =
    let key : String × String = (owner_id, idempotency_key) in
    let saved : ExportStore = record s {
      runs = put run.export_run_id run s.runs;
      replays = put key (input_hash, run.export_run_id) s.replays;
    } in
    elim (get key s.replays) [
      | none ↦ (ok tt, saved)
      | some current ↦
          if current.0 == input_hash then (ok tt, saved) else (err idempotency_conflict, s)
    ]

unfoldable pub consume_intent : ExportIntent → ExportStore → ExportStore
consume_intent intent s = record s { intents = put intent.intent_id intent s.intents }

-- There is the intent, it is the owner's, and it is not consumed.
abbrev pub is_open : Option ExportIntent → String → Bool
is_open none owner_id = false
is_open (some intent) owner_id = intent.owner_id == owner_id && not (is_some intent.consumed_at)

-- Another claim of the intent still runs.
abbrev pub is_claimed : Option Claim → String → ℕ → Bool
is_claimed none claim_id now = false
is_claimed (some current) claim_id now =
    not (current.claim_id == claim_id) && ltb now current.expires_at

unfoldable pub claim_intent : String → String → String → ℕ → ℕ → ExportStore → Bool × ExportStore
claim_intent intent_id owner_id claim_id now claim_expires_at s =
    if is_open (get intent_id s.intents) owner_id
    then (if is_claimed (get intent_id s.intent_claims) claim_id now then (false, s) else (
      true,
      record s {
        intent_claims =
            put intent_id
              (record { owner_id = owner_id; claim_id = claim_id; expires_at = claim_expires_at })
              s.intent_claims;
      },
    ))
    else (false, s)

-- current is not None and current[:2] == (owner_id, claim_id)
abbrev pub is_claim_of : Option Claim → String → String → Bool
is_claim_of none owner_id claim_id = false
is_claim_of (some current) owner_id claim_id =
    current.owner_id == owner_id && current.claim_id == claim_id

unfoldable pub release_intent_claim : String → String → String → ExportStore → ExportStore
release_intent_claim intent_id owner_id claim_id s =
    if is_claim_of (get intent_id s.intent_claims) owner_id claim_id
    then record s { intent_claims = remove intent_id s.intent_claims }
    else s

unfoldable pub consume_claimed_intent :
    String → String → String → ℕ → ExportStore → Bool × ExportStore
consume_claimed_intent intent_id owner_id claim_id consumed_at s =
    if is_claim_of (get intent_id s.intent_claims) owner_id claim_id
    then elim (get intent_id s.intents) [
      | none ↦ (false, s)
      | some intent ↦ if is_some intent.consumed_at then (false, s) else (
        true,
        record s {
          intents = put intent_id (record intent { consumed_at = some consumed_at }) s.intents;
          intent_claims = remove intent_id s.intent_claims;
        },
      )
    ]
    else (false, s)

-- Newest first, runs of one instant in the order of the store.
unfoldable pub list_runs : String → String → ExportStore → List ExportRun
list_runs task_id owner_id s =
    sorted (λ a b. leb b.created_at a.created_at)
      (filter (λ run. run.task_id == task_id && run.owner_id == owner_id) (values s.runs))
