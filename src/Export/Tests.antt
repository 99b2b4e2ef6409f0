-- ===== src/Export/Tests.antt =====
-- The theorems on the export store at concrete inputs.
use prd_agent.Base.{
  text_key, pair_key, ◌≡◌, refl, String, false, none, some, List, [], ◌∷◌, arith, ok, err,
}
use text.Mathlib.TextEquality.{eq_iff}
use prd_agent.Base.Dict.{get, put, remove}
use prd_agent.Export.Model.{
  ExportIntent, ExportRun, ExternalDocumentBinding, ExportStore, init, create, running,
  idempotency_conflict,
}
use prd_agent.Export.Store as Store
use prd_agent.Export.Step.{Op, step, history}
use prd_agent.Export.Claims.{consume_claimed_intent_once}
use prd_agent.Export.Exclusive.{claim_intent_exclusive}
use prd_agent.Export.Replays.{begin_run_once}
use prd_agent.Export.Bindings.{get_binding_stays}

abbrev intent_of : String → ExportIntent
intent_of id = record {
  intent_id = id;
  task_id = "t1";
  owner_id = "ann";
  mode = create;
  task_version = 1;
  document_id = "d1";
  document_version = 1;
  content_hash = "sha256:00";
  title = "Plan";
  unresolved_items = [];
  bound_title = none;
  bound_safe_url = none;
  expires_at = 900;
  consumed_at = none;
}

abbrev run_of : String → ExportRun
run_of id = record {
  export_run_id = id;
  intent_id = "i1";
  task_id = "t1";
  owner_id = "ann";
  mode = create;
  task_version = 1;
  document_version = 1;
  content_hash = "sha256:00";
  status = running;
  idempotency_key_hash = "k";
  attempt_count = 1;
  binding_id = none;
  safe_url = none;
  display_title = none;
  error_code = none;
  retryable = false;
  created_at = 10;
  completed_at = none;
}

abbrev binding_of : String → ExternalDocumentBinding
binding_of id = record {
  binding_id = id;
  task_id = "t1";
  owner_id = "ann";
  provider = "FEISHU";
  external_id = "x";
  safe_url = "https://x";
  display_title = "Plan";
  last_export_hash = "sha256:00";
  last_document_version = 1;
  provider_revision = none;
}

-- To unfold this is to unfold the methods.
operations : String
unfolding init history step get put remove Store.save_intent Store.get_intent
    Store.save_preview_replay Store.begin_preview Store.save_binding Store.get_binding
    Store.save_run Store.begin_run Store.get_replay Store.save_replay Store.consume_intent
    Store.claim_intent Store.release_intent_claim Store.consume_claimed_intent
operations = ""

-- An intent is saved and claimed, its run started and its document bound.
abbrev prepared : List Op
prepared =
    Op.save_intent (intent_of "i1")
    ∷ Op.save_binding (binding_of "b1")
    ∷ Op.claim_intent "i1" "ann" "c1" 20 50
    ∷ []

abbrev claimed : ExportStore
claimed = history prepared init

abbrev consumed : ExportStore
consumed = (Store.consume_claimed_intent "i1" "ann" "c1" 30 claimed).1

abbrev unclaimed : ExportStore
unclaimed = history (Op.save_intent (intent_of "i1") ∷ Op.save_binding (binding_of "b1") ∷ []) init

-- The acts of another worker, and of others on another intent.
abbrev others : List Op
others =
    Op.claim_intent "i1" "ann" "c2" 30 60
    ∷ Op.release_intent_claim "i1" "ann" "c2"
    ∷ Op.consume_claimed_intent "i1" "ann" "c2" 40
    ∷ Op.save_intent (intent_of "i2")
    ∷ []

consume_claimed_intent_once_example :
    let u = history others consumed in
    (Store.claim_intent "i1" "ann" "c3" 70 90 u ≡ (false, u))
    × (Store.consume_claimed_intent "i1" "ann" "c3" 70 u ≡ (false, u))
unfolding operations
consume_claimed_intent_once_example =
    consume_claimed_intent_once "i1" "ann" "c1" 30 claimed consumed others "ann" "c3" 70 90 refl
      (tt, (tt, (tt, ((λ e. ground (arith, eq_iff "i2" "i1")), tt))))

claim_intent_exclusive_example :
    let u = history others claimed in
    (Store.claim_intent "i1" "ann" "c3" 45 90 u ≡ (false, u))
    × (Store.consume_claimed_intent "i1" "ann" "c3" 45 u ≡ (false, u))
unfolding operations
claim_intent_exclusive_example =
    claim_intent_exclusive "i1" "ann" "c1" 20 50 unclaimed claimed others "ann" "c3" 45 90 45 refl
      (
        (λ e. ((λ f. ground (arith, eq_iff "c2" "c1")), omega arith)),
        (
          (λ e f. ground (arith, eq_iff "c2" "c1")),
          ((λ e f. ground (arith, eq_iff "c2" "c1")), (tt, tt)),
        ),
      )
      (λ f. ground (arith, eq_iff "c3" "c1")) (omega arith)

abbrev started : ExportStore
started = (Store.begin_run "ann" "k" "h" (run_of "x1") claimed).1

begin_run_once_example :
    let u = history others started in
    ((r : ExportRun) × (Store.get_replay "ann" "k" u ≡ ok (some ("h", r)))
      × (Store.begin_run "ann" "k" "h" (run_of "x2") u ≡ (ok (some r), u)))
    × (Store.begin_run "ann" "k" "g" (run_of "x2") u ≡ (err idempotency_conflict, u))
unfolding operations
begin_run_once_example =
    begin_run_once "ann" "k" "h" (run_of "x1") claimed started others "g" (run_of "x2") refl
      (λ e. ground (arith, eq_iff "g" "h"))

get_binding_stays_example :
    (c : ExternalDocumentBinding) × (Store.get_binding "t1" "ann"
        (history (Op.save_binding (binding_of "b2") ∷ []) claimed)
      ≡ some c)
    × (c.binding_id ≡ "b1")
unfolding operations
get_binding_stays_example =
    get_binding_stays "t1" "ann" (binding_of "b1") (Op.save_binding (binding_of "b2") ∷ []) claimed
      refl
