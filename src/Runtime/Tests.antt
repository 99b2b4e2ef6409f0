-- ===== src/Runtime/Tests.antt =====
-- The theorems on the execution ledger at concrete inputs.
use prd_agent.Base.{
  text_key, ◌≤◌, ◌≡◌, refl, true, false, none, some, List, [], ◌∷◌, ok, err, arith,
}
use prd_agent.Base.Dict.{get}
use prd_agent.Base.Int.{pos, ◌≤ℤ◌, ◌+ℤ◌}
use prd_agent.Base.Json.{string}
use prd_agent.Base.Texts.{text_length}
use prd_agent.Runtime.Budget.{Dimension, model_attempts, BudgetVector, no_budget, reserve}
use prd_agent.Runtime.Entries.{Library, LedgerCallSpec, LedgerOutcome, envelope}
use prd_agent.Runtime.Ledger.{RunExecutionLedger, Call, new_ledger, execute, outcome_of}
use prd_agent.Runtime.Step as Step
use prd_agent.Runtime.Step.{Op, history}
use prd_agent.Runtime.Credit.{called_once, calls, start_of}
use prd_agent.Runtime.Bounds.{history-IsSettled, IsSettled, IsFrugal}
use prd_agent.Runtime.Replay.{execute-replays}

-- A library that reads back the one value that is written here.
abbrev library : Library
library = record {
  loads = λ content. some (envelope "v1" (string "done"));
  canonical_json = λ value. "content";
  sha256 = λ text. "digest";
  is_operation_key = λ key. true;
}

abbrev limits : BudgetVector
limits name = pos 2

abbrev attempt : BudgetVector
attempt model_attempts = pos 1
attempt _ = pos 0

abbrev spec : LedgerCallSpec
spec = record {
  entry_kind = "MODEL";
  operation = "plan";
  operation_key = "model:plan:1";
  request_hash = "sha256:1";
  reservation = attempt;
  outcome_schema = "v1";
}

abbrev call : Call
call = record {
  spec = spec;
  invoke = ok (string "done");
  validate = λ value. ok value;
  consumption_of = none;
  evidence_of = none;
}

-- The same operation, when the remote side would fail.
abbrev failing : Call
failing = record call { invoke = err "timeout" }

abbrev ledger : RunExecutionLedger
ledger = record {
  run_id = "run";
  entries = [];
  artifacts = [];
  budget = record { limits = limits; consumed = no_budget; reserved = no_budget };
  effects = [];
}

abbrev ops : List Op
ops = Step.execute_model call ∷ Step.execute_model failing ∷ Step.execute_capability call ∷ []

new_ledger-eq : new_ledger "run" limits no_budget [] [] ≡ ok ledger
unfolding new_ledger
new_ledger-eq = refl

called_once_example :
    (calls "model:plan:1" (history library ops ledger) ≤ 1)
    × (calls "model:plan:1" (history library ops ledger)
        ≤ start_of (get "model:plan:1" ledger.entries))
called_once_example =
    called_once library "run" limits no_budget [] [] ops ledger "model:plan:1" new_ledger-eq

attempt_counted : (name : Dimension) → (pos 0 ≤ℤ attempt name) × (attempt name ≤ℤ attempt name)
attempt_counted model_attempts = omega arith
attempt_counted _ = omega arith

ledger-IsSettled : IsSettled ledger
unfolding get
ledger-IsSettled = record {
  closed = λ key entry e. absurd (ground (arith, e));
  within = record { unreserved = λ name. refl; consumed_within = λ name. omega arith };
}

call-IsFrugal :
    (c : Call) → c.spec ≡ spec → c.consumption_of ≡ none → c.evidence_of ≡ none → IsFrugal c
call-IsFrugal c s u v value = ([], attempt, rw v refl, rw (u, s) refl, rw s attempt_counted)

history-IsSettled_example : IsSettled (history library ops ledger)
history-IsSettled_example = history-IsSettled library ops ledger ledger-IsSettled (
  call-IsFrugal call refl refl refl,
  (call-IsFrugal failing refl refl refl, (call-IsFrugal call refl refl refl, tt)),
)

abbrev outcome : LedgerOutcome
outcome = record {
  value = string "done";
  artifact = outcome_of library "MODEL_VALIDATED_OUTPUT" call (string "done") ledger;
  replayed = false;
  consumption = attempt;
}

abbrev after_call : RunExecutionLedger
after_call = (execute library "MODEL" "MODEL_VALIDATED_OUTPUT" call ledger).1

call-returns :
    execute library "MODEL" "MODEL_VALIDATED_OUTPUT" call ledger ≡ (ok outcome, after_call)
unfolding execute outcome_of get reserve ◌+ℤ◌ text_length
call-returns = refl

execute-replays_example : execute library "MODEL" "MODEL_VALIDATED_OUTPUT" failing after_call ≡ (
  ok (record {
    value = string "done";
    artifact = outcome.artifact;
    replayed = true;
    consumption = attempt;
  }),
  after_call,
)
execute-replays_example =
    execute-replays library "MODEL" "MODEL_VALIDATED_OUTPUT" call failing ledger after_call
      after_call outcome (string "done") call-returns refl refl refl refl refl refl
