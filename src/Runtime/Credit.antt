-- ===== src/Runtime/Credit.antt =====
-- How often an operation key is called: RunExecutionLedger, agent-python/agent/runtime/ledger.py.
use prd_agent.Base.{
  text_key, ℕ, ◌+◌, ◌≤◌, ◌≡◌, refl, String, Bool, true, false, Option, none, some, List, [], ◌∷◌,
  ok, inl, inr, ◌==◌, count, arith, if◌then◌else◌, Bool-cases, Option-cases, Result-cases, ltb,
  ◌||◌,
}
use prd_agent.Base.Dict.{get, get-put}
use prd_agent.Base.Json.{Json}
use prd_agent.Base.Texts.{is_blank, text_length}
use prd_agent.Runtime.Budget.{BudgetVector, reserve, consume}
use prd_agent.Runtime.Entries.{
  Library, LedgerStatus, RunLedgerEntry, RunArtifact, EvidenceItem, LedgerCallSpec, validate_spec,
  is_identity, entry_of,
}
use prd_agent.Runtime.Ledger as Ledger
use prd_agent.Runtime.Ledger.{
  Effect, ledger, artifact, evidence, called, RunExecutionLedger, Call, save_entry, save_artifact,
  save_evidence, finish_budget, settle, succeed, fail, start, replay, resume, finish_durable_ahead,
  new_ledger, is_succeeded, transition_entry, outcome_of, finished_entry, failed_entry,
  durable_consumption, again, begin, execute, stored, evidence_for, consumption_for, invoked,
  artifact_key_of,
}
use prd_agent.Runtime.Step.{
  Op, execute_model, execute_capability, execute_derivation, consume_transition, step, history,
}

-- The effect is a call under the key.
abbrev pub is_call : String → Effect → Bool
is_call key (called j) = j == key
is_call key _ = false

-- The calls made under the key.
abbrev pub calls : String → RunExecutionLedger → ℕ
calls key s = count (is_call key) s.effects

-- An entry of this status is started again.
abbrev pub may_start : LedgerStatus → Bool
may_start LedgerStatus.reserved = true
may_start LedgerStatus.other_status = true
may_start _ = false

abbrev pub start_of : Option RunLedgerEntry → ℕ
start_of none = 1
start_of (some entry) = if may_start entry.status then 1 else 0

-- The calls made under the key, and the one that may still be made.
abbrev pub credit : String → RunExecutionLedger → ℕ
credit key s = calls key s + start_of (get key s.entries)

save_entry-credit :
    (key kind : String) (spec : LedgerCallSpec) (entry : RunLedgerEntry) (s : RunExecutionLedger)
    → may_start entry.status ≡ false
    → credit key (save_entry kind spec entry s) ≤ credit key s
save_entry-credit key kind spec entry s closed =
    ground (arith, get-put spec.operation_key key entry s.entries)

save_evidence-credit :
    (key : String) (items : List EvidenceItem) (s : RunExecutionLedger)
    → credit key (save_evidence items s) ≡ credit key s
save_evidence-credit key [] s = refl
save_evidence-credit key (item ∷ items) s = omega arith

settle-credit :
    (key : String) (l : Library) (spec : LedgerCallSpec) (value : Json) (a : RunArtifact)
    (items : List EvidenceItem) (actual : BudgetVector) (replayed : Bool) (s : RunExecutionLedger)
    → credit key (settle l spec value a items actual replayed s).1 ≤ credit key s
unfolding settle
settle-credit key l spec value a items actual replayed s =
    save_entry-credit key "LEDGER_FINISHED" spec (finished_entry l spec a items actual) s refl

succeed-credit :
    (key kind : String) (l : Library) (call : Call) (value : Json) (s : RunExecutionLedger)
    → credit key (succeed l kind call value s).1 ≤ credit key s
unfolding succeed
succeed-credit key kind l call value s =
    let a = outcome_of l kind call value s in
    let t : RunExecutionLedger = save_artifact a s in
    elim (Result-cases (evidence_for call value)) [
      | inl (e, failed) ↦ rw (succeed, failed) (omega arith)
      | inr (items, given) ↦
          let kept : credit key (save_evidence items t) ≡ credit key s =
            omega (arith, save_evidence-credit key items t) in
          elim (Result-cases (consumption_for call value)) [
            | inl (e, failed) ↦ rw (succeed, given, failed) (omega (arith, kept))
            | inr (actual, counted) ↦
                rw (succeed, given, counted)
                  (omega (
                    arith,
                    kept,
                    settle-credit key l call.spec value a items actual false
                        (save_evidence items t),
                  ))
          ]
    ]

-- A call uses up the credit of its key.
abbrev making : LedgerCallSpec → RunExecutionLedger → RunExecutionLedger
making spec s =
    let t = save_entry "LEDGER_CALL_STARTED" spec (entry_of spec LedgerStatus.call_started) s in
    record t { effects = called spec.operation_key ∷ t.effects }

making-credit :
    (key : String) (spec : LedgerCallSpec) (s : RunExecutionLedger)
    → start_of (get spec.operation_key s.entries) ≡ 1
    → credit key (making spec s) ≤ credit key s
making-credit key spec s may = ground (
  arith,
  get-put spec.operation_key key (entry_of spec LedgerStatus.call_started) s.entries,
  text_key.same_iff spec.operation_key key,
)

start-credit :
    (key kind : String) (l : Library) (call : Call) (s : RunExecutionLedger)
    → start_of (get call.spec.operation_key s.entries) ≡ 1
    → credit key (start l kind call s).1 ≤ credit key s
unfolding start fail
start-credit key kind l call s may =
    let made = making-credit key call.spec s may in
    let u : RunExecutionLedger = making call.spec s in
    elim (Result-cases (invoked call)) [
      | inl (e, failed) ↦
          rw (start, failed)
            (omega (
              arith,
              made,
              save_entry-credit key "LEDGER_FINISHED" call.spec (failed_entry call.spec) u refl,
            ))
      | inr (value, valid) ↦
          rw (start, valid) (omega (arith, made, succeed-credit key kind l call value u))
    ]

reserved-credit :
    (key : String) (spec : LedgerCallSpec) (s : RunExecutionLedger)
    → get spec.operation_key s.entries ≡ none
    → credit key (save_entry "LEDGER_RESERVED" spec (entry_of spec LedgerStatus.reserved) s)
      ≤ credit key s
reserved-credit key spec s new = ground (
  arith,
  get-put spec.operation_key key (entry_of spec LedgerStatus.reserved) s.entries,
  new,
  text_key.same_iff spec.operation_key key,
)

begin-credit :
    (key kind : String) (l : Library) (call : Call) (s : RunExecutionLedger)
    → get call.spec.operation_key s.entries ≡ none
    → credit key (begin l kind call s).1 ≤ credit key s
unfolding begin
begin-credit key kind l call s new = elim (Result-cases (reserve call.spec.reservation s.budget)) [
  | inl (e, failed) ↦ rw (begin, failed) (omega arith)
  | inr (budget, reserved) ↦
      let entry = entry_of call.spec LedgerStatus.reserved in
      let t : RunExecutionLedger =
        save_entry "LEDGER_RESERVED" call.spec entry (record s { budget = budget }) in
      let here = get-put call.spec.operation_key call.spec.operation_key entry s.entries in
      let there = get-put call.spec.operation_key key entry s.entries in
      rw (begin, reserved)
        (omega (
          arith,
          start-credit key kind l call t (
              ground
                (arith, here, text_key.same_iff call.spec.operation_key call.spec.operation_key)),
          reserved-credit key call.spec s new,
        ))
]

replay-credit :
    (key : String) (l : Library) (entry : RunLedgerEntry) (call : Call) (s : RunExecutionLedger)
    → credit key (replay l entry call s).1 ≤ credit key s
unfolding replay
replay-credit key l entry call s = elim (Result-cases (stored l entry call s)) [
  | inl (e, failed) ↦ rw (replay, failed) (omega arith)
  | inr (found, read) ↦ rw (replay, read) (omega arith)
]

finish_durable_ahead-credit :
    (key : String) (l : Library) (entry : RunLedgerEntry) (call : Call) (s : RunExecutionLedger)
    → credit key (finish_durable_ahead l entry call s).1 ≤ credit key s
unfolding finish_durable_ahead
finish_durable_ahead-credit key l entry call s = elim (Result-cases (stored l entry call s)) [
  | inl (e, failed) ↦ rw (finish_durable_ahead, failed) (omega arith)
  | inr (found, read) ↦ elim (Result-cases (evidence_for call found.1)) [
    | inl (e, failed) ↦ rw (finish_durable_ahead, read, failed) (omega arith)
    | inr (items, given) ↦
        rw (finish_durable_ahead, read, given)
          (omega (
            arith,
            save_evidence-credit key items s,
            settle-credit key l call.spec found.1 found.0 items
                (durable_consumption entry call.spec) true (save_evidence items s),
          ))
  ]
]

resume-credit :
    (key : String) (l : Library) (entry : RunLedgerEntry) (call : Call) (s : RunExecutionLedger)
    → credit key (resume l entry call s).1 ≤ credit key s
unfolding resume
resume-credit key l entry call s =
    elim (Option-cases (get (artifact_key_of l entry call.spec s) s.artifacts)) [
      | inl missing ↦ rw (resume, missing) (omega arith)
      | inr (a, found) ↦ rw (resume, found) (finish_durable_ahead-credit key l entry call s)
    ]

again-credit :
    (key kind : String) (l : Library) (entry : RunLedgerEntry) (status : LedgerStatus) (call : Call)
    (s : RunExecutionLedger)
    → get call.spec.operation_key s.entries ≡ some entry
    → entry.status ≡ status
    → credit key (again l kind entry status call s).1 ≤ credit key s
unfolding again
again-credit key kind l entry LedgerStatus.succeeded call s e h = replay-credit key l entry call s
again-credit key kind l entry LedgerStatus.failed call s e h = omega arith
again-credit key kind l entry LedgerStatus.outcome_unknown_status call s e h = omega arith
again-credit key kind l entry LedgerStatus.call_started call s e h =
    resume-credit key l entry call s
again-credit key kind l entry LedgerStatus.reserved call s e h =
    start-credit key kind l call s (rw (e, h) refl)
again-credit key kind l entry LedgerStatus.other_status call s e h =
    start-credit key kind l call s (rw (e, h) refl)

execute-credit :
    (key expected kind : String) (l : Library) (call : Call) (s : RunExecutionLedger)
    → credit key (execute l expected kind call s).1 ≤ credit key s
unfolding execute
execute-credit key expected kind l call s =
    elim (Result-cases (validate_spec l call.spec expected)) [
      | inl (e, failed) ↦ rw (execute, failed) (omega arith)
      | inr (done, valid) ↦ elim (Option-cases (get call.spec.operation_key s.entries)) [
        | inl new ↦ rw (execute, valid, new) (begin-credit key kind l call s new)
        | inr (entry, found) ↦ elim (Bool-cases (is_identity entry call.spec)) [
          | inl same ↦
              rw (execute, valid, found, same)
                (again-credit key kind l entry entry.status call s found refl)
          | inr other ↦ rw (execute, valid, found, other) (omega arith)
        ]
      ]
    ]

step-credit :
    (key : String) (l : Library) (op : Op) (s : RunExecutionLedger)
    → credit key (step l op s) ≤ credit key s
unfolding step Ledger.execute_model Ledger.execute_capability Ledger.execute_derivation
    Ledger.consume_transition
step-credit key l (execute_model call) s =
    execute-credit key "MODEL" "MODEL_VALIDATED_OUTPUT" l (record call { evidence_of = none }) s
step-credit key l (execute_capability call) s =
    execute-credit key "CAPABILITY" "CAPABILITY_VALIDATED_OUTPUT" l call s
step-credit key l (execute_derivation kind call) s =
    elim (Bool-cases (is_blank kind || ltb 80 (text_length kind))) [
      | inl refused ↦ rw (step, Ledger.execute_derivation, refused) (omega arith)
      | inr bounded ↦
          rw (step, Ledger.execute_derivation, bounded)
            (execute-credit key "LOCAL_DERIVATION" kind l (record call { evidence_of = none }) s)
    ]
step-credit key l (consume_transition spec) s =
    elim (Result-cases (validate_spec l spec "LOCAL_TRANSITION")) [
      | inl (e, failed) ↦ rw (step, Ledger.consume_transition, failed) (omega arith)
      | inr (done, valid) ↦ elim (Option-cases (get spec.operation_key s.entries)) [
        | inl new ↦ elim (Result-cases (consume spec.reservation s.budget)) [
          | inl (e, failed) ↦ rw (step, Ledger.consume_transition, valid, new, failed) (omega arith)
          | inr (budget, spent) ↦
              rw (step, Ledger.consume_transition, valid, new, spent)
                (save_entry-credit key "LEDGER_FINISHED" spec (transition_entry spec)
                  (record s { budget = budget }) refl)
        ]
        | inr (entry, found) ↦ elim (Bool-cases (is_identity entry spec)) [
          | inl same ↦ elim (Bool-cases (is_succeeded entry.status)) [
            | inl over ↦
                rw (step, Ledger.consume_transition, valid, found, same, over) (omega arith)
            | inr unknown ↦
                rw (step, Ledger.consume_transition, valid, found, same, unknown) (omega arith)
          ]
          | inr other ↦ rw (step, Ledger.consume_transition, valid, found, other) (omega arith)
        ]
      ]
    ]

pub history-credit :
    (key : String) (l : Library) (ops : List Op) (s : RunExecutionLedger)
    → credit key (history l ops s) ≤ credit key s
unfolding history
history-credit key l [] s = omega arith
history-credit key l (op ∷ ops) s =
    omega (arith, history-credit key l ops (step l op s), step-credit key l op s)

start_of-le : (entry : Option RunLedgerEntry) → start_of entry ≤ 1
start_of-le none = omega arith
start_of-le (some entry) = ground arith

new_ledger-effects :
    (run_id : String) (limits consumed : BudgetVector) (entries : List RunLedgerEntry)
    (artifacts : List RunArtifact) (s : RunExecutionLedger)
    → new_ledger run_id limits consumed entries artifacts ≡ ok s
    → s.effects ≡ []
unfolding new_ledger
new_ledger-effects run_id limits consumed entries artifacts s made = ground arith

-- Over any history of a new ledger, whatever its context holds and whether each operation returns
-- or raises, a call is made at most once for each operation key, and never for a key whose entry
-- in the context says that its call was started or has ended.
pub called_once :
    (l : Library) (run_id : String) (limits consumed : BudgetVector) (entries : List RunLedgerEntry)
    (artifacts : List RunArtifact) (ops : List Op) (s : RunExecutionLedger) (key : String)
    → new_ledger run_id limits consumed entries artifacts ≡ ok s
    → (calls key (history l ops s) ≤ 1)
      × (calls key (history l ops s) ≤ start_of (get key s.entries))
called_once l run_id limits consumed entries artifacts ops s key made =
    let fresh : s.effects ≡ [] =
      new_ledger-effects run_id limits consumed entries artifacts s made in
    let bound = history-credit key l ops s in
    let none_yet : calls key s ≡ 0 = rw fresh refl in
    let most = start_of-le (get key s.entries) in
    (omega (arith, bound, none_yet, most), omega (arith, bound, none_yet))
