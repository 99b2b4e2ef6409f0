-- ===== src/Runtime/Bounds.antt =====
-- What the budget of agent-python/agent/runtime/budget.py bounds, over the histories of the ledger.
use prd_agent.Base.{
  text_key, ◌+◌, ◌≡◌, refl, sym, subst, String, Bool, true, false, none, some, List, [], ◌∷◌, ok,
  inl, inr, ◌==◌, All, arith, Bool-cases, Option-cases, Result-cases, ltb, ◌||◌,
}
use prd_agent.Base.Dict.{Dict, get, put, get-put}
use prd_agent.Base.Int.{ℤ, pos, pos_part, neg_part, ◌+ℤ◌, ◌-ℤ◌, ◌≤ℤ◌, ltb_ℤ, floor, int_laws}
use prd_agent.Base.Json.{Json}
use prd_agent.Base.Texts.{is_blank, text_length}
use prd_agent.Runtime.Entries.{
  Library, LedgerStatus, RunLedgerEntry, EvidenceItem, LedgerCallSpec, validate_spec, is_identity,
  entry_of,
}
use prd_agent.Runtime.Ledger as Ledger
use prd_agent.Runtime.Ledger.{
  RunExecutionLedger, Call, save_entry, save_artifact, save_evidence, finish_budget, settle,
  succeed, fail, start, replay, resume, stored, evidence_for, consumption_for, invoked, again,
  begin, execute, failed_entry, finished_entry, transition_entry, is_succeeded, outcome_of,
}
use prd_agent.Runtime.Step.{
  Op, execute_model, execute_capability, execute_derivation, consume_transition, step, history,
}
use prd_agent.Runtime.Budget.{
  Dimension, model_attempts, tool_calls, iterations, replans, supplements, quality_repairs,
  input_tokens, output_tokens, elapsed_ms, dimensions, BudgetVector, BudgetState, add,
  subtract_floor, check_names, check, reserve, finish, consume,
}

-- The amounts are not negative, and what is used with them is within the limits.
abbrev pub Fits : BudgetVector → BudgetVector → BudgetVector → Dimension → Type 0
Fits limits used requested name =
    (pos 0 ≤ℤ requested name) × (used name +ℤ requested name ≤ℤ limits name)

check_names-All :
    (limits used requested : BudgetVector) (names : List Dimension)
    → check_names limits used requested names ≡ ok tt
    → All (Fits limits used requested) names
unfolding check_names
check_names-All limits used requested [] h = tt
check_names-All limits used requested (name ∷ names) h =
    elim (Bool-cases (ltb_ℤ (requested name) (pos 0))) [
      | inl negative ↦ absurd (ground arith)
      | inr counted ↦ elim (Bool-cases (ltb_ℤ (limits name) (used name +ℤ requested name))) [
        | inl over ↦ absurd (ground arith)
        | inr within ↦ (
          (ground arith, ground arith),
          check_names-All limits used requested names (ground arith),
        )
      ]
    ]

-- What holds of each name holds of them all.
All-at : (P : Dimension → Type 0) → All P dimensions → (name : Dimension) → P name
All-at P h model_attempts = h.0
All-at P h tool_calls = h.1.0
All-at P h iterations = h.1.1.0
All-at P h replans = h.1.1.1.0
All-at P h supplements = h.1.1.1.1.0
All-at P h quality_repairs = h.1.1.1.1.1.0
All-at P h input_tokens = h.1.1.1.1.1.1.0
All-at P h output_tokens = h.1.1.1.1.1.1.1.0
All-at P h elapsed_ms = h.1.1.1.1.1.1.1.1.0

pub check-Fits :
    (used requested : BudgetVector) (b : BudgetState)
    → check used requested b ≡ ok tt
    → (name : Dimension) → Fits b.limits used requested name
unfolding check
check-Fits used requested b h =
    All-at (Fits b.limits used requested) (check_names-All b.limits used requested dimensions h)

-- Nothing is reserved, and what is consumed is within the limits.
pub record IsWithin (b : BudgetState) : Type 0 where
  pub unreserved : (name : Dimension) → b.reserved name ≡ pos 0
  pub consumed_within : (name : Dimension) → b.consumed name ≤ℤ b.limits name

-- The consumption is at most the reservation, and not negative.
abbrev pub IsCovered : BudgetVector → BudgetVector → Type 0
IsCovered reservation actual =
    (name : Dimension) → (pos 0 ≤ℤ actual name) × (actual name ≤ℤ reservation name)

unreserved_part :
    (r : ℤ) (reservation : ℤ) → r ≡ pos 0 → floor (r +ℤ reservation -ℤ reservation) ≡ pos 0
unfolding ◌+ℤ◌ ◌-ℤ◌
unreserved_part r reservation h = ground (arith, h)

spent_within :
    (c r limit reservation actual : ℤ)
    → r ≡ pos 0
    → c +ℤ r +ℤ reservation ≤ℤ limit
    → actual ≤ℤ reservation
    → c +ℤ actual ≤ℤ limit
spent_within c r limit reservation actual h fits covered =
    let zero : pos_part r + 0 ≡ neg_part r = rw h (omega arith) in omega int_laws

abbrev reserved_by : BudgetVector → BudgetState → BudgetState
reserved_by reservation b = record b { reserved = add b.reserved reservation }

finish-IsWithin :
    (reservation actual : BudgetVector) (b : BudgetState)
    → IsWithin b
    → check (add b.consumed b.reserved) reservation b ≡ ok tt
    → IsCovered reservation actual
    → IsWithin (finish reservation actual (reserved_by reservation b))
unfolding finish add subtract_floor
finish-IsWithin reservation actual b h passed covered = record {
  unreserved = λ name. unreserved_part (b.reserved name) (reservation name) (h.unreserved name);
  consumed_within = λ name.
      spent_within (b.consumed name) (b.reserved name) (b.limits name) (reservation name)
        (actual name) (h.unreserved name)
        (check-Fits (add b.consumed b.reserved) reservation b passed name).1 (covered name).1;
}

consume-IsWithin :
    (delta : BudgetVector) (b : BudgetState)
    → IsWithin b
    → check b.consumed delta b ≡ ok tt
    → IsWithin (record b { consumed = add b.consumed delta })
unfolding add
consume-IsWithin delta b h passed = record {
  unreserved = h.unreserved;
  consumed_within = λ name. (check-Fits b.consumed delta b passed name).1;
}

-- A ledger between two operations: each of its entries has ended, and its budget is within the
-- limits.
abbrev pub is_closed : LedgerStatus → Bool
is_closed LedgerStatus.succeeded = true
is_closed LedgerStatus.failed = true
is_closed LedgerStatus.outcome_unknown_status = true
is_closed _ = false

abbrev pub AreClosed : Dict String RunLedgerEntry → Type 0
AreClosed entries =
    (key : String) (entry : RunLedgerEntry)
    → get key entries ≡ some entry
    → is_closed entry.status ≡ true

pub record IsSettled (s : RunExecutionLedger) : Type 0 where
  pub closed : AreClosed s.entries
  pub within : IsWithin s.budget

-- The functions of the call's result return, and it has used at most what was reserved for it.
abbrev pub IsFrugal : Call → Type 0
IsFrugal call =
    (value : Json)
    → (items : List EvidenceItem) × (actual : BudgetVector) × (evidence_for call value ≡ ok items)
      × (consumption_for call value ≡ ok actual)
      × IsCovered call.spec.reservation actual

AreClosed-put :
    (key : String) (entry : RunLedgerEntry) (entries : Dict String RunLedgerEntry)
    → is_closed entry.status ≡ true
    → AreClosed entries
    → AreClosed (put key entry entries)
AreClosed-put key entry entries ended h j found e = elim (Bool-cases (key == j)) [
  | inl same ↦ ground (arith, get-put key j entry entries, e, ended)
  | inr apart ↦ h j found (ground (arith, get-put key j entry entries, e))
]

-- A write to a key after two others to it is the only one that is seen.
AreClosed-put_thrice :
    (key : String) (a b c : RunLedgerEntry) (entries : Dict String RunLedgerEntry)
    → is_closed c.status ≡ true
    → AreClosed entries
    → AreClosed (put key c (put key b (put key a entries)))
AreClosed-put_thrice key a b c entries ended h j found e =
    let first = get-put key j a entries in
    let second = get-put key j b (put key a entries) in
    let third = get-put key j c (put key b (put key a entries)) in
    elim (Bool-cases (key == j)) [
      | inl same ↦ ground (arith, third, e, ended)
      | inr apart ↦ h j found (ground (arith, first, second, third, e))
    ]

-- The call is made, and uses what it has reserved.
start-IsSettled :
    (kind : String) (l : Library) (call : Call) (s : RunExecutionLedger)
    → IsSettled s
    → IsFrugal call
    → check (add s.budget.consumed s.budget.reserved) call.spec.reservation s.budget ≡ ok tt
    → IsSettled
        (start l kind call (
          save_entry "LEDGER_RESERVED" call.spec
            (entry_of call.spec LedgerStatus.reserved)
            (record s { budget = reserved_by call.spec.reservation s.budget }))).1
unfolding start fail succeed settle
start-IsSettled kind l call s h frugal passed =
    let spec = call.spec in
    let positive = λ (name : Dimension).
      (check-Fits (add s.budget.consumed s.budget.reserved) spec.reservation s.budget passed
        name).0 in
    elim (Result-cases (invoked call)) [
      | inl (e, failed) ↦
          rw (start, failed)
            (record {
              closed =
                  AreClosed-put_thrice spec.operation_key (entry_of spec LedgerStatus.reserved)
                    (entry_of spec LedgerStatus.call_started) (failed_entry spec) s.entries refl
                    h.closed;
              within =
                  finish-IsWithin spec.reservation spec.reservation s.budget h.within passed
                    λ name. (positive name, omega arith);
            })
      | inr (value, valid) ↦
          let (items, actual, given, counted, covered) = frugal value in
          rw (start, succeed, valid, given, counted)
            (record {
              closed =
                  AreClosed-put_thrice spec.operation_key (entry_of spec LedgerStatus.reserved)
                    (entry_of spec LedgerStatus.call_started) _ s.entries refl h.closed;
              within = finish-IsWithin spec.reservation actual s.budget h.within passed covered;
            })
    ]

begin-IsSettled :
    (kind : String) (l : Library) (call : Call) (s : RunExecutionLedger)
    → IsSettled s
    → IsFrugal call
    → IsSettled (begin l kind call s).1
unfolding begin reserve
begin-IsSettled kind l call s h frugal =
    elim (Result-cases
      (check (add s.budget.consumed s.budget.reserved) call.spec.reservation s.budget)) [
        | inl (e, failed) ↦ rw (begin, reserve, failed) h
        | inr (done, passed) ↦
            rw (begin, reserve, passed) (start-IsSettled kind l call s h frugal passed)
      ]

replay-budget :
    (l : Library) (entry : RunLedgerEntry) (call : Call) (s : RunExecutionLedger)
    → (replay l entry call s).1 ≡ s
unfolding replay
replay-budget l entry call s = elim (Result-cases (stored l entry call s)) [
  | inl (e, failed) ↦ rw (replay, failed) refl
  | inr (found, read) ↦ rw (replay, read) refl
]

again-IsSettled :
    (kind : String) (l : Library) (entry : RunLedgerEntry) (status : LedgerStatus) (call : Call)
    (s : RunExecutionLedger)
    → is_closed status ≡ true
    → (again l kind entry status call s).1 ≡ s
unfolding again
again-IsSettled kind l entry LedgerStatus.succeeded call s h = replay-budget l entry call s
again-IsSettled kind l entry LedgerStatus.failed call s h = refl
again-IsSettled kind l entry LedgerStatus.outcome_unknown_status call s h = refl
again-IsSettled kind l entry status call s h = cc

execute-IsSettled :
    (expected kind : String) (l : Library) (call : Call) (s : RunExecutionLedger)
    → IsSettled s
    → IsFrugal call
    → IsSettled (execute l expected kind call s).1
unfolding execute
execute-IsSettled expected kind l call s h frugal =
    elim (Result-cases (validate_spec l call.spec expected)) [
      | inl (e, failed) ↦ rw (execute, failed) h
      | inr (done, valid) ↦ elim (Option-cases (get call.spec.operation_key s.entries)) [
        | inl new ↦ rw (execute, valid, new) (begin-IsSettled kind l call s h frugal)
        | inr (entry, found) ↦ elim (Bool-cases (is_identity entry call.spec)) [
          | inl same ↦
              rw (execute, valid, found, same)
                (subst IsSettled
                  (sym (
                    again-IsSettled kind l entry entry.status call s
                      (h.closed call.spec.operation_key entry found)))
                  h)
          | inr other ↦ rw (execute, valid, found, other) h
        ]
      ]
    ]

derivation-IsSettled :
    (kind : String) (l : Library) (call : Call) (s : RunExecutionLedger)
    → IsSettled s
    → IsFrugal (record call { evidence_of = none })
    → IsSettled (Ledger.execute_derivation l kind call s).1
unfolding Ledger.execute_derivation
derivation-IsSettled kind l call s h frugal =
    elim (Bool-cases (is_blank kind || ltb 80 (text_length kind))) [
      | inl refused ↦ rw (Ledger.execute_derivation, refused) h
      | inr bounded ↦
          rw (Ledger.execute_derivation, bounded)
            (execute-IsSettled "LOCAL_DERIVATION" kind l (record call { evidence_of = none }) s h
              frugal)
    ]

transition-IsSettled :
    (l : Library) (spec : LedgerCallSpec) (s : RunExecutionLedger)
    → IsSettled s
    → IsSettled (Ledger.consume_transition l spec s).1
unfolding Ledger.consume_transition consume
transition-IsSettled l spec s h = elim (Result-cases (validate_spec l spec "LOCAL_TRANSITION")) [
  | inl (e, failed) ↦ rw (Ledger.consume_transition, failed) h
  | inr (done, valid) ↦ elim (Option-cases (get spec.operation_key s.entries)) [
    | inl new ↦ elim (Result-cases (check s.budget.consumed spec.reservation s.budget)) [
      | inl (e, failed) ↦ rw (Ledger.consume_transition, valid, new, consume, failed) h
      | inr (checked, passed) ↦
          rw (Ledger.consume_transition, valid, new, consume, passed)
            (record {
              closed =
                  AreClosed-put spec.operation_key (transition_entry spec) s.entries refl h.closed;
              within = consume-IsWithin spec.reservation s.budget h.within passed;
            })
    ]
    | inr (entry, found) ↦ elim (Bool-cases (is_identity entry spec)) [
      | inl same ↦ elim (Bool-cases (is_succeeded entry.status)) [
        | inl over ↦ rw (Ledger.consume_transition, valid, found, same, over) h
        | inr unknown ↦ rw (Ledger.consume_transition, valid, found, same, unknown) h
      ]
      | inr other ↦ rw (Ledger.consume_transition, valid, found, other) h
    ]
  ]
]

-- Each call of the operations uses at most what it reserves. A model call and a derivation have no
-- evidence.
abbrev pub AreFrugal : List Op → Type 0
AreFrugal [] = Unit
AreFrugal (execute_model call ∷ ops) = IsFrugal (record call { evidence_of = none }) × AreFrugal ops
AreFrugal (execute_capability call ∷ ops) = IsFrugal call × AreFrugal ops
AreFrugal (execute_derivation kind call ∷ ops) =
    IsFrugal (record call { evidence_of = none }) × AreFrugal ops
AreFrugal (consume_transition spec ∷ ops) = AreFrugal ops

-- From a ledger whose entries have all ended, with nothing reserved and what is consumed within the
-- limits, and over any history of operations, whether each returns or raises, whose functions of a
-- result return and whose calls use at most what they reserve: after each history all of that
-- holds again, so that in no dimension more is consumed than its limit.
pub history-IsSettled :
    (l : Library) (ops : List Op) (s : RunExecutionLedger)
    → IsSettled s
    → AreFrugal ops
    → IsSettled (history l ops s)
unfolding history step Ledger.execute_model Ledger.execute_capability Ledger.execute_derivation
history-IsSettled l [] s h frugal = h
history-IsSettled l (execute_model call ∷ ops) s h frugal =
    history-IsSettled l ops _
      (execute-IsSettled "MODEL" "MODEL_VALIDATED_OUTPUT" l (record call { evidence_of = none }) s h
        frugal.0)
      frugal.1
history-IsSettled l (execute_capability call ∷ ops) s h frugal =
    history-IsSettled l ops _
      (execute-IsSettled "CAPABILITY" "CAPABILITY_VALIDATED_OUTPUT" l call s h frugal.0) frugal.1
history-IsSettled l (execute_derivation kind call ∷ ops) s h frugal =
    history-IsSettled l ops _ (derivation-IsSettled kind l call s h frugal.0) frugal.1
history-IsSettled l (consume_transition spec ∷ ops) s h frugal =
    history-IsSettled l ops (Ledger.consume_transition l spec s).1 (transition-IsSettled l spec s h)
      frugal
