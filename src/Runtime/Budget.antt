-- ===== src/Runtime/Budget.antt =====
-- agent-python/agent/runtime/budget.py. A BudgetVector is a function of the names of its fields,
-- through which the code reads them.
use prd_agent.Base.{
  zero, any, not, String, Bool, true, false, List, [], ◌∷◌, Result, ok, err, if◌then◌else◌,
}
use prd_agent.Base.Int.{ℤ, pos, ◌+ℤ◌, ◌-ℤ◌, ltb_ℤ, floor}

pub data Dimension : Type 0 where
  model_attempts tool_calls iterations replans supplements quality_repairs input_tokens
        output_tokens elapsed_ms :
      Dimension

abbrev pub dimensions : List Dimension
dimensions =
    model_attempts ∷ tool_calls ∷ iterations ∷ replans ∷ supplements ∷ quality_repairs
    ∷ input_tokens ∷ output_tokens ∷ elapsed_ms ∷ []

abbrev pub BudgetVector : Type 0
BudgetVector = Dimension → ℤ

-- BudgetVector()
abbrev pub no_budget : BudgetVector
no_budget name = pos 0

unfoldable pub add : BudgetVector → BudgetVector → BudgetVector
add v w name = v name +ℤ w name

unfoldable pub subtract_floor : BudgetVector → BudgetVector → BudgetVector
subtract_floor v w name = floor (v name -ℤ w name)

abbrev pub is_zero : ℤ → Bool
is_zero (pos zero) = true
is_zero _ = false

-- v == BudgetVector()
unfoldable pub is_no_budget : BudgetVector → Bool
is_no_budget v = not (any (λ name. not (is_zero (v name))) dimensions)

-- What the ledger raises: ValueError, BudgetExhausted by its name, LedgerOutcomeUnknown,
-- LedgerTerminalFailure, and what a call or a validation raised.
pub data LedgerError : Type 0 where
  value_error : LedgerError
  budget_exhausted : Dimension → LedgerError
  outcome_unknown : String → LedgerError
  terminal_failure : String → Bool → LedgerError
  raised : String → LedgerError

pub record BudgetState : Type 0 where
  pub limits : BudgetVector
  pub consumed : BudgetVector
  pub reserved : BudgetVector

unfoldable pub check_names :
    BudgetVector → BudgetVector → BudgetVector → List Dimension → Result LedgerError Unit
check_names limits used requested [] = ok tt
check_names limits used requested (name ∷ names) =
    let rest = check_names limits used requested names in
    if ltb_ℤ (requested name) (pos 0)
    then err value_error
    else if ltb_ℤ (limits name) (used name +ℤ requested name)
    then err (budget_exhausted name)
    else rest

unfoldable pub check : BudgetVector → BudgetVector → BudgetState → Result LedgerError Unit
unfolding check_names
check used requested b = check_names b.limits used requested dimensions

unfoldable pub reserve : BudgetVector → BudgetState → Result LedgerError BudgetState
unfolding check add
reserve delta b = elim (check (add b.consumed b.reserved) delta b) [
  | err e ↦ err e
  | ok done ↦ ok (record b { reserved = add b.reserved delta })
]

unfoldable pub finish : BudgetVector → BudgetVector → BudgetState → BudgetState
unfolding add subtract_floor
finish reservation consumption b = record b {
  reserved = subtract_floor b.reserved reservation;
  consumed = add b.consumed consumption;
}

unfoldable pub consume : BudgetVector → BudgetState → Result LedgerError BudgetState
unfolding check add
consume delta b = elim (check b.consumed delta b) [
  | err e ↦ err e
  | ok done ↦ ok (record b { consumed = add b.consumed delta })
]

unfoldable pub remaining : BudgetState → BudgetVector
unfolding add
remaining b name = floor (b.limits name -ℤ add b.consumed b.reserved name)
