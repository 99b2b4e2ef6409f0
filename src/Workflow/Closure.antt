-- ===== src/Workflow/Closure.antt =====
-- WorkflowService._dependent_unit_closure of src/prd_agent/workflow/service.py. A set is a list.
pub mod Least
use prd_agent.Base.{
  text_key, ℕ, zero, suc, String, Bool, true, false, ◌||◌, List, [], ◌∷◌, any, length, ◌==◌,
  if◌then◌else◌,
}
use prd_agent.Domain.Entities.{ConfirmationUnit, OutlineVersion}

-- item in items
abbrev pub contains : List String → String → Bool
contains items item = any (λ x. x == item) items

-- any(item in closure for item in unit.depends_on_unit_ids)
abbrev pub depends_on : List String → ConfirmationUnit → Bool
depends_on closure unit = any (contains closure) unit.depends_on_unit_ids

-- The unit has to be added.
abbrev pub is_missing : List String → ConfirmationUnit → Bool
is_missing closure unit = if contains closure unit.unit_id then false else depends_on closure unit

-- One pass over the units: the closure after it, and whether it changed.
unfoldable pub closure_pass : List String → List ConfirmationUnit → List String × Bool
closure_pass closure [] = (closure, false)
closure_pass closure (unit ∷ units) =
    let missing = is_missing closure unit in
    let (rest, changed) =
      closure_pass (if missing then unit.unit_id ∷ closure else closure) units in
    (rest, missing || changed)

-- The passes, on fuel.
unfoldable pub closure_loop : ℕ → List String → List ConfirmationUnit → List String
unfolding closure_pass
closure_loop zero closure units = closure
closure_loop (suc fuel) closure units =
    let (next, changed) = closure_pass closure units in
    let rest = closure_loop fuel next units in if changed then rest else next

unfoldable pub dependent_unit_closure : OutlineVersion → List String → List String
unfolding closure_loop
dependent_unit_closure outline selected =
    closure_loop (suc (length outline.confirmation_units)) selected outline.confirmation_units
