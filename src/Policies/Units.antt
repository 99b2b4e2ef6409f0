-- ===== src/Policies/Units.antt =====
-- UnitPolicy of src/prd_agent/policies/unit_policy.py.
use prd_agent.Base.{
  text_key, nat_key, ℕ, String, Bool, false, ◌&&◌, not, Option, none, some, List, any, find, holds,
  ◌==◌, if◌then◌else◌, Result, ok, err,
}
use prd_agent.Base.Texts.{is_blank}
use prd_agent.Domain.Statuses.{is_confirmed, is_pending_unit, is_confirmed_outline}
use prd_agent.Domain.Errors.{WorkflowError, invalid_transition}
use prd_agent.Domain.Entities.{ConfirmationUnit, OutlineVersion}

-- item in {x.unit_id for x in units if x.status == CONFIRMED}
abbrev pub is_confirmed_id : List ConfirmationUnit → String → Bool
is_confirmed_id units item = any (λ x. is_confirmed x.status && x.unit_id == item) units

-- content is not None and content != ""
abbrev pub has_content : Option String → Bool
has_content none = false
has_content (some content) = not (is_blank content)

-- The first unit of this id: the one that the policy tests.
abbrev pub unit_of : String → List ConfirmationUnit → Option ConfirmationUnit
unit_of unit_id units = find (λ unit. unit.unit_id == unit_id) units

unfoldable pub confirm_found :
    OutlineVersion → Option ℕ → ConfirmationUnit → Result WorkflowError Unit
confirm_found outline current_sequence unit =
    if holds current_sequence unit.sequence
    then (if any (λ item. not (is_confirmed_id outline.confirmation_units item))
          unit.depends_on_unit_ids
        then err invalid_transition
        else if is_pending_unit unit.status && has_content unit.content
        then ok tt
        else err invalid_transition)
    else err invalid_transition

unfoldable pub confirm : OutlineVersion → String → Option ℕ → Result WorkflowError Unit
confirm outline unit_id current_sequence =
    if is_confirmed_outline outline.status
    then elim (unit_of unit_id outline.confirmation_units) [
      | none ↦ err invalid_transition
      | some unit ↦ confirm_found outline current_sequence unit
    ]
    else err invalid_transition
