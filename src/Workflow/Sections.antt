-- ===== src/Workflow/Sections.antt =====
-- The sections that a document is made of: `_current_sections` of
-- src/prd_agent/workflow/service.py, build_confirmed_context of
-- src/prd_agent/workflow/context_builder.py, render_markdown of
-- src/prd_agent/rendering/markdown.py.
use Prim.Native.String.{◌++◌ as text_append}
use prd_agent.Base.{
  text_key, nat_key, ℕ, String, Bool, true, false, ◌&&◌, not, Option, none, some, List, [], ◌∷◌,
  any, find, map, length, is_empty, ltb, leb, text_le, ◌==◌, if◌then◌else◌, Result, ok, err,
}
use prd_agent.Base.Dict.{Dict, get, put, values}
use prd_agent.Base.Sort.{sorted}
use prd_agent.Base.Texts.{is_blank, join, text_take}
use prd_agent.Domain.Statuses.{SectionStatus, is_confirmed, is_confirmed_outline}
use prd_agent.Domain.Errors.{WorkflowError, invalid_transition}
use prd_agent.Domain.Entities.{
  ConfirmationUnit, OutlineVersion, PrdSectionVersion, RequirementBrief,
}
use prd_agent.Workflow.Closure.{contains}
use prd_agent.Workflow.Outside.{ContextSection}

-- section.node_id or section.unit_id
abbrev pub section_key : PrdSectionVersion → String
section_key section = elim section.node_id [
  | none ↦ section.unit_id
  | some node_id ↦ if is_blank node_id then section.unit_id else node_id
]

-- current is None or section.version > current.version
abbrev pub is_newer : PrdSectionVersion → Option PrdSectionVersion → Bool
is_newer section none = true
is_newer section (some current) = ltb current.version section.version

abbrev pub keep_newer :
    Dict String PrdSectionVersion → PrdSectionVersion → Dict String PrdSectionVersion
keep_newer latest section =
    if is_newer section (get (section_key section) latest)
    then put (section_key section) section latest
    else latest

-- The latest section of each key.
unfoldable pub latest_by_node :
    Dict String PrdSectionVersion → List PrdSectionVersion → Dict String PrdSectionVersion
latest_by_node latest [] = latest
latest_by_node latest (section ∷ sections) = latest_by_node (keep_newer latest section) sections

-- The sections found under the ids, in their order.
unfoldable pub pick : Dict String PrdSectionVersion → List String → List PrdSectionVersion
pick latest [] = []
pick latest (id ∷ ids) =
    let rest = pick latest ids in
    elim (get id latest) [ none ↦ rest | some section ↦ section ∷ rest ]

unfoldable pub current_sections : OutlineVersion → List PrdSectionVersion → List PrdSectionVersion
unfolding latest_by_node pick sorted
current_sections outline sections =
    let latest = latest_by_node [] sections in
    let ordered =
      pick latest
        (map (λ n. n.node_id) (sorted (λ m n. leb m.sequence n.sequence) outline.nodes)) in
    if is_empty ordered
    then pick latest (
        map (λ u. u.unit_id) (sorted (λ t u. leb t.sequence u.sequence) outline.confirmation_units))
    else ordered

abbrev pub is_confirmed_section : SectionStatus → Bool
is_confirmed_section SectionStatus.confirmed = true
is_confirmed_section _ = false

-- The latest confirmed sections of the units that the unit depends on.
unfoldable pub latest_context :
    List String
    → Dict String PrdSectionVersion
    → List PrdSectionVersion
    → Dict String PrdSectionVersion
latest_context dependencies latest [] = latest
latest_context dependencies latest (section ∷ sections) =
    latest_context dependencies
      (if contains dependencies section.unit_id && is_confirmed_section section.status
        then keep_newer latest section
        else latest)
      sections

-- node_id or ""
abbrev pub node_text : Option String → String
node_text none = ""
node_text (some node_id) = node_id

-- (unit_id, node_id or "", version) in order
abbrev pub context_le : PrdSectionVersion → PrdSectionVersion → Bool
context_le a b =
    if a.unit_id == b.unit_id
    then (if node_text a.node_id == node_text b.node_id
        then leb a.version b.version
        else text_le (node_text a.node_id) (node_text b.node_id))
    else text_le a.unit_id b.unit_id

unfoldable pub build_confirmed_context :
    ConfirmationUnit → List PrdSectionVersion → ℕ → List ContextSection
unfolding latest_context sorted text_take
build_confirmed_context unit sections max_content_chars =
    map
      (λ section. record {
        section_id = section.section_id;
        unit_id = section.unit_id;
        node_id = section.node_id;
        version = section.version;
        title = section.title;
        content = text_take max_content_chars section.content;
        content_hash = section.content_hash;
      })
      (sorted context_le (values (latest_context unit.depends_on_unit_ids [] sections)))

-- unit and unit.status is CONFIRMED
abbrev pub is_confirmed_unit : Option ConfirmationUnit → Bool
is_confirmed_unit none = false
is_confirmed_unit (some unit) = is_confirmed unit.status

-- Every section is of a unit of the outline that is confirmed.
abbrev pub may_render : OutlineVersion → List PrdSectionVersion → Bool
may_render outline sections = not (
    any
      (λ item.
        not (is_confirmed_unit (find (λ u. u.unit_id == item.unit_id) outline.confirmation_units)))
      sections)

-- _list
unfoldable pub bullets : List String → String
unfolding join
bullets items = if is_empty items then "- 待确认" else join "\n" (map (text_append "- ") items)

-- "".join(parts)
abbrev pub concat : List String → String
concat parts = join "" parts

-- The part of a section.
abbrev pub section_part : Bool → PrdSectionVersion → String
section_part only item = concat (
    "## "
    ∷ (if only then text_append "第一确认单元：" item.title else item.title)
    ∷ "\n\n"
    ∷ item.content
    ∷ "\n\n"
    ∷ [])

unfoldable pub render_markdown :
    RequirementBrief
    → OutlineVersion
    → List PrdSectionVersion
    → String
    → Result WorkflowError String
unfolding bullets join
render_markdown brief outline sections evidence_appendix =
    if is_confirmed_outline outline.status && may_render outline sections
    then ok (
        concat (
          "# "
          ∷ outline.title
          ∷ "\n\n## 需求摘要\n\n"
          ∷ (if is_blank brief.problem then "待确认" else brief.problem)
          ∷ "\n\n## 范围边界\n\n### 范围内\n\n"
          ∷ bullets brief.scope_in
          ∷ "\n\n### 范围外\n\n"
          ∷ bullets brief.scope_out
          ∷ "\n\n## 业务规则\n\n"
          ∷ bullets brief.product_rules
          ∷ "\n\n"
          ∷ concat (map (section_part (length sections == 1)) sections)
          ∷ "## 待确认事项\n\n"
          ∷ bullets brief.open_questions
          ∷ "\n"
          ∷ (if is_blank evidence_appendix then "" else text_append "\n" evidence_appendix)
          ∷ []))
    else err invalid_transition
