-- ===== src/Quality/Verdict.antt =====
-- When `check_document` of src/prd_agent/quality/service.py lets a document be confirmed.
use prd_agent.Base.{
  text_key, ◌≡◌, refl, String, Bool, ◌&&◌, ◌||◌, not, List, [], ◌∷◌, filter, any, all, is_empty,
  any-append, ◌==◌, arith,
}
use prd_agent.Base.Texts.{strip, is_blank, is_in}
use prd_agent.Domain.Entities.{OutlineNode, OutlineVersion, PrdSectionVersion}
use prd_agent.Workflow.Outside.{Library}
use prd_agent.Workflow.Sections.{is_confirmed_section}
use prd_agent.Quality.Service.{
  check_document, section_issues, all_section_issues, coverage_issues, missing_nodes, covered_nodes,
  node_of, is_blocking, is_executable,
}

-- The section is confirmed and about this node.
abbrev pub covers : OutlineNode → PrdSectionVersion → Bool
covers node section =
    is_confirmed_section section.status
    && any (λ (id : String). id == node.node_id) (node_of section)

-- The section has a text, and one on acceptance says when something happens and what.
abbrev pub is_sound : PrdSectionVersion → Bool
is_sound section =
    not (is_blank (strip section.content))
    && (not (is_in "验收" section.title) || is_executable section.content)

covered-any :
    (node : OutlineNode) (sections : List PrdSectionVersion)
    → any
        (λ (id : String). id == node.node_id)
        (covered_nodes
          (filter (λ (item : PrdSectionVersion). is_confirmed_section item.status) sections))
      ≡ any (covers node) sections
covered-any node [] = refl
covered-any node (section ∷ sections) = ground (
  arith,
  covered-any node sections,
  any-append (λ (id : String). id == node.node_id) (node_of section)
      (covered_nodes
        (filter (λ (item : PrdSectionVersion). is_confirmed_section item.status) sections)),
)

section_issues-any :
    (l : Library) (run_id : String) (section : PrdSectionVersion)
    → any is_blocking (section_issues l run_id section) ≡ not (is_sound section)
section_issues-any l run_id section = ground arith

all_section_issues-any :
    (l : Library) (run_id : String) (sections : List PrdSectionVersion)
    → any is_blocking (
        all_section_issues l run_id
          (filter (λ (item : PrdSectionVersion). is_confirmed_section item.status) sections))
      ≡ not
          (all (λ section. not (is_confirmed_section section.status) || is_sound section) sections)
all_section_issues-any l run_id [] = refl
all_section_issues-any l run_id (section ∷ sections) = ground (
  arith,
  all_section_issues-any l run_id sections,
  section_issues-any l run_id section,
  any-append is_blocking (section_issues l run_id section) (
      all_section_issues l run_id
        (filter (λ (item : PrdSectionVersion). is_confirmed_section item.status) sections)),
)

missing_nodes-is_empty :
    (nodes : List OutlineNode) (sections : List PrdSectionVersion)
    → is_empty (
        missing_nodes nodes (
          covered_nodes
            (filter (λ (item : PrdSectionVersion). is_confirmed_section item.status) sections)))
      ≡ all (λ node. any (covers node) sections) nodes
missing_nodes-is_empty [] sections = refl
missing_nodes-is_empty (node ∷ nodes) sections =
    ground (arith, covered-any node sections, missing_nodes-is_empty nodes sections)

coverage_issues-any :
    (l : Library) (run_id : String) (missing : List String)
    → any is_blocking (coverage_issues l run_id missing) ≡ not (is_empty missing)
coverage_issues-any l run_id [] = refl
coverage_issues-any l run_id (id ∷ missing) = refl

-- A document may be confirmed exactly when each node of its outline is covered by a confirmed
-- section, each confirmed section has a text that is not blank, and each confirmed section whose
-- title names acceptance says both a condition and a result.
pub check_document_lem :
    (l : Library) (run_id task_id document_id : String) (outline : OutlineVersion)
    (sections : List PrdSectionVersion)
    → (check_document l run_id task_id document_id outline sections).confirmable
      ≡ all (λ node. any (covers node) sections) outline.nodes
        && all (λ section. not (is_confirmed_section section.status) || is_sound section) sections
unfolding check_document
check_document_lem l run_id task_id document_id outline sections =
    let missing = missing_nodes outline.nodes (
      covered_nodes
        (filter (λ (item : PrdSectionVersion). is_confirmed_section item.status) sections)) in
    ground (
      arith,
      any-append is_blocking (coverage_issues l run_id missing) (
          all_section_issues l run_id
            (filter (λ (item : PrdSectionVersion). is_confirmed_section item.status) sections)),
      coverage_issues-any l run_id missing,
      missing_nodes-is_empty outline.nodes sections,
      all_section_issues-any l run_id sections,
    )
