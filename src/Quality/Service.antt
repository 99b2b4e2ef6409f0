-- ===== src/Quality/Service.antt =====
-- DocumentQualityService of src/prd_agent/quality/service.py.
use Prim.Native.String.{◌++◌ as text_append}
use prd_agent.Base.{
  text_key, String, Bool, true, false, ◌&&◌, not, none, some, List, [], ◌∷◌, ◌++◌, filter, any,
  is_empty, ◌==◌, if◌then◌else◌,
}
use prd_agent.Base.Texts.{strip, is_blank, is_in, join, text_take}
use prd_agent.Domain.Entities.{OutlineNode, OutlineVersion, PrdSectionVersion}
use prd_agent.Domain.Outcomes.{
  QualityScope, QualitySeverity, QualityIssueType, QualityIssue, QualityResult,
}
use prd_agent.Workflow.Outside.{Library}
use prd_agent.Workflow.Sections.{is_confirmed_section}

-- issue_type.value, of the types that the service reports
abbrev pub type_text : QualityIssueType → String
type_text QualityIssueType.outline_coverage = "OUTLINE_COVERAGE"
type_text QualityIssueType.empty_or_duplicate_content = "EMPTY_OR_DUPLICATE_CONTENT"
type_text QualityIssueType.terminology_inconsistency = "TERMINOLOGY_INCONSISTENCY"
type_text QualityIssueType.rule_conflict = "RULE_CONFLICT"
type_text QualityIssueType.state_flow_gap = "STATE_FLOW_GAP"
type_text QualityIssueType.role_permission_conflict = "ROLE_PERMISSION_CONFLICT"
type_text QualityIssueType.exception_gap = "EXCEPTION_GAP"
type_text QualityIssueType.boundary_gap = "BOUNDARY_GAP"
type_text QualityIssueType.acceptance_not_executable = "ACCEPTANCE_NOT_EXECUTABLE"
type_text QualityIssueType.assumption_not_labeled = "ASSUMPTION_NOT_LABELED"
type_text QualityIssueType.open_item_unresolved = "OPEN_ITEM_UNRESOLVED"
type_text QualityIssueType.source_link_incomplete = "SOURCE_LINK_INCOMPLETE"

unfoldable pub issue_id : Library → String → QualityIssueType → String → String
issue_id l run_id issue_type key = text_append "quality-issue-" (
    text_take 20 (
      l.hexdigest (
        text_append run_id
          (text_append ":" (text_append (type_text issue_type) (text_append ":" key))))))

-- item.node_id, where it is not empty
abbrev pub node_of : PrdSectionVersion → List String
node_of section = elim section.node_id [
  | none ↦ []
  | some node_id ↦ if is_blank node_id then [] else node_id ∷ []
]

abbrev pub covered_nodes : List PrdSectionVersion → List String
covered_nodes [] = []
covered_nodes (section ∷ sections) = node_of section ++ covered_nodes sections

-- The nodes of the outline that no section is about.
abbrev pub missing_nodes : List OutlineNode → List String → List String
missing_nodes [] covered = []
missing_nodes (node ∷ nodes) covered =
    let rest = missing_nodes nodes covered in
    if any (λ id. id == node.node_id) covered then rest else node.node_id ∷ rest

abbrev pub coverage_issues : Library → String → List String → List QualityIssue
coverage_issues l run_id missing =
    if is_empty missing
    then []
    else record {
      issue_id = issue_id l run_id QualityIssueType.outline_coverage (join "," missing);
      issue_type = QualityIssueType.outline_coverage;
      severity = QualitySeverity.blocker;
      affected_node_ids = missing;
      affected_unit_ids = [];
      affected_section_ids = [];
      description = "已确认大纲存在未完成章节";
      suggested_resolution = "补全受影响确认单元并重新确认";
    }
      ∷ []

-- An error of one section.
abbrev pub section_issue :
    Library → String → PrdSectionVersion → QualityIssueType → String → String → QualityIssue
section_issue l run_id section issue_type description resolution = record {
  issue_id = issue_id l run_id issue_type section.section_id;
  issue_type = issue_type;
  severity = QualitySeverity.error;
  affected_node_ids = node_of section;
  affected_unit_ids = section.unit_id ∷ [];
  affected_section_ids = section.section_id ∷ [];
  description = description;
  suggested_resolution = resolution;
}

-- re.search of alternatives that are plain texts
abbrev pub mentions : List String → String → Bool
mentions words content = any (λ word. is_in word content) words

-- The text has a condition and an expected result.
unfoldable pub is_executable : String → Bool
is_executable content =
    mentions ("当" ∷ "如果" ∷ "输入" ∷ "请求" ∷ []) content
    && mentions ("应" ∷ "返回" ∷ "拒绝" ∷ "成功" ∷ "失败" ∷ "提示" ∷ []) content

abbrev pub section_issues : Library → String → PrdSectionVersion → List QualityIssue
section_issues l run_id section =
    (if is_blank (strip section.content)
      then section_issue l run_id section QualityIssueType.empty_or_duplicate_content "章节内容为空"
          "重新生成并确认该章节"
        ∷ []
      else [])
    ++ (if is_in "验收" section.title && not (is_executable section.content)
        then section_issue l run_id section QualityIssueType.acceptance_not_executable
            "验收标准缺少可执行条件或预期结果" "补充触发条件、动作和可验证结果"
          ∷ []
        else [])

abbrev pub all_section_issues : Library → String → List PrdSectionVersion → List QualityIssue
all_section_issues l run_id [] = []
all_section_issues l run_id (section ∷ sections) =
    section_issues l run_id section ++ all_section_issues l run_id sections

abbrev pub is_blocking : QualityIssue → Bool
is_blocking issue = elim issue.severity [
  | QualitySeverity.blocker ↦ true
  | QualitySeverity.error ↦ true
  | _ ↦ false
]

abbrev pub document_issues :
    Library → String → OutlineVersion → List PrdSectionVersion → List QualityIssue
document_issues l run_id outline sections =
    let current = filter (λ item. is_confirmed_section item.status) sections in
    coverage_issues l run_id (missing_nodes outline.nodes (covered_nodes current))
    ++ all_section_issues l run_id current

unfoldable pub check_document :
    Library → String → String → String → OutlineVersion → List PrdSectionVersion → QualityResult
unfolding issue_id is_executable
check_document l quality_run_id task_id document_id outline sections =
    let issues = document_issues l quality_run_id outline sections in
    record {
      quality_run_id = quality_run_id;
      task_id = task_id;
      scope = QualityScope.document;
      scope_id = document_id;
      confirmable = not (any is_blocking issues);
      issues = issues;
    }
