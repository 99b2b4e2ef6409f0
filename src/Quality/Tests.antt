-- ===== src/Quality/Tests.antt =====
-- The theorem on the check of a document at a concrete input.
use prd_agent.Base.{◌≡◌, refl, true, ◌&&◌, ◌||◌, not, none, some, [], ◌∷◌, any, all}
use prd_agent.Domain.Statuses.{SectionStatus, OutlineStatus, Complexity}
use prd_agent.Domain.Entities.{OutlineNode, OutlineVersion, PrdSectionVersion}
use prd_agent.Workflow.Outside.{Library}
use prd_agent.Workflow.Sections.{is_confirmed_section}
use prd_agent.Base.Texts.{strip, is_in}
use prd_agent.Quality.Service.{check_document}
use prd_agent.Quality.Verdict.{check_document_lem, covers, is_sound}

abbrev library : Library
library = record {
  sha256_json = λ input. "hash";
  hexdigest = λ value. value;
  lower = λ value. value;
}

abbrev node : OutlineNode
node = record {
  node_id = "n";
  sequence = 1;
  title = "验收标准";
  purpose = "";
  complexity = Complexity.low;
  required_information = [];
  parent_id = none;
  level = 1;
  stable_key = some "acceptance";
}

abbrev outline : OutlineVersion
outline = record {
  outline_id = "o";
  task_id = "t";
  version = 1;
  title = "notes";
  status = OutlineStatus.confirmed;
  nodes = node ∷ [];
  confirmation_units = [];
  created_at = 0;
  confirmed_at = none;
}

abbrev section : PrdSectionVersion
section = record {
  section_id = "s";
  unit_id = "u";
  version = 1;
  title = "验收标准";
  content = "当输入为空时应提示";
  created_at = 0;
  node_id = some "n";
  status = SectionStatus.confirmed;
  content_hash = "";
  source_run_id = none;
  grounding_run_id = none;
  quality_run_id = none;
  supersedes_section_id = none;
  confirmed_by = none;
  confirmed_at = none;
}

check_document_lem_example :
    (check_document library "q" "t" "d" outline (section ∷ [])).confirmable
    ≡ all (λ (node : OutlineNode). any (covers node) (section ∷ [])) outline.nodes
      && all
          (λ (s : PrdSectionVersion). not (is_confirmed_section s.status) || is_sound s)
          (section ∷ [])
check_document_lem_example = check_document_lem library "q" "t" "d" outline (section ∷ [])

-- The check passes it.
check_document_passes :
    (check_document library "q" "t" "d" outline (section ∷ [])).confirmable ≡ true
unfolding check_document strip is_in
check_document_passes = refl
