-- ===== src/Workflow/Repository.antt =====
-- InMemoryWorkflowRepository of src/prd_agent/storage/memory.py. A method that raises leaves the
-- repository as it stands then. A copy of an entity is the entity.
use Prim.Native.String.{◌++◌ as text_append}
use prd_agent.Base.{
  text_key, pair_key, ℕ, suc, max, String, Bool, false, ◌&&◌, ◌||◌, not, Option, none, some, List,
  [], ◌∷◌, ◌++◌, any, filter, length, last, take, is_some, ltb, text_le, ◌==◌, if◌then◌else◌,
  Result, ok, err, or_raise,
}
use prd_agent.Base.Dict.{Dict, get, put, values}
use prd_agent.Base.Sort.{sorted}
use prd_agent.Domain.Statuses.{is_active}
use prd_agent.Domain.Errors.{WorkflowError, not_found, active_run_conflict, other}
use prd_agent.Domain.Outcomes.{QualityResult, GroundingResult}
use prd_agent.Domain.Entities.{
  Task, RequirementBriefVersion, OutlineVersion, AgentRun, TaskMessage, PrdSectionVersion,
  PrdDocumentVersion, EventValue, DomainEvent, IdempotencyRecord, WorkflowSnapshot,
}

pub record Checkpoint : Type 0 where
  pub task_id : String
  pub run_id : String
  pub thread_id : String
  pub graph_version : String
  pub task_version : ℕ
  pub current_node : String

pub record Repository : Type 0 where
  pub tasks : Dict String Task
  pub runs : Dict String AgentRun
  pub briefs : Dict String (List RequirementBriefVersion)
  pub outlines : Dict String (List OutlineVersion)
  pub sections : Dict String (List PrdSectionVersion)
  pub documents : Dict String (List PrdDocumentVersion)
  pub messages : Dict String (List TaskMessage)
  pub quality_results : Dict String (List QualityResult)
  pub grounding_results : Dict String (List GroundingResult)
  pub idempotency : Dict (String × String) IdempotencyRecord
  pub events : Dict String (List DomainEvent)
  pub checkpoints : Dict String Checkpoint

unfoldable pub init : Repository
init = record {
  tasks = [];
  runs = [];
  briefs = [];
  outlines = [];
  sections = [];
  documents = [];
  messages = [];
  quality_results = [];
  grounding_results = [];
  idempotency = [];
  events = [];
  checkpoints = [];
}

-- What a method returns or raises, with the repository after it.
abbrev pub Action : Type 0 → Type 0
Action A = Repository → Result WorkflowError A × Repository

-- d.get(k, [])
abbrev pub all_of : {A : Type 0} → String → Dict String (List A) → List A
all_of k d = elim (get k d) [ none ↦ [] | some xs ↦ xs ]

-- d.setdefault(k, []).append(v)
abbrev pub add_to : {A : Type 0} → String → A → Dict String (List A) → Dict String (List A)
add_to k v d = put k (all_of k d ++ v ∷ []) d

-- The first item of the same id is replaced; where there is none, the value is appended.
unfoldable pub upsert : {A : Type 0} → (A → String) → A → List A → List A
upsert id_of v [] = v ∷ []
upsert id_of v (x ∷ xs) = if id_of x == id_of v then v ∷ xs else x ∷ upsert id_of v xs

unfoldable pub get_idempotency : String → String → Repository → Option IdempotencyRecord
get_idempotency actor_id key s = get (actor_id, key) s.idempotency

unfoldable pub save_idempotency : IdempotencyRecord → Repository → Repository
save_idempotency r s = record s {
  idempotency = put (r.actor_id, r.idempotency_key) r s.idempotency;
}

unfoldable pub create_task_bundle :
    Task
    → TaskMessage
    → RequirementBriefVersion
    → AgentRun
    → IdempotencyRecord
    → Repository
    → Repository
unfolding save_idempotency
create_task_bundle task message brief run r s = save_idempotency r (record s {
  tasks = put task.task_id task s.tasks;
  messages = put task.task_id (message ∷ []) s.messages;
  briefs = put task.task_id (brief ∷ []) s.briefs;
  outlines = put task.task_id [] s.outlines;
  sections = put task.task_id [] s.sections;
  documents = put task.task_id [] s.documents;
  events = put task.task_id [] s.events;
  quality_results = put task.task_id [] s.quality_results;
  grounding_results = put task.task_id [] s.grounding_results;
  runs = put run.run_id run s.runs;
})

unfoldable pub get_task : String → Repository → Result WorkflowError Task
get_task task_id s = or_raise (get task_id s.tasks) not_found

-- (updated_at, task_id) < (updated_at, task_id)
abbrev pub is_before : ℕ × String → ℕ × String → Bool
is_before p q = ltb p.0 q.0 || not (ltb q.0 p.0) && not (text_le q.1 p.1)

abbrev pub page_key : Task → ℕ × String
page_key task = (task.updated_at, task.task_id)

unfoldable pub list_tasks : String → Option (ℕ × String) → ℕ → Repository → List Task
list_tasks owner_id before limit s =
    let found : List Task =
      sorted (λ a b. not (is_before (page_key a) (page_key b)))
        (filter (λ task. task.owner_id == owner_id) (values s.tasks)) in
    elim before [
      | none ↦ take limit found
      | some cursor ↦ take limit (filter (λ task. is_before (page_key task) cursor) found)
    ]

unfoldable pub save_task : Task → Repository → Repository
save_task task s = record s { tasks = put task.task_id task s.tasks }

-- Another active run of the same task.
abbrev pub is_rival : AgentRun → AgentRun → Bool
is_rival run item =
    item.task_id == run.task_id && not (item.run_id == run.run_id) && is_active item.status

unfoldable pub save_run : AgentRun → Action Unit
save_run run s =
    if is_active run.status && any (is_rival run) (values s.runs)
    then (err active_run_conflict, s)
    else (ok tt, record s { runs = put run.run_id run s.runs })

-- started_at or ended_at
abbrev pub run_time : AgentRun → Option ℕ
run_time run = elim run.started_at [ none ↦ run.ended_at | some at ↦ some at ]

abbrev pub time_le : Option ℕ → Option ℕ → Bool
time_le (some a) (some b) = not (ltb b a)
time_le _ _ = false

-- The last of the runs sorted by time; a time that is None cannot be compared.
unfoldable pub latest_of : List AgentRun → Result WorkflowError AgentRun
latest_of [] = err not_found
latest_of (run ∷ []) = ok run
latest_of (run ∷ next ∷ runs) =
    if any (λ r. not (is_some (run_time r))) (run ∷ next ∷ runs)
    then err other
    else or_raise (last (sorted (λ a b. time_le (run_time a) (run_time b)) (run ∷ next ∷ runs)))
        not_found

unfoldable pub latest_run : String → Repository → Result WorkflowError AgentRun
latest_run task_id s = latest_of (filter (λ run. run.task_id == task_id) (values s.runs))

unfoldable pub save_brief : RequirementBriefVersion → Repository → Repository
save_brief v s = record s { briefs = add_to v.task_id v s.briefs }

unfoldable pub save_outline : OutlineVersion → Repository → Repository
save_outline v s = record s {
  outlines = put v.task_id (upsert (λ o. o.outline_id) v (all_of v.task_id s.outlines)) s.outlines;
}

unfoldable pub save_section : String → PrdSectionVersion → Repository → Repository
save_section task_id v s = record s { sections = add_to task_id v s.sections }

unfoldable pub save_document : PrdDocumentVersion → Repository → Repository
save_document v s = record s {
  documents =
      put v.task_id (upsert (λ d. d.document_id) v (all_of v.task_id s.documents)) s.documents;
}

unfoldable pub save_message : TaskMessage → Repository → Repository
save_message v s = record s { messages = add_to v.task_id v s.messages }

unfoldable pub save_quality_result : String → QualityResult → Repository → Repository
save_quality_result task_id v s = record s {
  quality_results =
      put task_id (upsert (λ r. r.quality_run_id) v (all_of task_id s.quality_results))
        s.quality_results;
}

unfoldable pub save_grounding_result : String → GroundingResult → Repository → Repository
save_grounding_result task_id v s = record s {
  grounding_results =
      put task_id (upsert (λ r. r.grounding_run_id) v (all_of task_id s.grounding_results))
        s.grounding_results;
}

unfoldable pub save_event : DomainEvent → Repository → Repository
save_event v s = record s { events = add_to v.task_id v s.events }

unfoldable pub append_event :
    String → ℕ → String → String → List (String × EventValue) → Repository → Repository
unfolding save_event
append_event hex now task_id event_type payload s =
    save_event
      (record {
        event_id = text_append "event-" hex;
        task_id = task_id;
        sequence = suc (length (all_of task_id s.events));
        event_type = event_type;
        payload = payload;
        created_at = now;
      })
      s

unfoldable pub save_checkpoint : String → Checkpoint → Repository → Repository
save_checkpoint thread_id v s = record s { checkpoints = put thread_id v s.checkpoints }

unfoldable pub get_checkpoint : String → Repository → Option Checkpoint
get_checkpoint thread_id s = get thread_id s.checkpoints

abbrev pub snapshot_of : String → Task → AgentRun → Repository → WorkflowSnapshot
snapshot_of task_id task run s = record {
  task = task;
  run = run;
  briefs = all_of task_id s.briefs;
  outlines = all_of task_id s.outlines;
  sections = all_of task_id s.sections;
  documents = all_of task_id s.documents;
  messages = all_of task_id s.messages;
  quality_results = all_of task_id s.quality_results;
  grounding_results = all_of task_id s.grounding_results;
}

unfoldable pub snapshot : String → Repository → Result WorkflowError WorkflowSnapshot
unfolding get_task
snapshot task_id s = elim (get_task task_id s) [
  | err e ↦ err e
  | ok task ↦ elim (latest_run task_id s) [
    | err e ↦ err e
    | ok run ↦ ok (snapshot_of task_id task run s)
  ]
]

unfoldable pub snapshot_for_owner :
    String → String → Repository → Result WorkflowError WorkflowSnapshot
unfolding get_task
snapshot_for_owner task_id owner_id s = elim (get_task task_id s) [
  | err e ↦ err e
  | ok task ↦ if task.owner_id == owner_id then snapshot task_id s else err not_found
]

unfoldable pub list_events :
    String → String → ℕ → ℕ → Repository → Result WorkflowError (List DomainEvent)
list_events task_id owner_id after_sequence limit s = elim (snapshot_for_owner task_id owner_id s) [
  | err e ↦ err e
  | ok found ↦
      ok (take limit (filter (λ item. ltb after_sequence item.sequence) (all_of task_id s.events)))
]

unfoldable pub latest_event_sequence : String → String → Repository → Result WorkflowError ℕ
unfolding list_events
latest_event_sequence task_id owner_id s =
    elim (list_events task_id owner_id 0 (max (length (all_of task_id s.events)) 1) s) [
      | err e ↦ err e
      | ok found ↦ ok (elim (last found) [ none ↦ 0 | some event ↦ event.sequence ])
    ]
