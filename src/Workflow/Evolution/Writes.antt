-- ===== src/Workflow/Evolution/Writes.antt =====
-- The writes of the repository, src/prd_agent/storage/memory.py, that change neither a task nor a
-- key, and what holds after an action that may raise.
use prd_agent.Base.{◌≡◌, refl, String, List, [], ◌∷◌, Result, ok, err, ℕ, arith}
use prd_agent.Domain.Errors.{WorkflowError}
use prd_agent.Domain.Entities.{
  Task, AgentRun, OutlineVersion, TaskMessage, RequirementBriefVersion, PrdSectionVersion,
  PrdDocumentVersion, EventValue,
}
use prd_agent.Domain.Outcomes.{QualityResult, GroundingResult}
use prd_agent.Workflow.Repository.{
  Repository, Action, save_run, save_outline, save_message, save_brief, save_section, save_document,
  save_quality_result, save_grounding_result, append_event, save_event, save_checkpoint,
}
use prd_agent.Workflow.Action.{◌>>=◌, after, checked, reading, writing}
use prd_agent.Workflow.Outside.{Outside}
use prd_agent.Workflow.Common.{event, checkpoint, present}
use prd_agent.Workflow.Confirming.{save_sections}
use prd_agent.Workflow.Evolution.{
  Evolves, Evolves-refl, Evolves-trans, Quiet, Quiet-refl, Quiet-trans, Quiet-Evolves,
}

pub save_run-Quiet : (run : AgentRun) (s : Repository) → Quiet s (save_run run s).1
unfolding save_run
save_run-Quiet run s = record { tasks = ground arith; keys = ground arith }

pub save_outline-Quiet : (v : OutlineVersion) (s : Repository) → Quiet s (save_outline v s)
unfolding save_outline
save_outline-Quiet v s = record { tasks = refl; keys = refl }

pub save_message-Quiet : (v : TaskMessage) (s : Repository) → Quiet s (save_message v s)
unfolding save_message
save_message-Quiet v s = record { tasks = refl; keys = refl }

pub save_brief-Quiet : (v : RequirementBriefVersion) (s : Repository) → Quiet s (save_brief v s)
unfolding save_brief
save_brief-Quiet v s = record { tasks = refl; keys = refl }

pub save_document-Quiet : (v : PrdDocumentVersion) (s : Repository) → Quiet s (save_document v s)
unfolding save_document
save_document-Quiet v s = record { tasks = refl; keys = refl }

pub save_quality_result-Quiet :
    (id : String) (v : QualityResult) (s : Repository) → Quiet s (save_quality_result id v s)
unfolding save_quality_result
save_quality_result-Quiet id v s = record { tasks = refl; keys = refl }

pub save_grounding_result-Quiet :
    (id : String) (v : GroundingResult) (s : Repository) → Quiet s (save_grounding_result id v s)
unfolding save_grounding_result
save_grounding_result-Quiet id v s = record { tasks = refl; keys = refl }

pub save_sections-Quiet :
    (id : String) (vs : List PrdSectionVersion) (s : Repository) → Quiet s (save_sections id vs s)
unfolding save_section
save_sections-Quiet id [] s = Quiet-refl s
save_sections-Quiet id (v ∷ vs) s =
    let here : Quiet s (save_section id v s) = record { tasks = refl; keys = refl } in
    Quiet-trans here (save_sections-Quiet id vs (save_section id v s))

pub event-Quiet :
    (o : Outside) (i k : ℕ) (id kind : String) (payload : List (String × EventValue))
    (s : Repository)
    → Quiet s (event o i k id kind payload s)
unfolding event append_event save_event
event-Quiet o i k id kind payload s = record { tasks = refl; keys = refl }

pub checkpoint-Quiet :
    (task : Task) (run : AgentRun) (node : String) (s : Repository)
    → Quiet s (checkpoint task run node s)
unfolding checkpoint save_checkpoint
checkpoint-Quiet task run node s = record { tasks = refl; keys = refl }

-- What holds after an action: the repository has evolved, and a value that it returned satisfies Q.
abbrev pub After :
    {A : Type 0}
    → (A → Repository → Type 0)
    → Repository
    → Result WorkflowError A × Repository
    → Type 0
After Q s (err e, t) = Evolves s t
After Q s (ok a, t) = Evolves s t × Q a t

abbrev pub Any : {A : Type 0} → A → Repository → Type 0
Any a s = Unit

module _ {A B : Type 0} (Q : A → Repository → Type 0) (R : B → Repository → Type 0) where
  pub after-After :
      (f : A → Action B) (s : Repository) (r : Result WorkflowError A × Repository)
      → After Q s r
      → ((a : A) (t : Repository) → Q a t → After R t (f a t))
      → After R s (after f r)
  after-After f s (err e, t) h next = h
  after-After f s (ok a, t) h next = widen s t (f a t) h.0 (next a t h.1)
    where
      widen :
          (s t : Repository) (r : Result WorkflowError B × Repository)
          → Evolves s t
          → After R t r
          → After R s r
      widen s t (err e, u) f g = Evolves-trans f g
      widen s t (ok b, u) f g = (Evolves-trans f g.0, g.1)

  pub bind-After :
      (m : Action A) (f : A → Action B) (s : Repository)
      → After Q s (m s)
      → ((a : A) (t : Repository) → Q a t → After R t (f a t))
      → After R s ((m >>= f) s)
  bind-After m f s h next = after-After f s (m s) h next

-- A test that returns gives what it returned; nothing is written.
pub checked-After :
    {A : Type 0} (r : Result WorkflowError A) (s : Repository)
    → After (λ a t. (r ≡ ok a) × (t ≡ s)) s (checked r s)
checked-After (err e) s = Evolves-refl s
checked-After (ok a) s = (Evolves-refl s, (refl, refl))

of_result :
    {A : Type 0} (r : Result WorkflowError A) (s : Repository) → After (λ _ t. t ≡ s) s (r, s)
of_result (err e) s = Evolves-refl s
of_result (ok a) s = (Evolves-refl s, refl)

pub reading-After :
    {A : Type 0} (f : Repository → Result WorkflowError A) (s : Repository)
    → After (λ _ t. t ≡ s) s (reading f s)
reading-After f s = of_result (f s) s

-- A write that changes neither a task nor a key.
pub writing-After :
    (f : Repository → Repository) (s : Repository)
    → Quiet s (f s)
    → After (λ _ t. Quiet s t) s (writing f s)
writing-After f s q = (Quiet-Evolves q, q)

pub Quiet-After :
    {A : Type 0} (s : Repository) (r : Result WorkflowError A × Repository)
    → Quiet s r.1
    → After (λ _ t. Quiet s t) s r
Quiet-After s (err e, t) q = Quiet-Evolves q
Quiet-After s (ok a, t) q = (Quiet-Evolves q, q)

-- An action that changes neither a task nor a key, whether it returns or raises.
abbrev pub IsQuiet : {A : Type 0} → Action A → Type 0
IsQuiet m = (s : Repository) → Quiet s (m s).1

pub after-Quiet :
    {A B : Type 0} (f : A → Action B) (s : Repository) (r : Result WorkflowError A × Repository)
    → Quiet s r.1
    → ((a : A) → IsQuiet (f a))
    → Quiet s (after f r).1
after-Quiet f s (err e, t) q next = q
after-Quiet f s (ok a, t) q next = Quiet-trans q (next a t)

pub present-Quiet :
    (o : Outside) (task : Task) (run : AgentRun) (i k : ℕ) (kind : String)
    (payload : List (String × EventValue)) (node : String)
    → IsQuiet (present o task run i k kind payload node)
unfolding present
present-Quiet o task run i k kind payload node s =
    after-Quiet _ s (save_run run s) (save_run-Quiet run s) λ _ t.
      Quiet-trans (event-Quiet o i k task.task_id kind payload t)
        (checkpoint-Quiet task run node (event o i k task.task_id kind payload t))

-- An action after which nothing more is asked.
end_of :
    {A : Type 0} (s : Repository) (r : Result WorkflowError A × Repository)
    → Quiet s r.1
    → After Any s r
end_of s (err e, t) q = Quiet-Evolves q
end_of s (ok a, t) q = (Quiet-Evolves q, tt)

pub quiet_end : {A : Type 0} (m : Action A) (s : Repository) → IsQuiet m → After Any s (m s)
quiet_end m s q = end_of s (m s) (q s)

-- A last read, after an evolution.
pub read_end :
    {A : Type 0} (r : Result WorkflowError A) (s t : Repository) → Evolves s t → After Any s (r, t)
read_end (err e) s t f = f
read_end (ok a) s t f = (f, tt)
