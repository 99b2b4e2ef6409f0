-- ===== src/Workflow/Evolution.antt =====
-- What a command may do to the repository of src/prd_agent/storage/memory.py: each task moves as
-- the policy allows, and what a key was used for stays.
pub mod Writes
pub mod Generation
pub mod Confirmations
pub mod Revisions
pub mod Starts
pub mod History
pub mod Shown
pub mod Answers
pub mod Replays
use prd_agent.Base.{
  text_key, pair_key, ℕ, suc, ◌≡◌, refl, sym, ap, ◌∙◌, subst, ◌⊎◌, inl, inr, String, Bool, true,
  false, Option, none, some, List, ◌≤◌, arith, ◌==◌, if◌then◌else◌, Result, ok, err, Bool-cases,
  Option-cases,
}
use prd_agent.Base.Dict.{Dict, get, put, get-put, get-put_self}
use prd_agent.Domain.Statuses.{TaskStatus}
use prd_agent.Domain.Errors.{WorkflowError}
use prd_agent.Domain.Entities.{Task, AgentRun, IdempotencyRecord}
use prd_agent.Policies.Tasks.{is_allowed}
use prd_agent.Workflow.Repository.{Repository, Action, save_task, save_idempotency}
use prd_agent.Workflow.Action.{◌>>=◌, after}

-- One change of a task: its id, owner and creation stay, its version is one more, and its status
-- goes where the policy allows or, on the way from unit to unit, stays GENERATING.
pub record TaskMove (v w : Task) : Type 0 where
  pub same_id : w.task_id ≡ v.task_id
  pub same_owner : w.owner_id ≡ v.owner_id
  pub same_creation : w.created_at ≡ v.created_at
  pub next_version : w.version ≡ suc v.version
  pub allowed :
      (is_allowed v.status w.status ≡ true)
      ⊎ ((v.status ≡ TaskStatus.generating) × (w.status ≡ TaskStatus.generating))

-- Any number of changes.
pub data TaskMoves (v : Task) : Task → Type 0 where
  stays : TaskMoves v v
  moves : (u w : Task) → TaskMoves v u → TaskMove u w → TaskMoves v w

pub TaskMoves-trans : {u v w : Task} → TaskMoves u v → TaskMoves v w → TaskMoves u w
TaskMoves-trans m stays = m
TaskMoves-trans m (moves x y n step) = moves x y (TaskMoves-trans m n) step

pub TaskMoves-version : {v w : Task} → TaskMoves v w → v.version ≤ w.version
TaskMoves-version stays = omega arith
TaskMoves-version (moves u w m step) = omega (arith, TaskMoves-version m, step.next_version)

pub TaskMoves-id : {v w : Task} → TaskMoves v w → w.task_id ≡ v.task_id
TaskMoves-id stays = refl
TaskMoves-id (moves u w m step) = step.same_id ∙ TaskMoves-id m

-- The task of this id has come from the one before by changes that are allowed.
pub record Comes (id : String) (v : Task) (s : Repository) : Type 0 where
  pub now : Task
  pub found : get id s.tasks ≡ some now
  pub moved : TaskMoves v now

-- Each task stands under its id.
abbrev pub IsKeyed : Repository → Type 0
IsKeyed s = (id : String) (v : Task) → get id s.tasks ≡ some v → v.task_id ≡ id

pub record Evolves (s t : Repository) : Type 0 where
  pub tasks : (id : String) (v : Task) → get id s.tasks ≡ some v → Comes id v t
  pub keys :
      (key : String × String) (r : IdempotencyRecord)
      → get key s.idempotency ≡ some r
      → get key t.idempotency ≡ some r
  pub keyed : IsKeyed s → IsKeyed t

pub Evolves-refl : (s : Repository) → Evolves s s
Evolves-refl s = record {
  tasks = λ id v e. record { now = v; found = e; moved = stays };
  keys = λ key r e. e;
  keyed = λ h. h;
}

pub Evolves-trans : {s t u : Repository} → Evolves s t → Evolves t u → Evolves s u
Evolves-trans f g = record {
  tasks = λ id v e.
      let c = f.tasks id v e in
      let d = g.tasks id c.now c.found in
      record { now = d.now; found = d.found; moved = TaskMoves-trans c.moved d.moved };
  keys = λ key r e. g.keys key r (f.keys key r e);
  keyed = λ h. g.keyed (f.keyed h);
}

-- The two fields that the relation reads are as before.
pub record Quiet (s t : Repository) : Type 0 where
  pub tasks : t.tasks ≡ s.tasks
  pub keys : t.idempotency ≡ s.idempotency

pub Quiet-refl : (s : Repository) → Quiet s s
Quiet-refl s = record { tasks = refl; keys = refl }

pub Quiet-trans : {s t u : Repository} → Quiet s t → Quiet t u → Quiet s u
Quiet-trans f g = record { tasks = g.tasks ∙ f.tasks; keys = g.keys ∙ f.keys }

pub Quiet-Evolves : {s t : Repository} → Quiet s t → Evolves s t
Quiet-Evolves q = record {
  tasks = λ id v e. record { now = v; found = ap (get id) q.tasks ∙ e; moved = stays };
  keys = λ key r e. ap (get key) q.keys ∙ e;
  keyed = λ h id v e. h id v (sym (ap (get id) q.tasks) ∙ e);
}

-- The task stands in the repository as it is written here, but for changes that are allowed.
abbrev pub IsReady : Task → Repository → Type 0
IsReady v s = (stored : Task) × (get v.task_id s.tasks ≡ some stored) × TaskMoves stored v

pub IsReady-Quiet : (v : Task) {s t : Repository} → Quiet s t → IsReady v s → IsReady v t
IsReady-Quiet v q (stored, found, m) = (stored, ap (get v.task_id) q.tasks ∙ found, m)

save_task-key :
    (v : Task) (s : Repository) (id : String) (w : Task)
    → (get id s.tasks ≡ some w → w.task_id ≡ id)
    → get id (put v.task_id v s.tasks) ≡ some w
    → w.task_id ≡ id
save_task-key v s id w before e = elim (Bool-cases (v.task_id == id)) [
  | inl same ↦ ground (arith, get-put v.task_id id v s.tasks, e, text_key.same_iff v.task_id id)
  | inr apart ↦ before (ground (arith, get-put v.task_id id v s.tasks, e))
]

pub save_task-Evolves : (v : Task) (s : Repository) → IsReady v s → Evolves s (save_task v s)
unfolding save_task
save_task-Evolves v s (stored, found, m) = record {
  tasks = λ id w e. elim (Bool-cases (v.task_id == id)) [
    | inl same ↦
        let here : v.task_id ≡ id = (text_key.same_iff v.task_id id).0 same in
        let old : w ≡ stored = ground (arith, e, found, here) in
        record {
          now = v;
          found = ground (arith, get-put v.task_id id v s.tasks);
          moved = subst (λ x. TaskMoves x v) (sym old) m;
        }
    | inr apart ↦ record {
      now = w;
      found = ground (arith, get-put v.task_id id v s.tasks, e);
      moved = stays;
    }
  ];
  keys = λ key r e. e;
  keyed = λ h id w e. save_task-key v s id w (h id w) e;
}

pub save_task-IsReady : (v : Task) (s : Repository) → IsReady v (save_task v s)
unfolding save_task
save_task-IsReady v s = (v, get-put_self v.task_id v s.tasks, stays)

pub save_idempotency-Evolves :
    (r : IdempotencyRecord) (s : Repository)
    → get (r.actor_id, r.idempotency_key) s.idempotency ≡ none
    → Evolves s (save_idempotency r s)
unfolding save_idempotency
save_idempotency-Evolves r s fresh = record {
  tasks = λ id v e. record { now = v; found = e; moved = stays };
  keys = λ key q e.
      let k : String × String = (r.actor_id, r.idempotency_key) in
      elim (Bool-cases (k == key)) [
        | inl same ↦ absurd (
            ground (
              arith,
              e,
              sym fresh ∙ ap (λ j. get j s.idempotency) ((pair_key.same_iff k key).0 same),
            ))
        | inr apart ↦ ground (arith, get-put k key r s.idempotency, e)
      ];
  keyed = λ h. h;
}

-- The key was used for an input of this hash, and for this task.
abbrev pub IsRecorded : String → String → String → String → Repository → Type 0
IsRecorded actor_id key input_hash task_id s =
    (r : IdempotencyRecord) × (get (actor_id, key) s.idempotency ≡ some r)
    × (r.input_hash ≡ input_hash)
    × (r.task_id ≡ task_id)

pub IsRecorded-Evolves :
    (actor_id key input_hash task_id : String) (s t : Repository)
    → Evolves s t
    → IsRecorded actor_id key input_hash task_id s
    → IsRecorded actor_id key input_hash task_id t
IsRecorded-Evolves actor_id key input_hash task_id s t f (r, found, same, own) =
    (r, f.keys (actor_id, key) r found, same, own)

pub save_idempotency-IsRecorded :
    (r : IdempotencyRecord) (s : Repository)
    → IsRecorded r.actor_id r.idempotency_key r.input_hash r.task_id (save_idempotency r s)
unfolding save_idempotency
save_idempotency-IsRecorded r s =
    (r, get-put_self (r.actor_id, r.idempotency_key) r s.idempotency, refl, refl)

pub save_idempotency-IsReady :
    (r : IdempotencyRecord) (v : Task) (s : Repository)
    → IsReady v s
    → IsReady v (save_idempotency r s)
unfolding save_idempotency
save_idempotency-IsReady r v s ready = ready

pub save_task-keys : (v : Task) (s : Repository) → (save_task v s).idempotency ≡ s.idempotency
unfolding save_task
save_task-keys v s = refl

-- The task is stored, and is the actor's.
abbrev pub IsOwned : String → String → Repository → Type 0
IsOwned task_id actor_id s = (v : Task) × (get task_id s.tasks ≡ some v) × (v.owner_id ≡ actor_id)

pub TaskMoves-owner : {v w : Task} → TaskMoves v w → w.owner_id ≡ v.owner_id
TaskMoves-owner stays = refl
TaskMoves-owner (moves u w m step) = step.same_owner ∙ TaskMoves-owner m

pub IsOwned-Evolves :
    (task_id actor_id : String) (s t : Repository)
    → Evolves s t
    → IsOwned task_id actor_id s
    → IsOwned task_id actor_id t
IsOwned-Evolves task_id actor_id s t f (v, found, own) =
    let c = f.tasks task_id v found in (c.now, c.found, TaskMoves-owner c.moved ∙ own)

-- The key was used for an input of this hash and for this task, which is the actor's.
abbrev pub IsMade : String → String → String → String → Repository → Type 0
IsMade actor_id key input_hash task_id s =
    IsRecorded actor_id key input_hash task_id s × IsOwned task_id actor_id s

pub IsReady-IsOwned :
    (v : Task) (actor_id : String) (s : Repository)
    → v.owner_id ≡ actor_id
    → IsReady v s
    → IsOwned v.task_id actor_id s
IsReady-IsOwned v actor_id s own (stored, found, m) = (stored, found, sym (TaskMoves-owner m) ∙ own)
