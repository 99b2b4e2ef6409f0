-- ===== src/Workflow/Evolution/Replays.antt =====
-- Replays of the commands of WorkflowService, src/prd_agent/workflow/service.py, and histories.
use prd_agent.Base.{
  ◌≡◌, refl, sym, ap, ◌∙◌, subst, String, true, false, none, some, List, [], ◌∷◌, Result, ok, err,
  inl, inr, ◌⊎◌, Bool-cases, Option-cases, Result-cases, arith, text_key, pair_key, ◌==◌,
}
use prd_agent.Base.Dict.{get}
use prd_agent.Domain.Errors.{WorkflowError, invalid_command, idempotency_conflict}
use prd_agent.Domain.Entities.{IdempotencyRecord, WorkflowSnapshot, Task}
use prd_agent.Workflow.Repository.{
  Repository, Action, get_idempotency, get_task, latest_run, snapshot, snapshot_for_owner,
  snapshot_of,
}
use prd_agent.Workflow.Outside.{Outside, Library}
use prd_agent.Workflow.Common.{once, owned_snapshot}
use prd_agent.Workflow.Step.{Command, run_command, history}
use prd_agent.Workflow.Evolution.{
  Evolves, Evolves-refl, Evolves-trans, IsKeyed, IsMade, TaskMoves, TaskMoves-owner,
}
use prd_agent.Workflow.Evolution.Writes.{After}
use prd_agent.Workflow.Evolution.Shown.{Shows}
use prd_agent.Workflow.Evolution.Confirmations.{owned_snapshot-stored, owned_snapshot-IsOwned}
use prd_agent.Workflow.Evolution.History.{
  actor_of, key_of, hash_of, is_valid, act_of, IsNewTask, run_command-once, act_of-After,
  act_of-Shows, task_of,
}

-- What `once` does under a key that is new, that was used for this input, and for another one.
module _ (actor_id key hash : String) (act : Action WorkflowSnapshot) (s : Repository) where
  once-new : get (actor_id, key) s.idempotency ≡ none → once actor_id key hash act s ≡ act s
  unfolding once get_idempotency
  once-new fresh = rw (once, fresh) refl

  once-same :
      (r : IdempotencyRecord)
      → get (actor_id, key) s.idempotency ≡ some r
      → r.input_hash ≡ hash
      → once actor_id key hash act s ≡ (owned_snapshot r.task_id actor_id s, s)
  unfolding once get_idempotency
  once-same r used same = rw (once, used, (text_key.same_iff r.input_hash hash).1 same) refl

  once-other :
      (r : IdempotencyRecord)
      → get (actor_id, key) s.idempotency ≡ some r
      → (r.input_hash == hash) ≡ false
      → once actor_id key hash act s ≡ (err idempotency_conflict, s)
  unfolding once get_idempotency
  once-other r used other = rw (once, used, other) refl

-- The key was used for this input, and for the task that is shown, which is the actor's.
abbrev pub IsAnswered : String → String → String → WorkflowSnapshot → Repository → Type 0
IsAnswered actor_id key hash shown s =
    (r : IdempotencyRecord) × (get (actor_id, key) s.idempotency ≡ some r)
    × (r.input_hash ≡ hash)
    × (get r.task_id s.tasks ≡ some shown.task)
    × (shown.task.owner_id ≡ actor_id)

-- What a command that was made and shows its task has answered.
made-IsAnswered :
    (actor_id key hash id : String) (s : Repository)
    (r : Result WorkflowError WorkflowSnapshot × Repository)
    → After (λ _ t. IsMade actor_id key hash id t) s r
    → Shows id r
    → After (IsAnswered actor_id key hash) s r
made-IsAnswered actor_id key hash id s (err e, t) f shows = f
made-IsAnswered actor_id key hash id s (ok shown, t) (f, (recorded, owned)) shows =
    let (r, used, same, named) = recorded in
    let (v, stored, own) = owned in
    let one : v ≡ shown.task = cc (stored, shows) in
    (
      f,
      (
        r,
        used,
        same,
        ap (λ i. get i t.tasks) named ∙ shows,
        sym (ap (λ (w : Task). w.owner_id) one) ∙ own,
      ),
    )

-- A snapshot for its owner: of the task that is stored, unless the latest run cannot be read.
owned_snapshot-cases :
    (id actor_id : String) (v : Task) (s : Repository)
    → get id s.tasks ≡ some v
    → v.owner_id ≡ actor_id
    → ((shown : WorkflowSnapshot) × (owned_snapshot id actor_id s ≡ ok shown) × (shown.task ≡ v))
      ⊎ ((e : WorkflowError) × (latest_run id s ≡ err e) × (owned_snapshot id actor_id s ≡ err e))
unfolding owned_snapshot snapshot_for_owner snapshot get_task
owned_snapshot-cases id actor_id v s stored own =
    let own_test : (v.owner_id == actor_id) ≡ true =
      (text_key.same_iff v.owner_id actor_id).1 own in
    elim (Result-cases (latest_run id s)) [
      | inl (e, failed) ↦ inr (e, failed, ground arith)
      | inr (run, ran) ↦ inl (snapshot_of id v run s, ground arith, refl)
    ]

owned_snapshot-owner :
    (id actor_id : String) (s : Repository) (shown : WorkflowSnapshot)
    → owned_snapshot id actor_id s ≡ ok shown
    → shown.task.owner_id ≡ actor_id
owned_snapshot-owner id actor_id s shown h =
    let (v, stored, own) = owned_snapshot-IsOwned id actor_id s shown h in
    let one : v ≡ shown.task = cc (stored, owned_snapshot-stored id actor_id s shown h) in
    sym (ap (λ (w : Task). w.owner_id) one) ∙ own

shown-After :
    (actor_id key hash : String) (s : Repository) (r : IdempotencyRecord)
    (result : Result WorkflowError WorkflowSnapshot)
    → get (actor_id, key) s.idempotency ≡ some r
    → r.input_hash ≡ hash
    → owned_snapshot r.task_id actor_id s ≡ result
    → After (IsAnswered actor_id key hash) s (result, s)
shown-After actor_id key hash s r (err e) used same h = Evolves-refl s
shown-After actor_id key hash s r (ok shown) used same h = (
  Evolves-refl s,
  (
    r,
    used,
    same,
    owned_snapshot-stored r.task_id actor_id s shown h,
    owned_snapshot-owner r.task_id actor_id s shown h,
  ),
)

once-After :
    (actor_id key hash : String) (act : Action WorkflowSnapshot) (s : Repository)
    → (get (actor_id, key) s.idempotency ≡ none → After (IsAnswered actor_id key hash) s (act s))
    → After (IsAnswered actor_id key hash) s (once actor_id key hash act s)
once-After actor_id key hash act s new =
    let Q : Result WorkflowError WorkflowSnapshot × Repository → Type 0 =
      λ r. After (IsAnswered actor_id key hash) s r in
    elim (Option-cases (get (actor_id, key) s.idempotency)) [
      | inl fresh ↦ subst Q (sym (once-new actor_id key hash act s fresh)) (new fresh)
      | inr (r, used) ↦ elim (Bool-cases (r.input_hash == hash)) [
        | inl equal ↦
            let same = (text_key.same_iff r.input_hash hash).0 equal in
            subst Q (sym (once-same actor_id key hash act s r used same)) (
              shown-After actor_id key hash s r (owned_snapshot r.task_id actor_id s) used same
                refl)
        | inr other ↦
            subst Q (sym (once-other actor_id key hash act s r used other)) (Evolves-refl s)
      ]
    ]

pub run_command-After :
    (l : Library) (o : Outside) (c : Command) (s : Repository)
    → IsKeyed s
    → IsNewTask o c s
    → After (IsAnswered (actor_of c) (key_of c) (hash_of l c)) s (run_command l o c s)
run_command-After l o c s keyed new = elim (Bool-cases (is_valid c)) [
  | inl valid ↦
      rw (run_command-once l o c s, valid)
        (once-After (actor_of c) (key_of c) (hash_of l c) (act_of l o c) s λ fresh.
          made-IsAnswered (actor_of c) (key_of c) (hash_of l c) (task_of o c) s (act_of l o c s)
            (act_of-After l o c s keyed new fresh) (act_of-Shows l o c s keyed))
  | inr invalid ↦ rw (run_command-once l o c s, invalid) (Evolves-refl s)
]

After-Evolves :
    {A : Type 0} (Q : A → Repository → Type 0) (s : Repository)
    (r : Result WorkflowError A × Repository)
    → After Q s r
    → Evolves s r.1
After-Evolves Q s (err e, t) f = f
After-Evolves Q s (ok a, t) f = f.0

-- Each id that a history gives to a new task is new.
abbrev pub AreNewTasks : Library → List (Outside × Command) → Repository → Type 0
AreNewTasks l [] s = Unit
AreNewTasks l ((o, c) ∷ commands) s =
    IsNewTask o c s × AreNewTasks l commands (run_command l o c s).1

-- In any history of commands, whether each returns or raises, in which each new task has a new
-- id, from a repository where each task stands under its id: every task that is stored stays
-- stored, and comes to what it then is by changes that each keep its id, owner and creation time,
-- count its version up by one, and change its status as the policy allows or leave it GENERATING;
-- what a key was used for stays; and each task still stands under its id.
pub history-Evolves :
    (l : Library) (commands : List (Outside × Command)) (s : Repository)
    → IsKeyed s
    → AreNewTasks l commands s
    → Evolves s (history l commands s)
unfolding history
history-Evolves l [] s keyed new = Evolves-refl s
history-Evolves l ((o, c) ∷ commands) s keyed new =
    let f = After-Evolves _ s (run_command l o c s) (run_command-After l o c s keyed new.0) in
    Evolves-trans f (history-Evolves l commands (run_command l o c s).1 (f.keyed keyed) new.1)

-- A replay of a command that showed this task writes nothing, and shows what has become of that
-- very task; it raises only what reading the task's latest run raises.
abbrev pub IsReplay : Library → Outside → Command → Task → Repository → Type 0
IsReplay l o c task s =
    ((later : WorkflowSnapshot) × (run_command l o c s ≡ (ok later, s)) × TaskMoves task later.task)
    ⊎ ((e : WorkflowError) × (latest_run task.task_id s ≡ err e)
        × (run_command l o c s ≡ (err e, s)))

-- A command is refused as a conflict or as it is, and writes nothing.
abbrev pub IsRefused : Library → Outside → Command → Repository → Type 0
IsRefused l o d s =
    (run_command l o d s ≡ (err idempotency_conflict, s))
    ⊎ (run_command l o d s ≡ (err invalid_command, s))

answered-IsReplay :
    (l : Library) (o : Outside) (c : Command) (shown : WorkflowSnapshot) (t s : Repository)
    → is_valid c ≡ true
    → IsKeyed t
    → Evolves t s
    → IsAnswered (actor_of c) (key_of c) (hash_of l c) shown t
    → IsReplay l o c shown.task s
answered-IsReplay l o c shown t s valid keyed f (r, used, same, stored, own) =
    let comes = f.tasks r.task_id shown.task stored in
    let id : shown.task.task_id ≡ r.task_id = keyed r.task_id shown.task stored in
    let replays : run_command l o c s ≡ (owned_snapshot r.task_id (actor_of c) s, s) =
      run_command-once l o c s
      ∙ rw valid (
          once-same (actor_of c) (key_of c) (hash_of l c) (act_of l o c) s r
            (f.keys (actor_of c, key_of c) r used) same) in
    elim (owned_snapshot-cases r.task_id (actor_of c) comes.now s comes.found
      (TaskMoves-owner comes.moved ∙ own)) [
        | inl (later, read, now) ↦ inl (
          later,
          replays ∙ ap (λ x. (x, s)) read,
          subst (TaskMoves shown.task) (sym now) comes.moved,
        )
        | inr (e, failed, raised) ↦
            inr (e, ap (λ i. latest_run i s) id ∙ failed, replays ∙ ap (λ x. (x, s)) raised)
      ]

recorded-IsRefused :
    (l : Library) (o : Outside) (c d : Command) (s : Repository)
    → ((r : IdempotencyRecord) × (get (actor_of c, key_of c) s.idempotency ≡ some r)
        × (r.input_hash ≡ hash_of l c))
    → actor_of d ≡ actor_of c
    → key_of d ≡ key_of c
    → (hash_of l d == hash_of l c) ≡ false
    → IsRefused l o d s
recorded-IsRefused l o c d s (r, used, same) actor key apart =
    let used₁ : get (actor_of d, key_of d) s.idempotency ≡ some r =
      ap (λ a. get (a, key_of d) s.idempotency) actor
      ∙ ap (λ k. get (actor_of c, k) s.idempotency) key
      ∙ used in
    let other : (r.input_hash == hash_of l d) ≡ false = ground (
      arith,
      same,
      apart,
      text_key.same_iff r.input_hash (hash_of l d),
      text_key.same_iff (hash_of l d) (hash_of l c),
    ) in
    elim (Bool-cases (is_valid d)) [
      | inl valid ↦ inl (
          run_command-once l o d s
          ∙ rw valid
              (once-other (actor_of d) (key_of d) (hash_of l d) (act_of l o d) s r used₁ other))
      | inr invalid ↦ inr (run_command-once l o d s ∙ rw invalid refl)
    ]

returned-IsAnswered :
    (l : Library) (o : Outside) (c : Command) (s t : Repository) (shown : WorkflowSnapshot)
    → IsKeyed s
    → IsNewTask o c s
    → run_command l o c s ≡ (ok shown, t)
    → Evolves s t × IsAnswered (actor_of c) (key_of c) (hash_of l c) shown t
returned-IsAnswered l o c s t shown keyed new h =
    subst (λ r. After (IsAnswered (actor_of c) (key_of c) (hash_of l c)) s r) h
      (run_command-After l o c s keyed new)

returned-is_valid :
    (l : Library) (o : Outside) (c : Command) (s t : Repository) (shown : WorkflowSnapshot)
    → run_command l o c s ≡ (ok shown, t)
    → is_valid c ≡ true
returned-is_valid l o c s t shown h = elim (Bool-cases (is_valid c)) [
  | inl valid ↦ valid
  | inr invalid ↦
      let refused : (ok shown, t) ≡ (err invalid_command, s) =
        sym h ∙ run_command-once l o c s ∙ rw invalid refl in
      absurd (ground (arith, ap (λ p. p.0) refused))
]

-- When a command has returned what it shows, then after any further history in which each new task
-- has a new id, the same command, whatever the model and the services would answer, is a replay: it
-- writes nothing, and it shows the very task that was shown, as that has become by changes that
-- each keep its id, owner and creation time, count its version up by one, and change its status as
-- the policy allows or leave it GENERATING, or raises what reading the latest run of that task
-- raises. A command of the same actor and key with another input hash is refused and writes
-- nothing. That holds from a repository where each task stands under its id, if the first command,
-- where it makes a task, gives it a new id.
pub run_command_once :
    (l : Library) (o o₁ : Outside) (c d : Command) (s t : Repository) (shown : WorkflowSnapshot)
    (commands : List (Outside × Command))
    → IsKeyed s
    → IsNewTask o c s
    → run_command l o c s ≡ (ok shown, t)
    → AreNewTasks l commands t
    → actor_of d ≡ actor_of c
    → key_of d ≡ key_of c
    → (hash_of l d == hash_of l c) ≡ false
    → IsReplay l o₁ c shown.task (history l commands t) × IsRefused l o₁ d (history l commands t)
run_command_once l o o₁ c d s t shown commands keyed new h news actor key apart =
    let (f, answered) = returned-IsAnswered l o c s t shown keyed new h in
    let u : Repository = history l commands t in
    let g = history-Evolves l commands t (f.keyed keyed) news in
    let (r, used, same, stored, own) = answered in
    (
      answered-IsReplay l o₁ c shown t u (returned-is_valid l o c s t shown h) (f.keyed keyed) g
          answered,
      recorded-IsRefused l o₁ c d u (r, g.keys (actor_of c, key_of c) r used, same) actor key apart,
    )
