-- ===== src/Workflow/Evolution/Starts.antt =====
-- What `start_task` and `reply_to_task` of src/prd_agent/workflow/service.py do to the tasks and
-- the keys.
use prd_agent.Base.{
  ◌≡◌, refl, sym, ap, ◌∙◌, String, true, Option, none, some, [], ◌∷◌, ok, inl, inr, suc, length,
  Bool-cases, Option-cases, Result-cases, arith, text_key, pair_key, ◌==◌,
}
use prd_agent.Base.Dict.{get, get-put, get-put_self}
use prd_agent.Base.Texts.{strip}
use prd_agent.Domain.Statuses.{TaskStatus, RunStatus, OutlineStatus, is_outline_review}
use prd_agent.Domain.Errors.{WorkflowError}
use prd_agent.Domain.Entities.{
  OutlineVersion, Task, TaskMessage, AgentRun, RequirementBrief, RequirementBriefVersion,
  WorkflowSnapshot, IdempotencyRecord, text, needs_clarification, current_outline,
}
use prd_agent.Domain.Commands.{StartTask, ReplyToTask}
use prd_agent.Workflow.Repository.{
  Repository, save_run, save_outline, save_message, save_brief, save_idempotency, snapshot,
  create_task_bundle, get_task,
}
use prd_agent.Workflow.Action.{◌>>◌, after, writing}
use prd_agent.Workflow.Outside.{Outside, Library, new_id}
use prd_agent.Workflow.Common.{
  advance, owned_task, brief_in, new_run, new_record, new_message, succeeded_run,
}
use prd_agent.Workflow.Generating.{is_model_error}
use prd_agent.Workflow.Starting.{
  new_task, brief_version, start_failed, start_with, start_new, ask_user, continue_with,
  reply_guard, supersede, reply_new, back_to_clarifying,
}
use prd_agent.Workflow.Evolution.{
  stays, Evolves, Evolves-refl, Evolves-trans, Quiet, Quiet-refl, Quiet-trans, Quiet-Evolves,
  IsReady, IsReady-Quiet, IsReady-IsOwned, IsKeyed, IsRecorded, IsRecorded-Evolves, IsOwned-Evolves,
  IsMade, save_task-Evolves, save_task-IsReady, save_task-keys, save_idempotency-Evolves,
  save_idempotency-IsRecorded, save_idempotency-IsReady,
}
use prd_agent.Workflow.Evolution.Writes.{
  After, Any, IsQuiet, after-After, Quiet-After, quiet_end, present-Quiet, save_run-Quiet,
  save_outline-Quiet, save_message-Quiet, save_brief-Quiet, event-Quiet, checkpoint-Quiet,
}
use prd_agent.Workflow.Evolution.Generation.{
  After-trans, advance-IsReady, advance-TaskMove, generate_outline-After,
}
use prd_agent.Workflow.Evolution.Confirmations.{
  stored-IsReady, After-IsRecorded, After-IsMade, After-renamed,
}

-- A bundle of a new task under a new key.
create_task_bundle-Evolves :
    (task : Task) (message : TaskMessage) (brief : RequirementBriefVersion) (run : AgentRun)
    (made : IdempotencyRecord) (s : Repository)
    → get task.task_id s.tasks ≡ none
    → get (made.actor_id, made.idempotency_key) s.idempotency ≡ none
    → let t = create_task_bundle task message brief run made s in
      Evolves s t
      × IsReady task t
      × IsRecorded made.actor_id made.idempotency_key made.input_hash made.task_id t
unfolding create_task_bundle save_idempotency
create_task_bundle-Evolves task message brief run made s absent fresh =
    let key : String × String = (made.actor_id, made.idempotency_key) in
    (
      record {
        tasks = λ id v e. record {
          now = v;
          found = ground (
            arith,
            get-put task.task_id id task s.tasks,
            e,
            absent,
            text_key.same_iff task.task_id id,
          );
          moved = stays;
        };
        keys = λ k r e. elim (Bool-cases (key == k)) [
          | inl same ↦ absurd (
              ground (
                arith,
                e,
                sym fresh ∙ ap (λ j. get j s.idempotency) ((pair_key.same_iff key k).0 same),
              ))
          | inr apart ↦ ground (arith, get-put key k made s.idempotency, e)
        ];
        keyed = λ h id v e. elim (Bool-cases (task.task_id == id)) [
          | inl same ↦
              ground
                (arith, get-put task.task_id id task s.tasks, e, text_key.same_iff task.task_id id)
          | inr apart ↦ h id v (ground (arith, get-put task.task_id id task s.tasks, e))
        ];
      },
      ((task, get-put_self task.task_id task s.tasks, stays)),
      (made, get-put_self key made s.idempotency, refl, refl),
    )

ask_user-Quiet :
    (o : Outside) (task : Task) (run : AgentRun) (brief : RequirementBrief)
    → IsQuiet (ask_user o task run brief)
unfolding ask_user
ask_user-Quiet o task run brief s =
    present-Quiet o task (record run { status = RunStatus.waiting_user }) 1 6 _ _ _ s

continue_with-After :
    (o : Outside) (task : Task) (run : AgentRun) (brief : RequirementBrief) (s : Repository)
    → IsReady task s
    → After Any s (continue_with o task run brief s)
unfolding continue_with
continue_with-After o task run brief s ready = elim (Bool-cases (needs_clarification brief)) [
  | inl asks ↦ rw asks (quiet_end (ask_user o task run brief) s (ask_user-Quiet o task run brief))
  | inr clear ↦ rw clear (generate_outline-After o task run brief s ready)
]

start_failed-After :
    (l : Library) (o : Outside) (c : StartTask) (hash : String) (e : WorkflowError) (s : Repository)
    → get (new_id o "task" 0) s.tasks ≡ none
    → get (c.actor_id, c.idempotency_key) s.idempotency ≡ none
    → After
        (λ _ t. IsMade c.actor_id c.idempotency_key hash (new_id o "task" 0) t)
        s
        (start_failed l o c hash e s)
unfolding start_failed
start_failed-After l o c hash e s absent fresh =
    Evolves-trans (create_task_bundle-Evolves _ _ _ _ _ s absent fresh).0
      (Quiet-Evolves (Quiet-trans (event-Quiet o 0 5 _ _ _ _) (checkpoint-Quiet _ _ _ _)))

start_with-After :
    (o : Outside) (c : StartTask) (hash : String) (brief : RequirementBrief) (s : Repository)
    → get (new_id o "task" 0) s.tasks ≡ none
    → get (c.actor_id, c.idempotency_key) s.idempotency ≡ none
    → After
        (λ _ t. IsMade c.actor_id c.idempotency_key hash (new_id o "task" 0) t)
        s
        (start_with o c hash brief s)
unfolding start_with
start_with-After o c hash brief s absent fresh =
    let made : Task = new_task o brief.problem c.actor_id in
    let task : Task = record made {
      status = TaskStatus.clarifying;
      version = 2;
      updated_at = o.now 0;
    } in
    let run : AgentRun =
      new_run o task.task_id (new_id o "thread" 0) RunStatus.running hash c.idempotency_key 0 in
    let message = new_message o task.task_id c.actor_id (strip c.message) 2 in
    let version = brief_version o task.task_id 1 brief true in
    let used = new_record o c.actor_id c.idempotency_key hash task.task_id run.run_id 4 in
    let (f, ready, recorded) =
      create_task_bundle-Evolves task message version run used s absent fresh in
    let t : Repository = create_task_bundle task message version run used s in
    let q = event-Quiet o 0 5 task.task_id "TaskStarted" (("run_id", text run.run_id) ∷ []) t in
    let g = Quiet-Evolves q in
    After-trans (λ _ t. IsMade c.actor_id c.idempotency_key hash (new_id o "task" 0) t) s _ _
      (Evolves-trans f g)
      (After-IsMade c.actor_id c.idempotency_key hash task.task_id (new_id o "task" 0) _ _ refl
        (IsOwned-Evolves task.task_id c.actor_id t _ g
          (IsReady-IsOwned task c.actor_id t refl ready))
        (After-IsRecorded c.actor_id c.idempotency_key hash task.task_id _ _
          (IsRecorded-Evolves c.actor_id c.idempotency_key hash task.task_id _ _ g recorded)
          (continue_with-After o task run brief _ (IsReady-Quiet task q ready))))

pub start_new-After :
    (l : Library) (o : Outside) (c : StartTask) (hash : String) (s : Repository)
    → get (new_id o "task" 0) s.tasks ≡ none
    → get (c.actor_id, c.idempotency_key) s.idempotency ≡ none
    → After
        (λ _ t. IsMade c.actor_id c.idempotency_key hash (new_id o "task" 0) t)
        s
        (start_new l o c hash s)
unfolding start_new
start_new-After l o c hash s absent fresh =
    elim (Result-cases (o.requirement_brief (strip c.message) none)) [
      | inl (e, failed) ↦ elim (Bool-cases (is_model_error e)) [
        | inl model ↦ rw (start_new, failed, model) (start_failed-After l o c hash e s absent fresh)
        | inr outside ↦ rw (start_new, failed, outside) (Evolves-refl s)
      ]
      | inr (brief, given) ↦ rw (start_new, given) (start_with-After o c hash brief s absent fresh)
    ]

pub reply_guard-stored :
    (c : ReplyToTask) (s : Repository) (found : Task × WorkflowSnapshot)
    → reply_guard c s ≡ ok found
    → (get c.task_id s.tasks ≡ some found.0) × (found.0.owner_id ≡ c.actor_id)
unfolding reply_guard owned_task get_task
reply_guard-stored c s found h = elim (Option-cases (get c.task_id s.tasks)) [
  | inl absent ↦ absurd (ground arith)
  | inr (task, stored) ↦
      let own : task.owner_id ≡ c.actor_id =
        (text_key.same_iff task.owner_id c.actor_id).0 (ground arith) in
      elim (Result-cases (snapshot task.task_id s)) [
        | inl (e, failed) ↦ absurd (ground arith)
        | inr (previous, read) ↦
            let same : task ≡ found.0 = ground arith in
            (stored ∙ ap some same, sym (ap (λ (t : Task). t.owner_id) same) ∙ own)
      ]
]

-- The task is as it stands, of this id, and the key is still free.
abbrev Resumed : String → String → String → Task → Repository → Type 0
Resumed actor_id key task_id task t =
    IsReady task t × (get (actor_id, key) t.idempotency ≡ none) × (task.task_id ≡ task_id)

abbrev save_current : Option OutlineVersion → Repository → Repository
save_current outline = elim outline [
  | none ↦ λ s. s
  | some old ↦ save_outline (record old { status = OutlineStatus.superseded })
]

save_current-Quiet :
    (outline : Option OutlineVersion) (s : Repository) → Quiet s (save_current outline s)
save_current-Quiet none s = Quiet-refl s
save_current-Quiet (some old) s = save_outline-Quiet _ s

supersede-After :
    (o : Outside) (c : ReplyToTask) (task : Task) (previous : WorkflowSnapshot) (s : Repository)
    → get (c.actor_id, c.idempotency_key) s.idempotency ≡ none
    → IsReady task s
    → After (Resumed c.actor_id c.idempotency_key task.task_id) s (supersede o c task previous s)
unfolding supersede
supersede-After o c task previous s fresh ready =
    elim (Result-cases (advance task TaskStatus.clarifying c.expected_task_version)) [
      | inl (e, failed) ↦ rw failed (Evolves-refl s)
      | inr (advanced, moved) ↦
          let changed : Task = record advanced { updated_at = o.now 0 } in
          let q = save_current-Quiet (current_outline previous) s in
          let there : IsReady changed s =
            advance-IsReady task TaskStatus.clarifying c.expected_task_version advanced
              advanced.current_outline_version advanced.current_unit_sequence (o.now 0) s ready
              moved in
          rw moved (
            (
              Evolves-trans (Quiet-Evolves q)
                  (save_task-Evolves changed _ (IsReady-Quiet changed q there)),
              (
                save_task-IsReady changed _,
                ap (get (c.actor_id, c.idempotency_key)) (save_task-keys changed _ ∙ q.keys)
                    ∙ fresh,
                (advance-TaskMove task TaskStatus.clarifying c.expected_task_version advanced
                    moved).same_id,
              ),
            ))
    ]

back_to_clarifying-After :
    (o : Outside) (c : ReplyToTask) (task : Task) (previous : WorkflowSnapshot) (s : Repository)
    → get (c.actor_id, c.idempotency_key) s.idempotency ≡ none
    → IsReady task s
    → After
        (Resumed c.actor_id c.idempotency_key task.task_id)
        s
        (back_to_clarifying o c task previous s)
back_to_clarifying-After o c task previous s fresh ready =
    elim (Bool-cases (is_outline_review task.status)) [
      | inl review ↦ rw review (supersede-After o c task previous s fresh ready)
      | inr clarifying ↦ rw clarifying ((Evolves-refl s, (ready, fresh, refl)))
    ]

reply_resumed-After :
    (o : Outside) (c : ReplyToTask) (hash : String) (previous : WorkflowSnapshot)
    (brief : RequirementBrief) (task : Task) (run : AgentRun) (s : Repository)
    → get (c.actor_id, c.idempotency_key) s.idempotency ≡ none
    → IsReady task s
    → After
        (λ _ t. IsRecorded c.actor_id c.idempotency_key hash task.task_id t)
        s
        (continue_with o task run brief (
          save_idempotency
            (new_record o c.actor_id c.idempotency_key hash task.task_id run.run_id 4)
            (save_brief
              (brief_version o task.task_id (suc (length previous.briefs)) brief true)
              (save_message (new_message o task.task_id c.actor_id (strip c.message) 2) s))))
reply_resumed-After o c hash previous brief task run s fresh ready =
    let message = new_message o task.task_id c.actor_id (strip c.message) 2 in
    let version = brief_version o task.task_id (suc (length previous.briefs)) brief true in
    let made : IdempotencyRecord =
      new_record o c.actor_id c.idempotency_key hash task.task_id run.run_id 4 in
    let t : Repository = save_brief version (save_message message s) in
    let q =
      Quiet-trans (save_message-Quiet message s)
        (save_brief-Quiet version (save_message message s)) in
    let f =
      Evolves-trans (Quiet-Evolves q) (
        save_idempotency-Evolves made t
          (ap (get (c.actor_id, c.idempotency_key)) q.keys ∙ fresh)) in
    let there = save_idempotency-IsReady made task t (IsReady-Quiet task q ready) in
    After-trans (λ _ t. IsRecorded c.actor_id c.idempotency_key hash task.task_id t) s _ _ f
      (After-IsRecorded c.actor_id c.idempotency_key hash task.task_id _ _
        (save_idempotency-IsRecorded made t) (continue_with-After o task run brief _ there))

-- What `reply_new` does once the model has answered.
reply_answered-After :
    (o : Outside) (c : ReplyToTask) (hash : String) (found : Task × WorkflowSnapshot)
    (brief : RequirementBrief) (s : Repository)
    → get (c.actor_id, c.idempotency_key) s.idempotency ≡ none
    → IsReady found.0 s
    → After
        (λ _ t. IsRecorded c.actor_id c.idempotency_key hash found.0.task_id t)
        s
        (after
          (λ task. do
            save_run (succeeded_run found.1.run (o.now 7))
            save_run (
                new_run o task.task_id found.1.run.thread_id RunStatus.running hash
                  c.idempotency_key 1)
            writing (save_message (new_message o task.task_id c.actor_id (strip c.message) 2))
            writing
                (save_brief (brief_version o task.task_id (suc (length found.1.briefs)) brief true))
            writing (
                save_idempotency (
                  new_record o c.actor_id c.idempotency_key hash task.task_id
                    (new_run o task.task_id found.1.run.thread_id RunStatus.running hash
                      c.idempotency_key 1).run_id
                    4))
            continue_with o task
                (new_run o task.task_id found.1.run.thread_id RunStatus.running hash
                  c.idempotency_key 1)
                brief)
          (back_to_clarifying o c found.0 found.1 s))
reply_answered-After o c hash found brief s fresh ready =
    after-After (Resumed c.actor_id c.idempotency_key found.0.task_id)
      (λ _ t. IsRecorded c.actor_id c.idempotency_key hash found.0.task_id t) _ s
      (back_to_clarifying o c found.0 found.1 s)
      (back_to_clarifying-After o c found.0 found.1 s fresh ready)
      λ task t resumed.
        let run =
          new_run o task.task_id found.1.run.thread_id RunStatus.running hash c.idempotency_key 1 in
        after-After (λ _ u. Quiet t u)
          (λ _ t. IsRecorded c.actor_id c.idempotency_key hash found.0.task_id t) _ t
          (save_run (succeeded_run found.1.run (o.now 7)) t) (Quiet-After t _ (save_run-Quiet _ t))
          λ _ u q.
            after-After (λ _ w. Quiet u w)
              (λ _ t. IsRecorded c.actor_id c.idempotency_key hash found.0.task_id t) _ u
              (save_run run u) (Quiet-After u _ (save_run-Quiet _ u))
              λ _ w q₁.
                let both = Quiet-trans q q₁ in
                After-renamed c.actor_id c.idempotency_key hash task.task_id found.0.task_id w _
                  resumed.2
                  (reply_resumed-After o c hash found.1 brief task run w
                    (ap (get (c.actor_id, c.idempotency_key)) both.keys ∙ resumed.1)
                    (IsReady-Quiet task both resumed.0))

pub reply_new-After :
    (o : Outside) (c : ReplyToTask) (hash : String) (s : Repository)
    → IsKeyed s
    → get (c.actor_id, c.idempotency_key) s.idempotency ≡ none
    → After (λ _ t. IsMade c.actor_id c.idempotency_key hash c.task_id t) s (reply_new o c hash s)
unfolding reply_new
reply_new-After o c hash s keyed fresh = elim (Result-cases (reply_guard c s)) [
  | inl (e, failed) ↦ rw failed (Evolves-refl s)
  | inr (found, passed) ↦ elim (Result-cases (brief_in found.1)) [
    | inl (e, failed) ↦ rw (passed, failed) (Evolves-refl s)
    | inr (old, had) ↦ elim (Result-cases (o.requirement_brief (strip c.message) (some old))) [
      | inl (e, failed) ↦ rw (passed, had, failed) (Evolves-refl s)
      | inr (brief, given) ↦
          rw (passed, had, given)
            (let stored = reply_guard-stored c s found passed in
              After-IsMade c.actor_id c.idempotency_key hash found.0.task_id c.task_id s _
                (keyed c.task_id found.0 stored.0) (found.0, stored.0, stored.1)
                (reply_answered-After o c hash found brief s fresh
                  (stored-IsReady c.task_id found.0 s keyed stored.0)))
    ]
  ]
]
