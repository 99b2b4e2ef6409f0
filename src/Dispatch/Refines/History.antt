-- ===== src/Dispatch/Refines/History.antt =====
-- Whole histories of the store of src/prd_agent/production/dispatch.py against the machine.
use prd_agent.Base.{refl, subst, ◌∙◌, List, [], ◌∷◌, sym, arith}
use prd_agent.Dispatch.Model.{QueuePolicy, Store, init}
use prd_agent.Dispatch.Admission.{admit_waiting_runs}
use prd_agent.Dispatch.Step.{
  Op, dispatch, claim, published, undelivered, cancel, retry, acquire, complete, admit, renew,
  receive, recover, step, history,
}
use prd_agent.Dispatch.Machine.{Reach, here, Reach-trans, IsValid, WithinPolicy}
use prd_agent.Dispatch.Machine.Safety.{Reach-IsValid}
use prd_agent.Dispatch.Machine.Capacity.{Reach-WithinPolicy}
use prd_agent.Dispatch.Refines.Admission.{Refines, release_and_admit_waiting-Refines}
use prd_agent.Dispatch.Refines.Outbox.{
  SameRuns, claim_outbox-SameRuns, mark_outbox_published-SameRuns, mark_outbox_failed-SameRuns,
  record_inbox-SameRuns, enqueue_recoveries-SameRuns,
}
use prd_agent.Dispatch.Refines.Runs.{
  create_run_dispatch-Refines, request_cancellation-Refines, retry_run-Refines, acquire_run-Refines,
  complete_run-Refines, heartbeat-Refines,
}

same-Refines : (s t : Store) → SameRuns s t → Refines s t
same-Refines s t (runs, policy) = (subst (Reach s.queue_policy s.runs) (sym runs) here, policy)

step-Refines : (op : Op) (s : Store) → IsValid s.runs → Refines s (step op s)
unfolding step
step-Refines (dispatch hex run_id task owner reason now) s valid =
    create_run_dispatch-Refines hex run_id task owner reason now s
step-Refines (claim publisher now ttl limit) s valid =
    same-Refines s (step (claim publisher now ttl limit) s)
      (claim_outbox-SameRuns publisher now ttl limit s)
step-Refines (published message_id publisher now) s valid =
    same-Refines s (step (published message_id publisher now) s)
      (mark_outbox_published-SameRuns message_id publisher now s)
step-Refines (undelivered message_id publisher now max_attempts) s valid =
    same-Refines s (step (undelivered message_id publisher now max_attempts) s)
      (mark_outbox_failed-SameRuns message_id publisher now max_attempts s)
step-Refines (cancel run_id owner now) s valid = request_cancellation-Refines run_id owner now s
step-Refines (retry run_hex message_hex run_id owner now key hash) s valid =
    retry_run-Refines run_hex message_hex run_id owner now key hash s
step-Refines (acquire run_id worker now ttl) s valid = acquire_run-Refines run_id worker now ttl s
step-Refines (complete grant status) s valid = complete_run-Refines grant status s valid
step-Refines admit s valid = unfold admit_waiting_runs in release_and_admit_waiting-Refines s valid
step-Refines (renew grant now ttl) s valid = heartbeat-Refines grant now ttl s
step-Refines (receive consumer message_id) s valid =
    same-Refines s (step (receive consumer message_id) s)
      (record_inbox-SameRuns consumer message_id s)
step-Refines (recover fresh now grace limit) s valid =
    same-Refines s (step (recover fresh now grace limit) s)
      (enqueue_recoveries-SameRuns fresh now grace limit s)

Refines-trans : (s t u : Store) → Refines s t → Refines t u → Refines s u
Refines-trans s t u (r, p) (q, e) = (Reach-trans r (subst (λ x. Reach x t.runs u.runs) p q), e ∙ p)

-- Whatever operations are made on a valid store, in whatever order, the runs change only by moves
-- of the machine: the store refines it.
pub history-Refines : (ops : List Op) (s : Store) → IsValid s.runs → Refines s (history ops s)
unfolding history
history-Refines [] s valid = (here, refl)
history-Refines (op ∷ ops) s valid =
    let first = step-Refines op s valid in
    let rest = history-Refines ops (step op s) (Reach-IsValid first.0 valid) in
    Refines-trans s (step op s) (history ops (step op s)) first rest

init-IsValid : (policy : QueuePolicy) → IsValid (init policy).runs
unfolding init
init-IsValid policy = record { distinct = tt; keyed = tt; consistent = tt }

-- After any history of a new store, no run id stands twice, each run stands under its id, and its
-- status, queue slot, lease owner and cancellation go together: QUEUED holds a slot and no lease,
-- RUNNING both, WAITING_CAPACITY and the terminal statuses neither, STOPPING has a cancellation,
-- and no run is WAITING_PROVIDER or WAITING_USER.
pub history-IsValid :
    (policy : QueuePolicy) (ops : List Op) → IsValid (history ops (init policy)).runs
history-IsValid policy ops =
    Reach-IsValid (history-Refines ops (init policy) (init-IsValid policy)).0 (init-IsValid policy)

-- After any history of a new store, the QUEUED and RUNNING runs are within the policy's limit, and
-- those of each owner within the owner's.
pub history-WithinPolicy :
    (policy : QueuePolicy) (ops : List Op) → WithinPolicy policy (history ops (init policy)).runs
unfolding init
history-WithinPolicy policy ops =
    Reach-WithinPolicy (history-Refines ops (init policy) (init-IsValid policy)).0
      (init-IsValid policy) (record { global = omega arith; per_owner = λ owner. omega arith })
