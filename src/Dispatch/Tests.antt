-- ===== src/Dispatch/Tests.antt =====
-- The theorems on the control store at concrete inputs, and runs of its operations.
use prd_agent.Base.{
  ℕ, true, ◌<◌, ◌≤◌, length, ◌≡◌, ◌≢◌, refl, String, false, none, List, [], ◌∷◌, ◌++◌, arith,
  text_key, nat_key, pair_key, ok, err, Result, All, inl, inr, Bool-cases, ◌==◌,
}
use text.Mathlib.TextEquality.{eq_iff}
use prd_agent.Base.Dict.{get, put, remove}
use prd_agent.Base.Sort.{sorted, insert_sorted, min_by}
use prd_agent.Dispatch.Model.{
  QueuePolicy, Store, LeaseGrant, ProductionRun, OutboxMessage, Error, init, succeeded, queued,
  lost_lease, waiting_capacity,
}
use prd_agent.Dispatch.Admission.{
  runnable_runs, can_admit, admission_key, with_keys, candidates, next_admission, promote,
  admit_round, admit_loop, release_and_admit_waiting, admit_waiting_runs,
}
use prd_agent.Dispatch.Outbox.{
  is_claimable, claim_one, claim_loop, claim_outbox, mark_outbox_published, mark_outbox_failed,
  backoff, mark_failed_at, claimed_by,
}
use prd_agent.Dispatch.Runs.{
  acquired_by, new_run, message_of, dispatch_new, create_run_dispatch, get_run,
  request_cancellation, record_retry, retry_new, retry_run, acquire_run, complete_run, heartbeat,
  has_inbox, record_inbox,
}
use prd_agent.Dispatch.Recovery.{
  is_lost, has_recovery, last_version, recovery_loop, enqueue_recoveries,
}
use prd_agent.Dispatch.Step.{Op, dispatch, cancel, acquire, step, history}
use prd_agent.Dispatch.Machine.{IsValid, WithinPolicy, runnable_count}
use prd_agent.Dispatch.Refines.Admission.{Refines}
use prd_agent.Dispatch.Refines.History.{history-Refines, history-IsValid, history-WithinPolicy}
use prd_agent.Dispatch.Fencing.{acquire_run_fences}
use prd_agent.Dispatch.Leases.{acquire_run_exclusive, by_heartbeat}
use prd_agent.Dispatch.Turns.{IsAdmissible, Precedes, next_admission_fair}
use prd_agent.Dispatch.Terminal.{complete_run_final}
use prd_agent.Dispatch.Fairness.{IsOrdered, IsSettled, admit_waiting_runs_settles}
use prd_agent.Dispatch.Claims.{IsDeliverable, Claims, claim_outbox_exclusive}
use prd_agent.Dispatch.Lost.{IsReached, enqueue_recoveries_complete}
use prd_agent.Dispatch.Redelivery.{
  IsLost, IsRecovery, enqueue_recoveries_lem, recoveries_not_claimed,
}
use prd_agent.Dispatch.Refines.Outbox.{SameRuns}

-- To unfold this is to unfold the operations.
operations : ℕ
unfolding init history step get put remove sorted insert_sorted min_by runnable_runs can_admit
    admission_key with_keys candidates next_admission promote admit_round admit_loop
    release_and_admit_waiting admit_waiting_runs is_claimable claim_one claim_loop claim_outbox
    mark_outbox_published mark_outbox_failed backoff mark_failed_at message_of dispatch_new
    create_run_dispatch get_run request_cancellation record_retry retry_new retry_run acquire_run
    complete_run heartbeat has_inbox record_inbox is_lost has_recovery last_version recovery_loop
    enqueue_recoveries
operations = 0

abbrev one_slot : QueuePolicy
one_slot = record { max_global_runnable = 1; max_runnable_per_owner = 1 }

-- Ann's run is queued, Bob's waits for capacity.
abbrev opening : List Op
opening = dispatch "a" "r1" "t1" "ann" "START" 100 ∷ dispatch "b" "r2" "t2" "bob" "START" 101 ∷ []

abbrev opened : Store
opened = history opening (init one_slot)

abbrev grant_of : String → ℕ → ℕ → LeaseGrant
grant_of worker token expires = record {
  run_id = "r1";
  worker_id = worker;
  fencing_token = token;
  expires_at = expires;
}

abbrev acquired_at : String → ℕ → ℕ → Store → Store
acquired_at worker now ttl s = (acquire_run "r1" worker now ttl s).1

history-Refines_example : Refines opened (history (cancel "r1" "ann" 105 ∷ []) opened)
history-Refines_example =
    history-Refines (cancel "r1" "ann" 105 ∷ []) opened (history-IsValid one_slot opening)

history-IsValid_example : IsValid opened.runs
history-IsValid_example = history-IsValid one_slot opening

history-WithinPolicy_example : WithinPolicy one_slot opened.runs
history-WithinPolicy_example = history-WithinPolicy one_slot opening

acquire_run_fences_example :
    (1 < 2)
    × (complete_run
          (grant_of "w1" 1 160)
          succeeded
          (acquired_at "w2" 200 50 (acquired_at "w1" 110 50 opened))
        ≡ (err lost_lease, acquired_at "w2" 200 50 (acquired_at "w1" 110 50 opened)))
    × (heartbeat
          (grant_of "w1" 1 160)
          201
          50
          (acquired_at "w2" 200 50 (acquired_at "w1" 110 50 opened))
        ≡ (err lost_lease, acquired_at "w2" 200 50 (acquired_at "w1" 110 50 opened)))
unfolding operations
acquire_run_fences_example =
    acquire_run_fences "r1" "w1" "w2" 110 50 200 50 opened (acquired_at "w1" 110 50 opened)
      (acquired_at "w2" 200 50 (acquired_at "w1" 110 50 opened)) (grant_of "w1" 1 160)
      (grant_of "w2" 2 250) [] [] succeeded 201 50 (history-IsValid one_slot opening) refl refl refl

w2-ne-w1 : ◌≢◌ {A = String} "w2" "w1"
w2-ne-w1 = ground (arith, eq_iff "w2" "w1")

abbrev worked : Store
worked = acquired_at "w1" 110 50 opened

abbrev worked_ops : List Op
worked_ops = opening ++ acquire "r1" "w1" 110 50 ∷ []

worked-IsValid : IsValid worked.runs
unfolding operations
worked-IsValid = history-IsValid one_slot worked_ops

abbrev renewed : Store
renewed = (heartbeat (grant_of "w1" 1 160) 140 50 worked).1

-- The lease is renewed at 140 and ends at 190; another worker asks at 150 and at 180.
acquire_run_exclusive_example :
    acquire_run "r1" "w2" 180 50 (history (acquire "r1" "w2" 150 50 ∷ []) renewed)
    ≡ (ok none, history (acquire "r1" "w2" 150 50 ∷ []) renewed)
unfolding operations
acquire_run_exclusive_example =
    acquire_run_exclusive "r1" "w1" "w2" 190 180 50 (acquired_at "w1" 110 50 opened) renewed
      (acquire "r1" "w2" 150 50 ∷ []) worked-IsValid
      (by_heartbeat 140 50 (grant_of "w1" 1 160) (grant_of "w1" 1 190) refl refl refl refl)
      ((λ same. inl (w2-ne-w1, omega arith)), tt) w2-ne-w1 (omega arith)

abbrev finished : Store
finished = (complete_run (grant_of "w1" 1 160) succeeded worked).1

-- Ann's run as it ends.
abbrev ann_done : ProductionRun
ann_done = record {
  run_id = "r1";
  task_id = "t1";
  owner_id = "ann";
  status = succeeded;
  queue_slot_acquired = false;
  fencing_token = 1;
  lease_owner = none;
  lease_expires_at = none;
  attempt_count = 1;
  cancellation_requested_at = none;
}

complete_run_final_example :
    (succeeded ≡ succeeded)
    × (get_run "r1" (history (cancel "r1" "ann" 300 ∷ []) finished) ≡ ok ann_done)
unfolding operations
complete_run_final_example =
    complete_run_final (grant_of "w1" 1 160) succeeded worked finished ann_done
      (cancel "r1" "ann" 300 ∷ []) worked-IsValid refl

-- Completing Ann's run admits Bob's.
bob_admitted : runnable_count finished.runs ≡ 1
unfolding operations
bob_admitted = refl

-- Ann's run is cancelled, so its slot is free while Bob's run waits.
abbrev cancelled : Store
cancelled = history (cancel "r1" "ann" 105 ∷ []) opened

cancelled-IsValid : IsValid cancelled.runs
unfolding history
cancelled-IsValid = history-IsValid one_slot (opening ++ cancel "r1" "ann" 105 ∷ [])

cancelled-IsOrdered : IsOrdered cancelled
unfolding operations
cancelled-IsOrdered k run at = elim (Bool-cases ("r1" == k)) [
  | inl first ↦ (1, rw first)
  | inr later ↦ elim (Bool-cases ("r2" == k)) [
    | inl second ↦ (2, rw (later, second))
    | inr others ↦ absurd (ground arith)
  ]
]

admit_waiting_runs_settles_example :
    (admitted : List ProductionRun) × ((admit_waiting_runs cancelled).0 ≡ ok admitted)
    × IsSettled (admit_waiting_runs cancelled).1
admit_waiting_runs_settles_example =
    admit_waiting_runs_settles cancelled cancelled-IsValid cancelled-IsOrdered

abbrev bob_waiting : ProductionRun
bob_waiting = record {
  run_id = "r2";
  task_id = "t2";
  owner_id = "bob";
  status = waiting_capacity;
  queue_slot_acquired = false;
  fencing_token = 0;
  lease_owner = none;
  lease_expires_at = none;
  attempt_count = 0;
  cancellation_requested_at = none;
}

next_admission_fair_example :
    IsAdmissible cancelled "r2" bob_waiting
    × ((k : String) (other : ProductionRun)
        → IsAdmissible cancelled k other
        → Precedes cancelled bob_waiting other)
unfolding operations
next_admission_fair_example = next_admission_fair cancelled bob_waiting cancelled-IsValid refl

abbrev first_claim : Result Error (List OutboxMessage) × Store
first_claim = claim_outbox "p1" 120 50 10 opened

abbrev ann_message : OutboxMessage
ann_message = claimed_by "p1" 170 (message_of "a" "r1" 1 "START" 100)

-- Ann's message only: Bob's run is not queued.
claims_ann : first_claim.0 ≡ ok (ann_message ∷ [])
unfolding operations
claims_ann = refl

-- Both runs are queued.
abbrev two_queued : Store
two_queued = history opening (init (record { max_global_runnable = 2; max_runnable_per_owner = 1 }))

two_queued-IsDeliverable : IsDeliverable two_queued
unfolding operations
two_queued-IsDeliverable = record {
  distinct = (refl, (refl, tt));
  keyed = (refl, (refl, tt));
  has_run = ((_, refl), ((_, refl), tt));
}

abbrev claim_first : Store
claim_first = (claim_outbox "p1" 120 50 1 two_queued).1

abbrev bob_message : String → ℕ → OutboxMessage
bob_message publisher expires = claimed_by publisher expires (message_of "b" "r2" 1 "START" 101)

-- The first claim takes Ann's message, the second Bob's.
claim_outbox_exclusive_example :
    All
      (λ (m : OutboxMessage).
        All (λ (w : OutboxMessage). m.message_id ≢ w.message_id) (bob_message "p2" 180 ∷ []))
      (ann_message ∷ [])
unfolding operations
claim_outbox_exclusive_example =
    claim_outbox_exclusive "p1" 120 50 1 "p2" 130 50 10 two_queued claim_first
      (claim_outbox "p2" 130 50 10 claim_first).1 (ann_message ∷ []) (bob_message "p2" 180 ∷ [])
      two_queued-IsDeliverable refl refl (omega arith)

abbrev worked_two : Store
worked_two = acquired_at "w1" 110 50 two_queued

worked_two-IsValid : IsValid worked_two.runs
unfolding operations
worked_two-IsValid =
    history-IsValid (record { max_global_runnable = 2; max_runnable_per_owner = 1 }) worked_ops

worked_two-IsDeliverable : IsDeliverable worked_two
unfolding operations
worked_two-IsDeliverable = record {
  distinct = (refl, (refl, tt));
  keyed = (refl, (refl, tt));
  has_run = ((_, refl), ((_, refl), tt));
}

abbrev recovered : List OutboxMessage × Store
recovered = enqueue_recoveries (λ n. "c") 500 20 10 worked_two

enqueue_recoveries_lem_example :
    (length recovered.0 ≤ 10)
    × All (IsRecovery worked_two.runs 500 20) recovered.0
    × IsDeliverable recovered.1
    × SameRuns worked_two recovered.1
enqueue_recoveries_lem_example =
    enqueue_recoveries_lem (λ n. "c") 500 20 10 worked_two worked_two-IsValid
      worked_two-IsDeliverable

-- Ann's run, as it is worked on.
abbrev ann_working : ProductionRun
ann_working = acquired_by "w1" 160 (new_run "r1" "t1" "ann" queued true)

ann-IsLost : IsLost ann_working 20 500
ann-IsLost = record { worked = inl refl; expires = 160; leased = refl; over = omega arith }

enqueue_recoveries_complete_example : IsReached worked_two recovered.0 ann_working
unfolding operations
enqueue_recoveries_complete_example =
    enqueue_recoveries_complete (λ n. "c") 500 20 10 worked_two "r1" ann_working worked_two-IsValid
      worked_two-IsDeliverable (omega arith) refl ann-IsLost

-- Ann's run is lost and a message is made for it, but the claim gets Bob's alone.
recoveries_not_claimed_example :
    All
      (λ (c : OutboxMessage).
        All (λ (m : OutboxMessage). c.aggregate_id ≢ m.aggregate_id) (bob_message "p1" 650 ∷ []))
      recovered.0
unfolding operations
recoveries_not_claimed_example =
    recoveries_not_claimed (λ n. "c") 500 20 10 "p1" 600 50 10 worked_two
      (claim_outbox "p1" 600 50 10 recovered.1).1 (bob_message "p1" 650 ∷ []) worked_two-IsValid
      worked_two-IsDeliverable refl
