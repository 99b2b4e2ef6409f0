-- ===== src/Dispatch/Refines/Runs.antt =====
-- The operations on runs make only moves of the abstract machine.
use Prim.Native.String.{◌++◌ as text_append}
use prd_agent.Base.{
  ℕ, ◌+◌, ◌≡◌, refl, String, true, none, some, List, arith, text_key, pair_key, Bool-cases,
  Option-cases, inl, inr, ◌==◌, ok, err, is_some, ◌&&◌,
}
use prd_agent.Base.Dict.{get, put}
use prd_agent.Dispatch.Model.{
  OutboxMessage, ProductionRun, ProductionRunStatus, Store, LeaseGrant, is_terminal, is_waiting,
}
use prd_agent.Dispatch.Admission.{can_admit, release_and_admit_waiting}
use prd_agent.Dispatch.Outbox.{is_later}
use prd_agent.Dispatch.Runs.{
  message_of, dispatch_new, create_run_dispatch, request_cancellation, retry_new, retry_run,
  record_retry, acquire_run, complete_run, heartbeat, is_current, completed_as, after_admission,
  is_held_by_other, Returns,
}
use prd_agent.Dispatch.Machine.{
  cancels, acquires, completes, beats, RunsStep, moves, starts_queued, starts_waiting, here, next,
  Reach-trans, IsValid,
}
use prd_agent.Dispatch.Machine.Safety.{RunsStep-IsValid}
use prd_agent.Dispatch.Refines.Admission.{
  Refines, can_admit-HasRoom, release_and_admit_waiting-Refines,
}

stays : (s : Store) → Refines s s
stays s = (here, refl)

dispatch_new-Refines :
    (run_id task owner : String) (message : OutboxMessage) (s : Store)
    → get run_id s.runs ≡ none
    → Refines s (dispatch_new run_id task owner message s)
unfolding dispatch_new
dispatch_new-Refines run_id task owner message s absent = elim (Bool-cases (can_admit s owner)) [
  | inl room ↦
      rw (room, dispatch_new)
        (
          next here
              (starts_queued s.runs run_id task owner absent (can_admit-HasRoom s owner room)),
          refl,
        )
  | inr full ↦
      rw (full, dispatch_new) (next here (starts_waiting s.runs run_id task owner absent), refl)
]

pub create_run_dispatch-Refines :
    (hex run_id task owner reason : String) (now : ℕ) (s : Store)
    → Refines s (create_run_dispatch hex run_id task owner reason now s).1
unfolding create_run_dispatch
create_run_dispatch-Refines hex run_id task owner reason now s =
    elim (Option-cases (get run_id s.runs)) [
      | inr (run, at) ↦ rw (at, create_run_dispatch) (stays s)
      | inl absent ↦
          rw (absent, create_run_dispatch)
            (dispatch_new-Refines run_id task owner (message_of hex run_id 1 reason now) s absent)
    ]

pub request_cancellation-Refines :
    (run_id owner : String) (now : ℕ) (s : Store)
    → Refines s (request_cancellation run_id owner now s).1
unfolding request_cancellation
request_cancellation-Refines run_id owner now s = elim (Option-cases (get run_id s.runs)) [
  | inl absent ↦ rw (absent, request_cancellation) (stays s)
  | inr (run, at) ↦ elim (Bool-cases (run.owner_id == owner)) [
    | inr other ↦ rw (at, request_cancellation, other) (stays s)
    | inl own ↦ elim (Bool-cases (is_terminal run.status)) [
      | inl over ↦ rw (at, request_cancellation, own, over) (stays s)
      | inr live ↦
          rw (at, request_cancellation, own, live)
            (next here (moves s.runs run_id run _ at (cancels run now live)), refl)
    ]
  ]
]

retry_new-Refines :
    (run_hex message_hex owner : String) (now : ℕ) (key hash : String) (previous : ProductionRun)
    (s : Store)
    → Refines s (retry_new run_hex message_hex owner now key hash previous s).1
unfolding retry_new record_retry
retry_new-Refines run_hex message_hex owner now key hash previous s = ground (
  arith,
  create_run_dispatch-Refines message_hex (text_append "run-" run_hex) previous.task_id owner
      "RETRY" now s,
)

pub retry_run-Refines :
    (run_hex message_hex run_id owner : String) (now : ℕ) (key hash : String) (s : Store)
    → Refines s (retry_run run_hex message_hex run_id owner now key hash s).1
unfolding retry_run
retry_run-Refines run_hex message_hex run_id owner now key hash s =
    elim (Option-cases (get (owner, key) s.command_idempotency)) [
      | inr (replay, found) ↦ ground (arith, stays s)
      | inl unknown ↦ elim (Option-cases (get run_id s.runs)) [
        | inl absent ↦ ground (arith, stays s)
        | inr (run, at) ↦
            ground (arith, stays s, retry_new-Refines run_hex message_hex owner now key hash run s)
      ]
    ]

pub acquire_run-Refines :
    (run_id worker : String) (now ttl : ℕ) (s : Store)
    → Refines s (acquire_run run_id worker now ttl s).1
unfolding acquire_run
acquire_run-Refines run_id worker now ttl s = elim (Option-cases (get run_id s.runs)) [
  | inl absent ↦ rw (absent, acquire_run) (stays s)
  | inr (run, at) ↦ elim (Bool-cases (is_terminal run.status)) [
    | inl over ↦ rw (at, acquire_run, over) (stays s)
    | inr live ↦ elim (Bool-cases (is_waiting run.status)) [
      | inl waits ↦ rw (at, acquire_run, live, waits) (stays s)
      | inr ready ↦ elim (Bool-cases (is_held_by_other run worker now)) [
        | inl held ↦ rw (at, acquire_run, live, ready, held) (stays s)
        | inr free ↦
            rw (at, acquire_run, live, ready, free)
              (
                next here
                    (moves s.runs run_id run _ at (acquires run worker (now + ttl) live ready)),
                refl,
              )
      ]
    ]
  ]
]

pub current-leased :
    (grant : LeaseGrant) (run : ProductionRun)
    → is_current grant run ≡ true
    → is_some run.lease_owner ≡ true
current-leased grant run h = ground arith

pub heartbeat-Refines :
    (grant : LeaseGrant) (now ttl : ℕ) (s : Store) → Refines s (heartbeat grant now ttl s).1
unfolding heartbeat
heartbeat-Refines grant now ttl s = elim (Option-cases (get grant.run_id s.runs)) [
  | inl absent ↦ rw (absent, heartbeat) (stays s)
  | inr (run, at) ↦ elim (Bool-cases (is_current grant run && is_later run.lease_expires_at now)) [
    | inr stale ↦ rw (at, heartbeat, stale) (stays s)
    | inl current ↦
        rw (at, heartbeat, current)
          (
            next here (moves s.runs grant.run_id run _ at (beats run (now + ttl) (ground arith))),
            refl,
          )
  ]
]

pub after_admission_store :
    (run : ProductionRun) (r : Returns (List ProductionRun)) → (after_admission run r).1 ≡ r.1
after_admission_store run (ok admitted, s) = refl
after_admission_store run (err e, s) = refl

complete_current :
    (grant : LeaseGrant) (status : ProductionRunStatus) (run : ProductionRun) (s : Store)
    → IsValid s.runs
    → get grant.run_id s.runs ≡ some run
    → is_terminal status ≡ true
    → is_current grant run ≡ true
    → Refines s
        (release_and_admit_waiting
          (record s { runs = put grant.run_id (completed_as status run) s.runs })).1
complete_current grant status run s valid at terminal current =
    let st : RunsStep s.queue_policy s.runs (put grant.run_id (completed_as status run) s.runs) =
      moves s.runs grant.run_id run _ at
        (completes run status terminal (current-leased grant run current)) in
    let (reach, same) =
      release_and_admit_waiting-Refines
        (record s { runs = put grant.run_id (completed_as status run) s.runs })
        (RunsStep-IsValid st valid) in
    (Reach-trans (next here st) reach, same)

pub complete_run-Refines :
    (grant : LeaseGrant) (status : ProductionRunStatus) (s : Store)
    → IsValid s.runs
    → Refines s (complete_run grant status s).1
unfolding complete_run
complete_run-Refines grant status s valid = elim (Bool-cases (is_terminal status)) [
  | inr open' ↦ rw (open', complete_run) (stays s)
  | inl terminal ↦ elim (Option-cases (get grant.run_id s.runs)) [
    | inl absent ↦ rw (terminal, complete_run, absent) (stays s)
    | inr (run, at) ↦ elim (Bool-cases (is_current grant run)) [
      | inr stale ↦ rw (terminal, complete_run, at, stale) (stays s)
      | inl current ↦
          rw (terminal, complete_run, at, current, after_admission_store)
            (complete_current grant status run s valid at terminal current)
    ]
  ]
]
