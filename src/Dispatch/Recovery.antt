-- ===== src/Dispatch/Recovery.antt =====
-- `enqueue_recoveries` of src/prd_agent/production/dispatch.py, and `RunReconciler`.
use prd_agent.Base.{
  text_key, ℕ, suc, ◌+◌, max, String, Bool, true, false, ◌&&◌, ◌||◌, not, Option, none, some, List,
  [], ◌∷◌, any, leb, ◌==◌, text_le, is_some, if◌then◌else◌,
}
use prd_agent.Base.Dict.{put, values}
use prd_agent.Base.Sort.{sorted}
use prd_agent.Dispatch.Model.{ProductionRun, OutboxMessage, Store, is_leased_status}
use prd_agent.Dispatch.Runs.{message_of}

-- run.lease_expires_at is not None and run.lease_expires_at + grace_period <= now
abbrev pub ran_out : Option ℕ → ℕ → ℕ → Bool
ran_out none grace_period now = false
ran_out (some t) grace_period now = leb (t + grace_period) now

unfoldable pub is_lost : ProductionRun → ℕ → ℕ → Bool
is_lost run grace_period now =
    is_leased_status run.status && ran_out run.lease_expires_at grace_period now

-- A recovery message of the run that is not published, or that is quarantined.
abbrev pub is_recovery_of : String → OutboxMessage → Bool
is_recovery_of run_id item =
    item.aggregate_id == run_id
    && (item.command.reason == "RECOVER"
        && (not (is_some item.published_at) || is_some item.quarantined_at))

unfoldable pub has_recovery : String → Store → Bool
has_recovery run_id s = any (is_recovery_of run_id) (values s.outbox)

unfoldable pub last_version : String → List OutboxMessage → ℕ
last_version run_id [] = 0
last_version run_id (item ∷ items) =
    let rest = last_version run_id items in
    if item.aggregate_id == run_id then max item.aggregate_version rest else rest

abbrev pub recovery_message : String → ProductionRun → ℕ → Store → OutboxMessage
recovery_message hex run now s =
    message_of hex run.run_id (last_version run.run_id (values s.outbox) + 1) "RECOVER" now

abbrev pub with_recovery : String → ProductionRun → ℕ → Store → Store
with_recovery hex run now s =
    let message = recovery_message hex run now s in
    record s { outbox = put message.message_id message s.outbox }

abbrev pub Created : Type 0
Created = List OutboxMessage × Store

-- `fresh n` is the hex of the n-th message that the call creates, `n` is len(created).
unfoldable pub recovery_loop : (ℕ → String) → ℕ → ℕ → ℕ → List ProductionRun → ℕ → Store → Created
recovery_loop fresh now grace_period limit [] n s = ([], s)
recovery_loop fresh now grace_period limit (run ∷ rest) n s =
    if leb limit n
    then ([], s)
    else elim (is_lost run grace_period now && not (has_recovery run.run_id s)) [
      | false ↦ recovery_loop fresh now grace_period limit rest n s
      | true ↦
          let (created, s') =
            recovery_loop fresh now grace_period limit rest (suc n)
              (with_recovery (fresh n) run now s) in
          (recovery_message (fresh n) run now s ∷ created, s')
    ]

unfoldable pub enqueue_recoveries : (ℕ → String) → ℕ → ℕ → ℕ → Store → Created
enqueue_recoveries fresh now grace_period limit s =
    recovery_loop fresh now grace_period limit
      (sorted (λ a b. text_le a.run_id b.run_id) (values s.runs)) 0 s

-- RunReconciler.reconcile
unfoldable pub reconcile : (ℕ → String) → ℕ → ℕ → ℕ → Store → Created
reconcile fresh now grace_period limit s = enqueue_recoveries fresh now grace_period limit s
