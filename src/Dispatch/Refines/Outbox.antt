-- ===== src/Dispatch/Refines/Outbox.antt =====
-- The operations on the outbox and the inbox leave the runs and the policy alone.
use prd_agent.Base.{
  ℕ, suc, ◌+◌, leb, ◌≡◌, refl, String, Option, none, some, List, [], ◌∷◌, arith, text_key,
  Bool-cases, inl, inr,
}
use prd_agent.Base.Dict.{get}
use prd_agent.Dispatch.Model.{OutboxMessage, ProductionRun, Store}
use prd_agent.Dispatch.Outbox.{
  is_claimable, save_outbox, claimed_by, claim_one, claim_loop, claim_outbox, mark_outbox_published,
  mark_outbox_failed, Claimed,
}
use prd_agent.Dispatch.Runs.{record_inbox}
use prd_agent.Dispatch.Recovery.{with_recovery, recovery_loop, enqueue_recoveries}

-- The same runs under the same policy.
abbrev pub SameRuns : Store → Store → Type 0
SameRuns s t = (t.runs ≡ s.runs) × (t.queue_policy ≡ s.queue_policy)

claim_one-SameRuns :
    (rest : ℕ → Store → Claimed) (publisher : String) (now ttl : ℕ) (value : OutboxMessage)
    (run : Option ProductionRun) (n : ℕ) (s : Store)
    → ((m : ℕ) (t : Store) → SameRuns t (rest m t).1)
    → SameRuns s (claim_one rest publisher now ttl value run n s).1
unfolding claim_one
claim_one-SameRuns rest publisher now ttl value none n s h = (refl, refl)
claim_one-SameRuns rest publisher now ttl value (some run) n s h =
    elim (Bool-cases (is_claimable value run now)) [
      | inl taken ↦
          rw (taken, claim_one) (h (suc n) (save_outbox (claimed_by publisher (now + ttl) value) s))
      | inr passed ↦ rw (passed, claim_one) (h n s)
    ]

claim_loop-SameRuns :
    (publisher : String) (now ttl limit : ℕ) (values : List OutboxMessage) (n : ℕ) (s : Store)
    → SameRuns s (claim_loop publisher now ttl limit values n s).1
unfolding claim_loop
claim_loop-SameRuns publisher now ttl limit [] n s = (refl, refl)
claim_loop-SameRuns publisher now ttl limit (value ∷ rest) n s = elim (Bool-cases (leb limit n)) [
  | inl full ↦ rw (full, claim_loop) (refl, refl)
  | inr room ↦
      rw (room, claim_loop)
        (claim_one-SameRuns (claim_loop publisher now ttl limit rest) publisher now ttl value
          (get value.aggregate_id s.runs) n s (claim_loop-SameRuns publisher now ttl limit rest))
]

pub claim_outbox-SameRuns :
    (publisher : String) (now ttl limit : ℕ) (s : Store)
    → SameRuns s (claim_outbox publisher now ttl limit s).1
unfolding claim_outbox
claim_outbox-SameRuns publisher now ttl limit s = claim_loop-SameRuns publisher now ttl limit _ 0 s

pub mark_outbox_published-SameRuns :
    (message_id publisher : String) (now : ℕ) (s : Store)
    → SameRuns s (mark_outbox_published message_id publisher now s).1
unfolding mark_outbox_published
mark_outbox_published-SameRuns message_id publisher now s = ground arith

pub mark_outbox_failed-SameRuns :
    (message_id publisher : String) (now max_attempts : ℕ) (s : Store)
    → SameRuns s (mark_outbox_failed message_id publisher now max_attempts s).1
unfolding mark_outbox_failed
mark_outbox_failed-SameRuns message_id publisher now max_attempts s = ground arith

pub record_inbox-SameRuns :
    (consumer message_id : String) (s : Store) → SameRuns s (record_inbox consumer message_id s)
unfolding record_inbox
record_inbox-SameRuns consumer message_id s = ground arith

recovery_loop-SameRuns :
    (fresh : ℕ → String) (now grace limit : ℕ) (runs : List ProductionRun) (n : ℕ) (s : Store)
    → SameRuns s (recovery_loop fresh now grace limit runs n s).1
unfolding recovery_loop
recovery_loop-SameRuns fresh now grace limit [] n s = (refl, refl)
recovery_loop-SameRuns fresh now grace limit (run ∷ rest) n s = ground (
  arith,
  recovery_loop-SameRuns fresh now grace limit rest n s,
  recovery_loop-SameRuns fresh now grace limit rest (suc n) (with_recovery (fresh n) run now s),
)

pub enqueue_recoveries-SameRuns :
    (fresh : ℕ → String) (now grace limit : ℕ) (s : Store)
    → SameRuns s (enqueue_recoveries fresh now grace limit s).1
unfolding enqueue_recoveries
enqueue_recoveries-SameRuns fresh now grace limit s =
    recovery_loop-SameRuns fresh now grace limit _ 0 s
