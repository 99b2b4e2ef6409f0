-- ===== src/Dispatch/Redelivery.antt =====
-- Recovery messages of src/prd_agent/production/dispatch.py, and what becomes of them.
use prd_agent.Base.{
  ℕ, suc, ◌+◌, ◌≤◌, ◌≡◌, ◌≢◌, ◌⊎◌, Option-cases, length, max, refl, ap, subst, String, true, some,
  List, [], ◌∷◌, arith, text_key, Bool-cases, inl, inr, ok, All, All-map, leb, not, ◌&&◌, text_le,
}
use prd_agent.Base.Dict.{get, values}
use prd_agent.Base.Sort.{sorted, All-sorted}
use prd_agent.Dispatch.Model.{OutboxMessage, ProductionRun, Store, queued, running, stopping}
use prd_agent.Dispatch.Outbox.{claim_outbox}
use prd_agent.Dispatch.Recovery.{
  enqueue_recoveries, recovery_loop, is_lost, has_recovery, with_recovery, recovery_message,
  Created,
}
use prd_agent.Dispatch.Runs.{message_of}
use prd_agent.Dispatch.Machine.{Runs, IsValid}
use prd_agent.Dispatch.Refines.Admission.{own_entry}
use prd_agent.Dispatch.Refines.Outbox.{SameRuns, enqueue_recoveries-SameRuns}
use prd_agent.Dispatch.Claims.{IsDeliverable, IsClaimOf, save_outbox-IsDeliverable, claimed_in_by}

-- A run that its worker has lost: it is RUNNING or STOPPING, and its lease ran out at least the
-- grace period ago.
pub record IsLost (run : ProductionRun) (grace now : ℕ) : Type 0 where
  pub worked : (run.status ≡ running) ⊎ (run.status ≡ stopping)
  pub expires : ℕ
  pub leased : run.lease_expires_at ≡ some expires
  pub over : expires + grace ≤ now

lease_over :
    (run : ProductionRun) (grace now : ℕ)
    → is_lost run grace now ≡ true
    → (expires : ℕ) × (run.lease_expires_at ≡ some expires) × (expires + grace ≤ now)
unfolding is_lost
lease_over run grace now h = elim (Option-cases run.lease_expires_at) [
  | inl unleased ↦ absurd (ground arith)
  | inr (expires, leased) ↦ (expires, leased, ground arith)
]

lost_worked :
    (run : ProductionRun) (grace now : ℕ)
    → is_lost run grace now ≡ true
    → (run.status ≡ running) ⊎ (run.status ≡ stopping)
unfolding is_lost
lost_worked run grace now h = ground arith

is_lost-IsLost :
    (run : ProductionRun) (grace now : ℕ) → is_lost run grace now ≡ true → IsLost run grace now
is_lost-IsLost run grace now h =
    let (expires, leased, over) = lease_over run grace now h in
    record { worked = lost_worked run grace now h; expires = expires; leased = leased; over = over }

-- A recovery message of a lost run.
pub record IsRecovery (d : Runs) (now grace : ℕ) (c : OutboxMessage) : Type 0 where
  pub run : ProductionRun
  pub at : get c.aggregate_id d ≡ some run
  pub lost : IsLost run grace now
  pub reason : c.command.reason ≡ "RECOVER"

module _ (d : Runs) (fresh : ℕ → String) (now grace limit : ℕ) where
  abbrev Good : Created → Type 0
  Good c = All (IsRecovery d now grace) c.0 × IsDeliverable c.1

  message-IsRecovery :
      (hex : String) (run : ProductionRun) (s : Store)
      → get run.run_id d ≡ some run
      → IsLost run grace now
      → IsRecovery d now grace (recovery_message hex run now s)
  unfolding message_of
  message-IsRecovery hex run s at lost = record { run = run; at = at; lost = lost; reason = refl }

  with_recovery-IsDeliverable :
      (hex : String) (run : ProductionRun) (s : Store)
      → get run.run_id s.runs ≡ some run
      → IsDeliverable s
      → IsDeliverable (with_recovery hex run now s)
  unfolding message_of
  with_recovery-IsDeliverable hex run s at h =
      save_outbox-IsDeliverable (recovery_message hex run now s) s (run, at) h

  recovery_loop-Good :
      (runs : List ProductionRun) (n : ℕ) (s : Store)
      → s.runs ≡ d
      → All (λ run. get run.run_id d ≡ some run) runs
      → IsDeliverable s
      → Good (recovery_loop fresh now grace limit runs n s)
  unfolding recovery_loop
  recovery_loop-Good [] n s same h deliverable = (tt, deliverable)
  recovery_loop-Good (run ∷ rest) n s same h deliverable = elim (Bool-cases (leb limit n)) [
    | inl full ↦ rw (full, recovery_loop) (tt, deliverable)
    | inr room ↦ elim (Bool-cases (is_lost run grace now && not (has_recovery run.run_id s))) [
      | inr passed ↦
          let ih = recovery_loop-Good rest n s same h.1 deliverable in
          rw (room, recovery_loop, passed) ih
      | inl lost ↦
          let s' = with_recovery (fresh n) run now s in
          let ih =
            recovery_loop-Good rest (suc n) s' same h.1
              (with_recovery-IsDeliverable (fresh n) run s (rw same h.0) deliverable) in
          rw (room, recovery_loop, lost)
            (
              (
                message-IsRecovery (fresh n) run s h.0
                    (is_lost-IsLost run grace now (ground arith)),
                ih.0,
              ),
              ih.1,
            )
    ]
  ]

recovery_loop-bounded :
    (fresh : ℕ → String) (now grace limit : ℕ) (runs : List ProductionRun) (n : ℕ) (s : Store)
    → length (recovery_loop fresh now grace limit runs n s).0 + n ≤ max limit n
unfolding recovery_loop
recovery_loop-bounded fresh now grace limit [] n s = omega arith
recovery_loop-bounded fresh now grace limit (run ∷ rest) n s = ground (
  arith,
  recovery_loop-bounded fresh now grace limit rest n s,
  recovery_loop-bounded fresh now grace limit rest (suc n) (with_recovery (fresh n) run now s),
)

-- On valid runs and a deliverable outbox, a reconciliation creates at most `limit` messages, each a
-- RECOVER message of a run that is RUNNING or STOPPING with a lease that ended at least the grace
-- period ago. The runs and the policy are untouched, and the outbox stays deliverable.
pub enqueue_recoveries_lem :
    (fresh : ℕ → String) (now grace limit : ℕ) (s : Store)
    → IsValid s.runs
    → IsDeliverable s
    → (length (enqueue_recoveries fresh now grace limit s).0 ≤ limit)
      × All (IsRecovery s.runs now grace) (enqueue_recoveries fresh now grace limit s).0
      × IsDeliverable (enqueue_recoveries fresh now grace limit s).1
      × SameRuns s (enqueue_recoveries fresh now grace limit s).1
enqueue_recoveries_lem fresh now grace limit s valid deliverable =
    let good =
      recovery_loop-Good s.runs fresh now grace limit
        (sorted (λ a b. text_le a.run_id b.run_id) (values s.runs)) 0 s refl
        (All-sorted _ _ (values s.runs) (own_entry s valid)) deliverable in
    let bounded =
      recovery_loop-bounded fresh now grace limit
        (sorted (λ a b. text_le a.run_id b.run_id) (values s.runs)) 0 s in
    (
      unfold enqueue_recoveries in omega (arith, bounded),
      unfold enqueue_recoveries in good.0,
      unfold enqueue_recoveries in good.1,
      enqueue_recoveries-SameRuns fresh now grace limit s,
    )

lost_not_queued : (run : ProductionRun) (grace now : ℕ) → IsLost run grace now → run.status ≢ queued
lost_not_queued run grace now lost same = ground (arith, lost.worked)

-- On valid runs and a deliverable outbox, a claim on the store that a reconciliation leaves, at any
-- time and by any publisher, returns no message of a run for which the reconciliation created one.
pub recoveries_not_claimed :
    (fresh : ℕ → String) (now grace limit : ℕ) (publisher : String) (later ttl most : ℕ)
    (s u : Store) (claimed : List OutboxMessage)
    → IsValid s.runs
    → IsDeliverable s
    → claim_outbox publisher later ttl most (enqueue_recoveries fresh now grace limit s).1
      ≡ (ok claimed, u)
    → All
        (λ c. All (λ m. c.aggregate_id ≢ m.aggregate_id) claimed)
        (enqueue_recoveries fresh now grace limit s).0
recoveries_not_claimed fresh now grace limit publisher later ttl most s u claimed valid deliverable
      e =
    let t = (enqueue_recoveries fresh now grace limit s).1 in
    let (bounded, created, t_deliverable, same) =
      enqueue_recoveries_lem fresh now grace limit s valid deliverable in
    let c = claimed_in_by publisher later ttl most t u claimed t_deliverable e in
    All-map (IsRecovery s.runs now grace) _ (enqueue_recoveries fresh now grace limit s).0
      (λ r recovery.
        All-map (IsClaimOf t publisher later ttl) _ claimed
          (λ m claim. clash t same.0 r m recovery claim) c.claims)
      created
  where
    clash :
        (t : Store)
        → t.runs ≡ s.runs
        → (r m : OutboxMessage) → IsRecovery s.runs now grace r
        → IsClaimOf t publisher later ttl m
        → r.aggregate_id ≢ m.aggregate_id
    clash t same r m recovery claim eq =
        let id : m.aggregate_id ≡ claim.value.aggregate_id =
          ap (λ (x : OutboxMessage). x.aggregate_id) claim.leased in
        let one : recovery.run ≡ claim.run = cc (recovery.at, claim.run_at, same, id, eq) in
        lost_not_queued claim.run grace now (subst (λ r'. IsLost r' grace now) one recovery.lost)
          claim.due.is_queued
