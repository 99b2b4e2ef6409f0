-- ===== src/Dispatch/Claims.antt =====
-- Claims of outbox messages in src/prd_agent/production/dispatch.py: which messages a publisher
-- gets, and that no other gets them meanwhile.
mod Loop
use prd_agent.Base.{
  ℕ, zero, suc, ◌+◌, ◌≤◌, ◌<◌, ◌≡◌, ◌≢◌, refl, sym, ap, subst, ◌∙◌, String, Bool, true, false,
  Option, none, some, List, [], ◌∷◌, arith, text_key, nat_key, inl, inr, ◌==◌, ok, err, is_some,
  length, All, All-map, All-both, Result, ok-injective,
}
use prd_agent.Base.Dict.{get, values, All-get, AllEntries-get}
use prd_agent.Base.Sort.{sorted, sorted-All}
use prd_agent.Dispatch.Model.{
  OutboxMessage, ProductionRun, Store, Error, is_queued, is_leased_status,
}
use prd_agent.Dispatch.Outbox.{claim_outbox, is_claimable, is_later, claimed_by, delivery_le}
use prd_agent.Dispatch.Recovery.{
  enqueue_recoveries, recovery_loop, is_lost, has_recovery, with_recovery, recovery_message,
}
use prd_agent.Dispatch.Runs.{message_of}
use prd_agent.Dispatch.Refines.Outbox.{enqueue_recoveries-SameRuns}
use Loop.{candidates_lem, candidates_distinct, claim_loop-Outcome}
pub use Loop.{IsDeliverable, IsDue, IsClaimOf, save_outbox-IsDeliverable}

-- What `claim_outbox` does on a deliverable store: the messages that it returns were due, they are at
-- most `limit`, and each is saved with the publisher's lease; a due message is left only where
-- `limit` is reached; the runs stay as they are.
pub record Claims (publisher : String) (now ttl limit : ℕ) (s t : Store)
    (claimed : List OutboxMessage) : Type 0 where
  pub claims : All (IsClaimOf s publisher now ttl) claimed
  pub bounded : length claimed ≤ limit
  pub saved : All (λ m. get m.message_id t.outbox ≡ some m) claimed
  pub complete :
      length claimed < limit
      → (k : String) (v : OutboxMessage) (run : ProductionRun) → get k s.outbox ≡ some v
      → get v.aggregate_id s.runs ≡ some run
      → IsDue v run now
      → get k t.outbox ≡ some (claimed_by publisher (now + ttl) v)
  pub same_runs : t.runs ≡ s.runs
  pub deliverable : IsDeliverable t

pub claim_outbox-Claims :
    (publisher : String) (now ttl limit : ℕ) (s : Store)
    → IsDeliverable s
    → (claimed : List OutboxMessage) × ((claim_outbox publisher now ttl limit s).0 ≡ ok claimed)
      × Claims publisher now ttl limit s (claim_outbox publisher now ttl limit s).1 claimed
unfolding claim_outbox
claim_outbox-Claims publisher now ttl limit s h =
    let o =
      claim_loop-Outcome s publisher now ttl limit (sorted delivery_le (values s.outbox)) 0 s refl
        (candidates_lem s h) (candidates_distinct s h) in
    (
      o.claimed,
      o.returns,
      record {
        claims = o.claims;
        bounded = omega (arith, o.bounded);
        saved = o.saved;
        complete = λ room k v run at run_at due.
            let all = o.complete (omega arith) in
            let id : v.message_id ≡ k =
              AllEntries-get (λ j m. m.message_id ≡ j) k v s.outbox h.keyed at in
            ap (λ j. get j (claim_outbox publisher now ttl limit s).1.outbox) (sym id)
            ∙ All-get _ k v s.outbox (sorted-All delivery_le _ (values s.outbox) all) at run run_at
                due;
        same_runs = o.same_runs;
        deliverable = o.deliverable h;
      },
    )

-- The same, for a call whose result is named.
pub claimed_in_by :
    (publisher : String) (now ttl limit : ℕ) (s t : Store) (claimed : List OutboxMessage)
    → IsDeliverable s
    → claim_outbox publisher now ttl limit s ≡ (ok claimed, t)
    → Claims publisher now ttl limit s t claimed
claimed_in_by publisher now ttl limit s t claimed h e =
    let (found, returns, claims) = claim_outbox-Claims publisher now ttl limit s h in
    let result : (claim_outbox publisher now ttl limit s).0 ≡ ok claimed =
      ap (λ (c : Result Error (List OutboxMessage) × Store). c.0) e in
    let same : found ≡ claimed = ok-injective (sym returns ∙ result) in
    subst (λ xs. Claims publisher now ttl limit s t xs) same
      (subst (λ x. Claims publisher now ttl limit s x found)
        (ap (λ (c : Result Error (List OutboxMessage) × Store). c.1) e) claims)

-- Exclusion. On a deliverable store, while the lease of a claim runs, the next claim, by whichever
-- publisher, gets none of its messages.
pub claim_outbox_exclusive :
    (p₁ : String) (now₁ ttl₁ limit₁ : ℕ) (p₂ : String) (now₂ ttl₂ limit₂ : ℕ) (s t u : Store)
    (first second : List OutboxMessage)
    → IsDeliverable s
    → claim_outbox p₁ now₁ ttl₁ limit₁ s ≡ (ok first, t)
    → claim_outbox p₂ now₂ ttl₂ limit₂ t ≡ (ok second, u)
    → now₂ < now₁ + ttl₁
    → All (λ m. All (λ w. m.message_id ≢ w.message_id) second) first
claim_outbox_exclusive p₁ now₁ ttl₁ limit₁ p₂ now₂ ttl₂ limit₂ s t u first second h e₁ e₂ early =
    let c₁ = claimed_in_by p₁ now₁ ttl₁ limit₁ s t first h e₁ in
    let c₂ = claimed_in_by p₂ now₂ ttl₂ limit₂ t u second c₁.deliverable e₂ in
    All-map (λ m. IsClaimOf s p₁ now₁ ttl₁ m × (get m.message_id t.outbox ≡ some m)) _ first
      (λ m own.
        All-map (IsClaimOf t p₂ now₂ ttl₂) _ second
          (λ w claim same. clash m w own.0 own.1 claim same) c₂.claims)
      (All-both _ _ first c₁.claims c₁.saved)
  where
    clash :
        (m w : OutboxMessage)
        → IsClaimOf s p₁ now₁ ttl₁ m
        → get m.message_id t.outbox ≡ some m
        → IsClaimOf t p₂ now₂ ttl₂ w
        → m.message_id ≡ w.message_id
        → ⊥
    clash m w own saved claim same =
        let id : w.message_id ≡ claim.value.message_id =
          ap (λ (x : OutboxMessage). x.message_id) claim.leased in
        let value : claim.value ≡ m = cc (claim.stored, saved, id) in
        let lease : m.lease_expires_at ≡ some (now₁ + ttl₁) =
          ap (λ (x : OutboxMessage). x.lease_expires_at) own.leased in
        let late =
          claim.due.unleased (now₁ + ttl₁)
            (ap (λ (x : OutboxMessage). x.lease_expires_at) value ∙ lease) in
        absurd (omega arith)
