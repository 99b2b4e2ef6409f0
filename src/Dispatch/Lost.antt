-- ===== src/Dispatch/Lost.antt =====
-- Which lost runs `enqueue_recoveries` of src/prd_agent/production/dispatch.py reaches.
use prd_agent.Base.{
  ℕ, suc, ◌+◌, ◌<◌, ◌≡◌, ◌≢◌, ◌⊎◌, refl, sym, subst, String, Bool, true, false, none, some, List,
  [], ◌∷◌, arith, text_key, Bool-cases, Option-cases, inl, inr, All, All-map, any, leb, length, not,
  ◌&&◌, ◌==◌, text_le, is_some, Pairwise,
}
use prd_agent.Base.Dict.{
  Dict, get, put, values, All-get, AllEntries-values, Distinct-get, Distinct-Pairwise,
}
use prd_agent.Base.Sort.{sorted, sorted-All, sorted-Pairwise}
use prd_agent.Dispatch.Model.{OutboxMessage, ProductionRun, Store}
use prd_agent.Dispatch.Recovery.{
  enqueue_recoveries, recovery_loop, is_lost, has_recovery, is_recovery_of, with_recovery,
  recovery_message,
}
use prd_agent.Dispatch.Runs.{message_of}
use prd_agent.Dispatch.Machine.{IsValid}
use prd_agent.Dispatch.Claims.{IsDeliverable}
use prd_agent.Dispatch.Redelivery.{IsLost}

-- A recovery message of the run that is in the outbox already: not published, or quarantined.
pub record IsPending (s : Store) (run_id : String) : Type 0 where
  pub message : OutboxMessage
  pub id : String
  pub at : get id s.outbox ≡ some message
  pub of_run : message.aggregate_id ≡ run_id
  pub reason : message.command.reason ≡ "RECOVER"
  pub open' : (message.published_at ≡ none) ⊎ ((t : ℕ) × (message.quarantined_at ≡ some t))

-- Some message is one of the run.
abbrev pub HasMessage : List OutboxMessage → String → Type 0
HasMessage messages run_id = any (λ (c : OutboxMessage). c.aggregate_id == run_id) messages ≡ true

-- The run has a message of the reconciliation, or had one pending.
abbrev pub IsReached : Store → List OutboxMessage → ProductionRun → Type 0
IsReached s created run = HasMessage created run.run_id ⊎ IsPending s run.run_id

IsLost-is_lost :
    (run : ProductionRun) (grace now : ℕ) → IsLost run grace now → is_lost run grace now ≡ true
unfolding is_lost
IsLost-is_lost run grace now h =
    let worked = h.worked in
    let leased = h.leased in let over = h.over in ground (arith, worked, leased, over)

-- A message that the test finds.
found-of-any :
    (p : OutboxMessage → Bool) (P : OutboxMessage → Type 0) (ms : List OutboxMessage)
    → All P ms
    → any p ms ≡ true
    → (m : OutboxMessage) × P m × (p m ≡ true)
found-of-any p P [] h e = cc
found-of-any p P (m ∷ ms) h e = elim (Bool-cases (p m)) [
  | inl here ↦ (m, h.0, here)
  | inr later ↦ found-of-any p P ms h.1 (rw later at e)
]

All-put :
    (P : OutboxMessage → Type 0) (k : String) (v : OutboxMessage) (d : Dict String OutboxMessage)
    → All P (values d)
    → P v
    → All P (values (put k v d))
unfolding put
All-put P k v [] h p = (p, tt)
All-put P k v ((j, w) ∷ d) h p = elim (Bool-cases (j == k)) [
  | inl same ↦ rw (same, put) (p, h.1)
  | inr other ↦ rw (other, put) (h.0, All-put P k v d h.1 p)
]

open_of :
    (m : OutboxMessage)
    → (not (is_some m.published_at) ≡ true) ⊎ (is_some m.quarantined_at ≡ true)
    → (m.published_at ≡ none) ⊎ ((t : ℕ) × (m.quarantined_at ≡ some t))
open_of m h = elim (Option-cases m.published_at) [
  | inl unpublished ↦ inl unpublished
  | inr (t, published) ↦ elim (Option-cases m.quarantined_at) [
    | inr (q, quarantined) ↦ inr (q, quarantined)
    | inl unquarantined ↦ absurd (ground (arith, h))
  ]
]

module _ (s₀ : Store) (fresh : ℕ → String) (now grace limit : ℕ) where
  -- A message is one of the store before, or of none of the runs that are left.
  abbrev IsOld : List ProductionRun → OutboxMessage → Type 0
  IsOld runs m =
      ((j : String) × (get j s₀.outbox ≡ some m))
      ⊎ All (λ (r : ProductionRun). m.aggregate_id ≢ r.run_id) runs

  IsOld-rest :
      (run : ProductionRun) (rest : List ProductionRun) (m : OutboxMessage)
      → IsOld (run ∷ rest) m
      → IsOld rest m
  IsOld-rest run rest m (inl old) = inl old
  IsOld-rest run rest m (inr others) = inr others.1

  recovery-IsPending :
      (run : ProductionRun) (rest : List ProductionRun) (m : OutboxMessage)
      → IsOld (run ∷ rest) m
      → is_recovery_of run.run_id m ≡ true
      → IsPending s₀ run.run_id
  recovery-IsPending run rest m (inl (j, at)) test = record {
    message = m;
    id = j;
    at = at;
    of_run = (text_key.same_iff m.aggregate_id run.run_id).0 (ground arith);
    reason = (text_key.same_iff m.command.reason "RECOVER").0 (ground arith);
    open' = open_of m (ground arith);
  }
  recovery-IsPending run rest m (inr others) test =
      absurd (others.0 ((text_key.same_iff m.aggregate_id run.run_id).0 (ground arith)))

  -- Every lost run of the list is reached, if the limit is not.
  abbrev Reaches : List ProductionRun → List OutboxMessage → Type 0
  Reaches runs created = All (λ r. IsLost r grace now → IsReached s₀ created r) runs

  Reaches-cons :
      (c : OutboxMessage) (created : List OutboxMessage) (runs : List ProductionRun)
      → Reaches runs created
      → Reaches runs (c ∷ created)
  Reaches-cons c created runs h =
      All-map _ _ runs
        (λ r f lost. elim (f lost) [ inl made ↦ inl (ground (arith, made)) | inr old ↦ inr old ]) h

  passed-IsPending :
      (run : ProductionRun) (rest : List ProductionRun) (s : Store)
      → All (IsOld (run ∷ rest)) (values s.outbox)
      → IsLost run grace now
      → (is_lost run grace now && not (has_recovery run.run_id s)) ≡ false
      → IsPending s₀ run.run_id
  unfolding has_recovery
  passed-IsPending run rest s old lost passed =
      let is_over = IsLost-is_lost run grace now lost in
      let test : any (is_recovery_of run.run_id) (values s.outbox) ≡ true =
        elim (Bool-cases (any (is_recovery_of run.run_id) (values s.outbox))) [
          | inl found ↦ found
          | inr missing ↦ absurd (ground arith)
        ] in
      let (m, m_old, is_one) =
        found-of-any (is_recovery_of run.run_id) (IsOld (run ∷ rest)) (values s.outbox) old test in
      recovery-IsPending run rest m m_old is_one

  made-IsOld :
      (run : ProductionRun) (rest : List ProductionRun) (n : ℕ) (s : Store)
      → All (λ (r : ProductionRun). run.run_id ≢ r.run_id) rest
      → All (IsOld rest) (values s.outbox)
      → All (IsOld rest) (values (with_recovery (fresh n) run now s).outbox)
  unfolding message_of
  made-IsOld run rest n s others old =
      All-put (IsOld rest) _ (recovery_message (fresh n) run now s) s.outbox old (inr others)

  made-HasMessage :
      (run : ProductionRun) (n : ℕ) (s : Store) (created : List OutboxMessage)
      → HasMessage (recovery_message (fresh n) run now s ∷ created) run.run_id
  unfolding message_of
  made-HasMessage run n s created =
      let same = (text_key.same_iff run.run_id run.run_id).1 refl in rw same refl

  recovery_loop-Reaches :
      (runs : List ProductionRun) (n : ℕ) (s : Store)
      → Pairwise (λ (a b : ProductionRun). a.run_id ≢ b.run_id) runs
      → All (IsOld runs) (values s.outbox)
      → length (recovery_loop fresh now grace limit runs n s).0 + n < limit
      → Reaches runs (recovery_loop fresh now grace limit runs n s).0
  unfolding recovery_loop
  recovery_loop-Reaches [] n s apart old room = tt
  recovery_loop-Reaches (run ∷ rest) n s apart old room = elim (Bool-cases (leb limit n)) [
    | inl full ↦ absurd (ground arith)
    | inr left ↦
        let old_rest = All-map _ _ (values s.outbox) (IsOld-rest run rest) old in
        let all : List OutboxMessage = (recovery_loop fresh now grace limit (run ∷ rest) n s).0 in
        elim (Bool-cases (is_lost run grace now && not (has_recovery run.run_id s))) [
          | inr passed ↦
              let later : List OutboxMessage = (recovery_loop fresh now grace limit rest n s).0 in
              let same : later ≡ all = rw (left, recovery_loop, passed) refl in
              let ih = recovery_loop-Reaches rest n s apart.1 old_rest (ground arith) in
              subst (Reaches (run ∷ rest)) same
                ((λ lost. inr (passed-IsPending run rest s old lost passed)), ih)
          | inl made ↦
              let s' = with_recovery (fresh n) run now s in
              let c = recovery_message (fresh n) run now s in
              let later : List OutboxMessage =
                (recovery_loop fresh now grace limit rest (suc n) s').0 in
              let same : c ∷ later ≡ all = rw (left, recovery_loop, made) refl in
              let ih =
                recovery_loop-Reaches rest (suc n) s' apart.1
                  (made-IsOld run rest n s apart.0 old_rest) (ground arith) in
              subst (Reaches (run ∷ rest)) same
                ((λ lost. inl (made-HasMessage run n s later)), Reaches-cons c later rest ih)
        ]
  ]

-- On valid runs and a deliverable outbox, when a reconciliation creates fewer messages than its
-- limit, every run of the store that is RUNNING or STOPPING with a lease that ended at least the
-- grace period ago has a message among those that it creates, or had a RECOVER message in the
-- outbox that is not published or is quarantined.
pub enqueue_recoveries_complete :
    (fresh : ℕ → String) (now grace limit : ℕ) (s : Store) (k : String) (run : ProductionRun)
    → IsValid s.runs
    → IsDeliverable s
    → length (enqueue_recoveries fresh now grace limit s).0 < limit
    → get k s.runs ≡ some run
    → IsLost run grace now
    → IsReached s (enqueue_recoveries fresh now grace limit s).0 run
unfolding enqueue_recoveries
enqueue_recoveries_complete fresh now grace limit s k run valid deliverable room at lost =
    let runs = sorted (λ (a b : ProductionRun). text_le a.run_id b.run_id) (values s.runs) in
    let created = (recovery_loop fresh now grace limit runs 0 s).0 in
    let apart =
      sorted-Pairwise (λ (a b : ProductionRun). text_le a.run_id b.run_id)
        (λ (a b : ProductionRun). a.run_id ≢ b.run_id) (λ a b ne same. ne (sym same))
        (values s.runs)
        (Distinct-Pairwise (λ (r : ProductionRun). r.run_id) s.runs valid.distinct valid.keyed) in
    let old : All (IsOld s fresh now grace limit runs) (values s.outbox) =
      AllEntries-values (λ j m. get j s.outbox ≡ some m) _ s.outbox (λ j m e. inl (j, e))
        (Distinct-get s.outbox deliverable.distinct) in
    let reaches =
      recovery_loop-Reaches s fresh now grace limit runs 0 s apart old (omega (arith, room)) in
    All-get _ k run s.runs
      (sorted-All (λ (a b : ProductionRun). text_le a.run_id b.run_id) _ (values s.runs) reaches) at
      lost
