-- ===== src/Dispatch/Claims/Loop.antt =====
-- The loop of `claim_outbox` in src/prd_agent/production/dispatch.py, over its sorted snapshot.
use prd_agent.Base.{
  ℕ, suc, ◌+◌, ◌≤◌, ◌<◌, ◌⊎◌, ap, Option-cases, ◌≡◌, ◌≢◌, refl, sym, subst, ◌∙◌, String, true,
  false, none, some, List, [], ◌∷◌, arith, text_key, nat_key, Bool-cases, inl, inr, ok, length, All,
  Pairwise, All-map, leb, max,
}
use prd_agent.Base.Dict.{
  get, values, get-put_self, get-put_ne, Distinct, AllEntries, AllEntries-values, AllEntries-both,
  Distinct-get, Distinct-Pairwise, Distinct-put, AllEntries-put,
}
use prd_agent.Base.Sort.{sorted, All-sorted, sorted-Pairwise}
use prd_agent.Dispatch.Model.{OutboxMessage, ProductionRun, Store, queued}
use prd_agent.Dispatch.Admission.{prepend}
use prd_agent.Dispatch.Outbox.{
  Claimed, is_claimable, claimed_by, save_outbox, claim_one, claim_loop, delivery_le,
}

-- The outbox has each message once, under its id, and the run of each message is there.
pub record IsDeliverable (s : Store) : Type 0 where
  pub distinct : Distinct s.outbox
  pub keyed : AllEntries (λ k m. m.message_id ≡ k) s.outbox
  pub has_run :
      AllEntries (λ k m. (run : ProductionRun) × (get m.aggregate_id s.runs ≡ some run)) s.outbox

-- A message that is free and due, of a QUEUED run.
pub record IsDue (value : OutboxMessage) (run : ProductionRun) (now : ℕ) : Type 0 where
  pub unpublished : value.published_at ≡ none
  pub unquarantined : value.quarantined_at ≡ none
  pub available : value.available_at ≤ now
  pub unleased : (expires : ℕ) → value.lease_expires_at ≡ some expires → expires ≤ now
  pub is_queued : run.status ≡ queued

claimable-unleased :
    (v : OutboxMessage) (run : ProductionRun) (now expires : ℕ)
    → is_claimable v run now ≡ true
    → v.lease_expires_at ≡ some expires
    → expires ≤ now
unfolding is_claimable
claimable-unleased v run now expires h e = ground arith

claimable-IsDue :
    (v : OutboxMessage) (run : ProductionRun) (now : ℕ)
    → is_claimable v run now ≡ true
    → IsDue v run now
unfolding is_claimable
claimable-IsDue v run now h = record {
  unpublished = ground arith;
  unquarantined = ground arith;
  available = ground arith;
  unleased = λ expires e. claimable-unleased v run now expires h e;
  is_queued = ground arith;
}

IsDue-claimable :
    (v : OutboxMessage) (run : ProductionRun) (now : ℕ)
    → IsDue v run now
    → is_claimable v run now ≡ true
unfolding is_claimable
IsDue-claimable v run now h =
    let published = h.unpublished in
    let quarantined = h.unquarantined in
    let queue = h.is_queued in
    let available = h.available in
    elim (Option-cases v.lease_expires_at) [
      | inl free ↦ ground (arith, published, quarantined, queue, available)
      | inr (expires, lease) ↦
          let over = h.unleased expires lease in
          ground (arith, published, quarantined, queue, available, over)
    ]

-- What a claim in `s` can return: a message that was there, whose run was there, that was due, now
-- with the publisher's lease.
pub record IsClaimOf (s : Store) (publisher : String) (now ttl : ℕ) (m : OutboxMessage)
    : Type 0 where
  pub value : OutboxMessage
  pub run : ProductionRun
  pub stored : get value.message_id s.outbox ≡ some value
  pub run_at : get value.aggregate_id s.runs ≡ some run
  pub due : IsDue value run now
  pub leased : m ≡ claimed_by publisher (now + ttl) value

-- A candidate of the loop.
abbrev pub Candidate : Store → OutboxMessage → Type 0
Candidate s v =
    (get v.message_id s.outbox ≡ some v)
    × ((run : ProductionRun) × (get v.aggregate_id s.runs ≡ some run))

abbrev pub DifferentIds : OutboxMessage → OutboxMessage → Type 0
DifferentIds v w = v.message_id ≢ w.message_id

pub candidates_lem :
    (s : Store) → IsDeliverable s → All (Candidate s) (sorted delivery_le (values s.outbox))
candidates_lem s h = All-sorted delivery_le (Candidate s) (values s.outbox) (
    AllEntries-values
      (λ k m.
        ((get k s.outbox ≡ some m) × (m.message_id ≡ k))
        × ((run : ProductionRun) × (get m.aggregate_id s.runs ≡ some run)))
      (Candidate s) s.outbox
      (λ k m p. (subst (λ j. get j s.outbox ≡ some m) (sym p.0.1) p.0.0, p.1))
      (AllEntries-both _ _ s.outbox
        (AllEntries-both _ _ s.outbox (Distinct-get s.outbox h.distinct) h.keyed) h.has_run))

pub candidates_distinct :
    (s : Store) → IsDeliverable s → Pairwise DifferentIds (sorted delivery_le (values s.outbox))
candidates_distinct s h =
    sorted-Pairwise delivery_le DifferentIds (λ a b ne same. ne (sym same)) (values s.outbox)
      (Distinct-Pairwise (λ (m : OutboxMessage). m.message_id) s.outbox h.distinct h.keyed)

pub save_outbox-IsDeliverable :
    (m : OutboxMessage) (s : Store)
    → ((run : ProductionRun) × (get m.aggregate_id s.runs ≡ some run))
    → IsDeliverable s
    → IsDeliverable (save_outbox m s)
save_outbox-IsDeliverable m s has_run h = record {
  distinct = Distinct-put m.message_id m s.outbox h.distinct;
  keyed = AllEntries-put (λ k w. w.message_id ≡ k) m.message_id m s.outbox h.keyed refl;
  has_run =
      AllEntries-put (λ k w. (run : ProductionRun) × (get w.aggregate_id s.runs ≡ some run))
        m.message_id m s.outbox h.has_run has_run;
}

refused :
    (v : OutboxMessage) (run other : ProductionRun) (now : ℕ)
    → is_claimable v run now ≡ false
    → run ≡ other
    → IsDue v other now
    → ⊥
refused v run other now passed same due =
    cc (passed, ap (λ r. is_claimable v r now) same, IsDue-claimable v other now due)

module _ (s₀ : Store) (publisher : String) (now ttl limit : ℕ) where
  -- What the loop guarantees from the store `s`.
  pub record Outcome (values : List OutboxMessage) (n : ℕ) (s : Store) (c : Claimed) : Type 0 where
    pub claimed : List OutboxMessage
    pub returns : c.0 ≡ ok claimed
    pub claims : All (IsClaimOf s₀ publisher now ttl) claimed
    pub bounded : length claimed + n ≤ max limit n
    pub saved : All (λ m. get m.message_id c.1.outbox ≡ some m) claimed
    pub untouched :
        (k : String) → All (λ v. v.message_id ≢ k) values → get k c.1.outbox ≡ get k s.outbox
    pub complete :
        length claimed + n < limit
        → All
            (λ v.
              (run : ProductionRun)
              → get v.aggregate_id s₀.runs ≡ some run
              → IsDue v run now
              → get v.message_id c.1.outbox ≡ some (claimed_by publisher (now + ttl) v))
            values
    pub same_runs : c.1.runs ≡ s.runs
    pub deliverable : IsDeliverable s → IsDeliverable c.1

  -- The loop ends: at the limit, or with nothing left.
  stops :
      (values : List OutboxMessage) (n : ℕ) (s : Store)
      → (limit ≤ n) ⊎ (values ≡ [])
      → Outcome values n s (ok [], s)
  stops values n s over = record {
    claimed = [];
    returns = refl;
    claims = tt;
    bounded = omega arith;
    saved = tt;
    untouched = λ k others. refl;
    complete = λ room. elim over [
      | inl full ↦ absurd (omega arith)
      | inr empty ↦ subst (All _) (sym empty) tt
    ];
    same_runs = refl;
    deliverable = λ h. h;
  }

  skips :
      (v : OutboxMessage) (rest : List OutboxMessage) (n : ℕ) (s : Store) (c : Claimed)
      → ((run : ProductionRun) → get v.aggregate_id s₀.runs ≡ some run → IsDue v run now → ⊥)
      → Outcome rest n s c
      → Outcome (v ∷ rest) n s c
  skips v rest n s c not_due o = record {
    claimed = o.claimed;
    returns = o.returns;
    claims = o.claims;
    bounded = o.bounded;
    saved = o.saved;
    untouched = λ k others. o.untouched k others.1;
    complete = λ room. ((λ run at due. absurd (not_due run at due)), o.complete room);
    same_runs = o.same_runs;
    deliverable = o.deliverable;
  }

  takes :
      (v u : OutboxMessage) (rest : List OutboxMessage) (n : ℕ) (s : Store) (c : Claimed)
      → u ≡ claimed_by publisher (now + ttl) v
      → IsClaimOf s₀ publisher now ttl u
      → All (DifferentIds v) rest
      → leb limit n ≡ false
      → ((run : ProductionRun) × (get u.aggregate_id s.runs ≡ some run))
      → Outcome rest (suc n) (save_outbox u s) c
      → Outcome (v ∷ rest) n s (prepend u c.0, c.1)
  takes v u rest n s c made claim different room has_run o =
      let id : u.message_id ≡ v.message_id = ap (λ (m : OutboxMessage). m.message_id) made in
      let others : All (λ w. w.message_id ≢ u.message_id) rest =
        All-map (DifferentIds v) _ rest (λ w ne same. ne (sym (same ∙ id))) different in
      record {
        claimed = u ∷ o.claimed;
        returns = rw o.returns;
        claims = (claim, o.claims);
        bounded = ground (arith, o.bounded);
        saved = (o.untouched u.message_id others ∙ get-put_self u.message_id u s.outbox, o.saved);
        untouched = λ k away.
            o.untouched k away.1
            ∙ get-put_ne u.message_id k u s.outbox (λ same. away.0 (sym id ∙ same));
        complete = λ left. (
          (λ run at due.
              ap (λ k. get k c.1.outbox) (sym id)
              ∙ o.untouched u.message_id others
              ∙ get-put_self u.message_id u s.outbox
              ∙ ap some made),
          o.complete (omega arith),
        );
        same_runs = o.same_runs;
        deliverable = λ h. o.deliverable (save_outbox-IsDeliverable u s has_run h);
      }

  pub claim_loop-Outcome :
      (values : List OutboxMessage) (n : ℕ) (s : Store)
      → s.runs ≡ s₀.runs
      → All (Candidate s₀) values
      → Pairwise DifferentIds values
      → Outcome values n s (claim_loop publisher now ttl limit values n s)
  unfolding claim_loop claim_one
  claim_loop-Outcome [] n s same h p = stops [] n s (inr refl)
  claim_loop-Outcome (v ∷ rest) n s same h p = elim (Bool-cases (leb limit n)) [
    | inl full ↦ rw (full, claim_loop) (stops (v ∷ rest) n s (inl (ground arith)))
    | inr room ↦
        let (run, run_at) = h.0.1 in
        let at : get v.aggregate_id s.runs ≡ some run = rw same run_at in
        elim (Bool-cases (is_claimable v run now)) [
          | inr passed ↦
              let o = claim_loop-Outcome rest n s same h.1 p.1 in
              rw (room, claim_loop, at, claim_one, passed)
                (skips v rest n s _
                  (λ r r_at due. refused v run r now passed (cc (run_at, r_at)) due) o)
          | inl taken ↦
              let u = claimed_by publisher (now + ttl) v in
              let o = claim_loop-Outcome rest (suc n) (save_outbox u s) same h.1 p.1 in
              let claim : IsClaimOf s₀ publisher now ttl u = record {
                value = v;
                run = run;
                stored = h.0.0;
                run_at = run_at;
                due = claimable-IsDue v run now taken;
                leased = refl;
              } in
              rw (room, claim_loop, at, claim_one, taken)
                (takes v u rest n s _ refl claim p.0 room (run, at) o)
        ]
  ]
