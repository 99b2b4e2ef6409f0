-- ===== src/Dispatch/Leases/Held.antt =====
-- The lease of a worker over histories of src/prd_agent/production/dispatch.py.
use prd_agent.Base.{
  ℕ, ◌+◌, ◌≤◌, ◌<◌, ◌≡◌, ◌≢◌, refl, sym, ap, ◌∙◌, String, true, false, none, some, List, [], ◌∷◌,
  arith, text_key, nat_key, pair_key, Bool-cases, Option-cases, inl, inr, ◌⊎◌, ◌==◌, ok, same-eq,
  same_ne, ◌&&◌,
}
use text.Mathlib.TextEquality.{eq_iff}
use prd_agent.Base.Dict.{get, put, get-put}
use prd_agent.Dispatch.Model.{
  ProductionRun, ProductionRunStatus, Store, LeaseGrant, is_terminal, is_waiting,
}
use prd_agent.Dispatch.Admission.{release_and_admit_waiting, admit_waiting_runs}
use prd_agent.Dispatch.Outbox.{is_later}
use prd_agent.Dispatch.Runs.{
  acquire_run, acquired_by, complete_run, completed_as, heartbeat, is_current, is_held_by_other,
}
use prd_agent.Dispatch.Step.{
  Op, dispatch, claim, published, undelivered, cancel, retry, acquire, complete, admit, renew,
  receive, recover, step, history,
}
use prd_agent.Dispatch.Machine.{IsValid, RunsStep, moves, completes}
use prd_agent.Dispatch.Machine.Safety.{RunsStep-IsValid, Reach-IsValid}
use prd_agent.Dispatch.Refines.Outbox.{
  SameRuns, claim_outbox-SameRuns, mark_outbox_published-SameRuns, mark_outbox_failed-SameRuns,
  record_inbox-SameRuns, enqueue_recoveries-SameRuns,
}
use prd_agent.Dispatch.Refines.Runs.{current-leased, after_admission_store}
use prd_agent.Dispatch.Refines.History.{history-Refines}
use prd_agent.Dispatch.Leases.Preserved.{
  Keeps, keeps, same-Keeps, admit_loop-Keeps, create_run_dispatch-Keeps, request_cancellation-Keeps,
  retry_run-Keeps,
}

-- The worker has the run's lease, which runs until `until` at least.
pub record IsHeld (run_id worker : String) (until : ℕ) (s : Store) : Type 0 where
  pub run : ProductionRun
  pub at : get run_id s.runs ≡ some run
  pub owner : run.lease_owner ≡ some worker
  pub expires : ℕ
  pub lease : run.lease_expires_at ≡ some expires
  pub lasts : until ≤ expires

Keeps-IsHeld :
    (run_id worker : String) (until : ℕ) (s t : Store)
    → Keeps s t
    → IsHeld run_id worker until s
    → IsHeld run_id worker until t
Keeps-IsHeld run_id worker until s t (keeps f) h =
    let (w, w_at, owner, lease) = f run_id h.run h.at in
    record {
      run = w;
      at = w_at;
      owner = owner ∙ h.owner;
      expires = h.expires;
      lease = lease ∙ h.lease;
      lasts = h.lasts;
    }

-- The operations that leave the lease to the worker: others acquire the run before `until`, no
-- completion names the worker, and what the worker acquires or renews lasts until then.
abbrev pub Spares : String → String → ℕ → Op → Type 0
Spares run_id worker until (acquire r other now ttl) =
    r ≡ run_id → ((other ≢ worker) × (now < until)) ⊎ ((other ≡ worker) × (until ≤ now + ttl))
Spares run_id worker until (complete g status) = g.run_id ≡ run_id → g.worker_id ≢ worker
Spares run_id worker until (renew g now ttl) =
    g.run_id ≡ run_id → g.worker_id ≡ worker → until ≤ now + ttl
Spares run_id worker until _ = Unit

abbrev pub AllSpare : String → String → ℕ → List Op → Type 0
AllSpare run_id worker until [] = Unit
AllSpare run_id worker until (op ∷ ops) =
    Spares run_id worker until op × AllSpare run_id worker until ops

-- A grant that is current names the lease's worker.
current-worker :
    (g : LeaseGrant) (run : ProductionRun) (worker : String)
    → run.lease_owner ≡ some worker
    → is_current g run ≡ true
    → g.worker_id ≡ worker
current-worker g run worker owner current = ground (arith, eq_iff worker g.worker_id)

step-IsValid : (op : Op) (s : Store) → IsValid s.runs → IsValid (step op s).runs
step-IsValid op s valid =
    unfold history in Reach-IsValid (history-Refines (op ∷ []) s valid).0 valid

module _ (run_id worker : String) (until : ℕ) (s : Store) (h : IsHeld run_id worker until s) where
  held-refused :
      (other : String) (now : ℕ)
      → other ≢ worker
      → now < until
      → is_held_by_other h.run other now ≡ true
  held-refused other now ne early =
      let owner = h.owner in
      let lease = h.lease in
      let lasts = h.lasts in
      let differs : (worker == other) ≡ false = same_ne worker other (λ same. ne (sym same)) in
      let later : is_later (some h.expires) now ≡ true = ground arith in
      rw (owner, lease, differs, later) refl

  -- A write of a run that leaves the worker's lease.
  put-IsHeld :
      (t : Store) (j : String) (new : ProductionRun)
      → t.runs ≡ put j new s.runs
      → (j ≡ run_id
          → (new.lease_owner ≡ some worker)
            × ((e : ℕ) × (new.lease_expires_at ≡ some e) × (until ≤ e)))
      → IsHeld run_id worker until t
  put-IsHeld t j new eq held = elim (Bool-cases (j == run_id)) [
    | inl same ↦
        let (owner, (e, lease, lasts)) = held (same-eq j run_id same) in
        record {
          run = new;
          at = rw eq (rw get-put (rw same));
          owner = owner;
          expires = e;
          lease = lease;
          lasts = lasts;
        }
    | inr other ↦ record {
      run = h.run;
      at = rw eq (rw get-put (rw other h.at));
      owner = h.owner;
      expires = h.expires;
      lease = h.lease;
      lasts = h.lasts;
    }
  ]

  -- While another asks for the run it is refused, and nothing changes.
  pub acquire_refused :
      (other : String) (now ttl : ℕ)
      → other ≢ worker
      → now < until
      → acquire_run run_id other now ttl s ≡ (ok none, s)
  unfolding acquire_run
  acquire_refused other now ttl ne early =
      let held = held-refused other now ne early in
      let at = h.at in
      elim (Bool-cases (is_terminal h.run.status)) [
        | inl over ↦ rw (at, acquire_run, over) refl
        | inr live ↦ elim (Bool-cases (is_waiting h.run.status)) [
          | inl waits ↦ rw (at, acquire_run, live, waits) refl
          | inr ready ↦ rw (at, acquire_run, live, ready, held) refl
        ]
      ]

  acquire-IsHeld :
      (r other : String) (now ttl : ℕ)
      → Spares run_id worker until (acquire r other now ttl)
      → IsHeld run_id worker until (acquire_run r other now ttl s).1
  unfolding acquire_run
  acquire-IsHeld r other now ttl spare = elim (Option-cases (get r s.runs)) [
    | inl absent ↦ rw (absent, acquire_run) h
    | inr (run, at) ↦ elim (Bool-cases (is_terminal run.status)) [
      | inl over ↦ rw (at, acquire_run, over) h
      | inr live ↦ elim (Bool-cases (is_waiting run.status)) [
        | inl waits ↦ rw (at, acquire_run, live, waits) h
        | inr ready ↦ elim (Bool-cases (is_held_by_other run other now)) [
          | inl held ↦ rw (at, acquire_run, live, ready, held) h
          | inr free ↦
              rw (at, acquire_run, live, ready, free)
                (put-IsHeld _ r (acquired_by other (now + ttl) run) refl
                  λ same. taken r other now ttl run at free same (spare same))
        ]
      ]
    ]
  ]
    where
      taken :
          (r other : String) (now ttl : ℕ) (run : ProductionRun)
          → get r s.runs ≡ some run
          → is_held_by_other run other now ≡ false
          → r ≡ run_id
          → ((other ≢ worker) × (now < until)) ⊎ ((other ≡ worker) × (until ≤ now + ttl))
          → (some other ≡ some worker) × ((e : ℕ) × (some (now + ttl) ≡ some e) × (until ≤ e))
      taken r other now ttl run at free same (inl (ne, early)) =
          let one : h.run ≡ run = cc (h.at, at, same) in
          absurd (
            cc (
              held-refused other now ne early,
              free,
              ap (λ (v : ProductionRun). is_held_by_other v other now) one,
            ))
      taken r other now ttl run at free same (inr (own, lasts)) =
          (ap some own, (now + ttl, refl, lasts))

  renew-IsHeld :
      (g : LeaseGrant) (now ttl : ℕ)
      → Spares run_id worker until (renew g now ttl)
      → IsHeld run_id worker until (heartbeat g now ttl s).1
  unfolding heartbeat
  renew-IsHeld g now ttl spare = elim (Option-cases (get g.run_id s.runs)) [
    | inl absent ↦ rw (absent, heartbeat) h
    | inr (run, at) ↦ elim (Bool-cases (is_current g run && is_later run.lease_expires_at now)) [
      | inr stale ↦ rw (at, heartbeat, stale) h
      | inl current ↦
          rw (at, heartbeat, current)
            (put-IsHeld _ g.run_id (record run { lease_expires_at = some (now + ttl) }) refl
              λ same.
                let one : h.run ≡ run = cc (h.at, at, same) in
                let owner : run.lease_owner ≡ some worker =
                  sym (ap (λ (v : ProductionRun). v.lease_owner) one) ∙ h.owner in
                (
                  owner,
                  (now + ttl, refl, spare same (current-worker g run worker owner (ground arith))),
                ))
    ]
  ]

  complete-IsHeld :
      (g : LeaseGrant) (status : ProductionRunStatus)
      → IsValid s.runs
      → Spares run_id worker until (complete g status)
      → IsHeld run_id worker until (complete_run g status s).1
  unfolding complete_run release_and_admit_waiting
  complete-IsHeld g status valid spare = elim (Bool-cases (is_terminal status)) [
    | inr open' ↦ rw (open', complete_run) h
    | inl terminal ↦ elim (Option-cases (get g.run_id s.runs)) [
      | inl absent ↦ rw (terminal, complete_run, absent) h
      | inr (run, at) ↦ elim (Bool-cases (is_current g run)) [
        | inr stale ↦ rw (terminal, complete_run, at, stale) h
        | inl current ↦
            let t : Store = record s { runs = put g.run_id (completed_as status run) s.runs } in
            let st : RunsStep s.queue_policy s.runs t.runs =
              moves s.runs g.run_id run _ at
                (completes run status terminal (current-leased g run current)) in
            let held : IsHeld run_id worker until t =
              put-IsHeld t g.run_id (completed_as status run) refl λ same.
                let one : h.run ≡ run = cc (h.at, at, same) in
                let owner : run.lease_owner ≡ some worker =
                  sym (ap (λ (v : ProductionRun). v.lease_owner) one) ∙ h.owner in
                absurd (spare same (current-worker g run worker owner current)) in
            rw (terminal, complete_run, at, current, after_admission_store)
              (Keeps-IsHeld run_id worker until t _
                (admit_loop-Keeps _ t (RunsStep-IsValid st valid)) held)
      ]
    ]
  ]

step-IsHeld :
    (run_id worker : String) (until : ℕ) (op : Op) (s : Store)
    → IsValid s.runs
    → Spares run_id worker until op
    → IsHeld run_id worker until s
    → IsHeld run_id worker until (step op s)
unfolding step
step-IsHeld run_id worker until op s valid spare h = go op spare
  where
    stays : (t : Store) → Keeps s t → IsHeld run_id worker until t
    stays t k = Keeps-IsHeld run_id worker until s t k h

    same : (t : Store) → SameRuns s t → IsHeld run_id worker until t
    same t k = stays t (same-Keeps s t k.0)

    go : (op : Op) → Spares run_id worker until op → IsHeld run_id worker until (step op s)
    go (dispatch hex r task owner reason now) spare =
        stays _ (create_run_dispatch-Keeps hex r task owner reason now s)
    go (claim publisher now ttl limit) spare =
        same _ (claim_outbox-SameRuns publisher now ttl limit s)
    go (published message_id publisher now) spare =
        same _ (mark_outbox_published-SameRuns message_id publisher now s)
    go (undelivered message_id publisher now most) spare =
        same _ (mark_outbox_failed-SameRuns message_id publisher now most s)
    go (cancel r owner now) spare = stays _ (request_cancellation-Keeps r owner now s)
    go (retry run_hex message_hex r owner now key hash) spare =
        stays _ (retry_run-Keeps run_hex message_hex r owner now key hash s)
    go (acquire r other now ttl) spare =
        acquire-IsHeld run_id worker until s h r other now ttl spare
    go (complete g status) spare = complete-IsHeld run_id worker until s h g status valid spare
    go admit spare =
        unfold admit_waiting_runs release_and_admit_waiting in stays _ (admit_loop-Keeps _ s valid)
    go (renew g now ttl) spare = renew-IsHeld run_id worker until s h g now ttl spare
    go (receive consumer message_id) spare = same _ (record_inbox-SameRuns consumer message_id s)
    go (recover fresh now grace limit) spare =
        same _ (enqueue_recoveries-SameRuns fresh now grace limit s)

pub history-IsHeld :
    (run_id worker : String) (until : ℕ) (ops : List Op) (s : Store)
    → IsValid s.runs
    → AllSpare run_id worker until ops
    → IsHeld run_id worker until s
    → IsHeld run_id worker until (history ops s)
unfolding history
history-IsHeld run_id worker until [] s valid spare h = h
history-IsHeld run_id worker until (op ∷ ops) s valid spare h =
    history-IsHeld run_id worker until ops (step op s) (step-IsValid op s valid) spare.1
      (step-IsHeld run_id worker until op s valid spare.0 h)
