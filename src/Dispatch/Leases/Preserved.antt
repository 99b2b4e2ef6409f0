-- ===== src/Dispatch/Leases/Preserved.antt =====
-- Which operations of src/prd_agent/production/dispatch.py keep the lease of each run.
use Prim.Native.String.{◌++◌ as text_append}
use prd_agent.Base.{
  ℕ, ◌≡◌, refl, ap, ◌∙◌, String, none, some, arith, text_key, nat_key, pair_key, Bool-cases,
  Option-cases, Result-cases, inl, inr, ◌==◌, ok, err, same-eq, Result, zero, suc, Option,
}
use prd_agent.Base.Dict.{get, put, get-put}
use prd_agent.Dispatch.Model.{ProductionRun, Store, Error, is_terminal}
use prd_agent.Dispatch.Admission.{
  Admitted, promote, promoted, admit_round, admit_loop, next_admission,
}
use prd_agent.Dispatch.Runs.{
  create_run_dispatch, dispatch_new, request_cancellation, retry_new, retry_run, record_retry,
  cancelled_at,
}
use prd_agent.Dispatch.Machine.{IsValid}
use prd_agent.Dispatch.Machine.Safety.{RunsStep-IsValid}
use prd_agent.Dispatch.Refines.Admission.{next_admission-IsCandidate, promote-RunsStep}

-- The lease of each run that is there stays.
pub data Keeps (s t : Store) : Type 0 where
  keeps :
      ((k : String) (v : ProductionRun)
        → get k s.runs ≡ some v
        → (w : ProductionRun) × (get k t.runs ≡ some w)
          × (w.lease_owner ≡ v.lease_owner)
          × (w.lease_expires_at ≡ v.lease_expires_at))
      → Keeps s t

pub same-Keeps : (s t : Store) → t.runs ≡ s.runs → Keeps s t
same-Keeps s t same = keeps (λ k v at. (v, ap (get k) same ∙ at, refl, refl))

pub Keeps-trans : (s t u : Store) → Keeps s t → Keeps t u → Keeps s u
Keeps-trans s t u (keeps f) (keeps g) = keeps (λ k v at.
    let (w, w_at, owner, lease) = f k v at in
    let (x, x_at, owner', lease') = g k w w_at in (x, x_at, owner' ∙ owner, lease' ∙ lease))

-- A write over a run that keeps its lease.
pub put-Keeps :
    (s t : Store) (j : String) (old new : ProductionRun)
    → get j s.runs ≡ some old
    → new.lease_owner ≡ old.lease_owner
    → new.lease_expires_at ≡ old.lease_expires_at
    → t.runs ≡ put j new s.runs
    → Keeps s t
put-Keeps s t j old new at owner lease e = keeps (λ k v v_at. elim (Bool-cases (j == k)) [
  | inl same ↦
      let one : old ≡ v = cc (same-eq j k same, at, v_at) in
      (
        new,
        rw e (rw get-put (rw same)),
        owner ∙ ap (λ (r : ProductionRun). r.lease_owner) one,
        lease ∙ ap (λ (r : ProductionRun). r.lease_expires_at) one,
      )
  | inr other ↦ (v, rw e (rw get-put (rw other v_at)), refl, refl)
])

-- A new run.
add-Keeps :
    (s t : Store) (j : String) (new : ProductionRun)
    → get j s.runs ≡ none
    → t.runs ≡ put j new s.runs
    → Keeps s t
add-Keeps s t j new absent e = keeps (λ k v v_at. elim (Bool-cases (j == k)) [
  | inl same ↦ absurd (cc (same-eq j k same, absent, v_at))
  | inr other ↦ (v, rw e (rw get-put (rw other v_at)), refl, refl)
])

admit_round-Keeps :
    (rounds : Store → Admitted) (chosen : Result Error (Option ProductionRun)) (s : Store)
    → IsValid s.runs
    → next_admission s ≡ chosen
    → ((t : Store) → IsValid t.runs → Keeps t (rounds t).1)
    → Keeps s (admit_round rounds chosen s).1
unfolding admit_round promote
admit_round-Keeps rounds (err e) s valid eq rest = same-Keeps s s refl
admit_round-Keeps rounds (ok none) s valid eq rest = same-Keeps s s refl
admit_round-Keeps rounds (ok (some run)) s valid eq rest =
    let c = next_admission-IsCandidate s run valid eq in
    let st = promote-RunsStep s run c in
    Keeps-trans s (promote run s) _
      (put-Keeps s (promote run s) run.run_id run (promoted run) c.at refl refl refl)
      (rest (promote run s) (RunsStep-IsValid st valid))

pub admit_loop-Keeps : (fuel : ℕ) (s : Store) → IsValid s.runs → Keeps s (admit_loop fuel s).1
unfolding admit_loop
admit_loop-Keeps zero s valid = same-Keeps s s refl
admit_loop-Keeps (suc fuel) s valid =
    admit_round-Keeps (admit_loop fuel) (next_admission s) s valid refl (admit_loop-Keeps fuel)

pub create_run_dispatch-Keeps :
    (hex run_id task owner reason : String) (now : ℕ) (s : Store)
    → Keeps s (create_run_dispatch hex run_id task owner reason now s).1
unfolding create_run_dispatch dispatch_new
create_run_dispatch-Keeps hex run_id task owner reason now s =
    elim (Option-cases (get run_id s.runs)) [
      | inr (run, at) ↦ rw (at, create_run_dispatch) (same-Keeps s s refl)
      | inl absent ↦ rw (absent, create_run_dispatch) (add-Keeps s _ run_id _ absent refl)
    ]

pub request_cancellation-Keeps :
    (run_id owner : String) (now : ℕ) (s : Store)
    → Keeps s (request_cancellation run_id owner now s).1
unfolding request_cancellation
request_cancellation-Keeps run_id owner now s = elim (Option-cases (get run_id s.runs)) [
  | inl absent ↦ rw (absent, request_cancellation) (same-Keeps s s refl)
  | inr (run, at) ↦ elim (Bool-cases (run.owner_id == owner)) [
    | inr other ↦ rw (at, request_cancellation, other) (same-Keeps s s refl)
    | inl own ↦ elim (Bool-cases (is_terminal run.status)) [
      | inl over ↦ rw (at, request_cancellation, own, over) (same-Keeps s s refl)
      | inr live ↦
          rw (at, request_cancellation, own, live)
            (put-Keeps s _ run_id run (cancelled_at now run) at refl refl refl)
    ]
  ]
]

retry_new-Keeps :
    (run_hex message_hex owner : String) (now : ℕ) (key hash : String) (previous : ProductionRun)
    (s : Store)
    → Keeps s (retry_new run_hex message_hex owner now key hash previous s).1
unfolding retry_new record_retry
retry_new-Keeps run_hex message_hex owner now key hash previous s =
    let new_id : String = text_append "run-" run_hex in
    let made = create_run_dispatch message_hex new_id previous.task_id owner "RETRY" now s in
    let f = create_run_dispatch-Keeps message_hex new_id previous.task_id owner "RETRY" now s in
    elim (Result-cases made.0) [
      | inl (e, failed) ↦ rw (retry_new, failed) f
      | inr (message, created) ↦
          rw (retry_new, created) (Keeps-trans s made.1 _ f (same-Keeps made.1 _ refl))
    ]

pub retry_run-Keeps :
    (run_hex message_hex run_id owner : String) (now : ℕ) (key hash : String) (s : Store)
    → Keeps s (retry_run run_hex message_hex run_id owner now key hash s).1
unfolding retry_run
retry_run-Keeps run_hex message_hex run_id owner now key hash s =
    let same = same-Keeps s s refl in
    elim (Option-cases (get (owner, key) s.command_idempotency)) [
      | inr (replay, found) ↦ ground (arith, same)
      | inl unknown ↦ elim (Option-cases (get run_id s.runs)) [
        | inl absent ↦ ground (arith, same)
        | inr (run, at) ↦
            ground (arith, same, retry_new-Keeps run_hex message_hex owner now key hash run s)
      ]
    ]
