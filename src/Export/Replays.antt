-- ===== src/Export/Replays.antt =====
-- Idempotent runs and the binding of a task in src/prd_agent/export/store.py.
use prd_agent.Base.{
  text_key, pair_key, ◌≡◌, ◌≢◌, refl, sym, ap, ◌∙◌, String, none, some, List, [], ◌∷◌, arith, ok,
  err, ◌==◌, Option-cases, Bool-cases, inl, inr,
}
use prd_agent.Base.Tests.{same_refl}
use prd_agent.Base.Dict.{get, put, get-put, get-put_self}
use prd_agent.Export.Model.{ExportRun, ExportStore, idempotency_conflict}
use prd_agent.Export.Store.{begin_run, get_replay, get_binding}
use prd_agent.Export.Step.{Op, step, history}
use prd_agent.Export.Store as Store

-- The key is bound to the hash, and its run is stored.
abbrev pub IsBound : String × String → String → ExportStore → Type 0
IsBound key hash s =
    (id : String) × (run : ExportRun) × (get key s.replays ≡ some (hash, id))
    × (get id s.runs ≡ some run)

-- A write of a run leaves every stored run stored.
runs-put :
    (s : ExportStore) (id : String) (run new : ExportRun)
    → get id s.runs ≡ some run
    → (r : ExportRun) × (get id (put new.export_run_id new s.runs) ≡ some r)
runs-put s id run new found = elim (Option-cases (get id (put new.export_run_id new s.runs))) [
  | inl absent ↦ absurd (
      ground
        (arith, get-put new.export_run_id id new s.runs, text_key.same_iff new.export_run_id id))
  | inr (r, at) ↦ (r, at)
]

-- A store whose replay of this key is as before, and whose runs are as before or one more.
stays-IsBound :
    (key : String × String) (hash : String) (s t : ExportStore) (run : ExportRun)
    → get key t.replays ≡ get key s.replays
    → t.runs ≡ put run.export_run_id run s.runs
    → IsBound key hash s
    → IsBound key hash t
stays-IsBound key hash s t run same runs (id, old, found, at) =
    let (r, there) = runs-put s id old run at in (id, r, rw same found, rw runs there)

rebinds-IsBound :
    (key : String × String) (hash : String) (s t : ExportStore) (run : ExportRun)
    → t.replays ≡ put key (hash, run.export_run_id) s.replays
    → t.runs ≡ put run.export_run_id run s.runs
    → IsBound key hash t
rebinds-IsBound key hash s t run replays runs = (
  run.export_run_id,
  run,
  rw replays (get-put_self key (hash, run.export_run_id) s.replays),
  rw runs (get-put_self run.export_run_id run s.runs),
)

-- The store with the run and its replay.
abbrev with_replay : String × String → String → ExportRun → ExportStore → ExportStore
with_replay key hash run s = record s {
  runs = put run.export_run_id run s.runs;
  replays = put key (hash, run.export_run_id) s.replays;
}

with_replay-IsBound :
    (key : String × String) (hash : String) (k : String × String) (h : String) (run : ExportRun)
    (s : ExportStore)
    → IsBound key hash s
    → (k ≡ key → h ≡ hash)
    → IsBound key hash (with_replay k h run s)
with_replay-IsBound key hash k h run s bound same =
    let keys = pair_key.same_iff k key in
    elim (Bool-cases (k == key)) [
      | inl here ↦
          let e : (k ≡ key) = keys.0 here in
          rebinds-IsBound key hash s (with_replay k h run s) run (rw (e, same e) refl) refl
      | inr apart ↦
          stays-IsBound key hash s (with_replay k h run s) run
            (ground (arith, get-put k key (h, run.export_run_id) s.replays)) refl bound
    ]

begin_run-IsBound :
    (key : String × String) (hash o k h : String) (run : ExportRun) (s : ExportStore)
    → IsBound key hash s
    → IsBound key hash (begin_run o k h run s).1
unfolding begin_run
begin_run-IsBound key hash o k h run s bound = elim (Option-cases (get (o, k) s.replays)) [
  | inl absent ↦
      rw (begin_run, absent)
        (with_replay-IsBound key hash (o, k) h run s bound
          (λ same. absurd (ground (arith, sym absent ∙ ap (λ j. get j s.replays) same ∙ bound.2))))
  | inr (current, there) ↦ elim (Bool-cases (current.0 == h)) [
    | inl same ↦ rw (begin_run, there, same) bound
    | inr other ↦ rw (begin_run, there, other) bound
  ]
]

save_replay-IsBound :
    (key : String × String) (hash o k h : String) (run : ExportRun) (s : ExportStore)
    → IsBound key hash s
    → IsBound key hash (Store.save_replay o k h run s).1
unfolding Store.save_replay
save_replay-IsBound key hash o k h run s bound = elim (Option-cases (get (o, k) s.replays)) [
  | inl absent ↦
      rw (Store.save_replay, absent)
        (with_replay-IsBound key hash (o, k) h run s bound
          (λ same. absurd (ground (arith, sym absent ∙ ap (λ j. get j s.replays) same ∙ bound.2))))
  | inr (current, there) ↦ elim (Bool-cases (current.0 == h)) [
    | inl same ↦
        rw (Store.save_replay, there, same)
          (with_replay-IsBound key hash (o, k) h run s bound
            (λ e. ground (
              arith,
              text_key.same_iff current.0 h,
              sym there ∙ ap (λ j. get j s.replays) e ∙ bound.2,
            )))
    | inr other ↦ rw (Store.save_replay, there, other) bound
  ]
]

step-IsBound :
    (key : String × String) (hash : String) (op : Op) (s : ExportStore)
    → IsBound key hash s
    → IsBound key hash (step op s)
unfolding step Store.save_intent Store.consume_intent Store.save_preview_replay Store.begin_preview
    Store.save_binding Store.save_run Store.claim_intent Store.release_intent_claim
    Store.consume_claimed_intent
step-IsBound key hash (Op.save_intent x) s bound = bound
step-IsBound key hash (Op.consume_intent x) s bound = bound
step-IsBound key hash (Op.save_preview_replay o k h x) s (id, r, found, at) =
    (id, r, ground arith, ground arith)
step-IsBound key hash (Op.begin_preview o k h x) s (id, r, found, at) =
    (id, r, ground arith, ground arith)
step-IsBound key hash (Op.save_binding b) s (id, r, found, at) = (id, r, ground arith, ground arith)
step-IsBound key hash (Op.save_run run) s bound =
    stays-IsBound key hash s (Store.save_run run s) run refl refl bound
step-IsBound key hash (Op.begin_run o k h run) s bound =
    begin_run-IsBound key hash o k h run s bound
step-IsBound key hash (Op.save_replay o k h run) s bound =
    save_replay-IsBound key hash o k h run s bound
step-IsBound key hash (Op.claim_intent j o c now e) s (id, r, found, at) =
    (id, r, ground arith, ground arith)
step-IsBound key hash (Op.release_intent_claim j o c) s (id, r, found, at) =
    (id, r, ground arith, ground arith)
step-IsBound key hash (Op.consume_claimed_intent j o c now) s (id, r, found, at) =
    elim (Option-cases (get j s.intents)) [
      | inl absent ↦ (id, r, ground arith, ground arith)
      | inr (v, there) ↦ (id, r, ground arith, ground arith)
    ]

history-IsBound :
    (key : String × String) (hash : String) (ops : List Op) (s : ExportStore)
    → IsBound key hash s
    → IsBound key hash (history ops s)
unfolding history
history-IsBound key hash [] s bound = bound
history-IsBound key hash (op ∷ ops) s bound =
    history-IsBound key hash ops (step op s) (step-IsBound key hash op s bound)

begin_run-starts :
    (o k h : String) (run : ExportRun) (s t : ExportStore)
    → begin_run o k h run s ≡ (ok none, t)
    → t ≡ with_replay (o, k) h run s
unfolding begin_run
begin_run-starts o k h run s t e = elim (Option-cases (get (o, k) s.replays)) [
  | inl absent ↦ ground arith
  | inr (current, there) ↦ elim (Option-cases (get current.1 s.runs)) [
    | inl lost ↦ absurd (ground arith)
    | inr (r, at) ↦ absurd (ground arith)
  ]
]

bound-begins :
    (o k h other : String) (again : ExportRun) (u : ExportStore)
    → other ≢ h
    → IsBound (o, k) h u
    → ((r : ExportRun) × (get_replay o k u ≡ ok (some (h, r)))
        × (begin_run o k h again u ≡ (ok (some r), u)))
      × (begin_run o k other again u ≡ (err idempotency_conflict, u))
unfolding begin_run get_replay
bound-begins o k h other again u ne (id, r, found, at) =
    ((r, ground arith, ground (arith, same_refl h)), ground (arith, text_key.same_iff h other))

-- A key starts one run. When `begin_run` has started a run for an owner's key, then after any
-- further history of the store a `begin_run` with this key and the same input hash returns a
-- stored run, the one that `get_replay` returns, one with another hash is refused as a conflict,
-- and neither starts a run or changes the store.
pub begin_run_once :
    (o k h : String) (run : ExportRun) (s t : ExportStore) (ops : List Op) (other : String)
    (again : ExportRun)
    → begin_run o k h run s ≡ (ok none, t)
    → other ≢ h
    → let u = history ops t in
      ((r : ExportRun) × (get_replay o k u ≡ ok (some (h, r)))
        × (begin_run o k h again u ≡ (ok (some r), u)))
      × (begin_run o k other again u ≡ (err idempotency_conflict, u))
begin_run_once o k h run s t ops other again e ne =
    let start : IsBound (o, k) h t =
      rebinds-IsBound (o, k) h s t run
        (ap (λ (v : ExportStore). v.replays) (begin_run-starts o k h run s t e))
        (ap (λ (v : ExportStore). v.runs) (begin_run-starts o k h run s t e)) in
    bound-begins o k h other again (history ops t) ne (history-IsBound (o, k) h ops t start)
