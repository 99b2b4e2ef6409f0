-- ===== src/Runtime/Replay.antt =====
-- What a call's outcome is when it is asked for again: RunExecutionLedger,
-- agent-python/agent/runtime/ledger.py.
use prd_agent.Base.{
  text_key, ◌≡◌, refl, sym, ◌∙◌, ap, subst, String, true, false, some, List, Result, ok, err, inl,
  inr, ◌==◌, same_refl, arith, Bool-cases, Option-cases, Result-cases,
}
use prd_agent.Base.Dict.{get, get-put_self}
use prd_agent.Base.Json.{Json, get_field}
use prd_agent.Base.Texts.{is_blank}
use prd_agent.Runtime.Budget.{BudgetVector, LedgerError, reserve}
use prd_agent.Runtime.Entries.{
  Library, LedgerStatus, RunLedgerEntry, RunArtifact, EvidenceItem, LedgerCallSpec, LedgerOutcome,
  validate_spec, is_identity, build_artifact, outcome_artifact_key, encode_outcome, open_envelope,
  envelope,
}
use prd_agent.Runtime.Ledger.{
  RunExecutionLedger, Call, Returned, settle, succeed, fail, start, replay, resume,
  finish_durable_ahead, stored, artifact_for, artifact_key_of, evidence_for, consumption_for,
  invoked, again, begin, execute, finished_entry, outcome_of,
}

-- The ledger holds the finished entry of the call, and the artifact of its value.
abbrev pub Holds : Library → String → Call → LedgerOutcome → RunExecutionLedger → Type 0
Holds l kind call out t =
    (items : List EvidenceItem) × (get call.spec.operation_key t.entries
      ≡ some (finished_entry l call.spec out.artifact items out.consumption))
    × (get out.artifact.artifact_key t.artifacts ≡ some out.artifact)
    × (out.artifact
        ≡ build_artifact l (outcome_artifact_key l t.run_id call.spec.operation_key) kind
            call.spec.request_hash call.spec.outcome_schema out.value)

-- What was returned, if it was not a replay, is held.
abbrev pub Recorded : Library → String → Call → Returned → Type 0
Recorded l kind call (err e, t) = Unit
Recorded l kind call (ok out, t) = out.replayed ≡ false → Holds l kind call out t

succeed-Recorded :
    (l : Library) (kind : String) (call : Call) (value : Json) (s : RunExecutionLedger)
    → Recorded l kind call (succeed l kind call value s)
unfolding succeed settle outcome_of
succeed-Recorded l kind call value s = elim (Result-cases (evidence_for call value)) [
  | inl (e, failed) ↦ rw (succeed, failed) tt
  | inr (items, given) ↦ elim (Result-cases (consumption_for call value)) [
    | inl (e, failed) ↦ rw (succeed, given, failed) tt
    | inr (actual, counted) ↦
        let a = outcome_of l kind call value s in
        rw (succeed, given, counted)
          (λ fresh. (
            items,
            get-put_self call.spec.operation_key (finished_entry l call.spec a items actual)
                s.entries,
            get-put_self a.artifact_key a s.artifacts,
            refl,
          ))
  ]
]

start-Recorded :
    (l : Library) (kind : String) (call : Call) (s : RunExecutionLedger)
    → Recorded l kind call (start l kind call s)
unfolding start fail
start-Recorded l kind call s = elim (Result-cases (invoked call)) [
  | inl (e, failed) ↦ rw (start, failed) tt
  | inr (value, valid) ↦ rw (start, valid) (succeed-Recorded l kind call value _)
]

replay-Recorded :
    (l : Library) (kind : String) (entry : RunLedgerEntry) (call : Call) (s : RunExecutionLedger)
    → Recorded l kind call (replay l entry call s)
unfolding replay
replay-Recorded l kind entry call s = elim (Result-cases (stored l entry call s)) [
  | inl (e, failed) ↦ rw (replay, failed) tt
  | inr (found, read) ↦ rw (replay, read) (λ (h : true ≡ false). absurd (ground (arith, h)))
]

finish_durable_ahead-Recorded :
    (l : Library) (kind : String) (entry : RunLedgerEntry) (call : Call) (s : RunExecutionLedger)
    → Recorded l kind call (finish_durable_ahead l entry call s)
unfolding finish_durable_ahead settle
finish_durable_ahead-Recorded l kind entry call s = elim (Result-cases (stored l entry call s)) [
  | inl (e, failed) ↦ rw (finish_durable_ahead, failed) tt
  | inr (found, read) ↦ elim (Result-cases (evidence_for call found.1)) [
    | inl (e, failed) ↦ rw (finish_durable_ahead, read, failed) tt
    | inr (items, given) ↦
        rw (finish_durable_ahead, read, given) (λ (h : true ≡ false). absurd (ground (arith, h)))
  ]
]

again-Recorded :
    (l : Library) (kind : String) (entry : RunLedgerEntry) (status : LedgerStatus) (call : Call)
    (s : RunExecutionLedger)
    → Recorded l kind call (again l kind entry status call s)
unfolding again resume
again-Recorded l kind entry LedgerStatus.succeeded call s = replay-Recorded l kind entry call s
again-Recorded l kind entry LedgerStatus.failed call s = tt
again-Recorded l kind entry LedgerStatus.outcome_unknown_status call s = tt
again-Recorded l kind entry LedgerStatus.call_started call s =
    elim (Option-cases (get (artifact_key_of l entry call.spec s) s.artifacts)) [
      | inl missing ↦ rw (again, resume, missing) tt
      | inr (a, found) ↦
          rw (again, resume, found) (finish_durable_ahead-Recorded l kind entry call s)
    ]
again-Recorded l kind entry LedgerStatus.reserved call s = start-Recorded l kind call s
again-Recorded l kind entry LedgerStatus.other_status call s = start-Recorded l kind call s

execute-Recorded :
    (l : Library) (expected kind : String) (call : Call) (s : RunExecutionLedger)
    → Recorded l kind call (execute l expected kind call s)
unfolding execute begin
execute-Recorded l expected kind call s = elim (Result-cases (validate_spec l call.spec expected)) [
  | inl (e, failed) ↦ rw (execute, failed) tt
  | inr (done, valid) ↦ elim (Option-cases (get call.spec.operation_key s.entries)) [
    | inl new ↦ elim (Result-cases (reserve call.spec.reservation s.budget)) [
      | inl (e, failed) ↦ rw (execute, valid, new, begin, failed) tt
      | inr (budget, reserved) ↦
          rw (execute, valid, new, begin, reserved) (start-Recorded l kind call _)
    ]
    | inr (entry, found) ↦ elim (Bool-cases (is_identity entry call.spec)) [
      | inl same ↦
          rw (execute, valid, found, same) (again-Recorded l kind entry entry.status call s)
      | inr other ↦ rw (execute, valid, found, other) tt
    ]
  ]
]

-- json.loads reads back the value of the envelope that canonical_json wrote.
abbrev pub IsReadBack : Library → String → Json → Type 0
IsReadBack l schema value =
    l.loads (l.canonical_json (envelope schema value)) ≡ some (envelope schema value)

held-artifact_for :
    (l : Library) (kind : String) (call : Call) (out : LedgerOutcome) (items : List EvidenceItem)
    (u : RunExecutionLedger)
    → get out.artifact.artifact_key u.artifacts ≡ some out.artifact
    → out.artifact
      ≡ build_artifact l
          (outcome_artifact_key l u.run_id call.spec.operation_key)
          kind
          call.spec.request_hash
          call.spec.outcome_schema
          out.value
    → artifact_for l (finished_entry l call.spec out.artifact items out.consumption) call.spec u
      ≡ ok out.artifact
unfolding artifact_for build_artifact
held-artifact_for l kind call out items u found built =
    let entry = finished_entry l call.spec out.artifact items out.consumption in
    let key : artifact_key_of l entry call.spec u ≡ out.artifact.artifact_key =
      elim (Bool-cases (is_blank out.artifact.artifact_key)) [
        | inl blank ↦ rw blank (sym (ap (λ a. a.artifact_key) built))
        | inr given ↦ rw given refl
      ] in
    let same : out.artifact.request_hash ≡ call.spec.request_hash =
      ap (λ a. a.request_hash) built in
    let request : (out.artifact.request_hash == call.spec.request_hash) ≡ true =
      (text_key.same_iff out.artifact.request_hash call.spec.request_hash).1 same in
    elim (Bool-cases (is_blank out.artifact.content_hash)) [
      | inl blank ↦ rw (artifact_for, key, found, request, blank) refl
      | inr given ↦
          rw (artifact_for, key, found, request, given, same_refl out.artifact.content_hash) refl
    ]

held-stored :
    (l : Library) (kind : String) (call d : Call) (out : LedgerOutcome) (value : Json)
    (items : List EvidenceItem) (u : RunExecutionLedger)
    → get out.artifact.artifact_key u.artifacts ≡ some out.artifact
    → out.artifact
      ≡ build_artifact l
          (outcome_artifact_key l u.run_id call.spec.operation_key)
          kind
          call.spec.request_hash
          call.spec.outcome_schema
          out.value
    → IsReadBack l call.spec.outcome_schema out.value
    → d.validate out.value ≡ ok value
    → stored l
        (finished_entry l call.spec out.artifact items out.consumption)
        (record d { spec = call.spec })
        u
      ≡ ok (out.artifact, value)
unfolding stored build_artifact encode_outcome open_envelope get_field
held-stored l kind call d out value items u found built back valid =
    let content : out.artifact.content ≡ encode_outcome l call.spec.outcome_schema out.value =
      ap (λ a. a.content) built in
    let opened : Json = envelope call.spec.outcome_schema out.value in
    let read : l.loads out.artifact.content ≡ some opened = ap l.loads content ∙ back in
    let canonical : (l.canonical_json opened == out.artifact.content) ≡ true =
      (text_key.same_iff (l.canonical_json opened) out.artifact.content).1 (sym content) in
    rw
      (
        stored,
        held-artifact_for l kind call out items u found built,
        read,
        same_refl call.spec.outcome_schema,
        canonical,
        valid,
      )
      refl

returned-validate_spec :
    (l : Library) (expected kind : String) (call : Call) (s t : RunExecutionLedger)
    (out : LedgerOutcome)
    → execute l expected kind call s ≡ (ok out, t)
    → validate_spec l call.spec expected ≡ ok tt
unfolding execute
returned-validate_spec l expected kind call s t out ran =
    elim (Result-cases (validate_spec l call.spec expected)) [
      | inl (e, failed) ↦
          let refused : execute l expected kind call s ≡ (err e, s) = rw (execute, failed) refl in
          let wrong : ◌≡◌ {A = Result LedgerError LedgerOutcome} (ok out) (err e) =
            ap (λ r. r.0) (sym ran ∙ refused) in
          absurd (ground (arith, wrong))
      | inr (done, valid) ↦ valid
    ]

own-is_identity :
    (l : Library) (spec : LedgerCallSpec) (a : RunArtifact) (items : List EvidenceItem)
    (actual : BudgetVector)
    → is_identity (finished_entry l spec a items actual) spec ≡ true
unfolding is_identity
own-is_identity l spec a items actual =
    rw (same_refl spec.request_hash, same_refl spec.entry_kind, same_refl spec.operation) refl

-- A call has returned what it made. In whatever later ledger of the run the key still has its entry
-- and its artifact, and if json.loads reads back what canonical_json wrote of it, a call of the same
-- specification, whatever it would do itself and whatever else the ledger holds, returns the value,
-- by its own validation, as a replay with the same artifact and consumption, makes no call, and
-- changes nothing.
pub execute-replays :
    (l : Library) (expected kind : String) (call d : Call) (s t u : RunExecutionLedger)
    (out : LedgerOutcome) (value : Json)
    → execute l expected kind call s ≡ (ok out, t)
    → out.replayed ≡ false
    → u.run_id ≡ t.run_id
    → get call.spec.operation_key u.entries ≡ get call.spec.operation_key t.entries
    → get out.artifact.artifact_key u.artifacts ≡ get out.artifact.artifact_key t.artifacts
    → IsReadBack l call.spec.outcome_schema out.value
    → d.validate out.value ≡ ok value
    → execute l expected kind (record d { spec = call.spec }) u ≡ (
      ok (record {
        value = value;
        artifact = out.artifact;
        replayed = true;
        consumption = out.consumption;
      }),
      u,
    )
unfolding execute again replay
execute-replays l expected kind call d s t u out value ran fresh run entries artifacts back valid =
    let (items, entry_held, artifact_held, built) =
      subst (Recorded l kind call) ran (execute-Recorded l expected kind call s) fresh in
    let entry = finished_entry l call.spec out.artifact items out.consumption in
    let found : get call.spec.operation_key u.entries ≡ some entry = entries ∙ entry_held in
    let here : out.artifact
        ≡ build_artifact l (outcome_artifact_key l u.run_id call.spec.operation_key) kind
            call.spec.request_hash call.spec.outcome_schema out.value =
      rw run built in
    rw
      (
        execute,
        returned-validate_spec l expected kind call s t out ran,
        found,
        own-is_identity l call.spec out.artifact items out.consumption,
        again,
        replay,
        held-stored l kind call d out value items u (artifacts ∙ artifact_held) here back valid,
      )
      refl
