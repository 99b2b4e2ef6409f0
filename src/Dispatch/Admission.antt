-- ===== src/Dispatch/Admission.antt =====
-- Admission of runs to queue slots: `_runnable_runs`, `_can_admit`,
-- `_release_and_admit_waiting_locked` of src/prd_agent/production/dispatch.py.
use prd_agent.Base.{
  nat_key, text_key, ℕ, zero, suc, String, Bool, true, ◌&&◌, ◌||◌, Option, none, some, List, [],
  ◌∷◌, length, count, filter, ltb, leb, ◌==◌, if◌then◌else◌, Result, ok, err, ◌>>=◌, or_raise,
}
use prd_agent.Base.Dict.{get, put, values}
use prd_agent.Base.Sort.{min_by}
use prd_agent.Dispatch.Model.{
  ProductionRun, Store, Error, key_error, is_runnable, is_waiting_capacity, queued,
}

abbrev pub is_runnable_run : ProductionRun → Bool
is_runnable_run run = run.queue_slot_acquired && is_runnable run.status

unfoldable pub runnable_runs : Store → List ProductionRun
runnable_runs s = filter is_runnable_run (values s.runs)

unfoldable pub can_admit : Store → String → Bool
can_admit s owner_id =
    let runnable = runnable_runs s in
    ltb (length runnable) s.queue_policy.max_global_runnable
    && ltb (count (λ run. run.owner_id == owner_id) runnable) s.queue_policy.max_runnable_per_owner

-- The key of `min`: the turn of the owner's last admission, -1 if there is none (here 0, the turns
-- shifted by one), then the order of creation.
abbrev pub Key : Type 0
Key = ℕ × ℕ

abbrev pub last_turn : Option ℕ → ℕ
last_turn none = 0
last_turn (some turn) = suc turn

unfoldable pub admission_key : Store → ProductionRun → Result Error Key
admission_key s run = do
  order ← or_raise (get run.run_id s.created_order) key_error
  ok (last_turn (get run.owner_id s.owner_last_admitted), order)

abbrev pub key_le : Key × ProductionRun → Key × ProductionRun → Bool
key_le a b = ltb a.0.0 b.0.0 || (a.0.0 == b.0.0 && leb a.0.1 b.0.1)

unfoldable pub with_keys : Store → List ProductionRun → Result Error (List (Key × ProductionRun))
with_keys s [] = ok []
with_keys s (run ∷ rest) = do
  key ← admission_key s run
  keyed ← with_keys s rest
  ok ((key, run) ∷ keyed)

abbrev pub least : List (Key × ProductionRun) → Option ProductionRun
least [] = none
least (c ∷ cs) = some (min_by key_le c cs).1

unfoldable pub candidates : Store → List ProductionRun
candidates s =
    filter (λ run. is_waiting_capacity run.status && can_admit s run.owner_id) (values s.runs)

-- The loop's test and choice: `none` where the loop ends.
unfoldable pub next_admission : Store → Result Error (Option ProductionRun)
next_admission s =
    if ltb (length (runnable_runs s)) s.queue_policy.max_global_runnable
    then (do keyed ← with_keys s (candidates s); ok (least keyed))
    else ok none

abbrev pub promoted : ProductionRun → ProductionRun
promoted run = record run { status = queued; queue_slot_acquired = true }

-- The loop's body.
unfoldable pub promote : ProductionRun → Store → Store
promote run s = record s {
  admission_turn = suc s.admission_turn;
  owner_last_admitted = put run.owner_id (suc s.admission_turn) s.owner_last_admitted;
  runs = put run.run_id (promoted run) s.runs;
}

abbrev pub Admitted : Type 0
Admitted = Result Error (List ProductionRun) × Store

abbrev pub prepend : {E A : Type 0} → A → Result E (List A) → Result E (List A)
prepend a (ok as') = ok (a ∷ as')
prepend a (err e) = err e

-- One round, with the rounds that follow as an argument.
unfoldable pub admit_round :
    (Store → Admitted) → Result Error (Option ProductionRun) → Store → Admitted
admit_round rounds (err e) s = (err e, s)
admit_round rounds (ok none) s = (ok [], s)
admit_round rounds (ok (some run)) s =
    let (rest, s') = rounds (promote run s) in (prepend (promoted run) rest, s')

-- The loop, on fuel.
unfoldable pub admit_loop : ℕ → Store → Admitted
admit_loop zero s = (ok [], s)
admit_loop (suc fuel) s = admit_round (admit_loop fuel) (next_admission s) s

-- Each round takes a run out of WAITING_CAPACITY.
abbrev pub waiting_count : Store → ℕ
waiting_count s = count (λ run. is_waiting_capacity run.status) (values s.runs)

unfoldable pub release_and_admit_waiting : Store → Admitted
release_and_admit_waiting s = admit_loop (suc (waiting_count s)) s

-- admit_waiting_runs
unfoldable pub admit_waiting_runs : Store → Admitted
admit_waiting_runs s = release_and_admit_waiting s
