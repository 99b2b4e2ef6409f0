-- ===== src/Dispatch/Turns.antt =====
-- Whom the admission loop of src/prd_agent/production/dispatch.py takes first.
use prd_agent.Base.{
  ℕ, ◌≤◌, ◌<◌, ◌≡◌, refl, sym, ap, subst, ◌∙◌, String, Bool, true, false, Option, none, some, List,
  [], ◌∷◌, arith, text_key, nat_key, Bool-cases, Option-cases, inl, inr, ◌==◌, ok, ◌>>=◌, >>=-ok,
  ok-injective, length, All, ltb, filter, length-filter, count-filter, ◌&&◌,
}
use prd_agent.Base.Dict.{Dict, get, values}
use prd_agent.Base.Sort.{min_by, min_by-All, min_by_least}
use prd_agent.Dispatch.Model.{ProductionRun, Store, is_waiting_capacity, waiting_capacity}
use prd_agent.Dispatch.Admission.{
  Key, key_le, last_turn, admission_key, with_keys, least, candidates, next_admission,
  runnable_runs, can_admit, is_runnable_run,
}
use prd_agent.Dispatch.Machine.{IsValid, HasRoom}
use prd_agent.Dispatch.Refines.Admission.{next_admission-IsCandidate, can_admit-HasRoom}

-- Run `a` is not to wait longer than `b`: its owner was never admitted and the other's was, or its
-- owner's last admission is the earlier one, or neither owner is ahead and it was created first.
pub data Precedes (s : Store) (a b : ProductionRun) : Type 0 where
  never_admitted :
      (turn : ℕ)
      → get a.owner_id s.owner_last_admitted ≡ none
      → get b.owner_id s.owner_last_admitted ≡ some turn
      → Precedes s a b
  admitted_earlier :
      (turn later : ℕ)
      → get a.owner_id s.owner_last_admitted ≡ some turn
      → get b.owner_id s.owner_last_admitted ≡ some later
      → turn < later
      → Precedes s a b
  created_first :
      (m n : ℕ)
      → get a.owner_id s.owner_last_admitted ≡ get b.owner_id s.owner_last_admitted
      → get a.run_id s.created_order ≡ some m
      → get b.run_id s.created_order ≡ some n
      → m ≤ n
      → Precedes s a b

-- The run stands in the store under its id, waits for capacity, and both limits leave room for it.
pub record IsAdmissible (s : Store) (k : String) (run : ProductionRun) : Type 0 where
  pub at : get k s.runs ≡ some run
  pub waiting : run.status ≡ waiting_capacity
  pub room : HasRoom s.queue_policy s.runs run.owner_id

key_refl : (a : Key × ProductionRun) → key_le a a ≡ true
key_refl a = ground arith

key_trans :
    (a b c : Key × ProductionRun) → key_le a b ≡ true → key_le b c ≡ true → key_le a c ≡ true
key_trans a b c h g = ground arith

key_flip : (a b : Key × ProductionRun) → key_le a b ≡ false → key_le b a ≡ true
key_flip a b h = ground arith

with_keys-keys :
    (s : Store) (runs : List ProductionRun) (keyed : List (Key × ProductionRun))
    → with_keys s runs ≡ ok keyed
    → All (λ c. admission_key s c.1 ≡ ok c.0) keyed
unfolding with_keys
with_keys-keys s [] keyed e = subst (All (λ c. admission_key s c.1 ≡ ok c.0)) (ok-injective e) tt
with_keys-keys s (run ∷ rest) keyed e =
    let (key, key_eq, e₁) = >>=-ok (admission_key s run) _ e in
    let (ks, ks_eq, e₂) = >>=-ok (with_keys s rest) _ e₁ in
    subst (All (λ c. admission_key s c.1 ≡ ok c.0)) (ok-injective e₂)
      (key_eq, with_keys-keys s rest ks ks_eq)

-- The order of creation of a key.
admission_key-order :
    (s : Store) (run : ProductionRun) (key : Key)
    → admission_key s run ≡ ok key
    → (get run.run_id s.created_order ≡ some key.1)
      × (key.0 ≡ last_turn (get run.owner_id s.owner_last_admitted))
unfolding admission_key
admission_key-order s run key e = elim (Option-cases (get run.run_id s.created_order)) [
  | inl absent ↦ absurd (ground arith)
  | inr (n, created) ↦ (ground arith, ground arith)
]

-- What the comparison of keys says of the turns.
turns-Precedes :
    (s : Store) (a b : ProductionRun) (i j : Key) (turn_a turn_b : Option ℕ)
    → get a.owner_id s.owner_last_admitted ≡ turn_a
    → get b.owner_id s.owner_last_admitted ≡ turn_b
    → i.0 ≡ last_turn turn_a
    → j.0 ≡ last_turn turn_b
    → get a.run_id s.created_order ≡ some i.1
    → get b.run_id s.created_order ≡ some j.1
    → key_le (i, a) (j, b) ≡ true
    → Precedes s a b
turns-Precedes s a b i j none none ta tb ei ej m n le =
    created_first i.1 j.1 (ta ∙ sym tb) m n (ground arith)
turns-Precedes s a b i j none (some u) ta tb ei ej m n le = never_admitted u ta tb
turns-Precedes s a b i j (some t) none ta tb ei ej m n le = absurd (ground arith)
turns-Precedes s a b i j (some t) (some u) ta tb ei ej m n le = elim (Bool-cases (ltb t u)) [
  | inl earlier ↦ admitted_earlier t u ta tb (ground arith)
  | inr not_earlier ↦
      let same : t ≡ u = ground arith in
      created_first i.1 j.1 (ta ∙ ap some same ∙ sym tb) m n (ground arith)
]

key-Precedes :
    (s : Store) (a b : ProductionRun) (i j : Key)
    → admission_key s a ≡ ok i
    → admission_key s b ≡ ok j
    → key_le (i, a) (j, b) ≡ true
    → Precedes s a b
key-Precedes s a b i j ea eb le =
    let (m, ti) = admission_key-order s a i ea in
    let (n, tj) = admission_key-order s b j eb in
    turns-Precedes s a b i j (get a.owner_id s.owner_last_admitted)
      (get b.owner_id s.owner_last_admitted) refl refl ti tj m n le

with_keys-Precedes :
    (s : Store) (m : Key × ProductionRun) (runs : List ProductionRun)
    (keyed : List (Key × ProductionRun))
    → admission_key s m.1 ≡ ok m.0
    → with_keys s runs ≡ ok keyed
    → All (λ c. key_le m c ≡ true) keyed
    → All (Precedes s m.1) runs
unfolding with_keys
with_keys-Precedes s m [] keyed own e h = tt
with_keys-Precedes s m (run ∷ rest) keyed own e h =
    let (key, key_eq, e₁) = >>=-ok (admission_key s run) _ e in
    let (ks, ks_eq, e₂) = >>=-ok (with_keys s rest) _ e₁ in
    let both : All (λ c. key_le m c ≡ true) ((key, run) ∷ ks) =
      subst (All (λ c. key_le m c ≡ true)) (sym (ok-injective e₂)) h in
    (
      key-Precedes s m.1 run m.0 key own key_eq both.0,
      with_keys-Precedes s m rest ks own ks_eq both.1,
    )

least-Precedes :
    (s : Store) (keyed : List (Key × ProductionRun)) (run : ProductionRun)
    → with_keys s (candidates s) ≡ ok keyed
    → least keyed ≡ some run
    → All (Precedes s run) (candidates s)
least-Precedes s [] run e h = absurd (ground arith)
least-Precedes s (c ∷ cs) run e h =
    let m = min_by key_le c cs in
    let same : m.1 ≡ run = cc in
    let keys = with_keys-keys s (candidates s) (c ∷ cs) e in
    let own : admission_key s m.1 ≡ ok m.0 =
      min_by-All key_le (λ a. admission_key s a.1 ≡ ok a.0) c cs keys.0 keys.1 in
    subst (λ r. All (Precedes s r) (candidates s)) same
      (with_keys-Precedes s m (candidates s) (c ∷ cs) own e
        (min_by_least key_le key_refl key_trans key_flip m c cs refl))

-- What holds of what passes a filter holds of each entry that passes its test.
passed-get :
    (P : ProductionRun → Type 0) (p : ProductionRun → Bool) (d : Dict String ProductionRun)
    (k : String) (v : ProductionRun)
    → All P (filter p (values d))
    → get k d ≡ some v
    → p v ≡ true
    → P v
unfolding get
passed-get P p [] k v h at passed = cc
passed-get P p ((j, w) ∷ d) k v h at passed = elim (Bool-cases (j == k)) [
  | inl here ↦ let same : w ≡ v = ground arith in subst P same (ground (arith, same))
  | inr later ↦ elim (Bool-cases (p w)) [
    | inl kept ↦ passed-get P p d k v (ground arith) (ground arith) passed
    | inr dropped ↦ passed-get P p d k v (ground arith) (ground arith) passed
  ]
]

HasRoom-can_admit :
    (s : Store) (owner : String) → HasRoom s.queue_policy s.runs owner → can_admit s owner ≡ true
unfolding can_admit runnable_runs
HasRoom-can_admit s owner room = ground (
  arith,
  length-filter is_runnable_run (values s.runs),
  count-filter is_runnable_run (λ run. run.owner_id == owner) (values s.runs),
)

admissible-test :
    (s : Store) (k : String) (run : ProductionRun)
    → IsAdmissible s k run
    → (is_waiting_capacity run.status && can_admit s run.owner_id) ≡ true
admissible-test s k run h =
    let waiting = h.waiting in
    let room = HasRoom-can_admit s run.owner_id h.room in rw (room, waiting) refl

-- Fairness. On valid runs, the run that the loop promotes next waits for capacity with room under
-- both limits, and it precedes every run of the store of which that holds: its owner was never
-- admitted and the other's was, or its owner's last admission is the earlier one, or the two owners'
-- last admissions are the same or both missing and it was created first.
pub next_admission_fair :
    (s : Store) (run : ProductionRun)
    → IsValid s.runs
    → next_admission s ≡ ok (some run)
    → IsAdmissible s run.run_id run
      × ((k : String) (other : ProductionRun) → IsAdmissible s k other → Precedes s run other)
unfolding next_admission candidates
next_admission_fair s run valid h =
    elim (Bool-cases (ltb (length (runnable_runs s)) s.queue_policy.max_global_runnable)) [
      | inr full ↦ absurd (ground arith)
      | inl room ↦
          let found : (do keyed ← with_keys s (candidates s); ok (least keyed)) ≡ ok (some run) =
            rw room at h in
          let (keyed, keyed_eq, e₁) = >>=-ok (with_keys s (candidates s)) _ found in
          let c = next_admission-IsCandidate s run valid h in
          (
            record {
              at = c.at;
              waiting = c.waiting;
              room = can_admit-HasRoom s run.owner_id c.admissible;
            },
            λ k other admissible.
                passed-get (Precedes s run)
                  (λ r. is_waiting_capacity r.status && can_admit s r.owner_id) s.runs k other
                  (least-Precedes s keyed run keyed_eq (ok-injective e₁)) admissible.at
                  (admissible-test s k other admissible),
          )
    ]
