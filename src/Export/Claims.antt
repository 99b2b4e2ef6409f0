-- ===== src/Export/Claims.antt =====
-- Claims and consumption of intents in src/prd_agent/export/store.py.
use prd_agent.Base.{
  text_key, ℕ, ◌≡◌, ◌≢◌, refl, String, true, false, some, List, [], ◌∷◌, All, arith, Option-cases,
  inl, inr,
}
use prd_agent.Base.Dict.{get, get-put, get-put_self}
use prd_agent.Export.Model.{ExportIntent, ExportStore}
use prd_agent.Export.Store.{
  claim_intent, consume_claimed_intent, is_claim_of, is_open, is_claimed, save_preview_replay,
}
use prd_agent.Export.Step.{Op, step, history}
use prd_agent.Export.Store as Store

-- The intent is there, with the time of its consumption.
abbrev pub IsConsumed : String → ℕ → ExportStore → Type 0
IsConsumed intent_id at s =
    (intent : ExportIntent) × (get intent_id s.intents ≡ some intent)
    × (intent.consumed_at ≡ some at)

-- The operation writes no intent of this id as a whole: a preview has a new id.
abbrev pub Spares : String → Op → Type 0
Spares i (Op.save_intent intent) = intent.intent_id ≢ i
Spares i (Op.consume_intent intent) = intent.intent_id ≢ i
Spares i (Op.begin_preview owner key hash intent) = intent.intent_id ≢ i
Spares i _ = Unit

consumption_spares :
    (i : String) (at : ℕ) (j o c : String) (now : ℕ) (s : ExportStore) (v : ExportIntent)
    → get i s.intents ≡ some v
    → v.consumed_at ≡ some at
    → get i (Store.consume_claimed_intent j o c now s).1.intents ≡ some v
unfolding Store.consume_claimed_intent
consumption_spares i at j o c now s v found done = elim (Option-cases (get j s.intents)) [
  | inl absent ↦ ground arith
  | inr (w, there) ↦
      ground
        (arith, get-put j i (record w { consumed_at = some now }) s.intents, text_key.same_iff j i)
]

step-IsConsumed :
    (i : String) (at : ℕ) (op : Op) (s : ExportStore)
    → Spares i op
    → IsConsumed i at s
    → IsConsumed i at (step op s)
unfolding step Store.save_intent Store.consume_intent Store.save_preview_replay Store.begin_preview
    Store.save_binding Store.save_run Store.begin_run Store.save_replay Store.claim_intent
    Store.release_intent_claim Store.consume_claimed_intent
step-IsConsumed i at (Op.save_intent x) s h (v, found, done) =
    (v, ground (arith, get-put x.intent_id i x s.intents, text_key.same_iff x.intent_id i), done)
step-IsConsumed i at (Op.consume_intent x) s h (v, found, done) =
    (v, ground (arith, get-put x.intent_id i x s.intents, text_key.same_iff x.intent_id i), done)
step-IsConsumed i at (Op.save_preview_replay o k hash x) s h (v, found, done) =
    (v, ground arith, done)
step-IsConsumed i at (Op.begin_preview o k hash x) s h (v, found, done) =
    (v, ground (arith, get-put x.intent_id i x s.intents, text_key.same_iff x.intent_id i), done)
step-IsConsumed i at (Op.save_binding b) s h (v, found, done) = (v, ground arith, done)
step-IsConsumed i at (Op.save_run r) s h (v, found, done) = (v, ground arith, done)
step-IsConsumed i at (Op.begin_run o k hash r) s h (v, found, done) = (v, ground arith, done)
step-IsConsumed i at (Op.save_replay o k hash r) s h (v, found, done) = (v, ground arith, done)
step-IsConsumed i at (Op.claim_intent j o c now e) s h (v, found, done) = (v, ground arith, done)
step-IsConsumed i at (Op.release_intent_claim j o c) s h (v, found, done) = (v, ground arith, done)
step-IsConsumed i at (Op.consume_claimed_intent j o c now) s h (v, found, done) =
    (v, consumption_spares i at j o c now s v found done, done)

history-IsConsumed :
    (i : String) (at : ℕ) (ops : List Op) (s : ExportStore)
    → All (Spares i) ops
    → IsConsumed i at s
    → IsConsumed i at (history ops s)
unfolding history
history-IsConsumed i at [] s h c = c
history-IsConsumed i at (op ∷ ops) s h c =
    history-IsConsumed i at ops (step op s) h.1 (step-IsConsumed i at op s h.0 c)

consume_claimed_intent-IsConsumed :
    (i o c : String) (at : ℕ) (s t : ExportStore)
    → consume_claimed_intent i o c at s ≡ (true, t)
    → IsConsumed i at t
unfolding consume_claimed_intent
consume_claimed_intent-IsConsumed i o c at s t h = elim (Option-cases (get i s.intents)) [
  | inl absent ↦ absurd (ground arith)
  | inr (v, there) ↦
      let done : ExportIntent = record v { consumed_at = some at } in
      (done, ground (arith, get-put_self i done s.intents), refl)
]

consumed-refuses :
    (i : String) (at : ℕ) (o c : String) (now ends : ℕ) (u : ExportStore)
    → IsConsumed i at u
    → (claim_intent i o c now ends u ≡ (false, u))
      × (consume_claimed_intent i o c now u ≡ (false, u))
unfolding claim_intent consume_claimed_intent
consumed-refuses i at o c now ends u (v, found, done) = (ground arith, ground arith)

-- A consumption that succeeds is the intent's last: after it, whatever operations follow in
-- whatever order, as long as none writes an intent of this id as a whole, no claim of the intent
-- and no further consumption succeeds, for any owner, claim and time, and the store stays as it is.
pub consume_claimed_intent_once :
    (i o c : String) (at : ℕ) (s t : ExportStore) (ops : List Op) (o₁ c₁ : String) (now ends : ℕ)
    → consume_claimed_intent i o c at s ≡ (true, t)
    → All (Spares i) ops
    → let u = history ops t in
      (claim_intent i o₁ c₁ now ends u ≡ (false, u))
      × (consume_claimed_intent i o₁ c₁ now u ≡ (false, u))
consume_claimed_intent_once i o c at s t ops o₁ c₁ now ends h spares =
    consumed-refuses i at o₁ c₁ now ends (history ops t)
      (history-IsConsumed i at ops t spares (consume_claimed_intent-IsConsumed i o c at s t h))
