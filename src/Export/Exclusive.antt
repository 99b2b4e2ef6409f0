-- ===== src/Export/Exclusive.antt =====
-- The exclusive claim of an intent in src/prd_agent/export/store.py.
use prd_agent.Base.{
  text_key, ℕ, ◌<◌, ◌≡◌, ◌≢◌, refl, String, true, false, some, List, [], ◌∷◌, All, arith,
}
use prd_agent.Base.Dict.{get, get-put, get-remove, get-put_self}
use prd_agent.Export.Model.{ExportStore, Claim}
use prd_agent.Export.Store.{claim_intent, consume_claimed_intent, is_claim_of, is_open, is_claimed}
use prd_agent.Export.Step.{Op, step, history}
use prd_agent.Export.Store as Store

-- The intent is claimed under this id until this time.
abbrev pub IsHeld : String → String → ℕ → ExportStore → Type 0
IsHeld i c ends s =
    (claim : Claim) × (get i s.intent_claims ≡ some claim)
    × (claim.claim_id ≡ c)
    × (claim.expires_at ≡ ends)

-- Not an act of the claim's holder, and not a claim of the intent after the time given.
abbrev pub IsOthers : String → String → ℕ → Op → Type 0
IsOthers i c ends (Op.claim_intent j o₁ c₁ now e₁) = j ≡ i → (c₁ ≢ c) × (now < ends)
IsOthers i c ends (Op.release_intent_claim j o₁ c₁) = j ≡ i → c₁ ≢ c
IsOthers i c ends (Op.consume_claimed_intent j o₁ c₁ at) = j ≡ i → c₁ ≢ c
IsOthers i c ends _ = Unit

claim_others :
    (i c : String) (ends : ℕ) (j o c₁ : String) (now e : ℕ) (s : ExportStore)
    → (j ≡ i → (c₁ ≢ c) × (now < ends))
    → IsHeld i c ends s
    → IsHeld i c ends (claim_intent j o c₁ now e s).1
unfolding claim_intent
claim_others i c ends j o c₁ now e s h (v, found, named, until) = (
  v,
  ground (
    arith,
    get-put j i (record { owner_id = o; claim_id = c₁; expires_at = e }) s.intent_claims,
    text_key.same_iff j i,
    text_key.same_iff v.claim_id c₁,
  ),
  named,
  until,
)

release_others :
    (i c : String) (ends : ℕ) (j o c₁ : String) (s : ExportStore)
    → (j ≡ i → c₁ ≢ c)
    → IsHeld i c ends s
    → IsHeld i c ends (Store.release_intent_claim j o c₁ s)
unfolding Store.release_intent_claim
release_others i c ends j o c₁ s h (v, found, named, until) = (
  v,
  ground (
    arith,
    get-remove j i s.intent_claims,
    text_key.same_iff j i,
    text_key.same_iff v.claim_id c₁,
  ),
  named,
  until,
)

consume_others :
    (i c : String) (ends : ℕ) (j o c₁ : String) (at : ℕ) (s : ExportStore)
    → (j ≡ i → c₁ ≢ c)
    → IsHeld i c ends s
    → IsHeld i c ends (consume_claimed_intent j o c₁ at s).1
unfolding consume_claimed_intent
consume_others i c ends j o c₁ at s h (v, found, named, until) = (
  v,
  ground (
    arith,
    get-remove j i s.intent_claims,
    text_key.same_iff j i,
    text_key.same_iff v.claim_id c₁,
  ),
  named,
  until,
)

step-IsHeld :
    (i c : String) (ends : ℕ) (op : Op) (s : ExportStore)
    → IsOthers i c ends op
    → IsHeld i c ends s
    → IsHeld i c ends (step op s)
unfolding step Store.save_intent Store.consume_intent Store.save_preview_replay Store.begin_preview
    Store.save_binding Store.save_run Store.begin_run Store.save_replay
step-IsHeld i c ends (Op.save_intent x) s h held = held
step-IsHeld i c ends (Op.consume_intent x) s h held = held
step-IsHeld i c ends (Op.save_preview_replay o k hash x) s h (v, found, named, until) =
    (v, ground arith, named, until)
step-IsHeld i c ends (Op.begin_preview o k hash x) s h (v, found, named, until) =
    (v, ground arith, named, until)
step-IsHeld i c ends (Op.save_binding b) s h (v, found, named, until) =
    (v, ground arith, named, until)
step-IsHeld i c ends (Op.save_run r) s h held = held
step-IsHeld i c ends (Op.begin_run o k hash r) s h (v, found, named, until) =
    (v, ground arith, named, until)
step-IsHeld i c ends (Op.save_replay o k hash r) s h (v, found, named, until) =
    (v, ground arith, named, until)
step-IsHeld i c ends (Op.claim_intent j o c₁ now e) s h held =
    claim_others i c ends j o c₁ now e s h held
step-IsHeld i c ends (Op.release_intent_claim j o c₁) s h held =
    release_others i c ends j o c₁ s h held
step-IsHeld i c ends (Op.consume_claimed_intent j o c₁ at) s h held =
    consume_others i c ends j o c₁ at s h held

history-IsHeld :
    (i c : String) (ends : ℕ) (ops : List Op) (s : ExportStore)
    → All (IsOthers i c ends) ops
    → IsHeld i c ends s
    → IsHeld i c ends (history ops s)
unfolding history
history-IsHeld i c ends [] s h held = held
history-IsHeld i c ends (op ∷ ops) s h held =
    history-IsHeld i c ends ops (step op s) h.1 (step-IsHeld i c ends op s h.0 held)

claim_intent-IsHeld :
    (i o c : String) (now ends : ℕ) (s t : ExportStore)
    → claim_intent i o c now ends s ≡ (true, t)
    → IsHeld i c ends t
unfolding claim_intent
claim_intent-IsHeld i o c now ends s t h =
    let claim : Claim = record { owner_id = o; claim_id = c; expires_at = ends } in
    (claim, ground (arith, get-put_self i claim s.intent_claims), refl, refl)

held-refuses :
    (i c o₁ c₁ : String) (ends now e at : ℕ) (u : ExportStore)
    → IsHeld i c ends u
    → c₁ ≢ c
    → now < ends
    → (claim_intent i o₁ c₁ now e u ≡ (false, u))
      × (consume_claimed_intent i o₁ c₁ at u ≡ (false, u))
unfolding claim_intent consume_claimed_intent
held-refuses i c o₁ c₁ ends now e at u (v, found, named, until) ne before = (
  ground (arith, text_key.same_iff v.claim_id c₁),
  ground (arith, text_key.same_iff v.claim_id c₁),
)

-- A claim that succeeds is exclusive until it ends: whatever the others do, claims of this intent
-- under other ids before that time, releases and consumptions under other ids, and any other
-- operation, a claim under another id before that time is refused, a consumption under another id
-- is refused, and neither changes the store.
pub claim_intent_exclusive :
    (i o c : String) (at ends : ℕ) (s t : ExportStore) (ops : List Op) (o₁ c₁ : String)
    (now e₁ consumed : ℕ)
    → claim_intent i o c at ends s ≡ (true, t)
    → All (IsOthers i c ends) ops
    → c₁ ≢ c
    → now < ends
    → let u = history ops t in
      (claim_intent i o₁ c₁ now e₁ u ≡ (false, u))
      × (consume_claimed_intent i o₁ c₁ consumed u ≡ (false, u))
claim_intent_exclusive i o c at ends s t ops o₁ c₁ now e₁ consumed h others ne before =
    held-refuses i c o₁ c₁ ends now e₁ consumed (history ops t)
      (history-IsHeld i c ends ops t others (claim_intent-IsHeld i o c at ends s t h)) ne before
