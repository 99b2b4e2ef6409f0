-- ===== src/Export/Bindings.antt =====
-- The one document of a task in src/prd_agent/export/store.py.
use prd_agent.Base.{
  text_key, pair_key, ◌≡◌, refl, String, some, List, [], ◌∷◌, arith, ◌==◌, Option-cases, Bool-cases,
  ap, ◌∙◌, inl, inr,
}
use prd_agent.Base.Dict.{get, get-put}
use prd_agent.Export.Model.{ExportStore, ExternalDocumentBinding}
use prd_agent.Export.Store.{get_binding}
use prd_agent.Export.Step.{Op, step, history}
use prd_agent.Export.Store as Store

-- The task is bound under this id.
abbrev IsBoundTo : String × String → String → ExportStore → Type 0
IsBoundTo key binding_id s =
    (b : ExternalDocumentBinding) × (get key s.bindings ≡ some b) × (b.binding_id ≡ binding_id)

save_binding-IsBoundTo :
    (key : String × String) (id : String) (new : ExternalDocumentBinding) (s : ExportStore)
    → IsBoundTo key id s
    → IsBoundTo key id (Store.save_binding new s).1
unfolding Store.save_binding
save_binding-IsBoundTo key id new s (b, found, named) =
    let k : String × String = (new.owner_id, new.task_id) in
    elim (Bool-cases (k == key)) [
      | inl here ↦
          let at_k : get k s.bindings ≡ some b =
            ap (λ j. get j s.bindings) ((pair_key.same_iff k key).0 here) ∙ found in
          elim (Bool-cases (b.binding_id == new.binding_id)) [
            | inl same ↦ (
              new,
              rw (Store.save_binding, at_k, same) (ground (arith, get-put k key new s.bindings)),
              ground (arith, text_key.same_iff b.binding_id new.binding_id),
            )
            | inr other ↦ (b, rw (Store.save_binding, at_k, other) found, named)
          ]
      | inr apart ↦ (b, ground (arith, get-put k key new s.bindings), named)
    ]

step-IsBoundTo :
    (key : String × String) (id : String) (op : Op) (s : ExportStore)
    → IsBoundTo key id s
    → IsBoundTo key id (step op s)
unfolding step Store.save_intent Store.consume_intent Store.save_preview_replay Store.begin_preview
    Store.save_run Store.begin_run Store.save_replay Store.claim_intent Store.release_intent_claim
    Store.consume_claimed_intent
step-IsBoundTo key id (Op.save_intent x) s bound = bound
step-IsBoundTo key id (Op.consume_intent x) s bound = bound
step-IsBoundTo key id (Op.save_preview_replay o k h x) s (b, found, named) =
    (b, ground arith, named)
step-IsBoundTo key id (Op.begin_preview o k h x) s (b, found, named) = (b, ground arith, named)
step-IsBoundTo key id (Op.save_binding new) s bound = save_binding-IsBoundTo key id new s bound
step-IsBoundTo key id (Op.save_run run) s bound = bound
step-IsBoundTo key id (Op.begin_run o k h run) s (b, found, named) = (b, ground arith, named)
step-IsBoundTo key id (Op.save_replay o k h run) s (b, found, named) = (b, ground arith, named)
step-IsBoundTo key id (Op.claim_intent j o c now e) s (b, found, named) = (b, ground arith, named)
step-IsBoundTo key id (Op.release_intent_claim j o c) s (b, found, named) = (b, ground arith, named)
step-IsBoundTo key id (Op.consume_claimed_intent j o c now) s (b, found, named) =
    elim (Option-cases (get j s.intents)) [
      | inl absent ↦ (b, ground arith, named)
      | inr (v, there) ↦ (b, ground arith, named)
    ]

history-IsBoundTo :
    (key : String × String) (id : String) (ops : List Op) (s : ExportStore)
    → IsBoundTo key id s
    → IsBoundTo key id (history ops s)
unfolding history
history-IsBoundTo key id [] s bound = bound
history-IsBoundTo key id (op ∷ ops) s bound =
    history-IsBoundTo key id ops (step op s) (step-IsBoundTo key id op s bound)

-- The binding of a task stays: once the task of an owner has a binding, after any further history
-- of the store it has one, and with the same id.
pub get_binding_stays :
    (task owner : String) (b : ExternalDocumentBinding) (ops : List Op) (s : ExportStore)
    → get_binding task owner s ≡ some b
    → (c : ExternalDocumentBinding) × (get_binding task owner (history ops s) ≡ some c)
      × (c.binding_id ≡ b.binding_id)
unfolding get_binding
get_binding_stays task owner b ops s h =
    history-IsBoundTo (owner, task) b.binding_id ops s (b, h, refl)
