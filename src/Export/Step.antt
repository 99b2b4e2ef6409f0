-- ===== src/Export/Step.antt =====
-- Histories of the export store: any sequence of its methods that change state. The lock makes
-- each method one step.
use prd_agent.Base.{ℕ, String, List, [], ◌∷◌}
use prd_agent.Export.Model.{ExportIntent, ExternalDocumentBinding, ExportRun, ExportStore}
use prd_agent.Export.Store as Store

pub data Op : Type 0 where
  save_intent consume_intent : ExportIntent → Op
  save_preview_replay begin_preview : String → String → String → ExportIntent → Op
  save_binding : ExternalDocumentBinding → Op
  save_run : ExportRun → Op
  begin_run save_replay : String → String → String → ExportRun → Op
  claim_intent : String → String → String → ℕ → ℕ → Op
  release_intent_claim : String → String → String → Op
  consume_claimed_intent : String → String → String → ℕ → Op

unfoldable pub step : Op → ExportStore → ExportStore
step (save_intent intent) s = Store.save_intent intent s
step (consume_intent intent) s = Store.consume_intent intent s
step (save_preview_replay owner key hash intent) s =
    (Store.save_preview_replay owner key hash intent s).1
step (begin_preview owner key hash intent) s = (Store.begin_preview owner key hash intent s).1
step (save_binding binding) s = (Store.save_binding binding s).1
step (save_run run) s = Store.save_run run s
step (begin_run owner key hash run) s = (Store.begin_run owner key hash run s).1
step (save_replay owner key hash run) s = (Store.save_replay owner key hash run s).1
step (claim_intent intent owner claim now ends) s =
    (Store.claim_intent intent owner claim now ends s).1
step (release_intent_claim intent owner claim) s = Store.release_intent_claim intent owner claim s
step (consume_claimed_intent intent owner claim at) s =
    (Store.consume_claimed_intent intent owner claim at s).1

unfoldable pub history : List Op → ExportStore → ExportStore
history [] s = s
history (op ∷ ops) s = history ops (step op s)
