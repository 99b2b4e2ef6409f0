-- ===== src/Runtime/Step.antt =====
-- The operations of RunExecutionLedger, agent-python/agent/runtime/ledger.py, as one type, and
-- histories of them, in which each returns or raises.
use prd_agent.Base.{String, List, [], ◌∷◌}
use prd_agent.Runtime.Entries.{Library, LedgerCallSpec}
use prd_agent.Runtime.Ledger.{Call, RunExecutionLedger}
use prd_agent.Runtime.Ledger as Ledger

pub data Op : Type 0 where
  execute_model : Call → Op
  execute_capability : Call → Op
  execute_derivation : String → Call → Op
  consume_transition : LedgerCallSpec → Op

unfoldable pub step : Library → Op → RunExecutionLedger → RunExecutionLedger
step l (execute_model call) s = (Ledger.execute_model l call s).1
step l (execute_capability call) s = (Ledger.execute_capability l call s).1
step l (execute_derivation kind call) s = (Ledger.execute_derivation l kind call s).1
step l (consume_transition spec) s = (Ledger.consume_transition l spec s).1

unfoldable pub history : Library → List Op → RunExecutionLedger → RunExecutionLedger
unfolding step
history l [] s = s
history l (op ∷ ops) s = history l ops (step l op s)
