-- ===== src/Workflow/Step.antt =====
-- The commands of the workflow service as one type, and histories of them: each command is made
-- with what it takes from outside, and is one step.
use prd_agent.Base.{List, [], ◌∷◌}
use prd_agent.Domain.Entities.{WorkflowSnapshot}
use prd_agent.Domain.Commands as Commands
use prd_agent.Workflow.Repository.{Repository, Action}
use prd_agent.Workflow.Outside.{Outside, Library}
use prd_agent.Workflow.Starting as Starting
use prd_agent.Workflow.Confirming as Confirming
use prd_agent.Workflow.Revising as Revising

pub data Command : Type 0 where
  start_task : Commands.StartTask → Command
  reply_to_task : Commands.ReplyToTask → Command
  confirm_outline : Commands.ConfirmOutline → Command
  confirm_unit : Commands.ConfirmUnit → Command
  approve_revision_plan : Commands.ApproveRevisionPlan → Command
  reopen_prd : Commands.ReopenPrd → Command
  finalize_prd : Commands.FinalizePrd → Command

unfoldable pub run_command : Library → Outside → Command → Action WorkflowSnapshot
run_command l o (start_task c) = Starting.start_task l o c
run_command l o (reply_to_task c) = Starting.reply_to_task l o c
run_command l o (confirm_outline c) = Confirming.confirm_outline l o c
run_command l o (confirm_unit c) = Confirming.confirm_unit l o c
run_command l o (approve_revision_plan c) = Revising.approve_revision_plan l o c
run_command l o (reopen_prd c) = Revising.reopen_prd l o c
run_command l o (finalize_prd c) = Revising.finalize_prd l o c

-- The repository after the commands, whether they return or raise.
unfoldable pub history : Library → List (Outside × Command) → Repository → Repository
history l [] s = s
history l ((o, c) ∷ commands) s = history l commands (run_command l o c s).1
