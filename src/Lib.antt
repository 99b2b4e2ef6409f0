-- ===== src/Lib.antt =====
-- PRD-Agent: a model of the control logic of its Python backend.
--
-- The program turns an idea into a product requirements document. A workflow of language-model
-- steps makes an outline and drafts its units, a person confirms each, and the result is exported
-- to a document provider. Around it a production layer queues the runs of all owners, leases them
-- to workers, delivers commands through an outbox, and recovers runs whose worker is lost. Modelled
-- here are the workflow service with its repository and policies, and two stores of the production
-- layer that many callers share under one lock, the quality check of a document, and the execution
-- ledger of the Python agent.
--
-- The control store, InMemoryProductionControlStore of src/prd_agent/production/dispatch.py
-- (Dispatch). Dispatch/Model.antt has its data: runs, outbox messages, commands, grants, the queue
-- policy, and the store. Dispatch/Admission.antt has the capacity test and the loop that promotes
-- waiting runs (_runnable_runs, _can_admit, _release_and_admit_waiting_locked, admit_waiting_runs);
-- Dispatch/Outbox.antt the outbox (claim_outbox, mark_outbox_published, mark_outbox_failed);
-- Dispatch/Runs.antt the life of a run (create_run_dispatch, get_run, list_runs,
-- request_cancellation, retry_run, acquire_run, complete_run, heartbeat, record_inbox, has_inbox);
-- Dispatch/Recovery.antt the recovery of lost runs (enqueue_recoveries, and
-- RunReconciler.reconcile, which calls it). Dispatch/Step.antt has the operations as one type, and
-- histories of them. Dispatch/Machine.antt is the abstract run machine: the moves that a run may
-- make and the invariant of a set of runs, with its own theorems in Machine/Safety.antt and
-- Machine/Capacity.antt; the modules under Dispatch/Refines relate each operation to it. Of the
-- other modules Fencing, Terminal, Fairness, Turns, Leases, Claims, Redelivery and Lost have the
-- proofs on stale grants, completion, the end of admission, whom it takes first, leases over
-- histories, the outbox, recovery messages, and the runs that they are for. The tests are in
-- Dispatch/Tests.antt.
--
-- The export store, InMemoryExportStore of src/prd_agent/export/store.py (Export).
-- Export/Model.antt has the data of src/prd_agent/export/models.py that it keeps, Export/Store.antt
-- its methods, Export/Step.antt the histories of them. Export/Claims.antt, Export/Exclusive.antt,
-- Export/Replays.antt and Export/Bindings.antt have the proofs.
--
-- The data of the domain, src/prd_agent/domain (Domain): Domain/Statuses.antt, Domain/Errors.antt,
-- Domain/Entities.antt and Domain/Commands.antt; Domain/Outcomes.antt has what the service reads of
-- the results of grounding and quality, src/prd_agent/grounding/models.py and
-- src/prd_agent/quality/models.py. Kinds of errors are constructors, their messages are left out.
--
-- The policies, src/prd_agent/policies (Policies): the table of transitions and the version check
-- of TaskTransitionPolicy are in Policies/Tasks.antt, with the traces of a task;
-- Policies/Runs.antt, Policies/Outlines.antt and Policies/Units.antt have RunPolicy, OutlinePolicy
-- and UnitPolicy.
--
-- The workflow service, WorkflowService of src/prd_agent/workflow/service.py, over the repository
-- of src/prd_agent/storage/memory.py (Workflow). Workflow/Repository.antt has
-- InMemoryWorkflowRepository; Workflow/Action.antt the methods that may raise, with the state as it
-- then stands; Workflow/Common.antt the helpers of the service; Workflow/Starting.antt start_task
-- and reply_to_task; Workflow/Outlining.antt _generate_outline; Workflow/Generating.antt
-- _generate_unit, where the record Locals has the objects that the code changes in place;
-- Workflow/Confirming.antt confirm_outline and confirm_unit; Workflow/Revising.antt
-- approve_revision_plan, reopen_prd and finalize_prd; Workflow/Closure.antt
-- _dependent_unit_closure; Workflow/Sections.antt _current_sections,
-- src/prd_agent/workflow/context_builder.py and src/prd_agent/rendering/markdown.py.
-- Workflow/Step.antt has the commands as one type, and histories of them, and
-- Workflow/Finality.antt what a final confirmation has found. What the service takes from elsewhere
-- is in two records of Workflow/Outside.antt: Library has the hashes and the case mapping of texts,
-- and Outside what one command is given: ids, clock readings, the validated answers of the model
-- (src/prd_agent/workflow/nodes.py), the investigation, the grounding and quality services, and the
-- evidence appendix. Any of them may raise, and nothing is assumed of them but where a theorem
-- names it. Workflow/Evolution.antt says what a command may do to the tasks and keys, and its child
-- modules prove it of each command; Workflow/Evolution/Shown.antt and
-- Workflow/Evolution/Answers.antt say which task a command shows, and
-- Workflow/Evolution/Replays.antt has the replays.
--
-- The quality check of a document, DocumentQualityService of src/prd_agent/quality/service.py
-- (Quality): Quality/Service.antt, and Quality/Verdict.antt for when it lets a document be
-- confirmed.
--
-- The execution ledger of a run, agent-python/agent/runtime (Runtime): Runtime/Budget.antt has
-- BudgetVector and BudgetState of budget.py, Runtime/Entries.antt the messages that the ledger
-- reads and the functions of reconcile.py, outcomes.py and idempotency.py, Runtime/Ledger.antt the
-- methods of RunExecutionLedger of ledger.py, with what they send to the sink and the calls that
-- they make, and Runtime/Step.antt histories of them. A call is what it would return or raise, with
-- the functions of its result. json, the digests and the pattern of an operation key are the
-- parameter Library of Runtime/Entries.antt. A sink takes what it is sent. Runtime/Credit.antt,
-- Runtime/Bounds.antt and Runtime/Replay.antt have the proofs.
--
-- Chunks of historical documents, src/prd_agent/historical/chunking.py (Historical):
-- Historical/Chunking.antt has _hard_split and _chunk_section, whose split at blank lines, a
-- regular expression, is an argument; Historical/Bounds.antt and Historical/Sections.antt have the
-- proofs.
--
-- Base has what they share: tests on numbers and texts, lists, Python's dict as an association list
-- in insertion order with the laws of its reads and writes, the stable sorted, min with a key, and
-- the result of a method that may raise.
--
-- How the code is read. A method is a function from its arguments and the store to what it returns
-- or raises and the store after it; a method that raises gives the store as it stands then. The
-- lock makes each method one step, so the interleavings of callers are the lists of operations of a
-- history. A datetime is a number of microseconds from a fixed instant, a timedelta a number of
-- microseconds, both without a bound, as integers in Python are. A call of uuid4 is an argument of
-- the operation, a text that nothing is assumed of except where a theorem names it. Frozen models
-- and dataclasses are records, and a deep copy of one is the record. Integers that the code keeps
-- non-negative are natural numbers, and the amounts of a budget are signed; each difference that
-- could go below zero is written out in the definition. Texts are compared by code points, as
-- Python compares str.
--
-- Fuel. The admission loop runs while a waiting run can be admitted; its model has fuel, one more
-- than the number of waiting runs. Each round turns one waiting run into a queued one, so this is
-- enough. The passes of the closure of dependent units go on while a pass adds a unit; their model
-- has one pass more than the outline has units, which is enough, since each pass but the last adds
-- one. The hard split of a text has one step more than the text has characters, and each step cuts
-- off at least one. No other definition has fuel.
--
-- Not modelled: the publisher, the executor and the workers, which call the store and have no state
-- of their own that outlives a call; the PostgreSQL stores, whose behaviour is in SQL; the graph
-- and the nodes of the workflow, which call a language model; investigation, grounding, retrieval
-- of historical documents, evidence, repositories, the model providers and the rest of the Python
-- agent; the Go backend and the web client, which are in other languages.
mod Base
pub mod Domain
pub mod Dispatch
pub mod Export
pub mod Policies
pub mod Workflow
pub mod Runtime
pub mod Quality
pub mod Historical
