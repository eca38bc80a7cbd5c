-- ===== src/Lib.antt =====
-- A verification library of LBE, the lightweight behavior engine: a runtime that decides what an
-- agent may do in a workspace, runs its tools and admits its claims of completion.
--
-- The parts, and how they interact:
-- - Behavior.antt, Behavior/Contracts.antt: the tables of lbe_guard_inspector/behavior/contracts.py
--   (BEHAVIOR_CONTRACTS, MODE_BEHAVIOR_MAP, INTENT_BEHAVIOR_MAP) and their queries, under the
--   names of the source. Behavior/Consistency.antt relates the tables.
-- - Runtime/Mode.antt: lbe_guard_inspector/runtime/mode_controller.py. A mode request resolves to
--   a decision: a mode, the behaviors that the tables allow, and the capabilities they give.
--   resolve_mode_of is _resolve_mode; _resolve_capabilities is resolve_capabilities, its loops
--   collect_capabilities and add_new.
-- - Runtime/Authorization.antt: lbe_guard_inspector/runtime/authorization_resolver.py. A capability
--   is allowed, denied or escalated under a decision.
-- - Runtime/Tools.antt, Runtime/Tools/Orchestrator.antt:
--   lbe_guard_inspector/runtime/tool_orchestration.py. invoke looks the tool up, validates the
--   arguments, asks the resolver, calls the handler and remembers a receipt; its blocks are
--   find_tool, check_arguments, authorize, dispatch, execute and settle, in that order.
--   Runtime/Tools/Tracking.antt: _ReceiptTrackingOrchestrator of
--   lbe_guard_inspector/runtime/governed_coding.py, which observes the receipts of invoke.
-- - Runtime/Completion.antt, Runtime/Completion/Gate.antt:
--   lbe_guard_inspector/runtime/completion_gate.py. Runtime/Completion/Policy.antt:
--   lbe_guard_inspector/runtime/task_completion_policy.py.
-- - Registry.antt: lbe_guard_inspector/module_registry/models.py. Registry/Watcher.antt: watcher.py
--   beside it. Registry/Store.antt, Registry/Methods.antt and Registry/Defects.antt: store.py
--   beside it, its state, its methods that change the state, and its queries. A method x of the
--   lifecycle is on_x. Registry/Layer.antt: register_registry_layer. Registry/Inspection.antt:
--   lbe_guard_inspector/registry_inspection.py, which reads the registry and the watcher.
-- - Memory/Completion.antt: lbe_guard_inspector/memory/completion_contracts.py, saved by
--   Memory/Completion/Contracts.antt; Memory/Completion/Candidate.antt and
--   Memory/Completion/Evidence.antt: completion_evidence.py beside it. Session/Contract.antt and
--   Session/Completion.antt: how lbe_guard_inspector/runtime/completion_runtime.py keeps and reads
--   them.
-- - Runtime/Producers/Commands.antt: lbe_guard_inspector/runtime/validation_command_policy.py.
--   Runtime/Producers/Snapshots.antt, Runtime/Producers/Classify.antt and
--   Runtime/Producers/Produce.antt: lbe_guard_inspector/runtime/completion_evidence_producers.py,
--   with inspect_git_state of lbe_guard_inspector/memory/context.py: the state of the repository,
--   its classification, and the three producers. Git and the commands act on the workspace, which
--   is a type parameter; hashes and JSON texts are functions of the environment.
-- - Recovery.antt, Recovery/Loop.antt: lbe_guard_inspector/recovery.py. rounds is the loop of
--   run_with_recovery; its body is stop_cancelled, conclude and demand_evidence. What loads and
--   persists its state is the interface Ledger, which Recovery/State.antt fills on the memory store:
--   load_recovery_state and persist_recovery_state, with the promoter, upsert and query.
--   Identifiers, times, paths and int of a text are the record Place.
-- - Memory.antt and Memory/Sessions.antt: lbe_guard_inspector/memory/models.py; make_x is the
--   __post_init__ of a dataclass x. Memory/Promoter.antt: promoter.py beside it; a confidence is in
--   hundredths, and an authority is not negative. The memory store's upsert is an argument.
-- - Memory/Store.antt: lbe_guard_inspector/memory/store.py, its tables, checkpoints, sessions and
--   tasks. Memory/Store/Records.antt: upsert, get, mark_stale and supersede, the two transactions
--   of supersede one after the other; Memory/Store/Query.antt: query. A table is the list of its
--   rows in the order of insertion.
-- - History.antt, History/Items.antt: lbe_guard_inspector/memory/operational_history.py, a table of
--   the database as the list of its rows. History/Provider.antt:
--   lbe_guard_inspector/provider_event_history.py, which projects what a provider reported into the
--   history of a turn.
-- - Control.antt: lbe_guard_inspector/control_protocol.py and
--   lbe_guard_inspector/persistent_turn_control.py, which starts, cancels and reads turns on
--   request. The runtime of a provider is an interface; Control/Runtime.antt fills it with the
--   non-streaming runtime of lbe_guard_inspector/provider_turn_runtime.py.
-- - Session.antt, Session/Reasoning.antt: the task states of
--   lbe_guard_inspector/session_memory_runtime.py and of
--   lbe_guard_inspector/runtime/completion_runtime.py, which records what a reasoning controller
--   answered and what the completion gate decided. The memory store is the interface TaskStore,
--   which Session/Stored.antt fills with Memory/Store.antt.
-- - Providers.antt: lbe_guard_inspector/provider_registry.py and provider_health.py beside it.
--   Providers/Continuation.antt: provider_continuation.py. History/Reported.antt:
--   professional_provider_events.py, the checks of what a provider reports.
-- - Guards.antt: GuardPlanner of lbe_guard_inspector/reasoning_guard_planner.py, which selects one of
--   the guards that a reasoning backend proposes.
-- - Base.antt and its children: texts, dicts, exceptions, JSON values, sorted lists, and a monad
--   of state and exceptions with the predicates that its actions preserve.
--
-- Conventions. A Python call that may raise is a Result: `err` holds an exception, by its class
-- name and text, or an interrupt, which `except Exception` does not catch. A mutable object is a
-- state that the operations take and return. A dict is an association list in insertion order. What
-- handlers, callbacks and clocks reach is a type W, a parameter; they are functions on it, as is the
-- text that Python prints for a list. A receipt identifier, a random one in the source, is the
-- number of receipts made before: the source relies on it being new. Loops are structural
-- recursion on the sequence they traverse or, for the retries, on the number of attempts that the
-- policy leaves, so no fuel is used.
--
-- Not modelled: the isinstance checks of the dataclasses, which the types make true; paths and
-- their resolution; connections and transactions of the database but for their effect; the
-- threads of the background provider runtime; the planners of requests, investigations and
-- explanations; the network clients of the providers; the evidence service, the run of guards, the
-- rule gatekeeper, the command line, the server and the user interface.
mod Base
pub mod Behavior
pub mod Runtime
pub mod History
pub mod Control
pub mod Guards
pub mod Providers
pub mod Memory
pub mod Session
pub mod Recovery
pub mod Registry
