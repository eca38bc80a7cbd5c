-- ===== src/Runtime/Examples.antt =====
-- The theorems of the runtime at concrete inputs: a world that counts the runs of one tool.
use lbe_ci_validation.Providers.Continuation.{
  ProviderToolContinuation, continuation_from_receipt, output_of,
}
use lbe_ci_validation.Providers.Continued.{continuation-authorized}
use lbe_ci_validation.Runtime.Mode.{
  ModeDecision, ModeRequest, audit, behavior_mode, caps_of, is_coding, resolve_capabilities,
  resolve_mode,
}
use lbe_ci_validation.Runtime.Authorization.{
  AuthorizationRequest, allow, resolve_authorization, verdict_exact,
}
use lbe_ci_validation.Runtime.Tools.{
  RegisteredTool, ToolHandler, ToolReceipt, ToolRegistry, ToolRequest, ToolSpec, executed, get_tool,
  low, no_network, register, returned, validate_arguments, write,
}
use lbe_ci_validation.Runtime.Tools.Orchestrator.{Orchestrator, invoke}
use lbe_ci_validation.Runtime.Tools.Receipts.{IsConsistent}
use lbe_ci_validation.Behavior.{get_behaviors_for_intent, validate_mode_behavior}
use lbe_ci_validation.Runtime.Tools.Tracking.{
  IsTracked, Tracker, tracked_invoke, tracked_invoke-IsTracked,
}
use lbe_ci_validation.Base.{
  All, List, Result, String, [], arith, concat, contains, err, false, insert, lookup, none, ok,
  refl, some, sorted, strip, true, ℕ, ◌+◌, ◌∷◌, ◌≡◌, ◌≢◌, ◌⊎◌,
}
use lbe_ci_validation.Runtime.Mode.Decisions.{decision_bounds, resolve_mode_coding}
use lbe_ci_validation.Runtime.Tools.Safety.{IsQuiet, MayRun, invoke-IsQuiet_or_authorized}
use lbe_ci_validation.Runtime.Tools.Idempotence.{invoke-IsConsistent, invoke_again}
use lbe_ci_validation.Runtime.Tools.Lookup.{get-register, untrimmed_never_found}
use lbe_ci_validation.Runtime.Tools.ReadOnly.{no_write_outside_coding}

abbrev asking_for : String → String → ModeRequest
asking_for intent permission = record {
  intent = intent;
  permission = permission;
  workspace_root = "/workspace";
  runtime_policy = "permissive";
}

abbrev decided : Result ModeDecision → ModeDecision
decided (ok d) = d
decided (err e) = record { mode = audit; allowed_behaviors = []; capabilities = []; rationale = "" }

abbrev reading : ModeRequest
reading = asking_for "inspect_workspace" "read_only"

abbrev writing : ModeRequest
writing = asking_for "propose_rule" "write_allowed"

abbrev reading_decision : ModeDecision
unfolding resolve_mode
reading_decision = decided (resolve_mode reading)

abbrev writing_decision : ModeDecision
unfolding resolve_mode
writing_decision = decided (resolve_mode writing)

abbrev counting_spec : String → String → ToolSpec
counting_spec tool_id capability = record {
  tool_id = tool_id;
  capability = capability;
  required_arguments = [];
  optional_arguments = [];
  access_class = write;
  network_behavior = no_network;
  risk_class = low;
  timeout_ms = 1000;
  retry_policy = "none";
  preconditions = [];
  expected_evidence = [];
  failure_modes = [];
}

abbrev count_run : ToolHandler ℕ
count_run request w = (returned (record { output = []; evidence = [] }), w + 1)

abbrev counter : RegisteredTool ℕ
counter = record { spec = counting_spec "counter" "propose"; handler = count_run }

abbrev no_tools : ToolRegistry ℕ
no_tools = []

abbrev fresh : Orchestrator ℕ
fresh = record { registry = ("counter", counter) ∷ []; receipts = []; issued = 0 }

abbrev request_in : ModeDecision → ToolRequest
request_in decision = record {
  operation_id = "op-1";
  tool_id = " counter ";
  arguments = [];
  context = record {
    mode_decision = decision;
    workspace_id = "w";
    workspace_root = "/workspace";
    configured_root_id = "r";
    within_workspace_scope = true;
    explicitly_forbidden = false;
    destructive = false;
    destructive_authorized = false;
    persistent_policy_change = false;
    persistent_policy_authorized = false;
    intent_scope_conflict = false;
  };
}

abbrev show_names : List String → String
show_names [] = ""
show_names (n ∷ ns) = concat n (show_names ns)

abbrev run : ModeDecision → Result ToolReceipt × Orchestrator ℕ × ℕ
unfolding invoke
run decision = invoke show_names resolve_authorization (request_in decision) fresh 0

abbrev counting_request : ModeDecision → AuthorizationRequest
counting_request decision = record {
  mode_decision = decision;
  capability = "propose";
  within_workspace_scope = true;
  explicitly_forbidden = false;
  destructive = false;
  destructive_authorized = false;
  persistent_policy_change = false;
  persistent_policy_authorized = false;
  intent_scope_conflict = false;
}

abbrev loose_tools : ToolRegistry ℕ
loose_tools =
    (" counter", record { spec = counting_spec " counter" "propose"; handler = count_run }) ∷ []

loose_name : strip " counter" ≢ " counter"
unfolding strip
loose_name e = cc e

abbrev executed_receipt : ToolReceipt
executed_receipt = record {
  operation_id = "op-1";
  tool_id = " counter ";
  status = executed;
  authorization = some (resolve_authorization (counting_request writing_decision));
  output = some [];
  evidence = [];
  error_code = none;
  error_message = none;
  receipt_id = 0;
}

fresh-IsConsistent : IsConsistent fresh
unfolding lookup
fresh-IsConsistent = record {
  keyed = λ k r h. ground arith;
  issued_before = λ k r h. ground arith;
  distinct = λ j k q r h h' e. ground arith;
}

writing_runs : (run writing_decision).2 ≡ 1
unfolding run invoke resolve_authorization resolve_mode lookup strip validate_arguments sorted
    get_behaviors_for_intent resolve_capabilities validate_mode_behavior behavior_mode
writing_runs = refl

reading_refused : (run reading_decision).2 ≡ 0
unfolding run invoke resolve_authorization resolve_mode lookup strip validate_arguments sorted
    get_behaviors_for_intent resolve_capabilities validate_mode_behavior behavior_mode
reading_refused = refl

invoke-IsQuiet_or_authorized_example :
    IsQuiet show_names resolve_authorization
      (request_in reading_decision)
      fresh
      0
      (run reading_decision)
    ⊎ MayRun show_names resolve_authorization (request_in reading_decision) fresh
unfolding run
invoke-IsQuiet_or_authorized_example =
    invoke-IsQuiet_or_authorized show_names resolve_authorization (request_in reading_decision)
      fresh 0

no_write_outside_coding_example :
    IsQuiet show_names resolve_authorization
      (request_in reading_decision)
      fresh
      0
      (run reading_decision)
unfolding resolve_mode get_behaviors_for_intent get_tool strip run invoke
no_write_outside_coding_example =
    no_write_outside_coding show_names (request_in reading_decision) fresh 0 reading counter refl
      refl refl refl

verdict_exact_example : (resolve_authorization (counting_request writing_decision)).verdict ≡ allow
unfolding writing_decision get_behaviors_for_intent resolve_capabilities validate_mode_behavior
    behavior_mode strip
verdict_exact_example = verdict_exact (counting_request writing_decision)

resolve_mode_coding_example :
    (d : ModeDecision) × (resolve_mode writing ≡ ok d) × (is_coding d.mode ≡ true)
resolve_mode_coding_example = resolve_mode_coding writing

decision_bounds_example :
    All
      (λ name. validate_mode_behavior (behavior_mode writing_decision.mode) name ≡ true)
      writing_decision.allowed_behaviors
    × (contains "propose" writing_decision.capabilities ≡ true)
unfolding resolve_mode get_behaviors_for_intent validate_mode_behavior behavior_mode caps_of
decision_bounds_example = decision_bounds writing writing_decision "propose" refl

invoke-IsConsistent_example :
    IsConsistent (run writing_decision).1
    × ((k : String) (q : ToolReceipt)
        → lookup k fresh.receipts ≡ some q
        → lookup k (run writing_decision).1.receipts ≡ some q)
unfolding run invoke
invoke-IsConsistent_example =
    invoke-IsConsistent show_names resolve_authorization (request_in writing_decision) fresh 0
      fresh-IsConsistent

get-register_example :
    (get_tool " counter " fresh.registry ≡ some counter) × (lookup "counter" no_tools ≡ none)
unfolding register lookup insert strip
get-register_example =
    get-register (counting_spec "counter" "propose") count_run no_tools fresh.registry refl
      " counter "

untrimmed_never_found_example : get_tool "counter" loose_tools ≡ get_tool "counter" no_tools
unfolding register lookup insert
untrimmed_never_found_example =
    untrimmed_never_found (counting_spec " counter" "propose") count_run no_tools loose_tools refl
      loose_name "counter"

invoke_again_example :
    invoke show_names resolve_authorization (request_in reading_decision) (run writing_decision).1 7
    ≡ (ok executed_receipt, (run writing_decision).1, 7)
unfolding invoke lookup strip validate_arguments sorted resolve_authorization writing_decision
    get_behaviors_for_intent resolve_capabilities validate_mode_behavior behavior_mode
invoke_again_example =
    invoke_again show_names resolve_authorization (request_in writing_decision) fresh 0
      executed_receipt refl (request_in reading_decision) 7 refl

abbrev fresh_tracker : Tracker ℕ
fresh_tracker = record { inner = fresh; observed_receipts = []; observed_ids = [] }

fresh_tracker-IsTracked : IsTracked fresh_tracker
fresh_tracker-IsTracked = record { all_observed = refl; ids = refl; issued = tt }

tracked_invoke-IsTracked_example :
    IsTracked
      (tracked_invoke show_names resolve_authorization
        (request_in writing_decision)
        fresh_tracker
        0).1
tracked_invoke-IsTracked_example =
    tracked_invoke-IsTracked show_names resolve_authorization (request_in writing_decision)
      fresh_tracker 0 fresh_tracker-IsTracked

abbrev or_receipt : ToolReceipt → Result ToolReceipt → ToolReceipt
or_receipt r (err e) = r
or_receipt r (ok s) = s

abbrev no_receipt : ToolReceipt
no_receipt = record {
  operation_id = "";
  tool_id = "";
  status = executed;
  authorization = none;
  output = none;
  evidence = [];
  error_code = none;
  error_message = none;
  receipt_id = 0;
}

abbrev writing_receipt : ToolReceipt
writing_receipt = or_receipt no_receipt (run writing_decision).0

abbrev writing_continuation : ProviderToolContinuation
writing_continuation = record {
  provider_tool_call_id = "call-1";
  lbe_call_id = "lbe-1";
  runtime_operation_id = writing_receipt.operation_id;
  tool_receipt_id = writing_receipt.receipt_id;
  tool_name = writing_receipt.tool_id;
  output = output_of writing_receipt;
  is_error = false;
}

continuation-authorized_example :
    (lookup (request_in writing_decision).operation_id fresh.receipts ≡ some writing_receipt)
    ⊎ MayRun show_names resolve_authorization (request_in writing_decision) fresh
unfolding run invoke continuation_from_receipt lookup strip validate_arguments sorted
    resolve_authorization writing_decision get_behaviors_for_intent resolve_capabilities
    validate_mode_behavior behavior_mode
continuation-authorized_example =
    continuation-authorized show_names resolve_authorization (request_in writing_decision) fresh 0
      "call-1" " lbe-1" writing_receipt writing_continuation refl refl refl
