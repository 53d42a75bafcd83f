-- ===== src/Examples/Coordination.antt =====
-- A run of the coordinator with two parallel calls of one tool, over JSON values as their texts.
use aifluxon.Coordinator.Execution.{Session, finish_execution, execute_registered_tool}
use aifluxon.Coordinator.Loop.{run_registered_calls, run_registered_model_tool_loop}
use aifluxon.Coordinator.Messages.{assistant_message, tool_message}
use aifluxon.Coordinator.Process.{
  Event, done, play, proceeds, number, picked, executed, turned, effect, executes,
}
use aifluxon.Core.Message.{ToolCall}
use aifluxon.Core.Operation.{pure_read}
use aifluxon.Core.Provider.{ModelTurn, tool_calls, ModelTurnRequest, stop}
use aifluxon.Core.Run.{RunContext, RunLimits, u32_max}
use aifluxon.Core.Tool.{ToolDescriptor, default, workspace}
use aifluxon.Json.{Json}
use aifluxon.Ledger.{from_value}
use aifluxon.Runs.History.{Inv, registers, operates}
use aifluxon.Runs.Table.{RunTable, emit}
use aifluxon.Tools.Policy.{allow_all}
use aifluxon.Tools.Validation.{SchemaValidator, ToolInvocation}
use aifluxon.Runs.Invariant.{run-Inv, empty-Inv}
use aifluxon.Runs.Spending.{
  consume_model_round, consume_tool_invocation, cached_tool_execution, record_tool_execution,
}
use aifluxon.Prelude.Map.{lookup, insert}
use aifluxon.Prelude.Strings.{is_whitespace}
use aifluxon.Prelude.{
  ℕ, true, false, none, some, List, [], ◌∷◌, ok, refl, ◌≡◌, String, ◌+◌, ◌≤◌, ◌<◌, ◌≢◌, ◌⊎◌, ◌++◌,
  arith,
}
use aifluxon.Runs.Record.{new_record}
use aifluxon.Coordinator.Returns.{Answers}
use aifluxon.Coordinator.Permission.{Allowed, executor_permitted}
use aifluxon.Coordinator.Answers.{calls_answered}
use aifluxon.Coordinator.Permits.{was_approved}
use aifluxon.Coordinator.Rounds.{loop_ends}
use aifluxon.Budget
use aifluxon.Runs.History
use aifluxon.Runs.Table

abbrev texts : Json String
texts = record {
  null = "null";
  bool = λ b. "bool";
  string = λ s. s;
  object = λ members. "{}";
  insert = λ name value o. o;
  is_null = λ v. false;
  is_object = λ v. true;
  get = λ name v. none;
  as_str = λ v. some v;
  as_u64 = λ v. none;
  array_length = λ v. none;
  to_text = λ v. v;
  to_string = λ v. ok v;
  from_str = λ s. some s;
}

abbrev accepting : SchemaValidator String
accepting schema = some (λ v. [])

abbrev echo : ToolDescriptor String
echo = record {
  name = "echo";
  description = "Says it again.";
  input_schema = "{}";
  effect = pure_read;
  required_capabilities = [];
  parallel_safe = true;
}

abbrev echo_session : Session String
echo_session = record {
  run_id = 7;
  tools = record { tools = ("echo", record { descriptor = echo; executor = 1 }) ∷ [] };
  validator = accepting;
  policy = allow_all;
  authority = record { permission_mode = default; filesystem_scope = workspace; capabilities = [] };
}

abbrev echo_call : ℕ → ToolCall String
echo_call id = record { id = id; name = "echo"; arguments = "{}"; provider_call_id = none }

abbrev echo_turn : ModelTurn String
echo_turn = record {
  text = "";
  reasoning = "";
  tool_calls = echo_call 1 ∷ echo_call 2 ∷ [];
  usage = none;
  terminal = tool_calls;
  opaque = "";
}

abbrev two_rounds : RunLimits
two_rounds = record { max_model_rounds = 2; max_tool_invocations = 8 }

abbrev run_seven : RunContext
run_seven = record { run_id = 7; session_id = none; parent_run_id = none }

abbrev started : RunTable String
started = History.run Table.empty (registers 0 run_seven two_rounds ∷ [])

abbrev one_call : String → List (Event String)
one_call answer =
    number 5
    ∷ proceeds
    ∷ proceeds
    ∷ proceeds
    ∷ executed (ok (from_value answer))
    ∷ proceeds
    ∷ proceeds
    ∷ []

-- The second call goes first.
abbrev second_first : List (Event String)
second_first =
    picked false
    ∷ number 5
    ∷ picked false
    ∷ proceeds
    ∷ picked false
    ∷ proceeds
    ∷ picked false
    ∷ proceeds
    ∷ picked false
    ∷ executed (ok (from_value "two"))
    ∷ picked false
    ∷ proceeds
    ∷ picked false
    ∷ proceeds
    ∷ one_call "one"

in_order :
    (play second_first started (run_registered_calls texts echo_session echo_turn)).1
    ≡ done (
        ok (
          tool_message texts (echo_call 1) (from_value "one")
          ∷ tool_message texts (echo_call 2) (from_value "two")
          ∷ []))
unfolding play run_registered_calls History.run Table.empty allow_all from_value tool_message
    consume_tool_invocation Table.register insert Budget.consume_tool_invocation new_record
    cached_tool_execution is_whitespace Table.emit record_tool_execution
in_order = refl

calls_answered_example : Answers echo_turn.tool_calls (
    tool_message texts (echo_call 1) (from_value "one")
    ∷ tool_message texts (echo_call 2) (from_value "two")
    ∷ [])
calls_answered_example =
    calls_answered texts echo_session echo_turn second_first started
      (tool_message texts (echo_call 1) (from_value "one")
        ∷ tool_message texts (echo_call 2) (from_value "two")
        ∷ [])
      in_order

abbrev echoing : ToolInvocation String
echoing = record { id = 1; name = "echo"; arguments = "{}"; effect = pure_read }

abbrev to_executor : List (Event String)
to_executor = number 5 ∷ proceeds ∷ proceeds ∷ proceeds ∷ []

at_executor :
    (play to_executor started (execute_registered_tool texts echo_session (echo_call 1))).1
    ≡ effect (executes 7 1 echoing) (finish_execution texts echo_session (echo_call 1) none)
unfolding play execute_registered_tool History.run Table.empty allow_all from_value tool_message
    consume_tool_invocation Table.register insert Budget.consume_tool_invocation new_record
    cached_tool_execution is_whitespace Table.emit record_tool_execution
at_executor = refl

executor_permitted_example :
    Allowed texts echo_session (echo_call 1) echoing
    ⊎ (was_approved to_executor started (execute_registered_tool texts echo_session (echo_call 1))
        ≡ true)
executor_permitted_example =
    executor_permitted texts echo_session (echo_call 1) to_executor started 7 1 echoing
      (finish_execution texts echo_session (echo_call 1) none) at_executor

abbrev final_turn : ModelTurn String
final_turn = record {
  text = "Done.";
  reasoning = "";
  tool_calls = [];
  usage = none;
  terminal = stop;
  opaque = "";
}

abbrev question : ModelTurnRequest String
question = record {
  model = "m";
  messages = [];
  tools = echo ∷ [];
  session_key = "s";
  run_id = 7;
  opaque_state = none;
  features = record {
    web_search = false;
    image_generation = false;
    reasoning_effort = none;
    thinking_mode = none;
    thinking_budget = none;
    prompt_cache_key = none;
    explicit_cache = false;
  };
}

-- A turn with tool calls, and the last turn.
abbrev whole_run : List (Event String)
whole_run =
    proceeds ∷ proceeds ∷ proceeds ∷ number 5 ∷ proceeds ∷ turned (ok echo_turn) ∷ second_first
    ++ proceeds ∷ number 6 ∷ proceeds ∷ turned (ok final_turn) ∷ []

started-Inv : Inv started
started-Inv = run-Inv Table.empty (registers 0 run_seven two_rounds ∷ []) empty-Inv

started_run : lookup 7 started.runs ≡ some (new_record 0 run_seven two_rounds)
unfolding History.run Table.empty Table.register insert lookup History.step
started_run = refl

limited_run : (new_record {V = String} 0 run_seven two_rounds).budget.max_model_rounds < u32_max
unfolding new_record
limited_run = omega arith

enough_rounds :
    (new_record {V = String} 0 run_seven two_rounds).budget.max_model_rounds
    ≤ (new_record {V = String} 0 run_seven two_rounds).budget.model_rounds + 2
unfolding new_record
enough_rounds = omega arith

loop_ends_example :
    (play whole_run started (run_registered_model_tool_loop texts echo_session 3 question)).1
    ≢ done (ok none)
loop_ends_example =
    loop_ends texts echo_session 2 question whole_run started (new_record 0 run_seven two_rounds)
      started-Inv started_run (limited_run) (enough_rounds)

-- The loop answers with the last turn behind the answered calls.
whole_run_answer :
    (play whole_run started (run_registered_model_tool_loop texts echo_session 3 question)).1
    ≡ done (
        ok (
          some (record {
            turn = final_turn;
            messages =
                assistant_message texts echo_turn
                ∷ tool_message texts (echo_call 1) (from_value "one")
                ∷ tool_message texts (echo_call 2) (from_value "two")
                ∷ assistant_message texts final_turn
                ∷ [];
          })))
unfolding play run_registered_model_tool_loop History.run Table.empty allow_all from_value
    tool_message assistant_message consume_model_round Budget.consume_model_round
    consume_tool_invocation Table.register insert Budget.consume_tool_invocation new_record
    cached_tool_execution is_whitespace Table.emit record_tool_execution
whole_run_answer = refl
