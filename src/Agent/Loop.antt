-- ===== src/Agent/Loop.antt =====
-- The methods of Agent: executeTool, execute, executeTask, the state and the memory.
use Prim.Native.String
use text.Mathlib.Text.{◌==◌ as str_eq}
use freysa_spark_hackathon.Common.{
  ℕ, zero, suc, Bool, true, false, ◌||◌, Option, none, some, List, [], ◌∷◌, ◌++◌, map, String, ok,
  err, Run, pure, required, ◌>>=◌, ◌>>◌, is_truthy,
}
use freysa_spark_hackathon.Json.{Json, str, JsonEngine, truthy_property}
use freysa_spark_hackathon.Agent.Types.{
  ToolCall, Message, system, user, assistant, tool, Choice, completed, get_entry, AgentState,
  initial, approved, Agent, Session,
}

-- The first choice; `choice.message` of an absent one is a TypeError.
abbrev pub first_choice : List Choice → Option Choice
first_choice [] = none
first_choice (c ∷ cs) = some c

-- `content ?? ""`.
abbrev pub content_or_empty : Option String → String
content_or_empty none = ""
content_or_empty (some s) = s

-- `else if (choice.message.content)`.
abbrev pub has_content : Option String → Bool
has_content none = false
has_content (some s) = is_truthy s

abbrev pub max_steps : ℕ
max_steps = 30

-- `context.join("\n")`.
unfoldable pub join_lines : List String → String
join_lines [] = ""
join_lines (s ∷ []) = s
join_lines (s ∷ t ∷ r) = String.◌++◌ s (String.◌++◌ "\n" (join_lines (t ∷ r)))

abbrev pub not_found : String → String
not_found name = String.◌++◌ "Tool " (String.◌++◌ name " not found")

abbrev pub bad_arguments : String → String → String
bad_arguments name args =
    String.◌++◌ "Tool " (String.◌++◌ name (String.◌++◌ " arguments are not valid JSON: " args))

-- What is done with the text of a tool: the state takes a truthy `payInvoice`, and a truthy `reason`
-- stands for the text. Errors on the way leave both as they were.
unfoldable pub state_after : Option Json → AgentState → AgentState
state_after none st = st
state_after (some j) st = elim (truthy_property j "payInvoice") [
  | ok (some p) ↦ approved p
  | ok none ↦ st
  | err e ↦ st
]

unfoldable pub value_after : Option Json → String → Json
value_after none result = str result
value_after (some j) result = elim (truthy_property j "reason") [
  | ok (some reason) ↦ reason
  | ok none ↦ str result
  | err e ↦ str result
]

module _ {W : Type 0} where
  -- An action on the world alone.
  unfoldable pub in_world : {A : Type 0} → Run W A → Run (Session W) A
  in_world m s = let (r, w) = m s.world in (r, record s { world = w })

  unfoldable pub get_state : Session W → AgentState
  get_state s = s.state

  unfoldable pub reset_state : Session W → Session W
  reset_state s = record s { state = initial }

module _ {W : Type 0} (engine : JsonEngine) (agent : Agent W) where
  unfoldable pub execute_tool : String → String → Run (Session W) String
  execute_tool name args = do
    t ← required (get_entry name agent.tools_map) (not_found name)
    decoded ← required (engine.parse args) (bad_arguments name args)
    in_world (t.execute decoded)

  -- The two pushes after a tool has run, with the state that its text leaves.
  unfoldable pub record_result : ToolCall → String → Run (Session W) (Unit {0})
  record_result call result s = (
    ok tt,
    record s {
      messages =
          s.messages
          ++ assistant none (call ∷ [])
            ∷ tool call.id (engine.stringify (value_after (engine.parse result) result))
            ∷ [];
      state = state_after (engine.parse result) s.state;
    },
  )

  unfoldable pub run_tool_call : ToolCall → Run (Session W) (Unit {0})
  run_tool_call call = do result ← execute_tool call.name call.arguments; record_result call result

  -- The loop over the calls of one choice, with `isCompleted`.
  unfoldable pub run_tool_calls : List ToolCall → Bool → Run (Session W) Bool
  run_tool_calls [] done = pure done
  run_tool_calls (call ∷ calls) done = do
    run_tool_call call
    run_tool_calls calls (done || str_eq call.name completed)

  unfoldable pub respond : Option (List ToolCall) → Option String → Run (Session W) Bool
  respond (some calls) content = run_tool_calls calls false
  respond none content = pure (has_content content)

  unfoldable pub ask_model : Run (Session W) (List Choice)
  ask_model s = in_world (agent.completions s.messages (map (λ t. t.schema) agent.tools)) s

  -- One round of the loop: `isCompleted` and `response`.
  unfoldable pub round : Run (Session W) (Bool × String)
  round = do
    choices ← ask_model
    choice ← required (first_choice choices) "Cannot read properties of undefined"
    done ← respond choice.tool_calls choice.content
    pure (done, content_or_empty choice.content)

  -- `while (!isCompleted && currentStep < this.maxSteps)`, on the steps that are left.
  unfoldable pub rounds : ℕ → Bool → String → Run (Session W) String
  rounds zero done response = pure response
  rounds (suc left) true response = pure response
  rounds (suc left) false response = do (done, next) ← round; rounds left done next

  unfoldable pub execute : Run (Session W) String
  execute = rounds max_steps false ""

  -- The messages of a task; they are a new array.
  unfoldable pub task_messages : String → Run W (List Message)
  task_messages task = elim agent.memory [
    | none ↦ pure (system agent.system_prompt ∷ user task ∷ [])
    | some memory ↦ (do
      context ← memory.search task
      pure (system agent.system_prompt ∷ user task ∷ user (join_lines context) ∷ []))
  ]

  abbrev start : List Message → Run (Session W) (Unit {0})
  start messages s = (ok tt, record s { messages = messages })

  unfoldable pub execute_task : String → Run (Session W) String
  execute_task task = do messages ← in_world (task_messages task); start messages; execute

  -- `this.memory?.…`: undefined with no memory.
  unfoldable pub store_memory : String → Run W (Option (Unit {0}))
  store_memory input = elim agent.memory [
    | none ↦ pure none
    | some memory ↦ (do r ← memory.store input; pure (some r))
  ]

  unfoldable pub search_memory : String → Run W (Option (List String))
  search_memory query = elim agent.memory [
    | none ↦ pure none
    | some memory ↦ (do r ← memory.search query; pure (some r))
  ]
