-- ===== src/Agent/Types.antt =====
-- Messages, tools and the agent's fields: models/types.ts, tools/types.ts, tools/completion.ts and the
-- class Agent.
use text.Mathlib.Text.{◌==◌ as str_eq}
use freysa_spark_hackathon.Common.{
  Option, none, some, List, [], ◌∷◌, map, String, Run, pure, if◌then◌else◌,
}
use freysa_spark_hackathon.Json.{Json, str, arr, obj, nil, end, field}

pub record ToolCall : Type 0 where
  pub id : String
  pub name : String
  pub arguments : String

-- The chat messages that the agent builds or is given.
pub data Message : Type 0 where
  system user : String → Message
  assistant : Option String → List ToolCall → Message
  -- the id of the call that it answers, and its content
  tool : String → String → Message

-- `choice.message` of a completion.
pub record Choice : Type 0 where
  pub content : Option String
  pub tool_calls : Option (List ToolCall)

pub record Tool (W : Type 0) : Type 0 where
  pub name : String
  pub schema : Json
  pub execute : Json → Run W String

pub record Memory (W : Type 0) : Type 0 where
  pub search : String → Run W (List String)
  pub store : String → Run W (Unit {0})

-- `completions` is given the messages and the schemas of the tools, and returns the choices.
pub record AgentConfig (W : Type 0) : Type 0 where
  pub completions : List Message → List Json → Run W (List Choice)
  pub memory : Option (Memory W)
  pub tools : List (Tool W)
  pub system_prompt : String

-- CompletionTool: it signals the end of all tool usage.
abbrev pub completed : String
completed = "Completed"

abbrev completion_schema : Json
completion_schema = obj (
    field "type" (str "function") (
      field "function"
        (obj (
          field "name" (str completed) (
            field "description"
              (str "Completion tool indicates that all tool usage has been completed.")
              (field "parameters"
                (obj (
                  field "type" (str "object")
                    (field "properties" (obj end) (field "required" (arr nil) end))))
                end))))
        end))

abbrev pub completion_tool : (W : Type 0) → Tool W
completion_tool W = record {
  name = completed;
  schema = completion_schema;
  execute = λ input. pure "";
}

-- An object as a map: `Object.fromEntries` keeps the last value of a key. The names that every
-- object inherits (`constructor`, `toString`, …) are left out.
unfoldable pub set_entry {ℓ} : {V : Type ℓ} → String → V → List (String × V) → List (String × V)
set_entry k v [] = (k, v) ∷ []
set_entry k v ((j, w) ∷ m) = if str_eq j k then (k, v) ∷ m else (j, w) ∷ set_entry k v m

unfoldable pub entries_from {ℓ} :
    {V : Type ℓ} → List (String × V) → List (String × V) → List (String × V)
entries_from m [] = m
entries_from m ((k, v) ∷ es) = entries_from (set_entry k v m) es

unfoldable pub get_entry {ℓ} : {V : Type ℓ} → String → List (String × V) → Option V
get_entry k [] = none
get_entry k ((j, v) ∷ m) = if str_eq j k then some v else get_entry k m

-- The state that the payment tools leave: `{}`, or `{ approved: true, payInvoice }`.
pub data AgentState : Type 0 where
  initial : AgentState
  approved : Json → AgentState

pub record Agent (W : Type 0) : Type 0 where
  pub completions : List Message → List Json → Run W (List Choice)
  pub memory : Option (Memory W)
  pub tools : List (Tool W)
  pub tools_map : List (String × Tool W)
  pub system_prompt : String

abbrev pub entry_of : {W : Type 0} → Tool W → String × Tool W
entry_of t = (t.name, t)

-- The constructor: the completion tool stands before the tools of the configuration.
unfoldable pub new_agent : {W : Type 0} → AgentConfig W → Agent W
new_agent {W} config =
    let tools = completion_tool W ∷ config.tools in
    record {
      completions = config.completions;
      memory = config.memory;
      tools = tools;
      tools_map = entries_from [] (map entry_of tools);
      system_prompt = config.system_prompt;
    }

-- What a run reads and changes: the message array of its caller, the agent's state and the world.
pub record Session (W : Type 0) : Type 0 where
  pub messages : List Message
  pub state : AgentState
  pub world : W
