-- ===== src/Agent/Examples.antt =====
-- The agent with a fixed engine, model and tools.
use freysa_spark_hackathon.Common.{
  ℕ, ◌+◌, ◌≤◌, ◌≡◌, refl, inl, inr, Bool-cases, Option, none, some, List, [], ◌∷◌, String, ok, Run,
  pure, ◌>>=◌, if◌then◌else◌,
}
use native.Mathlib.Nat.{le_refl}
use text.Mathlib.Text.{◌==◌ as str_eq}
use freysa_spark_hackathon.Json.{
  Json, null, str, obj, end, field, JsonEngine, get_field, property, truthy_json, truthy_property,
}
use freysa_spark_hackathon.Agent.Types.{
  ToolCall, Message, user, assistant, tool, Choice, Tool, AgentConfig, completed, completion_tool,
  set_entry, entries_from, get_entry, initial, approved, Agent, new_agent, Session,
}
use freysa_spark_hackathon.Agent.Loop.{
  state_after, value_after, in_world, execute_tool, record_result, run_tool_call, run_tool_calls,
  respond, ask_model, round, rounds, execute,
}
use freysa_spark_hackathon.Agent.Transcript.{Extends, execute-Extends}
use freysa_spark_hackathon.Agent.Steps.{Counts, execute_asks}
use freysa_spark_hackathon.Agent.Payments.{Accounted, execute-Accounted}

runs : Unit {0}
unfolding execute rounds round ask_model in_world respond run_tool_calls run_tool_call execute_tool
    record_result state_after value_after ◌>>=◌ get_field property truthy_json truthy_property
    set_entry entries_from get_entry new_agent
runs = tt

abbrev paid : Json
paid = obj (field "payInvoice" (str "p1") (field "reason" (str "fine") end))

-- JSON.parse knows "{}" and the text "paid" here, and JSON.stringify prints texts alone.
abbrev parse : String → Option Json
parse t = if str_eq t "{}" then some (obj end) else if str_eq t "paid" then some paid else none

abbrev stringify : Json → String
stringify (str s) = s
stringify _ = "?"

abbrev engine : JsonEngine
engine = record { parse = parse; stringify = stringify }

abbrev pay_tool : Tool ℕ
pay_tool = record { name = "pay"; schema = null; execute = λ _. pure "paid" }

abbrev says : Choice → List Message → List Json → Run ℕ (List Choice)
says choice _ _ n = (ok (choice ∷ []), n + 1)

abbrev agent_of : Choice → AgentConfig ℕ
agent_of choice = record {
  completions = says choice;
  memory = none;
  tools = pay_tool ∷ [];
  system_prompt = "You control a wallet.";
}

-- The world counts the calls of the model.
abbrev start : Session ℕ
start = record { messages = user "hi" ∷ []; state = initial; world = 0 }

abbrev pay_call : ToolCall
pay_call = record { id = "c1"; name = "pay"; arguments = "{}" }

abbrev end_call : ToolCall
end_call = record { id = "c2"; name = "Completed"; arguments = "{}" }

abbrev paying : Choice
paying = record { content = some "bye"; tool_calls = some (pay_call ∷ end_call ∷ []) }

abbrev answering : Choice
answering = record { content = some "hello"; tool_calls = none }

abbrev silent : Choice
silent = record { content = none; tool_calls = none }

abbrev ending : Choice
ending = record { content = none; tool_calls = some (end_call ∷ []) }

abbrev lost : ToolCall
lost = record { id = "c3"; name = "fly"; arguments = "{}" }

abbrev flying : Choice
flying = record { content = none; tool_calls = some (lost ∷ pay_call ∷ []) }

paying_run : execute engine (new_agent (agent_of paying)) start ≡ (
  ok "bye",
  record {
    messages =
        user "hi"
        ∷ assistant none (pay_call ∷ [])
        ∷ tool "c1" "fine"
        ∷ assistant none (end_call ∷ [])
        ∷ tool "c2" ""
        ∷ [];
    state = approved (str "p1");
    world = 1;
  },
)
unfolding runs
paying_run = refl

execute-Extends_example : Extends start (execute engine (new_agent (agent_of paying)) start).1
execute-Extends_example = execute-Extends engine (new_agent (agent_of paying)) start

execute-Accounted_example :
    Accounted engine
      (new_agent (agent_of paying))
      start
      (execute engine (new_agent (agent_of paying)) start).1
execute-Accounted_example = execute-Accounted engine (new_agent (agent_of paying)) start

-- No tool of this agent touches the world.
abbrev bare : Agent ℕ
bare = record {
  completions = says silent;
  memory = none;
  tools = [];
  tools_map = ("Completed", completion_tool ℕ) ∷ [];
  system_prompt = "";
}

bare_tool :
    (name : String) (t : Tool ℕ) → get_entry name bare.tools_map ≡ some t → t ≡ completion_tool ℕ
unfolding get_entry
bare_tool name t found = elim (Bool-cases (str_eq "Completed" name)) [
  | inl same ↦ cc (rw same at found)
  | inr other ↦ cc (rw other at found)
]

completion-adds :
    (name : String) (t : Tool ℕ)
    → get_entry name bare.tools_map ≡ some t
    → (input : Json) (n : ℕ) → (t.execute input n).1 ≤ n
completion-adds name t found input n = rw (bare_tool name t found) (le_refl n)

bare-Counts : Counts bare (λ n. n)
bare-Counts = record { by_model = λ ms tools n. le_refl _; by_tool = completion-adds }

execute_asks_example : (execute engine bare start).1.world ≤ 0 + 30
execute_asks_example = execute_asks engine bare (λ n. n) bare-Counts start

fly_missing : get_entry "fly" (new_agent (agent_of flying)).tools_map ≡ none
unfolding runs
fly_missing = refl

completed_known :
    get_entry completed (new_agent (agent_of ending)).tools_map ≡ some (completion_tool ℕ)
unfolding runs
completed_known = refl
