-- ===== src/Spark/Server.antt =====
-- startServer of spark-server.ts: the agent that it makes, and its handler of /agent/execute.
use freysa_spark_hackathon.Common.{true, false, none, List, [], ◌∷◌, String, Result, ok, err, Run}
use freysa_spark_hackathon.Json.{Json, bool, str, obj, end, field, JsonEngine}
use freysa_spark_hackathon.Agent.{
  Message, Choice, AgentConfig, AgentState, initial, approved, Agent, new_agent, Session, get_state,
  reset_state, execute_task,
}
use freysa_spark_hackathon.Spark.Lightspark.{
  Lightspark, approve_transfer_tool, reject_transfer_tool,
}

-- What the handler sends: with the status 200, or with 500.
pub data Reply : Type 0 where
  done : String → AgentState → Reply
  failed : String → Reply

-- The agent's state as JSON.
abbrev pub state_json : AgentState → Json
state_json initial = obj end
state_json (approved p) = obj (field "approved" (bool true) (field "payInvoice" p end))

-- The body of a reply.
unfoldable pub body_of : Reply → Json
body_of (done result state) = obj (
    field "success" (bool true)
      (field "result" (str result) (field "state" (state_json state) end)))
body_of (failed message) = obj (field "success" (bool false) (field "error" (str message) end))

module _ {W : Type 0} (engine : JsonEngine) (client : Lightspark W)
    (completions : List Message → List Json → Run W (List Choice)) (system_prompt : String) where
  abbrev pub spark_config : AgentConfig W
  spark_config = record {
    completions = completions;
    memory = none;
    tools = approve_transfer_tool client engine ∷ reject_transfer_tool W ∷ [];
    system_prompt = system_prompt;
  }

  unfoldable pub spark_agent : Agent W
  spark_agent = new_agent spark_config

  abbrev pub answer : Result String × Session W → Reply × Session W
  answer (ok result, s) = (done result (get_state s), s)
  answer (err message, s) = (failed message, s)

  -- The handler, for the task of a request's body, as one step: the server awaits the model and the tools,
  -- and this is what it does where no other request begins in between. Spark.Overlap has requests that overlap.
  unfoldable pub handle_execute : String → Session W → Reply × Session W
  handle_execute task s = answer (execute_task engine spark_agent task (reset_state s))
