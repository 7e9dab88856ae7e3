-- ===== src/Models.antt =====
-- OAICompatibleModel of agent/src/common/models/openai.ts, and the agent's calls of it. The OpenAI library is a
-- parameter; the model's embeddings are in Memories.
pub mod Requests
mod Examples
use freysa_spark_hackathon.Common.{
  Option, none, some, List, [], ◌∷◌, String, Run, pure, required, ◌>>=◌, is_truthy, if◌then◌else◌,
}
use freysa_spark_hackathon.Json.{Json}
use freysa_spark_hackathon.Agent.{ToolCall, Message, Choice, first_choice}

-- TModelCall, and what the library is asked: the same with the model's name.
pub record ModelCall : Type 0 where
  pub messages : List Message
  pub tools : List Json
  pub tool_choice : Option String
  pub temperature : Option String

-- The options of the library's client.
pub record OpenAiOptions : Type 0 where
  pub base_url : Option String
  pub api_key : Option String
  pub project : Option String

-- A client with these options is asked for completions of a model, and gives choices.
abbrev pub OpenAi : Type 0 → Type 0
OpenAi W = OpenAiOptions → String → ModelCall → Run W (List Choice)

pub record OaiCompatibleModel : Type 0 where
  pub model_name : String
  pub options : OpenAiOptions

-- `a || b` for a text that may be absent.
abbrev or_key : Option String → Option String → Option String
or_key none b = b
or_key (some a) b = if is_truthy a then some a else b

-- The constructor; `environment` is OPENAI_API_KEY.
unfoldable pub new_model :
    String → Option String → Option String → Option String → Option String → OaiCompatibleModel
new_model name base_url api_key project environment = record {
  model_name = name;
  options = record { base_url = base_url; api_key = or_key api_key environment; project = project };
}

abbrev calls_of : Option (List ToolCall) → List ToolCall
calls_of none = []
calls_of (some calls) = calls

module _ {W : Type 0} (openai : OpenAi W) (model : OaiCompatibleModel) where
  unfoldable pub model_completions : ModelCall → Run W (List Choice)
  model_completions body = openai model.options model.model_name body

  unfoldable pub tool_completions : ModelCall → Run W (List ToolCall)
  tool_completions body = do
    choices ← openai model.options model.model_name body
    choice ← required (first_choice choices) "Cannot read properties of undefined"
    pure (calls_of choice.tool_calls)

  -- The call of the agent's loop.
  unfoldable pub agent_completions : List Message → List Json → Run W (List Choice)
  agent_completions messages tools =
      model_completions (record {
        messages = messages;
        tools = tools;
        tool_choice = some "auto";
        temperature = none;
      })
