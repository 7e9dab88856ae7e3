-- ===== src/Models/Requests.antt =====
-- What an agent asks of the OpenAI library.
use freysa_spark_hackathon.Common.{◌≡◌, ap, none, some, Option, List, String}
use freysa_spark_hackathon.Json.{Json, JsonEngine}
use freysa_spark_hackathon.Agent.{Message, Tool, Memory, AgentConfig, new_agent, execute_task}
use freysa_spark_hackathon.Models.{OpenAi, OaiCompatibleModel, model_completions, agent_completions}

module _ {W : Type 0} where
  -- A configuration with a model.
  abbrev pub with_model :
      OpenAi W → OaiCompatibleModel → Option (Memory W) → List (Tool W) → String → AgentConfig W
  with_model openai model memory tools system_prompt = record {
    completions = agent_completions openai model;
    memory = memory;
    tools = tools;
    system_prompt = system_prompt;
  }

  -- An agent asks the library for its model's name, with the tool choice "auto" and without a temperature:
  -- what the library does for any other request makes no difference to a task of the agent.
  pub execute_task_asks_auto :
      (openai other : OpenAi W) (model : OaiCompatibleModel)
      → ((messages : List Message) (tools : List Json)
          → openai model.options model.model_name (record {
            messages = messages;
            tools = tools;
            tool_choice = some "auto";
            temperature = none;
          })
            ≡ other model.options model.model_name (record {
              messages = messages;
              tools = tools;
              tool_choice = some "auto";
              temperature = none;
            }))
      → (engine : JsonEngine) (memory : Option (Memory W)) (tools : List (Tool W))
        (prompt task : String)
      → execute_task engine (new_agent (with_model openai model memory tools prompt)) task
        ≡ execute_task engine (new_agent (with_model other model memory tools prompt)) task
  unfolding agent_completions model_completions
  execute_task_asks_auto openai other model agree engine memory tools prompt task =
      ap
        (λ completions.
          execute_task engine
            (new_agent (record {
              completions = completions;
              memory = memory;
              tools = tools;
              system_prompt = prompt;
            }))
            task)
        (λ i messages schemas. agree messages schemas i)
