-- ===== src/Agent/Keeps.antt =====
-- What every tool call keeps, the whole loop keeps, from round to round and on every error.
use freysa_spark_hackathon.Common.{
  ℕ, zero, suc, Bool, true, false, Option, none, some, List, [], ◌∷◌, String, Keeps, Keeps-bind,
  Keeps-required,
}
use freysa_spark_hackathon.Json.{JsonEngine}
use freysa_spark_hackathon.Agent.Types.{ToolCall, get_entry, Agent, Session}
use freysa_spark_hackathon.Agent.Loop.{
  not_found, bad_arguments, in_world, execute_tool, run_tool_call, run_tool_calls, respond,
  ask_model, round, rounds, execute, first_choice,
}

module _ {W : Type 0} (engine : JsonEngine) (agent : Agent W) (R : Session W → Session W → Type 0)
    (same : (s : Session W) → R s s) (step : (s t u : Session W) → R s t → R t u → R s u)
    (world : (s : Session W) (w : W) → R s (record s { world = w })) where
  pub execute_tool-Keeps : (name args : String) → Keeps R (execute_tool engine agent name args)
  unfolding execute_tool in_world
  execute_tool-Keeps name args =
      Keeps-bind R same step _ _
        (Keeps-required R same step (get_entry name agent.tools_map) (not_found name))
        λ t.
          Keeps-bind R same step _ _
            (Keeps-required R same step (engine.parse args) (bad_arguments name args))
            λ decoded s. world s _

module _ {W : Type 0} (engine : JsonEngine) (agent : Agent W) (R : Session W → Session W → Type 0)
    (same : (s : Session W) → R s s) (step : (s t u : Session W) → R s t → R t u → R s u)
    (call-Keeps : (call : ToolCall) → Keeps R (run_tool_call engine agent call)) where
  calls-Keeps :
      (calls : List ToolCall) (done : Bool) → Keeps R (run_tool_calls engine agent calls done)
  unfolding run_tool_calls
  calls-Keeps [] done s = same s
  calls-Keeps (call ∷ calls) done s =
      Keeps-bind R same step _ _ (call-Keeps call) (λ _. calls-Keeps calls _) s

  pub respond-Keeps :
      (calls : Option (List ToolCall)) (content : Option String)
      → Keeps R (respond engine agent calls content)
  unfolding respond
  respond-Keeps none content s = same s
  respond-Keeps (some calls) content s = calls-Keeps calls false s

  module _ (ask-Keeps : Keeps R (ask_model engine agent)) where
    pub round-Keeps : Keeps R (round engine agent)
    unfolding round
    round-Keeps = Keeps-bind R same step _ _ ask-Keeps λ choices.
        Keeps-bind R same step _ _ (Keeps-required R same step (first_choice choices) _) λ choice.
          Keeps-bind R same step _ _ (respond-Keeps choice.tool_calls choice.content) λ _ s. same s

    rounds-Keeps :
        (left : ℕ) (done : Bool) (response : String)
        → Keeps R (rounds engine agent left done response)
    unfolding rounds
    rounds-Keeps zero done response s = same s
    rounds-Keeps (suc left) true response s = same s
    rounds-Keeps (suc left) false response s =
        Keeps-bind R same step _ _ round-Keeps (λ next. rounds-Keeps left next.0 next.1) s

    pub execute-Keeps : Keeps R (execute engine agent)
    unfolding execute
    execute-Keeps = rounds-Keeps _ false ""

-- A relation that looks at nothing but messages and state holds across a call of the model.
pub ask-Keeps_world :
    {W : Type 0} (engine : JsonEngine) (agent : Agent W) (R : Session W → Session W → Type 0)
    → ((s : Session W) (w : W) → R s (record s { world = w }))
    → Keeps R (ask_model engine agent)
unfolding ask_model in_world
ask-Keeps_world engine agent R world s = world s _
