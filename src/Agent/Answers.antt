-- ===== src/Agent/Answers.antt =====
-- How a run of the agent ends: with an answer, by the completion tool, at an unknown tool, and when
-- the model never answers.
use freysa_spark_hackathon.Common.{
  ℕ, zero, suc, ◌≡◌, refl, ◌∙◌, true, false, Option, none, some, List, [], ◌∷◌, ◌++◌, map, String,
  ok, err, ◌>>=◌, bind-ok, is_truthy,
}
use freysa_spark_hackathon.Json.{Json, str, JsonEngine}
use freysa_spark_hackathon.Agent.Types.{
  ToolCall, assistant, tool, Choice, completed, completion_tool, get_entry, Agent, Session,
}
use freysa_spark_hackathon.Agent.Loop.{
  not_found, content_or_empty, state_after, value_after, in_world, execute_tool, record_result,
  run_tool_call, run_tool_calls, respond, ask_model, round, rounds, execute,
}

module _ {W : Type 0} (engine : JsonEngine) (agent : Agent W) where
  abbrev schemas : List Json
  schemas = map (λ t. t.schema) agent.tools

  -- The first choice of the model at the session `s`, and the world after it.
  abbrev pub Chooses : Session W → Choice → W → Type 0
  Chooses s choice w =
      (more : List Choice) × (agent.completions s.messages schemas s.world
        ≡ (ok (choice ∷ more), w))

  -- If the first choice has no tool calls and a content that is not empty, `execute` returns that
  -- content; it has asked the model once, and left the messages and the state.
  pub answer_at_once :
      (s : Session W) (content : String) (w : W)
      → Chooses s (record { content = some content; tool_calls = none }) w
      → is_truthy content ≡ true
      → execute engine agent s ≡ (ok content, record s { world = w })
  unfolding execute rounds round ask_model in_world respond ◌>>=◌
  answer_at_once s content w (more, asked) full = rw (asked, full)

  -- If the first choice calls a tool that the agent does not have, `execute` throws "Tool … not
  -- found", and has left the messages and the state.
  pub unknown_tool_throws :
      (s : Session W) (content : Option String) (call : ToolCall) (calls : List ToolCall) (w : W)
      → Chooses s (record { content = content; tool_calls = some (call ∷ calls) }) w
      → get_entry call.name agent.tools_map ≡ none
      → execute engine agent s ≡ (err (not_found call.name), record s { world = w })
  unfolding execute rounds round ask_model in_world respond run_tool_calls run_tool_call
      execute_tool ◌>>=◌
  unknown_tool_throws s content call calls w (more, asked) missing = rw (asked, missing)

  -- If the first choice is one call of the completion tool, with arguments that are JSON, `execute`
  -- returns the content of that choice, or "" where it has none; it has appended the call and the
  -- answer to it, and left the state.
  pub completed_ends :
      (s : Session W) (content : Option String) (id args : String) (input : Json) (w : W)
      → Chooses s
          (record {
            content = content;
            tool_calls = some (record { id = id; name = completed; arguments = args } ∷ []);
          })
          w
      → get_entry completed agent.tools_map ≡ some (completion_tool W)
      → engine.parse args ≡ some input
      → engine.parse "" ≡ none
      → execute engine agent s ≡ (
        ok (content_or_empty content),
        record {
          messages =
              s.messages
              ++ assistant none (record { id = id; name = completed; arguments = args } ∷ [])
                ∷ tool id (engine.stringify (str ""))
                ∷ [];
          state = s.state;
          world = w;
        },
      )
  unfolding execute rounds round ask_model in_world respond run_tool_calls run_tool_call
      execute_tool record_result state_after value_after ◌>>=◌
  completed_ends s content id args input w (more, asked) has parsed empty =
      rw (asked, has, parsed, empty)

  silent_round :
      (s : Session W) (w : W)
      → Chooses s (record { content = none; tool_calls = none }) w
      → round engine agent s ≡ (ok (false, ""), record s { world = w })
  unfolding round ask_model in_world respond ◌>>=◌
  silent_round s w (more, asked) = rw asked

  silent_rounds :
      ((s : Session W) → (w : W) × Chooses s (record { content = none; tool_calls = none }) w)
      → (left : ℕ) (s : Session W)
      → (w : W) × (rounds engine agent left false "" s ≡ (ok "", record s { world = w }))
  unfolding rounds
  silent_rounds silent zero s = (s.world, refl)
  silent_rounds silent (suc left) s =
      let (w, chosen) = silent s in
      let (w', later) = silent_rounds silent left (record s { world = w }) in
      (w', bind-ok _ _ s (silent_round s w chosen) ∙ later)

  -- If the model never gives tool calls or a content, `execute` ends all the same: it returns "",
  -- and has left the messages and the state.
  pub silent_model_ends :
      ((s : Session W) → (w : W) × Chooses s (record { content = none; tool_calls = none }) w)
      → (s : Session W) → (w : W) × (execute engine agent s ≡ (ok "", record s { world = w }))
  unfolding execute
  silent_model_ends silent s = silent_rounds silent _ s
