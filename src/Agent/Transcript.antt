-- ===== src/Agent/Transcript.antt =====
-- What a run of the agent leaves in the message array of its caller.
use freysa_spark_hackathon.Common.{
  ◌≡◌, refl, sym, ◌∙◌, ap, none, List, [], ◌∷◌, ◌++◌, append-nil, append_assoc, String, Keeps,
  Keeps-bind,
}
use freysa_spark_hackathon.Json.{JsonEngine}
use freysa_spark_hackathon.Agent.Types.{ToolCall, Message, assistant, tool, Agent, Session}
use freysa_spark_hackathon.Agent.Loop.{record_result, run_tool_call, execute}
use freysa_spark_hackathon.Agent.Keeps.{execute_tool-Keeps, ask-Keeps_world, execute-Keeps}

-- Pairs of a message with one tool call and the tool message that answers its id.
pub data IsTranscript : List Message → Type 0 where
  nothing : IsTranscript []
  answered :
      (call : ToolCall) (content : String) (rest : List Message)
      → IsTranscript rest
      → IsTranscript (assistant none (call ∷ []) ∷ tool call.id content ∷ rest)

IsTranscript-append :
    {ms ns : List Message} → IsTranscript ms → IsTranscript ns → IsTranscript (ms ++ ns)
IsTranscript-append nothing q = q
IsTranscript-append (answered call content rest p) q =
    answered call content _ (IsTranscript-append p q)

module _ {W : Type 0} where
  -- The messages of the second session are those of the first and a transcript behind them.
  abbrev pub Extends : Session W → Session W → Type 0
  Extends s t = (more : List Message) × (t.messages ≡ s.messages ++ more) × IsTranscript more

  Extends-same : (s : Session W) → Extends s s
  Extends-same s = ([], sym (append-nil s.messages), nothing)

  Extends-step : (s t u : Session W) → Extends s t → Extends t u → Extends s u
  Extends-step s t u (a, p, h) (b, q, k) =
      (a ++ b, q ∙ ap (λ ms. ms ++ b) p ∙ append_assoc s.messages a b, IsTranscript-append h k)

module _ {W : Type 0} (engine : JsonEngine) (agent : Agent W) where
  record_result-Extends :
      (call : ToolCall) (result : String) → Keeps Extends (record_result engine agent call result)
  unfolding record_result
  record_result-Extends call result s = (_, refl, answered call _ [] nothing)

  run_tool_call-Extends : (call : ToolCall) → Keeps Extends (run_tool_call engine agent call)
  unfolding run_tool_call
  run_tool_call-Extends call =
      Keeps-bind Extends Extends-same Extends-step _ _
        (execute_tool-Keeps engine agent Extends Extends-same Extends-step (λ s w. Extends-same s)
          call.name call.arguments)
        (record_result-Extends call)

  -- However a run of `execute` ends, also by a throw, it has only appended to the messages that it was
  -- given, and what it appended are pairs: a message with one tool call, and the tool message that
  -- answers that call's id.
  pub execute-Extends : (s : Session W) → Extends s (execute engine agent s).1
  execute-Extends =
      execute-Keeps engine agent Extends Extends-same Extends-step run_tool_call-Extends
        (ask-Keeps_world engine agent Extends (λ s w. Extends-same s))
