-- ===== src/Agent/Steps.antt =====
-- How often a run of the agent asks the model.
use freysa_spark_hackathon.Common.{
  ℕ, zero, suc, ◌+◌, ◌≤◌, ◌≡◌, inl, inr, Bool, true, false, Option, none, some, List, String,
  Result, ok, err, Run, arith, go_on, ◌>>=◌, required, Option-cases,
}
use native.Mathlib.Nat.{le_refl, le_trans}
use freysa_spark_hackathon.Json.{Json, JsonEngine}
use freysa_spark_hackathon.Agent.Types.{ToolCall, Message, Tool, get_entry, Agent, Session}
use freysa_spark_hackathon.Agent.Loop.{
  in_world, execute_tool, record_result, run_tool_call, respond, ask_model, round, rounds, execute,
  first_choice, max_steps,
}
use freysa_spark_hackathon.Agent.Keeps.{respond-Keeps}

-- A world that counts: one call of the model adds at most one, and the agent's tools add nothing.
pub record Counts {W : Type 0} (agent : Agent W) (calls : W → ℕ) : Type 0 where
  pub by_model :
      (ms : List Message) (tools : List Json) (w : W)
      → calls (agent.completions ms tools w).1 ≤ calls w + 1
  pub by_tool :
      (name : String) (tool : Tool W)
      → get_entry name agent.tools_map ≡ some tool
      → (input : Json) (w : W) → calls (tool.execute input w).1 ≤ calls w

module _ {W : Type 0} (engine : JsonEngine) (agent : Agent W) (calls : W → ℕ)
    (counts : Counts agent calls) where
  abbrev Adds : {A : Type 0} → ℕ → Run (Session W) A → Type 0
  Adds k m = (s : Session W) → calls (m s).1.world ≤ calls s.world + k

  Adds-go_on :
      {A B : Type 0} (j k : ℕ) (f : A → Run (Session W) B) (s : Session W)
      (r : Result A × Session W)
      → calls r.1.world ≤ calls s.world + j
      → ((a : A) → Adds k (f a))
      → calls (go_on f r).1.world ≤ calls s.world + (j + k)
  Adds-go_on j k f s (ok a, t) h later = omega (arith, later a t)
  Adds-go_on j k f s (err e, t) h later = omega arith

  Adds-bind :
      {A B : Type 0} (j k : ℕ) (m : Run (Session W) A) (f : A → Run (Session W) B)
      → Adds j m
      → ((a : A) → Adds k (f a))
      → Adds (j + k) (m >>= f)
  unfolding ◌>>=◌
  Adds-bind j k m f h later s = Adds-go_on j k f s (m s) (h s) later

  Adds-required : {A : Type 0} (o : Option A) (e : String) → Adds 0 (required o e)
  Adds-required none e s = omega arith
  Adds-required (some a) e s = omega arith

  run_tool-Adds : (name args : String) → Adds 0 (execute_tool engine agent name args)
  unfolding execute_tool in_world ◌>>=◌
  run_tool-Adds name args s = elim (Option-cases (get_entry name agent.tools_map)) [
    | inl missing ↦ rw missing (omega arith)
    | inr (tool, found) ↦ elim (Option-cases (engine.parse args)) [
      | inl bad ↦ rw (found, bad) (omega arith)
      | inr (input, parsed) ↦
          rw (found, parsed) (omega (arith, counts.by_tool name tool found input s.world))
    ]
  ]

  run_tool_call-Adds : (call : ToolCall) → Adds 0 (run_tool_call engine agent call)
  unfolding run_tool_call record_result
  run_tool_call-Adds call s =
      Adds-bind 0 0 _ _ (run_tool-Adds call.name call.arguments) (λ text t. omega arith) s

  respond-Adds :
      (cs : Option (List ToolCall)) (content : Option String)
      → Adds 0 (respond engine agent cs content)
  respond-Adds cs content s =
      le_trans
        (respond-Keeps engine agent (λ s t. calls t.world ≤ calls s.world) (λ s. le_refl _)
          (λ s t u p q. le_trans q p) (λ call t. omega (arith, run_tool_call-Adds call t)) cs
          content s)
        (omega arith)

  ask_model-Adds : Adds 1 (ask_model engine agent)
  unfolding ask_model in_world
  ask_model-Adds s = counts.by_model _ _ _

  round-Adds : Adds 1 (round engine agent)
  unfolding round
  round-Adds = Adds-bind 1 0 _ _ ask_model-Adds λ choices.
      Adds-bind 0 0 _ _ (Adds-required (first_choice choices) _) λ choice.
        Adds-bind 0 0 _ _ (respond-Adds choice.tool_calls choice.content) λ _ s. omega arith

  rounds-Adds :
      (left : ℕ) (done : Bool) (response : String)
      → Adds left (rounds engine agent left done response)
  unfolding rounds
  rounds-Adds zero done response s = omega arith
  rounds-Adds (suc left) true response s = omega arith
  rounds-Adds (suc left) false response s =
      le_trans (Adds-bind 1 left _ _ round-Adds (λ next. rounds-Adds left next.0 next.1) s)
        (omega arith)

  -- One run of `execute` asks the model at most 30 times.
  pub execute_asks : (s : Session W) → calls (execute engine agent s).1.world ≤ calls s.world + 30
  unfolding execute
  execute_asks = rounds-Adds max_steps false ""
