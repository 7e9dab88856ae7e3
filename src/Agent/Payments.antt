-- ===== src/Agent/Payments.antt =====
-- Where the agent's approved state comes from.
use freysa_spark_hackathon.Common.{
  ◌≡◌, refl, ◌∙◌, ◌⊎◌, inl, inr, Option, none, some, String, Result, ok, err, Run, Keeps, go_on,
  ◌>>=◌, bind-eq-ok, required-eq-ok,
}
use freysa_spark_hackathon.Json.{Json, JsonEngine, truthy_property}
use freysa_spark_hackathon.Agent.Types.{
  ToolCall, Tool, get_entry, AgentState, approved, Agent, Session,
}
use freysa_spark_hackathon.Agent.Loop.{
  state_after, in_world, execute_tool, record_result, run_tool_call, execute,
}
use freysa_spark_hackathon.Agent.Keeps.{execute_tool-Keeps, ask-Keeps_world, execute-Keeps}

state_after-cases :
    (o : Option Json) (st : AgentState)
    → (state_after o st ≡ st)
      ⊎ ((j p : Json) × (o ≡ some j)
          × (truthy_property j "payInvoice" ≡ ok (some p))
          × (state_after o st ≡ approved p))
unfolding state_after
state_after-cases none st = inl refl
state_after-cases (some j) st = by_property (truthy_property j "payInvoice") refl
  where
    by_property :
        (r : Result (Option Json))
        → truthy_property j "payInvoice" ≡ r
        → (state_after (some j) st ≡ st)
          ⊎ ((j' p : Json) × (some j ≡ some j')
              × (truthy_property j' "payInvoice" ≡ ok (some p))
              × (state_after (some j) st ≡ approved p))
    by_property (ok none) e = inl (rw (e, state_after))
    by_property (ok (some p)) e = inr (j, p, refl, e, rw (e, state_after))
    by_property (err m) e = inl (rw (e, state_after))

in_world-eq-ok :
    {W A : Type 0} (m : Run W A) (s : Session W) {a : A} {t : Session W}
    → in_world m s ≡ (ok a, t)
    → (w : W) × (m s.world ≡ (ok a, w))
unfolding in_world
in_world-eq-ok m s {a} {t} e = ((m s.world).1, λ i. ((e i).0, (m s.world).1))

module _ {W : Type 0} (engine : JsonEngine) (agent : Agent W) where
  -- A tool of the agent returned a text that JSON.parse reads as a value with a truthy
  -- `payInvoice`, the value `p`.
  pub record Paid (p : Json) : Type 0 where
    pub name : String
    pub tool : Tool W
    pub registered : get_entry name agent.tools_map ≡ some tool
    pub returned :
        (input : Json) × (text : String) × (j : Json) × (w w' : W) × (tool.execute input w
          ≡ (ok text, w'))
        × (engine.parse text ≡ some j)
        × (truthy_property j "payInvoice" ≡ ok (some p))

  abbrev pub Accounted : Session W → Session W → Type 0
  Accounted s t = (t.state ≡ s.state) ⊎ ((p : Json) × (t.state ≡ approved p) × Paid p)

  Accounted-same : (s : Session W) → Accounted s s
  Accounted-same s = inl refl

  Accounted-step : (s t u : Session W) → Accounted s t → Accounted t u → Accounted s u
  Accounted-step s t u h (inr paid) = inr paid
  Accounted-step s t u (inl e) (inl f) = inl (f ∙ e)
  Accounted-step s t u (inr (p, e, paid)) (inl f) = inr (p, f ∙ e, paid)

  abbrev SameState : Session W → Session W → Type 0
  SameState s t = t.state ≡ s.state

  execute_tool-state : (name args : String) → Keeps SameState (execute_tool engine agent name args)
  execute_tool-state =
      execute_tool-Keeps engine agent SameState (λ s. refl) (λ s t u p q. q ∙ p) (λ s w. refl)

  execute_tool-ok :
      (name args : String) (s t : Session W) {text : String}
      → execute_tool engine agent name args s ≡ (ok text, t)
      → (tool : Tool W) × (get_entry name agent.tools_map ≡ some tool)
        × ((input : Json) × (w w' : W) × (tool.execute input w ≡ (ok text, w')))
  unfolding execute_tool
  execute_tool-ok name args s t e =
      let (tool, s1, e1, r1) = bind-eq-ok _ _ _ e in
      let (input, s2, e2, r2) = bind-eq-ok _ _ _ r1 in
      let (w', ran) = in_world-eq-ok (tool.execute input) s2 r2 in
      (tool, (required-eq-ok _ _ s e1).0, (input, s2.world, w', ran))

  record_result-Accounted :
      (call : ToolCall) (s t : Session W) (text : String)
      → execute_tool engine agent call.name call.arguments s ≡ (ok text, t)
      → t.state ≡ s.state
      → Accounted s (record_result engine agent call text t).1
  unfolding record_result
  record_result-Accounted call s t text e kept =
      elim (state_after-cases (engine.parse text) t.state) [
        | inl same ↦ inl (same ∙ kept)
        | inr (j, p, parsed, has, set) ↦
            let (tool, found, (input, w, w', ran)) =
              execute_tool-ok call.name call.arguments s t e in
            inr (
              p,
              set,
              record {
                name = call.name;
                tool = tool;
                registered = found;
                returned = (input, text, j, w, w', ran, parsed, has);
              },
            )
      ]

  run_tool_call-Accounted : (call : ToolCall) → Keeps Accounted (run_tool_call engine agent call)
  unfolding run_tool_call ◌>>=◌
  run_tool_call-Accounted call s =
      by_result (execute_tool engine agent call.name call.arguments s) refl
        (execute_tool-state call.name call.arguments s)
    where
      by_result :
          (r : Result String × Session W)
          → execute_tool engine agent call.name call.arguments s ≡ r
          → r.1.state ≡ s.state
          → Accounted s (go_on (record_result engine agent call) r).1
      by_result (ok text, t) e kept = record_result-Accounted call s t text e kept
      by_result (err m, t) e kept = inl kept

  -- However a run of `execute` ends, the agent's state is the one that it began with, or it is
  -- approved with a `payInvoice` that a registered tool returned, truthy, in the JSON of its text.
  pub execute-Accounted : (s : Session W) → Accounted s (execute engine agent s).1
  execute-Accounted =
      execute-Keeps engine agent Accounted Accounted-same Accounted-step run_tool_call-Accounted
        (ask-Keeps_world engine agent Accounted (λ s w. inl refl))
