-- ===== src/Spark/Replies.antt =====
-- What a reply of the payment server says of the payments that its request made.
use freysa_spark_hackathon.Common.{
  ◌≡◌, refl, sym, ◌∙◌, ap, ◌⊎◌, inl, inr, Option, none, some, List, [], ◌∷◌, ◌++◌, append_assoc,
  String, Result, ok, err, Run, Keeps, go_on, ◌>>=◌, required,
}
use freysa_spark_hackathon.Json.{
  Json, obj, Fields, JsonEngine, property, truthy_property, get_field, truthy_json,
}
use freysa_spark_hackathon.Agent.{
  ToolCall, Message, Choice, Tool, get_entry, initial, approved, Agent, new_agent, Session,
  state_after, in_world, execute_tool, record_result, run_tool_call, execute, not_found,
  bad_arguments, ask_model, execute_task, task_messages, reset_state, get_state,
}
use freysa_spark_hackathon.Agent.Keeps.{execute-Keeps}
use freysa_spark_hackathon.Spark.Lightspark.{Lightspark, receipt}
use freysa_spark_hackathon.Spark.Server.{answer, Reply, done, failed, spark_agent, handle_execute}
use freysa_spark_hackathon.Spark.Ledger.{Books, paid, Booked, agent, tool-Booked}

module _ {W : Type 0} {engine : JsonEngine} {client : Lightspark W}
    {completions : List Message → List Json → Run W (List Choice)}
    (books : Books engine client completions) where
  -- The agent's state and the payments are the ones before, or the state is approved with the newest payment.
  abbrev pub Current : Session W → Session W → Type 0
  Current s t =
      ((t.state ≡ s.state) × (paid books t.world ≡ paid books s.world))
      ⊎ ((p : Fields) × (others : List Fields) × (t.state ≡ approved (obj p))
          × (paid books t.world ≡ p ∷ (others ++ paid books s.world)))

  pub Current-step : (s t u : Session W) → Current s t → Current t u → Current s u
  Current-step s t u (inl (a, b)) (inl (c, d)) = inl (c ∙ a, d ∙ b)
  Current-step s t u (inl (a, b)) (inr (p, others, c, d)) =
      inr (p, others, c, d ∙ ap (λ ps. p ∷ (others ++ ps)) b)
  Current-step s t u (inr (p, others, a, b)) (inl (c, d)) = inr (p, others, c ∙ a, d ∙ b)
  Current-step s t u (inr (p, others, a, b)) (inr (q, more, c, d)) = inr (
    q,
    more ++ (p ∷ others),
    c,
    d ∙ rw b (ap (λ ps. q ∷ ps) (sym (append_assoc more (p ∷ others) (paid books s.world)))),
  )

  abbrev AfterTool : Session W → Result String × Session W → Type 0
  AfterTool s r = (r.1.state ≡ s.state) × Booked books s.world (r.0, r.1.world)

  record_result-Current :
      (agent : Agent W) (call : ToolCall) (s : Session W) (r : Result String × Session W)
      → AfterTool s r
      → Current s (go_on (record_result engine agent call) r).1
  unfolding record_result state_after truthy_property property get_field truthy_json
  record_result-Current agent call s (err m, t) (same, inl (kept, quiet)) = inl (same, kept)
  record_result-Current agent call s (err m, t) (same, inr (p, reason, e, parsed, adds)) = cc
  record_result-Current agent call s (ok text, t) (same, inl (kept, quiet)) =
      inl (rw (quiet text refl) same, kept)
  record_result-Current agent call s (ok text, t) (same, inr (p, reason, e, parsed, adds)) =
      let read : engine.parse text ≡ some (receipt p reason) = cc in inr (p, [], rw read refl, adds)

  module _ (system_prompt : String) where
    execute_tool-AfterTool :
        (name args : String) (s : Session W)
        → AfterTool s (execute_tool engine (agent books system_prompt) name args s)
    unfolding execute_tool in_world ◌>>=◌
    execute_tool-AfterTool name args s =
        by_tool (get_entry name (agent books system_prompt).tools_map) refl (engine.parse args)
      where
        by_tool :
            (o : Option (Tool W))
            → get_entry name (agent books system_prompt).tools_map ≡ o
            → (decoded : Option Json)
            → AfterTool s (
                (required o (not_found name) >>= λ t.
                required decoded (bad_arguments name args) >>= λ input. in_world (t.execute input))
                  s)
        by_tool none e decoded = (refl, inl (refl, λ text h. cc))
        by_tool (some t) e none = (refl, inl (refl, λ text h. cc))
        by_tool (some t) e (some input) =
            (refl, tool-Booked books system_prompt name t e input s.world)

    pub run_tool_call-Current :
        (call : ToolCall) → Keeps Current (run_tool_call engine (agent books system_prompt) call)
    unfolding run_tool_call ◌>>=◌
    run_tool_call-Current call s =
        record_result-Current (agent books system_prompt) call s _
          (execute_tool-AfterTool call.name call.arguments s)

    execute-Current : Keeps Current (execute engine (agent books system_prompt))
    unfolding ask_model in_world spark_agent new_agent
    execute-Current =
        execute-Keeps engine (agent books system_prompt) Current (λ s. inl (refl, refl))
          Current-step run_tool_call-Current (λ s. inl (refl, books.by_model _ _ s.world))

    -- What a reply says of the payments before and after it.
    abbrev pub Told : Reply → List Fields → List Fields → Type 0
    Told (done result initial) before after = after ≡ before
    Told (done result (approved j)) before after =
        (p : Fields) × (others : List Fields) × (j ≡ obj p) × (after ≡ p ∷ (others ++ before))
    Told (failed message) before after = (made : List Fields) × (after ≡ made ++ before)

    told :
        (s : Session W) (r : Result String × Session W)
        → Current (reset_state s) r.1
        → Told
            (answer engine client completions system_prompt r).0
            (paid books s.world)
            (paid books (answer engine client completions system_prompt r).1.world)
    unfolding reset_state get_state
    told s (err m, t) (inl (a, b)) = ([], b)
    told s (err m, t) (inr (p, others, a, b)) = (p ∷ others, b)
    told s (ok result, t) (inl (a, b)) = rw a b
    told s (ok result, t) (inr (p, others, a, b)) = rw a (p, others, refl, b)

    -- Over a ledger of the payments that the client has returned, and an engine that reads the receipts
    -- back (Books), for a request that no other request overlaps: a reply with the status 200 and the
    -- initial state was sent after a request that made no payment; where its state is approved, it shows the newest payment, which the request made; with
    -- the status 500, payments may have been made, which the reply does not tell.
    pub handle_execute-Told :
        (task : String) (s : Session W)
        → Told
            (handle_execute engine client completions system_prompt task s).0
            (paid books s.world)
            (paid books (handle_execute engine client completions system_prompt task s).1.world)
    unfolding handle_execute execute_task task_messages spark_agent new_agent in_world reset_state
        ◌>>=◌
    handle_execute-Told task s = told s _ (execute-Current _)
