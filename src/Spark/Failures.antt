-- ===== src/Spark/Failures.antt =====
-- A request that pays and then fails.
use freysa_spark_hackathon.Common.{
  ◌≡◌, sym, ◌∙◌, ap, true, Option, none, some, List, [], ◌∷◌, map, String, ok, Run, ◌>>=◌,
  is_truthy,
}
use freysa_spark_hackathon.Json.{
  Json, obj, str, field, end, Fields, JsonEngine, property, get_field,
}
use freysa_spark_hackathon.Agent.{
  ToolCall, Message, system, user, Choice, get_entry, set_entry, entries_from, new_agent, Session,
  in_world, execute_tool, record_result, run_tool_call, run_tool_calls, respond, round, rounds,
  execute, not_found, ask_model, execute_task, task_messages, reset_state,
}
use freysa_spark_hackathon.Spark.Lightspark.{
  Lightspark, approve_name, approval, send_payment, execute_approve, approve_transfer_tool,
  reject_transfer_tool, text_of,
}
use freysa_spark_hackathon.Spark.Server.{failed, spark_agent, handle_execute}
use freysa_spark_hackathon.Spark.Ledger.{Books, paid, agent, booked}

module _ {W : Type 0} {engine : JsonEngine} {client : Lightspark W}
    {completions : List Message → List Json → Run W (List Choice)}
    (books : Books engine client completions) (system_prompt : String) where
  -- A choice of the model, an invoice and its payment, in the ledger.
  pub paid_once :
      (ms : List Message) (tools : List Json) (choices : List Choice) (memo invoice : String)
      (p : Fields) (w w1 w2 w3 : W)
      → completions ms tools w ≡ (ok choices, w1)
      → client.create_test_mode_invoice client.node_id 20000 memo w1 ≡ (ok (some invoice), w2)
      → client.pay_invoice client.node_id invoice 1000 w2 ≡ (ok (some p), w3)
      → paid books w3 ≡ p ∷ paid books w
  paid_once ms tools choices memo invoice p w w1 w2 w3 asked created payed =
      let before : paid books w1 ≡ paid books w =
        sym (ap (λ r. paid books r.1) asked) ∙ books.by_model ms tools w in
      let invoiced : paid books w2 ≡ paid books w1 =
        sym (ap (λ r. paid books r.1) created) ∙ books.by_invoice _ _ _ w1 in
      let added : paid books w3 ≡ p ∷ paid books w2 =
        sym (ap (λ r. paid books r.1) payed)
        ∙ (books.by_payment _ _ _ w2 ∙ ap (λ r. booked r.0 (paid books w2)) payed) in
      added ∙ ap (λ ps. p ∷ ps) (invoiced ∙ before)

  ran :
      (task : String) (s : Session W) (content : Option String) (id args explanation : String)
      (lost : ToolCall) (calls : List ToolCall) (more : List Choice) (invoice : String) (p : Fields)
      (w1 w2 w3 : W)
      → completions
          (system system_prompt ∷ user task ∷ [])
          (map (λ t. t.schema) (agent books system_prompt).tools)
          s.world
        ≡ (
          ok (
              record {
                content = content;
                tool_calls =
                    some (record { id = id; name = approve_name; arguments = args } ∷ lost ∷ calls);
              }
              ∷ more),
          w1,
        )
      → engine.parse args ≡ some (obj (field "explanation" (str explanation) end))
      → client.create_test_mode_invoice client.node_id 20000 (approval explanation) w1
        ≡ (ok (some invoice), w2)
      → is_truthy invoice ≡ true
      → client.pay_invoice client.node_id invoice 1000 w2 ≡ (ok (some p), w3)
      → get_entry lost.name (agent books system_prompt).tools_map ≡ none
      → ((handle_execute engine client completions system_prompt task s).0
          ≡ failed (not_found lost.name))
        × ((handle_execute engine client completions system_prompt task s).1.world ≡ w3)
  unfolding handle_execute execute_task task_messages spark_agent new_agent in_world reset_state
      ◌>>=◌ execute rounds round ask_model respond run_tool_calls run_tool_call execute_tool
      record_result execute_approve send_payment approve_transfer_tool reject_transfer_tool property
      get_field text_of entries_from set_entry get_entry
  ran task s content id args explanation lost calls more invoice p w1 w2 w3 asked parsed created
        full payed missing =
      (
        rw (asked, parsed, created, full, payed, missing),
        rw (asked, parsed, created, full, payed, missing),
      )

  -- Over the ledger of Books: if the first choice of the model calls the approval, with JSON arguments
  -- that hold an explanation, and then a tool that the server does not have, and the client makes the
  -- invoice and pays it, then the reply has the status 500 with "Tool … not found", and the payment has
  -- been made.
  pub handle_execute_hides :
      (task : String) (s : Session W) (content : Option String) (id args explanation : String)
      (lost : ToolCall) (calls : List ToolCall) (more : List Choice) (invoice : String) (p : Fields)
      (w1 w2 w3 : W)
      → completions
          (system system_prompt ∷ user task ∷ [])
          (map (λ t. t.schema) (agent books system_prompt).tools)
          s.world
        ≡ (
          ok (
              record {
                content = content;
                tool_calls =
                    some (record { id = id; name = approve_name; arguments = args } ∷ lost ∷ calls);
              }
              ∷ more),
          w1,
        )
      → engine.parse args ≡ some (obj (field "explanation" (str explanation) end))
      → client.create_test_mode_invoice client.node_id 20000 (approval explanation) w1
        ≡ (ok (some invoice), w2)
      → is_truthy invoice ≡ true
      → client.pay_invoice client.node_id invoice 1000 w2 ≡ (ok (some p), w3)
      → get_entry lost.name (agent books system_prompt).tools_map ≡ none
      → ((handle_execute engine client completions system_prompt task s).0
          ≡ failed (not_found lost.name))
        × (paid books (handle_execute engine client completions system_prompt task s).1.world
            ≡ p ∷ paid books s.world)
  handle_execute_hides task s content id args explanation lost calls more invoice p w1 w2 w3 asked
        parsed created full payed missing =
      let (reply, left) =
        ran task s content id args explanation lost calls more invoice p w1 w2 w3 asked parsed
          created full payed missing in
      (
        reply,
        ap (paid books) left ∙ paid_once _ _ _ _ invoice p s.world w1 w2 w3 asked created payed,
      )
