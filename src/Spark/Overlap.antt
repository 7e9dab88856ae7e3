-- ===== src/Spark/Overlap.antt =====
-- Requests of the payment server, alone and overlapping.
use freysa_spark_hackathon.Common.{
  true, ◌≡◌, sym, ◌∙◌, ap, Option, none, some, List, [], ◌∷◌, map, String, Result, ok, Run, ◌>>=◌,
  is_truthy,
}
use freysa_spark_hackathon.Json.{
  Json, obj, str, field, end, Fields, JsonEngine, property, get_field,
}
use freysa_spark_hackathon.Agent.{
  Message, system, user, assistant, tool, Choice, get_entry, set_entry, entries_from, initial,
  new_agent, Session, in_world, execute_tool, record_result, run_tool_call, run_tool_calls, respond,
  round, rounds, ask_model, task_messages, reset_state, get_state, value_after,
}
use freysa_spark_hackathon.Spark.Lightspark.{
  Lightspark, approve_name, approval, receipt, send_payment, execute_approve, approve_transfer_tool,
  reject_transfer_tool, text_of,
}
use freysa_spark_hackathon.Spark.Server.{done, answer, spark_agent}
use freysa_spark_hackathon.Spark.Requests.{
  Request, waiting, replied, Shared, shared, Two, of_first, of_second, begin, go, take_turn,
  take_turns,
}
use freysa_spark_hackathon.Spark.Ledger.{Books, paid, agent}
use freysa_spark_hackathon.Spark.Failures.{paid_once}

module _ {W : Type 0} (engine : JsonEngine) (client : Lightspark W)
    (completions : List Message → List Json → Run W (List Choice)) (system_prompt : String) where
  -- The reply, with what the handler leaves to the requests after it.
  abbrev handled : Result String × Session W → Request × Shared W
  handled r =
      let (reply, s) = answer engine client completions system_prompt r in (replied reply, shared s)

module _ {W : Type 0} {engine : JsonEngine} {client : Lightspark W}
    {completions : List Message → List Json → Run W (List Choice)}
    (books : Books engine client completions) (system_prompt : String) where
  -- Two new requests, of which the first begins and has one round, the second begins, and the first has
  -- another round and replies.
  abbrev pub interrupted : String → String → Shared W → Two W
  interrupted task other h =
      take_turns engine client completions system_prompt
        (of_first ∷ of_first ∷ of_second ∷ of_first ∷ of_first ∷ [])
        (record { first = waiting task; second = waiting other; both = h })

  ran :
      (task other : String) (h : Shared W) (content : Option String) (id args explanation : String)
      (invoice : String) (p : Fields) (more later : List Choice) (text : String) (w1 w2 w3 w4 : W)
      → completions
          (system system_prompt ∷ user task ∷ [])
          (map (λ t. t.schema) (agent books system_prompt).tools)
          h.world
        ≡ (
          ok (
              record {
                content = content;
                tool_calls = some (record { id = id; name = approve_name; arguments = args } ∷ []);
              }
              ∷ more),
          w1,
        )
      → engine.parse args ≡ some (obj (field "explanation" (str explanation) end))
      → client.create_test_mode_invoice client.node_id 20000 (approval explanation) w1
        ≡ (ok (some invoice), w2)
      → is_truthy invoice ≡ true
      → client.pay_invoice client.node_id invoice 1000 w2 ≡ (ok (some p), w3)
      → ((m : Message)
          → completions
              (system system_prompt
                ∷ user task
                ∷ assistant none (record { id = id; name = approve_name; arguments = args } ∷ [])
                ∷ m
                ∷ [])
              (map (λ t. t.schema) (agent books system_prompt).tools)
              w3
            ≡ (ok (record { content = some text; tool_calls = none } ∷ later), w4))
      → is_truthy text ≡ true
      → ((interrupted task other h).first ≡ replied (done text initial))
        × ((interrupted task other h).both.world ≡ w4)
  unfolding take_turns take_turn go begin spark_agent new_agent in_world reset_state get_state ◌>>=◌
      rounds round task_messages ask_model respond run_tool_calls run_tool_call execute_tool
      record_result execute_approve send_payment approve_transfer_tool reject_transfer_tool property
      get_field text_of entries_from set_entry get_entry
  ran task other h content id args explanation invoice p more later text w1 w2 w3 w4 asked parsed
        created full payed answers spoken =
      let printed = engine.stringify (receipt p (approval explanation)) in
      let second =
        answers (tool id (engine.stringify (value_after (engine.parse printed) printed))) in
      (
        rw (asked, parsed, created, full, payed, second, spoken),
        rw (asked, parsed, created, full, payed, second, spoken),
      )

  -- Over the ledger of Books: if the first choice of the model is one call of the approval, with JSON
  -- arguments that hold an explanation, and the client makes the invoice and pays it, and the second
  -- choice is an answer: then, where another request begins between those two rounds, whatever its task,
  -- and does nothing else before the reply, the reply has the status 200 with that answer and the initial
  -- state, although the payment has been made.
  pub overlapped_hides :
      (task other : String) (h : Shared W) (content : Option String) (id args explanation : String)
      (invoice : String) (p : Fields) (more later : List Choice) (text : String) (w1 w2 w3 w4 : W)
      → completions
          (system system_prompt ∷ user task ∷ [])
          (map (λ t. t.schema) (agent books system_prompt).tools)
          h.world
        ≡ (
          ok (
              record {
                content = content;
                tool_calls = some (record { id = id; name = approve_name; arguments = args } ∷ []);
              }
              ∷ more),
          w1,
        )
      → engine.parse args ≡ some (obj (field "explanation" (str explanation) end))
      → client.create_test_mode_invoice client.node_id 20000 (approval explanation) w1
        ≡ (ok (some invoice), w2)
      → is_truthy invoice ≡ true
      → client.pay_invoice client.node_id invoice 1000 w2 ≡ (ok (some p), w3)
      → ((m : Message)
          → completions
              (system system_prompt
                ∷ user task
                ∷ assistant none (record { id = id; name = approve_name; arguments = args } ∷ [])
                ∷ m
                ∷ [])
              (map (λ t. t.schema) (agent books system_prompt).tools)
              w3
            ≡ (ok (record { content = some text; tool_calls = none } ∷ later), w4))
      → is_truthy text ≡ true
      → ((interrupted task other h).first ≡ replied (done text initial))
        × (paid books (interrupted task other h).both.world ≡ p ∷ paid books h.world)
  overlapped_hides task other h content id args explanation invoice p more later text w1 w2 w3 w4
        asked parsed created full payed answers spoken =
      let (reply, left) =
        ran task other h content id args explanation invoice p more later text w1 w2 w3 w4 asked
          parsed created full payed answers spoken in
      let ended : paid books w4 ≡ paid books w3 =
        sym (ap (λ r. paid books r.1) (answers (user ""))) ∙ books.by_model _ _ w3 in
      (
        reply,
        ap (paid books) left
            ∙ (ended
                ∙ paid_once books system_prompt _ _ _ _ invoice p h.world w1 w2 w3 asked created
                    payed),
      )
