-- ===== src/Spark/Examples.antt =====
-- The payment server with a fixed engine, a client that pays, and a few models.
use Prim.Native.String.{String, [] as no_text, ◌∷◌ as ◌∷ₜ◌}
use Prim.Native.Char.{code}
use text.Mathlib.TextLemmas.{cons-append}
use freysa_spark_hackathon.Common.{
  ℕ, ◌≡◌, refl, ap, ◌==◌, Option, none, some, List, [], ◌∷◌, ok, Run, if◌then◌else◌, ◌>>=◌,
}
use freysa_spark_hackathon.Json.{
  Json, str, obj, end, field, Fields, JsonEngine, get_field, property, truthy_json, truthy_property,
}
use freysa_spark_hackathon.Agent.{
  ToolCall, Message, Choice, get_entry, set_entry, entries_from, new_agent, initial, approved,
  Session, execute, rounds, round, ask_model, in_world, respond, run_tool_calls, run_tool_call,
  execute_tool, record_result, state_after, value_after, execute_task, task_messages, reset_state,
  get_state, not_found,
}
use freysa_spark_hackathon.Spark.Lightspark.{
  Lightspark, receipt, text_of, send_payment, execute_approve, execute_reject,
  approve_transfer_tool, reject_transfer_tool, approve_name, reject_name,
}
use freysa_spark_hackathon.Spark.Server.{done, failed, spark_agent, handle_execute}
use freysa_spark_hackathon.Spark.Ledger.{Books, paid}
use freysa_spark_hackathon.Spark.Replies.{Told, handle_execute-Told}
use freysa_spark_hackathon.Spark.Failures.{handle_execute_hides}
use freysa_spark_hackathon.Spark.Requests.{
  of_first, of_second, take_turns, waiting, replied, shared,
}
use freysa_spark_hackathon.Spark.Vouched.{Shows, take_turns-Shows}
use freysa_spark_hackathon.Spark.Overlap.{interrupted, overlapped_hides}

unfoldable pub runs : Unit {0}
unfolding handle_execute execute_task task_messages spark_agent new_agent in_world reset_state
    get_state ◌>>=◌ execute rounds round ask_model respond run_tool_calls run_tool_call execute_tool
    record_result state_after value_after truthy_property truthy_json execute_approve execute_reject
    send_payment approve_transfer_tool reject_transfer_tool property get_field text_of entries_from
    set_entry get_entry
runs = tt

abbrev pub payment : Fields
payment = field "id" (str "p1") end

abbrev explained : Json
explained = obj (field "explanation" (str "a gift") end)

-- A text that begins with a brace is the receipt of its reason, and one with a question mark is an explanation.
abbrev parse : String → Option Json
parse no_text = none
parse (c ∷ₜ s) =
    if code c == b'{'
    then some (receipt payment s)
    else if code c == b'?'
    then some explained
    else none

abbrev stringify : Json → String
stringify (obj (field k (obj p) (field j (str reason) end))) = "{" ∷ₜ reason
stringify (str s) = s
stringify _ = "null"

abbrev pub engine : JsonEngine
engine = record { parse = parse; stringify = stringify }

-- The world is the list of the payments, newest first.
abbrev pub client : Lightspark (List Fields)
client = record {
  node_id = "node";
  create_test_mode_invoice = λ node amount memo w. (ok (some "lnbcrt1"), w);
  pay_invoice = λ node invoice fee w. (ok (some payment), payment ∷ w);
}

abbrev calling : String → String → ToolCall
calling id name = record { id = id; name = name; arguments = "?" }

abbrev pub chooses : List ToolCall → List Message → List Json → Run (List Fields) (List Choice)
chooses calls _ _ w = (ok (record { content = some "bye"; tool_calls = some calls } ∷ []), w)

pub reads :
    (node invoice : String) (fee : ℕ) (w w' : List Fields) (p : Fields) (reason : String)
    → client.pay_invoice node invoice fee w ≡ (ok (some p), w')
    → engine.parse (engine.stringify (receipt p reason)) ≡ some (receipt p reason)
reads node invoice fee w w' p reason e =
    let same : payment ≡ p = cc in ap (λ q. some (receipt q reason)) same

abbrev pub books : (calls : List ToolCall) → Books engine client (chooses calls)
books calls = record {
  paid = λ w. w;
  by_model = λ ms tools w. refl;
  by_invoice = λ node amount memo w. refl;
  by_payment = λ node invoice fee w. refl;
  reads_receipt = reads;
  no_rejection = λ explanation.
      ap parse (cons-append "R" "ejected money transfer with explanation: " explanation);
  no_empty = refl;
}

abbrev pub start : Session (List Fields)
start = record { messages = []; state = initial; world = [] }

abbrev pub paying : List ToolCall
paying = calling "c1" approve_name ∷ calling "c2" "Completed" ∷ []

abbrev refusing : List ToolCall
refusing = calling "c1" reject_name ∷ calling "c2" "Completed" ∷ []

abbrev stumbling : List ToolCall
stumbling = calling "c1" approve_name ∷ calling "c2" "thankUser" ∷ []

paying_run :
    (handle_execute engine client (chooses paying) "prompt" "pay me" start).0
    ≡ done "bye" (approved (obj payment))
unfolding runs
paying_run = refl

refusing_run :
    (handle_execute engine client (chooses refusing) "prompt" "pay me" start).0 ≡ done "bye" initial
unfolding runs
refusing_run = refl

handle_execute-Told_example :
    Told
      (books paying)
      "prompt"
      (handle_execute engine client (chooses paying) "prompt" "pay me" start).0
      []
      (handle_execute engine client (chooses paying) "prompt" "pay me" start).1.world
handle_execute-Told_example = handle_execute-Told (books paying) "prompt" "pay me" start

handle_execute_hides_example :
    ((handle_execute engine client (chooses stumbling) "prompt" "pay me" start).0
      ≡ failed (not_found "thankUser"))
    × ((handle_execute engine client (chooses stumbling) "prompt" "pay me" start).1.world
        ≡ payment ∷ [])
unfolding runs
handle_execute_hides_example =
    handle_execute_hides (books stumbling) "prompt" "pay me" start (some "bye") "c1" "?" "a gift"
      (calling "c2" "thankUser") [] [] "lnbcrt1" payment [] [] (payment ∷ []) refl refl refl refl
      refl refl

-- A model that approves first and then answers.
abbrev thinks : List Message → List Json → Run (List Fields) (List Choice)
thinks (m ∷ n ∷ []) _ w =
    (ok (record { content = none; tool_calls = some (calling "c1" approve_name ∷ []) } ∷ []), w)
thinks _ _ w = (ok (record { content = some "There you go."; tool_calls = none } ∷ []), w)

thinks_world : (ms : List Message) (tools : List Json) (w : List Fields) → (thinks ms tools w).1 ≡ w
thinks_world [] tools w = refl
thinks_world (m ∷ []) tools w = refl
thinks_world (m ∷ n ∷ []) tools w = refl
thinks_world (m ∷ n ∷ o ∷ ms) tools w = refl

thinking_books : Books engine client thinks
thinking_books = record {
  paid = λ w. w;
  by_model = thinks_world;
  by_invoice = λ node amount memo w. refl;
  by_payment = λ node invoice fee w. refl;
  reads_receipt = reads;
  no_rejection = λ explanation.
      ap parse (cons-append "R" "ejected money transfer with explanation: " explanation);
  no_empty = refl;
}

thinking_run :
    (handle_execute engine client thinks "prompt" "pay me" start).0
    ≡ done "There you go." (approved (obj payment))
unfolding runs
thinking_run = refl

overlapped_hides_example :
    ((interrupted thinking_books "prompt" "pay me" "hello" (shared start)).first
      ≡ replied (done "There you go." initial))
    × ((interrupted thinking_books "prompt" "pay me" "hello" (shared start)).both.world
        ≡ payment ∷ [])
unfolding thinking_books
overlapped_hides_example =
    overlapped_hides thinking_books "prompt" "pay me" "hello" (shared start) none "c1" "?" "a gift"
      "lnbcrt1" payment [] [] "There you go." [] [] (payment ∷ []) (payment ∷ []) refl refl refl
      refl refl (λ m. refl) refl

take_turns-Shows_example :
    let t =
      take_turns engine client thinks "prompt"
        (of_first ∷ of_second ∷ of_first ∷ of_second ∷ of_first ∷ of_second ∷ of_first ∷ [])
        (record {
          first = waiting "pay me";
          second = waiting "hello";
          both = record { state = initial; world = [] };
        }) in
    Shows (paid thinking_books t.both.world) t.first
    × Shows (paid thinking_books t.both.world) t.second
take_turns-Shows_example = take_turns-Shows thinking_books "prompt" "pay me" "hello" _ []
