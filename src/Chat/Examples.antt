-- ===== src/Chat/Examples.antt =====
-- Runs of the chat service: an exchange, a subscription, and the SQLite storage.
use freysa_spark_hackathon.Common.{
  ◌≡◌, refl, ◌⊎◌, ℕ, ◌+◌, true, none, some, List, [], ◌∷◌, ◌++◌, map, String, ok, err, throw, ◌>>=◌,
}
use freysa_spark_hackathon.Json.{JsonEngine}
use freysa_spark_hackathon.Chat.Types.{Chat, user, Message, ChatStorage}
use freysa_spark_hackathon.Chat.Subscriptions.{
  create_subscription, handle_next, message_listener, Listening, ToolEvent,
}
use freysa_spark_hackathon.Chat.Subscriptions.Order.{
  Event, emitted, called, run_events, messages_of, calls_of, message_of, call_of,
  run_events-InOrder,
}
use freysa_spark_hackathon.Chat.Storage.{Tables, find_message}
use freysa_spark_hackathon.Chat.Storage.Samples.{database, one_row, removed}
use freysa_spark_hackathon.Chat.Service.{
  Parts, Serving, send_message, validate_chat, create_user_message, announced, in_world,
  handle_ai_response,
}
use freysa_spark_hackathon.Chat.Service.Answers.{
  Answered, Spoke, Silent, handle_ai_response-Answered,
}
use freysa_spark_hackathon.Chat.Service.Sending.{send_message-Sent}
use freysa_spark_hackathon.Chat.Service.OnSqlite.{on_sqlite, send_message-Fails}

abbrev message : ℕ → Message
message at = record {
  id = "m";
  text = none;
  role = user;
  created_at = at;
  image_urls = [];
  tool_calls = [];
  tool_args = [];
}

abbrev events : List Event
events = called 0 ∷ emitted (message 1) ∷ emitted (message 2) ∷ called 1 ∷ called 2 ∷ []

given : (run_events events create_subscription).delivered ≡ (0, message 1) ∷ (1, message 2) ∷ []
unfolding handle_next message_listener create_subscription
given = refl

run_events-InOrder_example :
    let s = run_events events create_subscription in
    (map message_of s.delivered ++ s.queue ≡ messages_of events)
    × (map call_of s.delivered ++ s.resolvers ≡ calls_of events)
    × ((s.queue ≡ []) ⊎ (s.resolvers ≡ []))
run_events-InOrder_example = run_events-InOrder events

-- A storage that counts what it stores.
abbrev counting : ChatStorage ℕ
counting = record {
  create_chat = λ name owner. throw "none";
  get_chat = λ id. throw "none";
  get_chats = λ first offset owner. throw "none";
  update_chat_title = λ id title. throw "none";
  delete_chat = λ id. throw "none";
  create_message = λ chat_id input n. (ok (message n), n + 1);
  get_messages = λ chat_id first offset n. (ok [], n);
  update_message = λ id input n. (ok (message 9), n);
}

abbrev engine : JsonEngine
engine = record { parse = λ s. none; stringify = λ j. "" }

abbrev plan : ToolEvent
plan = record { tool_name = "plan"; result = some "done" }

abbrev listening : Listening ℕ
listening = record {
  subscription = record { queue = []; resolvers = 7 ∷ []; delivered = [] };
  tool_messages = λ key. none;
  processed = [];
  world = 3;
}

abbrev parts : Parts ℕ
parts = record {
  storage = counting;
  execute = λ messages. throw "no model";
  has_subscribers = λ n chat_id. true;
  while_waiting = λ chat_id n. n;
}

abbrev serving : Serving ℕ
serving = record { world = 5; emitted = []; pending = "c" ∷ [] }

handle_ai_response-Answered_example :
    (t : Serving ℕ) × (u : ℕ) × (text : String) × (handle_ai_response parts "c" serving
      ≡ (ok tt, t))
    × (Spoke parts "c" 5 text u
        ⊎ (Silent parts "c" 5 u
            × (text ≡ "An error occurred while processing your request. Please try again later.")))
    × Answered parts "c" text (record serving { world = u }) t
handle_ai_response-Answered_example =
    handle_ai_response-Answered parts "c" serving λ text n. (message n, n + 1, refl)

abbrev offline : Parts Tables
offline = record {
  storage = record {
    create_chat = λ name owner. throw "none";
    get_chat = λ id. throw "none";
    get_chats = λ first offset owner. throw "none";
    update_chat_title = λ id title. throw "none";
    delete_chat = λ id. throw "none";
    create_message = λ chat_id given. throw "none";
    get_messages = λ chat_id first offset. throw "none";
    update_message = λ id given. throw "none";
  };
  execute = λ messages. throw "no model";
  has_subscribers = λ s chat_id. true;
  while_waiting = λ chat_id s. s;
}

abbrev stored : Serving Tables
stored = record { world = one_row; emitted = []; pending = [] }

send_message-Fails_example :
    (t : Serving Tables) × (send_message (on_sqlite database offline) "c" "hello" stored
      ≡ (err "Failed to send message", t))
    × (t.emitted ≡ [])
    × (t.pending ≡ [])
unfolding find_message
send_message-Fails_example = send_message-Fails database offline "c" "hello" stored refl

abbrev open_parts : Parts ℕ
open_parts = record parts {
  storage = record counting { get_chat = λ id n. (ok (some removed), n) };
}

abbrev sent : Serving ℕ
sent = record { world = 6; emitted = ("c", message 5, 6) ∷ []; pending = "c" ∷ "c" ∷ [] }

sending : send_message open_parts "c" "hello" serving ≡ (ok (message 5), sent)
unfolding send_message validate_chat create_user_message announced in_world ◌>>=◌
sending = refl

send_message-Sent_example :
    (chat : Chat) × (v : ℕ) × (w : ℕ) × (open_parts.storage.get_chat "c" 5 ≡ (ok (some chat), v))
    × (open_parts.storage.create_message "c"
          (record {
            text = some "hello";
            role = user;
            image_urls = some [];
            tool_calls = some [];
            tool_args = none;
          })
          v
        ≡ (ok (message 5), w))
    × (6 ≡ w)
    × (sent.emitted ≡ ("c", message 5, w) ∷ [])
    × (sent.pending ≡ "c" ∷ "c" ∷ [])
send_message-Sent_example =
    send_message-Sent open_parts "c" "hello" serving sent (message 5) sending
