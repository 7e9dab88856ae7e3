-- ===== src/Chat/Hub/Examples.antt =====
-- Runs of the chat service with several subscriptions.
use freysa_spark_hackathon.Common.{
  ◌≡◌, refl, ℕ, ◌+◌, true, none, some, [], ◌∷◌, get_elem?, ok, throw,
}
use freysa_spark_hackathon.Json.{JsonEngine}
use freysa_spark_hackathon.Chat.Types.{user, Message, ChatStorage}
use freysa_spark_hackathon.Chat.Subscriptions.{create_subscription, handle_next}
use freysa_spark_hackathon.Chat.Hub.{
  Hub, Subscriber, new_subscriber, subscribe, cleanup, next, emit_to_chat, pre_tool_call,
}
use freysa_spark_hackathon.Chat.Hub.Steps.{Step, subscribed, emitted, Reach, here, after}
use freysa_spark_hackathon.Chat.Hub.Abandoned.{Abandoned, Reach-Abandoned}
use freysa_spark_hackathon.Chat.Hub.Settled.{empty_hub, Heard, emit_to_chat-Heard}
use freysa_spark_hackathon.Chat.Hub.Starts.{pre_tool_call-Resolved}

abbrev message : Message
message = record {
  id = "m";
  text = none;
  role = user;
  created_at = 1;
  image_urls = [];
  tool_calls = [];
  tool_args = [];
}

-- A storage that counts what it stores.
abbrev counter : ChatStorage ℕ
counter = record {
  create_chat = λ name owner. throw "none";
  get_chat = λ id. throw "none";
  get_chats = λ first offset owner. throw "none";
  update_chat_title = λ id title. throw "none";
  delete_chat = λ id. throw "none";
  create_message = λ chat_id input n. (ok message, n + 1);
  get_messages = λ chat_id first offset n. (ok [], n);
  update_message = λ id input n. (ok message, n);
}

abbrev engine : JsonEngine
engine = record { parse = λ s. none; stringify = λ j. "" }

-- Two subscriptions of one chat and one of another.
abbrev two_chats : Hub ℕ
two_chats = subscribe "b" (subscribe "a" (subscribe "a" (empty_hub 0)))

two_chats-Reach : Reach counter engine (empty_hub 0) two_chats
two_chats-Reach = after (after (after here (subscribed "a")) (subscribed "a")) (subscribed "b")

emit_to_chat-Heard_example :
    (t : Subscriber) × (get_elem? (emit_to_chat "a" message two_chats).subscribers 1 ≡ some t)
    × Heard true message (new_subscriber "a") t
emit_to_chat-Heard_example =
    emit_to_chat-Heard counter engine 0 "a" message 1 (new_subscriber "a") two_chats-Reach refl

-- A client that asks for a message and goes away.
abbrev gone : Hub ℕ
gone = cleanup 0 (next 0 7 (subscribe "a" (empty_hub 0)))

gone-Abandoned : Abandoned 0 [] (7 ∷ []) gone
unfolding handle_next create_subscription
gone-Abandoned = ((_, refl, ([], refl, refl, refl, refl)), tt)

-- A message for its chat comes, and still the call waits.
Reach-Abandoned_example : Abandoned 0 [] (7 ∷ []) (emit_to_chat "a" message (subscribe "a" gone))
Reach-Abandoned_example =
    Reach-Abandoned [] (7 ∷ []) counter engine 0 {h = gone}
      (after (after here (subscribed "a")) (emitted "a" message)) gone-Abandoned

pre_tool_call-Resolved_example :
    (t : Hub ℕ) × Step counter engine (pre_tool_call "plan" two_chats) t
    × (t.waiters ≡ record { tool_name = "plan"; resolved = true } ∷ [])
pre_tool_call-Resolved_example =
    pre_tool_call-Resolved counter engine "plan" two_chats 1 _ message 1 refl refl refl
