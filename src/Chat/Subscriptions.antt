-- ===== src/Chat/Subscriptions.antt =====
-- A subscription of chat/services/MessageEventService.ts: the queue of messages, the calls of `next`
-- that wait, and the listeners that fill them. A call of `next` is known by a number.
pub mod Order
pub mod ToolEvents
use Prim.Native.String
use text.Mathlib.Text.{◌==◌ as str_eq}
use freysa_spark_hackathon.Common.{
  ℕ, Bool, true, false, ◌&&◌, Option, none, some, List, [], ◌∷◌, ◌++◌, String, Result, ok, err, Run,
  pure, throw, on_error, ◌>>=◌, if◌then◌else◌, is_truthy,
}
use freysa_spark_hackathon.Json.{Json, str, arr, Items, nil, cons, JsonEngine, truthy_property}
use freysa_spark_hackathon.Chat.Types.{
  Message, ToolCall, ToolArg, CreateMessageInput, ChatStorage, assistant,
}

-- `delivered` is what the resolved calls were given, the earliest first.
pub record Subscription : Type 0 where
  pub queue : List Message
  pub resolvers : List ℕ
  pub delivered : List (ℕ × Message)

-- createSubscription.
unfoldable pub create_subscription : Subscription
create_subscription = record { queue = []; resolvers = []; delivered = [] }

abbrev pub give : List ℕ → Message → Subscription → Subscription
give [] m s = record s { queue = s.queue ++ (m ∷ []) }
give (call ∷ calls) m s = record s {
  resolvers = calls;
  delivered = s.delivered ++ ((call, m) ∷ []);
}

-- The message listener.
unfoldable pub message_listener : Message → Subscription → Subscription
message_listener m s = give s.resolvers m s

abbrev pub take_next : List Message → ℕ → Subscription → Subscription
take_next [] call s = record s { resolvers = s.resolvers ++ (call ∷ []) }
take_next (m ∷ ms) call s = record s { queue = ms; delivered = s.delivered ++ ((call, m) ∷ []) }

-- handleNext.
unfoldable pub handle_next : ℕ → Subscription → Subscription
handle_next call s = take_next s.queue call s

-- A subscription's view of the service: `tool_messages` is toolMessagesMap, `processed` the tool names
-- that TOOL_START_PROCESSED was emitted with, and `world` what the storage reads and changes.
pub record Listening (W : Type 0) : Type 0 where
  pub subscription : Subscription
  pub tool_messages : String → Option String
  pub processed : List String
  pub world : W

pub record ToolEvent : Type 0 where
  pub tool_name : String
  pub result : Option String

-- toolNameMap, and the name itself for a tool that it does not list.
abbrev pub tool_title : String → String
tool_title name =
    if str_eq name "replicate_image_generation"
    then "Image Generation Tool"
    else if str_eq name "plan"
    then "Plan Tool"
    else if str_eq name "widget_createDonateWidget"
    then "Donate Widget Tool"
    else name

-- getToolMapKey.
abbrev pub tool_map_key : String → String → String
tool_map_key chat_id tool_name = String.◌++◌ chat_id (String.◌++◌ ":" tool_name)

unfoldable pub set_key : String → Option String → (String → Option String) → String → Option String
set_key k v map j = if str_eq k j then v else map j

abbrev pub tool_call : String → Bool → ToolCall
tool_call name is_completed = record {
  id = name;
  name = tool_title name;
  is_completed = is_completed;
}

abbrev pub start_input : String → CreateMessageInput
start_input name = record {
  text = some (String.◌++◌ "Starting tool: " (tool_title name));
  role = assistant;
  image_urls = some [];
  tool_calls = some (tool_call name false ∷ []);
  tool_args = some [];
}

abbrev pub result_text : Option String → String
result_text none = "undefined"
result_text (some result) = result

abbrev pub end_input : String → Option String → List ToolArg → CreateMessageInput
end_input name result tool_args = record {
  text = some (
      String.◌++◌ "Completed tool: "
        (String.◌++◌ (tool_title name) (String.◌++◌ "\nResult: " (result_text result))));
  role = assistant;
  image_urls = none;
  tool_calls = some (tool_call name true ∷ []);
  tool_args = some tool_args;
}

-- `toolName.startsWith("widget_")`.
abbrev pub is_widget : String → Bool
is_widget name = str_eq (String.slice name 0 7) "widget_"

module _ (engine : JsonEngine) where
  abbrev argument_text : Json → String
  argument_text (str s) = s
  argument_text j = engine.stringify j

  abbrev pub named_arg : Result (Option Json) → Result (Option Json) → Option ToolArg
  named_arg (ok (some n)) (ok (some a)) = some (record { name = n; arguments = argument_text a })
  named_arg _ _ = none

  abbrev pub tool_arg : Json → Option ToolArg
  tool_arg j = named_arg (truthy_property j "name") (truthy_property j "arguments")

  abbrev pub both : Option ToolArg → Option (List ToolArg) → Option (List ToolArg)
  both (some a) (some rest) = some (a ∷ rest)
  both _ _ = none

  -- The items, where every one has a name and arguments: a null item throws, which is caught.
  unfoldable pub tool_args_of : Items → Option (List ToolArg)
  tool_args_of nil = some []
  tool_args_of (cons j items) = both (tool_arg j) (tool_args_of items)

  abbrev or_no_args : Option (List ToolArg) → List ToolArg
  or_no_args none = []
  or_no_args (some args) = args

  abbrev args_of_parsed : Option Json → List ToolArg
  args_of_parsed (some (arr items)) = or_no_args (tool_args_of items)
  args_of_parsed _ = []

  unfoldable pub end_args : String → Option String → List ToolArg
  end_args name none = []
  end_args name (some result) =
      if is_widget name && is_truthy result then args_of_parsed (engine.parse result) else []

module _ {W : Type 0} where
  unfoldable pub in_storage : {A : Type 0} → Run W A → Run (Listening W) A
  in_storage m s = let (r, w) = m s.world in (r, record s { world = w })

  abbrev deliver : Message → Listening W → Listening W
  deliver m s = record s { subscription = message_listener m s.subscription }

  -- What the start listener does once the message is stored.
  unfoldable pub started : String → String → Message → Run (Listening W) (Unit {0})
  started key name m s =
      let t = deliver m (record s { tool_messages = set_key key (some m.id) s.tool_messages }) in
      (ok tt, record t { processed = t.processed ++ (name ∷ []) })

  unfoldable pub ended : String → Message → Run (Listening W) (Unit {0})
  ended key m s =
      let t = deliver m s in (ok tt, record t { tool_messages = set_key key none t.tool_messages })

  module _ (storage : ChatStorage W) (chat_id : String) where
    -- createToolStartListener.
    unfoldable pub tool_start_listener : ToolEvent → Run (Listening W) (Unit {0})
    tool_start_listener event =
        in_storage (storage.create_message chat_id (start_input event.tool_name))
        >>= started (tool_map_key chat_id event.tool_name) event.tool_name

    module _ (engine : JsonEngine) where
      abbrev complete : ToolEvent → Option String → Run (Listening W) (Unit {0})
      complete event none = pure tt
      complete event (some id) =
          if is_truthy id
          then in_storage (
              storage.update_message id (
                end_input event.tool_name event.result
                  (end_args engine event.tool_name event.result)))
            >>= ended (tool_map_key chat_id event.tool_name)
          else pure tt

      -- createToolEndListener.
      unfoldable pub tool_end_listener : ToolEvent → Run (Listening W) (Unit {0})
      tool_end_listener event s =
          complete event (s.tool_messages (tool_map_key chat_id event.tool_name)) s
