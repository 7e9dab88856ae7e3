-- ===== src/Chat/Subscriptions/ToolEvents.antt =====
-- What the start and the end of a tool do to a subscription and to the stored message.
use text.Mathlib.Text.{◌==◌ as str_eq}
use freysa_spark_hackathon.Common.{
  ◌≡◌, refl, ◌∙◌, true, false, Option, none, some, [], ◌∷◌, ◌++◌, String, Result, ok, ◌>>=◌,
  is_truthy, eq_refl,
}
use freysa_spark_hackathon.Json.{JsonEngine}
use freysa_spark_hackathon.Chat.Types.{Message, ChatStorage}
use freysa_spark_hackathon.Chat.Subscriptions.{
  message_listener, Listening, ToolEvent, tool_map_key, set_key, start_input, end_input, end_args,
  in_storage, started, ended, tool_start_listener, tool_end_listener,
}

set_key_same :
    (k : String) (v : Option String) (map : String → Option String) → set_key k v map k ≡ v
unfolding set_key
set_key_same k v map = rw (eq_refl k)

set_key_other :
    (k : String) (v : Option String) (map : String → Option String) (j : String)
    → str_eq k j ≡ false
    → set_key k v map j ≡ map j
unfolding set_key
set_key_other k v map j h = rw h

module _ {W : Type 0} (storage : ChatStorage W) (chat_id : String) where
  start-stores :
      (event : ToolEvent) (s : Listening W) (m : Message) (w : W)
      → storage.create_message chat_id (start_input event.tool_name) s.world ≡ (ok m, w)
      → tool_start_listener storage chat_id event s
        ≡ started (tool_map_key chat_id event.tool_name) event.tool_name m (record s { world = w })
  unfolding tool_start_listener ◌>>=◌ in_storage
  start-stores event s m w e = rw e

  module _ (engine : JsonEngine) where
    abbrev pub completion_of : ToolEvent → Message → W → Result Message × W
    completion_of event m w =
        storage.update_message m.id
          (end_input event.tool_name event.result (end_args engine event.tool_name event.result)) w

    end-updates :
        (event : ToolEvent) (s : Listening W) (m d : Message) (w : W)
        → s.tool_messages (tool_map_key chat_id event.tool_name) ≡ some m.id
        → is_truthy m.id ≡ true
        → completion_of event m s.world ≡ (ok d, w)
        → tool_end_listener storage chat_id engine event s
          ≡ ended (tool_map_key chat_id event.tool_name) d (record s { world = w })
    unfolding tool_end_listener ◌>>=◌ in_storage
    end-updates event s m d w found named e = rw (found, named, e)

    -- Where the storage creates the start's message, with an id that is not empty, and then updates it, a
    -- start and an end of a tool give both messages to the subscription, the first one first, announce
    -- the start, and leave no message id under the tool's key and every other key's as it was.
    pub tool_start-tool_end :
        (event : ToolEvent) (s : Listening W) (m d : Message) (v w : W)
        → storage.create_message chat_id (start_input event.tool_name) s.world ≡ (ok m, v)
        → is_truthy m.id ≡ true
        → completion_of event m v ≡ (ok d, w)
        → (map : String → Option String) × ((tool_start_listener storage chat_id event >>= λ _.
                tool_end_listener storage chat_id engine event)
              s
            ≡ (
              ok tt,
              record {
                subscription = message_listener d (message_listener m s.subscription);
                tool_messages = map;
                processed = s.processed ++ (event.tool_name ∷ []);
                world = w;
              },
            ))
          × (map (tool_map_key chat_id event.tool_name) ≡ none)
          × ((j : String)
              → str_eq (tool_map_key chat_id event.tool_name) j ≡ false
              → map j ≡ s.tool_messages j)
    unfolding ◌>>=◌ started ended
    tool_start-tool_end event s m d v w created named completed =
        let key = tool_map_key chat_id event.tool_name in
        let after = (started key event.tool_name m (record s { world = v })).1 in
        let begin : tool_start_listener storage chat_id event s ≡ (ok tt, after) =
          start-stores event s m v created in
        let finish : tool_end_listener storage chat_id engine event after
            ≡ ended key d (record after { world = w }) =
          end-updates event after m d w (set_key_same key (some m.id) s.tool_messages) named
            completed in
        (
          set_key key none (set_key key (some m.id) s.tool_messages),
          rw (begin, finish) refl,
          set_key_same key none _,
          λ j other. set_key_other key none _ j other ∙ set_key_other key (some m.id) _ j other,
        )
