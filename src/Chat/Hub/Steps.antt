-- ===== src/Chat/Hub/Steps.antt =====
-- What may happen to the service, in any order, and the states that are reached.
use freysa_spark_hackathon.Common.{◌≡◌, ℕ, List, ◌∷◌, ◌++◌, String, ok}
use freysa_spark_hackathon.Json.{JsonEngine}
use freysa_spark_hackathon.Chat.Types.{Message, ChatStorage}
use freysa_spark_hackathon.Chat.Subscriptions.{ToolEvent, start_input, end_input, end_args}
use freysa_spark_hackathon.Chat.Hub.{
  Job, starting, ending, Hub, subscribe, cleanup, next, emit_to_chat, wait_for_tool_start,
  tool_start, tool_end, finish_start, finish_end,
}

module _ {W : Type 0} (storage : ChatStorage W) (engine : JsonEngine) where
  -- One job is taken off the others, and its storage call is made in the world it finds.
  pub data Step : Hub W → Hub W → Type 0 where
    subscribed : {h : Hub W} (chat_id : String) → Step h (subscribe chat_id h)
    cleaned : {h : Hub W} (i : ℕ) → Step h (cleanup i h)
    called : {h : Hub W} (i call : ℕ) → Step h (next i call h)
    emitted : {h : Hub W} (chat_id : String) (m : Message) → Step h (emit_to_chat chat_id m h)
    awaited : {h : Hub W} (name : String) → Step h (wait_for_tool_start name h)
    tool_started : {h : Hub W} (name : String) → Step h (tool_start name h)
    tool_ended : {h : Hub W} (event : ToolEvent) → Step h (tool_end event h)
    start_finished :
        {h : Hub W} (earlier later : List Job) (i : ℕ) (chat_id name : String) (m : Message) (w : W)
        → h.jobs ≡ earlier ++ (starting i chat_id name ∷ later)
        → storage.create_message chat_id (start_input name) h.world ≡ (ok m, w)
        → Step h (finish_start i chat_id name m (record h { jobs = earlier ++ later; world = w }))
    end_finished :
        {h : Hub W} (earlier later : List Job) (i : ℕ) (chat_id : String) (event : ToolEvent)
        (id : String) (m : Message) (w : W)
        → h.jobs ≡ earlier ++ (ending i chat_id event id ∷ later)
        → storage.update_message id
            (end_input event.tool_name event.result (end_args engine event.tool_name event.result))
            h.world
          ≡ (ok m, w)
        → Step h (finish_end i chat_id event m (record h { jobs = earlier ++ later; world = w }))
    -- a storage call that throws ends its listener
    job_failed :
        {h : Hub W} (earlier later : List Job) (job : Job) (w : W)
        → h.jobs ≡ earlier ++ (job ∷ later)
        → Step h (record h { jobs = earlier ++ later; world = w })
    -- others use the storage
    world_changed : {h : Hub W} (w : W) → Step h (record h { world = w })

  pub data Reach (h : Hub W) : Hub W → Type 0 where
    here : Reach h h
    after : {g t : Hub W} → Reach h g → Step g t → Reach h t
