-- ===== src/Chat/Hub.antt =====
-- MessageEventService of agent/src/chat/services/MessageEventService.ts with all its subscriptions: the
-- emitters, the listeners that createSubscription adds and cleanup removes, and the storage calls of
-- tool events that are under way. A subscription is known by its place among all that were created.
pub mod Places
pub mod Steps
pub mod Abandoned
pub mod Settled
pub mod Starts
mod Examples
use text.Mathlib.Text.{◌==◌ as str_eq}
use freysa_spark_hackathon.Common.{
  ℕ, zero, suc, Bool, true, false, ◌&&◌, Option, none, some, List, [], ◌∷◌, ◌++◌, map, String, keep,
  any, if◌then◌else◌, is_truthy,
}
use freysa_spark_hackathon.Chat.Types.{Message}
use freysa_spark_hackathon.Chat.Subscriptions.{
  Subscription, create_subscription, message_listener, handle_next, ToolEvent, tool_map_key,
  set_key,
}

pub record Subscriber : Type 0 where
  pub chat_id : String
  pub listening : Bool
  pub subscription : Subscription

-- A listener of a tool event that waits for the storage: its subscription's place and chat, and the
-- tool's name, or the event and the id of the message to update.
pub data Job : Type 0 where
  starting : ℕ → String → String → Job
  ending : ℕ → String → ToolEvent → String → Job

abbrev pub place : Job → ℕ
place (starting i chat name) = i
place (ending i chat event id) = i

-- A call of waitForToolStart, and whether its promise is resolved.
pub record Waiter : Type 0 where
  pub tool_name : String
  pub resolved : Bool

pub record Hub (W : Type 0) : Type 0 where
  pub subscribers : List Subscriber
  pub tool_messages : String → Option String
  pub jobs : List Job
  pub waiters : List Waiter
  pub world : W

-- The element at a place, changed by a function; nothing changes past the end.
abbrev pub modify {ℓ} : {A : Type ℓ} → List A → ℕ → (A → A) → List A
modify [] i f = []
modify (x ∷ xs) zero f = f x ∷ xs
modify (x ∷ xs) (suc i) f = x ∷ modify xs i f

abbrev pub receive : Message → Subscriber → Subscriber
receive m s = record s { subscription = message_listener m s.subscription }

-- Whether a subscriber's listener hears its chat's messages.
abbrev pub hears : String → Subscriber → Bool
hears chat_id s = s.listening && str_eq s.chat_id chat_id

abbrev pub hear : String → Message → Subscriber → Subscriber
hear chat_id m s = if hears chat_id s then receive m s else s

abbrev pub new_subscriber : String → Subscriber
new_subscriber chat_id = record {
  chat_id = chat_id;
  listening = true;
  subscription = create_subscription;
}

abbrev pub stop_listening : Subscriber → Subscriber
stop_listening s = record s { listening = false }

abbrev pub ask_next : ℕ → Subscriber → Subscriber
ask_next call s = record s { subscription = handle_next call s.subscription }

-- The listener of a waiter, for TOOL_START_PROCESSED.
abbrev pub notice : String → Waiter → Waiter
notice name w = if str_eq name w.tool_name then record w { resolved = true } else w

-- What the start listeners begin, from a place on.
unfoldable pub start_jobs : String → ℕ → List Subscriber → List Job
start_jobs name i [] = []
start_jobs name i (s ∷ ss) =
    let rest = start_jobs name (suc i) ss in
    if s.listening then starting i s.chat_id name ∷ rest else rest

abbrev pub end_job : ToolEvent → ℕ → String → Option String → List Job → List Job
end_job event i chat_id none rest = rest
end_job event i chat_id (some id) rest =
    if is_truthy id then ending i chat_id event id ∷ rest else rest

-- What the end listeners begin: those of chats with no message for the tool return at once.
unfoldable pub end_jobs : (String → Option String) → ToolEvent → ℕ → List Subscriber → List Job
end_jobs messages event i [] = []
end_jobs messages event i (s ∷ ss) =
    let rest = end_jobs messages event (suc i) ss in
    if s.listening
    then end_job event i s.chat_id (messages (tool_map_key s.chat_id event.tool_name)) rest
    else rest

module _ {W : Type 0} where
  -- createSubscription and cleanup.
  abbrev pub subscribe : String → Hub W → Hub W
  subscribe chat_id h = record h { subscribers = h.subscribers ++ (new_subscriber chat_id ∷ []) }

  abbrev pub cleanup : ℕ → Hub W → Hub W
  cleanup i h = record h { subscribers = modify h.subscribers i stop_listening }

  abbrev pub next : ℕ → ℕ → Hub W → Hub W
  next i call h = record h { subscribers = modify h.subscribers i (ask_next call) }

  abbrev pub emit_to_chat : String → Message → Hub W → Hub W
  emit_to_chat chat_id m h = record h { subscribers = map (hear chat_id m) h.subscribers }

  -- hasSubscribers.
  abbrev pub has_listeners : String → Hub W → Bool
  has_listeners chat_id h = any (hears chat_id) h.subscribers

  abbrev pub wait_for_tool_start : String → Hub W → Hub W
  wait_for_tool_start name h = record h {
    waiters = h.waiters ++ (record { tool_name = name; resolved = false } ∷ []);
  }

  -- TOOL_START and TOOL_END are emitted to every listener.
  abbrev pub tool_start : String → Hub W → Hub W
  tool_start name h = record h { jobs = h.jobs ++ start_jobs name 0 h.subscribers }

  abbrev pub tool_end : ToolEvent → Hub W → Hub W
  tool_end event h = record h { jobs = h.jobs ++ end_jobs h.tool_messages event 0 h.subscribers }

  -- What a listener does once its message is stored or updated.
  abbrev pub finish_start : ℕ → String → String → Message → Hub W → Hub W
  finish_start i chat_id name m h = record h {
    subscribers = modify h.subscribers i (receive m);
    tool_messages = set_key (tool_map_key chat_id name) (some m.id) h.tool_messages;
    waiters = map (notice name) h.waiters;
  }

  abbrev pub finish_end : ℕ → String → ToolEvent → Message → Hub W → Hub W
  finish_end i chat_id event m h = record h {
    subscribers = modify h.subscribers i (receive m);
    tool_messages = set_key (tool_map_key chat_id event.tool_name) none h.tool_messages;
  }

  -- preToolCallHook of Agent, whose calls are commented out: it emits the start, and then waits.
  abbrev pub pre_tool_call : String → Hub W → Hub W
  pre_tool_call name h = wait_for_tool_start name (tool_start name h)
