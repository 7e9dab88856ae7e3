-- ===== src/Chat/Waiting.antt =====
-- waitForSubscription of agent/src/chat/services/MessageEventService.ts: the promise that its timer and
-- its polls settle, over every order of both. A poll's Boolean says whether the chat has a listener then.
pub mod Ends
mod Examples
use freysa_spark_hackathon.Common.{Bool, true, false, List, [], ◌∷◌, if◌then◌else◌}

-- The promise: pending, resolved by a poll, or rejected by the timer.
pub data Promise : Type 0 where
  pending resolved rejected : Promise

-- `polling` holds until a poll has found a listener.
pub record Wait : Type 0 where
  pub promise : Promise
  pub polling : Bool

pub data Event : Type 0 where
  timed_out : Event
  polled : Bool → Event

-- A promise is settled once.
abbrev pub settle : Promise → Promise → Promise
settle next pending = next
settle next resolved = resolved
settle next rejected = rejected

-- checkReady.
abbrev pub check_ready : Bool → Wait → Wait
check_ready true w = record { promise = settle resolved w.promise; polling = false }
check_ready false w = w

unfoldable pub handle_event : Event → Wait → Wait
handle_event timed_out w = record w { promise = settle rejected w.promise }
handle_event (polled listening) w = if w.polling then check_ready listening w else w

abbrev pub waiting : Wait
waiting = record { promise = pending; polling = true }

unfoldable pub run_wait : List Event → Wait → Wait
run_wait [] w = w
run_wait (e ∷ es) w = run_wait es (handle_event e w)
