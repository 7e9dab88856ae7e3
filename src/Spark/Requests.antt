-- ===== src/Spark/Requests.antt =====
-- Requests of spark-server.ts that share its one agent: while a request waits for the model or for a tool,
-- other requests begin and go on. Each has its own messages, for executeTask makes a new array; the agent's
-- state and the world are shared. A request goes on in steps: the beginning of the handler, a round of
-- Agent.execute, and the reply, which comes after the handler has awaited the result. A round is one step
-- here.
use freysa_spark_hackathon.Common.{
  ℕ, zero, suc, Bool, true, false, List, [], ◌∷◌, String, Result, ok, err, Run,
}
use freysa_spark_hackathon.Json.{Json, JsonEngine}
use freysa_spark_hackathon.Agent.{
  Message, Choice, AgentState, Session, reset_state, task_messages, in_world, max_steps, round,
}
use freysa_spark_hackathon.Spark.Lightspark.{Lightspark}
use freysa_spark_hackathon.Spark.Server.{Reply, done, failed, spark_agent}

-- A request before its first step; between two steps, with its messages, the steps of the loop that are
-- left, `isCompleted` and `response`; and answered.
pub data Request : Type 0 where
  waiting : String → Request
  running : List Message → ℕ → Bool → String → Request
  replied : Reply → Request

-- What all requests share.
pub record Shared (W : Type 0) : Type 0 where
  pub state : AgentState
  pub world : W

abbrev pub shared : {W : Type 0} → Session W → Shared W
shared s = record { state = s.state; world = s.world }

abbrev pub session : {W : Type 0} → List Message → Shared W → Session W
session messages h = record { messages = messages; state = h.state; world = h.world }

-- Two requests, and whose step is next.
pub record Two (W : Type 0) : Type 0 where
  pub first : Request
  pub second : Request
  pub both : Shared W

pub data Turn : Type 0 where
  of_first of_second : Turn

module _ {W : Type 0} (engine : JsonEngine) (client : Lightspark W)
    (completions : List Message → List Json → Run W (List Choice)) (system_prompt : String) where
  -- `agent.resetState()`, and executeTask up to its loop.
  abbrev begun : Result (List Message) × Session W → Request × Shared W
  begun (ok messages, s) = (running messages max_steps false "", shared s)
  begun (err message, s) = (replied (failed message), shared s)

  unfoldable pub begin : String → Shared W → Request × Shared W
  begin task h = begun (
      in_world (task_messages engine (spark_agent engine client completions system_prompt) task)
        (reset_state (session [] h)))

  -- A round, or the error that it throws.
  abbrev pub after_round : ℕ → Result (Bool × String) × Session W → Request × Shared W
  after_round left (ok (finished, response), s) =
      (running s.messages left finished response, shared s)
  after_round left (err message, s) = (replied (failed message), shared s)

  -- The next step of a request.
  unfoldable pub go : Request → Shared W → Request × Shared W
  unfolding begin
  go (waiting task) h = begin task h
  go (running messages zero finished response) h = (replied (done response h.state), h)
  go (running messages (suc left) true response) h = (replied (done response h.state), h)
  go (running messages (suc left) false response) h =
      after_round left
        (round engine (spark_agent engine client completions system_prompt) (session messages h))
  go (replied reply) h = (replied reply, h)

  -- The next step of one of two requests.
  unfoldable pub take_turn : Turn → Two W → Two W
  unfolding go
  take_turn of_first t =
      let (request, h) = go t.first t.both in
      record { first = request; second = t.second; both = h }
  take_turn of_second t =
      let (request, h) = go t.second t.both in
      record { first = t.first; second = request; both = h }

  unfoldable pub take_turns : List Turn → Two W → Two W
  take_turns [] t = t
  take_turns (turn ∷ turns) t = take_turns turns (take_turn turn t)

  -- A request that goes on alone.
  unfoldable pub go_times : ℕ → Request → Shared W → Request × Shared W
  go_times zero r h = (r, h)
  go_times (suc n) r h = let (q, k) = go r h in go_times n q k
