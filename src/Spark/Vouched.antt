-- ===== src/Spark/Vouched.antt =====
-- The replies to two requests of the payment server that overlap in any way.
use mathlib.Core.Path.{subst}
use freysa_spark_hackathon.Common.{
  ◌≡◌, refl, sym, inl, inr, ℕ, zero, suc, Bool, true, false, List, [], ◌∷◌, ◌++◌, String, Result,
  ok, err, Run, Keeps,
}
use freysa_spark_hackathon.Json.{Json, Fields, JsonEngine}
use freysa_spark_hackathon.Agent.{
  Message, Choice, AgentState, initial, approved, Session, round, ask_model, in_world, new_agent,
  task_messages, reset_state,
}
use freysa_spark_hackathon.Agent.Keeps.{round-Keeps}
use freysa_spark_hackathon.Spark.Lightspark.{Lightspark}
use freysa_spark_hackathon.Spark.Server.{done, spark_agent}
use freysa_spark_hackathon.Spark.Requests.{
  Request, waiting, running, replied, Shared, session, Two, Turn, of_first, of_second, begin,
  after_round, go, take_turn, take_turns,
}
use freysa_spark_hackathon.Spark.Ledger.{Books, paid, agent}
use freysa_spark_hackathon.Spark.Replies.{Current, Current-step, run_tool_call-Current}
use freysa_spark_hackathon.Spark.Page.Payments.{Honest, Honest-later}

-- The payment of an approved state is among these.
abbrev Backed : List Fields → AgentState → Type 0
Backed ps state = Honest ps (done "" state)

reply-Honest :
    (ps : List Fields) (response : String) (state : AgentState)
    → Backed ps state
    → Honest ps (done response state)
reply-Honest ps response initial h = tt
reply-Honest ps response (approved j) h = h

-- If the request has a reply that shows a payment, the payment is among these.
abbrev pub Shows : List Fields → Request → Type 0
Shows ps (waiting task) = Unit
Shows ps (running messages left finished response) = Unit
Shows ps (replied reply) = Honest ps reply

Shows-later : (more ps : List Fields) (r : Request) → Shows ps r → Shows (more ++ ps) r
Shows-later more ps (waiting task) h = tt
Shows-later more ps (running messages left finished response) h = tt
Shows-later more ps (replied reply) h = Honest-later more ps reply h

module _ {W : Type 0} {engine : JsonEngine} {client : Lightspark W}
    {completions : List Message → List Json → Run W (List Choice)}
    (books : Books engine client completions) (system_prompt : String) where
  round-Current : Keeps (Current books) (round engine (agent books system_prompt))
  unfolding ask_model in_world spark_agent new_agent
  round-Current =
      round-Keeps engine (agent books system_prompt) (Current books) (λ s. inl (refl, refl))
        (Current-step books) (run_tool_call-Current books system_prompt)
        (λ s. inl (refl, books.by_model _ _ s.world))

  -- What a step of a request leaves: its reply and the state show payments that were made, and payments
  -- are only added.
  abbrev Left : List Fields → Request × Shared W → Type 0
  Left ps (r, h) =
      Backed (paid books h.world) h.state
      × Shows (paid books h.world) r
      × ((more : List Fields) × (paid books h.world ≡ more ++ ps))

  Current-Backed :
      (s t : Session W)
      → Current books s t
      → Backed (paid books s.world) s.state
      → Backed (paid books t.world) t.state
        × ((more : List Fields) × (paid books t.world ≡ more ++ paid books s.world))
  Current-Backed s t (inl (a, b)) h =
      let before : Backed (paid books s.world) t.state =
        subst (λ state. Backed (paid books s.world) state) (sym a) h in
      (subst (λ ps. Backed ps t.state) (sym b) before, ([], b))
  Current-Backed s t (inr (p, others, a, b)) h =
      (rw a (p, refl, ([], others ++ paid books s.world, b)), (p ∷ others, b))

  after_round-Left :
      (left : ℕ) (s : Session W) (r : Result (Bool × String) × Session W)
      → Current books s r.1
      → Backed (paid books s.world) s.state
      → Left (paid books s.world) (after_round engine client completions system_prompt left r)
  after_round-Left left s (ok (finished, response), t) c h =
      let (backed, more) = Current-Backed s t c h in (backed, tt, more)
  after_round-Left left s (err message, t) c h =
      let (backed, more) = Current-Backed s t c h in (backed, tt, more)

  go-Left :
      (r : Request) (h : Shared W)
      → Backed (paid books h.world) h.state
      → Shows (paid books h.world) r
      → Left (paid books h.world) (go engine client completions system_prompt r h)
  unfolding go begin task_messages spark_agent new_agent in_world reset_state
  go-Left (waiting task) h b s = (tt, tt, ([], refl))
  go-Left (running messages zero finished response) h b s =
      (b, reply-Honest _ response h.state b, ([], refl))
  go-Left (running messages (suc left) true response) h b s =
      (b, reply-Honest _ response h.state b, ([], refl))
  go-Left (running messages (suc left) false response) h b s =
      after_round-Left left (session messages h) _ (round-Current (session messages h)) b
  go-Left (replied reply) h b s = (b, s, ([], refl))

  abbrev Sound : Two W → Type 0
  Sound t =
      Backed (paid books t.both.world) t.both.state
      × Shows (paid books t.both.world) t.first
      × Shows (paid books t.both.world) t.second

  take_turn-Sound :
      (turn : Turn) (t : Two W)
      → Sound t
      → Sound (take_turn engine client completions system_prompt turn t)
  unfolding take_turn
  take_turn-Sound of_first t (b, f, s) =
      let (backed, shown, (more, e)) = go-Left t.first t.both b f in
      (backed, shown, rw e (Shows-later more _ t.second s))
  take_turn-Sound of_second t (b, f, s) =
      let (backed, shown, (more, e)) = go-Left t.second t.both b s in
      (backed, rw e (Shows-later more _ t.first f), shown)

  take_turns-Sound :
      (turns : List Turn) (t : Two W)
      → Sound t
      → Sound (take_turns engine client completions system_prompt turns t)
  unfolding take_turns
  take_turns-Sound [] t h = h
  take_turns-Sound (turn ∷ turns) t h = take_turns-Sound turns _ (take_turn-Sound turn t h)

  -- Over the ledger of Books: however the steps of two requests interleave, after the start of the server,
  -- a reply to either that has the status 200 and an approved state shows a payment that has been made.
  pub take_turns-Shows :
      (task other : String) (turns : List Turn) (w : W)
      → let t = take_turns engine client completions system_prompt turns (record {
        first = waiting task;
        second = waiting other;
        both = record { state = initial; world = w };
      }) in
        Shows (paid books t.both.world) t.first × Shows (paid books t.both.world) t.second
  take_turns-Shows task other turns w =
      let (backed, first, second) = take_turns-Sound turns _ (tt, tt, tt) in (first, second)
