-- ===== src/Spark/Page/Traffic.antt =====
-- The page and the payment server together: what the user, the network, the server and the timers of app.js
-- may do next, in any order. A request runs as one step of the server.
use freysa_spark_hackathon.Common.{
  ℕ, suc, ◌+◌, ◌≡◌, Bool, true, false, Option, none, some, List, [], ◌∷◌, ◌++◌, String, Result, ok,
  err, length,
}
use freysa_spark_hackathon.Json.{Json}
use freysa_spark_hackathon.Agent.{Session}
use freysa_spark_hackathon.Spark.Server.{Reply, done, failed, body_of}
use freysa_spark_hackathon.Spark.Page.{
  Page, loaded, submit, receive, time_out, open_modal, close_modal,
}

-- `asked` holds the tasks that are on the way to the server, `replies` what is on the way back.
pub record Traffic (W : Type 0) : Type 0 where
  pub page : Page
  pub asked : List String
  pub replies : List Reply
  pub session : Session W

-- What fetch gives for a reply: `response.ok` and the JSON of its body.
abbrev pub outcome_of : Reply → Result (Bool × Json)
outcome_of (done result state) = ok (true, body_of (done result state))
outcome_of (failed message) = ok (false, body_of (failed message))

abbrev pub sent : Option String → List String
sent none = []
sent (some task) = task ∷ []

module _ {W : Type 0} where
  abbrev pub submitted : Traffic W → Traffic W
  submitted s =
      let (task, page) = submit s.page in record s { page = page; asked = s.asked ++ sent task }

  -- The requests that have no answer yet.
  abbrev pub outstanding : Traffic W → ℕ
  outstanding s = length s.asked + length s.replies

module _ {W : Type 0} (pretty : Json → String)
    (handle : String → Session W → Reply × Session W) where
  pub data Step : Traffic W → Traffic W → Type 0 where
    typed :
        {s : Traffic W} (text : String)
        → Step s (record s { page = record s.page { input = text } })
    -- The button, which is enabled, and the Enter key, which is not asked whether it is.
    clicked : {s : Traffic W} → s.page.disabled ≡ false → Step s (submitted s)
    entered : {s : Traffic W} → Step s (submitted s)
    served :
        {s : Traffic W} (before after : List String) (task : String)
        → s.asked ≡ before ++ task ∷ after
        → Step s (record s {
          asked = before ++ after;
          replies = (handle task s.session).0 ∷ s.replies;
          session = (handle task s.session).1;
        })
    received :
        {s : Traffic W} (before after : List Reply) (reply : Reply)
        → s.replies ≡ before ++ reply ∷ after
        → Step s (record s {
          page = receive pretty (outcome_of reply) s.page;
          replies = before ++ after;
        })
    -- fetch throws: the task did not arrive, or its reply did not.
    lost_task :
        {s : Traffic W} (before after : List String) (task message : String)
        → s.asked ≡ before ++ task ∷ after
        → Step s (record s { page = receive pretty (err message) s.page; asked = before ++ after })
    lost_reply :
        {s : Traffic W} (before after : List Reply) (reply : Reply) (message : String)
        → s.replies ≡ before ++ reply ∷ after
        → Step s
            (record s { page = receive pretty (err message) s.page; replies = before ++ after })
    timed_out :
        {s : Traffic W} (n : ℕ)
        → s.page.timers ≡ suc n
        → Step s (record s { page = time_out s.page })
    modal_opened : {s : Traffic W} → Step s (record s { page = open_modal s.page })
    modal_closed : {s : Traffic W} → Step s (record s { page = close_modal s.page })

  abbrev pub begun : Session W → Traffic W
  begun session = record { page = loaded; asked = []; replies = []; session = session }

  -- What the page and the server come to, from a session of the agent.
  pub data Reach (session : Session W) : Traffic W → Type 0 where
    start : Reach session (begun session)
    next : {s t : Traffic W} → Reach session s → Step s t → Reach session t
