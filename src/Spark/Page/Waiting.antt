-- ===== src/Spark/Page/Waiting.antt =====
-- Every question of the page gets one answer, and the page waits for as long as there is one to come.
use freysa_spark_hackathon.Common.{
  ℕ, suc, ◌+◌, ◌<◌, ◌≡◌, refl, sym, ap, ◌≢◌, ◌⊎◌, inl, inr, Bool, false, Bool-cases, List, [], ◌∷◌,
  ◌++◌, String, Result, length, length-append, arith, is_truthy,
}
use freysa_spark_hackathon.Json.{Json}
use freysa_spark_hackathon.Agent.{Session}
use freysa_spark_hackathon.Spark.Server.{Reply}
use freysa_spark_hackathon.Spark.Page.{
  thinking, Shown, Entry, plain, user, agent, Page, submit, receive, time_out, trim, sending,
}
use freysa_spark_hackathon.Spark.Page.Answers.{Settled, receive-Settled}
use freysa_spark_hackathon.Spark.Page.Traffic.{
  Traffic, outcome_of, sent, submitted, outstanding, Step, typed, clicked, entered, served,
  received, lost_task, lost_reply, timed_out, modal_opened, modal_closed, Reach, start, next,
}

abbrev pub questions : List Entry → ℕ
questions [] = 0
questions (user x ∷ es) = suc (questions es)
questions (agent x ∷ es) = questions es

abbrev pub answers : List Entry → ℕ
answers [] = 0
answers (user x ∷ es) = answers es
answers (agent x ∷ es) = suc (answers es)

questions-append_user :
    (es : List Entry) (x : Shown) → questions (es ++ user x ∷ []) ≡ suc (questions es)
questions-append_user [] x = refl
questions-append_user (user y ∷ es) x = ap suc (questions-append_user es x)
questions-append_user (agent y ∷ es) x = questions-append_user es x

questions-append_agent :
    (es : List Entry) (x : Shown) → questions (es ++ agent x ∷ []) ≡ questions es
questions-append_agent [] x = refl
questions-append_agent (user y ∷ es) x = ap suc (questions-append_agent es x)
questions-append_agent (agent y ∷ es) x = questions-append_agent es x

answers-append_user : (es : List Entry) (x : Shown) → answers (es ++ user x ∷ []) ≡ answers es
answers-append_user [] x = refl
answers-append_user (user y ∷ es) x = answers-append_user es x
answers-append_user (agent y ∷ es) x = ap suc (answers-append_user es x)

answers-append_agent :
    (es : List Entry) (x : Shown) → answers (es ++ agent x ∷ []) ≡ suc (answers es)
answers-append_agent [] x = refl
answers-append_agent (user y ∷ es) x = answers-append_agent es x
answers-append_agent (agent y ∷ es) x = ap suc (answers-append_agent es x)

length-middle :
    {A : Type 0} (xs ys : List A) (x : A) → length (xs ++ x ∷ ys) ≡ suc (length (xs ++ ys))
length-middle [] ys x = refl
length-middle (y ∷ xs) ys x = ap suc (length-middle xs ys x)

more_asked :
    {A : Type 0} (xs ys : List A) (n : ℕ) → (length xs + n) + length ys ≡ length (xs ++ ys) + n
more_asked xs ys n = omega (arith, length-append xs ys)

-- A page with `n` requests that have no answer yet.
abbrev pub Balanced : Page → ℕ → Type 0
Balanced p n =
    (answers p.history + n ≡ questions p.history)
    × ((0 < n) ⊎ ((p.disabled ≡ false) × (p.status ≢ thinking)))

settled-Balanced : (p q : Page) (m n : ℕ) → n ≡ suc m → Balanced p n → Settled p q → Balanced q m
settled-Balanced p q m n e (balance, w) (x, h, free, status) = (
  rw h (omega (arith, answers-append_agent p.history x, questions-append_agent p.history x)),
  inr (free, status),
)

Balanced-same : (p : Page) (m n : ℕ) → m ≡ n → Balanced p m → Balanced p n
Balanced-same p m n e h = rw (sym e) h

sending-Balanced :
    (message : String) (p : Page) (n : ℕ)
    → Balanced p n
    → Balanced (sending message p).1 (n + length (sent (sending message p).0))
sending-Balanced message p n (balance, w) = elim (Bool-cases (is_truthy message)) [
  | inl e ↦ rw e (
    omega (
      arith,
      questions-append_user p.history (plain message),
      answers-append_user p.history (plain message),
      balance,
    ),
    inl (omega arith),
  )
  | inr e ↦ rw e (Balanced-same p n (n + 0) (omega arith) (balance, w))
]

module _ {W : Type 0} (pretty : Json → String)
    (handle : String → Session W → Reply × Session W) where
  abbrev InTurn : Traffic W → Type 0
  InTurn s = Balanced s.page (outstanding s)

  submitted-InTurn : (s : Traffic W) → InTurn s → InTurn (submitted s)
  unfolding submit
  submitted-InTurn s h =
      Balanced-same (sending (trim s.page.input) s.page).1 _ _
        (more_asked s.asked (sent (sending (trim s.page.input) s.page).0) (length s.replies))
        (sending-Balanced (trim s.page.input) s.page (outstanding s) h)

  received-InTurn :
      (s : Traffic W) (asked : List String) (replies : List Reply) (outcome : Result (Bool × Json))
      → outstanding s ≡ suc (length asked + length replies)
      → InTurn s
      → InTurn (record s { page = receive pretty outcome s.page; asked = asked; replies = replies })
  received-InTurn s asked replies outcome e h =
      settled-Balanced s.page (receive pretty outcome s.page) _ _ e h
        (receive-Settled pretty outcome s.page)

  Step-InTurn : {s t : Traffic W} → Step pretty handle s t → InTurn s → InTurn t
  unfolding time_out
  Step-InTurn (typed text) h = h
  Step-InTurn {s} (clicked e) h = submitted-InTurn s h
  Step-InTurn {s} entered h = submitted-InTurn s h
  Step-InTurn {s} (served before after task e) h =
      Balanced-same s.page _ _ (omega (arith, ap length e, length-middle before after task)) h
  Step-InTurn {s} (received before after reply e) h =
      received-InTurn s s.asked (before ++ after) (outcome_of reply)
        (omega (arith, ap length e, length-middle before after reply)) h
  Step-InTurn {s} (lost_task before after task message e) h =
      received-InTurn s (before ++ after) s.replies _
        (omega (arith, ap length e, length-middle before after task)) h
  Step-InTurn {s} (lost_reply before after reply message e) h =
      received-InTurn s s.asked (before ++ after) _
        (omega (arith, ap length e, length-middle before after reply)) h
  Step-InTurn (timed_out n e) (balance, inl more) = (balance, inl more)
  Step-InTurn (timed_out n e) (balance, inr (free, status)) = (balance, inr (free, λ h. cc))
  Step-InTurn modal_opened h = h
  Step-InTurn modal_closed h = h

  -- Whatever the server answers and in whatever order things happen: each question in the chat history has
  -- one answer of the agent, or a request that has none yet; and where no request is without an answer,
  -- the button is enabled and the page does not say that it is processing.
  pub Reach-InTurn :
      (session : Session W) (s : Traffic W)
      → Reach pretty handle session s
      → (answers s.page.history + outstanding s ≡ questions s.page.history)
        × ((0 < outstanding s) ⊎ ((s.page.disabled ≡ false) × (s.page.status ≢ thinking)))
  Reach-InTurn session s start = (refl, inr (refl, λ h. cc))
  Reach-InTurn session s (next {s = t} r step) = Step-InTurn step (Reach-InTurn session t r)
