-- ===== src/Chat/Service/Answers.antt =====
-- What an exchange leaves: the user's message and the answer.
use freysa_spark_hackathon.Common.{
  ◌≡◌, refl, ◌⊎◌, inl, inr, true, false, some, List, [], ◌∷◌, ◌++◌, map, String, Result, ok, err,
  ◌>>=◌, Bool-cases, if◌then◌else◌, is_truthy,
}
use freysa_spark_hackathon.Chat.Types.{Message, assistant, user}
use freysa_spark_hackathon.Chat.Service.{
  Parts, Serving, OpenAiMessage, in_world, store_answer, ask_agent, handle_ai_response,
}

module _ {W : Type 0} (parts : Parts W) where
  -- Storing the text as a message of the assistant, without images, tool calls and arguments.
  abbrev storing : String → String → W → Result Message × W
  storing chat_id text = parts.storage.create_message chat_id (record {
    text = some text;
    role = assistant;
    image_urls = some [];
    tool_calls = some [];
    tool_args = some [];
  })

  -- The text was stored last, as one message of the assistant, which goes to the subscribers there are.
  abbrev pub Answered : String → String → Serving W → Serving W → Type 0
  Answered chat_id text s t =
      (m : Message) × (storing chat_id text s.world ≡ (ok m, t.world))
      × (t.emitted ≡ (
          if parts.has_subscribers t.world chat_id
          then s.emitted ++ ((chat_id, m, t.world) ∷ [])
          else s.emitted))

  -- A storage that stores every message of the assistant.
  abbrev pub Stores : String → Type 0
  Stores chat_id =
      (text : String) (w : W) → (m : Message) × (v : W) × (storing chat_id text w ≡ (ok m, v))

  -- The first 100 messages of the chat were read.
  abbrev pub Read : String → W → List Message → W → Type 0
  Read chat_id w messages v = parts.storage.get_messages chat_id 100 0 w ≡ (ok messages, v)

  -- The messages with the names of their roles.
  abbrev pub conversation : List Message → List OpenAiMessage
  conversation messages =
      map
        (λ (m : Message). record {
          role = elim m.role [ assistant ↦ "assistant" | user ↦ "user" ];
          content = m.text;
        })
        messages

  -- The agent, given the chat's messages, has returned this text, which is not empty.
  abbrev pub Spoke : String → W → String → W → Type 0
  Spoke chat_id w text u =
      (messages : List Message) × (v : W) × Read chat_id w messages v
      × (parts.execute (conversation messages) v ≡ (ok text, u))
      × (is_truthy text ≡ true)

  -- The messages could not be read, or the agent has thrown or has returned an empty text.
  abbrev pub Silent : String → W → W → Type 0
  Silent chat_id w u =
      ((e : String) × (parts.storage.get_messages chat_id 100 0 w ≡ (err e, u)))
      ⊎ ((messages : List Message) × (v : W) × Read chat_id w messages v
          × (((e : String) × (parts.execute (conversation messages) v ≡ (err e, u)))
              ⊎ ((text : String) × (parts.execute (conversation messages) v ≡ (ok text, u))
                  × (is_truthy text ≡ false))))

  Asked : String → Serving W → Type 0
  Asked chat_id s =
      (u : W) × (((text : String) × (ask_agent parts chat_id s ≡ (ok text, record s { world = u }))
          × Spoke chat_id s.world text u)
        ⊎ ((e : String) × (ask_agent parts chat_id s ≡ (err e, record s { world = u }))
            × Silent chat_id s.world u))

  ran-Asked :
      (chat_id : String) (s : Serving W) (messages : List Message) (v : W)
      → Read chat_id s.world messages v
      → (r : Result String × W) → parts.execute (conversation messages) v ≡ r
      → Asked chat_id s
  unfolding Asked ask_agent in_world ◌>>=◌
  ran-Asked chat_id s messages v read (err e, u) ran =
      (u, inr (e, rw (read, ran) refl, inr (messages, v, read, inl (e, ran))))
  ran-Asked chat_id s messages v read (ok text, u) ran = elim (Bool-cases (is_truthy text)) [
    | inl h ↦ (u, inl (text, rw (read, ran, h) refl, (messages, v, read, ran, h)))
    | inr h ↦ (
      u,
      inr (
        "No response from AI agent",
        rw (read, ran, h) refl,
        inr (messages, v, read, inr (text, ran, h)),
      ),
    )
  ]

  read-Asked :
      (chat_id : String) (s : Serving W) (r : Result (List Message) × W)
      → parts.storage.get_messages chat_id 100 0 s.world ≡ r
      → Asked chat_id s
  unfolding Asked ask_agent in_world ◌>>=◌
  read-Asked chat_id s (ok messages, v) read = ran-Asked chat_id s messages v read _ refl
  read-Asked chat_id s (err e, u) read = (u, inr (e, rw read refl, inl (e, read)))

  store_answer-Answered :
      (chat_id text : String) (s : Serving W)
      → Stores chat_id
      → (t : Serving W) × (store_answer parts chat_id text s ≡ (ok tt, t))
        × Answered chat_id text s t
  unfolding store_answer in_world ◌>>=◌
  store_answer-Answered chat_id text s stores =
      let (m, v, stored) = stores text s.world in
      elim (Bool-cases (parts.has_subscribers v chat_id)) [
        | inl h ↦ (
          record { world = v; emitted = s.emitted ++ ((chat_id, m, v) ∷ []); pending = s.pending },
          rw (stored, h) refl,
          (m, stored, rw h refl),
        )
        | inr h ↦ (record s { world = v }, rw (stored, h) refl, (m, stored, rw h refl))
      ]

  -- Where the storage stores the assistant's messages, a response ends without an error, for every agent and
  -- whatever else the storage does: one message of the assistant is stored, and emitted if the chat has a
  -- listener then. If the agent, given the chat's first 100 messages, returns a text that is not empty, the
  -- message has that text. If the messages cannot be read, or the agent throws or returns an empty text, the
  -- message is the apology.
  pub handle_ai_response-Answered :
      (chat_id : String) (s : Serving W)
      → Stores chat_id
      → (t : Serving W) × (u : W) × (text : String) × (handle_ai_response parts chat_id s
          ≡ (ok tt, t))
        × (Spoke chat_id s.world text u
            ⊎ (Silent chat_id s.world u
                × (text
                    ≡ "An error occurred while processing your request. Please try again later.")))
        × Answered chat_id text (record s { world = u }) t
  unfolding handle_ai_response ◌>>=◌ Asked
  handle_ai_response-Answered chat_id s stores =
      let (u, ended) = read-Asked chat_id s _ refl in
      elim ended [
        | inl (text, asked, spoke) ↦
            let (t, stored, answered) =
              store_answer-Answered chat_id text (record s { world = u }) stores in
            (t, u, text, rw (asked, stored) refl, inl spoke, answered)
        | inr (e, asked, silent) ↦
            let apology : String =
              "An error occurred while processing your request. Please try again later." in
            let (t, stored, answered) =
              store_answer-Answered chat_id apology (record s { world = u }) stores in
            (t, u, apology, rw (asked, stored) refl, inr (silent, refl), answered)
      ]
