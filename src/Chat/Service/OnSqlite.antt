-- ===== src/Chat/Service/OnSqlite.antt =====
-- The service over the SQLite storage.
use freysa_spark_hackathon.Common.{
  ◌≡◌, refl, ap, ◌∙◌, inl, inr, Option, none, some, String, Result, ok, err, throw, on_error, ◌>>=◌,
  Keeps, Keeps-bind, Keeps-required, go_on, Option-cases,
}
use freysa_spark_hackathon.Chat.Types.{Chat, Message, CreateMessageInput}
use freysa_spark_hackathon.Chat.Storage.{
  ChatRow, Tables, Database, find_chat, find_message, new_row, insert_message,
}
use freysa_spark_hackathon.Chat.Storage.Sqlite.{
  get_messages, get_chat, if_found, create_message, sqlite,
}
use freysa_spark_hackathon.Chat.Service.{
  Parts, Serving, in_world, user_input, create_user_message, validate_chat, announced, send_message,
}

Same : {S : Type 0} → S → S → Type 0
Same s t = t ≡ s

module _ (db : Database) where
  -- No stored id is the text of the row number that the insert of a message reports.
  abbrev pub NoRowNumber : String → CreateMessageInput → Tables → Type 0
  NoRowNumber chat_id input s =
      let t = insert_message (new_row db chat_id input s) s in
      find_message (db.last_insert_rowid t) t.messages ≡ none

  create_message-throws :
      (chat_id : String) (input : CreateMessageInput) (s : Tables)
      → NoRowNumber chat_id input s
      → (e : String) × (t : Tables) × (create_message db chat_id input s ≡ (err e, t))
  unfolding create_message ◌>>=◌
  create_message-throws chat_id input s none_found =
      elim (Option-cases (find_chat chat_id s.chats)) [
        | inl n ↦ ("FOREIGN KEY constraint failed", s, rw n refl)
        | inr (chat, f) ↦ (
          "Cannot read properties of undefined (reading 'id')",
          insert_message (new_row db chat_id input s) s,
          rw (f, none_found) refl,
        )
      ]

  if_found-Same : (o : Option ChatRow) → Keeps Same (if_found db o)
  unfolding get_messages ◌>>=◌ Same
  if_found-Same none s = refl
  if_found-Same (some row) s = refl

  get_chat-Same : (id : String) → Keeps Same (get_chat db id)
  unfolding get_chat Same
  get_chat-Same id = Keeps-bind Same (λ s. refl) (λ s t u e f. f ∙ e) _ _ (λ s. refl) if_found-Same

  -- The service with this storage.
  abbrev pub on_sqlite : Parts Tables → Parts Tables
  on_sqlite parts = record parts { storage = sqlite db }

  module _ (parts : Parts Tables) where
    validate_chat-Same : (chat_id : String) → Keeps Same (validate_chat (on_sqlite parts) chat_id)
    unfolding validate_chat in_world Same
    validate_chat-Same chat_id =
        Keeps-bind Same (λ s. refl) (λ s t u e f. f ∙ e) _ _
          (λ s. ap (λ w. record s { world = w }) (get_chat-Same chat_id s.world))
          (λ o. Keeps-required Same (λ s. refl) (λ s t u e f. f ∙ e) o _)

    Fails : String → String → Serving Tables → Result Message × Serving Tables → Type 0
    Fails chat_id text s r =
        (t : Serving Tables) × (r ≡ (err "Failed to send message", t))
        × (t.emitted ≡ s.emitted)
        × (t.pending ≡ s.pending)

    Fails-after :
        (chat_id text : String) (s : Serving Tables) (r : Result Chat × Serving Tables)
        → NoRowNumber chat_id (user_input parts text) s.world
        → r.1 ≡ s
        → Fails chat_id text s (
            on_error
              (λ _. throw "Failed to send message")
              (go_on
                (λ chat.
                  create_user_message (on_sqlite parts) chat_id text
                  >>= announced (on_sqlite parts) chat_id)
                r))
    unfolding create_user_message in_world ◌>>=◌ Fails
    Fails-after chat_id text s (err e, t) none_found same = (t, refl, rw same refl, rw same refl)
    Fails-after chat_id text s (ok chat, t) none_found same =
        let (e, w, thrown) =
          create_message-throws chat_id (user_input parts text) s.world none_found in
        (record s { world = w }, rw (same, thrown) refl, refl, refl)

    -- With the SQLite storage, where no stored id is the text of the row number of the insert, sending
    -- a message throws, and no message is emitted and no response started.
    pub send_message-Fails :
        (chat_id text : String) (s : Serving Tables)
        → NoRowNumber chat_id (user_input parts text) s.world
        → (t : Serving Tables) × (send_message (on_sqlite parts) chat_id text s
            ≡ (err "Failed to send message", t))
          × (t.emitted ≡ s.emitted)
          × (t.pending ≡ s.pending)
    unfolding send_message ◌>>=◌ Fails Same
    send_message-Fails chat_id text s none_found =
        Fails-after chat_id text s _ none_found (validate_chat-Same chat_id s)
