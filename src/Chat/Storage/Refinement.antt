-- ===== src/Chat/Storage/Refinement.antt =====
-- The Postgres storage implements the store of threads.
use freysa_spark_hackathon.Common.{
  ◌≡◌, refl, sym, ap, ◌∙◌, inl, inr, none, some, [], ◌∷◌, ◌++◌, map, String, Option-cases, ◌>>=◌,
  required,
}
use freysa_spark_hackathon.Chat.Types.{CreateMessageInput}
use freysa_spark_hackathon.Chat.Storage.{
  Tables, Database, find_chat, find_message, renamed, rewritten, new_chat, new_row,
}
use freysa_spark_hackathon.Chat.Storage.Rows.{IsLinked}
use freysa_spark_hackathon.Chat.Storage.Postgres.{
  create_chat, get_messages, with_messages, update_chat_title, delete_chat, create_message,
  update_message, not_found,
}
use freysa_spark_hackathon.Chat.Storage.Reads.{
  bind-Same, required-Same, get_messages-Same, with_messages-Same, get_chat-Same, get_chats-Same,
}
use freysa_spark_hackathon.Chat.Storage.Links.{
  Call, create_chat_call, get_chat_call, get_chats_call, update_title_call, delete_chat_call,
  create_message_call, get_messages_call, update_message_call, after_call,
}
use freysa_spark_hackathon.Chat.Storage.Threads.{
  store_of, change_at, with_messages_of, message_of, edited, store_after,
}
use freysa_spark_hackathon.Chat.Storage.Statements.{
  insert_chat-thread, rename-thread, delete-thread, insert_message-thread, rewrite-messages,
  change_at-absent,
}

module _ (db : Database) where
  -- The tables after each call that writes, for a text that stands for an id.
  update_chat_title-tables :
      (text id title : String) (s : Tables)
      → db.uuid_of text ≡ some id
      → (update_chat_title db text title s).1 ≡ record s { chats = map (renamed id title) s.chats }
  unfolding update_chat_title ◌>>=◌
  update_chat_title-tables text id title s u =
      let found = required (find_chat id (map (renamed id title) s.chats)) (not_found db text) in
      rw u (
        bind-Same found (with_messages db text) (required-Same _ (not_found db text))
          (with_messages-Same db text) _)

  delete_chat-thread :
      (text id : String) (s : Tables) (c : String)
      → db.uuid_of text ≡ some id
      → store_of (delete_chat db text s).1 c ≡ change_at id (λ t. none) (store_of s) c
  unfolding delete_chat get_messages ◌>>=◌
  delete_chat-thread text id s c u = elim (Option-cases (find_chat id s.chats)) [
    | inl n ↦
        let absent : store_of s id ≡ none = rw n refl in
        rw (u, n) (sym (change_at-absent id (λ t. none) (store_of s) c refl absent))
    | inr (row, f) ↦ rw (u, f) (delete-thread id s c)
  ]

  create_message-thread :
      (text id : String) (input : CreateMessageInput) (s : Tables) (c : String)
      → db.uuid_of text ≡ some id
      → store_of (create_message db text input s).1 c
        ≡ change_at id
            (with_messages_of (λ ms. ms ++ (message_of (db.uuid s) (db.now s) input ∷ [])))
            (store_of s)
            c
  unfolding create_message ◌>>=◌
  create_message-thread text id input s c u = elim (Option-cases (find_chat id s.chats)) [
    | inl n ↦
        let absent : store_of s id ≡ none = rw n refl in
        rw (u, n)
          (sym (
            change_at-absent id
              (with_messages_of (λ ms. ms ++ (message_of (db.uuid s) (db.now s) input ∷ [])))
              (store_of s) c refl absent))
    | inr (row, f) ↦ rw (u, f) (insert_message-thread (new_row db id input s) s c)
  ]

  update_message-thread :
      (text id : String) (input : CreateMessageInput) (s : Tables) (c : String)
      → db.uuid_of text ≡ some id
      → store_of (update_message db text input s).1 c
        ≡ with_messages_of (map (edited id input)) (store_of s c)
  unfolding update_message ◌>>=◌
  update_message-thread text id input s c u =
      let t = record s { messages = map (rewritten id input) s.messages } in
      elim (Option-cases (find_message id t.messages)) [
        | inl n ↦ rw (u, n) (rewrite-messages id input c s.messages (find_chat c s.chats))
        | inr (row, f) ↦ rw (u, f) (rewrite-messages id input c s.messages (find_chat c s.chats))
      ]

  -- A text that stands for no id makes each of these calls throw before it writes.
  title_refused :
      (id title : String) (s : Tables)
      → db.uuid_of id ≡ none
      → (update_chat_title db id title s).1 ≡ s
  unfolding update_chat_title ◌>>=◌
  title_refused id title s u = rw u refl

  delete_refused : (id : String) (s : Tables) → db.uuid_of id ≡ none → (delete_chat db id s).1 ≡ s
  unfolding delete_chat ◌>>=◌
  delete_refused id s u = rw u refl

  create_refused :
      (id : String) (input : CreateMessageInput) (s : Tables)
      → db.uuid_of id ≡ none
      → (create_message db id input s).1 ≡ s
  unfolding create_message ◌>>=◌
  create_refused id input s u = rw u refl

  update_refused :
      (id : String) (input : CreateMessageInput) (s : Tables)
      → db.uuid_of id ≡ none
      → (update_message db id input s).1 ≡ s
  unfolding update_message ◌>>=◌
  update_refused id input s u = rw u refl

  -- A storage whose messages all belong to stored chats, and whose next id is new, goes from call to call as
  -- its store of threads does: the tables after any call, also one that throws, stand for the store after
  -- this call.
  pub after_call-Refines :
      (call : Call) (s : Tables) (c : String)
      → IsLinked s
      → find_chat (db.uuid s) s.chats ≡ none
      → store_of (after_call db call s) c
        ≡ store_after db.uuid_of (db.uuid s) (db.now s) call (store_of s) c
  unfolding create_chat
  after_call-Refines (create_chat_call name owner) s c linked new =
      insert_chat-thread (new_chat db name owner s) s c linked new
  after_call-Refines (update_title_call id title) s c linked new =
      elim (Option-cases (db.uuid_of id)) [
        | inl u ↦ rw u (ap (λ t. store_of t c) (title_refused id title s u))
        | inr (i, u) ↦ rw u (
            ap (λ t. store_of t c) (update_chat_title-tables id i title s u)
            ∙ rename-thread i title s c)
      ]
  after_call-Refines (delete_chat_call id) s c linked new = elim (Option-cases (db.uuid_of id)) [
    | inl u ↦ rw u (ap (λ t. store_of t c) (delete_refused id s u))
    | inr (i, u) ↦ rw u (delete_chat-thread id i s c u)
  ]
  after_call-Refines (create_message_call id input) s c linked new =
      elim (Option-cases (db.uuid_of id)) [
        | inl u ↦ rw u (ap (λ t. store_of t c) (create_refused id input s u))
        | inr (i, u) ↦ rw u (create_message-thread id i input s c u)
      ]
  after_call-Refines (update_message_call id input) s c linked new =
      elim (Option-cases (db.uuid_of id)) [
        | inl u ↦ rw u (ap (λ t. store_of t c) (update_refused id input s u))
        | inr (i, u) ↦ rw u (update_message-thread id i input s c u)
      ]
  after_call-Refines (get_chat_call id) s c linked new =
      ap (λ t. store_of t c) (get_chat-Same db id s)
  after_call-Refines (get_chats_call first offset owner) s c linked new =
      ap (λ t. store_of t c) (get_chats-Same db first offset owner s)
  after_call-Refines (get_messages_call id first offset) s c linked new =
      ap (λ t. store_of t c) (get_messages-Same db id first offset s)
