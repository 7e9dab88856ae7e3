-- ===== src/Chat/Storage/Links.antt =====
-- Every stored message belongs to a stored chat, whatever the Postgres storage does.
use mathlib.Core.Path.{subst}
use text.Mathlib.Text.{◌==◌ as str_eq}
use freysa_spark_hackathon.Common.{
  ◌≡◌, sym, ℕ, required, ◌∙◌, inl, inr, true, not, Option, List, [], ◌∷◌, map, String, ok, Run,
  Keeps, Keeps-bind, Keeps-required, ◌>>=◌, arith, Bool-cases, Option-cases,
}
use freysa_spark_hackathon.Chat.Types.{CreateMessageInput}
use freysa_spark_hackathon.Chat.Storage.{
  MessageRow, Tables, Database, find_chat, find_message, is_of, renamed, rewritten, delete_rows,
}
use freysa_spark_hackathon.Chat.Storage.Postgres.{
  id_param, select_chat, create_chat, get_messages, with_messages, get_chat, get_chats,
  update_chat_title, delete_chat, create_message, update_message,
}
use freysa_spark_hackathon.Chat.Storage.Rows.{
  has_chat, IsLinked, find_chat-has, has_chat-append, has_chat-renamed, has_chat-deleted, All-map,
  All-weaken, All-keep_if, All-append_one,
}
use freysa_spark_hackathon.Chat.Storage.Reads.{
  Same, id_param-Same, select_chat-Same, get_messages-Same, with_messages-Same, get_chat-Same,
  get_chats-Same,
}

-- The calls of the storage's operations.
pub data Call : Type 0 where
  create_chat_call : String → String → Call
  get_chat_call : String → Call
  get_chats_call : ℕ → ℕ → String → Call
  update_title_call : String → String → Call
  delete_chat_call : String → Call
  create_message_call : String → CreateMessageInput → Call
  get_messages_call : String → ℕ → ℕ → Call
  update_message_call : String → CreateMessageInput → Call

abbrev Linking : Tables → Tables → Type 0
Linking s t = IsLinked s → IsLinked t

module _ (db : Database) where
  -- The tables after a call, whether it returns or throws.
  abbrev pub after_call : Call → Tables → Tables
  after_call (create_chat_call name user_id) s = (create_chat db name user_id s).1
  after_call (get_chat_call id) s = (get_chat db id s).1
  after_call (get_chats_call first offset user_id) s = (get_chats db first offset user_id s).1
  after_call (update_title_call id title) s = (update_chat_title db id title s).1
  after_call (delete_chat_call id) s = (delete_chat db id s).1
  after_call (create_message_call id input) s = (create_message db id input s).1
  after_call (get_messages_call id first offset) s = (get_messages db id first offset s).1
  after_call (update_message_call id input) s = (update_message db id input s).1

  bind :
      {A B : Type 0} (m : Run Tables A) (f : A → Run Tables B)
      → Keeps Linking m
      → ((a : A) → Keeps Linking (f a))
      → Keeps Linking (m >>= f)
  bind m f = Keeps-bind Linking (λ s h. h) (λ s t u g k h. k (g h)) m f

  need : {A : Type 0} (o : Option A) (e : String) → Keeps Linking (required o e)
  need o e = Keeps-required Linking (λ s h. h) (λ s t u g k h. k (g h)) o e

  same : {A : Type 0} (m : Run Tables A) → Keeps Same m → Keeps Linking m
  same m k s h = subst IsLinked (sym (k s)) h

  rename-Links :
      (id title : String)
      → Keeps Linking (λ s. (ok tt, record s { chats = map (renamed id title) s.chats }))
  rename-Links id title s h =
      All-weaken _ _ (λ m g. has_chat-renamed id title s.chats m.chat_id ∙ g) s.messages h

  delete-Links : (id : String) → Keeps Linking (λ s. (ok tt, delete_rows id s))
  delete-Links id s h =
      All-keep_if _ _ (λ m. not (is_of id m))
        (λ m other g. has_chat-deleted id s.chats m.chat_id (ground arith) g) s.messages h

  rewrite-Links :
      (id : String) (input : CreateMessageInput)
      → Keeps Linking (λ s. (ok tt, record s { messages = map (rewritten id input) s.messages }))
  rewrite-Links id input s h = All-map _ _ (rewritten id input) same_chat s.messages h
    where
      same_chat :
          (m : MessageRow)
          → has_chat s.chats m.chat_id ≡ true
          → has_chat s.chats (rewritten id input m).chat_id ≡ true
      same_chat m g = elim (Bool-cases (str_eq m.id id)) [ inl e ↦ rw e g | inr e ↦ rw e g ]

  create_message-Links :
      (id : String) (input : CreateMessageInput) → Keeps Linking (create_message db id input)
  unfolding create_message ◌>>=◌
  create_message-Links text input s h = elim (Option-cases (db.uuid_of text)) [
    | inl u ↦ rw u h
    | inr (id, u) ↦ elim (Option-cases (find_chat id s.chats)) [
      | inl n ↦ rw (u, n) h
      | inr (chat, f) ↦
          rw (u, f) (All-append_one _ s.messages _ h (find_chat-has id s.chats chat f))
    ]
  ]

  -- Every operation of the Postgres storage keeps the tables linked, also when it throws.
  pub after_call-IsLinked : (call : Call) (s : Tables) → IsLinked s → IsLinked (after_call call s)
  unfolding create_chat update_chat_title delete_chat update_message
  after_call-IsLinked (create_chat_call name user_id) s h =
      All-weaken _ _ (λ m g. has_chat-append s.chats _ m.chat_id g) s.messages h
  after_call-IsLinked (get_chat_call id) s h = same (get_chat db id) (get_chat-Same db id) s h
  after_call-IsLinked (get_chats_call first offset user_id) s h =
      same (get_chats db first offset user_id) (get_chats-Same db first offset user_id) s h
  after_call-IsLinked (update_title_call id title) s h =
      bind _ _ (same (id_param db id) (id_param-Same db id))
        (λ i. bind _ _ (rename-Links i title) λ v.
          bind _ _ (λ s h. h)
            λ o.
              bind _ _ (need o _)
                λ row. same (with_messages db id row) (with_messages-Same db id row))
        s h
  after_call-IsLinked (delete_chat_call id) s h =
      bind _ _ (same (select_chat db id) (select_chat-Same db id))
        (λ o. bind _ _ (need o _) λ row.
          bind _ _ (same (get_messages db id 100 0) (get_messages-Same db id 100 0)) λ ms.
            bind _ _ (same (id_param db id) (id_param-Same db id))
              λ i. bind _ _ (delete-Links i) λ u s h. h)
        s h
  after_call-IsLinked (create_message_call id input) s h = create_message-Links id input s h
  after_call-IsLinked (get_messages_call id first offset) s h =
      same (get_messages db id first offset) (get_messages-Same db id first offset) s h
  after_call-IsLinked (update_message_call id input) s h =
      bind _ _ (same (id_param db id) (id_param-Same db id))
        (λ i.
          bind _ _ (rewrite-Links i input)
            λ v. bind _ _ (λ s. need (find_message i s.messages) _ s) λ row s h. h)
        s h

  abbrev pub after_calls : List Call → Tables → Tables
  after_calls [] s = s
  after_calls (call ∷ calls) s = after_calls calls (after_call call s)
