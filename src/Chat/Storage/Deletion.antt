-- ===== src/Chat/Storage/Deletion.antt =====
-- What the deletion of a chat leaves in the Postgres storage.
use text.Mathlib.Text.{◌==◌ as str_eq}
use freysa_spark_hackathon.Common.{
  ◌≡◌, refl, ap, ◌∙◌, ℕ, zero, suc, not, none, some, List, [], ◌∷◌, map, take, drop, String, ok,
  ◌>>=◌, keep, length, arith, inl, inr, Bool-cases, Option-cases,
}
use freysa_spark_hackathon.Chat.Types.{Chat}
use freysa_spark_hackathon.Chat.Storage.{
  ChatRow, MessageRow, Tables, Database, find_chat, is_of, delete_rows,
}
use freysa_spark_hackathon.Chat.Storage.Postgres.{get_messages, get_chat, delete_chat}

pub find_chat-deleted :
    (id : String) (rows : List ChatRow)
    → find_chat id (keep (λ (row : ChatRow). not (str_eq row.id id)) rows) ≡ none
unfolding find_chat
find_chat-deleted id [] = refl
find_chat-deleted id (row ∷ rows) = elim (Bool-cases (str_eq row.id id)) [
  | inl h ↦ rw h (find_chat-deleted id rows)
  | inr h ↦ rw (h, h) (find_chat-deleted id rows)
]

pub keep-deleted :
    (id : String) (rows : List MessageRow)
    → keep (is_of id) (keep (λ (row : MessageRow). not (is_of id row)) rows) ≡ []
keep-deleted id [] = refl
keep-deleted id (row ∷ rows) = elim (Bool-cases (is_of id row)) [
  | inl h ↦ rw h (keep-deleted id rows)
  | inr h ↦ rw (h, h) (keep-deleted id rows)
]

window-nil :
    {A B : Type 0} (f : A → B) (first offset : ℕ) (xs : List A)
    → length xs ≡ 0
    → map f (take first (drop offset xs)) ≡ []
window-nil f zero zero [] h = refl
window-nil f zero (suc offset) [] h = refl
window-nil f (suc first) zero [] h = refl
window-nil f (suc first) (suc offset) [] h = refl
window-nil f first offset (x ∷ xs) h = absurd (omega arith)

module _ (db : Database) where
  delete_chat-deletes :
      (text : String) (s t : Tables) (chat : Chat)
      → delete_chat db text s ≡ (ok chat, t)
      → (id : String) × (db.uuid_of text ≡ some id) × (t ≡ delete_rows id s)
  unfolding delete_chat get_messages ◌>>=◌
  delete_chat-deletes text s t chat e = elim (Option-cases (db.uuid_of text)) [
    | inl u ↦ let bad = rw u at e in cc
    | inr (id, u) ↦ elim (Option-cases (find_chat id s.chats)) [
      | inl n ↦ let bad = rw (u, n) at e in cc
      | inr (row, f) ↦ let done = rw (u, f) at e in (id, u, cc)
    ]
  ]

  -- Where the database's order by time neither adds nor drops a row: after a deletion that returns,
  -- getChat finds no chat of that id, and getMessages returns no message of it.
  pub delete_chat_gone :
      (text : String) (first offset : ℕ) (s t : Tables) (chat : Chat)
      → ((rows : List MessageRow) → length (db.messages_asc rows) ≡ length rows)
      → delete_chat db text s ≡ (ok chat, t)
      → (get_chat db text t ≡ (ok none, t)) × (get_messages db text first offset t ≡ (ok [], t))
  unfolding get_chat get_messages ◌>>=◌
  delete_chat_gone text first offset s t chat orders e =
      let (id, u, after) = delete_chat-deletes text s t chat e in
      let none_left : length (db.messages_asc (keep (is_of id) (delete_rows id s).messages)) ≡ 0 =
        orders _ ∙ ap length (keep-deleted id s.messages) in
      (
        rw (after, u, find_chat-deleted id s.chats) refl,
        rw (after, u, window-nil _ first offset _ none_left) refl,
      )
