-- ===== src/Chat/Storage/Statements.antt =====
-- What each statement on the tables does to the store of threads.
use mathlib.Core.Path.{subst}
use text.Mathlib.Text.{◌==◌ as str_eq}
use freysa_spark_hackathon.Common.{
  ◌≡◌, refl, inl, inr, Option, none, some, List, [], ◌∷◌, ◌++◌, map, String, keep, Bool-cases,
  eq_iff,
}
use freysa_spark_hackathon.Chat.Types.{CreateMessageInput}
use freysa_spark_hackathon.Chat.Storage.{
  ChatRow, MessageRow, Tables, find_chat, is_of, renamed, rewritten, delete_rows,
  map_row_to_message, insert_chat, insert_message,
}
use freysa_spark_hackathon.Chat.Storage.Rows.{IsLinked}
use freysa_spark_hackathon.Chat.Storage.Threads.{
  Thread, Store, thread, store_of, change_at, with_name, with_messages_of, edited,
}
use freysa_spark_hackathon.Chat.Storage.Selections.{
  find_chat-append_other, find_chat-append_new, find_chat-has_none, keep-unlinked,
  find_chat-renamed_other, with_title, find_chat-renamed_same, find_chat-kept_other,
  keep-kept_other, keep-append, keep-rewritten,
}
use freysa_spark_hackathon.Chat.Storage.Deletion.{find_chat-deleted}

-- The store changes as the tables do, statement by statement.
pub insert_chat-thread :
    (row : ChatRow) (s : Tables) (c : String)
    → IsLinked s
    → find_chat row.id s.chats ≡ none
    → store_of (insert_chat row s) c
      ≡ change_at row.id
          (λ t. some (record { name = row.name; owner = row.user_id; messages = [] }))
          (store_of s)
          c
insert_chat-thread row s c linked new = elim (Bool-cases (str_eq row.id c)) [
  | inl h ↦
      let same : row.id ≡ c = (eq_iff row.id c).0 h in
      let absent : find_chat c s.chats ≡ none = subst (λ d. find_chat d s.chats ≡ none) same new in
      rw
        (
          h,
          find_chat-append_new c s.chats row absent h,
          keep-unlinked s.chats c s.messages (find_chat-has_none c s.chats absent) linked,
        )
        refl
  | inr h ↦ rw (h, find_chat-append_other c s.chats row h) refl
]

with_title-thread :
    (title : String) (rows : List MessageRow) (o : Option ChatRow)
    → thread rows (with_title title o) ≡ with_name title (thread rows o)
with_title-thread title rows none = refl
with_title-thread title rows (some row) = refl

pub rename-thread :
    (id title : String) (s : Tables) (c : String)
    → store_of (record s { chats = map (renamed id title) s.chats }) c
      ≡ change_at id (with_name title) (store_of s) c
rename-thread id title s c = elim (Bool-cases (str_eq id c)) [
  | inl h ↦
      let same : id ≡ c = (eq_iff id c).0 h in
      let found : find_chat c (map (renamed id title) s.chats)
          ≡ with_title title (find_chat c s.chats) =
        subst
          (λ d.
            find_chat d (map (renamed id title) s.chats) ≡ with_title title (find_chat d s.chats))
          same (find_chat-renamed_same id title s.chats) in
      rw (h, found) (with_title-thread title _ (find_chat c s.chats))
  | inr h ↦ rw (h, find_chat-renamed_other id title c s.chats h) refl
]

pub delete-thread :
    (id : String) (s : Tables) (c : String)
    → store_of (delete_rows id s) c ≡ change_at id (λ t. none) (store_of s) c
delete-thread id s c = elim (Bool-cases (str_eq id c)) [
  | inl h ↦
      let same : id ≡ c = (eq_iff id c).0 h in
      let gone : find_chat c (delete_rows id s).chats ≡ none =
        subst (λ d. find_chat d (delete_rows id s).chats ≡ none) same
          (find_chat-deleted id s.chats) in
      rw (h, gone) refl
  | inr h ↦ rw (h, find_chat-kept_other id c s.chats h, keep-kept_other id c s.messages h) refl
]

map-append_one :
    {A B : Type 0} (f : A → B) (xs : List A) (x : A)
    → map f (xs ++ (x ∷ [])) ≡ map f xs ++ (f x ∷ [])
map-append_one f [] x = refl
map-append_one f (y ∷ xs) x = rw (map-append_one f xs x)

add-messages :
    (row : MessageRow) (rows : List MessageRow) (o : Option ChatRow)
    → thread (rows ++ (row ∷ [])) o
      ≡ with_messages_of (λ ms. ms ++ (map_row_to_message row ∷ [])) (thread rows o)
add-messages row rows none = refl
add-messages row rows (some chat) = rw (map-append_one map_row_to_message rows row) refl

append-nothing : {A : Type 0} (xs : List A) → xs ++ [] ≡ xs
append-nothing [] = refl
append-nothing (x ∷ xs) = rw (append-nothing xs)

pub insert_message-thread :
    (row : MessageRow) (s : Tables) (c : String)
    → store_of (insert_message row s) c
      ≡ change_at row.chat_id
          (with_messages_of (λ ms. ms ++ (map_row_to_message row ∷ [])))
          (store_of s)
          c
insert_message-thread row s c = elim (Bool-cases (str_eq row.chat_id c)) [
  | inl h ↦
      rw (keep-append (is_of c) s.messages (row ∷ []), h) (add-messages row _ (find_chat c s.chats))
  | inr h ↦
      rw
        (keep-append (is_of c) s.messages (row ∷ []), h, append-nothing (keep (is_of c) s.messages))
        refl
]

pub rewrite-messages :
    (id : String) (input : CreateMessageInput) (c : String) (ms : List MessageRow)
    (o : Option ChatRow)
    → thread (keep (is_of c) (map (rewritten id input) ms)) o
      ≡ with_messages_of (map (edited id input)) (thread (keep (is_of c) ms) o)
rewrite-messages id input c ms none = refl
rewrite-messages id input c ms (some row) = rw (keep-rewritten id input c ms) refl

pub change_at-absent :
    (id : String) (f : Option Thread → Option Thread) (store : Store) (c : String)
    → f none ≡ none
    → store id ≡ none
    → change_at id f store c ≡ store c
change_at-absent id f store c keeps absent = elim (Bool-cases (str_eq id c)) [
  | inl h ↦
      let same : id ≡ c = (eq_iff id c).0 h in
      let here : store c ≡ none = subst (λ d. store d ≡ none) same absent in rw (h, here) keeps
  | inr h ↦ rw h refl
]
