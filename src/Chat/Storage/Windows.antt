-- ===== src/Chat/Storage/Windows.antt =====
-- Which messages a reader of a chat sees after one more has been stored.
use freysa_spark_hackathon.Common.{
  ◌≡◌, refl, ◌∙◌, inl, inr, ℕ, zero, suc, ◌<◌, ◌≤◌, Bool, List, [], ◌∷◌, ◌++◌, map, String, some,
  ok, ◌>>=◌, keep, take, length, All, ltb, if◌then◌else◌, keep-append, arith, Bool-cases,
  Option-cases, eq_refl,
}
use freysa_spark_hackathon.Chat.Types.{Message, CreateMessageInput}
use freysa_spark_hackathon.Chat.Storage.{
  MessageRow, Tables, Database, find_chat, map_row_to_message, new_row, insert_message, is_of,
}
use freysa_spark_hackathon.Chat.Storage.Postgres.{get_messages, create_message}

take-append_short :
    {A : Type 0} (n : ℕ) (xs : List A) (x : A)
    → length xs < n
    → take n (xs ++ (x ∷ [])) ≡ take n xs ++ (x ∷ [])
take-append_short zero xs x h = absurd (omega arith)
take-append_short (suc zero) [] x h = refl
take-append_short (suc (suc n)) [] x h = refl
take-append_short (suc n) (y ∷ xs) x h = rw (take-append_short n xs x (omega arith))

take-append_full :
    {A : Type 0} (n : ℕ) (xs : List A) (x : A) → n ≤ length xs → take n (xs ++ (x ∷ [])) ≡ take n xs
take-append_full zero [] x h = refl
take-append_full zero (y ∷ xs) x h = refl
take-append_full (suc n) [] x h = absurd (omega arith)
take-append_full (suc n) (y ∷ xs) x h = rw (take-append_full n xs x (omega arith))

map-append_one :
    {A B : Type 0} (f : A → B) (xs : List A) (x : A)
    → map f (xs ++ (x ∷ [])) ≡ map f xs ++ (f x ∷ [])
map-append_one f [] x = refl
map-append_one f (y ∷ xs) x = rw (map-append_one f xs x)

read_one :
    (n : ℕ) (rows : List MessageRow) (row : MessageRow)
    → map map_row_to_message (take n (rows ++ (row ∷ []))) ≡ (
        if ltb (length rows) n
        then map map_row_to_message (take n rows) ++ (map_row_to_message row ∷ [])
        else map map_row_to_message (take n rows))
read_one n rows row = elim (Bool-cases (ltb (length rows) n)) [
  | inl h ↦
      rw (h, take-append_short n rows row (ground arith))
        (map-append_one map_row_to_message (take n rows) row)
  | inr h ↦ rw (h, take-append_full n rows row (ground arith)) refl
]

All-keep : {A : Type 0} (P : A → Type 0) (p : A → Bool) (xs : List A) → All P xs → All P (keep p xs)
All-keep P p [] h = tt
All-keep P p (x ∷ xs) (h, hs) = elim (Bool-cases (p x)) [
  | inl e ↦ rw e (h, All-keep P p xs hs)
  | inr e ↦ rw e (All-keep P p xs hs)
]

-- Before every row of these.
abbrev pub IsLater : MessageRow → List MessageRow → Type 0
IsLater row rows = All (λ (r : MessageRow). r.created_at < row.created_at) rows

-- A later row comes last in the ascending order, and the order neither adds nor drops a row.
abbrev pub OrdersAscending : Database → Type 0
OrdersAscending db =
    ((row : MessageRow) (rows : List MessageRow)
      → IsLater row rows
      → db.messages_asc (rows ++ (row ∷ [])) ≡ db.messages_asc rows ++ (row ∷ []))
    × ((rows : List MessageRow) → length (db.messages_asc rows) ≡ length rows)

module _ (db : Database) (orders : OrdersAscending db) where
  create_message-inserts :
      (text chat_id : String) (input : CreateMessageInput) (s t : Tables) (m : Message)
      → db.uuid_of text ≡ some chat_id
      → create_message db text input s ≡ (ok m, t)
      → (m ≡ map_row_to_message (new_row db chat_id input s))
        × (t ≡ insert_message (new_row db chat_id input s) s)
  unfolding create_message ◌>>=◌
  create_message-inserts text chat_id input s t m u e =
      elim (Option-cases (find_chat chat_id s.chats)) [
        | inl n ↦ let bad = rw (u, n) at e in cc
        | inr (chat, f) ↦ let done = rw (u, f) at e in (cc, cc)
      ]

  -- Where the database orders rows by time, and a message is stored later than all others, under a text that
  -- stands for the id of its chat: a reader of the chat gets it as the last one if the chat has fewer messages than the reader asks for, and
  -- gets the same list as before otherwise.
  pub create_message-get_messages :
      (text chat_id : String) (input : CreateMessageInput) (first : ℕ) (s t : Tables) (m : Message)
      (old : List Message)
      → db.uuid_of text ≡ some chat_id
      → IsLater (new_row db chat_id input s) s.messages
      → create_message db text input s ≡ (ok m, t)
      → get_messages db text first 0 s ≡ (ok old, s)
      → get_messages db text first 0 t ≡ (
        ok (if ltb (length (keep (is_of chat_id) s.messages)) first then old ++ (m ∷ []) else old),
        t,
      )
  unfolding get_messages ◌>>=◌
  create_message-get_messages text chat_id input first s t m old u later created read =
      let (same, after) = create_message-inserts text chat_id input s t m u created in
      let row = new_row db chat_id input s in
      let rows = keep (is_of chat_id) s.messages in
      let read_old = rw u at read in
      let kept : keep (is_of chat_id) (s.messages ++ (row ∷ [])) ≡ rows ++ (row ∷ []) =
        keep-append (is_of chat_id) s.messages (row ∷ []) ∙ rw (eq_refl chat_id) refl in
      let ordered : db.messages_asc (rows ++ (row ∷ [])) ≡ db.messages_asc rows ++ (row ∷ []) =
        orders.0 row rows (All-keep _ (is_of chat_id) s.messages later) in
      let many : length (db.messages_asc rows) ≡ length rows = orders.1 rows in
      let old_is : old ≡ map map_row_to_message (take first (db.messages_asc rows)) = cc in
      let one = rw many at (read_one first (db.messages_asc rows) row) in
      rw (after, u, kept, ordered, one, old_is, same) refl
