-- ===== src/Chat/Storage/Reads.antt =====
-- The operations of the Postgres storage that only read leave the tables as they are.
use freysa_spark_hackathon.Common.{
  ◌≡◌, refl, ◌∙◌, ℕ, Option, none, some, List, [], ◌∷◌, String, Keeps, Keeps-bind, Keeps-required,
  required, Run, ◌>>=◌,
}
use freysa_spark_hackathon.Chat.Storage.{ChatRow, Tables, Database}
use freysa_spark_hackathon.Chat.Storage.Postgres.{
  id_param, select_chat, get_messages, with_messages, if_found, get_chat, each_with_messages,
  get_chats,
}

abbrev pub Same : Tables → Tables → Type 0
Same s t = t ≡ s

pub bind-Same :
    {A B : Type 0} (m : Run Tables A) (f : A → Run Tables B)
    → Keeps Same m
    → ((a : A) → Keeps Same (f a))
    → Keeps Same (m >>= f)
bind-Same m f = Keeps-bind Same (λ s. refl) (λ s t u g k. k ∙ g) m f

pub required-Same : {A : Type 0} (o : Option A) (e : String) → Keeps Same (required o e)
required-Same o e = Keeps-required Same (λ s. refl) (λ s t u g k. k ∙ g) o e

module _ (db : Database) where
  pub id_param-Same : (id : String) → Keeps Same (id_param db id)
  id_param-Same id = required-Same (db.uuid_of id) _

  pub select_chat-Same : (id : String) → Keeps Same (select_chat db id)
  select_chat-Same id = bind-Same _ _ (id_param-Same id) (λ u s. refl)

  pub get_messages-Same :
      (id : String) (first offset : ℕ) → Keeps Same (get_messages db id first offset)
  unfolding get_messages
  get_messages-Same id first offset = bind-Same _ _ (id_param-Same id) (λ u s. refl)

  pub with_messages-Same : (id : String) (row : ChatRow) → Keeps Same (with_messages db id row)
  with_messages-Same id row = bind-Same _ _ (get_messages-Same id 100 0) (λ ms s. refl)

  if_found-Same : (id : String) (o : Option ChatRow) → Keeps Same (if_found db id o)
  if_found-Same id none s = refl
  if_found-Same id (some row) s = bind-Same _ _ (with_messages-Same id row) (λ chat s. refl) s

  pub get_chat-Same : (id : String) → Keeps Same (get_chat db id)
  unfolding get_chat
  get_chat-Same id = bind-Same _ _ (select_chat-Same id) (if_found-Same id)

  each-Same : (rows : List ChatRow) → Keeps Same (each_with_messages db rows)
  unfolding each_with_messages
  each-Same [] s = refl
  each-Same (row ∷ rows) s =
      bind-Same _ _ (with_messages-Same row.id row)
        (λ chat. bind-Same _ _ (each-Same rows) (λ chats s. refl)) s

  pub get_chats-Same :
      (first offset : ℕ) (user_id : String) → Keeps Same (get_chats db first offset user_id)
  unfolding get_chats
  get_chats-Same first offset user_id s = each-Same _ s
