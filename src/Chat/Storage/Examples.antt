-- ===== src/Chat/Storage/Examples.antt =====
-- Runs of the Postgres storage.
use freysa_spark_hackathon.Common.{arith, ◌≡◌, refl, List, [], ◌∷◌, map, ok, ◌>>=◌}
use freysa_spark_hackathon.Chat.Types.{Message}
use freysa_spark_hackathon.Chat.Storage.{
  Tables, new_row, insert_message, find_chat, map_row_to_message,
}
use freysa_spark_hackathon.Chat.Storage.Postgres.{
  update_chat_title, get_messages, delete_chat, create_message,
}
use freysa_spark_hackathon.Chat.Storage.Links.{
  Call, create_message_call, update_title_call, delete_chat_call, after_calls,
}
use freysa_spark_hackathon.Chat.Storage.Windows.{create_message-get_messages}
use freysa_spark_hackathon.Chat.Storage.Threads.{store_of}
use freysa_spark_hackathon.Chat.Storage.Runs.{stamped, store_after_calls, after_calls-Refines}
use freysa_spark_hackathon.Chat.Storage.Samples.{read_id, database, input, one_row, removed}

-- The second message, which a reader of one message never sees.
abbrev second : Message
second = map_row_to_message (new_row database "c" input one_row)

created :
    create_message database "C" input one_row
    ≡ (ok second, insert_message (new_row database "c" input one_row) one_row)
unfolding create_message ◌>>=◌ find_chat
created = refl

read :
    get_messages database "C" 1 0 one_row ≡ (ok (map map_row_to_message one_row.messages), one_row)
unfolding get_messages ◌>>=◌
read = refl

create_message-get_messages_example :
    get_messages database "C" 1 0 (insert_message (new_row database "c" input one_row) one_row) ≡ (
      ok (map map_row_to_message one_row.messages),
      insert_message (new_row database "c" input one_row) one_row,
    )
create_message-get_messages_example =
    create_message-get_messages database (λ row rows later. refl, λ rows. refl) "C" "c" input 1
      one_row (insert_message (new_row database "c" input one_row) one_row) second
      (map map_row_to_message one_row.messages) refl (omega arith, tt) created read

abbrev calls : List Call
calls =
    create_message_call "c" input
    ∷ create_message_call "d" input
    ∷ update_title_call "c" "new"
    ∷ delete_chat_call "c"
    ∷ []

-- The tables after the only chat is deleted.
abbrev emptied : Tables
emptied = record { chats = []; messages = [] }

deleted : delete_chat database "C" one_row ≡ (ok removed, emptied)
unfolding delete_chat get_messages ◌>>=◌ find_chat
deleted = refl

-- A message, one for a chat that is not stored, and a new title.
abbrev edits : List Call
edits =
    create_message_call "c" input ∷ create_message_call "d" input ∷ update_title_call "C" "new" ∷ []

after_calls-Refines_example :
    store_of (after_calls database edits one_row)
    ≡ store_after_calls read_id (stamped database edits one_row) (store_of one_row)
unfolding find_chat create_message update_chat_title ◌>>=◌
after_calls-Refines_example =
    after_calls-Refines database edits one_row (refl, tt) (refl, (refl, (refl, tt)))
