-- ===== src/Chat/Storage/Samples.antt =====
-- A database and its tables, for the runs of the storage.
use text.Mathlib.Text.{◌==◌ as str_eq}
use freysa_spark_hackathon.Common.{Option, String, if◌then◌else◌, none, some, [], ◌∷◌, map}
use freysa_spark_hackathon.Chat.Types.{Chat, user, CreateMessageInput}
use freysa_spark_hackathon.Chat.Storage.{
  Tables, Database, new_row, insert_message, map_row_to_message,
}

-- Every text is an id, and C is another way to write the id c.
abbrev pub read_id : String → Option String
read_id text = if str_eq text "C" then some "c" else some text

abbrev pub database : Database
database = record {
  uuid = λ s. "uuid";
  now = λ s. 2;
  messages_asc = λ rows. rows;
  messages_desc = λ rows. rows;
  chats_desc = λ rows. rows;
  uuid_of = read_id;
  last_insert_rowid = λ s. "1";
}

abbrev pub input : CreateMessageInput
input = record {
  text = some "hello";
  role = user;
  image_urls = some [];
  tool_calls = some [];
  tool_args = none;
}

abbrev pub no_rows : Tables
no_rows = record {
  chats = (record { id = "c"; name = "chat"; user_id = "alice"; created_at = 0 }) ∷ [];
  messages = [];
}

abbrev pub one_row : Tables
one_row = insert_message (record (new_row database "c" input no_rows) { created_at = 1 }) no_rows

abbrev pub removed : Chat
removed = record {
  id = "c";
  name = "chat";
  created_at = 0;
  messages = map map_row_to_message one_row.messages;
}
