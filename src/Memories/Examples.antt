-- ===== src/Memories/Examples.antt =====
-- Runs of both memories, with a service that answers and one that does not.
use freysa_spark_hackathon.Common.{
  ℕ, suc, ◌≡◌, refl, Bool, true, false, none, some, List, [], ◌∷◌, ok, Text, keep, flatten,
}
use freysa_spark_hackathon.Utils.Chunker.{
  chunk_text, chunk_from, end_index, trim, trim_start, trim_end, is_space,
}
use freysa_spark_hackathon.Utils.Chunker.Content.{is_mark}
use freysa_spark_hackathon.Memories.{
  EmbeddingClient, VectorTable, Memory, sqlite_store, store_each, sqlite_insert,
}
use freysa_spark_hackathon.Memories.Stores.{Stored, sqlite_store-Stored}

-- The embedding of a text is its units, and the service counts its calls.
abbrev units : EmbeddingClient ℕ ℕ
units input n = (ok (some (some input ∷ [])), suc n)

abbrev silent : EmbeddingClient ℕ ℕ
silent input n = (ok none, suc n)

abbrev takes : List ℕ → Bool
takes [] = false
takes (c ∷ cs) = true

abbrev table : VectorTable ℕ
table = record {
  takes = takes;
  mismatch = "Dimension mismatch";
  by_distance = λ embedding items. some items;
}

abbrev hello : Text
hello = b'h' ∷ b'e' ∷ b'l' ∷ b'l' ∷ b'o' ∷ []

abbrev empty : Memory ℕ ℕ
empty = record { items = []; world = 0 }

sqlite_store-Stored_example :
    (chunks : List Text) × (keep is_mark (flatten chunks) ≡ keep is_mark hello)
    × Stored chunks empty (store_each units table (sqlite_insert units table) (hello ∷ []) empty)
unfolding sqlite_store chunk_text chunk_from end_index trim trim_start trim_end is_space
sqlite_store-Stored_example =
    sqlite_store-Stored units table 3 hello
      (store_each units table (sqlite_insert units table) (hello ∷ [])) empty refl
