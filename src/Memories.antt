-- ===== src/Memories.antt =====
-- The memories on vector tables: SQLiteMemory of agent/src/common/memory/sqlite.ts and PostgresMemory of
-- agent/src/packages/memory-postgres/index.ts, over embeddings of agent/src/common/models/openai.ts and
-- chunkText of agent/src/common/utils/chunker.ts. The embedding service and the database are
-- parameters. The ids of the Postgres rows are left out.
pub mod Stores
pub mod Graph
mod Examples
use mathlib.Core.Option
use freysa_spark_hackathon.Common.{
  ℕ, Bool, true, false, Option, none, some, List, [], ◌∷◌, ◌++◌, map, String, ok, Run, pure, throw,
  catch, ◌>>=◌, ◌>>◌, take, Text,
}
use freysa_spark_hackathon.Utils.Chunker.{chunk_text}

-- client.embeddings.create: the embeddings of the response's data, where it has any.
abbrev pub EmbeddingClient : Type 0 → Type 0 → Type 0
EmbeddingClient W F = Text → Run W (Option (List (Option (List F))))

-- `embedding.data?.[0]?.embedding ?? []`.
abbrev pub first_embedding : {F : Type 0} → Option (List (Option (List F))) → List F
first_embedding (some (some embedding ∷ rest)) = embedding
first_embedding _ = []

-- OAICompatibleModel.embeddings.
unfoldable pub embeddings : {W F : Type 0} → EmbeddingClient W F → Text → Run W (List F)
embeddings client input = do response ← client input; pure (first_embedding response)

abbrev pub Item : Type 0 → Type 0
Item F = Text × List F

-- The table's side: the embeddings that an INSERT takes, what it throws at others, and the rows in the
-- order of their distance from an embedding, or none where that query throws.
pub record VectorTable (F : Type 0) : Type 0 where
  pub takes : List F → Bool
  pub mismatch : String
  pub by_distance : List F → List (Item F) → Option (List (Item F))

-- The rows of the table, and what the embedding service sees.
pub record Memory (W F : Type 0) : Type 0 where
  pub items : List (Item F)
  pub world : W

-- The default of chunkText.
abbrev pub chunk_size : ℕ
chunk_size = 1000

module _ {W F : Type 0} (client : EmbeddingClient W F) (table : VectorTable F) where
  unfoldable pub embed : Text → Run (Memory W F) (List F)
  embed input s = let (r, w) = embeddings client input s.world in (r, record s { world = w })

  abbrev pub insert_row : Bool → Text → List F → Run (Memory W F) (Unit {0})
  insert_row true chunk embedding s =
      (ok tt, record s { items = s.items ++ ((chunk, embedding) ∷ []) })
  insert_row false chunk embedding s = throw table.mismatch s

  abbrev pub sqlite_insert : Text → List F → Run (Memory W F) (Unit {0})
  sqlite_insert chunk embedding = insert_row (table.takes embedding) chunk embedding

  -- The error is logged.
  abbrev pub postgres_insert : Text → List F → Run (Memory W F) (Unit {0})
  postgres_insert chunk embedding = catch (sqlite_insert chunk embedding) (λ _. pure tt)

  -- `for (const chunk of chunks)`.
  unfoldable pub store_each :
      (Text → List F → Run (Memory W F) (Unit {0})) → List Text → Run (Memory W F) (Unit {0})
  store_each insert [] = pure tt
  store_each insert (chunk ∷ chunks) = do
    embedding ← embed chunk
    insert chunk embedding
    store_each insert chunks

  -- store, with the fuel for chunkText: none where it does not suffice.
  unfoldable pub sqlite_store : ℕ → Text → Option (Run (Memory W F) (Unit {0}))
  sqlite_store fuel content =
      Option.map (store_each sqlite_insert) (chunk_text fuel content chunk_size)

  unfoldable pub postgres_store : ℕ → Text → Option (Run (Memory W F) (Unit {0}))
  postgres_store fuel content =
      Option.map (store_each postgres_insert) (chunk_text fuel content chunk_size)

  abbrev pub content : Item F → Text
  content item = item.0

  abbrev pub rows_of : Option (List (Item F)) → Run (Memory W F) (List Text)
  rows_of none = throw "the query failed"
  rows_of (some rows) = pure (map content (take 5 rows))

  abbrev pub find_rows : List F → Run (Memory W F) (List Text)
  find_rows embedding s = rows_of (table.by_distance embedding s.items) s

  unfoldable pub sqlite_search : Text → Run (Memory W F) (List Text)
  sqlite_search query = embed query >>= find_rows

  unfoldable pub postgres_search : Text → Run (Memory W F) (List Text)
  postgres_search query = do embedding ← embed query; catch (find_rows embedding) (λ _. pure [])
