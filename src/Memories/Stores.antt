-- ===== src/Memories/Stores.antt =====
-- What a call of store leaves in the table.
use mathlib.Core.Option
use mathlib.Core.Path.{subst}
use freysa_spark_hackathon.Common.{
  ℕ, ◌≡◌, refl, sym, ap, ◌∙◌, Bool, true, false, some, List, [], ◌∷◌, ◌++◌, map, String, Result, ok,
  err, Run, go_on, ◌>>=◌, Text, keep, flatten, append_assoc,
}
use freysa_spark_hackathon.Utils.Chunker.Content.{is_mark, chunk_text_content}
use freysa_spark_hackathon.Memories.{
  EmbeddingClient, Item, VectorTable, Memory, embed, insert_row, sqlite_insert, postgres_insert,
  store_each, chunk_size, sqlite_store, postgres_store, embeddings,
}

abbrev pub contents : {F : Type 0} → List (Item F) → List Text
contents items = map (λ item. item.0) items

-- The table holds the chunks that were stored, after what it held; an error leaves some of them.
abbrev pub Stored :
    {W F : Type 0} → List Text → Memory W F → Result (Unit {0}) × Memory W F → Type 0
Stored chunks s (ok u, t) = contents t.items ≡ contents s.items ++ chunks
Stored chunks s (err e, t) =
    (before : List Text) × (chunk : Text) × (after : List Text) × (chunks
      ≡ before ++ (chunk ∷ after))
    × (contents t.items ≡ contents s.items ++ before)

append-nothing : {A : Type 0} (xs : List A) → xs ++ [] ≡ xs
append-nothing [] = refl
append-nothing (x ∷ xs) = rw (append-nothing xs)

contents-append :
    {F : Type 0} (xs : List (Item F)) (x : Item F)
    → contents (xs ++ (x ∷ [])) ≡ contents xs ++ (x.0 ∷ [])
contents-append [] x = refl
contents-append (y ∷ xs) x = rw (contents-append xs x)

module _ {W F : Type 0} (client : EmbeddingClient W F) (table : VectorTable F) where
  -- One chunk was stored before the others.
  Stored-more :
      (chunk : Text) (chunks : List Text) (embedding : List F) (s : Memory W F)
      (r : Result (Unit {0}) × Memory W F)
      → Stored chunks (record s { items = s.items ++ ((chunk, embedding) ∷ []) }) r
      → Stored (chunk ∷ chunks) s r
  Stored-more chunk chunks embedding s (ok u, t) h =
      h
      ∙ ap (λ cs. cs ++ chunks) (contents-append s.items (chunk, embedding))
      ∙ append_assoc (contents s.items) _ chunks
  Stored-more chunk chunks embedding s (err e, t) (before, one, after, parts, h) = (
    chunk ∷ before,
    one,
    after,
    ap (λ cs. chunk ∷ cs) parts,
    h
        ∙ ap (λ cs. cs ++ before) (contents-append s.items (chunk, embedding))
        ∙ append_assoc (contents s.items) _ before,
  )

  -- Nothing was stored of a chunk whose embedding or insertion throws.
  Stored-nothing :
      (chunk : Text) (chunks : List Text) (e : String) (s : Memory W F) (w : W)
      → Stored (chunk ∷ chunks) s (err e, record s { world = w })
  Stored-nothing chunk chunks e s w =
      ([], chunk, chunks, refl, sym (append-nothing (contents s.items)))

  inserted-Stored :
      (b : Bool) (chunk : Text) (chunks : List Text) (embedding : List F) (s : Memory W F)
      → ((t : Memory W F)
          → Stored chunks t (store_each client table (sqlite_insert client table) chunks t))
      → Stored (chunk ∷ chunks) s (
          go_on
            (λ _. store_each client table (sqlite_insert client table) chunks)
            (insert_row client table b chunk embedding s))
  inserted-Stored true chunk chunks embedding s rest =
      Stored-more chunk chunks embedding s _ (rest _)
  inserted-Stored false chunk chunks embedding s rest =
      Stored-nothing chunk chunks table.mismatch s s.world

  sqlite_each-Stored :
      (chunks : List Text) (s : Memory W F)
      → Stored chunks s (store_each client table (sqlite_insert client table) chunks s)
  unfolding store_each embed ◌>>=◌
  sqlite_each-Stored [] s = sym (append-nothing (contents s.items))
  sqlite_each-Stored (chunk ∷ chunks) s =
      go (embeddings client chunk s.world) (sqlite_each-Stored chunks)
    where
      go :
          (r : Result (List F) × W)
          → ((t : Memory W F)
              → Stored chunks t (store_each client table (sqlite_insert client table) chunks t))
          → Stored (chunk ∷ chunks) s (
              go_on
                (λ embedding. sqlite_insert client table chunk embedding >>= λ _.
                  store_each client table (sqlite_insert client table) chunks)
                (r.0, record s { world = r.1 }))
      go (ok embedding, w) rest =
          inserted-Stored (table.takes embedding) chunk chunks embedding (record s { world = w })
            rest
      go (err e, w) rest = Stored-nothing chunk chunks e s w

  -- Where chunkText returns: a call of store of the SQLite memory that returns has added the chunks, which
  -- together hold the content but white space in order; one that throws has added the chunks before one of
  -- them.
  pub sqlite_store-Stored :
      (fuel : ℕ) (text : Text) (run : Run (Memory W F) (Unit {0})) (s : Memory W F)
      → sqlite_store client table fuel text ≡ some run
      → (chunks : List Text) × (keep is_mark (flatten chunks) ≡ keep is_mark text)
        × Stored chunks s (run s)
  unfolding sqlite_store
  sqlite_store-Stored fuel text run s e =
      let (chunks, cut, same) = (Option.map-eq-some_iff _ _).0 e in
      (
        chunks,
        chunk_text_content fuel text chunk_size chunks cut,
        subst (λ m. Stored chunks s (m s)) same (sqlite_each-Stored chunks s),
      )

  -- The embedding service answers every text, but without data.
  abbrev pub IsSilent : Type 0
  IsSilent = (text : Text) (w : W) → (v : W) × (embeddings client text w ≡ (ok [], v))

  postgres_each_silent :
      (chunks : List Text) (s : Memory W F)
      → IsSilent
      → table.takes [] ≡ false
      → (t : Memory W F) × (store_each client table (postgres_insert client table) chunks s
          ≡ (ok tt, t))
        × (t.items ≡ s.items)
  unfolding store_each embed ◌>>=◌
  postgres_each_silent [] s silent refuses = (s, refl, refl)
  postgres_each_silent (chunk ∷ chunks) s silent refuses =
      let (v, answer) = silent chunk s.world in
      let (t, rest, same) = postgres_each_silent chunks (record s { world = v }) silent refuses in
      (t, rw (answer, refuses) rest, same)

  -- Where chunkText returns, the embedding service answers without data and the table takes no empty
  -- embedding: a call of store of the Postgres memory returns, and nothing is stored.
  pub postgres_store_silent :
      (fuel : ℕ) (text : Text) (run : Run (Memory W F) (Unit {0})) (s : Memory W F)
      → postgres_store client table fuel text ≡ some run
      → IsSilent
      → table.takes [] ≡ false
      → (t : Memory W F) × (run s ≡ (ok tt, t)) × (t.items ≡ s.items)
  unfolding postgres_store
  postgres_store_silent fuel text run s e silent refuses =
      let (chunks, cut, same) = (Option.map-eq-some_iff _ _).0 e in
      let (t, done, kept) = postgres_each_silent chunks s silent refuses in
      (t, ap (λ m. m s) (sym same) ∙ done, kept)
