-- ===== src/Memories/Graph.antt =====
-- Neo4jMemory of agent/src/packages/memory-neo4j/neo4j.ts. The driver and the model are parameters.
pub mod Sessions
mod Examples
use freysa_spark_hackathon.Common.{
  Bool, true, false, ◌&&◌, Option, none, some, List, [], ◌∷◌, ◌++◌, map, flatten, String, Result,
  ok, err, Run, pure, throw, required, on_error, catch, ◌>>=◌, ◌>>◌, is_truthy, if◌then◌else◌,
}
use freysa_spark_hackathon.Json.{Json, JsonEngine}

-- What a record of the search holds; `related` is absent where it is null.
pub record Found : Type 0 where
  pub content : String
  pub related : Option (List String)

-- The driver's session, its closing, the vector query, and the write of a memory; the model's embedding.
pub record GraphDriver (W Handle Embedding : Type 0) : Type 0 where
  pub open_session : Run W Handle
  pub close_session : Handle → Run W (Unit {0})
  pub run_search : Handle → Embedding → Run W (List Found)
  pub execute_write : Handle → Json → Run W (Unit {0})
  pub embeddings : String → Run W Embedding

-- The environment: NEO4J_URI, NEO4J_USER and NEO4J_PASSWORD.
abbrev pub is_set : Option String → Bool
is_set none = false
is_set (some s) = is_truthy s

unfoldable pub new_memory :
    {W Driver : Type 0}
    → (String → String → String → Run W Driver)
    → Option String
    → Option String
    → Option String
    → Run W Driver
new_memory connect (some uri) (some user) (some password) =
    if is_truthy uri && (is_truthy user && is_truthy password)
    then connect uri user password
    else throw "NEO4J_URI, NEO4J_USER, and NEO4J_PASSWORD must be set"
new_memory connect _ _ _ = throw "NEO4J_URI, NEO4J_USER, and NEO4J_PASSWORD must be set"

-- `try { m } finally { cleanup }`: an error of the cleanup takes the place of what `m` gave.
module _ {W A : Type 0} where
  abbrev pub cleaned : Result A → Result (Unit {0}) × W → Result A × W
  cleaned r (ok u, w) = (r, w)
  cleaned r (err e, w) = (err e, w)

  abbrev pub finally : Run W A → Run W (Unit {0}) → Run W A
  finally m cleanup w = let (r, w') = m w in cleaned r (cleanup w')

abbrev pub or_none : Option (List String) → List String
or_none none = []
or_none (some ss) = ss

abbrev pub contents_of : Found → List String
contents_of found = found.content ∷ or_none found.related

module _ {W Handle Embedding : Type 0} (driver : GraphDriver W Handle Embedding) where
  unfoldable pub vector_search : String → Run W (List Found)
  vector_search query = do
    session ← driver.open_session
    finally (driver.embeddings query >>= driver.run_search session) (driver.close_session session)

  unfoldable pub search : String → Run W (List String)
  search query = do searches ← vector_search query; pure (flatten (map contents_of searches))

  unfoldable pub store : JsonEngine → String → Run W (Unit {0})
  store engine content = do
    parsed ← required (engine.parse content) "SyntaxError"
    session ← driver.open_session
    finally (driver.execute_write session parsed) (driver.close_session session)
