-- ===== src/Memories/Graph/Examples.antt =====
-- A driver whose world is the number of its open sessions.
use freysa_spark_hackathon.Common.{
  ℕ, suc, ◌-◌, ◌≡◌, refl, sym, ap, none, some, [], ◌∷◌, String, ok, err, pure, throw, ◌>>=◌,
}
use freysa_spark_hackathon.Json.{null, JsonEngine}
use freysa_spark_hackathon.Memories.Graph.{GraphDriver, vector_search, search, store}
use freysa_spark_hackathon.Memories.Graph.Sessions.{OpenSessions, count, no_session_stays}

-- The model fails at the empty text, and every write fails.
abbrev driver : GraphDriver ℕ String String
driver = record {
  open_session = λ n. (ok "s", suc n);
  close_session = λ s n. (ok tt, n - 1);
  run_search = λ s v. pure (
      record { content = "a"; related = some ("b" ∷ []) }
      ∷ record { content = "c"; related = none }
      ∷ []);
  execute_write = λ s j. throw "Neo4jError";
  embeddings = λ text. pure text;
}

search_run : search driver "who" 0 ≡ (ok ("a" ∷ "b" ∷ "c" ∷ []), 0)
unfolding search vector_search ◌>>=◌
search_run = refl

opened : (s : String) (n m : ℕ) → driver.open_session n ≡ (ok s, m) → m ≡ suc n
opened s n m e = ap (λ r. r.1) (sym e)

never : (e : String) (n m : ℕ) → driver.open_session n ≡ (err e, m) → m ≡ n
never e n m h = cc

sessions : OpenSessions driver
sessions = record {
  count = λ n. n;
  opened = opened;
  not_opened = never;
  closed = λ s n. refl;
  by_search = λ s v n. refl;
  by_write = λ s j n. refl;
  by_model = λ text n. refl;
}

abbrev engine : JsonEngine
engine = record { parse = λ t. some null; stringify = λ j. "null" }

no_session_stays_example :
    (count sessions (search driver "who" 0).1 ≡ 0)
    × (count sessions (store driver engine "null" 0).1 ≡ 0)
unfolding sessions
no_session_stays_example = no_session_stays sessions engine "who" "null" 0
