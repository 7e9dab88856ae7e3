-- ===== src/Tools/Search/Examples.antt =====
-- A search with a token, and one without.
use freysa_spark_hackathon.Common.{
  ◌≡◌, refl, none, some, List, [], ◌∷◌, String, ok, err, Run, ◌>>=◌,
}
use freysa_spark_hackathon.Json.{JsonEngine}
use freysa_spark_hackathon.Tools.Search.{SearchAnswer, search_completions, execute_search}

abbrev engine : JsonEngine
engine = record { parse = λ t. none; stringify = λ j. "{}" }

-- The world is the authorizations that were sent.
abbrev fetch : String → String → Run (List String) SearchAnswer
fetch authorization body w = (ok (some (some "rain" ∷ [])), authorization ∷ w)

found :
    execute_search engine fetch (some "key") none "weather" none [] ≡ (ok "rain", "Bearer key" ∷ [])
unfolding execute_search search_completions ◌>>=◌
found = refl

no_token :
    execute_search engine fetch none none "weather" none []
    ≡ (err "PERPLEXITY_API environment variable is not set", [])
unfolding execute_search search_completions
no_token = refl
