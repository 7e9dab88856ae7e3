-- ===== src/Models/Examples.antt =====
-- A library that answers without a temperature, and one that answers always.
use freysa_spark_hackathon.Common.{
  ℕ, ◌≡◌, refl, Option, none, some, List, [], ◌∷◌, String, Run, ok, pure, throw, ◌>>=◌,
}
use freysa_spark_hackathon.Json.{JsonEngine}
use freysa_spark_hackathon.Agent.{Choice}
use freysa_spark_hackathon.Models.{OpenAi, OaiCompatibleModel, new_model, tool_completions}

abbrev answer : List Choice
answer = record { content = some "hello"; tool_calls = none } ∷ []

abbrev by_temperature : Option String → Run ℕ (List Choice)
by_temperature none = pure answer
by_temperature (some t) = throw "unsupported"

abbrev strict : OpenAi ℕ
strict options name call = by_temperature call.temperature

abbrev lenient : OpenAi ℕ
lenient options name call = pure answer

model : OaiCompatibleModel
model = new_model "gpt-4o-mini" none (some "") none (some "key")

abbrev engine : JsonEngine
engine = record { parse = λ t. none; stringify = λ j. "{}" }

key_run : model.options.api_key ≡ some "key"
unfolding model new_model
key_run = refl

no_calls_run :
    tool_completions lenient model
      (record { messages = []; tools = []; tool_choice = none; temperature = none })
      0
    ≡ (ok [], 0)
unfolding tool_completions ◌>>=◌
no_calls_run = refl
