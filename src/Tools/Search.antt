-- ===== src/Tools/Search.antt =====
-- PerplexitySearchTool and its call: agent/src/common/tools/perplexity. The environment's token and the
-- answer of the service are parameters.
mod Examples
use Prim.Native.String
use freysa_spark_hackathon.Common.{
  Bool, true, false, Option, none, some, List, [], ◌∷◌, ◌++◌, String, Result, ok, err, Run, pure,
  throw, required, catch, ◌>>=◌, is_truthy, or_else, if◌then◌else◌,
}
use freysa_spark_hackathon.Json.{
  Json, bool, str, arr, obj, Items, nil, cons, Fields, end, field, JsonEngine,
}

pub record CompletionOptions : Type 0 where
  pub user_prompt : String
  pub model : Option String
  pub system_prompt : Option String
  pub recency_filter : Option String

-- The choices of an answer, with the content of each message, absent where a part of it is; `none` is an answer
-- without choices.
abbrev pub SearchAnswer : Type 0
SearchAnswer = Option (List (Option String))

-- fetch, given the authorization and the body, and the JSON of its answer.
abbrev pub Fetch : Type 0 → Type 0
Fetch W = String → String → Run W SearchAnswer

abbrev pub default_model : String
default_model = "llama-3.1-sonar-small-128k-online"

abbrev chat_message : String → String → Json
chat_message role content = obj (field "role" (str role) (field "content" (str content) end))

abbrev user_messages : String → Items
user_messages prompt = cons (chat_message "user" prompt) nil

abbrev pub search_messages : Option String → String → Json
search_messages none prompt = arr (user_messages prompt)
search_messages (some system) prompt =
    if is_truthy system
    then arr (cons (chat_message "system" system) (user_messages prompt))
    else arr (user_messages prompt)

-- A filter that is undefined is left out.
abbrev filtered : Option String → Fields → Fields
filtered none fields = fields
filtered (some f) fields = field "search_recency_filter" (str f) fields

unfoldable pub search_body : CompletionOptions → Json
search_body opts = obj (
    field "model" (str (or_else opts.model default_model)) (
      field "messages" (search_messages opts.system_prompt opts.user_prompt)
        (filtered opts.recency_filter (field "stream" (bool false) end))))

-- `data.choices[0]?.message?.content || ""`.
abbrev pub first_content : SearchAnswer → Result String
first_content none = err "Cannot read properties of undefined"
first_content (some []) = ok ""
first_content (some (none ∷ cs)) = ok ""
first_content (some (some c ∷ cs)) = ok c

module _ {W : Type 0} (engine : JsonEngine) (fetch : Fetch W) (token : Option String) where
  abbrev answered : SearchAnswer → Run W String
  answered answer w = (first_content answer, w)

  abbrev with_key : Option String → CompletionOptions → Run W String
  with_key none opts = throw "PERPLEXITY_API environment variable is not set"
  with_key (some key) opts =
      if is_truthy key
      then catch
          (fetch (String.◌++◌ "Bearer " key) (engine.stringify (search_body opts)) >>= answered)
          (λ e. throw "Failed to fetch completions")
      else throw "PERPLEXITY_API environment variable is not set"

  unfoldable pub search_completions : CompletionOptions → Run W String
  search_completions opts = with_key token opts

  -- The tool's execute, for its model; it passes no filter.
  unfoldable pub execute_search : Option String → String → Option String → Run W String
  execute_search model user_prompt recency_filter = search_completions (record {
    user_prompt = user_prompt;
    model = model;
    system_prompt = some "";
    recency_filter = none;
  })
