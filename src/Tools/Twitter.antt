-- ===== src/Tools/Twitter.antt =====
-- The tools of agent/src/common/tools/twitter.ts. The client of the service is a parameter, with the time that
-- `new Date(text).toISOString()` makes of a text, and the text of a thrown error. A count is an integer.
pub mod Answers
mod Examples
use Prim.Native.String
use Prim.Native.Nat.{min, max}
use freysa_spark_hackathon.Common.{
  ℕ, Option, none, some, List, [], ◌∷◌, map, String, Result, ok, err, Run, pure, throw, required,
  catch, ◌>>=◌, is_truthy, if◌then◌else◌,
}
use freysa_spark_hackathon.Json.{Json, Items, nil, cons, arr, obj, str, field, end}

-- Integers over the native numbers.
pub data ℤ : Type 0 where
  pos negsuc : ℕ → ℤ

pub record Tweet : Type 0 where
  pub id : String
  pub author_id : String
  pub created_at : String
  pub text : String

-- `connect` makes a client; an absent list is `data.data` where the service has found nothing.
pub record TwitterApi (W Client : Type 0) : Type 0 where
  pub connect : Run W Client
  pub user_by_username : Client → String → Run W (Option String)
  pub user_timeline : Client → String → ℤ → Option String → Run W (Option (List Tweet))
  pub tweet : Client → String → Run W String
  pub search : Client → String → ℤ → Option String → Run W (Option (List Tweet))
  pub start_time : String → Option String

-- `Math.min(Math.max(count, 5), 100)`.
abbrev pub number_of_results : ℤ → ℕ
number_of_results (pos n) = min (max n 5) 100
number_of_results (negsuc n) = 5

abbrev pub plain_tweet : Tweet → Json
plain_tweet t = obj (field "created_at" (str t.created_at) (field "text" (str t.text) end))

abbrev pub mention : Tweet → Json
mention t = obj (
    field "id" (str t.id) (
      field "text" (str t.text)
        (field "author_id" (str t.author_id) (field "created_at" (str t.created_at) end))))

abbrev pub items_of : List Json → Items
items_of [] = nil
items_of (j ∷ js) = cons j (items_of js)

-- `since`, where it is not empty.
abbrev pub given : Option String → Option String
given none = none
given (some s) = if is_truthy s then some s else none

abbrev since_text : Option String → String
since_text none = ""
since_text (some s) = String.◌++◌ " since " s

abbrev pub no_tweets : String → Option String → String
no_tweets handle since = String.◌++◌ "No tweets found for @" (String.◌++◌ handle (since_text since))

module _ {W Client : Type 0} (api : TwitterApi W Client) (pretty : Json → String)
    (shown : String → String) where
  -- The option `start_time`; a text that is no date is a RangeError.
  abbrev pub start_of : Option String → Run W (Option String)
  start_of none = pure none
  start_of (some since) =
      required (api.start_time since) "Invalid time value" >>= λ time. pure (some time)

  abbrev pub report_tweets : String → Option String → Option (List Tweet) → String
  report_tweets handle since none = no_tweets handle since
  report_tweets handle since (some []) = no_tweets handle since
  report_tweets handle since (some (t ∷ ts)) = pretty (arr (items_of (map plain_tweet (t ∷ ts))))

  unfoldable pub fetch_tweets : Client → String → ℤ → Option String → Run W String
  fetch_tweets client handle count since = do
    user ← api.user_by_username client handle
    id ← required user (String.◌++◌ "User @" (String.◌++◌ handle " not found"))
    time ← start_of (given since)
    tweets ← api.user_timeline client id (pos (number_of_results count)) time
    pure (report_tweets handle (given since) tweets)

  unfoldable pub get_latest_tweets : String → ℤ → Option String → Run W String
  get_latest_tweets handle count since = do
    client ← api.connect
    catch (fetch_tweets client handle count since) (λ e. pure (String.◌++◌ "Error: " (shown e)))

  unfoldable pub post_tweet : String → Run W String
  post_tweet content =
      catch
        (do
          client ← api.connect
          id ← api.tweet client content
          pure (String.◌++◌ "Successfully posted tweet with ID: " id))
        (λ e. pure (String.◌++◌ "Error posting tweet: " (shown e)))

  unfoldable pub fetch_mentions : Client → String → ℤ → Option String → Run W String
  fetch_mentions client handle count since = do
    time ← start_of (given since)
    found ← api.search client (String.◌++◌ "@" handle) count time
    tweets ← required found "Cannot read properties of undefined"
    pure (pretty (arr (items_of (map mention tweets))))

  unfoldable pub get_latest_mentions : String → ℤ → Option String → Run W String
  get_latest_mentions handle count since = do
    client ← api.connect
    catch (fetch_mentions client handle count since)
        (λ e. pure (String.◌++◌ "Error: Unable to retrieve mentions for @" handle))
