-- ===== src/Tools/Twitter/Examples.antt =====
-- A service that knows one user, and throws where it is asked for more than 100 tweets.
use freysa_spark_hackathon.Common.{
  ℕ, ltb, false, ◌≤◌, ◌≡◌, refl, Option, none, some, List, String, ok, err, Run, pure, throw,
  if◌then◌else◌, ◌>>=◌, arith,
}
use freysa_spark_hackathon.Json.{Json}
use freysa_spark_hackathon.Tools.Twitter.{
  ℤ, pos, negsuc, Tweet, TwitterApi, get_latest_tweets, get_latest_mentions, post_tweet,
  fetch_tweets, fetch_mentions,
}
use freysa_spark_hackathon.Tools.Twitter.Answers.{get_latest_tweets_in_range}

abbrev timeline : String → String → ℤ → Option String → Run ℕ (Option (List Tweet))
timeline client id count time w = (ok none, w)

abbrev picky : String → String → ℤ → Option String → Run ℕ (Option (List Tweet))
picky client id (pos n) time w = if ltb 100 n then (err "400", w) else (ok none, w)
picky client id (negsuc n) time w = (err "400", w)

abbrev api : TwitterApi ℕ String
api = record {
  connect = pure "client";
  user_by_username = λ client handle. pure (some "1");
  user_timeline = picky;
  tweet = λ client content. throw "403";
  search = λ client query count time. pure none;
  start_time = λ s. some s;
}

abbrev pretty : Json → String
pretty j = "[]"

abbrev shown : String → String
shown e = e

latest_run :
    get_latest_tweets api pretty shown "alice" (negsuc 3) none 0
    ≡ (ok "No tweets found for @alice", 0)
unfolding get_latest_tweets fetch_tweets ◌>>=◌
latest_run = refl

post_run : post_tweet api pretty shown "hi" 0 ≡ (ok "Error posting tweet: 403", 0)
unfolding post_tweet ◌>>=◌
post_run = refl

-- The tool for mentions takes the absent list for an error.
mentions_run :
    get_latest_mentions api pretty shown "alice" (pos 10) none 0
    ≡ (ok "Error: Unable to retrieve mentions for @alice", 0)
unfolding get_latest_mentions fetch_mentions ◌>>=◌
mentions_run = refl

in_range : (n : ℕ) → n ≤ 100 → ltb 100 n ≡ false
in_range n h = ground arith

agree :
    (client id : String) (n : ℕ) (time : Option String)
    → 5 ≤ n
    → n ≤ 100
    → picky client id (pos n) time ≡ timeline client id (pos n) time
agree client id n time low high i w = at_world w i
  where
    at_world : (w : ℕ) → picky client id (pos n) time w ≡ timeline client id (pos n) time w
    at_world w = rw (in_range n high) refl

get_latest_tweets_in_range_example :
    get_latest_tweets api pretty shown "alice" (pos 500) none
    ≡ get_latest_tweets
        (record api { user_timeline = timeline })
        pretty
        shown
        "alice"
        (pos 500)
        none
get_latest_tweets_in_range_example =
    get_latest_tweets_in_range api pretty shown timeline agree "alice" (pos 500) none
