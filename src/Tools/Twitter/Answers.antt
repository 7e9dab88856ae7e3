-- ===== src/Tools/Twitter/Answers.antt =====
-- What the Twitter tools answer, and what they ask of the service.
use Prim.Native.String
use freysa_spark_hackathon.Common.{
  ℕ, ◌≤◌, ◌≡◌, refl, ◌∙◌, ap, Option, List, String, Result, ok, err, Run, pure, required, on_error,
  catch, ◌>>=◌, arith, bind-ok,
}
use freysa_spark_hackathon.Json.{Json}
use freysa_spark_hackathon.Tools.Twitter.{
  ℤ, pos, negsuc, Tweet, TwitterApi, number_of_results, given, start_of, report_tweets,
  fetch_tweets, get_latest_tweets, post_tweet, fetch_mentions, get_latest_mentions,
}

caught-ok :
    {W A : Type 0} (handler : String → A) (r : Result A × W)
    → (a : A) × ((on_error (λ e. pure (handler e)) r) ≡ (ok a, r.1))
caught-ok handler (ok a, w) = (a, refl)
caught-ok handler (err e, w) = (handler e, refl)

number_of_results-bounds :
    (count : ℤ) → (5 ≤ number_of_results count) × (number_of_results count ≤ 100)
number_of_results-bounds (pos n) = (omega arith, omega arith)
number_of_results-bounds (negsuc n) = (omega arith, omega arith)

module _ {W Client : Type 0} (api : TwitterApi W Client) (pretty : Json → String)
    (shown : String → String) where
  -- Where a client can be made, each of the three tools returns a text, whatever the service does; the
  -- tool that posts returns one also where no client can be made.
  pub tools_answer :
      (client : Client) (w w1 : W) (handle content : String) (count : ℤ) (since : Option String)
      → api.connect w ≡ (ok client, w1)
      → ((t : String) × (w2 : W) × (get_latest_tweets api pretty shown handle count since w
            ≡ (ok t, w2)))
        × ((t : String) × (w2 : W) × (get_latest_mentions api pretty shown handle count since w
              ≡ (ok t, w2)))
        × ((v : W) → (t : String) × (w2 : W) × (post_tweet api pretty shown content v ≡ (ok t, w2)))
  unfolding get_latest_tweets get_latest_mentions post_tweet
  tools_answer client w w1 handle content count since made =
      let (t, e) = caught-ok _ (fetch_tweets api pretty shown client handle count since w1) in
      let (u, f) = caught-ok _ (fetch_mentions api pretty shown client handle count since w1) in
      (
        (t, _, bind-ok _ _ w made ∙ e),
        (u, _, bind-ok _ _ w made ∙ f),
        λ v. let (x, g) = caught-ok _ _ in (x, _, g),
      )

  abbrev FetchOf : Type 0
  FetchOf = Client → String → Option String → Run W (Option (List Tweet))

  -- What get_latest_tweets is, as a function of its one question for a timeline.
  abbrev latest : FetchOf → String → Option String → Run W String
  latest ask handle since = do
    client ← api.connect
    catch
        (do
          user ← api.user_by_username client handle
          id ← required user (String.◌++◌ "User @" (String.◌++◌ handle " not found"))
          time ← start_of api pretty shown (given since)
          tweets ← ask client id time
          pure (report_tweets api pretty shown handle (given since) tweets))
        (λ e. pure (String.◌++◌ "Error: " (shown e)))

  -- Whatever integer the model asks for, the tool for the latest tweets asks the service for 5 to 100 of
  -- them: what a service does for any other number makes no difference to the tool.
  pub get_latest_tweets_in_range :
      (timeline : Client → String → ℤ → Option String → Run W (Option (List Tweet)))
      → ((client : Client) (id : String) (n : ℕ) (time : Option String)
          → 5 ≤ n
          → n ≤ 100
          → api.user_timeline client id (pos n) time ≡ timeline client id (pos n) time)
      → (handle : String) (count : ℤ) (since : Option String)
      → get_latest_tweets api pretty shown handle count since
        ≡ get_latest_tweets
            (record api { user_timeline = timeline })
            pretty
            shown
            handle
            count
            since
  unfolding get_latest_tweets fetch_tweets
  get_latest_tweets_in_range timeline agree handle count since =
      let (low, high) = number_of_results-bounds count in
      ap (λ ask. latest ask handle since)
        (λ i client id time. agree client id (number_of_results count) time low high i)
