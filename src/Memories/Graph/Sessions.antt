-- ===== src/Memories/Graph/Sessions.antt =====
-- No session of the graph database stays open.
use freysa_spark_hackathon.Common.{
  ℕ, suc, ◌-◌, ◌≡◌, refl, ◌∙◌, String, Result, ok, err, Run, ◌>>=◌, Keeps, Keeps-bind,
  Keeps-required, go_on, arith,
}
use freysa_spark_hackathon.Json.{Json, JsonEngine}
use freysa_spark_hackathon.Memories.Graph.{
  GraphDriver, cleaned, finally, vector_search, search, store,
}

-- How many sessions are open is to be read off the world: opening adds one if it returns, closing takes
-- one away even if it throws, and nothing else changes the number.
pub record OpenSessions {W Handle Embedding : Type 0} (driver : GraphDriver W Handle Embedding)
    : Type 0 where
  pub count : W → ℕ
  pub opened :
      (s : Handle) (w w' : W) → driver.open_session w ≡ (ok s, w') → count w' ≡ suc (count w)
  pub not_opened :
      (e : String) (w w' : W) → driver.open_session w ≡ (err e, w') → count w' ≡ count w
  pub closed : (s : Handle) (w : W) → count (driver.close_session s w).1 ≡ count w - 1
  pub by_search : (s : Handle) (v : Embedding) (w : W) → count (driver.run_search s v w).1 ≡ count w
  pub by_write : (s : Handle) (j : Json) (w : W) → count (driver.execute_write s j w).1 ≡ count w
  pub by_model : (text : String) (w : W) → count (driver.embeddings text w).1 ≡ count w

module _ {W Handle Embedding : Type 0} {driver : GraphDriver W Handle Embedding}
    (sessions : OpenSessions driver) where
  abbrev pub count : W → ℕ
  count = sessions.count

  abbrev SameCount : W → W → Type 0
  SameCount w w' = count w' ≡ count w

  abbrev trans : (s t u : W) → SameCount s t → SameCount t u → SameCount s u
  trans s t u e f = f ∙ e

  cleaned-count :
      {A : Type 0} (r : Result A) (c : Result (Unit {0}) × W) → count (cleaned r c).1 ≡ count c.1
  cleaned-count r (ok u, w) = refl
  cleaned-count r (err e, w) = refl

  -- What runs in a session that is closed in the end.
  in_session-Keeps :
      {A : Type 0} (m : Handle → Run W A)
      → ((s : Handle) → Keeps SameCount (m s))
      → Keeps SameCount (driver.open_session >>= λ s. finally (m s) (driver.close_session s))
  unfolding ◌>>=◌
  in_session-Keeps {A} m keeps w = by_session (driver.open_session w) refl
    where
      by_session :
          (r : Result Handle × W)
          → driver.open_session w ≡ r
          → count (go_on (λ s. finally (m s) (driver.close_session s)) r).1 ≡ count w
      by_session (err e, w') opens = sessions.not_opened e w w' opens
      by_session (ok s, w') opens =
          cleaned-count (m s w').0 (driver.close_session s (m s w').1)
          ∙ omega (arith, sessions.closed s (m s w').1, keeps s w', sessions.opened s w w' opens)

  -- Over the numbers of OpenSessions: however `search` and `store` end, with a result or an error of the
  -- content's text, the model, the database or the closing, as many sessions are open as before.
  pub no_session_stays :
      (engine : JsonEngine) (query content : String) (w : W)
      → (count (search driver query w).1 ≡ count w)
        × (count (store driver engine content w).1 ≡ count w)
  unfolding search store vector_search
  no_session_stays engine query content w = (
    Keeps-bind SameCount (λ w. refl) trans _ _
        (in_session-Keeps (λ s. driver.embeddings query >>= driver.run_search s)
          λ s.
            Keeps-bind SameCount (λ w. refl) trans _ _ (sessions.by_model query)
              (sessions.by_search s))
        (λ _ w. refl) w,
    Keeps-bind SameCount (λ w. refl) trans _ _
        (Keeps-required SameCount (λ w. refl) trans (engine.parse content) "SyntaxError")
        (λ parsed.
          in_session-Keeps (λ s. driver.execute_write s parsed) λ s. sessions.by_write s parsed)
        w,
  )
