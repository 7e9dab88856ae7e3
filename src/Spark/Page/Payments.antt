-- ===== src/Spark/Page/Payments.antt =====
-- The page shows a payment only if the client made it.
use mathlib.Core.Path.{subst}
use freysa_spark_hackathon.Common.{
  ◌≡◌, refl, sym, ap, ◌⊎◌, inl, inr, false, Bool-cases, List, [], ◌∷◌, ◌++◌, append_assoc, String,
  err, Run, All, is_truthy, ◌>>=◌,
}
use freysa_spark_hackathon.Json.{
  Json, obj, Fields, JsonEngine, property, truthy_property, truthy_json, get_field,
}
use freysa_spark_hackathon.Agent.{Message, Choice, initial, approved, Session}
use freysa_spark_hackathon.Spark.Lightspark.{Lightspark}
use freysa_spark_hackathon.Spark.Server.{Reply, done, failed, body_of, handle_execute}
use freysa_spark_hackathon.Spark.Ledger.{Books, paid}
use freysa_spark_hackathon.Spark.Replies.{Told, handle_execute-Told}
use freysa_spark_hackathon.Spark.Page.{
  Page, submit, sending, trim, receive, time_out, show_response, show_unreachable, add_message,
  shown_content, update_approval_state,
}
use freysa_spark_hackathon.Spark.Page.Traffic.{
  Traffic, outcome_of, Step, typed, clicked, entered, served, received, lost_task, lost_reply,
  timed_out, modal_opened, modal_closed, Reach, start, next,
}

abbrev pub Made : Fields → List Fields → Type 0
Made p ps = (newer : List Fields) × (older : List Fields) × (ps ≡ newer ++ p ∷ older)

Made-later : (p : Fields) (more ps : List Fields) → Made p ps → Made p (more ++ ps)
Made-later p more ps (newer, older, e) =
    (more ++ newer, older, rw e (sym (append_assoc more newer (p ∷ older))))

-- A reply that shows a payment shows one that was made.
abbrev pub Honest : List Fields → Reply → Type 0
Honest ps (done result (approved j)) = (p : Fields) × (j ≡ obj p) × Made p ps
Honest ps (done result initial) = Unit
Honest ps (failed message) = Unit

pub Honest-later : (more ps : List Fields) (r : Reply) → Honest ps r → Honest (more ++ ps) r
Honest-later more ps (done result (approved j)) (p, e, made) = (p, e, Made-later p more ps made)
Honest-later more ps (done result initial) h = tt
Honest-later more ps (failed message) h = tt

All-later :
    (more ps : List Fields) (rs : List Reply) → All (Honest ps) rs → All (Honest (more ++ ps)) rs
All-later more ps [] h = tt
All-later more ps (r ∷ rs) (h, hs) = (Honest-later more ps r h, All-later more ps rs hs)

taken :
    (ps : List Fields) (before after : List Reply) (r : Reply)
    → All (Honest ps) (before ++ r ∷ after)
    → Honest ps r × All (Honest ps) (before ++ after)
taken ps [] after r h = h
taken ps (q ∷ before) after r (h, hs) =
    let (one, rest) = taken ps before after r hs in (one, (h, rest))

module _ (pretty : Json → String) where
  abbrev pub Vouched : List Fields → Page → Type 0
  Vouched ps page =
      (page.approved ≡ false) ⊎ ((p : Fields) × (page.details ≡ pretty (obj p)) × Made p ps)

  Vouched-later :
      (more ps : List Fields) (page : Page) → Vouched ps page → Vouched (more ++ ps) page
  Vouched-later more ps page (inl e) = inl e
  Vouched-later more ps page (inr (p, e, made)) = inr (p, e, Made-later p more ps made)

  receive-Vouched :
      (ps : List Fields) (reply : Reply) (page : Page)
      → Honest ps reply
      → Vouched ps page
      → Vouched ps (receive pretty (outcome_of reply) page)
  unfolding receive show_response add_message shown_content update_approval_state property
      truthy_property truthy_json get_field ◌>>=◌ body_of
  receive-Vouched ps (done result initial) page h v = v
  receive-Vouched ps (done result (approved j)) page (p, e, made) v = inr (p, ap pretty e, made)
  receive-Vouched ps (failed message) page h v = v

  lost-Vouched :
      (ps : List Fields) (message : String) (page : Page)
      → Vouched ps page
      → Vouched ps (receive pretty (err message) page)
  unfolding receive show_unreachable add_message shown_content ◌>>=◌
  lost-Vouched ps message page v = v

  submit-Vouched :
      (ps : List Fields) (message : String) (page : Page)
      → Vouched ps page
      → Vouched ps (sending message page).1
  submit-Vouched ps message page v = elim (Bool-cases (is_truthy message)) [
    | inl e ↦ rw e v
    | inr e ↦ rw e v
  ]

module _ {W : Type 0} {engine : JsonEngine} {client : Lightspark W}
    {completions : List Message → List Json → Run W (List Choice)}
    (books : Books engine client completions) (system_prompt : String)
    (pretty : Json → String) where
  abbrev handle : String → Session W → Reply × Session W
  handle = handle_execute engine client completions system_prompt

  Told-Honest :
      (r : Reply) (before after : List Fields)
      → Told books system_prompt r before after
      → Honest after r × ((more : List Fields) × (after ≡ more ++ before))
  Told-Honest (done result initial) before after e = (tt, ([], e))
  Told-Honest (done result (approved j)) before after (p, others, e, f) =
      ((p, e, ([], others ++ before, f)), (p ∷ others, f))
  Told-Honest (failed message) before after e = (tt, e)

  abbrev Sound : Traffic W → Type 0
  Sound s =
      Vouched pretty (paid books s.session.world) s.page
      × All (Honest (paid books s.session.world)) s.replies

  served-Sound :
      (s : Traffic W) (asked : List String) (task : String)
      → Sound s
      → Sound (record s {
        asked = asked;
        replies = (handle task s.session).0 ∷ s.replies;
        session = (handle task s.session).1;
      })
  served-Sound s asked task (v, hs) =
      let (honest, (more, e)) =
        Told-Honest _ _ _ (handle_execute-Told books system_prompt task s.session) in
      (
        rw e (Vouched-later pretty more _ s.page v),
        (honest, subst (λ ps. All (Honest ps) s.replies) (sym e) (All-later more _ s.replies hs)),
      )

  Step-Sound : {s t : Traffic W} → Step pretty handle s t → Sound s → Sound t
  unfolding submit time_out
  Step-Sound (typed text) h = h
  Step-Sound {s} (clicked e) (v, hs) =
      (submit-Vouched pretty (paid books s.session.world) (trim s.page.input) s.page v, hs)
  Step-Sound {s} entered (v, hs) =
      (submit-Vouched pretty (paid books s.session.world) (trim s.page.input) s.page v, hs)
  Step-Sound {s} (served before after task e) h = served-Sound s (before ++ after) task h
  Step-Sound {s} (received before after reply e) (v, hs) =
      let (one, rest) = taken _ before after reply (rw e at hs) in
      (receive-Vouched pretty _ reply s.page one v, rest)
  Step-Sound {s} (lost_task before after task message e) (v, hs) =
      (lost-Vouched pretty _ message s.page v, hs)
  Step-Sound {s} (lost_reply before after reply message e) (v, hs) =
      let (one, rest) = taken _ before after reply (rw e at hs) in
      (lost-Vouched pretty _ message s.page v, rest)
  Step-Sound (timed_out n e) h = h
  Step-Sound modal_opened h = h
  Step-Sound modal_closed h = h

  -- Over the ledger of Books: where the page has come to show the banner of an approved transfer, in
  -- whatever order things happened, the details that it shows are those of a payment that the client has
  -- made.
  pub Reach-Vouched :
      (session : Session W) (s : Traffic W)
      → Reach pretty handle session s
      → Vouched pretty (paid books s.session.world) s.page
  Reach-Vouched session s r = (sound s r).0
    where
      sound : (s : Traffic W) → Reach pretty handle session s → Sound s
      sound s start = (inl refl, tt)
      sound s (next {s = t} r step) = Step-Sound step (sound t r)
