-- ===== src/Spark/Page/Examples.antt =====
-- The page with a server that approves whatever it is asked.
use freysa_spark_hackathon.Common.{
  true, ◌≡◌, refl, ◌⊎◌, ◌≢◌, ◌+◌, ◌<◌, false, some, List, [], ◌∷◌, String,
}
use freysa_spark_hackathon.Json.{Json, Fields, obj}
use freysa_spark_hackathon.Agent.{Session, approved}
use freysa_spark_hackathon.Spark.Examples.{
  payment, client, chooses, paying, books, start as session, engine, runs,
}
use freysa_spark_hackathon.Utils.Chunker.{is_space}
use freysa_spark_hackathon.Spark.Server.{Reply, done, body_of, handle_execute}
use freysa_spark_hackathon.Spark.Page.{
  idle, thinking, user, agent, plain, submit, trim, trim_start, trim_end, receive, show_response,
  add_message, shown_content, update_approval_state,
}
use freysa_spark_hackathon.Spark.Page.Traffic.{
  Traffic, typed, entered, served, received, Reach, start, next, outstanding,
}
use freysa_spark_hackathon.Spark.Page.Waiting.{questions, answers, Reach-InTurn}
use freysa_spark_hackathon.Spark.Page.Payments.{Vouched, Reach-Vouched}

abbrev pretty : Json → String
pretty j = "p1"

abbrev handle : String → Session (List Fields) → Reply × Session (List Fields)
handle = handle_execute engine client (chooses paying) "prompt"

abbrev final : Traffic (List Fields)
final = record {
  page = record {
    status = idle;
    history = user (plain "pay me") ∷ agent (plain "bye") ∷ [];
    input = "";
    disabled = false;
    approved = true;
    payment = some (obj payment);
    details = "p1";
    modal_open = false;
    timers = 0;
  };
  asked = [];
  replies = [];
  session = (handle "pay me" session).1;
}

-- The user types "  pay me " and presses Enter, the server answers, and the page shows the answer.
reached : Reach pretty handle session final
unfolding runs submit trim trim_start trim_end is_space receive show_response add_message
    shown_content update_approval_state body_of
reached =
    next (next (next (next start (typed "  pay me ")) entered) (served [] [] "pay me" refl))
      (received [] [] (done "bye" (approved (obj payment))) refl)

Reach-Vouched_example : Vouched pretty (payment ∷ []) final.page
unfolding runs
Reach-Vouched_example = Reach-Vouched (books paying) "prompt" pretty session final reached

Reach-InTurn_example :
    (answers final.page.history + outstanding final ≡ questions final.page.history)
    × ((0 < outstanding final) ⊎ ((final.page.disabled ≡ false) × (final.page.status ≢ thinking)))
Reach-InTurn_example = Reach-InTurn pretty handle session final reached
