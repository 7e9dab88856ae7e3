-- ===== src/Scheduler/Examples.antt =====
-- A job every 40 seconds, which node-cron runs at the seconds 0 and 40 of each minute.
use freysa_spark_hackathon.Common.{
  ℕ, zero, suc, ◌&&◌, ◌==◌, ◌%◌, ◌≡◌, refl, Bool, List, [], ◌∷◌, String, ok, ◌>>=◌,
}
use freysa_spark_hackathon.Scheduler.{Cron, schedule, schedule_weekly, join_commas}
use text.Mathlib.Text.{◌==◌ as str_eq}

abbrev show : ℕ → String
show zero = "0"
show (suc n) = "40"

-- The world is the expressions that were scheduled.
abbrev cron : Cron (List String) String String
cron = record {
  schedule = λ expression task options w. (ok expression, expression ∷ w);
  stop = λ scheduled w. (ok tt, []);
}

weekly_run :
    (schedule_weekly show cron "Etc/UTC" 15 30 (1 ∷ 3 ∷ []) "job" 0 []).1 ≡ "0 40 40 * * 40,40" ∷ []
unfolding schedule_weekly schedule join_commas ◌>>=◌
weekly_run = refl

abbrev runs : String → ℕ → Bool
runs expression t = str_eq expression "*/40 * * * * *" && (t % 60) % 40 == 0
