-- ===== src/Scheduler.antt =====
-- Scheduler of agent/src/common/scheduler/scheduler.ts, and SimpleExecutor of agent/src/common/executors. The
-- library node-cron and the text of a number are parameters.
pub mod Steps
mod Examples
use Prim.Native.String
use freysa_spark_hackathon.Common.{ℕ, Bool, true, List, [], ◌∷◌, map, String, Run, pure, ◌>>=◌}
use freysa_spark_hackathon.Json.{JsonEngine}
use freysa_spark_hackathon.Agent.{Message, Agent, Session, execute, execute_task}

pub record CronOptions : Type 0 where
  pub scheduled : Bool
  pub timezone : String

-- `cron.schedule`, which gives a task, and the task's `stop`.
pub record Cron (W Job Scheduled : Type 0) : Type 0 where
  pub schedule : String → Job → CronOptions → Run W Scheduled
  pub stop : Scheduled → Run W (Unit {0})

pub record ScheduleHandle (W : Type 0) : Type 0 where
  pub stop : Run W (Unit {0})

abbrev pub default_timezone : String
default_timezone = "Etc/UTC"

-- The units of the three methods that repeat a job.
pub data TimeUnit : Type 0 where
  seconds minutes hours : TimeUnit

-- `texts.join(",")`.
unfoldable pub join_commas : List String → String
join_commas [] = ""
join_commas (s ∷ []) = s
join_commas (s ∷ t ∷ r) = String.◌++◌ s (String.◌++◌ "," (join_commas (t ∷ r)))

abbrev spaced : List String → String
spaced [] = ""
spaced (s ∷ []) = s
spaced (s ∷ t ∷ r) = String.◌++◌ s (String.◌++◌ " " (spaced (t ∷ r)))

module _ (show : ℕ → String) where
  unfoldable pub every_expression : TimeUnit → ℕ → String
  every_expression seconds n = spaced (String.◌++◌ "*/" (show n) ∷ "*" ∷ "*" ∷ "*" ∷ "*" ∷ "*" ∷ [])
  every_expression minutes n = spaced ("0" ∷ String.◌++◌ "*/" (show n) ∷ "*" ∷ "*" ∷ "*" ∷ "*" ∷ [])
  every_expression hours n = spaced ("0" ∷ "0" ∷ String.◌++◌ "*/" (show n) ∷ "*" ∷ "*" ∷ "*" ∷ [])

  module _ {W Job Scheduled : Type 0} (cron : Cron W Job Scheduled) (timezone : String) where
    unfoldable pub schedule : String → Job → Run W (ScheduleHandle W)
    schedule expression task = do
      scheduled ← cron.schedule expression task (record { scheduled = true; timezone = timezone })
      pure (record { stop = cron.stop scheduled })

    unfoldable pub schedule_every_seconds : ℕ → Job → Run W (ScheduleHandle W)
    schedule_every_seconds interval = schedule (every_expression seconds interval)

    unfoldable pub schedule_every_minutes : ℕ → Job → Run W (ScheduleHandle W)
    schedule_every_minutes interval = schedule (every_expression minutes interval)

    unfoldable pub schedule_every_hours : ℕ → Job → Run W (ScheduleHandle W)
    schedule_every_hours interval = schedule (every_expression hours interval)

    -- A second that is not given is 0.
    unfoldable pub schedule_daily : ℕ → ℕ → ℕ → Job → Run W (ScheduleHandle W)
    schedule_daily hour minute second =
        schedule (spaced (show second ∷ show minute ∷ show hour ∷ "*" ∷ "*" ∷ "*" ∷ []))

    unfoldable pub schedule_weekly : ℕ → ℕ → List ℕ → Job → ℕ → Run W (ScheduleHandle W)
    schedule_weekly hour minute days_of_week task second =
        schedule
          (spaced (
            show second
            ∷ show minute
            ∷ show hour
            ∷ "*"
            ∷ "*"
            ∷ join_commas (map show days_of_week)
            ∷ []))
          task

    unfoldable pub schedule_monthly : ℕ → ℕ → List ℕ → Job → ℕ → Run W (ScheduleHandle W)
    schedule_monthly hour minute days_of_month task second =
        schedule
          (spaced (
            show second
            ∷ show minute
            ∷ show hour
            ∷ join_commas (map show days_of_month)
            ∷ "*"
            ∷ "*"
            ∷ []))
          task

-- SimpleExecutor, for its agent.
module _ {W : Type 0} (engine : JsonEngine) (agent : Agent W) where
  unfoldable pub executor_execute_task : String → Run (Session W) String
  executor_execute_task task = execute_task engine agent task

  unfoldable pub executor_execute : List Message → Run (Session W) String
  executor_execute messages s = execute engine agent (record s { messages = messages })
