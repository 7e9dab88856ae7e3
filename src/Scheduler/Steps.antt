-- ===== src/Scheduler/Steps.antt =====
-- What the expressions of the scheduler's repeated jobs are, and how far apart the runs of such a job are.
use freysa_spark_hackathon.Common.{ℕ, ◌/◌, ◌%◌, Bool, true, ◌&&◌, String, ◌==◌}
use Prim.Native.String
use freysa_spark_hackathon.Scheduler.{TimeUnit, seconds, minutes, hours}

-- A field of a cron expression: every value, one value, or the values that a step divides.
pub data CronField : Type 0 where
  any : CronField
  at : ℕ → CronField
  step : ℕ → CronField

-- The second, the minute and the hour of an expression whose day, month and weekday are every one.
pub record CronFields : Type 0 where
  pub second : CronField
  pub minute : CronField
  pub hour : CronField

-- The text of a field.
abbrev pub field_text : (ℕ → String) → CronField → String
field_text show any = "*"
field_text show (at k) = show k
field_text show (step k) = String.◌++◌ "*/" (show k)

-- The text of the six fields.
abbrev pub print : (ℕ → String) → CronFields → String
print show f = String.◌++◌ (field_text show f.second) (
    String.◌++◌ " " (
      String.◌++◌ (field_text show f.minute)
        (String.◌++◌ " " (String.◌++◌ (field_text show f.hour) " * * *"))))

-- The values of a field that a value of the clock matches.
abbrev pub field_matches : CronField → ℕ → Bool
field_matches any k = true
field_matches (at j) k = k == j
field_matches (step j) k = k % j == 0

-- Whether the fields match the time that is `t` seconds after a midnight.
abbrev pub time_matches : CronFields → ℕ → Bool
time_matches f t =
    field_matches f.second (t % 60)
    && (field_matches f.minute ((t / 60) % 60) && field_matches f.hour ((t / 3600) % 24))

-- A job of every n units: the field of its unit is a step of n, the smaller fields are 0, the greater ones
-- are every value.
abbrev pub fields_of : TimeUnit → ℕ → CronFields
fields_of seconds n = record { second = step n; minute = any; hour = any }
fields_of minutes n = record { second = at 0; minute = step n; hour = any }
fields_of hours n = record { second = at 0; minute = at 0; hour = step n }

-- How many of a unit there are before its field of the expression begins again.
abbrev pub base : TimeUnit → ℕ
base seconds = 60
base minutes = 60
base hours = 24

-- A unit in seconds.
abbrev pub span : TimeUnit → ℕ
span seconds = 1
span minutes = 60
span hours = 3600

-- A field `*/n` over a base matches the multiples of n below the base.
abbrev matches : ℕ → ℕ → ℕ → Bool
matches b n k = (k % b) % n == 0
