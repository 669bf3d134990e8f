-- ===== src/Scripts/Scheduler.antt =====
-- internal/scripts/scheduler.go: when a schedule runs next, and which schedules a check runs. A time is
-- a number of nanoseconds; what the clock of the place shows at a time is the parameter `Calendar`, since
-- the zone's rules are data outside the program. The executions, and whether the storage accepts a
-- write, are arguments.
pub mod NextRun
use nekzus.Prelude.{
  ℕ, zero, suc, ◌+◌, ◌*◌, ◌/◌, String, Bool, true, false, not, ◌&&◌, ◌||◌, Option, none, some, List,
  [], ◌∷◌, ltb, nat_beq, any, if◌then◌else◌, Result, ok, err,
}
use nekzus.Prelude.Bytes.{Bytes}
use nekzus.Prelude.Dict.{Dict, lookup, put}
use nekzus.Scripts.Cron.{CronExpression, CronError, parse_cron_expression}

-- The minute, hour, day, month and weekday that a time's methods return.
pub record Calendar : Type 0 where
  pub minute : ℕ → ℕ
  pub hour : ℕ → ℕ
  pub day : ℕ → ℕ
  pub month : ℕ → ℕ
  pub weekday : ℕ → ℕ

abbrev pub minute_length : ℕ
minute_length = 60 * 1_000_000_000

abbrev pub max_iterations : ℕ
max_iterations = 365 * 24 * 60 * 4

abbrev pub contains : List ℕ → ℕ → Bool
contains values value = any (nat_beq value) values

-- What an execution returns, and the status that is stored for it.
pub record ExecutionResult : Type 0 where
  pub timed_out : Bool
  pub cancelled : Bool
  pub exit_code : ℕ

pub data ExecutionStatus : Type 0 where
  pending running completed failed cancelled timeout : ExecutionStatus

abbrev pub final_status : Option ExecutionResult → ExecutionStatus
final_status none = failed
final_status (some result) =
    if result.timed_out
    then timeout
    else if result.cancelled
    then cancelled
    else if nat_beq result.exit_code 0
    then completed
    else failed

pub record Schedule : Type 0 where
  pub id : String
  pub script_id : String
  pub cron_expression : Bytes
  pub enabled : Bool
  pub last_run_at : Option ℕ
  pub next_run_at : Option ℕ

-- The answers of the world to the execution of a schedule: whether the script is registered, whether
-- the storage takes the record of the execution and the new times of the schedule, what the executor
-- returns, which is nothing for its error, and when the execution starts and has ended.
pub record Execution : Type 0 where
  pub script_exists : Bool
  pub saved : Bool
  pub updated : Bool
  pub result : Option ExecutionResult
  pub started : ℕ
  pub ended : ℕ

module _ (cal : Calendar) where
  unfoldable pub matches : CronExpression → ℕ → Bool
  matches c t =
      if not (contains c.minutes (cal.minute t))
      then false
      else if not (contains c.hours (cal.hour t))
      then false
      else if not (contains c.days_of_month (cal.day t))
      then false
      else if not (contains c.months (cal.month t))
      then false
      else if not (contains c.days_of_week (cal.weekday t))
      then false
      else true

  -- The loop of `NextRun`, with the rounds that are left; nothing if none matches.
  unfoldable pub search : ℕ → CronExpression → ℕ → Option ℕ
  unfolding matches
  search zero c t = none
  search (suc n) c t = elim (matches c t) [ true ↦ some t | false ↦ search n c (t + minute_length) ]

  -- after.Truncate(time.Minute).Add(time.Minute)
  abbrev pub next_minute : ℕ → ℕ
  next_minute after = after / minute_length * minute_length + minute_length

  abbrev pub or_fallback : ℕ → Option ℕ → ℕ
  or_fallback after none = after + minute_length
  or_fallback after (some t) = t

  unfoldable pub next_run : CronExpression → ℕ → ℕ
  unfolding search
  next_run c after = or_fallback after (search max_iterations c (next_minute after))

  -- The times of the schedule behind an execution.
  abbrev pub rescheduled : Schedule → Execution → Result CronError CronExpression → Schedule
  rescheduled s e (err x) = s
  rescheduled s e (ok c) =
      if e.updated
      then record s { last_run_at = some e.started; next_run_at = some (next_run c e.ended) }
      else s

  -- The schedule behind `executeSchedule`, and the status that is stored if the script was executed.
  unfoldable pub execute_schedule : Schedule → Execution → Schedule × Option ExecutionStatus
  unfolding parse_cron_expression next_run
  execute_schedule s e =
      if not e.script_exists
      then (s, none)
      else if not e.saved
      then (s, none)
      else (rescheduled s e (parse_cron_expression s.cron_expression), some (final_status e.result))

  -- Whether a check at the time runs the schedule.
  unfoldable pub is_due : Schedule → ℕ → Bool
  is_due s now =
      if not s.enabled then false else elim s.next_run_at [ none ↦ true | some t ↦ not (ltb now t) ]

  -- One round of the loop of `checkSchedules`.
  unfoldable pub check_schedule : Schedule → ℕ → Execution → Schedule × Option ExecutionStatus
  unfolding is_due execute_schedule
  check_schedule s now e = if is_due s now then execute_schedule s e else (s, none)
