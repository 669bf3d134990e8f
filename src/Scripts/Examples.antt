-- ===== src/Scripts/Examples.antt =====
-- Schedules on which the theorems are applied.
use nekzus.Prelude.{
  ℕ, ◌+◌, ◌*◌, ◌/◌, ◌%◌, ◌^◌, ◌-◌, any, nat_beq, ◌↔◌, ◌≡◌, refl, true, none, some, List, [], ◌∷◌,
  ok, arith,
}
use nekzus.Prelude.Bytes.{Bytes, bytes}
use nekzus.Scripts.Cron.{
  CronExpression, int, all_rounds, parse_cron_expression, parse_fields, step_loop, parse_cron_field,
}
use nekzus.Scripts.Text.{fields_of}
use nekzus.Scripts.Cron.Bounds.{IsCron, parse_cron_expression-IsCron}
use nekzus.Scripts.Cron.Wraps.{Stepped, step_loop-Stepped, step_loop-endless}
use nekzus.Scripts.Scheduler.{
  Calendar, Schedule, Execution, next_run, check_schedule, is_due, minute_length,
}
use nekzus.Scripts.Scheduler.NextRun.{FirstFit, Next, next_run-Next, check_schedule-once}

-- Noon on the first two days of March, if March 1st is a Sunday.
abbrev noon : Bytes
noon = bytes "0 12 1,2 3 0-1"

abbrev noon_cron : CronExpression
noon_cron = record {
  minutes = 0 ∷ [];
  hours = 12 ∷ [];
  days_of_month = 1 ∷ 2 ∷ [];
  months = 3 ∷ [];
  days_of_week = 0 ∷ 1 ∷ [];
}

noon_parsed : parse_cron_expression noon ≡ ok noon_cron
unfolding parse_cron_expression parse_fields fields_of parse_cron_field
noon_parsed = refl

parse_cron_expression-IsCron_example : IsCron noon_cron
parse_cron_expression-IsCron_example = parse_cron_expression-IsCron noon noon_cron noon_parsed

step_loop-Stepped_example :
    (values : List ℕ) × (step_loop all_rounds (int 5) 59 15 0 59 ≡ some values)
    × ((v : ℕ) → (any (nat_beq v) values ≡ true) ↔ Stepped 5 59 15 0 59 v)
step_loop-Stepped_example = step_loop-Stepped 5 59 15 0 59 (omega arith) (omega arith)

-- The step 2^63 - 1, with which the counter wraps: the values go down.
wrapped_parsed : parse_cron_field (bytes "5/9223372036854775807") 0 59 ≡ ok (5 ∷ 3 ∷ 1 ∷ [])
unfolding parse_cron_field
wrapped_parsed = refl

step_loop-endless_example : step_loop all_rounds (int 0) (2 ^ 63 - 1) 1 0 59 ≡ none
step_loop-endless_example = step_loop-endless all_rounds (int 0) 1 0 59 (omega arith)

-- A calendar of one month, in which the time 0 is the midnight of Sunday, March 1st.
abbrev march : Calendar
march = record {
  minute = λ t. t / minute_length % 60;
  hour = λ t. t / (60 * minute_length) % 24;
  day = λ t. t / (24 * 60 * minute_length) + 1;
  month = λ t. 3;
  weekday = λ t. t / (24 * 60 * minute_length) % 7;
}

next_run-Next_example :
    Next march noon_cron 90_000_000_000 (next_run march noon_cron 90_000_000_000)
next_run-Next_example = next_run-Next march noon_cron 90_000_000_000

abbrev daily : Schedule
daily = record {
  id = "s1";
  script_id = "backup";
  cron_expression = noon;
  enabled = true;
  last_run_at = none;
  next_run_at = none;
}

abbrev finished : Execution
finished = record {
  script_exists = true;
  saved = true;
  updated = true;
  result = none;
  started = 90_000_000_000;
  ended = 91_000_000_000;
}

daily_due : is_due march daily 90_000_000_000 ≡ true
unfolding is_due
daily_due = refl

-- The noon of March 1st.
first_noon : FirstFit march noon_cron 91_000_000_000 43_200_000_000_000
first_noon = record {
  whole = refl;
  later = omega arith;
  in_four_years = omega arith;
  fits = record { minute = refl; hour = refl; day = refl; month = refl; weekday = refl };
  first = λ u w l b f. absurd (ground (arith, f.minute, f.hour, w, l, b));
}

check_schedule-once_example :
    check_schedule march
      (check_schedule march daily 90_000_000_000 finished).0
      43_199_999_999_999
      finished
    ≡ ((check_schedule march daily 90_000_000_000 finished).0, none)
check_schedule-once_example =
    check_schedule-once march daily 90_000_000_000 43_199_999_999_999 43_200_000_000_000 finished
      finished noon_cron daily_due refl refl refl noon_parsed first_noon (omega arith) (omega arith)
