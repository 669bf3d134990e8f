-- ===== src/Scripts/Cron.antt =====
-- internal/scripts/scheduler.go: cron expressions.
pub mod Bounds
pub mod Wraps
use nekzus.Prelude.{
  ℕ, String, zero, suc, ◌+◌, ◌-◌, ◌*◌, ◌^◌, ◌%◌, Bool, true, false, not, ◌&&◌, ◌||◌, Option, none,
  some, List, [], ◌∷◌, ◌++◌, ltb, leb, nat_beq, any, length, if◌then◌else◌, Result, ok, err,
}
use nekzus.Prelude.Bytes.{Bytes, bytes, beq}
use nekzus.Scripts.Text.{
  before_first, split_on, is_space, end_field, fields_loop, fields_of, contains_byte, Atoi, digits,
  in_range, below_zero, unsigned, atoi, value_of, number, negative, bad_syntax, out_of_range,
}

pub data CronError : Type 0 where
  bad_step_format bad_step_value bad_range_format bad_range_start bad_range_end : Bytes → CronError
  range_out_of_bounds bad_value no_values : Bytes → CronError
  value_out_of_bounds : ℕ → CronError
  field_count : ℕ → CronError
  in_field : String → CronError → CronError
  -- not an error of the code: the loop of a step never ends, and the call does not return
  endless : CronError

-- An int i as the number i + 2^63, so that one below zero is a number below 2^63.
abbrev pub int : ℕ → ℕ
int n = n + 2 ^ 63

-- for i := start; i <= end; i += step, which keeps the values of the field. The counter i is given as
-- `int`, and wraps as an int of 64 bits does.
unfoldable pub step_loop : ℕ → ℕ → ℕ → ℕ → ℕ → ℕ → Option (List ℕ)
step_loop zero i end step min max = none
step_loop (suc fuel) i end step min max = elim (ltb (int end) i) [
  | true ↦ some []
  | false ↦ elim (step_loop fuel ((i + step) % 2 ^ 64) end step min max) [
    | none ↦ none
    | some rest ↦ some (if leb (int min) i && leb i (int max) then (i - 2 ^ 63) ∷ rest else rest)
  ]
]

-- The rounds that the loop is granted: a counter that is still within the range after as many rounds as
-- it has values has had one of them twice, and the loop never ends.
abbrev pub all_rounds : ℕ
all_rounds = 2 ^ 64 + 1

-- for i := start; i <= end; i++, in the given number of rounds
unfoldable pub interval : ℕ → ℕ → List ℕ
interval zero start = []
interval (suc n) start = start ∷ interval n (start + 1)

abbrev pub head_of : List Bytes → Bytes
head_of [] = []
head_of (a ∷ rest) = a

abbrev pub second_of : List Bytes → Bytes
second_of [] = []
second_of (a ∷ []) = []
second_of (a ∷ b ∷ rest) = b

-- The start and the end of the range of a step.
unfoldable pub step_range : Bytes → ℕ → ℕ → ℕ × ℕ
unfolding beq contains_byte split_on atoi
step_range base min max =
    if beq base (bytes "*")
    then (min, max)
    else if contains_byte b'-' base
    then (let parts = split_on b'-' base in
        (value_of (atoi (head_of parts)), value_of (atoi (second_of parts))))
    else (value_of (atoi base), max)

abbrev pub or_endless : Option (List ℕ) → Result CronError (List ℕ)
or_endless none = err endless
or_endless (some values) = ok values

-- "Handle step values", behind the split at '/'.
abbrev pub step_values : ℕ × ℕ → ℕ → ℕ → ℕ → Result CronError (List ℕ)
step_values (start, end) step min max =
    or_endless (step_loop all_rounds (int start) end step min max)

abbrev pub with_step : Bytes → Bytes → Atoi → ℕ → ℕ → Result CronError (List ℕ)
with_step base text (number step) min max =
    if nat_beq step 0
    then err (bad_step_value text)
    else step_values (step_range base min max) step min max
with_step base text negative min max = err (bad_step_value text)
with_step base text bad_syntax min max = err (bad_step_value text)
with_step base text out_of_range min max = err (bad_step_value text)

unfoldable pub parse_step : Bytes → List Bytes → ℕ → ℕ → Result CronError (List ℕ)
unfolding atoi step_range step_loop
parse_step part (base ∷ step ∷ []) min max = with_step base step (atoi step) min max
parse_step part _ min max = err (bad_step_format part)

abbrev pub check_range : Bytes → ℕ → ℕ → ℕ → ℕ → Result CronError (List ℕ)
check_range part start end min max =
    if ltb start min || (ltb max end || ltb end start)
    then err (range_out_of_bounds part)
    else ok (interval (end + 1 - start) start)

abbrev pub with_end : Bytes → Bytes → ℕ → Atoi → ℕ → ℕ → Result CronError (List ℕ)
with_end part text start (number end) min max = check_range part start end min max
with_end part text start negative min max = err (bad_range_end text)
with_end part text start bad_syntax min max = err (bad_range_end text)
with_end part text start out_of_range min max = err (bad_range_end text)

abbrev pub with_start : Bytes → Bytes → Bytes → Atoi → ℕ → ℕ → Result CronError (List ℕ)
with_start part from to (number start) min max = with_end part to start (atoi to) min max
with_start part from to negative min max = err (bad_range_start from)
with_start part from to bad_syntax min max = err (bad_range_start from)
with_start part from to out_of_range min max = err (bad_range_start from)

-- "Handle ranges (m-n)", behind the split at '-'.
unfoldable pub parse_range : Bytes → List Bytes → ℕ → ℕ → Result CronError (List ℕ)
unfolding atoi interval
parse_range part (from ∷ to ∷ []) min max = with_start part from to (atoi from) min max
parse_range part _ min max = err (bad_range_format part)

-- "Handle single value".
abbrev pub parse_value : Bytes → Atoi → ℕ → ℕ → Result CronError (List ℕ)
parse_value part (number n) min max =
    if ltb n min || ltb max n then err (value_out_of_bounds n) else ok (n ∷ [])
parse_value part negative min max = err (value_out_of_bounds 0)
parse_value part bad_syntax min max = err (bad_value part)
parse_value part out_of_range min max = err (bad_value part)

-- The body of the loop over the parts.
unfoldable pub parse_part : Bytes → ℕ → ℕ → Result CronError (List ℕ)
unfolding contains_byte split_on parse_step parse_range atoi
parse_part part min max =
    if contains_byte b'/' part
    then parse_step part (split_on b'/' part) min max
    else if contains_byte b'-' part
    then parse_range part (split_on b'-' part) min max
    else parse_value part (atoi part) min max

-- The values of a part before those of the later ones; the first error ends the loop.
abbrev pub then_values :
    Result CronError (List ℕ) → Result CronError (List ℕ) → Result CronError (List ℕ)
then_values (err e) later = err e
then_values (ok values) (err e) = err e
then_values (ok values) (ok later) = ok (values ++ later)

unfoldable pub parse_parts : List Bytes → ℕ → ℕ → Result CronError (List ℕ)
unfolding parse_part
parse_parts [] min max = ok []
parse_parts (part ∷ parts) min max =
    then_values (parse_part part min max) (parse_parts parts min max)

abbrev pub non_empty : Bytes → Result CronError (List ℕ) → Result CronError (List ℕ)
non_empty field (err e) = err e
non_empty field (ok []) = err (no_values field)
non_empty field (ok (v ∷ values)) = ok (v ∷ values)

unfoldable pub parse_cron_field : Bytes → ℕ → ℕ → Result CronError (List ℕ)
unfolding beq split_on parse_parts interval
parse_cron_field field min max =
    if beq field (bytes "*")
    then ok (interval (max + 1 - min) min)
    else non_empty field (parse_parts (split_on b',' field) min max)

pub record CronExpression : Type 0 where
  pub minutes : List ℕ
  pub hours : List ℕ
  pub days_of_month : List ℕ
  pub months : List ℕ
  pub days_of_week : List ℕ

abbrev pub named : String → Result CronError (List ℕ) → Result CronError (List ℕ)
named name (ok values) = ok values
named name (err e) = err (in_field name e)

infixl 5 ◌>>=◌
abbrev ◌>>=◌ : {A B : Type 0} → Result CronError A → (A → Result CronError B) → Result CronError B
ok a >>= f = f a
err e >>= f = err e

-- The five fields, of which the first error is the result.
abbrev pub expression :
    Result CronError (List ℕ)
    → Result CronError (List ℕ)
    → Result CronError (List ℕ)
    → Result CronError (List ℕ)
    → Result CronError (List ℕ)
    → Result CronError CronExpression
expression minute hour day month weekday = do
  minutes ← minute
  hours ← hour
  days ← day
  months ← month
  weekdays ← weekday
  ok (record {
    minutes = minutes;
    hours = hours;
    days_of_month = days;
    months = months;
    days_of_week = weekdays;
  })

unfoldable pub parse_fields : List Bytes → Result CronError CronExpression
unfolding parse_cron_field
parse_fields (minute ∷ hour ∷ day ∷ month ∷ weekday ∷ []) =
    expression (named "minute" (parse_cron_field minute 0 59))
      (named "hour" (parse_cron_field hour 0 23)) (named "day-of-month" (parse_cron_field day 1 31))
      (named "month" (parse_cron_field month 1 12))
      (named "day-of-week" (parse_cron_field weekday 0 6))
parse_fields fields = err (field_count (length fields))

unfoldable pub parse_cron_expression : Bytes → Result CronError CronExpression
unfolding fields_of parse_fields
parse_cron_expression expr = parse_fields (fields_of expr)
