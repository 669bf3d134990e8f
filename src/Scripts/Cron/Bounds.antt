-- ===== src/Scripts/Cron/Bounds.antt =====
-- The values that a cron field gives.
use mathlib.Core.Path.{subst}
use nekzus.Prelude.{
  ℕ, String, zero, suc, ◌+◌, ◌-◌, ◌^◌, ◌%◌, ◌≤◌, ◌<◌, ◌≡◌, ◌≢◌, refl, inl, inr, Bool, true, false,
  Option, none, some, List, [], ◌∷◌, ◌++◌, ◌&&◌, ◌||◌, ltb, leb, nat_beq, arith, if◌then◌else◌,
  Result, ok, err, Bool-cases, Option-cases, All,
}
use nekzus.Prelude.Bytes.{Bytes, bytes, beq}
use nekzus.Scripts.Cron.{
  CronError, CronExpression, int, all_rounds, named, expression, step_loop, interval, step_range,
  or_endless, with_step, parse_step, check_range, with_end, with_start, parse_range, parse_value,
  parse_part, then_values, parse_parts, non_empty, parse_cron_field, parse_fields,
  parse_cron_expression,
}
use nekzus.Scripts.Text.{
  Atoi, number, negative, bad_syntax, out_of_range, atoi, split_on, contains_byte, fields_of,
}

abbrev pub Between : ℕ → ℕ → List ℕ → Type 0
Between min max values = All (λ v. (min ≤ v) × (v ≤ max)) values

-- The values of a result are within the bounds.
abbrev pub Within : ℕ → ℕ → Result CronError (List ℕ) → Type 0
Within min max (err e) = Unit
Within min max (ok values) = Between min max values

Between-append :
    (min max : ℕ) (a b : List ℕ) → Between min max a → Between min max b → Between min max (a ++ b)
Between-append min max [] b ha hb = hb
Between-append min max (v ∷ a) b ha hb = (ha.0, Between-append min max a b ha.1 hb)

interval-Between :
    (n start min max : ℕ) → min ≤ start → start + n ≤ max + 1 → Between min max (interval n start)
unfolding interval
interval-Between zero start min max l h = tt
interval-Between (suc n) start min max l h =
    ((l, omega arith), interval-Between n (start + 1) min max (omega arith) (omega arith))

kept-Between :
    (b : Bool) (i min max : ℕ) (rest : List ℕ)
    → (b ≡ true → (min ≤ i) × (i ≤ max))
    → Between min max rest
    → Between min max (if b then i ∷ rest else rest)
kept-Between true i min max rest h r = (h refl, r)
kept-Between false i min max rest h r = r

step_loop-Between :
    (fuel i end step min max : ℕ) (values : List ℕ)
    → step_loop fuel i end step min max ≡ some values
    → Between min max values
unfolding step_loop
step_loop-Between zero i end step min max values h = absurd cc
step_loop-Between (suc fuel) i end step min max values h = elim (Bool-cases (ltb (int end) i)) [
  | inl e ↦ subst (Between min max) {x = []} (ground arith) tt
  | inr e ↦ elim (Option-cases (step_loop fuel ((i + step) % 2 ^ 64) end step min max)) [
    | inl f ↦ absurd (ground arith)
    | inr (rest, f) ↦
        let kept = leb (int min) i && leb i (int max) in
        subst (Between min max) {x = if kept then (i - 2 ^ 63) ∷ rest else rest} (ground arith) (
          kept-Between kept (i - 2 ^ 63) min max rest (λ b. ground arith)
            (step_loop-Between fuel ((i + step) % 2 ^ 64) end step min max rest f))
  ]
]

or_endless-Within :
    (min max : ℕ) (o : Option (List ℕ))
    → ((values : List ℕ) → o ≡ some values → Between min max values)
    → Within min max (or_endless o)
or_endless-Within min max none h = tt
or_endless-Within min max (some values) h = h values refl

Within-if :
    (b : Bool) (min max : ℕ) (x y : Result CronError (List ℕ))
    → (b ≡ true → Within min max x)
    → (b ≡ false → Within min max y)
    → Within min max (if b then x else y)
Within-if true min max x y hx hy = hx refl
Within-if false min max x y hx hy = hy refl

with_step-Within :
    (base text : Bytes) (a : Atoi) (min max : ℕ) → Within min max (with_step base text a min max)
with_step-Within base text (number step) min max =
    let (start, end) = step_range base min max in
    Within-if (nat_beq step 0) min max _ _ (λ _. tt)
      (λ _. or_endless-Within min max _ (step_loop-Between all_rounds (int start) end step min max))
with_step-Within base text negative min max = tt
with_step-Within base text bad_syntax min max = tt
with_step-Within base text out_of_range min max = tt

parse_step-Within :
    (part : Bytes) (pieces : List Bytes) (min max : ℕ)
    → Within min max (parse_step part pieces min max)
unfolding parse_step
parse_step-Within part [] min max = tt
parse_step-Within part (a ∷ []) min max = tt
parse_step-Within part (a ∷ b ∷ []) min max = with_step-Within a b (atoi b) min max
parse_step-Within part (a ∷ b ∷ c ∷ rest) min max = tt

check_range-Within :
    (part : Bytes) (start end min max : ℕ) → Within min max (check_range part start end min max)
check_range-Within part start end min max =
    Within-if (ltb start min || (ltb max end || ltb end start)) min max _ _ (λ _. tt)
      (λ b. interval-Between (end + 1 - start) start min max (ground arith) (ground arith))

with_end-Within :
    (part text : Bytes) (start : ℕ) (a : Atoi) (min max : ℕ)
    → Within min max (with_end part text start a min max)
with_end-Within part text start (number end) min max = check_range-Within part start end min max
with_end-Within part text start negative min max = tt
with_end-Within part text start bad_syntax min max = tt
with_end-Within part text start out_of_range min max = tt

with_start-Within :
    (part from to : Bytes) (a : Atoi) (min max : ℕ)
    → Within min max (with_start part from to a min max)
with_start-Within part from to (number start) min max =
    with_end-Within part to start (atoi to) min max
with_start-Within part from to negative min max = tt
with_start-Within part from to bad_syntax min max = tt
with_start-Within part from to out_of_range min max = tt

parse_range-Within :
    (part : Bytes) (pieces : List Bytes) (min max : ℕ)
    → Within min max (parse_range part pieces min max)
unfolding parse_range
parse_range-Within part [] min max = tt
parse_range-Within part (a ∷ []) min max = tt
parse_range-Within part (a ∷ b ∷ []) min max = with_start-Within part a b (atoi a) min max
parse_range-Within part (a ∷ b ∷ c ∷ rest) min max = tt

parse_value-Within :
    (part : Bytes) (a : Atoi) (min max : ℕ) → Within min max (parse_value part a min max)
parse_value-Within part (number n) min max =
    Within-if (ltb n min || ltb max n) min max _ _ (λ _. tt)
      (λ b. ((ground arith, ground arith), tt))
parse_value-Within part negative min max = tt
parse_value-Within part bad_syntax min max = tt
parse_value-Within part out_of_range min max = tt

parse_part-Within : (part : Bytes) (min max : ℕ) → Within min max (parse_part part min max)
unfolding parse_part
parse_part-Within part min max =
    Within-if (contains_byte b'/' part) min max _ _
      (λ _. parse_step-Within part (split_on b'/' part) min max)
      (λ _.
        Within-if (contains_byte b'-' part) min max _ _
          (λ _. parse_range-Within part (split_on b'-' part) min max)
          (λ _. parse_value-Within part (atoi part) min max))

then_values-Within :
    (min max : ℕ) (a b : Result CronError (List ℕ))
    → Within min max a
    → Within min max b
    → Within min max (then_values a b)
then_values-Within min max (err e) b ha hb = tt
then_values-Within min max (ok a) (err e) ha hb = tt
then_values-Within min max (ok a) (ok b) ha hb = Between-append min max a b ha hb

parse_parts-Within : (parts : List Bytes) (min max : ℕ) → Within min max (parse_parts parts min max)
unfolding parse_parts
parse_parts-Within [] min max = tt
parse_parts-Within (part ∷ parts) min max =
    then_values-Within min max (parse_part part min max) (parse_parts parts min max)
      (parse_part-Within part min max) (parse_parts-Within parts min max)

-- A result that is an error, or values that are not empty and within the bounds.
abbrev pub Field : ℕ → ℕ → Result CronError (List ℕ) → Type 0
Field min max (err e) = Unit
Field min max (ok values) = (values ≢ []) × Between min max values

non_empty-Field :
    (field : Bytes) (min max : ℕ) (a : Result CronError (List ℕ))
    → Within min max a
    → Field min max (non_empty field a)
non_empty-Field field min max (err e) h = tt
non_empty-Field field min max (ok []) h = tt
non_empty-Field field min max (ok (v ∷ values)) h = (cc, h)

Field-if :
    (b : Bool) (min max : ℕ) (x y : Result CronError (List ℕ))
    → Field min max x
    → Field min max y
    → Field min max (if b then x else y)
Field-if true min max x y hx hy = hx
Field-if false min max x y hx hy = hy

interval-filled : (n start : ℕ) → 0 < n → interval n start ≢ []
unfolding interval
interval-filled zero start h = absurd (omega arith)
interval-filled (suc n) start h = cc

named-Field :
    (name : String) (min max : ℕ) (a : Result CronError (List ℕ))
    → Field min max a
    → Field min max (named name a)
named-Field name min max (err e) h = tt
named-Field name min max (ok values) h = h

named-Field' :
    (name : String) (min max : ℕ) (field : Bytes)
    → min ≤ max
    → Field min max (named name (parse_cron_field field min max))
named-Field' name min max field l = named-Field name min max _ (
    unfold parse_cron_field in
    Field-if (beq field (bytes "*")) min max _ _
      (
        interval-filled (max + 1 - min) min (omega arith),
        interval-Between (max + 1 - min) min min max (omega arith) (omega arith),
      )
      (non_empty-Field field min max _ (parse_parts-Within (split_on b',' field) min max)))

-- Every list is not empty and within the bounds of its field.
pub record IsCron (c : CronExpression) : Type 0 where
  pub minutes : (c.minutes ≢ []) × Between 0 59 c.minutes
  pub hours : (c.hours ≢ []) × Between 0 23 c.hours
  pub days_of_month : (c.days_of_month ≢ []) × Between 1 31 c.days_of_month
  pub months : (c.months ≢ []) × Between 1 12 c.months
  pub days_of_week : (c.days_of_week ≢ []) × Between 0 6 c.days_of_week

abbrev Expression : Result CronError CronExpression → Type 0
Expression (err e) = Unit
Expression (ok c) = IsCron c

expression-IsCron :
    (a b c d e : Result CronError (List ℕ))
    → Field 0 59 a
    → Field 0 23 b
    → Field 1 31 c
    → Field 1 12 d
    → Field 0 6 e
    → Expression (expression a b c d e)
expression-IsCron (err x) b c d e fa fb fc fd fe = tt
expression-IsCron (ok a) (err x) c d e fa fb fc fd fe = tt
expression-IsCron (ok a) (ok b) (err x) d e fa fb fc fd fe = tt
expression-IsCron (ok a) (ok b) (ok c) (err x) e fa fb fc fd fe = tt
expression-IsCron (ok a) (ok b) (ok c) (ok d) (err x) fa fb fc fd fe = tt
expression-IsCron (ok a) (ok b) (ok c) (ok d) (ok e) fa fb fc fd fe = record {
  minutes = fa;
  hours = fb;
  days_of_month = fc;
  months = fd;
  days_of_week = fe;
}

parse_fields-IsCron : (fields : List Bytes) → Expression (parse_fields fields)
unfolding parse_fields
parse_fields-IsCron (a ∷ b ∷ c ∷ d ∷ e ∷ []) =
    expression-IsCron _ _ _ _ _ (named-Field' "minute" 0 59 a (omega arith))
      (named-Field' "hour" 0 23 b (omega arith)) (named-Field' "day-of-month" 1 31 c (omega arith))
      (named-Field' "month" 1 12 d (omega arith)) (named-Field' "day-of-week" 0 6 e (omega arith))
parse_fields-IsCron [] = tt
parse_fields-IsCron (a ∷ []) = tt
parse_fields-IsCron (a ∷ b ∷ []) = tt
parse_fields-IsCron (a ∷ b ∷ c ∷ []) = tt
parse_fields-IsCron (a ∷ b ∷ c ∷ d ∷ []) = tt
parse_fields-IsCron (a ∷ b ∷ c ∷ d ∷ e ∷ f ∷ rest) = tt

-- In an expression that `ParseCronExpression` accepts, every field has at least one value, and all its
-- values are within the field's bounds.
pub parse_cron_expression-IsCron :
    (expr : Bytes) (c : CronExpression) → parse_cron_expression expr ≡ ok c → IsCron c
unfolding parse_cron_expression
parse_cron_expression-IsCron expr c h = subst Expression h (parse_fields-IsCron (fields_of expr))
