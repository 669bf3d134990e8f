-- ===== src/Scripts/Scheduler/NextRun.antt =====
-- The next run of a schedule is the first whole minute that fits its expression.
use nekzus.Prelude.{
  ap, sym, ◌∙◌, ℕ, zero, suc, ◌+◌, ◌-◌, ◌*◌, ◌/◌, ◌%◌, ltb, Bool-cases, ◌≤◌, ◌<◌, ◌≡◌, ◌⊎◌, refl,
  inl, inr, Bool, true, false, Option, none, some, arith, ok,
}
use nekzus.Scripts.Cron.{CronExpression, parse_cron_expression}
use nekzus.Scripts.Scheduler.{
  Calendar, minute_length, max_iterations, contains, matches, search, next_minute, or_fallback,
  next_run, Schedule, Execution, check_schedule, execute_schedule, is_due,
}

module _ (cal : Calendar) where
  -- The first of some minutes that matches.
  pub record FirstMatch (c : CronExpression) (n start t : ℕ) : Type 0 where
    pub rounds : ℕ
    pub within : rounds < n
    pub at : t ≡ start + rounds * minute_length
    pub here : matches cal c t ≡ true
    pub earlier : (j : ℕ) → j < rounds → matches cal c (start + j * minute_length) ≡ false

  abbrev pub NoMatch : CronExpression → ℕ → ℕ → Type 0
  NoMatch c n start = (j : ℕ) → j < n → matches cal c (start + j * minute_length) ≡ false

  abbrev Searched : CronExpression → ℕ → ℕ → Option ℕ → Type 0
  Searched c n start none = NoMatch c n start
  Searched c n start (some t) = FirstMatch c n start t

  later_none :
      (c : CronExpression) (n start : ℕ)
      → matches cal c start ≡ false
      → NoMatch c n (start + minute_length)
      → NoMatch c (suc n) start
  later_none c n start e h zero l =
      ap (matches cal c) {x = start + 0 * minute_length} {y = start} (omega arith) ∙ e
  later_none c n start e h (suc j) l =
      ap (matches cal c) {x = start + suc j * minute_length}
        {y = start + minute_length + j * minute_length} (omega arith)
      ∙ h j (omega arith)

  later-Searched :
      (c : CronExpression) (n start : ℕ) (o : Option ℕ)
      → matches cal c start ≡ false
      → Searched c n (start + minute_length) o
      → Searched c (suc n) start o
  later-Searched c n start none e h = later_none c n start e h
  later-Searched c n start (some t) e f = record {
    rounds = suc f.rounds;
    within = omega (arith, f.within);
    at = omega (arith, f.at);
    here = f.here;
    earlier = λ j l. later_none c f.rounds start e f.earlier j l;
  }

  one_round :
      (c : CronExpression) (n start : ℕ) (b : Bool) (o : Option ℕ)
      → matches cal c start ≡ b
      → Searched c n (start + minute_length) o
      → Searched c (suc n) start (elim b [ true ↦ some start | false ↦ o ])
  one_round c n start true o e h = record {
    rounds = 0;
    within = omega arith;
    at = omega arith;
    here = e;
    earlier = λ j l. absurd (omega arith);
  }
  one_round c n start false o e h = later-Searched c n start o e h

  search-Searched :
      (n : ℕ) (c : CronExpression) (start : ℕ) → Searched c n start (search cal n c start)
  unfolding search
  search-Searched zero c start = λ j l. absurd (omega arith)
  search-Searched (suc n) c start =
      one_round c n start (matches cal c start) (search cal n c (start + minute_length)) refl
        (search-Searched n c (start + minute_length))

  -- A time at which the clock shows values of all five fields.
  pub record Fits (c : CronExpression) (t : ℕ) : Type 0 where
    pub minute : contains c.minutes (cal.minute t) ≡ true
    pub hour : contains c.hours (cal.hour t) ≡ true
    pub day : contains c.days_of_month (cal.day t) ≡ true
    pub month : contains c.months (cal.month t) ≡ true
    pub weekday : contains c.days_of_week (cal.weekday t) ≡ true

  -- A time without seconds.
  abbrev pub Whole : ℕ → Type 0
  Whole t = t % 60_000_000_000 ≡ 0

  -- No whole minute behind the one time and before the other one fits.
  abbrev pub NoneFits : CronExpression → ℕ → ℕ → Type 0
  NoneFits c after before = (u : ℕ) → Whole u → after < u → u < before → Fits c u → ⊥

  -- The first whole minute behind a time that fits.
  pub record FirstFit (c : CronExpression) (after t : ℕ) : Type 0 where
    pub whole : Whole t
    pub later : after < t
    pub in_four_years : t ≤ after + 2_102_400 * 60_000_000_000
    pub fits : Fits c t
    pub first : NoneFits c after t

  matches-Fits : (c : CronExpression) (t : ℕ) → matches cal c t ≡ true → Fits c t
  unfolding matches
  matches-Fits c t h = record {
    minute = ground (arith, h);
    hour = ground (arith, h);
    day = ground (arith, h);
    month = ground (arith, h);
    weekday = ground (arith, h);
  }

  Fits-matches : (c : CronExpression) (t : ℕ) → Fits c t → matches cal c t ≡ true
  unfolding matches
  Fits-matches c t f = ground (arith, f.minute, f.hour, f.day, f.month, f.weekday)

  -- The round in which the search looks at a whole minute.
  round_of :
      (after u : ℕ)
      → Whole u
      → after < u
      → (j : ℕ) × (u ≡ next_minute cal after + j * minute_length)
  round_of after u w l = (u / 60_000_000_000 - after / 60_000_000_000 - 1, omega (arith, w))

  NoMatch-NoneFits :
      (c : CronExpression) (after n before : ℕ)
      → before ≤ next_minute cal after + n * minute_length
      → NoMatch c n (next_minute cal after)
      → NoneFits c after before
  NoMatch-NoneFits c after n before l h u w la lb f =
      let (j, e) = round_of after u w la in
      let m : matches cal c (next_minute cal after + j * minute_length) ≡ true =
        ap (matches cal c) (sym e) ∙ Fits-matches c u f in
      absurd (ground (arith, h j (omega (arith, e, lb, l)), m))

  FirstMatch-FirstFit :
      (c : CronExpression) (after t : ℕ)
      → FirstMatch c max_iterations (next_minute cal after) t
      → FirstFit c after t
  FirstMatch-FirstFit c after t f = record {
    whole = omega (arith, f.at);
    later = omega (arith, f.at);
    in_four_years = omega (arith, f.at, f.within);
    fits = matches-Fits c t f.here;
    first = NoMatch-NoneFits c after f.rounds t (omega (arith, f.at)) f.earlier;
  }

  -- The next run behind a time.
  abbrev pub Next : CronExpression → ℕ → ℕ → Type 0
  Next c after t =
      FirstFit c after t
      ⊎ (NoneFits c after (after + 2_102_400 * 60_000_000_000) × (t ≡ after + 60_000_000_000))

  of_search :
      (c : CronExpression) (after : ℕ) (o : Option ℕ)
      → Searched c max_iterations (next_minute cal after) o
      → Next c after (or_fallback cal after o)
  of_search c after none h = inr (
    NoMatch-NoneFits c after max_iterations (after + 2_102_400 * 60_000_000_000) (omega arith) h,
    refl,
  )
  of_search c after (some t) h = inl (FirstMatch-FirstFit c after t h)

  -- `NextRun` returns the first whole minute after the time at which the clock shows values of all five
  -- fields, which is at most 2,102,400 minutes later; or, where none before that many minutes later
  -- does, the time one minute later, whatever the expression says.
  pub next_run-Next : (c : CronExpression) (after : ℕ) → Next c after (next_run cal c after)
  next_run-Next c after =
      unfold next_run in
      of_search c after (search cal max_iterations c (next_minute cal after))
        (search-Searched max_iterations c (next_minute cal after))

  -- The next run is not before the first whole minute that fits.
  next_run-gt :
      (c : CronExpression) (after later w : ℕ)
      → FirstFit c after w
      → later < w
      → w < after + 2_102_400 * 60_000_000_000
      → later < next_run cal c after
  next_run-gt c after later w f l b = elim (next_run-Next c after) [
    | inl g ↦ elim (Bool-cases (ltb later (next_run cal c after))) [
      | inl e ↦ ground arith
      | inr e ↦ absurd (f.first (next_run cal c after) g.whole g.later (ground arith) g.fits)
    ]
    | inr (n, e) ↦ absurd (n w f.whole f.later b f.fits)
  ]

  -- Where a check executes a schedule whose expression is valid, and the storage takes the new times, and
  -- some whole minute within the 2,102,400 minutes behind the end of the execution fits the
  -- expression, then no check before the first such minute executes it again.
  pub check_schedule-once :
      (s : Schedule) (now later w : ℕ) (e e' : Execution) (c : CronExpression)
      → is_due cal s now ≡ true
      → e.script_exists ≡ true
      → e.saved ≡ true
      → e.updated ≡ true
      → parse_cron_expression s.cron_expression ≡ ok c
      → FirstFit c e.ended w
      → w < e.ended + 2_102_400 * 60_000_000_000
      → later < w
      → check_schedule cal (check_schedule cal s now e).0 later e'
        ≡ ((check_schedule cal s now e).0, none)
  check_schedule-once s now later w e e' c d x sv up p f b l =
      let ran : (check_schedule cal s now e).0
          ≡ record s { last_run_at = some e.started; next_run_at = some (next_run cal c e.ended) } =
        unfold check_schedule execute_schedule in ground arith in
      let idle : is_due cal
            (record s { last_run_at = some e.started; next_run_at = some (next_run cal c e.ended) })
            later
          ≡ false =
        unfold is_due in ground (arith, next_run-gt c e.ended later w f l b) in
      rw ran (unfold check_schedule in rw idle refl)
