-- ===== src/Auth/Pairing/Guessing.antt =====
-- The bound on guesses: how many codes can be tried in one window of the global limit. The check of the
-- limit and the rest of `RedeemCode` hold different locks, so that attempts interleave between the two.
use nekzus.Prelude.{
  ℕ, ◌+◌, ◌≤◌, ◌≡◌, String, refl, Option, none, some, List, [], taken, Shorter, taken-Shorter, ◌∷◌,
  arith, Result, ok, err, All, length, if◌then◌else◌,
}
use nekzus.Prelude.Dict.{lookup}
use nekzus.Auth.Pairing.{
  PairingCode, PairingConfig, PairingManager, RedeemError, invalid_code, too_many_attempts,
  redeem_found, redeem_locked, is_globally_rate_limited, reset_window,
}

-- The manager, and the codes of the attempts that have passed the check and wait for the lock.
pub record Guesses : Type 0 where
  pub manager : PairingManager
  pub waiting : List String

-- An attempt with the code checks the limit at the time; the waiting attempt at the place gets the lock.
pub data Step : Type 0 where
  step_check : String → ℕ → Step
  step_redeem : ℕ → ℕ → Step

abbrev pub Answer : Type 0
Answer = Option (Result RedeemError PairingConfig)

abbrev pub is_wrong : Answer → ℕ
is_wrong (some (err invalid_code)) = 1
is_wrong (some (err too_many_attempts)) = 0
is_wrong (some (ok config)) = 0
is_wrong none = 0

module _ (normalize : String → String) where
  abbrev pub redeem_taken : Guesses → Option (String × List String) → ℕ → Guesses × Answer
  redeem_taken g none now = (g, none)
  redeem_taken g (some (code, others)) now =
      let (pm, answer) = redeem_locked normalize g.manager code now in
      (record { manager = pm; waiting = others }, some answer)

  unfoldable pub step : Guesses → Step → Guesses × Answer
  unfolding is_globally_rate_limited redeem_locked taken
  step g (step_check code now) =
      let (pm, limited) = is_globally_rate_limited g.manager now in
      if limited
      then (record g { manager = pm }, some (err too_many_attempts))
      else (record { manager = pm; waiting = code ∷ g.waiting }, none)
  step g (step_redeem n now) = redeem_taken g (taken n g.waiting) now

  -- How many answers to some steps say that the code was wrong.
  unfoldable pub wrong : Guesses → List Step → ℕ
  unfolding step
  wrong g [] = 0
  wrong g (x ∷ steps) = is_wrong (step g x).1 + wrong (step g x).0 steps

  -- At most so many attempts wait at once.
  unfoldable pub AtOnce : ℕ → Guesses → List Step → Type 0
  unfolding step
  AtOnce k g [] = Unit
  AtOnce k g (x ∷ steps) = (length (step g x).0.waiting ≤ k) × AtOnce k (step g x).0 steps

abbrev pub time_of : Step → ℕ
time_of (step_check code now) = now
time_of (step_redeem n now) = now

-- One step within the window: a wrong answer adds one failure, and where failures and waiting attempts
-- together were below a bound, they are so behind it.
record Attempt (k : ℕ) (g g' : Guesses) (answer : Answer) : Type 0 where
  window : g'.manager.global_failure_reset ≡ g.manager.global_failure_reset
  counted : g'.manager.global_failures ≡ g.manager.global_failures + is_wrong answer
  capped :
      g.manager.global_failures + length g.waiting ≤ 99 + k
      → length g'.waiting ≤ k
      → g'.manager.global_failures + length g'.waiting ≤ 99 + k

-- The failures that an answer counts, and the window, which stays.
record Counted (pm pm' : PairingManager) (answer : Answer) : Type 0 where
  same_window : pm'.global_failure_reset ≡ pm.global_failure_reset
  failures : pm'.global_failures ≡ pm.global_failures + is_wrong answer
  at_most_one : is_wrong answer ≤ 1

found-Counted :
    (pm : PairingManager) (key : String) (o : Option PairingCode) (now : ℕ)
    → now ≤ pm.global_failure_reset
    → Counted pm (redeem_found pm key o now).0 (some (redeem_found pm key o now).1)
unfolding redeem_found
found-Counted pm key none now h = record {
  same_window = ground arith;
  failures = ground arith;
  at_most_one = omega arith;
}
found-Counted pm key (some pc) now h = record {
  same_window = ground arith;
  failures = ground arith;
  at_most_one = ground arith;
}

in_window :
    (pm : PairingManager) (now : ℕ) → now ≤ pm.global_failure_reset → reset_window pm now ≡ pm
unfolding reset_window
in_window pm now h = ground arith

module _ (normalize : String → String) where
  taken-Attempt :
      (k : ℕ) (g : Guesses) (o : Option (String × List String)) (now : ℕ)
      → now ≤ g.manager.global_failure_reset
      → Shorter (length g.waiting) o
      → Attempt k g (redeem_taken normalize g o now).0 (redeem_taken normalize g o now).1
  taken-Attempt k g none now h l = record {
    window = refl;
    counted = omega arith;
    capped = λ c d. c;
  }
  taken-Attempt k g (some (code, others)) now h l =
      unfold redeem_locked in
      let c =
        found-Counted g.manager (normalize code) (lookup g.manager.codes (normalize code)) now h in
      record {
        window = c.same_window;
        counted = c.failures;
        capped = λ b d. omega (arith, c.failures, c.at_most_one, l, b);
      }

  check-Attempt :
      (k : ℕ) (g : Guesses) (code : String) (now : ℕ)
      → now ≤ g.manager.global_failure_reset
      → Attempt k g
          (step normalize g (step_check code now)).0
          (step normalize g (step_check code now)).1
  unfolding step is_globally_rate_limited
  check-Attempt k g code now h = record {
    window = ground (arith, in_window g.manager now h);
    counted = ground (arith, in_window g.manager now h);
    capped = λ b d. ground (arith, in_window g.manager now h, b, d);
  }

  step-Attempt :
      (k : ℕ) (g : Guesses) (x : Step)
      → time_of x ≤ g.manager.global_failure_reset
      → Attempt k g (step normalize g x).0 (step normalize g x).1
  step-Attempt k g (step_check code now) h = check-Attempt k g code now h
  step-Attempt k g (step_redeem n now) h =
      unfold step in taken-Attempt k g (taken n g.waiting) now h (taken-Shorter n g.waiting)

  later_window :
      (n m : ℕ) (steps : List Step)
      → m ≡ n
      → All (λ x. time_of x ≤ n) steps
      → All (λ x. time_of x ≤ m) steps
  later_window n m [] e w = tt
  later_window n m (x ∷ steps) e w = (rw e w.0, later_window n m steps e w.1)

  -- The failures and the wrong answers together.
  wrong-le :
      (k : ℕ) (g : Guesses) (steps : List Step)
      → All (λ x. time_of x ≤ g.manager.global_failure_reset) steps
      → AtOnce normalize k g steps
      → g.manager.global_failures + length g.waiting ≤ 99 + k
      → wrong normalize g steps + g.manager.global_failures ≤ 99 + k
  unfolding wrong AtOnce
  wrong-le k g [] w o h = omega arith
  wrong-le k g (x ∷ steps) w o h =
      let a = step-Attempt k g x w.0 in
      let g' = (step normalize g x).0 in
      omega (
        arith,
        a.counted,
        wrong-le k g' steps
            (later_window g.manager.global_failure_reset g'.manager.global_failure_reset steps
              a.window w.1)
            o.1 (a.capped h o.0),
      )

  -- Whatever attempts are made within one window of the global limit, and however their checks of the
  -- limit and their redemptions interleave, where at most k of them, one or more, are between the two
  -- at once, none is so at first and at most 100 failures were counted before, the wrong answers and
  -- those failures together are at most 99 + k; 100, if the attempts come one after another.
  pub wrong-answers-le :
      (k : ℕ) (pm : PairingManager) (steps : List Step)
      → 1 ≤ k
      → All (λ x. time_of x ≤ pm.global_failure_reset) steps
      → AtOnce normalize k (record { manager = pm; waiting = [] }) steps
      → pm.global_failures ≤ 100
      → wrong normalize (record { manager = pm; waiting = [] }) steps + pm.global_failures ≤ 99 + k
  wrong-answers-le k pm steps l w o h =
      wrong-le k (record { manager = pm; waiting = [] }) steps w o (omega arith)
