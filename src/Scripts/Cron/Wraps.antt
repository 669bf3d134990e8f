-- ===== src/Scripts/Cron/Wraps.antt =====
-- The values that the loop over the range of a step keeps, and the range whose loop does not end.
use nekzus.Prelude.{
  ℕ, zero, suc, ◌+◌, ◌-◌, ◌*◌, ◌^◌, ◌%◌, ◌≤◌, ◌<◌, ◌≡◌, ◌↔◌, ◌⊎◌, refl, inl, inr, Bool, true, false,
  ◌&&◌, none, some, List, [], ◌∷◌, ltb, leb, nat_beq, any, arith, if◌then◌else◌, Bool-cases,
}
use nekzus.Scripts.Cron.{int, all_rounds, step_loop}

-- A number that is a whole number of steps behind the start, within the range and the field's bounds.
pub record Stepped (start end step min max v : ℕ) : Type 0 where
  pub steps : ℕ
  pub at : v ≡ start + steps * step
  pub in_range : v ≤ end
  pub ge_min : min ≤ v
  pub le_max : v ≤ max

module _ (end step min max : ℕ) where
  past_end : (start v : ℕ) → end < start → Stepped start end step min max v → ⊥
  past_end start v e s = absurd (omega (arith, s.at, s.in_range))

  steps_of :
      (start v k : ℕ)
      → v ≡ start + k * step
      → (v ≡ start) ⊎ ((j : ℕ) × (v ≡ start + step + j * step))
  steps_of start v zero e = inl (omega (arith, e))
  steps_of start v (suc k) e = inr (k, omega (arith, e))

  earlier :
      (start v : ℕ) → Stepped (start + step) end step min max v → Stepped start end step min max v
  earlier start v s = record {
    steps = suc s.steps;
    at = omega (arith, s.at);
    in_range = s.in_range;
    ge_min = s.ge_min;
    le_max = s.le_max;
  }

  later :
      (start v j : ℕ)
      → v ≡ start + step + j * step
      → Stepped start end step min max v
      → Stepped (start + step) end step min max v
  later start v j e s = record {
    steps = j;
    at = e;
    in_range = s.in_range;
    ge_min = s.ge_min;
    le_max = s.le_max;
  }

  abbrev Kept : ℕ → List ℕ → ℕ → Type 0
  Kept start values v = (any (nat_beq v) values ≡ true) ↔ Stepped start end step min max v

  found :
      (start : ℕ) (rest : List ℕ) (v : ℕ)
      → start ≤ end
      → min ≤ start
      → start ≤ max
      → (any (nat_beq v) rest ≡ true → Stepped (start + step) end step min max v)
      → (v ≡ start) ⊎ (any (nat_beq v) rest ≡ true)
      → Stepped start end step min max v
  found start rest v l lo hi f (inl e) = record {
    steps = 0;
    at = omega (arith, e);
    in_range = omega (arith, e);
    ge_min = omega (arith, e);
    le_max = omega (arith, e);
  }
  found start rest v l lo hi f (inr h) = earlier start v (f h)

  head_or_rest :
      (v i : ℕ) (rest : List ℕ)
      → any (nat_beq v) (i ∷ rest) ≡ true
      → (v ≡ i) ⊎ (any (nat_beq v) rest ≡ true)
  head_or_rest v i rest h = elim (Bool-cases (nat_beq v i)) [
    | inl e ↦ inl (ground arith)
    | inr e ↦ inr (ground arith)
  ]

  with_start :
      (b : Bool) (i start : ℕ) (rest : List ℕ) (v : ℕ)
      → i ≡ start
      → start ≤ end
      → (b ≡ true → (min ≤ start) × (start ≤ max))
      → (b ≡ false → min ≤ start → start ≤ max → ⊥)
      → Kept (start + step) rest v
      → Kept start (if b then i ∷ rest else rest) v
  with_start true i start rest v e l h h' (f, g) = (
    (λ x. found start rest v l (h refl).0 (h refl).1 f (ground (arith, head_or_rest v i rest x))),
    (λ s. elim (steps_of start v s.steps s.at) [
      | inl d ↦ ground arith
      | inr (j, d) ↦ ground (arith, g (later start v j d s))
    ]),
  )
  with_start false i start rest v e l h h' (f, g) = (
    (λ x. earlier start v (f x)),
    (λ s. elim (steps_of start v s.steps s.at) [
      | inl d ↦ absurd (h' refl (omega (arith, d, s.ge_min)) (omega (arith, d, s.le_max)))
      | inr (j, d) ↦ g (later start v j d s)
    ]),
  )

  loop-Stepped :
      (fuel start : ℕ)
      → 0 < fuel
      → end + 2 ≤ start + fuel
      → 0 < step
      → end + step < 2 ^ 63
      → (values : List ℕ) × (step_loop fuel (int start) end step min max ≡ some values)
        × ((v : ℕ) → (any (nat_beq v) values ≡ true) ↔ Stepped start end step min max v)
  unfolding step_loop
  loop-Stepped zero start p f s l = absurd (omega arith)
  loop-Stepped (suc fuel) start p f s l = elim (Bool-cases (ltb (int end) (int start))) [
    | inl e ↦ (
      [],
      ground arith,
      λ v. ((λ x. absurd cc), (λ x. absurd (past_end start v (ground arith) x))),
    )
    | inr e ↦
        let (rest, g, h) = loop-Stepped fuel (start + step) (ground arith) (ground arith) s l in
        let wraps : (int start + step) % 2 ^ 64 ≡ int (start + step) = ground arith in
        (
          (if leb (int min) (int start) && leb (int start) (int max)
              then (int start - 2 ^ 63) ∷ rest
              else rest),
          ground (arith, wraps, g, e),
          λ v.
              with_start (leb (int min) (int start) && leb (int start) (int max))
                (int start - 2 ^ 63) start rest v (omega arith) (ground arith)
                (λ k. (ground arith, ground arith)) (λ k lo hi. absurd (ground arith)) (h v),
        )
  ]

-- Where the step is positive and the end of the range and the step together are below 2^63, the loop over
-- the range ends, and the values it keeps are the numbers that are a whole number of steps behind the
-- start, at most the end of the range, and within the bounds of the field.
pub step_loop-Stepped :
    (start end step min max : ℕ)
    → 0 < step
    → end + step < 2 ^ 63
    → (values : List ℕ) × (step_loop all_rounds (int start) end step min max ≡ some values)
      × ((v : ℕ) → (any (nat_beq v) values ≡ true) ↔ Stepped start end step min max v)
step_loop-Stepped start end step min max s l =
    loop-Stepped end step min max all_rounds start (omega arith) (omega arith) s l

-- Where the range ends at the greatest int, the loop has not ended after any number of rounds: no int is
-- greater than the end.
pub step_loop-endless :
    (rounds i step min max : ℕ) → i < 2 ^ 64 → step_loop rounds i (2 ^ 63 - 1) step min max ≡ none
unfolding step_loop
step_loop-endless zero i step min max l = refl
step_loop-endless (suc rounds) i step min max l =
    let rest = step_loop-endless rounds ((i + step) % 2 ^ 64) step min max (omega arith) in
    ground (arith, rest)
