-- ===== src/Prelude/Lists.antt =====
-- Lists measured by native numbers, under the library's names, and the loops over slices.
use Prim.Native.Nat.{ℕ, zero, suc, ◌+◌, min}
use mathlib.Core.Path.{◌≡◌}
use mathlib.Core.Bool.{Bool, true, false, ◌||◌, ◌&&◌}
use mathlib.Core.Option.{Option, none, some}
use mathlib.Core.List.{List, [], ◌∷◌, ◌++◌}
use native.Mathlib.Omega.{arith}

module _ {ℓ} {A : Type ℓ} where
  abbrev pub length : List A → ℕ
  length [] = 0
  length (x ∷ xs) = suc (length xs)

  abbrev pub take : ℕ → List A → List A
  take zero xs = []
  take (suc n) [] = []
  take (suc n) (x ∷ xs) = x ∷ take n xs

  abbrev pub drop : ℕ → List A → List A
  drop zero xs = xs
  drop (suc n) [] = []
  drop (suc n) (x ∷ xs) = drop n xs

  -- `any` and `all` that run in a test.
  abbrev pub any : (A → Bool) → List A → Bool
  any p [] = false
  any p (x ∷ xs) = p x || any p xs

  abbrev pub all : (A → Bool) → List A → Bool
  all p [] = true
  all p (x ∷ xs) = p x && all p xs

  abbrev pub All {κ} : (A → Type κ) → List A → Type κ
  All P [] = Unit
  All P (x ∷ xs) = P x × All P xs

  pub length-append : (xs ys : List A) → length (xs ++ ys) ≡ length xs + length ys
  length-append [] ys = omega arith
  length-append (x ∷ xs) ys = omega (arith, length-append xs ys)

  pub length-take : (n : ℕ) (xs : List A) → length (take n xs) ≡ min n (length xs)
  length-take zero xs = omega arith
  length-take (suc n) [] = omega arith
  length-take (suc n) (x ∷ xs) = omega (arith, length-take n xs)

  unfoldable pub before : A → Option (A × List A) → Option (A × List A)
  before x none = none
  before x (some (found, others)) = some (found, x ∷ others)

  -- The element at a place, and the other ones.
  unfoldable pub taken : ℕ → List A → Option (A × List A)
  unfolding before
  taken n [] = none
  taken zero (x ∷ xs) = some (x, xs)
  taken (suc n) (x ∷ xs) = before x (taken n xs)

  abbrev pub Shorter : ℕ → Option (A × List A) → Type 0
  Shorter n none = Unit
  Shorter n (some (x, others)) = n ≡ suc (length others)

  before-Shorter :
      (n : ℕ) (x : A) (o : Option (A × List A)) → Shorter n o → Shorter (suc n) (before x o)
  unfolding before
  before-Shorter n x none h = h
  before-Shorter n x (some (found, others)) h = omega (arith, h)

  pub taken-Shorter : (n : ℕ) (xs : List A) → Shorter (length xs) (taken n xs)
  unfolding taken
  taken-Shorter n [] = tt
  taken-Shorter zero (x ∷ xs) = omega arith
  taken-Shorter (suc n) (x ∷ xs) = before-Shorter (length xs) x (taken n xs) (taken-Shorter n xs)

  abbrev pub Both {κ} : (A → Type κ) → Option (A × List A) → Type κ
  Both P none = Unit
  Both P (some (x, others)) = P x × All P others

  before-Both {κ} :
      (P : A → Type κ) (x : A) (o : Option (A × List A)) → P x → Both P o → Both P (before x o)
  unfolding before
  before-Both P x none p h = h
  before-Both P x (some (found, others)) p (q, a) = (q, (p, a))

  pub taken-Both {κ} : (P : A → Type κ) (n : ℕ) (xs : List A) → All P xs → Both P (taken n xs)
  unfolding taken
  taken-Both P n [] a = tt
  taken-Both P zero (x ∷ xs) a = a
  taken-Both P (suc n) (x ∷ xs) (p, a) = before-Both P x (taken n xs) p (taken-Both P n xs a)

  pub All-append {κ} : (P : A → Type κ) (xs ys : List A) → All P xs → All P ys → All P (xs ++ ys)
  All-append P [] ys a b = b
  All-append P (x ∷ xs) ys (p, a) b = (p, All-append P xs ys a b)
