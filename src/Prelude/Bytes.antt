-- ===== src/Prelude/Bytes.antt =====
-- Go strings that the program takes apart, as lists of bytes, with the functions of `strings` that
-- the program calls on them.
use Prim.Native.Nat.{ℕ, zero, suc, ◌-◌}
use Prim.Native.Char.{code}
use Prim.Native.String.{String}
use mathlib.Core.Path.{◌≡◌, refl, sym, ap, ◌∙◌}
use mathlib.Core.Logic.{◌↔◌, inl, inr}
use mathlib.Core.Bool.{Bool, true, false, ◌&&◌}
use mathlib.Core.Option.{Option, none, some}
use mathlib.Core.List.{List, [], ◌∷◌, ◌++◌}
use native.Mathlib.Omega.{arith}
use nekzus.Prelude.Tests.{leb, nat_beq, Option-cases, if◌then◌else◌}
use nekzus.Prelude.Lists.{length, take, drop, length-append}

abbrev pub Bytes : Type 0
Bytes = List ℕ

-- An ASCII literal.
abbrev pub bytes : String → Bytes
bytes String.[] = []
bytes (String.◌∷◌ c s) = code c ∷ bytes s

unfoldable pub beq : Bytes → Bytes → Bool
beq [] [] = true
beq (a ∷ s) (b ∷ t) = nat_beq a b && beq s t
beq _ _ = false

pub beq_sound : (s t : Bytes) → beq s t ≡ true → s ≡ t
unfolding beq
beq_sound [] [] h = refl
beq_sound (a ∷ s) (b ∷ t) h = ground (arith, beq_sound s t)
beq_sound [] (b ∷ t) h = cc
beq_sound (a ∷ s) [] h = cc

pub beq_refl : (s : Bytes) → beq s s ≡ true
unfolding beq
beq_refl [] = refl
beq_refl (a ∷ s) = ground (arith, beq_refl s)

pub beq_iff : (s t : Bytes) → (beq s t ≡ true) ↔ (s ≡ t)
beq_iff s t = (beq_sound s t, λ e. rw e (beq_refl t))

-- s[len(prefix):] where strings.HasPrefix(s, prefix), in the order (prefix, s)
unfoldable pub cut_prefix : Bytes → Bytes → Option Bytes
cut_prefix [] s = some s
cut_prefix (a ∷ p) [] = none
cut_prefix (a ∷ p) (b ∷ s) = if nat_beq a b then cut_prefix p s else none

-- strings.HasPrefix(s, prefix)
unfoldable pub has_prefix : Bytes → Bytes → Bool
unfolding cut_prefix
has_prefix s prefix = elim (cut_prefix prefix s) [ none ↦ false | some _ ↦ true ]

-- strings.HasSuffix(s, suffix)
unfoldable pub has_suffix : Bytes → Bytes → Bool
unfolding beq
has_suffix s suffix =
    leb (length suffix) (length s) && beq (drop (length s - length suffix) s) suffix

pub cut_prefix_sound : (p s : Bytes) {r : Bytes} → cut_prefix p s ≡ some r → s ≡ p ++ r
unfolding cut_prefix
cut_prefix_sound [] s h = ground arith
cut_prefix_sound (a ∷ p) [] h = cc
cut_prefix_sound (a ∷ p) (b ∷ s) {r} h = ground (arith, cut_prefix_sound p s {r = r})

pub cut_prefix-append : (p r : Bytes) → cut_prefix p (p ++ r) ≡ some r
unfolding cut_prefix
cut_prefix-append [] r = refl
cut_prefix-append (a ∷ p) r = ground (arith, cut_prefix-append p r)

pub has_prefix_sound : (s p : Bytes) → has_prefix s p ≡ true → (r : Bytes) × (s ≡ p ++ r)
unfolding has_prefix
has_prefix_sound s p h = elim (Option-cases (cut_prefix p s)) [
  | inl e ↦ absurd (ground arith)
  | inr (r, e) ↦ (r, cut_prefix_sound p s e)
]

pub has_prefix-append : (p r : Bytes) → has_prefix (p ++ r) p ≡ true
unfolding has_prefix
has_prefix-append p r = ground (arith, cut_prefix-append p r)

take-append-drop : (n : ℕ) (s : Bytes) → take n s ++ drop n s ≡ s
take-append-drop zero s = refl
take-append-drop (suc n) [] = refl
take-append-drop (suc n) (a ∷ s) = ap (λ r. a ∷ r) (take-append-drop n s)

pub drop-append : (p s : Bytes) → drop (length p) (p ++ s) ≡ s
drop-append [] s = refl
drop-append (a ∷ p) s = drop-append p s

pub take-append : (p s : Bytes) → take (length p) (p ++ s) ≡ p
take-append [] s = refl
take-append (a ∷ p) s = ap (λ r. a ∷ r) (take-append p s)

pub has_suffix_sound :
    (s suffix : Bytes) → has_suffix s suffix ≡ true → (p : Bytes) × (s ≡ p ++ suffix)
unfolding has_suffix
has_suffix_sound s suffix h = (
  take (length s - length suffix) s,
  sym (take-append-drop (length s - length suffix) s)
      ∙ ap (λ r. take (length s - length suffix) s ++ r)
          (beq_sound (drop (length s - length suffix) s) suffix (ground arith)),
)

pub has_suffix-append : (p suffix : Bytes) → has_suffix (p ++ suffix) suffix ≡ true
unfolding has_suffix
has_suffix-append p suffix =
    let l = length-append p suffix in
    let m : length (p ++ suffix) - length suffix ≡ length p = omega (arith, l) in
    rw (m, drop-append p suffix, beq_refl suffix) (ground (arith, l))
