-- ===== src/Federation/VectorClock/Compare.antt =====
-- `Compare` of vector_clock.go against the causal order on the counters of all peers.
use nekzus.Prelude.{
  ℕ, ◌<◌, ◌≤◌, String, ◌≡◌, refl, ◌≢◌, ◌⊎◌, ◌↔◌, inl, inr, Bool, true, false, ◌||◌, none, some, [],
  ◌∷◌, arith, eq_iff, ltb, Bool-cases,
}
use nekzus.Prelude.Dict.{Dict, lookup, put, entries, lookup-entries, lookup-put}
use nekzus.Federation.VectorClock.{
  VectorClock, before, after, count_of, add_peers, all_peers, observe, compare_loop, compare,
  verdict, counters,
}

-- Some key of `peers` has a smaller counter in the first clock.
any_less : VectorClock → VectorClock → Dict Bool → Bool
any_less vc other [] = false
any_less vc other ((p, _) ∷ ps) = ltb (count_of vc p) (count_of other p) || any_less vc other ps

compare_loop-any_less :
    (vc other : VectorClock) (ps : Dict Bool) (flags : Bool × Bool)
    → compare_loop vc other ps flags
      ≡ (flags.0 || any_less vc other ps, flags.1 || any_less other vc ps)
unfolding compare_loop any_less
compare_loop-any_less vc other [] (l, g) = ground arith
compare_loop-any_less vc other ((p, b) ∷ ps) (l, g) =
    ground
      (arith, compare_loop-any_less vc other ps (observe (count_of vc p) (count_of other p) (l, g)))

any_less_sound :
    (vc other : VectorClock) (ps : Dict Bool)
    → any_less vc other ps ≡ true
    → (p : String) × (count_of vc p < count_of other p)
unfolding any_less
any_less_sound vc other [] h = cc
any_less_sound vc other ((p, b) ∷ ps) h =
    elim (Bool-cases (ltb (count_of vc p) (count_of other p))) [
      | inl e ↦ (p, ground arith)
      | inr e ↦ any_less_sound vc other ps (ground arith)
    ]

any_less_complete :
    (vc other : VectorClock) (ps : Dict Bool) (p : String) {b : Bool}
    → lookup ps p ≡ some b
    → count_of vc p < count_of other p
    → any_less vc other ps ≡ true
unfolding any_less lookup
any_less_complete vc other [] p h lt = cc
any_less_complete vc other ((q, c) ∷ ps) p {b} h lt =
    ground (arith, any_less_complete vc other ps p {b = b}, eq_iff q p)

lookup-add_peers :
    (s : Dict Bool) (m : Dict ℕ) (j : String)
    → (lookup s j ≡ some true) ⊎ (lookup m j ≢ none)
    → lookup (add_peers s m) j ≡ some true
unfolding add_peers lookup
lookup-add_peers s [] j h = ground arith
lookup-add_peers s ((p, n) ∷ m) j h =
    ground (arith, lookup-add_peers (put s p true) m j, lookup-put s p true j, eq_iff p j)

count_of_absent :
    (vc : VectorClock) (p : String) → lookup (entries (counters vc)) p ≡ none → count_of vc p ≡ 0
unfolding count_of lookup
count_of_absent none p h = refl
count_of_absent (some m) p h = ground (arith, lookup-entries m p)

-- A peer whose two counters differ has a key in one of the two clocks.
differing_has_key :
    (vc other : VectorClock) (p : String)
    → (count_of vc p < count_of other p) ⊎ (count_of other p < count_of vc p)
    → (lookup (entries (counters vc)) p ≢ none) ⊎ (lookup (entries (counters other)) p ≢ none)
differing_has_key vc other p h = ground (arith, count_of_absent vc p, count_of_absent other p)

lookup-all_peers :
    (vc other : VectorClock) (p : String)
    → (count_of vc p < count_of other p) ⊎ (count_of other p < count_of vc p)
    → lookup (entries (all_peers vc other)) p ≡ some true
unfolding all_peers
lookup-all_peers vc other p h =
    rw
      (lookup-entries (add_peers (add_peers [] (entries (counters vc))) (entries (counters other)))
        p)
      (lookup-add_peers (add_peers [] (entries (counters vc))) (entries (counters other)) p
        (elim (differing_has_key vc other p h) [
          | inl k ↦ inl (lookup-add_peers [] (entries (counters vc)) p (inr k))
          | inr k ↦ inr k
        ]))

any_less_lt :
    (vc other : VectorClock) (p : String)
    → count_of vc p < count_of other p
    → any_less vc other (entries (all_peers vc other)) ≡ true
any_less_lt vc other p h =
    any_less_complete vc other (entries (all_peers vc other)) p
      (lookup-all_peers vc other p (inl h)) h

any_greater_lt :
    (vc other : VectorClock) (p : String)
    → count_of other p < count_of vc p
    → any_less other vc (entries (all_peers vc other)) ≡ true
any_greater_lt vc other p h =
    any_less_complete other vc (entries (all_peers vc other)) p
      (lookup-all_peers vc other p (inr h)) h

flags : VectorClock → VectorClock → Bool × Bool
flags vc other = (
  any_less vc other (entries (all_peers vc other)),
  any_less other vc (entries (all_peers vc other)),
)

compare-flags : (vc other : VectorClock) → compare vc other ≡ verdict (flags vc other)
unfolding compare flags
compare-flags vc other =
    ground (arith, compare_loop-any_less vc other (entries (all_peers vc other)) (false, false))

not_less :
    (vc other : VectorClock)
    → (flags vc other).0 ≡ false
    → (p : String) → count_of other p ≤ count_of vc p
unfolding flags
not_less vc other h p = ground (arith, any_less_lt vc other p)

not_greater :
    (vc other : VectorClock)
    → (flags vc other).1 ≡ false
    → (p : String) → count_of vc p ≤ count_of other p
unfolding flags
not_greater vc other h p = ground (arith, any_greater_lt vc other p)

some_less :
    (vc other : VectorClock)
    → (flags vc other).0 ≡ true
    → (p : String) × (count_of vc p < count_of other p)
unfolding flags
some_less vc other h = any_less_sound vc other _ h

some_greater :
    (vc other : VectorClock)
    → (flags vc other).1 ≡ true
    → (p : String) × (count_of other p < count_of vc p)
unfolding flags
some_greater vc other h = any_less_sound other vc _ h

-- At every peer the first clock is at most the second, and at some peer it is behind.
abbrev pub HappenedBefore : VectorClock → VectorClock → Type 0
HappenedBefore vc other =
    ((p : String) → count_of vc p ≤ count_of other p)
    × ((p : String) × (count_of vc p < count_of other p))

less_unless :
    (vc other : VectorClock) (p : String)
    → count_of vc p < count_of other p
    → (flags vc other).0 ≡ true
unfolding flags
less_unless vc other p h = any_less_lt vc other p h

greater_unless :
    (vc other : VectorClock) (p : String)
    → count_of other p < count_of vc p
    → (flags vc other).1 ≡ true
unfolding flags
greater_unless vc other p h = any_greater_lt vc other p h

not_true : (b : Bool) → (b ≡ true → ⊥) → b ≡ false
not_true true h = absurd (h refl)
not_true false h = refl

-- `Compare` returns -1 exactly when the receiver happened before the argument: no counter of it is
-- greater and some counter is smaller.
pub compare-before_iff :
    (vc other : VectorClock) → (compare vc other ≡ before) ↔ HappenedBefore vc other
compare-before_iff vc other = (to, from)
  where
    to : compare vc other ≡ before → HappenedBefore vc other
    to h = (
      not_greater vc other (ground (arith, compare-flags vc other)),
      some_less vc other (ground (arith, compare-flags vc other)),
    )

    from : HappenedBefore vc other → compare vc other ≡ before
    from (le, (p, lt)) = ground (
      arith,
      compare-flags vc other,
      less_unless vc other p lt,
      not_true (flags vc other).1
          (λ g. let (q, gt) = some_greater vc other g in omega (arith, le q)),
    )

-- `Compare` returns 1 exactly when the argument happened before the receiver.
pub compare-after_iff :
    (vc other : VectorClock) → (compare vc other ≡ after) ↔ HappenedBefore other vc
compare-after_iff vc other = (to, from)
  where
    to : compare vc other ≡ after → HappenedBefore other vc
    to h = (
      not_less vc other (ground (arith, compare-flags vc other)),
      some_greater vc other (ground (arith, compare-flags vc other)),
    )

    from : HappenedBefore other vc → compare vc other ≡ after
    from (le, (p, lt)) = ground (
      arith,
      compare-flags vc other,
      greater_unless vc other p lt,
      not_true (flags vc other).0 (λ g. let (q, gt) = some_less vc other g in omega (arith, le q)),
    )
