-- ===== src/Federation/VectorClock/Merge.antt =====
-- What `Increment`, `Merge` and `Copy` of vector_clock.go make of each counter.
use Prim.Native.Nat.{max}
use nekzus.Prelude.{
  ℕ, ◌+◌, ◌%◌, String, ◌≡◌, refl, none, some, [], ◌∷◌, arith, ◌==◌, eq_iff, ltb, if◌then◌else◌,
}
use nekzus.Prelude.Dict.{
  Dict, lookup, put, entries, IsUnique, entries-IsUnique, lookup-entries, lookup-put,
}
use nekzus.Federation.VectorClock.{
  VectorClock, uint64_mod, count_in, count_of, increment, merge_loop, merge, copy_loop, copy,
}

pub count_in-put :
    (m : Dict ℕ) (k : String) (n : ℕ) (j : String)
    → count_in (put m k n) j ≡ (if k == j then n else count_in m j)
unfolding count_in
count_in-put m k n j = ground (arith, lookup-put m k n j)

-- Incrementing a clock adds one to the counter of the peer, and wraps at 2^64; the other counters
-- stay.
pub count_of-increment :
    (m : Dict ℕ) (k j : String)
    → count_of (increment (some m) k) j
      ≡ (if k == j then (count_in m k + 1) % uint64_mod else count_in m j)
unfolding count_of increment
count_of-increment m k j = count_in-put m k ((count_in m k + 1) % uint64_mod) j

count_in-merge_loop :
    (m o : Dict ℕ) (j : String)
    → IsUnique o
    → count_in (merge_loop m o) j ≡ max (count_in m j) (count_in o j)
unfolding merge_loop
count_in-merge_loop m [] j u = unfold count_in lookup in omega arith
count_in-merge_loop m ((p, c) ∷ o) j (f, u) =
    unfold count_in lookup in
    ground (
      arith,
      count_in-merge_loop (if ltb (count_in m p) c then put m p c else m) o j u,
      lookup-put m p c j,
      eq_iff p j,
      f,
    )

count_in-entries : (m : Dict ℕ) (j : String) → count_in (entries m) j ≡ count_in m j
unfolding count_in
count_in-entries m j = ground (arith, lookup-entries m j)

-- Merging two clocks takes the maximum of the two counters at every peer, and does not panic when the
-- receiver is not nil.
pub count_of-merge :
    (m : Dict ℕ) (other : VectorClock) (j : String)
    → (vc : VectorClock) × (merge (some m) other ≡ some vc)
      × (count_of vc j ≡ max (count_in m j) (count_of other j))
unfolding merge count_of
count_of-merge m none j = (some m, refl, omega arith)
count_of-merge m (some o) j = (
  some (merge_loop m (entries o)),
  refl,
  rw (count_in-merge_loop m (entries o) j (entries-IsUnique o), count_in-entries o j),
)

lookup-copy_loop :
    (out m : Dict ℕ) (j : String)
    → IsUnique m
    → lookup (copy_loop out m) j ≡ elim (lookup m j) [ none ↦ lookup out j | some n ↦ some n ]
unfolding copy_loop lookup
lookup-copy_loop out [] j u = refl
lookup-copy_loop out ((p, c) ∷ m) j (f, u) =
    ground (arith, lookup-copy_loop (put out p c) m j u, lookup-put out p c j, eq_iff p j, f)

-- A copy has the counters of the clock it was made from.
pub count_of-copy : (vc : VectorClock) (j : String) → count_of (copy vc) j ≡ count_of vc j
unfolding copy count_of
count_of-copy none j = refl
count_of-copy (some m) j =
    ground (arith, lookup-copy_loop [] (entries m) j (entries-IsUnique m), lookup-entries m j)
