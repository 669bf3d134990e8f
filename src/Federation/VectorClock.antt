-- ===== src/Federation/VectorClock.antt =====
-- internal/federation/vector_clock.go. A clock is a Go map that may be nil; a counter is a uint64.
pub mod Merge
pub mod Compare
use nekzus.Prelude.{
  ℕ, ◌+◌, ◌%◌, ◌^◌, ◌<◌, String, ◌≡◌, Bool, true, false, not, ◌&&◌, Option, none, some, List, [],
  ◌∷◌, ltb, if◌then◌else◌,
}
use nekzus.Prelude.Dict.{Dict, lookup, put, entries}

-- `none` is the nil map.
abbrev pub VectorClock : Type 0
VectorClock = Option (Dict ℕ)

abbrev pub uint64_mod : ℕ
uint64_mod = 2 ^ 64

unfoldable pub new_vector_clock : VectorClock
new_vector_clock = some []

-- m[peer], which is 0 where the key is missing
unfoldable pub count_in : Dict ℕ → String → ℕ
unfolding lookup
count_in m peer = elim (lookup m peer) [ none ↦ 0 | some n ↦ n ]

-- vc[peer]; a read of the nil map gives 0
unfoldable pub count_of : VectorClock → String → ℕ
unfolding count_in
count_of none peer = 0
count_of (some m) peer = count_in m peer

-- On a nil receiver the new map is assigned to the method's own variable, so the caller's clock
-- stays nil.
unfoldable pub increment : VectorClock → String → VectorClock
unfolding put count_in
increment none peer = none
increment (some m) peer = some (put m peer ((count_in m peer + 1) % uint64_mod))

-- The loop of `Merge`.
unfoldable pub merge_loop : Dict ℕ → Dict ℕ → Dict ℕ
unfolding put count_in
merge_loop m [] = m
merge_loop m ((peer, count) ∷ rest) =
    merge_loop (if ltb (count_in m peer) count then put m peer count else m) rest

-- The loop on a nil receiver: the first write panics.
unfoldable pub merge_into_nil : Dict ℕ → Option VectorClock
merge_into_nil [] = some none
merge_into_nil ((peer, count) ∷ rest) =
    let others = merge_into_nil rest in if ltb 0 count then none else others

-- `none` is the panic of a write to a nil map.
unfoldable pub merge : VectorClock → VectorClock → Option VectorClock
unfolding merge_loop merge_into_nil entries
merge vc none = some vc
merge none (some other) = merge_into_nil (entries other)
merge (some m) (some other) = some (some (merge_loop m (entries other)))

-- The results -1, 0 and 1 of `Compare`.
pub data Causality : Type 0 where
  before concurrent after : Causality

-- allPeers[peer] = true for the keys of one clock
unfoldable pub add_peers : Dict Bool → Dict ℕ → Dict Bool
unfolding put
add_peers peers [] = peers
add_peers peers ((peer, _) ∷ rest) = add_peers (put peers peer true) rest

abbrev counters : VectorClock → Dict ℕ
counters none = []
counters (some m) = m

unfoldable pub all_peers : VectorClock → VectorClock → Dict Bool
unfolding add_peers entries
all_peers vc other = add_peers (add_peers [] (entries (counters vc))) (entries (counters other))

-- One round of the loop of `Compare`, on (lessThan, greaterThan).
abbrev pub observe : ℕ → ℕ → Bool × Bool → Bool × Bool
observe mine theirs (less, greater) =
    if ltb mine theirs
    then (true, greater)
    else if ltb theirs mine
    then (less, true)
    else (less, greater)

unfoldable pub compare_loop : VectorClock → VectorClock → Dict Bool → Bool × Bool → Bool × Bool
unfolding count_of
compare_loop vc other [] flags = flags
compare_loop vc other ((peer, _) ∷ rest) flags =
    compare_loop vc other rest (observe (count_of vc peer) (count_of other peer) flags)

abbrev pub verdict : Bool × Bool → Causality
verdict (less, greater) =
    if less && not greater then before else if greater && not less then after else concurrent

unfoldable pub compare : VectorClock → VectorClock → Causality
unfolding compare_loop all_peers entries
compare vc other = verdict (compare_loop vc other (entries (all_peers vc other)) (false, false))

-- for k, v := range vc { copy[k] = v }
unfoldable pub copy_loop : Dict ℕ → Dict ℕ → Dict ℕ
unfolding put
copy_loop out [] = out
copy_loop out ((k, v) ∷ rest) = copy_loop (put out k v) rest

unfoldable pub copy : VectorClock → VectorClock
unfolding copy_loop entries new_vector_clock
copy none = new_vector_clock
copy (some m) = some (copy_loop [] (entries m))
