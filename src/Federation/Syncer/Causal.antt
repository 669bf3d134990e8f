-- ===== src/Federation/Syncer/Causal.antt =====
-- The clock of a catalog syncer dominates the clocks of the versions it stores.
use Prim.Native.Nat.{max}
use nekzus.Prelude.{
  ℕ, ◌+◌, ◌%◌, ◌≤◌, ◌<◌, ◌≡◌, inl, inr, refl, ap, ◌∙◌, String, Option, none, some, arith, eq_iff,
  Bool-cases,
}
use nekzus.Prelude.Dict.{Dict, lookup, put, entries, lookup-put_cases}
use nekzus.Federation.VectorClock.{
  VectorClock, uint64_mod, count_in, count_of, increment, merge, merge_loop,
}
use nekzus.Federation.VectorClock.Compare.{HappenedBefore}
use nekzus.Federation.VectorClock.Merge.{count_of-increment, count_of-merge}
use nekzus.Federation.Service.{FederatedService}
use nekzus.Federation.Syncer.{
  Codec, Io, Store, CatalogSyncer, FederatedServiceData, row_of, save_federated_service,
}

-- A clock that is written and read back has the same counters.
abbrev pub RoundTrips : {A C J : Type 0} → Codec A C J → Type 0
RoundTrips codec =
    (c : VectorClock)
    → (d : VectorClock) × (codec.unmarshal_clock (codec.marshal_clock c) ≡ some d)
      × ((p : String) → count_of d p ≡ count_of c p)

-- Every stored clock is at most `vc`.
abbrev pub Below : {A C J : Type 0} → Codec A C J → Option (Store C J) → VectorClock → Type 0
Below codec none vc = Unit
Below {C} {J} codec (some rows) vc =
    (id : String) (row : FederatedServiceData C J) (clock : VectorClock) (p : String)
    → lookup rows id ≡ some row
    → codec.unmarshal_clock row.vector_clock ≡ some clock
    → count_of clock p ≤ count_of vc p

-- The clock is a map, not nil, and dominates the stored ones.
abbrev pub Dominates : {A C J : Type 0} → Codec A C J → CatalogSyncer C J → Type 0
Dominates codec cs =
    ((m : Dict ℕ) × (cs.vector_clock ≡ some m)) × Below codec cs.storage cs.vector_clock

-- No counter goes back.
abbrev pub Advances : {C J : Type 0} → CatalogSyncer C J → CatalogSyncer C J → Type 0
Advances cs cs' = (p : String) → count_of cs.vector_clock p ≤ count_of cs'.vector_clock p

pub merge_all :
    (m : Dict ℕ) (other : VectorClock)
    → (m' : Dict ℕ) × (merge (some m) other ≡ some (some m'))
      × ((j : String) → count_of (some m') j ≡ max (count_of (some m) j) (count_of other j))
unfolding count_of merge
merge_all m none = (m, refl, λ j. omega arith)
merge_all m (some o) = (
  merge_loop m (entries o),
  refl,
  λ j. let (vc, e, h) = count_of-merge m (some o) j in ground (arith, h, e),
)

pub grown :
    (vc : VectorClock) (m m' : Dict ℕ) (other : VectorClock)
    → vc ≡ some m
    → ((j : String) → count_of (some m') j ≡ max (count_of (some m) j) (count_of other j))
    → (p : String) → count_of vc p ≤ count_of (some m') p
grown vc m m' other e h p = rw e (omega (arith, h p))

-- Where the counter does not wrap, the clock before an increment happened before the one behind it.
pub increment-HappenedBefore :
    (m : Dict ℕ) (k : String)
    → count_of (some m) k + 1 < uint64_mod
    → HappenedBefore (some m) (increment (some m) k)
unfolding count_of
increment-HappenedBefore m k w = (
  λ p. ground (arith, count_of-increment m k p, eq_iff k p, w),
  (k, ground (arith, count_of-increment m k k, eq_iff k k, w)),
)

pub increment-advances :
    (vc : VectorClock) (k : String)
    → ((m : Dict ℕ) × (vc ≡ some m))
    → count_of vc k + 1 < uint64_mod
    → ((m : Dict ℕ) × (increment vc k ≡ some m)) × HappenedBefore vc (increment vc k)
unfolding increment
increment-advances none k (m, e) w = absurd (ground (arith, e))
increment-advances (some m) k e w =
    ((put m k ((count_in m k + 1) % uint64_mod), refl), increment-HappenedBefore m k w)

module _ {A C J : Type 0} (codec : Codec A C J) where
  pub Below-grow :
      (s : Option (Store C J)) (vc vc' : VectorClock)
      → Below codec s vc
      → ((p : String) → count_of vc p ≤ count_of vc' p)
      → Below codec s vc'
  Below-grow none vc vc' b le = tt
  Below-grow (some rows) vc vc' b le =
      λ id row clock p f g. omega (arith, b id row clock p f g, le p)

  row-clock :
      (now : ℕ) (old : Option (FederatedServiceData C J)) (fs : FederatedService A C)
      → (row_of codec now old fs).vector_clock ≡ codec.marshal_clock fs.vector_clock
  unfolding row_of
  row-clock now old fs = refl

  read_back :
      RoundTrips codec
      → (c clock : VectorClock) (p : String)
      → codec.unmarshal_clock (codec.marshal_clock c) ≡ some clock
      → count_of clock p ≡ count_of c p
  read_back round c clock p g = let (d, e, h) = round c in ground (arith, e, g, h p)

  pub Below-put :
      RoundTrips codec
      → (rows : Store C J) (vc : VectorClock) (now : ℕ) (old : Option (FederatedServiceData C J))
        (fs : FederatedService A C)
      → Below codec (some rows) vc
      → ((p : String) → count_of fs.vector_clock p ≤ count_of vc p)
      → Below codec (some (put rows fs.service_id (row_of codec now old fs))) vc
  unfolding row_of
  Below-put round rows vc now old fs b le id row clock p f g =
      elim (lookup-put_cases rows fs.service_id (row_of codec now old fs) id row f) [
        | inl (e, e') ↦ omega (
          arith,
          le p,
          read_back round fs.vector_clock clock p
              (ap (λ r. codec.unmarshal_clock r.vector_clock) e' ∙ g),
        )
        | inr e ↦ b id row clock p e g
      ]

  pub Below-save :
      RoundTrips codec
      → (io : Io) (rows rows' : Store C J) (vc : VectorClock) (fs : FederatedService A C)
      → Below codec (some rows) vc
      → ((p : String) → count_of fs.vector_clock p ≤ count_of vc p)
      → save_federated_service codec io rows fs ≡ some rows'
      → Below codec (some rows') vc
  unfolding save_federated_service
  Below-save round io rows rows' vc fs b le e id row clock p f g =
      elim (Bool-cases (io.writes fs.service_id)) [
        | inl w ↦
            Below-put round rows vc io.now (lookup rows fs.service_id) fs b le id row clock p
              (ground (arith, e, w, f)) g
        | inr w ↦ absurd (ground (arith, e, w))
      ]
