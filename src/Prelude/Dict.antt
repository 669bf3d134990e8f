-- ===== src/Prelude/Dict.antt =====
-- A Go map with string keys. The order of the pairs stands for the order in which a `range` loop
-- happens to visit them, which is arbitrary; a pair behind one with its key is not in the map.
use Prim.Native.Nat.{ℕ, suc}
use Prim.Native.String.{String}
use mathlib.Core.Path.{◌≡◌, refl}
use mathlib.Core.Logic.{◌⊎◌, inl, inr}
use mathlib.Core.Bool.{Bool, true, false}
use mathlib.Core.Option.{Option, none, some}
use mathlib.Core.List.{List, [], ◌∷◌}
use native.Mathlib.Omega.{arith}
use text.Mathlib.Text.{◌==◌}
use text.Mathlib.TextEquality.{eq_iff}
use nekzus.Prelude.Tests.{if◌then◌else◌, Bool-cases}

abbrev pub Dict {ℓ} : Type ℓ → Type ℓ
Dict V = List (String × V)

module _ {ℓ} {V : Type ℓ} where
  -- v, ok := m[k]
  unfoldable pub lookup : Dict V → String → Option V
  lookup [] k = none
  lookup ((j, v) ∷ m) k = if j == k then some v else lookup m k

  -- delete(m, k)
  unfoldable pub delete : Dict V → String → Dict V
  delete [] k = []
  delete ((j, v) ∷ m) k = let rest = delete m k in if j == k then rest else (j, v) ∷ rest

  -- m[k] = v
  unfoldable pub put : Dict V → String → V → Dict V
  unfolding delete
  put m k v = (k, v) ∷ delete m k

  -- for k, v := range m { if p(k, v) { delete(m, k) } }
  unfoldable pub delete_where : Dict V → (String → V → Bool) → Dict V
  unfolding delete
  delete_where [] p = []
  delete_where ((j, v) ∷ m) p =
      let rest = delete (delete_where m p) j in if p j v then rest else (j, v) ∷ rest

  -- what a `range` loop visits: each key once
  unfoldable pub entries : Dict V → Dict V
  unfolding delete_where
  entries m = delete_where m (λ k v. false)

  abbrev pub keep_unless : (V → Bool) → Option V → Option V
  keep_unless p none = none
  keep_unless p (some v) = if p v then none else some v

  pub lookup-delete :
      (m : Dict V) (k j : String) → lookup (delete m k) j ≡ (if k == j then none else lookup m j)
  unfolding lookup delete
  lookup-delete [] k j = ground arith
  lookup-delete ((i, v) ∷ m) k j =
      ground (arith, lookup-delete m k j, eq_iff i k, eq_iff i j, eq_iff k j)

  pub lookup-put :
      (m : Dict V) (k : String) (v : V) (j : String)
      → lookup (put m k v) j ≡ (if k == j then some v else lookup m j)
  unfolding lookup put
  lookup-put m k v j = ground (arith, lookup-delete m k j, eq_iff k j)

  -- what is read behind a write was written, or was there before
  pub lookup-put_cases :
      (m : Dict V) (k : String) (v : V) (j : String) (w : V)
      → lookup (put m k v) j ≡ some w
      → ((k ≡ j) × (v ≡ w)) ⊎ (lookup m j ≡ some w)
  lookup-put_cases m k v j w h = elim (Bool-cases (k == j)) [
    | inl e ↦ inl ((eq_iff k j).0 e, ground (arith, lookup-put m k v j))
    | inr e ↦ inr (ground (arith, lookup-put m k v j))
  ]

  -- the loop deletes exactly the entries that pass the test
  pub lookup-delete_where :
      (m : Dict V) (p : String → V → Bool) (j : String)
      → lookup (delete_where m p) j ≡ keep_unless (p j) (lookup m j)
  unfolding lookup delete_where
  lookup-delete_where [] p j = refl
  lookup-delete_where ((i, v) ∷ m) p j =
      ground (arith, lookup-delete_where m p j, lookup-delete (delete_where m p) i j, eq_iff i j)

  abbrev pub has : Dict V → String → Bool
  has m k = elim (lookup m k) [ none ↦ false | some v ↦ true ]

  -- len(m)
  unfoldable pub size : Dict V → ℕ
  unfolding lookup
  size [] = 0
  size ((j, v) ∷ m) = let rest = size m in if has m j then rest else suc rest

  -- the pairs with each key once, so `lookup` reads the same map
  pub lookup-entries : (m : Dict V) (j : String) → lookup (entries m) j ≡ lookup m j
  unfolding entries
  lookup-entries m j = rw (lookup-delete_where m (λ k v. false) j) (ground arith)

  -- each key stands once
  abbrev pub IsUnique : Dict V → Type ℓ
  IsUnique [] = Unit
  IsUnique ((j, v) ∷ m) = (lookup m j ≡ none) × IsUnique m

  delete-IsUnique : (m : Dict V) (k : String) → IsUnique m → IsUnique (delete m k)
  unfolding delete
  delete-IsUnique [] k h = tt
  delete-IsUnique ((j, v) ∷ m) k h =
      ground (arith, delete-IsUnique m k h.1, lookup-delete m k j, eq_iff j k)

  delete_where-IsUnique : (m : Dict V) (p : String → V → Bool) → IsUnique (delete_where m p)
  unfolding delete_where
  delete_where-IsUnique [] p = tt
  delete_where-IsUnique ((j, v) ∷ m) p = ground (
    arith,
    delete-IsUnique (delete_where m p) j (delete_where-IsUnique m p),
    lookup-delete (delete_where m p) j j,
    eq_iff j j,
  )

  pub entries-IsUnique : (m : Dict V) → IsUnique (entries m)
  unfolding entries
  entries-IsUnique m = delete_where-IsUnique m (λ k v. false)

pub ruleset dict_laws = (lookup-delete, lookup-put, lookup-delete_where, lookup-entries)
