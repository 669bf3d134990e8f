-- ===== src/Notifications/Store/Rows.antt =====
-- The rows of the table, followed through the updates of the table by its id.
use mathlib.Core.Path.{subst}
use nekzus.Prelude.{
  ℕ, suc, ◌<◌, ◌≡◌, ◌≢◌, refl, sym, ap, ◌∙◌, Bool, true, false, none, some, List, [], ◌∷◌, ◌++◌,
  nat_beq, nat_beq_iff, if◌then◌else◌, All, arith, Bool-cases, inl, inr,
}
use nekzus.Notifications.Store.{
  delivered, StoredNotification, Table, update_where, select_where, find_id,
}

module _ {P : Type 0} where
  abbrev pub IsUnique : List (StoredNotification P) → Type 0
  IsUnique [] = Unit
  IsUnique (r ∷ rows) = All (λ r'. r'.id ≢ r.id) rows × IsUnique rows

  -- No two rows have one id, and none has the next one.
  abbrev pub IsTable : Table P → Type 0
  IsTable t = All (λ r. r.id < t.next_id) t.rows × IsUnique t.rows

  -- The row with the id is there and delivered.
  abbrev pub IsDelivered : ℕ → Table P → Type 0
  IsDelivered i t =
      (r : StoredNotification P) × (find_id t.rows i ≡ some r) × (r.status ≡ delivered)

  abbrev pub KeepsId : (StoredNotification P → StoredNotification P) → Type 0
  KeepsId f = (r : StoredNotification P) → (f r).id ≡ r.id

  id_if :
      (b : Bool) (f : StoredNotification P → StoredNotification P) (r : StoredNotification P)
      → KeepsId f
      → (if b then f r else r).id ≡ r.id
  id_if true f r k = k r
  id_if false f r k = refl

  pub All-if :
      (Q : StoredNotification P → Type 0) (b : Bool) (r : StoredNotification P)
      (rows : List (StoredNotification P))
      → Q r
      → All Q rows
      → All Q (if b then r ∷ rows else rows)
  All-if Q true r rows a rest = (a, rest)
  All-if Q false r rows a rest = rest

  IsUnique-if :
      (b : Bool) (r : StoredNotification P) (rows : List (StoredNotification P))
      → All (λ r'. r'.id ≢ r.id) rows
      → IsUnique rows
      → IsUnique (if b then r ∷ rows else rows)
  IsUnique-if true r rows a u = (a, u)
  IsUnique-if false r rows a u = u

  pub All-update :
      (Q : ℕ → Type 0) (p : StoredNotification P → Bool)
      (f : StoredNotification P → StoredNotification P) (rows : List (StoredNotification P))
      → KeepsId f
      → All (λ r. Q r.id) rows
      → All (λ r. Q r.id) (update_where p f rows)
  unfolding update_where
  All-update Q p f [] k a = tt
  All-update Q p f (r ∷ rows) k (a, rest) =
      (subst Q (sym (id_if (p r) f r k)) a, All-update Q p f rows k rest)

  pub All-select :
      (Q : StoredNotification P → Type 0) (p : StoredNotification P → Bool)
      (rows : List (StoredNotification P))
      → All Q rows
      → All Q (select_where p rows)
  unfolding select_where
  All-select Q p [] a = tt
  All-select Q p (r ∷ rows) (a, rest) =
      All-if Q (p r) r (select_where p rows) a (All-select Q p rows rest)

  pub update-IsUnique :
      (p : StoredNotification P → Bool) (f : StoredNotification P → StoredNotification P)
      (rows : List (StoredNotification P))
      → KeepsId f
      → IsUnique rows
      → IsUnique (update_where p f rows)
  unfolding update_where
  update-IsUnique p f [] k u = tt
  update-IsUnique p f (r ∷ rows) k (a, u) = (
    subst (λ j. All (λ r'. r'.id ≢ j) (update_where p f rows)) (sym (id_if (p r) f r k))
        (All-update (λ j. j ≢ r.id) p f rows k a),
    update-IsUnique p f rows k u,
  )

  pub select-IsUnique :
      (p : StoredNotification P → Bool) (rows : List (StoredNotification P))
      → IsUnique rows
      → IsUnique (select_where p rows)
  unfolding select_where
  select-IsUnique p [] u = tt
  select-IsUnique p (r ∷ rows) (a, u) =
      IsUnique-if (p r) r (select_where p rows) (All-select (λ r'. r'.id ≢ r.id) p rows a)
        (select-IsUnique p rows u)

  -- What stands under an id behind an update.
  pub find-update :
      (p : StoredNotification P → Bool) (f : StoredNotification P → StoredNotification P)
      (rows : List (StoredNotification P)) (i : ℕ) (r : StoredNotification P)
      → KeepsId f
      → find_id rows i ≡ some r
      → find_id (update_where p f rows) i ≡ some (if p r then f r else r)
  unfolding update_where find_id
  find-update p f [] i r k h = absurd (ground (arith, h))
  find-update p f (r' ∷ rows) i r k h =
      ground (arith, find-update p f rows i r k, id_if (p r') f r' k, h, nat_beq_iff r'.id i)

  pub find-select :
      (p : StoredNotification P → Bool) (rows : List (StoredNotification P)) (i : ℕ)
      (r : StoredNotification P)
      → find_id rows i ≡ some r
      → p r ≡ true
      → find_id (select_where p rows) i ≡ some r
  unfolding select_where find_id
  find-select p [] i r h t = absurd (ground (arith, h))
  find-select p (r' ∷ rows) i r h t =
      ground (arith, find-select p rows i r, h, t, nat_beq_iff r'.id i)

  pub find-append :
      (rows more : List (StoredNotification P)) (i : ℕ) (r : StoredNotification P)
      → find_id rows i ≡ some r
      → find_id (rows ++ more) i ≡ some r
  unfolding find_id
  find-append [] more i r h = absurd (ground (arith, h))
  find-append (r' ∷ rows) more i r h =
      ground (arith, find-append rows more i r, h, nat_beq_iff r'.id i)

  pub found :
      (r' : StoredNotification P) (rows : List (StoredNotification P)) (i : ℕ)
      (r : StoredNotification P)
      → find_id (r' ∷ rows) i ≡ some r
      → nat_beq r'.id i ≡ true
      → some r' ≡ some r
  unfolding find_id
  found r' rows i r h e = ground (arith, h, e)

  pub find-All :
      (Q : StoredNotification P → Type 0) (rows : List (StoredNotification P)) (i : ℕ)
      (r : StoredNotification P)
      → All Q rows
      → find_id rows i ≡ some r
      → Q r × (r.id ≡ i)
  unfolding find_id
  find-All Q [] i r a h = absurd (ground (arith, h))
  find-All Q (r' ∷ rows) i r (a, rest) h = elim (Bool-cases (nat_beq r'.id i)) [
    | inl e ↦
        let q = ap (λ o. elim o [ none ↦ r | some x ↦ x ]) (found r' rows i r h e) in
        (subst Q q a, ap (λ x. x.id) (sym q) ∙ (nat_beq_iff r'.id i).0 e)
    | inr e ↦ find-All Q rows i r rest (ground (arith, h, e))
  ]

  pub status_if :
      (b : Bool) (f : StoredNotification P → StoredNotification P) (r : StoredNotification P)
      → r.status ≡ delivered
      → (b ≡ true → (f r).status ≡ delivered)
      → (if b then f r else r).status ≡ delivered
  status_if true f r d k = k refl
  status_if false f r d k = d

  pub weaken :
      (rows : List (StoredNotification P)) (n : ℕ)
      → All (λ r. r.id < n) rows
      → All (λ r. r.id < suc n) rows
  weaken [] n a = tt
  weaken (r ∷ rows) n (a, rest) = (omega (arith, a), weaken rows n rest)

  pub append-All :
      (rows : List (StoredNotification P)) (r' : StoredNotification P) (n : ℕ)
      → All (λ r. r.id < n) rows
      → r'.id < n
      → All (λ r. r.id < n) (rows ++ (r' ∷ []))
  append-All [] r' n a l = (l, tt)
  append-All (r ∷ rows) r' n (a, rest) l = (a, append-All rows r' n rest l)

  append-Other :
      (rows : List (StoredNotification P)) (r' : StoredNotification P) (n : ℕ)
      → All (λ r. r.id ≢ n) rows
      → r'.id ≢ n
      → All (λ r. r.id ≢ n) (rows ++ (r' ∷ []))
  append-Other [] r' n a l = (l, tt)
  append-Other (r ∷ rows) r' n (a, rest) l = (a, append-Other rows r' n rest l)

  pub append-IsUnique :
      (rows : List (StoredNotification P)) (r' : StoredNotification P) (n : ℕ)
      → r'.id ≡ n
      → All (λ r. r.id < n) rows
      → IsUnique rows
      → IsUnique (rows ++ (r' ∷ []))
  append-IsUnique [] r' n e a u = (tt, tt)
  append-IsUnique (r ∷ rows) r' n e (a, rest) (o, u) = (
    append-Other rows r' r.id o (λ q. omega (arith, e, a, q)),
    append-IsUnique rows r' n e rest u,
  )

  pub id-found :
      (rows : List (StoredNotification P)) (i : ℕ) (r : StoredNotification P)
      → find_id rows i ≡ some r
      → r.id ≡ i
  unfolding find_id
  id-found [] i r h = absurd (ground (arith, h))
  id-found (r' ∷ rows) i r h = ground (arith, h, id-found rows i r, nat_beq_iff r'.id i)
