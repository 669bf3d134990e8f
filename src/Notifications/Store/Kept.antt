-- ===== src/Notifications/Store/Kept.antt =====
-- A row that is delivered stays so through the changes of the table.
use mathlib.Core.Path.{subst}
use nekzus.Prelude.{
  ℕ, suc, ◌<◌, ◌≡◌, ◌≢◌, refl, ap, ◌∙◌, String, Bool, true, false, none, some, List, [], ◌∷◌, ◌++◌,
  nat_beq, nat_beq_iff, if◌then◌else◌, All, arith, Bool-cases, inl, inr,
}
use nekzus.Notifications.Store.{
  delivered, StoredNotification, Table, update_where, select_where, find_id, is_retryable,
}
use nekzus.Notifications.Store.Rows.{
  All-if, All-select, All-update, IsDelivered, IsTable, IsUnique, KeepsId, append-All,
  append-IsUnique, find-All, find-append, find-select, find-update, found, select-IsUnique,
  status_if, update-IsUnique, weaken,
}

module _ {P : Type 0} where
  -- A table without two rows of one id, in which the row is delivered.
  abbrev pub Holds : ℕ → Table P → Type 0
  Holds i t = IsTable t × IsDelivered i t

  pub update-Holds :
      (p : StoredNotification P → Bool) (f : StoredNotification P → StoredNotification P) (i : ℕ)
      (t : Table P)
      → KeepsId f
      → ((r : StoredNotification P)
          → r.id ≡ i
          → r.status ≡ delivered
          → p r ≡ true
          → (f r).status ≡ delivered)
      → Holds i t
      → Holds i (record t { rows = update_where p f t.rows })
  update-Holds p f i t k keep ((a, u), (r, h, d)) = (
    (All-update (λ j. j < t.next_id) p f t.rows k a, update-IsUnique p f t.rows k u),
    (
      if p r then f r else r,
      find-update p f t.rows i r k h,
      status_if (p r) f r d (keep r ((find-All (λ x. x.id < t.next_id) t.rows i r a h).1) d),
    ),
  )

  -- A row that an update makes delivered.
  pub updated-Holds :
      (p : StoredNotification P → Bool) (f : StoredNotification P → StoredNotification P) (i : ℕ)
      (t : Table P) (r : StoredNotification P)
      → KeepsId f
      → IsTable t
      → find_id t.rows i ≡ some r
      → p r ≡ true
      → (f r).status ≡ delivered
      → Holds i (record t { rows = update_where p f t.rows })
  updated-Holds p f i t r k (a, u) h e d = (
    (All-update (λ j. j < t.next_id) p f t.rows k a, update-IsUnique p f t.rows k u),
    (f r, find-update p f t.rows i r k h ∙ rw e refl, d),
  )

  pub select-Holds :
      (p : StoredNotification P → Bool) (i : ℕ) (t : Table P)
      → ((r : StoredNotification P) → r.status ≡ delivered → p r ≡ true)
      → Holds i t
      → Holds i (record t { rows = select_where p t.rows })
  select-Holds p i t keep ((a, u), (r, h, d)) = (
    (All-select (λ r. r.id < t.next_id) p t.rows a, select-IsUnique p t.rows u),
    (r, find-select p t.rows i r h (keep r d), d),
  )

  pub append-Holds :
      (r' : StoredNotification P) (i : ℕ) (t : Table P)
      → r'.id ≡ t.next_id
      → Holds i t
      → Holds i (record { rows = t.rows ++ (r' ∷ []); next_id = suc t.next_id })
  append-Holds r' i t e ((a, u), (r, h, d)) = (
    (
      append-All t.rows r' (suc t.next_id) (weaken t.rows t.next_id a) (omega (arith, e)),
      append-IsUnique t.rows r' t.next_id e a u,
    ),
    (r, find-append t.rows (r' ∷ []) i r h, d),
  )

  pub next-Other : (i : ℕ) (t : Table P) → Holds i t → t.next_id ≢ i
  next-Other i t ((a, u), (r, h, d)) e =
      let (lt, q) = find-All (λ r. r.id < t.next_id) t.rows i r a h in omega (arith, e, lt, q)

  All-unless :
      (Q : StoredNotification P → Type 0) (b : Bool) (r : StoredNotification P)
      (rows : List (StoredNotification P))
      → b ≡ false
      → All Q rows
      → All Q (if b then r ∷ rows else rows)
  All-unless Q true r rows e a = absurd (ground (arith, e))
  All-unless Q false r rows e a = a

  delivered_not_retryable :
      (now : ℕ) (device_id : String) (r : StoredNotification P)
      → r.status ≡ delivered
      → is_retryable now device_id r ≡ false
  delivered_not_retryable now device_id r d = ground (arith, d)

  -- What a device is retried with is not the delivered row.
  pub retryable-Other :
      (now : ℕ) (device_id : String) (i : ℕ) (r : StoredNotification P)
      (rows : List (StoredNotification P))
      → IsUnique rows
      → find_id rows i ≡ some r
      → r.status ≡ delivered
      → All (λ n. n.id ≢ i) (select_where (is_retryable now device_id) rows)
  unfolding select_where find_id
  retryable-Other now device_id i r [] u h d = tt
  retryable-Other now device_id i r (r' ∷ rows) (a, u) h d = elim (Bool-cases (nat_beq r'.id i)) [
    | inl e ↦
        let q = ap (λ o. elim o [ none ↦ r | some x ↦ x ]) (found r' rows i r h e) in
        All-unless (λ n. n.id ≢ i) (is_retryable now device_id r') r'
          (select_where (is_retryable now device_id) rows)
          (delivered_not_retryable now device_id r' (ap (λ x. x.status) q ∙ d))
          (subst (λ j. All (λ n. n.id ≢ j) (select_where (is_retryable now device_id) rows))
            ((nat_beq_iff r'.id i).0 e)
            (All-select (λ n. n.id ≢ r'.id) (is_retryable now device_id) rows a))
    | inr e ↦
        All-if (λ n. n.id ≢ i) (is_retryable now device_id r') r'
          (select_where (is_retryable now device_id) rows)
          (λ q. ground (arith, e, q, nat_beq_iff r'.id i))
          (retryable-Other now device_id i r rows u (ground (arith, h, e)) d)
  ]
