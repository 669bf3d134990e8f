-- ===== src/Notifications/Queue/Delivered.antt =====
-- A notification that its device has acknowledged is left alone.
use nekzus.Prelude.{
  ℕ, ◌≢◌, refl, String, Bool, true, false, not, ◌&&◌, Option, none, some, List, [], ◌∷◌, ltb, leb,
  nat_beq_iff, if◌then◌else◌, All, arith,
}
use nekzus.Notifications.Store.{
  failed, same_status, StoredNotification, Table, select_where, has_id, enqueue_notification,
  mark_notification_expired, update_notification_retry, reset_notification_for_retry, affected,
}
use nekzus.Notifications.Store.Kept.{Holds, update-Holds, append-Holds, next-Other}
use nekzus.Notifications.Queue.{
  Queue, Outside, Notification, count_retry, is_stale, process_notification, take_next,
}
use nekzus.Notifications.Queue.Retry.{expire, with_table, reset, attempt, retry_stored}

module _ {P : Type 0} where
  retry-Holds :
      (now : ℕ) (i j : ℕ) (t : Table P) (error : String)
      → j ≢ i
      → Holds i t
      → Holds i (update_notification_retry now t j error)
  unfolding update_notification_retry
  retry-Holds now i j t error n h =
      update-Holds (λ r. has_id j r && leb r.max_retries r.retry_count) _ i _ (λ r. refl)
        (λ r e d p. absurd (n (ground (arith, e, p, nat_beq_iff r.id j))))
        (update-Holds (has_id j) _ i t (λ r. refl) (λ r e d p. d) h)

  if_Holds :
      (i : ℕ) (b : Bool) (t t' : Table P) → Holds i t → Holds i t' → Holds i (if b then t else t')
  if_Holds i true t t' h h' = h
  if_Holds i false t t' h h' = h'

  count_retry-Holds :
      (o : Outside P) (q : Queue P) (i j : ℕ) (error : Option String)
      → j ≢ i
      → Holds i q.table
      → Holds i (count_retry o q j error).table
  unfolding count_retry
  count_retry-Holds o q i j none n h = h
  count_retry-Holds o q i j (some error) n h =
      if_Holds i (o.writes j) (update_notification_retry o.now q.table j error) q.table
        (retry-Holds o.now i j q.table error n h) h

  -- The row is still delivered, and it was not handed to the deliverer.
  abbrev pub Spares : ℕ → Queue P × List ℕ → Type 0
  Spares i (q, ids) = Holds i q.table × All (λ j. j ≢ i) ids

  if_Spares :
      (i : ℕ) (b : Bool) (x y : Queue P × List ℕ)
      → Spares i x
      → Spares i y
      → Spares i (if b then x else y)
  if_Spares i true x y h h' = h
  if_Spares i false x y h h' = h'

  process-Spares :
      (o : Outside P) (q : Queue P) (n : Notification P) (i : ℕ)
      → Holds i q.table
      → Spares i (process_notification o q n)
  unfolding process_notification enqueue_notification
  process-Spares o q n i h =
      if_Spares i (is_stale o.now n) _ _ (h, tt)
        (if_Spares i (not o.inserts) _ _ (h, tt)
          (
            count_retry-Holds o _ i q.table.next_id _ (next-Other i q.table h)
                (append-Holds _ i q.table refl h),
            (next-Other i q.table h, tt),
          ))

  pub take-Spares :
      (o : Outside P) (q : Queue P) (ns : List (Notification P)) (i : ℕ)
      → Holds i q.table
      → Spares i (take_next o q ns)
  unfolding take_next
  take-Spares o q [] i h = (h, tt)
  take-Spares o q (n ∷ rest) i h = process-Spares o (record q { channel = rest }) n i h

  expire-Holds :
      (o : Outside P) (q : Queue P) (i j : ℕ)
      → j ≢ i
      → Holds i q.table
      → Holds i (expire o q j).table
  unfolding expire mark_notification_expired
  expire-Holds o q i j n h =
      if_Holds i (o.writes j) _ q.table
        (update-Holds (has_id j) _ i q.table (λ r. refl)
          (λ r e d p. absurd (n (ground (arith, e, p, nat_beq_iff r.id j)))) h)
        h

  abbrev pub TableHolds : ℕ → Option (Table P) → Type 0
  TableHolds i none = Unit
  TableHolds i (some t) = Holds i t

  pub affected-Holds :
      (i : ℕ) (rows : List (StoredNotification P)) (t : Table P)
      → Holds i t
      → TableHolds i (affected rows t)
  unfolding affected
  affected-Holds i [] t h = tt
  affected-Holds i (r ∷ rows) t h = h

  abbrev OptionHolds : ℕ → Option (Queue P) → Type 0
  OptionHolds i none = Unit
  OptionHolds i (some q) = Holds i q.table

  with_table-Holds :
      (i : ℕ) (b : Bool) (q : Queue P) (t : Option (Table P))
      → TableHolds i t
      → OptionHolds i (with_table q (if b then t else none))
  unfolding with_table
  with_table-Holds i true q none h = tt
  with_table-Holds i true q (some t) h = h
  with_table-Holds i false q t h = tt

  reset-Holds :
      (o : Outside P) (q : Queue P) (i j : ℕ)
      → j ≢ i
      → Holds i q.table
      → OptionHolds i (reset o q j)
  unfolding reset reset_notification_for_retry
  reset-Holds o q i j n h = with_table-Holds i (o.writes j) q _ (
      affected-Holds i (select_where (has_id j) q.table.rows) _ (
        update-Holds (has_id j) _ i q.table (λ r. refl)
          (λ r e d p. absurd (n (ground (arith, e, p, nat_beq_iff r.id j)))) h))

  attempt-Spares :
      (o : Outside P) (n : StoredNotification P) (q' : Option (Queue P)) (q : Queue P) (i : ℕ)
      → n.id ≢ i
      → OptionHolds i q'
      → Holds i q.table
      → Spares i (attempt o n q' q)
  unfolding attempt
  attempt-Spares o n none q i e h' h = (h, tt)
  attempt-Spares o n (some q') q i e h' h =
      (count_retry-Holds o q' i n.id (o.deliver n.device_id n.kind n.payload n.id) e h', (e, tt))

  if_OptionHolds :
      (i : ℕ) (b : Bool) (x y : Option (Queue P))
      → OptionHolds i x
      → OptionHolds i y
      → OptionHolds i (if b then x else y)
  if_OptionHolds i true x y h h' = h
  if_OptionHolds i false x y h h' = h'

  pub stored-Spares :
      (o : Outside P) (q : Queue P) (n : StoredNotification P) (i : ℕ)
      → n.id ≢ i
      → Holds i q.table
      → Spares i (retry_stored o q n)
  unfolding retry_stored
  stored-Spares o q n i e h =
      if_Spares i (ltb n.expires_at o.now) _ _ (expire-Holds o q i n.id e h, tt)
        (attempt-Spares o n _ q i e
          (if_OptionHolds i (same_status n.status failed) _ _ (reset-Holds o q i n.id e h) h) h)
