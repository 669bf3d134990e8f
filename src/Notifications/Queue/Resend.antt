-- ===== src/Notifications/Queue/Resend.antt =====
-- What RetryNotification does to a row, whatever its status.
use nekzus.Prelude.{
  ℕ, ◌+◌, ◌≤◌, ◌≡◌, refl, ap, ◌∙◌, String, true, false, ◌&&◌, Option, none, some, List, [], ◌∷◌,
  leb, nat_beq_iff, if◌then◌else◌, arith,
}
use nekzus.Notifications.Store.{
  pending, failed, StoredNotification, Table, update_where, select_where, find_id, has_id,
  get_notification_by_id, update_notification_retry, reset_notification_for_retry, affected,
}
use nekzus.Notifications.Store.Rows.{id-found, KeepsId, find-update}
use nekzus.Notifications.Queue.{Queue, Outside, count_retry}
use nekzus.Notifications.Queue.Retry.{
  reset, with_table, unreachable, is_sent, or_same, retry_found, retry_notification,
}

module _ {P : Type 0} where
  abbrev pub fresh : StoredNotification P → StoredNotification P
  fresh r = record r { status = pending; retry_count = 0; error_message = none }

  abbrev pub counted : ℕ → String → StoredNotification P → StoredNotification P
  counted now error r = record r {
    retry_count = r.retry_count + 1;
    last_attempt_at = some now;
    error_message = some error;
  }

  abbrev pub behind : ℕ → StoredNotification P → Option String → StoredNotification P
  behind now r none = fresh r
  behind now r (some error) = record r {
    status = if leb r.max_retries 1 then failed else pending;
    retry_count = 1;
    last_attempt_at = some now;
    error_message = some error;
  }

  -- An update of a row that is there touches a row.
  affected-found :
      (rows : List (StoredNotification P)) (i : ℕ) (r : StoredNotification P) (t : Table P)
      → find_id rows i ≡ some r
      → affected (select_where (has_id i) rows) t ≡ some t
  unfolding find_id select_where affected
  affected-found [] i r t h = absurd (ground (arith, h))
  affected-found (r' ∷ rows) i r t h = ground (arith, h, affected-found rows i r t)

  abbrev with_fresh : Queue P → ℕ → Queue P
  with_fresh q i = record q {
    table = record q.table { rows = update_where (has_id i) fresh q.table.rows };
  }

  reset-found :
      (o : Outside P) (q : Queue P) (i : ℕ) (r : StoredNotification P)
      → find_id q.table.rows i ≡ some r
      → o.writes i ≡ true
      → reset o q i ≡ some (with_fresh q i)
  unfolding reset with_table reset_notification_for_retry
  reset-found o q i r f w = rw (w, affected-found q.table.rows i r _ f) refl

  -- The row behind an update by its id.
  updated-found :
      (g : StoredNotification P → StoredNotification P) (rows : List (StoredNotification P)) (i : ℕ)
      (r : StoredNotification P)
      → KeepsId g
      → find_id rows i ≡ some r
      → find_id (update_where (has_id i) g rows) i ≡ some (g r)
  updated-found g rows i r k f =
      find-update (has_id i) g rows i r k f
      ∙ ground (arith, id-found rows i r f, nat_beq_iff r.id i)

  counted-found :
      (o : Outside P) (q : Queue P) (i : ℕ) (r : StoredNotification P) (error : Option String)
      → find_id q.table.rows i ≡ some r
      → o.writes i ≡ true
      → find_id (count_retry o (with_fresh q i) i error).table.rows i ≡ some (behind o.now r error)
  unfolding count_retry update_notification_retry
  counted-found o q i r none f w = updated-found fresh q.table.rows i r (λ r. refl) f
  counted-found o q i r (some error) f w = rw w (
      find-update (λ r. has_id i r && leb r.max_retries r.retry_count)
        (λ r. record r { status = failed })
        (update_where (has_id i) (counted o.now error) (update_where (has_id i) fresh q.table.rows))
        i (counted o.now error (fresh r)) (λ r. refl)
        (updated-found (counted o.now error) (update_where (has_id i) fresh q.table.rows) i
          (fresh r) (λ r. refl) (updated-found fresh q.table.rows i r (λ r. refl) f))
      ∙ ground (arith, id-found q.table.rows i r f, nat_beq_iff r.id i))

  sent_again :
      (o : Outside P) (q : Queue P) (i : ℕ) (r : StoredNotification P)
      → find_id q.table.rows i ≡ some r
      → o.reads ≡ true
      → o.writes i ≡ true
      → unreachable o.connected r.device_id ≡ false
      → o.now ≤ r.expires_at
      → retry_notification o q i ≡ (
        count_retry o (with_fresh q i) i (o.deliver r.device_id r.kind r.payload i),
        i ∷ [],
        is_sent (o.deliver r.device_id r.kind r.payload i),
        none,
      )
  unfolding retry_notification retry_found get_notification_by_id or_same
  sent_again o q i r f rd w u e = ground (arith, rd, f, u, e, reset-found o q i r f w)

  -- A retry by its id sends a notification that is there, not expired, and whose device can be
  -- reached, whatever its status, also one that is delivered or dismissed, where the database
  -- answers. The row is pending behind it with a fresh count of retries, or has the one retry if
  -- the delivery fails.
  pub retry_notification-resends :
      (o : Outside P) (q : Queue P) (i : ℕ) (r : StoredNotification P)
      → find_id q.table.rows i ≡ some r
      → o.reads ≡ true
      → o.writes i ≡ true
      → unreachable o.connected r.device_id ≡ false
      → o.now ≤ r.expires_at
      → ((retry_notification o q i).1 ≡ i ∷ [])
        × (find_id (retry_notification o q i).0.table.rows i
            ≡ some (behind o.now r (o.deliver r.device_id r.kind r.payload i)))
  retry_notification-resends o q i r f rd w u e =
      let h = sent_again o q i r f rd w u e in
      (
        ap (λ x. x.1) h,
        ap (λ x. find_id x.0.table.rows i) h
            ∙ counted-found o q i r (o.deliver r.device_id r.kind r.payload i) f w,
      )
