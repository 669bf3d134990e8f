-- ===== src/Notifications/Queue/Retry.antt =====
-- internal/notifications/queue.go: RetryDevice and RetryNotification.
use nekzus.Prelude.{
  ℕ, ◌+◌, String, Bool, true, false, not, Option, none, some, List, [], ◌∷◌, ◌++◌, ltb,
  if◌then◌else◌,
}
use nekzus.Notifications.Store.{
  failed, same_status, StoredNotification, Table, get_pending_notifications, get_notification_by_id,
  mark_notification_expired, reset_notification_for_retry,
}
use nekzus.Notifications.Queue.{
  Queue, Outside, QueueError, storage_error, not_found, not_connected, notification_expired,
  count_retry,
}

abbrev pub unreachable : Option (String → Bool) → String → Bool
unreachable none device_id = false
unreachable (some connected) device_id = not (connected device_id)

abbrev pub is_sent : Option String → Bool
is_sent none = true
is_sent (some error) = false

module _ {P : Type 0} where
  -- q.storage.MarkNotificationExpired and its metric
  unfoldable pub expire : Outside P → Queue P → ℕ → Queue P
  unfolding mark_notification_expired
  expire o q id = record q {
    table = if o.writes id then mark_notification_expired q.table id else q.table;
    metrics = record q.metrics { expirations = q.metrics.expirations + 1 };
  }

  unfoldable pub with_table : Queue P → Option (Table P) → Option (Queue P)
  with_table q none = none
  with_table q (some table) = some (record q { table = table })

  -- The queue behind a reset; `none` is its error.
  unfoldable pub reset : Outside P → Queue P → ℕ → Option (Queue P)
  unfolding reset_notification_for_retry with_table
  reset o q id =
      with_table q (if o.writes id then reset_notification_for_retry q.table id else none)

  -- The attempt, on the queue behind the reset.
  unfoldable pub attempt :
      Outside P → StoredNotification P → Option (Queue P) → Queue P → Queue P × List ℕ
  unfolding count_retry
  attempt o n none q = (q, [])
  attempt o n (some q') q =
      (count_retry o q' n.id (o.deliver n.device_id n.kind n.payload n.id), n.id ∷ [])

  -- One round of the loop of RetryDevice.
  unfoldable pub retry_stored : Outside P → Queue P → StoredNotification P → Queue P × List ℕ
  unfolding expire reset attempt
  retry_stored o q n =
      if ltb n.expires_at o.now
      then (expire o q n.id, [])
      else attempt o n (if same_status n.status failed then reset o q n.id else some q) q

  unfoldable pub retry_loop : Outside P → Queue P → List (StoredNotification P) → Queue P × List ℕ
  unfolding retry_stored
  retry_loop o q [] = (q, [])
  retry_loop o q (n ∷ rest) =
      let (q1, ids) = retry_stored o q n in
      let (q2, ids') = retry_loop o q1 rest in (q2, ids ++ ids')

  -- The whole call, where nothing else happens between the read of the rows and the last of them. The
  -- code holds no lock meanwhile; the steps of Queue/Runs let other calls come in between.
  unfoldable pub retry_device : Outside P → Queue P → String → Queue P × List ℕ × Option QueueError
  unfolding retry_loop get_pending_notifications
  retry_device o q device_id =
      if o.reads
      then (let (q', ids) = retry_loop o q (get_pending_notifications o.now q.table device_id) in
          (q', ids, none))
      else (q, [], some storage_error)

  unfoldable pub or_same : Queue P → Option (Queue P) → Queue P
  or_same q none = q
  or_same q (some q') = q'

  -- The part of RetryNotification behind the read.
  unfoldable pub retry_found :
      Outside P
      → Queue P
      → ℕ
      → Option (StoredNotification P)
      → Queue P × List ℕ × Bool × Option QueueError
  unfolding expire reset or_same count_retry
  retry_found o q id none = (q, [], false, some not_found)
  retry_found o q id (some n) =
      if unreachable o.connected n.device_id
      then (q, [], false, some not_connected)
      else if ltb n.expires_at o.now
      then (expire o q id, [], false, some notification_expired)
      else (let error = o.deliver n.device_id n.kind n.payload id in
          (count_retry o (or_same q (reset o q id)) id error, id ∷ [], is_sent error, none))

  -- The queue, the delivery, whether it succeeded, and the error.
  unfoldable pub retry_notification :
      Outside P → Queue P → ℕ → Queue P × List ℕ × Bool × Option QueueError
  unfolding retry_found get_notification_by_id
  retry_notification o q id =
      if o.reads
      then retry_found o q id (get_notification_by_id q.table id)
      else (q, [], false, some storage_error)
