-- ===== src/Notifications/Queue/Runs.antt =====
-- The queue over any sequence of calls: what is acknowledged is left alone. RetryDevice reads the rows of
-- a device and then sends them one by one without a lock: the read and each of its rows are steps.
use nekzus.Prelude.{
  ℕ, ◌≢◌, String, Option, none, some, List, [], ◌∷◌, ◌++◌, if◌then◌else◌, All, taken,
}
use nekzus.Notifications.Store.{
  StoredNotification, Table, get_pending_notifications, mark_notification_delivered,
  delete_notifications_for_device, dismiss_notification, dismiss_notifications_for_device,
}
use nekzus.Notifications.Store.Kept.{Holds}
use nekzus.Notifications.Queue.{Queue, Outside, enqueue, work}
use nekzus.Notifications.Queue.Retry.{retry_stored}

-- The queue, and the rows that a RetryDevice has read and not yet come to.
pub record System (P : Type 0) : Type 0 where
  pub queue : Queue P
  pub in_flight : List (StoredNotification P)

-- The calls and the rounds of the workers: of the queue, and of its table by the users and the tracker
-- of acknowledgements. `op_read` is the read of a RetryDevice, and `op_retry` its round for the row at a
-- place among those in flight.
pub data Op (P : Type 0) : Type 0 where
  op_enqueue : Outside P → String → String → P → ℕ → ℕ → Op P
  op_work : Outside P → Op P
  op_read : Outside P → String → Op P
  op_retry : Outside P → ℕ → Op P
  op_acknowledge : ℕ → ℕ → Op P
  op_dismiss : ℕ → Op P
  op_dismiss_device op_delete_device : String → Op P

or_unchanged : {P : Type 0} → Table P → Option (Table P) → Table P
or_unchanged t none = t
or_unchanged t (some t') = t'

module _ {P : Type 0} where
  abbrev with_queue : System P → Queue P → System P
  with_queue s q = record s { queue = q }

  abbrev pub with_rows : System P → Table P → System P
  with_rows s t = record s { queue = record s.queue { table = t } }

  -- The rows that the read of a RetryDevice gives; none, if it fails.
  unfoldable pub read_rows : Outside P → Queue P → String → List (StoredNotification P)
  unfolding get_pending_notifications
  read_rows o q device_id =
      if o.reads then get_pending_notifications o.now q.table device_id else []

  unfoldable pub retry_taken :
      Outside P
      → System P
      → Option (StoredNotification P × List (StoredNotification P))
      → System P × List ℕ
  unfolding retry_stored
  retry_taken o s none = (s, [])
  retry_taken o s (some (n, others)) =
      let (q, ids) = retry_stored o s.queue n in (record { queue = q; in_flight = others }, ids)

  -- The queue behind a call and what was handed to the deliverer.
  unfoldable pub apply : System P → Op P → System P × List ℕ
  unfolding enqueue work retry_taken read_rows mark_notification_delivered dismiss_notification
      or_unchanged dismiss_notifications_for_device delete_notifications_for_device taken
  apply s (op_enqueue o device_id kind payload ttl max_retries) =
      (with_queue s (enqueue o s.queue device_id kind payload ttl max_retries).0, [])
  apply s (op_work o) = let (q, ids) = work o s.queue in (with_queue s q, ids)
  apply s (op_read o device_id) =
      (record s { in_flight = read_rows o s.queue device_id ++ s.in_flight }, [])
  apply s (op_retry o n) = retry_taken o s (taken n s.in_flight)
  apply s (op_acknowledge now j) =
      (with_rows s (mark_notification_delivered now s.queue.table j), [])
  apply s (op_dismiss j) =
      (with_rows s (or_unchanged s.queue.table (dismiss_notification s.queue.table j)), [])
  apply s (op_dismiss_device device_id) =
      (with_rows s (dismiss_notifications_for_device s.queue.table device_id), [])
  apply s (op_delete_device device_id) =
      (with_rows s (delete_notifications_for_device s.queue.table device_id), [])

  unfoldable pub run : System P → List (Op P) → System P × List ℕ
  unfolding apply
  run s [] = (s, [])
  run s (op ∷ ops) = let (s1, ids) = apply s op in let (s2, ids') = run s1 ops in (s2, ids ++ ids')

  -- The row is delivered, no retry in flight is about it, and it was not handed to the deliverer.
  abbrev Quiet : ℕ → System P → Type 0
  Quiet i s = Holds i s.queue.table × All (λ n. n.id ≢ i) s.in_flight

  abbrev Passes : ℕ → System P × List ℕ → Type 0
  Passes i (s, ids) = Quiet i s × All (λ j. j ≢ i) ids
