-- ===== src/Notifications/Queue/Whole.antt =====
-- RetryDevice as its steps: the read and one round for each row, with nothing in between.
use nekzus.Prelude.{◌≡◌, refl, ap, String, true, List, [], ◌∷◌, ◌++◌, taken}
use mathlib.Core.List.{append-nil}
use nekzus.Notifications.Store.{StoredNotification, get_pending_notifications}
use nekzus.Notifications.Queue.{Queue, Outside}
use nekzus.Notifications.Queue.Retry.{retry_stored, retry_loop, retry_device}
use nekzus.Notifications.Queue.Runs.{Op, op_read, op_retry, read_rows, retry_taken, apply, run}

module _ {P : Type 0} where
  abbrev rounds : Outside P → List (StoredNotification P) → List (Op P)
  rounds o [] = []
  rounds o (n ∷ rows) = op_retry o 0 ∷ rounds o rows

  retry_loop-run :
      (o : Outside P) (q : Queue P) (rows : List (StoredNotification P))
      → run (record { queue = q; in_flight = rows }) (rounds o rows)
        ≡ (record { queue = (retry_loop o q rows).0; in_flight = [] }, (retry_loop o q rows).1)
  unfolding run apply retry_loop retry_taken taken
  retry_loop-run o q [] = refl
  retry_loop-run o q (n ∷ rows) =
      ap (λ x. (x.0, (retry_stored o q n).1 ++ x.1)) (retry_loop-run o (retry_stored o q n).0 rows)

  -- The read and the rounds for its rows do to the queue what the whole call does, with the same rows sent.
  pub retry_device-run :
      (o : Outside P) (q : Queue P) (device_id : String)
      → o.reads ≡ true
      → run
          (record { queue = q; in_flight = [] })
          (op_read o device_id ∷ rounds o (get_pending_notifications o.now q.table device_id))
        ≡ (
          record { queue = (retry_device o q device_id).0; in_flight = [] },
          (retry_device o q device_id).1,
        )
  unfolding run apply read_rows retry_device
  retry_device-run o q device_id h = rw h (
      rw (append-nil (get_pending_notifications o.now q.table device_id))
        (retry_loop-run o q (get_pending_notifications o.now q.table device_id)))
