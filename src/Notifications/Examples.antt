-- ===== src/Notifications/Examples.antt =====
-- A table of two notifications and a tracker, on which the theorems are applied.
use nekzus.Prelude.{ℕ, ◌≡◌, refl, String, true, none, some, List, [], ◌∷◌, arith}
use nekzus.Notifications.Store.{Status, pending, delivered, StoredNotification, find_id}
use nekzus.Notifications.Queue.{Queue, Outside}
use nekzus.Notifications.Queue.Retry.{retry_notification}
use nekzus.Notifications.Queue.Runs.{
  Op, op_enqueue, op_work, op_read, op_retry, op_acknowledge, System,
}
use nekzus.Notifications.Queue.Resend.{behind, retry_notification-resends}
use nekzus.Notifications.Tracker.{AckTracker, on_ack}
use nekzus.Notifications.Tracker.InTime as InTime

abbrev row : ℕ → Status → StoredNotification String
row i status = record {
  id = i;
  device_id = "phone";
  kind = "health";
  payload = "down";
  status = status;
  retry_count = 0;
  max_retries = 3;
  created_at = 0;
  expires_at = 100;
  delivered_at = none;
  last_attempt_at = none;
  error_message = none;
}

abbrev queue : Queue String
queue = record {
  buffer_size = 10;
  channel = [];
  table = record { rows = row 1 delivered ∷ row 2 pending ∷ []; next_id = 3 };
  metrics = record { enqueued = 0; failures = 0; expirations = 0; retried = 0; storage_falls = 0 };
}

abbrev outside : Outside String
outside = record {
  now = 50;
  inserts = true;
  reads = true;
  writes = λ i. true;
  deliver = λ device kind payload i. some "offline";
  connected = some (λ device. true);
}

abbrev calls : List (Op String)
calls =
    op_enqueue outside "phone" "health" "up" 60 3
    ∷ op_work outside
    ∷ op_read outside "phone"
    ∷ op_read outside "phone"
    ∷ op_acknowledge 51 2
    ∷ op_retry outside 1
    ∷ op_retry outside 0
    ∷ []

-- A RetryDevice has read the second row.
abbrev busy : System String
busy = record { queue = queue; in_flight = row 2 pending ∷ [] }

abbrev idle : System String
idle = record { queue = queue; in_flight = [] }

first_found : find_id queue.table.rows 1 ≡ some (row 1 delivered)
first_found = unfold find_id in refl

retry_notification-resends_example :
    ((retry_notification outside queue 1).1 ≡ 1 ∷ [])
    × (find_id (retry_notification outside queue 1).0.table.rows 1
        ≡ some (behind 50 (row 1 delivered) (some "offline")))
retry_notification-resends_example =
    retry_notification-resends outside queue 1 (row 1 delivered) first_found refl refl refl
      (omega arith)

abbrev tracker : AckTracker String
tracker = record {
  config = record { ack_timeout = 30; on_ack = true; on_timeout = true };
  pending = [];
}

abbrev tracked : List (InTime.Op String)
tracked =
    InTime.op_register "n3" "tablet" "health" "down" 7 55
    ∷ InTime.op_check 80
    ∷ InTime.op_ack "n3"
    ∷ []
