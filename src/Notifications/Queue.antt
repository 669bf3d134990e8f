-- ===== src/Notifications/Queue.antt =====
-- internal/notifications/queue.go. The workers take the notifications from the channel one at a time;
-- each step below is one of them, or one call. The channel has a buffer. What the database, the deliverer and the connectivity
-- checker answer is an argument. A time is a number of seconds, and a step reads the clock once.
pub mod Retry
pub mod Delivered
pub mod Runs
pub mod Whole
pub mod Resend
use nekzus.Prelude.{
  ℕ, ◌+◌, ◌-◌, suc, String, Bool, true, false, not, ◌&&◌, Option, none, some, List, [], ◌∷◌, ◌++◌,
  length, ltb, nat_beq, ◌==◌, if◌then◌else◌,
}
use nekzus.Notifications.Store.{
  Status, failed, same_status, StoredNotification, Table, enqueue_notification,
  get_pending_notifications, get_notification_by_id, mark_notification_expired,
  update_notification_retry, reset_notification_for_retry,
}

pub record Notification (P : Type 0) : Type 0 where
  pub device_id : String
  pub kind : String
  pub payload : P
  pub ttl : ℕ
  pub max_retries : ℕ
  pub created_at : ℕ

pub record Metrics : Type 0 where
  pub enqueued : ℕ
  pub failures : ℕ
  pub expirations : ℕ
  pub retried : ℕ
  pub storage_falls : ℕ

pub record Queue (P : Type 0) : Type 0 where
  pub buffer_size : ℕ
  pub channel : List (Notification P)
  pub table : Table P
  pub metrics : Metrics

-- `writes` is asked with the id of the row, `deliver` gives the error of a delivery.
pub record Outside (P : Type 0) : Type 0 where
  pub now : ℕ
  pub inserts : Bool
  pub reads : Bool
  pub writes : ℕ → Bool
  pub deliver : String → String → P → ℕ → Option String
  pub connected : Option (String → Bool)

pub data QueueError : Type 0 where
  persisted_to_storage storage_error not_found not_connected notification_expired : QueueError

module _ {P : Type 0} where
  unfoldable pub new_queue : ℕ → Table P → Queue P
  new_queue buffer_size table = record {
    buffer_size = buffer_size;
    channel = [];
    table = table;
    metrics = record {
      enqueued = 0;
      failures = 0;
      expirations = 0;
      retried = 0;
      storage_falls = 0;
    };
  }

  -- Enqueue, with its error.
  unfoldable pub enqueue :
      Outside P → Queue P → String → String → P → ℕ → ℕ → Queue P × Option QueueError
  unfolding enqueue_notification
  enqueue o q device_id kind payload ttl max_retries =
      let metrics = record q.metrics { enqueued = q.metrics.enqueued + 1 } in
      if ltb (length q.channel) q.buffer_size
      then (
        record q {
          channel =
              q.channel
              ++ (record {
                device_id = device_id;
                kind = kind;
                payload = payload;
                ttl = ttl;
                max_retries = max_retries;
                created_at = o.now;
              }
                  ∷ []);
          metrics = metrics;
        },
        none,
      )
      else if o.inserts
      then (
        record q {
          table = (enqueue_notification o.now q.table device_id kind payload ttl max_retries).0;
          metrics = record metrics { storage_falls = metrics.storage_falls + 1 };
        },
        some persisted_to_storage,
      )
      else (
        record q { metrics = record metrics { storage_falls = metrics.storage_falls + 1 } },
        some storage_error,
      )

  -- A delivery that failed with the error: the retry count, and the metric.
  unfoldable pub count_retry : Outside P → Queue P → ℕ → Option String → Queue P
  unfolding update_notification_retry
  count_retry o q id none = q
  count_retry o q id (some error) = record q {
    table = if o.writes id then update_notification_retry o.now q.table id error else q.table;
    metrics = record q.metrics { retried = q.metrics.retried + 1 };
  }

  abbrev pub is_stale : ℕ → Notification P → Bool
  is_stale now n = ltb 0 n.ttl && ltb n.ttl (now - n.created_at)

  -- The ids of the rows that were handed to the deliverer stand beside the queue.
  unfoldable pub process_notification : Outside P → Queue P → Notification P → Queue P × List ℕ
  unfolding enqueue_notification count_retry
  process_notification o q n =
      if is_stale o.now n
      then (record q { metrics = record q.metrics { expirations = q.metrics.expirations + 1 } }, [])
      else if not o.inserts
      then (record q { metrics = record q.metrics { failures = q.metrics.failures + 1 } }, [])
      else (let (table, id) =
            enqueue_notification o.now q.table n.device_id n.kind n.payload n.ttl n.max_retries in
          (
            count_retry o (record q { table = table }) id
                (o.deliver n.device_id n.kind n.payload id),
            id ∷ [],
          ))

  unfoldable pub take_next : Outside P → Queue P → List (Notification P) → Queue P × List ℕ
  unfolding process_notification
  take_next o q [] = (q, [])
  take_next o q (n ∷ rest) = process_notification o (record q { channel = rest }) n

  -- A worker's round: it takes the oldest notification from the channel.
  unfoldable pub work : Outside P → Queue P → Queue P × List ℕ
  unfolding take_next
  work o q = take_next o q q.channel
