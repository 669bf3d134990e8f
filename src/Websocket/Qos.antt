-- ===== src/Websocket/Qos.antt =====
-- internal/websocket/qos.go, QoSTracker: messages that wait for their acknowledgement. The message is a
-- parameter; the identifier that `uuid.New` draws is an argument, and a time is a number of nanoseconds.
-- The callbacks of a check are returned in order, those of the retries, which run in goroutines of
-- their own, before those of the time-outs; whether they are set is part of the configuration. The
-- counter of the retries stays below `max_retries`, so it is a number.
pub mod Timeouts
pub mod Runs
pub mod Silence
use nekzus.Prelude.{
  ℕ, suc, ◌+◌, ◌*◌, String, Bool, true, false, ◌&&◌, Option, none, some, List, [], ◌∷◌, ◌++◌, ltb,
  leb, nat_beq, ◌==◌, if◌then◌else◌,
}
use nekzus.Prelude.Dict.{Dict, lookup, put, delete, delete_where, entries, size, has}

pub data Status : Type 0 where
  pending sent : Status

pub record PendingAck (M : Type 0) : Type 0 where
  pub message_id : String
  pub device_id : String
  pub topic : String
  pub message : M
  pub status : Status
  pub retry_count : ℕ
  pub sent_at : ℕ
  pub expires_at : ℕ

pub record QosTrackerConfig : Type 0 where
  pub ack_timeout : ℕ
  pub max_retries : ℕ
  pub on_timeout : Bool
  pub on_retry : Bool

pub record QosTracker (M : Type 0) : Type 0 where
  pub pending : Dict (PendingAck M)
  pub config : QosTrackerConfig

pub data Callback (M : Type 0) : Type 0 where
  timed_out : String → String → String → Callback M
  retried : String → String → String → M → ℕ → Callback M

abbrev pub second : ℕ
second = 1_000_000_000

-- The defaults of the configuration.
unfoldable pub with_defaults : QosTrackerConfig → QosTrackerConfig
with_defaults config = record config {
  ack_timeout = if nat_beq config.ack_timeout 0 then 30 * second else config.ack_timeout;
  max_retries = if nat_beq config.max_retries 0 then 3 else config.max_retries;
}

module _ {M : Type 0} where
  unfoldable pub new_qos_tracker : QosTrackerConfig → QosTracker M
  unfolding with_defaults
  new_qos_tracker config = record { pending = []; config = with_defaults config }

  unfoldable pub register_qos1 : QosTracker M → String → String → String → M → ℕ → QosTracker M
  unfolding put
  register_qos1 t message_id device_id topic message now = record t {
    pending = put t.pending message_id (record {
      message_id = message_id;
      device_id = device_id;
      topic = topic;
      message = message;
      status = pending;
      retry_count = 0;
      sent_at = now;
      expires_at = now + t.config.ack_timeout;
    });
  }

  -- ACK; the second result tells whether the message was found.
  unfoldable pub ack : QosTracker M → String → QosTracker M × Bool
  unfolding lookup delete
  ack t message_id =
      if has t.pending message_id
      then (record t { pending = delete t.pending message_id }, true)
      else (t, false)

  unfoldable pub cancel : QosTracker M → String → QosTracker M
  unfolding delete
  cancel t message_id = record t { pending = delete t.pending message_id }

  -- The loop of `CancelForDevice`, with its counter.
  unfoldable pub cancel_loop :
      Dict (PendingAck M) → String → Dict (PendingAck M) → ℕ → Dict (PendingAck M) × ℕ
  unfolding delete
  cancel_loop [] device_id m count = (m, count)
  cancel_loop ((id, p) ∷ rest) device_id m count =
      if p.device_id == device_id
      then cancel_loop rest device_id (delete m id) (count + 1)
      else cancel_loop rest device_id m count

  unfoldable pub cancel_for_device : QosTracker M → String → QosTracker M × ℕ
  unfolding cancel_loop entries
  cancel_for_device t device_id =
      let (m, count) = cancel_loop (entries t.pending) device_id t.pending 0 in
      (record t { pending = m }, count)

  unfoldable pub pending_count : QosTracker M → ℕ
  unfolding size
  pending_count t = size t.pending

  unfoldable pub get_pending : QosTracker M → String → Option (PendingAck M)
  unfolding lookup
  get_pending t message_id = lookup t.pending message_id

  -- The message with one more retry.
  abbrev pub retry : QosTrackerConfig → ℕ → PendingAck M → PendingAck M
  retry config now p = record p {
    retry_count = p.retry_count + 1;
    expires_at = now + config.ack_timeout;
    status = sent;
  }

  -- The body of the loop of `checkTimeouts`: what becomes of the entry.
  abbrev pub after_check : QosTrackerConfig → ℕ → PendingAck M → Option (PendingAck M)
  after_check config now p =
      if ltb p.expires_at now
      then (if leb config.max_retries p.retry_count then none else some (retry config now p))
      else some p

  abbrev pub retries_of : QosTrackerConfig → ℕ → PendingAck M → List (Callback M)
  retries_of config now p =
      if ltb p.expires_at now
      then (if leb config.max_retries p.retry_count
          then []
          else if config.on_retry
          then retried p.message_id p.device_id p.topic p.message (p.retry_count + 1) ∷ []
          else [])
      else []

  abbrev pub timeouts_of : QosTrackerConfig → ℕ → PendingAck M → List (Callback M)
  timeouts_of config now p =
      if ltb p.expires_at now
      then (if leb config.max_retries p.retry_count
          then (if config.on_timeout then timed_out p.message_id p.device_id p.topic ∷ [] else [])
          else [])
      else []

  -- An entry that the loop deletes or writes.
  abbrev pub store : Dict (PendingAck M) → String → Option (PendingAck M) → Dict (PendingAck M)
  store m id none = delete m id
  store m id (some p) = put m id p

  -- The loop over the entries, with the two lists of callbacks.
  unfoldable pub check_loop :
      QosTrackerConfig
      → ℕ
      → Dict (PendingAck M)
      → Dict (PendingAck M)
      → Dict (PendingAck M) × (List (Callback M) × List (Callback M))
  unfolding put delete
  check_loop config now [] m = (m, ([], []))
  check_loop config now ((id, p) ∷ rest) m =
      let (m', (retries, timeouts)) =
        check_loop config now rest (store m id (after_check config now p)) in
      (m', (retries_of config now p ++ retries, timeouts_of config now p ++ timeouts))

  unfoldable pub check_timeouts : QosTracker M → ℕ → QosTracker M × List (Callback M)
  unfolding check_loop entries
  check_timeouts t now =
      let (m, (retries, timeouts)) = check_loop t.config now (entries t.pending) t.pending in
      (record t { pending = m }, retries ++ timeouts)
