-- ===== src/Notifications/Tracker/InTime.antt =====
-- An acknowledgement in time settles the notification.
use nekzus.Prelude.{ℕ, ◌+◌, ◌≤◌, ◌≢◌, String, List, [], ◌∷◌}
use nekzus.Notifications.Queue.Runs
use nekzus.Notifications.Tracker.{
  AckTracker, PendingNotification, register, ack, cancel, check_timeouts,
}

pub data Op (P : Type 0) : Type 0 where
  op_register : String → String → String → P → ℕ → ℕ → Op P
  op_ack op_cancel : String → Op P
  op_check : ℕ → Op P

module _ {P : Type 0} where
  unfoldable pub apply : AckTracker P → Op P → AckTracker P
  unfolding register ack cancel check_timeouts
  apply t (op_register id device_id kind payload storage_id now) =
      register t id device_id kind payload storage_id now
  apply t (op_ack id) = (ack t id).0
  apply t (op_cancel id) = cancel t id
  apply t (op_check now) = (check_timeouts t now).0

  unfoldable pub run : AckTracker P → List (Op P) → AckTracker P
  unfolding apply
  run t [] = t
  run t (op ∷ ops) = run (apply t op) ops

  -- The calls are about other notifications, and the checks come before the deadline has passed.
  abbrev pub InTime : String → ℕ → List (Op P) → Type 0
  InTime id deadline [] = Unit
  InTime id deadline (op_register j device_id kind payload storage_id now ∷ ops) =
      (j ≢ id) × InTime id deadline ops
  InTime id deadline (op_ack j ∷ ops) = (j ≢ id) × InTime id deadline ops
  InTime id deadline (op_cancel j ∷ ops) = (j ≢ id) × InTime id deadline ops
  InTime id deadline (op_check now ∷ ops) = (now ≤ deadline) × InTime id deadline ops

  abbrev pending_entry : AckTracker P → String → String → String → P → ℕ → ℕ → PendingNotification P
  pending_entry t id device_id kind payload storage_id now = record {
    id = id;
    storage_id = storage_id;
    device_id = device_id;
    kind = kind;
    payload = payload;
    sent_at = now;
    expires_at = now + t.config.ack_timeout;
  }
