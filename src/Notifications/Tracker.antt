-- ===== src/Notifications/Tracker.antt =====
-- internal/notifications/ack_tracker.go: notifications that wait for the acknowledgement of a device,
-- and the callbacks that cmd/nekzus/main.go gives the tracker. The identifier that `uuid.New` draws is
-- an argument. A time is a number, and a method reads the clock once. The callbacks of a method are
-- returned.
pub mod InTime
use nekzus.Prelude.{
  ℕ, ◌+◌, ◌*◌, String, Bool, true, false, ◌&&◌, Option, none, some, List, [], ◌∷◌, ltb, nat_beq,
  ◌==◌, if◌then◌else◌,
}
use nekzus.Prelude.Dict.{Dict, lookup, put, delete, delete_where, entries, size, has}
use nekzus.Notifications.Store.{Table, mark_notification_delivered}

pub record PendingNotification (P : Type 0) : Type 0 where
  pub id : String
  pub storage_id : ℕ
  pub device_id : String
  pub kind : String
  pub payload : P
  pub sent_at : ℕ
  pub expires_at : ℕ

-- The last two tell whether the callbacks are set.
pub record AckTrackerConfig : Type 0 where
  pub ack_timeout : ℕ
  pub on_ack : Bool
  pub on_timeout : Bool

pub record AckTracker (P : Type 0) : Type 0 where
  pub config : AckTrackerConfig
  pub pending : Dict (PendingNotification P)

-- The arguments of the two callbacks.
pub record Acknowledged : Type 0 where
  pub storage_id : ℕ
  pub kind : String
  pub device_id : String

pub record TimedOut (P : Type 0) : Type 0 where
  pub id : String
  pub device_id : String
  pub kind : String
  pub payload : P

module _ {P : Type 0} where
  -- The default of the time-out is thirty seconds.
  unfoldable pub new_ack_tracker : AckTrackerConfig → AckTracker P
  new_ack_tracker config = record {
    config = record config {
      ack_timeout = if nat_beq config.ack_timeout 0 then 30 * 1_000_000_000 else config.ack_timeout;
    };
    pending = [];
  }

  unfoldable pub register : AckTracker P → String → String → String → P → ℕ → ℕ → AckTracker P
  unfolding put
  register t id device_id kind payload storage_id now = record t {
    pending = put t.pending id (record {
      id = id;
      storage_id = storage_id;
      device_id = device_id;
      kind = kind;
      payload = payload;
      sent_at = now;
      expires_at = now + t.config.ack_timeout;
    });
  }

  abbrev pub ack_callback : AckTrackerConfig → Option (PendingNotification P) → Option Acknowledged
  ack_callback config none = none
  ack_callback config (some n) =
      if ltb 0 n.storage_id && config.on_ack
      then some (record { storage_id = n.storage_id; kind = n.kind; device_id = n.device_id })
      else none

  unfoldable pub ack : AckTracker P → String → AckTracker P × Option Acknowledged
  unfolding lookup delete
  ack t id = (
    record t { pending = if has t.pending id then delete t.pending id else t.pending },
    ack_callback t.config (lookup t.pending id),
  )

  unfoldable pub cancel : AckTracker P → String → AckTracker P
  unfolding delete
  cancel t id = record t { pending = delete t.pending id }

  unfoldable pub is_pending : AckTracker P → String → Bool
  unfolding lookup
  is_pending t id = has t.pending id

  unfoldable pub get_pending_count : AckTracker P → ℕ
  unfolding size
  get_pending_count t = size t.pending

  unfoldable pub ids_of : Dict (PendingNotification P) → String → List String
  ids_of [] device_id = []
  ids_of ((id, n) ∷ rest) device_id =
      let ids = ids_of rest device_id in if n.device_id == device_id then id ∷ ids else ids

  unfoldable pub get_pending_for_device : AckTracker P → String → List String
  unfolding ids_of entries
  get_pending_for_device t device_id = ids_of (entries t.pending) device_id

  unfoldable pub timed_out : ℕ → Dict (PendingNotification P) → List (TimedOut P)
  timed_out now [] = []
  timed_out now ((id, n) ∷ rest) =
      let more = timed_out now rest in
      if ltb n.expires_at now
      then record { id = n.id; device_id = n.device_id; kind = n.kind; payload = n.payload } ∷ more
      else more

  unfoldable pub check_timeouts : AckTracker P → ℕ → AckTracker P × List (TimedOut P)
  unfolding timed_out delete_where entries
  check_timeouts t now = (
    record t { pending = delete_where t.pending (λ id n. ltb n.expires_at now) },
    if t.config.on_timeout then timed_out now (entries t.pending) else [],
  )

  -- What the program's callback does to the table; `saved` tells whether the database takes the update.
  unfoldable pub on_ack : ℕ → Bool → Table P → Option Acknowledged → Table P
  unfolding mark_notification_delivered
  on_ack now saved table none = table
  on_ack now saved table (some a) =
      if ltb 0 a.storage_id && saved
      then mark_notification_delivered now table a.storage_id
      else table
