-- ===== src/Notifications/Store.antt =====
-- internal/storage/storage.go: the table of the notifications. Its rows stand in the order of their
-- creation, which the queries sort by. A time is a number of seconds. A query that the database refuses
-- is modelled where it is called.
pub mod Rows
pub mod Kept
use nekzus.Prelude.{
  ℕ, ◌+◌, suc, String, Bool, true, false, not, ◌&&◌, ◌||◌, Option, none, some, List, [], ◌∷◌, ◌++◌,
  ltb, leb, nat_beq, ◌==◌, if◌then◌else◌,
}

pub data Status : Type 0 where
  pending delivered failed expired dismissed : Status

abbrev pub same_status : Status → Status → Bool
same_status pending pending = true
same_status delivered delivered = true
same_status failed failed = true
same_status expired expired = true
same_status dismissed dismissed = true
same_status _ _ = false

-- A column that may be NULL is an `Option`.
pub record StoredNotification (P : Type 0) : Type 0 where
  pub id : ℕ
  pub device_id : String
  pub kind : String
  pub payload : P
  pub status : Status
  pub retry_count : ℕ
  pub max_retries : ℕ
  pub created_at : ℕ
  pub expires_at : ℕ
  pub delivered_at : Option ℕ
  pub last_attempt_at : Option ℕ
  pub error_message : Option String

-- AUTOINCREMENT gives each row an id that no row had before.
pub record Table (P : Type 0) : Type 0 where
  pub rows : List (StoredNotification P)
  pub next_id : ℕ

module _ {P : Type 0} where
  -- UPDATE notifications SET ... WHERE ...
  unfoldable pub update_where :
      (StoredNotification P → Bool)
      → (StoredNotification P → StoredNotification P)
      → List (StoredNotification P)
      → List (StoredNotification P)
  update_where p f [] = []
  update_where p f (r ∷ rows) = (if p r then f r else r) ∷ update_where p f rows

  -- SELECT ... WHERE ...; a DELETE keeps the rows of the other ones
  unfoldable pub select_where :
      (StoredNotification P → Bool) → List (StoredNotification P) → List (StoredNotification P)
  select_where p [] = []
  select_where p (r ∷ rows) = let rest = select_where p rows in if p r then r ∷ rest else rest

  -- WHERE id = ?
  abbrev pub has_id : ℕ → StoredNotification P → Bool
  has_id i r = nat_beq r.id i

  abbrev pub is_pending_for : String → StoredNotification P → Bool
  is_pending_for device_id r = (r.device_id == device_id) && same_status r.status pending

  abbrev pub is_pending_id : ℕ → StoredNotification P → Bool
  is_pending_id i r = has_id i r && same_status r.status pending

  -- The table and the id of the new row.
  unfoldable pub enqueue_notification : ℕ → Table P → String → String → P → ℕ → ℕ → Table P × ℕ
  enqueue_notification now t device_id kind payload ttl max_retries = (
    record {
      rows =
          t.rows
          ++ (record {
            id = t.next_id;
            device_id = device_id;
            kind = kind;
            payload = payload;
            status = pending;
            retry_count = 0;
            max_retries = max_retries;
            created_at = now;
            expires_at = now + ttl;
            delivered_at = none;
            last_attempt_at = none;
            error_message = none;
          }
              ∷ []);
      next_id = suc t.next_id;
    },
    t.next_id,
  )

  abbrev pub is_retryable : ℕ → String → StoredNotification P → Bool
  is_retryable now device_id r =
      (r.device_id == device_id)
      && ((same_status r.status pending || same_status r.status failed) && ltb now r.expires_at)

  unfoldable pub get_pending_notifications : ℕ → Table P → String → List (StoredNotification P)
  unfolding select_where
  get_pending_notifications now t device_id = select_where (is_retryable now device_id) t.rows

  unfoldable pub get_all_retryable_notifications : ℕ → Table P → List (StoredNotification P)
  unfolding select_where
  get_all_retryable_notifications now t =
      select_where (λ r. same_status r.status pending && ltb now r.expires_at) t.rows

  -- The first row with the id; `none` is no row.
  unfoldable pub find_id : List (StoredNotification P) → ℕ → Option (StoredNotification P)
  find_id [] i = none
  find_id (r ∷ rows) i = if nat_beq r.id i then some r else find_id rows i

  unfoldable pub get_notification_by_id : Table P → ℕ → Option (StoredNotification P)
  unfolding find_id
  get_notification_by_id t i = find_id t.rows i

  unfoldable pub mark_notification_delivered : ℕ → Table P → ℕ → Table P
  unfolding update_where
  mark_notification_delivered now t i = record t {
    rows =
        update_where (has_id i) (λ r. record r { status = delivered; delivered_at = some now })
          t.rows;
  }

  unfoldable pub mark_notification_expired : Table P → ℕ → Table P
  unfolding update_where
  mark_notification_expired t i = record t {
    rows =
        update_where (has_id i)
          (λ r. record r { status = expired; error_message = some "notification expired" }) t.rows;
  }

  -- The two updates of the transaction.
  unfoldable pub update_notification_retry : ℕ → Table P → ℕ → String → Table P
  unfolding update_where
  update_notification_retry now t i error_msg = record t {
    rows =
        update_where (λ r. has_id i r && leb r.max_retries r.retry_count)
          (λ r. record r { status = failed })
          (update_where (has_id i)
            (λ r. record r {
              retry_count = r.retry_count + 1;
              last_attempt_at = some now;
              error_message = some error_msg;
            })
            t.rows);
  }

  -- The error of an update that touched no row.
  unfoldable pub affected : List (StoredNotification P) → Table P → Option (Table P)
  affected [] t = none
  affected (r ∷ rows) t = some t

  unfoldable pub reset_notification_for_retry : Table P → ℕ → Option (Table P)
  unfolding update_where select_where affected
  reset_notification_for_retry t i = affected (select_where (has_id i) t.rows) (record t {
    rows =
        update_where (has_id i)
          (λ r. record r { status = pending; retry_count = 0; error_message = none }) t.rows;
  })

  unfoldable pub delete_notifications_for_device : Table P → String → Table P
  unfolding select_where
  delete_notifications_for_device t device_id = record t {
    rows = select_where (λ r. not (is_pending_for device_id r)) t.rows;
  }

  unfoldable pub dismiss_notification : Table P → ℕ → Option (Table P)
  unfolding update_where select_where affected
  dismiss_notification t i = affected (select_where (is_pending_id i) t.rows) (record t {
    rows = update_where (is_pending_id i) (λ r. record r { status = dismissed }) t.rows;
  })

  unfoldable pub dismiss_notifications_for_device : Table P → String → Table P
  unfolding update_where
  dismiss_notifications_for_device t device_id = record t {
    rows = update_where (is_pending_for device_id) (λ r. record r { status = dismissed }) t.rows;
  }

  unfoldable pub clear_delivered_notifications : Table P → Table P
  unfolding select_where
  clear_delivered_notifications t = record t {
    rows = select_where (λ r. not (same_status r.status delivered)) t.rows;
  }
