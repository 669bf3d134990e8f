-- ===== src/Health/Checker.antt =====
-- internal/health/service_checker.go: the status of each service behind its probes. A probe's outcome is
-- an argument; a method reads the clock once. The notifications that a method sends are returned: that
-- of the live broadcast, with the name and path that the registry gives, and that to the queue of every
-- device, which carries the same values. What is stored and counted is not modelled, nor are the
-- durations of the configuration.
pub mod Threshold
use nekzus.Prelude.{
  ℕ, suc, ◌+◌, String, Bool, true, false, not, ◌&&◌, ◌||◌, Option, none, some, List, [], ◌∷◌, leb,
  ltb, nat_beq, any, ◌==◌, if◌then◌else◌,
}
use nekzus.Prelude.Bytes.{Bytes, bytes, beq}
use nekzus.Prelude.Dict.{Dict, lookup, put}

pub data Status : Type 0 where
  healthy unhealthy unknown : Status

abbrev pub same_status : Status → Status → Bool
same_status healthy healthy = true
same_status unhealthy unhealthy = true
same_status unknown unknown = true
same_status _ _ = false

pub record ServiceHealthStatus : Type 0 where
  pub app_id : String
  pub status : Status
  pub last_check_time : ℕ
  pub last_success_time : Option ℕ
  pub consecutive_failures : ℕ
  pub error_message : Bytes

-- What the registry tells of an app: its name, "" if there is none, and the path of its route.
pub record AppInfo : Type 0 where
  pub name : String
  pub path_base : Bytes

-- A threshold that is not positive is 0. `has_queue` tells whether the queue and the storage are set.
pub record ServiceHealthChecker : Type 0 where
  pub unhealthy_threshold : ℕ
  pub path : Bytes
  pub per_service_path : Dict Bytes
  pub has_notifier : Bool
  pub has_queue : Bool
  pub health_status : Dict ServiceHealthStatus

pub data Notification : Type 0 where
  live : String → String → Bytes → Status → Bytes → Notification
  queued : String → Status → Bytes → Notification

-- The fields of a route that the checker reads.
pub record CheckedRoute : Type 0 where
  pub skip_health_check : Bool
  pub health_check_path : Bytes
  pub expected_status_codes : List ℕ

abbrev pub or_path : Bytes → Bytes → Bytes
or_path [] later = later
or_path (b ∷ path) later = b ∷ path

-- getEffectivePath; a missing entry of the map has an empty path.
unfoldable pub get_effective_path : ServiceHealthChecker → String → CheckedRoute → Bytes
unfolding lookup
get_effective_path c app_id route = or_path route.health_check_path (
    or_path (elim (lookup c.per_service_path app_id) [ none ↦ [] | some path ↦ path ])
      (or_path c.path (bytes "/")))

-- isExpectedStatus
unfoldable pub is_expected_status : ℕ → List ℕ → Bool
is_expected_status code [] = leb 200 code && ltb code 300
is_expected_status code (expected ∷ codes) = any (nat_beq code) (expected ∷ codes)

-- "Get or create status"
unfoldable pub get_or_create : ServiceHealthChecker → String → ServiceHealthStatus
unfolding lookup
get_or_create c app_id = elim (lookup c.health_status app_id) [
  | some s ↦ s
  | none ↦ record {
    app_id = app_id;
    status = unknown;
    last_check_time = 0;
    last_success_time = none;
    consecutive_failures = 0;
    error_message = [];
  }
]

abbrev pub threshold_of : ServiceHealthChecker → ℕ
threshold_of c = if nat_beq c.unhealthy_threshold 0 then 3 else c.unhealthy_threshold

-- The entry behind a result.
abbrev pub with_result :
    ServiceHealthChecker → ServiceHealthStatus → Status → Bytes → ℕ → ServiceHealthStatus
with_result c s healthy message now = record s {
  status = healthy;
  last_check_time = now;
  last_success_time = some now;
  consecutive_failures = 0;
  error_message = [];
}
with_result c s unhealthy message now = record s {
  status = if leb (threshold_of c) (s.consecutive_failures + 1) then unhealthy else healthy;
  last_check_time = now;
  consecutive_failures = s.consecutive_failures + 1;
  error_message = message;
}
with_result c s unknown message now = record s {
  status = unknown;
  last_check_time = now;
  error_message = message;
}

abbrev pub recovered : ServiceHealthStatus → Bytes
recovered s =
    if beq s.error_message [] && same_status s.status healthy
    then bytes "Service recovered"
    else s.error_message

-- The name and the path that a notification carries; nothing where the registry has no such app.
abbrev pub live_of : String → Option AppInfo → Status → Bytes → Notification
live_of app_id none status message = live app_id app_id [] status message
live_of app_id (some info) status message =
    live app_id (if info.name == "" then app_id else info.name) info.path_base status message

abbrev pub queued_of : ServiceHealthChecker → String → Status → Bytes → List Notification
queued_of c app_id status message = if c.has_queue then queued app_id status message ∷ [] else []

-- updateHealthStatus
unfoldable pub update_health_status :
    ServiceHealthChecker
    → String
    → Status
    → Bytes
    → ℕ
    → Option AppInfo
    → ServiceHealthChecker × List Notification
unfolding get_or_create put beq
update_health_status c app_id result message now info =
    let before = get_or_create c app_id in
    let s = with_result c before result message now in
    (
      record c { health_status = put c.health_status app_id s },
      (if not (same_status before.status s.status)
            && (not (same_status before.status unknown) && c.has_notifier)
          then live_of app_id info s.status (recovered s)
            ∷ queued_of c app_id s.status (recovered s)
          else []),
    )

-- The outcome of a probe: the URL is not valid, the request cannot be made or fails, or a status code.
pub data Probe : Type 0 where
  invalid_url request_failed : Bytes → Probe
  response : ℕ → Bytes → Probe

abbrev pub result_of : CheckedRoute → Probe → Status × Bytes
result_of route (invalid_url message) = (unknown, message)
result_of route (request_failed message) = (unhealthy, message)
result_of route (response code message) =
    if is_expected_status code route.expected_status_codes
    then (healthy, [])
    else (unhealthy, message)

-- checkServiceHealth, with the outcome of the probe of the effective path
unfoldable pub check_service_health :
    ServiceHealthChecker
    → String
    → Option CheckedRoute
    → (Bytes → Probe)
    → ℕ
    → Option AppInfo
    → ServiceHealthChecker × List Notification
unfolding update_health_status get_effective_path is_expected_status
check_service_health c app_id none probe now info =
    update_health_status c app_id unknown (bytes "no route found for service") now info
check_service_health c app_id (some route) probe now info =
    if route.skip_health_check
    then update_health_status c app_id healthy [] now info
    else (let (result, message) = result_of route (probe (get_effective_path c app_id route)) in
        update_health_status c app_id result message now info)

-- MarkAppUnhealthy
unfoldable pub mark_app_unhealthy :
    ServiceHealthChecker
    → String
    → Bytes
    → ℕ
    → Option AppInfo
    → ServiceHealthChecker × List Notification
unfolding get_or_create put
mark_app_unhealthy c app_id reason now info =
    let before = get_or_create c app_id in
    (
      record c {
        health_status = put c.health_status app_id (record before {
          status = unhealthy;
          error_message = reason;
          last_check_time = now;
          consecutive_failures = before.consecutive_failures + 1;
        });
      },
      (if not (same_status before.status unhealthy) && not (same_status before.status unknown)
          then (if c.has_notifier
              then live_of app_id info unhealthy reason ∷ queued_of c app_id unhealthy reason
              else queued_of c app_id unhealthy reason)
          else []),
    )

-- GetServiceHealth
unfoldable pub get_service_health : ServiceHealthChecker → String → Option ServiceHealthStatus
unfolding lookup
get_service_health c app_id = lookup c.health_status app_id

unfoldable pub is_service_healthy : ServiceHealthChecker → String → Bool
unfolding lookup
is_service_healthy c app_id = elim (lookup c.health_status app_id) [
  | none ↦ true
  | some s ↦ same_status s.status healthy
]

-- loadHealthStatusesFromStorage, of the rows that the storage has
unfoldable pub load_health_statuses :
    ServiceHealthChecker → List ServiceHealthStatus → ServiceHealthChecker
unfolding put
load_health_statuses c [] = c
load_health_statuses c (row ∷ rows) =
    load_health_statuses (record c { health_status = put c.health_status row.app_id row }) rows
