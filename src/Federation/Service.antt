-- ===== src/Federation/Service.antt =====
-- internal/federation/types.go: a service of the federated catalog. The application's metadata and
-- the confidence, a float, are not looked into, so their types are parameters.
use nekzus.Prelude.{ℕ, String, Bool, Option}
use nekzus.Federation.VectorClock.{VectorClock}

-- `app` is a pointer, which is nil in a tombstone of an unknown service. A time is a number of
-- nanoseconds.
pub record FederatedService (A C : Type 0) : Type 0 where
  pub service_id : String
  pub origin_peer_id : String
  pub app : Option A
  pub confidence : C
  pub last_seen : ℕ
  pub tombstone : Bool
  pub vector_clock : VectorClock
