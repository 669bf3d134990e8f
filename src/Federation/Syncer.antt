-- ===== src/Federation/Syncer.antt =====
-- internal/federation/syncer.go, with the rows of federated services of internal/storage/storage.go.
-- The lock makes a method one step. A method reads the clock once, and a database call that fails
-- does so by an argument. The pointers to services and applications are not nil unless an `Option`
-- says so. What a caller sees of a listing is its elements: the order is not modelled.
pub mod Remote
pub mod Catalog
pub mod Causal
pub mod Steps
pub mod Runs
pub mod Updates
use nekzus.Prelude.{
  ℕ, String, Bool, true, false, Option, none, some, List, [], ◌∷◌, ◌==◌, if◌then◌else◌,
}
use nekzus.Prelude.Dict.{Dict, lookup, put, entries}
use nekzus.Federation.VectorClock.{VectorClock, new_vector_clock, increment, merge, copy}
use nekzus.Federation.Service.{FederatedService}
use nekzus.Federation.Resolver.{Winner, local, remote, resolve_conflict}

-- encoding/json on applications, clocks and messages, and the float constants.
pub record Codec (A C J : Type 0) : Type 0 where
  pub marshal_app : Option A → J
  pub unmarshal_app : J → Option A
  pub marshal_clock : VectorClock → J
  pub unmarshal_clock : J → Option VectorClock
  pub is_zero : C → Bool
  pub zero_confidence : C
  pub full_confidence : C

-- What time it is, and which rows the database reads and writes without an error.
pub record Io : Type 0 where
  pub now : ℕ
  pub reads : String → Bool
  pub writes : String → Bool
  pub lists : Bool

pub record FederatedServiceData (C J : Type 0) : Type 0 where
  pub service_id : String
  pub origin_peer_id : String
  pub app_data : J
  pub confidence : C
  pub last_seen : ℕ
  pub tombstone : Bool
  pub vector_clock : J
  pub created_at : ℕ
  pub updated_at : ℕ

-- The table federation_services by its key.
abbrev pub Store : Type 0 → Type 0 → Type 0
Store C J = Dict (FederatedServiceData C J)

pub record CatalogSyncer (C J : Type 0) : Type 0 where
  pub local_peer_id : String
  pub storage : Option (Store C J)
  pub vector_clock : VectorClock
  pub has_broadcast : Bool
  pub has_callback : Bool

pub record AppUpdateMsg (A C : Type 0) : Type 0 where
  pub service_id : String
  pub origin_peer_id : String
  pub app : Option A
  pub confidence : C
  pub vector_clock : VectorClock
  pub tombstone : Bool

pub record AppDeleteMsg : Type 0 where
  pub service_id : String
  pub origin_peer_id : String
  pub vector_clock : VectorClock

-- What the broadcast function is called with, before it is marshalled.
pub data Broadcast (A C : Type 0) : Type 0 where
  update_message : AppUpdateMsg A C → Broadcast A C
  delete_message : AppDeleteMsg → Broadcast A C

pub data EventType : Type 0 where
  federation_service_added federation_service_removed : EventType

abbrev pub ServiceEvent : Type 0 → Type 0 → Type 0
ServiceEvent A C = EventType × FederatedService A C

unfoldable pub new_catalog_syncer : {C J : Type 0} → String → Option (Store C J) → CatalogSyncer C J
new_catalog_syncer local_peer_id storage = record {
  local_peer_id = local_peer_id;
  storage = storage;
  vector_clock = new_vector_clock;
  has_broadcast = false;
  has_callback = false;
}

abbrev created : {C J : Type 0} → ℕ → Option (FederatedServiceData C J) → ℕ
created now none = now
created now (some old) = old.created_at

module _ {A C J : Type 0} (codec : Codec A C J) where
  -- The row that the upsert leaves: a conflicting row keeps its time of creation.
  unfoldable pub row_of :
      ℕ → Option (FederatedServiceData C J) → FederatedService A C → FederatedServiceData C J
  row_of now old fs = record {
    service_id = fs.service_id;
    origin_peer_id = fs.origin_peer_id;
    app_data = codec.marshal_app fs.app;
    confidence = if codec.is_zero fs.confidence then codec.full_confidence else fs.confidence;
    last_seen = fs.last_seen;
    tombstone = fs.tombstone;
    vector_clock = codec.marshal_clock fs.vector_clock;
    created_at = created now old;
    updated_at = now;
  }

  -- `none` is the error of the database.
  unfoldable pub save_federated_service : Io → Store C J → FederatedService A C → Option (Store C J)
  unfolding lookup put row_of
  save_federated_service io rows fs =
      if io.writes fs.service_id
      then some (put rows fs.service_id (row_of io.now (lookup rows fs.service_id) fs))
      else none

  unfoldable pub converted :
      FederatedServiceData C J → Option A → Option VectorClock → Option (FederatedService A C)
  converted row none clock = none
  converted row (some app) none = none
  converted row (some app) (some clock) = some (record {
    service_id = row.service_id;
    origin_peer_id = row.origin_peer_id;
    app = some app;
    confidence = row.confidence;
    last_seen = row.last_seen;
    tombstone = row.tombstone;
    vector_clock = clock;
  })

  unfoldable pub federated_service_from_storage :
      FederatedServiceData C J → Option (FederatedService A C)
  unfolding converted
  federated_service_from_storage row =
      converted row (codec.unmarshal_app row.app_data) (codec.unmarshal_clock row.vector_clock)

  unfoldable pub from_row : Option (FederatedServiceData C J) → Option (FederatedService A C)
  unfolding federated_service_from_storage
  from_row none = none
  from_row (some row) = federated_service_from_storage row

  -- The existing service: a row that cannot be read or converted counts as missing.
  unfoldable pub existing_service : Io → Option (Store C J) → String → Option (FederatedService A C)
  unfolding lookup from_row
  existing_service io none service_id = none
  existing_service io (some rows) service_id =
      from_row (if io.reads service_id then lookup rows service_id else none)

  unfoldable pub or_unchanged : Store C J → Option (Store C J) → Option (Store C J)
  or_unchanged rows none = some rows
  or_unchanged rows (some rows') = some rows'

  -- The save of a local change, whose error is only logged.
  unfoldable pub save_local : Io → Option (Store C J) → FederatedService A C → Option (Store C J)
  unfolding save_federated_service or_unchanged
  save_local io none fs = none
  save_local io (some rows) fs = or_unchanged rows (save_federated_service io rows fs)

  -- The message leaves the confidence at zero.
  unfoldable pub broadcast_service_update :
      CatalogSyncer C J → FederatedService A C → Option (Broadcast A C)
  broadcast_service_update cs fs =
      if cs.has_broadcast
      then some (
          update_message (record {
            service_id = fs.service_id;
            origin_peer_id = fs.origin_peer_id;
            app = fs.app;
            confidence = codec.zero_confidence;
            vector_clock = fs.vector_clock;
            tombstone = fs.tombstone;
          }))
      else none

  unfoldable pub broadcast_service_delete :
      CatalogSyncer C J → FederatedService A C → Option (Broadcast A C)
  broadcast_service_delete cs fs =
      if cs.has_broadcast
      then some (
          delete_message (record {
            service_id = fs.service_id;
            origin_peer_id = fs.origin_peer_id;
            vector_clock = fs.vector_clock;
          }))
      else none

  -- The version that a local change makes, with a copy of the clock.
  unfoldable pub local_version :
      Io → CatalogSyncer C J → String → Option A → Bool → FederatedService A C
  unfolding increment copy
  local_version io cs service_id app tombstone = record {
    service_id = service_id;
    origin_peer_id = cs.local_peer_id;
    app = app;
    confidence = codec.zero_confidence;
    last_seen = io.now;
    tombstone = tombstone;
    vector_clock = copy (increment cs.vector_clock cs.local_peer_id);
  }

  -- The syncer behind a local change: the clock is incremented and the version saved.
  unfoldable pub with_local : Io → CatalogSyncer C J → FederatedService A C → CatalogSyncer C J
  unfolding increment save_local
  with_local io cs fs = record cs {
    vector_clock = increment cs.vector_clock cs.local_peer_id;
    storage = save_local io cs.storage fs;
  }

  -- app.ID is the first argument.
  unfoldable pub on_local_service_added :
      Io → CatalogSyncer C J → String → A → CatalogSyncer C J × Option (Broadcast A C)
  unfolding local_version with_local broadcast_service_update
  on_local_service_added io cs id app =
      let fs = local_version io cs id (some app) false in
      (with_local io cs fs, broadcast_service_update cs fs)

  unfoldable pub on_local_service_updated :
      Io → CatalogSyncer C J → String → A → CatalogSyncer C J × Option (Broadcast A C)
  unfolding local_version with_local broadcast_service_update
  on_local_service_updated io cs id app =
      let fs = local_version io cs id (some app) false in
      (with_local io cs fs, broadcast_service_update cs fs)

  app_of : Option (FederatedService A C) → Option A
  app_of none = none
  app_of (some existing) = existing.app

  unfoldable pub on_local_service_deleted :
      Io → CatalogSyncer C J → String → CatalogSyncer C J × Option (Broadcast A C)
  unfolding local_version with_local broadcast_service_delete existing_service app_of
  on_local_service_deleted io cs service_id =
      let fs =
        local_version io cs service_id (app_of (existing_service io cs.storage service_id)) true in
      (with_local io cs fs, broadcast_service_delete cs fs)
