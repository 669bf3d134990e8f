-- ===== src/Federation/Syncer/Catalog.antt =====
-- internal/federation/syncer.go: the listings of the catalog.
use nekzus.Prelude.{Option, none, some, List, [], ◌∷◌, if◌then◌else◌}
use nekzus.Prelude.Dict.{entries}
use nekzus.Federation.VectorClock.{VectorClock, copy}
use nekzus.Federation.Service.{FederatedService}
use nekzus.Federation.Syncer.{Codec, Io, Store, CatalogSyncer, federated_service_from_storage}

module _ {A C J : Type 0} (codec : Codec A C J) where
  -- WHERE tombstone = 0, on the rows of the table
  unfoldable pub active : Store C J → Store C J
  active [] = []
  active ((id, row) ∷ rows) =
      let rest = active rows in if row.tombstone then rest else (id, row) ∷ rest

  or_skipped :
      Option (FederatedService A C) → List (FederatedService A C) → List (FederatedService A C)
  or_skipped none services = services
  or_skipped (some service) services = service ∷ services

  -- The loop over the rows: one that cannot be converted is skipped.
  unfoldable pub convert_all : Store C J → List (FederatedService A C)
  unfolding federated_service_from_storage or_skipped
  convert_all [] = []
  convert_all ((_, row) ∷ rows) =
      or_skipped (federated_service_from_storage codec row) (convert_all rows)

  -- `none` is the error of the query.
  unfoldable pub get_all_services : Io → CatalogSyncer C J → Option (List (FederatedService A C))
  unfolding entries convert_all
  get_all_services io cs = elim cs.storage [
    | none ↦ some []
    | some rows ↦ if io.lists then some (convert_all (entries rows)) else none
  ]

  unfoldable pub get_federated_catalog :
      Io → CatalogSyncer C J → Option (List (FederatedService A C))
  unfolding entries convert_all active
  get_federated_catalog io cs = elim cs.storage [
    | none ↦ some []
    | some rows ↦ if io.lists then some (convert_all (active (entries rows))) else none
  ]

unfoldable pub get_local_vector_clock : {C J : Type 0} → CatalogSyncer C J → VectorClock
unfolding copy
get_local_vector_clock cs = copy cs.vector_clock
