-- ===== src/Federation/Syncer/Remote.antt =====
-- internal/federation/syncer.go: what comes from the other peers.
use nekzus.Prelude.{Bool, true, false, Option, none, some, List, [], ◌∷◌, ◌==◌, if◌then◌else◌}
use nekzus.Federation.VectorClock.{VectorClock, merge}
use nekzus.Federation.Service.{FederatedService}
use nekzus.Federation.Resolver.{Winner, local, remote, resolve_conflict}
use nekzus.Federation.Syncer.{
  Codec, Io, Store, CatalogSyncer, ServiceEvent, federation_service_added,
  federation_service_removed, save_federated_service, existing_service,
}

-- What becomes of one remote service.
pub data Outcome (A C J : Type 0) : Type 0 where
  kept failed : Outcome A C J
  merged : CatalogSyncer C J → Option (ServiceEvent A C) → Outcome A C J

-- resolved == remoteService
abbrev pub remote_won : Option Winner → Bool
remote_won none = false
remote_won (some local) = false
remote_won (some remote) = true

module _ {A C J : Type 0} (codec : Codec A C J) where
  unfoldable pub event_of : CatalogSyncer C J → FederatedService A C → Option (ServiceEvent A C)
  event_of cs r =
      if cs.has_callback
      then some (if r.tombstone then federation_service_removed else federation_service_added, r)
      else none

  unfoldable pub with_clock :
      CatalogSyncer C J
      → FederatedService A C
      → Option (Store C J)
      → Option VectorClock
      → Option (Outcome A C J)
  unfolding event_of
  with_clock cs r storage none = none
  with_clock cs r storage (some clock) =
      some (merged (record cs { storage = storage; vector_clock = clock }) (event_of cs r))

  unfoldable pub saved_remote :
      CatalogSyncer C J → FederatedService A C → Option (Store C J) → Option (Outcome A C J)
  unfolding merge with_clock
  saved_remote cs r none = some failed
  saved_remote cs r (some rows) = with_clock cs r (some rows) (merge cs.vector_clock r.vector_clock)

  unfoldable pub accept_remote :
      Io → CatalogSyncer C J → FederatedService A C → Option (Store C J) → Option (Outcome A C J)
  unfolding save_federated_service merge with_clock saved_remote
  accept_remote io cs r none = with_clock cs r none (merge cs.vector_clock r.vector_clock)
  accept_remote io cs r (some rows) = saved_remote cs r (save_federated_service codec io rows r)

  -- The part that the two methods below share: resolve, save, merge the clock. `none` is the panic of
  -- a write to a nil clock.
  unfoldable pub merge_service :
      Io → CatalogSyncer C J → FederatedService A C → Option (Outcome A C J)
  unfolding existing_service resolve_conflict accept_remote
  merge_service io cs r =
      if remote_won (
        resolve_conflict (existing_service codec io cs.storage r.service_id) (some r)
          cs.local_peer_id)
      then accept_remote io cs r cs.storage
      else some kept

  unfoldable pub update_result :
      CatalogSyncer C J
      → Option (Outcome A C J)
      → Option (CatalogSyncer C J × Option (ServiceEvent A C) × Bool)
  update_result cs none = none
  update_result cs (some kept) = some (cs, none, true)
  update_result cs (some failed) = some (cs, none, false)
  update_result cs (some (merged cs' event)) = some (cs', event, true)

  -- The syncer, the event that was published and whether there is no error.
  unfoldable pub on_remote_service_update :
      Io
      → CatalogSyncer C J
      → FederatedService A C
      → Option (CatalogSyncer C J × Option (ServiceEvent A C) × Bool)
  unfolding merge_service update_result
  on_remote_service_update io cs r = update_result cs (merge_service io cs r)

  unfoldable pub with_event :
      Option (ServiceEvent A C) → List (ServiceEvent A C) → List (ServiceEvent A C)
  with_event none events = events
  with_event (some e) events = e ∷ events

  unfoldable pub add_event :
      Option (ServiceEvent A C)
      → Option (CatalogSyncer C J × List (ServiceEvent A C))
      → Option (CatalogSyncer C J × List (ServiceEvent A C))
  unfolding with_event
  add_event event none = none
  add_event event (some (cs, events)) = some (cs, with_event event events)

  unfoldable pub loop_result :
      CatalogSyncer C J
      → Option (Outcome A C J)
      → Option (CatalogSyncer C J × Option (ServiceEvent A C))
  loop_result cs none = none
  loop_result cs (some kept) = some (cs, none)
  loop_result cs (some failed) = some (cs, none)
  loop_result cs (some (merged cs' event)) = some (cs', event)

  -- One round of the loop: a service of our own origin and one whose save fails are skipped.
  unfoldable pub merge_next :
      Io
      → CatalogSyncer C J
      → FederatedService A C
      → Option (CatalogSyncer C J × Option (ServiceEvent A C))
  unfolding merge_service loop_result
  merge_next io cs r =
      if r.origin_peer_id == cs.local_peer_id
      then some (cs, none)
      else loop_result cs (merge_service io cs r)

  unfoldable pub merge_remote_services :
      Io
      → List (FederatedService A C)
      → CatalogSyncer C J
      → Option (CatalogSyncer C J × List (ServiceEvent A C))
  unfolding merge_next add_event
  merge_remote_services io [] cs = some (cs, [])
  merge_remote_services io (r ∷ rest) cs = elim (merge_next io cs r) [
    | none ↦ none
    | some (cs', event) ↦ add_event event (merge_remote_services io rest cs')
  ]
