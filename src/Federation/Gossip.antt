-- ===== src/Federation/Gossip.antt =====
-- internal/federation/federation.go, catalogDelegate: the messages of the cluster.
pub mod Messages
pub mod Delivery
use nekzus.Prelude.{
  ℕ, ◌+◌, ◌-◌, String, Bool, true, false, not, Option, none, some, List, [], ◌∷◌, ltb, ◌==◌,
  if◌then◌else◌,
}
use nekzus.Federation.VectorClock.{VectorClock}
use nekzus.Federation.Service.{FederatedService}
use nekzus.Federation.Syncer.{
  Codec, Io, Store, CatalogSyncer, ServiceEvent, AppUpdateMsg, AppDeleteMsg,
}
use nekzus.Federation.Syncer.Remote.{on_remote_service_update, merge_remote_services}
use nekzus.Federation.Syncer.Catalog.{get_all_services, get_local_vector_clock}

pub record AntiEntropyState (A C : Type 0) : Type 0 where
  pub sender_id : String
  pub timestamp : ℕ
  pub services : List (FederatedService A C)
  pub vector_clock : VectorClock

-- json.Unmarshal on a message, into each of the two types.
pub record Wire (A C W : Type 0) : Type 0 where
  pub unmarshal_update : W → Option (AppUpdateMsg A C)
  pub unmarshal_delete : W → Option AppDeleteMsg
  pub marshal_delete : AppDeleteMsg → W

unfoldable pub service_of_update : {A C : Type 0} → ℕ → AppUpdateMsg A C → FederatedService A C
service_of_update now msg = record {
  service_id = msg.service_id;
  origin_peer_id = msg.origin_peer_id;
  app = msg.app;
  confidence = msg.confidence;
  last_seen = now;
  tombstone = msg.tombstone;
  vector_clock = msg.vector_clock;
}

module _ {A C J : Type 0} (codec : Codec A C J) where
  unfoldable pub tombstone_of : ℕ → AppDeleteMsg → FederatedService A C
  tombstone_of now msg = record {
    service_id = msg.service_id;
    origin_peer_id = msg.origin_peer_id;
    app = none;
    confidence = codec.zero_confidence;
    last_seen = now;
    tombstone = true;
    vector_clock = msg.vector_clock;
  }

  unfoldable pub syncer_of :
      Option (CatalogSyncer C J × Option (ServiceEvent A C) × Bool) → Option (CatalogSyncer C J)
  syncer_of none = none
  syncer_of (some (cs, event, fine)) = some cs

  unfoldable pub delivered :
      Io
      → CatalogSyncer C J
      → Option (AppUpdateMsg A C)
      → Option AppDeleteMsg
      → Option (CatalogSyncer C J)
  unfolding service_of_update tombstone_of on_remote_service_update syncer_of
  delivered io cs (some msg) deleted =
      syncer_of (on_remote_service_update codec io cs (service_of_update io.now msg))
  delivered io cs none (some msg) =
      syncer_of (on_remote_service_update codec io cs (tombstone_of io.now msg))
  delivered io cs none none = some cs

  -- The syncer behind a message, where `none` is a panic; an error is only logged.
  unfoldable pub notify_msg :
      {W : Type 0} → Wire A C W → Io → CatalogSyncer C J → W → Option (CatalogSyncer C J)
  unfolding delivered
  notify_msg wire io cs msg =
      delivered io cs (wire.unmarshal_update msg) (wire.unmarshal_delete msg)

  -- `none` is the empty answer behind an error.
  unfoldable pub local_state : Io → CatalogSyncer C J → Option (AntiEntropyState A C)
  unfolding get_all_services get_local_vector_clock
  local_state io cs = elim (get_all_services codec io cs) [
    | none ↦ none
    | some services ↦ some (record {
      sender_id = cs.local_peer_id;
      timestamp = io.now;
      services = services;
      vector_clock = get_local_vector_clock cs;
    })
  ]

  -- svc.LastSeen = time.Now()
  unfoldable pub seen_now : ℕ → List (FederatedService A C) → List (FederatedService A C)
  seen_now now [] = []
  seen_now now (svc ∷ services) = record svc { last_seen = now } ∷ seen_now now services

  -- The state that was parsed; our own is skipped.
  unfoldable pub merge_remote_state :
      Io
      → CatalogSyncer C J
      → AntiEntropyState A C
      → Option (CatalogSyncer C J × List (ServiceEvent A C))
  unfolding seen_now merge_remote_services
  merge_remote_state io cs state =
      if state.sender_id == cs.local_peer_id
      then some (cs, [])
      else merge_remote_services codec io (seen_now io.now state.services) cs

-- One round of the loop below, for a message that fits or not and leaves room behind it or not.
unfoldable pub taken : {W : Type 0} → Bool → Bool → W → List W → List W × List W → List W × List W
taken false room msg queue next = next
taken true true msg queue (rest, left) = (msg ∷ rest, left)
taken true false msg queue next = (msg ∷ [], queue)

-- The messages that are returned and the queue that is left. Whenever the loop subtracts, the message
-- fits in the limit.
unfoldable pub get_broadcasts : {W : Type 0} → (W → ℕ) → ℕ → List W → ℕ → List W × List W
unfolding taken
get_broadcasts len overhead [] limit = ([], [])
get_broadcasts len overhead (msg ∷ queue) limit =
    let size = len msg + overhead in
    let fits = not (ltb limit size) in
    taken fits (ltb size limit) msg queue
      (get_broadcasts len overhead queue (if fits then limit - size else limit))
