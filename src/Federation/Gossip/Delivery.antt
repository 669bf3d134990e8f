-- ===== src/Federation/Gossip/Delivery.antt =====
-- A local change on its way to another peer: from OnLocalServiceUpdated to NotifyMsg.
use nekzus.Prelude.{◌+◌, ◌<◌, ◌≤◌, ◌≡◌, ◌≢◌, refl, String, true, false, some, arith}
use nekzus.Prelude.Dict.{lookup}
use nekzus.Federation.VectorClock.{uint64_mod, count_of}
use nekzus.Federation.Service.{FederatedService}
use nekzus.Federation.Syncer.{
  Codec, Io, Store, CatalogSyncer, FederatedServiceData, AppUpdateMsg, update_message, row_of,
  existing_service, local_version, on_local_service_updated, broadcast_service_update,
}
use nekzus.Federation.Syncer.Causal.{Dominates}
use nekzus.Federation.Syncer.Updates.{newer-accepted, existing-Below, local-HappenedBefore}
use nekzus.Federation.Gossip.{Wire, notify_msg, delivered, service_of_update}

-- The message that a version gives.
abbrev pub update_of : {A C J : Type 0} → Codec A C J → FederatedService A C → AppUpdateMsg A C
update_of codec v = record {
  service_id = v.service_id;
  origin_peer_id = v.origin_peer_id;
  app = v.app;
  confidence = codec.zero_confidence;
  vector_clock = v.vector_clock;
  tombstone = v.tombstone;
}

module _ {A C J W : Type 0} (codec : Codec A C J) (wire : Wire A C W) where
  -- Where a service of which a version is stored is changed at one peer, the broadcast message, parsed
  -- at another peer as what it was, replaces the version that this peer holds, of whatever origin, and
  -- the row has the new data, the changing peer as its origin and no mark of a deletion. The held
  -- version's clock is at most that of the version the changing peer had, the changing peer's counter
  -- does not wrap, each of the two clocks dominates the stored ones beside it, and the receiving peer's
  -- database takes the write.
  pub local_update-delivered :
      (io io' : Io) (cs peer : CatalogSyncer C J) (rows : Store C J) (id : String) (app : A)
      (old held : FederatedService A C) (sent : W)
      → Dominates codec cs
      → count_of cs.vector_clock cs.local_peer_id + 1 < uint64_mod
      → existing_service codec io cs.storage id ≡ some old
      → cs.has_broadcast ≡ true
      → wire.unmarshal_update sent
        ≡ some (update_of codec (local_version codec io cs id (some app) false))
      → Dominates codec peer
      → peer.storage ≡ some rows
      → existing_service codec io' peer.storage id ≡ some held
      → ((p : String) → count_of held.vector_clock p ≤ count_of old.vector_clock p)
      → cs.local_peer_id ≢ peer.local_peer_id
      → io'.writes id ≡ true
      → ((on_local_service_updated codec io cs id app).1
          ≡ some (update_message (update_of codec (local_version codec io cs id (some app) false))))
        × (peer' : CatalogSyncer C J) × (rows' : Store C J) × (row : FederatedServiceData C J)
        × (notify_msg codec wire io' peer sent ≡ some peer')
        × (peer'.storage ≡ some rows')
        × (lookup rows' id ≡ some row)
        × (row.app_data ≡ codec.marshal_app (some app))
        × (row.origin_peer_id ≡ cs.local_peer_id)
        × (row.tombstone ≡ false)
  unfolding notify_msg delivered service_of_update row_of local_version on_local_service_updated
      broadcast_service_update
  local_update-delivered io io' cs peer rows id app old held sent d w q b p d' s q' le n a =
      let version = local_version codec io cs id (some app) false in
      let new = service_of_update io'.now (update_of codec version) in
      let below = existing-Below codec io cs.storage cs.vector_clock id old d.1 q in
      let h =
        local-HappenedBefore codec io cs id (some app) false held d w
          (λ k. omega (arith, le k, below k)) in
      let (peer', rows', event, u, v, x, _) =
        newer-accepted codec io' peer rows held new s q' n h d' a in
      (
        rw b refl,
        peer',
        rows',
        row_of codec io'.now (lookup rows id) new,
        rw (p, u) refl,
        v,
        x,
        refl,
        refl,
        refl,
      )
