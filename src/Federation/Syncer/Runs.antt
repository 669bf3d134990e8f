-- ===== src/Federation/Syncer/Runs.antt =====
-- What the catalogs of the peers promise over any sequence of local changes and remote updates.
use mathlib.Core.Path.{subst}
use nekzus.Prelude.{
  ◌+◌, ◌<◌, ◌≡◌, refl, sym, ap, ◌∙◌, String, Bool, true, false, Option, none, some, List, [], arith,
}
use nekzus.Prelude.Dict.{lookup}
use nekzus.Federation.VectorClock.{new_vector_clock, uint64_mod, count_of}
use nekzus.Federation.Service.{FederatedService}
use nekzus.Federation.Syncer.{
  Codec, Io, CatalogSyncer, ServiceEvent, new_catalog_syncer, existing_service,
  on_local_service_added, on_local_service_updated, on_local_service_deleted, app_of,
}
use nekzus.Federation.Syncer.Remote.{on_remote_service_update, merge_remote_services}
use nekzus.Federation.Syncer.Causal.{RoundTrips, Dominates, Advances}
use nekzus.Federation.Syncer.Steps.{
  Keeps, Keeps-refl, Keeps-trans, on_remote-Keeps, merge_remote-Keeps, with_local-Keeps,
}

-- The calls that change a syncer.
pub data Op (A C : Type 0) : Type 0 where
  op_added op_updated : Io → String → A → Op A C
  op_deleted : Io → String → Op A C
  op_remote : Io → FederatedService A C → Op A C
  op_merge : Io → List (FederatedService A C) → Op A C

updated :
    {A C J : Type 0}
    → Option (CatalogSyncer C J × Option (ServiceEvent A C) × Bool)
    → Option (CatalogSyncer C J)
updated none = none
updated (some (cs, _, _)) = some cs

merged_in :
    {A C J : Type 0}
    → Option (CatalogSyncer C J × List (ServiceEvent A C))
    → Option (CatalogSyncer C J)
merged_in none = none
merged_in (some (cs, _)) = some cs

module _ {A C J : Type 0} (codec : Codec A C J) where
  -- The syncer behind a call; `none` is a panic.
  unfoldable pub apply : CatalogSyncer C J → Op A C → Option (CatalogSyncer C J)
  unfolding updated merged_in on_local_service_added on_local_service_updated
      on_local_service_deleted on_remote_service_update merge_remote_services
  apply cs (op_added io id app) = some ((on_local_service_added codec io cs id app).0)
  apply cs (op_updated io id app) = some ((on_local_service_updated codec io cs id app).0)
  apply cs (op_deleted io id) = some ((on_local_service_deleted codec io cs id).0)
  apply cs (op_remote io r) = updated (on_remote_service_update codec io cs r)
  apply cs (op_merge io rs) = merged_in (merge_remote_services codec io rs cs)

  -- The local counter does not wrap at a local change.
  abbrev pub Fits : CatalogSyncer C J → Op A C → Type 0
  Fits cs (op_added io id app) = count_of cs.vector_clock cs.local_peer_id + 1 < uint64_mod
  Fits cs (op_updated io id app) = count_of cs.vector_clock cs.local_peer_id + 1 < uint64_mod
  Fits cs (op_deleted io id) = count_of cs.vector_clock cs.local_peer_id + 1 < uint64_mod
  Fits cs (op_remote io r) = Unit
  Fits cs (op_merge io rs) = Unit

  -- The syncers that a run from `cs` reaches without a panic or a wrap of the local counter.
  pub data Reaches (cs : CatalogSyncer C J) : CatalogSyncer C J → Type 0 where
    start : Reaches cs cs
    step :
        {cs1 cs2 : CatalogSyncer C J} (op : Op A C)
        → Reaches cs cs1
        → Fits cs1 op
        → apply cs1 op ≡ some cs2
        → Reaches cs cs2

  pub apply-Keeps :
      RoundTrips codec
      → (cs : CatalogSyncer C J) (op : Op A C) → Dominates codec cs
      → Fits cs op
      → (cs' : CatalogSyncer C J) × (apply cs op ≡ some cs') × Keeps codec cs cs'
  unfolding apply
  apply-Keeps round cs (op_added io id app) d w =
      (_, refl, with_local-Keeps codec round io cs id (some app) false d w)
  apply-Keeps round cs (op_updated io id app) d w =
      (_, refl, with_local-Keeps codec round io cs id (some app) false d w)
  apply-Keeps round cs (op_deleted io id) d w = (
    _,
    refl,
    with_local-Keeps codec round io cs id (app_of codec (existing_service codec io cs.storage id))
        true d w,
  )
  apply-Keeps round cs (op_remote io r) d w =
      let (cs', event, fine, q, k) = on_remote-Keeps codec round io cs r d in (cs', ap updated q, k)
  apply-Keeps round cs (op_merge io rs) d w =
      let (cs', events, q, k) = merge_remote-Keeps codec round io rs cs d in
      (cs', ap merged_in q, k)

  Reaches-Keeps :
      RoundTrips codec
      → (cs : CatalogSyncer C J) {cs' : CatalogSyncer C J} → Dominates codec cs
      → Reaches cs cs'
      → Keeps codec cs cs'
  Reaches-Keeps round cs d start = Keeps-refl codec cs d
  Reaches-Keeps round cs {cs'} d (step {cs1 = cs1} op h w q) =
      let k = Reaches-Keeps round cs d h in
      let (cs2, q', k') = apply-Keeps round cs1 op k.0 w in
      subst (λ c. Keeps codec cs c) (ap (λ o. elim o [ none ↦ cs1 | some c ↦ c ]) (sym q' ∙ q))
        (Keeps-trans codec cs cs1 cs2 k k')

  new-Dominates : (me : String) → Dominates codec (new_catalog_syncer me (some []))
  unfolding new_catalog_syncer new_vector_clock lookup
  new-Dominates me = (([], refl), λ id row clock p f g. absurd (ground (arith, f)))

-- A syncer that starts with an empty table never writes to a nil clock and never forgets what it has
-- seen: behind any sequence of local changes, remote updates and merges in which its own counter does
-- not wrap, whatever the database refuses, the next call does not panic, no counter of its clock goes
-- back, and its clock is at least the clock of every version in the table.
pub Reaches-Dominates :
    {A C J : Type 0} (codec : Codec A C J) (me : String) {cs : CatalogSyncer C J} (op : Op A C)
    → RoundTrips codec
    → Reaches codec (new_catalog_syncer me (some [])) cs
    → Fits codec cs op
    → (cs' : CatalogSyncer C J) × (apply codec cs op ≡ some cs')
      × Dominates codec cs'
      × Advances cs cs'
Reaches-Dominates codec me {cs} op round h w =
    let k = Reaches-Keeps codec round _ (new-Dominates codec me) h in
    let (cs', q, k') = apply-Keeps codec round cs op k.0 w in (cs', q, k'.0, k'.1)
