-- ===== src/Federation/Syncer/Updates.antt =====
-- What one update does to the version that is stored, here and at another peer.
use nekzus.Prelude.{
  ◌+◌, ◌<◌, ◌≤◌, ◌≡◌, ◌≢◌, inl, inr, refl, sym, ◌==◌, eq_iff, Bool-cases, ap, ◌∙◌, String, Bool,
  true, Option, none, some, if◌then◌else◌, arith, eq_refl,
}
use nekzus.Prelude.Dict.{lookup, put, lookup-put}
use nekzus.Federation.VectorClock.{VectorClock, uint64_mod, count_of, increment}
use nekzus.Federation.VectorClock.Merge.{count_of-copy}
use nekzus.Federation.VectorClock.Compare.{HappenedBefore}
use nekzus.Federation.Service.{FederatedService}
use nekzus.Federation.Resolver.{local, remote, resolve_conflict}
use nekzus.Federation.Resolver.Laws.{ClockDecides, newer_wins, older_loses, owner_wins}
use nekzus.Federation.Syncer.{
  Codec, Io, Store, CatalogSyncer, FederatedServiceData, ServiceEvent, row_of, existing_service,
  local_version, from_row, converted, federated_service_from_storage, save_federated_service,
}
use nekzus.Federation.Syncer.Remote.{
  on_remote_service_update, merge_service, accept_remote, saved_remote, with_clock, event_of,
}
use nekzus.Federation.Syncer.Causal.{Below, Dominates, increment-advances, merge_all}

module _ {A C J : Type 0} (codec : Codec A C J) where
  converted-clock :
      (row : FederatedServiceData C J) (app : Option A) (clock : Option VectorClock)
      (e : FederatedService A C)
      → converted codec row app clock ≡ some e
      → clock ≡ some e.vector_clock
  unfolding converted
  converted-clock row none clock e q = absurd (ground (arith, q))
  converted-clock row (some app) none e q = absurd (ground (arith, q))
  converted-clock row (some app) (some clock) e q =
      ap (λ o. elim o [ none ↦ some clock | some v ↦ some v.vector_clock ]) q

  from_row-clock :
      (o : Option (FederatedServiceData C J)) (e : FederatedService A C)
      → from_row codec o ≡ some e
      → (row : FederatedServiceData C J) × (o ≡ some row)
        × (codec.unmarshal_clock row.vector_clock ≡ some e.vector_clock)
  unfolding from_row federated_service_from_storage
  from_row-clock none e q = absurd (ground (arith, q))
  from_row-clock (some row) e q = (
    row,
    refl,
    converted-clock row (codec.unmarshal_app row.app_data) (codec.unmarshal_clock row.vector_clock)
        e q,
  )

  -- What is read from the table has a clock at most the syncer's.
  pub existing-Below :
      (io : Io) (s : Option (Store C J)) (vc : VectorClock) (id : String) (e : FederatedService A C)
      → Below codec s vc
      → existing_service codec io s id ≡ some e
      → (p : String) → count_of e.vector_clock p ≤ count_of vc p
  unfolding existing_service
  existing-Below io none vc id e b q p = absurd (ground (arith, q))
  existing-Below io (some rows) vc id e b q p =
      let (row, f, g) = from_row-clock (if io.reads id then lookup rows id else none) e q in
      b id row e.vector_clock p (ground (arith, f)) g

  -- The version that a local change makes has an own copy of the clock behind the increment.
  pub local-HappenedBefore :
      (io : Io) (cs : CatalogSyncer C J) (id : String) (app : Option A) (tombstone : Bool)
      (e : FederatedService A C)
      → Dominates codec cs
      → count_of cs.vector_clock cs.local_peer_id + 1 < uint64_mod
      → ((p : String) → count_of e.vector_clock p ≤ count_of cs.vector_clock p)
      → HappenedBefore e.vector_clock (local_version codec io cs id app tombstone).vector_clock
  unfolding local_version
  local-HappenedBefore io cs id app tombstone e (m, b) w below =
      let (_, (le, lt)) = increment-advances cs.vector_clock cs.local_peer_id m w in
      let new = increment cs.vector_clock cs.local_peer_id in
      (
        λ p. omega (arith, below p, le p, count_of-copy new p),
        (lt.0, omega (arith, below lt.0, lt.1, count_of-copy new lt.0)),
      )

  refused :
      (io : Io) (cs : CatalogSyncer C J) (old new : FederatedService A C)
      → existing_service codec io cs.storage new.service_id ≡ some old
      → resolve_conflict (some old) (some new) cs.local_peer_id ≡ some local
      → on_remote_service_update codec io cs new ≡ some (cs, none, true)
  unfolding on_remote_service_update merge_service
  refused io cs old new q l = rw (q, l) refl

  accepted :
      (io : Io) (cs : CatalogSyncer C J) (rows : Store C J) (new : FederatedService A C)
      (old : Option (FederatedService A C))
      → cs.storage ≡ some rows
      → existing_service codec io cs.storage new.service_id ≡ old
      → resolve_conflict old (some new) cs.local_peer_id ≡ some remote
      → Dominates codec cs
      → io.writes new.service_id ≡ true
      → (cs' : CatalogSyncer C J) × (rows' : Store C J) × (event : Option (ServiceEvent A C))
        × (on_remote_service_update codec io cs new ≡ some (cs', event, true))
        × (cs'.storage ≡ some rows')
        × (lookup rows' new.service_id
            ≡ some (row_of codec io.now (lookup rows new.service_id) new))
        × ((p : String) → count_of new.vector_clock p ≤ count_of cs'.vector_clock p)
  unfolding on_remote_service_update merge_service accept_remote saved_remote with_clock
      save_federated_service
  accepted io cs rows new old s q l ((m, e), b) w =
      let (m', f, h) = merge_all m new.vector_clock in
      let rows' = put rows new.service_id (row_of codec io.now (lookup rows new.service_id) new) in
      (
        record cs { storage = some rows'; vector_clock = some m' },
        rows',
        event_of codec cs new,
        rw (q, l, s, w, e, f) refl,
        refl,
        lookup-put rows new.service_id (row_of codec io.now (lookup rows new.service_id) new)
              new.service_id
            ∙ rw (eq_refl new.service_id) refl,
        λ p. omega (arith, h p),
      )

  -- A remote version that happened before the stored one changes and publishes nothing, where the
  -- clocks decide.
  pub on_remote-stale :
      (io : Io) (cs : CatalogSyncer C J) (old new : FederatedService A C)
      → existing_service codec io cs.storage new.service_id ≡ some old
      → ClockDecides old new cs.local_peer_id
      → HappenedBefore new.vector_clock old.vector_clock
      → on_remote_service_update codec io cs new ≡ some (cs, none, true)
  on_remote-stale io cs old new q c h =
      refused io cs old new q (older_loses old new cs.local_peer_id c h)

-- A version that the owner of a service sends, another peer, replaces the stored one whatever the
-- two clocks say, also when the new version happened before the stored one, if the database takes
-- the write. The own clock, which dominates the stored ones, takes the counters of the new version
-- in.
pub on_remote-owner :
    {A C J : Type 0} (codec : Codec A C J) (io : Io) (cs : CatalogSyncer C J) (rows : Store C J)
    (old new : FederatedService A C)
    → cs.storage ≡ some rows
    → existing_service codec io cs.storage new.service_id ≡ some old
    → old.origin_peer_id ≡ new.origin_peer_id
    → old.origin_peer_id ≢ cs.local_peer_id
    → Dominates codec cs
    → io.writes new.service_id ≡ true
    → (cs' : CatalogSyncer C J) × (rows' : Store C J) × (event : Option (ServiceEvent A C))
      × (on_remote_service_update codec io cs new ≡ some (cs', event, true))
      × (cs'.storage ≡ some rows')
      × (lookup rows' new.service_id ≡ some (row_of codec io.now (lookup rows new.service_id) new))
      × ((p : String) → count_of new.vector_clock p ≤ count_of cs'.vector_clock p)
on_remote-owner codec io cs rows old new s q o n d w =
    accepted codec io cs rows new (some old) s q (owner_wins old new cs.local_peer_id o n) d w

-- A version of another peer that the stored one happened before replaces it, whether or not the two have
-- one origin.
pub newer-accepted :
    {A C J : Type 0} (codec : Codec A C J) (io : Io) (cs : CatalogSyncer C J) (rows : Store C J)
    (held new : FederatedService A C)
    → cs.storage ≡ some rows
    → existing_service codec io cs.storage new.service_id ≡ some held
    → new.origin_peer_id ≢ cs.local_peer_id
    → HappenedBefore held.vector_clock new.vector_clock
    → Dominates codec cs
    → io.writes new.service_id ≡ true
    → (cs' : CatalogSyncer C J) × (rows' : Store C J) × (event : Option (ServiceEvent A C))
      × (on_remote_service_update codec io cs new ≡ some (cs', event, true))
      × (cs'.storage ≡ some rows')
      × (lookup rows' new.service_id ≡ some (row_of codec io.now (lookup rows new.service_id) new))
      × ((p : String) → count_of new.vector_clock p ≤ count_of cs'.vector_clock p)
newer-accepted codec io cs rows held new s q o h d w =
    let won : resolve_conflict (some held) (some new) cs.local_peer_id ≡ some remote =
      elim (Bool-cases (held.origin_peer_id == new.origin_peer_id)) [
        | inl e ↦
            let same = (eq_iff held.origin_peer_id new.origin_peer_id).0 e in
            owner_wins held new cs.local_peer_id same (λ k. o (sym same ∙ k))
        | inr e ↦
            newer_wins held new cs.local_peer_id
              (inl
                (λ k. absurd (ground (arith, e, k, eq_iff held.origin_peer_id new.origin_peer_id))))
              h
      ] in
    accepted codec io cs rows new (some held) s q won d w
