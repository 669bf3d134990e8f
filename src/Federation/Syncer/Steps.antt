-- ===== src/Federation/Syncer/Steps.antt =====
-- Each method of a catalog syncer keeps its clock above the clocks it stores, and moves it forwards.
use nekzus.Prelude.{
  ℕ, ◌+◌, ◌≤◌, ◌<◌, ◌≡◌, inl, inr, refl, ap, ◌∙◌, String, Bool, true, false, Option, none, some,
  List, [], ◌∷◌, ◌==◌, arith, Option-cases, Bool-cases,
}
use nekzus.Prelude.Dict.{Dict}
use nekzus.Federation.VectorClock.{VectorClock, uint64_mod, count_of, increment, merge}
use nekzus.Federation.VectorClock.Merge.{count_of-copy}
use nekzus.Federation.Service.{FederatedService}
use nekzus.Federation.Resolver.{resolve_conflict}
use nekzus.Federation.Syncer.{
  Codec, Io, Store, CatalogSyncer, ServiceEvent, save_federated_service, save_local, or_unchanged,
  existing_service, local_version, with_local,
}
use nekzus.Federation.Syncer.Remote.{
  Outcome, kept, failed, merged, event_of, merge_service, merge_next, merge_remote_services,
  on_remote_service_update, with_clock, accept_remote, saved_remote, remote_won, update_result,
  with_event, add_event,
}
use nekzus.Federation.Syncer.Causal.{
  RoundTrips, Below, Dominates, Advances, merge_all, grown, increment-advances, Below-grow,
  Below-save,
}

module _ {A C J : Type 0} (codec : Codec A C J) where
  -- One step that keeps the invariant and advances the clock.
  abbrev pub Keeps : CatalogSyncer C J → CatalogSyncer C J → Type 0
  Keeps cs cs' = Dominates codec cs' × Advances cs cs' × (cs'.local_peer_id ≡ cs.local_peer_id)

  abbrev KeepsOutcome : CatalogSyncer C J → Outcome A C J → Type 0
  KeepsOutcome cs kept = Unit
  KeepsOutcome cs failed = Unit
  KeepsOutcome cs (merged cs' event) = Keeps cs cs'

  with_clock-Keeps :
      (cs : CatalogSyncer C J) (r : FederatedService A C) (s : Option (Store C J)) (m : Dict ℕ)
      → cs.vector_clock ≡ some m
      → ((vc : VectorClock)
          → ((p : String) → count_of cs.vector_clock p ≤ count_of vc p)
          → ((p : String) → count_of r.vector_clock p ≤ count_of vc p)
          → Below codec s vc)
      → (o : Outcome A C J) × (with_clock codec cs r s (merge cs.vector_clock r.vector_clock)
          ≡ some o)
        × KeepsOutcome cs o
  unfolding with_clock
  with_clock-Keeps cs r s m e b =
      let (m', q, h) = merge_all m r.vector_clock in
      let mine = grown cs.vector_clock m m' r.vector_clock e h in
      (
        merged (record cs { storage = s; vector_clock = some m' }) (event_of codec cs r),
        rw (e, q) refl,
        (((m', refl), b (some m') mine (λ p. omega (arith, h p))), mine, refl),
      )

  accept_remote-Keeps :
      RoundTrips codec
      → (io : Io) (cs : CatalogSyncer C J) (r : FederatedService A C) (s : Option (Store C J))
      → Dominates codec cs
      → Below codec s cs.vector_clock
      → (o : Outcome A C J) × (accept_remote codec io cs r s ≡ some o) × KeepsOutcome cs o
  unfolding accept_remote
  accept_remote-Keeps round io cs r none ((m, e), b) b' =
      with_clock-Keeps cs r none m e (λ vc f g. tt)
  accept_remote-Keeps round io cs r (some rows) ((m, e), b) b' =
      elim (Option-cases (save_federated_service codec io rows r)) [
        | inl f ↦ (failed, unfold saved_remote in rw f refl, tt)
        | inr (rows', f) ↦
            let (o, q, k) = with_clock-Keeps cs r (some rows') m e (λ vc le le'.
              Below-save codec round io rows rows' vc r
                (Below-grow codec (some rows) cs.vector_clock vc b' le) le' f) in
            (o, unfold saved_remote in rw f q, k)
      ]

  merge_service-Keeps :
      RoundTrips codec
      → (io : Io) (cs : CatalogSyncer C J) (r : FederatedService A C) → Dominates codec cs
      → (o : Outcome A C J) × (merge_service codec io cs r ≡ some o) × KeepsOutcome cs o
  unfolding merge_service
  merge_service-Keeps round io cs r d =
      elim (Bool-cases (
        remote_won (
          resolve_conflict (existing_service codec io cs.storage r.service_id) (some r)
            cs.local_peer_id))) [
              | inl w ↦
                  let (o, q, k) = accept_remote-Keeps round io cs r cs.storage d (d.1) in
                  (o, rw w q, k)
              | inr w ↦ (kept, rw w refl, tt)
            ]

  pub Keeps-refl : (cs : CatalogSyncer C J) → Dominates codec cs → Keeps cs cs
  Keeps-refl cs d = (d, λ p. omega arith, refl)

  pub Keeps-trans : (a b c : CatalogSyncer C J) → Keeps a b → Keeps b c → Keeps a c
  Keeps-trans a b c (d, f, e) (d', f', e') = (d', λ p. omega (arith, f p, f' p), e' ∙ e)

  pub on_remote-Keeps :
      RoundTrips codec
      → (io : Io) (cs : CatalogSyncer C J) (r : FederatedService A C) → Dominates codec cs
      → (cs' : CatalogSyncer C J) × (event : Option (ServiceEvent A C)) × (fine : Bool)
        × (on_remote_service_update codec io cs r ≡ some (cs', event, fine))
        × Keeps cs cs'
  unfolding on_remote_service_update
  on_remote-Keeps round io cs r d = go (merge_service-Keeps round io cs r d)
    where
      go :
          ((o : Outcome A C J) × (merge_service codec io cs r ≡ some o) × KeepsOutcome cs o)
          → (cs' : CatalogSyncer C J) × (event : Option (ServiceEvent A C)) × (fine : Bool)
            × (on_remote_service_update codec io cs r ≡ some (cs', event, fine))
            × Keeps cs cs'
      go (kept, q, k) = (cs, none, true, ap (update_result codec cs) q, Keeps-refl cs d)
      go (failed, q, k) = (cs, none, false, ap (update_result codec cs) q, Keeps-refl cs d)
      go (merged cs' event, q, k) = (cs', event, true, ap (update_result codec cs) q, k)

  merge_next-Keeps :
      RoundTrips codec
      → (io : Io) (cs : CatalogSyncer C J) (r : FederatedService A C) → Dominates codec cs
      → (cs' : CatalogSyncer C J) × (event : Option (ServiceEvent A C)) × (merge_next codec io cs r
          ≡ some (cs', event))
        × Keeps cs cs'
  unfolding merge_next
  merge_next-Keeps round io cs r d = elim (Bool-cases (r.origin_peer_id == cs.local_peer_id)) [
    | inl own ↦ (cs, none, rw own refl, Keeps-refl cs d)
    | inr other ↦ go other (merge_service-Keeps round io cs r d)
  ]
    where
      go :
          (r.origin_peer_id == cs.local_peer_id) ≡ false
          → ((o : Outcome A C J) × (merge_service codec io cs r ≡ some o) × KeepsOutcome cs o)
          → (cs' : CatalogSyncer C J) × (event : Option (ServiceEvent A C)) × (merge_next codec io
                cs r
              ≡ some (cs', event))
            × Keeps cs cs'
      go other (kept, q, k) = (cs, none, rw (other, q) refl, Keeps-refl cs d)
      go other (failed, q, k) = (cs, none, rw (other, q) refl, Keeps-refl cs d)
      go other (merged cs' event, q, k) = (cs', event, rw (other, q) refl, k)

  pub merge_remote-Keeps :
      RoundTrips codec
      → (io : Io) (rs : List (FederatedService A C)) (cs : CatalogSyncer C J) → Dominates codec cs
      → (cs' : CatalogSyncer C J) × (events : List (ServiceEvent A C)) × (merge_remote_services
            codec io rs cs
          ≡ some (cs', events))
        × Keeps cs cs'
  unfolding merge_remote_services
  merge_remote-Keeps round io [] cs d = (cs, [], refl, Keeps-refl cs d)
  merge_remote-Keeps round io (r ∷ rs) cs d =
      let (cs1, event, q, k) = merge_next-Keeps round io cs r d in
      let (cs2, events, q', k') = merge_remote-Keeps round io rs cs1 (k.0) in
      (
        cs2,
        with_event codec event events,
        ap
              (λ o. elim o [
                | none ↦ none
                | some (cs', event) ↦ add_event codec event (merge_remote_services codec io rs cs')
              ])
              q
            ∙ ap (add_event codec event) q',
        Keeps-trans cs cs1 cs2 k k',
      )

  or_unchanged-Below :
      RoundTrips codec
      → (io : Io) (s : Option (Store C J)) (vc : VectorClock) (fs : FederatedService A C)
      → Below codec s vc
      → ((p : String) → count_of fs.vector_clock p ≤ count_of vc p)
      → Below codec (save_local codec io s fs) vc
  unfolding save_local
  or_unchanged-Below round io none vc fs b le = tt
  or_unchanged-Below round io (some rows) vc fs b le =
      go (save_federated_service codec io rows fs) refl
    where
      go :
          (o : Option (Store C J))
          → save_federated_service codec io rows fs ≡ o
          → Below codec (or_unchanged codec rows o) vc
      go none q = b
      go (some rows') q = Below-save codec round io rows rows' vc fs b le q

  -- A local change whose version carries the incremented clock.
  pub with_local-Keeps :
      RoundTrips codec
      → (io : Io) (cs : CatalogSyncer C J) (id : String) (app : Option A) (tombstone : Bool)
      → Dominates codec cs
      → count_of cs.vector_clock cs.local_peer_id + 1 < uint64_mod
      → Keeps cs (with_local codec io cs (local_version codec io cs id app tombstone))
  unfolding with_local local_version
  with_local-Keeps round io cs id app tombstone (some_map, b) w =
      let (some_map', (le, _)) = increment-advances cs.vector_clock cs.local_peer_id some_map w in
      (
        (
          some_map',
          or_unchanged-Below round io cs.storage (increment cs.vector_clock cs.local_peer_id)
              (local_version codec io cs id app tombstone)
              (Below-grow codec cs.storage cs.vector_clock
                (increment cs.vector_clock cs.local_peer_id) b le)
              (λ p. omega (arith, count_of-copy (increment cs.vector_clock cs.local_peer_id) p)),
        ),
        le,
        refl,
      )
