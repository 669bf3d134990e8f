-- ===== src/Router/Registry/Subdomains.antt =====
-- internal/router/registry.go: who owns a subdomain behind `UpsertRoute`.
use nekzus.Prelude.{
  ◌≡◌, ◌≢◌, ap, String, Bool, true, false, Option, none, some, List, arith, eq_iff, ok, err,
  Option-cases, inl, inr,
}
use nekzus.Prelude.Dict.{Dict, lookup, put, lookup-put, lookup-delete}
use nekzus.Router.Route.{Route}
use nekzus.Router.Registry.{
  Registry, normalize, upsert_route, index_and_save, claim_and_save, rollback_claim,
  claim_subdomain, clean_subdomain, wants_subdomain, release, taken_by, Event, subdomain_used,
}
use nekzus.Router.Registry.Removal.{get_route_by_subdomain}

release_other :
    (index : Dict String) (sub id s : String)
    → s ≢ sub
    → lookup (release index sub id) s ≡ lookup index s
unfolding release
release_other index sub id s h = elim (Option-cases (lookup index sub)) [
  | inl e ↦ ground (arith, lookup-delete index sub s, eq_iff sub s)
  | inr (o, e) ↦ ground (arith, lookup-delete index sub s, eq_iff sub s)
]

claimed :
    (index : Dict String) (old : Option Route) (rt : Route)
    → wants_subdomain rt ≡ true
    → lookup (clean_subdomain (claim_subdomain index rt) old rt) rt.subdomain ≡ some rt.route_id
unfolding clean_subdomain claim_subdomain wants_subdomain
claimed index none rt w = ground (
  arith,
  lookup-put index rt.subdomain rt.route_id rt.subdomain,
  eq_iff rt.subdomain rt.subdomain,
)
claimed index (some old) rt w = ground (
  arith,
  lookup-put index rt.subdomain rt.route_id rt.subdomain,
  eq_iff rt.subdomain rt.subdomain,
  eq_iff old.subdomain rt.subdomain,
  release_other (put index rt.subdomain rt.route_id) old.subdomain rt.route_id rt.subdomain,
)

serves :
    (r : Registry) (rt : Route) (old : Option Route) (saved : Bool) (owner : Option String)
    (events : List Event)
    → wants_subdomain rt ≡ true
    → lookup r.routes rt.route_id ≡ some rt
    → (claim_and_save r old rt saved owner).1 ≡ ok events
    → get_route_by_subdomain (claim_and_save r old rt saved owner).0 rt.subdomain ≡ some rt
unfolding claim_and_save get_route_by_subdomain
serves r rt old saved (some owner) events w f h = absurd (ground arith)
serves r rt old true none events w f h = ground (arith, claimed r.subdomain_index old rt w)
serves r rt old false none events w f h = absurd (ground arith)

-- Where `UpsertRoute` accepts a route that wants a subdomain, `GetRouteBySubdomain` then returns that
-- route for it.
pub upsert_route-subdomain :
    (r : Registry) (route : Route) (saved : Bool) (events : List Event)
    → wants_subdomain (normalize route) ≡ true
    → (upsert_route r route saved).1 ≡ ok events
    → get_route_by_subdomain (upsert_route r route saved).0 (normalize route).subdomain
      ≡ some (normalize route)
unfolding upsert_route index_and_save
upsert_route-subdomain r route saved events w h =
    let rt = normalize route in
    serves _ rt (lookup r.routes rt.route_id) saved (taken_by r.subdomain_index rt) events w
      (ground
        (arith, lookup-put r.routes rt.route_id rt rt.route_id, eq_iff rt.route_id rt.route_id))
      h

refused :
    (r : Registry) (rt : Route) (old : Option Route) (saved : Bool) (owner : String)
    → taken_by r.subdomain_index rt ≡ some owner
    → ((claim_and_save r old rt saved (taken_by r.subdomain_index rt)).1
        ≡ err (subdomain_used rt.subdomain owner))
      × ((claim_and_save r old rt saved (taken_by r.subdomain_index rt)).0.subdomain_index
          ≡ r.subdomain_index)
unfolding claim_and_save rollback_claim
refused r rt none saved owner e =
    (ground arith, ap (λ o. (claim_and_save r none rt saved o).0.subdomain_index) e)
refused r rt (some old) saved owner e =
    (ground arith, ap (λ o. (claim_and_save r (some old) rt saved o).0.subdomain_index) e)

-- Where another route owns the subdomain that a route wants, `UpsertRoute` names it in its error and
-- leaves the index of subdomains as it is.
pub upsert_route-taken :
    (r : Registry) (route : Route) (saved : Bool) (owner : String)
    → wants_subdomain (normalize route) ≡ true
    → lookup r.subdomain_index (normalize route).subdomain ≡ some owner
    → owner ≢ (normalize route).route_id
    → ((upsert_route r route saved).1 ≡ err (subdomain_used (normalize route).subdomain owner))
      × ((upsert_route r route saved).0.subdomain_index ≡ r.subdomain_index)
unfolding upsert_route index_and_save
upsert_route-taken r route saved owner w f n =
    let rt = normalize route in
    refused _ rt (lookup r.routes rt.route_id) saved owner
      (unfold taken_by in ground (arith, eq_iff owner (normalize route).route_id))
