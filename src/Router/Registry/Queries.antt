-- ===== src/Router/Registry/Queries.antt =====
-- internal/router/registry.go: what the queries return in a coherent registry, and what an error
-- leaves
-- of the routes.
use nekzus.Prelude.{◌≡◌, refl, String, Bool, true, false, Option, none, some, arith, eq_iff, err}
use nekzus.Prelude.Bytes.{Bytes}
use nekzus.Prelude.Dict.{lookup, put, delete, lookup-put, lookup-delete}
use nekzus.Router.Route.{Route}
use nekzus.Router.Radix
use nekzus.Router.Radix.Search.{search-MatchesPath, MatchesPath}
use nekzus.Router.Registry.{
  Registry, RegistryError, normalize, upsert_route, index_and_save, claim_and_save, rollback_claim,
  rollback_save, taken_by,
}
use nekzus.Router.Registry.Coherence.{Coherent}
use nekzus.Router.Registry.Removal.{get_route_by_path}

-- In a coherent registry, a route that `GetRouteByPath` returns is the registered one of its ID, and
-- its path matches the request's.
pub get_route_by_path-registered :
    (r : Registry) (path : Bytes) (route : Route)
    → Coherent r
    → get_route_by_path r path ≡ some route
    → (lookup r.routes route.route_id ≡ some route) × MatchesPath r.radix_index path route
unfolding get_route_by_path
get_route_by_path-registered r path route c h =
    let m = search-MatchesPath r.radix_index path route c.valid h in
    (c.indexed route.path_base route m.stored, m)

rolled_back :
    (r : Registry) (rt : Route) (saved : Bool) (owner : Option String) (tree : Radix.RadixTree)
    (e : RegistryError) (k : String) (old : Option Route)
    → lookup r.routes rt.route_id ≡ old
    → (claim_and_save
        (record r { routes = put r.routes rt.route_id rt; radix_index = tree })
        old
        rt
        saved
        owner).1
      ≡ err e
    → lookup
        (claim_and_save
          (record r { routes = put r.routes rt.route_id rt; radix_index = tree })
          old
          rt
          saved
          owner).0.routes
        k
      ≡ lookup r.routes k
unfolding claim_and_save rollback_claim rollback_save
rolled_back r rt saved (some owner) tree e k none f h = ground (
  arith,
  lookup-put r.routes rt.route_id rt k,
  lookup-delete (put r.routes rt.route_id rt) rt.route_id k,
  eq_iff rt.route_id k,
)
rolled_back r rt saved (some owner) tree e k (some old) f h = ground (
  arith,
  lookup-put r.routes rt.route_id rt k,
  lookup-put (put r.routes rt.route_id rt) rt.route_id old k,
  eq_iff rt.route_id k,
)
rolled_back r rt true none tree e k none f h = absurd (ground arith)
rolled_back r rt true none tree e k (some old) f h = absurd (ground arith)
rolled_back r rt false none tree e k none f h = ground (
  arith,
  lookup-put r.routes rt.route_id rt k,
  lookup-delete (put r.routes rt.route_id rt) rt.route_id k,
  eq_iff rt.route_id k,
)
rolled_back r rt false none tree e k (some old) f h = ground (
  arith,
  lookup-put r.routes rt.route_id rt k,
  lookup-delete (put r.routes rt.route_id rt) rt.route_id k,
  lookup-put (delete (put r.routes rt.route_id rt) rt.route_id) rt.route_id old k,
  eq_iff rt.route_id k,
)

-- Where `UpsertRoute` answers with an error, every ID reads the route that it read before.
pub upsert_route-error :
    (r : Registry) (route : Route) (saved : Bool) (e : RegistryError) (k : String)
    → (upsert_route r route saved).1 ≡ err e
    → lookup (upsert_route r route saved).0.routes k ≡ lookup r.routes k
unfolding upsert_route index_and_save
upsert_route-error r route saved e k h =
    let rt = normalize route in
    rolled_back r rt saved (taken_by r.subdomain_index rt) (Radix.insert r.radix_index rt) e k
      (lookup r.routes rt.route_id) refl h
