-- ===== src/Router/Registry/Started.antt =====
-- internal/router/registry.go: the registry behind the start, and the routes of an app.
use mathlib.Core.Path.{subst}
use nekzus.Prelude.{
  ◌≡◌, sym, ◌∙◌, String, Option, none, some, List, [], ◌∷◌, ◌==◌, arith, eq_iff, Bool-cases, inl,
  inr,
}
use nekzus.Prelude.Dict.{Dict, lookup, entries, IsUnique, lookup-entries, entries-IsUnique}
use nekzus.Router.Route.{Route}
use nekzus.Router.Registry.{Registry, App}
use nekzus.Router.Registry.Loading.{
  Stored, load_route, load_routes, load_from_storage, new_registry, route_of_app,
  get_route_by_app_id,
}
use nekzus.Router.Registry.Coherence.{Coherent, put-IsCoherent}
use nekzus.Router.Registry.Methods.{empty-IsCoherent}

load_routes-Coherent :
    (routes : List Route) (r : Registry) → Coherent r → Coherent (load_routes routes r)
unfolding load_routes load_route
load_routes-Coherent [] r c = c
load_routes-Coherent (route ∷ rest) r c =
    load_routes-Coherent rest (load_route r route) (put-IsCoherent r.routes r.radix_index route c)

load_from_storage-Coherent :
    (apps : Option (List App)) (routes : Option (List Route)) (r : Registry)
    → Coherent r
    → Coherent (load_from_storage (record { apps = apps; routes = routes }) r)
unfolding load_from_storage
load_from_storage-Coherent none routes r c = c
load_from_storage-Coherent (some apps) none r c = c
load_from_storage-Coherent (some apps) (some routes) r c = load_routes-Coherent routes _ c

-- The registry is coherent behind the start, whatever rows the database has and whether it answers.
pub new_registry-Coherent : (store : Option Stored) → Coherent (new_registry store)
unfolding new_registry
new_registry-Coherent none = empty-IsCoherent
new_registry-Coherent (some stored) =
    load_from_storage-Coherent stored.apps stored.routes _ empty-IsCoherent

route_of_app_sound :
    (m : Dict Route) (app_id : String) (rt : Route)
    → IsUnique m
    → route_of_app m app_id ≡ some rt
    → (k : String) × (rt.app_id ≡ app_id) × (lookup m k ≡ some rt)
unfolding route_of_app lookup
route_of_app_sound [] app_id rt u h = absurd cc
route_of_app_sound ((j, s) ∷ m) app_id rt u h = elim (Bool-cases (s.app_id == app_id)) [
  | inl e ↦ (j, ground (arith, eq_iff s.app_id app_id), ground (arith, eq_iff j j))
  | inr e ↦
      let (k, a, f) = route_of_app_sound m app_id rt u.1 (ground arith) in
      (k, a, ground (arith, eq_iff j k, u.0))
]

-- In a coherent registry, a route that `GetRouteByAppID` returns belongs to the app and is the
-- registered one of its ID.
pub get_route_by_app_id-registered :
    (r : Registry) (app_id : String) (rt : Route)
    → Coherent r
    → get_route_by_app_id r app_id ≡ some rt
    → (rt.app_id ≡ app_id) × (lookup r.routes rt.route_id ≡ some rt)
unfolding get_route_by_app_id
get_route_by_app_id-registered r app_id rt c h =
    let (k, a, f) = route_of_app_sound (entries r.routes) app_id rt (entries-IsUnique r.routes) h in
    let g : lookup r.routes k ≡ some rt = sym (lookup-entries r.routes k) ∙ f in
    (a, subst (λ i. lookup r.routes i ≡ some rt) (sym (c.keyed k rt g)) g)
