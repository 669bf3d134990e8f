-- ===== src/Router/Registry/Loading.antt =====
-- internal/router/registry.go: the registry at the start of the program, which reads the rows of the
-- database, and the queries over all routes and apps. The rows are an argument, nothing where the
-- database fails.
use nekzus.Prelude.{String, false, Option, none, some, List, [], ◌∷◌, ◌==◌, if◌then◌else◌}
use nekzus.Prelude.Dict.{Dict, lookup, put, entries}
use nekzus.Router.Route.{Route}
use nekzus.Router.Radix
use nekzus.Router.Registry.{Registry, App, claim_subdomain}

-- The two fields of the storage that `loadFromStorage` reads.
pub record Stored : Type 0 where
  pub apps : Option (List App)
  pub routes : Option (List Route)

unfoldable pub load_apps : Dict App → List App → Dict App
unfolding put
load_apps apps [] = apps
load_apps apps (app ∷ rest) = load_apps (put apps app.id app) rest

unfoldable pub load_route : Registry → Route → Registry
unfolding put Radix.insert claim_subdomain
load_route r route = record r {
  routes = put r.routes route.route_id route;
  radix_index = Radix.insert r.radix_index route;
  subdomain_index = claim_subdomain r.subdomain_index route;
}

unfoldable pub load_routes : List Route → Registry → Registry
unfolding load_route
load_routes [] r = r
load_routes (route ∷ rest) r = load_routes rest (load_route r route)

-- What the rows of the routes make of the registry.
abbrev pub with_routes : Option (List Route) → Registry → Registry
with_routes none r = r
with_routes (some routes) r = load_routes routes r

unfoldable pub load_from_storage : Stored → Registry → Registry
unfolding load_apps load_routes
load_from_storage stored r = elim stored.apps [
  | none ↦ r
  | some apps ↦ with_routes stored.routes (record r { apps = load_apps r.apps apps })
]

-- `none` is a registry without a storage.
unfoldable pub new_registry : Option Stored → Registry
unfolding load_from_storage Radix.new_radix_tree
new_registry store =
    let registry : Registry = record {
      routes = [];
      apps = [];
      radix_index = Radix.new_radix_tree;
      subdomain_index = [];
      callbacks = record {
        on_app_added = false;
        on_app_removed = false;
        on_route_removed = false;
        on_route_updated = false;
      };
    } in
    elim store [ none ↦ registry | some stored ↦ load_from_storage stored registry ]

-- `ReplaceApps`: failures of the storage are only logged.
unfoldable pub replace_apps : Registry → List App → Registry
unfolding load_apps
replace_apps r new_apps = record r { apps = load_apps [] new_apps }

-- The loop of `GetRouteByAppID`.
unfoldable pub route_of_app : Dict Route → String → Option Route
route_of_app [] app_id = none
route_of_app ((k, rt) ∷ rest) app_id =
    if rt.app_id == app_id then some rt else route_of_app rest app_id

unfoldable pub get_route_by_app_id : Registry → String → Option Route
unfolding route_of_app entries
get_route_by_app_id r app_id = route_of_app (entries r.routes) app_id

unfoldable pub get_app_by_id : Registry → String → Option App
unfolding lookup
get_app_by_id r app_id = lookup r.apps app_id
