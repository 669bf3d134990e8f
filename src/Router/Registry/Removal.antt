-- ===== src/Router/Registry/Removal.antt =====
-- internal/router/registry.go: the removal of routes and apps, the replacement of all of them at a
-- reload, and the queries.
use nekzus.Prelude.{
  String, Bool, false, not, ◌&&◌, ◌||◌, Option, none, some, List, [], ◌∷◌, ◌++◌, ◌==◌,
  if◌then◌else◌, Result, ok, err,
}
use nekzus.Prelude.Bytes.{Bytes}
use nekzus.Prelude.Dict.{Dict, lookup, put, delete, entries, has}
use nekzus.Router.Route.{Route}
use nekzus.Router.Radix
use nekzus.Router.Radix.{RadixTree}
use nekzus.Router.Registry.{
  Registry, App, Event, app_added, app_removed, route_removed, RegistryError, storage_failed,
  normalize, release,
}

-- `deleted` tells whether the storage deletes the app.
unfoldable pub remove_app : Registry → String → Bool → Registry × Result RegistryError (List Event)
unfolding lookup delete
remove_app r id deleted =
    if has r.apps id
    then (
      record r { apps = delete r.apps id },
      (if deleted
          then ok (if r.callbacks.on_app_removed then app_removed id ∷ [] else [])
          else err storage_failed),
    )
    else (r, ok [])

unfoldable pub upsert_app : Registry → App → Bool → Registry × Result RegistryError (List Event)
unfolding put delete
upsert_app r a saved =
    let r' = record r { apps = put r.apps a.id a } in
    if saved
    then (r', ok (if r.callbacks.on_app_added then app_added a ∷ [] else []))
    else (record r' { apps = delete r'.apps a.id }, err storage_failed)

-- Whether a route of the map belongs to the app.
unfoldable pub app_in_use : Dict Route → String → Bool
app_in_use [] id = false
app_in_use ((k, rt) ∷ rest) id = rt.app_id == id || app_in_use rest id

-- The app of the removed route, or "".
abbrev pub app_of : Option Route → String
app_of none = ""
app_of (some rt) = rt.app_id

-- The events of a call, which has logged its error.
abbrev pub events_of : Result RegistryError (List Event) → List Event
events_of (ok events) = events
events_of (err e) = []

abbrev pub removed_events : Registry → Option Route → List Event
removed_events r none = []
removed_events r (some route) =
    if r.callbacks.on_route_removed then route_removed route ∷ [] else []

-- What `RemoveRoute` does to the maps, under the lock.
unfoldable pub forget_route : Registry → Option Route → String → Registry
unfolding delete release Radix.delete
forget_route r route id = record r {
  routes = delete r.routes id;
  radix_index = (Radix.delete r.radix_index id).0;
  subdomain_index = elim route [
    | none ↦ r.subdomain_index
    | some rt ↦
        if rt.subdomain == "" then r.subdomain_index else release r.subdomain_index rt.subdomain id
  ];
}

-- The last two arguments tell whether the storage deletes the route, and the app if it comes to that.
unfoldable pub remove_route :
    Registry → String → Bool → Bool → Registry × Result RegistryError (List Event)
unfolding lookup entries app_in_use forget_route remove_app
remove_route r id route_deleted app_deleted =
    let route = lookup r.routes id in
    let app_id = app_of route in
    let r' = forget_route r route id in
    let orphaned = not (app_id == "") && not (app_in_use (entries r'.routes) app_id) in
    if route_deleted
    then (if orphaned
        then (let (r'', answer) = remove_app r' app_id app_deleted in
            (r'', ok (removed_events r route ++ events_of answer)))
        else (r', ok (removed_events r route)))
    else (r', err storage_failed)

-- The loop of `ReplaceRoutes` over the new routes.
unfoldable pub build_routes : Dict Route → RadixTree → List Route → Dict Route × RadixTree
unfolding normalize put Radix.insert
build_routes routes tree [] = (routes, tree)
build_routes routes tree (route ∷ rest) =
    let rt = normalize route in build_routes (put routes rt.route_id rt) (Radix.insert tree rt) rest

-- `ReplaceRoutes`: failures of the storage are only logged.
unfoldable pub replace_routes : Registry → List Route → Registry
unfolding build_routes Radix.new_radix_tree
replace_routes r new_routes =
    let (routes, tree) = build_routes [] Radix.new_radix_tree new_routes in
    record r { routes = routes; radix_index = tree }

unfoldable pub get_route_by_path : Registry → Bytes → Option Route
unfolding Radix.search
get_route_by_path r path = Radix.search r.radix_index path

unfoldable pub get_route_by_subdomain : Registry → String → Option Route
unfolding lookup
get_route_by_subdomain r subdomain = elim (lookup r.subdomain_index subdomain) [
  | none ↦ none
  | some id ↦ lookup r.routes id
]
