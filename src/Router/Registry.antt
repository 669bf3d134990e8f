-- ===== src/Router/Registry.antt =====
-- internal/router/registry.go: the routes and apps in memory, with the radix tree and the index of
-- subdomains over the routes. The storage is a database behind `storage.Store`: whether it accepts a
-- write is an argument of the method (`true` where the registry has no storage), and the rows that it
-- then holds are not modelled. The callbacks that a method makes are returned in order; which
-- callbacks
-- are set is part of the state. A method runs as one step here; Registry/Runs divides UpsertRoute.
pub mod Removal
pub mod Loading
pub mod Started
pub mod Runs
pub mod Coherence
pub mod Methods
pub mod Queries
pub mod Subdomains
use nekzus.Prelude.{
  ℕ, String, Bool, true, false, not, ◌&&◌, ◌||◌, Option, none, some, List, [], ◌∷◌, ◌++◌, ◌==◌,
  if◌then◌else◌, Result, ok, err,
}
use nekzus.Prelude.Bytes.{Bytes, bytes, has_suffix}
use nekzus.Prelude.Dict.{Dict, lookup, put, delete, entries, has}
use nekzus.Router.Route.{Route}
use nekzus.Router.Radix
use nekzus.Router.Radix.{RadixTree, PathUsed}

pub record App : Type 0 where
  pub id : String
  pub name : String

pub record Callbacks : Type 0 where
  pub on_app_added : Bool
  pub on_app_removed : Bool
  pub on_route_removed : Bool
  pub on_route_updated : Bool

pub data Event : Type 0 where
  app_added : App → Event
  app_removed : String → Event
  route_removed : Route → Event
  route_updated : Route → Route → Event

pub record Registry : Type 0 where
  pub routes : Dict Route
  pub apps : Dict App
  pub radix_index : RadixTree
  pub subdomain_index : Dict String
  pub callbacks : Callbacks

pub data RegistryError : Type 0 where
  subdomain_used : String → String → RegistryError
  path_used : PathUsed → RegistryError
  storage_failed : RegistryError

-- The trailing slash and the rewriting of HTML that strip_prefix implies.
unfoldable pub normalize : Route → Route
unfolding has_suffix
normalize rt =
    if rt.strip_prefix
    then record rt {
      path_base =
          if has_suffix rt.path_base (bytes "/") then rt.path_base else rt.path_base ++ bytes "/";
      rewrite_html = true;
    }
    else rt

abbrev pub by_subdomain : Route → Bool
by_subdomain rt = rt.routing_mode == "subdomain" || rt.routing_mode == "both"

-- rt.Subdomain != "" && (rt.RoutingMode == "subdomain" || rt.RoutingMode == "both")
unfoldable pub wants_subdomain : Route → Bool
wants_subdomain rt = not (rt.subdomain == "") && by_subdomain rt

-- The owner of the subdomain, if the route wants it and another route has it.
unfoldable pub taken_by : Dict String → Route → Option String
unfolding lookup wants_subdomain
taken_by index rt =
    if wants_subdomain rt
    then (elim (lookup index rt.subdomain) [
      | none ↦ none
      | some owner ↦ if owner == rt.route_id then none else some owner
    ])
    else none

-- if r.subdomainIndex[sub] == id { delete(r.subdomainIndex, sub) }; a missing key reads as "".
unfoldable pub release : Dict String → String → String → Dict String
unfolding lookup delete
release index sub id = elim (lookup index sub) [
  | none ↦ if id == "" then delete index sub else index
  | some owner ↦ if owner == id then delete index sub else index
]

-- "Clean up old subdomain if it changed", and "if mode changed away from subdomain".
unfoldable pub clean_subdomain : Dict String → Option Route → Route → Dict String
unfolding release
clean_subdomain index none rt = index
clean_subdomain index (some old) rt =
    let changed =
      (if not (old.subdomain == "") && not (old.subdomain == rt.subdomain)
        then release index old.subdomain rt.route_id
        else index) in
    if not (old.subdomain == "") && not (by_subdomain rt) && rt.subdomain == ""
    then release changed old.subdomain rt.route_id
    else changed

-- "Maintain subdomain index", where no other route owns the subdomain.
unfoldable pub claim_subdomain : Dict String → Route → Dict String
unfolding put wants_subdomain
claim_subdomain index rt = if wants_subdomain rt then put index rt.subdomain rt.route_id else index

-- The rollback where another route owns the subdomain.
unfoldable pub rollback_claim : Registry → Option Route → Route → Registry
unfolding put delete Radix.insert Radix.delete
rollback_claim r none rt = record r {
  routes = delete r.routes rt.route_id;
  radix_index = (Radix.delete r.radix_index rt.route_id).0;
}
rollback_claim r (some old) rt = record r {
  routes = put r.routes rt.route_id old;
  radix_index = Radix.insert r.radix_index old;
}

-- The rollback where the storage refuses the route.
unfoldable pub rollback_save : Registry → Option Route → Route → Registry
unfolding put delete Radix.insert Radix.delete wants_subdomain
rollback_save r old rt =
    let index =
      (if rt.subdomain == "" then r.subdomain_index else delete r.subdomain_index rt.subdomain) in
    let cleared = record r {
      routes = delete r.routes rt.route_id;
      radix_index = (Radix.delete r.radix_index rt.route_id).0;
      subdomain_index = index;
    } in
    elim old [
      | none ↦ cleared
      | some route ↦ record cleared {
        routes = put cleared.routes rt.route_id route;
        radix_index = Radix.insert cleared.radix_index route;
        subdomain_index =
            if wants_subdomain route then put index route.subdomain rt.route_id else index;
      }
    ]

-- onRouteUpdatedCallback, if the target of an existing route changed.
abbrev pub updated_events : Registry → Option Route → Route → List Event
updated_events r none rt = []
updated_events r (some old) rt =
    if not (old.to == rt.to) && r.callbacks.on_route_updated then route_updated old rt ∷ [] else []

-- What follows the look at the subdomain: another route owns it, or it is free.
unfoldable pub claim_and_save :
    Registry
    → Option Route
    → Route
    → Bool
    → Option String
    → Registry × Result RegistryError (List Event)
unfolding clean_subdomain claim_subdomain rollback_claim rollback_save
claim_and_save r old rt saved (some owner) =
    (rollback_claim r old rt, err (subdomain_used rt.subdomain owner))
claim_and_save r old rt saved none =
    let r' = record r {
      subdomain_index = clean_subdomain (claim_subdomain r.subdomain_index rt) old rt;
    } in
    if saved
    then (r', ok (updated_events r old rt))
    else (rollback_save r' old rt, err storage_failed)

-- The steps behind the update of the routes and the tree, which both ways to add a route share.
unfoldable pub index_and_save :
    Registry → Option Route → Route → Bool → Registry × Result RegistryError (List Event)
unfolding taken_by claim_and_save
index_and_save r old rt saved = claim_and_save r old rt saved (taken_by r.subdomain_index rt)

-- The whole call, where no other one comes between its first lock and the answer of the storage. The code
-- holds no lock while the storage writes; Registry/Runs takes the two parts as steps.
unfoldable pub upsert_route : Registry → Route → Bool → Registry × Result RegistryError (List Event)
unfolding normalize lookup put Radix.insert index_and_save
upsert_route r route saved =
    let rt = normalize route in
    index_and_save
      (record r {
        routes = put r.routes rt.route_id rt;
        radix_index = Radix.insert r.radix_index rt;
      })
      (lookup r.routes rt.route_id) rt saved

-- No callback is made by this method.
abbrev pub no_events : Result RegistryError (List Event) → Result RegistryError (List Event)
no_events (ok events) = ok []
no_events (err e) = err e

-- What follows the tree's answer.
unfoldable pub validated :
    Registry
    → Route
    → Bool
    → Result PathUsed RadixTree
    → Registry × Result RegistryError (List Event)
unfolding lookup put index_and_save
validated r rt saved (err used) = (r, err (path_used used))
validated r rt saved (ok tree) =
    let (r', answer) =
      index_and_save (record r { routes = put r.routes rt.route_id rt; radix_index = tree })
        (lookup r.routes rt.route_id) rt saved in
    (r', no_events answer)

unfoldable pub upsert_route_with_validation :
    Registry → Route → Bool → Registry × Result RegistryError (List Event)
unfolding normalize Radix.insert_with_validation validated
upsert_route_with_validation r route saved =
    let rt = normalize route in validated r rt saved (Radix.insert_with_validation r.radix_index rt)
