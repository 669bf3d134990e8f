-- ===== src/Router/Examples.antt =====
-- A small registry, on which the theorems are applied.
use nekzus.Prelude.{
  List, ◌≡◌, ◌↔◌, ◌≤◌, refl, String, true, false, none, some, [], ◌∷◌, if◌then◌else◌, arith, eq_iff,
  ok, err, length,
}
use nekzus.Prelude.Bytes.{Bytes, bytes, beq}
use nekzus.Prelude.Dict.{lookup, put}
use nekzus.Router.Route.{Route}
use nekzus.Router.Radix
use nekzus.Router.Radix.{
  RadixTree, PathUsed, Node, node, Nodes, nil, cons, new_radix_tree, insert, insert_with_validation,
  delete, search, find_by_path, find_by_id, find_by_path_node, find_by_path_nodes, find_by_id_node,
  find_by_id_nodes, insert_node, insert_nodes, delete_node, delete_nodes, search_node, search_nodes,
  split, set_route, common_prefix_len, delete_old_path, insert_at, has_id,
}
use nekzus.Router.Radix.Removal.{IsValid, delete-without_id, without_id}
use nekzus.Router.Radix.Insertion.{insert-IsValid, find_by_path-insert}
use nekzus.Router.Radix.Search.{MatchesPath, at_slash, search-MatchesPath, search_longest}
use nekzus.Router.Registry.{
  Registry, subdomain_used, normalize, upsert_route, wants_subdomain, index_and_save,
  claim_and_save, taken_by,
}
use nekzus.Router.Registry.Loading.{Stored, new_registry}
use nekzus.Router.Registry.Runs as Runs
use nekzus.Router.Registry.Coherence.{Coherent}
use nekzus.Router.Registry.Methods.{
  new_radix_tree-IsValid, upsert_route-Coherent, replace_routes-Coherent,
}
use nekzus.Router.Registry.Removal.{
  build_routes, replace_routes, get_route_by_path, get_route_by_subdomain,
}
use nekzus.Router.Registry.Queries.{get_route_by_path-registered, upsert_route-error}
use nekzus.Router.Registry.Subdomains.{upsert_route-subdomain, upsert_route-taken}

abbrev route_at : String → String → Bytes → Route
route_at id sub path = record {
  route_id = id;
  app_id = "app";
  path_base = path;
  to = "http://localhost:8080";
  subdomain = sub;
  routing_mode = "both";
  strip_prefix = false;
  rewrite_html = false;
}

abbrev grafana : Route
grafana = route_at "grafana" "graf" (bytes "/apps/grafana")

abbrev gitea : Route
gitea = route_at "gitea" "git" (bytes "/apps/gitea")

abbrev apps : Route
apps = route_at "apps" "graf" (bytes "/apps")

abbrev two_routes : RadixTree
two_routes = insert (insert new_radix_tree grafana) apps

two_routes-IsValid : IsValid two_routes
two_routes-IsValid =
    insert-IsValid (insert new_radix_tree grafana) apps
      (insert-IsValid new_radix_tree grafana new_radix_tree-IsValid)

-- Every function of the tree computes here.
reads_gitea : find_by_path (insert two_routes gitea) (bytes "/apps/grafana") ≡ some grafana
unfolding insert delete_old_path find_by_path_node find_by_id_node insert_node common_prefix_len
    new_radix_tree
reads_gitea = refl

find_by_path-insert_example : find_by_path (insert two_routes gitea) (bytes "/apps/gitea") ≡ (
    if beq gitea.path_base (bytes "/apps/gitea")
    then some gitea
    else without_id gitea.route_id (find_by_path two_routes (bytes "/apps/gitea")))
find_by_path-insert_example =
    find_by_path-insert two_routes gitea two_routes-IsValid (bytes "/apps/gitea")

insert-IsValid_example : IsValid (insert two_routes gitea)
insert-IsValid_example = insert-IsValid two_routes gitea two_routes-IsValid

delete-without_id_example :
    IsValid (delete two_routes "apps").0
    × ((q : Bytes)
        → find_by_path (delete two_routes "apps").0 q
          ≡ without_id "apps" (find_by_path two_routes q))
    × (((delete two_routes "apps").1 ≡ false) ↔ (find_by_id two_routes "apps" ≡ none))
delete-without_id_example = delete-without_id two_routes "apps" two_routes-IsValid

reads_grafana : find_by_path two_routes (bytes "/apps/grafana") ≡ some grafana
unfolding insert delete_old_path find_by_path_node find_by_id_node insert_node common_prefix_len
    new_radix_tree
reads_grafana = refl

searches_grafana : search two_routes (bytes "/apps/grafana/d/1") ≡ some grafana
unfolding insert delete_old_path find_by_path_node find_by_id_node insert_node common_prefix_len
    new_radix_tree search search_node
searches_grafana = refl

search-MatchesPath_example : MatchesPath two_routes (bytes "/apps/grafana/d/1") grafana
search-MatchesPath_example =
    search-MatchesPath two_routes (bytes "/apps/grafana/d/1") grafana two_routes-IsValid
      searches_grafana

reads_apps : find_by_path two_routes (bytes "/apps") ≡ some apps
unfolding insert delete_old_path find_by_path_node find_by_id_node insert_node common_prefix_len
    new_radix_tree
reads_apps = refl

apps_matches : MatchesPath two_routes (bytes "/apps/grafana/d/1") apps
apps_matches = record {
  rest = bytes "/grafana/d/1";
  splits = refl;
  stored = reads_apps;
  boundary = at_slash;
}

-- The longer of the two routes that match is found.
search_longest_example :
    (found : Route) × (search two_routes (bytes "/apps/grafana/d/1") ≡ some found)
    × (length apps.path_base ≤ length found.path_base)
search_longest_example =
    search_longest two_routes (bytes "/apps/grafana/d/1") apps two_routes-IsValid apps_matches

abbrev thief : Route
thief = route_at "thief" "other" (bytes "/apps")

abbrev before_reload : Registry
before_reload = record {
  routes = [];
  apps = [];
  radix_index = new_radix_tree;
  subdomain_index = [];
  callbacks = record {
    on_app_added = true;
    on_app_removed = true;
    on_route_removed = true;
    on_route_updated = true;
  };
}

abbrev loaded : Registry
loaded = (upsert_route (replace_routes before_reload (apps ∷ [])) grafana true).0

loaded-Coherent : Coherent loaded
loaded-Coherent =
    upsert_route-Coherent (replace_routes before_reload (apps ∷ [])) grafana true
      (replace_routes-Coherent before_reload (apps ∷ []))

grafana_wants : wants_subdomain (normalize grafana) ≡ true
unfolding normalize wants_subdomain
grafana_wants = refl

grafana_accepted : (upsert_route before_reload grafana true).1 ≡ ok []
unfolding upsert_route index_and_save claim_and_save taken_by
grafana_accepted = refl

upsert_route-subdomain_example :
    get_route_by_subdomain (upsert_route before_reload grafana true).0 (normalize grafana).subdomain
    ≡ some (normalize grafana)
upsert_route-subdomain_example =
    upsert_route-subdomain before_reload grafana true [] grafana_wants grafana_accepted

abbrev owned : Registry
owned = record before_reload { subdomain_index = put [] "graf" "grafana" }

apps_taken : (upsert_route owned apps true).1 ≡ err (subdomain_used "graf" "grafana")
unfolding upsert_route index_and_save claim_and_save taken_by put lookup normalize wants_subdomain
apps_taken = refl

apps_wants : wants_subdomain (normalize apps) ≡ true
unfolding normalize wants_subdomain
apps_wants = refl

apps_owned : lookup owned.subdomain_index (normalize apps).subdomain ≡ some "grafana"
unfolding normalize put lookup
apps_owned = refl

upsert_route-taken_example :
    ((upsert_route owned apps true).1 ≡ err (subdomain_used (normalize apps).subdomain "grafana"))
    × ((upsert_route owned apps true).0.subdomain_index ≡ owned.subdomain_index)
upsert_route-taken_example =
    upsert_route-taken owned apps true "grafana" apps_wants apps_owned
      (unfold normalize in λ e. absurd (ground (arith, eq_iff "grafana" "apps")))

upsert_route-error_example :
    lookup (upsert_route owned apps true).0.routes "apps" ≡ lookup owned.routes "apps"
upsert_route-error_example =
    upsert_route-error owned apps true (subdomain_used "graf" "grafana") "apps" apps_taken

found_by_path :
    get_route_by_path (replace_routes before_reload (apps ∷ [])) (bytes "/apps/x") ≡ some apps
unfolding get_route_by_path replace_routes build_routes search search_node normalize insert
    delete_old_path find_by_path_node find_by_id_node insert_node common_prefix_len new_radix_tree
    Radix.matches_here
found_by_path = refl

get_route_by_path-registered_example :
    (lookup (replace_routes before_reload (apps ∷ [])).routes apps.route_id ≡ some apps)
    × MatchesPath (replace_routes before_reload (apps ∷ [])).radix_index (bytes "/apps/x") apps
get_route_by_path-registered_example =
    get_route_by_path-registered (replace_routes before_reload (apps ∷ [])) (bytes "/apps/x") apps
      (replace_routes-Coherent before_reload (apps ∷ [])) found_by_path

abbrev rows : Stored
rows = record { apps = some []; routes = some (grafana ∷ apps ∷ []) }

abbrev changes : List Runs.Op
changes =
    Runs.op_upsert_route gitea
    ∷ Runs.op_upsert_route apps
    ∷ Runs.op_written 1 false
    ∷ Runs.op_remove_route "grafana" true false
    ∷ Runs.op_replace_routes (apps ∷ [])
    ∷ []

run-Coherent_example :
    Coherent
      (Runs.run (record { registry = new_registry (some rows); writes = [] }) changes).registry
run-Coherent_example = Runs.run-Coherent (some rows) changes
