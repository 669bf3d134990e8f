-- ===== src/Router/Registry/Methods.antt =====
-- internal/router/registry.go: every method keeps the radix tree within the map of the
-- routes.
use mathlib.Core.Path.{subst}
use nekzus.Prelude.{
  ◌≡◌, refl, sym, String, Bool, true, false, not, ◌&&◌, Option, none, some, List, [], ◌∷◌, ◌==◌,
  if◌then◌else◌, arith, Result, ok, err,
}
use nekzus.Prelude.Bytes.{Bytes}
use nekzus.Prelude.Dict.{Dict, lookup, put, has, entries}
use nekzus.Router.Route.{Route}
use nekzus.Router.Radix
use nekzus.Router.Radix.{RadixTree, PathUsed, find_by_path, find_by_path_node}
use nekzus.Router.Radix.Removal.{IsValid}
use nekzus.Router.Radix.Validation.{insert_with_validation-ok}
use nekzus.Router.Registry.{
  Registry, RegistryError, normalize, upsert_route, upsert_route_with_validation, index_and_save,
  claim_and_save, rollback_claim, rollback_save, taken_by, Event, validated,
}
use nekzus.Router.Registry.Coherence.{IsCoherent, Coherent, put-IsCoherent, delete-IsCoherent}
use nekzus.Router.Registry.Removal.{
  remove_route, forget_route, remove_app, build_routes, replace_routes, app_of, app_in_use,
}

-- A registry that is coherent on both branches is so behind the test.
Coherent-if :
    (b : Bool) (x y : Registry × Result RegistryError (List Event))
    → Coherent x.0
    → Coherent y.0
    → Coherent (if b then x else y).0
Coherent-if true x y px py = px
Coherent-if false x y px py = py

put_same :
    (routes : Dict Route) (tree : RadixTree) (id : String) (old : Route)
    → old.route_id ≡ id
    → IsCoherent routes tree
    → IsCoherent (put routes id old) (Radix.insert tree old)
put_same routes tree id old e c =
    subst (λ k. IsCoherent (put routes k old) (Radix.insert tree old)) e
      (put-IsCoherent routes tree old c)

rollback_claim-Coherent :
    (r : Registry) (old : Option Route) (rt : Route)
    → Coherent r
    → ((o : Route) → old ≡ some o → o.route_id ≡ rt.route_id)
    → Coherent (rollback_claim r old rt)
unfolding rollback_claim
rollback_claim-Coherent r none rt c h = delete-IsCoherent r.routes r.radix_index rt.route_id c
rollback_claim-Coherent r (some old) rt c h =
    put_same r.routes r.radix_index rt.route_id old (h old refl) c

pub rollback_save-Coherent :
    (r : Registry) (old : Option Route) (rt : Route)
    → Coherent r
    → ((o : Route) → old ≡ some o → o.route_id ≡ rt.route_id)
    → Coherent (rollback_save r old rt)
unfolding rollback_save
rollback_save-Coherent r none rt c h = delete-IsCoherent r.routes r.radix_index rt.route_id c
rollback_save-Coherent r (some old) rt c h =
    put_same _ _ rt.route_id old (h old refl)
      (delete-IsCoherent r.routes r.radix_index rt.route_id c)

claim_and_save-Coherent :
    (r : Registry) (old : Option Route) (rt : Route) (saved : Bool) (owner : Option String)
    → Coherent r
    → ((o : Route) → old ≡ some o → o.route_id ≡ rt.route_id)
    → Coherent (claim_and_save r old rt saved owner).0
unfolding claim_and_save
claim_and_save-Coherent r old rt saved (some owner) c h = rollback_claim-Coherent r old rt c h
claim_and_save-Coherent r old rt saved none c h =
    Coherent-if saved _ _ c (rollback_save-Coherent _ old rt c h)

index_and_save-Coherent :
    (r : Registry) (old : Option Route) (rt : Route) (saved : Bool)
    → Coherent r
    → ((o : Route) → old ≡ some o → o.route_id ≡ rt.route_id)
    → Coherent (index_and_save r old rt saved).0
unfolding index_and_save
index_and_save-Coherent r old rt saved c h =
    claim_and_save-Coherent r old rt saved (taken_by r.subdomain_index rt) c h

-- A coherent registry is coherent after `UpsertRoute`, whatever it answers: the route is saved,
-- another route owns the subdomain, or the storage refuses the route.
pub upsert_route-Coherent :
    (r : Registry) (route : Route) (saved : Bool)
    → Coherent r
    → Coherent (upsert_route r route saved).0
unfolding upsert_route
upsert_route-Coherent r route saved c =
    let rt = normalize route in
    index_and_save-Coherent _ (lookup r.routes rt.route_id) rt saved
      (put-IsCoherent r.routes r.radix_index rt c) (c.keyed rt.route_id)

abbrev BothCoherent : Dict Route × RadixTree → Type 0
BothCoherent (routes, tree) = IsCoherent routes tree

build_routes_coherent :
    (news : List Route) (routes : Dict Route) (tree : RadixTree)
    → IsCoherent routes tree
    → BothCoherent (build_routes routes tree news)
unfolding build_routes
build_routes_coherent [] routes tree c = c
build_routes_coherent (route ∷ rest) routes tree c =
    build_routes_coherent rest _ _ (put-IsCoherent routes tree (normalize route) c)

pub remove_app-Coherent :
    (r : Registry) (id : String) (deleted : Bool)
    → Coherent r
    → Coherent (remove_app r id deleted).0
unfolding remove_app
remove_app-Coherent r id deleted c = Coherent-if (has r.apps id) _ _ c c

-- A coherent registry is coherent after `RemoveRoute`, whatever the storage answers.
pub remove_route-Coherent :
    (r : Registry) (id : String) (route_deleted app_deleted : Bool)
    → Coherent r
    → Coherent (remove_route r id route_deleted app_deleted).0
unfolding remove_route
remove_route-Coherent r id route_deleted app_deleted c =
    let route = lookup r.routes id in
    let r' = forget_route r route id in
    let c' : Coherent r' = unfold forget_route in delete-IsCoherent r.routes r.radix_index id c in
    Coherent-if route_deleted _ _
      (Coherent-if (not (app_of route == "") && not (app_in_use (entries r'.routes) (app_of route)))
        _ _ (remove_app-Coherent r' (app_of route) app_deleted c') c')
      c'

empty_finds : (p : Bytes) → find_by_path Radix.new_radix_tree p ≡ none
unfolding Radix.new_radix_tree find_by_path_node
empty_finds [] = refl
empty_finds (b ∷ p) = refl

pub new_radix_tree-IsValid : IsValid Radix.new_radix_tree
unfolding Radix.new_radix_tree
new_radix_tree-IsValid = record {
  shape = tt;
  sized = refl;
  labelled = λ p r h. absurd (ground (arith, empty_finds p));
  unique = λ p q r s f g e. absurd (ground (arith, empty_finds p));
}

pub empty-IsCoherent : IsCoherent [] Radix.new_radix_tree
unfolding lookup
empty-IsCoherent = record {
  valid = new_radix_tree-IsValid;
  keyed = λ k rt h. absurd (ground arith);
  indexed = λ p rt h. absurd (ground (arith, empty_finds p));
}

-- Whatever the registry was, it is coherent after `ReplaceRoutes`.
pub replace_routes-Coherent : (r : Registry) (news : List Route) → Coherent (replace_routes r news)
unfolding replace_routes
replace_routes-Coherent r news = build_routes_coherent news [] Radix.new_radix_tree empty-IsCoherent

-- What the tree's answer makes of the registry.
after_validation :
    (r : Registry) (rt : Route) (saved : Bool)
    → Coherent r
    → (answer : Result PathUsed RadixTree)
    → ((tree : RadixTree) → answer ≡ ok tree → tree ≡ Radix.insert r.radix_index rt)
    → Coherent (validated r rt saved answer).0
unfolding validated
after_validation r rt saved c (err used) h = c
after_validation r rt saved c (ok tree) h =
    index_and_save-Coherent _ (lookup r.routes rt.route_id) rt saved
      (subst (λ t. IsCoherent (put r.routes rt.route_id rt) t) (sym (h tree refl))
        (put-IsCoherent r.routes r.radix_index rt c))
      (c.keyed rt.route_id)

-- A coherent registry is coherent after `UpsertRouteWithValidation`, whatever it answers.
pub upsert_route_with_validation-Coherent :
    (r : Registry) (route : Route) (saved : Bool)
    → Coherent r
    → Coherent (upsert_route_with_validation r route saved).0
unfolding upsert_route_with_validation
upsert_route_with_validation-Coherent r route saved c =
    let rt = normalize route in
    after_validation r rt saved c (Radix.insert_with_validation r.radix_index rt)
      (λ tree e. (insert_with_validation-ok r.radix_index rt tree e).0)
