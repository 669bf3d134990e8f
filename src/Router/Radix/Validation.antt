-- ===== src/Router/Radix/Validation.antt =====
-- `InsertWithValidation` against `Insert`.
use nekzus.Prelude.{◌≡◌, ◌≢◌, none, some, arith, inl, inr, Option-cases, eq_iff, ok, err}
use nekzus.Router.Route.{Route}
use nekzus.Router.Radix.{RadixTree, find_by_path, insert, insert_with_validation, PathUsed}
use nekzus.Router.Radix.Removal.{without_id}

-- Where `InsertWithValidation` answers with an error, it names the path, and the route of another ID
-- that the tree holds at that path.
pub insert_with_validation-err :
    (t : RadixTree) (route : Route) (e : PathUsed)
    → insert_with_validation t route ≡ err e
    → (r : Route) × (find_by_path t route.path_base ≡ some r)
      × (r.route_id ≢ route.route_id)
      × (e ≡ record { path = route.path_base; used_by = r.route_id })
unfolding insert_with_validation
insert_with_validation-err t route e h = elim (Option-cases (find_by_path t route.path_base)) [
  | inl f ↦ absurd (ground arith)
  | inr (s, f) ↦ (s, f, ground (arith, eq_iff s.route_id route.route_id), ground arith)
]

owner_of :
    (t : RadixTree) (route : Route) (t' : RadixTree) (r : Route)
    → insert_with_validation t route ≡ ok t'
    → find_by_path t route.path_base ≡ some r
    → r.route_id ≡ route.route_id
unfolding insert_with_validation
owner_of t route t' r h g = ground (arith, eq_iff r.route_id route.route_id)

-- Where `InsertWithValidation` succeeds, it does what `Insert` does, and no route of another ID
-- was at
-- the path.
pub insert_with_validation-ok :
    (t : RadixTree) (route : Route) (t' : RadixTree)
    → insert_with_validation t route ≡ ok t'
    → (t' ≡ insert t route) × (without_id route.route_id (find_by_path t route.path_base) ≡ none)
insert_with_validation-ok t route t' h = elim (Option-cases (find_by_path t route.path_base)) [
  | inl f ↦ (unfold insert_with_validation in ground arith, ground arith)
  | inr (s, f) ↦ (
    unfold insert_with_validation in ground arith,
    ground (arith, owner_of t route t' s h f, eq_iff s.route_id route.route_id),
  )
]
