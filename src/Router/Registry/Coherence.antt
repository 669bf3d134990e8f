-- ===== src/Router/Registry/Coherence.antt =====
-- The radix tree stays valid and within the map of the routes.
use nekzus.Prelude.{◌≡◌, sym, ◌∙◌, String, Bool, Option, some, if◌then◌else◌, arith, eq_iff}
use nekzus.Prelude.Bytes.{Bytes, beq}
use nekzus.Prelude.Dict.{Dict, lookup, put, delete, lookup-put, lookup-delete}
use nekzus.Router.Route.{Route}
use nekzus.Router.Radix
use nekzus.Router.Radix.{RadixTree, find_by_path}
use nekzus.Router.Radix.Removal.{IsValid, delete-without_id, without_id}
use nekzus.Router.Radix.Insertion.{insert-IsValid, find_by_path-insert}
use nekzus.Router.Registry.{Registry}

-- The tree is valid, a route stands under its own ID, and the tree holds only routes of the map.
pub record IsCoherent (routes : Dict Route) (tree : RadixTree) : Type 0 where
  pub valid : IsValid tree
  pub keyed : (k : String) (rt : Route) → lookup routes k ≡ some rt → rt.route_id ≡ k
  pub indexed :
      (p : Bytes) (rt : Route) → find_by_path tree p ≡ some rt → lookup routes rt.route_id ≡ some rt

put_indexed :
    (routes : Dict Route) (rt r : Route) (b : Bool) (o : Option Route)
    → (o ≡ some r → lookup routes r.route_id ≡ some r)
    → (if b then some rt else without_id rt.route_id o) ≡ some r
    → lookup (put routes rt.route_id rt) r.route_id ≡ some r
put_indexed routes rt r b o h e = ground (
  arith,
  lookup-put routes rt.route_id rt r.route_id,
  eq_iff r.route_id rt.route_id,
  eq_iff rt.route_id r.route_id,
)

pub put-IsCoherent :
    (routes : Dict Route) (tree : RadixTree) (rt : Route)
    → IsCoherent routes tree
    → IsCoherent (put routes rt.route_id rt) (Radix.insert tree rt)
put-IsCoherent routes tree rt c = record {
  valid = insert-IsValid tree rt c.valid;
  keyed = λ k r h.
      ground (arith, lookup-put routes rt.route_id rt k, eq_iff rt.route_id k, c.keyed k r);
  indexed = λ p r h.
      put_indexed routes rt r (beq rt.path_base p) (find_by_path tree p) (c.indexed p r)
        (sym (find_by_path-insert tree rt c.valid p) ∙ h);
}

delete_indexed :
    (routes : Dict Route) (id : String) (r : Route) (o : Option Route)
    → (o ≡ some r → lookup routes r.route_id ≡ some r)
    → without_id id o ≡ some r
    → lookup (delete routes id) r.route_id ≡ some r
delete_indexed routes id r o h e =
    ground (arith, lookup-delete routes id r.route_id, eq_iff r.route_id id, eq_iff id r.route_id)

pub delete-IsCoherent :
    (routes : Dict Route) (tree : RadixTree) (id : String)
    → IsCoherent routes tree
    → IsCoherent (delete routes id) (Radix.delete tree id).0
delete-IsCoherent routes tree id c =
    let (v, reads, _) = delete-without_id tree id c.valid in
    record {
      valid = v;
      keyed = λ k r h. c.keyed k r (ground (arith, lookup-delete routes id k));
      indexed = λ p r h.
          delete_indexed routes id r (find_by_path tree p) (c.indexed p r) (sym (reads p) ∙ h);
    }

abbrev pub Coherent : Registry → Type 0
Coherent r = IsCoherent r.routes r.radix_index
