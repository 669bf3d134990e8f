-- ===== src/Router/Radix/Removal.antt =====
-- `Delete` against a map from paths to routes, and what a tree keeps through it.
use mathlib.Core.Path.{subst}
use nekzus.Prelude.{
  ℕ, ◌≡◌, ◌↔◌, refl, sym, ◌∙◌, Bool, true, false, Option, none, some, arith, inl, inr, String,
  Bool-cases, if◌then◌else◌, eq_iff, ◌==◌,
}
use nekzus.Prelude.Bytes.{Bytes, beq, beq_iff}
use nekzus.Router.Route.{Route}
use nekzus.Router.Radix.{
  Node, node, RadixTree, children_of, has_id, delete_node, find_by_id, find_by_id_node,
  find_by_path, find_by_path_node, after_delete, delete,
}
use nekzus.Router.Radix.Shape.{IsTree}
use nekzus.Router.Radix.Count.{count_node}
use nekzus.Router.Radix.Found.{Holds, own_route}
use nekzus.Router.Radix.Root.{
  Removed, NodeOutcome, node_outcome, find_node-Holds, find_node_complete,
}

-- What the methods keep: the shape, the counter, every route at its own path, and no ID at two paths.
pub record IsValid (t : RadixTree) : Type 0 where
  pub shape : IsTree (children_of t.root)
  pub sized : t.size ≡ count_node t.root
  pub labelled : (p : Bytes) (r : Route) → find_by_path t p ≡ some r → r.path_base ≡ p
  pub unique :
      (p q : Bytes) (r s : Route)
      → find_by_path t p ≡ some r
      → find_by_path t q ≡ some s
      → r.route_id ≡ s.route_id
      → p ≡ q

pub outcome_of :
    (n : Node) (id : String) (size : ℕ)
    → IsTree (children_of n)
    → NodeOutcome n id size (delete_node n id size)
outcome_of (node pre old cs) id size t = node_outcome pre old cs id size t

pub found_by_id :
    (n : Node) (id : String) {r : Route}
    → IsTree (children_of n)
    → find_by_id_node n id ≡ some r
    → Holds (find_by_path_node n) id r
found_by_id (node pre old cs) id t h = find_node-Holds pre old cs id 0 t h

-- What a map reads once the routes with an ID are gone.
abbrev pub without_id : String → Option Route → Option Route
without_id id none = none
without_id id (some r) = if r.route_id == id then none else some r

-- A valid tree that reads as another one does, up to a route that is gone.
pub record Cleared (t t' : RadixTree) (route : Route) : Type 0 where
  pub valid : IsValid t'
  pub reads :
      (q : Bytes)
      → beq route.path_base q ≡ false
      → find_by_path t' q ≡ without_id route.route_id (find_by_path t q)

kept_some :
    (b : Bool) (o o' : Option Route) {r : Route}
    → o' ≡ (if b then none else o)
    → o' ≡ some r
    → o ≡ some r
kept_some b o o' h k = ground arith

Removed-IsValid :
    (t : RadixTree) (n' : Node) (id : String) (size' : ℕ)
    → IsValid t
    → Removed t.root n' id t.size size'
    → IsValid (record { root = n'; size = size' })
Removed-IsValid t n' id size' v d = record {
  shape = d.shape;
  sized = omega (arith, v.sized, d.counts, d.counted);
  labelled = λ p r h. v.labelled p r (kept p h);
  unique = λ p q r s h k e. v.unique p q r s (kept p h) (kept q k) e;
}
  where
    kept : (p : Bytes) {r : Route} → find_by_path_node n' p ≡ some r → find_by_path t p ≡ some r
    kept p h = kept_some (beq d.at p) (find_by_path t p) (find_by_path_node n' p) (d.after p) h

pub reads_without :
    (b : Bool) (o o' : Option Route) (id : String)
    → o' ≡ (if b then none else o)
    → (b ≡ true → has_id o id ≡ true)
    → (has_id o id ≡ true → b ≡ true)
    → o' ≡ without_id id o
reads_without b o o' id h f g = ground arith

-- What is left reads as the map without the ID.
Removed-reads :
    (t : RadixTree) (n' : Node) (id : String) (size' : ℕ) (q : Bytes)
    → IsValid t
    → Removed t.root n' id t.size size'
    → find_by_path_node n' q ≡ without_id id (find_by_path t q)
Removed-reads t n' id size' q v d =
    reads_without (beq d.at q) (find_by_path t q) (find_by_path_node n' q) id (d.after q) there only
  where
    there : beq d.at q ≡ true → has_id (find_by_path t q) id ≡ true
    there e =
        subst (λ p. has_id (find_by_path t p) id ≡ true) ((beq_iff d.at q).0 e)
          (rw d.stored ((eq_iff d.route.route_id id).1 d.named))

    only : has_id (find_by_path t q) id ≡ true → beq d.at q ≡ true
    only e =
        let (r, f, n) = own_route (find_by_path t q) id e in
        (beq_iff d.at q).1 (v.unique d.at q d.route r d.stored f (d.named ∙ sym n))

pub untouched :
    (t : RadixTree) (id : String) (q : Bytes)
    → find_by_id t id ≡ none
    → find_by_path t q ≡ without_id id (find_by_path t q)
untouched t id q h = elim (Bool-cases (has_id (find_by_path t q) id)) [
  | inl e ↦
      let (r, f, n) = own_route (find_by_path t q) id e in
      absurd (find_node_complete t.root q id f n h)
  | inr e ↦ reads_without false (find_by_path t q) (find_by_path t q) id refl (λ c. cc) (λ c. cc)
]

-- What is left of the tree by a call of `deleteByID`.
pub after_delete_lem :
    (t : RadixTree) (id : String) (o : Option (Node × ℕ))
    → IsValid t
    → NodeOutcome t.root id t.size o
    → IsValid (after_delete t o)
      × ((q : Bytes) → find_by_path (after_delete t o) q ≡ without_id id (find_by_path t q))
after_delete_lem t id none v h = (v, λ q. untouched t id q h)
after_delete_lem t id (some (n', size')) v d =
    (Removed-IsValid t n' id size' v d, λ q. Removed-reads t n' id size' q v d)

found_flag :
    (t : RadixTree) (id : String) (o : Option (Node × ℕ))
    → NodeOutcome t.root id t.size o
    → ((elim o [ none ↦ false | some _ ↦ true ]) ≡ false) ↔ (find_by_id t id ≡ none)
found_flag t id none h = (λ e. h, λ e. refl)
found_flag t id (some (n', size')) d =
    (λ e. cc, λ n. absurd (find_node_complete t.root d.at id d.stored d.named n))

-- A valid tree is valid after `Delete` of an ID; every path then reads what it read before, or
-- nothing
-- if that was a route with the ID; and `Delete` answers false exactly where `FindByID` finds no
-- route.
pub delete-without_id :
    (t : RadixTree) (id : String)
    → IsValid t
    → IsValid (delete t id).0
      × ((q : Bytes) → find_by_path (delete t id).0 q ≡ without_id id (find_by_path t q))
      × (((delete t id).1 ≡ false) ↔ (find_by_id t id ≡ none))
unfolding delete
delete-without_id t id v =
    let o = outcome_of t.root id t.size v.shape in
    let (w, r) = after_delete_lem t id (delete_node t.root id t.size) v o in
    (w, r, found_flag t id (delete_node t.root id t.size) o)
