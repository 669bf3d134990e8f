-- ===== src/Router/Radix/Root.antt =====
-- `deleteByID` and `findByID` at the root of a tree, whose own path may be empty.
use mathlib.Core.Path.{subst}
use nekzus.Prelude.{
  ℕ, ◌+◌, ◌-◌, ◌≡◌, ◌≢◌, refl, sym, ◌∙◌, true, false, Option, none, some, [], arith, inl, inr, ◌⊎◌,
  String, Option-cases, Bool-cases, if◌then◌else◌, eq_iff,
}
use nekzus.Prelude.Bytes.{Bytes, beq}
use nekzus.Router.Route.{Route}
use nekzus.Router.Radix.{
  Node, node, Nodes, children_of, has_id, delete_node, delete_nodes, find_by_id_node,
  find_by_id_nodes, find_by_path_node, find_by_path_nodes,
}
use nekzus.Router.Radix.Shape.{IsTree}
use nekzus.Router.Radix.Lookup.{inside, find_node-inside}
use nekzus.Router.Radix.Count.{count_node}
use nekzus.Router.Radix.Found.{
  Holds, find_by_id-Holds, own_route, below_stored, inside_id, find_by_id_complete,
}
use nekzus.Router.Radix.Deletion.{
  Deleted, Outcome, delete_nodes-Outcome, own_inside, below_after, stored_ne,
}

-- The second node is the first without the route of one path.
pub record Removed (n n' : Node) (id : String) (size size' : ℕ) : Type 0 where
  pub route : Route
  pub at : Bytes
  pub stored : find_by_path_node n at ≡ some route
  pub named : route.route_id ≡ id
  pub after :
      (q : Bytes) → find_by_path_node n' q ≡ (if beq at q then none else find_by_path_node n q)
  pub shape : IsTree (children_of n')
  pub counts : count_node n ≡ count_node n' + 1
  pub counted : size' ≡ size - 1

abbrev pub NodeOutcome : Node → String → ℕ → Option (Node × ℕ) → Type 0
NodeOutcome n id size none = find_by_id_node n id ≡ none
NodeOutcome n id size (some (n', size')) = Removed n n' id size size'

module _ (pre : Bytes) (old : Option Route) (cs : Nodes) (id : String) (size : ℕ)
    (t : IsTree cs) where
  own-Removed :
      has_id old id ≡ true → Removed (node pre old cs) (node pre none cs) id size (size - 1)
  own-Removed e =
      let (r, o, n) = own_route old id e in
      record {
        route = r;
        at = [];
        stored = find_node-inside pre old cs [] ∙ (unfold inside in o);
        named = n;
        after = λ q.
            rw (find_node-inside pre none cs q, find_node-inside pre old cs q)
              (own_inside old cs q);
        shape = t;
        counts = ground arith;
        counted = refl;
      }

  below-Removed :
      (cs' : Nodes) (size' : ℕ)
      → Deleted cs cs' id size size'
      → Removed (node pre old cs) (node pre old cs') id size size'
  below-Removed cs' size' d = record {
    route = d.route;
    at = d.at;
    stored = find_node-inside pre old cs d.at ∙ below_stored old cs d.at t d.stored;
    named = d.named;
    after = λ q.
        rw (find_node-inside pre old cs' q, find_node-inside pre old cs q)
          (below_after old cs cs' d.at q (stored_ne cs d.at t d.stored) d.after);
    shape = d.shape;
    counts = omega (arith, d.counts);
    counted = d.counted;
  }

  node_cases :
      (P : Option (Node × ℕ) → Type 0)
      → (has_id old id ≡ true → P (some (node pre none cs, size - 1)))
      → ((cs' : Nodes) (size' : ℕ)
          → delete_nodes cs id size ≡ some (cs', size')
          → P (some (node pre old cs', size')))
      → (has_id old id ≡ false → delete_nodes cs id size ≡ none → P none)
      → P (delete_node (node pre old cs) id size)
  unfolding delete_node
  node_cases P own below absent = elim (Bool-cases (has_id old id)) [
    | inl e ↦ subst P (ground arith) (own e)
    | inr e ↦ elim (Option-cases (delete_nodes cs id size)) [
      | inr ((cs', size'), f) ↦ subst P (ground arith) (below cs' size' f)
      | inl f ↦ subst P (ground arith) (absent e f)
    ]
  ]

  not_found :
      has_id old id ≡ false
      → find_by_id_nodes cs id ≡ none
      → find_by_id_node (node pre old cs) id ≡ none
  unfolding find_by_id_node
  not_found e f = ground arith

  pub node_outcome : NodeOutcome (node pre old cs) id size (delete_node (node pre old cs) id size)
  node_outcome =
      node_cases (NodeOutcome (node pre old cs) id size) own-Removed
        (λ cs' size' f.
          below-Removed cs' size'
            (subst (Outcome cs id size) f (delete_nodes-Outcome cs id size t)))
        (λ e f. not_found e (subst (Outcome cs id size) f (delete_nodes-Outcome cs id size t)))

  pub find_node-Holds :
      {r : Route}
      → find_by_id_node (node pre old cs) id ≡ some r
      → Holds (find_by_path_node (node pre old cs)) id r
  unfolding find_by_id_node
  find_node-Holds {r} h = elim (Bool-cases (has_id old id)) [
    | inl e ↦
        let o : old ≡ some r = ground arith in
        record {
          at = [];
          stored = find_node-inside pre old cs [] ∙ (unfold inside in o);
          named = ground (arith, eq_iff r.route_id id);
        }
    | inr e ↦
        let m : Holds (find_by_path_nodes cs) id r = find_by_id-Holds cs id t (ground arith) in
        record {
          at = m.at;
          stored = find_node-inside pre old cs m.at ∙ below_stored old cs m.at t m.stored;
          named = m.named;
        }
  ]

pub find_node_complete :
    (n : Node) (p : Bytes) (id : String) {r : Route}
    → find_by_path_node n p ≡ some r
    → r.route_id ≡ id
    → find_by_id_node n id ≢ none
find_node_complete (node pre old cs) p id {r} h e = among (
    inside_id old cs p id {r = r} (sym (find_node-inside pre old cs p) ∙ h) e
      (λ f. find_by_id_complete cs p id {r = r} f e))
  where
    among :
        (has_id old id ≡ true) ⊎ (find_by_id_nodes cs id ≢ none)
        → find_by_id_node (node pre old cs) id ≢ none
    among k = unfold find_by_id_node in ground arith
