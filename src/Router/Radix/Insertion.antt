-- ===== src/Router/Radix/Insertion.antt =====
-- `Insert` against a map from paths to routes.
use mathlib.Core.Bool.{false≢true}
use nekzus.Prelude.{
  ℕ, ◌+◌, ◌≡◌, ◌≢◌, refl, sym, ap, ◌∙◌, true, false, Option, none, some, [], ◌∷◌, arith, inl, inr,
  String, Option-cases, Bool-cases, if◌then◌else◌, eq_iff,
}
use nekzus.Prelude.Bytes.{Bytes, beq, beq_iff}
use nekzus.Router.Route.{Route}
use nekzus.Router.Radix.{
  Node, node, RadixTree, children_of, has_id, delete_node, find_by_id, find_by_path,
  find_by_path_node, insert_node, delete_old_path, after_delete, insert,
}
use nekzus.Router.Radix.Shape.{IsTree}
use nekzus.Router.Radix.Lookup.{find_by_path-insert_node}
use nekzus.Router.Radix.Invariant.{insert_nodes-IsTree}
use nekzus.Router.Radix.Count.{count_node, count-insert_nodes}
use nekzus.Router.Radix.Found.{Holds, own_route}
use nekzus.Router.Radix.Removal.{
  Cleared, IsValid, after_delete_lem, found_by_id, outcome_of, reads_without, untouched, without_id,
}

same_path :
    (t : RadixTree) (route : Route) (e : Route)
    → IsValid t
    → find_by_id t route.route_id ≡ some e
    → beq e.path_base route.path_base ≡ true
    → Cleared t t route
same_path t route e v f b = record {
  valid = v;
  reads = λ q n.
      reads_without false (find_by_path t q) (find_by_path t q) route.route_id refl (λ c. cc)
        (λ h. absurd (clash q n h));
}
  where
    m : Holds (find_by_path_node t.root) route.route_id e
    m = found_by_id t.root route.route_id v.shape f

    clash :
        (q : Bytes)
        → beq route.path_base q ≡ false
        → has_id (find_by_path t q) route.route_id ≡ true
        → ⊥
    clash q n h =
        let (r, g, k) = own_route (find_by_path t q) route.route_id h in
        let at : m.at ≡ q = v.unique m.at q e r m.stored g (m.named ∙ sym k) in
        let lab : e.path_base ≡ m.at = v.labelled m.at e m.stored in
        let same : e.path_base ≡ route.path_base = (beq_iff e.path_base route.path_base).0 b in
        false≢true (sym n ∙ (beq_iff route.path_base q).1 (sym same ∙ lab ∙ at))

module _ (t : RadixTree) (route : Route) where
  old_absent : find_by_id t route.route_id ≡ none → delete_old_path t route ≡ t
  unfolding delete_old_path
  old_absent f = ground arith

  old_kept :
      (e : Route)
      → find_by_id t route.route_id ≡ some e
      → beq e.path_base route.path_base ≡ true
      → delete_old_path t route ≡ t
  unfolding delete_old_path
  old_kept e f b = ground arith

  old_deleted :
      (e : Route)
      → find_by_id t route.route_id ≡ some e
      → beq e.path_base route.path_base ≡ false
      → delete_old_path t route ≡ after_delete t (delete_node t.root route.route_id t.size)
  unfolding delete_old_path
  old_deleted e f b = rw (f, b, delete_old_path)

  Cleared-old : IsValid t → Cleared t (delete_old_path t route) route
  Cleared-old v = elim (Option-cases (find_by_id t route.route_id)) [
    | inl f ↦
        rw (old_absent f) (record { valid = v; reads = λ q n. untouched t route.route_id q f })
    | inr (e, f) ↦ elim (Bool-cases (beq e.path_base route.path_base)) [
      | inl b ↦ rw (old_kept e f b) (same_path t route e v f b)
      | inr b ↦
          let (w, r) =
            after_delete_lem t route.route_id (delete_node t.root route.route_id t.size) v
              (outcome_of t.root route.route_id t.size v.shape) in
          rw (old_deleted e f b) (record { valid = w; reads = λ q n. r q })
    ]
  ]

-- `insert` at the root of a tree.
record Inserted (n : Node) (path : Bytes) (route : Route) (size : ℕ) (r : Node × ℕ) : Type 0 where
  shape : IsTree (children_of r.0)
  counts : r.1 + count_node n ≡ size + count_node r.0
  reads :
      (q : Bytes)
      → find_by_path_node r.0 q ≡ (if beq path q then some route else find_by_path_node n q)

Inserted-root :
    (n : Node) (path : Bytes) (route : Route) (size : ℕ)
    → IsTree (children_of n)
    → Inserted n path route size (insert_node n path route size)
Inserted-root (node pre old cs) [] route size t = record {
  shape = unfold insert_node in t;
  counts = unfold insert_node in ground arith;
  reads = λ q. find_by_path-insert_node pre old cs [] route size q t;
}
Inserted-root (node pre old cs) (a ∷ p) route size t = record {
  shape = unfold insert_node in insert_nodes-IsTree cs a p route size t;
  counts = unfold insert_node in omega (arith, count-insert_nodes cs a p route size t);
  reads = λ q. find_by_path-insert_node pre old cs (a ∷ p) route size q t;
}

insert_clash :
    (id : String) (o o' : Option Route) {s : Route}
    → o' ≡ without_id id o
    → o' ≡ some s
    → s.route_id ≢ id
insert_clash id o o' {s} h k e = ground (arith, eq_iff s.route_id id)

module _ (t : RadixTree) (route : Route) (v : IsValid t) where
  cleared : Cleared t (delete_old_path t route) route
  cleared = Cleared-old t route v

  root_of :
      Inserted (delete_old_path t route).root route.path_base route (delete_old_path t route).size (
        insert_node
          (delete_old_path t route).root
          route.path_base
          route
          (delete_old_path t route).size)
  root_of =
      Inserted-root (delete_old_path t route).root route.path_base route
        (delete_old_path t route).size cleared.valid.shape

  elsewhere :
      (q : Bytes) {s : Route}
      → beq route.path_base q ≡ false
      → find_by_path (insert t route) q ≡ some s
      → find_by_path (delete_old_path t route) q ≡ some s
  unfolding insert
  elsewhere q {s} n h = ground (arith, root_of.reads q)

  -- In a valid tree, after `Insert` of a route, its path reads that route, and any other path
  -- reads what
  -- it read before, or nothing if that was a route with the same ID.
  pub find_by_path-insert :
      (q : Bytes)
      → find_by_path (insert t route) q ≡ (
          if beq route.path_base q
          then some route
          else without_id route.route_id (find_by_path t q))
  unfolding insert
  find_by_path-insert q = ground (arith, root_of.reads q, cleared.reads q)

  at_path :
      (q : Bytes) {s : Route}
      → beq route.path_base q ≡ true
      → find_by_path (insert t route) q ≡ some s
      → s ≡ route
  at_path q b h = ground (arith, find_by_path-insert q)

  no_clash :
      (q : Bytes) {s : Route}
      → beq route.path_base q ≡ false
      → find_by_path (insert t route) q ≡ some s
      → s.route_id ≢ route.route_id
  no_clash q {s} b h =
      insert_clash route.route_id (find_by_path t q) (find_by_path (insert t route) q) {s = s}
        (ground (arith, find_by_path-insert q)) h

  labelled_insert :
      (p : Bytes) (r : Route) → find_by_path (insert t route) p ≡ some r → r.path_base ≡ p
  labelled_insert p r h = elim (Bool-cases (beq route.path_base p)) [
    | inl b ↦ rw (at_path p b h) ((beq_iff route.path_base p).0 b)
    | inr b ↦ cleared.valid.labelled p r (elsewhere p b h)
  ]

  unique_insert :
      (p q : Bytes) (r s : Route)
      → find_by_path (insert t route) p ≡ some r
      → find_by_path (insert t route) q ≡ some s
      → r.route_id ≡ s.route_id
      → p ≡ q
  unique_insert p q r s h k e = elim (Bool-cases (beq route.path_base p)) [
    | inl b ↦ elim (Bool-cases (beq route.path_base q)) [
      | inl c ↦ sym ((beq_iff route.path_base p).0 b) ∙ (beq_iff route.path_base q).0 c
      | inr c ↦ absurd (no_clash q c k (sym e ∙ ap (λ (x : Route). x.route_id) (at_path p b h)))
    ]
    | inr b ↦ elim (Bool-cases (beq route.path_base q)) [
      | inl c ↦ absurd (no_clash p b h (e ∙ ap (λ (x : Route). x.route_id) (at_path q c k)))
      | inr c ↦ cleared.valid.unique p q r s (elsewhere p b h) (elsewhere q c k) e
    ]
  ]

  insert-shape : IsTree (children_of (insert t route).root)
  unfolding insert
  insert-shape = root_of.shape

  insert-sized : (insert t route).size ≡ count_node (insert t route).root
  unfolding insert
  insert-sized = omega (arith, root_of.counts, cleared.valid.sized)

  -- A valid tree is valid after `Insert` of any route.
  pub insert-IsValid : IsValid (insert t route)
  insert-IsValid = record {
    shape = insert-shape;
    sized = insert-sized;
    labelled = labelled_insert;
    unique = unique_insert;
  }
