-- ===== src/Router/Radix/Found.antt =====
-- What `findByID` finds in a tree.
use nekzus.Prelude.{
  ℕ, ◌≡◌, ◌≢◌, refl, true, Option, none, some, [], ◌∷◌, ◌++◌, arith, inl, inr, ◌⊎◌, String,
  Option-cases, Bool-cases, eq_iff,
}
use nekzus.Prelude.Bytes.{Bytes, beq, beq_iff, cut_prefix}
use nekzus.Router.Route.{Route}
use nekzus.Router.Radix.{node, Nodes, nil, cons, has_id, find_by_id_nodes, find_by_path_nodes}
use nekzus.Router.Radix.Shape.{Absent, IsTree}
use nekzus.Router.Radix.Lookup.{inside, find_in, find_nodes-cons, find_nodes-Absent}
use nekzus.Router.Radix.Longest.{find_nodes-nil, find_in-behind}

-- A route with the ID is stored at the path.
pub record Holds (get : Bytes → Option Route) (id : String) (route : Route) : Type 0 where
  pub at : Bytes
  pub stored : get at ≡ some route
  pub named : route.route_id ≡ id

-- What is stored below a child's siblings is not found in the child.
pub not_in_child :
    (c : ℕ) (pre : Bytes) (old : Option Route) (cs rest : Nodes) (q : Bytes) {r : Route}
    → Absent c rest
    → IsTree rest
    → find_by_path_nodes rest q ≡ some r
    → find_in (node (c ∷ pre) old cs) q ≡ none
unfolding find_in
not_in_child c pre old cs rest [] h t f = refl
not_in_child c pre old cs rest (b ∷ q) h t f = elim (Bool-cases (beq (c ∷ []) (b ∷ []))) [
  | inl e ↦ absurd (cc (f, find_nodes-Absent c rest q h t, (beq_iff (c ∷ []) (b ∷ [])).0 e))
  | inr e ↦ unfold beq in ground arith
]

pub later_stored :
    (c : ℕ) (pre : Bytes) (old : Option Route) (cs rest : Nodes) (at : Bytes) {r : Route}
    → Absent c rest
    → IsTree rest
    → find_by_path_nodes rest at ≡ some r
    → find_by_path_nodes (cons (node (c ∷ pre) old cs) rest) at ≡ some r
later_stored c pre old cs rest at h t f = ground (
  arith,
  find_nodes-cons (node (c ∷ pre) old cs) rest at,
  not_in_child c pre old cs rest at h t f,
)

pub child_stored :
    (c : ℕ) (pre : Bytes) (old : Option Route) (cs rest : Nodes) (at : Bytes) {r : Route}
    → inside old cs at ≡ some r
    → find_by_path_nodes (cons (node (c ∷ pre) old cs) rest) ((c ∷ pre) ++ at) ≡ some r
child_stored c pre old cs rest at f = ground (
  arith,
  find_nodes-cons (node (c ∷ pre) old cs) rest ((c ∷ pre) ++ at),
  find_in-behind (c ∷ pre) old cs at,
)

pub below_stored :
    (old : Option Route) (cs : Nodes) (at : Bytes) {r : Route}
    → IsTree cs
    → find_by_path_nodes cs at ≡ some r
    → inside old cs at ≡ some r
unfolding inside
below_stored old cs [] t f = absurd (cc (find_nodes-nil cs t))
below_stored old cs (a ∷ at) t f = f

pub own_route :
    (old : Option Route) (id : String)
    → has_id old id ≡ true
    → (r : Route) × (old ≡ some r) × (r.route_id ≡ id)
own_route none id h = absurd (cc)
own_route (some r) id h = (r, refl, (eq_iff r.route_id id).0 h)

-- findByID returns a stored route with the ID.
pub find_by_id-Holds :
    (cs : Nodes) (id : String) {r : Route}
    → IsTree cs
    → find_by_id_nodes cs id ≡ some r
    → Holds (find_by_path_nodes cs) id r
unfolding find_by_id_nodes
find_by_id-Holds nil id t h = absurd cc
find_by_id-Holds (cons (node [] old cs) rest) id t h = elim t [ ]
find_by_id-Holds (cons (node (c ∷ pre) old cs) rest) id {r} t h =
    elim (Bool-cases (has_id old id)) [
      | inl e ↦
          let o : old ≡ some r = ground arith in
          record {
            at = (c ∷ pre) ++ [];
            stored = child_stored c pre old cs rest [] (unfold inside in o);
            named = ground (arith, eq_iff r.route_id id);
          }
      | inr e ↦ elim (Option-cases (find_by_id_nodes cs id)) [
        | inr (s, f) ↦
            let m : Holds (find_by_path_nodes cs) id r =
              find_by_id-Holds cs id t.1 (ground arith) in
            record {
              at = (c ∷ pre) ++ m.at;
              stored = child_stored c pre old cs rest m.at (below_stored old cs m.at t.1 m.stored);
              named = m.named;
            }
        | inl f ↦
            let m : Holds (find_by_path_nodes rest) id r =
              find_by_id-Holds rest id t.2 (ground arith) in
            record {
              at = m.at;
              stored = later_stored c pre old cs rest m.at t.0 t.2 m.stored;
              named = m.named;
            }
      ]
    ]

pub inside_id :
    (old : Option Route) (cs : Nodes) (p : Bytes) (id : String) {r : Route}
    → inside old cs p ≡ some r
    → r.route_id ≡ id
    → (find_by_path_nodes cs p ≡ some r → find_by_id_nodes cs id ≢ none)
    → (has_id old id ≡ true) ⊎ (find_by_id_nodes cs id ≢ none)
unfolding inside
inside_id old cs [] id {r} h n g = inl (ground (arith, eq_iff r.route_id id))
inside_id old cs (a ∷ p) id h n g = inr (g h)

find_in_id :
    (pre : Bytes) (old : Option Route) (cs : Nodes) (p : Bytes) (id : String) {r : Route}
    → find_in (node pre old cs) p ≡ some r
    → r.route_id ≡ id
    → ((s : Bytes) → find_by_path_nodes cs s ≡ some r → find_by_id_nodes cs id ≢ none)
    → (has_id old id ≡ true) ⊎ (find_by_id_nodes cs id ≢ none)
find_in_id pre old cs p id {r} h n g = elim (Option-cases (cut_prefix pre p)) [
  | inl e ↦ absurd (unfold find_in in ground arith)
  | inr (s, e) ↦ inside_id old cs s id {r = r} (unfold find_in in ground arith) n (g s)
]

id_among :
    (pre : Bytes) (old : Option Route) (cs rest : Nodes) (id : String)
    → ((has_id old id ≡ true) ⊎ (find_by_id_nodes cs id ≢ none)) ⊎ (find_by_id_nodes rest id ≢ none)
    → find_by_id_nodes (cons (node pre old cs) rest) id ≢ none
unfolding find_by_id_nodes
id_among pre old cs rest id h = ground arith

-- `findByID` finds a route if one with the ID is stored.
pub find_by_id_complete :
    (cs : Nodes) (p : Bytes) (id : String) {r : Route}
    → find_by_path_nodes cs p ≡ some r
    → r.route_id ≡ id
    → find_by_id_nodes cs id ≢ none
find_by_id_complete nil p id h n = absurd (unfold find_by_path_nodes in cc)
find_by_id_complete (cons (node pre old cs) rest) p id {r} h n =
    id_among pre old cs rest id (elim (Option-cases (find_in (node pre old cs) p)) [
      | inl e ↦ inr (
          find_by_id_complete rest p id {r = r}
            (ground (arith, find_nodes-cons (node pre old cs) rest p)) n)
      | inr (s, e) ↦ inl (
          find_in_id pre old cs p id {r = r}
            (ground (arith, find_nodes-cons (node pre old cs) rest p)) n
            (λ q f. find_by_id_complete cs q id {r = r} f n))
    ])
