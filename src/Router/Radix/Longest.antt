-- ===== src/Router/Radix/Longest.antt =====
-- `Search` finds the longest of the stored routes that match a path.
use native.Mathlib.Decide.{ℕ_discrete}
use mathlib.Core.List.{append_assoc}
use nekzus.Prelude.{
  ℕ, ◌≡◌, ◌≢◌, refl, sym, ap, ◌∙◌, Option, none, some, [], ◌∷◌, ◌++◌, arith, inl, inr, ◌⊎◌,
  Option-cases,
}
use nekzus.Prelude.Bytes.{Bytes, cut_prefix, cut_prefix_sound, cut_prefix-append}
use nekzus.Router.Route.{Route}
use nekzus.Router.Radix.{
  Node, node, Nodes, nil, cons, prefix_of, matches_here, better, search_node, search_nodes,
  find_by_path_nodes,
}
use nekzus.Router.Radix.Shape.{Absent, IsTree}
use nekzus.Router.Radix.Lookup.{inside, find_in, find_nodes-cons}

-- The route is stored at a prefix of the path, and matches what follows.
pub record Matches (get : Bytes → Option Route) (path : Bytes) (route : Route) : Type 0 where
  pub at : Bytes
  pub rest : Bytes
  pub splits : path ≡ at ++ rest
  pub stored : get at ≡ some route
  pub boundary : matches_here (some route) rest ≡ some route

unfoldable pub search_in : Node → Bytes → Option Route
unfolding cut_prefix search_node
search_in child path = elim (cut_prefix (prefix_of child) path) [
  | none ↦ none
  | some remainder ↦ search_node child remainder
]

pub search_nodes-cons :
    (n : Node) (rest : Nodes) (q : Bytes) (best : Option Route)
    → search_nodes (cons n rest) q best ≡ search_nodes rest q (better best (search_in n q))
unfolding search_nodes search_in
search_nodes-cons n rest q best = refl

search_in-other :
    (b c : ℕ) (pre : Bytes) (old : Option Route) (cs : Nodes) (q : Bytes)
    → b ≢ c
    → search_in (node (c ∷ pre) old cs) (b ∷ q) ≡ none
unfolding search_in
search_in-other b c pre old cs q d = ground arith

search_nodes-Absent :
    (b : ℕ) (cs : Nodes) (q : Bytes) (best : Option Route)
    → IsTree cs
    → Absent b cs
    → search_nodes cs (b ∷ q) best ≡ best
search_nodes-Absent b nil q best t h = unfold search_nodes in refl
search_nodes-Absent b (cons (node [] old cs) rest) q best t h = elim t [ ]
search_nodes-Absent b (cons (node (c ∷ pre) old cs) rest) q best t h =
    rw
      (
        search_nodes-cons (node (c ∷ pre) old cs) rest (b ∷ q) best,
        search_in-other b c pre old cs q h.0,
      )
      (search_nodes-Absent b rest q best t.2 h.1)

pub find_nodes-nil : (cs : Nodes) → IsTree cs → find_by_path_nodes cs [] ≡ none
unfolding find_by_path_nodes
find_nodes-nil nil t = refl
find_nodes-nil (cons (node [] old cs) rest) t = elim t [ ]
find_nodes-nil (cons (node (c ∷ pre) old cs) rest) t = find_nodes-nil rest t.2

better_cases :
    (best found : Option Route) {r : Route}
    → better best found ≡ some r
    → (best ≡ some r) ⊎ (found ≡ some r)
better_cases best found h = ground arith

matches_here_is :
    (old : Option Route) (q : Bytes) {r : Route}
    → matches_here old q ≡ some r
    → (old ≡ some r) × (matches_here (some r) q ≡ some r)
unfolding matches_here
matches_here_is none q h = cc
matches_here_is (some s) [] h = ground arith
matches_here_is (some s) (a ∷ q) h = ground arith

-- A match below a node is one in it.
below_inside :
    (old : Option Route) (cs : Nodes) (at rest q : Bytes) {r : Route}
    → IsTree cs
    → q ≡ at ++ rest
    → find_by_path_nodes cs at ≡ some r
    → matches_here (some r) rest ≡ some r
    → Matches (inside old cs) q r
unfolding inside
below_inside old cs [] rest q t s f b = absurd (cc (find_nodes-nil cs t))
below_inside old cs (a ∷ at) rest q t s f b = record {
  at = a ∷ at;
  rest = rest;
  splits = s;
  stored = f;
  boundary = b;
}

-- In a node: the match is its own route, or lies below.
pub node_sound :
    (pre : Bytes) (old : Option Route) (cs : Nodes) (q : Bytes) {r : Route}
    → IsTree cs
    → ((a : ℕ) (p : Bytes) (best : Option Route)
        → search_nodes cs (a ∷ p) best ≡ some r
        → (best ≡ some r) ⊎ Matches (find_by_path_nodes cs) (a ∷ p) r)
    → search_node (node pre old cs) q ≡ some r
    → Matches (inside old cs) q r
unfolding search_node inside
node_sound pre old cs [] t ih h =
    let (e, b) = matches_here_is old [] h in
    record { at = []; rest = []; splits = refl; stored = e; boundary = b }
node_sound pre old cs (a ∷ q) t ih h = elim (ih a q (matches_here old (a ∷ q)) h) [
  | inl k ↦
      let (e, b) = matches_here_is old (a ∷ q) k in
      record { at = []; rest = a ∷ q; splits = refl; stored = e; boundary = b }
  | inr m ↦ below_inside old cs m.at m.rest (a ∷ q) t m.splits m.stored m.boundary
]

search_in_sound :
    (n : Node) (q : Bytes) {r : Route}
    → search_in n q ≡ some r
    → (p : Bytes) × (cut_prefix (prefix_of n) q ≡ some p) × (search_node n p ≡ some r)
unfolding search_in
search_in_sound n q h = elim (Option-cases (cut_prefix (prefix_of n) q)) [
  | inl e ↦ absurd (ground arith)
  | inr (p, e) ↦ (p, e, ground arith)
]

pub find_in-behind :
    (pre : Bytes) (old : Option Route) (cs : Nodes) (p : Bytes)
    → find_in (node pre old cs) (pre ++ p) ≡ inside old cs p
unfolding find_in
find_in-behind pre old cs p = ground (arith, cut_prefix-append pre p)

find_in_stored :
    (n : Node) (rest : Nodes) (q : Bytes) {r : Route}
    → find_in n q ≡ some r
    → find_by_path_nodes (cons n rest) q ≡ some r
find_in_stored n rest q h = ground (arith, find_nodes-cons n rest q)

-- A match in a child is one among the children.
child_sound :
    (c : ℕ) (pre : Bytes) (old : Option Route) (cs rest : Nodes) (q : Bytes) {r : Route}
    → ((p : Bytes) → search_node (node (c ∷ pre) old cs) p ≡ some r → Matches (inside old cs) p r)
    → search_in (node (c ∷ pre) old cs) q ≡ some r
    → Matches (find_by_path_nodes (cons (node (c ∷ pre) old cs) rest)) q r
child_sound c pre old cs rest q {r} ih h =
    let (p, e, f) = search_in_sound (node (c ∷ pre) old cs) q h in
    let m : Matches (inside old cs) p r = ih p f in
    record {
      at = (c ∷ pre) ++ m.at;
      rest = m.rest;
      splits =
          cut_prefix_sound (c ∷ pre) q e
          ∙ ap (λ s. (c ∷ pre) ++ s) m.splits
          ∙ sym (append_assoc (c ∷ pre) m.at m.rest);
      stored =
          find_in_stored (node (c ∷ pre) old cs) rest ((c ∷ pre) ++ m.at)
            (find_in-behind (c ∷ pre) old cs m.at ∙ m.stored);
      boundary = m.boundary;
    }

pub find_in_before :
    (b c : ℕ) (pre : Bytes) (old : Option Route) (cs : Nodes) (q at rest : Bytes)
    → b ≢ c
    → b ∷ q ≡ at ++ rest
    → find_in (node (c ∷ pre) old cs) at ≡ none
unfolding find_in
find_in_before b c pre old cs q [] rest d s = refl
find_in_before b c pre old cs q (a ∷ at) rest d s = ground arith

-- A match among the later children is one among all.
later_sound :
    (b c : ℕ) (pre : Bytes) (old : Option Route) (cs rest : Nodes) (q : Bytes) {r : Route}
    → b ≢ c
    → Matches (find_by_path_nodes rest) (b ∷ q) r
    → Matches (find_by_path_nodes (cons (node (c ∷ pre) old cs) rest)) (b ∷ q) r
later_sound b c pre old cs rest q d m = record {
  at = m.at;
  rest = m.rest;
  splits = m.splits;
  stored = ground (
    arith,
    find_nodes-cons (node (c ∷ pre) old cs) rest m.at,
    find_in_before b c pre old cs q m.at m.rest d m.splits,
    m.stored,
  );
  boundary = m.boundary;
}

-- The loop over the children at a child with the path's first byte, and at another.
pub search_nodes-same :
    (c : ℕ) (pre : Bytes) (old : Option Route) (cs rest : Nodes) (q : Bytes) (best : Option Route)
    → Absent c rest
    → IsTree rest
    → search_nodes (cons (node (c ∷ pre) old cs) rest) (c ∷ q) best
      ≡ better best (search_in (node (c ∷ pre) old cs) (c ∷ q))
search_nodes-same c pre old cs rest q best h t =
    rw (search_nodes-cons (node (c ∷ pre) old cs) rest (c ∷ q) best)
      (search_nodes-Absent c rest q (better best (search_in (node (c ∷ pre) old cs) (c ∷ q))) t h)

pub search_nodes-other :
    (b c : ℕ) (pre : Bytes) (old : Option Route) (cs rest : Nodes) (q : Bytes) (best : Option Route)
    → b ≢ c
    → search_nodes (cons (node (c ∷ pre) old cs) rest) (b ∷ q) best ≡ search_nodes rest (b ∷ q) best
search_nodes-other b c pre old cs rest q best d = rw (
  search_nodes-cons (node (c ∷ pre) old cs) rest (b ∷ q) best,
  search_in-other b c pre old cs q d,
)

pub search_nodes_sound :
    (cs : Nodes) (b : ℕ) (q : Bytes) (best : Option Route) {r : Route}
    → IsTree cs
    → search_nodes cs (b ∷ q) best ≡ some r
    → (best ≡ some r) ⊎ Matches (find_by_path_nodes cs) (b ∷ q) r
search_nodes_sound nil b q best t h = inl (unfold search_nodes in h)
search_nodes_sound (cons (node [] old cs) rest) b q best t h = elim t [ ]
search_nodes_sound (cons (node (c ∷ pre) old cs) rest) b q best {r} t h = elim (ℕ_discrete b c) [
  | yes e ↦
      rw e
        (elim (better_cases best (search_in (node (c ∷ pre) old cs) (c ∷ q))
          (sym (search_nodes-same c pre old cs rest q best t.0 t.2) ∙ (rw e at h))) [
            | inl k ↦ inl k
            | inr k ↦ inr (
                child_sound c pre old cs rest (c ∷ q)
                  (λ p.
                    node_sound (c ∷ pre) old cs p t.1 (λ a s o. search_nodes_sound cs a s o t.1))
                  k)
          ])
  | no d ↦
      elim (search_nodes_sound rest b q best t.2
        (sym (search_nodes-other b c pre old cs rest q best d) ∙ h)) [
          | inl k ↦ inl k
          | inr m ↦ inr (later_sound b c pre old cs rest q d m)
        ]
]
