-- ===== src/Router/Radix/Search.antt =====
-- `Search` of a tree: the longest route that matches.
use mathlib.Core.Path.{subst}
use nekzus.Prelude.{
  ℕ, ◌≤◌, ◌≡◌, refl, sym, ap, ◌∙◌, Option, none, some, [], ◌∷◌, ◌++◌, length, Bool-cases, inl, inr,
  nat_beq, arith,
}
use nekzus.Prelude.Bytes.{Bytes, bytes, has_suffix, has_suffix_sound, has_suffix-append}
use nekzus.Router.Route.{Route}
use nekzus.Router.Radix.{
  Node, node, RadixTree, children_of, find_by_path, find_by_path_node, search, search_node,
  matches_here,
}
use nekzus.Router.Radix.Shape.{IsTree}
use nekzus.Router.Radix.Lookup.{find_node-inside}
use nekzus.Router.Radix.Longest.{Matches, node_sound, search_nodes_sound}
use nekzus.Router.Radix.Maximal.{AtLeast, node_max, search_nodes_max}
use nekzus.Router.Radix.Removal.{IsValid}

node-Matches :
    (n : Node) (q : Bytes) {r : Route}
    → IsTree (children_of n)
    → search_node n q ≡ some r
    → Matches (find_by_path_node n) q r
node-Matches (node pre old cs) q t h =
    let m = node_sound pre old cs q t (λ a p o. search_nodes_sound cs a p o t) h in
    record {
      at = m.at;
      rest = m.rest;
      splits = m.splits;
      stored = find_node-inside pre old cs m.at ∙ m.stored;
      boundary = m.boundary;
    }

node_longest :
    (n : Node) (at rest : Bytes) (route : Route)
    → IsTree (children_of n)
    → find_by_path_node n at ≡ some route
    → matches_here (some route) rest ≡ some route
    → AtLeast (length route.path_base) (search_node n (at ++ rest))
node_longest (node pre old cs) at rest route t f m =
    node_max route pre old cs at rest
      (λ b q at' o s g. search_nodes_max route cs b q at' rest o t m s g)
      (sym (find_node-inside pre old cs at) ∙ f) m

-- A route's path may end where the rest of the request's path begins: the rest is empty or begins
-- with
-- '/', or the route's path ends with '/'.
pub data IsBoundary (base : Bytes) : Bytes → Type 0 where
  at_end : IsBoundary base []
  at_slash : {p : Bytes} → IsBoundary base (b'/' ∷ p)
  behind_slash : {p : Bytes} (q : Bytes) → base ≡ q ++ bytes "/" → IsBoundary base p

IsBoundary-sound :
    (route : Route) (rest : Bytes)
    → matches_here (some route) rest ≡ some route
    → IsBoundary route.path_base rest
unfolding matches_here
IsBoundary-sound route [] h = at_end
IsBoundary-sound route (a ∷ p) h = elim (Bool-cases (nat_beq a b'/')) [
  | inl e ↦ subst (λ b. IsBoundary route.path_base (b ∷ p)) (sym (ground arith)) at_slash
  | inr e ↦
      let (q, f) = has_suffix_sound route.path_base (bytes "/") (ground arith) in behind_slash q f
]

IsBoundary-complete :
    (route : Route) (rest : Bytes)
    → IsBoundary route.path_base rest
    → matches_here (some route) rest ≡ some route
unfolding matches_here
IsBoundary-complete route [] b = refl
IsBoundary-complete route (a ∷ p) at_slash = ground arith
IsBoundary-complete route (a ∷ p) (behind_slash q e) =
    ground (arith, has_suffix-append q (bytes "/"), ap (λ b. has_suffix b (bytes "/")) e)

-- The path of a route is a prefix of the request's, with a boundary behind it.
pub record MatchesPath (t : RadixTree) (path : Bytes) (route : Route) : Type 0 where
  pub rest : Bytes
  pub splits : path ≡ route.path_base ++ rest
  pub stored : find_by_path t route.path_base ≡ some route
  pub boundary : IsBoundary route.path_base rest

-- A route that `Search` returns in a valid tree is stored at its path, its path is a prefix of the
-- request's, and the request's path ends there, goes on with '/', or the route's path ends with '/'.
pub search-MatchesPath :
    (t : RadixTree) (path : Bytes) (route : Route)
    → IsValid t
    → search t path ≡ some route
    → MatchesPath t path route
unfolding search
search-MatchesPath t path route v h =
    let m = node-Matches t.root path v.shape h in
    let e : route.path_base ≡ m.at = v.labelled m.at route m.stored in
    record {
      rest = m.rest;
      splits = m.splits ∙ ap (λ p. p ++ m.rest) (sym e);
      stored = ap (λ p. find_by_path t p) e ∙ m.stored;
      boundary = IsBoundary-sound route m.rest m.boundary;
    }

AtLeast-some :
    (n : ℕ) (o : Option Route)
    → AtLeast n o
    → (found : Route) × (o ≡ some found) × (n ≤ length found.path_base)
AtLeast-some n none h = elim h [ ]
AtLeast-some n (some r) h = (r, refl, h)

-- If a route that a valid tree stores matches the request's path, `Search` finds a route, and its
-- path is
-- at least as long.
pub search_longest :
    (t : RadixTree) (path : Bytes) (route : Route)
    → IsValid t
    → MatchesPath t path route
    → (found : Route) × (search t path ≡ some found)
      × (length route.path_base ≤ length found.path_base)
unfolding search
search_longest t path route v m = AtLeast-some (length route.path_base) (search_node t.root path) (
    subst (λ p. AtLeast (length route.path_base) (search_node t.root p)) (sym m.splits)
      (node_longest t.root route.path_base m.rest route v.shape m.stored
        (IsBoundary-complete route m.rest m.boundary)))
