-- ===== src/Router/Radix/Maximal.antt =====
-- No stored route that matches a path is longer than the one that `Search` returns.
use native.Mathlib.Decide.{ℕ_discrete}
use mathlib.Core.List.{append_assoc}
use nekzus.Prelude.{
  ℕ, ◌≤◌, ◌≡◌, refl, sym, ap, ◌∙◌, Option, none, some, [], ◌∷◌, ◌++◌, arith, inl, inr, Option-cases,
  length,
}
use nekzus.Prelude.Bytes.{Bytes, cut_prefix, cut_prefix_sound, cut_prefix-append}
use nekzus.Router.Route.{Route}
use nekzus.Router.Radix.{
  Node, node, Nodes, nil, cons, prefix_of, matches_here, better, search_node, search_nodes,
  find_by_path_nodes,
}
use nekzus.Router.Radix.Shape.{Absent, IsTree}
use nekzus.Router.Radix.Lookup.{inside, find_in, find_nodes-cons, find_nodes-Absent}
use nekzus.Router.Radix.Longest.{
  search_in, search_nodes-cons, find_nodes-nil, search_nodes-same, search_nodes-other,
  find_in_before,
}

-- There is a result, and its path has at least this length.
abbrev pub AtLeast : ℕ → Option Route → Type 0
AtLeast n none = ⊥
AtLeast n (some r) = n ≤ length r.path_base

better-found : (n : ℕ) (best found : Option Route) → AtLeast n found → AtLeast n (better best found)
better-found n none (some r) h = h
better-found n (some b) (some r) h = ground arith
better-found n best none h = elim h [ ]

better-best : (n : ℕ) (best found : Option Route) → AtLeast n best → AtLeast n (better best found)
better-best n none found h = elim h [ ]
better-best n (some b) none h = h
better-best n (some b) (some r) h = ground arith

at_least : (route : Route) (o : Option Route) → o ≡ some route → AtLeast (length route.path_base) o
at_least route o e = rw e (omega arith)

search_nodes-keeps :
    (n : ℕ) (cs : Nodes) (q : Bytes) (best : Option Route)
    → AtLeast n best
    → AtLeast n (search_nodes cs q best)
search_nodes-keeps n nil q best h = unfold search_nodes in h
search_nodes-keeps n (cons child rest) q best h = rw (search_nodes-cons child rest q best) (
    search_nodes-keeps n rest q (better best (search_in child q))
      (better-best n best (search_in child q) h))

-- A stored route at the start of the path that matches what follows.
module _ (route : Route) where
  pub node_max :
      (pre : Bytes) (old : Option Route) (cs : Nodes) (at rest : Bytes)
      → ((b : ℕ) (q at' : Bytes) (best : Option Route)
          → b ∷ q ≡ at' ++ rest
          → find_by_path_nodes cs at' ≡ some route
          → AtLeast (length route.path_base) (search_nodes cs (b ∷ q) best))
      → inside old cs at ≡ some route
      → matches_here (some route) rest ≡ some route
      → AtLeast (length route.path_base) (search_node (node pre old cs) (at ++ rest))
  unfolding search_node inside
  node_max pre old cs [] [] ih f m = at_least route (matches_here old []) (rw f m)
  node_max pre old cs [] (b ∷ q) ih f m =
      search_nodes-keeps (length route.path_base) cs (b ∷ q) (matches_here old (b ∷ q))
        (at_least route (matches_here old (b ∷ q)) (rw f m))
  node_max pre old cs (a ∷ at) rest ih f m =
      ih a (at ++ rest) (a ∷ at) (matches_here old (a ∷ at ++ rest)) refl f

  find_in_split :
      (pre : Bytes) (old : Option Route) (cs : Nodes) (at : Bytes)
      → find_in (node pre old cs) at ≡ some route
      → (p : Bytes) × (at ≡ pre ++ p) × (inside old cs p ≡ some route)
  unfolding find_in
  find_in_split pre old cs at h = elim (Option-cases (cut_prefix pre at)) [
    | inl e ↦ absurd (ground arith)
    | inr (p, e) ↦ (p, cut_prefix_sound pre at e, ground arith)
  ]

  search_in-behind : (n : Node) (p : Bytes) → search_in n (prefix_of n ++ p) ≡ search_node n p
  unfolding search_in
  search_in-behind n p = ground (arith, cut_prefix-append (prefix_of n) p)

  first_stored :
      (c : ℕ) (n : Node) (others : Nodes) (q at rest : Bytes)
      → IsTree others
      → Absent c others
      → c ∷ q ≡ at ++ rest
      → find_by_path_nodes (cons n others) at ≡ some route
      → find_in n at ≡ some route
  first_stored c n others q [] rest t h s f =
      ground (arith, find_nodes-cons n others [], find_nodes-nil others t)
  first_stored c n others q (a ∷ at) rest t h s f =
      ground (arith, find_nodes-cons n others (a ∷ at), find_nodes-Absent c others at h t)

  child_max :
      (c : ℕ) (pre : Bytes) (old : Option Route) (cs : Nodes) (q at rest p : Bytes)
      → c ∷ q ≡ at ++ rest
      → at ≡ (c ∷ pre) ++ p
      → search_in (node (c ∷ pre) old cs) (c ∷ q) ≡ search_node (node (c ∷ pre) old cs) (p ++ rest)
  child_max c pre old cs q at rest p s e =
      rw (s, e, append_assoc (c ∷ pre) p rest)
        (search_in-behind (node (c ∷ pre) old cs) (p ++ rest))

  pub search_nodes_max :
      (cs : Nodes) (b : ℕ) (q at rest : Bytes) (best : Option Route)
      → IsTree cs
      → matches_here (some route) rest ≡ some route
      → b ∷ q ≡ at ++ rest
      → find_by_path_nodes cs at ≡ some route
      → AtLeast (length route.path_base) (search_nodes cs (b ∷ q) best)
  search_nodes_max nil b q at rest best t m s f = absurd (unfold find_by_path_nodes in cc)
  search_nodes_max (cons (node [] old cs) others) b q at rest best t m s f = elim t [ ]
  search_nodes_max (cons (node (c ∷ pre) old cs) others) b q at rest best t m s f =
      elim (ℕ_discrete b c) [
        | yes e ↦
            let child = node (c ∷ pre) old cs in
            let s' : c ∷ q ≡ at ++ rest = ap (λ x. x ∷ q) (sym e) ∙ s in
            let (p, ep, fp) =
              find_in_split (c ∷ pre) old cs at
                (first_stored c child others q at rest t.2 t.0 s' f) in
            rw
              (
                e,
                search_nodes-same c pre old cs others q best t.0 t.2,
                child_max c pre old cs q at rest p s' ep,
              )
              (better-found (length route.path_base) best (search_node child (p ++ rest)) (
                node_max (c ∷ pre) old cs p rest
                  (λ b' q' at' o s'' f'. search_nodes_max cs b' q' at' rest o t.1 m s'' f') fp m))
        | no d ↦ rw (search_nodes-other b c pre old cs others q best d) (
            search_nodes_max others b q at rest best t.2 m s (
              ground (
                arith,
                find_nodes-cons (node (c ∷ pre) old cs) others at,
                find_in_before b c pre old cs q at rest d s,
              )))
      ]
