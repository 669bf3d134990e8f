-- ===== src/Router/Radix/Lookup.antt =====
-- A radix tree is a map from paths to routes: what `findByPath` reads after `insert`.
use native.Mathlib.Decide.{ℕ_discrete}
use nekzus.Prelude.{
  ℕ, ◌≡◌, ◌≢◌, refl, sym, true, Option, none, some, [], ◌∷◌, arith, if◌then◌else◌, inl, inr,
  Option-cases,
}
use nekzus.Prelude.Bytes.{Bytes, beq, cut_prefix}
use nekzus.Router.Route.{Route}
use nekzus.Router.Radix.{
  Node, node, Nodes, nil, cons, insert_node, insert_nodes, find_by_path_node, find_by_path_nodes,
  or_else,
}
use nekzus.Router.Radix.Shape.{
  Absent, IsTree, insert_into, insert_into-here, insert_into-deeper, insert_into-end,
  insert_into-fork, insert_nodes-other, insert_nodes-same, under, insert_into-under,
}

-- What a node holds for the rest of a path behind its prefix.
unfoldable pub inside : Option Route → Nodes → Bytes → Option Route
inside old cs [] = old
inside old cs (a ∷ p) = find_by_path_nodes cs (a ∷ p)

-- What the loop of `findByPathHelper` finds in one child.
unfoldable pub find_in : Node → Bytes → Option Route
unfolding cut_prefix inside
find_in (node pre old cs) path = elim (cut_prefix pre path) [
  | none ↦ none
  | some remainder ↦ inside old cs remainder
]

pub find_node-inside :
    (pre : Bytes) (old : Option Route) (cs : Nodes) (q : Bytes)
    → find_by_path_node (node pre old cs) q ≡ inside old cs q
unfolding find_by_path_node inside
find_node-inside pre old cs [] = refl
find_node-inside pre old cs (a ∷ q) = refl

pub find_nodes-cons :
    (n : Node) (rest : Nodes) (q : Bytes)
    → find_by_path_nodes (cons n rest) q ≡ or_else (find_in n q) (find_by_path_nodes rest q)
unfolding find_by_path_nodes find_in
find_nodes-cons (node pre old cs) rest q = elim (Option-cases (cut_prefix pre q)) [
  | inl e ↦ ground arith
  | inr (r, e) ↦ ground (arith, find_node-inside pre old cs r)
]

pub find_in-under : (a : ℕ) (n : Node) (q : Bytes) → find_in (under a n) (a ∷ q) ≡ find_in n q
unfolding find_in
find_in-under a (node pre old cs) q = ground arith

pub find_in-other : (a b : ℕ) (n : Node) (q : Bytes) → a ≢ b → find_in (under a n) (b ∷ q) ≡ none
unfolding find_in
find_in-other a b (node pre old cs) q h = ground arith

pub find_nodes-Absent :
    (a : ℕ) (cs : Nodes) (q : Bytes)
    → Absent a cs
    → IsTree cs
    → find_by_path_nodes cs (a ∷ q) ≡ none
unfolding find_by_path_nodes
find_nodes-Absent a nil q h w = refl
find_nodes-Absent a (cons (node [] old cs) rest) q h w = elim w [ ]
find_nodes-Absent a (cons (node (b ∷ pre) old cs) rest) q h w =
    rw (find_nodes-cons (under b (node pre old cs)) rest (a ∷ q)) (
      ground (
        arith,
        find_nodes-Absent a rest q h.1 w.2,
        find_in-other b a (node pre old cs) q (λ e. h.0 (sym e)),
      ))

find_leaf :
    (p : Bytes) (route : Route) (q : Bytes)
    → find_in (node p (some route) nil) q ≡ (if beq p q then some route else none)
unfolding find_in beq find_by_path_nodes
find_leaf [] route [] = refl
find_leaf [] route (b ∷ q) = refl
find_leaf (a ∷ p) route [] = refl
find_leaf (a ∷ p) route (b ∷ q) = ground (arith, find_leaf p route q)

-- `insert` below the node writes at the path and nowhere else.
abbrev Writes : Nodes → Type 0
Writes cs =
    (a : ℕ) (p : Bytes) (route : Route) (size : ℕ) (q : Bytes)
    → find_by_path_nodes (insert_nodes cs (a ∷ p) route size).0 q
      ≡ (if beq (a ∷ p) q then some route else find_by_path_nodes cs q)

find_in-under_nil : (a : ℕ) (n : Node) → find_in (under a n) [] ≡ none
unfolding find_in
find_in-under_nil a (node pre old cs) = refl

module _ (old : Option Route) (cs : Nodes) (route : Route) where
  find_at_end :
      (q : Bytes)
      → find_in (node [] (some route) cs) q
        ≡ (if beq [] q then some route else find_in (node [] old cs) q)
  unfolding find_in beq
  find_at_end [] = refl
  find_at_end (b ∷ q) = refl

  find_below :
      (a : ℕ) (p : Bytes) (size : ℕ) (q : Bytes)
      → Writes cs
      → find_in (node [] old (insert_nodes cs (a ∷ p) route size).0) q
        ≡ (if beq (a ∷ p) q then some route else find_in (node [] old cs) q)
  unfolding find_in beq
  find_below a p size [] w = refl
  find_below a p size (b ∷ q) w = w a p route size (b ∷ q)

find_in-end :
    (n : Node) (route : Route) (q : Bytes)
    → find_in n [] ≡ none
    → find_in (node [] (some route) (cons n nil)) q ≡ (if beq [] q then some route else find_in n q)
unfolding find_in beq find_by_path_nodes
find_in-end n route [] h = refl
find_in-end n route (b ∷ q) h = ground (arith, find_nodes-cons n nil (b ∷ q))

find_fork :
    (a c : ℕ) (p pre : Bytes) (old : Option Route) (cs : Nodes) (route : Route) (q : Bytes)
    → a ≢ c
    → find_in
        (node [] none (cons (node (c ∷ pre) old cs) (cons (node (a ∷ p) (some route) nil) nil)))
        q
      ≡ (if beq (a ∷ p) q then some route else find_in (node (c ∷ pre) old cs) q)
unfolding find_in beq find_by_path_nodes
find_fork a c p pre old cs route [] d = refl
find_fork a c p pre old cs route (b ∷ q) d = ground (
  arith,
  find_nodes-cons (node (c ∷ pre) old cs) (cons (node (a ∷ p) (some route) nil) nil) (b ∷ q),
  find_nodes-cons (node (a ∷ p) (some route) nil) nil (b ∷ q),
  find_leaf (a ∷ p) route (b ∷ q),
  find_in-other c b (node pre old cs) q,
)

find_same :
    (c : ℕ) (pre : Bytes) (old : Option Route) (cs : Nodes) (p : Bytes) (route : Route) (q : Bytes)
    (n : Node)
    → ((r : Bytes) → find_in n r ≡ (if beq p r then some route else find_in (node pre old cs) r))
    → find_in (under c n) q
      ≡ (if beq (c ∷ p) q then some route else find_in (node (c ∷ pre) old cs) q)
unfolding beq
find_same c pre old cs p route [] n h =
    rw (find_in-under_nil c n, find_in-under_nil c (node pre old cs))
find_same c pre old cs p route (b ∷ q) n h = ground (
  arith,
  h q,
  find_in-under c n q,
  find_in-under c (node pre old cs) q,
  find_in-other c b n q,
  find_in-other c b (node pre old cs) q,
)

find_in-insert_into :
    (pre : Bytes) (old : Option Route) (cs : Nodes) (p : Bytes) (route : Route) (size : ℕ)
    (q : Bytes)
    → Writes cs
    → find_in (insert_into (node pre old cs) p route size).0 q
      ≡ (if beq p q then some route else find_in (node pre old cs) q)
find_in-insert_into [] old cs [] route size q w =
    rw (insert_into-here old cs route size) (find_at_end old cs route q)
find_in-insert_into [] old cs (a ∷ p) route size q w =
    rw (insert_into-deeper old cs route size a p) (find_below old cs route a p size q w)
find_in-insert_into (c ∷ pre) old cs [] route size q w =
    rw (insert_into-end old cs route size c pre)
      (find_in-end (node (c ∷ pre) old cs) route q (find_in-under_nil c (node pre old cs)))
find_in-insert_into (c ∷ pre) old cs (a ∷ p) route size q w = elim (ℕ_discrete a c) [
  | yes e ↦
      rw (e, insert_into-under c p pre old cs route size)
        (find_same c pre old cs p route q (insert_into (node pre old cs) p route size).0
          (λ r. find_in-insert_into pre old cs p route size r w))
  | no d ↦
      rw (insert_into-fork old cs route size a c p pre d) (find_fork a c p pre old cs route q d)
]

write_first :
    (n' n : Node) (rest : Nodes) (p : Bytes) (route : Route) (q : Bytes)
    → find_in n' q ≡ (if beq p q then some route else find_in n q)
    → find_by_path_nodes (cons n' rest) q
      ≡ (if beq p q then some route else find_by_path_nodes (cons n rest) q)
write_first n' n rest p route q h =
    ground (arith, find_nodes-cons n' rest q, find_nodes-cons n rest q)

write_later :
    (n : Node) (rest' rest : Nodes) (p : Bytes) (route : Route) (q : Bytes)
    → (beq p q ≡ true → find_in n q ≡ none)
    → find_by_path_nodes rest' q ≡ (if beq p q then some route else find_by_path_nodes rest q)
    → find_by_path_nodes (cons n rest') q
      ≡ (if beq p q then some route else find_by_path_nodes (cons n rest) q)
write_later n rest' rest p route q f h =
    ground (arith, find_nodes-cons n rest' q, find_nodes-cons n rest q)

find_in-elsewhere :
    (a b : ℕ) (p : Bytes) (n : Node) (q : Bytes)
    → a ≢ b
    → beq (a ∷ p) q ≡ true
    → find_in (under b n) q ≡ none
unfolding beq
find_in-elsewhere a b p n [] d h = cc
find_in-elsewhere a b p n (c ∷ q) d h = ground (arith, find_in-other b c n q)

-- `insert` in the loop over the children writes at the path and nowhere else.
find_nodes-insert : (cs : Nodes) → IsTree cs → Writes cs
find_nodes-insert nil t a p route size q =
    unfold insert_nodes find_by_path_nodes in
    ground (arith, find_nodes-cons (node (a ∷ p) (some route) nil) nil q, find_leaf (a ∷ p) route q)
find_nodes-insert (cons (node [] old cs) rest) t a p route size q = elim t [ ]
find_nodes-insert (cons (node (b ∷ pre) old cs) rest) t a p route size q = elim (ℕ_discrete a b) [
  | yes e ↦
      rw (e, insert_nodes-same b p pre old cs rest route size)
        (write_first (insert_into (node (b ∷ pre) old cs) (b ∷ p) route size).0
          (node (b ∷ pre) old cs) rest (b ∷ p) route q
          (find_in-insert_into (b ∷ pre) old cs (b ∷ p) route size q (find_nodes-insert cs t.1)))
  | no d ↦ rw (insert_nodes-other a b p pre old cs rest route size d) (
      write_later (node (b ∷ pre) old cs) (insert_nodes rest (a ∷ p) route size).0 rest (a ∷ p)
        route q (find_in-elsewhere a b p (node pre old cs) q d)
        (find_nodes-insert rest t.2 a p route size q))
]

-- What `findByPath` reads after `insert` at a tree's root: the new route at its path, and what was
-- there at every other.
pub find_by_path-insert_node :
    (pre : Bytes) (old : Option Route) (cs : Nodes) (path : Bytes) (route : Route) (size : ℕ)
    (q : Bytes)
    → IsTree cs
    → find_by_path_node (insert_node (node pre old cs) path route size).0 q
      ≡ (if beq path q then some route else find_by_path_node (node pre old cs) q)
unfolding find_by_path_node insert_node beq
find_by_path-insert_node pre old cs [] route size [] t = refl
find_by_path-insert_node pre old cs [] route size (b ∷ q) t = refl
find_by_path-insert_node pre old cs (a ∷ p) route size [] t = refl
find_by_path-insert_node pre old cs (a ∷ p) route size (b ∷ q) t =
    find_nodes-insert cs t a p route size (b ∷ q)
