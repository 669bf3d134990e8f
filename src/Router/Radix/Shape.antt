-- ===== src/Router/Radix/Shape.antt =====
-- The shape of a radix tree, which `insert` keeps: no child has an empty prefix, and no two children
-- of a node share a first byte.
use nekzus.Prelude.{
  ℕ, ◌+◌, ◌≡◌, ◌≢◌, refl, ◌&&◌, Option, none, some, [], ◌∷◌, arith, nat_beq, if◌then◌else◌, length,
  drop,
}
use nekzus.Prelude.Bytes.{Bytes}
use nekzus.Router.Route.{Route}
use nekzus.Router.Radix.{
  Node, node, Nodes, nil, cons, prefix_of, counted, set_route, split, insert_node, insert_nodes,
  common_prefix_len,
}

-- No child's prefix begins with the byte.
abbrev pub Absent : ℕ → Nodes → Type 0
Absent a nil = Unit
Absent a (cons (node [] route children) rest) = Absent a rest
Absent a (cons (node (b ∷ p) route children) rest) = (a ≢ b) × Absent a rest

abbrev pub IsTree : Nodes → Type 0
IsTree nil = Unit
IsTree (cons (node [] route children) rest) = ⊥
IsTree (cons (node (b ∷ p) route children) rest) = Absent b rest × IsTree children × IsTree rest

-- What `insert` makes of a child with which the path shares its first byte.
unfoldable pub insert_into : Node → Bytes → Route → ℕ → Node × ℕ
unfolding common_prefix_len insert_node
insert_into child path route size =
    let common = common_prefix_len path (prefix_of child) in
    if nat_beq common (length (prefix_of child)) && nat_beq common (length path)
    then set_route child route size
    else if nat_beq common (length (prefix_of child))
    then insert_node child (drop common path) route size
    else split child common path route size

pub insert_nodes-other :
    (a b : ℕ) (p pre : Bytes) (old : Option Route) (cs rest : Nodes) (route : Route) (size : ℕ)
    → a ≢ b
    → insert_nodes (cons (node (b ∷ pre) old cs) rest) (a ∷ p) route size ≡ (
      cons (node (b ∷ pre) old cs) (insert_nodes rest (a ∷ p) route size).0,
      (insert_nodes rest (a ∷ p) route size).1,
    )
unfolding insert_nodes
insert_nodes-other a b p pre old cs rest route size h = ground arith

pub insert_nodes-same :
    (a : ℕ) (p pre : Bytes) (old : Option Route) (cs rest : Nodes) (route : Route) (size : ℕ)
    → insert_nodes (cons (node (a ∷ pre) old cs) rest) (a ∷ p) route size ≡ (
      cons (insert_into (node (a ∷ pre) old cs) (a ∷ p) route size).0 rest,
      (insert_into (node (a ∷ pre) old cs) (a ∷ p) route size).1,
    )
unfolding insert_nodes insert_into
insert_nodes-same a p pre old cs rest route size = ground arith

-- The node with one more byte before its prefix.
abbrev pub under : ℕ → Node → Node
under a (node prefix route children) = node (a ∷ prefix) route children

pub insert_into-under :
    (a : ℕ) (p pre : Bytes) (old : Option Route) (cs : Nodes) (route : Route) (size : ℕ)
    → insert_into (node (a ∷ pre) old cs) (a ∷ p) route size ≡ (
      under a (insert_into (node pre old cs) p route size).0,
      (insert_into (node pre old cs) p route size).1,
    )
unfolding insert_into
insert_into-under a p pre old cs route size = ground arith

module _ (old : Option Route) (cs : Nodes) (route : Route) (size : ℕ) where
  pub insert_into-here :
      insert_into (node [] old cs) [] route size ≡ (node [] (some route) cs, counted old size)
  unfolding insert_into
  insert_into-here = refl

  pub insert_into-deeper :
      (a : ℕ) (p : Bytes)
      → insert_into (node [] old cs) (a ∷ p) route size ≡ (
        node [] old (insert_nodes cs (a ∷ p) route size).0,
        (insert_nodes cs (a ∷ p) route size).1,
      )
  unfolding insert_into
  insert_into-deeper a p = ground arith

  pub insert_into-end :
      (c : ℕ) (pre : Bytes)
      → insert_into (node (c ∷ pre) old cs) [] route size
        ≡ (node [] (some route) (cons (node (c ∷ pre) old cs) nil), size + 1)
  unfolding insert_into
  insert_into-end c pre = ground arith

  pub insert_into-fork :
      (a c : ℕ) (p pre : Bytes)
      → a ≢ c
      → insert_into (node (c ∷ pre) old cs) (a ∷ p) route size ≡ (
        node [] none (cons (node (c ∷ pre) old cs) (cons (node (a ∷ p) (some route) nil) nil)),
        size + 1,
      )
  unfolding insert_into
  insert_into-fork a c p pre h = ground arith

-- Every way in which `insert` treats a child whose first byte the path shares: a statement about the
-- result that holds at the three ends and under one more common byte holds of all.
