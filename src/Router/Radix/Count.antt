-- ===== src/Router/Radix/Count.antt =====
-- The counter of a radix tree is the number of its routes.
use native.Mathlib.Decide.{ℕ_discrete}
use nekzus.Prelude.{ℕ, ◌+◌, ◌≡◌, refl, Option, none, some, [], ◌∷◌, arith}
use nekzus.Prelude.Bytes.{Bytes}
use nekzus.Router.Route.{Route}
use nekzus.Router.Radix.{Node, node, Nodes, nil, cons, insert_nodes}
use nekzus.Router.Radix.Shape.{
  IsTree, insert_into, insert_into-here, insert_into-deeper, insert_into-end, insert_into-fork,
  insert_nodes-other, insert_nodes-same, under, insert_into-under,
}

abbrev pub one : Option Route → ℕ
one none = 0
one (some r) = 1

-- The number of routes in the subtree.
abbrev pub count_nodes : Nodes → ℕ
count_nodes nil = 0
count_nodes (cons (node pre old cs) rest) = one old + count_nodes cs + count_nodes rest

abbrev pub count_node : Node → ℕ
count_node (node pre old cs) = one old + count_nodes cs

count-under : (c : ℕ) (n : Node) → count_node (under c n) ≡ count_node n
count-under c (node pre old cs) = refl

count-cons : (n : Node) (rest : Nodes) → count_nodes (cons n rest) ≡ count_node n + count_nodes rest
count-cons (node pre old cs) rest = refl

count-insert_into :
    (pre : Bytes) (old : Option Route) (cs : Nodes) (p : Bytes) (route : Route) (size : ℕ)
    → ((a : ℕ) (r : Bytes)
        → (insert_nodes cs (a ∷ r) route size).1 + count_nodes cs
          ≡ size + count_nodes (insert_nodes cs (a ∷ r) route size).0)
    → (insert_into (node pre old cs) p route size).1 + count_node (node pre old cs)
      ≡ size + count_node (insert_into (node pre old cs) p route size).0
count-insert_into [] old cs [] route size h = rw (insert_into-here old cs route size) (ground arith)
count-insert_into [] old cs (a ∷ p) route size h =
    rw (insert_into-deeper old cs route size a p) (ground (arith, h a p))
count-insert_into (c ∷ pre) old cs [] route size h =
    rw (insert_into-end old cs route size c pre) (omega arith)
count-insert_into (c ∷ pre) old cs (a ∷ p) route size h = elim (ℕ_discrete a c) [
  | yes e ↦
      rw
        (
          e,
          insert_into-under c p pre old cs route size,
          count-under c (insert_into (node pre old cs) p route size).0,
        )
        (count-insert_into pre old cs p route size h)
  | no d ↦ rw (insert_into-fork old cs route size a c p pre d) (omega arith)
]

pub count-insert_nodes :
    (cs : Nodes) (a : ℕ) (p : Bytes) (route : Route) (size : ℕ)
    → IsTree cs
    → (insert_nodes cs (a ∷ p) route size).1 + count_nodes cs
      ≡ size + count_nodes (insert_nodes cs (a ∷ p) route size).0
count-insert_nodes nil a p route size t = unfold insert_nodes in omega arith
count-insert_nodes (cons (node [] old cs) rest) a p route size t = elim t [ ]
count-insert_nodes (cons (node (c ∷ pre) old cs) rest) a p route size t = elim (ℕ_discrete a c) [
  | yes e ↦
      rw (e, insert_nodes-same c p pre old cs rest route size)
        (omega (
          arith,
          count-cons (insert_into (node (c ∷ pre) old cs) (c ∷ p) route size).0 rest,
          count-insert_into (c ∷ pre) old cs (c ∷ p) route size
              (λ b r. count-insert_nodes cs b r route size t.1),
        ))
  | no d ↦
      rw (insert_nodes-other a c p pre old cs rest route size d)
        (omega (arith, count-insert_nodes rest a p route size t.2))
]
