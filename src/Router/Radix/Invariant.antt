-- ===== src/Router/Radix/Invariant.antt =====
-- `insert` and `deleteByID` keep the shape of the tree.
use native.Mathlib.Decide.{ℕ_discrete}
use nekzus.Prelude.{ℕ, ◌≡◌, ◌≢◌, refl, sym, Option, [], ◌∷◌}
use nekzus.Prelude.Bytes.{Bytes}
use nekzus.Router.Route.{Route}
use nekzus.Router.Radix.{Node, node, Nodes, nil, cons, children_of, insert_nodes}
use nekzus.Router.Radix.Shape.{
  Absent, IsTree, insert_into, insert_into-here, insert_into-deeper, insert_into-end,
  insert_into-fork, insert_nodes-other, insert_nodes-same, under, insert_into-under,
}

Absent-under :
    (a c : ℕ) (n : Node) (rest : Nodes) → a ≢ c → Absent a rest → Absent a (cons (under c n) rest)
Absent-under a c (node pre old cs) rest d h = (d, h)

IsTree-under :
    (c : ℕ) (n : Node) (rest : Nodes)
    → Absent c rest
    → IsTree (children_of n)
    → IsTree rest
    → IsTree (cons (under c n) rest)
IsTree-under c (node pre old cs) rest h t u = (h, t, u)

children-under : (c : ℕ) (n : Node) → children_of (under c n) ≡ children_of n
children-under c (node pre old cs) = refl

Absent-insert :
    (b a : ℕ) (cs : Nodes) (p : Bytes) (route : Route) (size : ℕ)
    → b ≢ a
    → IsTree cs
    → Absent b cs
    → Absent b (insert_nodes cs (a ∷ p) route size).0
Absent-insert b a nil p route size d t h = unfold insert_nodes in (d, tt)
Absent-insert b a (cons (node [] old cs) rest) p route size d t h = elim t [ ]
Absent-insert b a (cons (node (c ∷ pre) old cs) rest) p route size d t h = elim (ℕ_discrete a c) [
  | yes e ↦
      rw
        (
          e,
          insert_nodes-same c p pre old cs rest route size,
          insert_into-under c p pre old cs route size,
        )
        (Absent-under b c (insert_into (node pre old cs) p route size).0 rest h.0 h.1)
  | no n ↦
      rw (insert_nodes-other a c p pre old cs rest route size n)
        (h.0, Absent-insert b a rest p route size d t.2 h.1)
]

children_of-insert_into :
    (pre : Bytes) (old : Option Route) (cs : Nodes) (p : Bytes) (route : Route) (size : ℕ)
    → IsTree cs
    → ((a : ℕ) (r : Bytes) → IsTree (insert_nodes cs (a ∷ r) route size).0)
    → IsTree (children_of (insert_into (node pre old cs) p route size).0)
children_of-insert_into [] old cs [] route size t h = rw (insert_into-here old cs route size) t
children_of-insert_into [] old cs (a ∷ p) route size t h =
    rw (insert_into-deeper old cs route size a p) (h a p)
children_of-insert_into (c ∷ pre) old cs [] route size t h =
    rw (insert_into-end old cs route size c pre) (tt, t, tt)
children_of-insert_into (c ∷ pre) old cs (a ∷ p) route size t h = elim (ℕ_discrete a c) [
  | yes e ↦
      rw
        (
          e,
          insert_into-under c p pre old cs route size,
          children-under c (insert_into (node pre old cs) p route size).0,
        )
        (children_of-insert_into pre old cs p route size t h)
  | no d ↦
      rw (insert_into-fork old cs route size a c p pre d) ((λ e. d (sym e), tt), t, (tt, tt, tt))
]

-- Inserting a path keeps the shape of the tree: no empty prefix, and no two children of a node
-- that share a first byte.
pub insert_nodes-IsTree :
    (cs : Nodes) (a : ℕ) (p : Bytes) (route : Route) (size : ℕ)
    → IsTree cs
    → IsTree (insert_nodes cs (a ∷ p) route size).0
insert_nodes-IsTree nil a p route size t = unfold insert_nodes in (tt, tt, tt)
insert_nodes-IsTree (cons (node [] old cs) rest) a p route size t = elim t [ ]
insert_nodes-IsTree (cons (node (c ∷ pre) old cs) rest) a p route size t = elim (ℕ_discrete a c) [
  | yes e ↦
      rw
        (
          e,
          insert_nodes-same c p pre old cs rest route size,
          insert_into-under c p pre old cs route size,
        )
        (IsTree-under c (insert_into (node pre old cs) p route size).0 rest t.0
          (children_of-insert_into pre old cs p route size t.1
            (λ b r. insert_nodes-IsTree cs b r route size t.1))
          t.2)
  | no n ↦ rw (insert_nodes-other a c p pre old cs rest route size n) (
    Absent-insert c a rest p route size (λ e. n (sym e)) t.2 t.0,
    t.1,
    insert_nodes-IsTree rest a p route size t.2,
  )
]
