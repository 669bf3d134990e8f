-- ===== src/Router/Radix/Deletion.antt =====
-- What `deleteByID` leaves of a tree.
use mathlib.Core.Path.{subst}
use nekzus.Prelude.{
  ℕ, ◌+◌, ◌-◌, ◌≡◌, ◌≢◌, refl, true, false, Option, none, some, [], ◌∷◌, ◌++◌, arith, inl, inr,
  String, Option-cases, Bool-cases, if◌then◌else◌, nat_beq, ◌&&◌,
}
use nekzus.Prelude.Bytes.{Bytes, beq, beq_iff}
use nekzus.Router.Route.{Route}
use nekzus.Router.Radix.{
  Node, node, Nodes, nil, cons, has_id, delete_nodes, find_by_id_nodes, find_by_path_nodes,
}
use nekzus.Router.Radix.Shape.{Absent, IsTree}
use nekzus.Router.Radix.Lookup.{
  inside, find_in, find_nodes-cons, find_nodes-Absent, find_in-other, find_in-under,
}
use nekzus.Router.Radix.Longest.{find_nodes-nil}
use nekzus.Router.Radix.Count.{count_nodes}
use nekzus.Router.Radix.Found.{below_stored, child_stored, later_stored, not_in_child, own_route}

-- What `deleteByID` leaves when it reports a deletion.
pub record Deleted (cs cs' : Nodes) (id : String) (size size' : ℕ) : Type 0 where
  pub route : Route
  pub at : Bytes
  pub stored : find_by_path_nodes cs at ≡ some route
  pub named : route.route_id ≡ id
  pub after :
      (q : Bytes) → find_by_path_nodes cs' q ≡ (if beq at q then none else find_by_path_nodes cs q)
  pub shape : IsTree cs'
  pub absent : (b : ℕ) → Absent b cs → Absent b cs'
  pub counts : count_nodes cs ≡ count_nodes cs' + 1
  pub counted : size' ≡ size - 1

beq_cons : (a b : ℕ) (p q : Bytes) → beq (a ∷ p) (b ∷ q) ≡ (nat_beq a b && beq p q)
unfolding beq
beq_cons a b p q = refl

find_in-delete :
    (pre : Bytes) (old old' : Option Route) (cs cs' : Nodes) (p q : Bytes)
    → ((r : Bytes) → inside old' cs' r ≡ (if beq p r then none else inside old cs r))
    → find_in (node pre old' cs') q
      ≡ (if beq (pre ++ p) q then none else find_in (node pre old cs) q)
find_in-delete [] old old' cs cs' p q h = unfold find_in in h q
find_in-delete (c ∷ pre) old old' cs cs' p [] h = unfold find_in beq in refl
find_in-delete (c ∷ pre) old old' cs cs' p (b ∷ q) h = ground (
  arith,
  find_in-delete pre old old' cs cs' p q h,
  find_in-under c (node pre old cs) q,
  find_in-under c (node pre old' cs') q,
  find_in-other c b (node pre old cs) q,
  find_in-other c b (node pre old' cs') q,
  beq_cons c b (pre ++ p) q,
)

Absent-from :
    (c : ℕ) (rest : Nodes) (at q : Bytes)
    → Absent c rest
    → IsTree rest
    → beq (c ∷ at) q ≡ true
    → find_by_path_nodes rest q ≡ none
Absent-from c rest at [] h t e = find_nodes-nil rest t
Absent-from c rest at (b ∷ q) h t e =
    ground (arith, find_nodes-Absent c rest q h t, beq_cons c b at q)

child_after :
    (c : ℕ) (pre : Bytes) (old old' : Option Route) (cs cs' rest : Nodes) (p q : Bytes)
    → Absent c rest
    → IsTree rest
    → ((r : Bytes) → inside old' cs' r ≡ (if beq p r then none else inside old cs r))
    → find_by_path_nodes (cons (node (c ∷ pre) old' cs') rest) q ≡ (
        if beq ((c ∷ pre) ++ p) q
        then none
        else find_by_path_nodes (cons (node (c ∷ pre) old cs) rest) q)
child_after c pre old old' cs cs' rest p q h t g = ground (
  arith,
  find_nodes-cons (node (c ∷ pre) old' cs') rest q,
  find_nodes-cons (node (c ∷ pre) old cs) rest q,
  find_in-delete (c ∷ pre) old old' cs cs' p q g,
  Absent-from c rest (pre ++ p) q h t,
)

later_after :
    (n : Node) (rest rest' : Nodes) (p q : Bytes)
    → find_in n p ≡ none
    → find_by_path_nodes rest' q ≡ (if beq p q then none else find_by_path_nodes rest q)
    → find_by_path_nodes (cons n rest') q
      ≡ (if beq p q then none else find_by_path_nodes (cons n rest) q)
later_after n rest rest' p q f g =
    ground (arith, find_nodes-cons n rest' q, find_nodes-cons n rest q, beq_iff p q)

pub own_inside :
    (old : Option Route) (cs : Nodes) (r : Bytes)
    → inside none cs r ≡ (if beq [] r then none else inside old cs r)
unfolding inside beq
own_inside old cs [] = refl
own_inside old cs (b ∷ r) = refl

pub below_after :
    (old : Option Route) (cs cs' : Nodes) (p r : Bytes)
    → p ≢ []
    → ((q : Bytes) → find_by_path_nodes cs' q ≡ (if beq p q then none else find_by_path_nodes cs q))
    → inside old cs' r ≡ (if beq p r then none else inside old cs r)
unfolding inside
below_after old cs cs' [] r n h = absurd (n refl)
below_after old cs cs' (a ∷ p) [] n h = unfold beq in refl
below_after old cs cs' (a ∷ p) (b ∷ r) n h = h (b ∷ r)

pub stored_ne :
    (cs : Nodes) (p : Bytes) {r : Route} → IsTree cs → find_by_path_nodes cs p ≡ some r → p ≢ []
stored_ne cs p t f e = cc (find_nodes-nil cs t)

module _ (c : ℕ) (pre : Bytes) (old : Option Route) (cs rest : Nodes) (id : String) (size : ℕ)
    (t : IsTree (cons (node (c ∷ pre) old cs) rest)) where
  own-Deleted :
      has_id old id ≡ true
      → Deleted
          (cons (node (c ∷ pre) old cs) rest)
          (cons (node (c ∷ pre) none cs) rest)
          id
          size
          (size - 1)
  own-Deleted e =
      let (s, o, n) = own_route old id e in
      record {
        route = s;
        at = (c ∷ pre) ++ [];
        stored = child_stored c pre old cs rest [] (unfold inside in o);
        named = n;
        after = λ q. child_after c pre old none cs cs rest [] q t.0 t.2 (own_inside old cs);
        shape = t;
        absent = λ b h. h;
        counts = ground arith;
        counted = refl;
      }

  child-Deleted :
      (cs' : Nodes) (size' : ℕ)
      → Deleted cs cs' id size size'
      → Deleted
          (cons (node (c ∷ pre) old cs) rest)
          (cons (node (c ∷ pre) old cs') rest)
          id
          size
          size'
  child-Deleted cs' size' d = record {
    route = d.route;
    at = (c ∷ pre) ++ d.at;
    stored = child_stored c pre old cs rest d.at (below_stored old cs d.at t.1 d.stored);
    named = d.named;
    after = λ q.
        child_after c pre old old cs cs' rest d.at q t.0 t.2
          (λ r. below_after old cs cs' d.at r (stored_ne cs d.at t.1 d.stored) d.after);
    shape = (t.0, d.shape, t.2);
    absent = λ b h. h;
    counts = omega (arith, d.counts);
    counted = d.counted;
  }

  later-Deleted :
      (rest' : Nodes) (size' : ℕ)
      → Deleted rest rest' id size size'
      → Deleted
          (cons (node (c ∷ pre) old cs) rest)
          (cons (node (c ∷ pre) old cs) rest')
          id
          size
          size'
  later-Deleted rest' size' d =
      let hid = not_in_child c pre old cs rest d.at t.0 t.2 d.stored in
      record {
        route = d.route;
        at = d.at;
        stored = later_stored c pre old cs rest d.at t.0 t.2 d.stored;
        named = d.named;
        after = λ q. later_after (node (c ∷ pre) old cs) rest rest' d.at q hid (d.after q);
        shape = (d.absent c t.0, t.1, d.shape);
        absent = λ b h. (h.0, d.absent b h.1);
        counts = omega (arith, d.counts);
        counted = d.counted;
      }

no_id :
    (c : ℕ) (pre : Bytes) (old : Option Route) (cs rest : Nodes) (id : String)
    → has_id old id ≡ false
    → find_by_id_nodes cs id ≡ none
    → find_by_id_nodes rest id ≡ none
    → find_by_id_nodes (cons (node (c ∷ pre) old cs) rest) id ≡ none
unfolding find_by_id_nodes
no_id c pre old cs rest id e f g = ground arith

-- The four ends of `deleteByID` at a list of children.
delete_cases :
    (pre : Bytes) (old : Option Route) (cs rest : Nodes) (id : String) (size : ℕ)
    (P : Option (Nodes × ℕ) → Type 0)
    → (has_id old id ≡ true → P (some (cons (node pre none cs) rest, size - 1)))
    → ((cs' : Nodes) (size' : ℕ)
        → delete_nodes cs id size ≡ some (cs', size')
        → P (some (cons (node pre old cs') rest, size')))
    → ((rest' : Nodes) (size' : ℕ)
        → delete_nodes rest id size ≡ some (rest', size')
        → P (some (cons (node pre old cs) rest', size')))
    → (has_id old id ≡ false
        → delete_nodes cs id size ≡ none
        → delete_nodes rest id size ≡ none
        → P none)
    → P (delete_nodes (cons (node pre old cs) rest) id size)
unfolding delete_nodes
delete_cases pre old cs rest id size P own child later absent = elim (Bool-cases (has_id old id)) [
  | inl e ↦ subst P (ground arith) (own e)
  | inr e ↦ elim (Option-cases (delete_nodes cs id size)) [
    | inr ((cs', size'), f) ↦ subst P (ground arith) (child cs' size' f)
    | inl f ↦ elim (Option-cases (delete_nodes rest id size)) [
      | inr ((rest', size'), g) ↦ subst P (ground arith) (later rest' size' g)
      | inl g ↦ subst P (ground arith) (absent e f g)
    ]
  ]
]

-- What holds of the result of `deleteByID`.
abbrev pub Outcome : Nodes → String → ℕ → Option (Nodes × ℕ) → Type 0
Outcome cs id size none = find_by_id_nodes cs id ≡ none
Outcome cs id size (some (cs', size')) = Deleted cs cs' id size size'

-- When `deleteByID` reports a deletion, one route with the ID is gone from its path, every other
-- path reads
-- as before, the tree keeps its shape, and both the number of routes and the counter have lost
-- one; when it
-- reports none, `findByID` finds no route with the ID.
pub delete_nodes-Outcome :
    (cs : Nodes) (id : String) (size : ℕ) → IsTree cs → Outcome cs id size (delete_nodes cs id size)
delete_nodes-Outcome nil id size t = unfold delete_nodes find_by_id_nodes in refl
delete_nodes-Outcome (cons (node [] old cs) rest) id size t = elim t [ ]
delete_nodes-Outcome (cons (node (c ∷ pre) old cs) rest) id size t =
    delete_cases (c ∷ pre) old cs rest id size (Outcome (cons (node (c ∷ pre) old cs) rest) id size)
      (own-Deleted c pre old cs rest id size t)
      (λ cs' size' f.
        child-Deleted c pre old cs rest id size t cs' size'
          (subst (Outcome cs id size) f (delete_nodes-Outcome cs id size t.1)))
      (λ rest' size' g.
        later-Deleted c pre old cs rest id size t rest' size'
          (subst (Outcome rest id size) g (delete_nodes-Outcome rest id size t.2)))
      (λ e f g.
        no_id c pre old cs rest id e
          (subst (Outcome cs id size) f (delete_nodes-Outcome cs id size t.1))
          (subst (Outcome rest id size) g (delete_nodes-Outcome rest id size t.2)))
