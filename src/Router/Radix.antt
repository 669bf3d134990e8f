-- ===== src/Router/Radix.antt =====
-- internal/router/radix.go: the radix tree of the routes. A path is a list of bytes. The nodes of a
-- tree are never shared, so a node is a value and an update returns the new node; the counter `size`
-- is threaded through the functions that change it.
pub mod Shape
pub mod Lookup
pub mod Invariant
pub mod Longest
pub mod Maximal
pub mod Count
pub mod Found
pub mod Deletion
pub mod Root
pub mod Removal
pub mod Insertion
pub mod Validation
pub mod Search
use nekzus.Prelude.{
  ℕ, zero, suc, ◌+◌, ◌-◌, String, Bool, true, false, not, ◌&&◌, ◌||◌, Option, none, some, List, [],
  ◌∷◌, ltb, nat_beq, ◌==◌, Result, ok, err, if◌then◌else◌, length, take, drop,
}
use nekzus.Prelude.Bytes.{Bytes, bytes, beq, cut_prefix, has_suffix}
use nekzus.Router.Route.{Route}

mutual
  pub data Node : Type 0 where
    node : Bytes → Option Route → Nodes → Node

  -- []*radixNode
  pub data Nodes : Type 0 where
    nil : Nodes
    cons : Node → Nodes → Nodes

pub record RadixTree : Type 0 where
  pub root : Node
  pub size : ℕ

unfoldable pub new_radix_tree : RadixTree
new_radix_tree = record { root = node [] none nil; size = 0 }

unfoldable pub common_prefix_len : Bytes → Bytes → ℕ
common_prefix_len [] b = 0
common_prefix_len (x ∷ a) [] = 0
common_prefix_len (x ∷ a) (y ∷ b) =
    let rest = common_prefix_len a b in if nat_beq x y then suc rest else 0

-- The first of two results of a search.
abbrev pub or_else {ℓ} : {A : Type ℓ} → Option A → Option A → Option A
or_else none o = o
or_else (some a) o = some a

abbrev pub prefix_of : Node → Bytes
prefix_of (node prefix route children) = prefix

abbrev pub route_of : Node → Option Route
route_of (node prefix route children) = route

abbrev pub children_of : Node → Nodes
children_of (node prefix route children) = children

-- findByPathHelper
unfoldable mutual
  unfolding cut_prefix

  pub find_by_path_node : Node → Bytes → Option Route
  find_by_path_node (node prefix route children) [] = route
  find_by_path_node (node prefix route children) (a ∷ p) = find_by_path_nodes children (a ∷ p)

  pub find_by_path_nodes : Nodes → Bytes → Option Route
  find_by_path_nodes nil path = none
  find_by_path_nodes (cons child rest) path =
      or_else
        (elim (cut_prefix (prefix_of child) path) [
          | none ↦ none
          | some remainder ↦ find_by_path_node child remainder
        ])
        (find_by_path_nodes rest path)

-- if node.route == nil { t.size++ }; node.route = route
abbrev pub counted : Option Route → ℕ → ℕ
counted none size = size + 1
counted (some _) size = size

abbrev pub set_route : Node → Route → ℕ → Node × ℕ
set_route (node prefix old children) route size =
    (node prefix (some route) children, counted old size)

-- Case 3 of `insert`: the child keeps the common prefix, and what it was becomes a child of it.
abbrev pub split : Node → ℕ → Bytes → Route → ℕ → Node × ℕ
split (node prefix old children) common path route size =
    let moved = node (drop common prefix) old children in
    if ltb common (length path)
    then (
      node (take common prefix) none
          (cons moved (cons (node (drop common path) (some route) nil) nil)),
      size + 1,
    )
    else (node (take common prefix) (some route) (cons moved nil), size + 1)

-- insert, with its loop over the children
unfoldable mutual
  unfolding common_prefix_len

  pub insert_node : Node → Bytes → Route → ℕ → Node × ℕ
  insert_node (node prefix old children) [] route size =
      (node prefix (some route) children, counted old size)
  insert_node (node prefix old children) (a ∷ p) route size =
      let (children', size') = insert_nodes children (a ∷ p) route size in
      (node prefix old children', size')

  pub insert_nodes : Nodes → Bytes → Route → ℕ → Nodes × ℕ
  insert_nodes nil path route size = (cons (node path (some route) nil) nil, size + 1)
  insert_nodes (cons child rest) path route size =
      let common = common_prefix_len path (prefix_of child) in
      let onward : Nodes × ℕ =
        (let (rest', size') = insert_nodes rest path route size in (cons child rest', size')) in
      let deeper : Nodes × ℕ =
        (let (child', size') = insert_node child (drop common path) route size in
          (cons child' rest, size')) in
      if nat_beq common 0
      then onward
      else if nat_beq common (length (prefix_of child)) && nat_beq common (length path)
      then (let (child', size') = set_route child route size in (cons child' rest, size'))
      else if nat_beq common (length (prefix_of child))
      then deeper
      else (let (child', size') = split child common path route size in (cons child' rest, size'))

-- The route of a node matches where the path ends there, goes on with '/', or the route accepts every
-- sub-path because its own path ends with '/'.
unfoldable pub matches_here : Option Route → Bytes → Option Route
unfolding has_suffix
matches_here none path = none
matches_here (some route) [] = some route
matches_here (some route) (a ∷ p) =
    if nat_beq a b'/'
    then some route
    else if has_suffix route.path_base (bytes "/")
    then some route
    else none

-- A match found in a child replaces the best one if its path is longer.
abbrev pub better : Option Route → Option Route → Option Route
better best none = best
better none (some found) = some found
better (some best) (some found) =
    if ltb (length best.path_base) (length found.path_base) then some found else some best

-- search, with its loop over the children
unfoldable mutual
  unfolding matches_here cut_prefix

  pub search_node : Node → Bytes → Option Route
  search_node (node prefix route children) [] = matches_here route []
  search_node (node prefix route children) (a ∷ p) =
      search_nodes children (a ∷ p) (matches_here route (a ∷ p))

  pub search_nodes : Nodes → Bytes → Option Route → Option Route
  search_nodes nil path best = best
  search_nodes (cons child rest) path best = search_nodes rest path (
      better best (elim (cut_prefix (prefix_of child) path) [
        | none ↦ none
        | some remainder ↦ search_node child remainder
      ]))

-- node.route != nil && node.route.RouteID == routeID
abbrev pub has_id : Option Route → String → Bool
has_id none id = false
has_id (some route) id = route.route_id == id

-- deleteByID; `none` is the result false, which leaves the tree as it was.
unfoldable mutual
  pub delete_node : Node → String → ℕ → Option (Node × ℕ)
  delete_node (node prefix route children) id size =
      if has_id route id
      then some (node prefix none children, size - 1)
      else elim (delete_nodes children id size) [
        | none ↦ none
        | some (children', size') ↦ some (node prefix route children', size')
      ]

  pub delete_nodes : Nodes → String → ℕ → Option (Nodes × ℕ)
  delete_nodes nil id size = none
  delete_nodes (cons child rest) id size = elim (delete_node child id size) [
    | some (child', size') ↦ some (cons child' rest, size')
    | none ↦ elim (delete_nodes rest id size) [
      | none ↦ none
      | some (rest', size') ↦ some (cons child rest', size')
    ]
  ]

-- findByIDHelper
unfoldable mutual
  pub find_by_id_node : Node → String → Option Route
  find_by_id_node (node prefix route children) id =
      if has_id route id then route else find_by_id_nodes children id

  pub find_by_id_nodes : Nodes → String → Option Route
  find_by_id_nodes nil id = none
  find_by_id_nodes (cons child rest) id =
      or_else (find_by_id_node child id) (find_by_id_nodes rest id)

abbrev pub find_by_path : RadixTree → Bytes → Option Route
find_by_path t path = find_by_path_node t.root path

abbrev pub find_by_id : RadixTree → String → Option Route
find_by_id t id = find_by_id_node t.root id

-- t.deleteByID(t.root, routeID), with its result dropped
abbrev pub after_delete : RadixTree → Option (Node × ℕ) → RadixTree
after_delete t none = t
after_delete t (some (root, size)) = record { root = root; size = size }

unfoldable pub delete : RadixTree → String → RadixTree × Bool
unfolding delete_node
delete t id =
    let result = delete_node t.root id t.size in
    (after_delete t result, elim result [ none ↦ false | some _ ↦ true ])

-- "If updating existing route, delete old path first"
unfoldable pub delete_old_path : RadixTree → Route → RadixTree
unfolding delete_node find_by_id_node beq
delete_old_path t route = elim (find_by_id t route.route_id) [
  | none ↦ t
  | some existing ↦
      if beq existing.path_base route.path_base
      then t
      else after_delete t (delete_node t.root route.route_id t.size)
]

abbrev pub insert_at : RadixTree → Route → RadixTree
insert_at t route =
    let (root, size) = insert_node t.root route.path_base route t.size in
    record { root = root; size = size }

unfoldable pub insert : RadixTree → Route → RadixTree
unfolding delete_old_path insert_node
insert t route = insert_at (delete_old_path t route) route

-- The path and the route that already uses it.
pub record PathUsed : Type 0 where
  pub path : Bytes
  pub used_by : String

unfoldable pub insert_with_validation : RadixTree → Route → Result PathUsed RadixTree
unfolding insert find_by_path_node
insert_with_validation t route = elim (find_by_path t route.path_base) [
  | none ↦ ok (insert t route)
  | some existing ↦
      if existing.route_id == route.route_id
      then ok (insert t route)
      else err (record { path = route.path_base; used_by = existing.route_id })
]

unfoldable pub search : RadixTree → Bytes → Option Route
unfolding search_node
search t path = search_node t.root path
