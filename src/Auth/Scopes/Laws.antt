-- ===== src/Auth/Scopes/Laws.antt =====
-- When a token's scopes suffice.
use mathlib.Core.Path.{subst}
use mathlib.Core.List.{append_assoc}
use nekzus.Prelude.{
  ◌-◌, ◌≡◌, ◌↔◌, refl, sym, ap, ◌∙◌, length-append, inl, inr, true, List, [], ◌∷◌, ◌++◌, arith, any,
  All, length, Bool-cases,
}
use nekzus.Prelude.Bytes.{
  Bytes, bytes, beq, beq_iff, has_prefix, has_prefix_sound, has_prefix-append, has_suffix_sound,
  has_suffix-append, take-append,
}
use nekzus.Auth.Scopes.{
  Json, text, other, array, token_scope_set, trim_star, wildcard_match, scope_granted, all_granted,
  has_all_scopes,
}

-- A scope of the token grants a required one: it is that scope, or it is `prefix:*` and the required
-- scope begins with `prefix:`.
pub data Grants (required : Bytes) : List Json → Type 0 where
  exact : {items : List Json} → Grants required (text required ∷ items)
  wildcard :
      {items : List Json} (p r : Bytes)
      → required ≡ (p ++ bytes ":") ++ r
      → Grants required (text (p ++ bytes ":*") ∷ items)
  later : {items : List Json} (j : Json) → Grants required items → Grants required (j ∷ items)

trim_star_lem : (q : Bytes) → trim_star (q ++ bytes "*") ≡ q
unfolding trim_star
trim_star_lem q =
    let l : length (q ++ bytes "*") - 1 ≡ length q = omega (arith, length-append q (bytes "*")) in
    rw (has_suffix-append q (bytes "*"), l) (take-append q (bytes "*"))

trim_star-append : (p : Bytes) → trim_star (p ++ bytes ":*") ≡ p ++ bytes ":"
trim_star-append p =
    ap trim_star (sym (append_assoc p (bytes ":") (bytes "*"))) ∙ trim_star_lem (p ++ bytes ":")

wildcard_sound :
    (required s : Bytes)
    → wildcard_match required s ≡ true
    → (p : Bytes) × (r : Bytes) × (s ≡ p ++ bytes ":*") × (required ≡ (p ++ bytes ":") ++ r)
unfolding wildcard_match
wildcard_sound required s h =
    let (p, e) = has_suffix_sound s (bytes ":*") (ground arith) in
    let pre : has_prefix required (trim_star s) ≡ true = ground arith in
    let (r, f) = has_prefix_sound required (trim_star s) pre in
    (p, r, e, f ∙ ap (λ t. t ++ r) (ap trim_star e ∙ trim_star-append p))

wildcard_complete : (p r : Bytes) → wildcard_match ((p ++ bytes ":") ++ r) (p ++ bytes ":*") ≡ true
unfolding wildcard_match
wildcard_complete p r =
    rw (has_suffix-append p (bytes ":*"), trim_star-append p) (has_prefix-append (p ++ bytes ":") r)

any_exact_sound :
    (required : Bytes) (items : List Json)
    → any (beq required) (token_scope_set items) ≡ true
    → Grants required items
unfolding token_scope_set
any_exact_sound required [] h = absurd cc
any_exact_sound required (other ∷ items) h = later other (any_exact_sound required items h)
any_exact_sound required (text s ∷ items) h = elim (Bool-cases (beq required s)) [
  | inl e ↦ subst (λ t. Grants required (text t ∷ items)) ((beq_iff required s).0 e) exact
  | inr e ↦ later (text s) (any_exact_sound required items (ground arith))
]

any_wildcard_sound :
    (required : Bytes) (items : List Json)
    → any (wildcard_match required) (token_scope_set items) ≡ true
    → Grants required items
unfolding token_scope_set
any_wildcard_sound required [] h = absurd cc
any_wildcard_sound required (other ∷ items) h = later other (any_wildcard_sound required items h)
any_wildcard_sound required (text s ∷ items) h = elim (Bool-cases (wildcard_match required s)) [
  | inl e ↦
      let (p, r, se, re) = wildcard_sound required s e in
      subst (λ t. Grants required (text t ∷ items)) (sym se) (wildcard p r re)
  | inr e ↦ later (text s) (any_wildcard_sound required items (ground arith))
]

scope_granted_sound :
    (required : Bytes) (items : List Json)
    → scope_granted (token_scope_set items) required ≡ true
    → Grants required items
scope_granted_sound required items h =
    elim (Bool-cases (any (beq required) (token_scope_set items))) [
      | inl e ↦ any_exact_sound required items e
      | inr e ↦ any_wildcard_sound required items (unfold scope_granted in ground arith)
    ]

scope_granted_complete :
    {required : Bytes} {items : List Json}
    → Grants required items
    → scope_granted (token_scope_set items) required ≡ true
unfolding scope_granted token_scope_set
scope_granted_complete {required} exact = ground (arith, (beq_iff required required).1 refl)
scope_granted_complete {required} (wildcard p r e) =
    ground (arith, wildcard_complete p r, ap (λ t. wildcard_match t (p ++ bytes ":*")) e)
scope_granted_complete (later other g) = scope_granted_complete g
scope_granted_complete {required} (later (text s) g) = ground (arith, scope_granted_complete g)

all_granted_sound :
    (items : List Json) (required : List Bytes)
    → all_granted (token_scope_set items) required ≡ true
    → All (λ r. Grants r items) required
unfolding all_granted
all_granted_sound items [] h = tt
all_granted_sound items (r ∷ rest) h =
    (scope_granted_sound r items (ground arith), all_granted_sound items rest (ground arith))

all_granted_complete :
    (items : List Json) (required : List Bytes)
    → All (λ r. Grants r items) required
    → all_granted (token_scope_set items) required ≡ true
unfolding all_granted
all_granted_complete items [] g = refl
all_granted_complete items (r ∷ rest) g =
    rw (scope_granted_complete g.0) (all_granted_complete items rest g.1)

-- `HasAllScopes` holds exactly where every required scope is granted by some scope of the token:
-- the same scope, or `p:*` for one that begins with `p:`.
pub has_all_scopes-Grants :
    (items : List Json) (required : List Bytes)
    → (has_all_scopes (array items) required ≡ true) ↔ All (λ r. Grants r items) required
has_all_scopes-Grants items [] = (λ h. tt, λ h. unfold has_all_scopes in refl)
has_all_scopes-Grants items (r ∷ rest) = (
  λ h. all_granted_sound items (r ∷ rest) (unfold has_all_scopes in h),
  λ g. unfold has_all_scopes in all_granted_complete items (r ∷ rest) g,
)
