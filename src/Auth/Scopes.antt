-- ===== src/Auth/Scopes.antt =====
-- internal/auth/scopes.go: the scopes of a token against those that a handler requires. A scope is a
-- list of bytes.
pub mod Laws
use nekzus.Prelude.{
  ℕ, ◌-◌, Bool, true, false, ◌&&◌, ◌||◌, Option, none, some, List, [], ◌∷◌, any, all, length, take,
  if◌then◌else◌,
}
use nekzus.Prelude.Bytes.{Bytes, bytes, beq, has_prefix, has_suffix}

-- An element of a JSON array: a string, or something else.
pub data Json : Type 0 where
  text : Bytes → Json
  other : Json

-- A claim: an array, or something else; a missing claim is something else.
pub data Claim : Type 0 where
  array : List Json → Claim
  not_array : Claim

-- The set of a token's scopes.
unfoldable pub token_scope_set : List Json → List Bytes
token_scope_set [] = []
token_scope_set (text s ∷ rest) = s ∷ token_scope_set rest
token_scope_set (other ∷ rest) = token_scope_set rest

-- strings.TrimSuffix(tokenScope, "*")
unfoldable pub trim_star : Bytes → Bytes
unfolding has_suffix
trim_star s = if has_suffix s (bytes "*") then take (length s - 1) s else s

-- The body of the loop over the token's scopes.
unfoldable pub wildcard_match : Bytes → Bytes → Bool
unfolding has_suffix has_prefix trim_star
wildcard_match required token_scope =
    if has_suffix token_scope (bytes ":*")
    then has_prefix required (trim_star token_scope)
    else false

-- One round of the loop over the required scopes.
unfoldable pub scope_granted : List Bytes → Bytes → Bool
unfolding beq wildcard_match
scope_granted scopes required =
    if any (beq required) scopes then true else any (wildcard_match required) scopes

unfoldable pub all_granted : List Bytes → List Bytes → Bool
unfolding scope_granted
all_granted scopes [] = true
all_granted scopes (required ∷ rest) =
    let later = all_granted scopes rest in if scope_granted scopes required then later else false

-- HasAllScopes, on the claim "scopes" of the token.
unfoldable pub has_all_scopes : Claim → List Bytes → Bool
unfolding token_scope_set all_granted
has_all_scopes claim [] = true
has_all_scopes (array items) (r ∷ required) = all_granted (token_scope_set items) (r ∷ required)
has_all_scopes not_array (r ∷ required) = false

-- HasAllScopesFromAny, on the claim itself.
unfoldable pub has_all_scopes_from_any : Claim → List Bytes → Bool
unfolding token_scope_set all_granted
has_all_scopes_from_any claim [] = true
has_all_scopes_from_any not_array (r ∷ required) = false
has_all_scopes_from_any (array items) (r ∷ required) =
    all_granted (token_scope_set items) (r ∷ required)
