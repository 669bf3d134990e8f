-- ===== src/Websocket/Topics.antt =====
-- internal/websocket/topics.go. A topic and a pattern are lists of bytes, their parts the segments
-- between dots. The indices of `matchParts` are the rest of the two slices.
pub mod Matching
pub mod Plain
pub mod Patterns
use nekzus.Prelude.{
  ℕ, Bool, true, false, ◌&&◌, ◌||◌, Option, none, some, List, [], ◌∷◌, nat_beq, any, if◌then◌else◌,
}
use nekzus.Prelude.Bytes.{Bytes, bytes, beq, has_prefix, has_suffix}

-- A byte before the first part.
abbrev pub before_first : ℕ → List Bytes → List Bytes
before_first b [] = (b ∷ []) ∷ []
before_first b (part ∷ parts) = (b ∷ part) ∷ parts

-- strings.Split(s, ".")
unfoldable pub split_parts : Bytes → List Bytes
split_parts [] = [] ∷ []
split_parts (b ∷ s) =
    let parts = split_parts s in if nat_beq b b'.' then [] ∷ parts else before_first b parts

abbrev pub is_last : List Bytes → Bool
is_last [] = true
is_last (part ∷ parts) = false

-- matchParts
unfoldable pub match_parts : List Bytes → List Bytes → Bool
unfolding beq
match_parts [] [] = true
match_parts [] (t ∷ ts) = false
match_parts (p ∷ ps) [] = if beq p (bytes "#") then is_last ps else false
match_parts (p ∷ ps) (t ∷ ts) =
    let rest = match_parts ps ts in
    if beq p (bytes "#")
    then is_last ps
    else if beq p (bytes "+")
    then rest
    else if beq p t
    then rest
    else false

unfoldable pub match_topic : Bytes → Bytes → Bool
unfolding match_parts split_parts beq
match_topic pattern topic =
    if beq pattern [] || beq topic []
    then false
    else if beq pattern (bytes "#")
    then true
    else match_parts (split_parts pattern) (split_parts topic)

unfoldable pub matches_any_topic : List Bytes → Bytes → Bool
unfolding match_topic
matches_any_topic patterns topic = any (λ pattern. match_topic pattern topic) patterns

pub data TopicError : Type 0 where
  empty_topic empty_pattern invalid_topic invalid_pattern hash_not_at_end : TopicError
  invalid_wildcard invalid_char_in_topic : TopicError

-- strings.ContainsAny(s, chars)
unfoldable pub contains_any : Bytes → Bytes → Bool
contains_any s chars = any (λ b. any (nat_beq b) chars) s

-- strings.Contains(s, part)
unfoldable pub contains : Bytes → Bytes → Bool
unfolding has_prefix
contains [] part = has_prefix [] part
contains (b ∷ s) part = let later = contains s part in has_prefix (b ∷ s) part || later

-- `none` is no error.
unfoldable pub validate_topic : Bytes → Option TopicError
unfolding beq contains_any contains has_prefix has_suffix
validate_topic topic =
    if beq topic []
    then some empty_topic
    else if contains_any topic (bytes "+#")
    then some invalid_char_in_topic
    else if contains_any topic (32 ∷ 9 ∷ 10 ∷ 13 ∷ [])
    then some invalid_char_in_topic
    else if has_prefix topic (bytes ".") || has_suffix topic (bytes ".")
    then some invalid_topic
    else if contains topic (bytes "..")
    then some invalid_topic
    else if beq topic (bytes ".")
    then some invalid_topic
    else none

-- The loop of `ValidatePattern` over the parts.
unfoldable pub validate_parts : List Bytes → Option TopicError
unfolding beq contains_any
validate_parts [] = none
validate_parts (part ∷ parts) =
    let later = validate_parts parts in
    if beq part []
    then some invalid_pattern
    else if beq part (bytes "#") && (if is_last parts then false else true)
    then some hash_not_at_end
    else if beq part (bytes "+") || beq part (bytes "#")
    then later
    else if contains_any part (bytes "+#")
    then some invalid_wildcard
    else later

unfoldable pub validate_pattern : Bytes → Option TopicError
unfolding beq contains has_prefix has_suffix validate_parts split_parts
validate_pattern pattern =
    if beq pattern []
    then some empty_pattern
    else if has_prefix pattern (bytes ".") || has_suffix pattern (bytes ".")
    then some invalid_pattern
    else if contains pattern (bytes "..")
    then some invalid_pattern
    else validate_parts (split_parts pattern)
