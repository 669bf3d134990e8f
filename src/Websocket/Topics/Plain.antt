-- ===== src/Websocket/Topics/Plain.antt =====
-- A topic without wildcards as a pattern, and the parts of a valid pattern.
use mathlib.Core.Path.{subst}
use nekzus.Prelude.{
  ℕ, ◌≡◌, ◌≢◌, ◌↔◌, refl, sym, ap, ◌∙◌, inl, inr, true, false, none, List, [], ◌∷◌, ◌++◌, arith,
  Bool-cases, All, any, nat_beq,
}
use nekzus.Prelude.Bytes.{Bytes, bytes, beq_iff}
use nekzus.Websocket.Topics.{split_parts, before_first, match_topic, contains_any, validate_topic}
use nekzus.Websocket.Topics.Matching.{Covers, nothing, rest, one, exact, match_topic-Covers}

-- The parts with dots between them.
unfoldable pub join_parts : List Bytes → Bytes
join_parts [] = []
join_parts (part ∷ []) = part
join_parts (part ∷ next ∷ parts) = part ++ (b'.' ∷ join_parts (next ∷ parts))

join-before_first :
    (b : ℕ) (parts : List Bytes) → join_parts (before_first b parts) ≡ b ∷ join_parts parts
unfolding join_parts
join-before_first b [] = refl
join-before_first b (part ∷ []) = refl
join-before_first b (part ∷ next ∷ parts) = refl

-- A topic is split into at least one part.
first_part : (s : Bytes) → (part : Bytes) × (parts : List Bytes) × (split_parts s ≡ part ∷ parts)
unfolding split_parts
first_part [] = ([], [], refl)
first_part (b ∷ s) =
    let (part, parts, e) = first_part s in
    elim (Bool-cases (nat_beq b b'.')) [
      | inl d ↦ ([], split_parts s, ground arith)
      | inr d ↦ (b ∷ part, parts, ground arith)
    ]

join_empty : (parts : List Bytes) → parts ≢ [] → join_parts ([] ∷ parts) ≡ b'.' ∷ join_parts parts
unfolding join_parts
join_empty [] n = absurd (n refl)
join_empty (part ∷ parts) n = refl

join-split_parts : (s : Bytes) → join_parts (split_parts s) ≡ s
unfolding split_parts
join-split_parts [] = unfold join_parts in refl
join-split_parts (b ∷ s) = elim (Bool-cases (nat_beq b b'.')) [
  | inl d ↦
      let (part, parts, e) = first_part s in
      ground (arith, join-split_parts s, join_empty (split_parts s) (λ n. ground arith))
  | inr d ↦ ground (arith, join-split_parts s, join-before_first b (split_parts s))
]

-- No part of a pattern has a wildcard's character.
abbrev pub NoWildcard : List Bytes → Type 0
NoWildcard parts = All (λ part. contains_any part (bytes "+#") ≡ false) parts

before_first-NoWildcard :
    (b : ℕ) (parts : List Bytes)
    → any (nat_beq b) (bytes "+#") ≡ false
    → NoWildcard parts
    → NoWildcard (before_first b parts)
unfolding contains_any
before_first-NoWildcard b [] h n = (ground arith, tt)
before_first-NoWildcard b (part ∷ parts) h n = (ground arith, n.1)

split_parts-NoWildcard :
    (s : Bytes) → contains_any s (bytes "+#") ≡ false → NoWildcard (split_parts s)
unfolding split_parts contains_any
split_parts-NoWildcard [] h = (refl, tt)
split_parts-NoWildcard (b ∷ s) h = elim (Bool-cases (nat_beq b b'.')) [
  | inl d ↦
      subst NoWildcard {x = [] ∷ split_parts s} (ground arith)
        (refl, split_parts-NoWildcard s (ground arith))
  | inr d ↦ subst NoWildcard {x = before_first b (split_parts s)} (ground arith) (
      before_first-NoWildcard b (split_parts s) (ground arith)
        (split_parts-NoWildcard s (ground arith)))
]

covers_plain : {ps ts : List Bytes} → NoWildcard ps → Covers ps ts → ps ≡ ts
unfolding contains_any
covers_plain n nothing = refl
covers_plain n rest = absurd (ground (arith, n.0))
covers_plain n (one c) = absurd (ground (arith, n.0))
covers_plain n (exact {p = p} h c) = ap (λ xs. p ∷ xs) (covers_plain n.1 c)

covers_itself : (ps : List Bytes) → NoWildcard ps → Covers ps ps
unfolding contains_any
covers_itself [] n = nothing
covers_itself (p ∷ ps) n =
    exact (λ e. ground (arith, n.0, ap (λ q. contains_any q (bytes "+#")) e)) (covers_itself ps n.1)

-- A topic that `ValidateTopic` accepts, taken as a pattern, matches that topic and no other one.
pub match_topic-plain_iff :
    (plain topic : Bytes)
    → validate_topic plain ≡ none
    → (match_topic plain topic ≡ true) ↔ (plain ≡ topic)
match_topic-plain_iff plain topic h = (to, from)
  where
    free : NoWildcard (split_parts plain)
    free = split_parts-NoWildcard plain (unfold validate_topic in ground arith)

    filled : plain ≢ []
    filled e = unfold validate_topic in ground (arith, (beq_iff plain []).1 e)

    to : match_topic plain topic ≡ true → plain ≡ topic
    to m =
        let (p, t, c) = (match_topic-Covers plain topic).0 m in
        sym (join-split_parts plain) ∙ ap join_parts (covers_plain free c) ∙ join-split_parts topic

    from : plain ≡ topic → match_topic plain topic ≡ true
    from e =
        subst (λ t. match_topic plain t ≡ true) e
          ((match_topic-Covers plain plain).1
            (filled, filled, covers_itself (split_parts plain) free))
