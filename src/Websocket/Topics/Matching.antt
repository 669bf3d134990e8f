-- ===== src/Websocket/Topics/Matching.antt =====
-- Which topics a pattern covers, against the code that decides it.
use nekzus.Prelude.{◌≡◌, ◌≢◌, ◌↔◌, refl, sym, inl, inr, true, List, [], ◌∷◌, arith, Bool-cases}
use mathlib.Core.Path.{subst}
use nekzus.Prelude.Bytes.{Bytes, bytes, beq, beq_iff}
use nekzus.Websocket.Topics.{split_parts, match_parts, match_topic, is_last}

-- The parts of a topic that the parts of a pattern cover: `+` one part, a final `#` any number of
-- parts,
-- and any other part itself.
pub data Covers : List Bytes → List Bytes → Type 0 where
  nothing : Covers [] []
  rest : {ts : List Bytes} → Covers (bytes "#" ∷ []) ts
  one : {ps ts : List Bytes} {t : Bytes} → Covers ps ts → Covers (bytes "+" ∷ ps) (t ∷ ts)
  exact : {ps ts : List Bytes} {p : Bytes} → p ≢ bytes "#" → Covers ps ts → Covers (p ∷ ps) (p ∷ ts)

hash_covers :
    (p : Bytes) (ps ts : List Bytes)
    → beq p (bytes "#") ≡ true
    → is_last ps ≡ true
    → Covers (p ∷ ps) ts
hash_covers p [] ts e l = subst (λ q. Covers (q ∷ []) ts) (sym ((beq_iff p (bytes "#")).0 e)) rest
hash_covers p (q ∷ ps) ts e l = absurd cc

match_parts_sound : (ps ts : List Bytes) → match_parts ps ts ≡ true → Covers ps ts
unfolding match_parts
match_parts_sound [] [] h = nothing
match_parts_sound [] (t ∷ ts) h = absurd cc
match_parts_sound (p ∷ ps) [] h = hash_covers p ps [] (ground arith) (ground arith)
match_parts_sound (p ∷ ps) (t ∷ ts) h = elim (Bool-cases (beq p (bytes "#"))) [
  | inl e ↦ hash_covers p ps (t ∷ ts) e (ground arith)
  | inr e ↦ elim (Bool-cases (beq p (bytes "+"))) [
    | inl f ↦
        subst (λ q. Covers (q ∷ ps) (t ∷ ts)) (sym ((beq_iff p (bytes "+")).0 f))
          (one (match_parts_sound ps ts (ground arith)))
    | inr f ↦
        subst (λ q. Covers (p ∷ ps) (q ∷ ts)) ((beq_iff p t).0 (ground arith))
          (exact (λ s. ground (arith, beq_iff p (bytes "#")))
            (match_parts_sound ps ts (ground arith)))
  ]
]

match_parts_complete : {ps ts : List Bytes} → Covers ps ts → match_parts ps ts ≡ true
unfolding match_parts
match_parts_complete nothing = refl
match_parts_complete (rest {ts = []}) = refl
match_parts_complete (rest {ts = t ∷ ts}) = refl
match_parts_complete (one c) = match_parts_complete c
match_parts_complete (exact {p = p} n c) =
    ground (arith, match_parts_complete c, (beq_iff p (bytes "#")).0, (beq_iff p p).1 refl)

covered :
    (pattern topic : Bytes)
    → match_topic pattern topic ≡ true
    → Covers (split_parts pattern) (split_parts topic)
unfolding match_topic
covered pattern topic h = elim (Bool-cases (beq pattern (bytes "#"))) [
  | inl e ↦
      subst (λ p. Covers (split_parts p) (split_parts topic))
        (sym ((beq_iff pattern (bytes "#")).0 e)) (unfold split_parts in rest)
  | inr e ↦ match_parts_sound (split_parts pattern) (split_parts topic) (ground arith)
]

-- `MatchTopic` holds exactly where neither string is empty and the pattern's parts cover the topic's.
pub match_topic-Covers :
    (pattern topic : Bytes)
    → (match_topic pattern topic ≡ true)
      ↔ ((pattern ≢ []) × (topic ≢ []) × Covers (split_parts pattern) (split_parts topic))
match_topic-Covers pattern topic = (to, from)
  where
    to :
        match_topic pattern topic ≡ true
        → (pattern ≢ []) × (topic ≢ []) × Covers (split_parts pattern) (split_parts topic)
    to h = (
      λ e. unfold match_topic in ground (arith, (beq_iff pattern []).1 e),
      λ e. unfold match_topic in ground (arith, (beq_iff topic []).1 e),
      covered pattern topic h,
    )

    from :
        (pattern ≢ []) × (topic ≢ []) × Covers (split_parts pattern) (split_parts topic)
        → match_topic pattern topic ≡ true
    from (p, t, c) =
        unfold match_topic in
        ground (arith, match_parts_complete c, (beq_iff pattern []).0, (beq_iff topic []).0)
