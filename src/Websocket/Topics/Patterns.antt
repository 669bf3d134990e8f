-- ===== src/Websocket/Topics/Patterns.antt =====
-- What `ValidatePattern` accepts.
use mathlib.Core.Path.{subst}
use nekzus.Prelude.{
  ◌≡◌, ◌≢◌, ◌↔◌, refl, sym, ap, inl, inr, true, false, none, List, [], ◌∷◌, arith, Bool-cases,
}
use nekzus.Prelude.Bytes.{Bytes, bytes, beq, beq_iff}
use nekzus.Websocket.Topics.{split_parts, is_last, contains_any, validate_parts, validate_pattern}

-- The parts of a pattern: `+`, a final `#`, and texts that are not empty and have neither character.
pub data IsPattern : List Bytes → Type 0 where
  done : IsPattern []
  hash : IsPattern (bytes "#" ∷ [])
  plus : {ps : List Bytes} → IsPattern ps → IsPattern (bytes "+" ∷ ps)
  literal :
      {ps : List Bytes} {p : Bytes}
      → p ≢ []
      → contains_any p (bytes "+#") ≡ false
      → IsPattern ps
      → IsPattern (p ∷ ps)

hash_last :
    (p : Bytes) (ps : List Bytes)
    → beq p (bytes "#") ≡ true
    → is_last ps ≡ true
    → IsPattern (p ∷ ps)
hash_last p [] e l = subst (λ q. IsPattern (q ∷ [])) (sym ((beq_iff p (bytes "#")).0 e)) hash
hash_last p (q ∷ ps) e l = absurd cc

validate_parts_sound : (ps : List Bytes) → validate_parts ps ≡ none → IsPattern ps
unfolding validate_parts
validate_parts_sound [] h = done
validate_parts_sound (p ∷ ps) h = elim (Bool-cases (beq p (bytes "#"))) [
  | inl e ↦ hash_last p ps e (ground arith)
  | inr e ↦ elim (Bool-cases (beq p (bytes "+"))) [
    | inl f ↦
        subst (λ q. IsPattern (q ∷ ps)) (sym ((beq_iff p (bytes "+")).0 f))
          (plus (validate_parts_sound ps (ground arith)))
    | inr f ↦
        literal (λ n. ground (arith, (beq_iff p []).1 n)) (ground arith)
          (validate_parts_sound ps (ground arith))
  ]
]

validate_parts_complete : {ps : List Bytes} → IsPattern ps → validate_parts ps ≡ none
unfolding validate_parts contains_any
validate_parts_complete done = refl
validate_parts_complete hash = refl
validate_parts_complete (plus i) = validate_parts_complete i
validate_parts_complete (literal {p = p} n f i) =
    let sharp : beq p (bytes "#") ≡ true → contains_any p (bytes "+#") ≡ true =
      λ e. ap (λ q. contains_any q (bytes "+#")) ((beq_iff p (bytes "#")).0 e) in
    ground (arith, validate_parts_complete i, (beq_iff p []).0, sharp)

-- The loop of `ValidatePattern` finds no error exactly where the parts are `+`, a `#` at the end, and
-- texts that are not empty and have neither of the two characters.
pub validate_parts-IsPattern_iff : (ps : List Bytes) → (validate_parts ps ≡ none) ↔ IsPattern ps
validate_parts-IsPattern_iff ps = (validate_parts_sound ps, validate_parts_complete)

-- Where `ValidatePattern` accepts a pattern, its parts are `+`, a `#` at the end, and texts that
-- are not
-- empty and have neither of the two characters.
pub validate_pattern-IsPattern :
    (pattern : Bytes) → validate_pattern pattern ≡ none → IsPattern (split_parts pattern)
unfolding validate_pattern
validate_pattern-IsPattern pattern h = validate_parts_sound (split_parts pattern) (ground arith)
