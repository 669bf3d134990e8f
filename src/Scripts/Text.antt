-- ===== src/Scripts/Text.antt =====
-- internal/scripts/scheduler.go: what the parser of cron expressions uses of the standard library, on
-- texts as lists of bytes. The white space that separates fields is that of unicode.IsSpace in UTF-8. An
-- int has 64 bits.
use nekzus.Prelude.{
  ℕ, ◌+◌, ◌-◌, ◌*◌, ◌^◌, Bool, ◌&&◌, ◌||◌, Option, none, some, List, [], ◌∷◌, ltb, leb, nat_beq,
  any, zero, suc, if◌then◌else◌,
}
use nekzus.Prelude.Bytes.{Bytes}

-- A byte before the first part.
abbrev pub before_first : ℕ → List Bytes → List Bytes
before_first b [] = (b ∷ []) ∷ []
before_first b (part ∷ parts) = (b ∷ part) ∷ parts

-- strings.Split(s, sep), where sep is one byte
unfoldable pub split_on : ℕ → Bytes → List Bytes
split_on sep [] = [] ∷ []
split_on sep (b ∷ s) =
    let parts = split_on sep s in if nat_beq b sep then [] ∷ parts else before_first b parts

abbrev pub is_space : ℕ → Bool
is_space b = nat_beq b 32 || (leb 9 b && leb b 13)

-- U+0085 and U+00A0
abbrev pub is_space2 : ℕ → ℕ → Bool
is_space2 a b = nat_beq a 0xc2 && (nat_beq b 0x85 || nat_beq b 0xa0)

-- U+1680, U+2000 to U+200A, U+2028, U+2029, U+202F, U+205F and U+3000
abbrev pub is_space3 : ℕ → ℕ → ℕ → Bool
is_space3 a b c =
    (nat_beq a 0xe1 && (nat_beq b 0x9a && nat_beq c 0x80))
    || ((nat_beq a 0xe2
          && ((nat_beq b 0x80
                && ((leb 0x80 c && leb c 0x8a)
                    || (nat_beq c 0xa8 || (nat_beq c 0xa9 || nat_beq c 0xaf))))
              || (nat_beq b 0x81 && nat_beq c 0x9f)))
        || (nat_beq a 0xe3 && (nat_beq b 0x80 && nat_beq c 0x80)))

-- The number of bytes of the white space at the start of a text; 0 if it starts with none.
unfoldable pub space_width : Bytes → ℕ
space_width [] = 0
space_width (a ∷ []) = if is_space a then 1 else 0
space_width (a ∷ b ∷ []) = if is_space a then 1 else if is_space2 a b then 2 else 0
space_width (a ∷ b ∷ c ∷ s) =
    if is_space a then 1 else if is_space2 a b then 2 else if is_space3 a b c then 3 else 0

-- The first field of a text and the other ones, where a field that is empty is dropped.
abbrev pub end_field : Bytes × List Bytes → List Bytes
end_field ([], fields) = fields
end_field (b ∷ field, fields) = (b ∷ field) ∷ fields

-- The fields of a text behind the bytes that are left of a white space.
unfoldable pub fields_loop : ℕ → Bytes → Bytes × List Bytes
unfolding space_width
fields_loop left [] = ([], [])
fields_loop (suc left) (b ∷ s) = fields_loop left s
fields_loop zero (b ∷ s) =
    let width = space_width (b ∷ s) in
    let (field, fields) = fields_loop (width - 1) s in
    if nat_beq width 0 then (b ∷ field, fields) else ([], end_field (field, fields))

-- strings.Fields
unfoldable pub fields_of : Bytes → List Bytes
unfolding fields_loop
fields_of s = end_field (fields_loop 0 s)

-- strings.Contains(s, sep), where sep is one byte
unfoldable pub contains_byte : ℕ → Bytes → Bool
contains_byte b s = any (nat_beq b) s

-- What strconv.Atoi makes of a text: a number, one below zero or `-0`, or one of its two errors.
pub data Atoi : Type 0 where
  number : ℕ → Atoi
  negative bad_syntax out_of_range : Atoi

-- The number of the digits behind those that were read.
unfoldable pub digits : Bytes → ℕ → Option ℕ
digits [] n = some n
digits (b ∷ s) n =
    let rest = digits s (n * 10 + (b - b'0')) in if leb b'0' b && leb b b'9' then rest else none

abbrev pub in_range : Option ℕ → Atoi
in_range none = bad_syntax
in_range (some n) = if ltb n (2 ^ 63) then number n else out_of_range

abbrev pub below_zero : Option ℕ → Atoi
below_zero none = bad_syntax
below_zero (some n) = if leb n (2 ^ 63) then negative else out_of_range

-- A text without a sign.
unfoldable pub unsigned : Bytes → Option ℕ
unfolding digits
unsigned [] = none
unsigned (b ∷ s) = digits (b ∷ s) 0

unfoldable pub atoi : Bytes → Atoi
unfolding unsigned
atoi [] = bad_syntax
atoi (b ∷ s) =
    if nat_beq b b'-'
    then below_zero (unsigned s)
    else if nat_beq b b'+'
    then in_range (unsigned s)
    else in_range (unsigned (b ∷ s))

-- The number where the error is dropped: Atoi returns 0 or the greatest int with its error. No text with
-- a `-` comes here.
abbrev pub value_of : Atoi → ℕ
value_of (number n) = n
value_of negative = 0
value_of bad_syntax = 0
value_of out_of_range = 2 ^ 63 - 1
