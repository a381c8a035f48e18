-- ===== src/Skillink/Slug.antt =====
-- `validate_slug` of crates/skillink/src/validation.rs, against a grammar. A slug is the list of its
-- bytes.
use devhatch.Prelude.{
  is_empty, list_eq, ℕ, Bool, false, not, ◌&&◌, ◌||◌, List, [], ◌∷◌, ◌++◌, if◌then◌else◌, ltb, leb,
  eqb, all, length, nat_eq, string_eq, option_eq,
}

-- `is_ascii_lowercase` and `is_ascii_digit`
abbrev pub is_lower_or_digit : ℕ → Bool
is_lower_or_digit b = leb 97 b && leb b 122 || leb 48 b && leb b 57

-- `is_ascii_alphanumeric`
abbrev pub is_alphanumeric : ℕ → Bool
is_alphanumeric b = is_lower_or_digit b || leb 65 b && leb b 90

abbrev pub is_slug_byte : ℕ → Bool
is_slug_byte b = is_lower_or_digit b || eqb b 45

-- The bytes at 0 and at the end; the code asks for them in a text that is not empty.
abbrev pub first_byte : List ℕ → ℕ
first_byte [] = 0
first_byte (b ∷ bs) = b

abbrev pub last_byte : List ℕ → ℕ
last_byte [] = 0
last_byte (b ∷ bs) = let rest = last_byte bs in if is_empty bs then b else rest

-- `contains("--")`
abbrev pub has_double_dash : List ℕ → Bool
has_double_dash [] = false
has_double_dash (b ∷ bs) = eqb b 45 && eqb (first_byte bs) 45 || has_double_dash bs

-- Whether the result is `Ok`.
unfoldable pub validate_slug : List ℕ → Bool
validate_slug slug = not (
    is_empty slug
    || ltb 64 (length slug)
    || not (all is_slug_byte slug)
    || not (is_alphanumeric (first_byte slug))
    || not (is_alphanumeric (last_byte slug))
    || has_double_dash slug)

-- The grammar: words of lower-case letters and digits, joined by single dashes.
abbrev pub is_word : List ℕ → Bool
is_word bs = not (is_empty bs) && all is_lower_or_digit bs

abbrev pub join_from : List ℕ → List (List ℕ) → List ℕ
join_from word [] = word
join_from word (next ∷ words) = word ++ 45 ∷ join_from next words
