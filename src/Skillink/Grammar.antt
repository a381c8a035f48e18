-- ===== src/Skillink/Grammar.antt =====
-- What `validate_slug` accepts.
use devhatch.Prelude.{
  all_mono, is_empty, list_eq, ℕ, ◌≤◌, ◌≡◌, refl, sym, ap, ◌∙◌, ◌↔◌, inl, inr, Bool, true, false,
  not, ◌&&◌, ◌||◌, List, [], ◌∷◌, arith, ltb, eqb, Bool-cases, all, length, nat_eq, string_eq,
  option_eq, split, put_first, lacks, split-one, split-append,
}
use devhatch.Skillink.Slug.{
  is_lower_or_digit, is_alphanumeric, is_slug_byte, last_byte, has_double_dash, validate_slug,
  is_word, join_from,
}
use devhatch.Skillink.Scan.{scan_words, scan_words-ok}

last_is_slug_byte :
    (bs : List ℕ)
    → is_empty bs ≡ false
    → all is_slug_byte bs ≡ true
    → is_slug_byte (last_byte bs) ≡ true
last_is_slug_byte [] e h = absurd (cc e)
last_is_slug_byte (b ∷ []) e h = left (is_slug_byte b) _ h
  where
    left : (x y : Bool) → x && y ≡ true → x ≡ true
    left x y h = ground arith
last_is_slug_byte (b ∷ c ∷ bs) e h = last_is_slug_byte (c ∷ bs) refl (right (is_slug_byte b) _ h)
  where
    right : (x y : Bool) → x && y ≡ true → y ≡ true
    right x y h = ground arith

slug_byte_alphanumeric : (b : ℕ) → is_slug_byte b ≡ true → is_alphanumeric b ≡ is_lower_or_digit b
slug_byte_alphanumeric b h = ground arith

first_alphanumeric :
    (b : ℕ) (bs : List ℕ)
    → all is_slug_byte (b ∷ bs) ≡ true
    → is_alphanumeric b ≡ is_lower_or_digit b
first_alphanumeric b bs h = slug_byte_alphanumeric b (left (is_slug_byte b) _ h)
  where
    left : (x y : Bool) → x && y ≡ true → x ≡ true
    left x y h = ground arith

tests :
    (long a f f' l l' d : Bool)
    → (a ≡ true → f ≡ f')
    → (a ≡ true → l ≡ l')
    → not (false || long || not a || not f || not l || d)
      ≡ (not long && (true && f' && (a && (false || l') && not d)))
tests long a f f' l l' d g h = ground arith

validate_slug-scan :
    (slug : List ℕ) → validate_slug slug ≡ (not (ltb 64 (length slug)) && scan_words true slug)
unfolding validate_slug scan_words
validate_slug-scan [] = refl
validate_slug-scan (b ∷ bs) =
    tests (ltb 64 (length (b ∷ bs))) (all is_slug_byte (b ∷ bs)) (is_alphanumeric b)
      (is_lower_or_digit b) (is_alphanumeric (last_byte (b ∷ bs)))
      (is_lower_or_digit (last_byte (b ∷ bs))) (has_double_dash (b ∷ bs)) (first_alphanumeric b bs)
      (λ h. slug_byte_alphanumeric (last_byte (b ∷ bs)) (last_is_slug_byte (b ∷ bs) refl h))
    ∙ ap (λ x. not (ltb 64 (length (b ∷ bs))) && x) (sym (scan_words-ok (b ∷ bs)).1)

-- The parts, where the first goes on with a word.
abbrev tail_ok : List (List ℕ) → Bool
tail_ok [] = true
tail_ok (part ∷ parts) = all is_lower_or_digit part && all is_word parts

all-put_first :
    (c : ℕ) (parts : List (List ℕ))
    → all is_word (put_first c parts) ≡ (is_lower_or_digit c && tail_ok parts)
all-put_first c [] = ground arith
all-put_first c (part ∷ parts) = assoc (is_lower_or_digit c) _ _
  where
    assoc : (x y z : Bool) → ((true && (x && y)) && z) ≡ (x && (y && z))
    assoc x y z = ground arith

tail_ok-put_first :
    (c : ℕ) (parts : List (List ℕ))
    → tail_ok (put_first c parts) ≡ (is_lower_or_digit c && tail_ok parts)
tail_ok-put_first c [] = ground arith
tail_ok-put_first c (part ∷ parts) = assoc (is_lower_or_digit c) _ _
  where
    assoc : (x y z : Bool) → ((x && y) && z) ≡ (x && (y && z))
    assoc x y z = ground arith

split-scan :
    (bs : List ℕ)
    → (tail_ok (split 45 bs) ≡ scan_words false bs)
      × (all is_word (split 45 bs) ≡ scan_words true bs)
unfolding split scan_words
split-scan [] = (refl, refl)
split-scan (b ∷ bs) =
    let (e, f) = split-scan bs in
    elim (Bool-cases (eqb b 45)) [
      | inl h ↦ (rw h f, rw h refl)
      | inr h ↦ (
        rw h (tail_ok-put_first b (split 45 bs) ∙ ap (λ x. is_lower_or_digit b && x) e),
        rw h (all-put_first b (split 45 bs) ∙ ap (λ x. is_lower_or_digit b && x) e),
      )
    ]

abbrev join_parts : List (List ℕ) → List ℕ
join_parts [] = []
join_parts (part ∷ parts) = join_from part parts

is_empty-split : (bs : List ℕ) → is_empty (split 45 bs) ≡ false
unfolding split
is_empty-split [] = refl
is_empty-split (b ∷ bs) = elim (Bool-cases (eqb b 45)) [
  | inl h ↦ rw h refl
  | inr h ↦ rw h (put (split 45 bs))
]
  where
    put : (parts : List (List ℕ)) → is_empty (put_first b parts) ≡ false
    put [] = refl
    put (part ∷ parts) = refl

join_parts-put_first :
    (c : ℕ) (parts : List (List ℕ)) → join_parts (put_first c parts) ≡ c ∷ join_parts parts
join_parts-put_first c [] = refl
join_parts-put_first c (part ∷ []) = refl
join_parts-put_first c (part ∷ next ∷ parts) = refl

join_parts-dash :
    (parts : List (List ℕ))
    → is_empty parts ≡ false
    → join_parts ([] ∷ parts) ≡ 45 ∷ join_parts parts
join_parts-dash [] h = absurd (cc h)
join_parts-dash (part ∷ parts) h = refl

join_parts-split : (bs : List ℕ) → join_parts (split 45 bs) ≡ bs
unfolding split
join_parts-split [] = refl
join_parts-split (b ∷ bs) = elim (Bool-cases (eqb b 45)) [
  | inl h ↦ rw h (
      join_parts-dash (split 45 bs) (is_empty-split bs)
      ∙ rw ((eqb_45 b h)) (ap (λ l. 45 ∷ l) (join_parts-split bs)))
  | inr h ↦ rw h (join_parts-put_first b (split 45 bs) ∙ ap (λ l. b ∷ l) (join_parts-split bs))
]
  where
    eqb_45 : (c : ℕ) → eqb c 45 ≡ true → c ≡ 45
    eqb_45 c h = ground arith

is_word-lacks : (word : List ℕ) → is_word word ≡ true → lacks 45 word ≡ true
is_word-lacks word h = all_mono _ _ word (λ b e. no_dash b e) (second (not (is_empty word)) _ h)
  where
    second : (x y : Bool) → x && y ≡ true → y ≡ true
    second x y h = ground arith

    no_dash : (b : ℕ) → is_lower_or_digit b ≡ true → not (eqb b 45) ≡ true
    no_dash b e = ground arith

split-join_from :
    (word : List ℕ) (words : List (List ℕ))
    → all is_word (word ∷ words) ≡ true
    → split 45 (join_from word words) ≡ word ∷ words
split-join_from word [] h = split-one 45 word (is_word-lacks word (first (is_word word) _ h))
  where
    first : (x y : Bool) → x && y ≡ true → x ≡ true
    first x y h = ground arith
split-join_from word (next ∷ words) h =
    split-append 45 word (join_from next words) (is_word-lacks word (first (is_word word) _ h))
    ∙ ap (λ l. word ∷ l) (split-join_from next words (second (is_word word) _ h))
  where
    first : (x y : Bool) → x && y ≡ true → x ≡ true
    first x y h = ground arith

    second : (x y : Bool) → x && y ≡ true → y ≡ true
    second x y h = ground arith

-- A text passes exactly if it has at most 64 bytes and is one or more words of lower-case letters and
-- digits, joined by single dashes.
pub validate_slug_iff :
    (slug : List ℕ)
    → (validate_slug slug ≡ true) ↔ (
        (length slug ≤ 64)
        × (word : List ℕ) × (words : List (List ℕ)) × (all is_word (word ∷ words) ≡ true)
        × (slug ≡ join_from word words))
validate_slug_iff slug = (
  λ h.
      let (short, scanned) =
        bounds (length slug) (scan_words true slug) (sym (validate_slug-scan slug) ∙ h) in
      let (word, words, ok, e) =
        words_of (split 45 slug) (is_empty-split slug) (join_parts-split slug)
          ((split-scan slug).1 ∙ scanned) in
      (short, word, words, ok, e),
  λ (short, word, words, ok, e).
      validate_slug-scan slug
      ∙ within (length slug) (scan_words true slug) short (
          sym (split-scan slug).1
          ∙ ap (λ x. all is_word (split 45 x)) e
          ∙ ap (all is_word) (split-join_from word words ok)
          ∙ ok),
)
  where
    bounds : (n : ℕ) (b : Bool) → not (ltb 64 n) && b ≡ true → (n ≤ 64) × (b ≡ true)
    bounds n b h = ground arith

    within : (n : ℕ) (b : Bool) → n ≤ 64 → b ≡ true → not (ltb 64 n) && b ≡ true
    within n b h e = ground arith

    words_of :
        (parts : List (List ℕ))
        → is_empty parts ≡ false
        → join_parts parts ≡ slug
        → all is_word parts ≡ true
        → (word : List ℕ) × (words : List (List ℕ)) × (all is_word (word ∷ words) ≡ true)
          × (slug ≡ join_from word words)
    words_of [] h e f = absurd (cc h)
    words_of (part ∷ parts) h e f = (part, parts, f, sym e)
