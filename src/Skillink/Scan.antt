-- ===== src/Skillink/Scan.antt =====
-- The tests of `validate_slug` as one scan over the bytes.
use devhatch.Prelude.{
  is_empty, list_eq, ℕ, ◌≡◌, refl, Bool, true, false, not, ◌&&◌, ◌||◌, List, [], ◌∷◌, arith,
  if◌then◌else◌, eqb, all, nat_eq, string_eq, option_eq,
}
use devhatch.Skillink.Slug.{is_lower_or_digit, is_slug_byte, first_byte, last_byte, has_double_dash}

-- A scan that knows whether a word is to start.
unfoldable pub scan_words : (starting : Bool) → List ℕ → Bool
scan_words starting [] = not starting
scan_words starting (b ∷ bs) =
    let after_dash = scan_words true bs in
    let after_letter = scan_words false bs in
    if eqb b 45 then not starting && after_dash else is_lower_or_digit b && after_letter

-- What follows a letter or a digit, and what starts a word.
abbrev pub rest_ok : List ℕ → Bool
rest_ok bs =
    all is_slug_byte bs
    && (is_empty bs || is_lower_or_digit (last_byte bs))
    && not (has_double_dash bs)

abbrev pub start_ok : List ℕ → Bool
start_ok bs = not (is_empty bs) && is_lower_or_digit (first_byte bs) && rest_ok bs

-- The step of the scan, in Booleans: a dash, a letter, the same of the next byte, and the rest.
step_rest :
    (d l dc lc a last double x y : Bool)
    → x ≡ (a && (false || last) && not double)
    → y ≡ (true && lc && (a && (false || last) && not double))
    → (d ≡ true → l ≡ false)
    → (dc ≡ true → lc ≡ false)
    → (a ≡ true → (lc || dc) ≡ true)
    → (if d then true && y else l && x)
      ≡ (((l || d) && a) && (false || last) && not (d && dc || double))
step_rest true l dc lc a last double x y e f g h k = ground arith
step_rest false l dc lc a last double x y e f g h k = ground arith

step_start :
    (d l dc lc a last double x y : Bool)
    → x ≡ (a && (false || last) && not double)
    → (d ≡ true → l ≡ false)
    → (if d then false && y else l && x)
      ≡ (true && l && (((l || d) && a) && (false || last) && not (d && dc || double)))
step_start true l dc lc a last double x y e g = ground arith
step_start false l dc lc a last double x y e g = ground arith

dash_is_no_letter : (b : ℕ) → eqb b 45 ≡ true → is_lower_or_digit b ≡ false
dash_is_no_letter b h = ground arith

first_is_slug_byte :
    (b : ℕ) (rest : Bool) → is_slug_byte b && rest ≡ true → (is_lower_or_digit b || eqb b 45) ≡ true
first_is_slug_byte b rest h = left (is_slug_byte b) rest h
  where
    left : (x y : Bool) → x && y ≡ true → x ≡ true
    left x y h = ground arith

pub scan_words-ok :
    (bs : List ℕ) → (scan_words false bs ≡ rest_ok bs) × (scan_words true bs ≡ start_ok bs)
unfolding scan_words
scan_words-ok [] = (refl, refl)
scan_words-ok (b ∷ []) = (
  one (eqb b 45) (is_lower_or_digit b) (dash_is_no_letter b),
  one_start (eqb b 45) (is_lower_or_digit b) (dash_is_no_letter b),
)
  where
    one :
        (d l : Bool)
        → (d ≡ true → l ≡ false)
        → (if d then true && false else l && true)
          ≡ (((l || d) && true) && (false || l) && not (d && false || false))
    one d l h = ground arith

    one_start :
        (d l : Bool)
        → (d ≡ true → l ≡ false)
        → (if d then false && false else l && true)
          ≡ (true && l && (((l || d) && true) && (false || l) && not (d && false || false)))
    one_start d l h = ground arith
scan_words-ok (b ∷ c ∷ bs) =
    let (e, f) = scan_words-ok (c ∷ bs) in
    (
      step_rest (eqb b 45) (is_lower_or_digit b) (eqb c 45) (is_lower_or_digit c)
          (all is_slug_byte (c ∷ bs)) (is_lower_or_digit (last_byte (c ∷ bs)))
          (has_double_dash (c ∷ bs)) (scan_words false (c ∷ bs)) (scan_words true (c ∷ bs)) e f
          (dash_is_no_letter b) (dash_is_no_letter c) (first_is_slug_byte c (all is_slug_byte bs)),
      step_start (eqb b 45) (is_lower_or_digit b) (eqb c 45) (is_lower_or_digit c)
          (all is_slug_byte (c ∷ bs)) (is_lower_or_digit (last_byte (c ∷ bs)))
          (has_double_dash (c ∷ bs)) (scan_words false (c ∷ bs)) (scan_words true (c ∷ bs)) e
          (dash_is_no_letter b),
    )
