-- ===== src/Activity/Clean.antt =====
-- What `sanitize_string` leaves, and that the paths and details made of it are valid.
use devhatch.Activity.Message.{
  Text, is_control, is_break, valid_short_string, valid_path, valid_detail, is_absolute,
}
use devhatch.Activity.Hook.{sanitize_string}
use devhatch.Prelude.{
  is_whitespace, trim_start, trim_end, ℕ, zero, suc, ◌*◌, ◌≤◌, ◌≡◌, refl, inl, inr, Bool, true,
  false, not, ◌&&◌, none, some, [], ◌∷◌, arith, if◌then◌else◌, eqb, Bool-cases, any, keep, All,
  length, nat_eq, string_eq, option_eq, byte_len, is_empty, take,
}

abbrev pub Clean : Text → Type 0
Clean = All (λ c. is_control c ≡ false)

module _ {ℓ} (P : ℕ → Type ℓ) where
  All-take : (n : ℕ) (xs : Text) → All P xs → All P (take n xs)
  All-take zero xs h = tt
  All-take (suc n) [] h = tt
  All-take (suc n) (x ∷ xs) h = (h.0, All-take n xs h.1)

  All-trim_start : (xs : Text) → All P xs → All P (trim_start xs)
  unfolding trim_start
  All-trim_start [] h = tt
  All-trim_start (x ∷ xs) h = elim (Bool-cases (is_whitespace x)) [
    | inl e ↦ rw e (All-trim_start xs h.1)
    | inr e ↦ rw e h
  ]

  All-trim_end : (xs : Text) → All P xs → All P (trim_end xs)
  unfolding trim_end
  All-trim_end [] h = tt
  All-trim_end (x ∷ xs) h = elim (Bool-cases (is_empty (trim_end xs) && is_whitespace x)) [
    | inl e ↦ rw e tt
    | inr e ↦ rw e (h.0, All-trim_end xs h.1)
  ]

length-take-le : (n : ℕ) (xs : Text) → length (take n xs) ≤ n
length-take-le zero xs = omega arith
length-take-le (suc n) [] = omega arith
length-take-le (suc n) (x ∷ xs) = omega (arith, length-take-le n xs)

length-trim_start-le : (xs : Text) → length (trim_start xs) ≤ length xs
unfolding trim_start
length-trim_start-le [] = omega arith
length-trim_start-le (x ∷ xs) = ground (arith, length-trim_start-le xs)

length-trim_end-le : (xs : Text) → length (trim_end xs) ≤ length xs
unfolding trim_end
length-trim_end-le [] = omega arith
length-trim_end-le (x ∷ xs) = ground (arith, length-trim_end-le xs)

keep-Clean : (xs : Text) → Clean (keep (λ c. not (is_control c)) xs)
keep-Clean [] = tt
keep-Clean (x ∷ xs) = elim (Bool-cases (is_control x)) [
  | inl e ↦ rw e (keep-Clean xs)
  | inr e ↦ rw e (e, keep-Clean xs)
]

pub record IsSanitized (maximum : ℕ) (text : Text) : Type 0 where
  pub clean : Clean text
  pub short : length text ≤ maximum
  pub some_text : is_empty text ≡ false

some_of_if_not {ℓ} :
    {A : Type ℓ} (b : Bool) {x a : A}
    → (if b then none else some x) ≡ some a
    → (b ≡ false) × (x ≡ a)
some_of_if_not b h = ground arith

pub sanitize_string-IsSanitized :
    (value : Text) (maximum : ℕ) (text : Text)
    → sanitize_string value maximum ≡ some text
    → IsSanitized maximum text
unfolding sanitize_string
sanitize_string-IsSanitized value maximum text h =
    let kept = keep (λ c. not (is_control c)) value in
    let (nonempty, same) =
      some_of_if_not (is_empty (trim_end (trim_start (take maximum kept)))) h in
    rw (← same) (record {
      clean =
          All-trim_end _ (trim_start (take maximum kept))
            (All-trim_start _ (take maximum kept) (All-take _ maximum kept (keep-Clean value)));
      short = omega (
        arith,
        length-trim_end-le (trim_start (take maximum kept)),
        length-trim_start-le (take maximum kept),
        length-take-le maximum kept,
      );
      some_text = nonempty;
    })

control_of_break : (c : ℕ) → is_control c ≡ false → is_break c ≡ false
unfolding is_control
control_of_break c h = ground arith

no_break : (xs : Text) → Clean xs → any is_break xs ≡ false
no_break [] h = refl
no_break (x ∷ xs) h = rw (control_of_break x h.0) (no_break xs h.1)

no_zero : (xs : Text) → Clean xs → any (λ c. eqb c 0) xs ≡ false
unfolding is_control
no_zero [] h = refl
no_zero (x ∷ xs) h = ground (arith, no_zero xs h.1)

no_control : (xs : Text) → Clean xs → any is_control xs ≡ false
no_control [] h = refl
no_control (x ∷ xs) h = rw h.0 (no_control xs h.1)

byte_len-le : (xs : Text) → byte_len xs ≤ 4 * length xs
byte_len-le [] = omega arith
byte_len-le (x ∷ xs) = ground (arith, byte_len-le xs)

pub valid_short_string_of_IsSanitized :
    (maximum : ℕ) (text : Text) (n : ℕ)
    → IsSanitized maximum text
    → byte_len text ≤ n
    → valid_short_string text n ≡ true
unfolding valid_short_string
valid_short_string_of_IsSanitized maximum text n s h =
    rw (s.some_text, no_break text s.clean) (ground arith)

pub valid_path_of_IsSanitized :
    (text : Text) → IsSanitized 256 text → is_absolute text ≡ true → valid_path text ≡ true
unfolding valid_path
valid_path_of_IsSanitized text s h =
    rw (h, no_zero text s.clean) (ground (arith, byte_len-le text, s.short))

-- A detail that a report may have.
abbrev pub good_detail : Text → Bool
good_detail d = valid_detail d && not (is_empty d)

pub good_detail_of_Clean :
    (text : Text) → Clean text → length text ≤ 512 → is_empty text ≡ false → good_detail text ≡ true
unfolding valid_detail
good_detail_of_Clean text c l n = rw (no_control text c, n) (ground arith)
