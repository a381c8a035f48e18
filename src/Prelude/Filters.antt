-- ===== src/Prelude/Filters.antt =====
-- Tests on the elements of lists, lists without two of the same, and what filters keep of them.
use mathlib.Core.Path.{◌≡◌, refl}
use mathlib.Core.Bool.{Bool, true, false, not, ◌&&◌, ◌||◌}
use mathlib.Core.Logic.{inl, inr}
use mathlib.Core.List.{List, [], ◌∷◌, ◌++◌, map}
use native.Mathlib.Omega.{arith}
use devhatch.Prelude.Tests.{Bool-cases}
use devhatch.Prelude.Lists.{any, all, keep, All}

pub or_right : (a b : Bool) → b ≡ true → (a || b) ≡ true
or_right a b h = ground arith

pub or_left : (a b : Bool) → a ≡ true → (a || b) ≡ true
or_left a b h = ground arith

module _ {ℓ} {A : Type ℓ} where
  -- No two elements are the same.
  abbrev pub nodup : (A → A → Bool) → List A → Bool
  nodup same [] = true
  nodup same (x ∷ xs) = not (any (same x) xs) && nodup same xs

  pub any-append : (p : A → Bool) (xs ys : List A) → any p (xs ++ ys) ≡ (any p xs || any p ys)
  any-append p [] ys = refl
  any-append p (x ∷ xs) ys = ground (arith, any-append p xs ys)

  pub any_ext : (p q : A → Bool) (xs : List A) → ((x : A) → p x ≡ q x) → any p xs ≡ any q xs
  any_ext p q [] h = refl
  any_ext p q (x ∷ xs) h = ground (arith, h x, any_ext p q xs h)

  pub any_mono :
      (p q : A → Bool) (xs : List A)
      → ((x : A) → p x ≡ true → q x ≡ true)
      → any p xs ≡ true
      → any q xs ≡ true
  any_mono p q [] h e = cc e
  any_mono p q (x ∷ xs) h e = ground (arith, h x, any_mono p q xs h)

  -- What passes is kept or is not.
  pub any-keep_split :
      (p q : A → Bool) (xs : List A)
      → any p xs ≡ (any p (keep q xs) || any (λ x. p x && not (q x)) xs)
  any-keep_split p q [] = refl
  any-keep_split p q (x ∷ xs) = ground (arith, any-keep_split p q xs)

  pub any-keep : (p q : A → Bool) (xs : List A) → any p (keep q xs) ≡ any (λ x. p x && q x) xs
  any-keep p q [] = refl
  any-keep p q (x ∷ xs) = ground (arith, any-keep p q xs)

  pub any-keep-false : (p q : A → Bool) (xs : List A) → any p xs ≡ false → any p (keep q xs) ≡ false
  any-keep-false p q [] h = refl
  any-keep-false p q (x ∷ xs) h = ground (arith, any-keep-false p q xs)

  pub nodup-keep :
      (same : A → A → Bool) (q : A → Bool) (xs : List A)
      → nodup same xs ≡ true
      → nodup same (keep q xs) ≡ true
  nodup-keep same q [] h = refl
  nodup-keep same q (x ∷ xs) h = ground (arith, any-keep-false (same x) q xs, nodup-keep same q xs)

  pub nodup-snoc :
      (same : A → A → Bool) (xs : List A) (x : A)
      → nodup same xs ≡ true
      → any (λ y. same y x) xs ≡ false
      → nodup same (xs ++ x ∷ []) ≡ true
  nodup-snoc same [] x h e = refl
  nodup-snoc same (y ∷ ys) x h e =
      ground (arith, any-append (same y) ys (x ∷ []), nodup-snoc same ys x)

  pub keep_ext : (p q : A → Bool) (xs : List A) → All (λ x. p x ≡ q x) xs → keep p xs ≡ keep q xs
  keep_ext p q [] h = refl
  keep_ext p q (x ∷ xs) h = ground (arith, h.0, keep_ext p q xs h.1)

  pub keep-all : (p : A → Bool) (xs : List A) → all p xs ≡ true → keep p xs ≡ xs
  keep-all p [] h = refl
  keep-all p (x ∷ xs) h = ground (arith, keep-all p xs)

  pub keep-keep : (p q : A → Bool) (xs : List A) → keep p (keep q xs) ≡ keep (λ x. p x && q x) xs
  keep-keep p q [] = refl
  keep-keep p q (x ∷ xs) = ground (arith, keep-keep p q xs)

  pub all-any :
      (p q : A → Bool) (xs : List A)
      → all p xs ≡ true
      → any q xs ≡ true
      → any (λ x. q x && p x) xs ≡ true
  all-any p q [] h e = cc e
  all-any p q (x ∷ xs) h e = ground (arith, all-any p q xs)

  pub any_excluded :
      (p q : A → Bool) (xs : List A)
      → all p xs ≡ true
      → ((x : A) → p x ≡ true → q x ≡ false)
      → any q xs ≡ false
  any_excluded p q [] h k = refl
  any_excluded p q (x ∷ xs) h k = ground (arith, k x, any_excluded p q xs)

  pub all-keep : (p q : A → Bool) (xs : List A) → all p xs ≡ true → all p (keep q xs) ≡ true
  all-keep p q [] h = refl
  all-keep p q (x ∷ xs) h = ground (arith, all-keep p q xs)

  pub all-append : (p : A → Bool) (xs ys : List A) → all p (xs ++ ys) ≡ (all p xs && all p ys)
  all-append p [] ys = refl
  all-append p (x ∷ xs) ys = ground (arith, all-append p xs ys)

  pub all_mono :
      (p q : A → Bool) (xs : List A)
      → ((x : A) → p x ≡ true → q x ≡ true)
      → all p xs ≡ true
      → all q xs ≡ true
  all_mono p q [] h e = refl
  all_mono p q (x ∷ xs) h e = ground (arith, h x, all_mono p q xs h)

  pub any_and_const :
      (p : A → Bool) (b : Bool) (xs : List A) → any (λ x. p x && b) xs ≡ (any p xs && b)
  any_and_const p b [] = refl
  any_and_const p b (x ∷ xs) = ground (arith, any_and_const p b xs)

  pub all_both :
      (p q r : A → Bool) (xs : List A)
      → ((x : A) → p x ≡ true → q x ≡ true → r x ≡ true)
      → all p xs ≡ true
      → all q xs ≡ true
      → all r xs ≡ true
  all_both p q r [] h e f = refl
  all_both p q r (x ∷ xs) h e f = ground (arith, h x, all_both p q r xs h)

  pub all-keep_or :
      (p q : A → Bool) (xs : List A) → all p (keep q xs) ≡ all (λ x. not (q x) || p x) xs
  all-keep_or p q [] = refl
  all-keep_or p q (x ∷ xs) = ground (arith, all-keep_or p q xs)

  pub all-keep_test : (p : A → Bool) (xs : List A) → all p (keep p xs) ≡ true
  all-keep_test p [] = refl
  all-keep_test p (x ∷ xs) = ground (arith, all-keep_test p xs)

  -- What passes a test is related to itself in the list that it comes from.
  pub all-keep_self :
      (p : A → Bool) (rel : A → A → Bool) (ys xs : List A)
      → ((x : A) → rel x x ≡ true)
      → ((t : A → Bool) → any t xs ≡ true → any t ys ≡ true)
      → all (λ x. any (λ y. p y && rel y x) ys) (keep p xs) ≡ true
  all-keep_self p rel ys [] r sub = refl
  all-keep_self p rel ys (x ∷ xs) r sub =
      let later = all-keep_self p rel ys xs r (λ t h. sub t (or_right (t x) (any t xs) h)) in
      elim (Bool-cases (p x)) [
        | inl e ↦
            let here = sub (λ y. p y && rel y x) (or_left (p x && rel x x) _ (rw (e, r x) refl)) in
            rw (e, keep) (rw (here, later) refl)
        | inr e ↦ rw (e, keep) later
      ]

module _ {ℓ κ} {A : Type ℓ} {B : Type κ} where
  pub any-map : (p : B → Bool) (f : A → B) (xs : List A) → any p (map f xs) ≡ any (λ x. p (f x)) xs
  any-map p f [] = refl
  any-map p f (x ∷ xs) = ground (arith, any-map p f xs)

  pub all-map : (p : B → Bool) (f : A → B) (xs : List A) → all p (map f xs) ≡ all (λ x. p (f x)) xs
  all-map p f [] = refl
  all-map p f (x ∷ xs) = ground (arith, all-map p f xs)
