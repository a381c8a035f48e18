-- ===== src/Prelude/Sorting.antt =====
-- `sort_by` and `ORDER BY`: an insertion sort, and that it keeps the elements.
use Prim.Native.Nat.{Ordering}
use Prim.Native.String.{String, compare}
use mathlib.Core.Path.{◌≡◌, refl, ap, ◌∙◌}
use mathlib.Core.Bool.{Bool, true, false, not, ◌&&◌, ◌||◌}
use mathlib.Core.List.{List, [], ◌∷◌}
use native.Mathlib.Omega.{arith}
use devhatch.Prelude.Tests.{if◌then◌else◌, Bool-cases}
use mathlib.Core.Logic.{inl, inr}
use devhatch.Prelude.Lists.{any, all}
use devhatch.Prelude.Filters.{nodup, all_mono}

-- `str::cmp` is less: UTF-8 keeps the order of the code points.
abbrev pub text_lt : String → String → Bool
text_lt a b = elim (compare a b) [ Ordering.lt ↦ true | _ ↦ false ]

module _ {ℓ} {A : Type ℓ} (before : A → A → Bool) where
  unfoldable pub insert_sorted : A → List A → List A
  insert_sorted x [] = x ∷ []
  insert_sorted x (y ∷ ys) =
      let rest = insert_sorted x ys in if before y x then y ∷ rest else x ∷ y ∷ ys

  unfoldable pub sort : List A → List A
  unfolding insert_sorted
  sort [] = []
  sort (x ∷ xs) = insert_sorted x (sort xs)

  any-insert_sorted :
      (p : A → Bool) (x : A) (xs : List A) → any p (insert_sorted x xs) ≡ (p x || any p xs)
  unfolding insert_sorted
  any-insert_sorted p x [] = refl
  any-insert_sorted p x (y ∷ ys) = ground (arith, any-insert_sorted p x ys)

  pub any-sort : (p : A → Bool) (xs : List A) → any p (sort xs) ≡ any p xs
  unfolding sort
  any-sort p [] = refl
  any-sort p (x ∷ xs) = any-insert_sorted p x (sort xs) ∙ ap (λ b. p x || b) (any-sort p xs)

  all-insert_sorted :
      (p : A → Bool) (x : A) (xs : List A) → all p (insert_sorted x xs) ≡ (p x && all p xs)
  unfolding insert_sorted
  all-insert_sorted p x [] = refl
  all-insert_sorted p x (y ∷ ys) = ground (arith, all-insert_sorted p x ys)

  pub all-sort : (p : A → Bool) (xs : List A) → all p (sort xs) ≡ all p xs
  unfolding sort
  all-sort p [] = refl
  all-sort p (x ∷ xs) = all-insert_sorted p x (sort xs) ∙ ap (λ b. p x && b) (all-sort p xs)

  insert_sorted-first :
      (x : A) (xs : List A) → all (λ y. not (before y x)) xs ≡ true → insert_sorted x xs ≡ x ∷ xs
  unfolding insert_sorted
  insert_sorted-first x [] h = refl
  insert_sorted-first x (y ∷ ys) h = ground arith

  pub sort_nil : sort [] ≡ []
  unfolding sort
  sort_nil = refl

  -- What is in order stays.
  pub sort-in_order :
      (x : A) (xs : List A)
      → all (λ y. not (before y x)) xs ≡ true
      → sort xs ≡ xs
      → sort (x ∷ xs) ≡ x ∷ xs
  unfolding sort
  sort-in_order x xs h e = ap (insert_sorted x) e ∙ insert_sorted-first x xs h

  module _ (le : A → A → Bool) (before_le : (x y : A) → before x y ≡ true → le x y ≡ true)
      (not_before_le : (x y : A) → before x y ≡ false → le y x ≡ true)
      (le_trans : (x y z : A) → le x y ≡ true → le y z ≡ true → le x z ≡ true) where
    abbrev pub is_least : List A → Bool
    is_least [] = true
    is_least (x ∷ xs) = all (le x) xs

    is_least-insert_sorted :
        (x : A) (xs : List A) → is_least xs ≡ true → is_least (insert_sorted x xs) ≡ true
    unfolding insert_sorted
    is_least-insert_sorted x [] h = refl
    is_least-insert_sorted x (y ∷ ys) h = elim (Bool-cases (before y x)) [
      | inl e ↦ rw e (all-insert_sorted (le y) x ys ∙ rw (before_le y x e, h) refl)
      | inr e ↦ rw e (
          rw (not_before_le y x e)
            (all_mono (le y) (le x) ys (λ z f. le_trans x y z (not_before_le y x e) f) h))
    ]

    -- The first comes before all others.
    pub is_least-sort : (xs : List A) → is_least (sort xs) ≡ true
    unfolding sort
    is_least-sort [] = refl
    is_least-sort (x ∷ xs) = is_least-insert_sorted x (sort xs) (is_least-sort xs)

  both_of_nodup : (a b : Bool) → not a && b ≡ true → (a ≡ false) × (b ≡ true)
  both_of_nodup a b h = ground arith

  module _ (same : A → A → Bool) (same_sym : (x y : A) → same x y ≡ same y x) where
    nodup-insert_sorted :
        (x : A) (xs : List A)
        → any (same x) xs ≡ false
        → nodup same xs ≡ true
        → nodup same (insert_sorted x xs) ≡ true
    unfolding insert_sorted
    nodup-insert_sorted x [] e h = refl
    nodup-insert_sorted x (y ∷ ys) e h =
        ground (arith, same_sym x y, any-insert_sorted (same y) x ys, nodup-insert_sorted x ys)

    pub nodup-sort : (xs : List A) → nodup same xs ≡ true → nodup same (sort xs) ≡ true
    unfolding sort
    nodup-sort [] h = refl
    nodup-sort (x ∷ xs) h =
        let (none_same, rest) = both_of_nodup (any (same x) xs) (nodup same xs) h in
        nodup-insert_sorted x (sort xs) (any-sort (same x) xs ∙ none_same) (nodup-sort xs rest)
