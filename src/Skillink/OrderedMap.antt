-- ===== src/Skillink/OrderedMap.antt =====
-- A `BTreeMap` from paths as the list of its values in the order of their paths.
use devhatch.Prelude.{
  text_lt, any_mono, nodup, map, list_eq, String, ◌≡◌, refl, sym, ap, ◌∙◌, inl, inr, Bool, true,
  false, not, ◌&&◌, ◌||◌, Option, none, some, List, [], ◌∷◌, arith, if◌then◌else◌, Bool-cases,
  Option-cases, is_some_and, any, all, ◌==◌, nat_eq, string_eq, option_eq,
}

unfoldable pub filter_map : {A B : Type 0} → (A → Option B) → List A → List B
filter_map f [] = []
filter_map f (x ∷ xs) = let rest = filter_map f xs in elim (f x) [ none ↦ rest | some y ↦ y ∷ rest ]

pub any-filter_map :
    {A B : Type 0} (f : A → Option B) (q : B → Bool) (xs : List A)
    → any q (filter_map f xs) ≡ any (λ x. is_some_and (f x) q) xs
unfolding filter_map
any-filter_map f q [] = refl
any-filter_map f q (x ∷ xs) = elim (Option-cases (f x)) [
  | inl e ↦ rw (e, filter_map) (any-filter_map f q xs)
  | inr (y, e) ↦ rw (e, filter_map) (ap (λ b. q y || b) (any-filter_map f q xs))
]

string_sym : (a b : String) → (a == b) ≡ (b == a)
string_sym a b = ground (arith, string_eq.same_iff a b, string_eq.same_iff b a)

module _ {A : Type 0} (key : A → String) where
  abbrev pub same : A → A → Bool
  same x y = key x == key y

  unfoldable pub insert : A → List A → List A
  insert x [] = x ∷ []
  insert x (y ∷ ys) =
      let rest = insert x ys in
      if key x == key y then x ∷ ys else if text_lt (key y) (key x) then y ∷ rest else x ∷ y ∷ ys

  unfoldable pub collect_into : List A → List A → List A
  unfolding insert
  collect_into map [] = map
  collect_into map (x ∷ xs) = collect_into (insert x map) xs

  unfoldable pub collect : List A → List A
  unfolding collect_into
  collect xs = collect_into [] xs

  unfoldable pub get : String → List A → Option A
  get k [] = none
  get k (x ∷ xs) = let rest = get k xs in if key x == k then some x else rest

  abbrev pub has : String → List A → Bool
  has k xs = any (λ x. key x == k) xs

  any-insert :
      (p : A → Bool) (x : A) (ys : List A)
      → any (same x) ys ≡ false
      → any p (insert x ys) ≡ (p x || any p ys)
  unfolding insert
  any-insert p x [] h = refl
  any-insert p x (y ∷ ys) h = ground (arith, any-insert p x ys)

  nodup-insert :
      (x : A) (ys : List A)
      → any (same x) ys ≡ false
      → nodup same ys ≡ true
      → nodup same (insert x ys) ≡ true
  unfolding insert
  nodup-insert x [] h e = refl
  nodup-insert x (y ∷ ys) h e =
      ground (arith, any-insert (same y) x ys, nodup-insert x ys, string_sym (key x) (key y))

  -- No element has the key of one that is in the map.
  apart : List A → List A → Bool
  apart map xs = all (λ x. not (any (same x) map)) xs

  apart-insert :
      (x : A) (map xs : List A)
      → any (same x) map ≡ false
      → any (same x) xs ≡ false
      → apart map xs ≡ true
      → apart (insert x map) xs ≡ true
  unfolding apart
  apart-insert x map [] n h e = refl
  apart-insert x map (y ∷ ys) n h e =
      ground
        (arith, any-insert (same y) x map n, apart-insert x map ys n, string_sym (key x) (key y))

  any-collect_into :
      (p : A → Bool) (map xs : List A)
      → nodup same xs ≡ true
      → nodup same map ≡ true
      → apart map xs ≡ true
      → (any p (collect_into map xs) ≡ (any p map || any p xs))
        × (nodup same (collect_into map xs) ≡ true)
  unfolding collect_into apart
  any-collect_into p map [] d e h = (or_nothing (any p map), e)
    where
      or_nothing : (b : Bool) → b ≡ (b || false)
      or_nothing b = ground arith
  any-collect_into p map (x ∷ xs) d e h =
      let (alone, later) = parts (any (same x) xs) (nodup same xs) d in
      let (new, others) = parts (any (same x) map) (apart map xs) h in
      let (f, g) =
        any-collect_into p (insert x map) xs later (nodup-insert x map new e)
          (apart-insert x map xs new alone others) in
      (f ∙ ap (λ b. b || any p xs) (any-insert p x map new) ∙ swap (p x) (any p map) (any p xs), g)
    where
      parts : (a b : Bool) → not a && b ≡ true → (a ≡ false) × (b ≡ true)
      parts a b h = ground arith

      swap : (a b c : Bool) → ((a || b) || c) ≡ (b || (a || c))
      swap a b c = ground arith

  nothing_apart : (xs : List A) → apart [] xs ≡ true
  unfolding apart
  nothing_apart [] = refl
  nothing_apart (x ∷ xs) = nothing_apart xs

  pub any-collect :
      (p : A → Bool) (xs : List A) → nodup same xs ≡ true → any p (collect xs) ≡ any p xs
  unfolding collect
  any-collect p xs d = (any-collect_into p [] xs d refl (nothing_apart xs)).0

  pub nodup-collect : (xs : List A) → nodup same xs ≡ true → nodup same (collect xs) ≡ true
  unfolding collect
  nodup-collect xs d = (any-collect_into (λ x. true) [] xs d refl (nothing_apart xs)).1

  -- With distinct keys, what is found under a key is all that has it.
  pub is_some_and-get :
      (k : String) (c : A → Bool) (xs : List A)
      → nodup same xs ≡ true
      → is_some_and (get k xs) c ≡ any (λ x. key x == k && c x) xs
  unfolding get
  is_some_and-get k c [] d = refl
  is_some_and-get k c (x ∷ xs) d =
      let (alone, later) = parts (any (same x) xs) (nodup same xs) d in
      elim (Bool-cases (key x == k)) [
        | inl e ↦ rw e (only (c x) _ (others e alone))
        | inr e ↦ rw e (is_some_and-get k c xs later)
      ]
    where
      parts : (a b : Bool) → not a && b ≡ true → (a ≡ false) × (b ≡ true)
      parts a b h = ground arith

      only : (a b : Bool) → b ≡ false → a ≡ (a || b)
      only a b h = ground arith

      left : (a b : Bool) → a && b ≡ true → a ≡ true
      left a b h = ground arith

      same_as_x : (key x == k) ≡ true → (y : A) → (key y == k && c y) ≡ true → same x y ≡ true
      same_as_x e y h = (string_eq.same_iff (key x) (key y)).1 (
          (string_eq.same_iff (key x) k).0 e
          ∙ sym ((string_eq.same_iff (key y) k).0 (left (key y == k) (c y) h)))

      others :
          (key x == k) ≡ true → any (same x) xs ≡ false → any (λ y. key y == k && c y) xs ≡ false
      others e alone = elim (Bool-cases (any (λ y. key y == k && c y) xs)) [
        | inl f ↦ absurd (cc (alone, any_mono (λ y. key y == k && c y) (same x) xs (same_as_x e) f))
        | inr f ↦ f
      ]
