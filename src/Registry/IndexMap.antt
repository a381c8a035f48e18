-- ===== src/Registry/IndexMap.antt =====
-- The `IndexMap` of apps/server/src/state/sessions.rs.
use devhatch.Session.{SessionKind, terminal, agent, is_agent}
use devhatch.Prelude.{
  ℕ, String, ◌≡◌, refl, ap, ◌↔◌, Bool, true, false, ◌&&◌, Option, none, some, List, [], ◌∷◌, arith,
  if◌then◌else◌, ◌==◌, nat_eq, string_eq, option_eq, subst, Bool-cases, inl, inr, ◌∙◌,
}

pub record SessionKey : Type 0 where
  pub kind : SessionKind
  pub id : String

abbrev pub same_kind : SessionKind → SessionKind → Bool
same_kind terminal terminal = true
same_kind terminal agent = false
same_kind agent terminal = false
same_kind agent agent = true

unfoldable pub same_key : SessionKey → SessionKey → Bool
same_key a b = same_kind a.kind b.kind && a.id == b.id

abbrev pub SessionMap : Type 0
SessionMap = List (SessionKey × ℕ)

unfoldable pub get : SessionKey → SessionMap → Option ℕ
get key [] = none
get key (entry ∷ entries) = if same_key entry.0 key then some entry.1 else get key entries

-- `IndexMap::insert`: the value of an entry that is there is replaced in its place.
unfoldable pub put : SessionKey → ℕ → SessionMap → SessionMap
put key session [] = (key, session) ∷ []
put key session (entry ∷ entries) =
    let rest = put key session entries in
    if same_key entry.0 key then (entry.0, session) ∷ entries else entry ∷ rest

unfoldable pub shift_remove : SessionKey → SessionMap → SessionMap
shift_remove key [] = []
shift_remove key (entry ∷ entries) =
    let rest = shift_remove key entries in if same_key entry.0 key then entries else entry ∷ rest

same_kind_iff : (a b : SessionKind) → same_kind a b ≡ true ↔ a ≡ b
same_kind_iff terminal terminal = (λ _. refl, λ _. refl)
same_kind_iff terminal agent = (λ h. cc h, λ h. cc (ap is_agent h))
same_kind_iff agent terminal = (λ h. cc h, λ h. cc (ap is_agent h))
same_kind_iff agent agent = (λ _. refl, λ _. refl)

both : (a b : Bool) → a && b ≡ true → (a ≡ true) × (b ≡ true)
both a b h = ground arith

key_of_parts : (a b : SessionKey) → a.kind ≡ b.kind → a.id ≡ b.id → a ≡ b
key_of_parts a b k i = cc (k, i)

pub same_key-eq : (a b : SessionKey) → same_key a b ≡ true → a ≡ b
unfolding same_key
same_key-eq a b h =
    let (k, i) = both (same_kind a.kind b.kind) (a.id == b.id) h in
    key_of_parts a b ((same_kind_iff a.kind b.kind).0 k) ((string_eq.same_iff a.id b.id).0 i)

pub same_key_refl : (a : SessionKey) → same_key a a ≡ true
unfolding same_key
same_key_refl a =
    rw ((same_kind_iff a.kind a.kind).1 refl, (string_eq.same_iff a.id a.id).1 refl) refl

-- No key has two entries.
abbrev pub Unique : SessionMap → Type 0
Unique [] = Unit
Unique (entry ∷ entries) = (get entry.0 entries ≡ none) × Unique entries

-- Two keys that are equal to one are not told apart by a third.
same_key-left : (a b c : SessionKey) → same_key a b ≡ true → same_key a c ≡ same_key b c
same_key-left a b c h = ap (λ k. same_key k c) (same_key-eq a b h)

same_key-apart :
    (a b c : SessionKey) → same_key a b ≡ false → same_key b c ≡ true → same_key a c ≡ false
same_key-apart a b c h k = subst (λ x. same_key a x ≡ false) (same_key-eq b c k) h

other_way : (a b : SessionKey) → same_key a b ≡ false → same_key b a ≡ false
other_way a b h = elim (Bool-cases (same_key b a)) [
  | inl e ↦ absurd (cc (h, subst (λ x. same_key x b ≡ true) (same_key-eq b a e) (same_key_refl b)))
  | inr e ↦ e
]

pub get-put :
    (k key : SessionKey) (session : ℕ) (m : SessionMap)
    → get k (put key session m) ≡ (if same_key key k then some session else get k m)
unfolding get put
get-put k key session [] = refl
get-put k key session (entry ∷ entries) = elim (Bool-cases (same_key entry.0 key)) [
  | inl e ↦
      rw (e, same_key-left entry.0 key k e)
        (elim (Bool-cases (same_key key k)) [ inl h ↦ rw h refl | inr h ↦ rw h refl ])
  | inr e ↦ elim (Bool-cases (same_key key k)) [
    | inl h ↦
        rw (e, h, same_key-apart entry.0 key k e h) (get-put k key session entries ∙ rw h refl)
    | inr h ↦
        rw (e, h)
          (ap (λ o. if same_key entry.0 k then some entry.1 else o)
            (get-put k key session entries ∙ rw h refl))
  ]
]

pub get-shift_remove :
    (k key : SessionKey) (m : SessionMap)
    → Unique m
    → get k (shift_remove key m) ≡ (if same_key key k then none else get k m)
unfolding get shift_remove
get-shift_remove k key [] u = elim (Bool-cases (same_key key k)) [
  | inl h ↦ rw h refl
  | inr h ↦ rw h refl
]
get-shift_remove k key (entry ∷ entries) u = elim (Bool-cases (same_key entry.0 key)) [
  | inl e ↦
      rw (e, same_key-left entry.0 key k e)
        (elim (Bool-cases (same_key key k)) [
          | inl h ↦ rw h (
              subst (λ x. get x entries ≡ none) (same_key-eq entry.0 key e ∙ same_key-eq key k h)
                u.0)
          | inr h ↦ rw h refl
        ])
  | inr e ↦ elim (Bool-cases (same_key key k)) [
    | inl h ↦
        rw (e, h, same_key-apart entry.0 key k e h) (get-shift_remove k key entries u.1 ∙ rw h refl)
    | inr h ↦
        rw (e, h)
          (ap (λ o. if same_key entry.0 k then some entry.1 else o)
            (get-shift_remove k key entries u.1 ∙ rw h refl))
  ]
]

none_of_if : (b : Bool) (o : Option ℕ) → o ≡ none → (if b then none else o) ≡ none
none_of_if b o h = ground arith

pub Unique-put :
    (key : SessionKey) (session : ℕ) (m : SessionMap) → Unique m → Unique (put key session m)
unfolding put get
Unique-put key session [] u = (refl, tt)
Unique-put key session (entry ∷ entries) u = elim (Bool-cases (same_key entry.0 key)) [
  | inl e ↦ rw e u
  | inr e ↦ rw e (
    rw (get-put entry.0 key session entries, other_way entry.0 key e) u.0,
    Unique-put key session entries u.1,
  )
]

pub Unique-shift_remove :
    (key : SessionKey) (m : SessionMap) → Unique m → Unique (shift_remove key m)
unfolding shift_remove
Unique-shift_remove key [] u = tt
Unique-shift_remove key (entry ∷ entries) u = elim (Bool-cases (same_key entry.0 key)) [
  | inl e ↦ rw e u.1
  | inr e ↦ rw e (
    get-shift_remove entry.0 key entries u.1 ∙ none_of_if _ (get entry.0 entries) u.0,
    Unique-shift_remove key entries u.1,
  )
]
