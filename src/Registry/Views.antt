-- ===== src/Registry/Views.antt =====
-- The views of the registry, of apps/server/src/state/sessions.rs. A set is a list of its elements.
use mathlib.Core.Option.{some-injective}
use devhatch.Session.{Session, SessionKind, is_live, is_agent, SessionView, view}
use devhatch.Registry.IndexMap.{SessionKey, SessionMap, get, same_kind, same_key}
use devhatch.Registry.{RegistryState, key_of}
use devhatch.Prelude.{
  ℕ, ◌≡◌, refl, sym, ap, subst, inl, inr, Bool, true, false, not, ◌&&◌, ◌||◌, Option, none, some,
  List, [], ◌∷◌, arith, if◌then◌else◌, eqb, Bool-cases, is_some_and, any, keep, nat_eq, string_eq,
  option_eq,
}

-- The keys of the entries that pass the test, and what clients are shown of them.
abbrev keys_of : SessionMap → List SessionKey
keys_of [] = []
keys_of (entry ∷ entries) = entry.0 ∷ keys_of entries

abbrev views_of : (ℕ → Session) → SessionMap → List SessionView
views_of store [] = []
views_of store (entry ∷ entries) = view (store entry.1) ∷ views_of store entries

unfoldable pub views : SessionKind → RegistryState → List SessionView
views kind r = views_of r.store (keep (λ entry. same_kind entry.0.kind kind) r.sessions)

-- A terminal that has exited stays in the workspace, an agent does not.
unfoldable pub is_included : Session → Bool
is_included s = if is_agent s.kind then is_live s else not s.deleting

abbrev identities_of : (ℕ → Session) → SessionMap → List SessionKey
identities_of store [] = []
identities_of store (entry ∷ entries) = key_of store entry.1 ∷ identities_of store entries

-- The members that are eligible, a member being a kind and an identifier, and their views.
unfoldable pub workspace_snapshot : RegistryState → List SessionKey × List SessionView
unfolding is_included
workspace_snapshot r =
    let included = keep (λ entry. is_included (r.store entry.1)) r.sessions in
    (identities_of r.store included, views_of r.store included)

unfoldable pub contains_session : ℕ → RegistryState → Bool
contains_session session r =
    is_some_and (get (key_of r.store session) r.sessions) (λ current. eqb current session)

-- The identifiers, if what was found is that session and it is live.
unfoldable pub live_ids_found :
    (ℕ → Session) → ℕ → List SessionKey → Option ℕ → Option (List SessionKey)
live_ids_found store session live none = none
live_ids_found store session live (some current) =
    if not (eqb current session) || not (is_live (store current)) then none else some live

unfoldable pub live_ids_if_contains : ℕ → SessionKind → RegistryState → Option (List SessionKey)
unfolding live_ids_found
live_ids_if_contains session kind r =
    let key : SessionKey = record { kind = kind; id = (r.store session).id } in
    let live =
      keep (λ entry. same_kind entry.0.kind kind && is_live (r.store entry.1)) r.sessions in
    live_ids_found r.store session (keys_of live) (get key r.sessions)

any_kept :
    (test : SessionKey × ℕ → Bool) (key k : SessionKey) (s : ℕ) (entries : SessionMap)
    → any (λ x. same_key x key) (keys_of (keep test entries)) ≡ true
    → any (λ x. same_key x key) (keys_of (keep test ((k, s) ∷ entries))) ≡ true
any_kept test key k s entries h = elim (Bool-cases (test (k, s))) [
  | inl e ↦ rw e (ground (arith, h))
  | inr e ↦ rw e h
]

any-keys :
    (test : SessionKey × ℕ → Bool) (key : SessionKey) (session : ℕ) (m : SessionMap)
    → get key m ≡ some session
    → ((k : SessionKey) → same_key k key ≡ true → test (k, session) ≡ true)
    → any (λ k. same_key k key) (keys_of (keep test m)) ≡ true
unfolding get
any-keys test key session [] h t = cc h
any-keys test key session ((k, s) ∷ entries) h t = elim (Bool-cases (same_key k key)) [
  | inl e ↦
      let found : some s ≡ some session =
        subst (λ b. (if b then some s else get key entries) ≡ some session) e h in
      let passes : test (k, s) ≡ true =
        subst (λ x. test (k, x) ≡ true) (sym (some-injective s session found)) (t k e) in
      rw passes (rw e refl)
  | inr e ↦ any_kept test key k s entries (
      any-keys test key session entries
        (subst (λ b. (if b then some s else get key entries) ≡ some session) e h) t)
]

eq_of_tests : (m n : ℕ) (b : Bool) → not (eqb m n) || not b ≡ false → (m ≡ n) × (b ≡ true)
eq_of_tests m n b h = ground arith

-- The two answers, where the registry has `found` under the identifier.
abbrev Answers : (ℕ → Session) → ℕ → List SessionKey → Option ℕ → Option (List SessionKey) → Type 0
Answers store session live found none =
    (is_some_and found (λ current. eqb current session) && is_live (store session)) ≡ false
Answers store session live found (some ids) =
    (found ≡ some session) × (is_live (store session) ≡ true) × (ids ≡ live)

eq_of_eqb : (m n : ℕ) → eqb m n ≡ true → m ≡ n
eq_of_eqb m n h = ground arith

refused_of_tests :
    (store : ℕ → Session) (m n : ℕ)
    → not (eqb m n) || not (is_live (store m)) ≡ true
    → (eqb m n && is_live (store n)) ≡ false
refused_of_tests store m n h = elim (Bool-cases (eqb m n)) [
  | inl e ↦
      let same : m ≡ n = eq_of_eqb m n e in
      subst (λ x. (eqb m n && is_live (store x)) ≡ false) same (ground (arith, h, e))
  | inr e ↦ rw e refl
]

live_ids_found-Answers :
    (store : ℕ → Session) (session : ℕ) (live : List SessionKey) (found : Option ℕ)
    → Answers store session live found (live_ids_found store session live found)
unfolding live_ids_found
live_ids_found-Answers store session live none = refl
live_ids_found-Answers store session live (some current) =
    elim (Bool-cases (not (eqb current session) || not (is_live (store current)))) [
      | inl e ↦ rw e (refused_of_tests store current session e)
      | inr e ↦
          let (same, is_alive) = eq_of_tests current session (is_live (store current)) e in
          rw e (ap some same, subst (λ x. is_live (store x) ≡ true) same is_alive, refl)
    ]

any-keys_of :
    (test : SessionKey × ℕ → Bool) (key : SessionKey) (m : SessionMap)
    → any (λ k. same_key k key) (keys_of (keep test m))
      ≡ any (λ entry. same_key entry.0 key && test entry) m
any-keys_of test key [] = refl
any-keys_of test key (entry ∷ entries) = ground (arith, any-keys_of test key entries)

-- What is answered for a session: nothing, if it is not live or the registry has not this session
-- under its identifier; or else a set of identifiers.
abbrev pub LiveIds : (session : ℕ) → SessionKind → RegistryState → Option (List SessionKey) → Type 0
LiveIds session kind r none =
    (is_some_and (get (record { kind = kind; id = (r.store session).id }) r.sessions)
        (λ current. eqb current session)
      && is_live (r.store session))
    ≡ false
LiveIds session kind r (some ids) =
    (get (record { kind = kind; id = (r.store session).id }) r.sessions ≡ some session)
    × (is_live (r.store session) ≡ true)
    × (any (λ k. same_key k (record { kind = kind; id = (r.store session).id })) ids ≡ true)
    × ((key : SessionKey)
        → any (λ k. same_key k key) ids
          ≡ any
              (λ entry.
                same_key entry.0 key && (same_kind entry.0.kind kind && is_live (r.store entry.1)))
              r.sessions)

kind_of_key : (a b : SessionKey) → same_key a b ≡ true → same_kind a.kind b.kind ≡ true
unfolding same_key
kind_of_key a b h = ground arith

Answers-LiveIds :
    (session : ℕ) (kind : SessionKind) (r : RegistryState) (ids : Option (List SessionKey))
    → Answers r.store session
        (keys_of
          (keep (λ entry. same_kind entry.0.kind kind && is_live (r.store entry.1)) r.sessions))
        (get (record { kind = kind; id = (r.store session).id }) r.sessions)
        ids
    → LiveIds session kind r ids
Answers-LiveIds session kind r none h = h
Answers-LiveIds session kind r (some ids) h =
    let key : SessionKey = record { kind = kind; id = (r.store session).id } in
    let test =
      λ (entry : SessionKey × ℕ). same_kind entry.0.kind kind && is_live (r.store entry.1) in
    (
      h.0,
      h.1,
      rw h.2 (any-keys test key session r.sessions h.0 (λ k e. rw (kind_of_key k key e, h.1) refl)),
      (λ k. rw h.2 (any-keys_of test k r.sessions)),
    )

-- The identifiers of the live sessions of a kind are given for a session exactly when it is live
-- and is the one that the registry has under its identifier; its own is among them, and they are
-- the keys of all the entries of that kind whose session is live, and no other.
pub live_ids_if_contains-LiveIds :
    (session : ℕ) (kind : SessionKind) (r : RegistryState)
    → LiveIds session kind r (live_ids_if_contains session kind r)
unfolding live_ids_if_contains
live_ids_if_contains-LiveIds session kind r =
    let key : SessionKey = record { kind = kind; id = (r.store session).id } in
    let test =
      λ (entry : SessionKey × ℕ). same_kind entry.0.kind kind && is_live (r.store entry.1) in
    let live = keys_of (keep test r.sessions) in
    Answers-LiveIds session kind r (live_ids_found r.store session live (get key r.sessions))
      (live_ids_found-Answers r.store session live (get key r.sessions))
