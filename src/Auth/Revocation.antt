-- ===== src/Auth/Revocation.antt =====
-- What holds of the tables whatever requests come: the password is set once, and a session that is
-- deleted is gone.
use devhatch.Prelude.{
  or_right, any_mono, any-append, nodup, list_eq, ℕ, String, ◌≡◌, refl, sym, ap, ◌∙◌, subst, inl,
  inr, Bool, true, false, not, ◌&&◌, Option, none, some, List, [], ◌∷◌, arith, if◌then◌else◌, ltb,
  Bool-cases, is_some, any, all, keep, ◌==◌, nat_eq, string_eq, option_eq, any-keep-false,
}
use mathlib.Core.Option.{some-injective}
use devhatch.Auth.Sessions.{
  identity_of, Crypto, AdminCredentials, AuthSession, AuthTables, AuthIdentity, refused,
  already_initialized, NewSession, initialized, conflicts, insert_admin, insert_session,
  revoke_identity, setup, find_session, authenticate, Statement, admin_insert, session_insert,
  session_delete, execute, execute_all,
}

execute-admin :
    (s : Statement) (db : AuthTables) (row : AdminCredentials)
    → db.admin_credentials ≡ some row
    → (execute s db).admin_credentials ≡ some row
unfolding execute insert_admin insert_session revoke_identity
execute-admin (admin_insert fresh) db row h = rw (ap is_some h, execute) h
execute-admin (session_insert fresh) db row h =
    elim (Bool-cases (any (conflicts fresh) db.auth_sessions)) [
      | inl e ↦ rw (e, execute, insert_session) h
      | inr e ↦ rw (e, execute, insert_session) h
    ]
execute-admin (session_delete identity) db row h = h

execute_all-admin :
    (ss : List Statement) (db : AuthTables) (row : AdminCredentials)
    → db.admin_credentials ≡ some row
    → (execute_all ss db).admin_credentials ≡ some row
unfolding execute_all
execute_all-admin [] db row h = h
execute_all-admin (s ∷ ss) db row h =
    execute_all-admin ss (execute s db) row (execute-admin s db row h)

-- Once there is a password, it stays whatever statements the requests execute, and a request to
-- set it up changes nothing and is refused.
pub setup-execute_all :
    (crypto : Crypto) (setup_token_hash : Option String) (now : ℕ) (salt : String)
    (new : NewSession) (setup_token : String) (password : List ℕ) (ss : List Statement)
    (db : AuthTables) (row : AdminCredentials)
    → db.admin_credentials ≡ some row
    → ((execute_all ss db).admin_credentials ≡ some row)
      × (setup crypto setup_token_hash now salt new setup_token password (execute_all ss db)
          ≡ (execute_all ss db, refused already_initialized))
unfolding setup
setup-execute_all crypto setup_token_hash now salt new setup_token password ss db row h =
    let kept = execute_all-admin ss db row h in (kept, rw (ap is_some kept) refl)

abbrev pub has_hash : String → List AuthSession → Bool
has_hash hash sessions = any (λ s. s.token_hash == hash) sessions

-- The statements that insert a session with the hash.
abbrev pub inserts : String → Statement → Bool
inserts hash (admin_insert row) = false
inserts hash (session_insert row) = row.token_hash == hash
inserts hash (session_delete identity) = false

module _ (crypto : Crypto) (token : String) where
  find_session-none :
      (now : ℕ) (sessions : List AuthSession)
      → has_hash (crypto.hash_token token) sessions ≡ false
      → find_session crypto now token sessions ≡ none
  unfolding find_session
  find_session-none now [] h = refl
  find_session-none now (s ∷ sessions) h = ground (arith, find_session-none now sessions)

  find_session-has_hash :
      (now : ℕ) (sessions : List AuthSession) (identity : AuthIdentity)
      → find_session crypto now token sessions ≡ some identity
      → has_hash (crypto.hash_token token) sessions ≡ true
  find_session-has_hash now sessions identity h =
      elim (Bool-cases (has_hash (crypto.hash_token token) sessions)) [
        | inl e ↦ e
        | inr e ↦ absurd (cc (h, find_session-none now sessions e))
      ]

  any-conflicts :
      (s : AuthSession) (sessions : List AuthSession)
      → (s.token_hash == crypto.hash_token token) ≡ true
      → any (conflicts s) sessions ≡ false
      → has_hash (crypto.hash_token token) sessions ≡ false
  any-conflicts s xs e h = elim (Bool-cases (has_hash (crypto.hash_token token) xs)) [
    | inl f ↦ absurd (
        cc
          (h, any_mono (λ x. x.token_hash == crypto.hash_token token) (conflicts s) xs same_hash f))
    | inr f ↦ f
  ]
    where
      same_hash :
          (x : AuthSession)
          → (x.token_hash == crypto.hash_token token) ≡ true
          → conflicts s x ≡ true
      same_hash x g = or_right (s.id == x.id) (s.token_hash == x.token_hash) (
          (string_eq.same_iff s.token_hash x.token_hash).1 (
            (string_eq.same_iff s.token_hash (crypto.hash_token token)).0 e
            ∙ sym ((string_eq.same_iff x.token_hash (crypto.hash_token token)).0 g)))

  gone :
      (now : ℕ) (sessions : List AuthSession) (identity : AuthIdentity)
      → nodup conflicts sessions ≡ true
      → find_session crypto now token sessions ≡ some identity
      → has_hash (crypto.hash_token token) (keep (λ s. not (s.id == identity.session_id)) sessions)
        ≡ false
  unfolding find_session
  gone now [] identity dup h = refl
  gone now (s ∷ sessions) identity dup h =
      let (alone, later) = parts (any (conflicts s) sessions) (nodup conflicts sessions) dup in
      elim (Bool-cases (s.token_hash == crypto.hash_token token && ltb now s.expires_at)) [
        | inl e ↦
            let same : s.id ≡ identity.session_id =
              ap (λ (i : AuthIdentity). i.session_id) (some-injective _ _ (chosen h e)) in
            rw ((string_eq.same_iff s.id identity.session_id).1 same, keep)
              (any-keep-false (λ x. x.token_hash == crypto.hash_token token)
                (λ x. not (x.id == identity.session_id)) sessions
                (any-conflicts s sessions (left _ _ e) alone))
        | inr e ↦
            let found = passed_over h e in
            drop_or_keep
              (elim (Bool-cases (s.token_hash == crypto.hash_token token)) [
                | inl f ↦ absurd (
                    cc (
                      find_session-has_hash now sessions identity found,
                      any-conflicts s sessions f alone,
                    ))
                | inr f ↦ f
              ])
              (gone now sessions identity later found)
      ]
    where
      parts : (a b : Bool) → not a && b ≡ true → (a ≡ false) × (b ≡ true)
      parts a b h = ground arith

      left : (a b : Bool) → a && b ≡ true → a ≡ true
      left a b h = ground arith

      chosen :
          find_session crypto now token (s ∷ sessions) ≡ some identity
          → (s.token_hash == crypto.hash_token token && ltb now s.expires_at) ≡ true
          → some (identity_of s) ≡ some identity
      chosen h e =
          subst
            (λ b.
              (if b then some (identity_of s) else find_session crypto now token sessions)
              ≡ some identity)
            e h

      passed_over :
          find_session crypto now token (s ∷ sessions) ≡ some identity
          → (s.token_hash == crypto.hash_token token && ltb now s.expires_at) ≡ false
          → find_session crypto now token sessions ≡ some identity
      passed_over h e =
          subst
            (λ b.
              (if b then some (identity_of s) else find_session crypto now token sessions)
              ≡ some identity)
            e h

      drop_or_keep :
          (s.token_hash == crypto.hash_token token) ≡ false
          → has_hash
              (crypto.hash_token token)
              (keep (λ x. not (x.id == identity.session_id)) sessions)
            ≡ false
          → has_hash
              (crypto.hash_token token)
              (keep (λ x. not (x.id == identity.session_id)) (s ∷ sessions))
            ≡ false
      drop_or_keep f rest = elim (Bool-cases (s.id == identity.session_id)) [
        | inl g ↦ rw (g, keep) rest
        | inr g ↦ rw (g, keep) (rw f rest)
      ]

  execute-has_hash :
      (s : Statement) (db : AuthTables)
      → inserts (crypto.hash_token token) s ≡ false
      → has_hash (crypto.hash_token token) db.auth_sessions ≡ false
      → has_hash (crypto.hash_token token) (execute s db).auth_sessions ≡ false
  unfolding execute insert_admin insert_session revoke_identity
  execute-has_hash (admin_insert row) db e h = elim (Bool-cases (initialized db)) [
    | inl f ↦ rw (f, execute) h
    | inr f ↦ rw (f, execute) h
  ]
  execute-has_hash (session_insert row) db e h =
      elim (Bool-cases (any (conflicts row) db.auth_sessions)) [
        | inl f ↦ rw (f, execute, insert_session) h
        | inr f ↦
            rw (f, execute, insert_session)
              (any-append (λ s. s.token_hash == crypto.hash_token token) db.auth_sessions (row ∷ [])
                ∙ rw (h, e) refl)
      ]
  execute-has_hash (session_delete identity) db e h =
      any-keep-false (λ s. s.token_hash == crypto.hash_token token)
        (λ s. not (s.id == identity.session_id)) db.auth_sessions h

  execute_all-has_hash :
      (ss : List Statement) (db : AuthTables)
      → all (λ s. not (inserts (crypto.hash_token token) s)) ss ≡ true
      → has_hash (crypto.hash_token token) db.auth_sessions ≡ false
      → has_hash (crypto.hash_token token) (execute_all ss db).auth_sessions ≡ false
  unfolding execute_all
  execute_all-has_hash [] db e h = h
  execute_all-has_hash (s ∷ ss) db e h =
      let (here, later) =
        parts (inserts (crypto.hash_token token) s)
          (all (λ x. not (inserts (crypto.hash_token token) x)) ss) e in
      execute_all-has_hash ss (execute s db) later (execute-has_hash s db here h)
    where
      parts : (a b : Bool) → not a && b ≡ true → (a ≡ false) × (b ≡ true)
      parts a b h = ground arith

  -- In tables where no two sessions share an identifier or a hash, once the session that a token
  -- authenticates is revoked, the token authenticates nothing at any time, after any statements
  -- that insert no session with the hash of that token.
  pub authenticate-revoke_identity :
      (now later : ℕ) (identity : AuthIdentity) (ss : List Statement) (db : AuthTables)
      → nodup conflicts db.auth_sessions ≡ true
      → authenticate crypto now (some token) db ≡ some identity
      → all (λ s. not (inserts (crypto.hash_token token) s)) ss ≡ true
      → authenticate crypto later (some token) (execute_all ss (revoke_identity identity db)) ≡ none
  unfolding authenticate revoke_identity
  authenticate-revoke_identity now later identity ss db dup h e = find_session-none later _ (
      execute_all-has_hash ss (revoke_identity identity db) e
        (gone now db.auth_sessions identity dup h))
