-- ===== src/Auth/Kept.antt =====
-- That a session stays in the tables of apps/server/src/auth.rs, whatever other requests do, until it
-- is deleted.
use devhatch.Prelude.{
  ℕ, String, ◌≡◌, refl, sym, ap, ◌∙◌, inl, inr, Bool, true, false, not, ◌&&◌, List, [], ◌∷◌, ◌++◌,
  arith, Bool-cases, any, all, keep, ◌==◌, nat_eq, string_eq, option_eq, same_refl, list_eq,
}
use devhatch.Auth.Sessions.{
  Crypto, AuthSession, AuthTables, conflicts, insert_admin, insert_session, initialized,
  revoke_identity, find_session, Statement, admin_insert, session_insert, session_delete, execute,
  execute_all,
}

-- The statements that delete the session.
abbrev pub deletes : String → Statement → Bool
deletes id (admin_insert row) = false
deletes id (session_insert row) = false
deletes id (session_delete identity) = id == identity.session_id

-- The rows with the hash.
abbrev pub rows_with : String → List AuthSession → List AuthSession
rows_with hash sessions = keep (λ s. s.token_hash == hash) sessions

rows_with-conflicts :
    (row : AuthSession) (sessions : List AuthSession)
    → any (conflicts row) sessions ≡ false
    → rows_with row.token_hash sessions ≡ []
rows_with-conflicts row [] h = refl
rows_with-conflicts row (s ∷ sessions) h = ground (
  arith,
  rows_with-conflicts row sessions,
  string_eq.same_iff s.token_hash row.token_hash,
  string_eq.same_iff row.token_hash s.token_hash,
)

rows_with-other :
    (hash : String) (row : AuthSession) (sessions : List AuthSession)
    → (row.token_hash == hash) ≡ false
    → rows_with hash (sessions ++ row ∷ []) ≡ rows_with hash sessions
rows_with-other hash row [] h = rw h refl
rows_with-other hash row (s ∷ sessions) h = ground (arith, rows_with-other hash row sessions h)

rows_with_self :
    (row : AuthSession) (sessions : List AuthSession)
    → rows_with row.token_hash sessions ≡ []
    → rows_with row.token_hash (sessions ++ row ∷ []) ≡ row ∷ []
rows_with_self row [] h = rw (same_refl row.token_hash) refl
rows_with_self row (s ∷ sessions) h = ground (arith, rows_with_self row sessions)

-- A session that is inserted is the only one with its hash.
pub rows_with-new :
    (row : AuthSession) (sessions : List AuthSession)
    → any (conflicts row) sessions ≡ false
    → rows_with row.token_hash (sessions ++ row ∷ []) ≡ row ∷ []
rows_with-new row sessions h = rows_with_self row sessions (rows_with-conflicts row sessions h)

rows_with-keep :
    (hash id : String) (sessions : List AuthSession)
    → rows_with hash (keep (λ s. not (s.id == id)) sessions)
      ≡ keep (λ s. not (s.id == id)) (rows_with hash sessions)
rows_with-keep hash id [] = refl
rows_with-keep hash id (s ∷ sessions) = ground (arith, rows_with-keep hash id sessions)

module _ (row : AuthSession) where
  rows_with-insert :
      (fresh : AuthSession) (sessions : List AuthSession)
      → any (conflicts fresh) sessions ≡ false
      → rows_with row.token_hash sessions ≡ row ∷ []
      → rows_with row.token_hash (sessions ++ fresh ∷ []) ≡ row ∷ []
  rows_with-insert fresh sessions free h = elim (Bool-cases (fresh.token_hash == row.token_hash)) [
    | inl e ↦
        let same = (string_eq.same_iff fresh.token_hash row.token_hash).0 e in
        absurd (
          cc (
            h,
            ap (λ hash. rows_with hash sessions) (sym same)
                ∙ rows_with-conflicts fresh sessions free,
          ))
    | inr e ↦ rows_with-other row.token_hash fresh sessions e ∙ h
  ]

  execute-rows_with :
      (s : Statement) (db : AuthTables)
      → deletes row.id s ≡ false
      → rows_with row.token_hash db.auth_sessions ≡ row ∷ []
      → rows_with row.token_hash (execute s db).auth_sessions ≡ row ∷ []
  unfolding execute insert_admin insert_session revoke_identity
  execute-rows_with (admin_insert fresh) db e h = elim (Bool-cases (initialized db)) [
    | inl f ↦ rw (f, execute) h
    | inr f ↦ rw (f, execute) h
  ]
  execute-rows_with (session_insert fresh) db e h =
      elim (Bool-cases (any (conflicts fresh) db.auth_sessions)) [
        | inl f ↦ rw (f, execute, insert_session) h
        | inr f ↦ rw (f, execute, insert_session) (rows_with-insert fresh db.auth_sessions f h)
      ]
  execute-rows_with (session_delete identity) db e h =
      rows_with-keep row.token_hash identity.session_id db.auth_sessions
      ∙ ap (λ xs. keep (λ s. not (s.id == identity.session_id)) xs) h
      ∙ rw e refl

  -- The only session with its hash stays it, whatever statements do not delete it.
  pub execute_all-rows_with :
      (ss : List Statement) (db : AuthTables)
      → all (λ s. not (deletes row.id s)) ss ≡ true
      → rows_with row.token_hash db.auth_sessions ≡ row ∷ []
      → rows_with row.token_hash (execute_all ss db).auth_sessions ≡ row ∷ []
  unfolding execute_all
  execute_all-rows_with [] db e h = h
  execute_all-rows_with (s ∷ ss) db e h =
      execute_all-rows_with ss (execute s db) (rest _ _ e) (execute-rows_with s db (first _ _ e) h)
    where
      first : (a b : Bool) → not a && b ≡ true → a ≡ false
      first a b h = ground arith

      rest : (a b : Bool) → not a && b ≡ true → b ≡ true
      rest a b h = ground arith

-- A cookie finds its session among those with the hash of its token.
pub find_session-rows_with :
    (crypto : Crypto) (now : ℕ) (token : String) (sessions : List AuthSession)
    → find_session crypto now token sessions
      ≡ find_session crypto now token (rows_with (crypto.hash_token token) sessions)
unfolding find_session
find_session-rows_with crypto now token [] = refl
find_session-rows_with crypto now token (s ∷ sessions) =
    ground (arith, find_session-rows_with crypto now token sessions)
