-- ===== src/Auth/Login.antt =====
-- A login, and what its cookie is good for.
use devhatch.Prelude.{
  same_refl, list_eq, ℕ, ◌+◌, String, ◌≡◌, refl, ap, ◌∙◌, inl, inr, Bool, true, false, not, ◌&&◌,
  Option, none, some, List, [], ◌∷◌, ◌++◌, arith, if◌then◌else◌, ltb, Bool-cases, is_some_and, any,
  all, ◌*◌, ◌==◌, nat_eq, string_eq, option_eq,
}
use devhatch.ConstantTime.{constant_time_eq, constant_time_eq_iff}
use devhatch.Auth.Kept.{
  deletes, rows_with, rows_with-new, execute_all-rows_with, find_session-rows_with,
}
use devhatch.Auth.RateLimit.{Attempts, reserve_login_at, clear_failures}
use devhatch.Auth.Sessions.{
  identity_of, Crypto, AuthSession, AuthTables, AuthResponse, session_created, passed, refused,
  session_create_failed, authentication_required, invalid_csrf_token, Method, is_safe, NewSession,
  session_lifetime_ms, session_row, conflicts, insert_session, create_session_response, login,
  find_session, authenticate, require_auth, get, head, options, other, Statement, execute_all,
}

constant_time_eq-eq : (xs ys : List ℕ) → constant_time_eq xs ys ≡ (xs == ys)
constant_time_eq-eq xs ys =
    same_test (constant_time_eq xs ys) (xs == ys)
      (λ h. (list_eq.same_iff xs ys).1 ((constant_time_eq_iff xs ys).0 h))
      (λ h. (constant_time_eq_iff xs ys).1 ((list_eq.same_iff xs ys).0 h))
  where
    same_test : (a b : Bool) → (a ≡ true → b ≡ true) → (b ≡ true → a ≡ true) → a ≡ b
    same_test a b f g = ground arith

-- What the session of a login lets through: `GET`, `HEAD` and `OPTIONS`, and any other method with
-- its CSRF token.
abbrev pub permitted : NewSession → Method → Option (List ℕ) → Bool
permitted new get csrf_header = true
permitted new head csrf_header = true
permitted new options csrf_header = true
permitted new other none = false
permitted new other (some token) = token == new.csrf_token

-- What a request with the cookie of the new session is answered.
abbrev pub expected : (later : ℕ) → NewSession → Method → Option (List ℕ) → AuthResponse
expected later new method csrf_header =
    if not (ltb later (new.now + 7 * 24 * 60 * 60 * 1000))
    then refused authentication_required
    else if not (permitted new method csrf_header)
    then refused invalid_csrf_token
    else passed (record {
      session_id = new.id;
      csrf_token = new.csrf_token;
      expires_at = new.now + 7 * 24 * 60 * 60 * 1000;
    })

module _ (crypto : Crypto) (new : NewSession) where
  find_session-new :
      (later : ℕ) (sessions : List AuthSession)
      → rows_with (crypto.hash_token new.token) sessions ≡ session_row crypto new ∷ []
      → find_session crypto later new.token sessions ≡ (
          if ltb later (new.now + session_lifetime_ms)
          then some (identity_of (session_row crypto new))
          else none)
  unfolding find_session
  find_session-new later sessions h =
      find_session-rows_with crypto later new.token sessions
      ∙ ap (λ xs. find_session crypto later new.token xs) h
      ∙ rw (same_refl (crypto.hash_token new.token)) refl

  require_auth-new :
      (db : AuthTables)
      → rows_with (crypto.hash_token new.token) db.auth_sessions ≡ session_row crypto new ∷ []
      → (later : ℕ) (method : Method) (csrf_header : Option (List ℕ))
      → require_auth crypto later method csrf_header (some new.token) db
        ≡ expected later new method csrf_header
  unfolding require_auth authenticate
  require_auth-new db h later method csrf_header =
      let e = find_session-new later db.auth_sessions h in
      elim (Bool-cases (ltb later (new.now + session_lifetime_ms))) [
        | inl f ↦ rw (e, require_auth, authenticate) (rw f (by_method method csrf_header))
        | inr f ↦ rw (e, require_auth, authenticate) (rw f refl)
      ]
    where
      by_method :
          (method : Method) (csrf_header : Option (List ℕ))
          → (if not (is_safe method)
                && not (is_some_and csrf_header (λ token. constant_time_eq token new.csrf_token))
              then refused invalid_csrf_token
              else passed (identity_of (session_row crypto new)))
            ≡ (if not (permitted new method csrf_header)
                then refused invalid_csrf_token
                else passed (identity_of (session_row crypto new)))
      by_method get header = refl
      by_method head header = refl
      by_method options header = refl
      by_method other none = refl
      by_method other (some token) = rw (constant_time_eq-eq token new.csrf_token) refl

abbrev pub is_session_created : AuthResponse → Bool
is_session_created (session_created token csrf_token) = true
is_session_created (passed identity) = false
is_session_created (refused code) = false

module _ (crypto : Crypto) (ip : String) (now : ℕ) (new : NewSession) (password : List ℕ)
    (attempts : Attempts) (db : AuthTables) where
  abbrev pub attempt : (Attempts × AuthTables) × AuthResponse
  attempt = login crypto ip now new password attempts db

  abbrev pub granted : Bool
  granted = (reserve_login_at ip now attempts).1

  abbrev pub verified : Bool
  verified =
      is_some_and db.admin_credentials (λ row. crypto.verify_password row.password_hash password)

  abbrev taken : Bool
  taken = any (conflicts (session_row crypto new)) db.auth_sessions

  abbrev with_session : AuthTables
  with_session = record db { auth_sessions = db.auth_sessions ++ session_row crypto new ∷ [] }

  response_fresh :
      taken ≡ false
      → create_session_response crypto new db
        ≡ (with_session, session_created new.token new.csrf_token)
  unfolding create_session_response insert_session
  response_fresh h = rw (h, create_session_response, insert_session) refl

  response_taken :
      taken ≡ true → create_session_response crypto new db ≡ (db, refused session_create_failed)
  unfolding create_session_response insert_session
  response_taken h = rw (h, create_session_response, insert_session) refl

  -- The other three outcomes.
  login_refused : (granted && verified && not taken) ≡ false → is_session_created attempt.1 ≡ false
  unfolding login
  login_refused h = elim (Bool-cases granted) [
    | inl e ↦ elim (Bool-cases verified) [
      | inl f ↦ rw e (rw f (rw (response_taken (last granted verified taken h e f)) refl))
      | inr f ↦ rw e (rw f refl)
    ]
    | inr e ↦ rw e refl
  ]
    where
      last : (a b c : Bool) → (a && b && not c) ≡ false → a ≡ true → b ≡ true → c ≡ true
      last a b c h e f = ground arith

  login_created :
      granted ≡ true
      → verified ≡ true
      → taken ≡ false
      → attempt ≡ (
        (clear_failures ip (reserve_login_at ip now attempts).0, with_session),
        session_created new.token new.csrf_token,
      )
  unfolding login
  login_created e f g = rw e (rw f (rw (response_fresh g) refl))

  -- If a login makes a session, then the login limit let it through, there is a password and it
  -- verifies, and the answer has the new tokens. With the cookie, each later request is answered
  -- as expected, after any statements of requests that do not delete the session: for seven days
  -- it passes with the new identity, if its method is `GET`, `HEAD` or `OPTIONS` or it has the CSRF
  -- token, and is refused otherwise.
  pub login-require_auth :
      (ss : List Statement)
      → is_session_created attempt.1 ≡ true
      → all (λ s. not (deletes new.id s)) ss ≡ true
      → (granted ≡ true)
        × (verified ≡ true)
        × (attempt.1 ≡ session_created new.token new.csrf_token)
        × ((later : ℕ) (method : Method) (csrf_header : Option (List ℕ))
            → require_auth crypto later method csrf_header
                (some new.token)
                (execute_all ss attempt.0.1)
              ≡ expected later new method csrf_header)
  login-require_auth ss h others = elim (Bool-cases (granted && verified && not taken)) [
    | inl e ↦
        let (e₁, e₂, e₃) = parts granted verified taken e in
        let all = login_created e₁ e₂ e₃ in
        let kept =
          execute_all-rows_with (session_row crypto new) ss with_session others
            (rows_with-new (session_row crypto new) db.auth_sessions e₃) in
        (
          e₁,
          e₂,
          ap (λ r. r.1) all,
          (λ later method csrf_header.
              ap
                (λ r.
                  require_auth crypto later method csrf_header (some new.token)
                    (execute_all ss r.0.1))
                all
              ∙ require_auth-new crypto new (execute_all ss with_session) kept later method
                  csrf_header),
        )
    | inr e ↦ absurd (cc (h, login_refused e))
  ]
    where
      parts : (a b c : Bool) → (a && b && not c) ≡ true → (a ≡ true) × (b ≡ true) × (c ≡ false)
      parts a b c h = ground arith
