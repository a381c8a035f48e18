-- ===== src/Auth/SessionTests.antt =====
-- Runs of the sessions of users.
use devhatch.Prelude.{
  is_whitespace, trim_start, trim_end, list_beq, list_eq, ℕ, ◌≡◌, refl, true, false, Option, none,
  some, List, [], ◌∷◌, nat_eq, string_eq, option_eq, codes,
}
use devhatch.ConstantTime.{constant_time_eq}
use devhatch.Auth.RateLimit.{Attempts, reserve_login_at, expire}
use devhatch.Auth.Sessions.{
  Crypto, AdminCredentials, AuthSession, AuthTables, session_created, refused, already_initialized,
  invalid_csrf_token, Method, NewSession, session_row, identity_of, revoke_identity, setup, login,
  authenticate, require_auth, Statement, session_insert, session_delete, admin_insert, execute_all,
}
use devhatch.Auth.Revocation.{setup-execute_all, authenticate-revoke_identity}
use devhatch.Auth.Cookie.{
  cookie, join, name_and_value, cookie_header, cookie-cookie_header, find_value, strip_prefix,
}
use devhatch.Auth.Login.{login-require_auth, attempt, granted, verified, expected}

-- Hashes that show what they hash.
abbrev crypto_test : Crypto
crypto_test = record {
  hash_token = λ token. token;
  hash_password = λ salt password. some salt;
  verify_password = λ hash password. list_beq (codes hash) password;
}

abbrev admin_test : AdminCredentials
admin_test = record { password_hash = "secret"; created_at = 1; updated_at = 1 }

abbrev old_session : AuthSession
old_session = record {
  id = "s1";
  token_hash = "t1";
  csrf_token = 7 ∷ [];
  created_at = 0;
  expires_at = 100;
  last_seen_at = 0;
}

abbrev tables_test : AuthTables
tables_test = record { admin_credentials = some admin_test; auth_sessions = old_session ∷ [] }

abbrev new_test : NewSession
new_test = record { now = 10; id = "s2"; token = "t2"; csrf_token = 8 ∷ 9 ∷ [] }

abbrev no_attempts : Attempts
no_attempts ip = []

setup_test :
    (setup crypto_test
      (some "setup")
      1
      "h"
      new_test
      "setup"
      (codes "long enough password")
      (record { admin_credentials = none; auth_sessions = [] })).1
    ≡ session_created "t2" (8 ∷ 9 ∷ [])
unfolding setup constant_time_eq
setup_test = refl

csrf_test :
    require_auth crypto_test 50 Method.other (some (6 ∷ [])) (some "t1") tables_test
    ≡ refused invalid_csrf_token
unfolding require_auth constant_time_eq
csrf_test = refl

abbrev later_test : List Statement
later_test = session_insert (session_row crypto_test new_test) ∷ admin_insert admin_test ∷ []

setup-execute_all_example :
    ((execute_all later_test tables_test).admin_credentials ≡ some admin_test)
    × (setup crypto_test
          (some "setup")
          1
          "h"
          new_test
          "setup"
          []
          (execute_all later_test tables_test)
        ≡ (execute_all later_test tables_test, refused already_initialized))
setup-execute_all_example =
    setup-execute_all crypto_test (some "setup") 1 "h" new_test "setup" [] later_test tables_test
      admin_test refl

authenticate-revoke_identity_example :
    authenticate crypto_test 60
      (some "t1")
      (execute_all later_test (revoke_identity (identity_of old_session) tables_test))
    ≡ none
unfolding authenticate
authenticate-revoke_identity_example =
    authenticate-revoke_identity crypto_test "t1" 50 60 (identity_of old_session) later_test
      tables_test refl refl refl

-- Others log in and out.
abbrev others_test : List Statement
others_test =
    session_delete (identity_of old_session)
    ∷ session_insert old_session
    ∷ admin_insert admin_test
    ∷ []

login-require_auth_example :
    (granted crypto_test "ip" 10 new_test (codes "secret") no_attempts tables_test ≡ true)
    × (verified crypto_test "ip" 10 new_test (codes "secret") no_attempts tables_test ≡ true)
    × ((attempt crypto_test "ip" 10 new_test (codes "secret") no_attempts tables_test).1
        ≡ session_created "t2" (8 ∷ 9 ∷ []))
    × ((later : ℕ) (method : Method) (csrf_header : Option (List ℕ))
        → require_auth crypto_test later method csrf_header (some "t2") (
            execute_all others_test
              (attempt crypto_test "ip" 10 new_test (codes "secret") no_attempts tables_test).0.1)
          ≡ expected later new_test method csrf_header)
unfolding login reserve_login_at expire
login-require_auth_example =
    login-require_auth crypto_test "ip" 10 new_test (codes "secret") no_attempts tables_test
      others_test refl refl

cookie-cookie_header_example :
    cookie (
      some (
        join (
          codes "theme=dark"
          ∷ name_and_value (cookie_header (codes "a1b2") false true)
          ∷ codes "x=y"
          ∷ [])))
    ≡ some (codes "a1b2")
unfolding is_whitespace find_value strip_prefix trim_start trim_end
cookie-cookie_header_example =
    cookie-cookie_header (codes "a1b2") true (codes "theme=dark" ∷ []) (codes "x=y" ∷ []) refl refl
      refl refl
