-- ===== src/Auth/Sessions.antt =====
-- The administrator and the sessions of apps/server/src/auth.rs, with the tables of
-- apps/server/migrations/0001_auth.sql. SHA-256 and Argon2 are parameters; the clock's values, the
-- identifiers and the random tokens are arguments. A CSRF token is the list of its bytes. A response is what the client is told.
use devhatch.Prelude.{
  byte_len, list_eq, ℕ, ◌+◌, ◌*◌, String, Bool, true, false, not, ◌&&◌, ◌||◌, Option, none, some,
  List, [], ◌∷◌, ◌++◌, if◌then◌else◌, ltb, is_some, is_some_and, any, keep, ◌==◌, nat_eq, string_eq,
  option_eq, codes,
}
use devhatch.ConstantTime.{constant_time_eq}
use devhatch.Auth.RateLimit.{Attempts, reserve_login_at, clear_failures}

-- `hash_token`, Argon2 with a salt, and its verification.
pub record Crypto : Type 0 where
  pub hash_token : String → String
  pub hash_password : (salt : String) → List ℕ → Option String
  pub verify_password : String → List ℕ → Bool

abbrev pub session_lifetime_ms : ℕ
session_lifetime_ms = 7 * 24 * 60 * 60 * 1000

pub record AdminCredentials : Type 0 where
  pub password_hash : String
  pub created_at : ℕ
  pub updated_at : ℕ

pub record AuthSession : Type 0 where
  pub id : String
  pub token_hash : String
  pub csrf_token : List ℕ
  pub created_at : ℕ
  pub expires_at : ℕ
  pub last_seen_at : ℕ

pub record AuthTables : Type 0 where
  pub admin_credentials : Option AdminCredentials
  pub auth_sessions : List AuthSession

pub record AuthIdentity : Type 0 where
  pub session_id : String
  pub csrf_token : List ℕ
  pub expires_at : ℕ

pub data AuthError : Type 0 where
  already_initialized : AuthError
  invalid_setup_token : AuthError
  invalid_password : AuthError
  password_hash_failed : AuthError
  login_rate_limited : AuthError
  invalid_credentials : AuthError
  authentication_required : AuthError
  invalid_csrf_token : AuthError
  session_create_failed : AuthError

pub data AuthResponse : Type 0 where
  session_created : (token : String) (csrf_token : List ℕ) → AuthResponse
  passed : AuthIdentity → AuthResponse
  refused : AuthError → AuthResponse

pub data Method : Type 0 where
  get : Method
  head : Method
  options : Method
  other : Method

abbrev pub initialized : AuthTables → Bool
initialized db = is_some db.admin_credentials

-- `INSERT INTO admin_credentials … ON CONFLICT(id) DO NOTHING`, and whether a row is new.
unfoldable pub insert_admin : AdminCredentials → AuthTables → AuthTables × Bool
insert_admin row db =
    if initialized db then (db, false) else (record db { admin_credentials = some row }, true)

abbrev pub conflicts : AuthSession → AuthSession → Bool
conflicts a b = a.id == b.id || a.token_hash == b.token_hash

-- The identifier is the key, and the hash of the token is unique.
unfoldable pub insert_session : AuthSession → AuthTables → Option AuthTables
insert_session row db =
    if any (conflicts row) db.auth_sessions
    then none
    else some (record db { auth_sessions = db.auth_sessions ++ row ∷ [] })

-- `revoke_identity`
unfoldable pub revoke_identity : AuthIdentity → AuthTables → AuthTables
revoke_identity identity db = record db {
  auth_sessions = keep (λ s. not (s.id == identity.session_id)) db.auth_sessions;
}

pub data InitializePassword : Type 0 where
  created : Bool → InitializePassword
  wrong_length : InitializePassword
  hash_failed : InitializePassword

-- The values that are new for a session.
pub record NewSession : Type 0 where
  pub now : ℕ
  pub id : String
  pub token : String
  pub csrf_token : List ℕ

abbrev pub identity_of : AuthSession → AuthIdentity
identity_of s = record { session_id = s.id; csrf_token = s.csrf_token; expires_at = s.expires_at }

abbrev pub is_safe : Method → Bool
is_safe get = true
is_safe head = true
is_safe options = true
is_safe other = false

module _ (crypto : Crypto) where
  unfoldable pub initialize_password :
      (now : ℕ) → (salt : String) → List ℕ → AuthTables → AuthTables × InitializePassword
  unfolding insert_admin
  initialize_password now salt password db =
      if initialized db
      then (db, created false)
      else if ltb (byte_len password) 12 || ltb 1024 (byte_len password)
      then (db, wrong_length)
      else elim (crypto.hash_password salt password) [
        | none ↦ (db, hash_failed)
        | some hash ↦
            let (db', fresh) =
              insert_admin (record { password_hash = hash; created_at = now; updated_at = now })
                db in
            (db', created fresh)
      ]

  abbrev pub session_row : NewSession → AuthSession
  session_row new = record {
    id = new.id;
    token_hash = crypto.hash_token new.token;
    csrf_token = new.csrf_token;
    created_at = new.now;
    expires_at = new.now + session_lifetime_ms;
    last_seen_at = new.now;
  }

  unfoldable pub create_session_response : NewSession → AuthTables → AuthTables × AuthResponse
  unfolding insert_session
  create_session_response new db = elim (insert_session (session_row new) db) [
    | none ↦ (db, refused session_create_failed)
    | some db' ↦ (db', session_created new.token new.csrf_token)
  ]

  abbrev setup_answer : NewSession → AuthTables → InitializePassword → AuthTables × AuthResponse
  setup_answer new db (created true) = create_session_response new db
  setup_answer new db (created false) = (db, refused already_initialized)
  setup_answer new db wrong_length = (db, refused invalid_password)
  setup_answer new db hash_failed = (db, refused password_hash_failed)

  unfoldable pub setup :
      (setup_token_hash : Option String)
      → (now : ℕ) → (salt : String) → NewSession
      → (setup_token : String) → (password : List ℕ) → AuthTables
      → AuthTables × AuthResponse
  unfolding initialize_password create_session_response
  setup setup_token_hash now salt new setup_token password db =
      if initialized db
      then (db, refused already_initialized)
      else if not (
          is_some_and setup_token_hash
            (λ expected. constant_time_eq (codes expected) (codes (crypto.hash_token setup_token))))
      then (db, refused invalid_setup_token)
      else let (db', result) = initialize_password now salt password db in
        setup_answer new db' result

  -- The attempts and the tables after a login.
  unfoldable pub login :
      (ip : String)
      → (now : ℕ) → NewSession
      → (password : List ℕ) → Attempts
      → AuthTables
      → (Attempts × AuthTables) × AuthResponse
  unfolding create_session_response reserve_login_at clear_failures
  login ip now new password attempts db =
      let (reserved, granted) = reserve_login_at ip now attempts in
      if not granted
      then ((reserved, db), refused login_rate_limited)
      else if not (
          is_some_and db.admin_credentials
            (λ row. crypto.verify_password row.password_hash password))
      then ((reserved, db), refused invalid_credentials)
      else let (db', response) = create_session_response new db in
        ((clear_failures ip reserved, db'), response)

  -- The first row, by the unique hash the only one.
  unfoldable pub find_session : (now : ℕ) → String → List AuthSession → Option AuthIdentity
  find_session now token [] = none
  find_session now token (s ∷ sessions) =
      let rest = find_session now token sessions in
      if s.token_hash == crypto.hash_token token && ltb now s.expires_at
      then some (identity_of s)
      else rest

  unfoldable pub authenticate :
      (now : ℕ) → (cookie : Option String) → AuthTables → Option AuthIdentity
  unfolding find_session
  authenticate now none db = none
  authenticate now (some token) db = find_session now token db.auth_sessions

  -- `passed` is what goes on to the handler.
  unfoldable pub require_auth :
      (now : ℕ)
      → Method
      → (csrf_header : Option (List ℕ)) → (cookie : Option String) → AuthTables
      → AuthResponse
  unfolding authenticate
  require_auth now method csrf_header cookie db = elim (authenticate now cookie db) [
    | none ↦ refused authentication_required
    | some session ↦
        if not (is_safe method)
          && not (is_some_and csrf_header (λ token. constant_time_eq token session.csrf_token))
        then refused invalid_csrf_token
        else passed session
  ]

-- What the tables undergo: other requests run between the statements of one.
pub data Statement : Type 0 where
  admin_insert : AdminCredentials → Statement
  session_insert : AuthSession → Statement
  session_delete : AuthIdentity → Statement

unfoldable pub execute : Statement → AuthTables → AuthTables
unfolding insert_admin insert_session revoke_identity
execute (admin_insert row) db = (insert_admin row db).0
execute (session_insert row) db = elim (insert_session row db) [ none ↦ db | some db' ↦ db' ]
execute (session_delete identity) db = revoke_identity identity db

unfoldable pub execute_all : List Statement → AuthTables → AuthTables
unfolding execute
execute_all [] db = db
execute_all (s ∷ statements) db = execute_all statements (execute s db)
