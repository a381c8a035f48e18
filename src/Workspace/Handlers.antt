-- ===== src/Workspace/Handlers.antt =====
-- The handlers `create`, `update` and `remove` of apps/server/src/workspace.rs, with the tables and the
-- eligible sessions as arguments. A name is the list of its code points.
use devhatch.Prelude.{
  map_some, is_empty, list_eq, ℕ, String, Bool, false, not, ◌&&◌, ◌||◌, Option, none, some, List,
  [], ◌∷◌, if◌then◌else◌, ltb, is_none, is_some_and, any, ◌==◌, nat_eq, string_eq, option_eq,
  trim_end, utf16_len, trim_start,
}
use devhatch.Workspace.Tables.{MemberIdentity, Database, workspace_exists, member_belongs}
use devhatch.Workspace.Operations.{
  Workspace, is_among, create_workspace, update_workspace, delete_workspace,
}

pub data ErrorCode : Type 0 where
  invalid_workspace_name : ErrorCode
  invalid_workspace_members : ErrorCode
  session_not_eligible : ErrorCode
  empty_update : ErrorCode
  active_session_not_member : ErrorCode

pub data Response : Type 0 where
  created : Workspace → Response
  ok : Workspace → Response
  no_content : Response
  bad_request : ErrorCode → Response
  not_found : Response
  database_error : Response

abbrev pub trim : List ℕ → List ℕ
trim name = trim_end (trim_start name)

-- `none` is the error.
unfoldable pub validate_name : Option (List ℕ) → Option (Option (List ℕ))
validate_name value =
    if is_some_and (map_some trim value) (λ name. is_empty name || ltb 120 (utf16_len name))
    then none
    else some (map_some trim value)

unfoldable pub has_invalid : List MemberIdentity → List MemberIdentity → Bool
has_invalid unique [] = false
has_invalid unique (member ∷ members) =
    member.id == "" || is_among unique member || has_invalid (member ∷ unique) members

unfoldable pub has_invalid_members : List MemberIdentity → Bool
unfolding has_invalid
has_invalid_members members = has_invalid [] members

unfoldable pub create_checked :
    (now : ℕ) → String → Option (List ℕ) → List MemberIdentity → Database → Database × Response
create_checked now id name members db = elim (create_workspace now id name members db) [
  | none ↦ (db, database_error)
  | some (db', workspace) ↦ (db', created workspace)
]

unfoldable pub create :
    (now : ℕ)
    → String
    → (eligible : List MemberIdentity) → Option (List ℕ)
    → List MemberIdentity
    → Database
    → Database × Response
unfolding validate_name has_invalid_members create_checked
create now id eligible name members db = elim (validate_name name) [
  | none ↦ (db, bad_request invalid_workspace_name)
  | some name ↦
      if has_invalid_members members
      then (db, bad_request invalid_workspace_members)
      else if any (λ m. not (is_among eligible m)) members
      then (db, bad_request session_not_eligible)
      else create_checked now id name members db
]

unfoldable pub update_checked :
    (now : ℕ)
    → String
    → Option (Option (List ℕ))
    → Option (Option MemberIdentity)
    → Database
    → Database × Response
update_checked now id name active db = elim (update_workspace now id name active db) [
  | none ↦ (db, database_error)
  | some (db', none) ↦ (db', not_found)
  | some (db', some workspace) ↦ (db', ok workspace)
]

-- The test of the session that is to be active.
unfoldable pub update_active :
    (now : ℕ)
    → String
    → (eligible : List MemberIdentity) → Option (Option (List ℕ))
    → Option (Option MemberIdentity)
    → Database
    → Database × Response
unfolding update_checked
update_active now id eligible name none db = update_checked now id name none db
update_active now id eligible name (some none) db = update_checked now id name (some none) db
update_active now id eligible name (some (some active)) db =
    if not (is_among eligible active)
    then (db, bad_request session_not_eligible)
    else if not (member_belongs db.workspace_sessions id active)
    then (db, bad_request active_session_not_member)
    else update_checked now id name (some (some active)) db

-- `validate_name` of the name, if one is given.
unfoldable pub validate_update : Option (Option (List ℕ)) → Option (Option (Option (List ℕ)))
unfolding validate_name
validate_update none = some none
validate_update (some name) = map_some (λ n. some n) (validate_name name)

unfoldable pub update :
    (now : ℕ)
    → String
    → (eligible : List MemberIdentity) → Option (Option (List ℕ))
    → Option (Option MemberIdentity)
    → Database
    → Database × Response
unfolding update_active validate_update
update now id eligible name active db =
    if is_none name && is_none active
    then (db, bad_request empty_update)
    else elim (validate_update name) [
      | none ↦ (db, bad_request invalid_workspace_name)
      | some name ↦
          if not (workspace_exists id db.workspaces)
          then (db, not_found)
          else update_active now id eligible name active db
    ]

-- The tables, the answer, and the members whose sessions are then removed and terminated.
unfoldable pub remove : String → Database → (Database × Response) × List MemberIdentity
remove id db = elim (delete_workspace id db) [
  | none ↦ ((db, database_error), [])
  | some (db', none) ↦ ((db', not_found), [])
  | some (db', some members) ↦ ((db', no_content), members)
]
