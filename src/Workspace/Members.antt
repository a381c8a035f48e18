-- ===== src/Workspace/Members.antt =====
-- The transactions of apps/server/src/workspace.rs on one member: `attach_session` and `remove_member`.
use devhatch.Registry.IndexMap.{same_key}
use devhatch.Workspace.Tables.{
  MemberIdentity, MemberRow, Database, workspace_exists, find_workspace, update_where, touch,
  activate, insert_member, delete_member, first, commit, is_of, row_before, members_of_rows,
}
use devhatch.Prelude.{
  map_some, ltb, leb, max, is_some_and, sort, ◌>>=◌, map_some, list_eq, ℕ, ◌+◌, max, String, Bool,
  ◌&&◌, ◌||◌, Option, none, some, List, [], ◌∷◌, if◌then◌else◌, ltb, leb, is_some_and, keep, nat_eq,
  string_eq, option_eq,
}
use devhatch.Workspace.Operations.{
  Workspace, find_in_transaction, is_among, insert_singleton, reconcile_transaction,
}

-- `SELECT COALESCE(MAX(position), -1) + 1 FROM workspace_sessions WHERE workspace_id = ?`
unfoldable pub next_position : String → List MemberRow → ℕ
next_position id [] = 0
next_position id (r ∷ rows) =
    let rest = next_position id rows in if is_of id r then max (r.position + 1) rest else rest

-- `attach_session` in the reconciled tables, with a workspace or without. An inner `none` is no
-- workspace.
unfoldable pub attach_to :
    (now : ℕ) → String → MemberIdentity → Database → Option (Database × Option Workspace)
attach_to now id member db = do
  added ← insert_member id member (next_position id db.workspace_sessions) db
  let chosen : Database = record added {
    workspaces = update_where id (activate now (some member)) added.workspaces;
  }
  workspace ← find_in_transaction id chosen
  db' ← commit chosen
  some (db', some workspace)

unfoldable pub attach_new :
    (now : ℕ) → String → MemberIdentity → Database → Option (Database × Option Workspace)
attach_new now id member db = do
  added ← insert_singleton now id member db
  workspace ← find_in_transaction id added
  db' ← commit added
  some (db', some workspace)

-- The end of `attach_session`; `db` is what a rollback leaves.
unfoldable pub attach_member :
    (now : ℕ)
    → String
    → Option String
    → MemberIdentity
    → (reconciled db : Database) → Option (Database × Option Workspace)
unfolding attach_to attach_new
attach_member now new_id none member reconciled db = attach_new now new_id member reconciled
attach_member now new_id (some id) member reconciled db =
    if workspace_exists id reconciled.workspaces
    then attach_to now id member reconciled
    else some (db, none)

-- The part of `attach_session` in the two tables.
unfoldable pub attach_session :
    (now : ℕ)
    → (ℕ → String)
    → String
    → List MemberIdentity
    → Option String
    → MemberIdentity
    → Database
    → Option (Database × Option Workspace)
unfolding attach_member
attach_session now uuid new_id eligible target member db = do
  reconciled ← reconcile_transaction now uuid eligible (some member) db
  (if is_among eligible member
      then attach_member now new_id target member reconciled db
      else map_some (λ db'. (db', none)) (commit reconciled))

-- `ORDER BY CASE WHEN position > ? THEN 0 ELSE 1 END, position, session_kind, session_id`
abbrev pub after_before : ℕ → MemberRow → MemberRow → Bool
after_before position a b =
    ltb position a.position && leb b.position position
    || (ltb position a.position || leb b.position position) && row_before a b

unfoldable pub fallback : String → ℕ → List MemberRow → Option MemberIdentity
fallback id position rows =
    first (members_of_rows (sort (after_before position) (keep (is_of id) rows)))

unfoldable pub remove_row : (now : ℕ) → MemberRow → Database → Option (Database × Option Workspace)
unfolding fallback
remove_row now row db = do
  w ← find_workspace row.workspace_id db.workspaces
  let rows = delete_member row.member db.workspace_sessions
  let change =
      if is_some_and w.active_session (λ active. same_key active row.member)
      then activate now (fallback row.workspace_id row.position rows)
      else touch now
  let removed : Database = record {
    workspaces = update_where row.workspace_id change db.workspaces;
    workspace_sessions = rows;
  }
  db' ← commit removed
  some (db', find_in_transaction row.workspace_id removed)

-- The row of the member; its key is the member's.
unfoldable pub remove_member :
    (now : ℕ) → MemberIdentity → Database → Option (Database × Option Workspace)
unfolding remove_row
remove_member now member db =
    elim (first (keep (λ r. same_key r.member member) db.workspace_sessions)) [
      | none ↦ map_some (λ db'. (db', none)) (commit db)
      | some row ↦ remove_row now row db
    ]
