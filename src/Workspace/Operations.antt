-- ===== src/Workspace/Operations.antt =====
-- The transactions of apps/server/src/workspace.rs on whole workspaces. The clock's value and the new identifiers are
-- arguments; `none` is an error of the database, after which nothing has changed.
use devhatch.Registry.IndexMap.{same_key}
use devhatch.Workspace.Tables.{
  MemberIdentity, WorkspaceRow, MemberRow, Database, workspace_exists, find_workspace, update_where,
  touch, activate, insert_workspace, insert_member, delete_member, load_members, first, active_ok,
  commit, is_of, member_before,
}
use devhatch.Prelude.{
  map_some, sort, ◌>>=◌, map_some, list_eq, ℕ, suc, String, Bool, false, not, ◌&&◌, Option, none,
  some, List, [], ◌∷◌, ◌++◌, if◌then◌else◌, any, keep, ◌==◌, nat_eq, string_eq, option_eq,
}

pub record Workspace : Type 0 where
  pub id : String
  pub name : Option (List ℕ)
  pub active_session : Option MemberIdentity
  pub members : List MemberIdentity
  pub created_at : ℕ
  pub updated_at : ℕ

unfoldable pub assemble : WorkspaceRow → List MemberIdentity → Workspace
assemble row members = record {
  id = row.id;
  name = row.name;
  active_session = row.active_session;
  members = members;
  created_at = row.created_at;
  updated_at = row.updated_at;
}

unfoldable pub find_in_transaction : String → Database → Option Workspace
unfolding assemble
find_in_transaction id db =
    map_some (λ row. assemble row (load_members id db.workspace_sessions))
      (find_workspace id db.workspaces)

abbrev pub is_among : List MemberIdentity → MemberIdentity → Bool
is_among members member = any (λ m. same_key m member) members

-- `HashSet::insert`, in the order of insertion.
abbrev pub add_id : String → List String → List String
add_id id ids = if any (λ x. x == id) ids then ids else ids ++ id ∷ []

-- The active session that `repair_workspace` leaves.
unfoldable pub repaired_active : List MemberRow → WorkspaceRow → Option MemberIdentity
repaired_active rows w =
    if active_ok rows w then w.active_session else first (load_members w.id rows)

unfoldable pub repair_workspace : (now : ℕ) → String → Database → Database
unfolding repaired_active
repair_workspace now id db = elim (find_workspace id db.workspaces) [
  | none ↦ db
  | some w ↦ record db {
    workspaces =
        update_where id (activate now (repaired_active db.workspace_sessions w)) db.workspaces;
  }
]

unfoldable pub repair_all : (now : ℕ) → List String → Database → Database
repair_all now [] db = db
repair_all now (id ∷ ids) db = repair_all now ids (repair_workspace now id db)

-- The loop of `reconcile_transaction` over the rows that it has read.
pub record Sweep : Type 0 where
  pub members : List MemberRow
  pub owned : List MemberIdentity
  pub affected : List String

unfoldable pub sweep_row : List MemberIdentity → MemberRow → Sweep → Sweep
sweep_row eligible r s =
    if is_among eligible r.member then record s { owned = s.owned ++ r.member ∷ [] } else record s {
      members = delete_member r.member s.members;
      affected = add_id r.workspace_id s.affected;
    }

unfoldable pub sweep : List MemberIdentity → List MemberRow → Sweep → Sweep
unfolding sweep_row
sweep eligible [] s = s
sweep eligible (r ∷ rows) s = sweep eligible rows (sweep_row eligible r s)

unfoldable pub insert_singleton : (now : ℕ) → String → MemberIdentity → Database → Option Database
insert_singleton now id member db = do
  db' ←
      insert_workspace
        (record {
          id = id;
          name = none;
          active_session = some member;
          created_at = now;
          updated_at = now;
        })
        db
  insert_member id member 0 db'

-- The identifiers are `uuid n`, `uuid (n + 1)` and so on.
unfoldable pub insert_singletons :
    (now : ℕ) → (ℕ → String) → ℕ → List MemberIdentity → Database → Option Database
insert_singletons now uuid n [] db = some db
insert_singletons now uuid n (m ∷ ms) db = do
  db' ← insert_singleton now (uuid n) m db
  insert_singletons now uuid (suc n) ms db'

abbrev pub is_excluded : Option MemberIdentity → MemberIdentity → Bool
is_excluded none member = false
is_excluded (some excluded) member = same_key excluded member

unfoldable pub unowned :
    List MemberIdentity → Option MemberIdentity → List MemberIdentity → List MemberIdentity
unowned eligible excluded owned =
    sort member_before (keep (λ m. not (is_among owned m) && not (is_excluded excluded m)) eligible)

unfoldable pub reconcile_transaction :
    (now : ℕ)
    → (ℕ → String)
    → List MemberIdentity
    → Option MemberIdentity
    → Database
    → Option Database
unfolding sweep repair_all
reconcile_transaction now uuid eligible excluded db =
    let swept =
      sweep eligible db.workspace_sessions
        (record { members = db.workspace_sessions; owned = []; affected = [] }) in
    insert_singletons now uuid 0 (unowned eligible excluded swept.owned)
      (repair_all now swept.affected (record db { workspace_sessions = swept.members }))

-- The workspaces of `members` before `create_workspace` takes them out.
unfoldable pub take_members :
    List MemberIdentity → List MemberRow → List String → List MemberRow × List String
take_members [] rows affected = (rows, affected)
take_members (m ∷ ms) rows affected =
    take_members ms (delete_member m rows) (elim (first (keep (λ r. same_key r.member m) rows)) [
      | none ↦ affected
      | some r ↦ add_id r.workspace_id affected
    ])

unfoldable pub insert_members : String → ℕ → List MemberIdentity → Database → Option Database
insert_members id position [] db = some db
insert_members id position (m ∷ ms) db = do
  db' ← insert_member id m position db
  insert_members id (suc position) ms db'

unfoldable pub create_workspace :
    (now : ℕ)
    → String
    → Option (List ℕ)
    → List MemberIdentity
    → Database
    → Option (Database × Workspace)
unfolding take_members
create_workspace now id name members db = do
  let (rows, affected) = take_members members db.workspace_sessions []
  created ←
      insert_workspace
        (record {
          id = id;
          name = name;
          active_session = first members;
          created_at = now;
          updated_at = now;
        })
        (repair_all now affected (record db { workspace_sessions = rows }))
  filled ← insert_members id 0 members created
  workspace ← find_in_transaction id filled
  db' ← commit filled
  some (db', workspace)

abbrev pub set_name : Option (Option (List ℕ)) → WorkspaceRow → WorkspaceRow
set_name none w = w
set_name (some name) w = record w { name = name }

abbrev pub set_active : Option (Option MemberIdentity) → WorkspaceRow → WorkspaceRow
set_active none w = w
set_active (some active) w = record w { active_session = active }

-- The three updates; the code cannot reach the fourth case. An inner `none` is a row that is not there.
unfoldable pub update_workspace :
    (now : ℕ)
    → String
    → Option (Option (List ℕ))
    → Option (Option MemberIdentity)
    → Database
    → Option (Database × Option Workspace)
update_workspace now id name active db =
    if not (workspace_exists id db.workspaces) then some (db, none) else do
      let updated : Database = record db {
        workspaces =
            update_where id (λ w. touch now (set_active active (set_name name w))) db.workspaces;
      }
      workspace ← find_in_transaction id updated
      db' ← commit updated
      some (db', some workspace)

unfoldable pub delete_workspace :
    String → Database → Option (Database × Option (List MemberIdentity))
delete_workspace id db = if not (workspace_exists id db.workspaces) then some (db, none) else do
  db' ← commit (record {
    workspaces = keep (λ w. not (w.id == id)) db.workspaces;
    workspace_sessions = keep (λ r. not (is_of id r)) db.workspace_sessions;
  })
  some (db', some (load_members id db.workspace_sessions))
