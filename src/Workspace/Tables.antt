-- ===== src/Workspace/Tables.antt =====
-- The tables of apps/server/migrations/0004_workspaces.sql as lists of rows, and the statements of
-- apps/server/src/workspace.rs. The two columns of the active session are null together, by a CHECK of
-- the table, so that they are one optional member; a kind is one of two, by another. A statement that
-- breaks a constraint fails, and a deferred constraint is tested by `commit`.
use devhatch.Session.{kind_text}
use devhatch.Registry.IndexMap.{SessionKey, same_key}
use devhatch.Prelude.{
  text_lt, sort, map, list_eq, ℕ, ◌+◌, max, String, Bool, not, ◌&&◌, ◌||◌, Option, none, some, List,
  [], ◌∷◌, ◌++◌, if◌then◌else◌, ltb, is_none_or, any, all, keep, ◌==◌, nat_eq, string_eq, option_eq,
}

abbrev pub MemberIdentity : Type 0
MemberIdentity = SessionKey

pub record WorkspaceRow : Type 0 where
  pub id : String
  pub name : Option (List ℕ)
  pub active_session : Option MemberIdentity
  pub created_at : ℕ
  pub updated_at : ℕ

pub record MemberRow : Type 0 where
  pub member : MemberIdentity
  pub workspace_id : String
  pub position : ℕ

pub record Database : Type 0 where
  pub workspaces : List WorkspaceRow
  pub workspace_sessions : List MemberRow

-- The keys of the tables.
abbrev pub same_id : WorkspaceRow → WorkspaceRow → Bool
same_id a b = a.id == b.id

abbrev pub same_member : MemberRow → MemberRow → Bool
same_member a b = same_key a.member b.member

abbrev pub same_position : MemberRow → MemberRow → Bool
same_position a b = a.workspace_id == b.workspace_id && a.position == b.position

abbrev pub is_of : String → MemberRow → Bool
is_of workspace_id r = r.workspace_id == workspace_id

abbrev pub has_id : String → WorkspaceRow → Bool
has_id id w = w.id == id

-- `SELECT EXISTS(SELECT 1 FROM workspaces WHERE id = ?)`
unfoldable pub workspace_exists : String → List WorkspaceRow → Bool
workspace_exists id workspaces = any (has_id id) workspaces

unfoldable pub find_workspace : String → List WorkspaceRow → Option WorkspaceRow
find_workspace id [] = none
find_workspace id (w ∷ workspaces) =
    let rest = find_workspace id workspaces in if w.id == id then some w else rest

-- `UPDATE workspaces SET … WHERE id = ?`
unfoldable pub update_where :
    String → (WorkspaceRow → WorkspaceRow) → List WorkspaceRow → List WorkspaceRow
update_where id f workspaces = map (λ w. if w.id == id then f w else w) workspaces

-- `updated_at = MAX(?, updated_at + 1)`
abbrev pub touch : (now : ℕ) → WorkspaceRow → WorkspaceRow
touch now w = record w { updated_at = max now (w.updated_at + 1) }

abbrev pub activate : (now : ℕ) → Option MemberIdentity → WorkspaceRow → WorkspaceRow
activate now active w = record w {
  active_session = active;
  updated_at = max now (w.updated_at + 1);
}

-- `member_belongs`
unfoldable pub member_belongs : List MemberRow → String → MemberIdentity → Bool
member_belongs rows workspace_id member =
    any (λ r. is_of workspace_id r && same_key r.member member) rows

unfoldable pub insert_workspace : WorkspaceRow → Database → Option Database
unfolding workspace_exists
insert_workspace w db =
    if workspace_exists w.id db.workspaces
    then none
    else some (record db { workspaces = db.workspaces ++ w ∷ [] })

-- The row of a member, unless it breaks `CHECK (session_id <> '')`, the reference to a workspace, the
-- primary key, or the position that is unique in a workspace.
unfoldable pub insert_member : String → MemberIdentity → ℕ → Database → Option Database
unfolding workspace_exists
insert_member workspace_id member position db =
    let row : MemberRow = record {
      member = member;
      workspace_id = workspace_id;
      position = position;
    } in
    if member.id == ""
      || not (workspace_exists workspace_id db.workspaces)
      || any (λ r. same_member r row) db.workspace_sessions
      || any (λ r. same_position r row) db.workspace_sessions
    then none
    else some (record db { workspace_sessions = db.workspace_sessions ++ row ∷ [] })

-- `DELETE FROM workspace_sessions WHERE session_kind = ? AND session_id = ?`
unfoldable pub delete_member : MemberIdentity → List MemberRow → List MemberRow
delete_member member rows = keep (λ r. not (same_key r.member member)) rows

abbrev pub member_before : MemberIdentity → MemberIdentity → Bool
member_before a b =
    text_lt (kind_text a.kind) (kind_text b.kind)
    || kind_text a.kind == kind_text b.kind && text_lt a.id b.id

-- `ORDER BY position, session_kind, session_id`
abbrev pub row_before : MemberRow → MemberRow → Bool
row_before a b =
    ltb a.position b.position || a.position == b.position && member_before a.member b.member

abbrev pub members_of_rows : List MemberRow → List MemberIdentity
members_of_rows rows = map (λ r. r.member) rows

-- `load_members`
unfoldable pub load_members : String → List MemberRow → List MemberIdentity
load_members workspace_id rows = members_of_rows (sort row_before (keep (is_of workspace_id) rows))

abbrev pub first {ℓ} : {A : Type ℓ} → List A → Option A
first [] = none
first (x ∷ xs) = some x

abbrev pub active_ok : List MemberRow → WorkspaceRow → Bool
active_ok rows w = is_none_or w.active_session (member_belongs rows w.id)

-- The end of a transaction: the deferred reference from the active session to the rows of members.
unfoldable pub commit : Database → Option Database
unfolding member_belongs
commit db = if all (active_ok db.workspace_sessions) db.workspaces then some db else none
