-- ===== src/Workspace/Deleted.antt =====
-- `delete_workspace`: the tables stay consistent.
use devhatch.Prelude.{
  any_and_const, any_ext, any_ext, any_mono, any-keep, nodup-keep, all-keep, list_eq, any_ext,
  String, ◌≡◌, refl, ap, ◌∙◌, inl, inr, Bool, true, false, not, ◌&&◌, Option, none, some, List, [],
  ◌∷◌, arith, Bool-cases, is_none_or, all, keep, ◌==◌, nat_eq, string_eq, option_eq,
}
use devhatch.Registry.IndexMap.{same_key}
use devhatch.Workspace.Tables.{
  MemberIdentity, WorkspaceRow, MemberRow, Database, same_id, same_member, same_position, is_of,
  has_id, workspace_exists, member_belongs, active_ok, load_members,
}
use devhatch.Workspace.Operations.{delete_workspace}
use devhatch.Workspace.Invariant.{IsConsistent, commit-IsConsistent}

-- The rows of other workspaces.
abbrev pub elsewhere : String → MemberRow → Bool
elsewhere id r = not (is_of id r)

abbrev pub other : String → WorkspaceRow → Bool
other id w = not (w.id == id)

apart : (x id y : String) → (y == id) ≡ false → (x == y) ≡ true → (x == id) ≡ false
apart x id y h e = rw ((string_eq.same_iff x y).0 e) h

workspace_exists-keep :
    (id x : String) (ws : List WorkspaceRow)
    → (x == id) ≡ false
    → workspace_exists x ws ≡ true
    → workspace_exists x (keep (other id) ws) ≡ true
unfolding workspace_exists
workspace_exists-keep id x ws h e =
    any-keep (has_id x) (other id) ws
    ∙ any_mono (has_id x) (λ w. has_id x w && other id w) ws
        (λ w f. rw (f, apart w.id id x h f) refl) e

owned-keep :
    (id : String) (ws : List WorkspaceRow) (rows : List MemberRow)
    → all (λ r. workspace_exists r.workspace_id ws) rows ≡ true
    → all (λ r. workspace_exists r.workspace_id (keep (other id) ws)) (keep (elsewhere id) rows)
      ≡ true
owned-keep id ws [] h = refl
owned-keep id ws (r ∷ rows) h =
    ground (arith, owned-keep id ws rows, workspace_exists-keep id r.workspace_id ws)

active_ok-keep :
    (id : String) (rows : List MemberRow) (w : WorkspaceRow)
    → (w.id == id) ≡ false
    → active_ok rows w ≡ true
    → active_ok (keep (elsewhere id) rows) w ≡ true
active_ok-keep id rows w h e = belongs w.active_session e
  where
    here : (a b : Bool) → a && b ≡ true → a ≡ true
    here a b g = ground arith

    belongs :
        (active : Option MemberIdentity)
        → is_none_or active (member_belongs rows w.id) ≡ true
        → is_none_or active (member_belongs (keep (elsewhere id) rows) w.id) ≡ true
    belongs none f = refl
    belongs (some m) f =
        unfold member_belongs in
        (any-keep (λ r. is_of w.id r && same_key r.member m) (elsewhere id) rows
          ∙ any_mono (λ r. is_of w.id r && same_key r.member m)
              (λ r. (is_of w.id r && same_key r.member m) && elsewhere id r) rows
              (λ r g. rw (g, apart r.workspace_id id w.id h (here (is_of w.id r) _ g)) refl)
              (unfold member_belongs in f))

active-keep :
    (id : String) (ws : List WorkspaceRow) (rows : List MemberRow)
    → all (active_ok rows) ws ≡ true
    → all (active_ok (keep (elsewhere id) rows)) (keep (other id) ws) ≡ true
active-keep id [] rows h = refl
active-keep id (w ∷ ws) rows h = ground (arith, active-keep id ws rows, active_ok-keep id rows w)

abbrev pub without : String → Database → Database
without id db = record {
  workspaces = keep (other id) db.workspaces;
  workspace_sessions = keep (elsewhere id) db.workspace_sessions;
}

without-IsConsistent :
    (id : String) (db : Database) → IsConsistent db → IsConsistent (without id db)
without-IsConsistent id db c = record {
  sound = record {
    ids = nodup-keep same_id (other id) db.workspaces c.sound.ids;
    keys = nodup-keep same_member (elsewhere id) db.workspace_sessions c.sound.keys;
    positions = nodup-keep same_position (elsewhere id) db.workspace_sessions c.sound.positions;
    owned = owned-keep id db.workspaces db.workspace_sessions c.sound.owned;
    named = all-keep _ (elsewhere id) db.workspace_sessions c.sound.named;
  };
  active = active-keep id db.workspaces db.workspace_sessions c.active;
}

-- What the deletion of a workspace leaves.
pub record Deletes (id : String) (db db' : Database) : Type 0 where
  pub consistent : IsConsistent db'
  pub gone : workspace_exists id db'.workspaces ≡ false
  pub others :
      (x : String)
      → (x == id) ≡ false
      → workspace_exists x db.workspaces ≡ true
      → workspace_exists x db'.workspaces ≡ true
  pub rows :
      (other_id : String) (m : MemberIdentity)
      → member_belongs db'.workspace_sessions other_id m
        ≡ (member_belongs db.workspace_sessions other_id m && not (other_id == id))

member_belongs-without :
    (id x : String) (m : MemberIdentity) (rows : List MemberRow)
    → member_belongs (keep (elsewhere id) rows) x m ≡ (member_belongs rows x m && not (x == id))
unfolding member_belongs
member_belongs-without id x m rows =
    any-keep (λ r. is_of x r && same_key r.member m) (elsewhere id) rows
    ∙ any_ext (λ r. (is_of x r && same_key r.member m) && elsewhere id r)
        (λ r. (is_of x r && same_key r.member m) && not (x == id)) rows same_place
    ∙ any_and_const (λ r. is_of x r && same_key r.member m) (not (x == id)) rows
  where
    same_place :
        (r : MemberRow)
        → ((is_of x r && same_key r.member m) && elsewhere id r)
          ≡ ((is_of x r && same_key r.member m) && not (x == id))
    same_place r = elim (Bool-cases (r.workspace_id == x)) [
      | inl e ↦
          ap (λ y. (is_of x r && same_key r.member m) && not (y == id))
            ((string_eq.same_iff r.workspace_id x).0 e)
      | inr e ↦ rw e refl
    ]

gone_from :
    (id : String) (ws : List WorkspaceRow) → workspace_exists id (keep (other id) ws) ≡ false
unfolding workspace_exists
gone_from id [] = refl
gone_from id (w ∷ ws) = ground (arith, gone_from id ws)

-- A workspace that is there is deleted from consistent tables, and its members are returned. The
-- tables stay consistent, the others stay, and a session belongs to a workspace afterwards exactly
-- if it did before and the workspace is another.
pub delete_workspace-Deletes :
    (id : String) (db : Database)
    → IsConsistent db
    → workspace_exists id db.workspaces ≡ true
    → (db' : Database) × (delete_workspace id db
        ≡ some (db', some (load_members id db.workspace_sessions)))
      × Deletes id db db'
unfolding delete_workspace
delete_workspace-Deletes id db c exists = (
  without id db,
  rw exists (rw (commit-IsConsistent (without id db) (without-IsConsistent id db c)) refl),
  record {
    consistent = without-IsConsistent id db c;
    gone = gone_from id db.workspaces;
    others = λ x h e. workspace_exists-keep id x db.workspaces h e;
    rows = λ x m. member_belongs-without id x m db.workspace_sessions;
  },
)
