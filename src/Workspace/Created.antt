-- ===== src/Workspace/Created.antt =====
-- `create_workspace`: with members that are distinct and named it makes the workspace, and takes its
-- members out of all others.
use devhatch.Prelude.{
  or_left, nodup, all_mono, same_refl, list_eq, ℕ, String, ◌≡◌, refl, ap, ◌∙◌, Bool, true, false,
  not, ◌&&◌, ◌||◌, Option, some, List, [], arith, all, ◌==◌, nat_eq, string_eq, option_eq,
}
use devhatch.Registry.IndexMap.{same_key}
use devhatch.Workspace.Tables.{
  MemberIdentity, Database, workspace_exists, member_belongs, active_ok, first,
}
use devhatch.Workspace.Operations.{
  Workspace, assemble, find_in_transaction, is_among, take_members, repair_all, create_workspace,
}
use devhatch.Workspace.Invariant.{IsConsistent}
use devhatch.Workspace.Active.{repair_all-Repairs}
use devhatch.Workspace.Taken.{take_members-Takes}
use devhatch.Workspace.Singletons.{has_row}
use devhatch.Workspace.Made.{
  all_among, no_members, exists-append, has_row-filled, member_belongs-filled, filled-IsConsistent,
  find-filled, creating, new_row, filled,
}

-- What the creation of a workspace leaves and returns.
pub record Creates (id : String) (name : Option (List ℕ)) (members : List MemberIdentity)
    (db db' : Database) (w : Workspace) : Type 0 where
  pub consistent : IsConsistent db'
  pub named : (w.id ≡ id) × (w.name ≡ name)
  pub listed : w.members ≡ members
  pub active : w.active_session ≡ first members
  pub stored : find_in_transaction id db' ≡ some w
  pub exists :
      (x : String)
      → workspace_exists x db'.workspaces ≡ (workspace_exists x db.workspaces || id == x)
  pub belongs :
      (x : MemberIdentity) → member_belongs db'.workspace_sessions id x ≡ is_among members x
  pub others :
      (other : String) (x : MemberIdentity)
      → (id == other) ≡ false
      → member_belongs db'.workspace_sessions other x
        ≡ (member_belongs db.workspace_sessions other x && not (is_among members x))
  pub rows :
      (x : MemberIdentity)
      → has_row db'.workspace_sessions x ≡ (has_row db.workspace_sessions x || is_among members x)

-- In consistent tables, with a fresh identifier and members that are distinct and named, a
-- workspace is made and stored. It lists the members in the order of the request and the first is
-- active. The tables are consistent again, exactly the members belong to the workspace, they belong
-- to no other any more, other sessions stay where they are, and no workspace is gone.
pub create_workspace-Creates :
    (now : ℕ) (id : String) (name : Option (List ℕ)) (members : List MemberIdentity) (db : Database)
    → IsConsistent db
    → workspace_exists id db.workspaces ≡ false
    → nodup same_key members ≡ true
    → all (λ m. not (m.id == "")) members ≡ true
    → (db' : Database) × (w : Workspace) × (create_workspace now id name members db ≡ some (db', w))
      × Creates id name members db db' w
unfolding create_workspace assemble
create_workspace-Creates now id name members db c fresh dup named =
    let taken = take_members members db.workspace_sessions [] in
    let takes =
      take_members-Takes members db.workspaces db.workspace_sessions [] c.sound
        (all_mono _ _ db.workspaces (λ w h. or_left _ _ h) c.active) in
    let db₁ : Database = record db { workspace_sessions = taken.0 } in
    let db₂ = repair_all now taken.1 db₁ in
    let mended = repair_all-Repairs now taken.1 db₁ takes.sound takes.active in
    let ready : IsConsistent db₂ = record {
      sound = mended.sound;
      active =
          all_mono _ _ db₂.workspaces (λ w h. not_pending (active_ok db₂.workspace_sessions w) h)
            mended.active;
    } in
    let unknown = mended.exists_same id ∙ fresh in
    let left : (x : MemberIdentity)
        → has_row db₂.workspace_sessions x
          ≡ (has_row db.workspace_sessions x && not (is_among members x)) =
      λ x. ap (λ r. has_row r x) mended.rows_same ∙ takes.rows_left x in
    let new : all (λ m. not (has_row db₂.workspace_sessions m)) members ≡ true =
      all_mono (is_among members) (λ m. not (has_row db₂.workspace_sessions m)) members
        (λ m h. no_row _ (has_row db.workspace_sessions m) _ (left m) h)
        (all_among members members (λ t h. h)) in
    let ws = db₂.workspaces in
    let rows = db₂.workspace_sessions in
    (
      filled now id name members ws rows,
      assemble (new_row now id name members ws rows) members,
      creating now id name members ws rows unknown dup named new ready,
      record {
        consistent = filled-IsConsistent now id name members ws rows unknown dup named new ready;
        named = (refl, refl);
        listed = refl;
        active = refl;
        stored = find-filled now id name members ws rows unknown dup named new ready;
        exists = λ x.
            exists-append x ws (new_row now id name members ws rows)
            ∙ ap (λ b. b || id == x) (mended.exists_same x);
        belongs = λ x.
            member_belongs-filled now id name members ws rows id x
            ∙ rw (no_members ws rows id x ready.sound.owned unknown, same_refl id) refl;
        others = λ other x h.
            member_belongs-filled now id name members ws rows other x
            ∙ rw h (or_nothing _)
            ∙ ap (λ r. member_belongs r other x) mended.rows_same
            ∙ takes.members_left other x;
        rows = λ x.
            has_row-filled now id name members ws rows x
            ∙ ap (λ b. b || is_among members x) (left x)
            ∙ moved (has_row db.workspace_sessions x) (is_among members x);
      },
    )
  where
    not_pending : (a : Bool) → (a || false) ≡ true → a ≡ true
    not_pending a h = ground arith

    no_row : (a b c : Bool) → a ≡ b && not c → c ≡ true → not a ≡ true
    no_row a b c e h = ground arith

    moved : (a b : Bool) → (a && not b || b) ≡ (a || b)
    moved a b = ground arith

    or_nothing : (b : Bool) → (b || false) ≡ b
    or_nothing b = ground arith
