-- ===== src/Workspace/Removed.antt =====
-- `remove_member`: the row goes, and a workspace whose active session it was falls back to another.
use devhatch.Prelude.{
  all_mono, all-map, list_eq, ℕ, String, ◌≡◌, refl, sym, ap, ◌∙◌, subst, inl, inr, Bool, true,
  false, not, ◌&&◌, ◌||◌, Option, none, some, List, [], ◌∷◌, arith, if◌then◌else◌, Bool-cases,
  Option-cases, is_some_and, is_none_or, all, keep, ◌==◌, nat_eq, string_eq, option_eq, all_both,
}
use devhatch.Registry.IndexMap.{same_key, same_key-eq}
use mathlib.Core.Option.{some-injective}
use devhatch.Workspace.Tables.{
  MemberIdentity, WorkspaceRow, MemberRow, Database, is_of, workspace_exists, find_workspace,
  member_belongs, update_where, touch, activate, active_ok, first, delete_member,
}
use devhatch.Workspace.Operations.{Workspace, find_in_transaction}
use devhatch.Workspace.Members.{fallback, remove_row, remove_member}
use devhatch.Workspace.Invariant.{
  IsConsistent, commit-IsConsistent, update_where-IsSound, workspace_exists-update_where,
  keep-IsSound, string_sym,
}
use devhatch.Workspace.Taken.{
  has_key, first-has_key, member_belongs-delete_member, has_row-delete_member,
}
use devhatch.Workspace.Updated.{find_workspace-exists}
use devhatch.Workspace.Found.{first-keep, find_workspace-only}
use devhatch.Workspace.Fallback.{fallback_ok}
use devhatch.Workspace.Singletons.{has_row}

-- What the removal of a member leaves.
pub record Removes (member : MemberIdentity) (db db' : Database) : Type 0 where
  pub consistent : IsConsistent db'
  pub rows :
      (x : MemberIdentity)
      → has_row db'.workspace_sessions x
        ≡ (has_row db.workspace_sessions x && not (same_key member x))
  pub kept : (id : String) → workspace_exists id db'.workspaces ≡ workspace_exists id db.workspaces

module _ (now : ℕ) (row : MemberRow) (db : Database) (w : WorkspaceRow) where
  abbrev left : List MemberRow
  left = delete_member row.member db.workspace_sessions

  abbrev was_active : WorkspaceRow → Bool
  was_active v = is_some_and v.active_session (λ active. same_key active row.member)

  change : Bool → WorkspaceRow → WorkspaceRow
  change b = if b then activate now (fallback row.workspace_id row.position left) else touch now

  removed : Database
  removed = record {
    workspaces = update_where row.workspace_id (change (was_active w)) db.workspaces;
    workspace_sessions = left;
  }

  change-id : (b : Bool) (v : WorkspaceRow) → (change b v).id ≡ v.id
  unfolding change
  change-id true v = refl
  change-id false v = refl

  module _ (c : IsConsistent db)
      (row_e : first (keep (has_key row.member) db.workspace_sessions) ≡ some row)
      (w_e : find_workspace row.workspace_id db.workspaces ≡ some w) where
    -- Another session's reference is kept.
    other_session :
        (id : String) (active : Option MemberIdentity)
        → is_some_and active (λ a. same_key a row.member) ≡ false
        → is_none_or active (member_belongs db.workspace_sessions id) ≡ true
        → is_none_or active (member_belongs left id) ≡ true
    other_session id none h e = refl
    other_session id (some k) h e =
        member_belongs-delete_member id k row.member db.workspace_sessions h e

    -- Another workspace's active session is another.
    other_workspace :
        (id : String) (active : Option MemberIdentity)
        → (id == row.workspace_id) ≡ false
        → is_none_or active (member_belongs db.workspace_sessions id) ≡ true
        → is_some_and active (λ a. same_key a row.member) ≡ false
    other_workspace id none h e = refl
    other_workspace id (some k) h e = elim (Bool-cases (same_key k row.member)) [
      | inl f ↦
          let (r, g, i) = first-has_key id row.member db.workspace_sessions c.sound.keys (
            subst (λ x. member_belongs db.workspace_sessions id x ≡ true)
              (same_key-eq k row.member f) e) in
          let here = subst (λ x. is_of id x ≡ true) (some-injective _ _ (sym g ∙ row_e)) i in
          absurd (cc (h, here, string_sym id row.workspace_id))
      | inr f ↦ f
    ]

    changed_ok :
        (v : WorkspaceRow)
        → active_ok db.workspace_sessions v ≡ true
        → (not (v.id == row.workspace_id) || (was_active w || not (was_active v))) ≡ true
        → active_ok left (if v.id == row.workspace_id then change (was_active w) v else v) ≡ true
    unfolding change
    changed_ok v h e = elim (Bool-cases (v.id == row.workspace_id)) [
      | inl f ↦ elim (Bool-cases (was_active w)) [
        | inl g ↦
            rw (f, g)
              (subst
                (λ x.
                  is_none_or (fallback row.workspace_id row.position left) (member_belongs left x)
                  ≡ true)
                (sym ((string_eq.same_iff v.id row.workspace_id).0 f))
                (fallback_ok row.workspace_id row.position left))
        | inr g ↦ rw (f, g) (other_session v.id v.active_session (last _ _ _ e f g) h)
      ]
      | inr f ↦
          rw f (other_session v.id v.active_session (other_workspace v.id v.active_session f h) h)
    ]
      where
        last : (a b d : Bool) → (not a || (b || not d)) ≡ true → a ≡ true → b ≡ false → d ≡ false
        last a b d e f g = ground arith

    only_active :
        all
          (λ v. not (v.id == row.workspace_id) || (was_active w || not (was_active v)))
          db.workspaces
        ≡ true
    only_active = elim (Bool-cases (was_active w)) [
      | inl e ↦ rw e (
          all_mono (active_ok db.workspace_sessions) _ db.workspaces
            (λ v h. or_true (not (v.id == row.workspace_id))) c.active)
      | inr e ↦
          rw e (find_workspace-only row.workspace_id was_active db.workspaces w c.sound.ids w_e e)
    ]
      where
        or_true : (b : Bool) → (b || true) ≡ true
        or_true b = ground arith

    removed-IsConsistent : IsConsistent removed
    unfolding removed
    removed-IsConsistent = record {
      sound =
          update_where-IsSound row.workspace_id (change (was_active w)) (change-id (was_active w))
            db.workspaces left
            (unfold delete_member in
              keep-IsSound db.workspaces db.workspace_sessions
                (λ r. not (same_key r.member row.member)) c.sound);
      active =
          unfold update_where in
          (all-map (active_ok left)
              (λ v. if v.id == row.workspace_id then change (was_active w) v else v) db.workspaces
            ∙ all_both (active_ok db.workspace_sessions)
                (λ v. not (v.id == row.workspace_id) || (was_active w || not (was_active v)))
                (λ v.
                  active_ok left (if v.id == row.workspace_id then change (was_active w) v else v))
                db.workspaces changed_ok c.active only_active);
    }

    removed-Removes : Removes row.member db removed
    unfolding removed
    removed-Removes = record {
      consistent = removed-IsConsistent;
      rows = λ x. has_row-delete_member row.member db.workspace_sessions x;
      kept = λ id.
          workspace_exists-update_where row.workspace_id (change (was_active w))
            (change-id (was_active w)) id db.workspaces;
    }

    remove_row-removed :
        remove_row now row db ≡ some (removed, find_in_transaction row.workspace_id removed)
    unfolding remove_row removed change
    remove_row-removed = rw w_e (rw (commit-IsConsistent removed removed-IsConsistent) refl)

first-none :
    (m : MemberIdentity) (rows : List MemberRow)
    → first (keep (has_key m) rows) ≡ none
    → has_row rows m ≡ false
unfolding has_row
first-none m [] h = refl
first-none m (r ∷ rows) h = elim (Bool-cases (same_key r.member m)) [
  | inl e ↦ cc (
      subst (λ b. first (if b then r ∷ keep (has_key m) rows else keep (has_key m) rows) ≡ none) e
        h)
  | inr e ↦ rw e (
      first-none m rows (
        subst (λ b. first (if b then r ∷ keep (has_key m) rows else keep (has_key m) rows) ≡ none) e
          h))
]

no_row_same :
    (m : MemberIdentity) (rows : List MemberRow) (x : MemberIdentity)
    → has_row rows m ≡ false
    → has_row rows x ≡ (has_row rows x && not (same_key m x))
no_row_same m rows x h = elim (Bool-cases (same_key m x)) [
  | inl e ↦ rw (e, ap (has_row rows) (sym (same_key-eq m x e)) ∙ h) refl
  | inr e ↦ rw e (and_true (has_row rows x))
]
  where
    and_true : (b : Bool) → b ≡ (b && true)
    and_true b = ground arith

-- In consistent tables the removal of a session always succeeds and leaves consistent tables,
-- whatever session was active. The session has no row then, the rows of all others stay, and so do
-- all workspaces.
pub remove_member-Removes :
    (now : ℕ) (member : MemberIdentity) (db : Database)
    → IsConsistent db
    → (db' : Database) × (w : Option Workspace) × (remove_member now member db ≡ some (db', w))
      × Removes member db db'
unfolding remove_member
remove_member-Removes now member db c =
    elim (Option-cases (first (keep (has_key member) db.workspace_sessions))) [
      | inl e ↦ (
        db,
        none,
        rw (e, remove_member) (rw (commit-IsConsistent db c) refl),
        record {
          consistent = c;
          rows = λ x.
              no_row_same member db.workspace_sessions x
                (first-none member db.workspace_sessions e);
          kept = λ id. refl;
        },
      )
      | inr (row, e) ↦
          let (key, owner) =
            first-keep (has_key member) (λ r. workspace_exists r.workspace_id db.workspaces)
              db.workspace_sessions row c.sound.owned e in
          let (w, f) = find_workspace-exists row.workspace_id db.workspaces owner in
          let same = same_key-eq row.member member key in
          let row_e =
            subst (λ m. first (keep (has_key m) db.workspace_sessions) ≡ some row) (sym same) e in
          (
            removed now row db w,
            find_in_transaction row.workspace_id (removed now row db w),
            rw (e, remove_member) (remove_row-removed now row db w c row_e f),
            subst (λ m. Removes m db (removed now row db w)) same
                (removed-Removes now row db w c row_e f),
          )
    ]
