-- ===== src/Workspace/Active.antt =====
-- The active sessions: what `repair_workspace` does for them.
use devhatch.Registry.IndexMap.{same_key, same_key_refl}
use mathlib.Core.Option.{some-injective}
use devhatch.Workspace.Tables.{
  MemberIdentity, WorkspaceRow, MemberRow, Database, is_of, workspace_exists, find_workspace,
  update_where, activate, member_belongs, active_ok, load_members, first, members_of_rows,
  row_before,
}
use devhatch.Workspace.Operations.{repaired_active, repair_workspace, repair_all}
use devhatch.Workspace.Invariant.{
  IsSound, AllActive, update_where-IsSound, workspace_exists-update_where, string_sym,
}
use devhatch.Prelude.{
  or_left, all-keep_self, sort, all-sort, all_mono, all-map, list_eq, ℕ, String, ◌≡◌, refl, sym, ap,
  ◌∙◌, subst, inl, inr, Bool, true, false, ◌&&◌, ◌||◌, Option, none, some, List, [], ◌∷◌, arith,
  if◌then◌else◌, Bool-cases, Option-cases, is_none_or, any, all, keep, ◌==◌, nat_eq, string_eq,
  option_eq,
}

abbrev pub is_pending : List String → String → Bool
is_pending ids x = any (λ i. i == x) ids

pub first-all :
    (P : MemberIdentity → Bool) (rows : List MemberRow)
    → all (λ r. P r.member) rows ≡ true
    → is_none_or (first (members_of_rows rows)) P ≡ true
first-all P [] h = refl
first-all P (r ∷ rows) h = ground arith

-- The members of a workspace belong to it.
pub all-member_belongs :
    (rows : List MemberRow) (id : String)
    → all (λ r. member_belongs rows id r.member) (keep (is_of id) rows) ≡ true
unfolding member_belongs
all-member_belongs rows id =
    all-keep_self (is_of id) (λ y x. same_key y.member x.member) rows rows
      (λ x. same_key_refl x.member) (λ t h. h)

first-load_members :
    (rows : List MemberRow) (id : String)
    → is_none_or (first (load_members id rows)) (member_belongs rows id) ≡ true
unfolding load_members
first-load_members rows id =
    first-all (member_belongs rows id) (sort row_before (keep (is_of id) rows)) (
      all-sort row_before (λ r. member_belongs rows id r.member) (keep (is_of id) rows)
      ∙ all-member_belongs rows id)

repaired_active_ok :
    (rows : List MemberRow) (w : WorkspaceRow)
    → is_none_or (repaired_active rows w) (member_belongs rows w.id) ≡ true
unfolding repaired_active
repaired_active_ok rows w = elim (Bool-cases (active_ok rows w)) [
  | inl e ↦ rw e e
  | inr e ↦ rw e (first-load_members rows w.id)
]

pub find_workspace-id :
    (id : String) (ws : List WorkspaceRow) (w : WorkspaceRow)
    → find_workspace id ws ≡ some w
    → w.id ≡ id
unfolding find_workspace
find_workspace-id id [] w h = cc h
find_workspace-id id (x ∷ ws) w h = elim (Bool-cases (x.id == id)) [
  | inl e ↦
      let same : x ≡ w =
        some-injective _ _
          (subst (λ b. (if b then some x else find_workspace id ws) ≡ some w) e h) in
      ap (λ (v : WorkspaceRow). v.id) (sym same) ∙ (string_eq.same_iff x.id id).0 e
  | inr e ↦
      find_workspace-id id ws w
        (subst (λ b. (if b then some x else find_workspace id ws) ≡ some w) e h)
]

-- A workspace that is not there is not pending.
find_none-AllActive :
    (id : String) (ids : List String) (ws : List WorkspaceRow) (rows : List MemberRow)
    → find_workspace id ws ≡ none
    → AllActive (is_pending (id ∷ ids)) ws rows
    → AllActive (is_pending ids) ws rows
unfolding find_workspace
find_none-AllActive id ids [] rows h a = refl
find_none-AllActive id ids (w ∷ ws) rows h a = elim (Bool-cases (w.id == id)) [
  | inl e ↦ cc (subst (λ b. (if b then some w else find_workspace id ws) ≡ none) e h)
  | inr e ↦
      let h' = subst (λ b. (if b then some w else find_workspace id ws) ≡ none) e h in
      let (here, later) =
        parts (active_ok rows w) (id == w.id) (is_pending ids w.id) _ a (string_sym id w.id ∙ e) in
      rw (here, find_none-AllActive id ids ws rows h' later) refl
]
  where
    parts :
        (a b c d : Bool) → (a || (b || c)) && d ≡ true → b ≡ false → ((a || c) ≡ true) × (d ≡ true)
    parts a b c d h e = ground arith

abbrev settled : (now : ℕ) → String → Option MemberIdentity → WorkspaceRow → WorkspaceRow
settled now id active w = if w.id == id then activate now active w else w

settled_ok :
    (now : ℕ) (id : String) (ids : List String) (rows : List MemberRow)
    (active : Option MemberIdentity) (w : WorkspaceRow)
    → is_none_or active (member_belongs rows id) ≡ true
    → (active_ok rows w || is_pending (id ∷ ids) w.id) ≡ true
    → (active_ok rows (settled now id active w) || is_pending ids (settled now id active w).id)
      ≡ true
settled_ok now id ids rows active w ok h = elim (Bool-cases (w.id == id)) [
  | inl e ↦ rw e (
      or_left _ _ (
        subst (λ x. is_none_or active (member_belongs rows x) ≡ true)
          (sym ((string_eq.same_iff w.id id).0 e)) ok))
  | inr e ↦
      rw e (
        drop_middle (active_ok rows w) (id == w.id) (is_pending ids w.id) h
          (string_sym id w.id ∙ e))
]
  where
    drop_middle : (a b c : Bool) → (a || (b || c)) ≡ true → b ≡ false → (a || c) ≡ true
    drop_middle a b c h e = ground arith

-- A workspace whose active session is set to one of its members, or to none, is pending no more.
pub activate-AllActive :
    (now : ℕ) (id : String) (ids : List String) (ws : List WorkspaceRow) (rows : List MemberRow)
    (active : Option MemberIdentity)
    → is_none_or active (member_belongs rows id) ≡ true
    → AllActive (is_pending (id ∷ ids)) ws rows
    → AllActive (is_pending ids) (update_where id (activate now active) ws) rows
unfolding update_where
activate-AllActive now id ids ws rows active ok a =
    all-map (λ w. active_ok rows w || is_pending ids w.id) (settled now id active) ws
    ∙ all_mono _ _ ws (λ w. settled_ok now id ids rows active w ok) a

-- What a repair keeps, and what it mends.
pub record Repairs (ids : List String) (db db' : Database) : Type 0 where
  pub rows_same : db'.workspace_sessions ≡ db.workspace_sessions
  pub exists_same :
      (x : String) → workspace_exists x db'.workspaces ≡ workspace_exists x db.workspaces
  pub sound : IsSound db'.workspaces db'.workspace_sessions
  pub active : AllActive (is_pending ids) db'.workspaces db'.workspace_sessions

repair_found :
    (now : ℕ) (id : String) (ids : List String) (ws : List WorkspaceRow) (rows : List MemberRow)
    (w : WorkspaceRow)
    → w.id ≡ id
    → IsSound ws rows
    → AllActive (is_pending (id ∷ ids)) ws rows
    → Repairs ids
        (record { workspaces = ws; workspace_sessions = rows })
        (record {
          workspaces = update_where id (activate now (repaired_active rows w)) ws;
          workspace_sessions = rows;
        })
repair_found now id ids ws rows w e s a = record {
  rows_same = refl;
  exists_same = λ x. workspace_exists-update_where id _ (λ v. refl) x ws;
  sound = update_where-IsSound id _ (λ v. refl) ws rows s;
  active =
      activate-AllActive now id ids ws rows (repaired_active rows w)
        (subst (λ x. is_none_or (repaired_active rows w) (member_belongs rows x) ≡ true) e
          (repaired_active_ok rows w))
        a;
}

pub repair_workspace-Repairs :
    (now : ℕ) (id : String) (ids : List String) (ws : List WorkspaceRow) (rows : List MemberRow)
    → IsSound ws rows
    → AllActive (is_pending (id ∷ ids)) ws rows
    → Repairs ids
        (record { workspaces = ws; workspace_sessions = rows })
        (repair_workspace now id (record { workspaces = ws; workspace_sessions = rows }))
unfolding repair_workspace
repair_workspace-Repairs now id ids ws rows s a = elim (Option-cases (find_workspace id ws)) [
  | inl e ↦
      rw (e, repair_workspace)
        (record {
          rows_same = refl;
          exists_same = λ x. refl;
          sound = s;
          active = find_none-AllActive id ids ws rows e a;
        })
  | inr (w, e) ↦
      rw (e, repair_workspace) (repair_found now id ids ws rows w (find_workspace-id id ws w e) s a)
]

pub repair_all-Repairs :
    (now : ℕ) (ids : List String) (db : Database)
    → IsSound db.workspaces db.workspace_sessions
    → AllActive (is_pending ids) db.workspaces db.workspace_sessions
    → Repairs [] db (repair_all now ids db)
unfolding repair_all
repair_all-Repairs now [] db s a = record {
  rows_same = refl;
  exists_same = λ x. refl;
  sound = s;
  active = a;
}
repair_all-Repairs now (id ∷ ids) db s a =
    let one = repair_workspace-Repairs now id ids db.workspaces db.workspace_sessions s a in
    let rest = repair_all-Repairs now ids (repair_workspace now id db) one.sound one.active in
    record {
      rows_same = rest.rows_same ∙ one.rows_same;
      exists_same = λ x. rest.exists_same x ∙ one.exists_same x;
      sound = rest.sound;
      active = rest.active;
    }
