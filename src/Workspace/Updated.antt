-- ===== src/Workspace/Updated.antt =====
-- `update_workspace`: the reference from the active session is what decides whether it succeeds.
use devhatch.Prelude.{
  map_some, list_eq, ℕ, String, ◌≡◌, refl, ap, ◌∙◌, inl, inr, Bool, true, false, not, ◌&&◌, ◌||◌,
  Option, none, some, List, [], ◌∷◌, arith, Bool-cases, is_none_or, any, all, ◌==◌, nat_eq,
  string_eq, option_eq, max, if◌then◌else◌, ◌+◌,
}
use devhatch.Workspace.Tables.{
  MemberIdentity, WorkspaceRow, MemberRow, Database, has_id, workspace_exists, find_workspace,
  member_belongs, update_where, touch, active_ok, load_members, commit,
}
use devhatch.Workspace.Operations.{
  Workspace, assemble, find_in_transaction, set_name, set_active, update_workspace,
}
use devhatch.Workspace.Invariant.{
  string_sym, IsConsistent, commit-IsConsistent, update_where-IsSound,
}

abbrev pub changed :
    (now : ℕ)
    → Option (Option (List ℕ))
    → Option (Option MemberIdentity)
    → WorkspaceRow
    → WorkspaceRow
changed now name active w = touch now (set_active active (set_name name w))

changed-id :
    (now : ℕ) (name : Option (Option (List ℕ))) (active : Option (Option MemberIdentity))
    (w : WorkspaceRow)
    → (changed now name active w).id ≡ w.id
changed-id now none none w = refl
changed-id now none (some a) w = refl
changed-id now (some n) none w = refl
changed-id now (some n) (some a) w = refl

-- Whether the session that is asked for, if one is, is a member.
abbrev pub is_allowed : List MemberRow → String → Option (Option MemberIdentity) → Bool
is_allowed rows id none = true
is_allowed rows id (some active) = is_none_or active (member_belongs rows id)

active_ok-changed :
    (now : ℕ) (name : Option (Option (List ℕ))) (active : Option (Option MemberIdentity))
    (rows : List MemberRow) (w : WorkspaceRow)
    → active_ok rows w ≡ true
    → active_ok rows (changed now name active w) ≡ is_allowed rows w.id active
active_ok-changed now none none rows w h = h
active_ok-changed now none (some a) rows w h = refl
active_ok-changed now (some n) none rows w h = h
active_ok-changed now (some n) (some a) rows w h = refl

-- The references are kept exactly if the session is allowed.
all-active_ok-changed :
    (now : ℕ) (id : String) (name : Option (Option (List ℕ)))
    (active : Option (Option MemberIdentity)) (rows : List MemberRow) (ws : List WorkspaceRow)
    → all (active_ok rows) ws ≡ true
    → all (active_ok rows) (update_where id (changed now name active) ws)
      ≡ (not (workspace_exists id ws) || is_allowed rows id active)
unfolding workspace_exists update_where
all-active_ok-changed now id name active rows [] h = refl
all-active_ok-changed now id name active rows (w ∷ ws) h = elim (Bool-cases (w.id == id)) [
  | inl e ↦
      let here =
        active_ok-changed now name active rows w (and_left _ _ h)
        ∙ ap (λ x. is_allowed rows x active) ((string_eq.same_iff w.id id).0 e) in
      rw
        (
          e,
          here,
          all-active_ok-changed now id name active rows ws (and_right (active_ok rows w) _ h),
        )
        (both (is_allowed rows id active) (any (has_id id) ws))
  | inr e ↦
      rw (e, and_left (active_ok rows w) _ h)
        (all-active_ok-changed now id name active rows ws (and_right (active_ok rows w) _ h))
]
  where
    and_left : (a b : Bool) → a && b ≡ true → a ≡ true
    and_left a b h = ground arith

    and_right : (a b : Bool) → a && b ≡ true → b ≡ true
    and_right a b h = ground arith

    both : (a b : Bool) → a && (not b || a) ≡ a
    both a b = ground arith

pub find_workspace-update_where :
    (id : String) (f : WorkspaceRow → WorkspaceRow) (ws : List WorkspaceRow)
    → ((w : WorkspaceRow) → (f w).id ≡ w.id)
    → find_workspace id (update_where id f ws) ≡ map_some f (find_workspace id ws)
unfolding find_workspace update_where
find_workspace-update_where id f [] keeps = refl
find_workspace-update_where id f (w ∷ ws) keeps = elim (Bool-cases (w.id == id)) [
  | inl e ↦ rw e (rw (ap (λ x. x == id) (keeps w) ∙ e) refl)
  | inr e ↦ rw e (rw e (find_workspace-update_where id f ws keeps))
]

pub find_workspace-exists :
    (id : String) (ws : List WorkspaceRow)
    → workspace_exists id ws ≡ true
    → (w : WorkspaceRow) × (find_workspace id ws ≡ some w)
unfolding workspace_exists find_workspace
find_workspace-exists id [] h = absurd (cc h)
find_workspace-exists id (w ∷ ws) h = elim (Bool-cases (w.id == id)) [
  | inl e ↦ (w, rw e refl)
  | inr e ↦ let (v, f) = find_workspace-exists id ws (right_of (w.id == id) _ e h) in (v, rw e f)
]
  where
    right_of : (a b : Bool) → a ≡ false → (a || b) ≡ true → b ≡ true
    right_of a b e h = ground arith

-- What is asked for, or what was there.
abbrev pub or_old : {A : Type 0} → Option A → A → A
or_old none old = old
or_old (some asked) old = asked

-- What an update leaves and returns, for the workspace that was there.
pub record Updates (now : ℕ) (id : String) (name : Option (Option (List ℕ)))
    (active : Option (Option MemberIdentity)) (db db' : Database) (w : Workspace) : Type 0 where
  pub consistent : IsConsistent db'
  pub rows_same : db'.workspace_sessions ≡ db.workspace_sessions
  pub others_same :
      (x : String)
      → (x == id) ≡ false
      → find_workspace x db'.workspaces ≡ find_workspace x db.workspaces
  pub stored : find_in_transaction id db' ≡ some w
  pub was : WorkspaceRow
  pub found : find_workspace id db.workspaces ≡ some was
  pub changed_row : w ≡ record {
    id = was.id;
    name = or_old name was.name;
    active_session = or_old active was.active_session;
    members = load_members id db.workspace_sessions;
    created_at = was.created_at;
    updated_at = max now (was.updated_at + 1);
  }

-- The changes of the code, spelled out.
assemble-changed :
    (now : ℕ) (name : Option (Option (List ℕ))) (active : Option (Option MemberIdentity))
    (v : WorkspaceRow) (members : List MemberIdentity)
    → assemble (changed now name active v) members ≡ record {
      id = v.id;
      name = or_old name v.name;
      active_session = or_old active v.active_session;
      members = members;
      created_at = v.created_at;
      updated_at = max now (v.updated_at + 1);
    }
unfolding assemble
assemble-changed now none none v members = refl
assemble-changed now none (some a) v members = refl
assemble-changed now (some n) none v members = refl
assemble-changed now (some n) (some a) v members = refl

find_workspace-others :
    (id x : String) (f : WorkspaceRow → WorkspaceRow) (ws : List WorkspaceRow)
    → ((w : WorkspaceRow) → (f w).id ≡ w.id)
    → (x == id) ≡ false
    → find_workspace x (update_where id f ws) ≡ find_workspace x ws
unfolding find_workspace update_where
find_workspace-others id x f [] keeps h = refl
find_workspace-others id x f (w ∷ ws) keeps h = elim (Bool-cases (w.id == id)) [
  | inl e ↦
      let apart : (w.id == x) ≡ false =
        ap (λ y. y == x) ((string_eq.same_iff w.id id).0 e) ∙ string_sym id x ∙ h in
      rw e
        (rw (ap (λ y. y == x) (keeps w) ∙ apart, apart) (find_workspace-others id x f ws keeps h))
  | inr e ↦
      rw e (ap (λ r. if w.id == x then some w else r) (find_workspace-others id x f ws keeps h))
]

module _ (now : ℕ) (id : String) (name : Option (Option (List ℕ)))
    (active : Option (Option MemberIdentity)) (db : Database) (c : IsConsistent db)
    (exists : workspace_exists id db.workspaces ≡ true) where
  abbrev after : Database
  after = record db { workspaces = update_where id (changed now name active) db.workspaces }

  commits :
      all (active_ok after.workspace_sessions) after.workspaces
      ≡ is_allowed db.workspace_sessions id active
  commits =
      all-active_ok-changed now id name active db.workspace_sessions db.workspaces c.active
      ∙ rw exists refl

  find-after :
      (v : WorkspaceRow)
      → find_workspace id db.workspaces ≡ some v
      → find_in_transaction id after
        ≡ some (assemble (changed now name active v) (load_members id db.workspace_sessions))
  unfolding find_in_transaction
  find-after v e =
      rw
        (
          find_workspace-update_where id (changed now name active) db.workspaces
              (changed-id now name active),
          e,
        )
        refl

  -- In consistent tables an update of a workspace that is there succeeds if the session that it
  -- makes active, if any, is a member. The tables stay consistent, the rows of members and the other
  -- workspaces stay, and what is returned is what is stored: the workspace that was there, with the
  -- name and the active session that are asked for, if any, and a later time of its update.
  pub update_workspace-Updates :
      is_allowed db.workspace_sessions id active ≡ true
      → (db' : Database) × (w : Workspace) × (update_workspace now id name active db
          ≡ some (db', some w))
        × Updates now id name active db db' w
  unfolding update_workspace
  update_workspace-Updates ok =
      let (v, e) = find_workspace-exists id db.workspaces exists in
      let consistent : IsConsistent after = record {
        sound =
            update_where-IsSound id (changed now name active) (changed-id now name active)
              db.workspaces db.workspace_sessions c.sound;
        active = commits ∙ ok;
      } in
      (
        after,
        assemble (changed now name active v) (load_members id db.workspace_sessions),
        rw exists (rw (find-after v e) (rw (commit-IsConsistent after consistent) refl)),
        record {
          consistent = consistent;
          rows_same = refl;
          others_same = λ x h.
              find_workspace-others id x (changed now name active) db.workspaces
                (changed-id now name active) h;
          stored = find-after v e;
          was = v;
          found = e;
          changed_row = assemble-changed now name active v (load_members id db.workspace_sessions);
        },
      )

  -- In consistent tables an update of a workspace that is there fails, if it makes a session active
  -- that is not a member: the reference is tested when the transaction commits.
  pub update_workspace_refused :
      is_allowed db.workspace_sessions id active ≡ false
      → update_workspace now id name active db ≡ none
  unfolding update_workspace commit
  update_workspace_refused bad =
      let (v, e) = find_workspace-exists id db.workspaces exists in
      rw exists (rw (find-after v e) (rw (commits ∙ bad) refl))
