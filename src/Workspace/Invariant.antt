-- ===== src/Workspace/Invariant.antt =====
-- The constraints of the two tables, and which statements keep them.
use devhatch.Registry.IndexMap.{SessionKey, same_key, same_key-eq, same_key_refl}
use devhatch.Workspace.Tables.{
  MemberIdentity, WorkspaceRow, MemberRow, Database, same_id, same_member, same_position, is_of,
  has_id, workspace_exists, update_where, insert_workspace, insert_member, active_ok, commit,
}
use devhatch.Prelude.{
  any_ext, any-append, nodup, nodup-keep, nodup-snoc, all-keep, all-append, all_mono, any-map, map,
  list_eq, any_ext, ℕ, String, ◌≡◌, refl, sym, ap, ◌∙◌, subst, inl, inr, Bool, true, false, not,
  ◌&&◌, ◌||◌, some, List, [], ◌∷◌, ◌++◌, arith, if◌then◌else◌, Bool-cases, any, all, keep, ◌==◌,
  nat_eq, string_eq, option_eq,
}

-- What the tables demand after each statement.
pub record IsSound (workspaces : List WorkspaceRow) (rows : List MemberRow) : Type 0 where
  pub ids : nodup same_id workspaces ≡ true
  pub keys : nodup same_member rows ≡ true
  pub positions : nodup same_position rows ≡ true
  pub owned : all (λ r. workspace_exists r.workspace_id workspaces) rows ≡ true
  pub named : all (λ r. not (r.member.id == "")) rows ≡ true

-- The workspaces have an active session of theirs or none, but for those that are pending.
abbrev pub AllActive : (String → Bool) → List WorkspaceRow → List MemberRow → Type 0
AllActive pending workspaces rows = all (λ w. active_ok rows w || pending w.id) workspaces ≡ true

-- What they demand when a transaction commits.
pub record IsConsistent (db : Database) : Type 0 where
  pub sound : IsSound db.workspaces db.workspace_sessions
  pub active : all (active_ok db.workspace_sessions) db.workspaces ≡ true

pub commit-IsConsistent : (db : Database) → IsConsistent db → commit db ≡ some db
unfolding commit
commit-IsConsistent db c = rw c.active refl

pub same_key_sym : (a b : SessionKey) → same_key a b ≡ same_key b a
same_key_sym a b = elim (Bool-cases (same_key a b)) [
  | inl e ↦ rw (same_key-eq a b e) refl
  | inr e ↦ elim (Bool-cases (same_key b a)) [
    | inl f ↦
        absurd (cc (e, subst (λ x. same_key x b ≡ true) (same_key-eq b a f) (same_key_refl b)))
    | inr f ↦ e ∙ sym f
  ]
]

nodup-map :
    {A : Type 0} (same : A → A → Bool) (f : A → A) (xs : List A)
    → ((x y : A) → same (f x) (f y) ≡ same x y)
    → nodup same (map f xs) ≡ nodup same xs
nodup-map same f [] h = refl
nodup-map same f (x ∷ xs) h = ground (
  arith,
  any-map (same (f x)) f xs,
  any_ext (λ y. same (f x) (f y)) (same x) xs (h x),
  nodup-map same f xs h,
)

module _ (id : String) (f : WorkspaceRow → WorkspaceRow)
    (keeps : (w : WorkspaceRow) → (f w).id ≡ w.id) where
  abbrev updated : WorkspaceRow → WorkspaceRow
  updated w = if w.id == id then f w else w

  updated-id : (w : WorkspaceRow) → (updated w).id ≡ w.id
  updated-id w = elim (Bool-cases (w.id == id)) [ inl e ↦ rw e (keeps w) | inr e ↦ rw e refl ]

  pub workspace_exists-update_where :
      (x : String) (ws : List WorkspaceRow)
      → workspace_exists x (update_where id f ws) ≡ workspace_exists x ws
  unfolding workspace_exists update_where
  workspace_exists-update_where x ws =
      any-map (has_id x) updated ws
      ∙ any_ext (λ w. has_id x (updated w)) (has_id x) ws (λ w. ap (λ i. i == x) (updated-id w))

  pub update_where-IsSound :
      (ws : List WorkspaceRow) (rows : List MemberRow)
      → IsSound ws rows
      → IsSound (update_where id f ws) rows
  unfolding update_where
  update_where-IsSound ws rows s = record {
    ids =
        nodup-map same_id updated ws
          (λ x y. ap (λ i. i == (updated y).id) (updated-id x) ∙ ap (λ i. x.id == i) (updated-id y))
        ∙ s.ids;
    keys = s.keys;
    positions = s.positions;
    owned = all_mono _ _ rows (λ r h. workspace_exists-update_where r.workspace_id ws ∙ h) s.owned;
    named = s.named;
  }

pub keep-IsSound :
    (ws : List WorkspaceRow) (rows : List MemberRow) (q : MemberRow → Bool)
    → IsSound ws rows
    → IsSound ws (keep q rows)
keep-IsSound ws rows q s = record {
  ids = s.ids;
  keys = nodup-keep same_member q rows s.keys;
  positions = nodup-keep same_position q rows s.positions;
  owned = all-keep _ q rows s.owned;
  named = all-keep _ q rows s.named;
}

workspace_exists-append :
    (x : String) (ws : List WorkspaceRow) (w : WorkspaceRow)
    → workspace_exists x ws ≡ true
    → workspace_exists x (ws ++ w ∷ []) ≡ true
unfolding workspace_exists
workspace_exists-append x ws w h = ground (arith, any-append (has_id x) ws (w ∷ []))

-- A new workspace row is accepted when its identifier is new.
pub insert_workspace-fresh :
    (w : WorkspaceRow) (db : Database)
    → workspace_exists w.id db.workspaces ≡ false
    → insert_workspace w db ≡ some (record db { workspaces = db.workspaces ++ w ∷ [] })
unfolding insert_workspace
insert_workspace-fresh w db h = simp h refl

pub string_sym : (a b : String) → (a == b) ≡ (b == a)
string_sym a b = ground (arith, string_eq.same_iff a b, string_eq.same_iff b a)

pub append-IsSound :
    (ws : List WorkspaceRow) (rows : List MemberRow) (w : WorkspaceRow)
    → workspace_exists w.id ws ≡ false
    → IsSound ws rows
    → IsSound (ws ++ w ∷ []) rows
unfolding workspace_exists
append-IsSound ws rows w h s = record {
  ids = nodup-snoc same_id ws w s.ids h;
  keys = s.keys;
  positions = s.positions;
  owned = all_mono _ _ rows (λ r e. workspace_exists-append r.workspace_id ws w e) s.owned;
  named = s.named;
}

-- What a new row of a member needs.
pub record CanInsert (workspace_id : String) (member : MemberIdentity) (position : ℕ)
    (db : Database) : Type 0 where
  pub named : (member.id == "") ≡ false
  pub exists : workspace_exists workspace_id db.workspaces ≡ true
  pub unowned : any (λ r. same_key r.member member) db.workspace_sessions ≡ false
  pub free : any (λ r. is_of workspace_id r && r.position == position) db.workspace_sessions ≡ false

abbrev pub row_of : String → MemberIdentity → ℕ → MemberRow
row_of workspace_id member position = record {
  member = member;
  workspace_id = workspace_id;
  position = position;
}

pub insert_member-CanInsert :
    (workspace_id : String) (member : MemberIdentity) (position : ℕ) (db : Database)
    → CanInsert workspace_id member position db
    → insert_member workspace_id member position db
      ≡ some (record db {
        workspace_sessions = db.workspace_sessions ++ row_of workspace_id member position ∷ [];
      })
unfolding insert_member
insert_member-CanInsert workspace_id member position db c =
    simp (c.named, c.exists, c.unowned, c.free) refl

pub insert-IsSound :
    (workspace_id : String) (member : MemberIdentity) (position : ℕ) (db : Database)
    → CanInsert workspace_id member position db
    → IsSound db.workspaces db.workspace_sessions
    → IsSound db.workspaces (db.workspace_sessions ++ row_of workspace_id member position ∷ [])
insert-IsSound workspace_id member position db c s = record {
  ids = s.ids;
  keys =
      nodup-snoc same_member db.workspace_sessions (row_of workspace_id member position) s.keys
        c.unowned;
  positions =
      nodup-snoc same_position db.workspace_sessions (row_of workspace_id member position)
        s.positions c.free;
  owned = ground (
    arith,
    all-append (λ r. workspace_exists r.workspace_id db.workspaces) db.workspace_sessions
        (row_of workspace_id member position ∷ []),
    c.exists,
    s.owned,
  );
  named = ground (
    arith,
    all-append (λ r. not (r.member.id == "")) db.workspace_sessions
        (row_of workspace_id member position ∷ []),
    c.named,
    s.named,
  );
}
