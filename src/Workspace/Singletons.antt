-- ===== src/Workspace/Singletons.antt =====
-- The workspaces of one session that `reconcile_transaction` and `attach_session` make.
use devhatch.Registry.IndexMap.{same_key, same_key_refl}
use devhatch.Workspace.Tables.{
  MemberIdentity, WorkspaceRow, MemberRow, Database, is_of, has_id, workspace_exists,
  member_belongs, active_ok,
}
use devhatch.Workspace.Operations.{is_among, insert_singleton, insert_singletons}
use devhatch.Workspace.Invariant.{
  IsConsistent, CanInsert, row_of, insert_workspace-fresh, append-IsSound, insert_member-CanInsert,
  insert-IsSound,
}
use devhatch.Prelude.{
  or_right, or_left, any-append, nodup, any_excluded, all-append, all_mono, same_refl, list_eq, ℕ,
  suc, ◌≤◌, ◌<◌, String, ◌≡◌, refl, ap, ◌∙◌, subst, inl, inr, Bool, true, false, not, ◌&&◌, ◌||◌,
  Option, none, some, List, [], ◌∷◌, ◌++◌, arith, Bool-cases, is_none_or, any, all, ◌==◌, nat_eq,
  string_eq, option_eq,
}

-- Whether a session is in a workspace.
unfoldable pub has_row : List MemberRow → MemberIdentity → Bool
has_row rows m = any (λ r. same_key r.member m) rows

-- New identifiers from the `n`-th on.
abbrev pub AreFresh : (ℕ → String) → ℕ → List WorkspaceRow → Type 0
AreFresh uuid n workspaces = (k : ℕ) → n ≤ k → workspace_exists (uuid k) workspaces ≡ false

abbrev pub AreDistinct : (ℕ → String) → Type 0
AreDistinct uuid = (m k : ℕ) → m < k → (uuid m == uuid k) ≡ false

active_ok-append :
    (rows : List MemberRow) (more : List MemberRow) (w : WorkspaceRow)
    → active_ok rows w ≡ true
    → active_ok (rows ++ more) w ≡ true
active_ok-append rows more w h = belongs w.active_session h
  where
    belongs :
        (active : Option MemberIdentity)
        → is_none_or active (member_belongs rows w.id) ≡ true
        → is_none_or active (member_belongs (rows ++ more) w.id) ≡ true
    belongs none e = refl
    belongs (some m) e =
        unfold member_belongs in
        (any-append (λ x. is_of w.id x && same_key x.member m) rows more
          ∙ or_left _ _ (unfold member_belongs in e))

-- Rows more take no active session away.
pub all-active_ok-append :
    (ws : List WorkspaceRow) (rows : List MemberRow) (more : List MemberRow)
    → all (active_ok rows) ws ≡ true
    → all (active_ok (rows ++ more)) ws ≡ true
all-active_ok-append ws rows more h = all_mono _ _ ws (λ w e. active_ok-append rows more w e) h

pub member_belongs_self :
    (rows : List MemberRow) (id : String) (m : MemberIdentity) (position : ℕ)
    → member_belongs (rows ++ row_of id m position ∷ []) id m ≡ true
unfolding member_belongs
member_belongs_self rows id m position =
    any-append (λ r. is_of id r && same_key r.member m) rows (row_of id m position ∷ [])
    ∙ or_right (any (λ r. is_of id r && same_key r.member m) rows)
        (any (λ r. is_of id r && same_key r.member m) (row_of id m position ∷ []))
        (rw (same_refl id, same_key_refl m) refl)

-- A workspace that is not there has no rows.
pub any-is_of_missing :
    (ws : List WorkspaceRow) (rows : List MemberRow) (id : String) (p : MemberRow → Bool)
    → all (λ r. workspace_exists r.workspace_id ws) rows ≡ true
    → workspace_exists id ws ≡ false
    → any (λ r. is_of id r && p r) rows ≡ false
any-is_of_missing ws rows id p owned missing =
    any_excluded (λ r. workspace_exists r.workspace_id ws) (λ r. is_of id r && p r) rows owned
      (λ r e. elsewhere r e)
  where
    elsewhere :
        (r : MemberRow) → workspace_exists r.workspace_id ws ≡ true → is_of id r && p r ≡ false
    elsewhere r e = elim (Bool-cases (r.workspace_id == id)) [
      | inl same ↦ cc (
        missing,
        subst (λ x. workspace_exists x ws ≡ true) ((string_eq.same_iff r.workspace_id id).0 same) e,
      )
      | inr other ↦ rw other refl
    ]

-- What the insertion of singletons for `ms` leaves.
pub record Singles (ms : List MemberIdentity) (db db' : Database) : Type 0 where
  pub consistent : IsConsistent db'
  pub rows :
      (x : MemberIdentity)
      → has_row db'.workspace_sessions x ≡ (has_row db.workspace_sessions x || is_among ms x)
  pub kept :
      (id : String)
      → workspace_exists id db.workspaces ≡ true
      → workspace_exists id db'.workspaces ≡ true

module _ (now : ℕ) (id : String) (m : MemberIdentity) (db : Database)
    (fresh : workspace_exists id db.workspaces ≡ false) (named : (m.id == "") ≡ false)
    (new : has_row db.workspace_sessions m ≡ false) (c : IsConsistent db) where
  abbrev pub single : WorkspaceRow
  single = record {
    id = id;
    name = none;
    active_session = some m;
    created_at = now;
    updated_at = now;
  }

  abbrev pub with_single : Database
  with_single = record {
    workspaces = db.workspaces ++ single ∷ [];
    workspace_sessions = db.workspace_sessions ++ row_of id m 0 ∷ [];
  }

  abbrev between : Database
  between = record db { workspaces = db.workspaces ++ single ∷ [] }

  pub workspace_exists-single :
      (x : String)
      → workspace_exists x with_single.workspaces ≡ (workspace_exists x db.workspaces || id == x)
  unfolding workspace_exists
  workspace_exists-single x =
      any-append (has_id x) db.workspaces (single ∷ [])
      ∙ ap (λ b. workspace_exists x db.workspaces || b) (or_nothing (id == x))
    where
      or_nothing : (b : Bool) → (b || false) ≡ b
      or_nothing b = ground arith

  between-CanInsert : CanInsert id m 0 between
  unfolding has_row
  between-CanInsert = record {
    named = named;
    exists = workspace_exists-single id ∙ or_right _ _ (same_refl id);
    unowned = new;
    free = any-is_of_missing db.workspaces db.workspace_sessions id _ c.sound.owned fresh;
  }

  pub insert_singleton-some : insert_singleton now id m db ≡ some with_single
  unfolding insert_singleton
  insert_singleton-some =
      rw (insert_workspace-fresh single db fresh)
        (insert_member-CanInsert id m 0 between between-CanInsert)

  pub with_single-Singles : Singles (m ∷ []) db with_single
  unfolding has_row
  with_single-Singles = record {
    consistent = record {
      sound =
          insert-IsSound id m 0 between between-CanInsert
            (append-IsSound db.workspaces db.workspace_sessions single fresh c.sound);
      active =
          all-append (active_ok with_single.workspace_sessions) db.workspaces (single ∷ [])
          ∙ rw
              (
                all-active_ok-append db.workspaces db.workspace_sessions (row_of id m 0 ∷ [])
                    c.active,
                member_belongs_self db.workspace_sessions id m 0,
              )
              refl;
    };
    rows = λ x. any-append (λ r. same_key r.member x) db.workspace_sessions (row_of id m 0 ∷ []);
    kept = λ x e. workspace_exists-single x ∙ or_left _ _ e;
  }

-- The step from the tables with one singleton more to the rest of them.
none-Singles : (db : Database) → IsConsistent db → Singles [] db db
none-Singles db c = record {
  consistent = c;
  rows = λ x. or_nothing (has_row db.workspace_sessions x);
  kept = λ id e. e;
}
  where
    or_nothing : (b : Bool) → b ≡ (b || false)
    or_nothing b = ground arith

more-Singles :
    (m : MemberIdentity) (ms : List MemberIdentity) (a b c : Database)
    → Singles (m ∷ []) a b
    → Singles ms b c
    → Singles (m ∷ ms) a c
more-Singles m ms a b c first rest = record {
  consistent = rest.consistent;
  rows =
      λ x. step (has_row a.workspace_sessions x) _ (same_key m x) _ _ (first.rows x) (rest.rows x);
  kept = λ id e. rest.kept id (first.kept id e);
}
  where
    step : (p q s t u : Bool) → q ≡ (p || (s || false)) → u ≡ (q || t) → u ≡ (p || (s || t))
    step p q s t u e f = ground arith

pub parts_of_and : (a b : Bool) → a && b ≡ true → (a ≡ true) × (b ≡ true)
parts_of_and a b h = ground arith

pub refuted : (a : Bool) → not a ≡ true → a ≡ false
refuted a h = ground arith

-- The other members have no row yet.
still_new :
    (m : MemberIdentity) (ms : List MemberIdentity) (db db' : Database)
    → Singles (m ∷ []) db db'
    → any (same_key m) ms ≡ false
    → all (λ x. not (has_row db.workspace_sessions x)) ms ≡ true
    → all (λ x. not (has_row db'.workspace_sessions x)) ms ≡ true
still_new m [] db db' s d h = refl
still_new m (x ∷ ms) db db' s d h = ground (arith, s.rows x, still_new m ms db db' s)

pub insert_singletons-Singles :
    (now : ℕ) (uuid : ℕ → String) (n : ℕ) (ms : List MemberIdentity) (db : Database)
    → AreDistinct uuid
    → AreFresh uuid n db.workspaces
    → nodup same_key ms ≡ true
    → all (λ m. not (m.id == "")) ms ≡ true
    → all (λ m. not (has_row db.workspace_sessions m)) ms ≡ true
    → IsConsistent db
    → (db' : Database) × (insert_singletons now uuid n ms db ≡ some db') × Singles ms db db'
unfolding insert_singletons
insert_singletons-Singles now uuid n [] db distinct fresh dup named new c =
    (db, refl, none-Singles db c)
insert_singletons-Singles now uuid n (m ∷ ms) db distinct fresh dup named new c =
    let (dup_here, dup_later) = parts_of_and (not (any (same_key m) ms)) (nodup same_key ms) dup in
    let (named_here, named_later) =
      parts_of_and (not (m.id == "")) (all (λ x. not (x.id == "")) ms) named in
    let (new_here, new_later) =
      parts_of_and (not (has_row db.workspace_sessions m))
        (all (λ x. not (has_row db.workspace_sessions x)) ms) new in
    let fresh_here = fresh n (omega arith) in
    let is_named = refuted (m.id == "") named_here in
    let is_new = refuted (has_row db.workspace_sessions m) new_here in
    let db₁ = with_single now (uuid n) m db fresh_here is_named is_new c in
    let one = with_single-Singles now (uuid n) m db fresh_here is_named is_new c in
    let fresh_later : AreFresh uuid (suc n) db₁.workspaces = λ k h.
      workspace_exists-single now (uuid n) m db fresh_here is_named is_new c (uuid k)
      ∙ rw (fresh k (omega arith), distinct n k h) refl in
    let (db', e, rest) =
      insert_singletons-Singles now uuid (suc n) ms db₁ distinct fresh_later dup_later named_later
        (still_new m ms db db₁ one (refuted (any (same_key m) ms) dup_here) new_later)
        one.consistent in
    (
      db',
      rw (insert_singleton-some now (uuid n) m db fresh_here is_named is_new c) e,
      more-Singles m ms db db₁ db' one rest,
    )
