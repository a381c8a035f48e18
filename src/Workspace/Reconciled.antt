-- ===== src/Workspace/Reconciled.antt =====
-- What `reconcile_transaction` establishes: every eligible session has exactly one row, no other has one,
-- and the tables can be committed.
use devhatch.Prelude.{
  all-keep_test, any-sort, all-sort, nodup-sort, any_mono, any-keep, any-keep_split, nodup,
  nodup-keep, all-keep, all_mono, list_eq, ℕ, String, ◌≡◌, refl, sym, ap, ◌∙◌, inl, inr, Bool, true,
  false, not, ◌&&◌, ◌||◌, Option, none, some, List, [], ◌∷◌, arith, Bool-cases, is_none_or, any,
  all, keep, ◌==◌, nat_eq, string_eq, option_eq,
}
use devhatch.Registry.IndexMap.{same_key, same_key-eq}
use devhatch.Workspace.Tables.{
  MemberIdentity, WorkspaceRow, MemberRow, Database, is_of, workspace_exists, member_belongs,
  active_ok, member_before,
}
use devhatch.Workspace.Operations.{
  is_among, is_excluded, Sweep, sweep, unowned, repair_all, reconcile_transaction,
}
use devhatch.Workspace.Invariant.{IsSound, AllActive, IsConsistent, keep-IsSound, same_key_sym}
use devhatch.Workspace.Active.{is_pending, repair_all-Repairs}
use devhatch.Workspace.Sweep.{sweep-owned, sweep-affected, swept_members}
use devhatch.Workspace.Singletons.{has_row, AreFresh, AreDistinct, insert_singletons-Singles}

-- The keys that are the same pass the same test.
pub any_same :
    {A : Type 0} (key : A → MemberIdentity) (q : MemberIdentity → Bool) (xs : List A)
    (m : MemberIdentity)
    → any (λ x. same_key (key x) m && q (key x)) xs ≡ (any (λ x. same_key (key x) m) xs && q m)
any_same key q [] m = refl
any_same key q (x ∷ xs) m = elim (Bool-cases (same_key (key x) m)) [
  | inl e ↦ rw (e, any_same key q xs m, ap q (same_key-eq (key x) m e)) (absorb (q m) _)
  | inr e ↦ rw e (any_same key q xs m)
]
  where
    absorb : (a b : Bool) → (a || b && a) ≡ a
    absorb a b = ground arith

module _ (eligible : List MemberIdentity) (rows : List MemberRow) where
  abbrev swept : Sweep
  swept = sweep eligible rows (record { members = rows; owned = []; affected = [] })

  has_row-swept :
      (m : MemberIdentity) → has_row swept.members m ≡ (has_row rows m && is_among eligible m)
  unfolding has_row
  has_row-swept m =
      ap (any (λ r. same_key r.member m)) (swept_members eligible rows)
      ∙ any-keep (λ r. same_key r.member m) (λ r. is_among eligible r.member) rows
      ∙ any_same (λ (r : MemberRow). r.member) (is_among eligible) rows m

  is_among-owned :
      (m : MemberIdentity) → is_among swept.owned m ≡ (has_row rows m && is_among eligible m)
  unfolding has_row
  is_among-owned m =
      sweep-owned eligible rows (record { members = rows; owned = []; affected = [] }) m
      ∙ any_same (λ (r : MemberRow). r.member) (is_among eligible) rows m

  swept-IsSound : (ws : List WorkspaceRow) → IsSound ws rows → IsSound ws swept.members
  swept-IsSound ws s =
      rw (swept_members eligible rows) (keep-IsSound ws rows (λ r. is_among eligible r.member) s)

  member_belongs-swept :
      (id : String) (m : MemberIdentity)
      → member_belongs rows id m ≡ true
      → (member_belongs swept.members id m || is_pending swept.affected id) ≡ true
  unfolding member_belongs
  member_belongs-swept id m h = rw (swept_members eligible rows) (
      split _ _ _ (h₀ ∙ any-keep_split p q rows) (λ e.
        sweep-affected eligible rows (record { members = rows; owned = []; affected = [] }) id
        ∙ any_mono (λ r. p r && not (q r)) (λ r. r.workspace_id == id && not (q r)) rows
            (λ r. drop_key (is_of id r) (same_key r.member m) (not (q r))) e))
    where
      p : MemberRow → Bool
      p r = is_of id r && same_key r.member m

      q : MemberRow → Bool
      q r = is_among eligible r.member

      h₀ : true ≡ any p rows
      h₀ = sym h

      split : (a b c : Bool) → true ≡ (a || b) → (b ≡ true → c ≡ true) → (a || c) ≡ true
      split a b c h k = ground arith

      drop_key : (a b c : Bool) → (a && b) && c ≡ true → a && c ≡ true
      drop_key a b c h = ground arith

  swept-AllActive :
      (ws : List WorkspaceRow)
      → all (active_ok rows) ws ≡ true
      → AllActive (is_pending swept.affected) ws swept.members
  swept-AllActive ws h = all_mono _ _ ws (λ w. still w.id w.active_session) h
    where
      still :
          (id : String) (active : Option MemberIdentity)
          → is_none_or active (member_belongs rows id) ≡ true
          → (is_none_or active (member_belongs swept.members id) || is_pending swept.affected id)
            ≡ true
      still id none e = refl
      still id (some m) e = member_belongs-swept id m e

  module _ (excluded : Option MemberIdentity) where
    abbrev missing : List MemberIdentity
    missing = unowned eligible excluded swept.owned

    abbrev lacks : MemberIdentity → Bool
    lacks m = not (is_among swept.owned m) && not (is_excluded excluded m)

    all-missing : (p : MemberIdentity → Bool) → all p eligible ≡ true → all p missing ≡ true
    unfolding unowned
    all-missing p h = all-sort member_before p (keep lacks eligible) ∙ all-keep p lacks eligible h

    nodup-missing : nodup same_key eligible ≡ true → nodup same_key missing ≡ true
    unfolding unowned
    nodup-missing h =
        nodup-sort member_before same_key same_key_sym (keep lacks eligible)
          (nodup-keep same_key lacks eligible h)

    missing-new : all (λ m. not (has_row swept.members m)) missing ≡ true
    unfolding unowned
    missing-new =
        all-sort member_before (λ m. not (has_row swept.members m)) (keep lacks eligible)
        ∙ all_mono lacks (λ m. not (has_row swept.members m)) (keep lacks eligible)
            (λ m h. no_row _ _ _ (is_among-owned m ∙ sym (has_row-swept m)) h)
            (all-keep_test lacks eligible)
      where
        no_row : (a b c : Bool) → a ≡ b → not a && c ≡ true → not b ≡ true
        no_row a b c e h = ground arith

    is_among-missing :
        (m : MemberIdentity)
        → is_among missing m ≡ (
            is_among eligible m
            && (not (has_row rows m && is_among eligible m) && not (is_excluded excluded m)))
    unfolding unowned
    is_among-missing m =
        any-sort member_before (λ k. same_key k m) (keep lacks eligible)
        ∙ any-keep (λ k. same_key k m) lacks eligible
        ∙ any_same (λ k. k) lacks eligible m
        ∙ ap (λ b. is_among eligible m && (not b && not (is_excluded excluded m)))
            (is_among-owned m)

-- What a reconciliation leaves.
pub record Reconciles (eligible : List MemberIdentity) (excluded : Option MemberIdentity)
    (db db' : Database) : Type 0 where
  pub consistent : IsConsistent db'
  pub rows :
      (m : MemberIdentity)
      → has_row db'.workspace_sessions m
        ≡ (is_among eligible m && (has_row db.workspace_sessions m || not (is_excluded excluded m)))
  pub kept :
      (id : String)
      → workspace_exists id db.workspaces ≡ true
      → workspace_exists id db'.workspaces ≡ true

-- In consistent tables, with eligible sessions that are distinct and named and new identifiers
-- that are distinct and fresh, the reconciliation succeeds. It leaves tables that are consistent,
-- so that they can be committed, in which a session has a row exactly if it is eligible and had
-- one or is not excluded, and no workspace is lost.
pub reconcile_transaction-Reconciles :
    (now : ℕ) (uuid : ℕ → String) (eligible : List MemberIdentity)
    (excluded : Option MemberIdentity) (db : Database)
    → IsConsistent db
    → nodup same_key eligible ≡ true
    → all (λ m. not (m.id == "")) eligible ≡ true
    → AreDistinct uuid
    → AreFresh uuid 0 db.workspaces
    → (db' : Database) × (reconcile_transaction now uuid eligible excluded db ≡ some db')
      × Reconciles eligible excluded db db'
unfolding reconcile_transaction
reconcile_transaction-Reconciles now uuid eligible excluded db c dup named distinct fresh =
    let rows = db.workspace_sessions in
    let left = swept eligible rows in
    let db₁ : Database = record db { workspace_sessions = left.members } in
    let db₂ = repair_all now left.affected db₁ in
    let mended =
      repair_all-Repairs now left.affected db₁ (swept-IsSound eligible rows db.workspaces c.sound)
        (swept-AllActive eligible rows db.workspaces c.active) in
    let ready : IsConsistent db₂ = record {
      sound = mended.sound;
      active =
          all_mono _ _ db₂.workspaces (λ w h. not_pending (active_ok db₂.workspace_sessions w) h)
            mended.active;
    } in
    let (db', e, done) =
      insert_singletons-Singles now uuid 0 (missing eligible rows excluded) db₂ distinct
        (λ k h. mended.exists_same (uuid k) ∙ fresh k h) (nodup-missing eligible rows excluded dup)
        (all-missing eligible rows excluded _ named)
        (rw mended.rows_same (missing-new eligible rows excluded)) ready in
    (
      db',
      e,
      record {
        consistent = done.consistent;
        rows = λ m.
            done.rows m
            ∙ ap (λ b. b || is_among (missing eligible rows excluded) m)
                (ap (λ r. has_row r m) mended.rows_same ∙ has_row-swept eligible rows m)
            ∙ ap (λ b. (has_row rows m && is_among eligible m) || b)
                (is_among-missing eligible rows excluded m)
            ∙ together (is_among eligible m) (has_row rows m) (is_excluded excluded m);
        kept = λ id h. done.kept id (mended.exists_same id ∙ h);
      },
    )
  where
    not_pending : (a : Bool) → (a || false) ≡ true → a ≡ true
    not_pending a h = ground arith

    together : (a b c : Bool) → (b && a || a && (not (b && a) && not c)) ≡ (a && (b || not c))
    together a b c = ground arith
