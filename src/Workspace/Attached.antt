-- ===== src/Workspace/Attached.antt =====
-- `attach_session`: a new session goes to the end of a workspace, or into one of its own.
use devhatch.Prelude.{
  or_left, any-append, nodup, any_excluded, all_mono, list_eq, ℕ, String, ◌≡◌, refl, sym, ap, ◌∙◌,
  inl, inr, Bool, true, false, not, ◌&&◌, ◌||◌, some, List, [], ◌∷◌, ◌++◌, arith, Bool-cases, any,
  all, ◌==◌, nat_eq, string_eq, option_eq,
}
use devhatch.Registry.IndexMap.{same_key, same_key-eq, same_key_refl}
use devhatch.Workspace.Tables.{
  MemberIdentity, WorkspaceRow, MemberRow, Database, workspace_exists, find_workspace,
  member_belongs, update_where, activate, active_ok, load_members,
}
use devhatch.Workspace.Operations.{Workspace, assemble, find_in_transaction, is_among}
use devhatch.Workspace.Members.{next_position, attach_to, attach_new, attach_session}
use devhatch.Workspace.Invariant.{
  IsConsistent, CanInsert, row_of, insert-IsSound, insert_member-CanInsert, commit-IsConsistent,
  update_where-IsSound,
}
use devhatch.Workspace.Active.{activate-AllActive, find_workspace-id}
use devhatch.Workspace.Made.{find_workspace-new}
use devhatch.Workspace.Position.{next_position_free}
use devhatch.Workspace.Updated.{find_workspace-exists, find_workspace-update_where}
use devhatch.Workspace.Singletons.{
  has_row, AreFresh, AreDistinct, all-active_ok-append, member_belongs_self, single, with_single,
  insert_singleton-some, with_single-Singles,
}
use devhatch.Workspace.Reconciled.{reconcile_transaction-Reconciles}

-- What the attachment of a new session leaves and returns.
pub record Attaches (id : String) (member : MemberIdentity) (db db' : Database) (w : Workspace)
    : Type 0 where
  pub consistent : IsConsistent db'
  pub active : (w.id ≡ id) × (w.active_session ≡ some member)
  pub stored : find_in_transaction id db' ≡ some w
  pub belongs : member_belongs db'.workspace_sessions id member ≡ true
  pub rows :
      (x : MemberIdentity)
      → has_row db'.workspace_sessions x ≡ (has_row db.workspace_sessions x || same_key member x)

module _ (now : ℕ) (id : String) (member : MemberIdentity) (db : Database) (c : IsConsistent db)
    (named : (member.id == "") ≡ false) (new : has_row db.workspace_sessions member ≡ false) where
  abbrev more_rows : List MemberRow
  more_rows =
      db.workspace_sessions ++ row_of id member (next_position id db.workspace_sessions) ∷ []

  has_row-more :
      (x : MemberIdentity)
      → has_row more_rows x ≡ (has_row db.workspace_sessions x || same_key member x)
  unfolding has_row
  has_row-more x =
      any-append (λ r. same_key r.member x) db.workspace_sessions
        (row_of id member (next_position id db.workspace_sessions) ∷ [])
      ∙ ap (λ b. any (λ r. same_key r.member x) db.workspace_sessions || b)
          (or_nothing (same_key member x))
    where
      or_nothing : (b : Bool) → (b || false) ≡ b
      or_nothing b = ground arith

  abbrev chosen : Database
  chosen = record {
    workspaces = update_where id (activate now (some member)) db.workspaces;
    workspace_sessions = more_rows;
  }

  module _ (exists : workspace_exists id db.workspaces ≡ true) where
    can_insert : CanInsert id member (next_position id db.workspace_sessions) db
    can_insert = record {
      named = named;
      exists = exists;
      unowned = unfold has_row in new;
      free = next_position_free id db.workspace_sessions;
    }

    chosen-IsConsistent : IsConsistent chosen
    chosen-IsConsistent = record {
      sound =
          update_where-IsSound id (activate now (some member)) (λ w. refl) db.workspaces more_rows
            (insert-IsSound id member (next_position id db.workspace_sessions) db can_insert
              c.sound);
      active =
          all_mono _ _ chosen.workspaces (λ w h. not_pending (active_ok more_rows w) h)
            (activate-AllActive now id [] db.workspaces more_rows (some member)
              (member_belongs_self db.workspace_sessions id member
                (next_position id db.workspace_sessions))
              (all_mono _ _ db.workspaces (λ w h. or_left _ _ h)
                (all-active_ok-append db.workspaces db.workspace_sessions
                  (row_of id member (next_position id db.workspace_sessions) ∷ []) c.active)));
    }
      where
        not_pending : (a : Bool) → (a || false) ≡ true → a ≡ true
        not_pending a h = ground arith

    find-chosen :
        (v : WorkspaceRow)
        → find_workspace id db.workspaces ≡ some v
        → find_in_transaction id chosen
          ≡ some (assemble (activate now (some member) v) (load_members id more_rows))
    unfolding find_in_transaction
    find-chosen v e =
        rw
          (find_workspace-update_where id (activate now (some member)) db.workspaces (λ w. refl), e)
          refl

    attach_to-Attaches :
        (db' : Database) × (w : Workspace) × (attach_to now id member db ≡ some (db', some w))
        × Attaches id member db db' w
    unfolding attach_to assemble
    attach_to-Attaches =
        let (v, e) = find_workspace-exists id db.workspaces exists in
        (
          chosen,
          assemble (activate now (some member) v) (load_members id more_rows),
          rw
              (insert_member-CanInsert id member (next_position id db.workspace_sessions) db
                can_insert)
              (rw (find-chosen v e) (rw (commit-IsConsistent chosen chosen-IsConsistent) refl)),
          record {
            consistent = chosen-IsConsistent;
            active = (find_workspace-id id db.workspaces v e, refl);
            stored = find-chosen v e;
            belongs =
                member_belongs_self db.workspace_sessions id member
                  (next_position id db.workspace_sessions);
            rows = has_row-more;
          },
        )

  find-single :
      (fresh : workspace_exists id db.workspaces ≡ false)
      → find_in_transaction id (with_single now id member db fresh named new c)
        ≡ some (
            assemble
              (single now id member db fresh named new c)
              (load_members id (with_single now id member db fresh named new c).workspace_sessions))
  unfolding find_in_transaction
  find-single fresh =
      rw (find_workspace-new db.workspaces (single now id member db fresh named new c) fresh) refl

  -- In consistent tables a named session without a row is attached with a new workspace of a fresh
  -- identifier, in which it is the active session. The tables stay consistent, and no other session
  -- gets or loses a row.
  pub attach_new-Attaches :
      workspace_exists id db.workspaces ≡ false
      → (db' : Database) × (w : Workspace) × (attach_new now id member db ≡ some (db', some w))
        × Attaches id member db db' w
  unfolding attach_new assemble
  attach_new-Attaches fresh =
      let one = with_single-Singles now id member db fresh named new c in
      (
        with_single now id member db fresh named new c,
        assemble (single now id member db fresh named new c)
            (load_members id (with_single now id member db fresh named new c).workspace_sessions),
        rw (insert_singleton-some now id member db fresh named new c) (
            rw (find-single fresh) (
              rw
                (commit-IsConsistent (with_single now id member db fresh named new c)
                  one.consistent)
                refl)),
        record {
          consistent = one.consistent;
          active = (refl, refl);
          stored = find-single fresh;
          belongs = member_belongs_self db.workspace_sessions id member 0;
          rows = λ x.
              one.rows x
              ∙ ap (λ b. has_row db.workspace_sessions x || b) (or_nothing (same_key member x));
        },
      )
    where
      or_nothing : (b : Bool) → (b || false) ≡ b
      or_nothing b = ground arith

-- The attachment of a new eligible session to a workspace, with the reconciliation before it.
module _ (now : ℕ) (uuid : ℕ → String) (new_id id : String) (eligible : List MemberIdentity)
    (member : MemberIdentity) (db : Database) where
  named_among :
      all (λ m. not (m.id == "")) eligible ≡ true
      → is_among eligible member ≡ true
      → (member.id == "") ≡ false
  named_among named among = elim (Bool-cases (member.id == "")) [
    | inl e ↦ absurd (
        cc (
          among,
          any_excluded (λ m. not (m.id == "")) (λ m. same_key m member) eligible named
              (λ m h. not_member m h e),
        ))
    | inr e ↦ e
  ]
    where
      not_member :
          (m : MemberIdentity)
          → not (m.id == "") ≡ true
          → (member.id == "") ≡ true
          → same_key m member ≡ false
      not_member m h e = elim (Bool-cases (same_key m member)) [
        | inl f ↦
            absurd
              (cc (h, e, ap (λ (k : MemberIdentity). not (k.id == "")) (same_key-eq m member f)))
        | inr f ↦ f
      ]

  all_attached :
      (x : MemberIdentity)
      → is_among eligible member ≡ true
      → ((is_among eligible x && (has_row db.workspace_sessions x || not (same_key member x)))
          || same_key member x)
        ≡ is_among eligible x
  all_attached x among = elim (Bool-cases (same_key member x)) [
    | inl e ↦ rw (e, sym (ap (is_among eligible) (same_key-eq member x e)) ∙ among) (or_true _)
    | inr e ↦ rw e (absorb (is_among eligible x) _)
  ]
    where
      or_true : (a : Bool) → (a || true) ≡ true
      or_true a = ground arith

      absorb : (a b : Bool) → (a && (b || true) || false) ≡ a
      absorb a b = ground arith

  -- In consistent tables, for an eligible session without a row and a workspace that is there, with
  -- eligible sessions that are distinct and named and new identifiers that are distinct and fresh,
  -- the attachment succeeds. The tables are consistent again, the session belongs to the workspace,
  -- which the answer shows as it is stored, with the session as its active one, and exactly the
  -- eligible sessions have rows.
  pub attach_session-Attaches :
      IsConsistent db
      → nodup same_key eligible ≡ true
      → all (λ m. not (m.id == "")) eligible ≡ true
      → AreDistinct uuid
      → AreFresh uuid 0 db.workspaces
      → is_among eligible member ≡ true
      → has_row db.workspace_sessions member ≡ false
      → workspace_exists id db.workspaces ≡ true
      → (db' : Database) × (w : Workspace) × (attach_session now uuid new_id eligible
            (some id)
            member
            db
          ≡ some (db', some w))
        × IsConsistent db'
        × ((x : MemberIdentity) → has_row db'.workspace_sessions x ≡ is_among eligible x)
        × (member_belongs db'.workspace_sessions id member ≡ true)
        × (find_in_transaction id db' ≡ some w)
        × (w.id ≡ id)
        × (w.active_session ≡ some member)
  unfolding attach_session
  attach_session-Attaches c dup named distinct fresh among new exists =
      let (db₁, e, done) =
        reconcile_transaction-Reconciles now uuid eligible (some member) db c dup named distinct
          fresh in
      let still_exists = done.kept id exists in
      let no_row : has_row db₁.workspace_sessions member ≡ false =
        done.rows member ∙ rw (new, same_key_refl member) (and_false (is_among eligible member)) in
      let (db', w, f, attached) =
        attach_to-Attaches now id member db₁ done.consistent (named_among named among) no_row
          still_exists in
      (
        db',
        w,
        rw e (rw (among, still_exists) f),
        attached.consistent,
        (λ x.
            attached.rows x
            ∙ ap (λ b. b || same_key member x) (done.rows x)
            ∙ all_attached x among),
        attached.belongs,
        attached.stored,
        attached.active.0,
        attached.active.1,
      )
    where
      and_false : (b : Bool) → b && (false || not true) ≡ false
      and_false b = ground arith
