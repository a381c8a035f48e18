-- ===== src/Workspace/Taken.antt =====
-- What `create_workspace` leaves when it has taken its members out of their workspaces.
use devhatch.Prelude.{
  any_and_const, any_ext, or_right, or_left, any_mono, any-keep, nodup, all_mono, list_eq, String,
  ◌≡◌, refl, ap, ◌∙◌, subst, inl, inr, Bool, true, false, not, ◌&&◌, ◌||◌, Option, none, some, List,
  [], ◌∷◌, arith, Bool-cases, is_none_or, any, keep, nat_eq, string_eq, option_eq,
}
use devhatch.Registry.IndexMap.{same_key, same_key-eq}
use devhatch.Workspace.Tables.{
  MemberIdentity, WorkspaceRow, MemberRow, same_member, is_of, member_belongs, delete_member, first,
}
use devhatch.Workspace.Operations.{is_among, add_id, take_members}
use devhatch.Workspace.Invariant.{IsSound, AllActive, keep-IsSound, same_key_sym}
use devhatch.Workspace.Active.{is_pending}
use devhatch.Workspace.Sweep.{is_pending-add_id}
use devhatch.Workspace.Reconciled.{any_same}
use devhatch.Workspace.Singletons.{has_row, refuted, parts_of_and}

abbrev pub has_key : MemberIdentity → MemberRow → Bool
has_key m r = same_key r.member m

-- The row of a member in a workspace is the first of its key.
pub first-has_key :
    (id : String) (m : MemberIdentity) (rows : List MemberRow)
    → nodup same_member rows ≡ true
    → member_belongs rows id m ≡ true
    → (r : MemberRow) × (first (keep (has_key m) rows) ≡ some r) × (is_of id r ≡ true)
unfolding member_belongs
first-has_key id m [] dup h = absurd (cc h)
first-has_key id m (x ∷ rows) dup h =
    let (alone, later) =
      parts_of_and (not (any (same_member x) rows)) (nodup same_member rows) dup in
    elim (Bool-cases (same_key x.member m)) [
      | inl e ↦ (
        x,
        rw e refl,
        here (is_of id x) (same_key x.member m) _ h
            (others e (refuted (any (same_member x) rows) alone)),
      )
      | inr e ↦
          let (r, f, g) = first-has_key id m rows later (there (is_of id x) _ _ h e) in
          (r, rw e f, g)
    ]
  where
    here : (a b c : Bool) → (a && b || c) ≡ true → c ≡ false → a ≡ true
    here a b c h e = ground arith

    there : (a b c : Bool) → (a && b || c) ≡ true → b ≡ false → c ≡ true
    there a b c h e = ground arith

    second : (a b : Bool) → a && b ≡ true → b ≡ true
    second a b h = ground arith

    as_x :
        same_key x.member m ≡ true
        → (r : MemberRow) → is_of id r && same_key r.member m ≡ true
        → same_member x r ≡ true
    as_x e r g =
        same_key_sym x.member r.member
        ∙ ap (λ k. same_key r.member k) (same_key-eq x.member m e)
        ∙ second (is_of id r) _ g

    others :
        same_key x.member m ≡ true
        → any (same_member x) rows ≡ false
        → any (λ r. is_of id r && same_key r.member m) rows ≡ false
    others e alone = elim (Bool-cases (any (λ r. is_of id r && same_key r.member m) rows)) [
      | inl f ↦ absurd (
          cc (
            alone,
            any_mono (λ r. is_of id r && same_key r.member m) (same_member x) rows
                (λ r g. as_x e r g) f,
          ))
      | inr f ↦ f
    ]

-- The row of another member stays.
pub member_belongs-delete_member :
    (id : String) (k m : MemberIdentity) (rows : List MemberRow)
    → same_key k m ≡ false
    → member_belongs rows id k ≡ true
    → member_belongs (delete_member m rows) id k ≡ true
unfolding member_belongs delete_member
member_belongs-delete_member id k m rows other h =
    any-keep (λ r. is_of id r && same_key r.member k) (λ r. not (same_key r.member m)) rows
    ∙ any_mono (λ r. is_of id r && same_key r.member k)
        (λ r. (is_of id r && same_key r.member k) && not (same_key r.member m)) rows
        (λ r e. rw e (
          rw (ap (λ x. same_key x m) (same_key-eq r.member k (second (is_of id r) _ e)) ∙ other)
            refl))
        h
  where
    second : (a b : Bool) → a && b ≡ true → b ≡ true
    second a b h = ground arith

-- What one member more that is taken adds to the workspaces to repair.
abbrev pub also_affected : MemberIdentity → List MemberRow → List String → List String
also_affected m rows affected = elim (first (keep (has_key m) rows)) [
  | none ↦ affected
  | some r ↦ add_id r.workspace_id affected
]

pending_more :
    (m : MemberIdentity) (rows : List MemberRow) (affected : List String) (id : String)
    → is_pending affected id ≡ true
    → is_pending (also_affected m rows affected) id ≡ true
pending_more m rows affected id h = by_first (first (keep (has_key m) rows))
  where
    by_first :
        (r : Option MemberRow)
        → is_pending (elim r [ none ↦ affected | some r ↦ add_id r.workspace_id affected ]) id
          ≡ true
    by_first none = h
    by_first (some r) = is_pending-add_id r.workspace_id affected id ∙ or_left _ _ h

taken-pending :
    (m : MemberIdentity) (rows : List MemberRow) (affected : List String) (id : String)
    → nodup same_member rows ≡ true
    → member_belongs rows id m ≡ true
    → is_pending (also_affected m rows affected) id ≡ true
taken-pending m rows affected id dup h =
    let (r, e, f) = first-has_key id m rows dup h in
    rw (e, also_affected) (is_pending-add_id r.workspace_id affected id ∙ or_right _ _ f)

take-AllActive :
    (m : MemberIdentity) (ws : List WorkspaceRow) (rows : List MemberRow) (affected : List String)
    → nodup same_member rows ≡ true
    → AllActive (is_pending affected) ws rows
    → AllActive (is_pending (also_affected m rows affected)) ws (delete_member m rows)
take-AllActive m ws rows affected dup h = all_mono _ _ ws (λ w. still w.id w.active_session) h
  where
    first_true : (a b : Bool) → (a || b) ≡ true → b ≡ false → a ≡ true
    first_true a b h e = ground arith

    still :
        (id : String) (active : Option MemberIdentity)
        → (is_none_or active (member_belongs rows id) || is_pending affected id) ≡ true
        → (is_none_or active (member_belongs (delete_member m rows) id)
            || is_pending (also_affected m rows affected) id)
          ≡ true
    still id none e = refl
    still id (some k) e = elim (Bool-cases (is_pending affected id)) [
      | inl f ↦ or_right _ _ (pending_more m rows affected id f)
      | inr f ↦
          let belongs = first_true (member_belongs rows id k) _ e f in
          elim (Bool-cases (same_key k m)) [
            | inl g ↦ or_right _ _ (
                taken-pending m rows affected id dup
                  (subst (λ x. member_belongs rows id x ≡ true) (same_key-eq k m g) belongs))
            | inr g ↦ or_left _ _ (member_belongs-delete_member id k m rows g belongs)
          ]
    ]

-- What is left when `ms` are taken.
pub record Takes (ms : List MemberIdentity) (ws : List WorkspaceRow) (rows : List MemberRow)
    (taken : List MemberRow × List String) : Type 0 where
  pub sound : IsSound ws taken.0
  pub active : AllActive (is_pending taken.1) ws taken.0
  pub members_left :
      (id : String) (x : MemberIdentity)
      → member_belongs taken.0 id x ≡ (member_belongs rows id x && not (is_among ms x))
  pub rows_left : (x : MemberIdentity) → has_row taken.0 x ≡ (has_row rows x && not (is_among ms x))

pub has_row-delete_member :
    (m : MemberIdentity) (rows : List MemberRow) (x : MemberIdentity)
    → has_row (delete_member m rows) x ≡ (has_row rows x && not (same_key m x))
unfolding has_row delete_member
has_row-delete_member m rows x =
    any-keep (λ r. same_key r.member x) (λ r. not (same_key r.member m)) rows
    ∙ any_same (λ (r : MemberRow). r.member) (λ k. not (same_key k m)) rows x
    ∙ ap (λ b. any (λ r. same_key r.member x) rows && not b) (same_key_sym x m)

belongs-delete_member :
    (m : MemberIdentity) (rows : List MemberRow) (id : String) (x : MemberIdentity)
    → member_belongs (delete_member m rows) id x ≡ (member_belongs rows id x && not (same_key m x))
unfolding member_belongs delete_member
belongs-delete_member m rows id x =
    any-keep (λ r. is_of id r && same_key r.member x) (λ r. not (same_key r.member m)) rows
    ∙ any_ext (λ r. (is_of id r && same_key r.member x) && not (same_key r.member m))
        (λ r. (is_of id r && same_key r.member x) && not (same_key m x)) rows same_member_of
    ∙ any_and_const (λ r. is_of id r && same_key r.member x) (not (same_key m x)) rows
  where
    nothing : (a b c : Bool) → ((a && false) && b) ≡ ((a && false) && c)
    nothing a b c = ground arith

    same_member_of :
        (r : MemberRow)
        → ((is_of id r && same_key r.member x) && not (same_key r.member m))
          ≡ ((is_of id r && same_key r.member x) && not (same_key m x))
    same_member_of r = elim (Bool-cases (same_key r.member x)) [
      | inl e ↦
          ap (λ k. (is_of id r && same_key r.member x) && not k)
            (ap (λ k. same_key k m) (same_key-eq r.member x e) ∙ same_key_sym x m)
      | inr e ↦ rw e (nothing (is_of id r) _ _)
    ]

pub take_members-Takes :
    (ms : List MemberIdentity) (ws : List WorkspaceRow) (rows : List MemberRow)
    (affected : List String)
    → IsSound ws rows
    → AllActive (is_pending affected) ws rows
    → Takes ms ws rows (take_members ms rows affected)
unfolding take_members
take_members-Takes [] ws rows affected s a = record {
  sound = s;
  active = a;
  rows_left = λ x. and_true (has_row rows x);
  members_left = λ id x. and_true (member_belongs rows id x);
}
  where
    and_true : (b : Bool) → b ≡ b && true
    and_true b = ground arith
take_members-Takes (m ∷ ms) ws rows affected s a =
    let deleted : IsSound ws (delete_member m rows) =
      unfold delete_member in (keep-IsSound ws rows (λ r. not (same_key r.member m)) s) in
    let rest =
      take_members-Takes ms ws (delete_member m rows) (also_affected m rows affected) deleted
        (take-AllActive m ws rows affected s.keys a) in
    record {
      sound = rest.sound;
      active = rest.active;
      members_left = λ id x.
          rest.members_left id x
          ∙ ap (λ b. b && not (is_among ms x)) (belongs-delete_member m rows id x)
          ∙ and_or (member_belongs rows id x) (same_key m x) (is_among ms x);
      rows_left = λ x.
          rest.rows_left x
          ∙ ap (λ b. b && not (is_among ms x)) (has_row-delete_member m rows x)
          ∙ and_or (has_row rows x) (same_key m x) (is_among ms x);
    }
  where
    and_or : (a b c : Bool) → (a && not b) && not c ≡ a && not (b || c)
    and_or a b c = ground arith
