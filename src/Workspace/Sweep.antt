-- ===== src/Workspace/Sweep.antt =====
-- What the loop of `reconcile_transaction` leaves: the rows of eligible sessions, their members, and
-- the workspaces of the other rows.
use devhatch.Registry.IndexMap.{same_key, same_key-eq, same_key_refl}
use devhatch.Workspace.Tables.{MemberIdentity, MemberRow, delete_member}
use devhatch.Workspace.Operations.{is_among, add_id, Sweep, sweep, sweep_row}
use devhatch.Workspace.Invariant.{same_key_sym}
use devhatch.Workspace.Active.{is_pending}
use devhatch.Prelude.{
  or_right, or_left, any-append, keep_ext, keep-all, keep-keep, list_eq, String, ◌≡◌, refl, sym, ap,
  ◌∙◌, subst, inl, inr, Bool, true, false, not, ◌&&◌, ◌||◌, List, [], ◌∷◌, arith, Bool-cases, any,
  all, keep, All, ◌==◌, nat_eq, string_eq, option_eq,
}

or_false : (b : Bool) → b ≡ (b || false)
or_false b = ground arith

pub is_pending-add_id :
    (id : String) (ids : List String) (x : String)
    → is_pending (add_id id ids) x ≡ (is_pending ids x || id == x)
is_pending-add_id id ids x = elim (Bool-cases (is_pending ids id)) [
  | inl e ↦ elim (Bool-cases (id == x)) [
    | inl f ↦
        let there : is_pending ids x ≡ true =
          subst (λ y. is_pending ids y ≡ true) ((string_eq.same_iff id x).0 f) e in
        rw (e, f, there) refl
    | inr f ↦ rw (e, f) (or_false (is_pending ids x))
  ]
  | inr e ↦ rw e (
      any-append (λ i. i == x) ids (id ∷ [])
      ∙ ap (λ b. is_pending ids x || b) (sym (or_false (id == x))))
]

module _ (eligible : List MemberIdentity) where
  is_among-same :
      (a b : MemberIdentity) → same_key a b ≡ true → is_among eligible a ≡ is_among eligible b
  is_among-same a b h = ap (is_among eligible) (same_key-eq a b h)

  -- Kept so far: eligible, or not among the rows that were read.
  abbrev stays : List MemberRow → MemberRow → Bool
  stays read r = is_among eligible r.member || not (any (λ d. same_key d.member r.member) read)

  stays-cons :
      (d : MemberRow) (read : List MemberRow) (r : MemberRow)
      → is_among eligible d.member ≡ true
      → stays read r ≡ stays (d ∷ read) r
  stays-cons d read r h = elim (Bool-cases (same_key d.member r.member)) [
    | inl e ↦ rw (e, sym (is_among-same d.member r.member e) ∙ h) refl
    | inr e ↦ rw e refl
  ]

  stays-cons_deleted :
      (d : MemberRow) (read : List MemberRow) (r : MemberRow)
      → is_among eligible d.member ≡ false
      → (stays read r && not (same_key r.member d.member)) ≡ stays (d ∷ read) r
  stays-cons_deleted d read r h = elim (Bool-cases (same_key d.member r.member)) [
    | inl e ↦
        let f : same_key r.member d.member ≡ true =
          subst (λ x. same_key r.member x ≡ true) (sym (same_key-eq d.member r.member e))
            (same_key_refl r.member) in
        rw (e, f, sym (is_among-same d.member r.member e) ∙ h) (and_false _)
    | inr e ↦ rw (e, same_key_sym r.member d.member ∙ e) (and_true _)
  ]
    where
      and_false : (b : Bool) → b && false ≡ false
      and_false b = ground arith

      and_true : (b : Bool) → b && true ≡ b
      and_true b = ground arith

  All_same :
      (p q : MemberRow → Bool) (rows : List MemberRow)
      → ((r : MemberRow) → p r ≡ q r)
      → All (λ r. p r ≡ q r) rows
  All_same p q [] h = tt
  All_same p q (r ∷ rows) h = (h r, All_same p q rows h)

  sweep_row-members :
      (read : List MemberRow) (d : MemberRow) (s : Sweep)
      → keep (stays read) (sweep_row eligible d s).members ≡ keep (stays (d ∷ read)) s.members
  unfolding sweep_row delete_member
  sweep_row-members read d s = elim (Bool-cases (is_among eligible d.member)) [
    | inl e ↦ simp e (
        keep_ext (stays read) (stays (d ∷ read)) s.members
          (All_same _ _ s.members (λ r. stays-cons d read r e)))
    | inr e ↦ simp e (
        keep-keep (stays read) (λ r. not (same_key r.member d.member)) s.members
        ∙ keep_ext _ (stays (d ∷ read)) s.members
            (All_same _ _ s.members (λ r. stays-cons_deleted d read r e)))
  ]

  sweep_row-owned :
      (d : MemberRow) (s : Sweep) (m : MemberIdentity)
      → is_among (sweep_row eligible d s).owned m
        ≡ (is_among s.owned m || (same_key d.member m && is_among eligible d.member))
  unfolding sweep_row
  sweep_row-owned d s m = elim (Bool-cases (is_among eligible d.member)) [
    | inl e ↦ rw e (any-append (λ k. same_key k m) s.owned (d.member ∷ []) ∙ ground arith)
    | inr e ↦ rw e (ground arith)
  ]

  sweep_row-affected :
      (d : MemberRow) (s : Sweep) (x : String)
      → is_pending (sweep_row eligible d s).affected x
        ≡ (is_pending s.affected x || (d.workspace_id == x && not (is_among eligible d.member)))
  unfolding sweep_row
  sweep_row-affected d s x = elim (Bool-cases (is_among eligible d.member)) [
    | inl e ↦ rw e (ground arith)
    | inr e ↦ rw e (is_pending-add_id d.workspace_id s.affected x ∙ ground arith)
  ]

  all_stay : (rows : List MemberRow) → all (stays []) rows ≡ true
  all_stay [] = refl
  all_stay (r ∷ rows) = ground (arith, all_stay rows)

  -- The rows that stay.
  pub sweep-members :
      (read : List MemberRow) (s : Sweep)
      → (sweep eligible read s).members ≡ keep (stays read) s.members
  unfolding sweep
  sweep-members [] s = sym (keep-all (stays []) s.members (all_stay s.members))
  sweep-members (d ∷ read) s =
      sweep-members read (sweep_row eligible d s) ∙ sweep_row-members read d s

  or_assoc : (a b c : Bool) → ((a || b) || c) ≡ (a || (b || c))
  or_assoc a b c = ground arith

  pub sweep-owned :
      (read : List MemberRow) (s : Sweep) (m : MemberIdentity)
      → is_among (sweep eligible read s).owned m
        ≡ (is_among s.owned m || any (λ r. same_key r.member m && is_among eligible r.member) read)
  unfolding sweep
  sweep-owned [] s m = or_false (is_among s.owned m)
  sweep-owned (d ∷ read) s m =
      let more = any (λ r. same_key r.member m && is_among eligible r.member) read in
      sweep-owned read (sweep_row eligible d s) m
      ∙ ap (λ b. b || more) (sweep_row-owned d s m)
      ∙ or_assoc _ _ more

  pub sweep-affected :
      (read : List MemberRow) (s : Sweep) (x : String)
      → is_pending (sweep eligible read s).affected x ≡ (
          is_pending s.affected x
          || any (λ r. r.workspace_id == x && not (is_among eligible r.member)) read)
  unfolding sweep
  sweep-affected [] s x = or_false (is_pending s.affected x)
  sweep-affected (d ∷ read) s x =
      let more = any (λ r. r.workspace_id == x && not (is_among eligible r.member)) read in
      sweep-affected read (sweep_row eligible d s) x
      ∙ ap (λ b. b || more) (sweep_row-affected d s x)
      ∙ or_assoc _ _ more

  -- All rows have been read, so that the rows of the eligible stay.
  All-any_self :
      (read rows : List MemberRow)
      → ((t : MemberRow → Bool) → any t rows ≡ true → any t read ≡ true)
      → All (λ r. stays read r ≡ is_among eligible r.member) rows
  All-any_self read [] sub = tt
  All-any_self read (r ∷ rows) sub =
      let here = sub (λ d. same_key d.member r.member) (or_left _ _ (same_key_refl r.member)) in
      (
        rw here (sym (or_false (is_among eligible r.member))),
        All-any_self read rows (λ t h. sub t (or_right (t r) (any t rows) h)),
      )

  pub swept_members :
      (rows : List MemberRow)
      → (sweep eligible rows (record { members = rows; owned = []; affected = [] })).members
        ≡ keep (λ r. is_among eligible r.member) rows
  swept_members rows =
      sweep-members rows (record { members = rows; owned = []; affected = [] })
      ∙ keep_ext (stays rows) (λ r. is_among eligible r.member) rows
          (All-any_self rows rows (λ t h. h))
