-- ===== src/Workspace/Filled.antt =====
-- The members of a new workspace: their rows are accepted, and listed in the order of the request.
use devhatch.Prelude.{
  sort, any-append, nodup, any_excluded, all-append, all_mono, same_refl, list_eq, ℕ, suc, ◌<◌,
  String, ◌≡◌, refl, sym, ap, ◌∙◌, subst, Bool, true, false, not, ◌&&◌, ◌||◌, some, List, [], ◌∷◌,
  ◌++◌, arith, ltb, any, all, keep, ◌==◌, nat_eq, string_eq, option_eq, sort-in_order, sort_nil,
}
use devhatch.Registry.IndexMap.{same_key}
use devhatch.Workspace.Tables.{
  MemberIdentity, MemberRow, Database, is_of, workspace_exists, load_members, members_of_rows,
  row_before,
}
use devhatch.Workspace.Operations.{insert_members}
use devhatch.Workspace.Invariant.{
  IsSound, CanInsert, row_of, insert_member-CanInsert, insert-IsSound,
}
use devhatch.Workspace.Singletons.{has_row, refuted, parts_of_and}

-- The rows of members from a position on.
abbrev pub rows_of : String → ℕ → List MemberIdentity → List MemberRow
rows_of id n [] = []
rows_of id n (m ∷ ms) = row_of id m n ∷ rows_of id (suc n) ms

append_assoc : {A : Type 0} (xs ys zs : List A) → (xs ++ ys) ++ zs ≡ xs ++ (ys ++ zs)
append_assoc [] ys zs = refl
append_assoc (x ∷ xs) ys zs = ap (λ l. x ∷ l) (append_assoc xs ys zs)

append_nil : {A : Type 0} (xs : List A) → xs ++ [] ≡ xs
append_nil [] = refl
append_nil (x ∷ xs) = ap (λ l. x ∷ l) (append_nil xs)

-- A workspace's rows are below a position.
abbrev pub below : String → ℕ → MemberRow → Bool
below id n r = not (is_of id r) || ltb r.position n

below-free :
    (id : String) (n : ℕ) (rows : List MemberRow)
    → all (below id n) rows ≡ true
    → any (λ r. is_of id r && r.position == n) rows ≡ false
below-free id n rows h =
    any_excluded (below id n) (λ r. is_of id r && r.position == n) rows h
      (λ r e. apart (is_of id r) r.position e)
  where
    apart : (b : Bool) (p : ℕ) → (not b || ltb p n) ≡ true → b && p == n ≡ false
    apart b p e = ground arith

below-suc :
    (id : String) (m : MemberIdentity) (n : ℕ) (rows : List MemberRow)
    → all (below id n) rows ≡ true
    → all (below id (suc n)) (rows ++ row_of id m n ∷ []) ≡ true
below-suc id m n rows h =
    all-append (below id (suc n)) rows (row_of id m n ∷ [])
    ∙ rw (all_mono (below id n) (below id (suc n)) rows (λ r e. more (is_of id r) r.position e) h)
        (last (is_of id (row_of id m n)) n)
  where
    more : (b : Bool) (p : ℕ) → (not b || ltb p n) ≡ true → (not b || ltb p (suc n)) ≡ true
    more b p e = ground arith

    last : (b : Bool) (p : ℕ) → ((not b || ltb p (suc p)) && true) ≡ true
    last b p = ground arith

still_new_row :
    (id : String) (m : MemberIdentity) (n : ℕ) (rows : List MemberRow) (ms : List MemberIdentity)
    → any (same_key m) ms ≡ false
    → all (λ x. not (has_row rows x)) ms ≡ true
    → all (λ x. not (has_row (rows ++ row_of id m n ∷ []) x)) ms ≡ true
unfolding has_row
still_new_row id m n rows [] d h = refl
still_new_row id m n rows (x ∷ ms) d h = ground (
  arith,
  any-append (λ r. same_key r.member x) rows (row_of id m n ∷ []),
  still_new_row id m n rows ms,
)

pub insert_members-rows_of :
    (id : String) (n : ℕ) (ms : List MemberIdentity) (db : Database)
    → workspace_exists id db.workspaces ≡ true
    → nodup same_key ms ≡ true
    → all (λ m. not (m.id == "")) ms ≡ true
    → all (λ m. not (has_row db.workspace_sessions m)) ms ≡ true
    → all (below id n) db.workspace_sessions ≡ true
    → IsSound db.workspaces db.workspace_sessions
    → (insert_members id n ms db
        ≡ some (record db { workspace_sessions = db.workspace_sessions ++ rows_of id n ms }))
      × IsSound db.workspaces (db.workspace_sessions ++ rows_of id n ms)
unfolding insert_members
insert_members-rows_of id n [] db exists dup named new under s =
    let none_more = sym (append_nil db.workspace_sessions) in
    (
      ap (λ l. some (record db { workspace_sessions = l })) none_more,
      subst (IsSound db.workspaces) none_more s,
    )
insert_members-rows_of id n (m ∷ ms) db exists dup named new under s =
    let (dup_here, dup_later) = parts_of_and (not (any (same_key m) ms)) (nodup same_key ms) dup in
    let (named_here, named_later) =
      parts_of_and (not (m.id == "")) (all (λ x. not (x.id == "")) ms) named in
    let (new_here, new_later) =
      parts_of_and (not (has_row db.workspace_sessions m))
        (all (λ x. not (has_row db.workspace_sessions x)) ms) new in
    let can : CanInsert id m n db = record {
      named = refuted (m.id == "") named_here;
      exists = exists;
      unowned = unfold has_row in refuted (has_row db.workspace_sessions m) new_here;
      free = below-free id n db.workspace_sessions under;
    } in
    let db₁ : Database = record db {
      workspace_sessions = db.workspace_sessions ++ row_of id m n ∷ [];
    } in
    let (e, t) =
      insert_members-rows_of id (suc n) ms db₁ exists dup_later named_later
        (still_new_row id m n db.workspace_sessions ms (refuted (any (same_key m) ms) dup_here)
          new_later)
        (below-suc id m n db.workspace_sessions under) (insert-IsSound id m n db can s) in
    let assoc = append_assoc db.workspace_sessions (row_of id m n ∷ []) (rows_of id (suc n) ms) in
    (
      rw (insert_member-CanInsert id m n db can)
          (e ∙ ap (λ l. some (record db { workspace_sessions = l })) assoc),
      subst (IsSound db.workspaces) assoc t,
    )

-- The rows of a new workspace are listed in the order of their positions.
rows_of-after :
    (id : String) (k n : ℕ) (ms : List MemberIdentity)
    → k < n
    → all (λ x. ltb k x.position) (rows_of id n ms) ≡ true
rows_of-after id k n [] h = refl
rows_of-after id k n (m ∷ ms) h = ground (arith, rows_of-after id k (suc n) ms (omega arith))

sort-rows_of :
    (id : String) (n : ℕ) (ms : List MemberIdentity)
    → sort row_before (rows_of id n ms) ≡ rows_of id n ms
sort-rows_of id n [] = sort_nil row_before
sort-rows_of id n (m ∷ ms) =
    sort-in_order row_before (row_of id m n) (rows_of id (suc n) ms)
      (all_mono (λ x. ltb n x.position) (λ x. not (row_before x (row_of id m n)))
        (rows_of id (suc n) ms) (λ x h. not_before x.position n _ h)
        (rows_of-after id n (suc n) ms (omega arith)))
      (sort-rows_of id (suc n) ms)
  where
    not_before : (a b : ℕ) (d : Bool) → ltb b a ≡ true → not (ltb a b || a == b && d) ≡ true
    not_before a b d h = ground arith

members-rows_of :
    (id : String) (n : ℕ) (ms : List MemberIdentity) → members_of_rows (rows_of id n ms) ≡ ms
members-rows_of id n [] = refl
members-rows_of id n (m ∷ ms) = ap (λ l. m ∷ l) (members-rows_of id (suc n) ms)

keep-rows_of :
    (id : String) (n : ℕ) (ms : List MemberIdentity)
    → keep (is_of id) (rows_of id n ms) ≡ rows_of id n ms
keep-rows_of id n [] = refl
keep-rows_of id n (m ∷ ms) =
    rw (same_refl id, keep) (ap (λ l. row_of id m n ∷ l) (keep-rows_of id (suc n) ms))

keep-others :
    (id : String) (rows more : List MemberRow)
    → any (λ r. is_of id r && true) rows ≡ false
    → keep (is_of id) (rows ++ more) ≡ keep (is_of id) more
keep-others id [] more h = refl
keep-others id (r ∷ rows) more h = ground (arith, keep-others id rows more)

pub load_members-rows_of :
    (id : String) (rows : List MemberRow) (ms : List MemberIdentity)
    → any (λ r. is_of id r && true) rows ≡ false
    → load_members id (rows ++ rows_of id 0 ms) ≡ ms
unfolding load_members
load_members-rows_of id rows ms h =
    ap (λ l. members_of_rows (sort row_before l))
      (keep-others id rows (rows_of id 0 ms) h ∙ keep-rows_of id 0 ms)
    ∙ ap members_of_rows (sort-rows_of id 0 ms)
    ∙ members-rows_of id 0 ms
