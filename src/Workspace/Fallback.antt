-- ===== src/Workspace/Fallback.antt =====
-- The session that becomes active when the active one is removed.
use devhatch.Prelude.{
  sort, any-sort, all-sort, any_mono, any-keep, list_eq, ℕ, String, ◌≡◌, refl, sym, ◌∙◌, Bool, true,
  false, not, ◌&&◌, ◌||◌, some, List, [], ◌∷◌, arith, ltb, leb, is_none_or, any, all, keep, ◌==◌,
  nat_eq, string_eq, option_eq, is_least-sort, is_least, all-keep_or, same_refl,
}
use devhatch.Registry.IndexMap.{same_key, same_key_refl}
use devhatch.Workspace.Tables.{MemberRow, is_of, member_belongs, first, members_of_rows}
use devhatch.Workspace.Members.{after_before, fallback}
use devhatch.Workspace.Active.{first-all, all-member_belongs}

pub fallback_ok :
    (id : String) (position : ℕ) (rows : List MemberRow)
    → is_none_or (fallback id position rows) (member_belongs rows id) ≡ true
unfolding fallback
fallback_ok id position rows =
    first-all (member_belongs rows id) (sort (after_before position) (keep (is_of id) rows)) (
      all-sort (after_before position) (λ r. member_belongs rows id r.member) (keep (is_of id) rows)
      ∙ all-member_belongs rows id)

-- Of two positions, which comes first after `position`, starting again from 0.
abbrev pub next_le : ℕ → ℕ → ℕ → Bool
next_le position a b =
    ltb position a && (leb b position || leb a b) || leb a position && leb b position && leb a b

row_le : ℕ → MemberRow → MemberRow → Bool
row_le position a b = next_le position a.position b.position

after_before_le :
    (position : ℕ) (a b : MemberRow) → after_before position a b ≡ true → row_le position a b ≡ true
unfolding row_le
after_before_le position a b h = by_position a.position b.position _ h
  where
    by_position :
        (x y : ℕ) (c : Bool)
        → (ltb position x && leb y position
            || (ltb position x || leb y position) && (ltb x y || x == y && c))
          ≡ true
        → next_le position x y ≡ true
    by_position x y c h = ground arith

not_after_before_le :
    (position : ℕ) (a b : MemberRow)
    → after_before position a b ≡ false
    → row_le position b a ≡ true
unfolding row_le
not_after_before_le position a b h = by_position a.position b.position _ h
  where
    by_position :
        (x y : ℕ) (c : Bool)
        → (ltb position x && leb y position
            || (ltb position x || leb y position) && (ltb x y || x == y && c))
          ≡ false
        → next_le position y x ≡ true
    by_position x y c h = ground arith

row_le_trans :
    (position : ℕ) (a b c : MemberRow)
    → row_le position a b ≡ true
    → row_le position b c ≡ true
    → row_le position a c ≡ true
unfolding row_le
row_le_trans position a b c h e = by_position a.position b.position c.position h e
  where
    by_position :
        (x y z : ℕ)
        → next_le position x y ≡ true
        → next_le position y z ≡ true
        → next_le position x z ≡ true
    by_position x y z h e = ground arith

-- The same row, in all its columns.
abbrev pub same_row : MemberRow → MemberRow → Bool
same_row r x =
    x.workspace_id == r.workspace_id && same_key x.member r.member && x.position == r.position

pick :
    (id : String) (position : ℕ) (l : List MemberRow)
    → any (is_of id) l ≡ true
    → is_least
        (after_before position)
        (row_le position)
        (after_before_le position)
        (not_after_before_le position)
        (row_le_trans position)
        l
      ≡ true
    → (r : MemberRow) × (first (members_of_rows l) ≡ some r.member)
      × (any (same_row r) l ≡ true)
      × (all (λ x. next_le position r.position x.position) l ≡ true)
unfolding row_le
pick id position [] h e = absurd (cc h)
pick id position (r ∷ l) h e = (
  r,
  refl,
  rw (same_refl r.workspace_id, same_key_refl r.member, same_refl r.position) refl,
  rw e (itself r.position),
)
  where
    itself : (a : ℕ) → next_le position a a && true ≡ true
    itself a = ground arith

-- For a workspace with members there is a session to fall back to. It is the member of a row of that
-- workspace whose position is the next after that of the session removed, or the first where none
-- is after it: no other row of the workspace comes before it in that order.
pub fallback_next :
    (id : String) (position : ℕ) (rows : List MemberRow)
    → any (is_of id) rows ≡ true
    → (r : MemberRow) × (fallback id position rows ≡ some r.member)
      × (any (λ x. same_row r x && is_of id x) rows ≡ true)
      × (all (λ x. not (is_of id x) || next_le position r.position x.position) rows ≡ true)
unfolding fallback
fallback_next id position rows h =
    let sorted = sort (after_before position) (keep (is_of id) rows) in
    let some_row =
      any-sort (after_before position) (is_of id) (keep (is_of id) rows)
      ∙ any-keep (is_of id) (is_of id) rows
      ∙ any_mono (is_of id) (λ r. is_of id r && is_of id r) rows (λ r e. rw e refl) h in
    let (r, e, there, least) = pick id position sorted some_row (
      is_least-sort (after_before position) (row_le position) (after_before_le position)
        (not_after_before_le position) (row_le_trans position) (keep (is_of id) rows)) in
    (
      r,
      e,
      sym (any-keep (same_row r) (is_of id) rows)
          ∙ sym (any-sort (after_before position) (same_row r) (keep (is_of id) rows))
          ∙ there,
      sym (all-keep_or (λ x. next_le position r.position x.position) (is_of id) rows)
          ∙ sym (
              all-sort (after_before position) (λ x. next_le position r.position x.position)
                (keep (is_of id) rows))
          ∙ least,
    )
