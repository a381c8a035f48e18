-- ===== src/Workspace/Position.antt =====
-- The position of a new member.
use devhatch.Prelude.{
  any_excluded, all_mono, list_eq, ℕ, ◌+◌, ◌≤◌, max, String, ◌≡◌, refl, Bool, true, false, not,
  ◌&&◌, ◌||◌, List, [], ◌∷◌, arith, if◌then◌else◌, ltb, any, all, ◌==◌, nat_eq, string_eq,
  option_eq,
}
use devhatch.Workspace.Tables.{MemberRow, is_of}
use devhatch.Workspace.Members.{next_position}

above_mono :
    (id : String) (n k : ℕ) (rows : List MemberRow)
    → n ≤ k
    → all (λ r. not (is_of id r) || ltb r.position n) rows ≡ true
    → all (λ r. not (is_of id r) || ltb r.position k) rows ≡ true
above_mono id n k rows h e = all_mono _ _ rows (λ r f. more (is_of id r) r.position f) e
  where
    more : (b : Bool) (p : ℕ) → (not b || ltb p n) ≡ true → (not b || ltb p k) ≡ true
    more b p f = ground arith

-- The position that a new member gets is above the positions of all members of the workspace.
pub next_position_above :
    (id : String) (rows : List MemberRow)
    → all (λ r. not (is_of id r) || ltb r.position (next_position id rows)) rows ≡ true
unfolding next_position
next_position_above id [] = refl
next_position_above id (r ∷ rows) = by_owner (next_position_above id rows) (is_of id r) refl
  where
    above_here : (p n : ℕ) → ltb p (max (p + 1) n) ≡ true
    above_here p n = ground arith

    by_owner :
        all (λ x. not (is_of id x) || ltb x.position (next_position id rows)) rows ≡ true
        → (b : Bool) → is_of id r ≡ b
        → all
            (λ x.
              not (is_of id x)
              || ltb x.position (
                  if b
                  then max (r.position + 1) (next_position id rows)
                  else next_position id rows))
            (r ∷ rows)
          ≡ true
    by_owner rest true e =
        rw (e, above_here r.position (next_position id rows))
          (above_mono id (next_position id rows) (max (r.position + 1) (next_position id rows)) rows
            (omega arith) rest)
    by_owner rest false e = rw e rest

pub next_position_free :
    (id : String) (rows : List MemberRow)
    → any (λ r. is_of id r && r.position == next_position id rows) rows ≡ false
next_position_free id rows =
    any_excluded _ (λ r. is_of id r && r.position == next_position id rows) rows
      (next_position_above id rows) (λ r e. apart (is_of id r) r.position (next_position id rows) e)
  where
    apart : (b : Bool) (p n : ℕ) → (not b || ltb p n) ≡ true → b && p == n ≡ false
    apart b p n e = ground arith
