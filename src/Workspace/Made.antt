-- ===== src/Workspace/Made.antt =====
-- The tables of a new workspace whose members have no rows yet, and the statements that make them.
use devhatch.Prelude.{
  or_right, or_left, any-append, nodup, all-append, ◌>>=◌, same_refl, list_eq, ℕ, suc, String, ◌≡◌,
  refl, ap, ◌∙◌, Bool, true, false, not, ◌&&◌, ◌||◌, Option, some, List, [], ◌∷◌, ◌++◌, arith,
  is_none_or, any, all, ◌==◌, nat_eq, string_eq, option_eq,
}
use devhatch.Registry.IndexMap.{same_key, same_key_refl}
use devhatch.Workspace.Tables.{
  MemberIdentity, WorkspaceRow, MemberRow, Database, is_of, has_id, workspace_exists,
  find_workspace, member_belongs, active_ok, first, commit, insert_workspace,
}
use devhatch.Workspace.Operations.{
  Workspace, assemble, find_in_transaction, is_among, insert_members,
}
use devhatch.Workspace.Invariant.{
  IsSound, IsConsistent, append-IsSound, insert_workspace-fresh, commit-IsConsistent,
}
use devhatch.Workspace.Filled.{rows_of, below, insert_members-rows_of, load_members-rows_of}
use devhatch.Workspace.Singletons.{has_row, any-is_of_missing, all-active_ok-append}

pub find_workspace-new :
    (ws : List WorkspaceRow) (w : WorkspaceRow)
    → workspace_exists w.id ws ≡ false
    → find_workspace w.id (ws ++ w ∷ []) ≡ some w
unfolding find_workspace workspace_exists
find_workspace-new [] w h = rw (same_refl w.id) refl
find_workspace-new (v ∷ ws) w h = ground (arith, find_workspace-new ws w)

is_among-rows_of :
    (id : String) (n : ℕ) (ms : List MemberIdentity) (x : MemberIdentity)
    → has_row (rows_of id n ms) x ≡ is_among ms x
unfolding has_row
is_among-rows_of id n [] x = refl
is_among-rows_of id n (m ∷ ms) x = ap (λ b. same_key m x || b) (is_among-rows_of id (suc n) ms x)

all-below_unknown :
    (id : String) (rows : List MemberRow)
    → any (λ r. is_of id r && true) rows ≡ false
    → all (below id 0) rows ≡ true
all-below_unknown id [] h = refl
all-below_unknown id (r ∷ rows) h = ground (arith, all-below_unknown id rows)

pub all_among :
    (all_ms ms : List MemberIdentity)
    → ((t : MemberIdentity → Bool) → any t ms ≡ true → any t all_ms ≡ true)
    → all (is_among all_ms) ms ≡ true
all_among all_ms [] sub = refl
all_among all_ms (m ∷ ms) sub =
    rw
      (
        sub (λ k. same_key k m)
            (or_left (same_key m m) (any (λ k. same_key k m) ms) (same_key_refl m)),
        all_among all_ms ms (λ t h. sub t (or_right (t m) (any t ms) h)),
      )
      refl

pub no_members :
    (ws : List WorkspaceRow) (rows : List MemberRow) (id : String) (x : MemberIdentity)
    → all (λ r. workspace_exists r.workspace_id ws) rows ≡ true
    → workspace_exists id ws ≡ false
    → member_belongs rows id x ≡ false
unfolding member_belongs
no_members ws rows id x owned missing =
    any-is_of_missing ws rows id (λ r. same_key r.member x) owned missing

belongs-rows_of :
    (id other : String) (n : ℕ) (ms : List MemberIdentity) (x : MemberIdentity)
    → any (λ r. is_of other r && same_key r.member x) (rows_of id n ms)
      ≡ (id == other && is_among ms x)
belongs-rows_of id other n [] x = nothing (id == other)
  where
    nothing : (a : Bool) → false ≡ a && false
    nothing a = ground arith
belongs-rows_of id other n (m ∷ ms) x =
    ap (λ b. id == other && same_key m x || b) (belongs-rows_of id other (suc n) ms x)
    ∙ spread (id == other) (same_key m x) (is_among ms x)
  where
    spread : (a b c : Bool) → (a && b || a && c) ≡ (a && (b || c))
    spread a b c = ground arith

pub exists-append :
    (x : String) (ws : List WorkspaceRow) (w : WorkspaceRow)
    → workspace_exists x (ws ++ w ∷ []) ≡ (workspace_exists x ws || w.id == x)
unfolding workspace_exists
exists-append x ws w =
    any-append (has_id x) ws (w ∷ []) ∙ ap (λ b. any (has_id x) ws || b) (or_nothing (w.id == x))
  where
    or_nothing : (b : Bool) → (b || false) ≡ b
    or_nothing b = ground arith

-- The first member of a new workspace is one of its members.
first-rows_of :
    (id : String) (rows : List MemberRow) (ms : List MemberIdentity)
    → is_none_or (first ms) (member_belongs (rows ++ rows_of id 0 ms) id) ≡ true
unfolding member_belongs
first-rows_of id rows [] = refl
first-rows_of id rows (m ∷ ms) =
    any-append (λ r. is_of id r && same_key r.member m) rows (rows_of id 0 (m ∷ ms))
    ∙ or_right (any (λ r. is_of id r && same_key r.member m) rows)
        (any (λ r. is_of id r && same_key r.member m) (rows_of id 0 (m ∷ ms)))
        (rw (same_refl id, same_key_refl m) refl)

new_exists :
    (w : WorkspaceRow) (ws : List WorkspaceRow) → workspace_exists w.id (ws ++ w ∷ []) ≡ true
unfolding workspace_exists
new_exists w ws =
    any-append (has_id w.id) ws (w ∷ [])
    ∙ or_right (any (has_id w.id) ws) (any (has_id w.id) (w ∷ [])) (rw (same_refl w.id) refl)

module _ (now : ℕ) (id : String) (name : Option (List ℕ)) (members : List MemberIdentity)
    (ws : List WorkspaceRow) (rows : List MemberRow) where
  abbrev pub new_row : WorkspaceRow
  new_row = record {
    id = id;
    name = name;
    active_session = first members;
    created_at = now;
    updated_at = now;
  }

  abbrev pub filled : Database
  filled = record {
    workspaces = ws ++ new_row ∷ [];
    workspace_sessions = rows ++ rows_of id 0 members;
  }

  pub has_row-filled :
      (x : MemberIdentity)
      → has_row filled.workspace_sessions x ≡ (has_row rows x || is_among members x)
  unfolding has_row
  has_row-filled x =
      any-append (λ r. same_key r.member x) rows (rows_of id 0 members)
      ∙ ap (λ b. any (λ r. same_key r.member x) rows || b) (is_among-rows_of id 0 members x)

  pub member_belongs-filled :
      (other : String) (x : MemberIdentity)
      → member_belongs filled.workspace_sessions other x
        ≡ (member_belongs rows other x || id == other && is_among members x)
  unfolding member_belongs
  member_belongs-filled other x =
      any-append (λ r. is_of other r && same_key r.member x) rows (rows_of id 0 members)
      ∙ ap (λ b. member_belongs rows other x || b) (belongs-rows_of id other 0 members x)

  module _ (fresh : workspace_exists id ws ≡ false) (dup : nodup same_key members ≡ true)
      (named : all (λ m. not (m.id == "")) members ≡ true)
      (new : all (λ m. not (has_row rows m)) members ≡ true)
      (c : IsConsistent (record { workspaces = ws; workspace_sessions = rows })) where
    filling :
        (insert_members id 0 members
            (record { workspaces = ws ++ new_row ∷ []; workspace_sessions = rows })
          ≡ some filled)
        × IsSound filled.workspaces filled.workspace_sessions
    filling =
        insert_members-rows_of id 0 members
          (record { workspaces = ws ++ new_row ∷ []; workspace_sessions = rows })
          (new_exists new_row ws) dup named new
          (all-below_unknown id rows (any-is_of_missing ws rows id (λ r. true) c.sound.owned fresh))
          (append-IsSound ws rows new_row fresh c.sound)

    pub filled-IsConsistent : IsConsistent filled
    filled-IsConsistent = record {
      sound = filling.1;
      active =
          all-append (active_ok filled.workspace_sessions) ws (new_row ∷ [])
          ∙ rw
              (
                all-active_ok-append ws rows (rows_of id 0 members) c.active,
                first-rows_of id rows members,
              )
              refl;
    }

    pub find-filled : find_in_transaction id filled ≡ some (assemble new_row members)
    unfolding find_in_transaction
    find-filled =
        rw
          (
            find_workspace-new ws new_row fresh,
            load_members-rows_of id rows members
                (any-is_of_missing ws rows id (λ r. true) c.sound.owned fresh),
          )
          refl

    -- The statements of the creation, from the tables where the members have no rows.
    pub creating :
        let made : Option (Database × Workspace) = do
          created ← insert_workspace new_row (record { workspaces = ws; workspace_sessions = rows })
          full ← insert_members id 0 members created
          w ← find_in_transaction id full
          db' ← commit full
          some (db', w)
        in made ≡ some (filled, assemble new_row members)
    creating =
        rw
          (insert_workspace-fresh new_row (record { workspaces = ws; workspace_sessions = rows })
            fresh)
          (rw filling.0 (rw find-filled (rw (commit-IsConsistent filled filled-IsConsistent) refl)))
