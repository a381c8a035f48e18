-- ===== src/Workspace/Found.antt =====
-- The rows that `fetch_optional` finds.
use devhatch.Prelude.{
  nodup, list_eq, String, ◌≡◌, refl, sym, ap, subst, inl, inr, Bool, true, false, not, ◌||◌, some,
  List, [], ◌∷◌, arith, if◌then◌else◌, Bool-cases, any, all, keep, ◌==◌, nat_eq, string_eq,
  option_eq,
}
use mathlib.Core.Option.{some-injective}
use devhatch.Workspace.Tables.{WorkspaceRow, MemberRow, same_id, find_workspace, first}
use devhatch.Workspace.Invariant.{string_sym}
use devhatch.Workspace.Singletons.{parts_of_and, refuted}

pub first-keep :
    (p q : MemberRow → Bool) (rows : List MemberRow) (r : MemberRow)
    → all q rows ≡ true
    → first (keep p rows) ≡ some r
    → (p r ≡ true) × (q r ≡ true)
first-keep p q [] r h e = absurd (cc e)
first-keep p q (x ∷ rows) r h e = elim (Bool-cases (p x)) [
  | inl f ↦
      let same : x ≡ r =
        some-injective _ _
          (subst (λ b. first (if b then x ∷ keep p rows else keep p rows) ≡ some r) f e) in
      let (here, later) = parts_of_and (q x) (all q rows) h in
      (subst (λ y. p y ≡ true) same f, subst (λ y. q y ≡ true) same here)
  | inr f ↦
      let (here, later) = parts_of_and (q x) (all q rows) h in
      first-keep p q rows r later
        (subst (λ b. first (if b then x ∷ keep p rows else keep p rows) ≡ some r) f e)
]

-- Only the row that is found has its identifier.
pub find_workspace-only :
    (id : String) (q : WorkspaceRow → Bool) (ws : List WorkspaceRow) (w : WorkspaceRow)
    → nodup same_id ws ≡ true
    → find_workspace id ws ≡ some w
    → q w ≡ false
    → all (λ v. not (v.id == id) || not (q v)) ws ≡ true
unfolding find_workspace
find_workspace-only id q [] w dup e h = refl
find_workspace-only id q (v ∷ ws) w dup e h =
    let (alone, later) = parts_of_and (not (any (same_id v) ws)) (nodup same_id ws) dup in
    elim (Bool-cases (v.id == id)) [
      | inl f ↦
          let same : v ≡ w =
            some-injective _ _
              (subst (λ b. (if b then some v else find_workspace id ws) ≡ some w) f e) in
          let here : q v ≡ false = subst (λ u. q u ≡ false) (sym same) h in
          rw (f, here) (others v ws f (refuted (any (same_id v) ws) alone))
      | inr f ↦ rw f (
          find_workspace-only id q ws w later
            (subst (λ b. (if b then some v else find_workspace id ws) ≡ some w) f e) h)
    ]
  where
    others :
        (x : WorkspaceRow) (us : List WorkspaceRow)
        → (x.id == id) ≡ true
        → any (same_id x) us ≡ false
        → all (λ u. not (u.id == id) || not (q u)) us ≡ true
    others x [] f alone = refl
    others x (u ∷ us) f alone = ground (
      arith,
      others x us f,
      string_sym u.id id,
      ap (λ y. y == u.id) ((string_eq.same_iff x.id id).0 f),
    )
