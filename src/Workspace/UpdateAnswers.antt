-- ===== src/Workspace/UpdateAnswers.antt =====
-- The answer of the handler that updates a workspace.
use devhatch.Prelude.{
  list_eq, ℕ, String, ◌≡◌, refl, inl, inr, Bool, true, false, not, ◌&&◌, Option, none, some, List,
  Bool-cases, is_none, nat_eq, string_eq, option_eq, map_some, if◌then◌else◌, ◌∙◌, ap,
}
use devhatch.Workspace.Tables.{MemberIdentity, Database, workspace_exists, member_belongs}
use devhatch.Workspace.Operations.{is_among, Workspace}
use devhatch.Workspace.Invariant.{IsConsistent}
use devhatch.Workspace.Updated.{is_allowed, update_workspace-Updates, Updates}
use devhatch.Workspace.Handlers.{
  Response, ok, update_checked, update_active, validate_update, update, bad_request, trim,
  invalid_workspace_name, not_found, empty_update,
}
use devhatch.Workspace.Answers.{is_name, validate_name-is_name, replace}

-- The session that an update may ask for: an eligible member.
abbrev pub may_activate :
    List MemberIdentity → String → Database → Option (Option MemberIdentity) → Bool
may_activate eligible id db none = true
may_activate eligible id db (some none) = true
may_activate eligible id db (some (some active)) =
    is_among eligible active && member_belongs db.workspace_sessions id active

-- A name that is asked for is valid.
abbrev pub is_new_name : Option (Option (List ℕ)) → Bool
is_new_name none = true
is_new_name (some name) = is_name name

abbrev pub asks_something : Option (Option (List ℕ)) → Option (Option MemberIdentity) → Bool
asks_something none none = false
asks_something none (some active) = true
asks_something (some name) active = true

abbrev pub trimmed : Option (Option (List ℕ)) → Option (Option (List ℕ))
trimmed none = none
trimmed (some none) = some none
trimmed (some (some name)) = some (some (trim name))

-- The requests that `update` is to accept.
abbrev pub is_updatable :
    List MemberIdentity
    → String
    → Database
    → Option (Option (List ℕ))
    → Option (Option MemberIdentity)
    → Bool
is_updatable eligible id db name active =
    asks_something name active
    && (is_new_name name
        && (workspace_exists id db.workspaces && may_activate eligible id db active))

abbrev pub is_refusal : Response → Bool
is_refusal (bad_request code) = true
is_refusal not_found = true
is_refusal _ = false

-- The workspace that an accepted request changes, with what is asked for; another is refused, and
-- changes nothing.
abbrev pub UpdateOutcome :
    ℕ
    → String
    → Option (Option (List ℕ))
    → Option (Option MemberIdentity)
    → Database
    → Bool
    → Database × Response
    → Type 0
UpdateOutcome now id name active db true r =
    (w : Workspace) × (r.1 ≡ ok w) × Updates now id name active db r.0 w
UpdateOutcome now id name active db false r = (r.0 ≡ db) × (is_refusal r.1 ≡ true)

validate_update-is_new_name :
    (name : Option (Option (List ℕ)))
    → validate_update name ≡ (if is_new_name name then some (trimmed name) else none)
unfolding validate_update
validate_update-is_new_name none = refl
validate_update-is_new_name (some none) = ap (map_some (λ n. some n)) (validate_name-is_name none)
validate_update-is_new_name (some (some name)) =
    ap (map_some (λ n. some n)) (validate_name-is_name (some name)) ∙ by_test (is_name (some name))
  where
    by_test :
        (b : Bool)
        → map_some (λ (n : Option (List ℕ)). some n) (if b then some (some (trim name)) else none)
          ≡ (if b then some (some (some (trim name))) else none)
    by_test true = refl
    by_test false = refl

none_asked :
    (name : Option (Option (List ℕ))) (active : Option (Option MemberIdentity))
    → (is_none name && is_none active) ≡ not (asks_something name active)
none_asked none none = refl
none_asked none (some active) = refl
none_asked (some name) active = refl

module _ (now : ℕ) (id : String) (eligible : List MemberIdentity) (db : Database)
    (c : IsConsistent db) where
  update_checked-Outcome :
      (name : Option (Option (List ℕ))) (active : Option (Option MemberIdentity))
      → workspace_exists id db.workspaces ≡ true
      → is_allowed db.workspace_sessions id active ≡ true
      → UpdateOutcome now id name active db true (update_checked now id name active db)
  unfolding update_checked
  update_checked-Outcome name active exists allowed =
      let (db', w, e, done) = update_workspace-Updates now id name active db c exists allowed in
      rw (e, update_checked) (w, refl, done)

  update_active-Outcome :
      (name : Option (Option (List ℕ))) (active : Option (Option MemberIdentity))
      → workspace_exists id db.workspaces ≡ true
      → UpdateOutcome now id name active db
          (may_activate eligible id db active)
          (update_active now id eligible name active db)
  unfolding update_active
  update_active-Outcome name none exists = update_checked-Outcome name none exists refl
  update_active-Outcome name (some none) exists =
      update_checked-Outcome name (some none) exists refl
  update_active-Outcome name (some (some active)) exists =
      elim (Bool-cases (is_among eligible active)) [
        | inl e ↦ elim (Bool-cases (member_belongs db.workspace_sessions id active)) [
          | inl f ↦ rw e (rw f (update_checked-Outcome name (some (some active)) exists f))
          | inr f ↦ rw e (rw f (refl, refl))
        ]
        | inr e ↦ rw e (refl, refl)
      ]

  -- For consistent tables the handler that updates a workspace accepts a request exactly if it asks
  -- for something, a new name is none or has 1 to 120 UTF-16 units when it is trimmed, the workspace
  -- is there, and a session that is to be active is an eligible member. Then the workspace that is
  -- answered is stored, with the trimmed name and the active session that were asked for and all
  -- else as it was, as `Updates` tells. Else the request is refused, and nothing changes. There is
  -- never an error of the database.
  pub update_answer :
      (name : Option (Option (List ℕ))) (active : Option (Option MemberIdentity))
      → UpdateOutcome now id
          (trimmed name)
          active
          db
          (is_updatable eligible id db name active)
          (update now id eligible name active db)
  unfolding update
  update_answer name active = elim (Bool-cases (asks_something name active)) [
    | inl e ↦
        let asked : (is_none name && is_none active) ≡ false = none_asked name active ∙ ap not e in
        elim (Bool-cases (is_new_name name)) [
          | inl f ↦
              let valid : validate_update name ≡ some (trimmed name) =
                validate_update-is_new_name name
                ∙ ap (λ b. if b then some (trimmed name) else none) f in
              elim (Bool-cases (workspace_exists id db.workspaces)) [
                | inl g ↦
                    let test : is_updatable eligible id db name active
                        ≡ may_activate eligible id db active =
                      rw (e, f, g) refl in
                    let answer : update now id eligible name active db
                        ≡ update_active now id eligible (trimmed name) active db =
                      rw (asked, update) (rw valid (rw g refl)) in
                    replace (UpdateOutcome now id (trimmed name) active db) test answer
                      (update_active-Outcome (trimmed name) active g)
                | inr g ↦
                    let test : is_updatable eligible id db name active ≡ false =
                      rw (e, f, g) refl in
                    let answer : update now id eligible name active db ≡ (db, not_found) =
                      rw (asked, update) (rw valid (rw g refl)) in
                    replace (UpdateOutcome now id (trimmed name) active db) test answer (refl, refl)
              ]
          | inr f ↦
              let test : is_updatable eligible id db name active ≡ false = rw (e, f) refl in
              let invalid : validate_update name ≡ none =
                validate_update-is_new_name name
                ∙ ap (λ b. if b then some (trimmed name) else none) f in
              let answer : update now id eligible name active db
                  ≡ (db, bad_request invalid_workspace_name) =
                rw (asked, update) (rw invalid refl) in
              replace (UpdateOutcome now id (trimmed name) active db) test answer (refl, refl)
        ]
    | inr e ↦
        let test : is_updatable eligible id db name active ≡ false = rw e refl in
        let answer : update now id eligible name active db ≡ (db, bad_request empty_update) =
          rw (none_asked name active ∙ ap not e, update) refl in
        replace (UpdateOutcome now id (trimmed name) active db) test answer (refl, refl)
  ]
