-- ===== src/Workspace/Answers.antt =====
-- The answers of the handlers: the tests before a transaction are enough for it to succeed.
use devhatch.Prelude.{
  nodup, list_eq, ℕ, String, ◌≡◌, refl, inl, inr, Bool, true, false, not, ◌&&◌, ◌||◌, Option, none,
  some, List, [], ◌∷◌, arith, Bool-cases, any, all, ◌==◌, nat_eq, string_eq, option_eq, map_some,
  subst, if◌then◌else◌, is_empty, ◌∙◌, sym, ltb, leb, utf16_len, ap,
}
use devhatch.Registry.IndexMap.{same_key}
use devhatch.Workspace.Tables.{MemberIdentity, Database, workspace_exists}
use devhatch.Workspace.Operations.{is_among, Workspace}
use devhatch.Workspace.Invariant.{IsConsistent}
use devhatch.Workspace.Created.{create_workspace-Creates, Creates}
use devhatch.Workspace.Handlers.{
  Response, created, validate_name, has_invalid, has_invalid_members, create_checked, create,
  bad_request, trim, session_not_eligible, invalid_workspace_members, invalid_workspace_name,
}

-- Members that pass are distinct, named, and apart from those seen before.
pub has_invalid-nodup :
    (unique members : List MemberIdentity)
    → has_invalid unique members ≡ false
    → (nodup same_key members ≡ true)
      × (all (λ m. not (m.id == "")) members ≡ true)
      × (all (λ m. not (is_among unique m)) members ≡ true)
unfolding has_invalid
has_invalid-nodup unique [] h = (refl, refl, refl)
has_invalid-nodup unique (m ∷ ms) h =
    let (valid, known, rest) =
      parts (m.id == "") (is_among unique m) (has_invalid (m ∷ unique) ms)
        (unfold has_invalid in h) in
    let (dup, named, apart) = has_invalid-nodup (m ∷ unique) ms rest in
    (rw dup (rw (different ms apart) refl), rw (valid, named) refl, rw known (weaken ms apart))
  where
    parts : (a b c : Bool) → (a || b || c) ≡ false → (a ≡ false) × (b ≡ false) × (c ≡ false)
    parts a b c h = ground arith

    different :
        (xs : List MemberIdentity)
        → all (λ x. not (same_key m x || is_among unique x)) xs ≡ true
        → any (same_key m) xs ≡ false
    different [] e = refl
    different (x ∷ xs) e = ground (arith, different xs)

    weaken :
        (xs : List MemberIdentity)
        → all (λ x. not (same_key m x || is_among unique x)) xs ≡ true
        → all (λ x. not (is_among unique x)) xs ≡ true
    weaken [] e = refl
    weaken (x ∷ xs) e = ground (arith, weaken xs)

has_invalid-valid :
    (unique members : List MemberIdentity)
    → nodup same_key members ≡ true
    → all (λ m. not (m.id == "")) members ≡ true
    → all (λ m. not (is_among unique m)) members ≡ true
    → has_invalid unique members ≡ false
unfolding has_invalid
has_invalid-valid unique [] dup named apart = refl
has_invalid-valid unique (m ∷ ms) dup named apart =
    let (alone, dup') = parts (any (same_key m) ms) (nodup same_key ms) dup in
    let (valid, named') = parts (m.id == "") (all (λ x. not (x.id == "")) ms) named in
    let (new, apart') = parts (is_among unique m) (all (λ x. not (is_among unique x)) ms) apart in
    rw (valid, new) (has_invalid-valid (m ∷ unique) ms dup' named' (both ms alone apart'))
  where
    parts : (a b : Bool) → not a && b ≡ true → (a ≡ false) × (b ≡ true)
    parts a b h = ground arith

    both :
        (xs : List MemberIdentity)
        → any (same_key m) xs ≡ false
        → all (λ x. not (is_among unique x)) xs ≡ true
        → all (λ x. not (same_key m x || is_among unique x)) xs ≡ true
    both [] e f = refl
    both (x ∷ xs) e f = ground (arith, both xs)

-- Members that are distinct and have identifiers.
abbrev pub are_members : List MemberIdentity → Bool
are_members members = nodup same_key members && all (λ m. not (m.id == "")) members

has_invalid_members-are_members :
    (members : List MemberIdentity) → has_invalid_members members ≡ not (are_members members)
unfolding has_invalid_members
has_invalid_members-are_members members = elim (Bool-cases (are_members members)) [
  | inl e ↦
      let (dup, named) = parts (nodup same_key members) (all (λ m. not (m.id == "")) members) e in
      rw e (has_invalid-valid [] members dup named (no_one members))
  | inr e ↦ elim (Bool-cases (has_invalid [] members)) [
    | inl f ↦ rw (e, f) refl
    | inr f ↦
        let (dup, named, _) = has_invalid-nodup [] members f in
        absurd (
          cc (e, together (nodup same_key members) (all (λ m. not (m.id == "")) members) dup named))
  ]
]
  where
    parts : (a b : Bool) → a && b ≡ true → (a ≡ true) × (b ≡ true)
    parts a b h = ground arith

    together : (a b : Bool) → a ≡ true → b ≡ true → a && b ≡ true
    together a b h e = ground arith

    no_one : (xs : List MemberIdentity) → all (λ m. not (is_among [] m)) xs ≡ true
    no_one [] = refl
    no_one (x ∷ xs) = no_one xs

-- No name, or one of 1 to 120 UTF-16 units between the white space around it.
abbrev pub is_name : Option (List ℕ) → Bool
is_name none = true
is_name (some name) = not (is_empty (trim name)) && leb (utf16_len (trim name)) 120

pub validate_name-is_name :
    (name : Option (List ℕ))
    → validate_name name ≡ (if is_name name then some (map_some trim name) else none)
unfolding validate_name
validate_name-is_name none = refl
validate_name-is_name (some name) = by_length (is_empty (trim name)) (utf16_len (trim name))
  where
    by_length :
        (e : Bool) (n : ℕ)
        → (if e || ltb 120 n then none else some (some (trim name)))
          ≡ (if not e && leb n 120 then some (some (trim name)) else none)
    by_length e n = ground arith

-- A test and an answer that are equal to others.
pub replace :
    {R : Type 0} (P : Bool → R → Type 0) {b b' : Bool} {r r' : R}
    → b ≡ b'
    → r ≡ r'
    → P b' r'
    → P b r
replace P {b' = b'} {r = r} e f t = subst (λ x. P x r) (sym e) (subst (P b') (sym f) t)

abbrev pub is_bad_request : Response → Bool
is_bad_request (bad_request code) = true
is_bad_request _ = false

-- The requests that `create` is to accept.
abbrev pub is_acceptable : List MemberIdentity → Option (List ℕ) → List MemberIdentity → Bool
is_acceptable eligible name members =
    is_name name && (are_members members && all (is_among eligible) members)

-- The workspace that an accepted request makes, with the trimmed name and the members asked for;
-- another is answered as a bad request, and changes nothing.
abbrev pub CreateOutcome :
    String → Option (List ℕ) → List MemberIdentity → Database → Bool → Database × Response → Type 0
CreateOutcome id name members db true r =
    (w : Workspace) × (r.1 ≡ created w) × Creates id (map_some trim name) members db r.0 w
CreateOutcome id name members db false r = (r.0 ≡ db) × (is_bad_request r.1 ≡ true)

any-all :
    (p : MemberIdentity → Bool) (xs : List MemberIdentity)
    → any (λ x. not (p x)) xs ≡ not (all p xs)
any-all p [] = refl
any-all p (x ∷ xs) = ground (arith, any-all p xs)

module _ (now : ℕ) (id : String) (eligible : List MemberIdentity) (name : Option (List ℕ))
    (members : List MemberIdentity) (db : Database) where
  abbrev Outcome : Bool → Database × Response → Type 0
  Outcome = CreateOutcome id name members db

  accepted_outcome :
      IsConsistent db
      → workspace_exists id db.workspaces ≡ false
      → are_members members ≡ true
      → Outcome true (create_checked now id (map_some trim name) members db)
  unfolding create_checked
  accepted_outcome c fresh valid =
      let (dup, named) =
        parts (nodup same_key members) (all (λ m. not (m.id == "")) members) valid in
      let (db', w, e, made) =
        create_workspace-Creates now id (map_some trim name) members db c fresh dup named in
      rw (e, create_checked) (w, refl, made)
    where
      parts : (a b : Bool) → a && b ≡ true → (a ≡ true) × (b ≡ true)
      parts a b h = ground arith

  -- For consistent tables and a fresh identifier, the handler that creates a workspace accepts a
  -- request exactly if there is no name or the trimmed one has 1 to 120 UTF-16 units, the members are
  -- distinct and named, and all are eligible. Then the workspace that is answered is stored, with the
  -- trimmed name and these members, as `Creates` tells. Else the answer is a bad request, and
  -- nothing changes. There is never an error of the database.
  pub create_answer :
      IsConsistent db
      → workspace_exists id db.workspaces ≡ false
      → CreateOutcome id name members db
          (is_acceptable eligible name members)
          (create now id eligible name members db)
  unfolding create
  create_answer c fresh = elim (Bool-cases (is_name name)) [
    | inl e ↦
        let valid : validate_name name ≡ some (map_some trim name) =
          validate_name-is_name name ∙ ap (λ b. if b then some (map_some trim name) else none) e in
        elim (Bool-cases (are_members members)) [
          | inl f ↦
              let invalid : has_invalid_members members ≡ false =
                has_invalid_members-are_members members ∙ ap not f in
              elim (Bool-cases (all (is_among eligible) members)) [
                | inl g ↦
                    let test : is_acceptable eligible name members ≡ true = rw (e, f, g) refl in
                    let answer : create now id eligible name members db
                        ≡ create_checked now id (map_some trim name) members db =
                      rw (valid, create)
                        (rw invalid (rw (any-all (is_among eligible) members) (rw g refl))) in
                    replace Outcome test answer (accepted_outcome c fresh f)
                | inr g ↦
                    let test : is_acceptable eligible name members ≡ false = rw (e, f, g) refl in
                    let answer : create now id eligible name members db
                        ≡ (db, bad_request session_not_eligible) =
                      rw (valid, create)
                        (rw invalid (rw (any-all (is_among eligible) members) (rw g refl))) in
                    replace Outcome test answer (refl, refl)
              ]
          | inr f ↦
              let test : is_acceptable eligible name members ≡ false = rw (e, f) refl in
              let invalid : has_invalid_members members ≡ true =
                has_invalid_members-are_members members ∙ ap not f in
              let answer : create now id eligible name members db
                  ≡ (db, bad_request invalid_workspace_members) =
                rw (valid, create) (rw invalid refl) in
              replace Outcome test answer (refl, refl)
        ]
    | inr e ↦
        let test : is_acceptable eligible name members ≡ false = rw e refl in
        let invalid : validate_name name ≡ none =
          validate_name-is_name name ∙ ap (λ b. if b then some (map_some trim name) else none) e in
        let answer : create now id eligible name members db
            ≡ (db, bad_request invalid_workspace_name) =
          rw (invalid, create) refl in
        replace Outcome test answer (refl, refl)
  ]
