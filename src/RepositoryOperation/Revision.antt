-- ===== src/RepositoryOperation/Revision.antt =====
-- What a client that polls the snapshot can tell from the revision and the progress.
use mathlib.Core.Option.{some-injective}
use devhatch.Prelude.{
  Bool-cases, List, Option, String, any, ap, arith, false, inl, inr, is_some_and, nat_eq, none,
  option_beq_iff, option_eq, refl, saturating_add, some, string_eq, subst, sym, true, ℕ, ◌==◌, ◌≡◌,
  ◌≢◌, ◌≤◌, ◌⊎◌,
}
use devhatch.RepositoryOperation.Defs.{
  OperationKind, Operation, Deletion, State, Progress, Call, starts, deletes, reports, finishes,
  undeletes, begin, begin_deletion, report, finish, finish_deletion, step, update, changes, blocks,
  blocks_deletion, or_same,
}

-- The revision moves on by one, up to the largest `u64`, exactly where the operation changes.
abbrev pub Counts : State → State → Type 0
Counts s t =
    (t.operation ≡ s.operation) × (t.revision ≡ s.revision)
    ⊎ (t.operation ≢ s.operation) × (t.revision ≡ saturating_add s.revision 1)

changes-false : (o : Operation) (u : Progress) → changes o u ≡ false → update o u ≡ o
unfolding changes update
changes-false o u h = ground (
  arith,
  string_eq.same_iff o.stage u.stage,
  option_beq_iff o.downloaded_bytes u.downloaded_bytes,
  option_beq_iff o.total_bytes u.total_bytes,
)

changes-true : (o : Operation) (u : Progress) → changes o u ≡ true → update o u ≢ o
unfolding changes update
changes-true o u h e = ground (
  arith,
  ap (λ (p : Operation). p.stage) e,
  ap (λ (p : Operation). p.progress) e,
  ap (λ (p : Operation). p.downloaded_bytes) e,
  ap (λ (p : Operation). p.total_bytes) e,
  string_eq.same_iff o.stage u.stage,
  option_beq_iff o.downloaded_bytes u.downloaded_bytes,
  option_beq_iff o.total_bytes u.total_bytes,
)

abbrev state : Option Operation → ℕ → List Deletion → State
state operation revision deletions = record {
  operation = operation;
  revision = revision;
  deletions = deletions;
}

begin-Counts :
    (o : Option Operation) (revision : ℕ) (deletions : List Deletion) (kind : OperationKind)
    (repository_id : Option String) (id : String)
    → let s = state o revision deletions in Counts s (or_same s (begin kind repository_id id s))
unfolding begin
begin-Counts (some o) revision deletions kind repository_id id = inl (refl, refl)
begin-Counts none revision deletions kind repository_id id =
    elim (Bool-cases (any (blocks kind repository_id) deletions)) [
      | inl e ↦ rw e (inl (refl, refl))
      | inr e ↦ rw e (inr (λ h. cc, refl))
    ]

begin_deletion-Counts :
    (s : State) (repository_id : Option String) (id : String)
    → Counts s (or_same s (begin_deletion repository_id id s))
unfolding begin_deletion
begin_deletion-Counts s repository_id id =
    elim (Bool-cases (is_some_and s.operation (blocks_deletion repository_id))) [
      | inl e ↦ rw e (inl (refl, refl))
      | inr e ↦ rw e (inl (refl, refl))
    ]

report-Counts :
    (o : Option Operation) (revision : ℕ) (deletions : List Deletion) (id : String) (u : Progress)
    → let s = state o revision deletions in Counts s (report id u s)
unfolding report
report-Counts none revision deletions id u = inl (refl, refl)
report-Counts (some o) revision deletions id u = elim (Bool-cases (o.id == id)) [
  | inl e ↦ elim (Bool-cases (changes o u)) [
    | inl c ↦ rw (e, c) (inr (λ h. changes-true o u c (some-injective _ _ h), refl))
    | inr c ↦ rw (e, c) (inl (ap some (changes-false o u c), refl))
  ]
  | inr e ↦ rw e (inl (refl, refl))
]

finish-Counts :
    (o : Option Operation) (revision : ℕ) (deletions : List Deletion) (id : String)
    → let s = state o revision deletions in Counts s (finish id s)
unfolding finish
finish-Counts none revision deletions id = inl (refl, refl)
finish-Counts (some o) revision deletions id = elim (Bool-cases (o.id == id)) [
  | inl e ↦ rw e (inr (λ h. cc, refl))
  | inr e ↦ rw e (inl (refl, refl))
]

-- On every call, refused or not, the revision stays where the operation that a snapshot shows
-- stays, and goes up by one, to the largest `u64` at most, where it changes.
pub step-Counts : (s : State) (c : Call) → Counts s (step s c)
unfolding step finish_deletion
step-Counts s (starts kind repository_id id) =
    begin-Counts s.operation s.revision s.deletions kind repository_id id
step-Counts s (deletes repository_id id) = begin_deletion-Counts s repository_id id
step-Counts s (reports id u) = report-Counts s.operation s.revision s.deletions id u
step-Counts s (finishes id) = finish-Counts s.operation s.revision s.deletions id
step-Counts s (undeletes id) = inl (refl, refl)

-- The operation after a call, where `o` ran before it.
abbrev pub Continues : Operation → Call → Option Operation → Type 0
Continues o c none = c ≡ finishes o.id
Continues o c (some o') =
    (o'.id ≡ o.id)
    × (o'.kind ≡ o.kind)
    × (o'.repository_id ≡ o.repository_id)
    × (o.progress ≤ o'.progress)

Continues-report :
    (o : Operation) (revision : ℕ) (deletions : List Deletion) (id : String) (u : Progress)
    → Continues o (reports id u) (report id u (state (some o) revision deletions)).operation
unfolding report
Continues-report o revision deletions id u = elim (Bool-cases (o.id == id)) [
  | inl e ↦ rw e (refl, refl, refl, omega arith)
  | inr e ↦ rw e (refl, refl, refl, omega arith)
]

Continues-finish :
    (o : Operation) (revision : ℕ) (deletions : List Deletion) (id : String)
    → Continues o (finishes id) (finish id (state (some o) revision deletions)).operation
unfolding finish
Continues-finish o revision deletions id = elim (Bool-cases (o.id == id)) [
  | inl e ↦ rw e (ap finishes (sym ((string_eq.same_iff o.id id).0 e)))
  | inr e ↦ rw e (refl, refl, refl, omega arith)
]

Continues-begin_deletion :
    (o : Operation) (revision : ℕ) (deletions : List Deletion) (repository_id : Option String)
    (id : String)
    → let s = state (some o) revision deletions in
      Continues o
        (deletes repository_id id)
        (or_same s (begin_deletion repository_id id s)).operation
unfolding begin_deletion
Continues-begin_deletion o revision deletions repository_id id =
    elim (Bool-cases (blocks_deletion repository_id o)) [
      | inl e ↦ rw e (refl, refl, refl, omega arith)
      | inr e ↦ rw e (refl, refl, refl, omega arith)
    ]

Continues-step :
    (o : Operation) (revision : ℕ) (deletions : List Deletion) (c : Call)
    → Continues o c (step (state (some o) revision deletions) c).operation
unfolding step begin finish_deletion
Continues-step o revision deletions (starts kind repository_id id) = (refl, refl, refl, omega arith)
Continues-step o revision deletions (deletes repository_id id) =
    Continues-begin_deletion o revision deletions repository_id id
Continues-step o revision deletions (reports id u) = Continues-report o revision deletions id u
Continues-step o revision deletions (finishes id) = Continues-finish o revision deletions id
Continues-step o revision deletions (undeletes id) = (refl, refl, refl, omega arith)

-- A running operation ends only when its own guard is dropped; every other call leaves it, with
-- its kind and repository, and with a progress that is no lower.
pub step-Continues :
    (s : State) (o : Operation) (c : Call)
    → s.operation ≡ some o
    → Continues o c (step s c).operation
step-Continues s o c e =
    subst (λ p. Continues o c (step (state p s.revision s.deletions) c).operation) (sym e)
      (Continues-step o s.revision s.deletions c)
