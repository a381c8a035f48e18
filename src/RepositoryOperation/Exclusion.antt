-- ===== src/RepositoryOperation/Exclusion.antt =====
-- Which deletions may run beside an operation.
use devhatch.Prelude.{
  option_beq_iff, ◌≡◌, List, Option, All, String, none, any, ◌≢◌, some, false, [], ◌∷◌, arith, refl,
  string_eq, inl, inr, ℕ, Bool-cases, All-keep, ◌==◌, not, All-append, sym,
}
use devhatch.RepositoryOperation.Defs.{
  OperationKind, add, Operation, Deletion, State, initial, Progress, Call, starts, deletes, reports,
  finishes, undeletes, begin, begin_deletion, report, finish, finish_deletion, step, run, blocks,
  or_same, blocks_deletion,
}

-- No deletion is of the operation's repository, and an operation that adds a repository is alone.
abbrev pub IsExclusiveFor : List Deletion → Operation → Type 0
IsExclusiveFor deletions o =
    All (λ d. d.repository_id ≢ o.repository_id) deletions
    × (o.kind ≡ add → (o.repository_id ≡ none) × (deletions ≡ []))

abbrev pub IsExclusiveAt : Option Operation → List Deletion → Type 0
IsExclusiveAt none deletions = Unit
IsExclusiveAt (some o) deletions = IsExclusiveFor deletions o

abbrev pub IsExclusive : State → Type 0
IsExclusive s = IsExclusiveAt s.operation s.deletions

-- The handlers start an `add` without a repository.
abbrev pub IsRequest : Call → Type 0
IsRequest (starts kind repository_id id) = kind ≡ add → repository_id ≡ none
IsRequest _ = Unit

not_blocked :
    (repository_id : Option String) (o : Operation)
    → blocks_deletion repository_id o ≡ false
    → (o.repository_id ≢ none) × (o.repository_id ≢ repository_id)
not_blocked repository_id o h = ground (arith, option_beq_iff o.repository_id repository_id)

none_blocks :
    (kind : OperationKind) (repository_id : Option String) (deletions : List Deletion)
    → any (blocks kind repository_id) deletions ≡ false
    → All (λ d. d.repository_id ≢ repository_id) deletions × (kind ≡ add → deletions ≡ [])
none_blocks kind repository_id [] h = (tt, λ _. refl)
none_blocks kind repository_id (d ∷ ds) h =
    ground (arith, none_blocks kind repository_id ds, option_beq_iff d.repository_id repository_id)

-- The state, taken apart for the proofs by cases on the operation.
abbrev state : Option Operation → ℕ → List Deletion → State
state operation revision deletions = record {
  operation = operation;
  revision = revision;
  deletions = deletions;
}

begin-IsExclusive :
    (o : Option Operation) (revision : ℕ) (deletions : List Deletion) (kind : OperationKind)
    (repository_id : Option String) (id : String)
    → (kind ≡ add → repository_id ≡ none)
    → IsExclusiveAt o deletions
    → IsExclusive (
        or_same
          (state o revision deletions)
          (begin kind repository_id id (state o revision deletions)))
unfolding begin
begin-IsExclusive (some o) revision deletions kind repository_id id lone h = h
begin-IsExclusive none revision deletions kind repository_id id lone h =
    elim (Bool-cases (any (blocks kind repository_id) deletions)) [
      | inl e ↦ rw e tt
      | inr e ↦
          let (apart, empty) = none_blocks kind repository_id deletions e in
          rw e (apart, λ a. (lone a, empty a))
    ]

begin_deletion-IsExclusive :
    (o : Option Operation) (revision : ℕ) (deletions : List Deletion)
    (repository_id : Option String) (id : String)
    → IsExclusiveAt o deletions
    → IsExclusive (
        or_same
          (state o revision deletions)
          (begin_deletion repository_id id (state o revision deletions)))
unfolding begin_deletion
begin_deletion-IsExclusive none revision deletions repository_id id h = tt
begin_deletion-IsExclusive (some o) revision deletions repository_id id h =
    elim (Bool-cases (blocks_deletion repository_id o)) [
      | inl e ↦ rw e h
      | inr e ↦
          let (known, other) = not_blocked repository_id o e in
          rw e (
            All-append (λ d. d.repository_id ≢ o.repository_id) deletions _ h.0
                (λ same. other (sym same), tt),
            λ a. absurd (known (h.1 a).0),
          )
    ]

report-IsExclusive :
    (o : Option Operation) (revision : ℕ) (deletions : List Deletion) (id : String) (u : Progress)
    → IsExclusiveAt o deletions
    → IsExclusive (report id u (state o revision deletions))
unfolding report
report-IsExclusive none revision deletions id u h = tt
report-IsExclusive (some o) revision deletions id u h = elim (Bool-cases (o.id == id)) [
  | inl e ↦ rw e h
  | inr e ↦ rw e h
]

finish-IsExclusive :
    (o : Option Operation) (revision : ℕ) (deletions : List Deletion) (id : String)
    → IsExclusiveAt o deletions
    → IsExclusive (finish id (state o revision deletions))
unfolding finish
finish-IsExclusive none revision deletions id h = tt
finish-IsExclusive (some o) revision deletions id h = elim (Bool-cases (o.id == id)) [
  | inl e ↦ rw e tt
  | inr e ↦ rw e h
]

finish_deletion-IsExclusive :
    (o : Option Operation) (revision : ℕ) (deletions : List Deletion) (id : String)
    → IsExclusiveAt o deletions
    → IsExclusive (finish_deletion id (state o revision deletions))
unfolding finish_deletion
finish_deletion-IsExclusive none revision deletions id h = tt
finish_deletion-IsExclusive (some o) revision deletions id h = (
  All-keep (λ d. d.repository_id ≢ o.repository_id) (λ d. not (d.id == id)) deletions h.0,
  λ a. ((h.1 a).0, rw (h.1 a).1 refl),
)

step-IsExclusive : (s : State) (c : Call) → IsRequest c → IsExclusive s → IsExclusive (step s c)
unfolding step
step-IsExclusive s (starts kind repository_id id) r h =
    begin-IsExclusive s.operation s.revision s.deletions kind repository_id id r h
step-IsExclusive s (deletes repository_id id) r h =
    begin_deletion-IsExclusive s.operation s.revision s.deletions repository_id id h
step-IsExclusive s (reports id u) r h = report-IsExclusive s.operation s.revision s.deletions id u h
step-IsExclusive s (finishes id) r h = finish-IsExclusive s.operation s.revision s.deletions id h
step-IsExclusive s (undeletes id) r h =
    finish_deletion-IsExclusive s.operation s.revision s.deletions id h

run-IsExclusive :
    (s : State) (calls : List Call)
    → All IsRequest calls
    → IsExclusive s
    → IsExclusive (run s calls)
unfolding run
run-IsExclusive s [] r h = h
run-IsExclusive s (c ∷ cs) r h = run-IsExclusive (step s c) cs r.1 (step-IsExclusive s c r.0 h)

-- Whatever requests arrive, reports are made and guards are dropped, in any order, where every
-- request to add names no repository: no deletion of the repository of the running operation runs
-- beside it, and no deletion at all beside an operation that adds a repository.
pub run-initial-IsExclusive :
    (calls : List Call) → All IsRequest calls → IsExclusive (run initial calls)
run-initial-IsExclusive calls r = run-IsExclusive initial calls r tt
