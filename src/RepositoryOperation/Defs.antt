-- ===== src/RepositoryOperation/Defs.antt =====
-- The state behind the lock, and the functions that hold the lock.
use devhatch.Prelude.{
  ℕ, String, Bool, true, false, not, ◌||◌, List, [], ◌∷◌, ◌++◌, Option, none, some, if◌then◌else◌,
  is_some, is_none, is_some_and, any, keep, max, saturating_add, ◌==◌, string_eq, option_eq, nat_eq,
}

pub data OperationKind : Type 0 where
  add preview sync : OperationKind

abbrev pub is_add : OperationKind → Bool
is_add add = true
is_add _ = false

pub record Operation : Type 0 where
  pub id : String
  pub kind : OperationKind
  pub repository_id : Option String
  pub stage : String
  pub progress : ℕ
  pub downloaded_bytes : Option ℕ
  pub total_bytes : Option ℕ

pub record Deletion : Type 0 where
  pub id : String
  pub repository_id : Option String

pub record State : Type 0 where
  pub operation : Option Operation
  pub revision : ℕ
  pub deletions : List Deletion

abbrev pub initial : State
initial = record { operation = none; revision = 0; deletions = [] }

-- `RepositoryProgress` of the skillink crate.
pub record Progress : Type 0 where
  pub stage : String
  pub progress : ℕ
  pub downloaded_bytes : Option ℕ
  pub total_bytes : Option ℕ

abbrev pub blocks : OperationKind → Option String → Deletion → Bool
blocks kind repository_id deletion = is_add kind || deletion.repository_id == repository_id

-- `none` where the operation is refused; the guard that the program returns is the identifier.
unfoldable pub begin : OperationKind → Option String → String → State → Option State
begin kind repository_id id s =
    if is_some s.operation || any (blocks kind repository_id) s.deletions
    then none
    else some (record {
      operation = some (record {
        id = id;
        kind = kind;
        repository_id = repository_id;
        stage = "queued";
        progress = 0;
        downloaded_bytes = none;
        total_bytes = none;
      });
      revision = saturating_add s.revision 1;
      deletions = s.deletions;
    })

abbrev pub blocks_deletion : Option String → Operation → Bool
blocks_deletion repository_id operation =
    is_none operation.repository_id
    || is_none repository_id
    || operation.repository_id == repository_id

unfoldable pub begin_deletion : Option String → String → State → Option State
begin_deletion repository_id id s =
    if is_some_and s.operation (blocks_deletion repository_id)
    then none
    else some (record s {
      deletions = s.deletions ++ record { id = id; repository_id = repository_id } ∷ [];
    })

unfoldable pub update : Operation → Progress → Operation
update active u = record active {
  stage = u.stage;
  progress = max active.progress u.progress;
  downloaded_bytes = u.downloaded_bytes;
  total_bytes = u.total_bytes;
}

unfoldable pub changes : Operation → Progress → Bool
changes active u =
    not (active.stage == u.stage)
    || not (active.progress == max active.progress u.progress)
    || not (active.downloaded_bytes == u.downloaded_bytes)
    || not (active.total_bytes == u.total_bytes)

report_active : Operation → Progress → State → State
unfolding update changes
report_active active u s = record s {
  operation = some (update active u);
  revision = if changes active u then saturating_add s.revision 1 else s.revision;
}

-- The closure that `reporter` returns, for the guard with the identifier `id`.
unfoldable pub report : String → Progress → State → State
unfolding report_active
report id u s = elim s.operation [
  | none ↦ s
  | some active ↦ if active.id == id then report_active active u s else s
]

-- `drop` of an operation's guard.
unfoldable pub finish : String → State → State
finish id s =
    if is_some_and s.operation (λ operation. operation.id == id)
    then record s { operation = none; revision = saturating_add s.revision 1 }
    else s

-- `drop` of a deletion's guard.
unfoldable pub finish_deletion : String → State → State
finish_deletion id s = record s {
  deletions = keep (λ deletion. not (deletion.id == id)) s.deletions;
}

-- What the handlers do to the state, in any order.
pub data Call : Type 0 where
  starts : OperationKind → (repository_id : Option String) → (id : String) → Call
  deletes : (repository_id : Option String) → (id : String) → Call
  reports : (id : String) → Progress → Call
  finishes undeletes : (id : String) → Call

-- A refused call changes nothing.
abbrev pub or_same : State → Option State → State
or_same s none = s
or_same s (some s') = s'

unfoldable pub step : State → Call → State
unfolding begin begin_deletion report finish finish_deletion
step s (starts kind repository_id id) = or_same s (begin kind repository_id id s)
step s (deletes repository_id id) = or_same s (begin_deletion repository_id id s)
step s (reports id u) = report id u s
step s (finishes id) = finish id s
step s (undeletes id) = finish_deletion id s

unfoldable pub run : State → List Call → State
run s [] = s
run s (c ∷ cs) = run (step s c) cs
