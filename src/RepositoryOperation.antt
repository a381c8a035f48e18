-- ===== src/RepositoryOperation.antt =====
-- apps/server/src/state/skill_repository_operation.rs: which skill repository operation runs, its
-- progress, and the deletions that run beside it. The identifiers, which the program makes at
-- random, are arguments.
mod Defs
pub mod Exclusion
pub mod Revision
mod Tests
pub use Defs.{
  OperationKind, add, preview, sync, Operation, Deletion, State, Progress, Call, starts, deletes,
  reports, finishes, undeletes,
}
unfoldable pub use Defs.{initial, begin, begin_deletion, report, finish, finish_deletion, step, run}
