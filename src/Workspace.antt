-- ===== src/Workspace.antt =====
-- Workspaces, of apps/server/src/workspace.rs: groups of sessions, kept in two tables of the database.
mod Tables
mod Operations
mod Members
mod Handlers
mod Invariant
mod Active
mod Sweep
mod Singletons
pub mod Reconciled
mod Taken
mod Filled
mod Made
pub mod Created
pub mod Deleted
pub mod Updated
mod Found
pub mod Fallback
pub mod Removed
pub mod Position
pub mod Attached
pub mod Answers
pub mod UpdateAnswers
mod Tests
pub use Tables.{Database, WorkspaceRow, MemberRow, MemberIdentity}
