-- ===== src/Session.antt =====
-- Sessions, of apps/server/src/session: what an agent session does to its state, and which events it
-- sends.
mod Model
mod Operations
mod View
mod Effect
mod Actions
pub mod Broadcast
pub mod Deleted
pub mod Spawn
mod Tests
pub use Model.{
  Session, SessionKind, terminal, agent, SessionState, SessionStatus, SessionEvent, AgentActivity,
  AgentActivityEvent, is_agent, running,
}
pub use Operations.{Outcome}
unfoldable pub use Model.{is_live, same_status, same_phase}
unfoldable pub use Operations.{
  update_runtime_identity, publish_agent_activity, mark_deleting, finish_exit, rename, resize,
  agent_activity_event,
}
pub use View.{SessionView}
unfoldable pub use View.{view, kind_text, kind_of_text}
pub use Actions.{Action, own, other, publish, IsOther, Trace}
unfoldable pub use Actions.{trace, forwarded, last_activity}
pub use Model.{AgentActivityStatus, AgentActivityPhase}
