-- ===== src/Activity.antt =====
-- apps/server/src/agent/runtime/activity.rs: the messages by which an agent reports its activity,
-- what the server accepts of them, and what a hook sends.
mod Message
mod Hook
mod Clean
pub mod Replay
mod Sendable
pub mod Delivery
mod Tests
pub use Message.{
  Report, activity, identity, runtime_ready, history_ready, ReportStatus, ReportPhase, Envelope,
  Descriptor, Sequences,
}
unfoldable pub use Message.{valid_report, validate_envelope}
pub use Hook.{Json}
unfoldable pub use Hook.{reports_for_hook}
