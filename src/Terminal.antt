-- ===== src/Terminal.antt =====
-- The model of an agent's terminal, `TerminalState` of apps/server/src/session/model.rs: the
-- scanner that keeps the bytes of an unfinished escape sequence, and the modes that the vt100
-- library does not keep. The vt100 parser itself is a parameter.
mod Scan
mod Lossy
mod State
pub mod Resume
pub mod Feeds
pub mod Snapshot
mod Tests
pub use Scan.{
  SequenceState, ground, escape, csi, osc, osc_escape, string, string_escape, Scanner, fresh,
}
unfoldable pub use Scan.{scan_byte, scan}
pub use State.{Csi, TerminalModes, Vt100, TerminalState}
unfoldable pub use State.{new, process, resize, snapshot}
