-- ===== src/Output.antt =====
-- The output that a session keeps, of apps/server/src/session/runtime.rs: texts are kept as their
-- UTF-8 bytes, and `trim_output` drops the oldest at a character boundary.
mod Utf8
mod Trim
pub mod Boundary
pub mod Retained
mod Tests
pub use Utf8.{encode, encode_all}
unfoldable pub use Trim.{trim_output, publish}
