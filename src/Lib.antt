-- ===== src/Lib.antt =====
-- DevHatch: a server that runs terminals and coding agents for its users, and shows them in a browser.
--
-- A session (apps/server/src/session) is a child process behind a pseudo terminal. Its reader
-- publishes the output to the clients of the session, keeps the end of it, and feeds the screen of the
-- terminal, so that a client that comes later gets a snapshot. A session of an agent also has an
-- activity, which the agent reports over a socket (apps/server/src/agent/runtime/activity.rs) and the
-- server broadcasts to all clients (apps/server/src/agent/activity_socket.rs). The registry
-- (apps/server/src/state/sessions.rs) has all sessions. Changes to repositories of skills exclude each
-- other (apps/server/src/state/skill_repository_operation.rs). Sessions are grouped in workspaces
-- (apps/server/src/workspace.rs), two tables of the database that are reconciled with the registry.
-- The administrator logs in with a password, logins are limited, and each request is checked
-- (apps/server/src/auth.rs). Skills are kept by a library of their own (crates/skillink).
--
-- Files:
--   Prelude         library names, Boolean tests, lists and equality over the native numbers, texts,
--                   u64, and the exclusive or of bytes
--   Terminal        TerminalState of session/model.rs: Scan is process_sequence_byte, one function for
--                   each state; State is process, resize, snapshot and TerminalModes; Lossy is
--                   String::from_utf8_lossy of the standard library; Resume, Feeds and Snapshot
--                   have the proofs. The vt100 parser is a parameter, an interface of the
--                   calls that the code makes.
--   Output          trim_output and what publish_output keeps, of session/runtime.rs. A Rust String is
--                   the list of its bytes; Utf8 has what a boundary is.
--   Session         the state of a Session and its operations, of session/model.rs and
--                   session/runtime.rs: each takes the clock's value and the shared counter of events,
--                   and gives an Outcome with what it sent. Actions has sequences of them, between
--                   which other sessions send events too, and the filter of activity_socket.rs. The
--                   agent event lock makes each of them one step.
--   Registry        SessionRegistry of state/sessions.rs. A shared session is a handle into a store, so
--                   that two handles may have the same key; an IndexMap is the list of its entries.
--                   Snapshot has what a client of activity_socket.rs knows of an agent.
--   Activity        activity.rs: Message is validate_envelope and valid_report, Hook is run_hook and
--                   reports_for_hook. serde_json is a parameter.
--   AgentKinds      agent/kind.rs.
--   RepositoryOperation   the coordinator of state/skill_repository_operation.rs and its guards, whose
--                   drop is an operation of its own.
--   Auth            auth.rs: RateLimit is reserve_login_at and clear_failures, Sessions the tables of
--                   migrations/0001_auth.sql with setup, login, revocation and require_auth, and
--                   Cookie the header. The statements of several requests may alternate: Revocation
--                   and Kept are
--                   about every sequence of them. SHA-256 and Argon2 are parameters.
--   Workspace       workspace.rs: Tables has the two tables of migrations/0004_workspaces.sql and the
--                   statements, Operations and Members the transactions, Handlers what the requests
--                   are tested for. A transaction takes the tables and gives new ones, or none when a constraint
--                   fails; its clock and its identifiers are arguments. The lock workspace_lifecycle
--                   makes a handler one step. The HashSet of the eligible sessions is a list.
--   Skillink        of crates/skillink/src: validate_slug of validation.rs, on bytes, with its proofs in
--                   Scan and Grammar; Plan is repository/plan.rs, with OrderedMap for a BTreeMap.
--   ConstantTime    constant_time_eq of auth.rs and of activity.rs.
--
-- Mutexes are not modelled: an operation that holds its lock throughout is a step, and an operation
-- that takes locks in turn is a step for each where the order of others matters (finish_exit). A
-- channel's capacity is not modelled: a receiver that lags is closed by the socket, and gets a new
-- snapshot. A loop is recursion on its list, or, in trim_output, on the number of bytes, which
-- is enough since the end of the text is a boundary. Clocks and fresh identifiers are arguments.
-- u64 addition saturates as in the source; a counter of events, the position of a member and a time in
-- the database are natural numbers, since 2^63 is not reached.
--
-- Not modelled: the leases of connections, the settings table, the launch paths, the history of
-- agents, their launching, the supervisor, the web app manager and the rest of the Skillink library
-- (crates/skillink); the child processes, sockets, files and the database, which are input and output; and the client in
-- apps/web.
mod Prelude
pub mod Terminal
pub mod Output
pub mod RepositoryOperation
pub mod ConstantTime
mod ConstantTimeTests
pub mod Auth
pub mod Activity
pub mod Session
pub mod Registry
pub mod AgentKinds
pub mod Workspace
pub mod Skillink
