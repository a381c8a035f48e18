-- ===== src/Session/Actions.antt =====
-- What may happen to a session, and the events that a client of
-- apps/server/src/agent/activity_socket.rs gets of it.
use devhatch.Session.Model.{
  Session, AgentActivity, AgentActivityEvent, AgentActivityStatus, AgentActivityPhase,
}
use devhatch.Session.Operations.{
  Outcome, update_runtime_identity, publish_agent_activity, mark_deleting, set_exited, rename,
  resize,
}
use devhatch.Prelude.{
  ℕ, ◌+◌, String, ◌≡◌, false, not, Option, List, [], ◌∷◌, ◌++◌, if◌then◌else◌, leb, keep, ◌==◌,
  nat_eq, string_eq, option_eq,
}

-- The operations of the session, with the clock's value. `finish_exit` is `exit` and then `delete`,
-- between which others may come.
pub data SessionOperation : Type 0 where
  identify : (id : String) (file cwd : Option String) (now : ℕ) → SessionOperation
  publish :
      AgentActivityStatus
      → AgentActivityPhase
      → (detail : Option String) (now : ℕ) → SessionOperation
  delete : (now : ℕ) → SessionOperation
  exit : (code : Option ℕ) (now : ℕ) → SessionOperation
  name : (name : String) (now : ℕ) → SessionOperation
  size : (cols rows now : ℕ) → SessionOperation

unfoldable pub operate : SessionOperation → Session → ℕ → Outcome
operate (identify id file cwd now) s n = update_runtime_identity id file cwd now s n
operate (publish status phase detail now) s n = publish_agent_activity status phase detail now s n
operate (delete now) s n = mark_deleting now s n
operate (exit code now) s n = set_exited code now s n
operate (name text now) s n = rename text now s n
operate (size cols rows now) s n = resize cols rows now s n

-- What may happen: an operation of the session, or an event of another one of the server, which takes
-- a number of the same counter.
pub data Action : Type 0 where
  own : SessionOperation → Action
  other : (id : String) (activity : Option AgentActivity) (updated_at : ℕ) → Action

unfoldable pub perform : Action → Session → ℕ → Outcome
unfolding operate
perform (own operation) s n = operate operation s n
perform (other id activity updated_at) s n = record {
  session = s;
  sequence = n + 1;
  agent_events =
      record { sequence = n + 1; session_id = id; activity = activity; updated_at = updated_at }
      ∷ [];
  events = [];
}

pub record Trace : Type 0 where
  pub session : Session
  pub sequence : ℕ
  pub sent : List AgentActivityEvent

-- The session, the counter, and all that was sent to the server's clients, oldest first.
unfoldable pub trace : List Action → Session → ℕ → Trace
unfolding perform
trace [] s n = record { session = s; sequence = n; sent = [] }
trace (a ∷ actions) s n =
    let o = perform a s n in
    let rest = trace actions o.session o.sequence in
    record rest { sent = o.agent_events ++ rest.sent }

-- What the socket forwards of the events that it receives, for a snapshot with that number.
unfoldable pub forwarded :
    (snapshot_sequence : ℕ) → List AgentActivityEvent → List AgentActivityEvent
forwarded snapshot_sequence events = keep (λ e. not (leb e.sequence snapshot_sequence)) events

-- What a client knows of a session: by the snapshot, and by the last event that names it.
unfoldable pub last_activity :
    String → Option AgentActivity → List AgentActivityEvent → Option AgentActivity
last_activity id known [] = known
last_activity id known (e ∷ events) =
    last_activity id (if e.session_id == id then e.activity else known) events

-- Other sessions have other names.
abbrev pub IsOther : String → Action → Type 0
IsOther id (other id' activity updated_at) = (id' == id) ≡ false
IsOther id (own operation) = Unit
