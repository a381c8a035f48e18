-- ===== src/Session/Operations.antt =====
-- The operations of `Session` in apps/server/src/session/model.rs and runtime.rs on its state. The
-- value of the clock and that of the shared event counter are arguments.
use devhatch.Session.Model.{
  Session, SessionEvent, upstream_session_changed, agent_activity, exit, AgentActivity,
  AgentActivityEvent, AgentActivityStatus, AgentActivityPhase, exited, same_status, same_phase,
  is_agent,
}
use devhatch.Prelude.{
  ℕ, ◌+◌, max, String, Bool, true, not, ◌&&◌, ◌||◌, Option, none, some, List, [], ◌∷◌, ◌++◌,
  if◌then◌else◌, is_some_and, ◌==◌, nat_eq, string_eq, option_eq, saturating_add,
}

-- What an operation leaves: the session, the counter, what it sent to all clients of the server, and
-- what it sent to those of the session.
pub record Outcome : Type 0 where
  pub session : Session
  pub sequence : ℕ
  pub agent_events : List AgentActivityEvent
  pub events : List SessionEvent

abbrev pub unchanged : Session → ℕ → Outcome
unchanged s sequence = record { session = s; sequence = sequence; agent_events = []; events = [] }

-- `now().max(updated_at.saturating_add(1))`
abbrev pub touch : (now updated_at : ℕ) → ℕ
touch now updated_at = max now (saturating_add updated_at 1)

abbrev pub id_changed : Session → String → Bool
id_changed s id = not (s.identity.upstream_session_id == some id)

abbrev pub identity_changed : Session → String → (file cwd : Option String) → Bool
identity_changed s id file cwd =
    id_changed s id
    || is_some_and cwd (λ c. not (s.identity.cwd == c))
    || not (s.identity.upstream_session_file == file)

abbrev pub get_or : Option String → String → String
get_or none fallback = fallback
get_or (some text) fallback = text

abbrev pub set_identity : Session → String → (file cwd : Option String) → (now : ℕ) → Session
set_identity s id file cwd now = record s {
  identity = record {
    upstream_session_id = some id;
    pending_upstream_session_id = none;
    upstream_session_file = file;
    cwd = get_or cwd s.identity.cwd;
  };
  state = record s.state {
    agent_activity = if id_changed s id then none else s.state.agent_activity;
    updated_at = touch now s.state.updated_at;
  };
}

unfoldable pub update_runtime_identity :
    String → (file cwd : Option String) → (now : ℕ) → Session → ℕ → Outcome
update_runtime_identity id file cwd now s sequence =
    if not (identity_changed s id file cwd) then unchanged s sequence else record {
      session = set_identity s id file cwd now;
      sequence = if id_changed s id then sequence + 1 else sequence;
      agent_events =
          if id_changed s id
          then record {
            sequence = sequence + 1;
            session_id = s.id;
            activity = none;
            updated_at = touch now s.state.updated_at;
          }
            ∷ []
          else [];
      events = upstream_session_changed id (get_or cwd s.identity.cwd) ∷ [];
    }

unfoldable pub same_activity : AgentActivity → AgentActivity → Bool
same_activity a b =
    same_status a.status b.status && same_phase a.phase b.phase && a.detail == b.detail

abbrev pub set_activity : Session → AgentActivity → Session
set_activity s activity = record s {
  state = record s.state { agent_activity = some activity; updated_at = activity.updated_at };
}

unfoldable pub publish_agent_activity :
    AgentActivityStatus → AgentActivityPhase → Option String → (now : ℕ) → Session → ℕ → Outcome
unfolding same_activity
publish_agent_activity status phase detail now s sequence =
    let activity : AgentActivity = record {
      status = status;
      phase = phase;
      detail = detail;
      updated_at = touch now s.state.updated_at;
    } in
    if s.deleting || is_some_and s.state.agent_activity (λ current. same_activity current activity)
    then unchanged s sequence
    else record {
      session = set_activity s activity;
      sequence = sequence + 1;
      agent_events =
          record {
            sequence = sequence + 1;
            session_id = s.id;
            activity = some activity;
            updated_at = activity.updated_at;
          }
          ∷ [];
      events = agent_activity activity ∷ [];
    }

abbrev pub set_deleted : Session → (now : ℕ) → Session
set_deleted s now = record s {
  deleting = true;
  state = record s.state { agent_activity = none; updated_at = touch now s.state.updated_at };
}

-- `mark_deleting`, and `mark_deleting_with_agent_event_lock`, which differ in the lock.
unfoldable pub mark_deleting : (now : ℕ) → Session → ℕ → Outcome
mark_deleting now s sequence =
    if s.deleting
    then unchanged s sequence
    else if is_agent s.kind
    then record {
      session = set_deleted s now;
      sequence = sequence + 1;
      agent_events =
          record {
            sequence = sequence + 1;
            session_id = s.id;
            activity = none;
            updated_at = touch now s.state.updated_at;
          }
          ∷ [];
      events = [];
    }
    else unchanged (record s { deleting = true }) sequence

-- The first half of `finish_exit`, before it takes the event lock.
unfoldable pub set_exited : Option ℕ → (now : ℕ) → Session → ℕ → Outcome
set_exited code now s sequence = record {
  session = record s {
    state = record s.state {
      status = exited;
      exit_code = code;
      updated_at = touch now s.state.updated_at;
    };
  };
  sequence = sequence;
  agent_events = [];
  events = exit code ∷ [];
}

-- One outcome after another.
abbrev pub and_then : Outcome → (Session → ℕ → Outcome) → Outcome
and_then o next =
    let after = next o.session o.sequence in
    record after {
      agent_events = o.agent_events ++ after.agent_events;
      events = o.events ++ after.events;
    }

unfoldable pub finish_exit : Option ℕ → (now later : ℕ) → Session → ℕ → Outcome
finish_exit code now later s sequence =
    and_then (set_exited code now s sequence) (mark_deleting later)

unfoldable pub rename : String → (now : ℕ) → Session → ℕ → Outcome
rename name now s sequence =
    unchanged
      (record s {
        state = record s.state { name = name; updated_at = touch now s.state.updated_at };
      })
      sequence

-- What `resize` does to the state.
unfoldable pub resize : (cols rows : ℕ) → (now : ℕ) → Session → ℕ → Outcome
resize cols rows now s sequence =
    unchanged
      (record s {
        state = record s.state {
          cols = cols;
          rows = rows;
          updated_at = touch now s.state.updated_at;
        };
      })
      sequence

-- The entry of a session in a snapshot.
unfoldable pub agent_activity_event : Session → ℕ → AgentActivityEvent
agent_activity_event s sequence = record {
  sequence = sequence;
  session_id = s.id;
  activity = s.state.agent_activity;
  updated_at = elim s.state.agent_activity [
    | none ↦ s.state.updated_at
    | some activity ↦ activity.updated_at
  ];
}
