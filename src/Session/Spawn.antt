-- ===== src/Session/Spawn.antt =====
-- How a session begins, and what a client gets of it first, of apps/server/src/session.
use devhatch.Session.Model.{
  Session, SessionKind, SessionStatus, running, SessionEvent, exit, removed, terminate,
  upstream_session_changed, agent_activity, AgentActivity, is_live,
}
use devhatch.Session.View.{SessionView, view}
use devhatch.Session.Actions.{Action, trace}
use devhatch.Session.Deleted.{IsCleared, trace-IsCleared}
use devhatch.Prelude.{
  ℕ, String, ◌≡◌, refl, Bool, true, false, Option, none, some, List, nat_eq, string_eq, option_eq,
}

-- `SessionSpawn` without the command and what is done at the exit.
pub record SessionSpawn : Type 0 where
  pub shell : String
  pub kind : SessionKind
  pub upstream_session_id : Option String
  pub pending_upstream_session_id : Option String
  pub cwd : String
  pub name : String
  pub cols : ℕ
  pub rows : ℕ
  pub agent_id : Option String
  pub agent_name : Option String

-- The session that `spawn_inner` makes; its process has started.
unfoldable pub new_session : (id : String) (timestamp process_id : ℕ) → SessionSpawn → Session
new_session id timestamp process_id spawn = record {
  id = id;
  kind = spawn.kind;
  identity = record {
    upstream_session_id = spawn.upstream_session_id;
    pending_upstream_session_id = spawn.pending_upstream_session_id;
    upstream_session_file = none;
    cwd = spawn.cwd;
  };
  state = record {
    name = spawn.name;
    status = running;
    cols = spawn.cols;
    rows = spawn.rows;
    created_at = timestamp;
    updated_at = timestamp;
    exit_code = none;
    agent_activity = none;
  };
  deleting = false;
  process_id = process_id;
  shell = spawn.shell;
  agent_name = spawn.agent_name;
  agent_id = spawn.agent_id;
}

pub record SessionSnapshot : Type 0 where
  pub view : SessionView
  pub output : List ℕ
  pub activity : Option AgentActivity
  pub status : SessionStatus
  pub exit_code : Option ℕ

-- The snapshot of `snapshot_and_subscribe`, with the output or what the terminal makes of it.
unfoldable pub session_snapshot :
    (terminal : Option (List ℕ → List ℕ)) (output : List ℕ) → Session → SessionSnapshot
session_snapshot terminal output s = record {
  view = view s;
  output = elim terminal [ none ↦ output | some snapshot ↦ snapshot output ];
  activity = s.state.agent_activity;
  status = s.state.status;
  exit_code = s.state.exit_code;
}

-- `session_stopped`; `none` is a channel that is closed.
unfoldable pub session_stopped : Option SessionEvent → Bool
session_stopped none = true
session_stopped (some (SessionEvent.output text)) = false
session_stopped (some (exit code)) = true
session_stopped (some (removed code)) = true
session_stopped (some terminate) = true
session_stopped (some (upstream_session_changed id cwd)) = false
session_stopped (some (agent_activity activity)) = false

-- A new session is live, and after any operations, in any order, an agent that is being deleted
-- shows no activity in its snapshot.
pub new_session-IsCleared :
    (id : String) (timestamp process_id : ℕ) (spawn : SessionSpawn) (actions : List Action) (n : ℕ)
    → (is_live (new_session id timestamp process_id spawn) ≡ true)
      × IsCleared (trace actions (new_session id timestamp process_id spawn) n).session
unfolding new_session is_live
new_session-IsCleared id timestamp process_id spawn actions n = (
  refl,
  trace-IsCleared actions (new_session id timestamp process_id spawn) n
      (record { cleared = λ d. refl }),
)
