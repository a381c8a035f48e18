-- ===== src/Session/View.antt =====
-- What clients are shown of a session, of apps/server/src/session/model.rs.
use devhatch.Session.Model.{Session, SessionKind, terminal, agent, SessionStatus}
use devhatch.Prelude.{
  ℕ, String, ◌≡◌, refl, Option, none, some, if◌then◌else◌, ◌==◌, nat_eq, string_eq, option_eq,
}

pub record SessionView : Type 0 where
  pub id : String
  pub name : String
  pub cwd : String
  pub shell : String
  pub status : SessionStatus
  pub cols : ℕ
  pub rows : ℕ
  pub created_at : ℕ
  pub updated_at : ℕ
  pub exit_code : Option ℕ
  pub agent_id : Option String
  pub agent_name : Option String
  pub upstream_session_id : Option String
  pub kind : String

-- `SessionKind::as_str`
unfoldable pub kind_text : SessionKind → String
kind_text terminal = "terminal"
kind_text agent = "agent"

-- `SessionKind::from_str`
unfoldable pub kind_of_text : String → Option SessionKind
kind_of_text value =
    if value == "terminal" then some terminal else if value == "agent" then some agent else none

unfoldable pub view : Session → SessionView
unfolding kind_text
view s = record {
  id = s.id;
  name = s.state.name;
  cwd = s.identity.cwd;
  shell = s.shell;
  status = s.state.status;
  cols = s.state.cols;
  rows = s.state.rows;
  created_at = s.state.created_at;
  updated_at = s.state.updated_at;
  exit_code = s.state.exit_code;
  agent_id = s.agent_id;
  agent_name = s.agent_name;
  upstream_session_id = s.identity.upstream_session_id;
  kind = kind_text s.kind;
}

kind_of_text-kind_text : (k : SessionKind) → kind_of_text (kind_text k) ≡ some k
unfolding kind_of_text kind_text
kind_of_text-kind_text terminal = refl
kind_of_text-kind_text agent = refl
