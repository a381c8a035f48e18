-- ===== src/Session/Model.antt =====
-- The data of apps/server/src/session/model.rs. Paths are texts; the fields that are handles of
-- threads, processes and channels are left out, and so is the screen of the terminal, which no
-- operation here reads.
use devhatch.Prelude.{
  ℕ, String, Bool, true, false, not, ◌&&◌, Option, eqb, nat_eq, string_eq, option_eq, List,
}

pub data SessionKind : Type 0 where
  terminal agent : SessionKind

pub data SessionStatus : Type 0 where
  running exited : SessionStatus

pub data AgentActivityStatus : Type 0 where
  idle busy retry waiting error : AgentActivityStatus

pub data AgentActivityPhase : Type 0 where
  idle thinking tool permission question retry error : AgentActivityPhase

pub record AgentActivity : Type 0 where
  pub status : AgentActivityStatus
  pub phase : AgentActivityPhase
  pub detail : Option String
  pub updated_at : ℕ

pub record AgentActivityEvent : Type 0 where
  pub sequence : ℕ
  pub session_id : String
  pub activity : Option AgentActivity
  pub updated_at : ℕ

pub data SessionEvent : Type 0 where
  output : (text : List ℕ) → SessionEvent
  upstream_session_changed : (id cwd : String) → SessionEvent
  agent_activity : AgentActivity → SessionEvent
  exit removed : (code : Option ℕ) → SessionEvent
  terminate : SessionEvent

pub record SessionIdentity : Type 0 where
  pub upstream_session_id : Option String
  pub pending_upstream_session_id : Option String
  pub upstream_session_file : Option String
  pub cwd : String

pub record SessionState : Type 0 where
  pub name : String
  pub status : SessionStatus
  pub cols : ℕ
  pub rows : ℕ
  pub created_at : ℕ
  pub updated_at : ℕ
  pub exit_code : Option ℕ
  pub agent_activity : Option AgentActivity

pub record Session : Type 0 where
  pub id : String
  pub kind : SessionKind
  pub identity : SessionIdentity
  pub state : SessionState
  pub deleting : Bool
  pub process_id : ℕ
  pub shell : String
  pub agent_name : Option String
  pub agent_id : Option String

-- `PartialEq` of the two enumerations compares the places of the constructors.
abbrev status_place : AgentActivityStatus → ℕ
status_place idle = 0
status_place busy = 1
status_place retry = 2
status_place waiting = 3
status_place error = 4

abbrev phase_place : AgentActivityPhase → ℕ
phase_place idle = 0
phase_place thinking = 1
phase_place tool = 2
phase_place permission = 3
phase_place question = 4
phase_place retry = 5
phase_place error = 6

unfoldable pub same_status : AgentActivityStatus → AgentActivityStatus → Bool
same_status a b = eqb (status_place a) (status_place b)

unfoldable pub same_phase : AgentActivityPhase → AgentActivityPhase → Bool
same_phase a b = eqb (phase_place a) (phase_place b)

abbrev pub is_running : SessionStatus → Bool
is_running running = true
is_running exited = false

abbrev pub is_agent : SessionKind → Bool
is_agent terminal = false
is_agent agent = true

unfoldable pub is_live : Session → Bool
is_live s = not s.deleting && is_running s.state.status
