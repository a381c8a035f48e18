-- ===== src/Session/Tests.antt =====
-- Runs of the operations of a session.
use devhatch.Session.Model.{
  Session, agent, running, AgentActivity, AgentActivityStatus, AgentActivityPhase, is_live,
  same_status, same_phase,
}
use devhatch.Session.Operations.{
  publish_agent_activity, update_runtime_identity, mark_deleting, set_exited,
}
use devhatch.Session.Actions.{identify, publish, delete, exit, Action, own, other, Trace, trace}
use devhatch.Session.Deleted.{IsCleared, trace-IsCleared}
use devhatch.Prelude.{
  ◌≡◌, refl, false, none, some, List, [], ◌∷◌, ◌++◌, nat_eq, string_eq, option_eq,
}

abbrev spawned : Session
spawned = record {
  id = "s1";
  kind = agent;
  identity = record {
    upstream_session_id = none;
    pending_upstream_session_id = none;
    upstream_session_file = none;
    cwd = "/work";
  };
  state = record {
    name = "Codex";
    status = running;
    cols = 80;
    rows = 24;
    created_at = 100;
    updated_at = 100;
    exit_code = none;
    agent_activity = none;
  };
  deleting = false;
  process_id = 77;
  shell = "/bin/sh";
  agent_name = some "Codex";
  agent_id = some "codex";
}

abbrev first_actions : List Action
first_actions =
    own (identify "thread-1" none none 110)
    ∷ own (publish AgentActivityStatus.busy AgentActivityPhase.thinking none 120)
    ∷ []

abbrev later_actions : List Action
later_actions =
    other "s2" none 130
    ∷ own (publish AgentActivityStatus.idle AgentActivityPhase.idle none 50)
    ∷ own (publish AgentActivityStatus.idle AgentActivityPhase.idle none 140)
    ∷ []

abbrev snapshot_at : Trace
snapshot_at = trace first_actions spawned 6

abbrev now_at : Trace
now_at = trace later_actions snapshot_at.session snapshot_at.sequence

-- The clock went back, and the time of the session did not; the third activity is the second again.
abbrev idle_now : AgentActivity
idle_now = record {
  status = AgentActivityStatus.idle;
  phase = AgentActivityPhase.idle;
  detail = none;
  updated_at = 121;
}

later_events : now_at.session.state.agent_activity ≡ some idle_now
unfolding trace publish_agent_activity update_runtime_identity same_status same_phase mark_deleting
    set_exited is_live
later_events = refl

counted_events : (snapshot_at.sequence ≡ 8) × (now_at.sequence ≡ 10)
unfolding trace publish_agent_activity update_runtime_identity same_status same_phase mark_deleting
    set_exited is_live
counted_events = (refl, refl)

abbrev ended : List Action
ended =
    own (exit (some 0) 150)
    ∷ own (delete 151)
    ∷ own (publish AgentActivityStatus.busy AgentActivityPhase.tool none 152)
    ∷ []

ended_events : (trace ended now_at.session 10).session.state.agent_activity ≡ none
unfolding trace publish_agent_activity update_runtime_identity same_status same_phase mark_deleting
    set_exited is_live
ended_events = refl

trace-IsCleared_example : IsCleared (trace (first_actions ++ ended) spawned 6).session
trace-IsCleared_example =
    trace-IsCleared (first_actions ++ ended) spawned 6 (record { cleared = λ d. refl })
