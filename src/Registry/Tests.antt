-- ===== src/Registry/Tests.antt =====
-- Runs of the registry.
use devhatch.Session.{
  Session, SessionKind, terminal, agent, is_live, agent_activity_event, running, mark_deleting,
  Action, own, other, publish, Trace, trace, forwarded, last_activity, AgentActivityStatus,
  AgentActivityPhase, publish_agent_activity, same_status, same_phase,
}
use devhatch.Registry.Snapshot.{agent_activity_snapshot-trace}
use devhatch.Prelude.{
  ◌++◌, ℕ, zero, suc, String, ◌≡◌, refl, false, none, some, List, [], ◌∷◌, nat_eq, string_eq,
  option_eq, any, ◌==◌, true, eqb,
}
use devhatch.Registry.IndexMap.{get, put, shift_remove, same_key}
use devhatch.Registry.{
  key_of, default, insert, find_session, remove, remove_if_same, begin_shutdown,
  agent_activity_snapshot, retire_agent, RegistryState, retire, remove_same,
}
use devhatch.Registry.Queries.{
  active_ids-remove, active_upstream_session_ids_for, owned_process_ids, is_agent_of, all_sessions,
  collect,
}
use devhatch.Registry.Views.{
  live_ids_if_contains-LiveIds, LiveIds, live_ids_if_contains, live_ids_found,
}
use devhatch.Registry.Refinement.{
  Change, added, removed, dropped, closed, change, change_all, directory_after, Implements,
  empty_directory, change_all-default-Implements,
}

abbrev blank : SessionKind → String → Session
blank kind id = record {
  id = id;
  kind = kind;
  identity = record {
    upstream_session_id = none;
    pending_upstream_session_id = none;
    upstream_session_file = none;
    cwd = "/";
  };
  state = record {
    name = id;
    status = running;
    cols = 80;
    rows = 24;
    created_at = 1;
    updated_at = 1;
    exit_code = none;
    agent_activity = none;
  };
  deleting = false;
  process_id = 77;
  shell = "/bin/sh";
  agent_name = some "Codex";
  agent_id = some "codex";
}

-- Handles 0 and 1 are an agent and a terminal with the same identifier; 2 is an agent with that of 0.
abbrev store_test : ℕ → Session
store_test zero = blank agent "shared"
store_test (suc zero) = blank terminal "shared"
store_test (suc (suc n)) = blank agent "shared"

abbrev changes_test : List Change
changes_test =
    added 0
    ∷ added 1
    ∷ added 2
    ∷ dropped 2
    ∷ removed 5 (record { kind = terminal; id = "shared" })
    ∷ []

kept_agent :
    find_session
      (record { kind = agent; id = "shared" })
      (change_all changes_test (default store_test))
    ≡ some 0
unfolding find_session agent_activity_snapshot change_all change insert begin_shutdown remove
    remove_if_same get default put same_key shift_remove is_live
kept_agent = refl

live_agents :
    (agent_activity_snapshot (change_all changes_test (default store_test))).1
    ≡ agent_activity_event (store_test 0) 0 ∷ []
unfolding find_session agent_activity_snapshot change_all change insert begin_shutdown remove
    remove_if_same get default put same_key shift_remove is_live
live_agents = refl

abbrev ended_test : List Change
ended_test = added 0 ∷ removed 5 (record { kind = agent; id = "shared" }) ∷ closed ∷ added 1 ∷ []

-- A removed agent is kept among those that terminate, and nothing is added after the shutdown.
terminating_kept :
    (change_all ended_test (default store_test)).terminating_agents
    ≡ (record { kind = agent; id = "shared" }, 0) ∷ []
unfolding find_session agent_activity_snapshot change_all change insert begin_shutdown remove
    remove_if_same get default put same_key shift_remove is_live
terminating_kept = refl

nothing_added : (change_all ended_test (default store_test)).sessions ≡ []
unfolding find_session agent_activity_snapshot change_all change insert begin_shutdown remove
    remove_if_same get default put same_key shift_remove is_live
nothing_added = refl

change_all-default-Implements_example :
    Implements
      (key_of store_test)
      (change_all changes_test (default store_test))
      (directory_after (key_of store_test) changes_test empty_directory)
change_all-default-Implements_example = change_all-default-Implements store_test changes_test

abbrev named : Session
named = record (blank agent "a") {
  identity = record {
    upstream_session_id = some "thread-1";
    pending_upstream_session_id = none;
    upstream_session_file = none;
    cwd = "/work";
  };
}

abbrev with_named : RegistryState
with_named = record {
  sessions = (record { kind = agent; id = "a" }, 0) ∷ [];
  terminating_agents = [];
  shutting_down = false;
  store = λ session. named;
  agent_event_sequence = 0;
}

active_ids-remove_example :
    (any
        (λ t. t == "thread-1")
        (active_upstream_session_ids_for "codex"
          (remove 9 (record { kind = agent; id = "a" }) with_named).0)
      ≡ true)
    × (any
          (λ p. eqb p 77)
          (owned_process_ids (remove 9 (record { kind = agent; id = "a" }) with_named).0)
        ≡ true)
unfolding get same_key is_live is_agent_of
active_ids-remove_example =
    active_ids-remove 9 (record { kind = agent; id = "a" }) with_named 0 refl refl refl "codex"
      "thread-1" refl refl

abbrev gone : RegistryState
gone = remove_if_same 0 (remove 9 (record { kind = agent; id = "a" }) with_named).0

-- Once its process has ended, the agent holds nothing.
no_active_ids : (active_upstream_session_ids_for "codex" gone ≡ []) × (owned_process_ids gone ≡ [])
unfolding active_upstream_session_ids_for owned_process_ids all_sessions collect remove
    remove_if_same retire_agent retire get put shift_remove same_key is_live mark_deleting
    remove_same
no_active_ids = (refl, refl)

live_ids_of_named :
    live_ids_if_contains 0 agent with_named ≡ some (record { kind = agent; id = "a" } ∷ [])
unfolding live_ids_if_contains live_ids_found get same_key is_live
live_ids_of_named = refl

live_ids_if_contains-LiveIds_example :
    LiveIds 0 agent with_named (some (record { kind = agent; id = "a" } ∷ []))
unfolding live_ids_if_contains live_ids_found get same_key is_live
live_ids_if_contains-LiveIds_example = live_ids_if_contains-LiveIds 0 agent with_named

abbrev before_snapshot : List Action
before_snapshot = own (publish AgentActivityStatus.busy AgentActivityPhase.thinking none 20) ∷ []

abbrev after_snapshot : List Action
after_snapshot =
    other "b" none 30 ∷ own (publish AgentActivityStatus.idle AgentActivityPhase.idle none 40) ∷ []

abbrev then_at : Trace
then_at = trace before_snapshot named 6

abbrev now_at : Trace
now_at = trace after_snapshot then_at.session then_at.sequence

-- Another agent, a terminal of the same name, and the agent.
abbrev at_snapshot : RegistryState
at_snapshot = record {
  sessions =
      (record { kind = agent; id = "b" }, 2)
      ∷ (record { kind = terminal; id = "a" }, 1)
      ∷ (record { kind = agent; id = "a" }, 0)
      ∷ [];
  terminating_agents = [];
  shutting_down = false;
  store = λ session. elim session [
    | zero ↦ then_at.session
    | suc n ↦ elim n [ zero ↦ blank terminal "a" | suc m ↦ blank agent "b" ]
  ];
  agent_event_sequence = then_at.sequence;
}

agent_activity_snapshot-trace_example :
    last_activity "a" none (
      (agent_activity_snapshot at_snapshot).1
      ++ forwarded (agent_activity_snapshot at_snapshot).0 (then_at.sent ++ now_at.sent))
    ≡ now_at.session.state.agent_activity
unfolding get same_key trace is_live publish_agent_activity same_status same_phase
agent_activity_snapshot-trace_example =
    agent_activity_snapshot-trace before_snapshot after_snapshot named 6 at_snapshot 0 none
      (refl, (refl, (refl, tt))) (refl, (refl, (refl, tt))) refl refl refl (refl, (tt, tt)) refl
