-- ===== src/Registry.antt =====
-- The registry of sessions, of apps/server/src/state/sessions.rs. A shared session is a handle, and a
-- store has what the handle points to; an `IndexMap` is the list of its entries in order.
pub mod IndexMap
pub mod Refinement
pub mod Queries
pub mod Views
pub mod Snapshot
mod Tests
use devhatch.Registry.IndexMap.{SessionKey, SessionMap, get, put, shift_remove}
use devhatch.Session.{
  Session, SessionKind, is_agent, is_live, AgentActivityEvent, mark_deleting, agent_activity_event,
}
use devhatch.Prelude.{
  ℕ, zero, suc, ◌+◌, ◌-◌, ◌*◌, ◌≤◌, ◌<◌, min, max, String, ◌≡◌, refl, sym, ap, ◌∙◌, subst, ◌≢◌, ◌↔◌,
  ◌⊎◌, inl, inr, Bool, true, false, not, ◌&&◌, ◌||◌, Option, none, some, List, [], ◌∷◌, ◌++◌, arith,
  if◌then◌else◌, ltb, leb, eqb, Bool-cases, Option-cases, is_some, is_none, is_some_and, is_none_or,
  any, all, keep, All, length, ◌==◌, saturating_sub, nat_eq, string_eq, option_eq, codes,
  saturating_add,
}

pub record RegistryState : Type 0 where
  pub sessions : SessionMap
  pub terminating_agents : SessionMap
  pub shutting_down : Bool
  pub store : ℕ → Session
  pub agent_event_sequence : ℕ

abbrev pub key_of : (ℕ → Session) → ℕ → SessionKey
key_of store session = record { kind = (store session).kind; id = (store session).id }

-- `SessionRegistry::default` on the store.
unfoldable pub default : (ℕ → Session) → RegistryState
default store = record {
  sessions = [];
  terminating_agents = [];
  shutting_down = false;
  store = store;
  agent_event_sequence = 0;
}

unfoldable pub insert : ℕ → RegistryState → RegistryState × Bool
insert session r =
    let key = key_of r.store session in
    if r.shutting_down
    then (r, false)
    else if is_some (get key r.sessions)
    then (r, false)
    else (record r { sessions = put key session r.sessions }, true)

unfoldable pub find_session : SessionKey → RegistryState → Option ℕ
find_session key r = get key r.sessions

abbrev pub write : (ℕ → Session) → ℕ → Session → ℕ → Session
write store session content other = if eqb session other then content else store other

-- The end of `remove`, for the session that was removed.
unfoldable pub retire : (now : ℕ) → SessionKey → ℕ → RegistryState → RegistryState
retire now key session r =
    let o = mark_deleting now (r.store session) r.agent_event_sequence in
    record r {
      terminating_agents =
          if is_live (r.store session)
          then put key session r.terminating_agents
          else r.terminating_agents;
      store = write r.store session o.session;
      agent_event_sequence = o.sequence;
    }

unfoldable pub retire_agent : (now : ℕ) → SessionKey → Option ℕ → RegistryState → RegistryState
unfolding retire
retire_agent now key none r = r
retire_agent now key (some session) r = if is_agent key.kind then retire now key session r else r

unfoldable pub remove : (now : ℕ) → SessionKey → RegistryState → RegistryState × Option ℕ
unfolding retire_agent
remove now key r =
    let found = get key r.sessions in
    (retire_agent now key found (record r { sessions = shift_remove key r.sessions }), found)

-- `shift_remove` if the entry of the key is that session.
unfoldable pub remove_same : SessionKey → ℕ → SessionMap → SessionMap
remove_same key session entries =
    if is_some_and (get key entries) (λ current. eqb current session)
    then shift_remove key entries
    else entries

unfoldable pub remove_if_same : ℕ → RegistryState → RegistryState
unfolding remove_same
remove_if_same session r =
    let key = key_of r.store session in
    record r {
      sessions = remove_same key session r.sessions;
      terminating_agents = remove_same key session r.terminating_agents;
    }

abbrev pub values : SessionMap → List ℕ
values [] = []
values (entry ∷ entries) = entry.1 ∷ values entries

unfoldable pub begin_shutdown : RegistryState → RegistryState × List ℕ
begin_shutdown r =
    (record r { shutting_down = true }, values r.sessions ++ values r.terminating_agents)

abbrev pub is_live_agent : RegistryState → SessionKey × ℕ → Bool
is_live_agent r entry = is_agent entry.0.kind && is_live (r.store entry.1)

abbrev pub events_of : RegistryState → SessionMap → List AgentActivityEvent
events_of r [] = []
events_of r (entry ∷ entries) =
    agent_activity_event (r.store entry.1) r.agent_event_sequence ∷ events_of r entries

unfoldable pub agent_activity_snapshot : RegistryState → ℕ × List AgentActivityEvent
agent_activity_snapshot r =
    (r.agent_event_sequence, events_of r (keep (is_live_agent r) r.sessions))
