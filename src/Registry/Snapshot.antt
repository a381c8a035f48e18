-- ===== src/Registry/Snapshot.antt =====
-- What a client of apps/server/src/agent/activity_socket.rs knows of an agent, from the snapshot of
-- the registry and the events that the socket forwards after it.
use devhatch.Session.Broadcast.{last_activity-trace, last_activity-append}
use devhatch.Session.{
  Session, SessionKind, agent, is_agent, is_live, AgentActivity, agent_activity_event, Action,
  trace, forwarded, last_activity, IsOther,
}
use devhatch.Registry.IndexMap.{
  SessionKey, SessionMap, get, same_key, same_kind, Unique, same_key-eq,
}
use devhatch.Registry.{RegistryState, agent_activity_snapshot, events_of, is_live_agent}
use mathlib.Core.Option.{some-injective}
use devhatch.Prelude.{
  ℕ, String, ◌≡◌, refl, sym, ap, ◌∙◌, subst, inl, inr, Bool, true, false, ◌&&◌, Option, none, some,
  List, [], ◌∷◌, ◌++◌, arith, if◌then◌else◌, Bool-cases, keep, All, ◌==◌, nat_eq, string_eq,
  option_eq,
}

-- Each entry stands under the identifier of its session.
abbrev pub AreKeyed : (ℕ → Session) → SessionMap → Type 0
AreKeyed store entries = All (λ entry. (store entry.1).id ≡ entry.0.id) entries

agent_kind : (k : SessionKind) → is_agent k ≡ same_kind k agent
agent_kind SessionKind.terminal = refl
agent_kind SessionKind.agent = refl

absent_parts :
    (b : Bool) (session : ℕ) (rest : Option ℕ)
    → (if b then some session else rest) ≡ none
    → (b ≡ false) × (rest ≡ none)
absent_parts true session rest h = cc h
absent_parts false session rest h = (refl, h)

other_id :
    (k : SessionKey) (id : String) (live : Bool)
    → is_agent k.kind && live ≡ true
    → same_key k (record { kind = agent; id = id }) ≡ false
    → (k.id == id) ≡ false
unfolding same_key
other_id k id live h e = ground (arith, agent_kind k.kind)

module _ (r : RegistryState) (id : String) where
  abbrev told : Option AgentActivity → SessionMap → Option AgentActivity
  told known entries = last_activity id known (events_of r (keep (is_live_agent r) entries))

  -- The snapshot says nothing of an agent that the registry does not have.
  told_absent :
      (known : Option AgentActivity) (entries : SessionMap)
      → AreKeyed r.store entries
      → get (record { kind = agent; id = id }) entries ≡ none
      → told known entries ≡ known
  unfolding get last_activity agent_activity_event
  told_absent known [] keyed h = refl
  told_absent known (entry ∷ entries) keyed h =
      let (apart, rest) =
        absent_parts (same_key entry.0 (record { kind = agent; id = id })) entry.1 _ h in
      elim (Bool-cases (is_live_agent r entry)) [
        | inl e ↦
            rw (e, keyed.0, other_id entry.0 id (is_live (r.store entry.1)) e apart)
              (told_absent known entries keyed.1 rest)
        | inr e ↦ rw e (told_absent known entries keyed.1 rest)
      ]

  -- It says the activity of one that the registry has, if it is live.
  told_present :
      (entries : SessionMap) (known : Option AgentActivity) (session : ℕ)
      → Unique entries
      → AreKeyed r.store entries
      → get (record { kind = agent; id = id }) entries ≡ some session
      → is_live (r.store session) ≡ true
      → told known entries ≡ (r.store session).state.agent_activity
  unfolding get last_activity agent_activity_event
  told_present [] known session unique keyed h live = cc h
  told_present (entry ∷ entries) known session unique keyed h live =
      let key : SessionKey = record { kind = agent; id = id } in
      elim (Bool-cases (same_key entry.0 key)) [
        | inl e ↦
            let same : entry.1 ≡ session =
              some-injective entry.1 session
                (subst (λ b. (if b then some entry.1 else get key entries) ≡ some session) e h) in
            let named : entry.0 ≡ key = same_key-eq entry.0 key e in
            let alive : is_live (r.store entry.1) ≡ true =
              subst (λ x. is_live (r.store x) ≡ true) (sym same) live in
            rw
              (
                ap (λ k. is_agent k.kind) named,
                alive,
                keyed.0 ∙ ap (λ k. k.id) named,
                string_refl id,
              )
              (told_absent (r.store entry.1).state.agent_activity entries keyed.1
                  (subst (λ k. get k entries ≡ none) named unique.0)
                ∙ ap (λ x. (r.store x).state.agent_activity) same)
        | inr e ↦
            let rest : get key entries ≡ some session =
              subst (λ b. (if b then some entry.1 else get key entries) ≡ some session) e h in
            elim (Bool-cases (is_live_agent r entry)) [
              | inl f ↦ rw f (
                  told_present entries
                    (if (r.store entry.1).id == id
                      then (r.store entry.1).state.agent_activity
                      else known)
                    session unique.1 keyed.1 rest live)
              | inr f ↦ rw f (told_present entries known session unique.1 keyed.1 rest live)
            ]
      ]
    where
      string_refl : (s : String) → (s == s) ≡ true
      string_refl s = (string_eq.same_iff s s).1 refl

-- A client subscribes to the events, then gets the snapshot of the registry, and later events; the
-- socket leaves out those that it received whose number is not greater than the snapshot's. The
-- registry has at most one entry for a key, each under the identifier of its session; at the
-- snapshot it has this agent under its identifier, as the agent was then, and its counter of
-- events is the one of then. Whatever the agent did between the subscription and the snapshot and
-- after it, and whatever other sessions, which have other identifiers, sent: if the agent is live
-- now, then whatever the client knew of it before, the events of the snapshot and the forwarded
-- events leave the client with the activity that the agent has now.
pub agent_activity_snapshot-trace :
    (before after : List Action) (s : Session) (n : ℕ) (r : RegistryState) (session : ℕ)
    (known : Option AgentActivity)
    → let at = trace before s n in
      let now = trace after at.session at.sequence in
      Unique r.sessions
      → AreKeyed r.store r.sessions
      → get (record { kind = agent; id = at.session.id }) r.sessions ≡ some session
      → r.store session ≡ at.session
      → r.agent_event_sequence ≡ at.sequence
      → All (IsOther at.session.id) after
      → is_live now.session ≡ true
      → last_activity at.session.id known (
          (agent_activity_snapshot r).1
          ++ forwarded (agent_activity_snapshot r).0 (at.sent ++ now.sent))
        ≡ now.session.state.agent_activity
unfolding agent_activity_snapshot agent_activity_event
agent_activity_snapshot-trace before after s n r session known unique keyed found stored counted
      others live =
    let at = trace before s n in
    let now = trace after at.session at.sequence in
    let (alive, later) = last_activity-trace before after s n others live in
    let id = at.session.id in
    last_activity-append id known (agent_activity_snapshot r).1
      (forwarded r.agent_event_sequence (at.sent ++ now.sent))
    ∙ ap (λ a. last_activity id a (forwarded r.agent_event_sequence (at.sent ++ now.sent)))
        (told_present r id r.sessions known session unique keyed found
            (subst (λ x. is_live x ≡ true) (sym stored) alive)
          ∙ ap (λ x. x.state.agent_activity) stored)
    ∙ ap (λ m. last_activity id at.session.state.agent_activity (forwarded m (at.sent ++ now.sent)))
        counted
    ∙ later
