-- ===== src/Registry/Queries.antt =====
-- What the rest of the server asks the registry about its agents: which histories, files, directories
-- and processes they hold, of apps/server/src/state/sessions.rs. A set is a list of its elements.
use devhatch.Session.{Session, SessionKind, mark_deleting, is_agent, is_live}
use devhatch.Registry.IndexMap.{SessionKey, SessionMap, get, put, shift_remove, same_key, same_kind}
use devhatch.Registry.{RegistryState, values, retire, retire_agent, remove}
use devhatch.Prelude.{
  ℕ, String, ◌≡◌, refl, sym, ap, ◌∙◌, subst, inl, inr, Bool, true, false, ◌&&◌, ◌||◌, Option, none,
  some, List, [], ◌∷◌, ◌++◌, arith, if◌then◌else◌, eqb, Bool-cases, is_none, any, keep, length,
  ◌==◌, nat_eq, string_eq, option_eq,
}

-- The sessions of the registry, and the agents that terminate.
unfoldable pub all_sessions : RegistryState → List ℕ
all_sessions r = values r.sessions ++ values r.terminating_agents

-- What is found in the sessions that pass the test.
unfoldable pub collect {ℓ} :
    {A : Type ℓ} → (Session → Bool) → (Session → Option A) → (ℕ → Session) → List ℕ → List A
collect test found store [] = []
collect test found store (session ∷ sessions) =
    let rest = collect test found store sessions in
    if test (store session)
    then elim (found (store session)) [ none ↦ rest | some value ↦ value ∷ rest ]
    else rest

unfoldable pub is_agent_of : String → Session → Bool
is_agent_of agent_id s = is_agent s.kind && s.agent_id == some agent_id

unfoldable pub active_upstream_session_ids : RegistryState → List String
active_upstream_session_ids r =
    collect (λ s. is_agent s.kind) (λ s. s.identity.upstream_session_id) r.store (all_sessions r)

unfoldable pub active_upstream_session_ids_for : String → RegistryState → List String
active_upstream_session_ids_for agent_id r =
    collect (is_agent_of agent_id) (λ s. s.identity.upstream_session_id) r.store (all_sessions r)

unfoldable pub pending_upstream_session_ids_for : String → RegistryState → List String
pending_upstream_session_ids_for agent_id r =
    collect (is_agent_of agent_id) (λ s. s.identity.pending_upstream_session_id) r.store
      (all_sessions r)

unfoldable pub active_upstream_session_files_for : String → RegistryState → List String
active_upstream_session_files_for agent_id r =
    collect (is_agent_of agent_id) (λ s. s.identity.upstream_session_file) r.store (all_sessions r)

unfoldable pub active_agent_cwds_for : String → RegistryState → List String
active_agent_cwds_for agent_id r =
    collect (is_agent_of agent_id) (λ s. some s.identity.cwd) r.store (all_sessions r)

unfoldable pub unidentified_agent_cwds_for : String → RegistryState → List String
unidentified_agent_cwds_for agent_id r =
    collect (λ s. is_agent_of agent_id s && is_none s.identity.upstream_session_id)
      (λ s. some s.identity.cwd) r.store (all_sessions r)

unfoldable pub owned_process_ids : RegistryState → List ℕ
owned_process_ids r = collect (λ s. true) (λ s. some s.process_id) r.store (all_sessions r)

unfoldable pub count : SessionKind → RegistryState → ℕ
count kind r = length (keep (λ entry. same_kind entry.0.kind kind) r.sessions)

eq_of_eqb : (m n : ℕ) → eqb m n ≡ true → m ≡ n
eq_of_eqb m n h = ground arith

eqb_refl : (n : ℕ) → eqb n n ≡ true
eqb_refl n = ground arith

any_rest : (a b : Bool) → a ≡ false → (a || b) ≡ true → b ≡ true
any_rest a b e h = ground arith

module _ {ℓ} {A : Type ℓ} (test : Session → Bool) (found : Session → Option A) (store : ℕ → Session)
    (same : A → Bool) (session : ℕ) (value : A) where
  any_more :
      (b : Bool) (o : Option A) (rest : List A)
      → any same rest ≡ true
      → any same (if b then elim o [ none ↦ rest | some v ↦ v ∷ rest ] else rest) ≡ true
  any_more false o rest h = h
  any_more true none rest h = h
  any_more true (some v) rest h = ground (arith, h)

  any-collect :
      (sessions : List ℕ)
      → test (store session) ≡ true
      → found (store session) ≡ some value
      → same value ≡ true
      → any (λ other. eqb session other) sessions ≡ true
      → any same (collect test found store sessions) ≡ true
  unfolding collect
  any-collect [] t f s h = cc h
  any-collect (other ∷ others) t f s h = elim (Bool-cases (eqb session other)) [
    | inl e ↦
        let is_other = eq_of_eqb session other e in
        rw
          (
            subst (λ x. test (store x) ≡ true) is_other t,
            subst (λ x. found (store x) ≡ some value) is_other f,
            s,
          )
          refl
    | inr e ↦
        any_more (test (store other)) (found (store other)) (collect test found store others)
          (any-collect others t f s (any_rest (eqb session other) _ e h))
  ]

any-right : (p : ℕ → Bool) (xs ys : List ℕ) → any p ys ≡ true → any p (xs ++ ys) ≡ true
any-right p [] ys h = h
any-right p (x ∷ xs) ys h = ground (arith, any-right p xs ys h)

any-put :
    (key : SessionKey) (session : ℕ) (m : SessionMap)
    → any (λ other. eqb session other) (values (put key session m)) ≡ true
unfolding put
any-put key session [] = ground arith
any-put key session (entry ∷ entries) = elim (Bool-cases (same_key entry.0 key)) [
  | inl e ↦ rw e (ground arith)
  | inr e ↦ rw e (ground (arith, any-put key session entries))
]

-- What `mark_deleting` leaves of a session.
mark_deleting-keeps :
    (now : ℕ) (s : Session) (n : ℕ)
    → ((mark_deleting now s n).session.kind ≡ s.kind)
      × ((mark_deleting now s n).session.agent_id ≡ s.agent_id)
      × ((mark_deleting now s n).session.identity ≡ s.identity)
      × ((mark_deleting now s n).session.process_id ≡ s.process_id)
unfolding mark_deleting
mark_deleting-keeps now s n = elim (Bool-cases s.deleting) [
  | inl e ↦ simp e (refl, refl, refl, refl)
  | inr e ↦ elim (Bool-cases (is_agent s.kind)) [
    | inl k ↦ simp (e, k) (refl, refl, refl, refl)
    | inr other ↦ simp (e, other) (refl, refl, refl, refl)
  ]
]

module _ (now : ℕ) (key : SessionKey) (r : RegistryState) (session : ℕ)
    (here : get key r.sessions ≡ some session) (kind : is_agent key.kind ≡ true)
    (live : is_live (r.store session) ≡ true) where
  abbrev without : RegistryState
  without = record r { sessions = shift_remove key r.sessions }

  retire_agent-agent : retire_agent now key (some session) without ≡ retire now key session without
  unfolding retire_agent
  retire_agent-agent = simp kind refl

  remove-retires : retire now key session without ≡ (remove now key r).0
  unfolding remove
  remove-retires = sym (ap (λ o. retire_agent now key o without) here ∙ retire_agent-agent)

  -- The agent is among those that terminate.
  retired_stays :
      any (λ other. eqb session other) (all_sessions (retire now key session without)) ≡ true
  unfolding retire all_sessions
  retired_stays = simp live (
      any-right _ (values (shift_remove key r.sessions)) _
        (any-put key session r.terminating_agents))

  retired_store :
      (retire now key session without).store session
      ≡ (mark_deleting now (r.store session) r.agent_event_sequence).session
  unfolding retire
  retired_store = simp (eqb_refl session) refl

  -- If a live agent that has an upstream session is removed from the registry, then that session still
  -- counts as active for the agent's program, and its process as owned by the server.
  pub active_ids-remove :
      (agent_id id : String)
      → is_agent_of agent_id (r.store session) ≡ true
      → (r.store session).identity.upstream_session_id ≡ some id
      → (any (λ t. t == id) (active_upstream_session_ids_for agent_id (remove now key r).0) ≡ true)
        × (any (λ p. eqb p (r.store session).process_id) (owned_process_ids (remove now key r).0)
            ≡ true)
  unfolding active_upstream_session_ids_for owned_process_ids is_agent_of
  active_ids-remove agent_id id a u =
      let (kind', agent', identity', process') =
        mark_deleting-keeps now (r.store session) r.agent_event_sequence in
      let s = (retire now key session without).store session in
      let still_agent : is_agent_of agent_id s ≡ true = rw (retired_store, kind', agent') a in
      let still_id : s.identity.upstream_session_id ≡ some id = rw (retired_store, identity') u in
      let still_process : s.process_id ≡ (r.store session).process_id =
        rw (retired_store, process') refl in
      subst
        (λ r'.
          (any (λ t. t == id) (active_upstream_session_ids_for agent_id r') ≡ true)
          × (any (λ p. eqb p (r.store session).process_id) (owned_process_ids r') ≡ true))
        remove-retires
        (
          any-collect (is_agent_of agent_id) (λ x. x.identity.upstream_session_id) _ (λ t. t == id)
              session id _ still_agent still_id ((string_eq.same_iff id id).1 refl) retired_stays,
          any-collect (λ x. true) (λ x. some x.process_id) _
              (λ p. eqb p (r.store session).process_id) session s.process_id _ refl refl
              (ap (λ p. eqb p (r.store session).process_id) still_process ∙ eqb_refl _)
              retired_stays,
        )
