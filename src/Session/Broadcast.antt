-- ===== src/Session/Broadcast.antt =====
-- That a client of apps/server/src/agent/activity_socket.rs knows the activity of a session.
use devhatch.Session.Actions.{
  SessionOperation, identify, publish, delete, exit, name, size, operate, Action, own, other,
  perform, trace, forwarded, last_activity, IsOther,
}
use devhatch.Session.Model.{Session, AgentActivity, AgentActivityEvent, is_live}
use devhatch.Session.Operations.{Outcome, agent_activity_event}
use devhatch.Session.Effect.{
  IsEffect, update_runtime_identity-IsEffect, publish_agent_activity-IsEffect,
  mark_deleting-IsEffect, set_exited-IsEffect, rename-IsEffect, resize-IsEffect,
}
use devhatch.Prelude.{
  ℕ, ◌≤◌, ◌<◌, String, ◌≡◌, refl, sym, ap, subst, inl, inr, true, false, Option, List, [], ◌∷◌,
  ◌++◌, arith, if◌then◌else◌, leb, All, ◌==◌, nat_eq, string_eq, option_eq, All-append,
}

-- Numbered after `m`, up to `n`.
abbrev Between : (m n : ℕ) → AgentActivityEvent → Type 0
Between m n e = (m < e.sequence) × (e.sequence ≤ n)

record IsStep (s : Session) (n : ℕ) (o : Outcome) : Type 0 where
  same_id : o.session.id ≡ s.id
  was_live : is_live o.session ≡ true → is_live s ≡ true
  grows : n ≤ o.sequence
  between : All (Between n o.sequence) o.agent_events

-- A client that knows the activity before the step knows it after the step.
abbrev Tells : Session → Outcome → Type 0
Tells s o =
    last_activity s.id s.state.agent_activity o.agent_events ≡ o.session.state.agent_activity

IsEffect-IsStep : (s : Session) (n : ℕ) (o : Outcome) → IsEffect s n o → IsStep s n o
IsEffect-IsStep s n o effect = record {
  same_id = effect.same_id;
  was_live = effect.was_live;
  grows = elim effect.reported [
    | inl quiet ↦ omega (arith, quiet.sequence_same)
    | inr sends ↦ omega (arith, sends.sequence_next)
  ];
  between = elim effect.reported [
    | inl quiet ↦ rw quiet.no_events tt
    | inr sends ↦
        rw sends.one_event
          ((omega (arith, sends.numbered), omega (arith, sends.numbered, sends.sequence_next)), tt)
  ];
}

IsEffect-Tells : (s : Session) (n : ℕ) (o : Outcome) → IsEffect s n o → Tells s o
unfolding last_activity
IsEffect-Tells s n o effect = elim effect.reported [
  | inl quiet ↦ rw quiet.no_events (sym quiet.activity_same)
  | inr sends ↦
      rw (sends.one_event, (string_eq.same_iff sends.event.session_id s.id).1 sends.named)
        sends.current
]

operate-IsEffect : (a : SessionOperation) (s : Session) (n : ℕ) → IsEffect s n (operate a s n)
unfolding operate
operate-IsEffect (identify id file cwd now) s n =
    update_runtime_identity-IsEffect id file cwd now s n
operate-IsEffect (publish status phase detail now) s n =
    publish_agent_activity-IsEffect s n status phase detail now
operate-IsEffect (delete now) s n = mark_deleting-IsEffect s n now
operate-IsEffect (exit code now) s n = set_exited-IsEffect s n code now
operate-IsEffect (name text now) s n = rename-IsEffect s n text now
operate-IsEffect (size cols rows now) s n = resize-IsEffect s n cols rows now

perform-IsStep : (a : Action) (s : Session) (n : ℕ) → IsStep s n (perform a s n)
unfolding perform
perform-IsStep (own operation) s n = IsEffect-IsStep s n _ (operate-IsEffect operation s n)
perform-IsStep (other id activity updated_at) s n = record {
  same_id = refl;
  was_live = λ live. live;
  grows = omega arith;
  between = ((omega arith, omega arith), tt);
}

perform-Tells : (a : Action) (s : Session) (n : ℕ) → IsOther s.id a → Tells s (perform a s n)
unfolding perform last_activity
perform-Tells (own operation) s n h = IsEffect-Tells s n _ (operate-IsEffect operation s n)
perform-Tells (other id activity updated_at) s n h = rw h refl

Between-mono :
    (m n m' n' : ℕ) (events : List AgentActivityEvent)
    → m' ≤ m
    → n ≤ n'
    → All (Between m n) events
    → All (Between m' n') events
Between-mono m n m' n' [] low high h = tt
Between-mono m n m' n' (e ∷ events) low high h =
    ((omega (arith, h.0.0), omega (arith, h.0.1)), Between-mono m n m' n' events low high h.1)

-- A session that is live after the actions was live before them, and all that was sent is numbered
-- after the counter before, up to the counter after.
trace-grows : (actions : List Action) (s : Session) (n : ℕ) → n ≤ (trace actions s n).sequence
unfolding trace
trace-grows [] s n = omega arith
trace-grows (a ∷ actions) s n =
    let o = perform a s n in
    omega (arith, (perform-IsStep a s n).grows, trace-grows actions o.session o.sequence)

trace-Between :
    (actions : List Action) (s : Session) (n : ℕ)
    → All (Between n (trace actions s n).sequence) (trace actions s n).sent
unfolding trace
trace-Between [] s n = tt
trace-Between (a ∷ actions) s n =
    let o = perform a s n in
    let step = perform-IsStep a s n in
    let rest = trace actions o.session o.sequence in
    All-append _ o.agent_events rest.sent
      (Between-mono n o.sequence n rest.sequence o.agent_events (omega arith)
        (trace-grows actions o.session o.sequence) step.between)
      (Between-mono o.sequence rest.sequence n rest.sequence rest.sent step.grows (omega arith)
        (trace-Between actions o.session o.sequence))

trace-live :
    (actions : List Action) (s : Session) (n : ℕ)
    → is_live (trace actions s n).session ≡ true
    → is_live s ≡ true
unfolding trace
trace-live [] s n h = h
trace-live (a ∷ actions) s n h =
    let o = perform a s n in
    (perform-IsStep a s n).was_live (trace-live actions o.session o.sequence h)

pub last_activity-append :
    (id : String) (known : Option AgentActivity) (es fs : List AgentActivityEvent)
    → last_activity id known (es ++ fs) ≡ last_activity id (last_activity id known es) fs
unfolding last_activity
last_activity-append id known [] fs = refl
last_activity-append id known (e ∷ es) fs =
    last_activity-append id (if e.session_id == id then e.activity else known) es fs

trace-tells :
    (actions : List Action) (s : Session) (n : ℕ)
    → All (IsOther s.id) actions
    → last_activity s.id s.state.agent_activity (trace actions s n).sent
      ≡ (trace actions s n).session.state.agent_activity
unfolding trace last_activity
trace-tells [] s n h = refl
trace-tells (a ∷ actions) s n h =
    let o = perform a s n in
    let rest = trace actions o.session o.sequence in
    let same_id = (perform-IsStep a s n).same_id in
    let later =
      trace-tells actions o.session o.sequence
        (subst (λ id. All (IsOther id) actions) (sym same_id) h.1) in
    rw
      (
        last_activity-append s.id s.state.agent_activity o.agent_events rest.sent,
        perform-Tells a s n h.0,
      )
      (subst
        (λ id.
          last_activity id o.session.state.agent_activity rest.sent
          ≡ rest.session.state.agent_activity)
        same_id later)

leb_of_lt : (m n : ℕ) → m < n → leb n m ≡ false
leb_of_lt m n h = ground arith

forwarded-old :
    (m n : ℕ) (events : List AgentActivityEvent)
    → All (Between m n) events
    → forwarded n events ≡ []
unfolding forwarded
forwarded-old m n [] h = refl
forwarded-old m n (e ∷ events) h = ground (arith, h.0.1, forwarded-old m n events h.1)

forwarded-new :
    (m n : ℕ) (events : List AgentActivityEvent)
    → All (Between m n) events
    → forwarded m events ≡ events
unfolding forwarded
forwarded-new m n [] h = refl
forwarded-new m n (e ∷ events) h =
    rw (leb_of_lt m e.sequence h.0.0) (ap (λ es. e ∷ es) (forwarded-new m n events h.1))

forwarded-append :
    (n : ℕ) (es fs : List AgentActivityEvent)
    → forwarded n (es ++ fs) ≡ forwarded n es ++ forwarded n fs
unfolding forwarded
forwarded-append n [] fs = refl
forwarded-append n (e ∷ es) fs = ground (arith, forwarded-append n es fs)

-- The socket leaves out the events of a session before the snapshot: a session that is live now was
-- live at the snapshot, and its activity then with the forwarded events is its activity now.
pub last_activity-trace :
    (before after : List Action) (s : Session) (n : ℕ)
    → let at = trace before s n in
      let now = trace after at.session at.sequence in
      All (IsOther at.session.id) after
      → is_live now.session ≡ true
      → (is_live at.session ≡ true)
        × (last_activity at.session.id
              (agent_activity_event at.session at.sequence).activity
              (forwarded at.sequence (at.sent ++ now.sent))
            ≡ now.session.state.agent_activity)
unfolding agent_activity_event
last_activity-trace before after s n others live =
    let at = trace before s n in
    let now = trace after at.session at.sequence in
    (
      trace-live after at.session at.sequence live,
      rw
          (
            forwarded-append at.sequence at.sent now.sent,
            forwarded-old n at.sequence at.sent (trace-Between before s n),
            forwarded-new at.sequence now.sequence now.sent
                (trace-Between after at.session at.sequence),
          )
          (trace-tells after at.session at.sequence others),
    )
