-- ===== src/Session/Deleted.antt =====
-- That a session that is being deleted shows no activity again.
use devhatch.Session.Model.{Session, AgentActivityStatus, AgentActivityPhase, is_agent}
use devhatch.Session.Operations.{
  finish_exit, id_changed, identity_changed, update_runtime_identity, publish_agent_activity,
  mark_deleting, set_exited, rename, resize, same_activity, touch,
}
use devhatch.Session.Actions.{
  SessionOperation, identify, publish, delete, exit, name, size, operate, Action, own, other,
  perform, trace,
}
use devhatch.Prelude.{
  ℕ, String, ◌≡◌, refl, inl, inr, Bool, true, false, ◌&&◌, ◌||◌, Option, none, List, [], ◌∷◌, arith,
  Bool-cases, is_some_and, nat_eq, string_eq, option_eq, ◌++◌,
}

-- An agent that is being deleted has no activity.
pub record IsCleared (s : Session) : Type 0 where
  pub cleared : s.deleting && is_agent s.kind ≡ true → s.state.agent_activity ≡ none

module _ (s : Session) (n : ℕ) (h : IsCleared s) where
  identify-IsCleared :
      (id : String) (file cwd : Option String) (now : ℕ)
      → IsCleared (update_runtime_identity id file cwd now s n).session
  unfolding update_runtime_identity
  identify-IsCleared id file cwd now = elim (Bool-cases (identity_changed s id file cwd)) [
    | inr same ↦ rw same h
    | inl changed ↦ rw changed (record {
      cleared = λ d. elim (Bool-cases (id_changed s id)) [
        | inl e ↦ rw e refl
        | inr e ↦ rw e (h.cleared d)
      ];
    })
  ]

  not_deleting : (a b c : Bool) → (a || b) ≡ false → a && c ≡ true → ⊥
  not_deleting a b c h d = ground arith

  publish-IsCleared :
      (status : AgentActivityStatus) (phase : AgentActivityPhase) (detail : Option String) (now : ℕ)
      → IsCleared (publish_agent_activity status phase detail now s n).session
  unfolding publish_agent_activity
  publish-IsCleared status phase detail now =
      let same = is_some_and s.state.agent_activity (λ current. same_activity current (record {
        status = status;
        phase = phase;
        detail = detail;
        updated_at = touch now s.state.updated_at;
      })) in
      elim (Bool-cases (s.deleting || same)) [
        | inl e ↦ rw e h
        | inr e ↦ rw e (record { cleared = λ d. absurd (not_deleting s.deleting same _ e d) })
      ]

  delete-IsCleared : (now : ℕ) → IsCleared (mark_deleting now s n).session
  unfolding mark_deleting
  delete-IsCleared now = elim (Bool-cases s.deleting) [
    | inl e ↦ simp e h
    | inr e ↦ elim (Bool-cases (is_agent s.kind)) [
      | inl agent ↦ rw (e, agent) (record { cleared = λ _. refl })
      | inr terminal ↦ rw (e, terminal) (record { cleared = λ d. cc (d, terminal) })
    ]
  ]

  operate-IsCleared : (a : SessionOperation) → IsCleared (operate a s n).session
  unfolding operate set_exited rename resize
  operate-IsCleared (identify id file cwd now) = identify-IsCleared id file cwd now
  operate-IsCleared (publish status phase detail now) = publish-IsCleared status phase detail now
  operate-IsCleared (delete now) = delete-IsCleared now
  operate-IsCleared (exit code now) = record { cleared = h.cleared }
  operate-IsCleared (name text now) = record { cleared = h.cleared }
  operate-IsCleared (size cols rows now) = record { cleared = h.cleared }

perform-IsCleared :
    (a : Action) (s : Session) (n : ℕ) → IsCleared s → IsCleared (perform a s n).session
unfolding perform
perform-IsCleared (own operation) s n h = operate-IsCleared s n h operation
perform-IsCleared (other id activity updated_at) s n h = h

-- If an agent that is being deleted has no activity, then that is so after any operations of the
-- session, in any order.
pub trace-IsCleared :
    (actions : List Action) (s : Session) (n : ℕ)
    → IsCleared s
    → IsCleared (trace actions s n).session
unfolding trace
trace-IsCleared [] s n h = h
trace-IsCleared (a ∷ actions) s n h =
    let o = perform a s n in
    trace-IsCleared actions o.session o.sequence (perform-IsCleared a s n h)

-- `finish_exit` does to the session, the counter and the events what its two halves do one after the
-- other.
finish_exit-trace :
    (code : Option ℕ) (now later : ℕ) (s : Session) (n : ℕ)
    → let o = finish_exit code now later s n in
      let t = trace (own (exit code now) ∷ own (delete later) ∷ []) s n in
      (o.session ≡ t.session) × (o.sequence ≡ t.sequence) × (o.agent_events ++ [] ≡ t.sent)
unfolding finish_exit trace operate set_exited mark_deleting
finish_exit-trace code now later s n = (refl, refl, refl)
