-- ===== src/Session/Effect.antt =====
-- What each operation of a session has in common: it sends nothing and leaves the activity, or sends
-- one event with the next number, which says what the activity is now.
use devhatch.Session.Model.{
  Session, AgentActivityEvent, AgentActivityStatus, AgentActivityPhase, is_agent, is_live,
  AgentActivity,
}
use devhatch.Session.Operations.{
  Outcome, unchanged, touch, id_changed, identity_changed, update_runtime_identity, same_activity,
  publish_agent_activity, mark_deleting, set_exited, rename, resize,
}
use devhatch.Prelude.{
  ℕ, ◌+◌, String, ◌≡◌, refl, ◌⊎◌, inl, inr, Bool, true, false, not, ◌&&◌, ◌||◌, Option, [], ◌∷◌,
  arith, Bool-cases, is_some_and, nat_eq, string_eq, option_eq,
}

pub record IsQuiet (s : Session) (sequence : ℕ) (o : Outcome) : Type 0 where
  pub sequence_same : o.sequence ≡ sequence
  pub no_events : o.agent_events ≡ []
  pub activity_same : o.session.state.agent_activity ≡ s.state.agent_activity

pub record Sends (s : Session) (sequence : ℕ) (o : Outcome) : Type 0 where
  pub event : AgentActivityEvent
  pub sequence_next : o.sequence ≡ sequence + 1
  pub one_event : o.agent_events ≡ event ∷ []
  pub numbered : event.sequence ≡ sequence + 1
  pub named : event.session_id ≡ s.id
  pub current : event.activity ≡ o.session.state.agent_activity

pub record IsEffect (s : Session) (sequence : ℕ) (o : Outcome) : Type 0 where
  pub same_id : o.session.id ≡ s.id
  pub was_live : is_live o.session ≡ true → is_live s ≡ true
  pub reported : IsQuiet s sequence o ⊎ Sends s sequence o

pub unchanged-IsEffect : (s : Session) (sequence : ℕ) → IsEffect s sequence (unchanged s sequence)
unchanged-IsEffect s sequence = record {
  same_id = refl;
  was_live = λ live. live;
  reported = inl (record { sequence_same = refl; no_events = refl; activity_same = refl });
}

update_runtime_identity-changed :
    (id : String) (file cwd : Option String) (now : ℕ) (s : Session) (sequence : ℕ)
    → identity_changed s id file cwd ≡ true
    → IsEffect s sequence (update_runtime_identity id file cwd now s sequence)
unfolding update_runtime_identity is_live
update_runtime_identity-changed id file cwd now s sequence h = elim (Bool-cases (id_changed s id)) [
  | inl e ↦
      rw (h, e)
        (record {
          same_id = refl;
          was_live = λ live. live;
          reported = inr (record {
            event = _;
            sequence_next = refl;
            one_event = refl;
            numbered = refl;
            named = refl;
            current = refl;
          });
        })
  | inr e ↦
      rw (h, e)
        (record {
          same_id = refl;
          was_live = λ live. live;
          reported = inl (record { sequence_same = refl; no_events = refl; activity_same = refl });
        })
]

pub update_runtime_identity-IsEffect :
    (id : String) (file cwd : Option String) (now : ℕ) (s : Session) (sequence : ℕ)
    → IsEffect s sequence (update_runtime_identity id file cwd now s sequence)
unfolding update_runtime_identity
update_runtime_identity-IsEffect id file cwd now s sequence =
    elim (Bool-cases (identity_changed s id file cwd)) [
      | inl e ↦ update_runtime_identity-changed id file cwd now s sequence e
      | inr e ↦ rw (e, update_runtime_identity) (unchanged-IsEffect s sequence)
    ]

module _ (s : Session) (sequence : ℕ) where
  pub publish_agent_activity-IsEffect :
      (status : AgentActivityStatus) (phase : AgentActivityPhase) (detail : Option String) (now : ℕ)
      → IsEffect s sequence (publish_agent_activity status phase detail now s sequence)
  unfolding publish_agent_activity is_live
  publish_agent_activity-IsEffect status phase detail now =
      let activity : AgentActivity = record {
        status = status;
        phase = phase;
        detail = detail;
        updated_at = touch now s.state.updated_at;
      } in
      let same = is_some_and s.state.agent_activity (λ current. same_activity current activity) in
      elim (Bool-cases (s.deleting || same)) [
        | inl e ↦ rw e (unchanged-IsEffect s sequence)
        | inr e ↦ rw e (record {
          same_id = refl;
          was_live = λ live. live;
          reported = inr (record {
            event = _;
            sequence_next = refl;
            one_event = refl;
            numbered = refl;
            named = refl;
            current = refl;
          });
        })
      ]

  mark_deleting-deleted :
      (now : ℕ) → s.deleting ≡ false → IsEffect s sequence (mark_deleting now s sequence)
  unfolding mark_deleting is_live
  mark_deleting-deleted now h = elim (Bool-cases (is_agent s.kind)) [
    | inl e ↦
        rw (h, e)
          (record {
            same_id = refl;
            was_live = λ live. cc live;
            reported = inr (record {
              event = _;
              sequence_next = refl;
              one_event = refl;
              numbered = refl;
              named = refl;
              current = refl;
            });
          })
    | inr e ↦
        rw (h, e)
          (record {
            same_id = refl;
            was_live = λ live. cc live;
            reported =
                inl (record { sequence_same = refl; no_events = refl; activity_same = refl });
          })
  ]

  pub mark_deleting-IsEffect : (now : ℕ) → IsEffect s sequence (mark_deleting now s sequence)
  unfolding mark_deleting
  mark_deleting-IsEffect now = elim (Bool-cases s.deleting) [
    | inl e ↦ simp e (unchanged-IsEffect s sequence)
    | inr e ↦ mark_deleting-deleted now e
  ]

  dead_if_exited : (b : Bool) → (not b && false) ≡ true → ⊥
  dead_if_exited b h = ground arith

  pub set_exited-IsEffect :
      (code : Option ℕ) (now : ℕ) → IsEffect s sequence (set_exited code now s sequence)
  unfolding set_exited is_live
  set_exited-IsEffect code now = record {
    same_id = refl;
    was_live = λ live. absurd (dead_if_exited s.deleting live);
    reported = inl (record { sequence_same = refl; no_events = refl; activity_same = refl });
  }

  pub rename-IsEffect : (name : String) (now : ℕ) → IsEffect s sequence (rename name now s sequence)
  unfolding rename is_live
  rename-IsEffect name now = record {
    same_id = refl;
    was_live = λ live. live;
    reported = inl (record { sequence_same = refl; no_events = refl; activity_same = refl });
  }

  pub resize-IsEffect : (cols rows now : ℕ) → IsEffect s sequence (resize cols rows now s sequence)
  unfolding resize is_live
  resize-IsEffect cols rows now = record {
    same_id = refl;
    was_live = λ live. live;
    reported = inl (record { sequence_same = refl; no_events = refl; activity_same = refl });
  }
