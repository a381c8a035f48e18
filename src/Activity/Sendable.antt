-- ===== src/Activity/Sendable.antt =====
-- That what a hook reports can be sent: one or two valid reports.
use devhatch.Activity.Message.{
  is_control, valid_detail, Text, Report, activity, identity, runtime_ready, history_ready,
  valid_report, valid_short_string, valid_path, is_absolute,
}
use devhatch.Activity.Hook.{
  Json, find_text, string_at, detail_from, contains, allowed_events, tool_detail,
  waiting_for_permission, notification_report, with_identity, error_detail, event_report,
  reports_for_hook, event_arms, first_arm, started_reports,
}
use devhatch.Activity.Clean.{
  IsSanitized, Clean, sanitize_string-IsSanitized, good_detail, good_detail_of_Clean,
  valid_path_of_IsSanitized, valid_short_string_of_IsSanitized,
}
use mathlib.Core.Option.{some-injective}
use devhatch.Prelude.{
  >>=-eq-some, map_some, or_else, ◌>>=◌, ℕ, ◌≤◌, ◌<◌, String, ◌≡◌, refl, subst, inl, inr, Bool,
  true, false, ◌&&◌, Option, none, some, List, [], ◌∷◌, ◌++◌, arith, if◌then◌else◌, leb, Bool-cases,
  Option-cases, is_none_or, all, All, length, ◌==◌, nat_eq, string_eq, option_eq, codes, All-append,
  byte_len,
}

every_arm {ℓ} :
    {A : Type ℓ} (p : A → Bool) (arms : List (Bool × Option A))
    → All (λ arm. is_none_or arm.1 p ≡ true) arms
    → is_none_or (first_arm arms) p ≡ true
unfolding first_arm
every_arm p [] h = refl
every_arm p ((true, made) ∷ arms) h = h.0
every_arm p ((false, made) ∷ arms) h = every_arm p arms h.1

some_of_if_else {ℓ} :
    {A : Type ℓ} (b : Bool) (o : Option A) {a : A} → (if b then o else none) ≡ some a → o ≡ some a
some_of_if_else true o h = h
some_of_if_else false o h = cc

le_of_leb : (m n : ℕ) → leb m n ≡ true → m ≤ n
le_of_leb m n h = ground arith

running-Clean : Clean (codes "Running ")
unfolding is_control
running-Clean = ground arith

good_running :
    (o : Option Text)
    → ((text : Text) → o ≡ some text → IsSanitized 504 text)
    → is_none_or (map_some (λ detail. codes "Running " ++ detail) o) good_detail ≡ true
good_running none h = refl
good_running (some text) h =
    let s = h text refl in
    good_detail_of_Clean (codes "Running " ++ text)
      (All-append _ (codes "Running ") text running-Clean s.clean) (omega (arith, s.short)) refl

-- The texts that the program itself puts into a report.
good_permission : good_detail (codes "Waiting for permission") ≡ true
unfolding valid_detail
good_permission = refl

good_answer : good_detail (codes "Waiting for answer") ≡ true
unfolding valid_detail
good_answer = refl

good_compacting : good_detail (codes "Compacting context") ≡ true
unfolding valid_detail
good_compacting = refl

module _ (j : Json) where
  open j use {Value}

  string_at-IsSanitized :
      (value : Value) (keys : List String) (text : Text)
      → string_at j value keys ≡ some text
      → IsSanitized 256 text
  unfolding string_at
  string_at-IsSanitized value keys text h =
      let (found, _, clean) = >>=-eq-some (find_text j value keys) _ h in
      sanitize_string-IsSanitized found 256 text clean

  detail_from-IsSanitized :
      (value : Value) (keys : List String) (text : Text)
      → detail_from j value keys ≡ some text
      → IsSanitized 504 text
  unfolding detail_from
  detail_from-IsSanitized value keys text h =
      let (found, _, clean) = >>=-eq-some (find_text j value keys) _ h in
      sanitize_string-IsSanitized found 504 text clean

  good_detail_from :
      (value : Value) (keys : List String)
      → is_none_or (detail_from j value keys) good_detail ≡ true
  good_detail_from value keys = elim (Option-cases (detail_from j value keys)) [
    | inl e ↦ rw e refl
    | inr (text, e) ↦
        let s = detail_from-IsSanitized value keys text e in
        rw e (good_detail_of_Clean text s.clean (omega (arith, s.short)) s.some_text)
  ]

  good_or_else :
      (a b : Option Text)
      → is_none_or a good_detail ≡ true
      → is_none_or b good_detail ≡ true
      → is_none_or (or_else a b) good_detail ≡ true
  good_or_else none b h k = k
  good_or_else (some a) b h k = h

  good_nested :
      (o : Option Value) (keys : List String)
      → is_none_or (o >>= λ error. detail_from j error keys) good_detail ≡ true
  good_nested none keys = refl
  good_nested (some error) keys = good_detail_from error keys

  good_error_detail : (payload : Value) → is_none_or (error_detail j payload) good_detail ≡ true
  unfolding error_detail
  good_error_detail payload =
      good_or_else _ _ (good_detail_from payload _) (good_nested (j.get payload "error") _)

  good_tool_detail : (payload : Value) → is_none_or (tool_detail j payload) good_detail ≡ true
  unfolding tool_detail
  good_tool_detail payload = good_running _ (detail_from-IsSanitized payload _)

  module _ (id : Text) (valid_id : valid_short_string id 256 ≡ true) where
    valid_notification :
        (kind : Text) → is_none_or (notification_report j id kind) valid_report ≡ true
    unfolding notification_report waiting_for_permission valid_report
    valid_notification kind = ground (arith, valid_id, good_permission, good_answer)

    valid_bound_notification :
        (kind : Option Text) → is_none_or (kind >>= notification_report j id) valid_report ≡ true
    valid_bound_notification none = refl
    valid_bound_notification (some kind) = valid_notification kind

    -- Whatever the event, the report is valid.
    valid_event_report :
        (agent_id event : String) (payload : Value)
        → is_none_or (event_report j agent_id event payload id) valid_report ≡ true
    unfolding event_report event_arms waiting_for_permission valid_report
    valid_event_report agent_id event payload =
        let no_detail : valid_short_string id 256 && true ≡ true = rw valid_id refl in
        let notification_type =
          string_at j payload ("notification_type" ∷ "notificationType" ∷ []) in
        every_arm _ (event_arms j agent_id event payload id) (
          no_detail,
          (
            no_detail,
            (
              rw valid_id (good_tool_detail payload),
              (
                rw (valid_id, good_permission) refl,
                (
                  no_detail,
                  (
                    rw (valid_id, good_compacting) refl,
                    (
                      no_detail,
                      (
                        rw valid_id (good_error_detail payload),
                        (valid_bound_notification notification_type, tt),
                      ),
                    ),
                  ),
                ),
              ),
            ),
          ),
        )

-- One or two valid reports.
pub record AreSendable (reports : List Report) : Type 0 where
  pub some_reports : 0 < length reports
  pub few_reports : length reports ≤ 2
  pub valid : all valid_report reports ≡ true

valid_identity :
    (id : Text) (cwd file : Option Text)
    → valid_short_string id 256 ≡ true
    → is_none_or cwd valid_path ≡ true
    → is_none_or file valid_path ≡ true
    → valid_report (identity id cwd file) ≡ true
unfolding valid_report
valid_identity id cwd file i c f = rw (i, c, f) refl

module _ (j : Json) (id : Text) where
  replaced :
      (id' : Text) (cwd cwd' file file' : Option Text)
      → valid_report (identity id cwd file) ≡ true
      → valid_report (identity id' cwd' file') ≡ true
      → valid_report (identity id' cwd file) ≡ true
  unfolding valid_report
  replaced id' cwd cwd' file file' i r = ground arith

  alone :
      (cwd file : Option Text) (report : Report)
      → valid_report (identity id cwd file) ≡ true
      → valid_report report ≡ true
      → AreSendable (with_identity j id cwd file (report ∷ []))
  unfolding with_identity
  alone cwd file (identity id' cwd' file') i r = record {
    some_reports = omega arith;
    few_reports = omega arith;
    valid = rw (replaced id' cwd cwd' file file' i r) refl;
  }
  alone cwd file (activity a b c d) i r = record {
    some_reports = omega arith;
    few_reports = omega arith;
    valid = rw (i, r) refl;
  }
  alone cwd file (runtime_ready port) i r = record {
    some_reports = omega arith;
    few_reports = omega arith;
    valid = rw (i, r) refl;
  }
  alone cwd file history_ready i r = record {
    some_reports = omega arith;
    few_reports = omega arith;
    valid = rw (i, r) refl;
  }

  -- The identity takes the place of the one that `SessionStart` made, or comes before the activity.
  with_identity-AreSendable :
      (cwd file : Option Text) (event : String) (report : Report)
      → valid_report (identity id cwd file) ≡ true
      → valid_report report ≡ true
      → AreSendable (with_identity j id cwd file (started_reports j event id report))
  unfolding with_identity started_reports
  with_identity-AreSendable cwd file event report i r =
      elim (Bool-cases (event == "SessionStart")) [
        | inl e ↦ rw e (record {
          some_reports = omega arith;
          few_reports = omega arith;
          valid = rw (i, r) refl;
        })
        | inr e ↦ rw e (alone cwd file report i r)
      ]

module _ (j : Json) (agent_id event : String) (payload : j.Value) where
  open j use {Value}

  abbrev session_text : Option Text
  session_text = string_at j payload ("session_id" ∷ "sessionId" ∷ [])

  abbrev cwd_text : Option Text
  cwd_text = string_at j payload ("cwd" ∷ [])

  abbrev transcript_text : Option Text
  transcript_text = string_at j payload ("transcript_path" ∷ "transcriptPath" ∷ [])

  valid_text :
      (keys : List String)
      → is_none_or (string_at j payload keys) is_absolute ≡ true
      → is_none_or (string_at j payload keys) valid_path ≡ true
  valid_text keys h = elim (Option-cases (string_at j payload keys)) [
    | inl e ↦ rw e refl
    | inr (text, e) ↦ rw e (
        valid_path_of_IsSanitized text (string_at-IsSanitized j payload keys text e)
          (subst (λ o. is_none_or o is_absolute ≡ true) e h))
  ]

  module _ (short : is_none_or session_text (λ id. leb (byte_len id) 256) ≡ true)
      (cwd : is_none_or cwd_text is_absolute ≡ true)
      (file : is_none_or transcript_text is_absolute ≡ true) where
    valid_session : (id : Text) → session_text ≡ some id → valid_short_string id 256 ≡ true
    valid_session id e =
        let fits = subst (λ o. is_none_or o (λ id. leb (byte_len id) 256) ≡ true) e short in
        valid_short_string_of_IsSanitized 256 id 256 (string_at-IsSanitized j payload _ id e)
          (le_of_leb (byte_len id) 256 fits)

    sendable_of_report :
        (id : Text) (report : Report)
        → session_text ≡ some id
        → event_report j agent_id event payload id ≡ some report
        → AreSendable
            (with_identity j id cwd_text transcript_text (started_reports j event id report))
    sendable_of_report id report e r =
        let valid_id = valid_session id e in
        with_identity-AreSendable j id cwd_text transcript_text event report
          (valid_identity id cwd_text transcript_text valid_id (valid_text _ cwd)
            (valid_text _ file))
          (subst (λ o. is_none_or o valid_report ≡ true) r
            (valid_event_report j id valid_id agent_id event payload))

    sendable_of_session :
        (id : Text) (reports : List Report)
        → session_text ≡ some id
        → (event_report j agent_id event payload id >>= λ report.
            some (with_identity j id cwd_text transcript_text (started_reports j event id report)))
          ≡ some reports
        → AreSendable reports
    sendable_of_session id reports e h =
        let (report, r, same) = >>=-eq-some (event_report j agent_id event payload id) _ h in
        subst AreSendable (some-injective _ _ same) (sendable_of_report id report e r)

    -- What the hook reports can be sent.
    pub reports_for_hook-AreSendable :
        (reports : List Report)
        → reports_for_hook j agent_id event payload ≡ some reports
        → AreSendable reports
    unfolding reports_for_hook
    reports_for_hook-AreSendable reports h =
        let (allowed, _, h₁) = >>=-eq-some (allowed_events agent_id) _ h in
        let (id, of_id, h₂) =
          >>=-eq-some (if contains allowed event then session_text else none) _ h₁ in
        sendable_of_session id reports (some_of_if_else (contains allowed event) session_text of_id)
          h₂
