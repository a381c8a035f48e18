-- ===== src/Activity/Hook.antt =====
-- `reports_for_hook` and its helpers, of apps/server/src/agent/runtime/activity.rs: what a hook of
-- Codex or the Trae CLI reports for an event. The JSON values of `serde_json` are a parameter.
use devhatch.Activity.Message.{
  Text, Report, activity, identity, ReportStatus, ReportPhase, Envelope, Descriptor,
  protocol_version, max_message_bytes, is_control, max_detail_chars,
}
use devhatch.Prelude.{
  is_whitespace, trim_start, trim_end, map_some, or_else, ◌>>=◌, ℕ, ◌-◌, String, Bool, false, not,
  ◌&&◌, ◌||◌, Option, none, some, List, [], ◌∷◌, ◌++◌, if◌then◌else◌, ltb, keep, length, ◌==◌,
  nat_eq, string_eq, option_eq, codes, is_empty, take, list_beq, list_eq, nat_eq,
}

-- What the hook reads of `serde_json::Value`: `get` of a key, and `as_str`.
pub record Json : Type 1 where
  pub Value : Type 0
  pub get : Value → String → Option Value
  pub as_str : Value → Option Text

unfoldable pub sanitize_string : Text → ℕ → Option Text
unfolding is_control trim_start trim_end is_whitespace
sanitize_string value maximum =
    let kept = trim_end (trim_start (take maximum (keep (λ c. not (is_control c)) value))) in
    if is_empty kept then none else some kept

abbrev pub contains : List String → String → Bool
contains [] event = false
contains (e ∷ es) event = e == event || contains es event

abbrev pub codex_id : String
codex_id = "codex"

abbrev pub traecli_id : String
traecli_id = "traecli"

abbrev pub codex_events : List String
codex_events =
    "SessionStart" ∷ "UserPromptSubmit" ∷ "PreToolUse" ∷ "PermissionRequest" ∷ "PostToolUse"
    ∷ "PreCompact" ∷ "PostCompact" ∷ "SubagentStart" ∷ "SubagentStop" ∷ "Stop" ∷ "SessionEnd" ∷ []

abbrev pub trae_events : List String
trae_events =
    "SessionStart" ∷ "UserPromptSubmit" ∷ "PreToolUse" ∷ "PermissionRequest" ∷ "PostToolUse"
    ∷ "PostToolUseFailure" ∷ "PreCompact" ∷ "PostCompact" ∷ "SubagentStart" ∷ "SubagentStop"
    ∷ "Stop" ∷ "SessionEnd" ∷ "Interrupt" ∷ "Notification" ∷ []

unfoldable pub allowed_events : String → Option (List String)
allowed_events agent_id =
    if agent_id == codex_id
    then some codex_events
    else if agent_id == traecli_id
    then some trae_events
    else none

-- The value of the first arm that is taken; the arm for everything else returns.
unfoldable pub first_arm {ℓ} : {A : Type ℓ} → List (Bool × Option A) → Option A
first_arm [] = none
first_arm ((taken, made) ∷ arms) = let others = first_arm arms in if taken then made else others

module _ (j : Json) where
  open j use {Value, get, as_str}

  -- `keys.iter().find_map(|key| value.get(key).and_then(Value::as_str))`
  unfoldable pub find_text : Value → List String → Option Text
  find_text value [] = none
  find_text value (key ∷ keys) = or_else (get value key >>= as_str) (find_text value keys)

  unfoldable pub string_at : Value → List String → Option Text
  string_at value keys = find_text value keys >>= λ text. sanitize_string text 256

  unfoldable pub detail_from : Value → List String → Option Text
  detail_from value keys =
      find_text value keys >>= λ text. sanitize_string text (max_detail_chars - 8)

  unfoldable pub error_detail : Value → Option Text
  error_detail value =
      or_else (detail_from value ("error_message" ∷ "errorMessage" ∷ "message" ∷ "error" ∷ []))
        (get value "error" >>= λ error. detail_from error ("message" ∷ "name" ∷ []))

  unfoldable pub tool_detail : Value → Option Text
  tool_detail payload =
      map_some (λ detail. codes "Running " ++ detail)
        (detail_from payload
          ("tool_name" ∷ "toolName" ∷ "tool" ∷ "name" ∷ "agent_type" ∷ "agentType" ∷ []))

  unfoldable pub waiting_for_permission : Text → Report
  waiting_for_permission upstream_id =
      activity upstream_id ReportStatus.waiting ReportPhase.permission
        (some (codes "Waiting for permission"))

  unfoldable pub notification_report : Text → Text → Option Report
  unfolding waiting_for_permission
  notification_report upstream_id kind =
      if list_beq kind (codes "permission_prompt")
      then some (waiting_for_permission upstream_id)
      else if list_beq kind (codes "idle_prompt")
      then some (
          activity upstream_id ReportStatus.waiting ReportPhase.question
            (some (codes "Waiting for answer")))
      else none

  -- The arms of the `match` on the event, in order: when an arm is taken, and the activity that it
  -- makes.
  unfoldable pub event_arms : String → String → Value → Text → List (Bool × Option Report)
  unfolding tool_detail waiting_for_permission notification_report
  event_arms agent_id event payload upstream_id =
      let thinking = activity upstream_id ReportStatus.busy ReportPhase.thinking none in
      let stopped = activity upstream_id ReportStatus.idle ReportPhase.idle none in
      let tool = activity upstream_id ReportStatus.busy ReportPhase.tool (tool_detail payload) in
      let compacting =
        activity upstream_id ReportStatus.busy ReportPhase.thinking
          (some (codes "Compacting context")) in
      let failed =
        activity upstream_id ReportStatus.error ReportPhase.error (error_detail payload) in
      let notification_type = string_at payload ("notification_type" ∷ "notificationType" ∷ []) in
      (event == "SessionStart", some stopped)
      ∷ (event == "UserPromptSubmit", some thinking)
      ∷ (event == "PreToolUse" || event == "SubagentStart", some tool)
      ∷ (event == "PermissionRequest", some (waiting_for_permission upstream_id))
      ∷ (event == "PostToolUse" || event == "PostCompact" || event == "SubagentStop", some thinking)
      ∷ (event == "PreCompact", some compacting)
      ∷ (event == "Stop" || event == "SessionEnd" || event == "Interrupt", some stopped)
      ∷ (event == "PostToolUseFailure" && agent_id == traecli_id, some failed)
      ∷ (
        event == "Notification" && agent_id == traecli_id,
        notification_type >>= notification_report upstream_id,
      )
      ∷ []

  unfoldable pub event_report : String → String → Value → Text → Option Report
  unfolding event_arms
  event_report agent_id event payload upstream_id =
      first_arm (event_arms agent_id event payload upstream_id)

  -- The list that the `match` makes of the activity: `SessionStart` puts an identity with empty
  -- paths before it.
  unfoldable pub started_reports : String → Text → Report → List Report
  started_reports event upstream_id report =
      if event == "SessionStart" then identity upstream_id none none ∷ report ∷ [] else report ∷ []

  -- The paths are put into an identity at the front, or an identity with them is put in front.
  unfoldable pub with_identity : Text → Option Text → Option Text → List Report → List Report
  with_identity upstream_id cwd file (identity id _ _ ∷ reports) = identity id cwd file ∷ reports
  with_identity upstream_id cwd file reports = identity upstream_id cwd file ∷ reports

  unfoldable pub reports_for_hook : String → String → Value → Option (List Report)
  unfolding allowed_events event_report started_reports with_identity
  reports_for_hook agent_id event payload = do
    allowed ← allowed_events agent_id
    upstream_id ←
        (if contains allowed event
          then string_at payload ("session_id" ∷ "sessionId" ∷ [])
          else none)
    report ← event_report agent_id event payload upstream_id
    some (
        with_identity upstream_id (string_at payload ("cwd" ∷ []))
          (string_at payload ("transcript_path" ∷ "transcriptPath" ∷ []))
          (started_reports event upstream_id report))

  unfoldable pub hook_envelope : Descriptor → ℕ → List Report → Envelope
  hook_envelope d sequence reports = record {
    version = protocol_version;
    token = d.token;
    session_id = d.session_id;
    agent_id = d.agent_id;
    instance_id = d.hook_instance;
    sequence = sequence;
    reports = reports;
  }

  -- The bytes that `run_hook` sends for the payload that it read and the sequence number that it
  -- took, if it sends any.
  unfoldable pub run_hook : (Envelope → List ℕ) → Descriptor → String → Value → ℕ → Option (List ℕ)
  unfolding hook_envelope
  run_hook encode d event payload sequence = do
    reports ← reports_for_hook d.agent_id event payload
    let message = encode (hook_envelope d sequence reports)
    if ltb max_message_bytes (length message) then none else some message
