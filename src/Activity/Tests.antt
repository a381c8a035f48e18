-- ===== src/Activity/Tests.antt =====
-- Runs of the activity messages.
use devhatch.Activity.Message.{
  Descriptor, Envelope, Report, Text, Sequences, activity, identity, ReportStatus, ReportPhase,
  validate_envelope, valid_report, set_sequence, rejected,
}
use devhatch.Activity.Hook.{
  Json, reports_for_hook, run_hook, hook_envelope, string_at, find_text, sanitize_string, first_arm,
}
use devhatch.ConstantTime.{constant_time_eq}
use devhatch.Activity.Replay.{accepted-Advances, accepted, Advances}
use devhatch.Activity.Delivery.{validate_envelope-run_hook}
use mathlib.Core.Option.{some-injective}
use devhatch.Prelude.{
  ℕ, String, ◌≡◌, refl, sym, ap, ◌∙◌, Option, none, some, List, [], ◌∷◌, arith, if◌then◌else◌, ◌==◌,
  nat_eq, string_eq, option_eq, codes,
}

-- A value that is a text, or an object of texts.
data TestValue : Type 0 where
  text : Text → TestValue
  object : List (String × String) → TestValue

abbrev get_field : List (String × String) → String → Option TestValue
get_field [] key = none
get_field ((k, v) ∷ fields) key = if k == key then some (text (codes v)) else get_field fields key

abbrev get_test : TestValue → String → Option TestValue
get_test (text t) key = none
get_test (object fields) key = get_field fields key

abbrev text_test : TestValue → Option Text
text_test (text t) = some t
text_test (object fields) = none

abbrev json : Json
json = record { Value = TestValue; get = get_test; as_str = text_test }

abbrev started : TestValue
started = object (("session_id", "thread-1") ∷ ("cwd", "/work") ∷ [])

abbrev descriptor : Descriptor
descriptor = record {
  version = 1;
  token = 7 ∷ 9 ∷ [];
  session_id = "s";
  agent_id = "codex";
  instance_id = "plugin";
  hook_instance = "hook";
}

abbrev started_reports_test : List Report
started_reports_test =
    identity (codes "thread-1") (some (codes "/work")) none
    ∷ activity (codes "thread-1") ReportStatus.idle ReportPhase.idle none
    ∷ []

reports_for_hook-started :
    reports_for_hook json "codex" "SessionStart" started ≡ some started_reports_test
unfolding string_at find_text sanitize_string run_hook reports_for_hook first_arm
reports_for_hook-started = refl

reports_for_hook-unknown : reports_for_hook json "codex" "Notification" started ≡ none
unfolding string_at find_text sanitize_string run_hook reports_for_hook first_arm
reports_for_hook-unknown = refl

abbrev sent : Envelope
sent = hook_envelope json descriptor 3 started_reports_test

-- A decoder that knows one message.
abbrev decode_test : List ℕ → Option Envelope
decode_test [] = none
decode_test (b ∷ bytes) = some sent

abbrev encode_test : Envelope → List ℕ
encode_test e = 123 ∷ e.sequence ∷ 125 ∷ []

abbrev unused : Sequences
unused instance_id = 0

accepted_test : accepted decode_test descriptor unused ((1 ∷ []) ∷ (1 ∷ []) ∷ []) ≡ sent ∷ []
unfolding accepted validate_envelope rejected hook_envelope constant_time_eq valid_report
accepted_test = refl

accepted-Advances_example :
    Advances decode_test descriptor
      (accepted decode_test descriptor unused ((1 ∷ []) ∷ (1 ∷ []) ∷ []))
accepted-Advances_example = accepted-Advances decode_test descriptor ((1 ∷ []) ∷ (1 ∷ []) ∷ [])

round_trip_test :
    (reports : List Report)
    → reports_for_hook json "codex" "SessionStart" started ≡ some reports
    → decode_test (encode_test (hook_envelope json descriptor 3 reports))
      ≡ some (hook_envelope json descriptor 3 reports)
round_trip_test reports h =
    ap (λ r. some (hook_envelope json descriptor 3 r))
      (some-injective started_reports_test reports (sym reports_for_hook-started ∙ h))

validate_envelope-run_hook_example :
    (reports : List Report) × (reports_for_hook json "codex" "SessionStart" started ≡ some reports)
    × (validate_envelope decode_test (123 ∷ 3 ∷ 125 ∷ []) descriptor unused
        ≡ some (hook_envelope json descriptor 3 reports, set_sequence unused "hook" 3))
unfolding string_at find_text sanitize_string run_hook reports_for_hook first_arm
validate_envelope-run_hook_example =
    validate_envelope-run_hook encode_test decode_test refl json descriptor "SessionStart" started 3
      unused (123 ∷ 3 ∷ 125 ∷ []) round_trip_test refl (omega arith) refl refl refl refl
