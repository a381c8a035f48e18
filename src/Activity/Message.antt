-- ===== src/Activity/Message.antt =====
-- The message types, `validate_envelope` and `valid_report` of
-- apps/server/src/agent/runtime/activity.rs. A text that the code walks is the list of its code
-- points; `serde_json` is a parameter.
use devhatch.ConstantTime.{constant_time_eq}
use devhatch.Prelude.{
  ℕ, ◌*◌, String, Bool, true, false, not, ◌&&◌, ◌||◌, Option, none, some, List, [], ◌∷◌,
  if◌then◌else◌, ltb, leb, eqb, is_none_or, any, all, length, ◌==◌, nat_eq, string_eq, option_eq,
  is_empty, byte_len,
}

abbrev pub Text : Type 0
Text = List ℕ

abbrev pub protocol_version : ℕ
protocol_version = 1

abbrev pub max_message_bytes : ℕ
max_message_bytes = 16 * 1024

abbrev pub max_detail_chars : ℕ
max_detail_chars = 512

abbrev pub max_reports : ℕ
max_reports = 2

pub data ReportStatus : Type 0 where
  idle busy retry waiting error : ReportStatus

pub data ReportPhase : Type 0 where
  idle thinking tool permission question retry error : ReportPhase

pub data Report : Type 0 where
  activity : (upstream_id : Text) → ReportStatus → ReportPhase → (detail : Option Text) → Report
  identity : (upstream_id : Text) → (cwd file : Option Text) → Report
  runtime_ready : (port : ℕ) → Report
  history_ready : Report

pub record Descriptor : Type 0 where
  pub version : ℕ
  pub token : List ℕ
  pub session_id : String
  pub agent_id : String
  pub instance_id : String
  pub hook_instance : String

pub record Envelope : Type 0 where
  pub version : ℕ
  pub token : List ℕ
  pub session_id : String
  pub agent_id : String
  pub instance_id : String
  pub sequence : ℕ
  pub reports : List Report

-- The last sequence number of each instance; an absent key is 0, as `or_default` makes it.
abbrev pub Sequences : Type 0
Sequences = String → ℕ

-- `char::is_control`
unfoldable pub is_control : ℕ → Bool
is_control c = leb c 0x1f || leb 0x7f c && leb c 0x9f

abbrev pub is_break : ℕ → Bool
is_break c = eqb c 0 || eqb c 0x0d || eqb c 0x0a

unfoldable pub valid_short_string : Text → ℕ → Bool
valid_short_string value maximum =
    not (is_empty value) && leb (byte_len value) maximum && not (any is_break value)

-- `Path::is_absolute` on Unix.
abbrev pub is_absolute : Text → Bool
is_absolute [] = false
is_absolute (c ∷ cs) = eqb c b'/'

unfoldable pub valid_path : Text → Bool
valid_path path = is_absolute path && leb (byte_len path) 4096 && not (any (λ c. eqb c 0) path)

unfoldable pub valid_detail : Text → Bool
unfolding is_control
valid_detail value = leb (length value) max_detail_chars && not (any is_control value)

unfoldable pub valid_report : Report → Bool
unfolding valid_short_string valid_detail valid_path
valid_report (activity upstream_id status phase detail) =
    valid_short_string upstream_id 256
    && is_none_or detail (λ d. valid_detail d && not (is_empty d))
valid_report (identity upstream_id cwd file) =
    valid_short_string upstream_id 256 && is_none_or cwd valid_path && is_none_or file valid_path
valid_report (runtime_ready port) = true
valid_report history_ready = true

-- The long condition of `validate_envelope`.
unfoldable pub rejected : Envelope → Descriptor → Bool
rejected e d =
    not (e.version == protocol_version)
    || not (d.version == protocol_version)
    || not (constant_time_eq e.token d.token)
    || not (e.session_id == d.session_id)
    || not (e.agent_id == d.agent_id)
    || not (e.instance_id == d.instance_id || e.instance_id == d.hook_instance)
    || e.sequence == 0
    || is_empty e.reports
    || ltb max_reports (length e.reports)
    || not (all valid_report e.reports)

abbrev pub set_sequence : Sequences → String → ℕ → Sequences
set_sequence sequences instance_id sequence other =
    if instance_id == other then sequence else sequences other

unfoldable pub validate_decoded : Envelope → Descriptor → Sequences → Option (Envelope × Sequences)
validate_decoded e d sequences =
    if rejected e d
    then none
    else if leb e.sequence (sequences e.instance_id)
    then none
    else some (e, set_sequence sequences e.instance_id e.sequence)

module _ (decode : List ℕ → Option Envelope) where
  -- The accepted envelope, and the map after it; a refused message leaves the map.
  unfoldable pub validate_envelope : List ℕ → Descriptor → Sequences → Option (Envelope × Sequences)
  unfolding validate_decoded
  validate_envelope bytes d sequences =
      if is_empty bytes || ltb max_message_bytes (length bytes)
      then none
      else elim (decode bytes) [ none ↦ none | some e ↦ validate_decoded e d sequences ]
