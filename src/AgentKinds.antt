-- ===== src/AgentKinds.antt =====
-- The kinds of agents, of apps/server/src/agent/kind.rs.
mod Tests
use mathlib.Core.Option.{some-injective}
use devhatch.Prelude.{
  ℕ, zero, suc, ◌+◌, ◌-◌, ◌*◌, ◌≤◌, ◌<◌, min, max, String, ◌≡◌, refl, sym, ap, ◌∙◌, subst, ◌≢◌, ◌↔◌,
  ◌⊎◌, inl, inr, Bool, true, false, not, ◌&&◌, ◌||◌, Option, none, some, List, [], ◌∷◌, ◌++◌, arith,
  if◌then◌else◌, ltb, leb, eqb, Bool-cases, Option-cases, is_some, is_none, is_some_and, is_none_or,
  any, all, keep, All, length, ◌==◌, saturating_sub, nat_eq, string_eq, option_eq, codes,
  saturating_add,
}

pub data AgentKind : Type 0 where
  codex open_code trae_cli pi : AgentKind

pub data HistoryBackend : Type 0 where
  codex open_code trae pi : HistoryBackend

abbrev all_kinds : List AgentKind
all_kinds = AgentKind.codex ∷ AgentKind.open_code ∷ trae_cli ∷ AgentKind.pi ∷ []

unfoldable pub as_str : AgentKind → String
as_str AgentKind.codex = "codex"
as_str AgentKind.open_code = "opencode"
as_str trae_cli = "traecli"
as_str AgentKind.pi = "pi"

unfoldable pub kind_name : AgentKind → String
kind_name AgentKind.codex = "Codex"
kind_name AgentKind.open_code = "OpenCode"
kind_name trae_cli = "Trae CLI"
kind_name AgentKind.pi = "Pi Agent"

unfoldable pub diagnostic : AgentKind → String
diagnostic AgentKind.codex = "CODEX_NOT_FOUND"
diagnostic AgentKind.open_code = "OPENCODE_NOT_FOUND"
diagnostic trae_cli = "TRAECLI_NOT_FOUND"
diagnostic AgentKind.pi = "PI_NOT_FOUND"

unfoldable pub installable : AgentKind → Bool
installable trae_cli = false
installable AgentKind.codex = true
installable AgentKind.open_code = true
installable AgentKind.pi = true

unfoldable pub history_backend : AgentKind → HistoryBackend
history_backend AgentKind.codex = HistoryBackend.codex
history_backend AgentKind.open_code = HistoryBackend.open_code
history_backend trae_cli = HistoryBackend.trae
history_backend AgentKind.pi = HistoryBackend.pi

unfoldable pub try_from : String → Option AgentKind
try_from value =
    if value == "codex"
    then some AgentKind.codex
    else if value == "opencode"
    then some AgentKind.open_code
    else if value == "traecli"
    then some trae_cli
    else if value == "pi"
    then some AgentKind.pi
    else none

pub record AgentDefinition : Type 0 where
  pub kind : AgentKind
  pub supports_resume : Bool
  pub supports_skills : Bool

abbrev defined : AgentKind → AgentDefinition
defined k = record { kind = k; supports_resume = true; supports_skills = true }

unfoldable pub agents : List AgentDefinition
agents =
    defined AgentKind.codex
    ∷ defined AgentKind.open_code
    ∷ defined trae_cli
    ∷ defined AgentKind.pi
    ∷ []

-- `PartialEq` of the kinds compares the places of the constructors.
abbrev kind_place : AgentKind → ℕ
kind_place AgentKind.codex = 0
kind_place AgentKind.open_code = 1
kind_place trae_cli = 2
kind_place AgentKind.pi = 3

unfoldable pub find_definition : AgentKind → List AgentDefinition → Option AgentDefinition
find_definition k [] = none
find_definition k (agent ∷ agents) =
    let rest = find_definition k agents in
    if eqb (kind_place agent.kind) (kind_place k) then some agent else rest

unfoldable pub supported : String → Bool
unfolding try_from
supported agent_id = is_some (try_from agent_id)

try_from-as_str : (k : AgentKind) → try_from (as_str k) ≡ some k
unfolding try_from as_str
try_from-as_str AgentKind.codex = refl
try_from-as_str AgentKind.open_code = refl
try_from-as_str trae_cli = refl
try_from-as_str AgentKind.pi = refl

test_string : (a b : String) → a == b ≡ true → a ≡ b
test_string a b h = (string_eq.same_iff a b).0 h

not_supported :
    (value : String)
    → (value == "codex") ≡ false
    → (value == "opencode") ≡ false
    → (value == "traecli") ≡ false
    → (value == "pi") ≡ false
    → try_from value ≡ none
unfolding try_from
not_supported value c o t p = rw (c, o, t, p) refl

as_str-known :
    (value : String) (k : AgentKind)
    → try_from value ≡ some k
    → (known : AgentKind) → value ≡ as_str known
    → as_str k ≡ value
as_str-known value k h known e =
    ap as_str (some-injective k known (sym h ∙ ap try_from e ∙ try_from-as_str known)) ∙ sym e

-- A text that is read as a kind is the identifier of that kind.
as_str-try_from : (value : String) (k : AgentKind) → try_from value ≡ some k → as_str k ≡ value
unfolding as_str
as_str-try_from value k h = elim (Bool-cases (value == "codex")) [
  | inl e ↦ as_str-known value k h AgentKind.codex (test_string value "codex" e)
  | inr c ↦ elim (Bool-cases (value == "opencode")) [
    | inl e ↦ as_str-known value k h AgentKind.open_code (test_string value "opencode" e)
    | inr o ↦ elim (Bool-cases (value == "traecli")) [
      | inl e ↦ as_str-known value k h trae_cli (test_string value "traecli" e)
      | inr t ↦ elim (Bool-cases (value == "pi")) [
        | inl e ↦ as_str-known value k h AgentKind.pi (test_string value "pi" e)
        | inr p ↦ cc (h, not_supported value c o t p)
      ]
    ]
  ]
]

-- A text is read as a kind exactly when it is the identifier of that kind, so that no two kinds have
-- the same identifier and no other text is supported.
pub try_from_iff : (value : String) (k : AgentKind) → try_from value ≡ some k ↔ as_str k ≡ value
try_from_iff value k =
    (as_str-try_from value k, λ h. subst (λ v. try_from v ≡ some k) h (try_from-as_str k))

-- Every kind has a definition in the table, with that kind, and its identifier is supported.
pub find_definition-agents :
    (k : AgentKind)
    → (d : AgentDefinition) × (find_definition k agents ≡ some d)
      × (d.kind ≡ k)
      × (supported (as_str k) ≡ true)
unfolding find_definition agents supported try_from as_str
find_definition-agents AgentKind.codex = (_, refl, refl, refl)
find_definition-agents AgentKind.open_code = (_, refl, refl, refl)
find_definition-agents trae_cli = (_, refl, refl, refl)
find_definition-agents AgentKind.pi = (_, refl, refl, refl)
