-- ===== src/Terminal/State.antt =====
-- `TerminalModes` and `TerminalState` of apps/server/src/session/model.rs.
use devhatch.Prelude.{
  ℕ, String, Bool, true, false, ◌||◌, not, List, [], ◌∷◌, ◌++◌, Option, none, some, max,
  if◌then◌else◌, eqb, codes, ◌==◌, option_eq, nat_eq,
}
use devhatch.Terminal.Lossy.{from_utf8_lossy}
use devhatch.Terminal.Scan.{Scanner, fresh, scan}

-- The arguments of a call of `unhandled_csi`.
pub record Csi : Type 0 where
  pub first_intermediate : Option ℕ
  pub params : List (List ℕ)
  pub action : ℕ

pub record TerminalModes : Type 0 where
  pub focus_events : Bool
  pub unicode_mode : Bool
  pub color_scheme_notifications : Bool

abbrev pub default_modes : TerminalModes
default_modes = record {
  focus_events = false;
  unicode_mode = false;
  color_scheme_notifications = false;
}

unfoldable pub set_mode : Bool → TerminalModes → ℕ → TerminalModes
set_mode enabled modes mode =
    if eqb mode 1004
    then record modes { focus_events = enabled }
    else if eqb mode 2027
    then record modes { unicode_mode = enabled }
    else if eqb mode 2031
    then record modes { color_scheme_notifications = enabled }
    else modes

-- `params.iter().filter_map(|param| param.first())`
unfoldable pub set_modes : Bool → TerminalModes → List (List ℕ) → TerminalModes
unfolding set_mode
set_modes enabled modes [] = modes
set_modes enabled modes ([] ∷ params) = set_modes enabled modes params
set_modes enabled modes ((mode ∷ rest) ∷ params) =
    set_modes enabled (set_mode enabled modes mode) params

unfoldable pub unhandled_csi : TerminalModes → Csi → TerminalModes
unfolding set_modes
unhandled_csi modes call =
    if not (call.first_intermediate == some b'?')
      || not (eqb call.action b'h' || eqb call.action b'l')
    then modes
    else set_modes (eqb call.action b'h') modes call.params

unfoldable pub call_back : TerminalModes → List Csi → TerminalModes
unfolding unhandled_csi
call_back modes [] = modes
call_back modes (call ∷ calls) = call_back (unhandled_csi modes call) calls

-- The vt100 library. `none` is a panic, which the program catches; `process` also returns the
-- calls of `unhandled_csi` that it made.
pub record Vt100 : Type 1 where
  pub Parser : Type 0
  pub new_parser : (rows cols : ℕ) → Parser
  pub process_bytes : Parser → List ℕ → Option (Parser × List Csi)
  pub set_size : Parser → (rows cols : ℕ) → Option Parser
  pub alternate_screen : Parser → Bool
  pub state_formatted : Parser → List ℕ

abbrev pub min_reliable_terminal_cols : ℕ
min_reliable_terminal_cols = 2

abbrev pub when : Bool → List ℕ → List ℕ
when true bytes = bytes
when false bytes = []

-- The escape byte and a text.
abbrev pub sequence : String → List ℕ
sequence text = 0x1b ∷ codes text

-- The sequences that turn on the modes which vt100 does not keep.
unfoldable pub mode_sequences : TerminalModes → List ℕ
mode_sequences modes =
    when modes.focus_events (sequence "[?1004h")
    ++ (when modes.unicode_mode (sequence "[?2027h")
        ++ when modes.color_scheme_notifications (sequence "[?2031h"))

module _ (v : Vt100) where
  open v use {Parser, new_parser, process_bytes, set_size, alternate_screen, state_formatted}

  pub record TerminalState : Type 0 where
    pub parser : Parser
    pub modes : TerminalModes
    pub scanner : Scanner
    pub terminal_snapshot_unavailable : Bool

  unfoldable pub new : (rows cols : ℕ) → TerminalState
  new rows cols = record {
    parser = new_parser rows (max cols min_reliable_terminal_cols);
    modes = default_modes;
    scanner = fresh;
    terminal_snapshot_unavailable = false;
  }

  -- The first statement of `process`. After a panic the parser is not read again.
  run_parser : TerminalState → List ℕ → TerminalState
  run_parser t bytes = elim (process_bytes t.parser bytes) [
    | none ↦ record t { terminal_snapshot_unavailable = true }
    | some (p, calls) ↦ record t { parser = p; modes = call_back t.modes calls }
  ]

  unfoldable pub process : TerminalState → List ℕ → TerminalState
  unfolding run_parser
  process t bytes =
      let t' = if t.terminal_snapshot_unavailable then t else run_parser t bytes in
      record t' { scanner = scan t'.scanner bytes }

  unfoldable pub resize : TerminalState → (rows cols : ℕ) → TerminalState
  resize t rows cols =
      if t.terminal_snapshot_unavailable
      then t
      else elim (set_size t.parser rows (max cols min_reliable_terminal_cols)) [
        | none ↦ record t { terminal_snapshot_unavailable = true }
        | some p ↦ record t { parser = p }
      ]

  -- The bytes of the snapshot.
  unfoldable pub snapshot : TerminalState → List ℕ → List ℕ
  unfolding mode_sequences
  snapshot t fallback =
      if t.terminal_snapshot_unavailable
      then fallback
      else from_utf8_lossy (
          when (alternate_screen t.parser) (sequence "[?1049h")
          ++ (state_formatted t.parser ++ (mode_sequences t.modes ++ t.scanner.pending_sequence)))
