-- ===== src/Terminal/Scan.antt =====
-- `TerminalSequenceState` and `process_sequence_byte` of apps/server/src/session/model.rs.
use devhatch.Prelude.{ℕ, ◌&&◌, ◌||◌, List, [], ◌∷◌, ◌++◌, if◌then◌else◌, leb, eqb}

pub data SequenceState : Type 0 where
  ground escape csi osc osc_escape string string_escape : SequenceState

-- The fields `sequence_state` and `pending_sequence` of `TerminalState`.
pub record Scanner : Type 0 where
  pub sequence_state : SequenceState
  pub pending_sequence : List ℕ

abbrev pub fresh : Scanner
fresh = record { sequence_state = ground; pending_sequence = [] }

-- `start_sequence`, and the branches that clear the bytes and push the new one.
pub start_sequence : SequenceState → ℕ → Scanner
start_sequence state byte = record { sequence_state = state; pending_sequence = byte ∷ [] }

push : SequenceState → List ℕ → ℕ → Scanner
push state pending byte = record { sequence_state = state; pending_sequence = pending ++ byte ∷ [] }

scan_escape : List ℕ → ℕ → Scanner
unfolding start_sequence push
scan_escape pending byte =
    if eqb byte b'['
    then push csi pending byte
    else if eqb byte b']'
    then push osc pending byte
    else if eqb byte b'P' || eqb byte b'X' || eqb byte b'^' || eqb byte b'_'
    then push string pending byte
    else if eqb byte 0x1b
    then start_sequence escape byte
    else if leb 0x20 byte && leb byte 0x2f
    then push escape pending byte
    else fresh

scan_csi : List ℕ → ℕ → Scanner
unfolding start_sequence push
scan_csi pending byte =
    if eqb byte 0x1b
    then start_sequence escape byte
    else if leb 0x40 byte && leb byte 0x7e
    then fresh
    else push csi pending byte

scan_osc : List ℕ → ℕ → Scanner
unfolding push
scan_osc pending byte =
    if eqb byte 0x07 || eqb byte 0x9c
    then fresh
    else if eqb byte 0x1b
    then push osc_escape pending byte
    else push osc pending byte

scan_string : List ℕ → ℕ → Scanner
unfolding push
scan_string pending byte =
    if eqb byte 0x9c
    then fresh
    else if eqb byte 0x1b
    then push string_escape pending byte
    else push string pending byte

-- `OscEscape` and `StringEscape`, where `back` is the state that a byte other than a backslash
-- or an escape returns to.
scan_after_escape : (here back : SequenceState) → List ℕ → ℕ → Scanner
unfolding push
scan_after_escape here back pending byte =
    if eqb byte 0x5c
    then fresh
    else if eqb byte 0x1b
    then push here pending byte
    else push back pending byte

dispatch : SequenceState → List ℕ → ℕ → Scanner
unfolding start_sequence scan_escape scan_csi scan_osc scan_string scan_after_escape
dispatch ground pending byte =
    if eqb byte 0x1b
    then start_sequence escape byte
    else record { sequence_state = ground; pending_sequence = pending }
dispatch escape pending byte = scan_escape pending byte
dispatch csi pending byte = scan_csi pending byte
dispatch osc pending byte = scan_osc pending byte
dispatch osc_escape pending byte = scan_after_escape osc_escape osc pending byte
dispatch string pending byte = scan_string pending byte
dispatch string_escape pending byte = scan_after_escape string_escape string pending byte

unfoldable pub scan_byte : Scanner → ℕ → Scanner
unfolding dispatch
scan_byte s byte = dispatch s.sequence_state s.pending_sequence byte

-- The loop over the bytes of `process`.
unfoldable pub scan : Scanner → List ℕ → Scanner
unfolding scan_byte
scan s [] = s
scan s (byte ∷ bytes) = scan (scan_byte s byte) bytes
