-- ===== src/Terminal/Snapshot.antt =====
-- What a snapshot tells a terminal that is restored from it.
use devhatch.Prelude.{
  nat_eq, option_eq, ℕ, Bool, true, false, ◌≡◌, refl, ap, ◌∙◌, List, [], ◌∷◌, ◌++◌, arith, eqb,
  if◌then◌else◌, some, sym, ◌||◌, ◌==◌, ◌&&◌, subst,
}
use devhatch.Terminal.Lossy.{is_utf8, completes, from_utf8_lossy-append, from_utf8_lossy_lem}
use devhatch.Terminal.Scan.{fresh, scan}
use devhatch.Terminal.State.{
  Csi, TerminalModes, Vt100, TerminalState, new, snapshot, mode_sequences, unhandled_csi, sequence,
  set_modes, when, set_mode,
}
use devhatch.Terminal.Resume.{scan-append, Resumes-scan}
use devhatch.Terminal.Feeds.{Feed, received, feed_all, scanner-feed_all}

scan-modes :
    (a b c : Bool)
    → scan fresh (
        mode_sequences
          (record { focus_events = a; unicode_mode = b; color_scheme_notifications = c }))
      ≡ fresh
unfolding mode_sequences scan
scan-modes true true true = refl
scan-modes true true false = refl
scan-modes true false true = refl
scan-modes true false false = refl
scan-modes false true true = refl
scan-modes false true false = refl
scan-modes false false true = refl
scan-modes false false false = refl

scan-mode_sequences : (modes : TerminalModes) → scan fresh (mode_sequences modes) ≡ fresh
scan-mode_sequences modes =
    scan-modes modes.focus_events modes.unicode_mode modes.color_scheme_notifications

-- Bytes that leave the scanner fresh say nothing of what follows them.
scan-skip : (xs ys : List ℕ) → scan fresh xs ≡ fresh → scan fresh (xs ++ ys) ≡ scan fresh ys
scan-skip xs ys h = scan-append fresh xs ys ∙ ap (λ s. scan s ys) h

scan-alternate : (b : Bool) → scan fresh (when b (sequence "[?1049h")) ≡ fresh
unfolding scan
scan-alternate true = refl
scan-alternate false = refl

is_utf8-modes :
    (a b c : Bool)
    → is_utf8 (
        mode_sequences
          (record { focus_events = a; unicode_mode = b; color_scheme_notifications = c }))
      ≡ true
unfolding mode_sequences completes
is_utf8-modes true true true = refl
is_utf8-modes true true false = refl
is_utf8-modes true false true = refl
is_utf8-modes true false false = refl
is_utf8-modes false true true = refl
is_utf8-modes false true false = refl
is_utf8-modes false false true = refl
is_utf8-modes false false false = refl

is_utf8-alternate : (b : Bool) → is_utf8 (when b (sequence "[?1049h")) ≡ true
unfolding completes
is_utf8-alternate true = refl
is_utf8-alternate false = refl

module _ (v : Vt100) (complete : (p : v.Parser) → scan fresh (v.state_formatted p) ≡ fresh)
    (text : (p : v.Parser) → is_utf8 (v.state_formatted p) ≡ true) where
  snapshot-exact :
      (t : TerminalState v) (fallback : List ℕ)
      → t.terminal_snapshot_unavailable ≡ false
      → is_utf8 t.scanner.pending_sequence ≡ true
      → snapshot v t fallback
        ≡ when (v.alternate_screen t.parser) (sequence "[?1049h")
          ++ (v.state_formatted t.parser ++ (mode_sequences t.modes ++ t.scanner.pending_sequence))
  unfolding snapshot
  snapshot-exact t fallback h u = rw h (
      from_utf8_lossy-append _ _ (is_utf8-alternate (v.alternate_screen t.parser))
      ∙ ap (λ l. when (v.alternate_screen t.parser) (sequence "[?1049h") ++ l)
          (from_utf8_lossy-append _ _ (text t.parser)
            ∙ ap (λ l. v.state_formatted t.parser ++ l)
                (from_utf8_lossy-append _ _ (
                    is_utf8-modes t.modes.focus_events t.modes.unicode_mode
                      t.modes.color_scheme_notifications)
                  ∙ ap (λ l. mode_sequences t.modes ++ l) (from_utf8_lossy_lem _ u))))

  scan-snapshot :
      (t : TerminalState v) (fallback : List ℕ)
      → t.terminal_snapshot_unavailable ≡ false
      → is_utf8 t.scanner.pending_sequence ≡ true
      → scan fresh (snapshot v t fallback) ≡ scan fresh t.scanner.pending_sequence
  scan-snapshot t fallback h u =
      ap (λ l. scan fresh l) (snapshot-exact t fallback h u)
      ∙ scan-skip _ _ (scan-alternate (v.alternate_screen t.parser))
      ∙ scan-skip _ _ (complete t.parser)
      ∙ scan-skip _ _ (scan-mode_sequences t.modes)

  -- Where the formatted screens of vt100 are UTF-8 and end no sequence halfway: while the parser
  -- has not panicked, and if the unfinished sequence at the end of the output is UTF-8 (it may be
  -- cut inside a character, which the snapshot replaces), whoever reads the snapshot of a new
  -- terminal after any output and resizes is left at the same place of that sequence, with the
  -- same bytes of it, as by all the output.
  pub scan-snapshot-feed_all :
      (rows cols : ℕ) (feeds : List Feed) (fallback : List ℕ)
      → (feed_all v (new v rows cols) feeds).terminal_snapshot_unavailable ≡ false
      → is_utf8 (scan fresh (received feeds)).pending_sequence ≡ true
      → scan fresh (snapshot v (feed_all v (new v rows cols) feeds) fallback)
        ≡ scan fresh (received feeds)
  unfolding new
  scan-snapshot-feed_all rows cols feeds fallback h u =
      let same = scanner-feed_all v (new v rows cols) feeds in
      scan-snapshot _ fallback h (subst (λ s. is_utf8 s.pending_sequence ≡ true) (sym same) u)
      ∙ ap (λ s. scan fresh s.pending_sequence) same
      ∙ Resumes-scan (received feeds)

-- The mode that a number names, as `unhandled_csi` reads it.
pub data Mode : Type 0 where
  focus unicode color_scheme : Mode

abbrev pub number : Mode → ℕ
number focus = 1004
number unicode = 2027
number color_scheme = 2031

abbrev pub get_mode : Mode → TerminalModes → Bool
get_mode focus modes = modes.focus_events
get_mode unicode modes = modes.unicode_mode
get_mode color_scheme modes = modes.color_scheme_notifications

-- Whether a parameter of the call begins with the number.
abbrev pub names : ℕ → List (List ℕ) → Bool
names n [] = false
names n ([] ∷ params) = names n params
names n ((m ∷ rest) ∷ params) = eqb m n || names n params

-- A private `h` or `l` sequence sets exactly the modes that it names, to on and to off.
get_mode-set_modes :
    (m : Mode) (enabled : Bool) (modes : TerminalModes) (params : List (List ℕ))
    → get_mode m (set_modes enabled modes params)
      ≡ (if names (number m) params then enabled else get_mode m modes)
unfolding set_modes
get_mode-set_modes m enabled modes [] = refl
get_mode-set_modes m enabled modes ([] ∷ params) = get_mode-set_modes m enabled modes params
get_mode-set_modes focus enabled modes ((n ∷ rest) ∷ params) =
    ground (arith, get_mode-set_modes focus enabled (set_mode enabled modes n) params)
get_mode-set_modes unicode enabled modes ((n ∷ rest) ∷ params) =
    ground (arith, get_mode-set_modes unicode enabled (set_mode enabled modes n) params)
get_mode-set_modes color_scheme enabled modes ((n ∷ rest) ∷ params) =
    ground (arith, get_mode-set_modes color_scheme enabled (set_mode enabled modes n) params)

-- A call of `unhandled_csi` with the intermediate `?` and the action `h` or `l` sets each mode
-- whose number begins a parameter, on for `h` and off for `l`, and leaves the other modes; any
-- other call leaves all of them.
pub get_mode-unhandled_csi :
    (m : Mode) (modes : TerminalModes) (call : Csi)
    → get_mode m (unhandled_csi modes call) ≡ (
        if (call.first_intermediate == some b'?')
          && (eqb call.action b'h' || eqb call.action b'l')
          && names (number m) call.params
        then eqb call.action b'h'
        else get_mode m modes)
unfolding unhandled_csi
get_mode-unhandled_csi m modes call =
    ground (arith, get_mode-set_modes m (eqb call.action b'h') modes call.params)
