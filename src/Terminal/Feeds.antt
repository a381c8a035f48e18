-- ===== src/Terminal/Feeds.antt =====
-- What a session gives its terminal, and what becomes of the scanner and of a parser that panics.
use devhatch.Prelude.{
  nat_eq, option_eq, ℕ, Bool, true, ◌≡◌, refl, ap, List, [], ◌∷◌, ◌++◌, arith, sym, is_none, max,
}
use devhatch.Terminal.Scan.{scan}
use devhatch.Terminal.State.{Vt100, TerminalState, process, resize, snapshot}
use devhatch.Terminal.Resume.{scan-append}

-- What a session does to its terminal.
pub data Feed : Type 0 where
  bytes : List ℕ → Feed
  size : (rows cols : ℕ) → Feed

-- All the bytes that were received.
abbrev pub received : List Feed → List ℕ
received [] = []
received (bytes b ∷ feeds) = b ++ received feeds
received (size rows cols ∷ feeds) = received feeds

module _ (v : Vt100) where
  unfoldable pub feed : TerminalState v → Feed → TerminalState v
  feed t (bytes b) = process v t b
  feed t (size rows cols) = resize v t rows cols

  unfoldable pub feed_all : TerminalState v → List Feed → TerminalState v
  unfolding feed
  feed_all t [] = t
  feed_all t (f ∷ feeds) = feed_all (feed t f) feeds

  scanner-process : (t : TerminalState v) (b : List ℕ) → (process v t b).scanner ≡ scan t.scanner b
  unfolding process
  scanner-process t b = ground arith

  scanner-resize :
      (t : TerminalState v) (rows cols : ℕ) → (resize v t rows cols).scanner ≡ t.scanner
  unfolding resize
  scanner-resize t rows cols = ground arith

  -- The scanner sees every byte, also when the parser has panicked or the size changes.
  pub scanner-feed_all :
      (t : TerminalState v) (feeds : List Feed)
      → (feed_all t feeds).scanner ≡ scan t.scanner (received feeds)
  unfolding feed_all scan
  scanner-feed_all t [] = refl
  scanner-feed_all t (bytes b ∷ feeds) =
      rw (scanner-feed_all (process v t b) feeds, scanner-process t b)
        (sym (scan-append t.scanner b (received feeds)))
  scanner-feed_all t (size rows cols ∷ feeds) =
      rw (scanner-feed_all (resize v t rows cols) feeds)
        (ap (λ s. scan s (received feeds)) (scanner-resize t rows cols))

  unavailable-feed :
      (t : TerminalState v) (f : Feed)
      → t.terminal_snapshot_unavailable ≡ true
      → (feed t f).terminal_snapshot_unavailable ≡ true
  unfolding feed process resize
  unavailable-feed t (bytes b) h = ground arith
  unavailable-feed t (size rows cols) h = ground arith

  snapshot-unavailable :
      (t : TerminalState v) (feeds : List Feed) (fallback : List ℕ)
      → t.terminal_snapshot_unavailable ≡ true
      → snapshot v (feed_all t feeds) fallback ≡ fallback
  unfolding feed_all snapshot
  snapshot-unavailable t [] fallback h = ground arith
  snapshot-unavailable t (f ∷ feeds) fallback h =
      snapshot-unavailable (feed t f) feeds fallback (unavailable-feed t f h)

  -- Whether the call of the parser panics; a terminal has at least two columns.
  abbrev pub panics : v.Parser → Feed → Bool
  panics p (bytes b) = is_none (v.process_bytes p b)
  panics p (size rows cols) = is_none (v.set_size p rows (max cols 2))

  unavailable-panics :
      (t : TerminalState v) (f : Feed)
      → panics t.parser f ≡ true
      → (feed t f).terminal_snapshot_unavailable ≡ true
  unfolding feed process resize
  unavailable-panics t (bytes b) h = ground arith
  unavailable-panics t (size rows cols) h = ground arith

  -- When the parser panics on bytes or on a new size, this and every later snapshot is the
  -- fallback, whatever happens before and next.
  pub snapshot-feed_all_unavailable :
      (t : TerminalState v) (f : Feed) (feeds : List Feed) (fallback : List ℕ)
      → panics t.parser f ≡ true
      → snapshot v (feed_all t (f ∷ feeds)) fallback ≡ fallback
  unfolding feed_all
  snapshot-feed_all_unavailable t f feeds fallback h =
      snapshot-unavailable (feed t f) feeds fallback (unavailable-panics t f h)
