-- ===== src/Terminal/Resume.antt =====
-- The pending bytes stand for the scanner: what is kept, and what a replay of them gives.
use devhatch.Prelude.{
  ℕ, ◌≡◌, refl, sym, ap, ◌∙◌, List, [], ◌∷◌, ◌++◌, arith, append_assoc, append-nil, ◌⊎◌, inl, inr,
  ◌≢◌, subst,
}
use devhatch.Terminal.Scan.{SequenceState, escape, Scanner, fresh, scan_byte, scan}

pub scan-append : (s : Scanner) (xs ys : List ℕ) → scan s (xs ++ ys) ≡ scan (scan s xs) ys
unfolding scan
scan-append s [] ys = refl
scan-append s (x ∷ xs) ys = scan-append (scan_byte s x) xs ys

abbrev pub Resumes : Scanner → Type 0
Resumes s = scan fresh s.pending_sequence ≡ s

-- One byte ends the sequence, starts a new one, is kept after the others, or changes nothing.
abbrev Outcome : Scanner → ℕ → Scanner → Type 0
Outcome s byte s' =
    (s' ≡ fresh)
    ⊎ (byte ≡ 0x1b) × (s' ≡ record { sequence_state = escape; pending_sequence = 0x1b ∷ [] })
    ⊎ (s'.pending_sequence ≡ s.pending_sequence ++ byte ∷ [])
      × (s'.sequence_state ≢ SequenceState.ground)
      × (s.sequence_state ≢ SequenceState.ground)
    ⊎ (s' ≡ s) × (s.sequence_state ≡ SequenceState.ground)

Outcome-dispatch :
    (state : SequenceState) (pending : List ℕ) (byte : ℕ)
    → let s : Scanner = record { sequence_state = state; pending_sequence = pending } in
      Outcome s byte (scan_byte s byte)
unfolding scan_byte
Outcome-dispatch SequenceState.ground pending byte = ground arith
Outcome-dispatch escape pending byte = ground arith
Outcome-dispatch _ pending byte = ground arith

Outcome-scan_byte : (s : Scanner) (byte : ℕ) → Outcome s byte (scan_byte s byte)
Outcome-scan_byte s byte = Outcome-dispatch s.sequence_state s.pending_sequence byte

Resumes-keeps :
    (s : Scanner) (byte : ℕ)
    → Resumes s
    → (scan_byte s byte).pending_sequence ≡ s.pending_sequence ++ byte ∷ []
    → Resumes (scan_byte s byte)
unfolding scan
Resumes-keeps s byte h kept =
    ap (scan fresh) kept
    ∙ scan-append fresh s.pending_sequence (byte ∷ [])
    ∙ ap (λ t. scan t (byte ∷ [])) h

Resumes-fresh : Resumes fresh
unfolding scan
Resumes-fresh = refl

Resumes-start : Resumes (record { sequence_state = escape; pending_sequence = 0x1b ∷ [] })
unfolding scan
Resumes-start = refl

-- Replaying the pending bytes brings the scanner back, whatever byte comes next.
Resumes-scan_byte : (s : Scanner) (byte : ℕ) → Resumes s → Resumes (scan_byte s byte)
Resumes-scan_byte s byte h = elim (Outcome-scan_byte s byte) [
  | inl ended ↦ rw ended Resumes-fresh
  | inr (inl (_, started)) ↦ rw started Resumes-start
  | inr (inr (inl (kept, _, _))) ↦ Resumes-keeps s byte h kept
  | inr (inr (inr (same, _))) ↦ rw same h
]

Resumes-scan_from : (s : Scanner) (bytes : List ℕ) → Resumes s → Resumes (scan s bytes)
unfolding scan
Resumes-scan_from s [] h = h
Resumes-scan_from s (byte ∷ bytes) h =
    Resumes-scan_from (scan_byte s byte) bytes (Resumes-scan_byte s byte h)

-- Whatever bytes a terminal has received, scanning the pending ones alone from a fresh scanner
-- gives the scanner that it has.
pub Resumes-scan : (bytes : List ℕ) → Resumes (scan fresh bytes)
Resumes-scan bytes = Resumes-scan_from fresh bytes Resumes-fresh

-- What `pending_sequence` holds after the bytes `stream`.
pub record IsPending (stream : List ℕ) (s : Scanner) : Type 0 where
  pub before : List ℕ
  pub splits : stream ≡ before ++ s.pending_sequence
  pub none_on_ground : s.sequence_state ≡ SequenceState.ground → s.pending_sequence ≡ []
  pub from_escape :
      (s.pending_sequence ≡ []) ⊎ ((rest : List ℕ) × (s.pending_sequence ≡ 0x1b ∷ rest))
  pub ground_on_none : s.pending_sequence ≡ [] → s.sequence_state ≡ SequenceState.ground

module _ {stream : List ℕ} {s : Scanner} (byte : ℕ) (p : IsPending stream s) where
  IsPending-fresh : IsPending (stream ++ byte ∷ []) fresh
  IsPending-fresh = record {
    before = stream ++ byte ∷ [];
    splits = sym (append-nil _);
    none_on_ground = λ _. refl;
    from_escape = inl refl;
    ground_on_none = λ _. refl;
  }

  IsPending-start :
      byte ≡ 0x1b
      → IsPending
          (stream ++ byte ∷ [])
          (record { sequence_state = escape; pending_sequence = 0x1b ∷ [] })
  IsPending-start e = record {
    before = stream;
    splits = rw e refl;
    none_on_ground = λ h. cc;
    from_escape = inr ([], refl);
    ground_on_none = λ h. cc;
  }

  IsPending-same : s.sequence_state ≡ SequenceState.ground → IsPending (stream ++ byte ∷ []) s
  IsPending-same g =
      let empty : s.pending_sequence ≡ [] = p.none_on_ground g in
      record {
        before = stream ++ byte ∷ [];
        splits = rw empty (sym (append-nil _));
        none_on_ground = p.none_on_ground;
        from_escape = p.from_escape;
        ground_on_none = p.ground_on_none;
      }

  IsPending-keep :
      (s' : Scanner)
      → s'.pending_sequence ≡ s.pending_sequence ++ byte ∷ []
      → s'.sequence_state ≢ SequenceState.ground
      → s.sequence_state ≢ SequenceState.ground
      → IsPending (stream ++ byte ∷ []) s'
  IsPending-keep s' kept n m = elim p.from_escape [
    | inl e ↦ absurd (m (p.ground_on_none e))
    | inr (rest, e) ↦
        let starts : s'.pending_sequence ≡ 0x1b ∷ (rest ++ byte ∷ []) =
          kept ∙ ap (λ t. t ++ byte ∷ []) e in
        record {
          before = p.before;
          splits =
              ap (λ t. t ++ byte ∷ []) p.splits
              ∙ append_assoc p.before s.pending_sequence (byte ∷ [])
              ∙ ap (λ t. p.before ++ t) (sym kept);
          none_on_ground = λ g. absurd (n g);
          from_escape = inr (rest ++ byte ∷ [], starts);
          ground_on_none = λ h. cc starts;
        }
  ]

IsPending-scan_byte :
    (stream : List ℕ) (s : Scanner) (byte : ℕ)
    → IsPending stream s
    → IsPending (stream ++ byte ∷ []) (scan_byte s byte)
IsPending-scan_byte stream s byte p = elim (Outcome-scan_byte s byte) [
  | inl ended ↦ rw ended (IsPending-fresh byte p)
  | inr (inl (e, started)) ↦ rw started (IsPending-start byte p e)
  | inr (inr (inl (kept, n, m))) ↦ IsPending-keep byte p (scan_byte s byte) kept n m
  | inr (inr (inr (same, g))) ↦ rw same (IsPending-same byte p g)
]

IsPending-scan_from :
    (stream : List ℕ) (s : Scanner) (bytes : List ℕ)
    → IsPending stream s
    → IsPending (stream ++ bytes) (scan s bytes)
unfolding scan
IsPending-scan_from stream s [] p = rw append-nil p
IsPending-scan_from stream s (byte ∷ bytes) p =
    subst (λ t. IsPending t (scan (scan_byte s byte) bytes)) (append_assoc stream (byte ∷ []) bytes)
      (IsPending-scan_from (stream ++ byte ∷ []) (scan_byte s byte) bytes
        (IsPending-scan_byte stream s byte p))

-- After any bytes the pending ones are the last of them; they are none exactly when the scanner
-- is in the ground state, and otherwise begin with an escape byte.
pub IsPending-scan : (bytes : List ℕ) → IsPending bytes (scan fresh bytes)
IsPending-scan bytes = IsPending-scan_from [] fresh bytes (record {
  before = [];
  splits = refl;
  none_on_ground = λ _. refl;
  from_escape = inl refl;
  ground_on_none = λ _. refl;
})
