-- ===== src/Terminal/Lossy.antt =====
-- `String::from_utf8_lossy` of Rust's standard library, which ends the snapshot of
-- apps/server/src/session/model.rs: each longest beginning of a character that no more bytes complete
-- becomes one replacement character.
use devhatch.Prelude.{
  ℕ, Bool, true, false, ◌≡◌, refl, ap, ◌∙◌, List, [], ◌∷◌, ◌++◌, Option, none, some, leb, ltb, ◌&&◌,
  arith, if◌then◌else◌, append_assoc, append-nil, subst,
}

-- U+FFFD
abbrev pub replacement : List ℕ
replacement = 0xef ∷ 0xbf ∷ 0xbd ∷ []

-- The least and the greatest value of a byte.
abbrev pub Range : Type 0
Range = ℕ × ℕ

abbrev pub continuation : Range
continuation = (0x80, 0xbf)

-- What must follow the first byte of a character.
unfoldable pub following : ℕ → Option (List Range)
following b =
    if ltb b 0x80
    then some []
    else if ltb b 0xc2
    then none
    else if ltb b 0xe0
    then some (continuation ∷ [])
    else if ltb b 0xe1
    then some ((0xa0, 0xbf) ∷ continuation ∷ [])
    else if ltb b 0xed
    then some (continuation ∷ continuation ∷ [])
    else if ltb b 0xee
    then some ((0x80, 0x9f) ∷ continuation ∷ [])
    else if ltb b 0xf0
    then some (continuation ∷ continuation ∷ [])
    else if ltb b 0xf1
    then some ((0x90, 0xbf) ∷ continuation ∷ continuation ∷ [])
    else if ltb b 0xf4
    then some (continuation ∷ continuation ∷ continuation ∷ [])
    else if ltb b 0xf5
    then some ((0x80, 0x8f) ∷ continuation ∷ continuation ∷ [])
    else none

abbrev pub is_within : ℕ → Range → Bool
is_within b range = leb range.0 b && leb b range.1

-- What is written, the bytes of a character so far, and what must follow them.
abbrev pub advance : List ℕ → List Range → List ℕ × (List ℕ × List Range)
advance character [] = (character, ([], []))
advance character (range ∷ ranges) = ([], (character, range ∷ ranges))

abbrev begin_with : ℕ → Option (List Range) → List ℕ × (List ℕ × List Range)
begin_with b none = (replacement, ([], []))
begin_with b (some ranges) = advance (b ∷ []) ranges

abbrev step : List ℕ → List Range → ℕ → List ℕ × (List ℕ × List Range)
step character [] b = begin_with b (following b)
step character (range ∷ ranges) b =
    if is_within b range
    then advance (character ++ b ∷ []) ranges
    else (replacement ++ (begin_with b (following b)).0, (begin_with b (following b)).1)

unfoldable pub lossy_from : List ℕ → List Range → List ℕ → List ℕ
unfolding following
lossy_from character [] [] = []
lossy_from character (range ∷ ranges) [] = replacement
lossy_from character ranges (b ∷ bytes) =
    let s = step character ranges b in s.0 ++ lossy_from s.1.0 s.1.1 bytes

abbrev pub from_utf8_lossy : List ℕ → List ℕ
from_utf8_lossy bytes = lossy_from [] [] bytes

-- Whether the bytes are characters, the first one of which is begun already.
unfoldable pub completes : List Range → List ℕ → Bool
unfolding following
completes [] [] = true
completes (range ∷ ranges) [] = false
completes [] (b ∷ bytes) = elim (following b) [
  | none ↦ false
  | some ranges ↦ completes ranges bytes
]
completes (range ∷ ranges) (b ∷ bytes) = is_within b range && completes ranges bytes

abbrev pub is_utf8 : List ℕ → Bool
is_utf8 bytes = completes [] bytes

both_true : (a b : Bool) → (a && b) ≡ true → (a ≡ true) × (b ≡ true)
both_true a b h = ground arith

-- That whole characters are kept before any bytes, also when the first one is begun already.
KeepsCharacters : (xs ys : List ℕ) → Type 0
unfolding lossy_from completes
KeepsCharacters xs ys =
    (character : List ℕ) (ranges : List Range)
    → completes ranges xs ≡ true
    → (advance character ranges).0
        ++ lossy_from (advance character ranges).1.0 (advance character ranges).1.1 (xs ++ ys)
      ≡ character ++ (xs ++ from_utf8_lossy ys)

begin_with-KeepsCharacters :
    (xs ys : List ℕ) (b : ℕ) (o : Option (List Range))
    → KeepsCharacters xs ys
    → (elim o [ none ↦ false | some ranges ↦ completes ranges xs ]) ≡ true
    → (begin_with b o).0 ++ lossy_from (begin_with b o).1.0 (begin_with b o).1.1 (xs ++ ys)
      ≡ b ∷ (xs ++ from_utf8_lossy ys)
unfolding KeepsCharacters
begin_with-KeepsCharacters xs ys b none later h = cc h
begin_with-KeepsCharacters xs ys b (some ranges) later h = later (b ∷ []) ranges h

lossy_from-KeepsCharacters : (xs ys : List ℕ) → KeepsCharacters xs ys
unfolding KeepsCharacters lossy_from completes
lossy_from-KeepsCharacters [] ys character [] h = refl
lossy_from-KeepsCharacters [] ys character (range ∷ ranges) h = cc h
lossy_from-KeepsCharacters (b ∷ xs) ys character [] h =
    ap (λ l. character ++ l)
      (begin_with-KeepsCharacters xs ys b (following b) (lossy_from-KeepsCharacters xs ys) h)
lossy_from-KeepsCharacters (b ∷ xs) ys character (range ∷ ranges) h =
    let (e, rest) = both_true (is_within b range) (completes ranges xs) h in
    rw e (
      lossy_from-KeepsCharacters xs ys (character ++ b ∷ []) ranges rest
      ∙ append_assoc character (b ∷ []) (xs ++ from_utf8_lossy ys))

-- Whole characters are kept, whatever follows them.
pub from_utf8_lossy-append :
    (xs ys : List ℕ) → is_utf8 xs ≡ true → from_utf8_lossy (xs ++ ys) ≡ xs ++ from_utf8_lossy ys
unfolding KeepsCharacters
from_utf8_lossy-append xs ys h = lossy_from-KeepsCharacters xs ys [] [] h

pub from_utf8_lossy_lem : (xs : List ℕ) → is_utf8 xs ≡ true → from_utf8_lossy xs ≡ xs
unfolding lossy_from
from_utf8_lossy_lem xs h =
    subst (λ l. from_utf8_lossy l ≡ l) (append-nil xs) (from_utf8_lossy-append xs [] h)
