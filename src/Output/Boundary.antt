-- ===== src/Output/Boundary.antt =====
-- Where the loop of `trim_output` stops.
use devhatch.Prelude.{
  ℕ, zero, suc, ◌+◌, ◌-◌, ◌≤◌, ◌<◌, ◌≡◌, refl, true, false, List, [], ◌∷◌, ◌++◌, if◌then◌else◌,
  arith, some, ◌⊎◌, ◌∙◌, get_elem?, ltb, ◌/◌, ◌%◌, length, drop, length-append, Bool-cases, inl,
  inr, All, ap, not, length-drop, sym, append_assoc,
}
use native.Mathlib.Decide.{dec_le}
use native.Mathlib.Numerals.{add-one}
use devhatch.Output.Utf8.{encode, encode_all, is_continuation, is_char_boundary}
use devhatch.Output.Trim.{next_boundary}

-- Dropping the continuation bytes at the front.
skip : List ℕ → List ℕ
skip [] = []
skip (b ∷ bs) = if is_continuation b then skip bs else b ∷ bs

abbrev Continuations : List ℕ → Type 0
Continuations = All (λ b. is_continuation b ≡ true)

record IsChar (bs : List ℕ) : Type 0 where
  lead : ℕ
  rest : List ℕ
  splits : bs ≡ lead ∷ rest
  leads : is_continuation lead ≡ false
  continues : Continuations rest
  short : length rest ≤ 3

encode-IsChar : (c : ℕ) → IsChar (encode c)
unfolding encode is_continuation
encode-IsChar c = elim (Bool-cases (ltb c 0x80)) [
  | inl a ↦ record {
    lead = c;
    rest = [];
    splits = rw a;
    leads = ground arith;
    continues = tt;
    short = omega arith;
  }
  | inr a ↦ elim (Bool-cases (ltb c 0x800)) [
    | inl b ↦ record {
      lead = 0xc0 + c / 64;
      rest = (0x80 + c % 64) ∷ [];
      splits = rw (a, b);
      leads = ground arith;
      continues = ground arith;
      short = omega arith;
    }
    | inr b ↦ elim (Bool-cases (ltb c 0x10000)) [
      | inl d ↦ record {
        lead = 0xe0 + c / 4096;
        rest = (0x80 + c / 64 % 64) ∷ (0x80 + c % 64) ∷ [];
        splits = rw (a, b, d);
        leads = ground arith;
        continues = ground arith;
        short = omega arith;
      }
      | inr d ↦ record {
        lead = 0xf0 + c / 262144;
        rest = (0x80 + c / 4096 % 64) ∷ (0x80 + c / 64 % 64) ∷ (0x80 + c % 64) ∷ [];
        splits = rw (a, b, d);
        leads = ground arith;
        continues = ground arith;
        short = omega arith;
      }
    ]
  ]
]

skip-append : (xs ys : List ℕ) → Continuations xs → skip (xs ++ ys) ≡ skip ys
unfolding skip
skip-append [] ys h = refl
skip-append (x ∷ xs) ys h = rw (h.0, skip) (skip-append xs ys h.1)

Continuations-drop : (n : ℕ) (xs : List ℕ) → Continuations xs → Continuations (drop n xs)
Continuations-drop zero xs h = h
Continuations-drop (suc n) [] h = tt
Continuations-drop (suc n) (x ∷ xs) h = Continuations-drop n xs h.1

drop-append-le : (n : ℕ) (xs ys : List ℕ) → n ≤ length xs → drop n (xs ++ ys) ≡ drop n xs ++ ys
drop-append-le zero xs ys h = refl
drop-append-le (suc n) [] ys h = absurd (omega arith)
drop-append-le (suc n) (x ∷ xs) ys h = drop-append-le n xs ys (omega arith)

drop-append-ge :
    (n : ℕ) (xs ys : List ℕ) → length xs ≤ n → drop n (xs ++ ys) ≡ drop (n - length xs) ys
drop-append-ge n [] ys h = let e : n - 0 ≡ n = omega arith in rw e
drop-append-ge zero (x ∷ xs) ys h = absurd (omega arith)
drop-append-ge (suc n) (x ∷ xs) ys h =
    let e : suc n - suc (length xs) ≡ n - length xs = omega arith in
    rw e (drop-append-ge n xs ys (omega arith))

skip-encode_all : (cs : List ℕ) → skip (encode_all cs) ≡ encode_all cs
unfolding encode_all skip
skip-encode_all [] = refl
skip-encode_all (c ∷ cs) =
    let k : IsChar (encode c) = encode-IsChar c in rw k.splits (rw (k.leads, skip))

-- What is left of a text after a cut at a byte and the continuation bytes behind it.
record Cut (cs : List ℕ) (s : ℕ) : Type 0 where
  kept : ℕ
  keeps : skip (drop s (encode_all cs)) ≡ encode_all (drop kept cs)
  near : length (encode_all cs) ≤ s + length (encode_all (drop kept cs)) + 3

Cut-zero : (cs : List ℕ) → Cut cs 0
Cut-zero cs = record { kept = 0; keeps = skip-encode_all cs; near = omega arith }

-- A cut inside the first character drops that character.
Cut-inside :
    (c : ℕ) (cs : List ℕ) (s : ℕ) (k : IsChar (encode c)) → s ≤ length k.rest → Cut (c ∷ cs) (suc s)
unfolding encode_all
Cut-inside c cs s k h = record {
  kept = 1;
  keeps =
      rw (k.splits, drop-append-le s k.rest (encode_all cs) h)
        (skip-append (drop s k.rest) (encode_all cs) (Continuations-drop s k.rest k.continues)
          ∙ skip-encode_all cs);
  near = rw k.splits (omega (arith, length-append k.rest (encode_all cs), k.short));
}

Cut-after :
    (c : ℕ) (cs : List ℕ) (s : ℕ) (k : IsChar (encode c))
    → length k.rest ≤ s
    → Cut cs (s - length k.rest)
    → Cut (c ∷ cs) (suc s)
unfolding encode_all
Cut-after c cs s k h rest = record {
  kept = suc rest.kept;
  keeps = rw (k.splits, drop-append-ge s k.rest (encode_all cs) h) rest.keeps;
  near = rw k.splits (omega (arith, length-append k.rest (encode_all cs), rest.near));
}

Cut-encode_all : (cs : List ℕ) (s : ℕ) → Cut cs s
unfolding encode_all
Cut-encode_all [] zero = Cut-zero []
Cut-encode_all [] (suc s) = record { kept = 0; keeps = unfold skip in refl; near = omega arith }
Cut-encode_all (c ∷ cs) zero = Cut-zero (c ∷ cs)
Cut-encode_all (c ∷ cs) (suc s) =
    let k : IsChar (encode c) = encode-IsChar c in
    elim (dec_le s (length k.rest)) [
      | yes h ↦ Cut-inside c cs s k h
      | no h ↦ Cut-after c cs s k (omega arith) (Cut-encode_all cs (s - length k.rest))
    ]

-- The byte at an index, and the list from there on.
drop-cases :
    (xs : List ℕ) (i : ℕ)
    → i ≤ length xs
    → ((i ≡ length xs) × (drop i xs ≡ []))
      ⊎ ((b : ℕ) × (get_elem? xs i ≡ some b) × (drop i xs ≡ b ∷ drop (suc i) xs) × (i < length xs))
drop-cases [] zero h = inl (refl, refl)
drop-cases [] (suc i) h = absurd (omega arith)
drop-cases (x ∷ xs) zero h = inr (x, refl, refl, omega arith)
drop-cases (x ∷ xs) (suc i) h = elim (drop-cases xs i (omega arith)) [
  | inl (e, none_left) ↦ inl (ap suc e, none_left)
  | inr (b, found, splits, below) ↦ inr (b, found, splits, omega arith)
]

boundary_end : (xs : List ℕ) (i : ℕ) → i ≡ length xs → is_char_boundary xs i ≡ true
unfolding is_char_boundary
boundary_end xs i e = ground arith

boundary_at :
    (xs : List ℕ) (i b : ℕ)
    → get_elem? xs i ≡ some b
    → 0 < i
    → i < length xs
    → is_char_boundary xs i ≡ not (is_continuation b)
unfolding is_char_boundary
boundary_at xs i b found p below = rw (found, is_char_boundary) (ground arith)

skip-cons : (b : ℕ) (bs : List ℕ) → skip (b ∷ bs) ≡ (if is_continuation b then skip bs else b ∷ bs)
unfolding skip
skip-cons b bs = refl

-- From a start behind the first byte the loop drops what `skip` drops.
drop-next_boundary :
    (fuel : ℕ) (xs : List ℕ) (start : ℕ)
    → 0 < start
    → start ≤ length xs
    → length xs ≤ start + fuel
    → drop (next_boundary fuel xs start) xs ≡ skip (drop start xs)
unfolding next_boundary skip
drop-next_boundary zero xs start p h f = elim (drop-cases xs start h) [
  | inl (e, none_left) ↦ rw none_left
  | inr (b, found, splits, below) ↦ absurd (omega arith)
]
drop-next_boundary (suc fuel) xs start p h f = elim (drop-cases xs start h) [
  | inl (e, none_left) ↦ rw (boundary_end xs start e, none_left)
  | inr (b, found, splits, below) ↦ elim (Bool-cases (is_continuation b)) [
    | inl more ↦
        rw (boundary_at xs start b found p below, more, splits, more)
          (rw add-one (drop-next_boundary fuel xs (suc start) (omega arith) below (omega arith)))
    | inr done ↦ rw (boundary_at xs start b found p below, done, splits, done)
  ]
]

length-skip-le : (xs : List ℕ) → length (skip xs) ≤ length xs
unfolding skip
length-skip-le [] = omega arith
length-skip-le (x ∷ xs) = ground (arith, length-skip-le xs)

pub encode_all-append : (xs ys : List ℕ) → encode_all (xs ++ ys) ≡ encode_all xs ++ encode_all ys
unfolding encode_all
encode_all-append [] ys = refl
encode_all-append (x ∷ xs) ys =
    rw (encode_all-append xs ys) (sym (append_assoc (encode x) (encode_all xs) (encode_all ys)))

-- What the loop leaves of the bytes of a text that is longer than the limit.
pub record Trimmed (limit : ℕ) (cs left : List ℕ) : Type 0 where
  pub kept : ℕ
  pub keeps : left ≡ encode_all (drop kept cs)
  pub fits : length left ≤ limit
  pub near : limit ≤ length left + 3

pub Trimmed-next_boundary :
    (limit : ℕ) (cs : List ℕ)
    → let bytes = encode_all cs in
      limit < length bytes
      → Trimmed limit cs (drop (next_boundary (length bytes) bytes (length bytes - limit)) bytes)
Trimmed-next_boundary limit cs long =
    let bytes = encode_all cs in
    let cut : Cut cs (length bytes - limit) = Cut-encode_all cs (length bytes - limit) in
    let e : drop (next_boundary (length bytes) bytes (length bytes - limit)) bytes
        ≡ skip (drop (length bytes - limit) bytes) =
      drop-next_boundary (length bytes) bytes (length bytes - limit) (omega arith) (omega arith)
        (omega arith) in
    record {
      kept = cut.kept;
      keeps = e ∙ cut.keeps;
      fits = rw e (
          omega (
            arith,
            length-skip-le (drop (length bytes - limit) bytes),
            length-drop (length bytes - limit) bytes,
          ));
      near = rw (e, cut.keeps) (omega (arith, cut.near));
    }
