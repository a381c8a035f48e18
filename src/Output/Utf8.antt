-- ===== src/Output/Utf8.antt =====
-- UTF-8 as Rust's `str` uses it: the bytes of a text, and the boundaries of its characters.
use devhatch.Prelude.{
  ℕ, ◌+◌, ◌/◌, ◌%◌, Bool, false, not, ◌&&◌, ◌||◌, List, [], ◌∷◌, ◌++◌, none, some, if◌then◌else◌,
  ltb, leb, eqb, length, get_elem?,
}

-- The bytes of a character.
unfoldable pub encode : ℕ → List ℕ
encode c =
    if ltb c 0x80
    then c ∷ []
    else if ltb c 0x800
    then (0xc0 + c / 64) ∷ (0x80 + c % 64) ∷ []
    else if ltb c 0x10000
    then (0xe0 + c / 4096) ∷ (0x80 + c / 64 % 64) ∷ (0x80 + c % 64) ∷ []
    else (0xf0 + c / 262144) ∷ (0x80 + c / 4096 % 64) ∷ (0x80 + c / 64 % 64) ∷ (0x80 + c % 64) ∷ []

unfoldable pub encode_all : List ℕ → List ℕ
encode_all [] = []
encode_all (c ∷ cs) = encode c ++ encode_all cs

-- A byte `10xxxxxx`.
unfoldable pub is_continuation : ℕ → Bool
is_continuation b = leb 0x80 b && ltb b 0xc0

-- `str::is_char_boundary`.
unfoldable pub is_char_boundary : List ℕ → ℕ → Bool
unfolding is_continuation
is_char_boundary s i =
    eqb i 0
    || eqb i (length s)
    || elim (get_elem? s i) [ none ↦ false | some b ↦ not (is_continuation b) ]
