-- ===== src/Prelude/Trim.antt =====
-- `char::is_whitespace`, `str::trim` and `str::encode_utf16` of texts as lists of code points.
use Prim.Native.Nat.{ℕ, ◌+◌}
use mathlib.Core.Bool.{Bool, ◌&&◌, ◌||◌}
use mathlib.Core.List.{List, [], ◌∷◌}
use devhatch.Prelude.Tests.{if◌then◌else◌, leb, eqb}
use devhatch.Prelude.Lists.{is_empty}

-- `char::is_whitespace`
unfoldable pub is_whitespace : ℕ → Bool
is_whitespace c =
    leb 9 c && leb c 13
    || eqb c 0x20
    || eqb c 0x85
    || eqb c 0xa0
    || eqb c 0x1680
    || leb 0x2000 c && leb c 0x200a
    || eqb c 0x2028
    || eqb c 0x2029
    || eqb c 0x202f
    || eqb c 0x205f
    || eqb c 0x3000

-- `str::trim`
unfoldable pub trim_start : List ℕ → List ℕ
trim_start [] = []
trim_start (c ∷ cs) = let rest = trim_start cs in if is_whitespace c then rest else c ∷ cs

unfoldable pub trim_end : List ℕ → List ℕ
trim_end [] = []
trim_end (c ∷ cs) =
    let rest = trim_end cs in if is_empty rest && is_whitespace c then [] else c ∷ rest

-- `str::encode_utf16().count()`
unfoldable pub utf16_len : List ℕ → ℕ
utf16_len [] = 0
utf16_len (c ∷ cs) = (if leb 0x10000 c then 2 else 1) + utf16_len cs
