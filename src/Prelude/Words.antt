-- ===== src/Prelude/Words.antt =====
-- Arithmetic on `u64` and the Rust operations on it that saturate.
use Prim.Native.Nat.{ℕ, ◌+◌, ◌-◌, ◌^◌, min}

abbrev pub u64_max : ℕ
u64_max = 2 ^ 64 - 1

abbrev pub saturating_add : ℕ → ℕ → ℕ
saturating_add a b = min (a + b) u64_max

-- On ℕ the subtraction stops at 0, as `saturating_sub` does.
abbrev pub saturating_sub : ℕ → ℕ → ℕ
saturating_sub a b = a - b
