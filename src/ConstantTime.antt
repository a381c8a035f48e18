-- ===== src/ConstantTime.antt =====
-- `constant_time_eq` of apps/server/src/auth.rs, of which
-- apps/server/src/agent/runtime/activity.rs has a copy.
use Prim.Native.Nat.{bit_or, bit_xor}
use devhatch.Prelude.{
  ℕ, ◌≡◌, refl, ◌↔◌, Bool, true, false, not, List, [], ◌∷◌, arith, if◌then◌else◌, eqb, length,
  nat_eq, string_eq, option_eq, bit_xor-eq-zero, bit_xor_self, bit_or-eq-zero,
}

-- `left.iter().zip(right).fold(0, |difference, (left, right)| difference | (left ^ right))`
fold_difference : ℕ → List ℕ → List ℕ → ℕ
fold_difference d [] ys = d
fold_difference d (x ∷ xs) [] = d
fold_difference d (x ∷ xs) (y ∷ ys) = fold_difference (bit_or d (bit_xor x y)) xs ys

unfoldable pub constant_time_eq : List ℕ → List ℕ → Bool
unfolding fold_difference
constant_time_eq left right =
    if not (eqb (length left) (length right)) then false else eqb (fold_difference 0 left right) 0

fold-eq-zero :
    (d : ℕ) (xs ys : List ℕ)
    → length xs ≡ length ys
    → fold_difference d xs ys ≡ 0
    → (d ≡ 0) × (xs ≡ ys)
unfolding fold_difference
fold-eq-zero d [] [] e h = (h, refl)
fold-eq-zero d [] (y ∷ ys) e h = absurd (omega arith)
fold-eq-zero d (x ∷ xs) [] e h = absurd (omega arith)
fold-eq-zero d (x ∷ xs) (y ∷ ys) e h =
    let (z, same) = fold-eq-zero (bit_or d (bit_xor x y)) xs ys (omega (arith, e)) h in
    let (none_before, none_here) = bit_or-eq-zero d (bit_xor x y) z in
    (none_before, cc (same, bit_xor-eq-zero x y none_here))

fold_self : (xs : List ℕ) → fold_difference 0 xs xs ≡ 0
unfolding fold_difference
fold_self [] = refl
fold_self (x ∷ xs) = rw (bit_xor_self x) (fold_self xs)

-- The comparison that runs through all the bytes accepts exactly equal byte strings.
pub constant_time_eq_iff : (xs ys : List ℕ) → (constant_time_eq xs ys ≡ true) ↔ (xs ≡ ys)
unfolding constant_time_eq
constant_time_eq_iff xs ys = (
  λ h. (fold-eq-zero 0 xs ys (ground arith) (ground arith)).1,
  λ e. rw e (ground (arith, fold_self ys)),
)
