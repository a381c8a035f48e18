-- ===== src/Prelude/Equality.antt =====
-- Rust's `==` on the types that the program compares, as an interface with its law.
use Prim.Native.Nat.{ℕ}
use Prim.Native.String.{String}
use text.Mathlib.Text.{◌==◌ as str_eq}
use text.Mathlib.TextEquality.{eq_iff}
use mathlib.Core.Path.{◌≡◌, refl}
use mathlib.Core.Logic.{◌↔◌}
use mathlib.Core.Bool.{Bool, true, false, ◌&&◌}
use mathlib.Core.List.{List, [], ◌∷◌}
use mathlib.Core.Option.{Option, none, some}
use native.Mathlib.Omega.{arith}
use devhatch.Prelude.Tests.{eqb, eqb_iff}

-- `same` decides equality.
pub record PartialEq {ℓ} (T : Type ℓ) : Type ℓ where
  pub same : T → T → Bool
  pub same_iff : (x y : T) → (same x y ≡ true) ↔ (x ≡ y)

infix 50 ◌==◌
abbrev pub ◌==◌ {ℓ} : {T : Type ℓ} ⦃p : PartialEq T⦄ → T → T → Bool
◌==◌ ⦃p⦄ = p.same

instance abbrev pub string_eq : PartialEq String
string_eq = record { same_iff = eq_iff; same = str_eq }

module _ {ℓ} {T : Type ℓ} ⦃p : PartialEq T⦄ where
  abbrev pub option_beq : Option T → Option T → Bool
  option_beq none none = true
  option_beq (some x) (some y) = p.same x y
  option_beq _ _ = false

  pub option_beq_iff : (x y : Option T) → (option_beq x y ≡ true) ↔ (x ≡ y)
  option_beq_iff none none = ground arith
  option_beq_iff (some x) (some y) = ground (arith, p.same_iff x y)
  option_beq_iff none (some y) = ground arith
  option_beq_iff (some x) none = ground arith

  instance abbrev pub option_eq : PartialEq (Option T)
  option_eq = record { same_iff = option_beq_iff; same = option_beq }

  abbrev pub list_beq : List T → List T → Bool
  list_beq [] [] = true
  list_beq (x ∷ xs) (y ∷ ys) = p.same x y && list_beq xs ys
  list_beq _ _ = false

  pub list_beq_iff : (xs ys : List T) → (list_beq xs ys ≡ true) ↔ (xs ≡ ys)
  list_beq_iff [] [] = ground arith
  list_beq_iff (x ∷ xs) (y ∷ ys) = ground (arith, p.same_iff x y, list_beq_iff xs ys)
  list_beq_iff [] (y ∷ ys) = ground arith
  list_beq_iff (x ∷ xs) [] = ground arith

  instance abbrev pub list_eq : PartialEq (List T)
  list_eq = record { same_iff = list_beq_iff; same = list_beq }

  pub same_refl : (x : T) → p.same x x ≡ true
  same_refl x = (p.same_iff x x).1 refl

instance abbrev pub nat_eq : PartialEq ℕ
nat_eq = record { same_iff = eqb_iff; same = eqb }
