-- ===== src/Prelude/Split.antt =====
-- `str::split` at a character, and what is joined again.
use mathlib.Core.Path.{◌≡◌, refl, ap}
use mathlib.Core.Bool.{Bool, true, false, not, ◌&&◌}
use mathlib.Core.List.{List, [], ◌∷◌, ◌++◌}
use native.Mathlib.Omega.{arith}
use Prim.Native.Nat.{ℕ}
use devhatch.Prelude.Tests.{if◌then◌else◌, eqb}
use devhatch.Prelude.Lists.{all}

abbrev pub put_first : ℕ → List (List ℕ) → List (List ℕ)
put_first c [] = (c ∷ []) ∷ []
put_first c (part ∷ parts) = (c ∷ part) ∷ parts

unfoldable pub split : (separator : ℕ) → List ℕ → List (List ℕ)
split separator [] = [] ∷ []
split separator (c ∷ cs) =
    let rest = split separator cs in if eqb c separator then [] ∷ rest else put_first c rest

abbrev pub lacks : (separator : ℕ) → List ℕ → Bool
lacks separator cs = all (λ c. not (eqb c separator)) cs

first_of : (a b : Bool) → not a && b ≡ true → a ≡ false
first_of a b h = ground arith

second_of : (a b : Bool) → not a && b ≡ true → b ≡ true
second_of a b h = ground arith

pub split-one :
    (separator : ℕ) (cs : List ℕ) → lacks separator cs ≡ true → split separator cs ≡ cs ∷ []
unfolding split
split-one separator [] h = refl
split-one separator (c ∷ cs) h =
    rw (first_of (eqb c separator) _ h)
      (ap (put_first c) (split-one separator cs (second_of (eqb c separator) _ h)))

pub split-append :
    (separator : ℕ) (cs after : List ℕ)
    → lacks separator cs ≡ true
    → split separator (cs ++ separator ∷ after) ≡ cs ∷ split separator after
unfolding split
split-append separator [] after h = rw (eqb_self separator) refl
  where
    eqb_self : (n : ℕ) → eqb n n ≡ true
    eqb_self n = ground arith
split-append separator (c ∷ cs) after h =
    rw (first_of (eqb c separator) _ h)
      (ap (put_first c) (split-append separator cs after (second_of (eqb c separator) _ h)))
