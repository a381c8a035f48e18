-- ===== src/ConstantTimeTests.antt =====
-- The comparison at concrete inputs.
use devhatch.ConstantTime.{constant_time_eq, constant_time_eq_iff}
use devhatch.Prelude.{ℕ, ◌≡◌, refl, ◌↔◌, true, false, List, [], ◌∷◌, nat_eq, string_eq, option_eq}

abbrev same : List ℕ
same = 1 ∷ 255 ∷ []

compared : constant_time_eq same (1 ∷ 254 ∷ []) ≡ false
unfolding constant_time_eq
compared = refl

constant_time_eq_iff_example : (constant_time_eq same same ≡ true) ↔ (same ≡ same)
constant_time_eq_iff_example = constant_time_eq_iff same same
