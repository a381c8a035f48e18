-- ===== src/Auth/RateLimitTests.antt =====
-- Runs of the login limit, and the theorem at a concrete input.
use devhatch.Auth.RateLimit.{Event, attempt, answers, expire, reserve_login_at}
use devhatch.Auth.RateLimit.Window.{expected, answers-eq-expected}
use devhatch.Prelude.{◌≡◌, refl, true, false, List, [], ◌∷◌, arith, nat_eq, string_eq, option_eq}

abbrev busy : List Event
busy =
    attempt "a" 0
    ∷ attempt "a" 1
    ∷ attempt "a" 2
    ∷ attempt "a" 3
    ∷ attempt "a" 4
    ∷ attempt "a" 900000
    ∷ attempt "b" 900000
    ∷ attempt "a" 900001
    ∷ []

sixth_waits : answers (λ ip. []) busy ≡ true ∷ true ∷ true ∷ true ∷ true ∷ false ∷ true ∷ true ∷ []
unfolding answers reserve_login_at expire
sixth_waits = refl

answers-eq-expected_example : answers (λ ip. []) busy ≡ expected (λ ip. []) busy
answers-eq-expected_example = answers-eq-expected busy (omega arith)
