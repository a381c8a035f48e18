-- ===== src/Auth/RateLimit.antt =====
-- `reserve_login_at` and `clear_failures` of apps/server/src/auth.rs. The map from addresses to
-- queues is a function, an absent key being the empty queue; the clock's value is an argument.
pub mod Window
use devhatch.Prelude.{
  ℕ, zero, suc, ◌+◌, ◌-◌, ◌*◌, ◌≤◌, ◌<◌, min, max, String, ◌≡◌, refl, sym, ap, ◌∙◌, subst, ◌≢◌, ◌↔◌,
  ◌⊎◌, inl, inr, Bool, true, false, not, ◌&&◌, ◌||◌, Option, none, some, List, [], ◌∷◌, ◌++◌, arith,
  if◌then◌else◌, ltb, leb, eqb, Bool-cases, Option-cases, is_some, is_none, is_some_and, is_none_or,
  any, all, keep, All, length, ◌==◌, saturating_sub, nat_eq, string_eq, option_eq, codes,
  saturating_add,
}

abbrev pub login_window_ms : ℕ
login_window_ms = 15 * 60 * 1000

abbrev pub login_limit : ℕ
login_limit = 5

abbrev pub Attempts : Type 0
Attempts = String → List ℕ

abbrev pub set_queue : Attempts → String → List ℕ → Attempts
set_queue attempts ip queue other = if ip == other then queue else attempts other

-- The loop that pops the front while it is older than the window.
unfoldable pub expire : ℕ → List ℕ → List ℕ
expire now [] = []
expire now (time ∷ times) =
    let rest = expire now times in
    if ltb login_window_ms (saturating_sub now time) then rest else time ∷ times

unfoldable pub reserve_queue : ℕ → List ℕ → List ℕ × Bool
reserve_queue now queue =
    if leb login_limit (length queue) then (queue, false) else (queue ++ now ∷ [], true)

unfoldable pub reserve_login_at : String → ℕ → Attempts → Attempts × Bool
unfolding reserve_queue
reserve_login_at ip now attempts =
    let (queue, granted) = reserve_queue now (expire now (attempts ip)) in
    (set_queue attempts ip queue, granted)

unfoldable pub clear_failures : String → Attempts → Attempts
clear_failures ip attempts = set_queue attempts ip []

-- What happens to the map: an attempt to log in, or a success, which clears the address.
pub data Event : Type 0 where
  attempt : (ip : String) (now : ℕ) → Event
  succeed : (ip : String) → Event

-- Whether each attempt was let through.
unfoldable pub answers : Attempts → List Event → List Bool
answers attempts [] = []
answers attempts (attempt ip now ∷ events) =
    let (attempts', granted) = reserve_login_at ip now attempts in
    granted ∷ answers attempts' events
answers attempts (succeed ip ∷ events) = answers (clear_failures ip attempts) events
