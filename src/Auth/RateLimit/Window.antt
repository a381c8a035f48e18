-- ===== src/Auth/RateLimit/Window.antt =====
-- The queue decides as a full record of the granted attempts would.
use devhatch.Auth.RateLimit.{
  login_window_ms, login_limit, Attempts, set_queue, expire, reserve_queue, reserve_login_at,
  clear_failures, Event, attempt, succeed, answers,
}
use mathlib.Core.Path.{ap₂}
use devhatch.Prelude.{
  ℕ, ◌+◌, ◌≤◌, ◌<◌, String, ◌≡◌, refl, sym, ap, ◌∙◌, subst, inl, inr, Bool, true, false, List, [],
  ◌∷◌, ◌++◌, arith, if◌then◌else◌, ltb, leb, Bool-cases, All, length, ◌==◌, saturating_sub, nat_eq,
  string_eq, option_eq, append_assoc, All-append,
}

-- How many of the granted attempts are not yet older than the window.
unfoldable pub recent : ℕ → List ℕ → ℕ
recent now [] = 0
recent now (time ∷ times) = (if leb now (time + login_window_ms) then 1 else 0) + recent now times

-- The specification: a full record for each address, newest last, and no expiry.
abbrev pub allowed : ℕ → List ℕ → Bool
allowed now granted = ltb (recent now granted) login_limit

unfoldable pub expected : Attempts → List Event → List Bool
expected record_ [] = []
expected record_ (attempt ip now ∷ events) =
    let ok = allowed now (record_ ip) in
    ok ∷ expected (set_queue record_ ip (if ok then record_ ip ++ now ∷ [] else record_ ip)) events
expected record_ (succeed ip ∷ events) = expected (set_queue record_ ip []) events

-- The clock does not go back.
abbrev pub IsOrdered : ℕ → List Event → Type 0
IsOrdered last [] = Unit
IsOrdered last (attempt ip now ∷ events) = (last ≤ now) × IsOrdered now events
IsOrdered last (succeed ip ∷ events) = IsOrdered last events

recent-append : (now : ℕ) (xs ys : List ℕ) → recent now (xs ++ ys) ≡ recent now xs + recent now ys
unfolding recent
recent-append now [] ys = omega arith
recent-append now (x ∷ xs) ys = omega (arith, recent-append now xs ys)

-- Ascending, and at most `last`.
abbrev Ascends : ℕ → List ℕ → Type 0
Ascends last [] = Unit
Ascends last (x ∷ xs) = (x ≤ last) × All (λ y. x ≤ y) xs × Ascends last xs

abbrev Expired : ℕ → List ℕ → Type 0
Expired now = All (λ time. time + login_window_ms < now)

recent-Expired : (now : ℕ) (xs : List ℕ) → Expired now xs → recent now xs ≡ 0
unfolding recent
recent-Expired now [] h = refl
recent-Expired now (x ∷ xs) h = ground (arith, recent-Expired now xs h.1)

abbrev Fresh : ℕ → List ℕ → Type 0
Fresh now = All (λ time. now ≤ time + login_window_ms)

recent-Fresh : (now : ℕ) (xs : List ℕ) → Fresh now xs → recent now xs ≡ length xs
unfolding recent
recent-Fresh now [] h = refl
recent-Fresh now (x ∷ xs) h = ground (arith, recent-Fresh now xs h.1)

Fresh-later :
    (now x : ℕ) (xs : List ℕ) → now ≤ x + login_window_ms → All (λ y. x ≤ y) xs → Fresh now xs
Fresh-later now x [] h a = tt
Fresh-later now x (y ∷ ys) h a = (omega arith, Fresh-later now x ys h a.1)

-- What the loop does to an ascending queue.
record Expires (now : ℕ) (queue : List ℕ) : Type 0 where
  gone : List ℕ
  splits : queue ≡ gone ++ expire now queue
  past : Expired now gone
  fresh : Fresh now (expire now queue)

expire-Expires : (now last : ℕ) (queue : List ℕ) → Ascends last queue → Expires now queue
unfolding expire
expire-Expires now last [] a = record { gone = []; splits = refl; past = tt; fresh = tt }
expire-Expires now last (x ∷ xs) a =
    elim (Bool-cases (ltb login_window_ms (saturating_sub now x))) [
      | inl old ↦
          let rest : Expires now xs = expire-Expires now last xs a.2 in
          record {
            gone = x ∷ rest.gone;
            splits = rw old (ap (◌∷◌ x) rest.splits);
            past = (ground arith, rest.past);
            fresh = rw old rest.fresh;
          }
      | inr new ↦ record {
        gone = [];
        splits = rw new;
        past = tt;
        fresh = rw new (ground arith, Fresh-later now x xs (ground arith) a.1);
      }
    ]

Ascends-weaken : {last now : ℕ} (xs : List ℕ) → last ≤ now → Ascends last xs → Ascends now xs
Ascends-weaken [] h a = tt
Ascends-weaken (x ∷ xs) h a = (omega arith, a.1, Ascends-weaken xs h a.2)

Ascends-suffix : (last : ℕ) (xs ys : List ℕ) → Ascends last (xs ++ ys) → Ascends last ys
Ascends-suffix last [] ys a = a
Ascends-suffix last (x ∷ xs) ys a = Ascends-suffix last xs ys a.2

Ascends-push : (now : ℕ) (xs : List ℕ) → Ascends now xs → Ascends now (xs ++ now ∷ [])
Ascends-push now [] a = (omega arith, tt, tt)
Ascends-push now (x ∷ xs) a =
    (a.0, All-append (λ y. x ≤ y) xs (now ∷ []) a.1 (a.0, tt), Ascends-push now xs a.2)

Expired-weaken : {last now : ℕ} (xs : List ℕ) → last ≤ now → Expired last xs → Expired now xs
Expired-weaken [] h a = tt
Expired-weaken (x ∷ xs) h a = (omega arith, Expired-weaken xs h a.1)

-- The queue is the record without a part that is older than the window.
record Agrees (last : ℕ) (queue granted : List ℕ) : Type 0 where
  dropped : List ℕ
  splits : granted ≡ dropped ++ queue
  past : Expired last dropped
  ascends : Ascends last queue

Agrees-nil : (last : ℕ) → Agrees last [] []
Agrees-nil last = record { dropped = []; splits = refl; past = tt; ascends = tt }

Agrees-weaken :
    {last now : ℕ} {queue granted : List ℕ}
    → last ≤ now
    → Agrees last queue granted
    → Agrees now queue granted
Agrees-weaken {queue} h a = record {
  dropped = a.dropped;
  splits = a.splits;
  past = Expired-weaken a.dropped h a.past;
  ascends = Ascends-weaken queue h a.ascends;
}

module _ {last now : ℕ} {queue granted : List ℕ} (h : last ≤ now)
    (a : Agrees last queue granted) where
  expires : Expires now queue
  expires = expire-Expires now last queue a.ascends

  Agrees-expire : Agrees now (expire now queue) granted
  Agrees-expire = record {
    dropped = a.dropped ++ expires.gone;
    splits =
        a.splits
        ∙ ap (λ t. a.dropped ++ t) expires.splits
        ∙ sym (append_assoc a.dropped expires.gone (expire now queue));
    past = All-append _ a.dropped expires.gone (Expired-weaken a.dropped h a.past) expires.past;
    ascends = Ascends-weaken _ h (
        Ascends-suffix last expires.gone (expire now queue)
          (subst (Ascends last) expires.splits a.ascends));
  }

  -- Both count the same attempts.
  recent-eq-length : recent now granted ≡ length (expire now queue)
  recent-eq-length =
      let b = Agrees-expire in
      ap (recent now) b.splits
      ∙ omega (
        arith,
        recent-append now b.dropped (expire now queue),
        recent-Expired now b.dropped b.past,
        recent-Fresh now (expire now queue) expires.fresh,
      )

  Agrees-push : Agrees now (expire now queue ++ now ∷ []) (granted ++ now ∷ [])
  Agrees-push =
      let b = Agrees-expire in
      record {
        dropped = b.dropped;
        splits =
            ap (λ t. t ++ now ∷ []) b.splits ∙ append_assoc b.dropped (expire now queue) (now ∷ []);
        past = b.past;
        ascends = Ascends-push now (expire now queue) b.ascends;
      }

  Agrees-reserve :
      let (q, granted_now) = reserve_queue now (expire now queue) in
      (granted_now ≡ allowed now granted)
      × Agrees now q (if allowed now granted then granted ++ now ∷ [] else granted)
  unfolding reserve_queue
  Agrees-reserve = elim (Bool-cases (leb login_limit (length (expire now queue)))) [
    | inl full ↦
        let e : allowed now granted ≡ false = ground (arith, recent-eq-length) in
        rw (full, e) (refl, Agrees-expire)
    | inr room ↦
        let e : allowed now granted ≡ true = ground (arith, recent-eq-length) in
        rw (room, e) (refl, Agrees-push)
  ]

-- The relation at every address, kept by an update at one of them.
abbrev AgreesAt : ℕ → Attempts → Attempts → Type 0
AgreesAt last attempts granted = (ip : String) → Agrees last (attempts ip) (granted ip)

AgreesAt-set :
    {last now : ℕ} {attempts granted : Attempts} (ip : String) {q g : List ℕ}
    → last ≤ now
    → AgreesAt last attempts granted
    → Agrees now q g
    → AgreesAt now (set_queue attempts ip q) (set_queue granted ip g)
AgreesAt-set ip h a new other = elim (Bool-cases (ip == other)) [
  | inl e ↦ rw e new
  | inr e ↦ rw e (Agrees-weaken h (a other))
]

answers-eq-expected_from :
    (events : List Event) (last : ℕ) (attempts granted : Attempts)
    → IsOrdered last events
    → AgreesAt last attempts granted
    → answers attempts events ≡ expected granted events
unfolding answers expected reserve_login_at clear_failures
answers-eq-expected_from [] last attempts granted o a = refl
answers-eq-expected_from (attempt ip now ∷ events) last attempts granted o a =
    let (same, next) = Agrees-reserve o.0 (a ip) in
    ap₂ ◌∷◌ same (answers-eq-expected_from events now _ _ o.1 (AgreesAt-set ip o.0 a next))
answers-eq-expected_from (succeed ip ∷ events) last attempts granted o a =
    answers-eq-expected_from events last _ _ o (AgreesAt-set ip (omega arith) a (Agrees-nil last))

-- Where the clock does not go back, whatever attempts and successes come from whatever addresses:
-- each attempt is let through exactly if fewer than 5 attempts of its address were let through
-- in the 15 minutes up to it and since its last success, though the code forgets the older ones.
pub answers-eq-expected :
    (events : List Event)
    → IsOrdered 0 events
    → answers (λ ip. []) events ≡ expected (λ ip. []) events
answers-eq-expected events o = answers-eq-expected_from events 0 _ _ o (λ ip. Agrees-nil 0)
